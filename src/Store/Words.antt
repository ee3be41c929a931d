-- ===== src/Store/Words.antt =====
-- Words of 64 bits, for int and int64 counters in two's complement.
use learning_redis.Common.{ℕ, ◌+◌, ◌-◌, ◌%◌, ◌^◌, ◌≡◌, arith}

unfoldable pub add_word : ℕ → ℕ → ℕ
add_word a b = (a + b) % 2 ^ 64

unfoldable pub sub_word : ℕ → ℕ → ℕ
sub_word a b = (a + (2 ^ 64 - b % 2 ^ 64)) % 2 ^ 64

pub add_word_mod : (a b : ℕ) → add_word (a % 2 ^ 64) b ≡ (a + b) % 2 ^ 64
unfolding add_word
add_word_mod a b = omega arith

-- A counter that wraps still counts modulo 2^64, also after it went down.
pub sub_word_mod : (a b c : ℕ) → a ≡ c + b → sub_word (a % 2 ^ 64) b ≡ c % 2 ^ 64
unfolding sub_word
sub_word_mod a b c e = omega arith
