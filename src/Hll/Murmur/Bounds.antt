-- ===== src/Hll/Murmur/Bounds.antt =====
-- Every hash is a uint64, so the index names a register and the rank fits one.
use native.Mathlib.Nat.{pow-suc}
use learning_redis.Common.{
  ℕ, zero, suc, ◌+◌, ◌*◌, ◌/◌, ◌%◌, ◌^◌, ◌≤◌, ◌<◌, arith, [], ◌∷◌, Bytes, take, drop,
}
use learning_redis.Common.Bits.{bit_xor-lt, bit_or-add, bit_and-mask}
use learning_redis.Hll.Murmur.{
  fold_high, little_endian, mix, blocks, xor_tail, add_tail, murmur_hash64a, trailing_zeros,
  hll_pat_len,
}

fold_high-lt : (a : ℕ) → a < 2 ^ 64 → fold_high a < 2 ^ 64
fold_high-lt a h = bit_xor-lt 64 a (a / 2 ^ 47) h (omega arith)

blocks-lt : (n : ℕ) (bytes : Bytes) (h : ℕ) → h < 2 ^ 64 → blocks n bytes h < 2 ^ 64
unfolding blocks
blocks-lt zero bytes h lt = lt
blocks-lt (suc n) bytes h lt =
    blocks-lt n (drop 8 bytes) (mix h (little_endian (take 8 bytes))) (omega arith)

xor_tail-lt : (bytes : Bytes) (shift h : ℕ) → h < 2 ^ 64 → xor_tail bytes shift h < 2 ^ 64
unfolding xor_tail
xor_tail-lt [] shift h lt = lt
xor_tail-lt (b ∷ bs) shift h lt =
    bit_xor-lt 64 (xor_tail bs (shift + 8) h) (b * 2 ^ shift % 2 ^ 64)
      (xor_tail-lt bs (shift + 8) h lt) (omega arith)

add_tail-lt : (bytes : Bytes) (h : ℕ) → h < 2 ^ 64 → add_tail bytes h < 2 ^ 64
unfolding add_tail
add_tail-lt [] h lt = lt
add_tail-lt (b ∷ bs) h lt = omega arith

pub murmur_hash64a-lt : (bytes : Bytes) → murmur_hash64a bytes < 2 ^ 64
unfolding murmur_hash64a
murmur_hash64a-lt bytes = fold_high-lt _ (omega arith)

-- A number with its highest bit at `k` has at most `k` trailing zeros.
trailing_zeros-le : (k bits n : ℕ) → 2 ^ k ≤ n → n < 2 ^ suc k → trailing_zeros bits n ≤ k
unfolding trailing_zeros
trailing_zeros-le k zero n lo hi = omega arith
trailing_zeros-le zero (suc bits) n lo hi = ground arith
trailing_zeros-le (suc k) (suc bits) n lo hi = ground (
  arith,
  pow-suc 2 k,
  pow-suc 2 (suc k),
  trailing_zeros-le k bits (n / 2) (omega (arith, pow-suc 2 k))
      (omega (arith, pow-suc 2 k, pow-suc 2 (suc k))),
)

-- The index names one of the 16384 registers, and the rank is between 1 and 51.
pub hll_pat_len_bounds :
    (bytes : Bytes)
    → ((hll_pat_len bytes).0 < 16384) × (1 ≤ (hll_pat_len bytes).1) × ((hll_pat_len bytes).1 ≤ 51)
unfolding hll_pat_len
hll_pat_len_bounds bytes =
    let hash = murmur_hash64a bytes in
    let rest = hash / 2 ^ 14 + 2 ^ 50 in
    ground (
      arith,
      murmur_hash64a-lt bytes,
      bit_and-mask 14 hash,
      bit_or-add 50 (hash / 2 ^ 14) 1,
      trailing_zeros-le 50 64 rest,
    )
