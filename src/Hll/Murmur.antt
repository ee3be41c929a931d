-- ===== src/Hll/Murmur.antt =====
-- The 64-bit MurmurHash of store/hll/murmur.go, and the register and rank that `hllPatLen` of
-- store/hll/hll.go takes from it. Arithmetic of uint64 is taken modulo 2^64.
pub mod Bounds
use learning_redis.Common.{
  ℕ, zero, suc, ◌+◌, ◌-◌, ◌*◌, ◌/◌, ◌%◌, ◌^◌, [], ◌∷◌, Bytes, ◌==◌, if◌then◌else◌, length, take,
  drop, bit_and, bit_or, bit_xor,
}
use learning_redis.Hll.Registers.{registers}

abbrev pub murmur_seed : ℕ
murmur_seed = 0xadc83b19

abbrev pub murmur_m : ℕ
murmur_m = 0xc6a4a7935bd1e995

abbrev pub murmur_r : ℕ
murmur_r = 47

-- `a * murmurM` of uint64.
abbrev pub times_m : ℕ → ℕ
times_m a = a * murmur_m % 2 ^ 64

-- `a ^= a >> murmurR`
abbrev pub fold_high : ℕ → ℕ
fold_high a = bit_xor a (a / 2 ^ murmur_r)

-- `binary.LittleEndian.Uint64` of eight bytes.
unfoldable pub little_endian : Bytes → ℕ
little_endian [] = 0
little_endian (b ∷ bs) = b + 256 * little_endian bs

-- One block's part of the hash.
abbrev pub mix : ℕ → ℕ → ℕ
mix h block = times_m (bit_xor h (times_m (fold_high (times_m (block % 2 ^ 64)))))

-- The loop over the blocks; the list is the part of `data` that is not yet read.
unfoldable pub blocks : ℕ → Bytes → ℕ → ℕ
unfolding little_endian
blocks zero bytes h = h
blocks (suc n) bytes h = blocks n (drop 8 bytes) (mix h (little_endian (take 8 bytes)))

-- The cases of the switch that fall through, from the last byte down to the first.
unfoldable pub xor_tail : Bytes → ℕ → ℕ → ℕ
xor_tail [] shift h = h
xor_tail (b ∷ bs) shift h = bit_xor (xor_tail bs (shift + 8) h) (b * 2 ^ shift % 2 ^ 64)

-- An empty tail leaves the hash as it is; the case of one byte ends with the multiplication.
unfoldable pub add_tail : Bytes → ℕ → ℕ
unfolding xor_tail
add_tail [] h = h
add_tail (b ∷ bs) h = times_m (xor_tail (b ∷ bs) 0 h)

unfoldable pub murmur_hash64a : Bytes → ℕ
unfolding blocks add_tail
murmur_hash64a bytes =
    let n = length bytes / 8 in
    let h = blocks n bytes (bit_xor murmur_seed (length bytes * murmur_m % 2 ^ 64)) in
    let h' = add_tail (drop (n * 8) bytes) h in fold_high (times_m (fold_high h'))

-- `bits.TrailingZeros64`, at most 64.
unfoldable pub trailing_zeros : ℕ → ℕ → ℕ
trailing_zeros zero n = 0
trailing_zeros (suc bits) n =
    let rest = suc (trailing_zeros bits (n / 2)) in if n % 2 == 1 then 0 else rest

-- The register's index, and the rank: one more than the zeros at the low end of the other bits.
-- Bit 50 of those is set, so that there are at most 50.
unfoldable pub hll_pat_len : Bytes → ℕ × ℕ
unfolding murmur_hash64a trailing_zeros
hll_pat_len bytes =
    let hash = murmur_hash64a bytes in
    let rest = bit_or (hash / 2 ^ 14) (1 * 2 ^ 50) in
    (bit_and hash (registers - 1), (trailing_zeros 64 rest + 1) % 256)
