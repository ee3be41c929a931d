-- ===== src/Hll/Dense.antt =====
-- The dense form of a sketch (store/hll/hll.go): 16384 counters of six bits, packed into bytes with
-- the low bits first, so that a counter spans two bytes at most.
-- `none` stands for the panic of an index out of range.
pub mod Lanes
pub mod Grow
use learning_redis.Common.{
  ℕ, ◌+◌, ◌-◌, ◌*◌, ◌/◌, ◌%◌, ◌^◌, Bool, true, false, Option, none, some, ◌>>=◌, leb, ltb,
  if◌then◌else◌, get_elem?, set, replicate, Bytes, bit_and, bit_or,
}
use learning_redis.Hll.Registers.{registers, register_max}

abbrev pub hll_bits : ℕ
hll_bits = 6

-- The product is a uint64.
abbrev pub byte_idx : ℕ → ℕ
byte_idx regnum = regnum * hll_bits % 2 ^ 64 / 8

abbrev pub first_bit : ℕ → ℕ
first_bit regnum = regnum * hll_bits % 2 ^ 64 % 8

-- `uint8((b0>>firstBit | b1<<remBits) & registerMax)`, over two uint16.
unfoldable pub read_bits : ℕ → ℕ → ℕ → ℕ
read_bits first b0 b1 =
    bit_and (bit_or (b0 / 2 ^ first) (b1 * 2 ^ (8 - first) % 65536)) register_max % 256

-- `x &^ m` on bytes.
abbrev pub and_not : ℕ → ℕ → ℕ
and_not x m = bit_and x (255 - m)

-- The two bytes after `&^=` and `|=`.
unfoldable pub write_low : ℕ → ℕ → ℕ → ℕ
write_low first b val = bit_or (and_not b (register_max * 2 ^ first % 256)) (val * 2 ^ first % 256)

unfoldable pub write_high : ℕ → ℕ → ℕ → ℕ
write_high first b val = bit_or (and_not b (register_max / 2 ^ (8 - first))) (val / 2 ^ (8 - first))

unfoldable pub get_dense_register : Bytes → ℕ → Option ℕ
unfolding read_bits
get_dense_register dense regnum = do
  b0 ← get_elem? dense (byte_idx regnum)
  b1 ← get_elem? dense (byte_idx regnum + 1)
  some (read_bits (first_bit regnum) b0 b1)

-- The two writes, once the guards have passed.
unfoldable pub write_register : Bytes → ℕ → ℕ → Option (Bytes × Bool)
write_register dense regnum val = do
  b0 ← get_elem? dense (byte_idx regnum)
  let dense' = set dense (byte_idx regnum) (write_low (first_bit regnum) b0 val)
  b1 ← get_elem? dense' (byte_idx regnum + 1)
  some (set dense' (byte_idx regnum + 1) (write_high (first_bit regnum) b1 val), true)

unfoldable pub set_dense_register : Bytes → ℕ → ℕ → Option (Bytes × Bool)
set_dense_register dense regnum val = do
  let clamped = if ltb register_max val then register_max else val
  old ← get_dense_register dense regnum
  if leb clamped old then some (dense, false) else write_register dense regnum clamped

-- One byte of padding lets the last register read its second byte.
abbrev pub dense_size : ℕ
dense_size = (registers * hll_bits + 7) / 8 + 1

unfoldable pub new_dense_array : Bytes
new_dense_array = replicate dense_size 0
