-- ===== src/Hll/Dense/Lanes.antt =====
-- Four counters fill three bytes, and the shifts of a counter depend on its place among the four.
-- Here the masks and shifts are plain arithmetic, one case for each place.
use learning_redis.Common.{
  ℕ, ◌+◌, ◌*◌, ◌/◌, ◌%◌, ◌<◌, ◌≡◌, ◌≢◌, zero, suc, refl, arith, bit_and, ◌==◌, if◌then◌else◌,
}
use learning_redis.Common.Bits.{
  agree_from, table_eq, bit_or-add, bit_or-add_above, bit_or-zero, bit_and-mask,
}
use learning_redis.Hll.Dense.{byte_idx, first_bit, read_bits, write_low, write_high}

pub data Lane : Type 0 where
  lane0 lane1 lane2 lane3 : Lane

abbrev pub place : Lane → ℕ
place lane0 = 0
place lane1 = 1
place lane2 = 2
place lane3 = 3

-- The first of its bytes among the three, and the first bit in that byte.
abbrev pub start : Lane → ℕ
start lane0 = 0
start lane1 = 0
start lane2 = 1
start lane3 = 2

abbrev pub shift : Lane → ℕ
shift lane0 = 0
shift lane1 = 6
shift lane2 = 4
shift lane3 = 2

-- What the counter reads from its two bytes.
abbrev pub field : Lane → ℕ → ℕ → ℕ
field lane0 x y = x % 64
field lane1 x y = x / 64 + y % 16 * 4
field lane2 x y = x / 16 + y % 4 * 16
field lane3 x y = x / 4

-- Its two bytes after a write of `v`.
abbrev pub low_byte : Lane → ℕ → ℕ → ℕ
low_byte lane0 x v = x / 64 * 64 + v
low_byte lane1 x v = x % 64 + v % 4 * 64
low_byte lane2 x v = x % 16 + v % 16 * 16
low_byte lane3 x v = x % 4 + v * 4

abbrev pub high_byte : Lane → ℕ → ℕ → ℕ
high_byte lane0 y v = y
high_byte lane1 y v = y / 16 * 16 + v / 4
high_byte lane2 y v = y / 4 * 4 + v / 16
high_byte lane3 y v = y

pub lane_of : (i : ℕ) → (l : Lane) × (i ≡ 4 * (i / 4) + place l)
lane_of i = pick (i % 4) (omega arith) (omega arith)
  where
    pick : (r : ℕ) → r < 4 → i ≡ 4 * (i / 4) + r → (l : Lane) × (i ≡ 4 * (i / 4) + place l)
    pick zero h e = (lane0, e)
    pick (suc zero) h e = (lane1, e)
    pick (suc (suc zero)) h e = (lane2, e)
    pick (suc (suc (suc zero))) h e = (lane3, e)
    pick (suc (suc (suc (suc r)))) h e = absurd (omega arith)

pub position :
    (l : Lane) (i g : ℕ)
    → i ≡ 4 * g + place l
    → i < 16384
    → (byte_idx i ≡ 3 * g + start l) × (first_bit i ≡ shift l)
position lane0 i g e h = omega arith
position lane1 i g e h = omega arith
position lane2 i g e h = omega arith
position lane3 i g e h = omega arith

pub read_bits-field :
    (l : Lane) (x y : ℕ) → x < 256 → y < 256 → read_bits (shift l) x y ≡ field l x y
unfolding read_bits
read_bits-field lane0 x y hx hy = ground (arith, bit_or-add 8 x y, bit_and-mask 6 (x + y * 256))
read_bits-field lane1 x y hx hy =
    ground (arith, bit_or-add 2 (x / 64) y, bit_and-mask 6 (x / 64 + y * 4))
read_bits-field lane2 x y hx hy =
    ground (arith, bit_or-add 4 (x / 16) y, bit_and-mask 6 (x / 16 + y * 16))
read_bits-field lane3 x y hx hy =
    ground (arith, bit_or-add 6 (x / 4) y, bit_and-mask 6 (x / 4 + y * 64))

-- The masks that a write keeps.
mask_192 : (x : ℕ) → x < 256 → bit_and x 192 ≡ x / 64 * 64
unfolding agree_from
mask_192 = table_eq 256 _ _ refl

mask_240 : (x : ℕ) → x < 256 → bit_and x 240 ≡ x / 16 * 16
unfolding agree_from
mask_240 = table_eq 256 _ _ refl

mask_252 : (x : ℕ) → x < 256 → bit_and x 252 ≡ x / 4 * 4
unfolding agree_from
mask_252 = table_eq 256 _ _ refl

pub write_low_lem :
    (l : Lane) (x v : ℕ) → x < 256 → v < 64 → write_low (shift l) x v ≡ low_byte l x v
unfolding write_low
write_low_lem lane0 x v hx hv = ground (arith, mask_192 x, bit_or-add_above 6 (x / 64) v)
write_low_lem lane1 x v hx hv = ground (arith, bit_and-mask 6 x, bit_or-add 6 (x % 64) (v % 4))
write_low_lem lane2 x v hx hv = ground (arith, bit_and-mask 4 x, bit_or-add 4 (x % 16) (v % 16))
write_low_lem lane3 x v hx hv = ground (arith, bit_and-mask 2 x, bit_or-add 2 (x % 4) v)

pub write_high_lem :
    (l : Lane) (y v : ℕ) → y < 256 → v < 64 → write_high (shift l) y v ≡ high_byte l y v
unfolding write_high
write_high_lem lane0 y v hy hv = ground (arith, bit_and-mask 8 y, bit_or-zero (y % 256))
write_high_lem lane1 y v hy hv = ground (arith, mask_240 y, bit_or-add_above 4 (y / 16) (v / 4))
write_high_lem lane2 y v hy hv = ground (arith, mask_252 y, bit_or-add_above 2 (y / 4) (v / 16))
write_high_lem lane3 y v hy hv = ground (arith, bit_and-mask 8 y, bit_or-zero (y % 256))

-- A counter reads back what was written to it.
pub field_self :
    (l : Lane) (x y v : ℕ)
    → x < 256
    → y < 256
    → v < 64
    → (field l (low_byte l x v) (high_byte l y v) ≡ v)
      × (low_byte l x v < 256)
      × (high_byte l y v < 256)
field_self lane0 x y v hx hy hv = omega arith
field_self lane1 x y v hx hy hv = omega arith
field_self lane2 x y v hx hy hv = omega arith
field_self lane3 x y v hx hy hv = omega arith

-- The bytes `a` after a write of `v` to the counter at place `l` of the group `g`.
abbrev pub written : (ℕ → ℕ) → Lane → ℕ → ℕ → ℕ → ℕ
written a l g v k =
    if k == 3 * g + start l + 1
    then high_byte l (a k) v
    else if k == 3 * g + start l
    then low_byte l (a k) v
    else a k

-- A write leaves every other counter alone, also where the two share a byte.
pub field_other :
    (l m : Lane) (a : ℕ → ℕ) (g h v : ℕ)
    → v < 64
    → a (3 * h + start m) < 256
    → a (3 * h + start m + 1) < 256
    → 4 * g + place l ≢ 4 * h + place m
    → field m (written a l g v (3 * h + start m)) (written a l g v (3 * h + start m + 1))
      ≡ field m (a (3 * h + start m)) (a (3 * h + start m + 1))
field_other lane0 lane0 a g h v hv hx hy ne = ground arith
field_other _ _ a g h v hv hx hy ne = ground arith
