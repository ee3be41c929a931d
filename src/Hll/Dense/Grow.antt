-- ===== src/Hll/Dense/Grow.antt =====
-- `setDenseRegister` on a full array implements the abstract sketch.
use mathlib.Core.Option.{get_or}
use native.Mathlib.Decide.{ℕ_discrete, dec_lt}
use learning_redis.Common.{
  subst, ℕ, ◌+◌, ◌*◌, ◌/◌, ◌<◌, ◌≡◌, ◌≢◌, refl, sym, ap, ◌∙◌, arith, true, false, some, ltb, ◌==◌,
  if◌then◌else◌, get_elem?, get_elem?-some, get_elem?-set_self, get_elem?-set_ne, set, length,
  length-set, length-replicate, replicate, Bytes, lt→ltb, not-lt→ltb, zero, suc,
}
use learning_redis.Hll.Registers.{registers, Registers, grow}
use learning_redis.Hll.Dense.{
  get_dense_register, set_dense_register, write_register, dense_size, new_dense_array,
}
use learning_redis.Hll.Dense.Lanes.{
  Lane, place, start, field, low_byte, high_byte, lane_of, position, read_bits-field, write_low_lem,
  write_high_lem, field_self, written, field_other,
}

abbrev byte_at : Bytes → ℕ → ℕ
byte_at dense k = get_or (get_elem? dense k) 0

-- A full array of bytes, whose registers read as `f` says.
pub record HoldsDense (dense : Bytes) (f : Registers) : Type 0 where
  pub size : length dense ≡ dense_size
  pub bytes : (k : ℕ) → byte_at dense k < 256
  pub reads : (j : ℕ) → j < registers → get_dense_register dense j ≡ some (f j)

get_elem?-byte_at :
    (dense : Bytes) (k : ℕ) → k < length dense → get_elem? dense k ≡ some (byte_at dense k)
get_elem?-byte_at dense k h = let (b, e) = get_elem?-some dense k h in rw e

byte_at-set :
    (dense : Bytes) (i k v : ℕ)
    → i < length dense
    → byte_at (set dense i v) k ≡ (if k == i then v else byte_at dense k)
byte_at-set dense i k v h =
    ground (arith, get_elem?-set_self dense i v h, get_elem?-set_ne dense i k v)

start_fits : (l : Lane) (g : ℕ) → 4 * g + place l < registers → 3 * g + start l + 1 < dense_size
start_fits Lane.lane0 g h = omega arith
start_fits Lane.lane1 g h = omega arith
start_fits Lane.lane2 g h = omega arith
start_fits Lane.lane3 g h = omega arith

self_written :
    (l : Lane) (g : ℕ) (a : ℕ → ℕ) (v : ℕ)
    → ((k : ℕ) → a k < 256)
    → v < 64
    → field l (written a l g v (3 * g + start l)) (written a l g v (3 * g + start l + 1)) ≡ v
self_written l g a v bytes small = ground (
  arith,
  field_self l (a (3 * g + start l)) (a (3 * g + start l + 1)) v (bytes _) (bytes _) small,
)

field_lt : (l : Lane) (x y : ℕ) → x < 256 → y < 256 → field l x y < 64
field_lt Lane.lane0 x y hx hy = omega arith
field_lt Lane.lane1 x y hx hy = omega arith
field_lt Lane.lane2 x y hx hy = omega arith
field_lt Lane.lane3 x y hx hy = omega arith

-- An array of the right size, and the counter at place `l` of its group `g`.
module _ (dense : Bytes) (l : Lane) (g : ℕ) (size : length dense ≡ dense_size)
    (bytes : (k : ℕ) → byte_at dense k < 256) (here : 4 * g + place l < registers) where
  -- The read in plain arithmetic.
  get_dense_register-field :
      get_dense_register dense (4 * g + place l)
      ≡ some (field l (byte_at dense (3 * g + start l)) (byte_at dense (3 * g + start l + 1)))
  unfolding get_dense_register
  get_dense_register-field =
      let (p, q) = position l (4 * g + place l) g refl here in
      let fits = start_fits l g here in
      let k = 3 * g + start l in
      rw (p, q)
        (rw (get_elem?-byte_at dense k (omega arith), get_elem?-byte_at dense (k + 1) (omega arith))
          (ap some (
            read_bits-field l (byte_at dense k) (byte_at dense (k + 1)) (bytes k) (bytes (k + 1)))))

module _ (dense : Bytes) (l : Lane) (g : ℕ) (size : length dense ≡ dense_size)
    (bytes : (k : ℕ) → byte_at dense k < 256) (here : 4 * g + place l < registers) where
  module _ (v : ℕ) (small : v < 64) where
    after_low : Bytes
    after_low = set dense (3 * g + start l) (low_byte l (byte_at dense (3 * g + start l)) v)

    after_write : Bytes
    after_write =
        set after_low (3 * g + start l + 1) (high_byte l (byte_at dense (3 * g + start l + 1)) v)

    second_byte :
        get_elem? after_low (3 * g + start l + 1) ≡ some (byte_at dense (3 * g + start l + 1))
    unfolding after_low
    second_byte =
        let fits = start_fits l g here in
        get_elem?-set_ne dense (3 * g + start l) (3 * g + start l + 1) _ (omega arith)
        ∙ get_elem?-byte_at dense (3 * g + start l + 1) (omega arith)

    write_register-after : write_register dense (4 * g + place l) v ≡ some (after_write, true)
    unfolding write_register after_write after_low
    write_register-after =
        let (p, q) = position l (4 * g + place l) g refl here in
        let fits = start_fits l g here in
        let k = 3 * g + start l in
        rw (p, q)
          (rw (
            get_elem?-byte_at dense k (omega arith),
            write_low_lem l (byte_at dense k) v (bytes k) small,
            second_byte,
            write_high_lem l (byte_at dense (k + 1)) v (bytes (k + 1)) small,
          ))

    byte_at-after : (k : ℕ) → byte_at after_write k ≡ written (byte_at dense) l g v k
    unfolding after_write after_low
    byte_at-after k =
        let fits = start_fits l g here in
        let i = 3 * g + start l in
        let x = low_byte l (byte_at dense i) v in
        let y = high_byte l (byte_at dense (i + 1)) v in
        byte_at-set (set dense i x) (i + 1) k y (rw (length-set dense i x) (omega arith))
        ∙ rw (byte_at-set dense i k x (omega arith)) (ground arith)

    length-after : length after_write ≡ dense_size
    unfolding after_write after_low
    length-after = length-set _ _ _ ∙ length-set _ _ _ ∙ size

    after-byte : (k : ℕ) → byte_at after_write k < 256
    after-byte k = rw (byte_at-after k) (
        ground (
          arith,
          bytes k,
          field_self l (byte_at dense k) (byte_at dense k) v (bytes k) (bytes k) small,
        ))

    read_same : get_dense_register after_write (4 * g + place l) ≡ some v
    read_same =
        get_dense_register-field after_write l g length-after after-byte here
        ∙ rw (byte_at-after (3 * g + start l), byte_at-after (3 * g + start l + 1))
            (ap some (self_written l g (byte_at dense) v bytes small))

    read_other :
        (m : Lane) (h : ℕ)
        → 4 * h + place m < registers
        → 4 * g + place l ≢ 4 * h + place m
        → get_dense_register after_write (4 * h + place m)
          ≡ get_dense_register dense (4 * h + place m)
    read_other m h there ne =
        get_dense_register-field after_write m h length-after after-byte there
        ∙ rw (byte_at-after (3 * h + start m), byte_at-after (3 * h + start m + 1))
            (ap some (field_other l m (byte_at dense) g h v small (bytes _) (bytes _) ne))
        ∙ sym (get_dense_register-field dense m h size bytes there)

-- The write of `v` to register `i` succeeds, and implements `grow`.
abbrev Writes : Bytes → Registers → ℕ → ℕ → Type 0
Writes dense f i v =
    (out : Bytes) × (write_register dense i v ≡ some (out, true)) × HoldsDense out (grow f i v)

write_register-grow :
    (dense : Bytes) (f : Registers) (l : Lane) (g v : ℕ)
    → HoldsDense dense f
    → 4 * g + place l < registers
    → v < 64
    → f (4 * g + place l) < v
    → Writes dense f (4 * g + place l) v
write_register-grow dense f l g v held here small less = (
  after_write dense l g size bytes here v small,
  write_register-after dense l g size bytes here v small,
  record {
    size = length-after dense l g size bytes here v small;
    bytes = after-byte dense l g size bytes here v small;
    reads = λ j lt.
        let (m, e) = lane_of j in
        subst
          (λ (i : ℕ).
            get_dense_register (after_write dense l g size bytes here v small) i
            ≡ some (grow f (4 * g + place l) v i))
          (sym e) (read_at m (j / 4) (subst (λ (i : ℕ). i < registers) e lt));
  },
)
  where
    open held use {size, bytes, reads}

    read_at :
        (m : Lane) (h : ℕ)
        → 4 * h + place m < registers
        → get_dense_register (after_write dense l g size bytes here v small) (4 * h + place m)
          ≡ some (grow f (4 * g + place l) v (4 * h + place m))
    read_at m h there = elim (ℕ_discrete (4 * h + place m) (4 * g + place l)) [
      | yes e ↦ rw e (read_same dense l g size bytes here v small ∙ ground arith)
      | no ne ↦
          read_other dense l g size bytes here v small m h there (λ e. ne (sym e))
          ∙ reads (4 * h + place m) there
          ∙ ground arith
    ]

-- A register of a full array is below 64.
pub register_at-lt :
    (dense : Bytes) (f : Registers) (j : ℕ) → HoldsDense dense f → j < registers → f j < 64
register_at-lt dense f j held lt =
    let (l, e) = lane_of j in at_lane l (j / 4) e (subst (λ (i : ℕ). i < registers) e lt)
  where
    open held use {size, bytes, reads}

    at_lane : (l : Lane) (g : ℕ) → j ≡ 4 * g + place l → 4 * g + place l < registers → f j < 64
    at_lane l g e here =
        let k = 3 * g + start l in
        ground (
          arith,
          reads j lt,
          ap (get_dense_register dense) e,
          get_dense_register-field dense l g size bytes here,
          field_lt l (byte_at dense k) (byte_at dense (k + 1)) (bytes k) (bytes (k + 1)),
        )

set_dense_register-less :
    (dense : Bytes) (f : Registers) (i v : ℕ)
    → HoldsDense dense f
    → i < registers
    → v < 64
    → f i < v
    → set_dense_register dense i v ≡ write_register dense i v
unfolding set_dense_register
set_dense_register-less dense f i v held lt small less = rw (held.reads i lt) (ground arith)

set_dense_register-more :
    (dense : Bytes) (f : Registers) (i v : ℕ)
    → HoldsDense dense f
    → i < registers
    → v < 64
    → ¬ (f i < v)
    → set_dense_register dense i v ≡ some (dense, false)
unfolding set_dense_register
set_dense_register-more dense f i v held lt small more = rw (held.reads i lt) (ground arith)

-- `setDenseRegister` reports whether the value is larger than the register's, and then writes it:
-- every register reads as the abstract sketch says, also those that share a byte with it.
pub set_dense_register-grow :
    (dense : Bytes) (f : Registers) (i v : ℕ)
    → HoldsDense dense f
    → i < registers
    → v < 64
    → (out : Bytes) × (set_dense_register dense i v ≡ some (out, ltb (f i) v))
      × HoldsDense out (grow f i v)
set_dense_register-grow dense f i v held lt small = elim (dec_lt (f i) v) [
  | yes less ↦
      let (l, e) = lane_of i in
      let (out, run, after) =
        subst (λ (k : ℕ). Writes dense f k v) (sym e)
          (write_register-grow dense f l (i / 4) v held (subst (λ (k : ℕ). k < registers) e lt)
            small (subst (λ (k : ℕ). f k < v) e less)) in
      (
        out,
        set_dense_register-less dense f i v held lt small less ∙ run ∙ rw (lt→ltb (f i) v less),
        after,
      )
  | no more ↦ (
    dense,
    set_dense_register-more dense f i v held lt small more ∙ rw (not-lt→ltb (f i) v more),
    record {
      size = held.size;
      bytes = held.bytes;
      reads = λ j ltj. held.reads j ltj ∙ ground arith;
    },
  )
]

byte_at-replicate : (n k : ℕ) → byte_at (replicate n 0) k ≡ 0
byte_at-replicate zero k = refl
byte_at-replicate (suc n) zero = refl
byte_at-replicate (suc n) (suc k) = byte_at-replicate n k

zeros-HoldsDense :
    (dense : Bytes) (n : ℕ) → dense ≡ replicate n 0 → n ≡ dense_size → HoldsDense dense (λ i. 0)
zeros-HoldsDense dense n e size = record {
  size = length_zeros;
  bytes = λ k. rw (zero_byte k) (omega arith);
  reads = λ j lt.
      let (l, p) = lane_of j in
      ap (get_dense_register dense) p
      ∙ get_dense_register-field dense l (j / 4) length_zeros (λ k. rw (zero_byte k) (omega arith))
          (subst (λ (i : ℕ). i < registers) p lt)
      ∙ rw (zero_byte (3 * (j / 4) + start l), zero_byte (3 * (j / 4) + start l + 1))
          (ap some (zero_field l));
}
  where
    length_zeros : length dense ≡ dense_size
    length_zeros = ap length e ∙ length-replicate n 0 ∙ size

    zero_byte : (k : ℕ) → byte_at dense k ≡ 0
    zero_byte k = rw e (byte_at-replicate n k)

    zero_field : (l : Lane) → field l 0 0 ≡ 0
    zero_field Lane.lane0 = refl
    zero_field Lane.lane1 = refl
    zero_field Lane.lane2 = refl
    zero_field Lane.lane3 = refl

-- A new array is full of zeros.
pub new_dense_array-HoldsDense : HoldsDense new_dense_array (λ i. 0)
unfolding new_dense_array
new_dense_array-HoldsDense = zeros-HoldsDense new_dense_array dense_size refl refl
