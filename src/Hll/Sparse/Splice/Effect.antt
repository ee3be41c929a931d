-- ===== src/Hll/Sparse/Splice/Effect.antt =====
-- What `sparseSet` does to the registers: the one that it names grows to the new value, and no
-- other changes.
use native.Mathlib.Decide.{dec_lt}
use learning_redis.Hll.Registers.{registers, Registers, grow}
use learning_redis.Common.{
  lt→ltb, not-lt→ltb, ℕ, ◌+◌, ◌-◌, ◌≤◌, ◌<◌, ◌≡◌, refl, ap, ◌∙◌, arith, List, [], ◌∷◌, ◌++◌, Bytes,
  true, false, some, ltb, ◌==◌, if◌then◌else◌, All, All-append,
}
use learning_redis.Hll.Sparse.{sparse_get, sparse_set}
use learning_redis.Hll.Sparse.Ops.{
  Op, zero_op, xzero_op, val_op, op_len, op_value, IsOp, encode_ops, total_len, register, Spells,
}
use learning_redis.Hll.Sparse.Walk.{sparse_get-register}
use learning_redis.Hll.Sparse.Splice.{zero_run, part, split, splice, sparse_set-result}

total_len-append : (xs ys : List Op) → total_len (xs ++ ys) ≡ total_len xs + total_len ys
total_len-append [] ys = omega arith
total_len-append (x ∷ xs) ys = omega (arith, total_len-append xs ys)

register-append :
    (xs ys : List Op) (i : ℕ)
    → register (xs ++ ys) i
      ≡ (if ltb i (total_len xs) then register xs i else register ys (i - total_len xs))
register-append [] ys i = let e : i - 0 ≡ i = omega arith in ground (arith, e)
register-append (x ∷ xs) ys i =
    let e : i - op_len x - total_len xs ≡ i - (op_len x + total_len xs) = omega arith in
    ground (arith, e, register-append xs ys (i - op_len x))

part_lem :
    (o : Op) (n i : ℕ)
    → (total_len (part o n) ≡ n) × (register (part o n) i ≡ (if ltb i n then op_value o else 0))
unfolding part zero_run
part_lem (zero_op m) n i = ground arith
part_lem (xzero_op m) n i = ground arith
part_lem (val_op v m) n i = ground arith

part-IsOp : (o : Op) (n : ℕ) → IsOp o → n < op_len o → All IsOp (part o n)
unfolding part zero_run
part-IsOp (zero_op m) n h lt = ground arith
part-IsOp (xzero_op m) n h lt = ground arith
part-IsOp (val_op v m) n h lt = ground arith

total_len-split : (o : Op) (i val : ℕ) → i < op_len o → total_len (split o i val) ≡ op_len o
unfolding split
total_len-split o i val h = omega (
  arith,
  total_len-append (part o i) (val_op val 1 ∷ part o (op_len o - i - 1)),
  part_lem o i 0,
  part_lem o (op_len o - i - 1) 0,
)

register-split :
    (o : Op) (i val j : ℕ)
    → i < op_len o
    → j < op_len o
    → register (split o i val) j ≡ (if j == i then val else op_value o)
unfolding split
register-split o i val j hi hj = ground (
  arith,
  register-append (part o i) (val_op val 1 ∷ part o (op_len o - i - 1)) j,
  part_lem o i j,
  part_lem o (op_len o - i - 1) (j - i - 1),
)

split-IsOp :
    (o : Op) (i val : ℕ) → IsOp o → i < op_len o → 1 ≤ val → val ≤ 32 → All IsOp (split o i val)
unfolding split
split-IsOp o i val h hi lo hi' =
    All-append IsOp (part o i) (val_op val 1 ∷ part o (op_len o - i - 1)) (part-IsOp o i h hi)
      ((lo, hi', omega arith, omega arith), part-IsOp o (op_len o - i - 1) h (omega arith))

pub total_len-splice : (ops : List Op) (i val : ℕ) → total_len (splice ops i val) ≡ total_len ops
unfolding splice
total_len-splice [] i val = refl
total_len-splice (o ∷ ops) i val = ground (
  arith,
  total_len-append (split o i val) ops,
  total_len-split o i val,
  total_len-splice ops (i - op_len o) val,
)

pub splice-IsOp :
    (ops : List Op) (i val : ℕ) → All IsOp ops → 1 ≤ val → val ≤ 32 → All IsOp (splice ops i val)
unfolding splice
splice-IsOp [] i val each lo hi = tt
splice-IsOp (o ∷ ops) i val each lo hi = elim (dec_lt i (op_len o)) [
  | yes h ↦
      rw (lt→ltb i (op_len o) h)
        (All-append IsOp (split o i val) ops (split-IsOp o i val each.0 h lo hi) each.1)
  | no h ↦ rw (not-lt→ltb i (op_len o) h) (each.0, splice-IsOp ops (i - op_len o) val each.1 lo hi)
]

register-here :
    (o : Op) (ops : List Op) (i val j : ℕ)
    → i < op_len o
    → register (split o i val ++ ops) j ≡ (if j == i then val else register (o ∷ ops) j)
register-here o ops i val j h =
    register-append (split o i val) ops j
    ∙ rw (total_len-split o i val h) (ground (arith, register-split o i val j))

register-past :
    (o : Op) (ops : List Op) (i val j : ℕ)
    → op_len o ≤ i
    → register (splice ops (i - op_len o) val) (j - op_len o)
      ≡ (if (j - op_len o) == (i - op_len o) then val else register ops (j - op_len o))
    → register (o ∷ splice ops (i - op_len o) val) j
      ≡ (if j == i then val else register (o ∷ ops) j)
register-past o ops i val j h ih = ground arith

pub register-splice :
    (ops : List Op) (i val j : ℕ)
    → i < total_len ops
    → register (splice ops i val) j ≡ (if j == i then val else register ops j)
unfolding splice
register-splice [] i val j h = absurd (omega arith)
register-splice (o ∷ ops) i val j h = elim (dec_lt i (op_len o)) [
  | yes lt ↦ rw (lt→ltb i (op_len o) lt) (register-here o ops i val j lt)
  | no ge ↦ rw (not-lt→ltb i (op_len o) ge) (
      register-past o ops i val j (omega arith)
        (register-splice ops (i - op_len o) val (j - op_len o) (omega arith)))
]

-- The stream covers all the registers, and `sparseGet` reads the values of `f`.
pub record HoldsSparse (sparse : Bytes) (f : Registers) : Type 0 where
  pub spells : Spells sparse registers
  pub reads : (j : ℕ) → j < registers → sparse_get sparse j ≡ some (f j)

register-le : (ops : List Op) (j : ℕ) → All IsOp ops → register ops j ≤ 32
register-le [] j each = omega arith
register-le (zero_op n ∷ ops) j each = ground (arith, register-le ops (j - n) each.1)
register-le (xzero_op n ∷ ops) j each = ground (arith, register-le ops (j - n) each.1)
register-le (val_op v n ∷ ops) j each = ground (arith, register-le ops (j - n) each.1)

module _ {sparse : Bytes} {f : Registers} (h : HoldsSparse sparse f) where
  open h use {spells, reads}

  pub register-held : (j : ℕ) → j < registers → register spells.ops j ≡ f j
  register-held j lt = cc (
    sparse_get-register spells.ops j spells.each (rw spells.total (omega arith)),
    spells.stream,
    reads j lt,
  )

  -- A register of the sparse form holds at most 32.
  pub held-le : (j : ℕ) → j < registers → f j ≤ 32
  held-le j lt = rw (← register-held j lt) (register-le spells.ops j spells.each)

  sparse_set-held :
      (index val : ℕ)
      → index < registers
      → sparse_set sparse index val
        ≡ some (
            if ltb (f index) val
            then (encode_ops (splice spells.ops index val), true)
            else (sparse, false))
  sparse_set-held index val lt =
      let result =
        sparse_set-result spells.ops index val spells.each (rw spells.total (omega arith)) in
      ap (λ s. sparse_set s index val) spells.stream
      ∙ result
      ∙ ground (arith, spells.total, spells.stream, register-held index lt)

  splice-HoldsSparse :
      (index val : ℕ)
      → index < registers
      → 1 ≤ val
      → val ≤ 32
      → f index < val
      → HoldsSparse (encode_ops (splice spells.ops index val)) (grow f index val)
  splice-HoldsSparse index val lt lo hi less =
      let each = splice-IsOp spells.ops index val spells.each lo hi in
      let total = total_len-splice spells.ops index val ∙ spells.total in
      record {
        spells = record {
          ops = splice spells.ops index val;
          each = each;
          stream = refl;
          total = total;
        };
        reads = λ j ltj.
            sparse_get-register (splice spells.ops index val) j each (rw total (omega arith))
            ∙ ap some (
                register-splice spells.ops index val j (rw spells.total lt)
                ∙ ground (arith, register-held j ltj));
      }

-- `sparseSet` reports whether the value is larger than the register's, and then writes it: every
-- register reads as the abstract sketch says, and the stream still covers all of them.
pub sparse_set-grow :
    (sparse : Bytes) (f : Registers) (index val : ℕ)
    → HoldsSparse sparse f
    → index < registers
    → 1 ≤ val
    → val ≤ 32
    → (out : Bytes) × (sparse_set sparse index val ≡ some (out, ltb (f index) val))
      × HoldsSparse out (grow f index val)
sparse_set-grow sparse f index val h lt lo hi = elim (dec_lt (f index) val) [
  | yes less ↦ (
    encode_ops (splice h.spells.ops index val),
    sparse_set-held h index val lt ∙ rw (lt→ltb (f index) val less),
    splice-HoldsSparse h index val lt lo hi less,
  )
  | no more ↦ (
    sparse,
    sparse_set-held h index val lt ∙ rw (not-lt→ltb (f index) val more),
    record { spells = h.spells; reads = λ j ltj. ground (arith, h.reads j ltj) },
  )
]
