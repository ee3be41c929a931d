-- ===== src/Hll/Sketch/Copy.antt =====
-- A sparse stream copied into a dense array takes the elementwise maximum.
use learning_redis.Common.{
  ℕ, ◌+◌, ◌-◌, ◌≤◌, ◌<◌, ◌≡◌, ap, ◌∙◌, arith, List, [], ◌∷◌, Bytes, Bool, Option, some, leb, ◌==◌,
  if◌then◌else◌, max, All, inl, inr, Bool-cases,
}
use learning_redis.Hll.Registers.{registers, Registers, union}
use learning_redis.Hll.Sparse.{walk_sparse}
use learning_redis.Hll.Sparse.Ops.{
  Op, zero_op, xzero_op, val_op, op_len, op_value, IsOp, total_len, register,
}
use learning_redis.Hll.Sparse.Walk.{walk_ops, walk_sparse-ops}
use learning_redis.Hll.Sparse.Splice.Effect.{HoldsSparse, register-held}
use learning_redis.Hll.Dense.Grow.{HoldsDense}
use learning_redis.Hll.Sketch.{raise_run, run_visit, copy_sparse}
use learning_redis.Hll.Sketch.Run.{Ends, Ends-ext, Ends-here, Raises-trans, raise_run-Ends, raised}

op_value-lt : (o : Op) → IsOp o → op_value o < 64
op_value-lt (zero_op n) h = omega arith
op_value-lt (xzero_op n) h = omega arith
op_value-lt (val_op v n) h = omega arith

-- The registers from `idx` on, raised to those that the runs spell.
abbrev raised_by : Registers → ℕ → List Op → Registers
raised_by f idx ops j = if leb idx j then max (f j) (register ops (j - idx)) else f j

raised_by-raised :
    (f : Registers) (idx : ℕ) (o : Op) (ops : List Op) (j : ℕ)
    → raised_by (raised f idx (op_len o) (op_value o)) (idx + op_len o) ops j
      ≡ raised_by f idx (o ∷ ops) j
raised_by-raised f idx o ops j =
    let e : j - (idx + op_len o) ≡ j - idx - op_len o = omega arith in ground (arith, e)

raised_by-zero :
    (f : Registers) (idx : ℕ) (o : Op) (ops : List Op) (j : ℕ)
    → op_value o ≡ 0
    → raised_by f (idx + op_len o) ops j ≡ raised_by f idx (o ∷ ops) j
raised_by-zero f idx o ops j z =
    let e : j - (idx + op_len o) ≡ j - idx - op_len o = omega arith in ground (arith, e)

-- One run, then the others.
Ends-then :
    (r : Option (Bytes × Bool)) (rest : Option (Bytes × Bool) → Option (Bytes × Bool))
    (f g h : Registers) (b : Bool)
    → Ends r f g b
    → ((out : Bytes) (after : Bool) → HoldsDense out g → Ends (rest (some (out, after))) g h after)
    → Ends (rest r) f h b
Ends-then r rest f g h b e go =
    let e' = go e.out e.after e.holds in
    record {
      out = e'.out;
      after = e'.after;
      run = ap rest e.run ∙ e'.run;
      holds = e'.holds;
      raises = Raises-trans e.raises e'.raises;
    }

walk_run-Ends :
    (ops : List Op) (idx : ℕ) (dense : Bytes) (f : Registers) (b : Bool)
    → All IsOp ops
    → HoldsDense dense f
    → idx + total_len ops ≤ registers
    → Ends (walk_ops run_visit idx (some (dense, b)) ops) f (raised_by f idx ops) b
walk_run-Ends [] idx dense f b each held fits =
    Ends-ext (some (dense, b)) f f (raised_by f idx []) b (λ j lt. ground arith)
      (Ends-here dense f b held)
walk_run-Ends (o ∷ ops) idx dense f b each held fits = elim (Bool-cases (op_value o == 0)) [
  | inl z ↦ rw z (
      Ends-ext _ f (raised_by f (idx + op_len o) ops) (raised_by f idx (o ∷ ops)) b
        (λ j lt. raised_by-zero f idx o ops j (ground arith))
        (walk_run-Ends ops (idx + op_len o) dense f b each.1 held (omega arith)))
  | inr nz ↦ rw nz (
      Ends-then (raise_run (op_len o) idx (op_value o) (dense, b))
        (λ s. walk_ops run_visit (idx + op_len o) s ops) f (raised f idx (op_len o) (op_value o))
        (raised_by f idx (o ∷ ops)) b
        (raise_run-Ends (op_len o) idx (op_value o) dense f b held (omega arith)
          (op_value-lt o each.0))
        (λ out after held'.
          Ends-ext _ _ (raised_by (raised f idx (op_len o) (op_value o)) (idx + op_len o) ops) _
            after (λ j lt. raised_by-raised f idx o ops j)
            (walk_run-Ends ops (idx + op_len o) out (raised f idx (op_len o) (op_value o)) after
              each.1 held' (omega arith))))
]

-- Every register becomes the larger of its own value and the stream's.
pub copy_sparse-Ends :
    (sparse dense : Bytes) (f g : Registers) (b : Bool)
    → HoldsSparse sparse g
    → HoldsDense dense f
    → Ends (copy_sparse sparse (dense, b)) f (union f g) b
unfolding copy_sparse
copy_sparse-Ends sparse dense f g b hs held =
    let ops = hs.spells.ops in
    let walked : walk_sparse run_visit 0 (some (dense, b)) sparse
        ≡ some (walk_ops run_visit 0 (some (dense, b)) ops) =
      rw hs.spells.stream (
        walk_sparse-ops run_visit ops 0 (some (dense, b)) hs.spells.each
          (rw hs.spells.total (omega arith))) in
    rw walked (
      Ends-ext _ f (raised_by f 0 ops) (union f g) b
        (λ j lt. ground (arith, register-held hs j lt, zero_offset j))
        (walk_run-Ends ops 0 dense f b hs.spells.each held (rw hs.spells.total (omega arith))))
  where
    zero_offset : (j : ℕ) → j - 0 ≡ j
    zero_offset j = omega arith
