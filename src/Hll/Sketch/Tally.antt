-- ===== src/Hll/Sketch/Tally.antt =====
-- Both histograms of store/hll count, for each value, the registers that hold it.
use mathlib.Core.Path.{fun_ext}
use learning_redis.Common.{
  ℕ, zero, suc, ◌+◌, ◌-◌, ◌≤◌, ◌<◌, ◌≡◌, refl, sym, ap, ◌∙◌, arith, List, [], ◌∷◌, Bytes, some,
  ◌==◌, if◌then◌else◌,
}
use learning_redis.Hll.Registers.{registers, Registers}
use learning_redis.Hll.Sparse.{walk_sparse, sparse_histo, histo_visit, Histo, bump}
use learning_redis.Hll.Sparse.Ops.{Op, op_len, op_value, total_len, register}
use learning_redis.Hll.Sparse.Walk.{walk_ops, walk_sparse-ops}
use learning_redis.Hll.Sparse.Splice.Effect.{HoldsSparse, register-held}
use learning_redis.Hll.Dense.Grow.{HoldsDense}
use learning_redis.Hll.Sketch.{Hll, EncMode, enc_sparse, enc_dense, is_sparse}
use learning_redis.Hll.Sketch.Holds.{Holds, HoldsIn}
use learning_redis.Hll.Sketch.Histogram.{dense_histo, histogram}

-- How many of the `n` registers from `i` on hold `v`.
pub tally : Registers → ℕ → ℕ → Histo
tally f i zero v = 0
tally f i (suc n) v = (if v == f i then 1 else 0) + tally f (i + 1) n v

pub tally-append :
    (f : Registers) (i n m v : ℕ) → tally f i (n + m) v ≡ tally f i n v + tally f (i + n) m v
unfolding tally
tally-append f i zero m v =
    let e : 0 + m ≡ m = omega arith in let d : i + 0 ≡ i = omega arith in rw (e, d) (omega arith)
tally-append f i (suc n) m v =
    let e : suc n + m ≡ suc (n + m) = omega arith in
    let d : i + suc n ≡ i + 1 + n = omega arith in
    rw (e, d) (omega (arith, tally-append f (i + 1) n m v))

pub tally_const :
    (f : Registers) (i n c v : ℕ)
    → ((j : ℕ) → i ≤ j → j < i + n → f j ≡ c)
    → tally f i n v ≡ (if v == c then n else 0)
unfolding tally
tally_const f i zero c v h = ground arith
tally_const f i (suc n) c v h = ground (
  arith,
  h i (omega arith) (omega arith),
  tally_const f (i + 1) n c v (λ j lo hi. h j (omega arith) (omega arith)),
)

pub tally-ext :
    (f g : Registers) (i n v : ℕ)
    → ((j : ℕ) → i ≤ j → j < i + n → f j ≡ g j)
    → tally f i n v ≡ tally g i n v
unfolding tally
tally-ext f g i zero v h = refl
tally-ext f g i (suc n) v h = ground (
  arith,
  h i (omega arith) (omega arith),
  tally-ext f g (i + 1) n v (λ j lo hi. h j (omega arith) (omega arith)),
)

walk_histo :
    (ops : List Op) (f : Registers) (idx : ℕ) (histo : Histo)
    → ((j : ℕ) → idx ≤ j → j < idx + total_len ops → f j ≡ register ops (j - idx))
    → (v : ℕ) → walk_ops histo_visit idx histo ops v ≡ histo v + tally f idx (total_len ops) v
walk_histo [] f idx histo same v = unfold tally in omega arith
walk_histo (o ∷ ops) f idx histo same v =
    walk_histo ops f (idx + op_len o) (bump histo (op_value o) (op_len o))
      (λ j lo hi. later j lo (omega arith)) v
    ∙ rw (tally-append f idx (op_len o) (total_len ops) v) (
        ground (
          arith,
          tally_const f idx (op_len o) (op_value o) v
              (λ j lo hi. same j lo (omega arith) ∙ first j lo hi),
        ))
  where
    first : (j : ℕ) → idx ≤ j → j < idx + op_len o → register (o ∷ ops) (j - idx) ≡ op_value o
    first j lo hi = ground arith

    later :
        (j : ℕ)
        → idx + op_len o ≤ j
        → j < idx + total_len (o ∷ ops)
        → f j ≡ register ops (j - (idx + op_len o))
    later j lo hi =
        let e : j - (idx + op_len o) ≡ j - idx - op_len o = omega arith in
        same j (omega arith) hi ∙ rw e (ground arith)

sparse_histo-tally :
    (sparse : Bytes) (f : Registers)
    → HoldsSparse sparse f
    → sparse_histo sparse ≡ some (tally f 0 registers)
unfolding sparse_histo
sparse_histo-tally sparse f h =
    let ops = h.spells.ops in
    ap (walk_sparse histo_visit 0 (λ v. 0)) h.spells.stream
    ∙ walk_sparse-ops histo_visit ops 0 (λ v. 0) h.spells.each (rw h.spells.total (omega arith))
    ∙ ap some (
        fun_ext λ v.
          walk_histo ops f 0 (λ v. 0) (λ j lo hi. at_zero j (omega (arith, h.spells.total))) v
          ∙ rw h.spells.total (omega arith))
  where
    at_zero : (j : ℕ) → j < registers → f j ≡ register h.spells.ops (j - 0)
    at_zero j lt = let e : j - 0 ≡ j = omega arith in rw e (sym (register-held h j lt))

dense_histo-tally :
    (n i : ℕ) (dense : Bytes) (f : Registers) (histo : Histo)
    → HoldsDense dense f
    → i + n ≤ registers
    → dense_histo n i dense histo ≡ some (λ v. histo v + tally f i n v)
unfolding dense_histo tally
dense_histo-tally zero i dense f histo h fits = ap some (fun_ext λ v. omega arith)
dense_histo-tally (suc n) i dense f histo h fits = rw (h.reads i (omega arith)) (
    dense_histo-tally n (i + 1) dense f (bump histo (f i) 1) h (omega arith)
    ∙ ap some (fun_ext λ v. ground arith))

-- The histogram that `Count` builds is the same in both forms: for each value, how many of the 16384
-- registers hold it.
pub histogram-tally :
    (h : Hll) (f : Registers) → Holds h f → histogram h ≡ some (tally f 0 registers)
unfolding histogram
histogram-tally h f held = by_form h.enc refl held.live
  where
    by_form :
        (m : EncMode)
        → h.enc ≡ m
        → HoldsIn m h.sparse h.dense f
        → histogram h ≡ some (tally f 0 registers)
    by_form enc_sparse e live = rw (ap is_sparse e) (sparse_histo-tally h.sparse f live)
    by_form enc_dense e live = rw (ap is_sparse e) (
        dense_histo-tally registers 0 h.dense f (λ v. 0) live (omega arith)
        ∙ ap some (fun_ext λ v. omega arith))
