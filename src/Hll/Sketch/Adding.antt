-- ===== src/Hll/Sketch/Adding.antt =====
-- `Add` of store/hll/hll.go grows one register, in either form and across the promotion.
use learning_redis.Common.{
  ℕ, ◌≤◌, ◌<◌, ◌≡◌, refl, ap, ◌∙◌, arith, Bytes, Bool, true, false, ◌&&◌, some, ◌>>=◌, ltb,
  if◌then◌else◌, inl, inr, Bool-cases,
}
use learning_redis.Hll.Registers.{registers, Registers, grow}
use learning_redis.Hll.Opcode.{sparse_val_max_value}
use learning_redis.Hll.Sparse.Splice.Effect.{HoldsSparse, sparse_set-grow}
use learning_redis.Hll.Dense.Grow.{HoldsDense, set_dense_register-grow}
use learning_redis.Hll.Murmur.{hll_pat_len}
use learning_redis.Hll.Murmur.Bounds.{hll_pat_len_bounds}
use learning_redis.Hll.Sketch.{
  Hll, EncMode, enc_sparse, enc_dense, is_sparse, promote, add_sparse, add_dense, add_at, add,
  mark_dirty,
}
use learning_redis.Hll.Sketch.Holds.{
  Holds, HoldsIn, SameCache, promote-Holds, Steps, Plain, Plain-marked, Plain-from, HoldsSparse-ext,
}

add_dense-Plain :
    (h : Hll) (f : Registers) (i r : ℕ)
    → h.enc ≡ enc_dense
    → HoldsDense h.dense f
    → i < registers
    → r < 64
    → Plain (add_dense h i r) h (grow f i r) (ltb (f i) r)
unfolding add_dense
add_dense-Plain h f i r e held lt small =
    let (out, run, held') = set_dense_register-grow h.dense f i r held lt small in
    record {
      after = record h { dense = out };
      run = rw run;
      holds = record { live = rw e held' };
      same = record { cached = refl; dirty = refl };
    }

-- A sparse sketch that may be promoted, on either answer of the test.
promote_if-Plain :
    (test : Bool) (h h' : Hll) (g : Registers) (changed : Bool)
    → SameCache h h'
    → h'.enc ≡ enc_sparse
    → HoldsSparse h'.sparse g
    → Plain ((if test then promote h' else some h') >>= λ h''. some (h'', changed)) h g changed
promote_if-Plain true h h' g changed same e held =
    let (h'', run, dense, held', same') = promote-Holds h' g held in
    record {
      after = h'';
      run = rw run;
      holds = record { live = rw dense held' };
      same = record { cached = same'.cached ∙ same.cached; dirty = same'.dirty ∙ same.dirty };
    }
promote_if-Plain false h h' g changed same e held = record {
  after = h';
  run = refl;
  holds = record { live = rw e held };
  same = same;
}

add_sparse-Plain :
    (h : Hll) (f : Registers) (i r : ℕ)
    → h.enc ≡ enc_sparse
    → HoldsSparse h.sparse f
    → i < registers
    → 1 ≤ r
    → r ≤ 32
    → Plain (add_sparse h i r) h (grow f i r) (ltb (f i) r)
unfolding add_sparse
add_sparse-Plain h f i r e held lt lo hi =
    let (out, run, held') = sparse_set-grow h.sparse f i r held lt lo hi in
    rw run (elim (Bool-cases (ltb (f i) r)) [
      | inl grew ↦ rw grew (
          promote_if-Plain _ h (record h { sparse = out }) (grow f i r) true
            (record { cached = refl; dirty = refl }) e held')
      | inr still ↦ rw still (
          promote_if-Plain _ h h (grow f i r) false (record { cached = refl; dirty = refl }) e
            (HoldsSparse-ext h.sparse f (grow f i r) (λ j ltj. ground arith) held))
    ])

-- The sparse case of `Add`, on either answer of the test on the rank.
add_sparse-Steps :
    (h : Hll) (f : Registers) (i r : ℕ) (test : Bool)
    → h.enc ≡ enc_sparse
    → HoldsSparse h.sparse f
    → i < registers
    → 1 ≤ r
    → r ≤ 51
    → (test ≡ false → r ≤ 32)
    → Steps
        ((if test then promote h else some h) >>= λ h'.
          (if is_sparse h'.enc then add_sparse h' i r else add_dense h' i r) >>= λ result.
          some (mark_dirty result))
        h
        (grow f i r)
        (ltb (f i) r)
add_sparse-Steps h f i r true e held lt lo hi small =
    let (h', run, dense, held', same) = promote-Holds h f held in
    rw run (
      rw (ap is_sparse dense) (
        Plain-marked (add_dense h' i r) h (grow f i r) (ltb (f i) r) (
          Plain-from _ h h' (grow f i r) (ltb (f i) r) same
            (add_dense-Plain h' f i r dense held' lt (omega arith)))))
add_sparse-Steps h f i r false e held lt lo hi small = rw (ap is_sparse e) (
    Plain-marked (add_sparse h i r) h (grow f i r) (ltb (f i) r)
      (add_sparse-Plain h f i r e held lt lo (small refl)))

-- `Add` at a register and a rank.
add_at-Steps :
    (h : Hll) (f : Registers) (i r : ℕ)
    → Holds h f
    → i < registers
    → 1 ≤ r
    → r ≤ 51
    → Steps (add_at h i r) h (grow f i r) (ltb (f i) r)
unfolding add_at
add_at-Steps h f i r held lt lo hi = by_form h.enc refl held.live
  where
    by_form :
        (m : EncMode)
        → h.enc ≡ m
        → HoldsIn m h.sparse h.dense f
        → Steps (add_at h i r) h (grow f i r) (ltb (f i) r)
    by_form enc_dense e live = rw (ap is_sparse e) (
        rw (ap is_sparse e) (
          Plain-marked (add_dense h i r) h (grow f i r) (ltb (f i) r)
            (add_dense-Plain h f i r e live lt (omega arith))))
    by_form enc_sparse e live =
        let sparse_first : (is_sparse h.enc && ltb sparse_val_max_value r)
            ≡ ltb sparse_val_max_value r =
          rw (ap is_sparse e) in
        rw sparse_first (
          add_sparse-Steps h f i r (ltb sparse_val_max_value r) e live lt lo hi
            (λ small. ground arith))

-- `Add` hashes its argument to a register and a rank. It never panics; it reports whether the rank
-- is larger than the register's value, and the sketch then holds the abstract sketch with that
-- register grown and every other as before, in whichever form it ends.
pub add-grow :
    (h : Hll) (f : Registers) (bytes : Bytes)
    → Holds h f
    → Steps
        (add h bytes)
        h
        (grow f (hll_pat_len bytes).0 (hll_pat_len bytes).1)
        (ltb (f (hll_pat_len bytes).0) (hll_pat_len bytes).1)
unfolding add
add-grow h f bytes held =
    let (lt, lo, hi) = hll_pat_len_bounds bytes in
    add_at-Steps h f (hll_pat_len bytes).0 (hll_pat_len bytes).1 held lt lo hi
