-- ===== src/Hll/Sketch/Merging.antt =====
-- `Merge` of store/hll/hll.go takes the elementwise maximum, from either form.
use learning_redis.Common.{
  ℕ, ◌<◌, ◌≡◌, ◌↔◌, refl, ap, arith, Bytes, Bool, true, false, Option, some, ◌>>=◌, leb,
  if◌then◌else◌, max,
}
use learning_redis.Hll.Registers.{registers, Registers, union}
use learning_redis.Hll.Dense.Grow.{HoldsDense}
use learning_redis.Hll.Sketch.{
  Hll, EncMode, enc_sparse, enc_dense, is_sparse, merge, mark_dirty, copy_sparse, merge_dense,
}
use learning_redis.Hll.Sketch.Run.{Ends, Ends-ext, merge_dense-Ends}
use learning_redis.Hll.Sketch.Copy.{copy_sparse-Ends}
use learning_redis.Hll.Sketch.Holds.{Holds, HoldsIn, SameCache, promote-Holds, Steps}

-- What `Merge` does: the sketch ends dense with the elementwise maximum, and `changed` is off
-- exactly when no register grew.
pub record Merges (result : Option (Hll × Bool)) (h : Hll) (f g : Registers) : Type 0 where
  pub changed : Bool
  pub steps : Steps result h (union f g) changed
  pub dense : steps.after.enc ≡ enc_dense
  pub exact : (changed ≡ false) ↔ ((j : ℕ) → j < registers → union f g j ≡ f j)

copied-Ends :
    (other : Hll) (dense : Bytes) (f g : Registers)
    → Holds other g
    → HoldsDense dense f
    → Ends
        (if is_sparse other.enc
          then copy_sparse other.sparse (dense, false)
          else merge_dense registers 0 other.dense (dense, false))
        f
        (union f g)
        false
copied-Ends other dense f g held into = by_form other.enc refl held.live
  where
    by_form :
        (m : EncMode)
        → other.enc ≡ m
        → HoldsIn m other.sparse other.dense g
        → Ends
            (if is_sparse other.enc
              then copy_sparse other.sparse (dense, false)
              else merge_dense registers 0 other.dense (dense, false))
            f
            (union f g)
            false
    by_form enc_sparse e live =
        rw (ap is_sparse e) (copy_sparse-Ends other.sparse dense f g false live into)
    by_form enc_dense e live = rw (ap is_sparse e) (
        Ends-ext (merge_dense registers 0 other.dense (dense, false)) f
          (λ j. if leb 0 j then max (f j) (g j) else f j) (union f g) false (λ j lt. ground arith)
          (merge_dense-Ends registers 0 other.dense dense f g false live into (omega arith)))

-- Once the receiver is dense.
merge_into :
    (h h' other : Hll) (f g : Registers)
    → SameCache h h'
    → h'.enc ≡ enc_dense
    → HoldsDense h'.dense f
    → Holds other g
    → Merges
        ((if is_sparse other.enc
            then copy_sparse other.sparse (h'.dense, false)
            else merge_dense registers 0 other.dense (h'.dense, false))
          >>= λ p. some (mark_dirty (record h' { dense = p.0 }, p.1)))
        h
        f
        g
merge_into h h' other f g same e held ho =
    let ends = copied-Ends other h'.dense f g ho held in
    rw ends.run (
      marked ends.after ends.out ends.holds
        (λ off. (ends.raises.flag.0 off).1, λ still. ends.raises.flag.1 (refl, still)))
  where
    marked :
        (changed : Bool) (out : Bytes)
        → HoldsDense out (union f g)
        → (changed ≡ false) ↔ ((j : ℕ) → j < registers → union f g j ≡ f j)
        → Merges (some (mark_dirty (record h' { dense = out }, changed))) h f g
    marked true out into exact = record {
      changed = true;
      steps = record {
        after = record h' { dense = out; dirty = true };
        run = refl;
        holds = record { live = rw e into };
        cached = same.cached;
        dirty = refl;
      };
      dense = e;
      exact = exact;
    }
    marked false out into exact = record {
      changed = false;
      steps = record {
        after = record h' { dense = out };
        run = refl;
        holds = record { live = rw e into };
        cached = same.cached;
        dirty = same.dirty;
      };
      dense = e;
      exact = exact;
    }

-- `Merge` never panics. The receiver ends dense with the elementwise maximum of the two sketches, and
-- `changed` is false exactly when no register grew, whichever forms the two were in.
pub merge-union :
    (h other : Hll) (f g : Registers) → Holds h f → Holds other g → Merges (merge h other) h f g
unfolding merge
merge-union h other f g held ho = by_form h.enc refl held.live
  where
    by_form :
        (m : EncMode) → h.enc ≡ m → HoldsIn m h.sparse h.dense f → Merges (merge h other) h f g
    by_form enc_sparse e live =
        let (h', run, dense, held', same) = promote-Holds h f live in
        rw (ap is_sparse e) (rw run (merge_into h h' other f g same dense held' ho))
    by_form enc_dense e live =
        rw (ap is_sparse e)
          (merge_into h h other f g (record { cached = refl; dirty = refl }) e live ho)
