-- ===== src/Hll/Sketch/Holds.antt =====
-- What it means that a sketch of store/hll/hll.go holds the registers `f`, in either form, and that a
-- step of `Add` or `Merge` leaves the registers `g`. `New` and `promote`.
use learning_redis.Common.{
  ℕ, ◌<◌, ◌≡◌, refl, ap, ◌∙◌, arith, [], ◌∷◌, Bytes, Bool, true, false, ◌||◌, Option, some, ◌>>=◌,
}
use learning_redis.Hll.Registers.{registers, Registers, union}
use learning_redis.Hll.Sparse.Ops.{xzero_op, Spells}
use learning_redis.Hll.Sparse.Walk.{sparse_get-register}
use learning_redis.Hll.Sparse.Splice.Effect.{HoldsSparse}
use learning_redis.Hll.Dense.{new_dense_array}
use learning_redis.Hll.Dense.Grow.{HoldsDense, new_dense_array-HoldsDense}
use learning_redis.Hll.Sketch.{Hll, EncMode, enc_sparse, enc_dense, new, promote, mark_dirty}
use learning_redis.Hll.Sketch.Run.{HoldsDense-ext}
use learning_redis.Hll.Sketch.Copy.{copy_sparse-Ends}

-- The form that is live holds the registers `f`.
abbrev pub HoldsIn : EncMode → Bytes → Bytes → Registers → Type 0
HoldsIn enc_sparse sparse dense f = HoldsSparse sparse f
HoldsIn enc_dense sparse dense f = HoldsDense dense f

pub record Holds (h : Hll) (f : Registers) : Type 0 where
  pub live : HoldsIn h.enc h.sparse h.dense f

-- `h` became `h'` with no trace in the cached estimate.
pub record SameCache (h h' : Hll) : Type 0 where
  pub cached : h'.cached ≡ h.cached
  pub dirty : h'.dirty ≡ h.dirty

-- A new sketch has every register at 0.
pub new-Holds : Holds new (λ i. 0)
unfolding new
new-Holds = record {
  live = record {
    spells = spelled;
    reads = λ j lt.
        sparse_get-register (xzero_op registers ∷ []) j spelled.each (omega arith) ∙ ground arith;
  };
}
  where
    spelled : Spells new.sparse registers
    spelled = record {
      ops = xzero_op registers ∷ [];
      each = omega arith;
      stream = refl;
      total = refl;
    }

-- `promote` turns a sparse sketch into a dense one with the same registers.
pub promote-Holds :
    (h : Hll) (f : Registers)
    → HoldsSparse h.sparse f
    → (h' : Hll) × (promote h ≡ some h')
      × (h'.enc ≡ enc_dense)
      × HoldsDense h'.dense f
      × SameCache h h'
unfolding promote
promote-Holds h f held =
    let e =
      copy_sparse-Ends h.sparse new_dense_array (λ j. 0) f false held new_dense_array-HoldsDense in
    (
      record h { dense = e.out; sparse = []; enc = enc_dense },
      rw e.run,
      refl,
      HoldsDense-ext e.out (union (λ j. 0) f) f (λ j lt. omega arith) e.holds,
      record { cached = refl; dirty = refl },
    )

-- What a step of `Add` or `Merge` leaves: the registers `g`, and the cache, which is marked dirty if
-- the step reports a change.
pub record Steps (result : Option (Hll × Bool)) (h : Hll) (g : Registers) (changed : Bool)
    : Type 0 where
  pub after : Hll
  pub run : result ≡ some (after, changed)
  pub holds : Holds after g
  pub cached : after.cached ≡ h.cached
  pub dirty : after.dirty ≡ (changed || h.dirty)

-- Before the mark.
pub record Plain (result : Option (Hll × Bool)) (h : Hll) (g : Registers) (changed : Bool)
    : Type 0 where
  pub after : Hll
  pub run : result ≡ some (after, changed)
  pub holds : Holds after g
  pub same : SameCache h after

pub Plain-marked :
    (result : Option (Hll × Bool)) (h : Hll) (g : Registers) (changed : Bool)
    → Plain result h g changed
    → Steps (result >>= λ r. some (mark_dirty r)) h g changed
Plain-marked result h g true p = record {
  after = record p.after { dirty = true };
  run = rw p.run;
  holds = record { live = p.holds.live };
  cached = p.same.cached;
  dirty = refl;
}
Plain-marked result h g false p = record {
  after = p.after;
  run = rw p.run;
  holds = p.holds;
  cached = p.same.cached;
  dirty = p.same.dirty;
}

pub HoldsSparse-ext :
    (sparse : Bytes) (f g : Registers)
    → ((j : ℕ) → j < registers → f j ≡ g j)
    → HoldsSparse sparse f
    → HoldsSparse sparse g
HoldsSparse-ext sparse f g same h = record {
  spells = h.spells;
  reads = λ j lt. h.reads j lt ∙ ap some (same j lt);
}

pub Plain-from :
    (result : Option (Hll × Bool)) (h h' : Hll) (g : Registers) (changed : Bool)
    → SameCache h h'
    → Plain result h' g changed
    → Plain result h g changed
Plain-from result h h' g changed same p = record {
  after = p.after;
  run = p.run;
  holds = p.holds;
  same = record { cached = p.same.cached ∙ same.cached; dirty = p.same.dirty ∙ same.dirty };
}
