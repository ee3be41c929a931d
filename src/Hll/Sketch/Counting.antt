-- ===== src/Hll/Sketch/Counting.antt =====
-- `Count` of store/hll/hll.go depends on the registers alone: the cache never shows.
use learning_redis.Common.{
  ℕ, ◌<◌, ◌≡◌, refl, sym, ap, ◌∙◌, arith, Bytes, Bool, false, some, ltb, ◌==◌, if◌then◌else◌, inl,
  inr, Bool-cases,
}
use learning_redis.Hll.Registers.{registers, Registers, grow, union}
use learning_redis.Hll.Sparse.{Histo}
use learning_redis.Hll.Murmur.{hll_pat_len}
use learning_redis.Hll.Sketch.{Hll, new, add, merge}
use learning_redis.Hll.Sketch.Holds.{Holds, new-Holds}
use learning_redis.Hll.Sketch.Adding.{add-grow}
use learning_redis.Hll.Sketch.Merging.{merge-union}
use learning_redis.Hll.Sketch.Histogram.{Float, estimate, count}
use learning_redis.Hll.Sketch.Tally.{tally, tally_const, tally-ext, histogram-tally}
use mathlib.Core.Path.{fun_ext}

-- The histogram of an empty sketch.
abbrev pub empty_histo : Histo
empty_histo v = if v == 0 then registers else 0

module _ (fl : Float) where
  -- The estimate of the registers `f`.
  pub estimate_of : Registers → ℕ
  estimate_of f = estimate fl (tally f 0 registers)

  -- The sketch holds `f`, and a cache that is not dirty is the estimate of `f`.
  pub record Counted (h : Hll) (f : Registers) : Type 0 where
    pub holds : Holds h f
    pub fresh : h.dirty ≡ false → h.cached ≡ estimate_of f

  pub estimate_of-ext :
      (f g : Registers) → ((j : ℕ) → j < registers → f j ≡ g j) → estimate_of f ≡ estimate_of g
  unfolding estimate_of
  estimate_of-ext f g same =
      ap (estimate fl) (fun_ext λ v. tally-ext f g 0 registers v (λ j lo hi. same j (omega arith)))

  -- The empty sketch starts with the cached estimate 0. That this is the estimate of its histogram is
  -- a fact about float64: `m * log(m / m)` is 0.
  pub new-Counted : estimate fl empty_histo ≡ 0 → Counted new (λ j. 0)
  unfolding new estimate_of
  new-Counted empty = record {
    holds = new-Holds;
    fresh = λ clean. sym (
        ap (estimate fl) (fun_ext λ v. tally_const (λ j. 0) 0 registers 0 v (λ j lo hi. refl))
        ∙ empty);
  }

  -- `Count` never panics. It returns the estimate of the registers that the sketch holds, from the
  -- cache or not, and leaves a sketch that holds the same.
  pub count-estimate_of :
      (h : Hll) (f : Registers)
      → Counted h f
      → (h' : Hll) × (count fl h ≡ some (estimate_of f, h')) × Counted h' f
  unfolding count estimate_of
  count-estimate_of h f c = elim (Bool-cases h.dirty) [
    | inl dirty ↦
        let cached = estimate fl (tally f 0 registers) in
        (
          record h { cached = cached; dirty = false },
          rw dirty (rw (histogram-tally h f c.holds)),
          record { holds = record { live = c.holds.live }; fresh = λ clean. refl },
        )
    | inr clean ↦ (h, simp clean (ap (λ n. some (n, h)) (c.fresh clean)), c)
  ]

  -- `Add` keeps the cache right: where it reports no change the registers are as before.
  pub add-Counted :
      (h : Hll) (f : Registers) (bytes : Bytes)
      → Counted h f
      → (h' : Hll) × (add h bytes ≡ some (h', ltb (f (hll_pat_len bytes).0) (hll_pat_len bytes).1))
        × Counted h' (grow f (hll_pat_len bytes).0 (hll_pat_len bytes).1)
  add-Counted h f bytes c =
      let s = add-grow h f bytes c.holds in
      let i = (hll_pat_len bytes).0 in
      let r = (hll_pat_len bytes).1 in
      (
        s.after,
        s.run,
        record {
          holds = s.holds;
          fresh = λ clean.
              s.cached
              ∙ c.fresh (ground (arith, s.dirty))
              ∙ estimate_of-ext f (grow f i r) (λ j lt. ground (arith, s.dirty));
        },
      )

  -- And so does `Merge`.
  pub merge-Counted :
      (h other : Hll) (f g : Registers)
      → Counted h f
      → Holds other g
      → (h' : Hll) × (changed : Bool) × (merge h other ≡ some (h', changed))
        × Counted h' (union f g)
  merge-Counted h other f g c ho =
      let m = merge-union h other f g c.holds ho in
      let s = m.steps in
      (
        s.after,
        m.changed,
        s.run,
        record {
          holds = s.holds;
          fresh = λ clean.
              s.cached
              ∙ c.fresh (ground (arith, s.dirty))
              ∙ estimate_of-ext f (union f g)
                  (λ j lt. sym (m.exact.0 (ground (arith, s.dirty)) j lt));
        },
      )
