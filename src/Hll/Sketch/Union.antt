-- ===== src/Hll/Sketch/Union.antt =====
-- What a sketch of store/hll/hll.go knows of the values that were added: the registers depend on the
-- set of values, and merging is the union of the sets.
use mathlib.Core.Path.{subst}
use mathlib.Core.Logic.Or
use mathlib.Core.List.{Mem, not-mem-nil, mem-cons, mem-cons_self, mem-cons_of_mem}
use native.Mathlib.Nat.{le_refl}
use native.Mathlib.Bridge.{le_prop}
use learning_redis.Common.{
  ℕ, ◌≤◌, ◌≡◌, ◌↔◌, refl, sym, ap, ◌∙◌, arith, List, [], ◌∷◌, ◌++◌, Bytes, Option, some, ◌>>=◌,
  ◌==◌, if◌then◌else◌, max, All,
}
use learning_redis.Hll.Registers.{Registers, grow, union}
use learning_redis.Hll.Murmur.{hll_pat_len}
use learning_redis.Hll.Sketch.{Hll, new, add, merge}
use learning_redis.Hll.Sketch.Histogram.{Float, estimate, count}
use learning_redis.Hll.Sketch.Counting.{
  empty_histo, estimate_of, Counted, estimate_of-ext, new-Counted, count-estimate_of, add-Counted,
  merge-Counted,
}

-- One `Add` after the other.
pub add_all : Hll → List Bytes → Option Hll
add_all h [] = some h
add_all h (x ∷ xs) = add h x >>= λ r. add_all r.0 xs

-- The registers after these values.
unfoldable pub seen : Registers → List Bytes → Registers
seen f [] = f
seen f (x ∷ xs) = seen (grow f (hll_pat_len x).0 (hll_pat_len x).1) xs

-- The rank of `x` in register `j`, and 0 in every other.
abbrev rank_in : ℕ → Bytes → ℕ
rank_in j x = if j == (hll_pat_len x).0 then (hll_pat_len x).1 else 0

seen-le :
    (xs : List Bytes) (f : Registers) (j b : ℕ)
    → (seen f xs j ≤ b) ↔ ((f j ≤ b) × All (λ x. rank_in j x ≤ b) xs)
unfolding seen
seen-le [] f j b = (λ h. (h, tt), λ h. h.0)
seen-le (x ∷ xs) f j b =
    let f' = grow f (hll_pat_len x).0 (hll_pat_len x).1 in
    let ih = seen-le xs f' j b in
    (
      λ h. let (a, rest) = ih.0 h in (ground arith, (ground arith, rest)),
      λ h. ih.1 (ground arith, h.1.1),
    )

All-mem : (P : Bytes → Type 0) (xs : List Bytes) → ((x : Bytes) → Mem x xs → P x) → All P xs
All-mem P [] h = tt
All-mem P (x ∷ xs) h = (h x mem-cons_self, All-mem P xs (λ y m. h y (mem-cons_of_mem x m)))

of-mem :
    (P : Bytes → Type 0) (x : Bytes) (xs : List Bytes)
    → ((y : Bytes) → IsProp (P y))
    → All P xs
    → Mem x xs
    → P x
of-mem P x [] prop all m = absurd (not-mem-nil m)
of-mem P x (y ∷ ys) prop all m =
    Or.elim (prop x) (mem-cons.0 m) (λ e. subst P (sym e) all.0) (of-mem P x ys prop all.1)

seen-subset :
    (xs ys : List Bytes) (j : ℕ)
    → ((x : Bytes) → Mem x xs → Mem x ys)
    → seen (λ i. 0) xs j ≤ seen (λ i. 0) ys j
seen-subset xs ys j sub =
    let b = seen (λ i. 0) ys j in
    let bounded = (seen-le ys (λ i. 0) j b).0 (le_refl b) in
    (seen-le xs (λ i. 0) j b).1 (
      omega arith,
      All-mem (λ x. rank_in j x ≤ b) xs
          (λ x m. of-mem (λ y. rank_in j y ≤ b) x ys (λ y. le_prop) bounded.1 (sub x m)),
    )

-- Neither the order of the values nor how often each was added shows in a register.
pub seen_same_values :
    (xs ys : List Bytes) (j : ℕ)
    → ((x : Bytes) → Mem x xs → Mem x ys)
    → ((x : Bytes) → Mem x ys → Mem x xs)
    → seen (λ i. 0) xs j ≡ seen (λ i. 0) ys j
seen_same_values xs ys j sub sup = omega (arith, seen-subset xs ys j sub, seen-subset ys xs j sup)

seen-append : (xs ys : List Bytes) (f : Registers) → seen f (xs ++ ys) ≡ seen (seen f xs) ys
unfolding seen
seen-append [] ys f = refl
seen-append (x ∷ xs) ys f = seen-append xs ys (grow f (hll_pat_len x).0 (hll_pat_len x).1)

seen-max : (ys : List Bytes) (f : Registers) (j : ℕ) → seen f ys j ≡ max (f j) (seen (λ i. 0) ys j)
unfolding seen
seen-max [] f j = omega arith
seen-max (y ∷ ys) f j =
    let i = (hll_pat_len y).0 in
    let r = (hll_pat_len y).1 in
    ground (arith, seen-max ys (grow f i r) j, seen-max ys (grow (λ k. 0) i r) j)

pub union-seen :
    (xs ys : List Bytes) (j : ℕ)
    → union (seen (λ i. 0) xs) (seen (λ i. 0) ys) j ≡ seen (λ i. 0) (xs ++ ys) j
union-seen xs ys j = rw (seen-append xs ys (λ i. 0)) (sym (seen-max ys (seen (λ i. 0) xs) j))

module _ (fl : Float) where
  add_all-Counted :
      (xs : List Bytes) (h : Hll) (f : Registers)
      → Counted fl h f
      → (h' : Hll) × (add_all h xs ≡ some h') × Counted fl h' (seen f xs)
  unfolding add_all seen
  add_all-Counted [] h f c = (h, refl, c)
  add_all-Counted (x ∷ xs) h f c =
      let (h', run, c') = add-Counted fl h f x c in
      let (h'', rest, c'') =
        add_all-Counted xs h' (grow f (hll_pat_len x).0 (hll_pat_len x).1) c' in
      (h'', rw run rest, c'')

  -- Adding values to new sketches never panics, and neither does counting: two lists with the same
  -- values, in any order and any number, give the same count.
  pub count_same_values :
      (xs ys : List Bytes)
      → estimate fl empty_histo ≡ 0
      → ((x : Bytes) → Mem x xs → Mem x ys)
      → ((x : Bytes) → Mem x ys → Mem x xs)
      → (n : ℕ) × (a b : Hll) × (add_all new xs >>= count fl ≡ some (n, a))
        × (add_all new ys >>= count fl ≡ some (n, b))
  count_same_values xs ys empty sub sup =
      let (a, run_a, ca) = add_all-Counted xs new (λ i. 0) (new-Counted fl empty) in
      let (b, run_b, cb) = add_all-Counted ys new (λ i. 0) (new-Counted fl empty) in
      let (a', count_a, _) = count-estimate_of fl a (seen (λ i. 0) xs) ca in
      let (b', count_b, _) = count-estimate_of fl b (seen (λ i. 0) ys) cb in
      let same =
        estimate_of-ext fl (seen (λ i. 0) xs) (seen (λ i. 0) ys)
          (λ j lt. seen_same_values xs ys j sub sup) in
      (
        estimate_of fl (seen (λ i. 0) xs),
        a',
        b',
        rw run_a count_a,
        rw run_b (count_b ∙ ap (λ n. some (n, b')) (sym same)),
      )

  -- The merge of two sketches, built from two lists of values, never panics, and counts what one
  -- sketch with the values of both lists counts.
  pub count_merged_values :
      (xs ys : List Bytes)
      → estimate fl empty_histo ≡ 0
      → (n : ℕ) × (a b : Hll) × ((do
        x ← add_all new xs
        y ← add_all new ys
        (m, changed) ← merge x y
        count fl m)
          ≡ some (n, a))
        × (add_all new (xs ++ ys) >>= count fl ≡ some (n, b))
  count_merged_values xs ys empty =
      let (x, run_x, cx) = add_all-Counted xs new (λ i. 0) (new-Counted fl empty) in
      let (y, run_y, cy) = add_all-Counted ys new (λ i. 0) (new-Counted fl empty) in
      let (z, run_z, cz) = add_all-Counted (xs ++ ys) new (λ i. 0) (new-Counted fl empty) in
      let f = seen (λ i. 0) xs in
      let g = seen (λ i. 0) ys in
      let (m, changed, run_m, cm) = merge-Counted fl x y f g cx cy.holds in
      let (a, count_a, _) = count-estimate_of fl m (union f g) cm in
      let (b, count_b, _) = count-estimate_of fl z (seen (λ i. 0) (xs ++ ys)) cz in
      let same =
        estimate_of-ext fl (union f g) (seen (λ i. 0) (xs ++ ys)) (λ j lt. union-seen xs ys j) in
      (
        estimate_of fl (union f g),
        a,
        b,
        rw run_x (rw run_y (rw run_m count_a)),
        rw run_z (count_b ∙ ap (λ n. some (n, b)) (sym same)),
      )
