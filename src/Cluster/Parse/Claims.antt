-- ===== src/Cluster/Parse/Claims.antt =====
-- cluster/config.go: ranges as they are read, and how a node claims their slots.
use learning_redis.Common.{
  ℕ, zero, suc, ◌+◌, ◌≤◌, ◌<◌, ◌≡◌, ◌≢◌, ◌⊎◌, inl, inr, refl, sym, ap, ◌∙◌, arith, List, Bytes,
  ◌||◌, Option, none, some, ltb, leb, length, get_elem?, set, Bool-cases, length-set,
  get_elem?-set_self, get_elem?-set_ne, get_elem?-some,
}
use learning_redis.Common.Int.{ℤ, pos, negsuc}
use learning_redis.Common.Decimal.{parse_int}
use learning_redis.Cluster.Slot.{num_slots}
use learning_redis.Cluster.Layout.{SlotRange, Node}
use learning_redis.Cluster.Parse.{
  Result, ok, rejected, crashed, then_do, claim, claim_one, parse_range, range_from, range_to,
  checked_range, cut,
}

-- No panic, and `P` of a result.
abbrev pub Fine {ℓ} : {A : Type ℓ} → (A → Type 0) → Result A → Type 0
Fine P (ok a) = P a
Fine P (rejected e) = Unit
Fine P crashed = ⊥

pub then_do-Fine {ℓ κ} :
    {A : Type ℓ} {B : Type κ} (P : A → Type 0) (Q : B → Type 0) (r : Result A) (f : A → Result B)
    → Fine P r
    → ((a : A) → P a → Fine Q (f a))
    → Fine Q (then_do r f)
then_do-Fine P Q (ok a) f p h = h a p
then_do-Fine P Q (rejected e) f p h = tt
then_do-Fine P Q crashed f p h = absurd p

-- The slots from `s` were free and are now of the node at `i`; the others are as they were.
pub record Claimed (i s count : ℕ) (before after : List (Option ℕ)) : Type 0 where
  pub size : length after ≡ length before
  pub inside :
      (slot : ℕ)
      → s ≤ slot
      → slot < s + count
      → (get_elem? before slot ≡ some none) × (get_elem? after slot ≡ some (some i))
  pub outside_of :
      (slot : ℕ) → (slot < s) ⊎ (s + count ≤ slot) → get_elem? after slot ≡ get_elem? before slot

Fine-map {ℓ} :
    {A : Type ℓ} (P Q : A → Type 0) (r : Result A) → ((a : A) → P a → Q a) → Fine P r → Fine Q r
Fine-map P Q (ok a) h p = h a p
Fine-map P Q (rejected e) h p = tt
Fine-map P Q crashed h p = p

-- A free slot, then those after it.
Claimed-first :
    (i s count : ℕ) (before after : List (Option ℕ))
    → s < length before
    → get_elem? before s ≡ some none
    → Claimed i (suc s) count (set before s (some i)) after
    → Claimed i s (suc count) before after
Claimed-first i s count before after lt free c = record {
  size = c.size ∙ length-set before s (some i);
  inside = λ slot lo hi. by_slot slot lo hi (same? slot s);
  outside_of = λ slot away.
      c.outside_of slot (further slot away)
      ∙ get_elem?-set_ne before s slot (some i) (apart slot away);
}
  where
    same? : (a b : ℕ) → (a ≡ b) ⊎ (a ≢ b)
    same? a b = ground arith

    apart : (slot : ℕ) → (slot < s) ⊎ (s + suc count ≤ slot) → s ≢ slot
    apart slot (inl h) e = omega (arith, h, e)
    apart slot (inr h) e = omega (arith, h, e)

    further :
        (slot : ℕ) → (slot < s) ⊎ (s + suc count ≤ slot) → (slot < suc s) ⊎ (suc s + count ≤ slot)
    further slot (inl h) = inl (omega (arith, h))
    further slot (inr h) = inr (omega (arith, h))

    by_slot :
        (slot : ℕ)
        → s ≤ slot
        → slot < s + suc count
        → (slot ≡ s) ⊎ (slot ≢ s)
        → (get_elem? before slot ≡ some none) × (get_elem? after slot ≡ some (some i))
    by_slot slot lo hi (inl e) = (
      ap (get_elem? before) e ∙ free,
      ap (get_elem? after) e
          ∙ c.outside_of s (inl (omega arith))
          ∙ get_elem?-set_self before s (some i) lt,
    )
    by_slot slot lo hi (inr ne) =
        let (was, is) = c.inside slot (omega (arith, lo, ne)) (omega (arith, hi)) in
        (sym (get_elem?-set_ne before s slot (some i) (λ e. ne (sym e))) ∙ was, is)

pub claim-Fine :
    (nodes : List Node) (n : Node) (count s : ℕ) (owner : List (Option ℕ))
    → s + count ≤ length owner
    → Fine (Claimed (length nodes) s count owner) (claim nodes n count s owner)
unfolding claim
claim-Fine nodes n zero s owner fits = record {
  size = refl;
  inside = λ slot lo hi. absurd (omega (arith, lo, hi));
  outside_of = λ slot away. refl;
}
claim-Fine nodes n (suc count) s owner fits =
    let (o, read) = get_elem?-some owner s (omega (arith, fits)) in
    let next = set owner s (some (length nodes)) in
    rw read (
      by_entry o read (
        claim-Fine nodes n count (suc s) next
          (omega (arith, fits, length-set owner s (some (length nodes))))))
  where
    by_entry :
        (o : Option ℕ)
        → get_elem? owner s ≡ some o
        → Fine
            (Claimed (length nodes) (suc s) count (set owner s (some (length nodes))))
            (claim nodes n count (suc s) (set owner s (some (length nodes))))
        → Fine
            (Claimed (length nodes) s (suc count) owner)
            (claim_one (claim nodes n count (suc s)) nodes n s owner (some o))
    by_entry (some prev) read rest = tt
    by_entry none read rest =
        let next = set owner s (some (length nodes)) in
        Fine-map (Claimed (length nodes) (suc s) count next)
          (Claimed (length nodes) s (suc count) owner) (claim nodes n count (suc s) next)
          (λ after. Claimed-first (length nodes) s count owner after (omega (arith, fits)) read)
          rest

-- A range that was read is not empty, and holds slots only.
abbrev pub InSlots : SlotRange → Type 0
InSlots r = (r.start ≤ r.end) × (r.end < num_slots)

checked_range-Fine : (start end : ℤ) → Fine InSlots (checked_range start end)
checked_range-Fine (pos start) (pos end) = elim (Bool-cases (leb num_slots end || ltb end start)) [
  | inl bad ↦ rw bad tt
  | inr good ↦ rw good (ground (arith, good), ground (arith, good))
]
checked_range-Fine (pos start) (negsuc end) = tt
checked_range-Fine (negsuc start) (pos end) = tt
checked_range-Fine (negsuc start) (negsuc end) = tt

pub parse_range-Fine : (spec : Bytes) → Fine InSlots (parse_range spec)
unfolding parse_range
parse_range-Fine spec = by_numbers (cut spec).1 (parse_int (cut spec).0)
  where
    by_numbers : (hi : Option Bytes) (lo : Option ℤ) → Fine InSlots (range_from hi lo)
    by_numbers none none = tt
    by_numbers (some hi) none = tt
    by_numbers none (some start) = checked_range-Fine start start
    by_numbers (some hi) (some start) = by_end (parse_int hi)
      where
        by_end : (end : Option ℤ) → Fine InSlots (range_to start end)
        by_end none = tt
        by_end (some end) = checked_range-Fine start end
