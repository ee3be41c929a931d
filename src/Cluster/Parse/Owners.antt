-- ===== src/Cluster/Parse/Owners.antt =====
-- cluster/config.go: a slot's owner is the node that lists it, range after range.
use learning_redis.Common.{
  ℕ, ◌+◌, ◌-◌, ◌≤◌, ◌<◌, ◌≡◌, ◌≢◌, ◌↔◌, ◌⊎◌, inl, inr, refl, sym, ap, ◌∙◌, arith, List, [], ◌∷◌,
  ◌++◌, Bool, true, false, ◌&&◌, ◌||◌, Option, none, some, leb, length, get_elem?, Bool-cases,
  get_elem?-length, get_elem?-append_ne, leb→le,
}
use learning_redis.Cluster.Layout.{SlotRange, Node}
use learning_redis.Cluster.Parse.Claims.{Claimed, InSlots}
use learning_redis.Cluster.Parse.{with_range}

-- Whether one of the ranges holds the slot.
abbrev pub holds : SlotRange → ℕ → Bool
holds r slot = leb r.start slot && leb slot r.end

abbrev pub covers : List SlotRange → ℕ → Bool
covers [] slot = false
covers (r ∷ rs) slot = covers rs slot || holds r slot

abbrev pub covers_of : Option Node → ℕ → Bool
covers_of none slot = false
covers_of (some n) slot = covers n.slots slot

-- The owner of a slot is the node that lists it.
abbrev pub Owns : List (Option ℕ) → List Node → Type 0
Owns owner nodes =
    (slot i : ℕ)
    → (get_elem? owner slot ≡ some (some i)) ↔ (covers_of (get_elem? nodes i) slot ≡ true)

covers-append :
    (rs : List SlotRange) (r : SlotRange) (slot : ℕ)
    → covers (rs ++ r ∷ []) slot ≡ (covers rs slot || holds r slot)
covers-append [] r slot = refl
covers-append (x ∷ rs) r slot =
    rw (covers-append rs r slot) (swap (covers rs slot) (holds r slot) (holds x slot))
  where
    swap : (a b c : Bool) → ((a || b) || c) ≡ ((a || c) || b)
    swap true b c = refl
    swap false true true = refl
    swap false true false = refl
    swap false false true = refl
    swap false false false = refl

abbrev pub LastIs : List Node → Node → ℕ → Type 0
LastIs nodes n i =
    ((i ≡ length nodes) × (get_elem? (nodes ++ n ∷ []) i ≡ some n))
    ⊎ ((i ≢ length nodes) × (get_elem? (nodes ++ n ∷ []) i ≡ get_elem? nodes i))

pub last-cases : (nodes : List Node) (n : Node) (i : ℕ) → LastIs nodes n i
last-cases nodes n i = elim (same? i (length nodes)) [
  | inl e ↦ inl (e, ap (get_elem? (nodes ++ n ∷ [])) e ∙ get_elem?-length nodes [] n)
  | inr ne ↦ inr (ne, get_elem?-append_ne nodes i n ne)
]
  where
    same? : (a b : ℕ) → (a ≡ b) ⊎ (a ≢ b)
    same? a b = ground arith

both : (a b : Bool) → (a && b) ≡ true → (a ≡ true) × (b ≡ true)
both true b h = (refl, h)
both false b h = ground (arith, h)

rest : (a b : Bool) → a ≡ true → (a && b) ≡ false → b ≡ false
rest true b e h = h
rest false b e h = ground (arith, e)

or_true : (a : Bool) → (a || true) ≡ true
or_true true = refl
or_true false = refl

or_false : (a : Bool) → (a || false) ≡ a
or_false true = refl
or_false false = refl

abbrev index_of : Option (Option ℕ) → ℕ
index_of (some (some i)) = i
index_of (some none) = 0
index_of none = 0

pub clash : {i : ℕ} → some none ≡ some (some i) → ⊥
clash e = ground (arith, ap owned e)
  where
    owned : Option (Option ℕ) → ℕ
    owned (some (some i)) = 1
    owned (some none) = 0
    owned none = 0

module _ (nodes : List Node) (n : Node) (r : SlotRange) (before after : List (Option ℕ))
    (owns : Owns before (nodes ++ n ∷ [])) (in_slots : InSlots r)
    (c : Claimed (length nodes) r.start (r.end - r.start + 1) before after) where
  owner_inside :
      (slot i : ℕ)
      → holds r slot ≡ true
      → (get_elem? after slot ≡ some (some i))
        ↔ (covers_of (get_elem? (nodes ++ with_range n r ∷ []) i) slot ≡ true)
  owner_inside slot i h = by_node (last-cases nodes (with_range n r) i)
    where
      within : (r.start ≤ slot) × (slot < r.start + (r.end - r.start + 1))
      within =
          let (lo, hi) = both (leb r.start slot) (leb slot r.end) h in
          let lo' : r.start ≤ slot = leb→le r.start slot lo in
          let hi' : slot ≤ r.end = leb→le slot r.end hi in
          (lo', omega (arith, lo', hi', in_slots.0))

      states :
          (get_elem? before slot ≡ some none) × (get_elem? after slot ≡ some (some (length nodes)))
      states = c.inside slot within.0 within.1

      by_node :
          LastIs nodes (with_range n r) i
          → (get_elem? after slot ≡ some (some i))
            ↔ (covers_of (get_elem? (nodes ++ with_range n r ∷ []) i) slot ≡ true)
      by_node (inl (e, at)) = (
        λ own. rw (at, covers-append n.slots r slot, h) (or_true (covers n.slots slot)),
        λ cov. states.1 ∙ ap (λ (j : ℕ). some (some j)) (sym e),
      )
      by_node (inr (ne, at)) = (
        λ own. absurd (ne (sym (ap index_of (sym states.1 ∙ own)))),
        λ cov.
            let listed : covers_of (get_elem? (nodes ++ n ∷ []) i) slot ≡ true =
              rw (get_elem?-append_ne nodes i n ne)
                (sym (ap (λ (o : Option Node). covers_of o slot) at) ∙ cov) in
            absurd (clash (sym states.0 ∙ (owns slot i).1 listed)),
      )

  owner_outside :
      (slot i : ℕ)
      → holds r slot ≡ false
      → (get_elem? after slot ≡ some (some i))
        ↔ (covers_of (get_elem? (nodes ++ with_range n r ∷ []) i) slot ≡ true)
  owner_outside slot i h = by_node (last-cases nodes (with_range n r) i)
    where
      away : (slot < r.start) ⊎ (r.start + (r.end - r.start + 1) ≤ slot)
      away = elim (Bool-cases (leb r.start slot)) [
        | inl lo ↦ inr (beyond lo)
        | inr below ↦ inl (ground (arith, below))
      ]
        where
          beyond : leb r.start slot ≡ true → r.start + (r.end - r.start + 1) ≤ slot
          beyond lo =
              let hi : leb slot r.end ≡ false = rest (leb r.start slot) (leb slot r.end) lo h in
              let above : r.end < slot = ground (arith, hi) in omega (arith, above, in_slots.0)

      as_before : get_elem? after slot ≡ get_elem? before slot
      as_before = c.outside_of slot away

      by_node :
          LastIs nodes (with_range n r) i
          → (get_elem? after slot ≡ some (some i))
            ↔ (covers_of (get_elem? (nodes ++ with_range n r ∷ []) i) slot ≡ true)
      by_node (inl (e, at)) =
          let here : covers_of (get_elem? (nodes ++ n ∷ []) i) slot ≡ covers n.slots slot =
            ap (λ (o : Option Node). covers_of o slot)
              (ap (get_elem? (nodes ++ n ∷ [])) e ∙ get_elem?-length nodes [] n) in
          let there : covers_of (get_elem? (nodes ++ with_range n r ∷ []) i) slot
              ≡ covers n.slots slot =
            rw (at, covers-append n.slots r slot, h) (or_false (covers n.slots slot)) in
          (
            λ own. there ∙ sym here ∙ (owns slot i).0 (sym as_before ∙ own),
            λ cov. as_before ∙ (owns slot i).1 (here ∙ sym there ∙ cov),
          )
      by_node (inr (ne, at)) =
          let same : covers_of (get_elem? (nodes ++ with_range n r ∷ []) i) slot
              ≡ covers_of (get_elem? (nodes ++ n ∷ []) i) slot =
            ap (λ (o : Option Node). covers_of o slot)
              (at ∙ sym (get_elem?-append_ne nodes i n ne)) in
          (
            λ own. same ∙ (owns slot i).0 (sym as_before ∙ own),
            λ cov. as_before ∙ (owns slot i).1 (sym same ∙ cov),
          )

  pub with_range-Owns : Owns after (nodes ++ with_range n r ∷ [])
  with_range-Owns slot i = elim (Bool-cases (holds r slot)) [
    | inl h ↦ owner_inside slot i h
    | inr h ↦ owner_outside slot i h
  ]
