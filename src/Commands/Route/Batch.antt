-- ===== src/Commands/Route/Batch.antt =====
-- The check of a transaction against the checks of its commands.
use learning_redis.Common.{
  ℕ, ◌≡◌, ◌⊎◌, refl, ap, ◌∙◌, arith, List, [], ◌∷◌, ◌++◌, Bytes, Bool, true, false, Option, none,
  some, ◌>>=◌, ◌==◌, ==_iff, if◌then◌else◌, Option-cases, inl, inr, All,
}
use learning_redis.Common.Int.{pos}
use learning_redis.Cluster.Slot.{key_hash_slot}
use learning_redis.Cluster.Layout.{Layout, owner_of}
use learning_redis.Commands.Command.{Command, keys_of}
use learning_redis.Commands.Route.{
  all_in_slot, owned, check_layout, check_keys, check_cluster, batch_keys, check_cluster_batch,
  crossslot,
}

-- All these keys are in the slot.
abbrev InSlot : ℕ → List Bytes → Type 0
InSlot slot = All (λ k. key_hash_slot k ≡ some slot)

all_in_slot-InSlot : (slot : ℕ) (ks : List Bytes) → all_in_slot slot ks ≡ some true → InSlot slot ks
unfolding all_in_slot
all_in_slot-InSlot slot [] h = tt
all_in_slot-InSlot slot (k ∷ ks) h = elim (Option-cases (key_hash_slot k)) [
  | inl fails ↦ let h' : none ≡ some true = simp fails at h in ground (arith, h')
  | inr (other, e) ↦
      by_test other (all_in_slot slot ks) e (other == slot) refl (simp e at h)
        (all_in_slot-InSlot slot ks)
]
  where
    by_test :
        (other : ℕ) (rest : Option Bool)
        → key_hash_slot k ≡ some other
        → (b : Bool) → (other == slot) ≡ b
        → (if other == slot then rest else some false) ≡ some true
        → (rest ≡ some true → InSlot slot ks)
        → InSlot slot (k ∷ ks)
    by_test other rest e true same h ih =
        (e ∙ ap some ((==_iff other slot).0 same), ih (simp same at h))
    by_test other rest e false differs h ih =
        let h' : some false ≡ some true = simp differs at h in ground (arith, h')

InSlot-all_in_slot : (slot : ℕ) (ks : List Bytes) → InSlot slot ks → all_in_slot slot ks ≡ some true
unfolding all_in_slot
InSlot-all_in_slot slot [] h = refl
InSlot-all_in_slot slot (k ∷ ks) h =
    rw h.0 (rw ((==_iff slot slot).1 refl) (InSlot-all_in_slot slot ks h.1))

-- The keys can be served here: one slot, which this node owns.
abbrev Served : Layout → List Bytes → Type 0
Served l ks = (slot : ℕ) × InSlot slot ks × (owned l slot (owner_of l (pos slot)) ≡ some none)

Served-check_layout : (l : Layout) (ks : List Bytes) → Served l ks → check_layout l ks ≡ some none
unfolding check_layout
Served-check_layout l [] (slot, each, own) = refl
Served-check_layout l (k ∷ ks) (slot, each, own) =
    rw each.0 (rw (InSlot-all_in_slot slot ks each.1) own)

check_layout-Served :
    (l : Layout) (ks : List Bytes) → check_layout l ks ≡ some none → (ks ≡ []) ⊎ Served l ks
unfolding check_layout
check_layout-Served l [] h = inl refl
check_layout-Served l (k ∷ ks) h = elim (Option-cases (key_hash_slot k)) [
  | inl fails ↦ let h' : none ≡ some none = simp fails at h in ground (arith, h')
  | inr (slot, e) ↦ by_slot slot e (all_in_slot slot ks) refl (simp e at h)
]
  where
    by_slot :
        (slot : ℕ)
        → key_hash_slot k ≡ some slot
        → (o : Option Bool) → all_in_slot slot ks ≡ o
        → (o >>= λ together.
            if together then owned l slot (owner_of l (pos slot)) else some (some crossslot))
          ≡ some none
        → (k ∷ ks ≡ []) ⊎ Served l (k ∷ ks)
    by_slot slot e none run h = ground (arith, h)
    by_slot slot e (some false) run h = ground (arith, h)
    by_slot slot e (some true) run h = inr (slot, (e, all_in_slot-InSlot slot ks run), h)

InSlot-split :
    (slot : ℕ) (xs ys : List Bytes) → InSlot slot (xs ++ ys) → InSlot slot xs × InSlot slot ys
InSlot-split slot [] ys h = (tt, h)
InSlot-split slot (x ∷ xs) ys h = let (hx, hy) = InSlot-split slot xs ys h.1 in ((h.0, hx), hy)

append-empty : (xs ys : List Bytes) → xs ++ ys ≡ [] → (xs ≡ []) × (ys ≡ [])
append-empty [] ys h = (refl, h)
append-empty (x ∷ xs) ys h = ground (arith, h)

-- Keys that pass together pass in parts.
check_layout-split :
    (l : Layout) (xs ys : List Bytes)
    → check_layout l (xs ++ ys) ≡ some none
    → (check_layout l xs ≡ some none) × (check_layout l ys ≡ some none)
check_layout-split l xs ys h = elim (check_layout-Served l (xs ++ ys) h) [
  | inl no_key ↦
      let (ex, ey) = append-empty xs ys no_key in
      let ok : check_layout l [] ≡ some none = unfold check_layout in refl in
      (ap (check_layout l) ex ∙ ok, ap (check_layout l) ey ∙ ok)
  | inr (slot, each, own) ↦
      let (hx, hy) = InSlot-split slot xs ys each in
      (Served-check_layout l xs (slot, hx, own), Served-check_layout l ys (slot, hy, own))
]

check_keys-split :
    (o : Option Layout) (xs ys : List Bytes)
    → check_keys o (xs ++ ys) ≡ some none
    → (check_keys o xs ≡ some none) × (check_keys o ys ≡ some none)
unfolding check_keys
check_keys-split none xs ys h = (refl, refl)
check_keys-split (some l) xs ys h = check_layout-split l xs ys h

-- A transaction that passes the check has no command that this node would refuse.
pub check_cluster_batch-each :
    (o : Option Layout) (cmds : List Command)
    → check_cluster_batch o cmds ≡ some none
    → All (λ c. check_cluster o c ≡ some none) cmds
unfolding check_cluster_batch batch_keys check_cluster
check_cluster_batch-each o [] h = tt
check_cluster_batch-each o (c ∷ cs) h =
    by_keys (keys_of c) refl (batch_keys cs) refl h (check_cluster_batch-each o cs)
  where
    by_keys :
        (k : Option (List Bytes))
        → keys_of c ≡ k
        → (ks : Option (List Bytes)) → batch_keys cs ≡ ks
        → ((do x ← k; xs ← ks; some (x ++ xs)) >>= check_keys o) ≡ some none
        → ((batch_keys cs >>= check_keys o) ≡ some none
            → All (λ c. (keys_of c >>= check_keys o) ≡ some none) cs)
        → ((keys_of c >>= check_keys o) ≡ some none)
          × All (λ c. (keys_of c >>= check_keys o) ≡ some none) cs
    by_keys none e ks e' h ih = ground (arith, h)
    by_keys (some x) e none e' h ih = ground (arith, h)
    by_keys (some x) e (some xs) e' h ih =
        let (hx, hxs) = check_keys-split o x xs h in (rw e hx, ih (rw e' hxs))
