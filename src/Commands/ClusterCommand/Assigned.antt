-- ===== src/Commands/ClusterCommand/Assigned.antt =====
-- commands/cluster.go and cluster/config.go: the slots that CLUSTER INFO counts.
use learning_redis.Common.{
  ℕ, zero, suc, ◌+◌, ◌-◌, ◌≤◌, ◌<◌, ◌≡◌, ◌↔◌, refl, sym, ap, subst, ◌∙◌, arith, List, [], ◌∷◌, ◌++◌,
  Bytes, Bool, true, false, Option, none, some, lt→ltb, length, get_elem?, set, replicate,
  Bool-cases, inl, inr,
}
use learning_redis.Common.Int.{ℤ, pos}
use learning_redis.Cluster.Slot.{num_slots}
use learning_redis.Cluster.Layout.{SlotRange, Node, Layout, owner_of, owner_entry}
use learning_redis.Cluster.Parse.{
  Result, ok, rejected, crashed, then_do, claim, claim_one, claim_all, with_range, parse_range,
  Parsing, contains, self_after, add_node, port_of, finish_with, parse_fields, parse_lines,
  nothing_parsed, finish, parse_layout, fields, strip_comment,
}
use learning_redis.Cluster.Parse.Consistent.{Accepted, Address, parse_layout-Accepted}
use learning_redis.Commands.ClusterCommand.{slots_in, assigned_slots}

-- `P` of a result.
abbrev Kept {ℓ} : {A : Type ℓ} → (A → Type 0) → Result A → Type 0
Kept P (ok a) = P a
Kept P (rejected e) = Unit
Kept P crashed = Unit

then_do-Kept {ℓ κ} :
    {A : Type ℓ} {B : Type κ} (P : A → Type 0) (Q : B → Type 0) (r : Result A) (f : A → Result B)
    → Kept P r
    → ((a : A) → P a → Kept Q (f a))
    → Kept Q (then_do r f)
then_do-Kept P Q (ok a) f p h = h a p
then_do-Kept P Q (rejected e) f p h = tt
then_do-Kept P Q crashed f p h = tt

then_do-Kept_any {ℓ κ} :
    {A : Type ℓ} {B : Type κ} (Q : B → Type 0) (r : Result A) (f : A → Result B)
    → ((a : A) → Kept Q (f a))
    → Kept Q (then_do r f)
then_do-Kept_any Q (ok a) f h = h a
then_do-Kept_any Q (rejected e) f h = tt
then_do-Kept_any Q crashed f h = tt

-- The slots with an owner.
abbrev pub owned : List (Option ℕ) → ℕ
owned [] = 0
owned (none ∷ os) = owned os
owned (some i ∷ os) = suc (owned os)

owned-set :
    (os : List (Option ℕ)) (s i : ℕ)
    → get_elem? os s ≡ some none
    → owned (set os s (some i)) ≡ suc (owned os)
owned-set [] s i h = ground (arith, h)
owned-set (none ∷ os) zero i h = refl
owned-set (some j ∷ os) zero i h =
    let none_is : some j ≡ none = ground (arith, h) in ground (arith, none_is)
owned-set (none ∷ os) (suc s) i h = owned-set os s i h
owned-set (some j ∷ os) (suc s) i h = ap suc (owned-set os s i h)

claim-owned :
    (nodes : List Node) (n : Node) (count s : ℕ) (owner : List (Option ℕ))
    → Kept (λ after. owned after ≡ count + owned owner) (claim nodes n count s owner)
unfolding claim
claim-owned nodes n zero s owner = omega arith
claim-owned nodes n (suc count) s owner =
    let next = set owner s (some (length nodes)) in
    by_entry (get_elem? owner s) refl (claim-owned nodes n count (suc s) next)
  where
    one_more :
        (r : Result (List (Option ℕ)))
        → get_elem? owner s ≡ some none
        → Kept (λ after. owned after ≡ count + owned (set owner s (some (length nodes)))) r
        → Kept (λ after. owned after ≡ suc count + owned owner) r
    one_more (ok after) read h = omega (arith, h, owned-set owner s (length nodes) read)
    one_more (rejected e) read h = tt
    one_more crashed read h = tt

    by_entry :
        (o : Option (Option ℕ))
        → get_elem? owner s ≡ o
        → Kept
            (λ after. owned after ≡ count + owned (set owner s (some (length nodes))))
            (claim nodes n count (suc s) (set owner s (some (length nodes))))
        → Kept
            (λ after. owned after ≡ suc count + owned owner)
            (claim_one (claim nodes n count (suc s)) nodes n s owner o)
    by_entry none read rest = tt
    by_entry (some (some prev)) read rest = tt
    by_entry (some none) read rest =
        one_more (claim nodes n count (suc s) (set owner s (some (length nodes)))) read rest

slots_in-append :
    (rs : List SlotRange) (r : SlotRange)
    → slots_in (rs ++ r ∷ []) ≡ slots_in rs + (r.end - r.start + 1)
unfolding slots_in
slots_in-append [] r = omega arith
slots_in-append (x ∷ rs) r = omega (arith, slots_in-append rs r)

assigned_slots-append :
    (nodes : List Node) (n : Node)
    → assigned_slots (nodes ++ n ∷ []) ≡ assigned_slots nodes + slots_in n.slots
unfolding assigned_slots
assigned_slots-append [] n = omega arith
assigned_slots-append (m ∷ nodes) n = omega (arith, assigned_slots-append nodes n)

-- A node has as many slots in its ranges as were free before and are owned after.
claim_all-owned :
    (nodes : List Node) (specs : List Bytes) (n : Node) (owner : List (Option ℕ)) (free : ℕ)
    → owned owner ≡ free + slots_in n.slots
    → Kept (λ r. owned r.1 ≡ free + slots_in r.0.slots) (claim_all nodes specs n owner)
unfolding claim_all
claim_all-owned nodes [] n owner free h = h
claim_all-owned nodes (spec ∷ specs) n owner free h =
    then_do-Kept_any (λ r. owned r.1 ≡ free + slots_in r.0.slots) (parse_range spec) _
      (λ sr.
        then_do-Kept (λ after. owned after ≡ (sr.end - sr.start + 1) + owned owner)
          (λ r. owned r.1 ≡ free + slots_in r.0.slots)
          (claim nodes n (sr.end - sr.start + 1) sr.start owner) _
          (claim-owned nodes n (sr.end - sr.start + 1) sr.start owner)
          (λ owner' c.
            claim_all-owned nodes specs (with_range n sr) owner' free
              (omega (arith, c, h, slots_in-append n.slots sr))))

-- What is counted is what is owned.
abbrev Counts : Parsing → Type 0
Counts p = owned p.owner ≡ assigned_slots p.nodes

owned-nobody : (n : ℕ) → owned (replicate n none) ≡ 0
owned-nobody zero = refl
owned-nobody (suc n) = owned-nobody n

owned-le : (os : List (Option ℕ)) → owned os ≤ length os
owned-le [] = omega arith
owned-le (none ∷ os) = omega (arith, owned-le os)
owned-le (some i ∷ os) = omega (arith, owned-le os)

-- Not every entry has an owner exactly if one has none.
owned-lt :
    (os : List (Option ℕ))
    → (owned os < length os)
      ↔ ((slot : ℕ) × (slot < length os) × (owner_entry (get_elem? os slot) ≡ none))
owned-lt [] = (λ lt. absurd (omega (arith, lt)), λ x. absurd (omega (arith, x.1)))
owned-lt (none ∷ os) = (λ lt. (0, omega arith, refl), λ x. omega (arith, owned-le os))
owned-lt (some i ∷ os) = (
  λ lt.
      let (slot, small, free) = (owned-lt os).0 (omega (arith, lt)) in
      (suc slot, omega (arith, small), free),
  λ x. by_slot x.0 x.1 x.2 (owned-lt os).1,
)
  where
    by_slot :
        (slot : ℕ)
        → slot < suc (length os)
        → owner_entry (get_elem? (some i ∷ os) slot) ≡ none
        → (((k : ℕ) × (k < length os) × (owner_entry (get_elem? os k) ≡ none))
            → owned os < length os)
        → suc (owned os) < suc (length os)
    by_slot zero lt free ih = ground (arith, free)
    by_slot (suc k) lt free ih = let less = ih (k, omega (arith, lt), free) in omega (arith, less)

module _ (split_host_port : Bytes → Option (Bytes × Bytes)) (node_id : Bytes → Bytes) where
  parse_fields-Counts :
      (my_port : ℤ) (p : Parsing) (fs : List Bytes)
      → Counts p
      → Kept Counts (parse_fields split_host_port node_id my_port p fs)
  unfolding slots_in
  parse_fields-Counts my_port p [] h = h
  parse_fields-Counts my_port p (name ∷ []) h = tt
  parse_fields-Counts my_port p (name ∷ addr ∷ []) h = tt
  parse_fields-Counts my_port p (name ∷ addr ∷ spec ∷ specs) h =
      elim (Bool-cases (contains name p.names)) [
        | inl twice ↦ rw twice tt
        | inr new ↦ elim (Bool-cases (contains addr p.addrs)) [
          | inl twice ↦ rw (new, twice) tt
          | inr fresh ↦
              rw (new, fresh)
                (then_do-Kept_any Counts (port_of (split_host_port addr)) _ (λ port.
                  let node : Node = record {
                    name = name;
                    addr = addr;
                    port = port;
                    id = node_id name;
                    slots = [];
                  } in
                  then_do-Kept (λ r. owned r.1 ≡ assigned_slots p.nodes + slots_in r.0.slots) Counts
                    (claim_all p.nodes (spec ∷ specs) node p.owner) (add_node my_port p)
                    (claim_all-owned p.nodes (spec ∷ specs) node p.owner (assigned_slots p.nodes)
                      (omega (arith, h)))
                    (λ taken t.
                      then_do-Kept_any Counts
                        (self_after my_port taken.0.port (length p.nodes) p.self) _
                        (λ self. t ∙ sym (assigned_slots-append p.nodes taken.0)))))
        ]
      ]

  parse_lines-Counts :
      (my_port : ℤ) (lines : List Bytes) (p : Parsing)
      → Counts p
      → Kept Counts (parse_lines split_host_port node_id my_port lines p)
  unfolding parse_lines
  parse_lines-Counts my_port [] p h = h
  parse_lines-Counts my_port (line ∷ lines) p h =
      then_do-Kept Counts Counts
        (parse_fields split_host_port node_id my_port p (fields (strip_comment line))) _
        (parse_fields-Counts my_port p (fields (strip_comment line)) h)
        (λ p' h'. parse_lines-Counts my_port lines p' h')

  finish-Counts :
      (scan_error : Bool) (p : Parsing)
      → Counts p
      → Kept (λ l. owned l.owner ≡ assigned_slots l.nodes) (finish scan_error p)
  finish-Counts true p h = tt
  finish-Counts false p h = by_parts p.nodes p.self
    where
      by_parts :
          (ns : List Node) (self : Option ℕ)
          → Kept (λ l. owned l.owner ≡ assigned_slots l.nodes) (finish_with p ns self)
      by_parts [] self = tt
      by_parts (n ∷ ns) none = tt
      by_parts (n ∷ ns) (some i) = h

  parse_layout-owned :
      (lines : List Bytes) (scan_error : Bool) (my_port : ℤ)
      → Kept
          (λ l. owned l.owner ≡ assigned_slots l.nodes)
          (parse_layout split_host_port node_id lines scan_error my_port)
  unfolding parse_layout assigned_slots
  parse_layout-owned lines scan_error my_port =
      then_do-Kept Counts (λ l. owned l.owner ≡ assigned_slots l.nodes)
        (parse_lines split_host_port node_id my_port lines nothing_parsed) (finish scan_error)
        (parse_lines-Counts my_port lines nothing_parsed (owned-nobody num_slots))
        (finish-Counts scan_error)

  -- In a layout that ParseLayout accepts, the number of slots that CLUSTER INFO reports as
  -- assigned is below 16384, for which it reports the state fail, exactly if some slot has no
  -- owner.
  pub parse_layout-assigned_slots :
      (lines : List Bytes) (scan_error : Bool) (my_port : ℤ) (l : Layout)
      → parse_layout split_host_port node_id lines scan_error my_port ≡ ok l
      → (assigned_slots l.nodes < num_slots)
        ↔ ((slot : ℕ) × (slot < num_slots) × (owner_of l (pos slot) ≡ none))
  unfolding owner_of
  parse_layout-assigned_slots lines scan_error my_port l run =
      let same : owned l.owner ≡ assigned_slots l.nodes =
        subst (Kept (λ l. owned l.owner ≡ assigned_slots l.nodes)) run
          (parse_layout-owned lines scan_error my_port) in
      let (c, i, self) =
        subst (Accepted (Address split_host_port node_id) my_port) run
          (parse_layout-Accepted split_host_port node_id lines scan_error my_port) in
      (
        λ fewer.
            let (slot, lt, free) = (owned-lt l.owner).0 (omega (arith, fewer, same, c.size)) in
            let small : slot < num_slots = omega (arith, lt, c.size) in
            (slot, small, rw (lt→ltb slot num_slots small) free),
        λ x.
            let free : owner_entry (get_elem? l.owner x.0) ≡ none =
              simp (lt→ltb x.0 num_slots x.1) at x.2 in
            let less = (owned-lt l.owner).1 (x.0, omega (arith, x.1, c.size), free) in
            omega (arith, less, same, c.size),
      )
