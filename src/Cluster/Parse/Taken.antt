-- ===== src/Cluster/Parse/Taken.antt =====
-- cluster/config.go: the ranges of one line of the layout, claimed one after the other.
use learning_redis.Common.{
  ℕ, ◌+◌, ◌-◌, ◌≡◌, inl, inr, refl, sym, ap, ◌∙◌, arith, List, [], ◌∷◌, ◌++◌, Bytes, Option, none,
  length, get_elem?,
}
use learning_redis.Cluster.Slot.{num_slots}
use learning_redis.Cluster.Layout.{Node}
use learning_redis.Cluster.Parse.{then_do, claim, claim_all, with_range, parse_range}
use learning_redis.Cluster.Parse.Claims.{
  Fine, then_do-Fine, Claimed, claim-Fine, InSlots, parse_range-Fine,
}
use learning_redis.Cluster.Parse.Owners.{Owns, covers_of, with_range-Owns, LastIs, last-cases}

get_elem?-end : (nodes : List Node) → get_elem? nodes (length nodes) ≡ none
get_elem?-end [] = refl
get_elem?-end (n ∷ nodes) = get_elem?-end nodes

-- The node without ranges owns nothing.
pub bare-Owns :
    (owner : List (Option ℕ)) (nodes : List Node) (n : Node)
    → n.slots ≡ []
    → Owns owner nodes
    → Owns owner (nodes ++ n ∷ [])
bare-Owns owner nodes n bare owns slot i =
    let same : covers_of (get_elem? (nodes ++ n ∷ []) i) slot ≡ covers_of (get_elem? nodes i) slot =
      by_last (last-cases nodes n i) in
    (λ own. same ∙ (owns slot i).0 own, λ cov. (owns slot i).1 (sym same ∙ cov))
  where
    by_last :
        LastIs nodes n i
        → covers_of (get_elem? (nodes ++ n ∷ []) i) slot ≡ covers_of (get_elem? nodes i) slot
    by_last (inl (e, at)) =
        let past : get_elem? nodes i ≡ none = ap (get_elem? nodes) e ∙ get_elem?-end nodes in
        rw (at, past, bare) refl
    by_last (inr (ne, at)) = rw at refl

-- The ranges of a node, one after the other.
abbrev pub Taken : List Node → Bytes → Node × List (Option ℕ) → Type 0
Taken nodes addr (n, owner) =
    Owns owner (nodes ++ n ∷ []) × (length owner ≡ num_slots) × (n.addr ≡ addr)

pub claim_all-Fine :
    (nodes : List Node) (specs : List Bytes) (n : Node) (owner : List (Option ℕ))
    → Taken nodes n.addr (n, owner)
    → Fine (Taken nodes n.addr) (claim_all nodes specs n owner)
unfolding claim_all
claim_all-Fine nodes [] n owner t = t
claim_all-Fine nodes (spec ∷ specs) n owner (owns, size, same) =
    then_do-Fine InSlots (Taken nodes n.addr) (parse_range spec)
      (λ sr.
        then_do (claim nodes n (sr.end - sr.start + 1) sr.start owner)
          (λ owner'. claim_all nodes specs (with_range n sr) owner'))
      (parse_range-Fine spec)
      (λ sr in_slots.
        then_do-Fine (Claimed (length nodes) sr.start (sr.end - sr.start + 1) owner)
          (Taken nodes n.addr) (claim nodes n (sr.end - sr.start + 1) sr.start owner)
          (λ owner'. claim_all nodes specs (with_range n sr) owner')
          (claim-Fine nodes n (sr.end - sr.start + 1) sr.start owner
            (omega (arith, in_slots.0, in_slots.1, size)))
          (λ owner' c.
            claim_all-Fine nodes specs (with_range n sr) owner'
              (with_range-Owns nodes n sr owner owner' owns in_slots c, c.size ∙ size, refl)))
