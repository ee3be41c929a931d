-- ===== src/Cluster/Parse/Self.antt =====
-- cluster/config.go: which node `ParseLayout` takes for this one.
use learning_redis.Common.{
  ℕ, ◌<◌, ◌≡◌, ◌↔◌, inl, inr, refl, sym, ap, ◌∙◌, arith, List, [], ◌∷◌, ◌++◌, true, false, ◌||◌,
  Option, none, some, length, get_elem?, Bool-cases, length-append,
}
use learning_redis.Common.Int.{ℤ, pos, negsuc, ltb_ℤ}
use learning_redis.Cluster.Layout.{Node}
use learning_redis.Cluster.Parse.{ok, rejected, self_after, port_twice}
use learning_redis.Cluster.Parse.Claims.{Fine}
use learning_redis.Cluster.Parse.Owners.{LastIs, last-cases}

-- This node is the one with the port.
abbrev pub Finds : ℤ → List Node → Option ℕ → Type 0
Finds my_port nodes self =
    (i : ℕ) (n : Node) → get_elem? nodes i ≡ some n → (self ≡ some i) ↔ (n.port ≡ my_port)

ltb_ℤ-same : (a b : ℤ) → (ltb_ℤ a b || ltb_ℤ b a) ≡ false → a ≡ b
ltb_ℤ-same (pos a) (pos b) h = ap pos (ground (arith, h))
ltb_ℤ-same (pos a) (negsuc b) h = ground (arith, h)
ltb_ℤ-same (negsuc a) (pos b) h = ground (arith, h)
ltb_ℤ-same (negsuc a) (negsuc b) h = ap negsuc (ground (arith, h))

ltb_ℤ-irrefl : (a : ℤ) → (ltb_ℤ a a || ltb_ℤ a a) ≡ false
ltb_ℤ-irrefl (pos a) = ground arith
ltb_ℤ-irrefl (negsuc a) = ground arith

pub self_after-Fine :
    (my_port : ℤ) (nodes : List Node) (n : Node) (self : Option ℕ)
    → Finds my_port nodes self
    → ((i : ℕ) → self ≡ some i → i < length nodes)
    → Fine
        (λ self'.
          Finds my_port (nodes ++ n ∷ []) self'
          × ((i : ℕ) → self' ≡ some i → i < length (nodes ++ n ∷ [])))
        (self_after my_port n.port (length nodes) self)
self_after-Fine my_port nodes n self finds exists =
    elim (Bool-cases (ltb_ℤ n.port my_port || ltb_ℤ my_port n.port)) [
      | inl other ↦ rw other (
        λ i m at. not_me other i m at (last-cases nodes n i),
        λ i is. omega (arith, exists i is, length-append nodes (n ∷ [])),
      )
      | inr mine ↦ rw mine (by_self self refl (ltb_ℤ-same n.port my_port mine))
    ]
  where
    not_me :
        (ltb_ℤ n.port my_port || ltb_ℤ my_port n.port) ≡ true
        → (i : ℕ) (m : Node) → get_elem? (nodes ++ n ∷ []) i ≡ some m
        → LastIs nodes n i
        → (self ≡ some i) ↔ (m.port ≡ my_port)
    not_me other i m at (inl (e, last)) = (
      λ is. let lt : i < length nodes = exists i is in absurd (omega (arith, lt, e)),
      λ port.
          let is_n : n ≡ m = ground (arith, sym last ∙ at) in
          let equal : n.port ≡ my_port = ap (λ (x : Node). x.port) is_n ∙ port in
          let irrefl : (ltb_ℤ n.port my_port || ltb_ℤ my_port n.port) ≡ false =
            ap (λ (z : ℤ). ltb_ℤ z my_port || ltb_ℤ my_port z) equal ∙ ltb_ℤ-irrefl my_port in
          ground (arith, sym irrefl ∙ other),
    )
    not_me other i m at (inr (ne, before)) = finds i m (sym before ∙ at)

    me :
        self ≡ none
        → n.port ≡ my_port
        → (i : ℕ) (m : Node) → get_elem? (nodes ++ n ∷ []) i ≡ some m
        → LastIs nodes n i
        → (some (length nodes) ≡ some i) ↔ (m.port ≡ my_port)
    me free port i m at (inl (e, last)) =
        let is_n : n ≡ m = ground (arith, sym last ∙ at) in
        (λ is. ap (λ (x : Node). x.port) (sym is_n) ∙ port, λ p. ap (λ (j : ℕ). some j) (sym e))
    me free port i m at (inr (ne, before)) = (
      λ is. let same : length nodes ≡ i = ground (arith, is) in absurd (ne (sym same)),
      λ p.
          let is : self ≡ some i = (finds i m (sym before ∙ at)).1 p in
          ground (arith, sym free ∙ is),
    )

    by_self :
        (o : Option ℕ)
        → self ≡ o
        → n.port ≡ my_port
        → Fine
            (λ self'.
              Finds my_port (nodes ++ n ∷ []) self'
              × ((i : ℕ) → self' ≡ some i → i < length (nodes ++ n ∷ [])))
            (elim o [ none ↦ ok (some (length nodes)) | some j ↦ rejected port_twice ])
    by_self (some j) at port = tt
    by_self none at port = (
      λ i m found. me at port i m found (last-cases nodes n i),
      λ i is.
          let same : length nodes ≡ i = ground (arith, is) in
          omega (arith, same, length-append nodes (n ∷ [])),
    )
