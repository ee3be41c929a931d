-- ===== src/Cluster/Parse/Consistent.antt =====
-- cluster/config.go: `ParseLayout` does not panic, and what it accepts is consistent.
use learning_redis.Common.{
  All, All-append, subst, ℕ, zero, suc, ◌<◌, ◌≡◌, inl, inr, refl, sym, arith, List, [], ◌∷◌, ◌++◌,
  Bytes, Bool, true, false, Option, none, some, length, get_elem?, replicate, Bool-cases,
  length-replicate,
}
use learning_redis.Common.Int.{ℤ}
use learning_redis.Common.Decimal.{parse_int}
use learning_redis.Core.Frame.{Plain}
use learning_redis.Cluster.Slot.{num_slots}
use learning_redis.Cluster.Layout.{Node, Layout}
use learning_redis.Cluster.Parse.{
  Result, ok, rejected, crashed, then_do, claim_all, Parsing, contains, self_after, add_node,
  port_of, port_from, finish_with, parse_fields, parse_lines, nothing_parsed, finish, parse_layout,
  fields, strip_comment,
}
use learning_redis.Cluster.Parse.Claims.{Fine, then_do-Fine}
use learning_redis.Cluster.Parse.Owners.{Owns, clash}
use learning_redis.Cluster.Parse.Taken.{bare-Owns, Taken, claim_all-Fine}
use learning_redis.Cluster.Parse.Self.{Finds, self_after-Fine}
use learning_redis.Cluster.Parse.Fields.{fields-Plain}

-- What holds of a layout, line after line: each slot's owner is the node that lists it, this node is the
-- only one with its port, and `Q` of each address.
pub record Consistent (Q : Bytes → Type 0) (my_port : ℤ) (nodes : List Node) (self : Option ℕ)
    (owner : List (Option ℕ)) : Type 0 where
  pub owns : Owns owner nodes
  pub size : length owner ≡ num_slots
  pub finds : Finds my_port nodes self
  pub exists : (i : ℕ) → self ≡ some i → i < length nodes
  pub addresses : All (λ n. Q n.addr) nodes

abbrev Sound : (Bytes → Type 0) → ℤ → Parsing → Type 0
Sound Q my_port p = Consistent Q my_port p.nodes p.self p.owner

add_node-Fine :
    (Q : Bytes → Type 0) (my_port : ℤ) (p : Parsing) (taken : Node × List (Option ℕ)) (addr : Bytes)
    → Sound Q my_port p
    → Taken p.nodes addr taken
    → Q addr
    → Fine (Sound Q my_port) (add_node my_port p taken)
add_node-Fine Q my_port p (n, owner) addr sound (owns, size, same) q =
    then_do-Fine
      (λ self'.
        Finds my_port (p.nodes ++ n ∷ []) self'
        × ((i : ℕ) → self' ≡ some i → i < length (p.nodes ++ n ∷ [])))
      (Sound Q my_port) (self_after my_port n.port (length p.nodes) p.self)
      (λ self. ok (record {
        nodes = p.nodes ++ n ∷ [];
        self = self;
        owner = owner;
        names = n.name ∷ p.names;
        addrs = n.addr ∷ p.addrs;
      }))
      (self_after-Fine my_port p.nodes n p.self sound.finds sound.exists)
      (λ self h. record {
        owns = owns;
        size = size;
        finds = h.0;
        exists = h.1;
        addresses =
            All-append (λ n. Q n.addr) p.nodes (n ∷ []) sound.addresses (subst Q (sym same) q, tt);
      })

nothing_parsed-Sound : (Q : Bytes → Type 0) (my_port : ℤ) → Sound Q my_port nothing_parsed
nothing_parsed-Sound Q my_port = record {
  owns = λ slot i. (λ own. absurd (free num_slots slot own), λ cov. ground (arith, cov));
  size = length-replicate {A = Option ℕ} num_slots none;
  finds = λ i n at. (λ is. ground (arith, is), λ port. ground (arith, at));
  exists = λ i is. ground (arith, is);
  addresses = tt;
}
  where
    free : (n slot : ℕ) {i : ℕ} → get_elem? (replicate n none) slot ≡ some (some i) → ⊥
    free zero slot e = ground (arith, e)
    free (suc n) zero e = clash e
    free (suc n) (suc slot) e = free n slot e

-- What is accepted is consistent, and one of its nodes is this one.
abbrev pub Accepted : (Bytes → Type 0) → ℤ → Result Layout → Type 0
Accepted Q my_port =
    Fine (λ l. Consistent Q my_port l.nodes l.self l.owner × (i : ℕ) × (l.self ≡ some i))

finish-Fine :
    (Q : Bytes → Type 0) (my_port : ℤ) (scan_error : Bool) (p : Parsing)
    → Sound Q my_port p
    → Accepted Q my_port (finish scan_error p)
finish-Fine Q my_port true p sound = tt
finish-Fine Q my_port false p sound = by_parts p.nodes p.self refl
  where
    by_parts :
        (ns : List Node) (self : Option ℕ)
        → p.self ≡ self
        → Accepted Q my_port (finish_with p ns self)
    by_parts [] self e = tt
    by_parts (n ∷ ns) none e = tt
    by_parts (n ∷ ns) (some i) e = (sound, i, e)

module _ (split_host_port : Bytes → Option (Bytes × Bytes)) (node_id : Bytes → Bytes) where
  -- One line, which `net.SplitHostPort` accepts.
  abbrev pub Address : Bytes → Type 0
  Address addr = Plain addr × (parts : Bytes × Bytes) × (split_host_port addr ≡ some parts)

  parse_fields-Fine :
      (my_port : ℤ) (p : Parsing) (fs : List Bytes)
      → Sound Address my_port p
      → All Plain fs
      → Fine (Sound Address my_port) (parse_fields split_host_port node_id my_port p fs)
  parse_fields-Fine my_port p [] sound plain = sound
  parse_fields-Fine my_port p (name ∷ []) sound plain = tt
  parse_fields-Fine my_port p (name ∷ addr ∷ []) sound plain = tt
  parse_fields-Fine my_port p (name ∷ addr ∷ spec ∷ specs) sound plain =
      elim (Bool-cases (contains name p.names)) [
        | inl twice ↦ rw twice tt
        | inr new ↦ elim (Bool-cases (contains addr p.addrs)) [
          | inl twice ↦ rw (new, twice) tt
          | inr fresh ↦ rw (new, fresh) (by_parts (split_host_port addr) refl)
        ]
      ]
    where
      node : ℤ → Node
      node port = record { name = name; addr = addr; port = port; id = node_id name; slots = [] }

      by_port :
          (r : Result ℤ)
          → Fine (λ port. Address addr) r
          → Fine (Sound Address my_port) (
              then_do r (λ port.
                then_do
                  (claim_all p.nodes (spec ∷ specs) (node port) p.owner)
                  (add_node my_port p)))
      by_port (rejected e) fine = tt
      by_port crashed fine = fine
      by_port (ok port) fine =
          then_do-Fine (Taken p.nodes addr) (Sound Address my_port)
            (claim_all p.nodes (spec ∷ specs) (node port) p.owner) (add_node my_port p)
            (claim_all-Fine p.nodes (spec ∷ specs) (node port) p.owner
              (bare-Owns p.owner p.nodes (node port) refl sound.owns, sound.size, refl))
            (λ taken t. add_node-Fine Address my_port p taken addr sound t fine)

      by_number : (o : Option ℤ) → Address addr → Fine (λ port. Address addr) (port_from o)
      by_number none a = tt
      by_number (some port) a = a

      by_parts :
          (o : Option (Bytes × Bytes))
          → split_host_port addr ≡ o
          → Fine (Sound Address my_port) (
              then_do (port_of o) (λ port.
                then_do
                  (claim_all p.nodes (spec ∷ specs) (node port) p.owner)
                  (add_node my_port p)))
      by_parts none e = tt
      by_parts (some (host, port)) e =
          by_port (port_from (parse_int port))
            (by_number (parse_int port) (plain.1.0, (host, port), e))

  parse_lines-Fine :
      (my_port : ℤ) (lines : List Bytes) (p : Parsing)
      → Sound Address my_port p
      → Fine (Sound Address my_port) (parse_lines split_host_port node_id my_port lines p)
  unfolding parse_lines
  parse_lines-Fine my_port [] p sound = sound
  parse_lines-Fine my_port (line ∷ lines) p sound =
      then_do-Fine (Sound Address my_port) (Sound Address my_port)
        (parse_fields split_host_port node_id my_port p (fields (strip_comment line)))
        (parse_lines split_host_port node_id my_port lines)
        (parse_fields-Fine my_port p (fields (strip_comment line)) sound
          (fields-Plain (strip_comment line)))
        (λ p' sound'. parse_lines-Fine my_port lines p' sound')

  -- `ParseLayout` never panics.
  pub parse_layout-Accepted :
      (lines : List Bytes) (scan_error : Bool) (my_port : ℤ)
      → Accepted Address my_port (parse_layout split_host_port node_id lines scan_error my_port)
  unfolding parse_layout
  parse_layout-Accepted lines scan_error my_port =
      then_do-Fine (Sound Address my_port)
        (λ l. Consistent Address my_port l.nodes l.self l.owner × (i : ℕ) × (l.self ≡ some i))
        (parse_lines split_host_port node_id my_port lines nothing_parsed) (finish scan_error)
        (parse_lines-Fine my_port lines nothing_parsed (nothing_parsed-Sound Address my_port))
        (finish-Fine Address my_port scan_error)
