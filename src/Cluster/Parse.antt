-- ===== src/Cluster/Parse.antt =====
-- cluster/config.go: `ParseLayout`, on the lines that the scanner gives. `net.SplitHostPort` and the
-- hash of `nodeID` are parameters, and so is whether the scanner ended with an error.
pub mod Claims
pub mod Owners
pub mod Taken
pub mod Self
pub mod Fields
pub mod Consistent
use learning_redis.Common.{
  ℕ, zero, suc, ◌+◌, ◌-◌, List, [], ◌∷◌, ◌++◌, Bytes, Bool, true, false, ◌&&◌, ◌||◌, Option, none,
  some, ltb, leb, ◌==◌, if◌then◌else◌, length, get_elem?, set, replicate, bytes_eq,
}
use learning_redis.Common.Int.{ℤ, pos, negsuc, ltb_ℤ}
use learning_redis.Common.Decimal.{parse_int}
use learning_redis.Cluster.Slot.{num_slots}
use learning_redis.Cluster.Layout.{SlotRange, Node, Layout}

-- The kinds of error, with the slot and the two names of a slot that is claimed twice.
pub data LayoutError : Type 0 where
  too_few_fields duplicate_name duplicate_address bad_address bad_port : LayoutError
  bad_slot bad_slot_range outside : LayoutError
  claimed_by_both : ℕ → Bytes → Bytes → LayoutError
  port_twice scan_failed no_nodes no_self : LayoutError

-- `crashed` is a panic. The line numbers in the errors are left out.
pub data Result {ℓ} (A : Type ℓ) : Type ℓ where
  ok : A → Result A
  rejected : LayoutError → Result A
  crashed : Result A

abbrev pub then_do {ℓ κ} : {A : Type ℓ} {B : Type κ} → Result A → (A → Result B) → Result B
then_do (ok a) f = f a
then_do (rejected e) f = rejected e
then_do crashed f = crashed

-- `line[:i]` at the first '#'.
unfoldable pub strip_comment : Bytes → Bytes
strip_comment [] = []
strip_comment (c ∷ cs) = let rest = strip_comment cs in if c == b'#' then [] else c ∷ rest

-- The ASCII white space.
abbrev pub is_space : ℕ → Bool
is_space c = c == 32 || (leb 9 c && leb c 13)

abbrev pub end_field : Bytes → List Bytes → List Bytes
end_field [] rest = rest
end_field (c ∷ cs) rest = (c ∷ cs) ∷ rest

-- `strings.Fields`, with the field that is being read.
unfoldable pub fields_loop : Bytes → Bytes → List Bytes
fields_loop [] field = end_field field []
fields_loop (c ∷ cs) field =
    let rest = fields_loop cs (if is_space c then [] else field ++ c ∷ []) in
    if is_space c then end_field field rest else rest

unfoldable pub fields : Bytes → List Bytes
unfolding fields_loop
fields line = fields_loop line []

-- `strings.Cut(spec, "-")`: the part before, and the part after if there is a '-'.
abbrev pub before_cut : ℕ → Bytes × Option Bytes → Bytes × Option Bytes
before_cut c (lo, hi) = (c ∷ lo, hi)

unfoldable pub cut : Bytes → Bytes × Option Bytes
cut [] = ([], none)
cut (c ∷ cs) = let rest = cut cs in if c == b'-' then ([], some cs) else before_cut c rest

abbrev pub checked_range : ℤ → ℤ → Result SlotRange
checked_range (pos start) (pos end) =
    if leb num_slots end || ltb end start
    then rejected outside
    else ok (record { start = start; end = end })
checked_range start end = rejected outside

abbrev pub range_to : ℤ → Option ℤ → Result SlotRange
range_to start none = rejected bad_slot_range
range_to start (some end) = checked_range start end

abbrev pub range_from : Option Bytes → Option ℤ → Result SlotRange
range_from hi none = rejected bad_slot
range_from none (some start) = checked_range start start
range_from (some hi) (some start) = range_to start (parse_int hi)

unfoldable pub parse_range : Bytes → Result SlotRange
unfolding cut
parse_range spec = let (lo, hi) = cut spec in range_from hi (parse_int lo)

-- The layout so far, with the names and the addresses that were seen.
pub record Parsing : Type 0 where
  pub nodes : List Node
  pub self : Option ℕ
  pub owner : List (Option ℕ)
  pub names : List Bytes
  pub addrs : List Bytes

unfoldable pub contains : Bytes → List Bytes → Bool
contains s [] = false
contains s (t ∷ ts) = bytes_eq s t || contains s ts

abbrev pub name_at : List Node → ℕ → Bytes
name_at nodes i = elim (get_elem? nodes i) [ none ↦ [] | some n ↦ n.name ]

abbrev pub claim_one :
    (List (Option ℕ) → Result (List (Option ℕ)))
    → List Node
    → Node
    → ℕ
    → List (Option ℕ)
    → Option (Option ℕ)
    → Result (List (Option ℕ))
claim_one more nodes n s owner none = crashed
claim_one more nodes n s owner (some (some prev)) =
    rejected (claimed_by_both s (name_at (nodes ++ n ∷ []) prev) n.name)
claim_one more nodes n s owner (some none) = more (set owner s (some (length nodes)))

-- `for s := sr.Start; s <= sr.End; s++`: `count` slots from `s`. The node comes after `nodes`.
unfoldable pub claim : List Node → Node → ℕ → ℕ → List (Option ℕ) → Result (List (Option ℕ))
claim nodes n zero s owner = ok owner
claim nodes n (suc count) s owner =
    claim_one (claim nodes n count (suc s)) nodes n s owner (get_elem? owner s)

abbrev pub with_range : Node → SlotRange → Node
with_range n sr = record n { slots = n.slots ++ sr ∷ [] }

-- The loop over `fields[2:]`: the node with its ranges, and the owners.
unfoldable pub claim_all :
    List Node → List Bytes → Node → List (Option ℕ) → Result (Node × List (Option ℕ))
unfolding parse_range claim
claim_all nodes [] n owner = ok (n, owner)
claim_all nodes (spec ∷ specs) n owner = then_do (parse_range spec) (λ sr.
    then_do (claim nodes n (sr.end - sr.start + 1) sr.start owner)
      (λ owner'. claim_all nodes specs (with_range n sr) owner'))

abbrev pub self_after : ℤ → ℤ → ℕ → Option ℕ → Result (Option ℕ)
self_after my_port port i self =
    if ltb_ℤ port my_port || ltb_ℤ my_port port
    then ok self
    else elim self [ none ↦ ok (some i) | some j ↦ rejected port_twice ]

abbrev pub add_node : ℤ → Parsing → Node × List (Option ℕ) → Result Parsing
add_node my_port p (n, owner) = then_do (self_after my_port n.port (length p.nodes) p.self) (λ self.
    ok (record {
      nodes = p.nodes ++ n ∷ [];
      self = self;
      owner = owner;
      names = n.name ∷ p.names;
      addrs = n.addr ∷ p.addrs;
    }))

abbrev pub port_from : Option ℤ → Result ℤ
port_from none = rejected bad_port
port_from (some n) = ok n

abbrev pub port_of : Option (Bytes × Bytes) → Result ℤ
port_of none = rejected bad_address
port_of (some (host, port)) = port_from (parse_int port)

abbrev pub nothing_parsed : Parsing
nothing_parsed = record {
  nodes = [];
  self = none;
  owner = replicate num_slots none;
  names = [];
  addrs = [];
}

abbrev pub finish_with : Parsing → List Node → Option ℕ → Result Layout
finish_with p [] self = rejected no_nodes
finish_with p (n ∷ ns) none = rejected no_self
finish_with p (n ∷ ns) (some i) = ok (record { nodes = p.nodes; self = p.self; owner = p.owner })

abbrev pub finish : Bool → Parsing → Result Layout
finish scan_error p = if scan_error then rejected scan_failed else finish_with p p.nodes p.self

module _ (split_host_port : Bytes → Option (Bytes × Bytes)) (node_id : Bytes → Bytes) where
  abbrev pub parse_fields : ℤ → Parsing → List Bytes → Result Parsing
  parse_fields my_port p [] = ok p
  parse_fields my_port p (name ∷ []) = rejected too_few_fields
  parse_fields my_port p (name ∷ addr ∷ []) = rejected too_few_fields
  parse_fields my_port p (name ∷ addr ∷ spec ∷ specs) =
      if contains name p.names
      then rejected duplicate_name
      else if contains addr p.addrs
      then rejected duplicate_address
      else then_do (port_of (split_host_port addr)) (λ port.
        then_do
          (claim_all p.nodes (spec ∷ specs)
            (record { name = name; addr = addr; port = port; id = node_id name; slots = [] })
            p.owner)
          (add_node my_port p))

  unfoldable pub parse_lines : ℤ → List Bytes → Parsing → Result Parsing
  unfolding fields strip_comment contains claim_all
  parse_lines my_port [] p = ok p
  parse_lines my_port (line ∷ lines) p =
      then_do (parse_fields my_port p (fields (strip_comment line))) (parse_lines my_port lines)

  unfoldable pub parse_layout : List Bytes → Bool → ℤ → Result Layout
  unfolding parse_lines
  parse_layout lines scan_error my_port =
      then_do (parse_lines my_port lines nothing_parsed) (finish scan_error)
