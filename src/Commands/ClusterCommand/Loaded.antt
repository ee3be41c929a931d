-- ===== src/Commands/ClusterCommand/Loaded.antt =====
-- cluster/config.go: a layout that `ParseLayout` accepted is one with which the server can start.
use learning_redis.Common.{
  ℕ, ◌<◌, ◌≡◌, ◌↔◌, ap, subst, arith, List, [], ◌∷◌, Bytes, Bool, true, Option, none, some, All,
  length, get_elem?, Bool-cases, inl, inr, ltb, lt→ltb, zero, suc,
}
use learning_redis.Common.Int.{ℤ, pos}
use learning_redis.Cluster.Slot.{num_slots}
use learning_redis.Cluster.Layout.{Node, Layout, owner_of, owner_entry}
use learning_redis.Cluster.Parse.{ok, parse_layout}
use learning_redis.Cluster.Parse.Owners.{Owns, covers_of}
use learning_redis.Cluster.Parse.Consistent.{Consistent, Accepted, Address, parse_layout-Accepted}
use learning_redis.Core.Frame.{Plain}
use learning_redis.Commands.Route.Safe.{OwnersExist}
use learning_redis.Commands.Route.Frames.{PlainAddrs}
use learning_redis.Commands.ClusterCommand.{cut_last}
use learning_redis.Commands.ClusterCommand.Answered.{HasPort, LayoutReady}

covers_of-lt :
    (nodes : List Node) (i slot : ℕ) → covers_of (get_elem? nodes i) slot ≡ true → i < length nodes
covers_of-lt [] i slot h = ground (arith, h)
covers_of-lt (n ∷ nodes) zero slot h = omega arith
covers_of-lt (n ∷ nodes) (suc i) slot h = omega (arith, covers_of-lt nodes i slot h)

owner_entry-some : (o : Option (Option ℕ)) (i : ℕ) → owner_entry o ≡ some i → o ≡ some (some i)
owner_entry-some none i h = ground (arith, h)
owner_entry-some (some o) i h = ap (λ (x : Option ℕ). some x) h

Owns-exist : (l : Layout) → Owns l.owner l.nodes → OwnersExist (some l)
unfolding owner_of
Owns-exist l owns slot owner h = elim (Bool-cases (ltb slot num_slots)) [
  | inl small ↦
      let entry : owner_entry (get_elem? l.owner slot) ≡ some owner = simp small at h in
      covers_of-lt l.nodes owner slot
        ((owns slot owner).0 (owner_entry-some (get_elem? l.owner slot) owner entry))
  | inr large ↦ let nobody : none ≡ some owner = simp large at h in ground (arith, nobody)
]

module _ (split_host_port : Bytes → Option (Bytes × Bytes)) (node_id : Bytes → Bytes) where
  -- An accepted layout, by the equation of the parse.
  accepted :
      (lines : List Bytes) (scan_error : Bool) (my_port : ℤ) (l : Layout)
      → parse_layout split_host_port node_id lines scan_error my_port ≡ ok l
      → Consistent (Address split_host_port node_id) my_port l.nodes l.self l.owner
        × (i : ℕ) × (l.self ≡ some i)
  accepted lines scan_error my_port l run =
      subst (Accepted (Address split_host_port node_id) my_port) run
        (parse_layout-Accepted split_host_port node_id lines scan_error my_port)

  addresses-HasPort :
      ((addr : Bytes) (parts : Bytes × Bytes)
        → split_host_port addr ≡ some parts
        → (cut : Bytes × Bytes) × (cut_last addr ≡ some cut))
      → (nodes : List Node) → All (λ n. Address split_host_port node_id n.addr) nodes
      → All HasPort nodes × All (λ n. Plain n.addr) nodes
  addresses-HasPort colon [] h = (tt, tt)
  addresses-HasPort colon (n ∷ nodes) ((plain, parts, run), h) =
      let (ports, plains) = addresses-HasPort colon nodes h in
      ((colon n.addr parts run, ports), (plain, plains))

  -- If net.SplitHostPort accepts no address without a colon, a layout that ParseLayout accepts
  -- makes the server ready: this node and the owner of every slot are nodes of it, and every
  -- address has a colon and no newline.
  pub parse_layout-ready :
      ((addr : Bytes) (parts : Bytes × Bytes)
        → split_host_port addr ≡ some parts
        → (cut : Bytes × Bytes) × (cut_last addr ≡ some cut))
      → (lines : List Bytes) (scan_error : Bool) (my_port : ℤ) (l : Layout)
      → parse_layout split_host_port node_id lines scan_error my_port ≡ ok l
      → LayoutReady true (some l) × OwnersExist (some l) × PlainAddrs (some l)
  parse_layout-ready colon lines scan_error my_port l run =
      let (c, i, self) = accepted lines scan_error my_port l run in
      let (ports, plains) = addresses-HasPort colon l.nodes c.addresses in
      (((i, self, c.exists i self), ports), Owns-exist l c.owns, plains)

  -- In a layout that ParseLayout accepts, the owner of a slot below 16384 is a node exactly if
  -- one of the ranges of that node holds the slot.
  pub parse_layout-owner_of :
      (lines : List Bytes) (scan_error : Bool) (my_port : ℤ) (l : Layout) (slot i : ℕ)
      → parse_layout split_host_port node_id lines scan_error my_port ≡ ok l
      → slot < num_slots
      → (owner_of l (pos slot) ≡ some i) ↔ (covers_of (get_elem? l.nodes i) slot ≡ true)
  unfolding owner_of
  parse_layout-owner_of lines scan_error my_port l slot i run lt =
      let (c, j, self) = accepted lines scan_error my_port l run in
      let small : ltb slot num_slots ≡ true = lt→ltb slot num_slots lt in
      (
        λ own. (c.owns slot i).0 (owner_entry-some (get_elem? l.owner slot) i (simp small at own)),
        λ cov. rw small (ap owner_entry ((c.owns slot i).1 cov)),
      )

  -- In a layout that ParseLayout accepts, a node is this one exactly if it has the port of this
  -- server.
  pub parse_layout-self :
      (lines : List Bytes) (scan_error : Bool) (my_port : ℤ) (l : Layout) (i : ℕ) (n : Node)
      → parse_layout split_host_port node_id lines scan_error my_port ≡ ok l
      → get_elem? l.nodes i ≡ some n
      → (l.self ≡ some i) ↔ (n.port ≡ my_port)
  parse_layout-self lines scan_error my_port l i n run at =
      (accepted lines scan_error my_port l run).0.finds i n at
