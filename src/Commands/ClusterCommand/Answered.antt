-- ===== src/Commands/ClusterCommand/Answered.antt =====
-- commands/cluster.go: CLUSTER answers with a RESP value on a layout that is ready.
use learning_redis.Common.{
  ℕ, ◌+◌, ◌<◌, ◌≡◌, refl, arith, List, [], ◌∷◌, ◌++◌, Bytes, Bool, true, false, not, ◌&&◌, Option,
  none, some, ◌>>=◌, leb, ◌==◌, if◌then◌else◌, codes, bytes_eq, length, All, Bool-cases, inl, inr,
  get_elem?-some, All-append,
}
use learning_redis.Common.Int.{ℤ, signed_word}
use learning_redis.Common.Decimal.{parse_int, parse_int-InInt64, InInt64, signed_word-InInt64}
use learning_redis.Hll.Sketch.Histogram.{Float}
use learning_redis.Cluster.Slot.Crc.{key_hash_slot-lt}
use learning_redis.Cluster.Layout.{SlotRange, Node, Layout}
use learning_redis.Core.Encode.{encode_bulk_string, encode_integer, encode_raw_array}
use learning_redis.Core.Frame.{
  Plain, is_plain-Plain, Frame, failure, number, bulk, items, Frames, no_frames, more_frames,
}
use learning_redis.Store.Entry.{int_or_zero}
use learning_redis.Commands.Command.{to_upper}
use learning_redis.Commands.Route.{is_self}
use learning_redis.Commands.Route.Safe.{IsBytes}
use learning_redis.Commands.Registry.Served.{Preserves, quoted-Plain}
use learning_redis.Commands.Handlers.{to_lower}
use learning_redis.Commands.Handlers.Values.{err-Answers}
use learning_redis.Commands.Handlers.Inspect.{to_lower-Plain, to_upper-Plain}
use learning_redis.Commands.ClusterCommand.{
  cut_last, split_addr, with_node, slot_entries, insert_entry, sort_entries, entry_bytes,
  entries_bytes, cluster_slots, node_line, node_lines, cluster_nodes, cluster_info, bulk_reply,
  my_id, slot_reply, wrong_arguments, unknown_subcommand, cluster_reply, cluster_enabled_reply,
  handle_cluster,
}

-- The address of a node has a colon.
abbrev pub HasPort : Node → Type 0
HasPort n = (parts : Bytes × Bytes) × (cut_last n.addr ≡ some parts)

-- With cluster mode on there is a layout, and this node is one of its nodes.
abbrev pub LayoutReady : Bool → Option Layout → Type 0
LayoutReady false layout = Unit
LayoutReady true none = ⊥
LayoutReady true (some l) =
    ((i : ℕ) × (l.self ≡ some i) × (i < length l.nodes)) × All HasPort l.nodes

split_addr-some :
    (n : Node)
    → HasPort n
    → (host : Bytes) × (port : ℤ) × (split_addr n.addr ≡ some (host, port)) × InInt64 port
unfolding split_addr
split_addr-some n ((host, port), e) =
    (host, int_or_zero (parse_int port), rw e refl, by_number (parse_int port) refl)
  where
    by_number : (o : Option ℤ) → parse_int port ≡ o → InInt64 (int_or_zero o)
    by_number none e = omega arith
    by_number (some n) e = parse_int-InInt64 port n e

abbrev Entries : List (SlotRange × Node) → Type 0
Entries = All (λ e. HasPort e.1)

with_node-Entries : (n : Node) (rs : List SlotRange) → HasPort n → Entries (with_node n rs)
with_node-Entries n [] h = tt
with_node-Entries n (r ∷ rs) h = (h, with_node-Entries n rs h)

slot_entries-Entries : (ns : List Node) → All HasPort ns → Entries (slot_entries ns)
unfolding slot_entries
slot_entries-Entries [] h = tt
slot_entries-Entries (n ∷ ns) (h, hs) =
    All-append (λ e. HasPort e.1) (with_node n n.slots) (slot_entries ns)
      (with_node-Entries n n.slots h) (slot_entries-Entries ns hs)

insert_entry-Entries :
    (e : SlotRange × Node) (es : List (SlotRange × Node))
    → HasPort e.1
    → Entries es
    → Entries (insert_entry e es)
unfolding insert_entry
insert_entry-Entries e [] h hs = (h, tt)
insert_entry-Entries e (x ∷ xs) h (hx, hs) = elim (Bool-cases (leb e.0.start x.0.start)) [
  | inl le ↦ rw le (h, (hx, hs))
  | inr gt ↦ rw gt (hx, insert_entry-Entries e xs h hs)
]

sort_entries-Entries : (es : List (SlotRange × Node)) → Entries es → Entries (sort_entries es)
unfolding sort_entries
sort_entries-Entries [] h = tt
sort_entries-Entries (e ∷ es) (h, hs) =
    insert_entry-Entries e (sort_entries es) h (sort_entries-Entries es hs)

entry_bytes-Frame :
    (r : SlotRange) (n : Node) (host : Bytes) (port : ℤ)
    → InInt64 port
    → Frame (entry_bytes r n (host, port))
entry_bytes-Frame r n host port h =
    let owner = more_frames (encode_bulk_string host) _ (bulk host) (
      more_frames (encode_integer port) _ (number port h) (
        more_frames (encode_bulk_string n.id) _ (bulk n.id)
          (more_frames (encode_raw_array []) [] (items [] no_frames) no_frames))) in
    items _ (
      more_frames (encode_integer (signed_word r.start)) _
        (number (signed_word r.start) (signed_word-InInt64 r.start))
        (more_frames (encode_integer (signed_word r.end)) _
          (number (signed_word r.end) (signed_word-InInt64 r.end))
          (more_frames _ [] (items _ owner) no_frames)))

entries_bytes-Frames :
    (es : List (SlotRange × Node))
    → Entries es
    → (out : List Bytes) × (entries_bytes es ≡ some out) × Frames out
unfolding entries_bytes
entries_bytes-Frames [] h = ([], refl, no_frames)
entries_bytes-Frames ((r, n) ∷ es) (h, hs) =
    let (host, port, run, fits) = split_addr-some n h in
    let (out, rest, frames) = entries_bytes-Frames es hs in
    (
      entry_bytes r n (host, port) ∷ out,
      rw (run, rest) refl,
      more_frames (entry_bytes r n (host, port)) out (entry_bytes-Frame r n host port fits) frames,
    )

-- A reply, which is a RESP value.
abbrev Replied : Option Bytes → Type 0
Replied o = (reply : Bytes) × (o ≡ some reply) × Frame reply

cluster_slots-Replied : (l : Layout) → All HasPort l.nodes → Replied (cluster_slots l)
unfolding cluster_slots
cluster_slots-Replied l h =
    let (out, run, frames) =
      entries_bytes-Frames (sort_entries (slot_entries l.nodes))
        (sort_entries-Entries (slot_entries l.nodes) (slot_entries-Entries l.nodes h)) in
    (encode_raw_array out, rw run refl, items out frames)

node_lines-some :
    (self : Option ℕ) (ns : List Node) (i : ℕ)
    → All HasPort ns
    → (text : Bytes) × (node_lines self ns i ≡ some text)
unfolding node_lines
node_lines-some self [] i h = ([], refl)
node_lines-some self (n ∷ ns) i (h, hs) =
    let (host, port, run, fits) = split_addr-some n h in
    let (text, rest) = node_lines-some self ns (i + 1) hs in
    (node_line n i (is_self self i) (host, port) ++ text, rw (run, rest) refl)

cluster_nodes-some :
    (l : Layout) → All HasPort l.nodes → (text : Bytes) × (cluster_nodes l ≡ some text)
unfolding cluster_nodes
cluster_nodes-some l h = node_lines-some l.self l.nodes 0 h

-- On arguments that are lines, the reply is a RESP value.
abbrev pub Reply : List Bytes → Option Bytes → Type 0
Reply args o = (reply : Bytes) × (o ≡ some reply) × (All Plain args → Frame reply)

any-Reply : (args : List Bytes) (o : Option Bytes) → Replied o → Reply args o
any-Reply args o (reply, run, frame) = (reply, run, λ plain. frame)

if-Reply :
    (args : List Bytes) (b : Bool) (x y : Option Bytes)
    → Reply args x
    → Reply args y
    → Reply args (if b then x else y)
if-Reply args true x y h h' = h
if-Reply args false x y h h' = h'

slot_reply-Reply : (args rest : List Bytes) → All IsBytes rest → Reply args (slot_reply rest)
slot_reply-Reply args [] h = (
  _,
  refl,
  λ plain.
      failure (codes "ERR wrong number of arguments for 'cluster|keyslot' command")
        (is_plain-Plain (codes "ERR wrong number of arguments for 'cluster|keyslot' command") refl),
)
slot_reply-Reply args (key ∷ []) (h, hs) =
    let (slot, run, lt) = key_hash_slot-lt key h in
    (
      encode_integer (signed_word slot),
      rw run refl,
      λ plain. number (signed_word slot) (signed_word-InInt64 slot),
    )
slot_reply-Reply args (key ∷ extra ∷ rest) h = (
  _,
  refl,
  λ plain.
      failure (codes "ERR wrong number of arguments for 'cluster|keyslot' command")
        (is_plain-Plain (codes "ERR wrong number of arguments for 'cluster|keyslot' command") refl),
)

wrong_arguments-Frame : (name : Bytes) → Plain name → Frame (wrong_arguments (to_upper name))
wrong_arguments-Frame name h =
    failure
      (codes "ERR wrong number of arguments for 'cluster|"
        ++ (to_lower (to_upper name) ++ codes "' command"))
      (quoted-Plain (codes "ERR wrong number of arguments for 'cluster|") (to_lower (to_upper name))
        (codes "' command") refl (to_lower-Plain (to_upper name) (to_upper-Plain name h)) refl)

unknown_subcommand-Frame : (name : Bytes) → Plain name → Frame (unknown_subcommand name)
unknown_subcommand-Frame name h =
    failure (codes "ERR unknown subcommand '" ++ (name ++ codes "'. Try CLUSTER HELP.")) (
      quoted-Plain (codes "ERR unknown subcommand '") name (codes "'. Try CLUSTER HELP.") refl h
        refl)

cluster_reply-Reply :
    (l : Layout) (name : Bytes) (rest : List Bytes)
    → LayoutReady true (some l)
    → All IsBytes rest
    → Reply (name ∷ rest) (cluster_reply (some l) (to_upper name) name rest)
cluster_reply-Reply l name rest ((i, self, lt), ports) bytes =
    if-Reply args (not (bytes_eq sub (codes "KEYSLOT")) && not (length rest == 0))
      (some (wrong_arguments sub)) _
      (wrong_arguments sub, refl, λ plain. wrong_arguments-Frame name plain.0)
      (if-Reply args (bytes_eq sub (codes "KEYSLOT")) (slot_reply rest) _
        (slot_reply-Reply args rest bytes)
        (if-Reply args (bytes_eq sub (codes "MYID")) (my_id l) _ id (
          if-Reply args (bytes_eq sub (codes "SLOTS")) (cluster_slots l) _
            (any-Reply args (cluster_slots l) (cluster_slots-Replied l ports))
            (if-Reply args (bytes_eq sub (codes "NODES")) (cluster_nodes l >>= bulk_reply) _ lines (
              if-Reply args (bytes_eq sub (codes "INFO")) (bulk_reply (cluster_info l))
                (some (unknown_subcommand name))
                (encode_bulk_string (cluster_info l), refl, λ plain. bulk (cluster_info l))
                (unknown_subcommand name, refl, λ plain. unknown_subcommand-Frame name plain.0))))))
  where
    args : List Bytes
    args = name ∷ rest

    sub : Bytes
    sub = to_upper name

    id : Reply args (my_id l)
    id =
        let (n, read) = get_elem?-some l.nodes i lt in
        (encode_bulk_string n.id, rw (self, read) refl, λ plain. bulk n.id)

    lines : Reply args (cluster_nodes l >>= bulk_reply)
    lines =
        let (text, run) = cluster_nodes-some l ports in
        (encode_bulk_string text, rw run refl, λ plain. bulk text)

module _ (fl : Float) where
  pub handle_cluster-Preserves :
      (enabled : Bool) (layout : Option Layout)
      → LayoutReady enabled layout
      → Preserves fl (handle_cluster enabled layout)
  unfolding handle_cluster cluster_enabled_reply
  handle_cluster-Preserves false layout ready m args s w bytes =
      err-Answers fl args s (codes "ERR This instance has cluster support disabled") w refl
  handle_cluster-Preserves true none ready m args s w bytes = absurd ready
  handle_cluster-Preserves true (some l) ready m [] s w bytes =
      err-Answers fl [] s (codes "ERR wrong number of arguments for 'cluster' command") w refl
  handle_cluster-Preserves true (some l) ready m (name ∷ rest) s w bytes =
      let (reply, run, frame) = cluster_reply-Reply l name rest ready bytes.1 in
      (s, reply, rw run refl, w, frame)
