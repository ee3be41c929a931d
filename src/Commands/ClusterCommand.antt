-- ===== src/Commands/ClusterCommand.antt =====
-- commands/cluster.go: the CLUSTER command.
pub mod Answered
pub mod Loaded
pub mod Assigned
use learning_redis.Common.{
  ℕ, suc, ◌%◌, ◌^◌, ◌+◌, ◌-◌, List, [], ◌∷◌, ◌++◌, Bytes, Bool, true, false, not, ◌&&◌, Option,
  none, some, ◌>>=◌, ltb, leb, ◌==◌, if◌then◌else◌, codes, bytes_eq, length, get_elem?,
}
use learning_redis.Common.Int.{signed_word, word_of, ℤ, pos, negsuc, sub_ℕ}
use learning_redis.Common.Decimal.{parse_int, format_int, format_nat}
use learning_redis.Cluster.Slot.{num_slots, key_hash_slot}
use learning_redis.Cluster.Layout.{SlotRange, Node, Layout}
use learning_redis.Core.Encode.{
  crlf, concat, encode_error, encode_bulk_string, encode_integer, encode_raw_array,
}
use learning_redis.Store.Entry.{int_or_zero}
use learning_redis.Commands.Command.{to_upper}
use learning_redis.Commands.Route.{is_self}
use learning_redis.Commands.Registry.{HandlerFunc}
use learning_redis.Commands.Handlers.{to_lower, err}

-- `strings.LastIndexByte(addr, ':')`, as the text before and the text after.
abbrev pub or_here : ℕ → Bytes → Option (Bytes × Bytes) → Option (Bytes × Bytes)
or_here c cs (some (before, after)) = some (c ∷ before, after)
or_here c cs none = if c == b':' then some ([], cs) else none

unfoldable pub cut_last : Bytes → Option (Bytes × Bytes)
cut_last [] = none
cut_last (c ∷ cs) = or_here c cs (cut_last cs)

-- `none` is the panic of an address without a colon. The port that is out of range, whose text
-- `ParseLayout` refuses, is not told from a malformed one.
abbrev pub host_port : Bytes × Bytes → Bytes × ℤ
host_port (host, port) = (host, int_or_zero (parse_int port))

unfoldable pub split_addr : Bytes → Option (Bytes × ℤ)
unfolding cut_last
split_addr addr = do parts ← cut_last addr; some (host_port parts)

abbrev pub with_node : Node → List SlotRange → List (SlotRange × Node)
with_node n [] = []
with_node n (r ∷ rs) = (r, n) ∷ with_node n rs

unfoldable pub slot_entries : List Node → List (SlotRange × Node)
slot_entries [] = []
slot_entries (n ∷ ns) = with_node n n.slots ++ slot_entries ns

-- `sort.Slice` by the first slot, which no two ranges of a layout share.
unfoldable pub insert_entry : SlotRange × Node → List (SlotRange × Node) → List (SlotRange × Node)
insert_entry e [] = e ∷ []
insert_entry e (x ∷ xs) =
    let rest = insert_entry e xs in if leb e.0.start x.0.start then e ∷ x ∷ xs else x ∷ rest

unfoldable pub sort_entries : List (SlotRange × Node) → List (SlotRange × Node)
unfolding insert_entry
sort_entries [] = []
sort_entries (e ∷ es) = insert_entry e (sort_entries es)

abbrev pub entry_bytes : SlotRange → Node → Bytes × ℤ → Bytes
entry_bytes r n (host, port) = encode_raw_array (
    encode_integer (signed_word r.start)
    ∷ encode_integer (signed_word r.end)
    ∷ encode_raw_array (
        encode_bulk_string host
        ∷ encode_integer port
        ∷ encode_bulk_string n.id
        ∷ encode_raw_array []
        ∷ [])
    ∷ [])

unfoldable pub entries_bytes : List (SlotRange × Node) → Option (List Bytes)
unfolding split_addr
entries_bytes [] = some []
entries_bytes ((r, n) ∷ es) = do
  address ← split_addr n.addr
  out ← entries_bytes es
  some (entry_bytes r n address ∷ out)

unfoldable pub cluster_slots : Layout → Option Bytes
unfolding slot_entries sort_entries entries_bytes
cluster_slots l = do
  out ← entries_bytes (sort_entries (slot_entries l.nodes))
  some (encode_raw_array out)

-- `port+10000`, on an int64.
abbrev pub bus_port : ℤ → ℤ
bus_port port = signed_word ((word_of port + 10000) % 2 ^ 64)

unfoldable pub range_texts : List SlotRange → Bytes
range_texts [] = []
range_texts (r ∷ rs) =
    let rest = range_texts rs in
    let first = codes " " ++ format_nat r.start in
    if r.start == r.end then first ++ rest else first ++ (codes "-" ++ (format_nat r.end ++ rest))

-- `"%s %s:%d@%d %s - 0 0 %d connected"`, then the ranges.
unfoldable pub node_line : Node → ℕ → Bool → Bytes × ℤ → Bytes
unfolding range_texts concat
node_line n i me (host, port) = concat (
    n.id
    ∷ codes " "
    ∷ host
    ∷ codes ":"
    ∷ format_int port
    ∷ codes "@"
    ∷ format_int (bus_port port)
    ∷ codes " "
    ∷ (if me then codes "myself,master" else codes "master")
    ∷ codes " - 0 0 "
    ∷ format_nat (i + 1)
    ∷ codes " connected"
    ∷ range_texts n.slots
    ∷ (10 ∷ [])
    ∷ [])

unfoldable pub node_lines : Option ℕ → List Node → ℕ → Option Bytes
unfolding split_addr node_line
node_lines self [] i = some []
node_lines self (n ∷ ns) i = do
  address ← split_addr n.addr
  lines ← node_lines self ns (i + 1)
  some (node_line n i (is_self self i) address ++ lines)

unfoldable pub cluster_nodes : Layout → Option Bytes
unfolding node_lines
cluster_nodes l = node_lines l.self l.nodes 0

-- The loop of `clusterInfo`: slots assigned, nodes with slots, and the epoch of this node.
unfoldable pub slots_in : List SlotRange → ℕ
slots_in [] = 0
slots_in (r ∷ rs) = r.end - r.start + 1 + slots_in rs

unfoldable pub assigned_slots : List Node → ℕ
unfolding slots_in
assigned_slots [] = 0
assigned_slots (n ∷ ns) = slots_in n.slots + assigned_slots ns

unfoldable pub serving_nodes : List Node → ℕ
serving_nodes [] = 0
serving_nodes (n ∷ ns) = (if ltb 0 (length n.slots) then 1 else 0) + serving_nodes ns

abbrev pub epoch_of : Option ℕ → ℕ
epoch_of none = 0
epoch_of (some i) = i + 1

-- `strings.Join(lines, "\r\n") + "\r\n"`
abbrev pub join_lines : List Bytes → Bytes
join_lines [] = crlf
join_lines (line ∷ []) = line ++ crlf
join_lines (line ∷ next ∷ lines) = line ++ (crlf ++ join_lines (next ∷ lines))

unfoldable pub cluster_info : Layout → Bytes
unfolding assigned_slots serving_nodes
cluster_info l =
    let assigned = format_nat (assigned_slots l.nodes) in
    let known = format_nat (length l.nodes) in
    join_lines (
      (codes "cluster_state:"
        ++ (if ltb (assigned_slots l.nodes) num_slots then codes "fail" else codes "ok"))
      ∷ (codes "cluster_slots_assigned:" ++ assigned)
      ∷ (codes "cluster_slots_ok:" ++ assigned)
      ∷ codes "cluster_slots_pfail:0"
      ∷ codes "cluster_slots_fail:0"
      ∷ (codes "cluster_known_nodes:" ++ known)
      ∷ (codes "cluster_size:" ++ format_nat (serving_nodes l.nodes))
      ∷ (codes "cluster_current_epoch:" ++ known)
      ∷ (codes "cluster_my_epoch:" ++ format_nat (epoch_of l.self))
      ∷ [])

abbrev pub bulk_reply : Bytes → Option Bytes
bulk_reply text = some (encode_bulk_string text)

-- `cluster.Current.Self.ID`
abbrev pub my_id : Layout → Option Bytes
my_id l = do i ← l.self; n ← get_elem? l.nodes i; some (encode_bulk_string n.id)

abbrev pub slot_reply : List Bytes → Option Bytes
slot_reply (key ∷ []) = do slot ← key_hash_slot key; some (encode_integer (signed_word slot))
slot_reply args =
    some (encode_error (codes "ERR wrong number of arguments for 'cluster|keyslot' command"))

abbrev pub wrong_arguments : Bytes → Bytes
wrong_arguments sub =
    encode_error
      (codes "ERR wrong number of arguments for 'cluster|" ++ (to_lower sub ++ codes "' command"))

abbrev pub unknown_subcommand : Bytes → Bytes
unknown_subcommand name =
    encode_error (codes "ERR unknown subcommand '" ++ (name ++ codes "'. Try CLUSTER HELP."))

-- The switch over the subcommand; a nil layout is a panic.
abbrev pub cluster_reply : Option Layout → Bytes → Bytes → List Bytes → Option Bytes
cluster_reply layout sub name rest =
    if not (bytes_eq sub (codes "KEYSLOT")) && not (length rest == 0)
    then some (wrong_arguments sub)
    else if bytes_eq sub (codes "KEYSLOT")
    then slot_reply rest
    else if bytes_eq sub (codes "MYID")
    then (layout >>= my_id)
    else if bytes_eq sub (codes "SLOTS")
    then (layout >>= cluster_slots)
    else if bytes_eq sub (codes "NODES")
    then (do l ← layout; text ← cluster_nodes l; bulk_reply text)
    else if bytes_eq sub (codes "INFO")
    then (do l ← layout; bulk_reply (cluster_info l))
    else some (unknown_subcommand name)

unfoldable pub cluster_enabled_reply : Option Layout → List Bytes → Option Bytes
unfolding cluster_slots cluster_nodes cluster_info
cluster_enabled_reply layout [] =
    some (encode_error (codes "ERR wrong number of arguments for 'cluster' command"))
cluster_enabled_reply layout (name ∷ rest) = cluster_reply layout (to_upper name) name rest

unfoldable pub handle_cluster : Bool → Option Layout → HandlerFunc
unfolding cluster_enabled_reply
handle_cluster false layout m args s =
    err s (codes "ERR This instance has cluster support disabled")
handle_cluster true layout m args s = do reply ← cluster_enabled_reply layout args; some (s, reply)
