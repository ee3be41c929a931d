-- ===== src/Commands/Tests.antt =====
-- A layout, a server with the whole table, and the theorems of the dispatch on them.
use learning_redis.Common.{
  ℕ, ◌<◌, ◌≡◌, ◌≢◌, ◌↔◌, refl, arith, List, [], ◌∷◌, ◌++◌, Bytes, true, false, none, some, codes,
  replicate, All, length, bytes_eq, get_elem?,
}
use learning_redis.Commands.ClusterCommand.{assigned_slots}
use learning_redis.Commands.ClusterCommand.Assigned.{parse_layout-assigned_slots}
use learning_redis.Common.Int.{negsuc, pos}
use learning_redis.Common.Decimal.{format_nat, format_int, parse_int, read_nat, read_digits}
use learning_redis.Hll.Tests.{whole_numbers, empty_estimate}
use learning_redis.Cluster.Slot.{num_slots}
use learning_redis.Cluster.Layout.{Node, Layout, owner_of}
use learning_redis.Cluster.Parse.{
  ok, rejected, claimed_by_both, parse_layout, parse_lines, fields, fields_loop, strip_comment,
  contains, claim, claim_all, parse_range, cut,
}
use learning_redis.Cluster.Parse.Owners.{covers_of}
use learning_redis.Core.Encode.{encode_integer, encode_array, encode_simple_string}
use learning_redis.Core.Decode.{Value, got, decode_value}
use learning_redis.Core.Decode.Written.{ArgsFit}
use learning_redis.Core.Frame.{Frame, Plain}
use learning_redis.Core.Aof.{recover}
use learning_redis.Core.Tests.{set_a}
use learning_redis.Store.Keys.{Store, empty_store}
use learning_redis.Store.Keys.Accounts.{WellFormed}
use learning_redis.Store.Keys.Accounts.Steps.{empty_store-WellFormed}
use learning_redis.Store.Strings.{set, get}
use learning_redis.Store.Eviction.Frees.{Yields, All-exists}
use learning_redis.Store.Tests.{noon, later}
use learning_redis.Commands.Command.{Command, parsed, parse_command, to_upper, find, keys_of}
use learning_redis.Commands.Command.Wire.{parse_command-encode_array}
use learning_redis.Commands.Route.{check_cluster, check_keys}
use learning_redis.Commands.Route.Safe.{OwnersExist, IsBytes}
use learning_redis.Commands.Route.Frames.{PlainAddrs}
use learning_redis.Commands.Registry.{
  Moment, Server, World, make_room, is_one_of, log_write, is_error_reply, dispatch, dispatch_each,
}
use learning_redis.Commands.Registry.Served.{Logged}
use learning_redis.Commands.Registry.Logs.{logged_of, LogFits, dispatch_each-recover}
use learning_redis.Commands.Handlers.Effects.{handle_incr-set, handle_expire-set}
use learning_redis.Commands.Handlers.{
  handle_incr, handle_expire, incremented, duration, second, handle_set,
}
use learning_redis.Commands.ClusterCommand.{cut_last}
use learning_redis.Commands.ClusterCommand.Answered.{LayoutReady}
use learning_redis.Commands.ClusterCommand.Loaded.{
  parse_layout-ready, parse_layout-owner_of, parse_layout-self,
}
use learning_redis.Commands.Table.{handler_table}
use learning_redis.Commands.Table.Dispatch.{
  Started, Servable, dispatch_table-answers, dispatch_table-Frame, dispatch_each-answers,
}

-- `net.SplitHostPort` on addresses without brackets, and a node's name as its identity.
abbrev named : Bytes → Bytes
named name = name

abbrev lines : List Bytes
lines = codes "n1 127.0.0.1:7001 0-2 # first" ∷ [] ∷ codes "n2 127.0.0.1:7002 3" ∷ []

abbrev two_nodes : Layout
two_nodes = record {
  nodes =
      record {
        name = codes "n1";
        addr = codes "127.0.0.1:7001";
        port = pos 7001;
        id = codes "n1";
        slots = record { start = 0; end = 2 } ∷ [];
      }
      ∷ record {
        name = codes "n2";
        addr = codes "127.0.0.1:7002";
        port = pos 7002;
        id = codes "n2";
        slots = record { start = 3; end = 3 } ∷ [];
      }
      ∷ [];
  self = some 1;
  owner = some 0 ∷ some 0 ∷ some 0 ∷ some 1 ∷ replicate 16380 none;
}

two_nodes_parsed : parse_layout cut_last named lines false (pos 7002) ≡ ok two_nodes
unfolding parse_layout parse_lines fields fields_loop strip_comment contains claim claim_all
    parse_range cut cut_last bytes_eq parse_int read_nat read_digits
two_nodes_parsed = refl

claimed_twice :
    parse_layout cut_last named (codes "a h:1 0-1" ∷ codes "b h:2 1" ∷ []) false (pos 1)
    ≡ rejected (claimed_by_both 1 (codes "a") (codes "b"))
unfolding parse_layout parse_lines fields fields_loop strip_comment contains claim claim_all
    parse_range cut cut_last bytes_eq parse_int read_nat read_digits
claimed_twice = refl

has_colon :
    (addr : Bytes) (parts : Bytes × Bytes)
    → cut_last addr ≡ some parts
    → (cut : Bytes × Bytes) × (cut_last addr ≡ some cut)
has_colon addr parts h = (parts, h)

parse_layout-ready_example :
    LayoutReady true (some two_nodes) × OwnersExist (some two_nodes) × PlainAddrs (some two_nodes)
parse_layout-ready_example =
    parse_layout-ready cut_last named has_colon lines false (pos 7002) two_nodes two_nodes_parsed

parse_layout-owner_of_example :
    (owner_of two_nodes (pos 3) ≡ some 1) ↔ (covers_of (get_elem? two_nodes.nodes 1) 3 ≡ true)
parse_layout-owner_of_example =
    parse_layout-owner_of cut_last named lines false (pos 7002) two_nodes 3 1 two_nodes_parsed
      (omega arith)

abbrev second_node : Node
second_node = record {
  name = codes "n2";
  addr = codes "127.0.0.1:7002";
  port = pos 7002;
  id = codes "n2";
  slots = record { start = 3; end = 3 } ∷ [];
}

parse_layout-self_example : (two_nodes.self ≡ some 1) ↔ (second_node.port ≡ pos 7002)
parse_layout-self_example =
    parse_layout-self cut_last named lines false (pos 7002) two_nodes 1 second_node two_nodes_parsed
      refl

parse_layout-assigned_slots_example :
    (assigned_slots two_nodes.nodes < num_slots)
    ↔ ((slot : ℕ) × (slot < num_slots) × (owner_of two_nodes (pos slot) ≡ none))
parse_layout-assigned_slots_example =
    parse_layout-assigned_slots cut_last named lines false (pos 7002) two_nodes two_nodes_parsed

abbrev pub at_noon : Moment
at_noon = record { env = noon; order = λ i d. d; written = λ bytes. bytes }

pub at_noon-Yields : Yields at_noon.order
at_noon-Yields i d = (All-exists d, λ h. h)

-- A server without cluster mode and without a limit on its memory.
abbrev pub plain_server : Server
plain_server = record {
  handlers = handler_table whole_numbers false none;
  max_memory = pos 0;
  max_memory_policy = codes "noeviction";
  max_memory_samples = pos 5;
  layout = none;
}

pub plain_server-Started : Started whole_numbers false plain_server
plain_server-Started = record { table = refl; ready = tt; owners = tt; addresses = tt }

abbrev pub empty_world : World
empty_world = record { store = empty_store; aof = some [] }

abbrev pub set_command : Command
set_command = record { name = codes "SET"; args = codes "a" ∷ codes "1" ∷ [] }

pub set_command-IsBytes : All IsBytes set_command.args
set_command-IsBytes = ground arith

pub not_append : codes "SET" ≢ codes "APPEND"
not_append e = ground (arith, e)

dispatch_table-answers_example :
    (w' : World) × (reply : Bytes) × (dispatch plain_server empty_world (at_noon, set_command)
      ≡ some (w', reply))
    × WellFormed whole_numbers w'.store
    × Logged whole_numbers at_noon set_command (some []) (w', reply)
dispatch_table-answers_example =
    dispatch_table-answers whole_numbers empty_estimate false plain_server empty_world at_noon
      set_command plain_server-Started (empty_store-WellFormed whole_numbers) at_noon-Yields
      not_append set_command-IsBytes

abbrev pub after_set : World
after_set = record {
  store = set noon empty_store (codes "a") (codes "1") (pos 0);
  aof = some (encode_array set_a);
}

abbrev pub ok_text : Bytes
ok_text = encode_simple_string (codes "OK")

pub set_runs : dispatch plain_server empty_world (at_noon, set_command) ≡ some (after_set, ok_text)
unfolding dispatch find bytes_eq check_cluster check_keys keys_of make_room is_one_of log_write
    is_error_reply handle_set encode_simple_string
set_runs = refl

dispatch_table-Frame_example : Frame ok_text
dispatch_table-Frame_example =
    dispatch_table-Frame whole_numbers empty_estimate false plain_server empty_world after_set
      at_noon set_command ok_text plain_server-Started (empty_store-WellFormed whole_numbers)
      at_noon-Yields not_append set_command-IsBytes set_plain.0 set_plain.1 set_runs
  where
    set_plain : Plain (codes "SET") × All Plain set_command.args
    set_plain = ground arith

set_command-Servable : Servable whole_numbers empty_estimate (at_noon, set_command)
set_command-Servable = (at_noon-Yields, not_append, set_command-IsBytes)

dispatch_each-answers_example :
    (w' : World) × (replies : List Bytes) × (dispatch_each plain_server empty_world
        ((at_noon, set_command) ∷ (at_noon, set_command) ∷ [])
      ≡ some (w', replies))
    × (length replies ≡ 2)
    × WellFormed whole_numbers w'.store
dispatch_each-answers_example =
    dispatch_each-answers whole_numbers empty_estimate false plain_server
      ((at_noon, set_command) ∷ (at_noon, set_command) ∷ []) empty_world plain_server-Started
      (empty_store-WellFormed whole_numbers) (set_command-Servable, (set_command-Servable, tt))

pub one_set_runs :
    dispatch_each plain_server empty_world ((at_noon, set_command) ∷ [])
    ≡ some (after_set, ok_text ∷ [])
unfolding dispatch_each
one_set_runs = rw set_runs refl

pub set_command-LogFits : LogFits (at_noon, set_command)
set_command-LogFits = ground arith

dispatch_each-recover_example :
    (file : Bytes) × (some (encode_array set_a) ≡ some file)
    × (recover file ≡ some (logged_of ((at_noon, set_command) ∷ []) (ok_text ∷ [])))
dispatch_each-recover_example =
    dispatch_each-recover plain_server ((at_noon, set_command) ∷ []) empty_world after_set
      (ok_text ∷ []) refl (λ bytes. refl, tt) (set_command-LogFits, tt) one_set_runs

parse_command-encode_array_example :
    (v : Value) × (decode_value (encode_array (codes "get" ∷ codes "a" ∷ []) ++ codes "*")
      ≡ got v (codes "*"))
    × (parse_command v ≡ parsed (record { name = to_upper (codes "get"); args = codes "a" ∷ [] }))
parse_command-encode_array_example =
    parse_command-encode_array (codes "get") (codes "a" ∷ []) (codes "*") fits
  where
    fits : ArgsFit (codes "get" ∷ codes "a" ∷ [])
    fits = ground arith

-- Three seconds and more after `at_noon`.
handle_incr-set_example :
    (s' s'' : Store) × (handle_incr at_noon
        (codes "n" ∷ [])
        (set noon empty_store (codes "n") (codes "41") (pos 0))
      ≡ some (s', encode_integer (incremented (pos 41))))
    × (get later s' (codes "n") ≡ some (s'', some (format_int (incremented (pos 41)))))
handle_incr-set_example =
    handle_incr-set noon later at_noon empty_store (codes "n") (codes "41") (pos 0) (pos 41) is_41
      tt tt
  where
    is_41 : parse_int (codes "41") ≡ some (pos 41)
    is_41 = unfold parse_int read_nat read_digits in refl

handle_expire-set_example :
    (s' s'' : Store) × (handle_expire at_noon
        (codes "n" ∷ format_nat 3 ∷ [])
        (set noon empty_store (codes "n") (codes "41") (pos 0))
      ≡ some (s', encode_integer (pos 1)))
    × (get later s' (codes "n") ≡ some (s'', none))
handle_expire-set_example =
    handle_expire-set noon later at_noon empty_store (codes "n") (codes "41") (pos 0) 3 tt
      (omega arith) (omega arith) (omega arith)

-- The largest int64 plus one.
wrap_runs : incremented (pos 9223372036854775807) ≡ negsuc 9223372036854775807
wrap_runs = refl

-- So many seconds are a negative duration, and the key never expires.
overflow_runs : duration (pos 9223372037) second ≡ negsuc 9223372036709551615
overflow_runs = refl
