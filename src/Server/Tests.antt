-- ===== src/Server/Tests.antt =====
-- A small server on concrete commands, and the theorems of the dispatch and of transactions on it.
use learning_redis.Common.{
  arith, Option, zero, suc, ◌≡◌, ◌⊎◌, refl, List, [], ◌∷◌, ◌++◌, Bytes, true, false, none, some,
  ◌>>=◌, codes, bytes_eq, inr, All,
}
use learning_redis.Common.Int.{pos}
use learning_redis.Cluster.Slot.{key_hash_slot}
use learning_redis.Cluster.Layout.{Layout, Node, owner_of}
use learning_redis.Core.Encode.{encode_raw_array, encode_error}
use learning_redis.Store.Keys.{empty_store}
use learning_redis.Store.Strings.{set}
use learning_redis.Store.Tests.{noon}
use learning_redis.Server.Worker.{serve}
use learning_redis.Store.Eviction.{over_memory, perform_evictions}
use learning_redis.Core.Decode.{array, string, integer, more_values, no_values}
use learning_redis.Commands.Command.{
  ParseError, parsed, parse_command, to_upper, Command, keys_of, find,
}
use learning_redis.Commands.Route.{check_cluster, check_cluster_batch, clusterdown, check_keys}
use learning_redis.Commands.Route.Safe.{OwnersExist, IsBytes}
use learning_redis.Commands.Registry.{
  max_bytes_of, Moment, HandlerFunc, Server, World, is_known_command, dispatch, dispatch_each,
  dispatch_batch, commands_of,
}
use learning_redis.Commands.Registry.Runs.{dispatch_batch-atomic}
use learning_redis.Server.Transaction.{handle, new_tx_state, reply, exec, ok_reply}
use learning_redis.Server.Transaction.Queue.{
  handle_all, queued_for, aborted, multi_command, exec_command, transaction-Accepted,
  transaction-Rejected,
}
use learning_redis.Server.Connection.{
  Arrival, Connection, send_pipeline, at_moments, handle_connection,
}
use learning_redis.Server.Connection.View.{arrivals, run_each, gathered, view, one_by_one}
use learning_redis.Server.Connection.Order.{seen_as, handle_connection-one_by_one}
use learning_redis.Server.Connection.Executed.{script, executed, handle_connection-executed}

abbrev now : Moment
now = record { env = noon; order = λ i d. d; written = λ bytes. bytes }

-- A handler as that of SET, without its options.
abbrev set_handler : HandlerFunc
set_handler m [] s =
    some (s, encode_error (codes "ERR wrong number of arguments for 'set' command"))
set_handler m (k ∷ []) s =
    some (s, encode_error (codes "ERR wrong number of arguments for 'set' command"))
set_handler m (k ∷ (v ∷ rest)) s = some (set m.env s k v (pos 0), ok_reply)

-- One node, which owns the slots 0 to 3.
abbrev node : Node
node = record {
  name = codes "a";
  addr = codes "127.0.0.1:7000";
  port = pos 7000;
  id = [];
  slots = [];
}

abbrev four_slots : Layout
four_slots = record {
  nodes = node ∷ [];
  self = some 0;
  owner = some 0 ∷ some 0 ∷ some 0 ∷ some 0 ∷ [];
}

abbrev small : Server
small = record {
  handlers = (codes "SET", set_handler) ∷ [];
  max_memory = pos 1;
  max_memory_policy = codes "allkeys-lru";
  max_memory_samples = pos 5;
  layout = some four_slots;
}

abbrev start : World
start = record { store = empty_store; aof = some [] }

abbrev set_emj : Command
set_emj = record { name = codes "SET"; args = codes "emj" ∷ codes "1" ∷ [] }

abbrev set_mdr : Command
set_mdr = record { name = codes "SET"; args = codes "mdr" ∷ codes "2" ∷ [] }

abbrev set_foo : Command
set_foo = record { name = codes "SET"; args = codes "foo" ∷ codes "3" ∷ [] }

abbrev two_sets : List (Moment × Command)
two_sets = (now, set_emj) ∷ (now, set_mdr) ∷ []

abbrev started : Connection
started = record { tx = new_tx_state; pending = []; sent = []; world = start }

emj_passes : check_cluster (some four_slots) set_emj ≡ some none
unfolding check_cluster keys_of check_keys key_hash_slot owner_of bytes_eq
emj_passes = refl

mdr_passes : check_cluster (some four_slots) set_mdr ≡ some none
unfolding check_cluster keys_of check_keys key_hash_slot owner_of bytes_eq
mdr_passes = refl

foo_refused : check_cluster (some four_slots) set_foo ≡ some (some clusterdown)
unfolding check_cluster keys_of check_keys key_hash_slot owner_of bytes_eq
foo_refused = refl

set_known : is_known_command small (codes "SET") ≡ true
unfolding is_known_command find bytes_eq
set_known = refl

both_pass : check_cluster_batch (some four_slots) (commands_of two_sets) ≡ some none
unfolding check_cluster_batch keys_of check_keys key_hash_slot owner_of bytes_eq
both_pass = refl

foo_batch_refused : dispatch_batch small start ((now, set_foo) ∷ []) ≡ some (start, clusterdown)
unfolding dispatch_batch check_cluster_batch keys_of check_keys key_hash_slot owner_of bytes_eq
foo_batch_refused = refl

dispatch_batch-atomic_example :
    ((start ≡ start)
      × (check_cluster_batch (some four_slots) (set_foo ∷ []) ≡ some (some clusterdown)))
    ⊎ (All (λ c. check_cluster (some four_slots) c ≡ some none) (set_foo ∷ [])
        × (replies : List Bytes) × (dispatch_each small start ((now, set_foo) ∷ [])
            ≡ some (start, replies))
        × (clusterdown ≡ encode_raw_array replies))
dispatch_batch-atomic_example =
    dispatch_batch-atomic small ((now, set_foo) ∷ []) start start clusterdown foo_batch_refused

owners_exist : OwnersExist (some four_slots)
unfolding owner_of
owners_exist zero owner h = ground (arith, h)
owners_exist (suc zero) owner h = ground (arith, h)
owners_exist (suc (suc zero)) owner h = ground (arith, h)
owners_exist (suc (suc (suc zero))) owner h = ground (arith, h)
owners_exist (suc (suc (suc (suc n)))) owner h = ground (arith, h)

emj-IsBytes : IsBytes (codes "emj") × IsBytes (codes "1")
emj-IsBytes = ground arith

is_plain :
    (bytes_eq (codes "SET") (codes "MULTI") ≡ false)
    × (bytes_eq (codes "SET") (codes "DISCARD") ≡ false)
    × (bytes_eq (codes "SET") (codes "EXEC") ≡ false)
unfolding bytes_eq
is_plain = (refl, refl, refl)

transaction-Accepted_example :
    handle_all small new_tx_state
      (multi_command ∷ ((set_emj ∷ set_mdr ∷ []) ++ (exec_command ∷ [])))
    ≡ some (
      new_tx_state,
      reply ok_reply
          ∷ (queued_for (set_emj ∷ set_mdr ∷ []) ++ (exec (set_emj ∷ set_mdr ∷ []) ∷ [])),
    )
transaction-Accepted_example =
    transaction-Accepted small (set_emj ∷ set_mdr ∷ []) (is_plain, (is_plain, tt))
      ((set_known, emj_passes), ((set_known, mdr_passes), tt))

transaction-Rejected_example :
    (rs : List Bytes) × (handle_all small new_tx_state
        (multi_command ∷ ((set_emj ∷ []) ++ (set_foo ∷ ((set_mdr ∷ []) ++ (exec_command ∷ [])))))
      ≡ some (new_tx_state, reply ok_reply ∷ (queued_for (set_emj ∷ []) ++ aborted rs)))
transaction-Rejected_example =
    transaction-Rejected small (set_emj ∷ []) set_foo (set_mdr ∷ []) (is_plain, tt)
      ((set_known, emj_passes), tt) is_plain (inr (set_known, clusterdown, foo_refused))
      (is_plain, tt) ((none, mdr_passes), tt)

-- `SET emj 1` as it is decoded, with more behind it, and `EXEC` as the last.
abbrev emj_arrival : Arrival
emj_arrival = record {
  value = array (
      more_values (string (codes "set"))
        (more_values (string (codes "emj")) (more_values (string (codes "1")) no_values)));
  moments = λ i. now;
  more = true;
}

abbrev exec_arrival : Arrival
exec_arrival = record {
  value = array (more_values (string (codes "exec")) no_values);
  moments = λ i. now;
  more = false;
}

abbrev three_arrivals : List (Arrival × Command)
three_arrivals = (emj_arrival, set_emj) ∷ (emj_arrival, set_emj) ∷ (exec_arrival, exec_command) ∷ []

emj_parses : parse_command emj_arrival.value ≡ parsed set_emj
unfolding parse_command to_upper
emj_parses = refl

exec_parses : parse_command exec_arrival.value ≡ parsed exec_command
unfolding parse_command to_upper
exec_parses = refl

abbrev no_text : ParseError → Bytes
no_text e = []

handle_connection-one_by_one_example :
    (handle_connection no_text small started none (arrivals three_arrivals) >>= seen_as) ≡ (
      run_each small (gathered none) (view started)
      >>= one_by_one small three_arrivals new_tx_state)
handle_connection-one_by_one_example =
    handle_connection-one_by_one no_text small three_arrivals started none
      (emj_parses, (emj_parses, (exec_parses, tt)))

abbrev multi_arrival : Arrival
multi_arrival = record {
  value = array (more_values (string (codes "multi")) no_values);
  moments = λ i. now;
  more = true;
}

multi_parses : parse_command multi_arrival.value ≡ parsed multi_command
unfolding parse_command to_upper
multi_parses = refl

twice_passes : check_cluster_batch (some four_slots) (set_emj ∷ set_emj ∷ []) ≡ some none
unfolding check_cluster_batch keys_of check_keys key_hash_slot owner_of bytes_eq
twice_passes = refl

abbrev both_sets : List (Arrival × Command)
both_sets = (emj_arrival, set_emj) ∷ (emj_arrival, set_emj) ∷ []

handle_connection-executed_example :
    (handle_connection no_text small started none
        (arrivals (script multi_arrival both_sets exec_arrival))
      >>= seen_as)
    ≡ (dispatch_each small start (at_moments (λ i. now) 0 (set_emj ∷ set_emj ∷ []))
        >>= executed started both_sets)
handle_connection-executed_example =
    handle_connection-executed no_text small started multi_arrival exec_arrival
      (emj_arrival, set_emj) ((emj_arrival, set_emj) ∷ []) refl
      (multi_parses, (emj_parses, (emj_parses, (exec_parses, tt)))) (is_plain, (is_plain, tt))
      (set_known, (set_known, tt)) twice_passes

-- A request that does not parse, behind two commands of the same pipeline: its error overtakes their
-- replies.
abbrev bad_arrival : Arrival
bad_arrival = record emj_arrival { value = integer (pos 5); more = false }

abbrev sent_by : Option Connection → Bytes
sent_by none = []
sent_by (some c) = c.sent

error_overtakes :
    sent_by (handle_connection no_text small started none (emj_arrival ∷ bad_arrival ∷ []))
    ≡ encode_error (codes "ERR ") ++ ok_reply
unfolding handle_connection parse_command to_upper handle serve dispatch is_known_command find
    bytes_eq check_cluster keys_of check_keys key_hash_slot owner_of empty_store new_tx_state
    send_pipeline over_memory perform_evictions encode_error max_bytes_of
error_overtakes = refl
