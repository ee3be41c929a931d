-- ===== src/Server/Transaction.antt =====
-- server/transaction.go: MULTI, EXEC and DISCARD on one connection.
pub mod Queue
use learning_redis.Common.{
  ℕ, List, [], ◌∷◌, ◌++◌, Bytes, Bool, true, false, not, Option, none, some, ◌>>=◌, if◌then◌else◌,
  codes, bytes_eq,
}
use learning_redis.Core.Encode.{encode_simple_string, encode_error}
use learning_redis.Commands.Command.{Command}
use learning_redis.Commands.Route.{check_cluster}
use learning_redis.Commands.Registry.{Server, is_known_command, unknown_command}

pub record TxState : Type 0 where
  pub is_multi : Bool
  pub queued : List Command
  pub dirty : Bool

-- What the caller does: go on as for any command, write a reply, or submit the batch.
pub data TxAction : Type 0 where
  passthrough : TxAction
  reply : Bytes → TxAction
  exec : List Command → TxAction

unfoldable pub new_tx_state : TxState
new_tx_state = record { is_multi = false; queued = []; dirty = false }

unfoldable pub reset : TxState → TxState
reset t = record t { is_multi = false; queued = []; dirty = false }

abbrev pub ok_reply : Bytes
ok_reply = encode_simple_string (codes "OK")

abbrev pub queued_reply : Bytes
queued_reply = encode_simple_string (codes "QUEUED")

abbrev pub nested_reply : Bytes
nested_reply = encode_error (codes "ERR MULTI calls can not be nested")

abbrev pub discard_reply : Bytes
discard_reply = encode_error (codes "ERR DISCARD without MULTI")

abbrev pub exec_reply : Bytes
exec_reply = encode_error (codes "ERR EXEC without MULTI")

abbrev pub abort_reply : Bytes
abort_reply = encode_error (codes "EXECABORT Transaction discarded because of previous errors.")

abbrev pub handle_multi : TxState → TxState × TxAction
handle_multi t =
    if t.is_multi then (t, reply nested_reply) else (record t { is_multi = true }, reply ok_reply)

abbrev pub handle_discard : TxState → TxState × TxAction
handle_discard t = if not t.is_multi then (t, reply discard_reply) else (reset t, reply ok_reply)

abbrev pub handle_exec : TxState → TxState × TxAction
handle_exec t =
    if not t.is_multi
    then (t, reply exec_reply)
    else if t.dirty
    then (reset t, reply abort_reply)
    else (reset t, exec t.queued)

-- A known command under MULTI: refused by the cluster, or queued.
abbrev pub enqueue : TxState → Command → Option Bytes → TxState × TxAction
enqueue t cmd (some err_reply) = (record t { dirty = true }, reply err_reply)
enqueue t cmd none = (record t { queued = t.queued ++ (cmd ∷ []) }, reply queued_reply)

abbrev pub handle_queued : Server → TxState → Command → Option (TxState × TxAction)
handle_queued srv t cmd =
    let checked = do err ← check_cluster srv.layout cmd; some (enqueue t cmd err)
    in if not (is_known_command srv cmd.name)
      then some (record t { dirty = true }, reply (unknown_command cmd.name))
      else checked

abbrev pub handle_other : Server → TxState → Command → Option (TxState × TxAction)
handle_other srv t cmd = if not t.is_multi then some (t, passthrough) else handle_queued srv t cmd

-- `handle`; `none` is a panic.
unfoldable pub handle : Server → TxState → Command → Option (TxState × TxAction)
unfolding reset
handle srv t cmd =
    if bytes_eq cmd.name (codes "MULTI")
    then some (handle_multi t)
    else if bytes_eq cmd.name (codes "DISCARD")
    then some (handle_discard t)
    else if bytes_eq cmd.name (codes "EXEC")
    then some (handle_exec t)
    else handle_other srv t cmd
