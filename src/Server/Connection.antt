-- ===== src/Server/Connection.antt =====
-- server/tcp_server.go: the loop of `handleConnection`. What the client sends is a list of values that
-- `Decode` returns, each with the test `reader.Buffered() > 0` that is made after it; the end of the
-- list is the end of the connection. Logs, and errors of writes, are left out.
pub mod Replies
pub mod View
pub mod Order
pub mod Executed
use learning_redis.Common.{
  ℕ, zero, suc, ◌+◌, List, [], ◌∷◌, ◌++◌, Bytes, Bool, true, false, not, Option, none, some, ◌>>=◌,
  if◌then◌else◌, codes,
}
use learning_redis.Core.Encode.{encode_error}
use learning_redis.Core.Decode.{Value}
use learning_redis.Commands.Command.{Command, Parsed, ParseError, parsed, refused, parse_command}
use learning_redis.Commands.Registry.{Moment, Server, World}
use learning_redis.Server.Transaction.{TxState, TxAction, passthrough, reply, exec, handle}
use learning_redis.Server.Worker.{CommandRequest, serve}

-- A value, the moments at which its commands run (those of an EXEC by position), and whether more bytes are buffered after it.
pub record Arrival : Type 0 where
  pub value : Value
  pub moments : ℕ → Moment
  pub more : Bool

-- The state of the connection: its transaction, the bytes in the writer's buffer and those that were
-- sent to the client, with the state of the server.
pub record Connection : Type 0 where
  pub tx : TxState
  pub pending : Bytes
  pub sent : Bytes
  pub world : World

abbrev pub no_command : Command
no_command = record { name = []; args = [] }

-- `writer.Write`, `writer.Flush` and `conn.Write`.
abbrev pub write : Connection → Bytes → Connection
write c bytes = record c { pending = c.pending ++ bytes }

abbrev pub flush : Connection → Connection
flush c = record c { pending = []; sent = c.sent ++ c.pending }

abbrev pub send : Connection → Bytes → Connection
send c bytes = record c { sent = c.sent ++ bytes }

abbrev pub answered : Connection → World × Bytes → Connection
answered c (w, bytes) = write (record c { world = w }) bytes

-- A request to the worker, and its reply written.
abbrev pub ask : Server → Connection → CommandRequest → Option Connection
ask srv c req = do r ← serve srv c.world req; some (answered c r)

unfoldable pub dispatch_single : Server → Connection → Moment × Command → Option Connection
dispatch_single srv c cmd = ask srv c (record { cmd = cmd; batch = []; pipeline = [] })

abbrev pub at_moments : (ℕ → Moment) → ℕ → List Command → List (Moment × Command)
at_moments moments i [] = []
at_moments moments i (c ∷ cs) = (moments i, c) ∷ at_moments moments (i + 1) cs

-- The closure `dispatchPipeline`; the moment of the request's unused command is that of the first.
unfoldable pub send_pipeline :
    Server → Connection → Moment × Command → List (Moment × Command) → Option Connection
unfolding dispatch_single
send_pipeline srv c first [] = dispatch_single srv c first
send_pipeline srv c (m, first) (next ∷ rest) =
    ask srv c (record { cmd = (m, no_command); batch = []; pipeline = (m, first) ∷ (next ∷ rest) })

-- `handleAction`.
unfoldable pub handle_action : Server → Connection → (ℕ → Moment) → TxAction → Option Connection
handle_action srv c moments passthrough = some c
handle_action srv c moments (reply r) = some (write c r)
handle_action srv c moments (exec batch) =
    ask srv c
      (record { cmd = (moments 0, no_command); batch = at_moments moments 0 batch; pipeline = [] })

-- `if reader.Buffered() == 0 { writer.Flush() }`
abbrev pub end_of_round : Bool → Connection → Connection
end_of_round more c = if more then c else flush c

-- The commands gathered so far, while the loop looks for more of them.
abbrev pub Pipeline : Type 0
Pipeline = Option ((Moment × Command) × List (Moment × Command))

abbrev pub send_gathered : Server → Connection → Pipeline → Option Connection
send_gathered srv c none = some c
send_gathered srv c (some (first, rest)) = send_pipeline srv c first rest

abbrev pub gather : Pipeline → Moment × Command → (Moment × Command) × List (Moment × Command)
gather none cmd = (cmd, [])
gather (some (first, rest)) cmd = (first, rest ++ (cmd ∷ []))

-- What is done with an action; the pipeline goes on only while more is buffered.
abbrev pub act :
    Server → Connection → Pipeline → Arrival → Command → TxAction → Option (Connection × Pipeline)
act srv c p a cmd passthrough =
    let (first, rest) = gather p (a.moments 0, cmd) in
    let sends = do c' ← send_pipeline srv c first rest; some (end_of_round a.more c', none)
    in if a.more then some (c, some (first, rest)) else sends
act srv c p a cmd action = do
  c' ← send_gathered srv c p
  c'' ← handle_action srv c' a.moments action
  some (end_of_round a.more c'', none)

-- The error reply of `ParseCommand`, which is sent past the writer's buffer. At the top of the loop
-- `continue` skips the flush.
abbrev pub refuse :
    Server → Connection → Pipeline → Arrival → Bytes → Option (Connection × Pipeline)
refuse srv c none a err = some (send c err, none)
refuse srv c (some (first, rest)) a err = do
  c' ← send_pipeline srv c first rest
  some (end_of_round a.more (send c' err), none)

abbrev pub run_tx :
    Server
    → Connection
    → Pipeline
    → Arrival
    → Command
    → TxState × TxAction
    → Option (Connection × Pipeline)
run_tx srv c p a cmd (tx, action) = act srv (record c { tx = tx }) p a cmd action

-- `error_text` is the text of the error that `ParseCommand` returns.
abbrev pub receive_parsed :
    (ParseError → Bytes)
    → Server
    → Connection
    → Pipeline
    → Arrival
    → Parsed Command
    → Option (Connection × Pipeline)
receive_parsed error_text srv c p a (refused e) =
    refuse srv c p a (encode_error (codes "ERR " ++ error_text e))
receive_parsed error_text srv c p a (parsed cmd) = handle srv c.tx cmd >>= run_tx srv c p a cmd

unfoldable pub receive :
    (ParseError → Bytes) → Server → Connection → Pipeline → Arrival → Option (Connection × Pipeline)
unfolding send_pipeline handle_action
receive error_text srv c p a = receive_parsed error_text srv c p a (parse_command a.value)

-- At the end of what the client sends, a pipeline that was begun is still run, and flushed.
abbrev pub finish : Server → Connection → Pipeline → Option Connection
finish srv c none = some c
finish srv c (some (first, rest)) = do c' ← send_pipeline srv c first rest; some (flush c')

unfoldable pub handle_connection :
    (ParseError → Bytes) → Server → Connection → Pipeline → List Arrival → Option Connection
unfolding receive
handle_connection error_text srv c p [] = finish srv c p
handle_connection error_text srv c p (a ∷ rest) = do
  (c', p') ← receive error_text srv c p a
  handle_connection error_text srv c' p' rest
