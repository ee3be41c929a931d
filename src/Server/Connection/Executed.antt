-- ===== src/Server/Connection/Executed.antt =====
-- server/transaction.go and server/tcp_server.go: a transaction from MULTI to the reply of EXEC.
use learning_redis.Common.{
  ℕ, ◌+◌, ◌≡◌, refl, sym, ap, ◌∙◌, List, [], ◌∷◌, ◌++◌, append_assoc, append-nil, Bytes, true,
  Option, none, some, ◌>>=◌, All,
}
use learning_redis.Core.Encode.{concat, encode_raw_array}
use learning_redis.Commands.Command.{Command, ParseError, parsed, parse_command}
use learning_redis.Commands.Route.{check_cluster, check_cluster_batch}
use learning_redis.Commands.Route.Batch.{check_cluster_batch-each}
use learning_redis.Commands.Registry.{
  Moment, Server, World, is_known_command, dispatch_each, dispatch_batch, commands_of,
}
use learning_redis.Commands.Registry.Runs.{in_array}
use learning_redis.Server.Transaction.{TxState, new_tx_state, reset, ok_reply, queued_reply}
use learning_redis.Server.Transaction.Queue.{
  IsPlain, Open, handle-Accepted, handle-exec, handle-multi, multi_command, exec_command,
}
use learning_redis.Server.Worker.{serve}
use learning_redis.Server.Connection.{Arrival, Connection, at_moments, handle_connection}
use learning_redis.Server.Connection.Replies.{output}
use learning_redis.Server.Connection.View.{View, view, extend, one_by_one, arrivals, run_each}
use learning_redis.Server.Connection.Order.{with_tx, seen_as, handle_connection-one_by_one}

abbrev pub sent_in : List (Arrival × Command) → List Command
sent_in [] = []
sent_in ((a, cmd) ∷ xs) = cmd ∷ sent_in xs

-- MULTI, the commands, and EXEC.
abbrev pub script : Arrival → List (Arrival × Command) → Arrival → List (Arrival × Command)
script first xs last = (first, multi_command) ∷ (xs ++ (last, exec_command) ∷ [])

abbrev pub queued_replies : List (Arrival × Command) → List Bytes
queued_replies [] = []
queued_replies (x ∷ xs) = queued_reply ∷ queued_replies xs

-- What the client has once the commands have run: OK, QUEUED for each, and the array of their replies.
abbrev pub executed :
    Connection → List (Arrival × Command) → World × List Bytes → Option (TxState × View)
executed c xs (w, replies) = some (
  new_tx_state,
  (w, output c ++ (ok_reply ++ (concat (queued_replies xs) ++ encode_raw_array replies))),
)

abbrev pub Known : Server → Arrival × Command → Type 0
Known srv x = is_known_command srv x.1.name ≡ true

commands_of-at_moments :
    (moments : ℕ → Moment) (i : ℕ) (cmds : List Command)
    → commands_of (at_moments moments i cmds) ≡ cmds
commands_of-at_moments moments i [] = refl
commands_of-at_moments moments i (cmd ∷ cmds) =
    ap (◌∷◌ cmd) (commands_of-at_moments moments (i + 1) cmds)

-- Each command is queued behind the ones before.
one_by_one-queued :
    (srv : Server) (xs rest : List (Arrival × Command)) (before : List Command) (w : World)
    (out : Bytes)
    → All (λ x. IsPlain x.1) xs
    → All (Known srv) xs
    → All (λ cmd. check_cluster srv.layout cmd ≡ some none) (sent_in xs)
    → one_by_one srv (xs ++ rest) (Open before) (w, out)
      ≡ one_by_one srv rest (Open (before ++ sent_in xs)) (w, out ++ concat (queued_replies xs))
unfolding one_by_one concat
one_by_one-queued srv [] rest before w out plain known passes =
    ap (λ (b : List Command). one_by_one srv rest (Open b) (w, out)) (sym (append-nil before))
    ∙ ap (λ (o : Bytes). one_by_one srv rest (Open (before ++ [])) (w, o)) (sym (append-nil out))
one_by_one-queued srv ((a, cmd) ∷ xs) rest before w out (p, plain) (k, known) (pass, passes) =
    rw (handle-Accepted srv before cmd p (k, pass)) (
      one_by_one-queued srv xs rest (before ++ cmd ∷ []) w (out ++ queued_reply) plain known passes
      ∙ ap
          (λ (b : List Command).
            one_by_one srv rest (Open b) (w, (out ++ queued_reply) ++ concat (queued_replies xs)))
          (append_assoc before (cmd ∷ []) (sent_in xs))
      ∙ ap (λ (o : Bytes). one_by_one srv rest (Open (before ++ cmd ∷ sent_in xs)) (w, o))
          (append_assoc out queued_reply (concat (queued_replies xs))))

-- EXEC of a queue whose keys may run together.
one_by_one-exec :
    (srv : Server) (last : Arrival) (cmd : Command) (cmds : List Command) (w : World) (out : Bytes)
    → check_cluster_batch srv.layout (cmd ∷ cmds) ≡ some none
    → one_by_one srv ((last, exec_command) ∷ []) (Open (cmd ∷ cmds)) (w, out) ≡ (
        dispatch_each srv w (at_moments last.moments 0 (cmd ∷ cmds)) >>= λ r.
        some (new_tx_state, (r.0, out ++ encode_raw_array r.1)))
unfolding one_by_one new_tx_state reset serve dispatch_batch
one_by_one-exec srv last cmd cmds w out passes =
    let batch = at_moments last.moments 0 (cmd ∷ cmds) in
    let whole : check_cluster_batch srv.layout (commands_of batch) ≡ some none =
      ap (check_cluster_batch srv.layout) (commands_of-at_moments last.moments 0 (cmd ∷ cmds))
      ∙ passes in
    rw (handle-exec srv (Open (cmd ∷ cmds))) (rw whole (by_replies (dispatch_each srv w batch)))
  where
    by_replies :
        (o : Option (World × List Bytes))
        → (((o >>= in_array) >>= extend out) >>= with_tx new_tx_state)
          ≡ (o >>= λ r. some (new_tx_state, (r.0, out ++ encode_raw_array r.1)))
    by_replies none = refl
    by_replies (some r) = refl

-- On a connection in no transaction, while no other connection uses the server: MULTI, one or
-- more commands that control no transaction, that this node knows and whose keys it may serve
-- together, and EXEC, however they are buffered. If no command panics, the commands have run one
-- by one at EXEC, the client has OK, QUEUED for each and one array of their replies behind what
-- was written before, and the connection is in no transaction; if one panics, so does the
-- connection.
pub handle_connection-executed :
    (error_text : ParseError → Bytes) (srv : Server) (c : Connection) (first last : Arrival)
    (x : Arrival × Command) (xs : List (Arrival × Command))
    → c.tx ≡ new_tx_state
    → All (λ y. parse_command y.0.value ≡ parsed y.1) (script first (x ∷ xs) last)
    → All (λ y. IsPlain y.1) (x ∷ xs)
    → All (Known srv) (x ∷ xs)
    → check_cluster_batch srv.layout (sent_in (x ∷ xs)) ≡ some none
    → (handle_connection error_text srv c none (arrivals (script first (x ∷ xs) last)) >>= seen_as)
      ≡ (dispatch_each srv c.world (at_moments last.moments 0 (sent_in (x ∷ xs)))
          >>= executed c (x ∷ xs))
unfolding run_each
handle_connection-executed error_text srv c first last x xs idle parses plain known passes =
    handle_connection-one_by_one error_text srv (script first (x ∷ xs) last) c none parses
    ∙ ap (λ (t : TxState). one_by_one srv (script first (x ∷ xs) last) t (view c)) idle
    ∙ opened
    ∙ one_by_one-queued srv (x ∷ xs) ((last, exec_command) ∷ []) [] c.world (output c ++ ok_reply)
        plain known (check_cluster_batch-each srv.layout (sent_in (x ∷ xs)) passes)
    ∙ one_by_one-exec srv last x.1 (sent_in xs) c.world
        ((output c ++ ok_reply) ++ concat (queued_replies (x ∷ xs))) passes
    ∙ ap
        (λ (o : Bytes).
          dispatch_each srv c.world (at_moments last.moments 0 (sent_in (x ∷ xs))) >>= λ r.
          some (new_tx_state, (r.0, o ++ encode_raw_array r.1)))
        (append_assoc (output c) ok_reply (concat (queued_replies (x ∷ xs))))
    ∙ by_replies (dispatch_each srv c.world (at_moments last.moments 0 (sent_in (x ∷ xs))))
  where
    opened :
        one_by_one srv (script first (x ∷ xs) last) new_tx_state (view c)
        ≡ one_by_one srv
            ((x ∷ xs) ++ (last, exec_command) ∷ [])
            (Open [])
            (c.world, output c ++ ok_reply)
    opened = unfold one_by_one in rw (handle-multi srv) refl

    by_replies :
        (o : Option (World × List Bytes))
        → (o >>= λ r. some (
          new_tx_state,
          (
            r.0,
            (output c ++ (ok_reply ++ concat (queued_replies (x ∷ xs)))) ++ encode_raw_array r.1,
          ),
        ))
          ≡ (o >>= executed c (x ∷ xs))
    by_replies none = refl
    by_replies (some r) =
        let q = concat (queued_replies (x ∷ xs)) in
        let a = encode_raw_array r.1 in
        ap (λ (t : Bytes). some (new_tx_state, (r.0, t)))
          (append_assoc (output c) (ok_reply ++ q) a
            ∙ ap (λ (t : Bytes). output c ++ t) (append_assoc ok_reply q a))
