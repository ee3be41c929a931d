-- ===== src/Server/Transaction/Queue.antt =====
-- A transaction from MULTI to EXEC.
use learning_redis.Common.{
  ◌≡◌, ◌⊎◌, refl, sym, ap, ◌∙◌, List, [], ◌∷◌, ◌++◌, append_assoc, append-nil, Bytes, Bool, true,
  false, Option, none, some, ◌>>=◌, codes, bytes_eq, Bool-cases, inl, inr, All,
}
use learning_redis.Commands.Command.{Command}
use learning_redis.Commands.Route.{check_cluster}
use learning_redis.Commands.Registry.{Server, is_known_command, unknown_command}
use learning_redis.Server.Transaction.{
  TxState, reset, TxAction, reply, exec, new_tx_state, handle, handle_exec, ok_reply, queued_reply,
  abort_reply,
}

-- A command that is none of the three that control a transaction.
abbrev pub IsPlain : Command → Type 0
IsPlain c =
    (bytes_eq c.name (codes "MULTI") ≡ false)
    × (bytes_eq c.name (codes "DISCARD") ≡ false)
    × (bytes_eq c.name (codes "EXEC") ≡ false)

-- A command that this node knows and may run.
abbrev pub Accepted : Server → Command → Type 0
Accepted srv c = (is_known_command srv c.name ≡ true) × (check_cluster srv.layout c ≡ some none)

abbrev pub plain : List Bytes → Bytes → Command
plain args name = record { name = name; args = args }

-- The commands of a connection, one after the other.
unfoldable pub handle_all : Server → TxState → List Command → Option (TxState × List TxAction)
handle_all srv t [] = some (t, [])
handle_all srv t (c ∷ cs) = do
  (t', action) ← handle srv t c
  (t'', actions) ← handle_all srv t' cs
  some (t'', action ∷ actions)

unfoldable pub queued_for : List Command → List TxAction
queued_for [] = []
queued_for (c ∷ cs) = reply queued_reply ∷ queued_for cs

-- A transaction that is open and clean, with these commands in its queue.
abbrev pub Open : List Command → TxState
Open cmds = record { is_multi = true; queued = cmds; dirty = false }

pub handle-Accepted :
    (srv : Server) (before : List Command) (c : Command)
    → IsPlain c
    → Accepted srv c
    → handle srv (Open before) c ≡ some (Open (before ++ (c ∷ [])), reply queued_reply)
unfolding handle
handle-Accepted srv before c (m, d, e) (known, ok) = rw (m, d, e) (rw known (rw ok refl))

-- What comes after them is handled with them in the queue.
queue-Accepted :
    (srv : Server) (cmds before tail : List Command) (t : TxState) (actions : List TxAction)
    → All IsPlain cmds
    → All (Accepted srv) cmds
    → handle_all srv (Open (before ++ cmds)) tail ≡ some (t, actions)
    → handle_all srv (Open before) (cmds ++ tail) ≡ some (t, queued_for cmds ++ actions)
unfolding handle_all queued_for
queue-Accepted srv [] before tail t actions is_plain ok run =
    ap (λ (b : List Command). handle_all srv (Open b) tail) (sym (append-nil before)) ∙ run
queue-Accepted srv (c ∷ cs) before tail t actions is_plain ok run =
    let run' : handle_all srv (Open ((before ++ (c ∷ [])) ++ cs)) tail ≡ some (t, actions) =
      ap (λ (b : List Command). handle_all srv (Open b) tail) (append_assoc before (c ∷ []) cs)
      ∙ run in
    rw (handle-Accepted srv before c is_plain.0 ok.0)
      (rw (queue-Accepted srv cs (before ++ (c ∷ [])) tail t actions is_plain.1 ok.1 run') refl)

abbrev pub exec_command : Command
exec_command = plain [] (codes "EXEC")

pub handle-exec : (srv : Server) (t : TxState) → handle srv t exec_command ≡ some (handle_exec t)
unfolding handle bytes_eq
handle-exec srv t = refl

abbrev pub multi_command : Command
multi_command = plain [] (codes "MULTI")

pub handle-multi :
    (srv : Server) → handle srv new_tx_state multi_command ≡ some (Open [], reply ok_reply)
unfolding handle bytes_eq new_tx_state
handle-multi srv = refl

-- MULTI, commands that this node knows and may run, and EXEC: OK, QUEUED for each, and then exactly
-- those commands are submitted, in their order; the connection is as it was at first.
pub transaction-Accepted :
    (srv : Server) (cmds : List Command)
    → All IsPlain cmds
    → All (Accepted srv) cmds
    → handle_all srv new_tx_state (multi_command ∷ (cmds ++ (exec_command ∷ [])))
      ≡ some (new_tx_state, reply ok_reply ∷ (queued_for cmds ++ (exec cmds ∷ [])))
unfolding reset
transaction-Accepted srv cmds is_plain ok =
    let last : handle_all srv (Open ([] ++ cmds)) (exec_command ∷ [])
        ≡ some (new_tx_state, exec cmds ∷ []) =
      unfold handle_all new_tx_state in rw (handle-exec srv (Open cmds)) refl in
    let rest =
      queue-Accepted srv cmds [] (exec_command ∷ []) new_tx_state (exec cmds ∷ []) is_plain ok
        last in
    unfold handle_all in rw (handle-multi srv) (rw rest refl)

-- A command that this node does not know or may not run.
abbrev pub Rejected : Server → Command → Type 0
Rejected srv c =
    (is_known_command srv c.name ≡ false)
    ⊎ ((is_known_command srv c.name ≡ true)
        × (e : Bytes) × (check_cluster srv.layout c ≡ some (some e)))

-- The cluster check of the command does not panic.
abbrev pub Checks : Server → Command → Type 0
Checks srv c = (e : Option Bytes) × (check_cluster srv.layout c ≡ some e)

abbrev Dirty : List Command → TxState
Dirty cmds = record { is_multi = true; queued = cmds; dirty = true }

-- A rejected command leaves the transaction dirty, clean or not before.
handle-Rejected :
    (srv : Server) (before : List Command) (dirty : Bool) (c : Command)
    → IsPlain c
    → Rejected srv c
    → (r : Bytes) × (handle srv (record { is_multi = true; queued = before; dirty = dirty }) c
        ≡ some (Dirty before, reply r))
unfolding handle
handle-Rejected srv before dirty c (m, d, e) (inl unknown) =
    (unknown_command c.name, rw (m, d, e) (rw unknown refl))
handle-Rejected srv before dirty c (m, d, e) (inr (known, err, refuses)) =
    (err, rw (m, d, e) (rw known (rw refuses refl)))

-- Any command leaves a dirty transaction dirty.
handle-Dirty :
    (srv : Server) (before : List Command) (c : Command)
    → IsPlain c
    → Checks srv c
    → (after : List Command) × (r : Bytes) × (handle srv (Dirty before) c
        ≡ some (Dirty after, reply r))
unfolding handle
handle-Dirty srv before c (m, d, e) (err, checks) =
    elim (Bool-cases (is_known_command srv c.name)) [
      | inr unknown ↦ (before, unknown_command c.name, rw (m, d, e) (rw unknown refl))
      | inl known ↦ by_err err checks known
    ]
  where
    by_err :
        (err : Option Bytes)
        → check_cluster srv.layout c ≡ some err
        → is_known_command srv c.name ≡ true
        → (after : List Command) × (r : Bytes) × (handle srv (Dirty before) c
            ≡ some (Dirty after, reply r))
    by_err none checks known =
        (before ++ (c ∷ []), queued_reply, rw (m, d, e) (rw known (rw checks refl)))
    by_err (some r) checks known = (before, r, rw (m, d, e) (rw known (rw checks refl)))

-- The replies of a run, and that of EXECABORT at its end.
unfoldable pub aborted : List Bytes → List TxAction
aborted [] = reply abort_reply ∷ []
aborted (r ∷ rs) = reply r ∷ aborted rs

run_dirty :
    (srv : Server) (cmds before : List Command)
    → All IsPlain cmds
    → All (Checks srv) cmds
    → (rs : List Bytes) × (handle_all srv (Dirty before) (cmds ++ (exec_command ∷ []))
        ≡ some (new_tx_state, aborted rs))
unfolding handle_all aborted reset
run_dirty srv [] before is_plain checks =
    ([], unfold new_tx_state in rw (handle-exec srv (Dirty before)) refl)
run_dirty srv (c ∷ cs) before is_plain checks =
    let (after, r, run) = handle-Dirty srv before c is_plain.0 checks.0 in
    let (rs, rest) = run_dirty srv cs after is_plain.1 checks.1 in (r ∷ rs, rw run (rw rest refl))

-- MULTI, commands of which one is not known or may not run here, and EXEC: every command gets a reply,
-- EXEC gets EXECABORT, nothing is submitted, and the connection is as it was at first.
pub transaction-Rejected :
    (srv : Server) (before : List Command) (bad : Command) (after : List Command)
    → All IsPlain before
    → All (Accepted srv) before
    → IsPlain bad
    → Rejected srv bad
    → All IsPlain after
    → All (Checks srv) after
    → (rs : List Bytes) × (handle_all srv new_tx_state
          (multi_command ∷ (before ++ (bad ∷ (after ++ (exec_command ∷ [])))))
        ≡ some (new_tx_state, reply ok_reply ∷ (queued_for before ++ aborted rs)))
transaction-Rejected srv before bad after plain1 ok plain2 rejected plain3 checks =
    let (r, run) = handle-Rejected srv before false bad plain2 rejected in
    let (rs, rest) = run_dirty srv after before plain3 checks in
    let last : handle_all srv (Open ([] ++ before)) (bad ∷ (after ++ (exec_command ∷ [])))
        ≡ some (new_tx_state, aborted (r ∷ rs)) =
      unfold handle_all aborted in rw run (rw rest refl) in
    (
      r ∷ rs,
      unfold handle_all in
          rw (handle-multi srv) (
            rw
              (queue-Accepted srv before [] (bad ∷ (after ++ (exec_command ∷ []))) new_tx_state
                (aborted (r ∷ rs)) plain1 ok last)
              refl),
    )
