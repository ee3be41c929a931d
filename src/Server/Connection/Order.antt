-- ===== src/Server/Connection/Order.antt =====
-- A connection that gathers pipelines against one that serves each command as it arrives.
use learning_redis.Common.{
  ◌≡◌, refl, sym, ap, ◌∙◌, List, [], ◌∷◌, ◌++◌, Bytes, Bool, true, false, Option, none, some, ◌>>=◌,
  if◌then◌else◌, All,
}
use learning_redis.Commands.Command.{Command, ParseError, Parsed, parsed, parse_command}
use learning_redis.Commands.Registry.{Moment, Server}
use learning_redis.Server.Transaction.{TxState, TxAction, passthrough, reply, exec, handle}
use learning_redis.Server.Connection.{
  Arrival, Connection, Pipeline, flush, send_pipeline, send_gathered, gather, handle_action, act,
  run_tx, end_of_round, receive, receive_parsed, finish, handle_connection,
}
use learning_redis.Server.Connection.View.{
  View, view, run_one, take_action, one_by_one, arrivals, run_each, gathered, bind_assoc, bind_ext,
  bind_none, run_each-append, then_next, send_pipeline-view, send_gathered-view, end_of_round-view,
  handle_reply-view, handle_exec-view,
}

abbrev pub with_tx : TxState → View → Option (TxState × View)
with_tx tx v = some (tx, v)

abbrev pub seen_as : Connection → Option (TxState × View)
seen_as c = with_tx c.tx (view c)

-- What is left to do after a step of the connection.
module _ (error_text : ParseError → Bytes) (srv : Server) (rest : List (Arrival × Command)) where
  abbrev goes_on : Connection × Pipeline → Option (TxState × View)
  goes_on (c, p) = handle_connection error_text srv c p (arrivals rest) >>= seen_as

  abbrev Agrees : Type 0
  Agrees =
      (c : Connection) (p : Pipeline)
      → goes_on (c, p) ≡ (run_each srv (gathered p) (view c) >>= one_by_one srv rest c.tx)

  abbrev ended : Arrival → Connection → Option (Connection × Pipeline)
  ended a c = some (end_of_round a.more c, none)

  ended-next :
      (a : Arrival)
      → Agrees
      → (c : Connection) → (ended a c >>= goes_on) ≡ then_next (one_by_one srv rest) c
  unfolding run_each
  ended-next a ih c =
      ih (end_of_round a.more c) none ∙ end_of_round-view (one_by_one srv rest) a.more c

  -- After an action of the transaction state, the pipeline is sent and the action is taken.
  action-next :
      (c : Connection) (p : Pipeline) (a : Arrival) (cmd : Command) (action : TxAction)
      → ((c' : Connection)
          → (handle_action srv c' a.moments action >>= then_next (one_by_one srv rest))
            ≡ (take_action srv a cmd action (view c') >>= one_by_one srv rest c'.tx))
      → Agrees
      → ((send_gathered srv c p >>= λ c'. handle_action srv c' a.moments action >>= ended a)
          >>= goes_on)
        ≡ (run_each srv (gathered p) (view c) >>= λ v.
            take_action srv a cmd action v >>= one_by_one srv rest c.tx)
  action-next c p a cmd action acts ih =
      bind_assoc (send_gathered srv c p) (λ c'. handle_action srv c' a.moments action >>= ended a)
        goes_on
      ∙ bind_ext (send_gathered srv c p)
          (λ c'. (handle_action srv c' a.moments action >>= ended a) >>= goes_on)
          (then_next (λ tx v. take_action srv a cmd action v >>= one_by_one srv rest tx))
          (λ c'.
            bind_assoc (handle_action srv c' a.moments action) (ended a) goes_on
            ∙ bind_ext (handle_action srv c' a.moments action) (λ c''. ended a c'' >>= goes_on)
                (then_next (one_by_one srv rest)) (ended-next a ih)
            ∙ acts c')
      ∙ send_gathered-view srv (λ tx v. take_action srv a cmd action v >>= one_by_one srv rest tx) c
          p

  gathered-gather :
      (p : Pipeline) (x : Moment × Command) → gathered (some (gather p x)) ≡ gathered p ++ (x ∷ [])
  gathered-gather none x = refl
  gathered-gather (some (first, more)) x = refl

  -- A plain command joins the pipeline, which is sent if nothing more is buffered.
  plain-next :
      (c : Connection) (p : Pipeline) (a : Arrival) (cmd : Command)
      → Agrees
      → (act srv c p a cmd passthrough >>= goes_on) ≡ (
          run_each srv (gathered p) (view c) >>= λ v.
          take_action srv a cmd passthrough v >>= one_by_one srv rest c.tx)
  plain-next c p a cmd ih = by_more a.more
    where
      x : Moment × Command
      x = (a.moments 0, cmd)

      first : Moment × Command
      first = (gather p x).0

      more : List (Moment × Command)
      more = (gather p x).1

      joins :
          (run_each srv (gathered (some (gather p x))) (view c) >>= one_by_one srv rest c.tx) ≡ (
            run_each srv (gathered p) (view c) >>= λ v.
            run_one srv v x >>= one_by_one srv rest c.tx)
      joins =
          ap
            (λ (xs : List (Moment × Command)).
              run_each srv xs (view c) >>= one_by_one srv rest c.tx)
            (gathered-gather p x)
          ∙ ap (λ (o : Option View). o >>= one_by_one srv rest c.tx)
              (run_each-append srv (gathered p) x (view c))
          ∙ bind_assoc (run_each srv (gathered p) (view c)) (λ v. run_one srv v x)
              (one_by_one srv rest c.tx)

      by_more :
          (b : Bool)
          → ((if b
                then some (c, some (first, more))
                else (send_pipeline srv c first more >>= ended a))
              >>= goes_on)
            ≡ (run_each srv (gathered p) (view c) >>= λ v.
                run_one srv v x >>= one_by_one srv rest c.tx)
      by_more true = ih c (some (gather p x)) ∙ joins
      by_more false =
          bind_assoc (send_pipeline srv c first more) (ended a) goes_on
          ∙ bind_ext (send_pipeline srv c first more) (λ c'. ended a c' >>= goes_on)
              (then_next (one_by_one srv rest)) (ended-next a ih)
          ∙ send_pipeline-view srv (one_by_one srv rest) c first more
          ∙ joins

  -- Any command, by the action of the transaction state.
  act-next :
      (c : Connection) (p : Pipeline) (a : Arrival) (cmd : Command) (action : TxAction)
      → Agrees
      → (act srv c p a cmd action >>= goes_on) ≡ (
          run_each srv (gathered p) (view c) >>= λ v.
          take_action srv a cmd action v >>= one_by_one srv rest c.tx)
  act-next c p a cmd passthrough ih = plain-next c p a cmd ih
  act-next c p a cmd (reply r) ih =
      action-next c p a cmd (reply r) (λ c'. handle_reply-view srv (one_by_one srv rest) c' a cmd r)
        ih
  act-next c p a cmd (exec batch) ih =
      action-next c p a cmd (exec batch)
        (λ c'. handle_exec-view srv (one_by_one srv rest) c' a cmd batch) ih

  handled-next :
      (c : Connection) (p : Pipeline) (a : Arrival) (cmd : Command)
      (o : Option (TxState × TxAction))
      → Agrees
      → ((o >>= run_tx srv c p a cmd) >>= goes_on) ≡ (
          run_each srv (gathered p) (view c) >>= λ v.
          o >>= λ r. take_action srv a cmd r.1 v >>= one_by_one srv rest r.0)
  handled-next c p a cmd none ih = sym (bind_none (run_each srv (gathered p) (view c)))
  handled-next c p a cmd (some (tx, action)) ih = act-next (record c { tx = tx }) p a cmd action ih

finish-view :
    (srv : Server) (c : Connection) (p : Pipeline)
    → (finish srv c p >>= seen_as) ≡ (run_each srv (gathered p) (view c) >>= with_tx c.tx)
unfolding run_each
finish-view srv c none = refl
finish-view srv c (some (first, more)) =
    bind_assoc (send_pipeline srv c first more) (λ c'. some (flush c')) seen_as
    ∙ bind_ext (send_pipeline srv c first more) (λ c'. seen_as (flush c')) (then_next with_tx)
        (λ c'. end_of_round-view with_tx false c')
    ∙ send_pipeline-view srv with_tx c first more

-- A client that sends only commands, however it pipelines them, to a server that no other connection
-- uses meanwhile: the connection ends with the transaction state, the data and, in order, the bytes
-- written to the client, sent or still in the buffer, of serving first the pipeline `p` that it had
-- gathered and then each command before the next.
pub handle_connection-one_by_one :
    (error_text : ParseError → Bytes) (srv : Server) (cs : List (Arrival × Command))
    (c : Connection) (p : Pipeline)
    → All (λ x. parse_command x.0.value ≡ parsed x.1) cs
    → (handle_connection error_text srv c p (arrivals cs) >>= seen_as)
      ≡ (run_each srv (gathered p) (view c) >>= one_by_one srv cs c.tx)
unfolding handle_connection one_by_one
handle_connection-one_by_one error_text srv [] c p parses = finish-view srv c p
handle_connection-one_by_one error_text srv ((a, cmd) ∷ rest) c p parses =
    bind_assoc (receive error_text srv c p a)
      (λ x. handle_connection error_text srv x.0 x.1 (arrivals rest)) seen_as
    ∙ ap
        (λ (t : Parsed Command).
          receive_parsed error_text srv c p a t >>= goes_on error_text srv rest)
        parses.0
    ∙ handled-next error_text srv rest c p a cmd (handle srv c.tx cmd)
        (λ c' p'. handle_connection-one_by_one error_text srv rest c' p' parses.1)
