-- ===== src/Server/Connection/View.antt =====
-- What a connection has served and written, and the reference that serves each command as it arrives.
use learning_redis.Common.{
  ◌≡◌, refl, sym, ap, ◌∙◌, List, [], ◌∷◌, ◌++◌, append_assoc, append-nil, Bytes, Bool, true, false,
  Option, none, some, ◌>>=◌,
}
use learning_redis.Core.Encode.{concat}
use learning_redis.Commands.Command.{Command}
use learning_redis.Commands.Registry.{Moment, Server, World, dispatch, dispatch_each, pipeline_loop}
use learning_redis.Commands.Registry.Runs.{joined, pipeline_loop-joined}
use learning_redis.Server.Transaction.{TxState, TxAction, passthrough, reply, exec, handle}
use learning_redis.Server.Worker.{serve}
use learning_redis.Server.Connection.{
  Arrival, Connection, Pipeline, send_pipeline, send_gathered, at_moments, handle_action,
  no_command, end_of_round,
}
use learning_redis.Server.Connection.Replies.{output, all_written, answer, send_pipeline-each}

-- The state of the server, and all that was written to the client.
abbrev pub View : Type 0
View = World × Bytes

abbrev pub view : Connection → View
view c = (c.world, output c)

abbrev pub extend : Bytes → World × Bytes → Option View
extend out (w, r) = some (w, out ++ r)

abbrev pub run_one : Server → View → Moment × Command → Option View
run_one srv (w, out) cmd = dispatch srv w cmd >>= extend out

-- A command served alone, by the action of the transaction state.
abbrev pub take_action : Server → Arrival → Command → TxAction → View → Option View
take_action srv a cmd passthrough v = run_one srv v (a.moments 0, cmd)
take_action srv a cmd (reply r) (w, out) = some (w, out ++ r)
take_action srv a cmd (exec batch) (w, out) =
    serve srv w (record {
      cmd = (a.moments 0, no_command);
      batch = at_moments a.moments 0 batch;
      pipeline = [];
    })
    >>= extend out

-- The reference: each command is handled, served and answered before the next one is looked at.
unfoldable pub one_by_one :
    Server → List (Arrival × Command) → TxState → View → Option (TxState × View)
one_by_one srv [] tx v = some (tx, v)
one_by_one srv ((a, cmd) ∷ rest) tx v = do
  (tx', action) ← handle srv tx cmd
  v' ← take_action srv a cmd action v
  one_by_one srv rest tx' v'

abbrev pub arrivals : List (Arrival × Command) → List Arrival
arrivals [] = []
arrivals ((a, cmd) ∷ rest) = a ∷ arrivals rest

unfoldable pub run_each : Server → List (Moment × Command) → View → Option View
run_each srv [] v = some v
run_each srv (c ∷ cs) v = run_one srv v c >>= run_each srv cs

abbrev pub gathered : Pipeline → List (Moment × Command)
gathered none = []
gathered (some (first, rest)) = first ∷ rest

pub bind_assoc {ℓ κ ν} :
    {A : Type ℓ} {B : Type κ} {C : Type ν} (o : Option A) (f : A → Option B) (g : B → Option C)
    → ((o >>= f) >>= g) ≡ (o >>= λ a. f a >>= g)
bind_assoc none f g = refl
bind_assoc (some a) f g = refl

pub bind_ext {ℓ κ} :
    {A : Type ℓ} {B : Type κ} (o : Option A) (f g : A → Option B)
    → ((a : A) → f a ≡ g a)
    → (o >>= f) ≡ (o >>= g)
bind_ext none f g same = refl
bind_ext (some a) f g same = same a

pub bind_none {ℓ κ} : {A : Type ℓ} {B : Type κ} (o : Option A) → ◌>>=◌ {B = B} o (λ a. none) ≡ none
bind_none none = refl
bind_none (some a) = refl

run_each-pipeline_loop :
    (srv : Server) (cs : List (Moment × Command)) (w : World) (out : Bytes)
    → run_each srv cs (w, out) ≡ pipeline_loop srv w cs out
unfolding run_each pipeline_loop
run_each-pipeline_loop srv [] w out = refl
run_each-pipeline_loop srv (c ∷ cs) w out =
    bind_assoc (dispatch srv w c) (extend out) (run_each srv cs)
    ∙ bind_ext (dispatch srv w c) (λ r. run_each srv cs (r.0, out ++ r.1))
        (λ r. pipeline_loop srv r.0 cs (out ++ r.1))
        (λ r. run_each-pipeline_loop srv cs r.0 (out ++ r.1))

pub run_each-append :
    (srv : Server) (xs : List (Moment × Command)) (x : Moment × Command) (v : View)
    → run_each srv (xs ++ (x ∷ [])) v ≡ (run_each srv xs v >>= λ v'. run_one srv v' x)
unfolding run_each
run_each-append srv [] x v = by_result (run_one srv v x)
  where
    by_result : (o : Option View) → (o >>= λ v'. some v') ≡ o
    by_result none = refl
    by_result (some v') = refl
run_each-append srv (y ∷ ys) x v =
    bind_ext (run_one srv v y) (run_each srv (ys ++ (x ∷ [])))
      (λ v'. run_each srv ys v' >>= λ v''. run_one srv v'' x) (λ v'. run_each-append srv ys x v')
    ∙ sym (bind_assoc (run_one srv v y) (run_each srv ys) (λ v''. run_one srv v'' x))

-- What goes on after a step looks at the view alone.
abbrev pub Next : Type 0
Next = TxState → View → Option (TxState × View)

abbrev pub then_next : Next → Connection → Option (TxState × View)
then_next k c = k c.tx (view c)

pub send_pipeline-view :
    (srv : Server) (k : Next) (c : Connection) (first : Moment × Command)
    (rest : List (Moment × Command))
    → (send_pipeline srv c first rest >>= then_next k)
      ≡ (run_each srv (first ∷ rest) (view c) >>= k c.tx)
send_pipeline-view srv k c first rest =
    ap (λ (o : Option Connection). o >>= then_next k) (send_pipeline-each srv c first rest)
    ∙ by_replies (dispatch_each srv c.world (first ∷ rest))
    ∙ ap (λ (o : Option View). o >>= k c.tx)
        (sym (
          run_each-pipeline_loop srv (first ∷ rest) c.world (output c)
          ∙ pipeline_loop-joined srv (first ∷ rest) c.world (output c)))
  where
    by_replies :
        (o : Option (World × List Bytes))
        → ((o >>= all_written c) >>= then_next k) ≡ ((o >>= joined (output c)) >>= k c.tx)
    by_replies none = refl
    by_replies (some (w, rs)) =
        ap (λ (t : Bytes). k c.tx (w, t)) (sym (append_assoc c.sent c.pending (concat rs)))

pub send_gathered-view :
    (srv : Server) (k : Next) (c : Connection) (p : Pipeline)
    → (send_gathered srv c p >>= then_next k) ≡ (run_each srv (gathered p) (view c) >>= k c.tx)
send_gathered-view srv k c none = unfold run_each in refl
send_gathered-view srv k c (some (first, rest)) = send_pipeline-view srv k c first rest

pub end_of_round-view :
    (k : Next) (more : Bool) (c : Connection) → then_next k (end_of_round more c) ≡ then_next k c
end_of_round-view k true c = refl
end_of_round-view k false c =
    ap (λ (t : Bytes). k c.tx (c.world, t)) (append-nil (c.sent ++ c.pending))

pub handle_reply-view :
    (srv : Server) (k : Next) (c : Connection) (a : Arrival) (cmd : Command) (r : Bytes)
    → (handle_action srv c a.moments (reply r) >>= then_next k)
      ≡ (take_action srv a cmd (reply r) (view c) >>= k c.tx)
unfolding handle_action
handle_reply-view srv k c a cmd r =
    ap (λ (t : Bytes). k c.tx (c.world, t)) (sym (append_assoc c.sent c.pending r))

pub handle_exec-view :
    (srv : Server) (k : Next) (c : Connection) (a : Arrival) (cmd : Command) (batch : List Command)
    → (handle_action srv c a.moments (exec batch) >>= then_next k)
      ≡ (take_action srv a cmd (exec batch) (view c) >>= k c.tx)
unfolding handle_action
handle_exec-view srv k c a cmd batch = by_reply (
    serve srv c.world (record {
      cmd = (a.moments 0, no_command);
      batch = at_moments a.moments 0 batch;
      pipeline = [];
    }))
  where
    by_reply :
        (o : Option (World × Bytes))
        → ((o >>= answer c) >>= then_next k) ≡ ((o >>= extend (output c)) >>= k c.tx)
    by_reply none = refl
    by_reply (some (w, r)) =
        ap (λ (t : Bytes). k c.tx (w, t)) (sym (append_assoc c.sent c.pending r))
