-- ===== src/Server/Stream/Answers.antt =====
-- server/tcp_server.go: a client of a server with the whole table gets a reply to each plain command.
use learning_redis.Common.{
  ℕ, suc, ◌+◌, ◌-◌, ◌≤◌, ◌≡◌, ◌≢◌, refl, sym, ap, subst, ◌∙◌, arith, List, [], ◌∷◌, ◌++◌,
  append_assoc, append-nil, Bytes, Bool, true, false, Option, none, some, ◌>>=◌, leb, Bool-cases,
  inl, inr, length, length-append, All, codes,
}
use learning_redis.Hll.Sketch.Histogram.{Float, estimate}
use learning_redis.Hll.Sketch.Counting.{empty_histo}
use learning_redis.Core.Encode.{encode_array, concat}
use learning_redis.Core.Decode.Written.{ArgsFit}
use learning_redis.Core.Aof.Recovered.{take-all}
use learning_redis.Store.Keys.Accounts.{WellFormed}
use learning_redis.Store.Eviction.Frees.{Yields}
use learning_redis.Commands.Command.{Command, ParseError}
use learning_redis.Commands.Command.Wire.{command_line}
use learning_redis.Commands.Route.Safe.{IsBytes}
use learning_redis.Commands.Registry.{Moment, Server, World, dispatch, dispatch_each}
use learning_redis.Commands.Table.Dispatch.{Started, Servable, dispatch_each-answers}
use learning_redis.Server.Transaction.{TxState, passthrough, handle}
use learning_redis.Server.Transaction.Queue.{IsPlain}
use learning_redis.Server.Connection.{Arrival, Connection}
use learning_redis.Server.Connection.Replies.{output}
use learning_redis.Server.Connection.View.{View, view, one_by_one}
use learning_redis.Server.Connection.Order.{seen_as}
use learning_redis.Server.Stream.{Timing, handle_stream}
use learning_redis.Server.Stream.Served.{wire, capitals, received, handle_stream-one_by_one}

-- The commands with the moments at which they run.
abbrev pub timed : List (Arrival × Command) → List (Moment × Command)
timed [] = []
timed ((a, cmd) ∷ rest) = (a.moments 0, cmd) ∷ timed rest

handle-IsPlain :
    (srv : Server) (tx : TxState) (cmd : Command)
    → tx.is_multi ≡ false
    → IsPlain cmd
    → handle srv tx cmd ≡ some (tx, passthrough)
unfolding handle
handle-IsPlain srv tx cmd idle (m, d, e) = rw (m, d, e) (rw idle refl)

-- What a command and those after it leave, if they are dispatched without a panic.
abbrev Answered : TxState → Bytes → Option (World × List Bytes) → Option (TxState × View) → Type 0
Answered tx out none o = Unit
Answered tx out (some (w, replies)) o = o ≡ some (tx, (w, out ++ concat replies))

one_by_one-IsPlain :
    (srv : Server) (xs : List (Arrival × Command)) (tx : TxState) (w : World) (out : Bytes)
    → tx.is_multi ≡ false
    → All (λ x. IsPlain x.1) xs
    → Answered tx out (dispatch_each srv w (timed xs)) (one_by_one srv xs tx (w, out))
unfolding one_by_one dispatch_each concat
one_by_one-IsPlain srv [] tx w out idle plain =
    ap (λ (t : Bytes). some (tx, (w, t))) (sym (append-nil out))
one_by_one-IsPlain srv ((a, cmd) ∷ xs) tx w out idle (is_plain, plain) =
    rw (handle-IsPlain srv tx cmd idle is_plain) (
      by_head (dispatch srv w (a.moments 0, cmd))
        (λ w' out'. one_by_one-IsPlain srv xs tx w' out' idle plain))
  where
    by_tail :
        (reply : Bytes) (d : Option (World × List Bytes)) (o : Option (TxState × View))
        → Answered tx (out ++ reply) d o
        → Answered tx out (d >>= λ x. some (x.0, reply ∷ x.1)) o
    by_tail reply none o h = tt
    by_tail reply (some (w'', replies)) o h =
        h ∙ ap (λ (t : Bytes). some (tx, (w'', t))) (append_assoc out reply (concat replies))

    by_head :
        (o : Option (World × Bytes))
        → ((w' : World) (out' : Bytes)
            → Answered tx out' (dispatch_each srv w' (timed xs)) (one_by_one srv xs tx (w', out')))
        → Answered tx out
            (o >>= λ r. dispatch_each srv r.0 (timed xs) >>= λ x. some (x.0, r.1 ∷ x.1))
            ((o >>= λ r. some (r.0, out ++ r.1)) >>= one_by_one srv xs tx)
    by_head none ih = tt
    by_head (some (w', reply)) ih =
        by_tail reply (dispatch_each srv w' (timed xs)) (one_by_one srv xs tx (w', out ++ reply))
          (ih w' (out ++ reply))

seen-Connection :
    (o : Option Connection) (tx : TxState) (v : View)
    → (o >>= seen_as) ≡ some (tx, v)
    → (c' : Connection) × (o ≡ some c') × (c'.tx ≡ tx) × (view c' ≡ v)
seen-Connection none tx v h = ground (arith, h)
seen-Connection (some c') tx v h = (c', refl, ground (arith, h), ground (arith, h))

-- The commands as they are dispatched: each with its name in capitals, at the moment of its request.
abbrev pub scheduled : Timing → ℕ → List Command → List (Moment × Command)
scheduled t i [] = []
scheduled t i (cmd ∷ cmds) = (t.moments i 0, capitals cmd) ∷ scheduled t (i + 1) cmds

received-scheduled :
    (t : Timing) (i n : ℕ) (cmds : List Command)
    → length (wire cmds) ≤ n
    → timed (received t i n cmds) ≡ scheduled t i cmds
received-scheduled t i n [] le = refl
received-scheduled t i n (cmd ∷ cmds) le =
    let line = encode_array (command_line cmd) in
    let size = length-append line (wire cmds) in
    let holds : leb (length line) n ≡ true = ground (arith, size, le) in
    rw holds (
      ap (◌∷◌ (t.moments i 0, capitals cmd))
        (received-scheduled t (i + 1) (n - length line) cmds (omega (arith, size, le))))

length-scheduled :
    (t : Timing) (i : ℕ) (cmds : List Command) → length (scheduled t i cmds) ≡ length cmds
length-scheduled t i [] = refl
length-scheduled t i (cmd ∷ cmds) = ap suc (length-scheduled t (i + 1) cmds)

-- A command that does not control a transaction, is not APPEND, and has bytes for its arguments.
abbrev pub PlainRequest : Command → Type 0
PlainRequest cmd =
    IsPlain (capitals cmd) × ((capitals cmd).name ≢ codes "APPEND") × All IsBytes cmd.args

received-IsPlain :
    (t : Timing) (i n : ℕ) (cmds : List Command)
    → All PlainRequest cmds
    → All (λ x. IsPlain x.1) (received t i n cmds)
received-IsPlain t i n [] h = tt
received-IsPlain t i n (cmd ∷ cmds) ((is_plain, other, bytes), h) =
    let size = length (encode_array (command_line cmd)) in
    elim (Bool-cases (leb size n)) [
      | inl holds ↦ rw holds (is_plain, received-IsPlain t (i + 1) (n - size) cmds h)
      | inr cut ↦ rw cut tt
    ]

-- The order of the maps at every request.
abbrev pub AllYield : Timing → Type 0
AllYield t = (i : ℕ) → Yields (t.moments i 0).order

module _ (fl : Float) (empty : estimate fl empty_histo ≡ 0) where
  received-Servable :
      (t : Timing) (i n : ℕ) (cmds : List Command)
      → AllYield t
      → All PlainRequest cmds
      → All (Servable fl empty) (timed (received t i n cmds))
  received-Servable t i n [] yields h = tt
  received-Servable t i n (cmd ∷ cmds) yields ((is_plain, other, bytes), h) =
      let size = length (encode_array (command_line cmd)) in
      elim (Bool-cases (leb size n)) [
        | inl holds ↦
            rw holds
              ((yields i, other, bytes), received-Servable t (i + 1) (n - size) cmds yields h)
        | inr cut ↦ rw cut tt
      ]

  -- For a float arithmetic in which the estimate of the empty histogram is 0, a server that
  -- started with the whole table and a layout that is ready, a well-formed store, and maps that
  -- yield keys of their own and one at least unless empty: a client that no MULTI is open for
  -- sends the bytes of encoded commands that control no transaction, are not APPEND, have bytes
  -- for their arguments and lengths that fit the memory. However they are buffered, the
  -- connection does not panic; the commands, with their names in capitals, are dispatched one by
  -- one in order, each at the moment of its request; their replies, one for each, are written
  -- back to back behind what was written before; data and file are those that they leave, the
  -- store stays well formed, and the transaction state is as before.
  pub handle_stream-answers :
      (error_text : ParseError → Bytes) (enabled : Bool) (srv : Server) (t : Timing)
      (cmds : List Command) (c : Connection)
      → Started fl enabled srv
      → WellFormed fl c.world.store
      → c.tx.is_multi ≡ false
      → AllYield t
      → All PlainRequest cmds
      → All (λ cmd. ArgsFit (command_line cmd)) cmds
      → (c' : Connection) × (replies : List Bytes) × (handle_stream error_text srv t c (wire cmds)
          ≡ some c')
        × (dispatch_each srv c.world (scheduled t 0 cmds) ≡ some (c'.world, replies))
        × (output c' ≡ output c ++ concat replies)
        × (length replies ≡ length cmds)
        × WellFormed fl c'.world.store
        × (c'.tx ≡ c.tx)
  handle_stream-answers error_text enabled srv t cmds c started wf idle yields plain fits =
      let n = length (wire cmds) in
      let xs = received t 0 n cmds in
      let (w', replies, run, count, wf') =
        dispatch_each-answers fl empty enabled srv (timed xs) c.world started wf
          (received-Servable t 0 n cmds yields plain) in
      let each : Answered c.tx (output c) (some (w', replies)) (one_by_one srv xs c.tx (view c)) =
        subst
          (λ (d : Option (World × List Bytes)).
            Answered c.tx (output c) d (one_by_one srv xs c.tx (view c)))
          run
          (one_by_one-IsPlain srv xs c.tx c.world (output c) idle
            (received-IsPlain t 0 n cmds plain)) in
      let whole : (handle_stream error_text srv t c (wire cmds) >>= seen_as)
          ≡ some (c.tx, (w', output c ++ concat replies)) =
        ap (λ (s : Bytes). handle_stream error_text srv t c s >>= seen_as)
          (sym (take-all (wire cmds)))
        ∙ handle_stream-one_by_one error_text srv t cmds n c fits
        ∙ each in
      let (c', is, tx, seen) =
        seen-Connection (handle_stream error_text srv t c (wire cmds)) c.tx
          (w', output c ++ concat replies) whole in
      let left : c'.world ≡ w' = ap (λ (v : View). v.0) seen in
      let plan = received-scheduled t 0 n cmds (omega arith) in
      (
        c',
        replies,
        is,
        ap (dispatch_each srv c.world) (sym plan)
            ∙ run
            ∙ ap (λ (w : World). some (w, replies)) (sym left),
        ap (λ (v : View). v.1) seen,
        count ∙ ap length plan ∙ length-scheduled t 0 cmds,
        subst (λ (w : World). WellFormed fl w.store) (sym left) wf',
        tx,
      )
