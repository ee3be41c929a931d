-- ===== src/Server/Startup/Restart.antt =====
-- server/tcp_server.go: a server that starts again with its append-only file, at a later time.
use learning_redis.Common.{
  ℕ, ◌+◌, ◌≡◌, refl, sym, ap, ◌∙◌, subst, arith, List, [], ◌∷◌, Bytes, Bool, true, false, ◌&&◌,
  Option, none, some, ◌>>=◌, All, Bool-cases, inl, inr,
}
use learning_redis.Common.Int.{pos, ltb_ℤ}
use learning_redis.Core.Encode.{encode_error}
use learning_redis.Hll.Sketch.Histogram.{Float}
use learning_redis.Store.Keys.{Store, Data}
use learning_redis.Store.Contents.{Contents, contents, Lasts}
use learning_redis.Store.Contents.Writes.{Stands, Reaches}
use learning_redis.Commands.Command.{Command, find, to_upper}
use learning_redis.Commands.Route.{check_cluster}
use learning_redis.Commands.Route.Frames.{check_cluster-Begins}
use learning_redis.Commands.Registry.{
  Moment, HandlerFunc, Server, World, is_error_reply, is_one_of, write_commands, make_room,
  log_write, deny_oom_commands, run_unless_full, run_unless_refused, replay, dispatch,
  dispatch_each,
}
use learning_redis.Commands.Registry.Logs.{logged_of, WritesAll, LogFits, dispatch_each-recover}
use learning_redis.Commands.Table.{handler_table}
use learning_redis.Commands.Handlers.Lasting.{
  Lasting, handler_of, effect, find-Lasting, Lasting-writes, handler-Reaches, KeepsOnError,
  effect-KeepsOnError,
}
use learning_redis.Server.Connection.{at_moments}
use learning_redis.Server.Startup.{replay_aof_command, replay_each, run_start}

-- No limit on the memory.
abbrev pub Unlimited : Server → Type 0
Unlimited srv = ltb_ℤ (pos 0) srv.max_memory ≡ false

abbrev unlogged : Store → World
unlogged s = record { store = s; aof = none }

and_false : (b : Bool) → (b && false) ≡ false
and_false true = refl
and_false false = refl

make_room-Unlimited :
    (srv : Server) (m : Moment) (name : Bytes) (s : Store)
    → Unlimited srv
    → make_room srv m name s ≡ some (s, false)
unfolding make_room
make_room-Unlimited srv m name s free = rw (free, and_false (is_one_of name deny_oom_commands)) refl

-- What is left of a command: no time to live, and its effect on the contents or, with an error, none.
abbrev Done : {cmd : Command} → Lasting cmd → Data → Option (World × Bytes) → Type 0
Done l d none = Unit
Done l d (some (w', reply)) =
    Lasts w'.store.data_of
    × (is_error_reply reply ≡ false
        → effect l (contents d) ≡ some (contents w'.store.data_of, reply))
    × (is_error_reply reply ≡ true → contents w'.store.data_of ≡ contents d)

abbrev pub HasTable : Float → Bool → Server → Type 0
HasTable fl enabled srv = srv.handlers ≡ handler_table fl enabled srv.layout

module _ (fl : Float) (enabled : Bool) (srv : Server) (table : HasTable fl enabled srv)
    (free : Unlimited srv) where
  known : (cmd : Command) (l : Lasting cmd) → find cmd.name srv.handlers ≡ some (handler_of l)
  known cmd l =
      ap (λ (t : List (Bytes × HandlerFunc)). find cmd.name t) table
      ∙ find-Lasting fl enabled srv.layout cmd l

  handler-Done :
      (m : Moment) (cmd : Command) (l : Lasting cmd) (w : World)
      → Lasts w.store.data_of
      → Done l w.store.data_of (run_unless_full m cmd (handler_of l) w.aof (w.store, false))
  handler-Done m cmd l w h =
      by_result (handler_of l m cmd.args w.store) (effect l (contents w.store.data_of))
        (handler-Reaches cmd l m w.store h) refl
        (effect-KeepsOnError cmd l (contents w.store.data_of))
    where
      by_result :
          (o : Option (Store × Bytes)) (x : Option (Contents × Bytes))
          → Reaches o x
          → effect l (contents w.store.data_of) ≡ x
          → KeepsOnError (contents w.store.data_of) x
          → Done l w.store.data_of
              (o >>= λ r. some (record { store = r.0; aof = log_write m cmd r.1 w.aof }, r.1))
      by_result none x r is keeps = tt
      by_result (some a) none r is keeps = absurd r
      by_result (some (s', reply)) (some (cs, reply')) ((same, lasts), eq) is keeps = (
        lasts,
        λ fine.
            is
            ∙ ap (λ (t : Contents). some (t, reply')) (sym same)
            ∙ ap (λ (t : Bytes). some (contents s'.data_of, t)) (sym eq),
        λ error. same ∙ keeps (ap is_error_reply (sym eq) ∙ error),
      )

  dispatch-Done :
      (m : Moment) (cmd : Command) (l : Lasting cmd) (w : World)
      → Lasts w.store.data_of
      → Done l w.store.data_of (dispatch srv w (m, cmd))
  unfolding dispatch encode_error is_error_reply
  dispatch-Done m cmd l w h = rw (known cmd l) (by_check (check_cluster srv.layout cmd) refl)
    where
      by_check :
          (o : Option (Option Bytes))
          → check_cluster srv.layout cmd ≡ o
          → Done l w.store.data_of (o >>= run_unless_refused srv m w cmd (handler_of l))
      by_check none e = tt
      by_check (some none) e =
          rw (make_room-Unlimited srv m cmd.name w.store free) (handler-Done m cmd l w h)
      by_check (some (some reply)) e =
          let (text, is) = check_cluster-Begins srv.layout cmd reply e in
          let error : is_error_reply reply ≡ true = rw is refl in
          (h, λ fine. ground (arith, sym error ∙ fine), λ same. refl)

  -- The replay of a command that was answered without an error, at any moment.
  replay-effect :
      (m : Moment) (cmd : Command) (l : Lasting cmd) (s : Store) (cs : Contents) (reply : Bytes)
      → Lasts s.data_of
      → effect l (contents s.data_of) ≡ some (cs, reply)
      → (s' : Store) × (replay srv (unlogged s) (m, cmd) ≡ some (unlogged s')) × Stands s' cs
  unfolding replay
  replay-effect m cmd l s cs reply h does =
      let (s', run, stands) =
        by_result (handler_of l m cmd.args s) refl
          (subst (Reaches (handler_of l m cmd.args s)) does (handler-Reaches cmd l m s h)) in
      (s', rw (known cmd l, run) refl, stands)
    where
      by_result :
          (o : Option (Store × Bytes))
          → handler_of l m cmd.args s ≡ o
          → Reaches o (some (cs, reply))
          → (s' : Store) × ((handler_of l m cmd.args s >>= λ r. some (unlogged r.0))
              ≡ some (unlogged s'))
            × Stands s' cs
      by_result none e r = absurd r
      by_result (some (s', reply')) e (stands, same) = (s', rw e refl, stands)

  abbrev Restored :
      (ℕ → Moment)
      → (ℕ → Moment)
      → ℕ
      → ℕ
      → List Command
      → Store
      → Option (World × List Bytes)
      → Type 0
  Restored moments later i j cmds s none = Unit
  Restored moments later i j cmds s (some (w', replies)) =
      (s' : Store) × (replay_each srv later j (unlogged s)
          (logged_of (at_moments moments i cmds) replies)
        ≡ some (unlogged s'))
      × (contents s'.data_of ≡ contents w'.store.data_of)

  replays-Restored :
      (moments later : ℕ → Moment) (i j : ℕ) (cmds : List Command) (w : World) (s : Store)
      → All Lasting cmds
      → Lasts w.store.data_of
      → Stands s (contents w.store.data_of)
      → Restored moments later i j cmds s (dispatch_each srv w (at_moments moments i cmds))
  unfolding dispatch_each replay_each replay_aof_command
  replays-Restored moments later i j [] w s l h (same, lasts) = (s, refl, same)
  replays-Restored moments later i j (cmd ∷ cmds) w s (l, ls) h (same, lasts) =
      by_head (dispatch srv w (moments i, cmd)) (dispatch-Done (moments i) cmd l w h)
        (λ j' w' s'. replays-Restored moments later (i + 1) j' cmds w' s' ls)
    where
      writes : is_one_of cmd.name write_commands ≡ true
      writes = (Lasting-writes cmd l).0

      capitals : to_upper cmd.name ≡ cmd.name
      capitals = (Lasting-writes cmd l).1

      by_tail_error :
          (reply : Bytes) (o : Option (World × List Bytes))
          → is_error_reply reply ≡ true
          → Restored moments later (i + 1) j cmds s o
          → Restored moments later i j (cmd ∷ cmds) s (o >>= λ x. some (x.0, reply ∷ x.1))
      by_tail_error reply none error rest = tt
      by_tail_error reply (some (w', replies)) error (s', run, alike) =
          (s', rw (writes, error) run, alike)

      by_tail :
          (reply : Bytes) (s1 : Store) (o : Option (World × List Bytes))
          → is_error_reply reply ≡ false
          → replay srv (unlogged s) (later j, cmd) ≡ some (unlogged s1)
          → Restored moments later (i + 1) (j + 1) cmds s1 o
          → Restored moments later i j (cmd ∷ cmds) s (o >>= λ x. some (x.0, reply ∷ x.1))
      by_tail reply s1 none fine first rest = tt
      by_tail reply s1 (some (w', replies)) fine first (s', run, alike) =
          (s', rw (writes, fine) (rw (capitals, first) run), alike)

      by_head :
          (o : Option (World × Bytes))
          → Done l w.store.data_of o
          → ((j' : ℕ) (w' : World) (s' : Store)
              → Lasts w'.store.data_of
              → Stands s' (contents w'.store.data_of)
              → Restored moments later
                  (i + 1)
                  j'
                  cmds
                  s'
                  (dispatch_each srv w' (at_moments moments (i + 1) cmds)))
          → Restored moments later i j (cmd ∷ cmds) s (
              o >>= λ r. dispatch_each srv r.0 (at_moments moments (i + 1) cmds) >>= λ x.
              some (x.0, r.1 ∷ x.1))
      by_head none done ih = tt
      by_head (some (w', reply)) (h', does, keeps) ih = elim (Bool-cases (is_error_reply reply)) [
        | inl error ↦
            by_tail_error reply (dispatch_each srv w' (at_moments moments (i + 1) cmds)) error
              (ih j w' s h' (same ∙ sym (keeps error), lasts))
        | inr fine ↦
            let (s1, first, stands) =
              replay-effect (later j) cmd l s (contents w'.store.data_of) reply lasts
                (ap (effect l) same ∙ does fine) in
            by_tail reply s1 (dispatch_each srv w' (at_moments moments (i + 1) cmds)) fine first
              (ih (j + 1) w' s1 h' stands)
      ]

  -- On a server with the whole table, without a limit on the memory: SET without an option,
  -- APPEND, INCR, DEL, PFADD and PFMERGE, with their arguments and lengths that fit the memory,
  -- are dispatched in any order onto an empty store and an empty file whose writes are complete,
  -- and none panics. A server that starts at any later or earlier moments with an empty store
  -- and that file does not panic, keeps the file, and holds the same keys with the same
  -- encodings, numbers, texts and sketches, also where some commands were answered with an
  -- error.
  pub run_start-restores :
      (moments later : ℕ → Moment) (cmds : List Command) (w w' : World) (replies : List Bytes)
      (s : Store)
      → w.aof ≡ some []
      → w.store.data_of ≡ []
      → s.data_of ≡ []
      → All Lasting cmds
      → All WritesAll (at_moments moments 0 cmds)
      → All LogFits (at_moments moments 0 cmds)
      → dispatch_each srv w (at_moments moments 0 cmds) ≡ some (w', replies)
      → (s' : Store) × (run_start srv later s w'.aof ≡ some (record { store = s'; aof = w'.aof }))
        × (contents s'.data_of ≡ contents w'.store.data_of)
  unfolding run_start
  run_start-restores moments later cmds w w' replies s is empty bare lasting takes fits run =
      let (file, at, recovered) =
        dispatch_each-recover srv (at_moments moments 0 cmds) w w' replies is takes fits run in
      let none_lasts : Lasts w.store.data_of = subst Lasts (sym empty) tt in
      let stands : Stands s (contents w.store.data_of) =
        (ap contents (bare ∙ sym empty), subst Lasts (sym bare) tt) in
      let (s', runs, alike) =
        subst (Restored moments later 0 0 cmds s) run
          (replays-Restored moments later 0 0 cmds w s lasting none_lasts stands) in
      (s', rw at (rw (recovered, runs) refl), alike)
