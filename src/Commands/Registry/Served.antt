-- ===== src/Commands/Registry/Served.antt =====
-- commands/registry.go: a command that is dispatched is answered, and the data stay well formed.
use learning_redis.Common.{
  ◌≡◌, ◌⊎◌, refl, arith, List, [], ◌∷◌, ◌++◌, Bytes, Bool, true, false, not, ◌&&◌, Option, none,
  some, Bool-cases, inl, inr, All, All-append, codes,
}
use learning_redis.Common.Int.{pos, ltb_ℤ}
use learning_redis.Hll.Sketch.Histogram.{Float}
use learning_redis.Store.Keys.{Store}
use learning_redis.Store.Keys.Accounts.{WellFormed}
use learning_redis.Store.Eviction.{over_memory}
use learning_redis.Store.Eviction.Frees.{Yields, perform_evictions-ends}
use learning_redis.Commands.Command.{Command, find}
use learning_redis.Core.Decode.Written.{NotNewline}
use learning_redis.Core.Frame.{Plain, is_plain, is_plain-Plain, Frame, failure}
use learning_redis.Commands.Route.Frames.{PlainAddrs, check_cluster-Frame}
use learning_redis.Commands.Route.{check_cluster}
use learning_redis.Commands.Route.Safe.{OwnersExist, IsBytes, check_cluster-some}
use learning_redis.Commands.Registry.{
  Moment, HandlerFunc, Server, World, is_error_reply, is_one_of, write_commands, deny_oom_commands,
  evict_for, make_room, max_bytes_of, log_to, log_write, oom_error, unknown_command,
  run_unless_full, run_unless_refused, dispatch_to, dispatch,
}

oom_error-Frame : Frame oom_error
oom_error-Frame =
    failure (codes "OOM command not allowed when used memory > 'maxmemory'.")
      (is_plain-Plain (codes "OOM command not allowed when used memory > 'maxmemory'.") refl)

-- An error with a quoted text.
pub quoted-Plain :
    (before text after : Bytes)
    → is_plain before ≡ true
    → Plain text
    → is_plain after ≡ true
    → Plain (before ++ (text ++ after))
quoted-Plain before text after b h a =
    All-append NotNewline before (text ++ after) (is_plain-Plain before b)
      (All-append NotNewline text after h (is_plain-Plain after a))

unknown_command-Frame : (name : Bytes) → Plain name → Frame (unknown_command name)
unknown_command-Frame name h =
    failure (codes "ERR unknown command '" ++ (name ++ codes "'"))
      (quoted-Plain (codes "ERR unknown command '") name (codes "'") refl h refl)

module _ (fl : Float) where
  -- A handler that does not panic on a well-formed store and keeps it so; its reply to arguments that are
  -- lines is a RESP value.
  abbrev pub Preserves : HandlerFunc → Type 0
  Preserves f =
      (m : Moment) (args : List Bytes) (s : Store)
      → WellFormed fl s
      → All IsBytes args
      → (s' : Store) × (reply : Bytes) × (f m args s ≡ some (s', reply))
        × WellFormed fl s'
        × (All Plain args → Frame reply)

  -- What a command may do to the append-only file: nothing, or, with a reply that is no error, append.
  abbrev pub Logged : Moment → Command → Option Bytes → World × Bytes → Type 0
  Logged m cmd before r =
      (r.0.aof ≡ before) ⊎ ((is_error_reply r.1 ≡ false) × (r.0.aof ≡ log_to m cmd before))

  abbrev pub RunsWell : Moment → Command → Option Bytes → Option (World × Bytes) → Type 0
  RunsWell m cmd before o =
      (w' : World) × (reply : Bytes) × (o ≡ some (w', reply))
      × WellFormed fl w'.store
      × Logged m cmd before (w', reply)
      × (Plain cmd.name → All Plain cmd.args → Frame reply)

  log_write-Logged :
      (m : Moment) (cmd : Command) (reply : Bytes) (before : Option Bytes) (s : Store)
      → Logged m cmd before (record { store = s; aof = log_write m cmd reply before }, reply)
  unfolding log_write
  log_write-Logged m cmd reply before s =
      elim (Bool-cases (is_one_of cmd.name write_commands && not (is_error_reply reply))) [
        | inl logs ↦
            inr (
              and_not (is_one_of cmd.name write_commands) (is_error_reply reply) logs,
              rw logs refl,
            )
        | inr skips ↦ inl (rw skips refl)
      ]
    where
      and_not : (a b : Bool) → (a && not b) ≡ true → b ≡ false
      and_not true true h = ground (arith, h)
      and_not true false h = refl
      and_not false b h = ground (arith, h)

  evict_for-WellFormed :
      (srv : Server) (m : Moment) (s : Store)
      → WellFormed fl s
      → Yields m.order
      → (s' : Store) × (evict_for srv m s ≡ some s') × WellFormed fl s'
  unfolding evict_for
  evict_for-WellFormed srv m s w yields =
      let evicts =
        is_one_of srv.max_memory_policy
          (codes "allkeys-lru" ∷ codes "allkeys-lfu" ∷ codes "volatile-lfu" ∷ []) in
      elim (Bool-cases evicts) [
        | inl by_policy ↦
            let (s', run, w', ended) =
              perform_evictions-ends fl m.env m.order srv.max_memory_samples
                (max_bytes_of srv.max_memory) s w yields in
            (s', rw by_policy run, w')
        | inr kept ↦ (s, rw kept refl, w)
      ]

  make_room-WellFormed :
      (srv : Server) (m : Moment) (name : Bytes) (s : Store)
      → WellFormed fl s
      → Yields m.order
      → (s' : Store) × (full : Bool) × (make_room srv m name s ≡ some (s', full)) × WellFormed fl s'
  unfolding make_room
  make_room-WellFormed srv m name s w yields =
      let (s', run, w') = evict_for-WellFormed srv m s w yields in
      let limits = is_one_of name deny_oom_commands && ltb_ℤ (pos 0) srv.max_memory in
      elim (Bool-cases limits) [
        | inr free ↦ (s, false, rw free refl, w)
        | inl limited ↦
            (s', over_memory s' (max_bytes_of srv.max_memory), rw limited (rw run refl), w')
      ]

  run_unless_full-RunsWell :
      (m : Moment) (cmd : Command) (f : HandlerFunc) (before : Option Bytes) (s : Store)
      (full : Bool)
      → Preserves f
      → WellFormed fl s
      → All IsBytes cmd.args
      → RunsWell m cmd before (run_unless_full m cmd f before (s, full))
  run_unless_full-RunsWell m cmd f before s true keeps w bytes = (
    record { store = s; aof = before },
    oom_error,
    refl,
    w,
    inl refl,
    λ name args. oom_error-Frame,
  )
  run_unless_full-RunsWell m cmd f before s false keeps w bytes =
      let (s', reply, run, w', frame) = keeps m cmd.args s w bytes in
      (
        record { store = s'; aof = log_write m cmd reply before },
        reply,
        rw run refl,
        w',
        log_write-Logged m cmd reply before s',
        λ name args. frame args,
      )

  -- `Dispatch` does not panic on bytes if the handler of the command does not.
  pub dispatch-RunsWell :
      (srv : Server) (w : World) (m : Moment) (cmd : Command)
      → WellFormed fl w.store
      → ((f : HandlerFunc) → find cmd.name srv.handlers ≡ some f → Preserves f)
      → Yields m.order
      → OwnersExist srv.layout
      → PlainAddrs srv.layout
      → All IsBytes cmd.args
      → RunsWell m cmd w.aof (dispatch srv w (m, cmd))
  unfolding dispatch
  dispatch-RunsWell srv w m cmd wf keeps yields exist plain bytes =
      by_handler (find cmd.name srv.handlers) refl
    where
      by_check :
          (f : HandlerFunc) (err : Option Bytes)
          → check_cluster srv.layout cmd ≡ some err
          → Preserves f
          → RunsWell m cmd w.aof (run_unless_refused srv m w cmd f err)
      by_check f (some e) checks keep =
          (w, e, refl, wf, inl refl, λ name args. check_cluster-Frame srv.layout cmd e plain checks)
      by_check f none checks keep =
          let (s', full, run, wf') = make_room-WellFormed srv m cmd.name w.store wf yields in
          rw run (run_unless_full-RunsWell m cmd f w.aof s' full keep wf' bytes)

      by_handler :
          (o : Option HandlerFunc)
          → find cmd.name srv.handlers ≡ o
          → RunsWell m cmd w.aof (dispatch_to srv m w cmd o)
      by_handler none found = (
        w,
        unknown_command cmd.name,
        refl,
        wf,
        inl refl,
        λ name args. unknown_command-Frame cmd.name name,
      )
      by_handler (some f) found =
          let (err, checks) = check_cluster-some srv.layout cmd exist bytes in
          rw checks (by_check f err checks (keeps f found))
