-- ===== src/Commands/Registry/Logs.antt =====
-- commands/registry.go and core/aof.go: what the dispatch writes to the append-only file, and `Recover` of it.
use learning_redis.Common.{
  ◌≡◌, refl, sym, ap, subst, ◌∙◌, List, [], ◌∷◌, ◌++◌, append_assoc, append-nil, Bytes, Bool, true,
  false, not, ◌&&◌, Option, none, some, ◌>>=◌, Bool-cases, inl, inr, All, if◌then◌else◌, codes,
}
use learning_redis.Core.Encode.{crlf, encode_array, encode_error}
use learning_redis.Core.Decode.Written.{ArgsFit}
use learning_redis.Core.Aof.{recover}
use learning_redis.Core.Aof.Recovered.{log, write_all-log, recover-write_all}
use learning_redis.Store.Keys.{Store}
use learning_redis.Commands.Command.{Command, find}
use learning_redis.Commands.Route.{check_cluster}
use learning_redis.Commands.Route.Frames.{check_cluster-Begins}
use learning_redis.Commands.Registry.{
  Moment, HandlerFunc, Server, World, is_error_reply, is_one_of, write_commands, make_room, log_to,
  log_write, run_unless_full, run_unless_refused, dispatch_to, dispatch, dispatch_each,
}

log_write-error :
    (m : Moment) (cmd : Command) (text : Bytes) (before : Option Bytes)
    → log_write m cmd (b'-' ∷ text) before ≡ before
unfolding log_write is_error_reply
log_write-error m cmd text before = by_name (is_one_of cmd.name write_commands)
  where
    by_name : (b : Bool) → (if b && false then log_to m cmd before else before) ≡ before
    by_name true = refl
    by_name false = refl

-- The file after a command is what its reply says.
abbrev Writes : Moment → Command → Option Bytes → Option (World × Bytes) → Type 0
Writes m cmd before none = Unit
Writes m cmd before (some (w', reply)) = w'.aof ≡ log_write m cmd reply before

run_handler-Writes :
    (m : Moment) (cmd : Command) (before : Option Bytes) (o : Option (Store × Bytes))
    → Writes m cmd before
        (o >>= λ r. some (record { store = r.0; aof = log_write m cmd r.1 before }, r.1))
run_handler-Writes m cmd before none = tt
run_handler-Writes m cmd before (some (s', reply)) = refl

run_unless_full-Writes :
    (m : Moment) (cmd : Command) (f : HandlerFunc) (before : Option Bytes)
    (o : Option (Store × Bool))
    → Writes m cmd before (o >>= run_unless_full m cmd f before)
unfolding encode_error
run_unless_full-Writes m cmd f before none = tt
run_unless_full-Writes m cmd f before (some (s, true)) = sym (log_write-error m cmd _ before)
run_unless_full-Writes m cmd f before (some (s, false)) =
    run_handler-Writes m cmd before (f m cmd.args s)

dispatch-Writes :
    (srv : Server) (w : World) (m : Moment) (cmd : Command)
    → Writes m cmd w.aof (dispatch srv w (m, cmd))
unfolding dispatch encode_error
dispatch-Writes srv w m cmd = by_handler (find cmd.name srv.handlers)
  where
    by_check :
        (f : HandlerFunc) (o : Option (Option Bytes))
        → check_cluster srv.layout cmd ≡ o
        → Writes m cmd w.aof (o >>= run_unless_refused srv m w cmd f)
    by_check f none e = tt
    by_check f (some none) e =
        run_unless_full-Writes m cmd f w.aof (make_room srv m cmd.name w.store)
    by_check f (some (some reply)) e =
        let (text, is) = check_cluster-Begins srv.layout cmd reply e in
        rw is (sym (log_write-error m cmd text w.aof))

    by_handler : (o : Option HandlerFunc) → Writes m cmd w.aof (dispatch_to srv m w cmd o)
    by_handler none = sym (
        log_write-error m cmd (codes "ERR unknown command '" ++ (cmd.name ++ codes "'") ++ crlf)
          w.aof)
    by_handler (some f) = by_check f (check_cluster srv.layout cmd) refl

-- The write commands of a sequence that were answered without an error, in order.
abbrev pub logged_of : List (Moment × Command) → List Bytes → List (List Bytes)
logged_of [] replies = []
logged_of (c ∷ cs) [] = []
logged_of ((m, cmd) ∷ cs) (reply ∷ replies) =
    let rest = logged_of cs replies in
    if is_one_of cmd.name write_commands && not (is_error_reply reply)
    then (cmd.name ∷ cmd.args) ∷ rest
    else rest

-- The disk takes all the bytes.
abbrev pub WritesAll : Moment × Command → Type 0
WritesAll c = (bytes : Bytes) → c.0.written bytes ≡ bytes

log-append : (xs ys : List (List Bytes)) → log (xs ++ ys) ≡ log xs ++ log ys
log-append [] ys = refl
log-append (x ∷ xs) ys =
    ap (◌++◌ (encode_array x)) (log-append xs ys)
    ∙ sym (append_assoc (encode_array x) (log xs) (log ys))

abbrev Recorded : List (Moment × Command) → Option Bytes → Option (World × List Bytes) → Type 0
Recorded cs before none = Unit
Recorded cs before (some (w', replies)) =
    (old : Bytes) → before ≡ some old → w'.aof ≡ some (old ++ log (logged_of cs replies))

log_step :
    (m : Moment) (cmd : Command) (old : Bytes) (rest : List (List Bytes))
    → ((bytes : Bytes) → m.written bytes ≡ bytes)
    → (logs : Bool)
    → (file : Bytes) × ((if logs then log_to m cmd (some old) else some old) ≡ some file)
      × (file ++ log rest ≡ old ++ log (if logs then (cmd.name ∷ cmd.args) ∷ rest else rest))
log_step m cmd old rest takes false = (old, refl, refl)
log_step m cmd old rest takes true =
    let line = encode_array (cmd.name ∷ cmd.args) in
    (
      old ++ m.written line,
      refl,
      ap (λ (t : Bytes). (old ++ t) ++ log rest) (takes line) ∙ append_assoc old line (log rest),
    )

dispatch_each-Recorded :
    (srv : Server) (cs : List (Moment × Command)) (w : World)
    → All WritesAll cs
    → Recorded cs w.aof (dispatch_each srv w cs)
unfolding dispatch_each log_write
dispatch_each-Recorded srv [] w all =
    λ old is. is ∙ ap (λ (t : Bytes). some t) (sym (append-nil old))
dispatch_each-Recorded srv ((m, cmd) ∷ cs) w (takes, all) =
    by_head (dispatch srv w (m, cmd)) (dispatch-Writes srv w m cmd)
      (λ w'. dispatch_each-Recorded srv cs w' all)
  where
    written :
        (reply old : Bytes) (w' : World) (replies : List Bytes)
        → w'.aof ≡ log_write m cmd reply w.aof
        → w.aof ≡ some old
        → (file : Bytes) × (w'.aof ≡ some file)
          × (file ++ log (logged_of cs replies)
              ≡ old ++ log (logged_of ((m, cmd) ∷ cs) (reply ∷ replies)))
    written reply old w' replies logs is =
        let logs_it = is_one_of cmd.name write_commands && not (is_error_reply reply) in
        let (file, at, same) = log_step m cmd old (logged_of cs replies) takes logs_it in
        (file, logs ∙ ap (log_write m cmd reply) is ∙ at, same)

    by_tail :
        (w' : World) (reply : Bytes) (o : Option (World × List Bytes))
        → w'.aof ≡ log_write m cmd reply w.aof
        → Recorded cs w'.aof o
        → Recorded ((m, cmd) ∷ cs) w.aof (o >>= λ x. some (x.0, reply ∷ x.1))
    by_tail w' reply none logs rest = tt
    by_tail w' reply (some (w'', replies)) logs rest = λ old is.
        let (file, at, same) = written reply old w' replies logs is in
        rest file at ∙ ap (λ (t : Bytes). some t) same

    by_head :
        (o : Option (World × Bytes))
        → Writes m cmd w.aof o
        → ((w' : World) → Recorded cs w'.aof (dispatch_each srv w' cs))
        → Recorded
            ((m, cmd) ∷ cs)
            w.aof
            (o >>= λ r. dispatch_each srv r.0 cs >>= λ x. some (x.0, r.1 ∷ x.1))
    by_head none writes ih = tt
    by_head (some (w', reply)) writes ih = by_tail w' reply (dispatch_each srv w' cs) writes (ih w')

-- The commands whose log fits the memory.
abbrev pub LogFits : Moment × Command → Type 0
LogFits c = ArgsFit (c.1.name ∷ c.1.args)

logged_of-ArgsFit :
    (cs : List (Moment × Command)) (replies : List Bytes)
    → All LogFits cs
    → All ArgsFit (logged_of cs replies)
logged_of-ArgsFit [] replies h = tt
logged_of-ArgsFit (c ∷ cs) [] h = tt
logged_of-ArgsFit ((m, cmd) ∷ cs) (reply ∷ replies) (fit, fits) =
    elim (Bool-cases (is_one_of cmd.name write_commands && not (is_error_reply reply))) [
      | inl logs ↦ rw logs (fit, logged_of-ArgsFit cs replies fits)
      | inr skips ↦ rw skips (logged_of-ArgsFit cs replies fits)
    ]

-- Commands that fit the memory, dispatched one after the other onto an empty file, whose writes
-- are complete: if no command panics, Recover gives back the write commands that were answered
-- without an error, in their order, and nothing else.
pub dispatch_each-recover :
    (srv : Server) (cs : List (Moment × Command)) (w w' : World) (replies : List Bytes)
    → w.aof ≡ some []
    → All WritesAll cs
    → All LogFits cs
    → dispatch_each srv w cs ≡ some (w', replies)
    → (file : Bytes) × (w'.aof ≡ some file) × (recover file ≡ some (logged_of cs replies))
dispatch_each-recover srv cs w w' replies is all fits run =
    let recorded : Recorded cs w.aof (some (w', replies)) =
      subst (Recorded cs w.aof) run (dispatch_each-Recorded srv cs w all) in
    let found = logged_of cs replies in
    (
      log found,
      recorded [] is,
      ap recover (sym (write_all-log [] found))
          ∙ recover-write_all found (logged_of-ArgsFit cs replies fits),
    )
