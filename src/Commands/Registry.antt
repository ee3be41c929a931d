-- ===== src/Commands/Registry.antt =====
-- commands/registry.go: the table of handlers, and how commands, transactions and pipelines run.
-- `none` is a panic of a handler.
pub mod Runs
pub mod Served
pub mod Logs
use learning_redis.Common.{
  ℕ, zero, suc, ◌*◌, ◌%◌, ◌^◌, List, [], ◌∷◌, ◌++◌, Bytes, Bool, true, false, not, ◌&&◌, ◌||◌,
  Option, none, some, ◌>>=◌, ltb, ◌==◌, if◌then◌else◌, codes, bytes_eq,
}
use learning_redis.Common.Int.{ℤ, pos, negsuc, pos_part, ltb_ℤ}
use learning_redis.Cluster.Layout.{Layout}
use learning_redis.Core.Encode.{encode_error, encode_array, encode_raw_array}
use learning_redis.Store.Keys.{Data, Store, Env}
use learning_redis.Store.Eviction.{perform_evictions, over_memory}
use learning_redis.Commands.Command.{Command, find}
use learning_redis.Commands.Route.{check_cluster, check_cluster_batch}

-- What a command reads besides the server's state while it runs: the environment of the store, the
-- order of the map in the rounds of an eviction, and what a write adds to the file (all of the bytes,
-- unless the disk fails).
pub record Moment : Type 0 where
  pub env : Env
  pub order : ℕ → Data → Data
  pub written : Bytes → Bytes

abbrev pub HandlerFunc : Type 0
HandlerFunc = Moment → List Bytes → Store → Option (Store × Bytes)

-- What is fixed after startup: the handlers, the flags that are read here, and the layout.
pub record Server : Type 0 where
  pub handlers : List (Bytes × HandlerFunc)
  pub max_memory : ℤ
  pub max_memory_policy : Bytes
  pub max_memory_samples : ℤ
  pub layout : Option Layout

-- The data, and the contents of the append-only file, if there is one.
pub record World : Type 0 where
  pub store : Store
  pub aof : Option Bytes

-- `Register`: the latest registration of a name counts.
unfoldable pub register : Server → Bytes → HandlerFunc → Server
register srv name f = record srv { handlers = (name, f) ∷ srv.handlers }

abbrev pub is_some {ℓ} : {A : Type ℓ} → Option A → Bool
is_some none = false
is_some (some a) = true

unfoldable pub is_known_command : Server → Bytes → Bool
is_known_command srv name = is_some (find name srv.handlers)

unfoldable pub is_error_reply : Bytes → Bool
is_error_reply [] = false
is_error_reply (c ∷ cs) = c == b'-'

unfoldable pub is_one_of : Bytes → List Bytes → Bool
is_one_of name [] = false
is_one_of name (n ∷ ns) = bytes_eq name n || is_one_of name ns

abbrev pub write_commands : List Bytes
write_commands =
    codes "SET"
    ∷ codes "EXPIRE"
    ∷ codes "INCR"
    ∷ codes "APPEND"
    ∷ codes "PFADD"
    ∷ codes "PFMERGE"
    ∷ codes "DEL"
    ∷ []

abbrev pub deny_oom_commands : List Bytes
deny_oom_commands =
    codes "SET" ∷ codes "INCR" ∷ codes "APPEND" ∷ codes "PFADD" ∷ codes "PFMERGE" ∷ []

abbrev pub unknown_command : Bytes → Bytes
unknown_command name = encode_error (codes "ERR unknown command '" ++ (name ++ codes "'"))

abbrev pub oom_error : Bytes
oom_error = encode_error (codes "OOM command not allowed when used memory > 'maxmemory'.")

-- `int64(config.MaxMemory) << 20`; a limit that is negative after the shift is none, as 0 is.
unfoldable pub max_bytes_of : ℤ → ℕ
max_bytes_of max_memory =
    let bytes = pos_part max_memory * 2 ^ 20 % 2 ^ 64 in if ltb bytes (2 ^ 63) then bytes else 0

-- The switch over the policy.
unfoldable pub evict_for : Server → Moment → Store → Option Store
evict_for srv m s =
    if is_one_of srv.max_memory_policy
      (codes "allkeys-lru" ∷ codes "allkeys-lfu" ∷ codes "volatile-lfu" ∷ [])
    then perform_evictions m.env m.order srv.max_memory_samples (max_bytes_of srv.max_memory) s
    else some s

-- The check of the memory before a command runs: the store, and whether it is still over the limit.
unfoldable pub make_room : Server → Moment → Bytes → Store → Option (Store × Bool)
unfolding evict_for
make_room srv m name s =
    let checked = do s' ← evict_for srv m s; some (s', over_memory s' (max_bytes_of srv.max_memory))
    in if is_one_of name deny_oom_commands && ltb_ℤ (pos 0) srv.max_memory
      then checked
      else some (s, false)

-- A write command that succeeded is appended to the file.
abbrev pub log_to : Moment → Command → Option Bytes → Option Bytes
log_to m cmd none = none
log_to m cmd (some file) = some (file ++ m.written (encode_array (cmd.name ∷ cmd.args)))

unfoldable pub log_write : Moment → Command → Bytes → Option Bytes → Option Bytes
log_write m cmd reply aof =
    if is_one_of cmd.name write_commands && not (is_error_reply reply)
    then log_to m cmd aof
    else aof

abbrev pub run_handler :
    Moment → Command → HandlerFunc → Option Bytes → Store → Option (World × Bytes)
run_handler m cmd handler aof s = do
  (s', reply) ← handler m cmd.args s
  some (record { store = s'; aof = log_write m cmd reply aof }, reply)

abbrev pub run_unless_full :
    Moment → Command → HandlerFunc → Option Bytes → Store × Bool → Option (World × Bytes)
run_unless_full m cmd handler aof (s, full) =
    if full
    then some (record { store = s; aof = aof }, oom_error)
    else run_handler m cmd handler aof s

abbrev pub run_unless_refused :
    Server → Moment → World → Command → HandlerFunc → Option Bytes → Option (World × Bytes)
run_unless_refused srv m w cmd handler (some err_reply) = some (w, err_reply)
run_unless_refused srv m w cmd handler none =
    make_room srv m cmd.name w.store >>= run_unless_full m cmd handler w.aof

abbrev pub dispatch_to :
    Server → Moment → World → Command → Option HandlerFunc → Option (World × Bytes)
dispatch_to srv m w cmd none = some (w, unknown_command cmd.name)
dispatch_to srv m w cmd (some handler) =
    check_cluster srv.layout cmd >>= run_unless_refused srv m w cmd handler

unfoldable pub dispatch : Server → World → Moment × Command → Option (World × Bytes)
unfolding make_room log_write is_error_reply is_one_of
dispatch srv w (m, cmd) = dispatch_to srv m w cmd (find cmd.name srv.handlers)

abbrev pub replay_to : Moment → World → Command → Option HandlerFunc → Option World
replay_to m w cmd none = some w
replay_to m w cmd (some handler) = do
  (s', reply) ← handler m cmd.args w.store
  some (record w { store = s' })

unfoldable pub replay : Server → World → Moment × Command → Option World
replay srv w (m, cmd) = replay_to m w cmd (find cmd.name srv.handlers)

-- The loop of both: each command in order, with the replies.
unfoldable pub dispatch_each :
    Server → World → List (Moment × Command) → Option (World × List Bytes)
unfolding dispatch
dispatch_each srv w [] = some (w, [])
dispatch_each srv w (c ∷ cs) = do
  (w', reply) ← dispatch srv w c
  (w'', replies) ← dispatch_each srv w' cs
  some (w'', reply ∷ replies)

abbrev pub commands_of : List (Moment × Command) → List Command
commands_of [] = []
commands_of ((m, c) ∷ cs) = c ∷ commands_of cs

abbrev pub run_unless_split :
    Server → World → List (Moment × Command) → Option Bytes → Option (World × Bytes)
run_unless_split srv w cs (some err_reply) = some (w, err_reply)
run_unless_split srv w cs none = do
  (w', replies) ← dispatch_each srv w cs
  some (w', encode_raw_array replies)

unfoldable pub dispatch_batch : Server → World → List (Moment × Command) → Option (World × Bytes)
unfolding dispatch_each
dispatch_batch srv w cs =
    check_cluster_batch srv.layout (commands_of cs) >>= run_unless_split srv w cs

-- `out = append(out, Dispatch(c)...)`
unfoldable pub pipeline_loop :
    Server → World → List (Moment × Command) → Bytes → Option (World × Bytes)
unfolding dispatch
pipeline_loop srv w [] out = some (w, out)
pipeline_loop srv w (c ∷ cs) out = do
  (w', reply) ← dispatch srv w c
  pipeline_loop srv w' cs (out ++ reply)

unfoldable pub dispatch_pipeline : Server → World → List (Moment × Command) → Option (World × Bytes)
unfolding pipeline_loop
dispatch_pipeline srv w cs = pipeline_loop srv w cs []
