-- ===== src/Server/Startup.antt =====
-- server/tcp_server.go: the start of `Run`, which replays the append-only file, and one tick of
-- `startActiveExpiry`.
pub mod Restart
pub mod Ticks
pub mod Tests
use learning_redis.Common.{
  ℕ, zero, suc, ◌+◌, List, [], ◌∷◌, Bytes, Option, none, some, ◌>>=◌, if◌then◌else◌, codes,
}
use learning_redis.Common.Int.{ℤ, pos, ltb_ℤ}
use learning_redis.Core.Decode.{decode_integer}
use learning_redis.Core.Aof.{recover}
use learning_redis.Store.Keys.{Store}
use learning_redis.Commands.Command.{Command, to_upper}
use learning_redis.Commands.Registry.{Moment, Server, World, replay}
use learning_redis.Server.Worker.{serve}

unfoldable pub replay_aof_command : Server → World → Moment → List Bytes → Option World
replay_aof_command srv w m [] = some w
replay_aof_command srv w m (name ∷ args) =
    replay srv w (m, record { name = to_upper name; args = args })

-- The calls that `Recover` makes, in order, each at its moment.
unfoldable pub replay_each : Server → (ℕ → Moment) → ℕ → World → List (List Bytes) → Option World
unfolding replay_aof_command
replay_each srv moments i w [] = some w
replay_each srv moments i w (args ∷ calls) = do
  w' ← replay_aof_command srv w (moments i) args
  replay_each srv moments (i + 1) w' calls

abbrev pub with_file : Bytes → World → World
with_file file w = record w { aof = some file }

-- Without `appendOnly` there is no file; with it, `SetAOF` comes after the replay.
unfoldable pub run_start : Server → (ℕ → Moment) → Store → Option Bytes → Option World
unfolding replay_each
run_start srv moments s none = some (record { store = s; aof = none })
run_start srv moments s (some file) = do
  calls ← recover file
  w ← replay_each srv moments 0 (record { store = s; aof = none }) calls
  some (with_file file w)

abbrev pub expiry_command : Command
expiry_command = record { name = codes "_EXPIRY"; args = [] }

-- Go on while a round deleted five keys or more.
abbrev pub after_round : (World → Option World) → World → Option ℤ → Option World
after_round more w none = some w
after_round more w (some deleted) = if ltb_ℤ deleted (pos 5) then some w else more w

-- The rounds of one tick, on fuel; the end of the context is left out.
unfoldable pub expiry_rounds : ℕ → Server → (ℕ → Moment) → ℕ → World → Option World
expiry_rounds zero srv moments i w = none
expiry_rounds (suc fuel) srv moments i w = do
  (w', reply) ←
      serve srv w (record { cmd = (moments i, expiry_command); batch = []; pipeline = [] })
  after_round (expiry_rounds fuel srv moments (i + 1)) w' (decode_integer reply)
