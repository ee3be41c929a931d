-- ===== src/Server/Startup/Tests.antt =====
-- A restart and a tick of the expiry on a small server.
use learning_redis.Common.{false, ℕ, ◌<◌, ◌≡◌, refl, arith, [], ◌∷◌, some, codes, bytes_eq, length}
use learning_redis.Common.Int.{pos}
use learning_redis.Hll.Tests.{whole_numbers}
use learning_redis.Store.Keys.{Store, empty_store, lookup, put}
use learning_redis.Store.Strings.{set}
use learning_redis.Store.Strings.Laws.{set-WellFormed}
use learning_redis.Store.Tests.{noon, later}
use learning_redis.Store.Keys.Accounts.Steps.{empty_store-WellFormed}
use learning_redis.Store.Eviction.Frees.{All-exists}
use learning_redis.Commands.Command.{find}
use learning_redis.Commands.Registry.{Moment}
use learning_redis.Commands.Tests.{
  at_noon, plain_server, plain_server-Started, empty_world, set_command, after_set, ok_text,
  one_set_runs, set_command-LogFits,
}
use learning_redis.Store.Contents.{contents}
use learning_redis.Commands.Handlers.Lasting.{sets}
use learning_redis.Server.Startup.{run_start, expiry_rounds}
use learning_redis.Server.Startup.Restart.{Unlimited, run_start-restores}
use learning_redis.Server.Startup.Ticks.{EndsTick, expiry_rounds-ends, KnowsExpiry, YieldsKeys}

abbrev noons : ℕ → Moment
noons i = at_noon

-- The server starts again two seconds later.
abbrev laters : ℕ → Moment
laters i = record at_noon { env = later }

unlimited : Unlimited plain_server
unlimited = refl

run_start-restores_example :
    (s' : Store) × (run_start plain_server laters empty_store after_set.aof
      ≡ some (record { store = s'; aof = after_set.aof }))
    × (contents s'.data_of ≡ contents after_set.store.data_of)
run_start-restores_example =
    run_start-restores whole_numbers false plain_server plain_server-Started.table unlimited noons
      laters (set_command ∷ []) empty_world after_set (ok_text ∷ []) empty_store refl no_data
      no_data (sets (codes "a") (codes "1"), tt) (λ bytes. refl, tt) (set_command-LogFits, tt)
      one_set_runs
  where
    no_data : empty_store.data_of ≡ []
    no_data = unfold empty_store in refl

knows : KnowsExpiry plain_server
unfolding find bytes_eq
knows = refl

noons-YieldsKeys : YieldsKeys noons
noons-YieldsKeys i d distinct = (distinct, All-exists d)

one_key : length after_set.store.data_of < 2
unfolding set empty_store lookup put
one_key = omega arith

expiry_rounds-ends_example :
    EndsTick noons after_set (expiry_rounds 2 plain_server noons 0 after_set)
expiry_rounds-ends_example =
    expiry_rounds-ends whole_numbers plain_server noons 2 0 after_set knows noons-YieldsKeys
      (set-WellFormed whole_numbers noon empty_store (codes "a") (codes "1") (pos 0)
        (empty_store-WellFormed whole_numbers))
      one_key
