-- ===== src/Server/Startup/Ticks.antt =====
-- server/tcp_server.go: a tick of the active expiry ends.
use learning_redis.Common.{
  ℕ, zero, suc, ◌+◌, ◌^◌, ◌≤◌, ◌<◌, ◌≡◌, refl, arith, [], true, Option, none, some, length,
  Bool-cases, inl, inr, bytes_eq, codes, lt→ltb, ltb,
}
use learning_redis.Common.Int.{pos, signed_word, ltb_ℤ}
use learning_redis.Cluster.Layout.{Layout}
use learning_redis.Hll.Sketch.Histogram.{Float}
use learning_redis.Core.Encode.{encode_integer}
use learning_redis.Core.Decode.{decode_integer}
use learning_redis.Core.Decode.Replies.{decode_integer-encode_integer}
use learning_redis.Store.Keys.{Data}
use learning_redis.Store.Keys.Accounts.{Distinct, WellFormed}
use learning_redis.Store.Strings.{delete_expired}
use learning_redis.Store.Strings.Laws.{delete_expired-WellFormed}
use learning_redis.Store.Strings.Expired.{Lists, delete_expired-counts}
use learning_redis.Commands.Command.{find, keys_of}
use learning_redis.Commands.Route.{check_cluster, check_keys, check_layout}
use learning_redis.Commands.Registry.{
  Moment, Server, World, make_room, is_one_of, log_write, dispatch,
}
use learning_redis.Commands.Handlers.{handle_expiry}
use learning_redis.Server.Worker.{serve}
use learning_redis.Server.Startup.{expiry_command, expiry_rounds}

-- The server knows `_EXPIRY`, by its handler.
abbrev pub KnowsExpiry : Server → Type 0
KnowsExpiry srv = find (codes "_EXPIRY") srv.handlers ≡ some handle_expiry

expiry_passes : (layout : Option Layout) → check_cluster layout expiry_command ≡ some none
unfolding check_cluster keys_of check_keys bytes_eq
expiry_passes none = refl
expiry_passes (some l) = unfold check_layout in refl

-- A request for `_EXPIRY` runs `DeleteExpired` and leaves the file.
serve-expiry :
    (srv : Server) (w : World) (m : Moment)
    → KnowsExpiry srv
    → let gone = delete_expired m.env (m.order 0 w.store.data_of) w.store in
      serve srv w (record { cmd = (m, expiry_command); batch = []; pipeline = [] })
      ≡ some (record { store = gone.0; aof = w.aof }, encode_integer (signed_word gone.1))
unfolding serve dispatch make_room log_write is_one_of bytes_eq handle_expiry
serve-expiry srv w m knows = rw (knows, expiry_passes srv.layout) refl

-- Every round yields the keys of the map, each once.
abbrev pub YieldsKeys : (ℕ → Moment) → Type 0
YieldsKeys moments = (i : ℕ) (d : Data) → Distinct d → Lists ((moments i).order 0 d) d

-- Where a tick ends: a round that deleted fewer than five keys.
abbrev pub EndsTick : (ℕ → Moment) → World → Option World → Type 0
EndsTick moments w o =
    (w' v : World) × (j : ℕ) × (o ≡ some w')
    × (w'.store ≡ (delete_expired (moments j).env ((moments j).order 0 v.store.data_of) v.store).0)
    × ((delete_expired (moments j).env ((moments j).order 0 v.store.data_of) v.store).1 < 5)
    × (w'.aof ≡ w.aof)

module _ (fl : Float) where
  -- If the server knows _EXPIRY by its handler, maps yield each of their keys once and the store
  -- is well formed, a tick of the active expiry ends, with fuel above the number of keys: a
  -- round that deletes fewer than five keys is the last, and the append-only file is as it was.
  pub expiry_rounds-ends :
      (srv : Server) (moments : ℕ → Moment) (fuel i : ℕ) (w : World)
      → KnowsExpiry srv
      → YieldsKeys moments
      → WellFormed fl w.store
      → length w.store.data_of < fuel
      → EndsTick moments w (expiry_rounds fuel srv moments i w)
  unfolding expiry_rounds
  expiry_rounds-ends srv moments zero i w knows yields wf lt = absurd (omega (arith, lt))
  expiry_rounds-ends srv moments (suc fuel) i w knows yields wf lt =
      let m = moments i in
      let order = m.order 0 w.store.data_of in
      let gone = delete_expired m.env order w.store in
      let w' : World = record { store = gone.0; aof = w.aof } in
      let (sum, few) =
        delete_expired-counts m.env order w.store (yields i w.store.data_of wf.distinct) in
      let small : ltb gone.1 (2 ^ 63) ≡ true = lt→ltb gone.1 (2 ^ 63) (omega (arith, few)) in
      let back : decode_integer (encode_integer (pos gone.1)) ≡ some (pos gone.1) =
        decode_integer-encode_integer (pos gone.1) (omega (arith, few)) in
      elim (Bool-cases (ltb_ℤ (pos gone.1) (pos 5))) [
        | inl last ↦ (
          w',
          w,
          i,
          rw (serve-expiry srv w m knows, small, back, last) refl,
          refl,
          ground (arith, last),
          refl,
        )
        | inr more ↦
            let several : 5 ≤ gone.1 = ground (arith, more) in
            let (w'', v, j, run, is, below, same) =
              expiry_rounds-ends srv moments fuel (i + 1) w' knows yields
                (delete_expired-WellFormed fl m.env order w.store wf)
                (omega (arith, sum, several, lt)) in
            (w'', v, j, rw (serve-expiry srv w m knows, small, back, more) run, is, below, same)
      ]
