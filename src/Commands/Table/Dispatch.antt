-- ===== src/Commands/Table/Dispatch.antt =====
-- commands/: the dispatch with all handlers in the table. APPEND panics on a key that holds a sketch.
use learning_redis.Common.{
  suc, length, ◌≡◌, ◌≢◌, refl, sym, ap, subst, ◌∙◌, arith, List, [], ◌∷◌, Bytes, Bool, Option, some,
  codes, bytes_eq, bytes_eq_iff, Bool-cases, inl, inr, All,
}
use learning_redis.Hll.Sketch.Histogram.{Float, estimate}
use learning_redis.Hll.Sketch.Counting.{empty_histo}
use learning_redis.Cluster.Layout.{Layout}
use learning_redis.Core.Frame.{Plain, Frame}
use learning_redis.Store.Keys.Accounts.{WellFormed}
use learning_redis.Store.Eviction.Frees.{Yields}
use learning_redis.Commands.Command.{Command, find}
use learning_redis.Commands.Command.Keys.{find-All}
use learning_redis.Commands.Route.Safe.{OwnersExist, IsBytes}
use learning_redis.Commands.Route.Frames.{PlainAddrs}
use learning_redis.Commands.Registry.{Moment, HandlerFunc, Server, World, dispatch, dispatch_each}
use learning_redis.Commands.Registry.Served.{Preserves, Logged, RunsWell, dispatch-RunsWell}
use learning_redis.Commands.Handlers.Values.{
  handle_set-Preserves, handle_get-Preserves, handle_del-Preserves, handle_expire-Preserves,
  handle_ttl-Preserves, handle_incr-Preserves,
}
use learning_redis.Commands.Handlers.Inspect.{
  handle_pf_add-Preserves, handle_pf_count-Preserves, handle_pf_merge-Preserves,
  handle_object-Preserves, handle_ping-Preserves, handle_info-Preserves, handle_debug-Preserves,
  handle_expiry-Preserves,
}
use learning_redis.Commands.ClusterCommand.Answered.{LayoutReady, handle_cluster-Preserves}
use learning_redis.Commands.Table.{handler_table}

-- The server as it starts: the whole table, and a layout that was checked.
pub record Started (fl : Float) (enabled : Bool) (srv : Server) : Type 0 where
  pub table : srv.handlers ≡ handler_table fl enabled srv.layout
  pub ready : LayoutReady enabled srv.layout
  pub owners : OwnersExist srv.layout
  pub addresses : PlainAddrs srv.layout

module _ (fl : Float) (empty : estimate fl empty_histo ≡ 0) where
  handler_table-Preserves :
      (enabled : Bool) (layout : Option Layout) (name : Bytes) (f : HandlerFunc)
      → LayoutReady enabled layout
      → name ≢ codes "APPEND"
      → find name (handler_table fl enabled layout) ≡ some f
      → Preserves fl f
  unfolding find
  handler_table-Preserves enabled layout name f ready other found =
      find-All (Preserves fl) name (rest) f each (skip found)
    where
      rest : List (Bytes × HandlerFunc)
      rest = elim (handler_table fl enabled layout) [ [] ↦ [] | x ∷ xs ↦ xs ]

      each : All (λ x. Preserves fl x.1) rest
      each = (
        handle_cluster-Preserves fl enabled layout ready,
        (
          handle_debug-Preserves fl,
          (
            handle_del-Preserves fl,
            (
              handle_expire-Preserves fl,
              (
                handle_get-Preserves fl,
                (
                  handle_incr-Preserves fl,
                  (
                    handle_info-Preserves fl enabled,
                    (
                      handle_object-Preserves fl,
                      (
                        handle_pf_add-Preserves fl empty,
                        (
                          handle_pf_count-Preserves fl,
                          (
                            handle_pf_merge-Preserves fl empty,
                            (
                              handle_ping-Preserves fl,
                              (
                                handle_expiry-Preserves fl,
                                (handle_set-Preserves fl, (handle_ttl-Preserves fl, tt)),
                              ),
                            ),
                          ),
                        ),
                      ),
                    ),
                  ),
                ),
              ),
            ),
          ),
        ),
      )

      skip : find name (handler_table fl enabled layout) ≡ some f → find name rest ≡ some f
      skip found = elim (Bool-cases (bytes_eq (codes "APPEND") name)) [
        | inl same ↦ absurd (other (sym ((bytes_eq_iff (codes "APPEND") name).0 same)))
        | inr differs ↦ simp differs at found
      ]

  served :
      (enabled : Bool) (srv : Server) (w : World) (m : Moment) (cmd : Command)
      → Started fl enabled srv
      → WellFormed fl w.store
      → Yields m.order
      → cmd.name ≢ codes "APPEND"
      → All IsBytes cmd.args
      → RunsWell fl m cmd w.aof (dispatch srv w (m, cmd))
  served enabled srv w m cmd started wf yields other bytes =
      dispatch-RunsWell fl srv w m cmd wf
        (λ f found. handler_table-Preserves enabled srv.layout cmd.name f started.ready other (
          subst (λ (t : List (Bytes × HandlerFunc)). find cmd.name t ≡ some f) started.table found))
        yields started.owners started.addresses bytes

  -- For a float arithmetic in which the estimate of the empty histogram is 0: on any command
  -- that is not APPEND and whose arguments are bytes, a server that started with the whole table
  -- and a layout that is ready does not panic on a well-formed store, if maps yield keys of
  -- their own and one at least unless empty. It answers, the store stays well formed, and the
  -- file is as before, or has what the write of the encoded command took appended and the reply
  -- is no error.
  pub dispatch_table-answers :
      (enabled : Bool) (srv : Server) (w : World) (m : Moment) (cmd : Command)
      → Started fl enabled srv
      → WellFormed fl w.store
      → Yields m.order
      → cmd.name ≢ codes "APPEND"
      → All IsBytes cmd.args
      → (w' : World) × (reply : Bytes) × (dispatch srv w (m, cmd) ≡ some (w', reply))
        × WellFormed fl w'.store
        × Logged fl m cmd w.aof (w', reply)
  dispatch_table-answers enabled srv w m cmd started wf yields other bytes =
      let (w', reply, run, wf', logged, frame) =
        served enabled srv w m cmd started wf yields other bytes in
      (w', reply, run, wf', logged)

  -- For a float arithmetic in which the estimate of the empty histogram is 0, a server that
  -- started with the whole table and a layout that is ready, a well-formed store and maps that
  -- yield keys of their own and one at least unless empty: the reply to a command that is not
  -- APPEND, whose arguments are bytes, and which has no newline in its name or in an argument,
  -- is built as one RESP value.
  pub dispatch_table-Frame :
      (enabled : Bool) (srv : Server) (w w' : World) (m : Moment) (cmd : Command) (reply : Bytes)
      → Started fl enabled srv
      → WellFormed fl w.store
      → Yields m.order
      → cmd.name ≢ codes "APPEND"
      → All IsBytes cmd.args
      → Plain cmd.name
      → All Plain cmd.args
      → dispatch srv w (m, cmd) ≡ some (w', reply)
      → Frame reply
  dispatch_table-Frame enabled srv w w' m cmd reply started wf yields other bytes name args run =
      let (w'', reply', run', wf', logged, frame) =
        served enabled srv w m cmd started wf yields other bytes in
      let same : (w'', reply') ≡ (w', reply) = ground (arith, sym run' ∙ run) in
      subst Frame (ap (λ (p : World × Bytes). p.1) same) (frame name args)

  -- A command that can be served at its moment.
  abbrev pub Servable : Moment × Command → Type 0
  Servable (m, cmd) = Yields m.order × (cmd.name ≢ codes "APPEND") × All IsBytes cmd.args

  -- For a float arithmetic in which the estimate of the empty histogram is 0, a server that
  -- started with the whole table and a layout that is ready, and a well-formed store: a sequence
  -- of commands that are not APPEND and whose arguments are bytes, while maps yield keys of
  -- their own and one at least unless empty, is answered to its end, with one reply for each,
  -- and the store stays well formed.
  pub dispatch_each-answers :
      (enabled : Bool) (srv : Server) (cs : List (Moment × Command)) (w : World)
      → Started fl enabled srv
      → WellFormed fl w.store
      → All Servable cs
      → (w' : World) × (replies : List Bytes) × (dispatch_each srv w cs ≡ some (w', replies))
        × (length replies ≡ length cs)
        × WellFormed fl w'.store
  unfolding dispatch_each
  dispatch_each-answers enabled srv [] w started wf each = (w, [], refl, refl, wf)
  dispatch_each-answers enabled srv ((m, cmd) ∷ cs) w started wf ((yields, other, bytes), each) =
      let (w', reply, run, wf', logged, frame) =
        served enabled srv w m cmd started wf yields other bytes in
      let (w'', replies, rest, count, wf'') =
        dispatch_each-answers enabled srv cs w' started wf' each in
      (w'', reply ∷ replies, rw (run, rest) refl, ap suc count, wf'')
