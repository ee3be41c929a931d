-- ===== src/Commands/Registry/Runs.antt =====
-- What the dispatch of commands does to the data and to the append-only file.
use learning_redis.Common.{
  ◌≡◌, ◌⊎◌, refl, sym, ap, ◌∙◌, arith, List, [], ◌∷◌, ◌++◌, append_assoc, append-nil, Bytes, Option,
  none, some, ◌>>=◌, inl, inr, All,
}
use learning_redis.Core.Encode.{concat, encode_raw_array}
use learning_redis.Commands.Command.{Command}
use learning_redis.Commands.Route.{check_cluster, check_cluster_batch}
use learning_redis.Commands.Route.Batch.{check_cluster_batch-each}
use learning_redis.Commands.Registry.{
  Moment, Server, World, dispatch, dispatch_each, dispatch_batch, run_unless_split, commands_of,
  pipeline_loop, dispatch_pipeline,
}

abbrev pub joined : Bytes → World × List Bytes → Option (World × Bytes)
joined out (w, replies) = some (w, out ++ concat replies)

pub pipeline_loop-joined :
    (srv : Server) (cs : List (Moment × Command)) (w : World) (out : Bytes)
    → pipeline_loop srv w cs out ≡ (dispatch_each srv w cs >>= joined out)
unfolding pipeline_loop dispatch_each concat
pipeline_loop-joined srv [] w out = ap (λ (t : Bytes). some (w, t)) (sym (append-nil out))
pipeline_loop-joined srv (c ∷ cs) w out =
    by_head (dispatch srv w c) (λ w' out'. pipeline_loop-joined srv cs w' out')
  where
    by_tail :
        (reply : Bytes) (o : Option (World × List Bytes))
        → (o >>= joined (out ++ reply)) ≡ (
            (o >>= λ r. ◌>>=◌ {A = World × List Bytes} (some (r.0, reply ∷ r.1)) (λ x. some x))
            >>= joined out)
    by_tail reply none = refl
    by_tail reply (some (w', replies)) =
        ap (λ (t : Bytes). some (w', t)) (append_assoc out reply (concat replies))

    by_head :
        (o : Option (World × Bytes))
        → ((w' : World) (out' : Bytes)
            → pipeline_loop srv w' cs out' ≡ (dispatch_each srv w' cs >>= joined out'))
        → (o >>= λ r. pipeline_loop srv r.0 cs (out ++ r.1)) ≡ (
            (o >>= λ r. dispatch_each srv r.0 cs >>= λ x.
            ◌>>=◌ {A = World × List Bytes} (some (x.0, r.1 ∷ x.1)) (λ y. some y))
            >>= joined out)
    by_head none ih = refl
    by_head (some (w', reply)) ih = ih w' (out ++ reply) ∙ by_tail reply (dispatch_each srv w' cs)

-- A pipeline replies what its commands reply one by one, back to back, and leaves what they leave.
pub dispatch_pipeline-each :
    (srv : Server) (cs : List (Moment × Command)) (w : World)
    → dispatch_pipeline srv w cs
      ≡ (do (w', replies) ← dispatch_each srv w cs; some (w', concat replies))
unfolding dispatch_pipeline
dispatch_pipeline-each srv cs w = pipeline_loop-joined srv cs w []

abbrev pub in_array : World × List Bytes → Option (World × Bytes)
in_array (w, replies) = some (w, encode_raw_array replies)

-- A transaction that runs: none of its commands is one that the cluster refuses, and they are run one
-- by one, with one array of the replies. One that is refused leaves everything as it was.
pub dispatch_batch-atomic :
    (srv : Server) (cs : List (Moment × Command)) (w w' : World) (reply : Bytes)
    → dispatch_batch srv w cs ≡ some (w', reply)
    → ((w' ≡ w) × (check_cluster_batch srv.layout (commands_of cs) ≡ some (some reply)))
      ⊎ (All (λ c. check_cluster srv.layout c ≡ some none) (commands_of cs)
          × (replies : List Bytes) × (dispatch_each srv w cs ≡ some (w', replies))
          × (reply ≡ encode_raw_array replies))
unfolding dispatch_batch
dispatch_batch-atomic srv cs w w' reply run =
    by_check (check_cluster_batch srv.layout (commands_of cs)) refl run
  where
    by_run :
        (o : Option (World × List Bytes))
        → dispatch_each srv w cs ≡ o
        → (o >>= in_array) ≡ some (w', reply)
        → (replies : List Bytes) × (dispatch_each srv w cs ≡ some (w', replies))
          × (reply ≡ encode_raw_array replies)
    by_run none e h = ground (arith, h)
    by_run (some (v, replies)) e h =
        let pair : (v, encode_raw_array replies) ≡ (w', reply) = ground (arith, h) in
        (
          replies,
          e ∙ ap (λ (t : World). some (t, replies)) (ap (λ (p : World × Bytes). p.0) pair),
          sym (ap (λ (p : World × Bytes). p.1) pair),
        )

    by_check :
        (o : Option (Option Bytes))
        → check_cluster_batch srv.layout (commands_of cs) ≡ o
        → (o >>= run_unless_split srv w cs) ≡ some (w', reply)
        → ((w' ≡ w) × (check_cluster_batch srv.layout (commands_of cs) ≡ some (some reply)))
          ⊎ (All (λ c. check_cluster srv.layout c ≡ some none) (commands_of cs)
              × (replies : List Bytes) × (dispatch_each srv w cs ≡ some (w', replies))
              × (reply ≡ encode_raw_array replies))
    by_check none e h = ground (arith, h)
    by_check (some (some err)) e h =
        let pair : (w, err) ≡ (w', reply) = ground (arith, h) in
        inl (
          sym (ap (λ (p : World × Bytes). p.0) pair),
          e ∙ ap (λ (t : Bytes). some (some t)) (ap (λ (p : World × Bytes). p.1) pair),
        )
    by_check (some none) e h =
        let (replies, ran, is) = by_run (dispatch_each srv w cs) refl h in
        inr (check_cluster_batch-each srv.layout (commands_of cs) e, replies, ran, is)
