-- ===== src/Server/Connection/Replies.antt =====
-- Pipelining against the same commands one at a time.
use learning_redis.Common.{
  ◌≡◌, refl, sym, ap, ◌∙◌, List, [], ◌∷◌, ◌++◌, append-nil, Bytes, Option, none, some, ◌>>=◌,
}
use learning_redis.Core.Encode.{concat}
use learning_redis.Commands.Command.{Command}
use learning_redis.Commands.Registry.{Moment, Server, World, dispatch, dispatch_each}
use learning_redis.Commands.Registry.Runs.{dispatch_pipeline-each}
use learning_redis.Server.Worker.{serve}
use learning_redis.Server.Connection.{Connection, answered, write, dispatch_single, send_pipeline}

-- What the client has been sent or will be, without the boundary between the two.
abbrev pub output : Connection → Bytes
output c = c.sent ++ c.pending

-- A pipeline sent as one request writes what its commands write when each is sent alone.
abbrev pub all_written : Connection → World × List Bytes → Option Connection
all_written c (w, replies) = some (write (record c { world = w }) (concat replies))

abbrev pub one_at_a_time : Server → Connection → List (Moment × Command) → Option Connection
one_at_a_time srv c cmds = dispatch_each srv c.world cmds >>= all_written c

abbrev as_one : World × List Bytes → Option (World × Bytes)
as_one (w, replies) = some (w, concat replies)

abbrev pub answer : Connection → World × Bytes → Option Connection
answer c r = some (answered c r)

pub send_pipeline-each :
    (srv : Server) (c : Connection) (first : Moment × Command) (rest : List (Moment × Command))
    → send_pipeline srv c first rest ≡ one_at_a_time srv c (first ∷ rest)
unfolding send_pipeline dispatch_single serve dispatch_each concat
send_pipeline-each srv c first [] = by_reply (dispatch srv c.world first)
  where
    by_reply :
        (o : Option (World × Bytes))
        → (o >>= answer c) ≡ (
            (o >>= λ r.
            ◌>>=◌ {A = World × List Bytes}
              (some (r.0, []))
              (λ x. ◌>>=◌ {A = World × List Bytes} (some (x.0, r.1 ∷ x.1)) (λ y. some y)))
            >>= all_written c)
    by_reply none = refl
    by_reply (some (w, r)) =
        ap (λ (t : Bytes). some (write (record c { world = w }) t)) (sym (append-nil r))
send_pipeline-each srv c (m, first) (next ∷ rest) =
    ap (λ (o : Option (World × Bytes)). o >>= answer c)
      (dispatch_pipeline-each srv ((m, first) ∷ (next ∷ rest)) c.world)
    ∙ by_replies (dispatch_each srv c.world ((m, first) ∷ (next ∷ rest)))
  where
    by_replies :
        (o : Option (World × List Bytes)) → ((o >>= as_one) >>= answer c) ≡ (o >>= all_written c)
    by_replies none = refl
    by_replies (some (w, rs)) = refl
