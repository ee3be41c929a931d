-- ===== src/Server/Worker.antt =====
-- server/tcp_server.go: the dispatch worker, and what a connection asks of it for each action.
use learning_redis.Common.{List, [], ◌∷◌, Bytes, Option}
use learning_redis.Commands.Command.{Command}
use learning_redis.Commands.Registry.{
  Moment, Server, World, dispatch, dispatch_batch, dispatch_pipeline,
}

-- A nil slice is an empty one: neither `batch` nor `pipeline` is ever empty and not nil.
pub record CommandRequest : Type 0 where
  pub cmd : Moment × Command
  pub batch : List (Moment × Command)
  pub pipeline : List (Moment × Command)

abbrev pub serve_plain :
    Server → World → Moment × Command → List (Moment × Command) → Option (World × Bytes)
serve_plain srv w cmd [] = dispatch srv w cmd
serve_plain srv w cmd (c ∷ cs) = dispatch_pipeline srv w (c ∷ cs)

abbrev pub serve_batch :
    Server
    → World
    → Moment × Command
    → List (Moment × Command)
    → List (Moment × Command)
    → Option (World × Bytes)
serve_batch srv w cmd [] pipeline = serve_plain srv w cmd pipeline
serve_batch srv w cmd (c ∷ cs) pipeline = dispatch_batch srv w (c ∷ cs)

-- One round of `dispatchWorker`: the reply that is sent back.
unfoldable pub serve : Server → World → CommandRequest → Option (World × Bytes)
serve srv w req = serve_batch srv w req.cmd req.batch req.pipeline
