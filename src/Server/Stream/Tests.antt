-- ===== src/Server/Stream/Tests.antt =====
-- A client on a small server, by the bytes that it sends.
use learning_redis.Common.{
  ◌≡◌, refl, arith, List, [], ◌∷◌, ◌++◌, Bytes, true, false, some, ◌>>=◌, codes, length, take,
  bytes_eq,
}
use learning_redis.Hll.Tests.{whole_numbers, empty_estimate}
use learning_redis.Core.Encode.{concat}
use learning_redis.Core.Decode.Written.{ArgsFit}
use learning_redis.Store.Keys.Accounts.{WellFormed}
use learning_redis.Store.Keys.Accounts.Steps.{empty_store-WellFormed}
use learning_redis.Commands.Command.{Command, ParseError, to_upper}
use learning_redis.Commands.Command.Wire.{command_line}
use learning_redis.Commands.Tests.{
  at_noon, at_noon-Yields, plain_server, plain_server-Started, empty_world, set_command-IsBytes,
  not_append,
}
use learning_redis.Commands.Registry.{dispatch_each}
use learning_redis.Server.Transaction.{new_tx_state}
use learning_redis.Server.Connection.{Connection}
use learning_redis.Server.Connection.Replies.{output}
use learning_redis.Server.Connection.View.{view, one_by_one}
use learning_redis.Server.Connection.Order.{seen_as}
use learning_redis.Server.Stream.{Timing, handle_stream}
use learning_redis.Server.Stream.Served.{wire, received, handle_stream-one_by_one}
use learning_redis.Server.Stream.Answers.{scheduled, PlainRequest, handle_stream-answers}

abbrev set_a : Command
set_a = record { name = codes "set"; args = codes "a" ∷ codes "1" ∷ [] }

abbrev multi : Command
multi = record { name = codes "Multi"; args = [] }

-- All bytes are there when the loop looks for more.
abbrev at_once : Timing
at_once = record { moments = λ i j. at_noon; arrived = λ i. true }

abbrev client : Connection
client = record { tx = new_tx_state; pending = []; sent = []; world = empty_world }

abbrev no_text : ParseError → Bytes
no_text e = []

set_a-ArgsFit : ArgsFit (command_line set_a)
set_a-ArgsFit = ground arith

multi-ArgsFit : ArgsFit (command_line multi)
multi-ArgsFit = ground arith

-- The third command is cut after three bytes.
handle_stream-one_by_one_example :
    (handle_stream no_text plain_server at_once client (take 45 (wire (set_a ∷ multi ∷ set_a ∷ [])))
      >>= seen_as)
    ≡ one_by_one plain_server
        (received at_once 0 45 (set_a ∷ multi ∷ set_a ∷ []))
        new_tx_state
        (view client)
handle_stream-one_by_one_example =
    handle_stream-one_by_one no_text plain_server at_once (set_a ∷ multi ∷ set_a ∷ []) 45 client
      (set_a-ArgsFit, (multi-ArgsFit, (set_a-ArgsFit, tt)))

set_a-PlainRequest : PlainRequest set_a
unfolding to_upper bytes_eq
set_a-PlainRequest = ((refl, refl, refl), not_append, set_command-IsBytes)

idle : client.tx.is_multi ≡ false
unfolding new_tx_state
idle = refl

handle_stream-answers_example :
    (c' : Connection) × (replies : List Bytes) × (handle_stream no_text plain_server at_once client
        (wire (set_a ∷ set_a ∷ []))
      ≡ some c')
    × (dispatch_each plain_server empty_world (scheduled at_once 0 (set_a ∷ set_a ∷ []))
        ≡ some (c'.world, replies))
    × (output c' ≡ output client ++ concat replies)
    × (length replies ≡ 2)
    × WellFormed whole_numbers c'.world.store
    × (c'.tx ≡ new_tx_state)
handle_stream-answers_example =
    handle_stream-answers whole_numbers empty_estimate no_text false plain_server at_once
      (set_a ∷ set_a ∷ []) client plain_server-Started (empty_store-WellFormed whole_numbers) idle
      (λ i. at_noon-Yields) (set_a-PlainRequest, (set_a-PlainRequest, tt))
      (set_a-ArgsFit, (set_a-ArgsFit, tt))
