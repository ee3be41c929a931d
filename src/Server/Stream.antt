-- ===== src/Server/Stream.antt =====
-- server/tcp_server.go: `handleConnection` on the bytes that a client sends.
pub mod Served
pub mod Answers
pub mod Tests
use learning_redis.Common.{
  ℕ, zero, suc, ◌+◌, List, Bytes, Bool, ◌&&◌, Option, none, some, ◌>>=◌, ltb, length,
}
use learning_redis.Core.Decode.{Value, Read, got, failed, panicked, out_of_fuel, decode_value}
use learning_redis.Commands.Command.{ParseError}
use learning_redis.Commands.Registry.{Moment, Server}
use learning_redis.Server.Connection.{Arrival, Connection, Pipeline, receive, finish}

-- For each request, the moments at which its commands run, and whether bytes behind it have come when
-- `reader.Buffered()` is tested.
pub record Timing : Type 0 where
  pub moments : ℕ → ℕ → Moment
  pub arrived : ℕ → Bool

abbrev pub arrival : Timing → ℕ → Value → Bytes → Arrival
arrival t i v rest = record {
  value = v;
  moments = t.moments i;
  more = t.arrived i && ltb 0 (length rest);
}

-- A round, by what was decoded: an error ends the connection, and `none` is a panic.
abbrev pub after_decode :
    (ParseError → Bytes)
    → Server
    → Timing
    → ℕ
    → Connection
    → Pipeline
    → (Connection → Pipeline → Bytes → Option Connection)
    → Read Value
    → Option Connection
after_decode error_text srv t i c p more (failed e) = finish srv c p
after_decode error_text srv t i c p more panicked = none
after_decode error_text srv t i c p more out_of_fuel = none
after_decode error_text srv t i c p more (got v rest) = do
  (c', p') ← receive error_text srv c p (arrival t i v rest)
  more c' p' rest

unfoldable pub stream_loop :
    (ParseError → Bytes)
    → Server
    → Timing
    → ℕ
    → ℕ
    → Connection
    → Pipeline
    → Bytes
    → Option Connection
stream_loop error_text srv t zero i c p s = none
stream_loop error_text srv t (suc fuel) i c p s =
    after_decode error_text srv t i c p (stream_loop error_text srv t fuel (i + 1)) (decode_value s)

-- The connection from its first byte to its last. Each round takes a byte at least.
unfoldable pub handle_stream :
    (ParseError → Bytes) → Server → Timing → Connection → Bytes → Option Connection
unfolding stream_loop
handle_stream error_text srv t c s = stream_loop error_text srv t (length s + 1) 0 c none s
