-- ===== src/Server/Stream/Served.antt =====
-- server/tcp_server.go: what a client gets that sends encoded commands, to the byte at which it stops.
use learning_redis.Common.{
  ℕ, zero, suc, ◌+◌, ◌-◌, ◌≤◌, ◌<◌, ◌≡◌, refl, ap, ◌∙◌, arith, List, [], ◌∷◌, ◌++◌, Bytes, Option,
  none, ◌>>=◌, leb, leb→le, if◌then◌else◌, Bool-cases, inl, inr, length, take, All, map,
}
use learning_redis.Core.Encode.{encode_array}
use learning_redis.Core.Decode.{Value, array, ReadError, got, failed, decode_value}
use learning_redis.Core.Decode.Prefix.{take-append}
use learning_redis.Core.Decode.Written.{texts, ArgsFit, decode_value-encode_array}
use learning_redis.Core.Decode.Total.{decode_value-shorter}
use learning_redis.Core.Aof.Recovered.{log, take-append_ge, decode_value-cut, decode_value-nil}
use learning_redis.Commands.Command.{Command, ParseError, parsed, to_upper, parse_command}
use learning_redis.Commands.Command.Wire.{command_line, parse_command-texts}
use learning_redis.Commands.Registry.{Server}
use learning_redis.Server.Connection.{Arrival, Connection, Pipeline, receive, handle_connection}
use learning_redis.Server.Connection.View.{view, one_by_one, arrivals, run_each, bind_ext}
use learning_redis.Server.Connection.Order.{seen_as, handle_connection-one_by_one}
use learning_redis.Server.Stream.{Timing, arrival, stream_loop, handle_stream}

abbrev pub wire : List Command → Bytes
wire cmds = log (map command_line cmds)

abbrev pub capitals : Command → Command
capitals cmd = record { name = to_upper cmd.name; args = cmd.args }

-- The commands that the first `n` bytes hold whole, as they arrive from request `i` on.
abbrev pub received : Timing → ℕ → ℕ → List Command → List (Arrival × Command)
received t i n [] = []
received t i n (cmd ∷ cmds) =
    let size = length (encode_array (command_line cmd)) in
    let first = arrival t i (array (texts (command_line cmd))) (take (n - size) (wire cmds)) in
    let more = received t (i + 1) (n - size) cmds in
    if leb size n then (first, capitals cmd) ∷ more else []

received-parse :
    (t : Timing) (i n : ℕ) (cmds : List Command)
    → All (λ x. parse_command x.0.value ≡ parsed x.1) (received t i n cmds)
received-parse t i n [] = tt
received-parse t i n (cmd ∷ cmds) =
    let size = length (encode_array (command_line cmd)) in
    elim (Bool-cases (leb size n)) [
      | inl holds ↦
          rw holds (parse_command-texts cmd.name cmd.args, received-parse t (i + 1) (n - size) cmds)
      | inr cut ↦ rw cut tt
    ]

module _ (error_text : ParseError → Bytes) (srv : Server) (t : Timing) where
  stream_loop-end :
      (fuel i : ℕ) (c : Connection) (p : Pipeline) (s : Bytes) (e : ReadError)
      → decode_value s ≡ failed e
      → stream_loop error_text srv t (suc fuel) i c p s ≡ handle_connection error_text srv c p []
  unfolding stream_loop handle_connection
  stream_loop-end fuel i c p s e h = rw h refl

  -- A whole command is received, and the loop goes on with the bytes behind it.
  stream_loop-next :
      (fuel i : ℕ) (c : Connection) (p : Pipeline) (s rest : Bytes) (v : Value)
      (more : List Arrival)
      → decode_value s ≡ got v rest
      → ((c' : Connection) (p' : Pipeline)
          → stream_loop error_text srv t fuel (i + 1) c' p' rest
            ≡ handle_connection error_text srv c' p' more)
      → stream_loop error_text srv t (suc fuel) i c p s
        ≡ handle_connection error_text srv c p (arrival t i v rest ∷ more)
  unfolding stream_loop handle_connection
  stream_loop-next fuel i c p s rest v more h goes_on = rw h (
      bind_ext (receive error_text srv c p (arrival t i v rest))
        (λ x. stream_loop error_text srv t fuel (i + 1) x.0 x.1 rest)
        (λ x. handle_connection error_text srv x.0 x.1 more) (λ x. goes_on x.0 x.1))

  stream_loop-received :
      (cmds : List Command) (n fuel i : ℕ) (c : Connection) (p : Pipeline)
      → All (λ cmd. ArgsFit (command_line cmd)) cmds
      → length (take n (wire cmds)) < fuel
      → stream_loop error_text srv t fuel i c p (take n (wire cmds))
        ≡ handle_connection error_text srv c p (arrivals (received t i n cmds))
  stream_loop-received cmds n zero i c p fits lt = absurd (omega (arith, lt))
  stream_loop-received [] zero (suc fuel) i c p fits lt =
      stream_loop-end fuel i c p [] decode_value-nil.0 decode_value-nil.1
  stream_loop-received [] (suc n) (suc fuel) i c p fits lt =
      stream_loop-end fuel i c p [] decode_value-nil.0 decode_value-nil.1
  stream_loop-received (cmd ∷ cmds) n (suc fuel) i c p (fit, fits) lt =
      let line = encode_array (command_line cmd) in
      elim (Bool-cases (leb (length line) n)) [
        | inl holds ↦
            let le : length line ≤ n = leb→le (length line) n holds in
            let rest = take (n - length line) (wire cmds) in
            let v = array (texts (command_line cmd)) in
            let split = take-append_ge n line (wire cmds) le in
            let read = decode_value-encode_array (command_line cmd) rest fit in
            let smaller = decode_value-shorter (line ++ rest) v rest read in
            let less : length rest < fuel = omega (arith, smaller, ap length split, lt) in
            rw holds (
              stream_loop-next fuel i c p (take n (line ++ wire cmds)) rest v
                (arrivals (received t (i + 1) (n - length line) cmds))
                (ap decode_value split ∙ read)
                (λ c' p'. stream_loop-received cmds (n - length line) fuel (i + 1) c' p' fits less))
        | inr cut ↦
            let short : n < length line = ground (arith, cut) in
            let (e, failure) = decode_value-cut (command_line cmd) n fit short in
            rw (cut, take-append n line (wire cmds) (omega (arith, short)))
              (stream_loop-end fuel i c p (take n line) e failure)
      ]

  -- A client sends the bytes of encoded commands whose lengths fit the memory, and stops after
  -- any number of bytes, while no other connection uses the server. However they are buffered,
  -- the connection ends (or panics) as if the commands that were sent whole, with their names in
  -- capitals, were handled, served and answered one by one in order: with the same transaction
  -- state, data and append-only file, and the same bytes written to the client, sent or still in
  -- the buffer.
  pub handle_stream-one_by_one :
      (cmds : List Command) (n : ℕ) (c : Connection)
      → All (λ cmd. ArgsFit (command_line cmd)) cmds
      → (handle_stream error_text srv t c (take n (wire cmds)) >>= seen_as)
        ≡ one_by_one srv (received t 0 n cmds) c.tx (view c)
  unfolding handle_stream run_each
  handle_stream-one_by_one cmds n c fits =
      let s = take n (wire cmds) in
      ap (λ (o : Option Connection). o >>= seen_as)
        (stream_loop-received cmds n (length s + 1) 0 c none fits (omega arith))
      ∙ handle_connection-one_by_one error_text srv (received t 0 n cmds) c none
          (received-parse t 0 n cmds)
