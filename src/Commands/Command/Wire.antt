-- ===== src/Commands/Command/Wire.antt =====
-- commands/command.go, core/encode.go and core/resp.go: a command on the wire and in the append-only file.
use learning_redis.Common.{
  ℕ, ◌+◌, ◌-◌, ◌≤◌, ◌≡◌, refl, ap, arith, List, [], ◌∷◌, ◌++◌, Bytes, Bool, true, false, ◌&&◌, leb,
  leb→le, Bool-cases, inl, inr,
}
use learning_redis.Core.Encode.{encode_array}
use learning_redis.Core.Decode.{Value, array, got, decode_value}
use learning_redis.Core.Decode.Written.{texts, ArgsFit, decode_value-encode_array}
use learning_redis.Commands.Command.{
  Command, parsed, parse_parts, upper, to_upper, command_of, parse_command,
}

parse_parts-texts : (args : List Bytes) (i : ℕ) → parse_parts (texts args) i ≡ parsed args
unfolding parse_parts
parse_parts-texts [] i = refl
parse_parts-texts (s ∷ args) i = rw (parse_parts-texts args (i + 1)) refl

pub parse_command-texts :
    (name : Bytes) (args : List Bytes)
    → parse_command (array (texts (name ∷ args)))
      ≡ parsed (record { name = to_upper name; args = args })
unfolding parse_command
parse_command-texts name args = ap command_of (parse_parts-texts (name ∷ args) 0)

-- A name and arguments, as they are sent and logged.
abbrev pub command_line : Command → List Bytes
command_line cmd = cmd.name ∷ cmd.args

-- A client that sends EncodeArray of a name and arguments whose lengths fit the memory is
-- understood, whatever follows: the command has the name in capitals, the arguments as they
-- were, and the bytes after it are left for the next one.
pub parse_command-encode_array :
    (name : Bytes) (args : List Bytes) (rest : Bytes)
    → ArgsFit (name ∷ args)
    → (v : Value) × (decode_value (encode_array (name ∷ args) ++ rest) ≡ got v rest)
      × (parse_command v ≡ parsed (record { name = to_upper name; args = args }))
parse_command-encode_array name args rest fits = (
  array (texts (name ∷ args)),
  decode_value-encode_array (name ∷ args) rest fits,
  parse_command-texts name args,
)

-- A letter in capitals stays as it is.
upper_idem : (c : ℕ) → upper (upper c) ≡ upper c
upper_idem c = elim (Bool-cases (leb b'a' c && leb c b'z')) [
  | inl small ↦
      let fits : c ≤ b'z' = leb→le c b'z' (right (leb b'a' c) (leb c b'z') small) in
      let big : (leb b'a' (c - 32) && leb (c - 32) b'z') ≡ false = ground (arith, fits) in
      rw (small, big) refl
  | inr other ↦ rw (other, other) refl
]
  where
    right : (a b : Bool) → (a && b) ≡ true → b ≡ true
    right true b h = h
    right false b h = ground (arith, h)

pub to_upper_idem : (s : Bytes) → to_upper (to_upper s) ≡ to_upper s
unfolding to_upper
to_upper_idem [] = refl
to_upper_idem (c ∷ cs) = rw (upper_idem c, to_upper_idem cs) refl
