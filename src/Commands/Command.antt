-- ===== src/Commands/Command.antt =====
-- commands/command.go and commands/keyspecs.go: a parsed request, and its keys.
pub mod Keys
pub mod Wire
use learning_redis.Common.{
  ℕ, zero, suc, ◌+◌, ◌-◌, List, [], ◌∷◌, Bytes, Bool, Option, none, some, ◌>>=◌, ltb, leb, ◌==◌,
  if◌then◌else◌, length, get_elem?, false, bytes_eq, codes, map, ◌&&◌,
}
use learning_redis.Common.Int.{ℤ, pos, negsuc}
use learning_redis.Core.Decode.{Value, Values, array, string, integer, no_values, more_values}

pub record Command : Type 0 where
  pub name : Bytes
  pub args : List Bytes

-- The three kinds of error of `ParseCommand`; the index is that of the element.
pub data ParseError : Type 0 where
  expected_array : ParseError
  empty_command : ParseError
  expected_bulk_string : ℕ → ParseError

pub data Parsed {ℓ} (A : Type ℓ) : Type ℓ where
  parsed : A → Parsed A
  refused : ParseError → Parsed A

abbrev pub prepend : Bytes → Parsed (List Bytes) → Parsed (List Bytes)
prepend s (parsed rest) = parsed (s ∷ rest)
prepend s (refused e) = refused e

unfoldable pub parse_parts : Values → ℕ → Parsed (List Bytes)
parse_parts no_values i = parsed []
parse_parts (more_values (string s) vs) i = prepend s (parse_parts vs (i + 1))
parse_parts (more_values (array a) vs) i = refused (expected_bulk_string i)
parse_parts (more_values (integer n) vs) i = refused (expected_bulk_string i)

-- `strings.ToUpper`, on ASCII letters.
abbrev pub upper : ℕ → ℕ
upper c = if leb b'a' c && leb c b'z' then c - 32 else c

unfoldable pub to_upper : Bytes → Bytes
to_upper s = map upper s

abbrev pub command_of : Parsed (List Bytes) → Parsed Command
command_of (refused e) = refused e
command_of (parsed []) = refused empty_command
command_of (parsed (name ∷ args)) = parsed (record { name = to_upper name; args = args })

unfoldable pub parse_command : Value → Parsed Command
unfolding parse_parts
parse_command (string s) = refused expected_array
parse_command (integer n) = refused expected_array
parse_command (array no_values) = refused empty_command
parse_command (array (more_values v vs)) = command_of (parse_parts (more_values v vs) 0)

pub record KeySpec : Type 0 where
  pub first : ℕ
  pub last : ℤ
  pub step : ℕ

abbrev pub no_keys : KeySpec
no_keys = record { first = 0; last = pos 0; step = 0 }

abbrev pub one_key : KeySpec
one_key = record { first = 1; last = pos 1; step = 1 }

abbrev pub all_keys : KeySpec
all_keys = record { first = 1; last = negsuc 0; step = 1 }

abbrev pub key_specs : List (Bytes × KeySpec)
key_specs =
    (codes "GET", one_key)
    ∷ (codes "SET", one_key)
    ∷ (codes "EXPIRE", one_key)
    ∷ (codes "TTL", one_key)
    ∷ (codes "INCR", one_key)
    ∷ (codes "APPEND", one_key)
    ∷ (codes "PFADD", one_key)
    ∷ (codes "PFCOUNT", all_keys)
    ∷ (codes "PFMERGE", all_keys)
    ∷ (codes "DEL", all_keys)
    ∷ (codes "OBJECT", record { first = 2; last = pos 2; step = 1 })
    ∷ (codes "PING", no_keys)
    ∷ (codes "INFO", no_keys)
    ∷ (codes "DEBUG", no_keys)
    ∷ (codes "CLUSTER", no_keys)
    ∷ (codes "_EXPIRY", no_keys)
    ∷ []

-- A read of a map with string keys.
unfoldable pub find {ℓ} : {A : Type ℓ} → Bytes → List (Bytes × A) → Option A
find name [] = none
find name ((n, a) ∷ rest) = let found = find name rest in if bytes_eq n name then some a else found

-- The position of the last key; a negative one counts from the end.
abbrev pub last_of : ℕ → ℤ → ℤ
last_of argc (pos n) = pos n
last_of argc (negsuc n) = if ltb n argc then pos (argc - suc n) else negsuc (n - argc)

abbrev pub at_most : ℕ → ℤ → Bool
at_most p (pos n) = leb p n
at_most p (negsuc n) = false

-- `for pos := spec.First; pos <= last && pos < argc; pos += spec.Step`, on fuel.
unfoldable pub keys_loop : ℕ → ℕ → ℕ → ℤ → ℕ → List Bytes → Option (List Bytes)
keys_loop zero p step last argc args = none
keys_loop (suc fuel) p step last argc args =
    let more = do
      key ← get_elem? args (p - 1)
      keys ← keys_loop fuel (p + step) step last argc args
      some (key ∷ keys)
    in if at_most p last && ltb p argc then more else some []

-- The keys under a spec. Each step is 1 where there are keys, so a round for each argument is enough.
unfoldable pub keys_under : KeySpec → List Bytes → Option (List Bytes)
unfolding keys_loop
keys_under spec args =
    let argc = length args + 1 in
    let looped = keys_loop (argc + 1) spec.first spec.step (last_of argc spec.last) argc args in
    if spec.first == 0 then some [] else looped

abbrev pub keys_for : Command → Option KeySpec → Option (List Bytes)
keys_for cmd none = some []
keys_for cmd (some spec) = keys_under spec cmd.args

-- `KeysOf`, whose first result both callers use. `none` is a panic, or out of fuel.
unfoldable pub keys_of : Command → Option (List Bytes)
unfolding keys_under find
keys_of cmd = keys_for cmd (find cmd.name key_specs)
