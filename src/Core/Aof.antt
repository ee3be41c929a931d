-- ===== src/Core/Aof.antt =====
-- core/aof.go: the append-only file, as its bytes. What `Recover` passes to its function is a list, in order.
pub mod Recovered
use learning_redis.Common.{
  ℕ, zero, suc, ◌+◌, ◌-◌, List, [], ◌∷◌, ◌++◌, Bytes, Option, none, some, ◌>>=◌, length,
}
use learning_redis.Core.Encode.{encode_array}
use learning_redis.Core.Decode.{
  Value, Values, no_values, more_values, array, string, integer, Read, got, failed, panicked,
  out_of_fuel, decode_value,
}

-- `Write` appends the encoded command, where the disk takes all of it.
unfoldable pub write : Bytes → List Bytes → Bytes
write file args = file ++ encode_array args

-- `v.(string)`; an element that is not a string leaves the empty string that `make` put there.
abbrev pub string_of : Value → Bytes
string_of (string s) = s
string_of (integer n) = []
string_of (array vs) = []

unfoldable pub args_of : Values → List Bytes
args_of no_values = []
args_of (more_values v vs) = string_of v ∷ args_of vs

abbrev pub call_first : List Bytes → Option (List (List Bytes)) → Option (List (List Bytes))
call_first args calls = do rest ← calls; some (args ∷ rest)

-- One round of the loop, by what was decoded: an error ends it, and a value that is not an array is skipped. `none` is a panic.
abbrev pub recover_next :
    (Bytes → Option (List (List Bytes))) → Read Value → Option (List (List Bytes))
recover_next more (failed e) = some []
recover_next more panicked = none
recover_next more out_of_fuel = none
recover_next more (got (string s) rest) = more rest
recover_next more (got (integer n) rest) = more rest
recover_next more (got (array vs) rest) = call_first (args_of vs) (more rest)

unfoldable pub recover_loop : ℕ → Bytes → Option (List (List Bytes))
unfolding args_of
recover_loop zero file = none
recover_loop (suc fuel) file = recover_next (recover_loop fuel) (decode_value file)

-- `Recover`. Each round takes a byte at least.
unfoldable pub recover : Bytes → Option (List (List Bytes))
unfolding recover_loop
recover file = recover_loop (length file + 1) file
