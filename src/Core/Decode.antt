-- ===== src/Core/Decode.antt =====
-- core/resp.go and core/decode.go: RESP values read from a stream of bytes.
pub mod Prefix
pub mod Total
pub mod Written
pub mod Replies
use learning_redis.Common.{
  ℕ, zero, suc, ◌+◌, ◌-◌, ◌*◌, ◌^◌, List, [], ◌∷◌, ◌++◌, Bytes, Bool, true, false, ◌&&◌, Option,
  none, some, ◌>>=◌, ltb, leb, ◌==◌, if◌then◌else◌, length, get_elem?, take, drop,
}
use learning_redis.Common.Int.{ℤ, pos, negsuc}
use learning_redis.Common.Decimal.{parse_int}

-- What `Decode` returns: an array, a string, or an integer.
mutual
  pub data Value : Type 0 where
    array : Values → Value
    string : Bytes → Value
    integer : ℤ → Value

  pub data Values : Type 0 where
    no_values : Values
    more_values : Value → Values → Values

-- The errors; the index is that of the element of an array.
pub data ReadError : Type 0 where
  end_of_input : ReadError
  malformed_line : ReadError
  invalid_integer : ReadError
  invalid_length : ReadError
  short_body : ReadError
  not_terminated : ReadError
  unknown_type : ReadError
  element : ℕ → ReadError → ReadError

-- A value with the bytes that are left to read, an error, or a panic.
pub data Read {ℓ} (A : Type ℓ) : Type ℓ where
  got : A → Bytes → Read A
  failed : ReadError → Read A
  panicked : Read A
  out_of_fuel : Read A

abbrev pub and_then {ℓ κ} : {A : Type ℓ} {B : Type κ} → Read A → (A → Bytes → Read B) → Read B
and_then (got a rest) f = f a rest
and_then (failed e) f = failed e
and_then panicked f = panicked
and_then out_of_fuel f = out_of_fuel

-- The bytes that one allocation can have at most on a 64-bit system; `make` panics above it.
abbrev pub max_alloc : ℕ
max_alloc = 2 ^ 48

abbrev pub longer : ℕ → Bytes × Bytes → Option (Bytes × Bytes)
longer c (line, rest) = some (c ∷ line, rest)

-- `r.ReadString('\n')`: the bytes up to the newline, which they end with, and the rest.
unfoldable pub read_string : Bytes → Option (Bytes × Bytes)
read_string [] = none
read_string (c ∷ cs) =
    let more = read_string cs in if c == 10 then some (c ∷ [], cs) else (more >>= longer c)

abbrev pub is_byte : ℕ → Option ℕ → Bool
is_byte c none = false
is_byte c (some d) = d == c

-- A test of one byte, by its index.
abbrev pub has_byte : Bytes → ℕ → ℕ → Bool
has_byte buffer i c = is_byte c (get_elem? buffer i)

abbrev pub ends_line : Bytes → Bool
ends_line line = leb 2 (length line) && has_byte line (length line - 2) 13

abbrev pub line_of : Option (Bytes × Bytes) → Read Bytes
line_of none = failed end_of_input
line_of (some (line, rest)) =
    if ends_line line then got (take (length line - 2) line) rest else failed malformed_line

unfoldable pub read_line : Bytes → Read Bytes
unfolding read_string
read_line s = line_of (read_string s)

unfoldable pub read_simple_string : Bytes → Read Bytes
read_simple_string s = read_line s

unfoldable pub read_error : Bytes → Read Bytes
read_error s = read_line s

-- A number that `strconv` read, or the error.
abbrev pub number {ℓ} : {A : Type ℓ} → ReadError → (ℤ → Bytes → Read A) → Option ℤ → Bytes → Read A
number e f none rest = failed e
number e f (some n) rest = f n rest

unfoldable pub read_integer : Bytes → Read ℤ
unfolding read_line
read_integer s = and_then (read_line s) (λ line. number invalid_integer got (parse_int line))

-- The body and its end, once `need` bytes are allocated. A buffer of `need` bytes has the two that are tested.
abbrev pub read_body : ℕ → Bytes → Read Bytes
read_body len rest =
    let buffer = take (len + 2) rest in
    if ltb max_alloc (len + 2)
    then panicked
    else if ltb (length rest) (len + 2)
    then failed short_body
    else if has_byte buffer len 13 && has_byte buffer (len + 1) 10
    then got (take len buffer) (drop (len + 2) rest)
    else failed not_terminated

-- A length of -1 is the null string; a length below makes `make` or the test of the end panic.
abbrev pub read_sized : ℤ → Bytes → Read Bytes
read_sized (pos len) rest = read_body len rest
read_sized (negsuc zero) rest = got [] rest
read_sized (negsuc (suc n)) rest = panicked

unfoldable pub read_bulk_string : Bytes → Read Bytes
unfolding read_line
read_bulk_string s =
    and_then (read_line s) (λ line. number invalid_length read_sized (parse_int line))

abbrev pub at_element : ℕ → Read Value → Read Value
at_element i (failed e) = failed (element i e)
at_element i (got v rest) = got v rest
at_element i panicked = panicked
at_element i out_of_fuel = out_of_fuel

abbrev pub put_first : Value → Values → Bytes → Read Values
put_first v vs rest = got (more_values v vs) rest

-- The loop over the elements: `count` of them, from position `i`.
unfoldable pub read_elements : (Bytes → Read Value) → ℕ → ℕ → Bytes → Read Values
read_elements decode_one zero i s = got no_values s
read_elements decode_one (suc count) i s =
    and_then (at_element i (decode_one s))
      (λ v rest. and_then (read_elements decode_one count (i + 1) rest) (put_first v))

-- `make([]any, count)`, with 16 bytes for each element, then the loop.
abbrev pub read_counted : (Bytes → Read Value) → ℤ → Bytes → Read Values
read_counted decode_one (pos count) rest =
    if ltb max_alloc (count * 16) then panicked else read_elements decode_one count 0 rest
read_counted decode_one (negsuc n) rest = panicked

unfoldable pub read_array : (Bytes → Read Value) → Bytes → Read Values
unfolding read_line read_elements
read_array decode_one s =
    and_then (read_line s)
      (λ line. number invalid_length (read_counted decode_one) (parse_int line))

abbrev pub map_read {ℓ κ} : {A : Type ℓ} {B : Type κ} → (A → B) → Read A → Read B
map_read f (got a rest) = got (f a) rest
map_read f (failed e) = failed e
map_read f panicked = panicked
map_read f out_of_fuel = out_of_fuel

-- The switch over the type byte.
abbrev pub read_typed : (Bytes → Read Value) → ℕ → Bytes → Read Value
read_typed decode_one c s =
    if c == b'+'
    then map_read string (read_simple_string s)
    else if c == b'-'
    then map_read string (read_error s)
    else if c == b':'
    then map_read integer (read_integer s)
    else if c == b'$'
    then map_read string (read_bulk_string s)
    else if c == b'*'
    then map_read array (read_array decode_one s)
    else failed unknown_type

-- `decode` on fuel, which bounds the depth of arrays in arrays.
unfoldable pub decode : ℕ → Bytes → Read Value
unfolding read_simple_string read_error read_integer read_bulk_string read_array
decode zero s = out_of_fuel
decode (suc fuel) [] = failed end_of_input
decode (suc fuel) (c ∷ cs) = read_typed (decode fuel) c cs

-- `Decode`. An array in an array is at least a byte shorter.
unfoldable pub decode_value : Bytes → Read Value
unfolding decode
decode_value s = decode (length s + 1) s

-- `strings.TrimPrefix(s, ":")` and `strings.TrimSuffix(s, "\r\n")`.
abbrev pub trim_colon : Bytes → Bytes
trim_colon [] = []
trim_colon (c ∷ cs) = if c == b':' then cs else c ∷ cs

abbrev pub trim_crlf : Bytes → Bytes
trim_crlf s =
    if leb 2 (length s) && has_byte s (length s - 2) 13 && has_byte s (length s - 1) 10
    then take (length s - 2) s
    else s

unfoldable pub decode_integer : Bytes → Option ℤ
decode_integer b = parse_int (trim_crlf (trim_colon b))
