-- ===== src/Core/Decode/Replies.antt =====
-- core/resp.go, core/encode.go and core/decode.go: each reply that the encoders make is one RESP value.
use learning_redis.Common.{
  get_elem?-length, ℕ, suc, ◌+◌, ◌-◌, ◌*◌, ◌≤◌, ◌<◌, List, [], ◌∷◌, ◌++◌, Bytes, false, true, some,
  ltb, leb, length, arith, ◌≡◌, refl, All, length-append, take-length-append, append_assoc,
  append-nil, ap, ◌∙◌, subst, sym,
}
use learning_redis.Common.Int.{ℤ, pos}
use learning_redis.Common.Decimal.{
  format_nat, format_int, parse_int, parse_int-format_int, InInt64, read_nat, read_digits,
}
use learning_redis.Core.Encode.{
  crlf, concat, encode_bulk_string, encode_null_bulk_string, encode_integer, encode_simple_string,
  encode_error, encode_raw_array,
}
use learning_redis.Core.Decode.{
  Value, Values, no_values, more_values, array, string, integer, Read, got, max_alloc,
  read_bulk_string, read_elements, read_line, read_string, read_counted, read_array, decode,
  decode_value, invalid_length, read_integer, read_simple_string, decode_integer, invalid_integer,
  read_error, read_typed,
}
use learning_redis.Core.Decode.Prefix.{Extends, decode-Extends}
use learning_redis.Core.Decode.Written.{
  NotNewline, read_line-line, read_number, has_byte-some, get_elem?-length_suc, FitsMemory,
  decode-encode_bulk_string,
}

-- The bytes are exactly one RESP value.
abbrev pub IsReply : Bytes → Type 0
IsReply b = (v : Value) × (decode_value b ≡ got v [])

-- With fuel for its bytes, a reply is read and what follows is left.
decode-IsReply :
    (b : Bytes) (v : Value) (rest : Bytes) (fuel : ℕ)
    → decode_value b ≡ got v []
    → length b < fuel
    → decode fuel (b ++ rest) ≡ got v rest
unfolding decode_value
decode-IsReply b v rest fuel h lt =
    subst (λ (r : Read Value). Extends r rest (decode fuel (b ++ rest))) h
      (decode-Extends (length b + 1) fuel b rest (omega (arith, lt)))

-- The type byte, then the rest of the value.
by_type :
    (c : ℕ) (s : Bytes) (v : Value)
    → read_typed (decode (length s + 1)) c s ≡ got v []
    → decode_value (c ∷ s) ≡ got v []
unfolding decode_value decode
by_type c s v h = let one : suc (length s) + 1 ≡ suc (length s + 1) = omega arith in rw one h

pub encode_simple_string-IsReply : (s : Bytes) → All NotNewline s → IsReply (encode_simple_string s)
unfolding encode_simple_string
encode_simple_string-IsReply s h = (
  string s,
  by_type b'+' (s ++ crlf) (string s)
      (unfold read_simple_string in rw (read_line-line s [] h) refl),
)

pub encode_error-IsReply : (s : Bytes) → All NotNewline s → IsReply (encode_error s)
unfolding encode_error
encode_error-IsReply s h = (
  string s,
  by_type b'-' (s ++ crlf) (string s) (unfold read_error in rw (read_line-line s [] h) refl),
)

pub encode_integer-IsReply : (n : ℤ) → InInt64 n → IsReply (encode_integer n)
unfolding encode_integer
encode_integer-IsReply n h = (
  integer n,
  by_type b':' (format_int n ++ crlf) (integer n)
      (unfold read_integer in rw (read_number invalid_integer got n [] h) refl),
)

pub encode_bulk_string-IsReply : (s : Bytes) → FitsMemory s → IsReply (encode_bulk_string s)
unfolding decode_value
encode_bulk_string-IsReply s h = (
  string s,
  ap (λ (b : Bytes). decode_value b) (sym (append-nil (encode_bulk_string s)))
      ∙ exact (encode_bulk_string s) [] (string s) (λ fuel. decode-encode_bulk_string fuel s [] h),
)
  where
    exact :
        (b rest : Bytes) (v : Value)
        → ((fuel : ℕ) → decode (suc fuel) (b ++ rest) ≡ got v rest)
        → decode (length (b ++ rest) + 1) (b ++ rest) ≡ got v rest
    exact b rest v h =
        let one : length (b ++ rest) + 1 ≡ suc (length (b ++ rest)) = omega arith in
        rw one (h (length (b ++ rest)))

pub encode_null_bulk_string-IsReply : IsReply encode_null_bulk_string
unfolding encode_null_bulk_string decode_value decode read_bulk_string read_line read_string
    parse_int read_nat read_digits
encode_null_bulk_string-IsReply = (string [], refl)

-- Replies one after the other, as the elements of an array.
read_elements-concat :
    (fuel i : ℕ) (items : List Bytes) (rest : Bytes)
    → All IsReply items
    → length (concat items) < fuel
    → (vs : Values) × (read_elements (decode fuel) (length items) i (concat items ++ rest)
        ≡ got vs rest)
unfolding concat read_elements
read_elements-concat fuel i [] rest h lt = (no_values, refl)
read_elements-concat fuel i (b ∷ items) rest ((v, hv), h) lt =
    let size = length-append b (concat items) in
    let (vs, hvs) = read_elements-concat fuel (i + 1) items rest h (omega (arith, lt, size)) in
    (
      more_values v vs,
      rw
          (
            append_assoc b (concat items) rest,
            decode-IsReply b v (concat items ++ rest) fuel hv (omega (arith, lt, size)),
            hvs,
          )
          refl,
    )

read_array-counted :
    (fuel : ℕ) (items : List Bytes) (vs : Values)
    → length items * 16 ≤ max_alloc
    → read_elements (decode fuel) (length items) 0 (concat items) ≡ got vs []
    → read_array (decode fuel) (format_nat (length items) ++ (crlf ++ concat items)) ≡ got vs []
unfolding read_array format_int
read_array-counted fuel items vs few h =
    let fits : ltb max_alloc (length items * 16) ≡ false = ground (arith, few) in
    let counted : read_counted (decode fuel) (pos (length items)) (concat items) ≡ got vs [] =
      rw (fits, h) refl in
    read_number invalid_length (read_counted (decode fuel)) (pos (length items)) (concat items)
      (omega (arith, few))
    ∙ counted

-- An array of replies is a reply, to any depth.
pub encode_raw_array-IsReply :
    (items : List Bytes)
    → length items * 16 ≤ max_alloc
    → All IsReply items
    → IsReply (encode_raw_array items)
unfolding encode_raw_array
encode_raw_array-IsReply items few h =
    let body = format_nat (length items) ++ (crlf ++ concat items) in
    let size = length-append (format_nat (length items)) (crlf ++ concat items) in
    let fuel = length body + 1 in
    let (vs, hvs) = read_elements-concat fuel 0 items [] h (omega (arith, size)) in
    let exact : read_elements (decode fuel) (length items) 0 (concat items) ≡ got vs [] =
      subst (λ (t : Bytes). read_elements (decode fuel) (length items) 0 t ≡ got vs [])
        (append-nil (concat items)) hvs in
    (array vs, by_type b'*' body (array vs) (rw (read_array-counted fuel items vs few exact) refl))

-- `DecodeInteger` reads what `EncodeInteger` wrote.
pub decode_integer-encode_integer : (n : ℤ) → InInt64 n → decode_integer (encode_integer n) ≡ some n
unfolding decode_integer encode_integer
decode_integer-encode_integer n h =
    let line = format_int n in
    let len : length (line ++ crlf) - 2 ≡ length line = omega (arith, length-append line crlf) in
    let last : length (line ++ crlf) - 1 ≡ length line + 1 =
      omega (arith, length-append line crlf) in
    let two : leb 2 (length (line ++ crlf)) ≡ true = ground (arith, length-append line crlf) in
    let ret = has_byte-some (line ++ crlf) (length line) 13 (get_elem?-length line (10 ∷ []) 13) in
    let newline =
      has_byte-some (line ++ crlf) (length line + 1) 10 (get_elem?-length_suc line [] 13 10) in
    rw (two, len, last, ret, newline, take-length-append line crlf) (parse_int-format_int n h)
