-- ===== src/Core/Decode/Written.antt =====
-- core/resp.go and core/encode.go: what `EncodeArray` wrote is read back.
use learning_redis.Common.{
  ℕ, zero, suc, ◌+◌, ◌-◌, ◌*◌, ◌/◌, ◌%◌, ◌≤◌, List, [], ◌∷◌, ◌++◌, Bytes, true, false, some, ltb,
  leb, ◌==◌, ==_iff, length, get_elem?, get_elem?-length, take, drop, Bool-cases, arith, ◌≡◌, ◌≢◌,
  refl, inl, inr, All, length-append, take-length-append, drop-length-append, append_assoc,
  not-lt→ltb, ◌∙◌, sym,
}
use learning_redis.Common.Int.{ℤ, pos, negsuc}
use learning_redis.Common.Decimal.{
  decimal, format_nat, format_int, parse_int, parse_int-format_int, InInt64,
}
use learning_redis.Core.Encode.{crlf, bulk_strings, encode_bulk_string, encode_array}
use learning_redis.Core.Decode.{
  Values, no_values, more_values, array, string, ReadError, Read, got, and_then, max_alloc,
  read_string, read_line, number, has_byte, read_body, read_sized, read_bulk_string, read_elements,
  read_counted, read_array, decode, decode_value, invalid_length,
}

abbrev pub NotNewline : ℕ → Type 0
NotNewline c = c ≢ 10

decimal-NotNewline :
    (fuel n : ℕ) (acc : Bytes) → All NotNewline acc → All NotNewline (decimal fuel n acc)
unfolding decimal
decimal-NotNewline zero n acc h = h
decimal-NotNewline (suc fuel) n acc h = elim (Bool-cases (ltb n 10)) [
  | inl e ↦ rw e (λ same. omega (arith, same), h)
  | inr e ↦
      rw e (decimal-NotNewline fuel (n / 10) ((48 + n % 10) ∷ acc) (λ same. omega (arith, same), h))
]

pub format_nat-NotNewline : (n : ℕ) → All NotNewline (format_nat n)
unfolding format_nat
format_nat-NotNewline n = decimal-NotNewline 20 n [] tt

pub format_int-NotNewline : (n : ℤ) → All NotNewline (format_int n)
unfolding format_int format_nat
format_int-NotNewline (pos n) = decimal-NotNewline 20 n [] tt
format_int-NotNewline (negsuc n) =
    (λ same. omega (arith, same), decimal-NotNewline 20 (suc n) [] tt)

pub get_elem?-length_suc {ℓ} :
    {A : Type ℓ} (xs ys : List A) (y z : A) → get_elem? (xs ++ y ∷ z ∷ ys) (length xs + 1) ≡ some z
get_elem?-length_suc [] ys y z = refl
get_elem?-length_suc (x ∷ xs) ys y z =
    let one : suc (length xs) + 1 ≡ suc (length xs + 1) = omega arith in
    rw one (get_elem?-length_suc xs ys y z)

pub has_byte-some : (s : Bytes) (i c : ℕ) → get_elem? s i ≡ some c → has_byte s i c ≡ true
has_byte-some s i c h = rw h ((==_iff c c).1 refl)

read_string-line :
    (line rest : Bytes)
    → All NotNewline line
    → read_string (line ++ (crlf ++ rest)) ≡ some (line ++ crlf, rest)
unfolding read_string
read_string-line [] rest h = refl
read_string-line (c ∷ line) rest (ne, h) =
    let differs : (c == 10) ≡ false = ground (arith, ne) in
    rw (differs, read_string-line line rest h) refl

-- A line without a newline, and its end.
pub read_line-line :
    (line rest : Bytes) → All NotNewline line → read_line (line ++ (crlf ++ rest)) ≡ got line rest
unfolding read_line
read_line-line line rest h =
    let len : length (line ++ crlf) - 2 ≡ length line = omega (arith, length-append line crlf) in
    let two : leb 2 (length (line ++ crlf)) ≡ true = ground (arith, length-append line crlf) in
    let ret = has_byte-some (line ++ crlf) (length line) 13 (get_elem?-length line (10 ∷ []) 13) in
    rw (read_string-line line rest h, len, ret, two, take-length-append line crlf) refl

-- A line with a number of int64.
pub read_number {ℓ} :
    {A : Type ℓ} (e : ReadError) (f : ℤ → Bytes → Read A) (n : ℤ) (rest : Bytes)
    → InInt64 n
    → and_then (read_line (format_int n ++ (crlf ++ rest))) (λ line. number e f (parse_int line))
      ≡ f n rest
read_number e f n rest h =
    rw (read_line-line (format_int n) rest (format_int-NotNewline n), parse_int-format_int n h) refl

read_body-written :
    (s rest : Bytes)
    → length s + 2 ≤ max_alloc
    → read_body (length s) (s ++ (crlf ++ rest)) ≡ got s rest
read_body-written s rest h =
    let fits : ltb max_alloc (length s + 2) ≡ false = ground (arith, h) in
    let whole : ltb (length (s ++ (crlf ++ rest))) (length s + 2) ≡ false =
      not-lt→ltb (length (s ++ (crlf ++ rest))) (length s + 2)
        (λ lt. omega (arith, lt, length-append s (crlf ++ rest))) in
    let size : length s + 2 ≡ length (s ++ crlf) = omega (arith, length-append s crlf) in
    let buffer : take (length s + 2) (s ++ (crlf ++ rest)) ≡ s ++ crlf =
      rw (size, sym (append_assoc s crlf rest)) (take-length-append (s ++ crlf) rest) in
    let left : drop (length s + 2) (s ++ (crlf ++ rest)) ≡ rest =
      rw (size, sym (append_assoc s crlf rest)) (drop-length-append (s ++ crlf) rest) in
    let ret = has_byte-some (s ++ crlf) (length s) 13 (get_elem?-length s (10 ∷ []) 13) in
    let newline = has_byte-some (s ++ crlf) (length s + 1) 10 (get_elem?-length_suc s [] 13 10) in
    rw (fits, whole, buffer, left, ret, newline, take-length-append s crlf) refl

abbrev pub texts : List Bytes → Values
texts [] = no_values
texts (s ∷ ss) = more_values (string s) (texts ss)

-- What one allocation can hold.
abbrev pub FitsMemory : Bytes → Type 0
FitsMemory s = length s + 2 ≤ max_alloc

abbrev pub ArgsFit : List Bytes → Type 0
ArgsFit args = (length args * 16 ≤ max_alloc) × All FitsMemory args

pub decode-encode_bulk_string :
    (fuel : ℕ) (s rest : Bytes)
    → FitsMemory s
    → decode (suc fuel) (encode_bulk_string s ++ rest) ≡ got (string s) rest
unfolding decode encode_bulk_string read_bulk_string
decode-encode_bulk_string fuel s rest h =
    let len = format_nat (length s) in
    let back : read_bulk_string (len ++ (crlf ++ (s ++ (crlf ++ rest)))) ≡ got s rest =
      unfold read_bulk_string format_int in
      (read_number invalid_length read_sized (pos (length s)) (s ++ (crlf ++ rest))
          (omega (arith, h))
        ∙ read_body-written s rest h) in
    rw (append_assoc len (crlf ++ (s ++ crlf)) rest, append_assoc s crlf rest, back) refl

read_elements-texts :
    (fuel i : ℕ) (args : List Bytes) (rest : Bytes)
    → All FitsMemory args
    → read_elements (decode (suc fuel)) (length args) i (bulk_strings args ++ rest)
      ≡ got (texts args) rest
unfolding read_elements bulk_strings
read_elements-texts fuel i [] rest h = refl
read_elements-texts fuel i (s ∷ args) rest (fits, h) =
    rw
      (
        append_assoc (encode_bulk_string s) (bulk_strings args) rest,
        decode-encode_bulk_string fuel s (bulk_strings args ++ rest) fits,
        read_elements-texts fuel (i + 1) args rest h,
      )
      refl

decode-encode_array :
    (fuel : ℕ) (args : List Bytes) (rest : Bytes)
    → ArgsFit args
    → decode (suc (suc fuel)) (encode_array args ++ rest) ≡ got (array (texts args)) rest
unfolding decode encode_array read_array
decode-encode_array fuel args rest (few, h) =
    let len = format_nat (length args) in
    let fits : ltb max_alloc (length args * 16) ≡ false = ground (arith, few) in
    let counted : read_counted (decode (suc fuel)) (pos (length args)) (bulk_strings args ++ rest)
        ≡ got (texts args) rest =
      rw (fits, read_elements-texts fuel 0 args rest h) refl in
    let back : read_array (decode (suc fuel)) (len ++ (crlf ++ (bulk_strings args ++ rest)))
        ≡ got (texts args) rest =
      unfold read_array format_int in
      (read_number invalid_length (read_counted (decode (suc fuel))) (pos (length args))
          (bulk_strings args ++ rest) (omega (arith, few))
        ∙ counted) in
    rw (append_assoc len (crlf ++ bulk_strings args) rest, back) refl

spend :
    (args : List Bytes) (rest : Bytes) (fuel : ℕ)
    → ArgsFit args
    → 2 ≤ fuel
    → decode fuel (encode_array args ++ rest) ≡ got (array (texts args)) rest
spend args rest zero h le = absurd (omega (arith, le))
spend args rest (suc zero) h le = absurd (omega (arith, le))
spend args rest (suc (suc fuel)) h le = decode-encode_array fuel args rest h

length-encode_array : (args : List Bytes) (rest : Bytes) → 1 ≤ length (encode_array args ++ rest)
unfolding encode_array
length-encode_array args rest = omega arith

-- A command that `EncodeArray` wrote is read back, and the bytes after it are left.
pub decode_value-encode_array :
    (args : List Bytes) (rest : Bytes)
    → ArgsFit args
    → decode_value (encode_array args ++ rest) ≡ got (array (texts args)) rest
unfolding decode_value
decode_value-encode_array args rest h =
    spend args rest (length (encode_array args ++ rest) + 1) h
      (omega (arith, length-encode_array args rest))
