-- ===== src/Core/Decode/Total.antt =====
-- core/resp.go: reading a value ends, and takes bytes from the stream.
use learning_redis.Common.{
  ℕ, zero, suc, ◌+◌, ◌-◌, ◌*◌, ◌≤◌, ◌<◌, [], ◌∷◌, Bytes, Bool, true, false, ◌&&◌, Option, none,
  some, ltb, ◌==◌, if◌then◌else◌, length, take, drop, Bool-cases, arith, ◌≡◌, subst, inl, inr,
}
use learning_redis.Common.Int.{ℤ, pos, negsuc}
use learning_redis.Common.Decimal.{parse_int}
use learning_redis.Core.Decode.{
  Value, array, string, integer, ReadError, malformed_line, not_terminated, short_body,
  invalid_integer, invalid_length, unknown_type, Read, got, failed, panicked, out_of_fuel, and_then,
  max_alloc, read_string, ends_line, line_of, read_line, read_simple_string, read_error, number,
  read_integer, has_byte, read_body, read_sized, read_bulk_string, at_element, put_first,
  read_elements, read_counted, read_array, map_read, read_typed, decode, decode_value, longer,
  ◌>>=◌,
}

-- The fuel is enough, and `n` bytes at most are left.
abbrev pub Leaves {ℓ} : {A : Type ℓ} → ℕ → Read A → Type 0
Leaves n (got a rest) = length rest ≤ n
Leaves n (failed e) = Unit
Leaves n panicked = Unit
Leaves n out_of_fuel = ⊥

Leaves-le {ℓ} : {A : Type ℓ} (n m : ℕ) (r : Read A) → n ≤ m → Leaves n r → Leaves m r
Leaves-le n m (got a rest) h le = omega (arith, h, le)
Leaves-le n m (failed e) h le = tt
Leaves-le n m panicked h le = tt
Leaves-le n m out_of_fuel h le = le

and_then-Leaves {ℓ κ} :
    {A : Type ℓ} {B : Type κ} (f : A → Bytes → Read B) (n m : ℕ) (r : Read A)
    → Leaves n r
    → ((a : A) (rest : Bytes) → length rest ≤ n → Leaves m (f a rest))
    → Leaves m (and_then r f)
and_then-Leaves f n m (got a rest) le h = h a rest le
and_then-Leaves f n m (failed e) le h = tt
and_then-Leaves f n m panicked le h = tt
and_then-Leaves f n m out_of_fuel le h = le

map_read-Leaves {ℓ κ} :
    {A : Type ℓ} {B : Type κ} (f : A → B) (n : ℕ) (r : Read A)
    → Leaves n r
    → Leaves n (map_read f r)
map_read-Leaves f n (got a rest) le = le
map_read-Leaves f n (failed e) le = tt
map_read-Leaves f n panicked le = tt
map_read-Leaves f n out_of_fuel le = le

if-Leaves {ℓ} :
    {A : Type ℓ} (b : Bool) (n : ℕ) (r r' : Read A)
    → Leaves n r
    → Leaves n r'
    → Leaves n (if b then r else r')
if-Leaves true n r r' h h' = h
if-Leaves false n r r' h h' = h'

length-drop_le : (n : ℕ) (s : Bytes) → length (drop n s) ≤ length s
length-drop_le zero s = omega arith
length-drop_le (suc n) [] = omega arith
length-drop_le (suc n) (c ∷ cs) = omega (arith, length-drop_le n cs)

read_line-Leaves : (s : Bytes) → Leaves (length s) (read_line s)
unfolding read_line read_string
read_line-Leaves s = by_string (read_string s) (shorter s)
  where
    Shorter : ℕ → Option (Bytes × Bytes) → Type 0
    Shorter n none = Unit
    Shorter n (some (line, rest)) = length rest ≤ n

    grown : (c n : ℕ) (o : Option (Bytes × Bytes)) → Shorter n o → Shorter (suc n) (o >>= longer c)
    grown c n none h = tt
    grown c n (some (line, rest)) h = omega (arith, h)

    shorter : (s : Bytes) → Shorter (length s) (read_string s)
    shorter [] = tt
    shorter (c ∷ cs) = elim (Bool-cases (c == 10)) [
      | inl e ↦ rw e omega arith
      | inr e ↦ rw e (grown c (length cs) (read_string cs) (shorter cs))
    ]

    by_string : (o : Option (Bytes × Bytes)) → Shorter (length s) o → Leaves (length s) (line_of o)
    by_string none h = tt
    by_string (some (line, rest)) h =
        if-Leaves (ends_line line) (length s) (got (take (length line - 2) line) rest)
          (failed malformed_line) h tt

read_body-Leaves : (len : ℕ) (s : Bytes) → Leaves (length s) (read_body len s)
read_body-Leaves len s = if-Leaves (ltb max_alloc (len + 2)) (length s) panicked _ tt (
    if-Leaves (ltb (length s) (len + 2)) (length s) (failed short_body) _ tt (
      if-Leaves (has_byte (take (len + 2) s) len 13 && has_byte (take (len + 2) s) (len + 1) 10)
        (length s) (got (take len (take (len + 2) s)) (drop (len + 2) s)) (failed not_terminated)
        (length-drop_le (len + 2) s) tt))

read_sized-Leaves : (n : ℤ) (s : Bytes) → Leaves (length s) (read_sized n s)
read_sized-Leaves (pos len) s = read_body-Leaves len s
read_sized-Leaves (negsuc zero) s = omega arith
read_sized-Leaves (negsuc (suc n)) s = tt

number-Leaves {ℓ} :
    {A : Type ℓ} (e : ReadError) (f : ℤ → Bytes → Read A) (s : Bytes)
    → ((n : ℤ) (rest : Bytes) → length rest ≤ length s → Leaves (length s) (f n rest))
    → Leaves (length s) (and_then (read_line s) (λ line. number e f (parse_int line)))
number-Leaves e f s h =
    and_then-Leaves (λ line. number e f (parse_int line)) (length s) (length s) (read_line s)
      (read_line-Leaves s) (λ line rest le. by_number (parse_int line) rest le)
  where
    by_number :
        (o : Option ℤ) (rest : Bytes)
        → length rest ≤ length s
        → Leaves (length s) (number e f o rest)
    by_number none rest le = tt
    by_number (some n) rest le = h n rest le

module _ (d : Bytes → Read Value) (m : ℕ)
    (h : (s : Bytes) → length s < m → Leaves (length s) (d s)) where
  at_element-Leaves : (i n : ℕ) (r : Read Value) → Leaves n r → Leaves n (at_element i r)
  at_element-Leaves i n (got v rest) le = le
  at_element-Leaves i n (failed e) le = tt
  at_element-Leaves i n panicked le = tt
  at_element-Leaves i n out_of_fuel le = le

  read_elements-Leaves :
      (count i : ℕ) (s : Bytes) → length s < m → Leaves (length s) (read_elements d count i s)
  unfolding read_elements
  read_elements-Leaves zero i s lt = omega arith
  read_elements-Leaves (suc count) i s lt =
      and_then-Leaves (λ v rest. and_then (read_elements d count (i + 1) rest) (put_first v))
        (length s) (length s) (at_element i (d s)) (at_element-Leaves i (length s) (d s) (h s lt))
        (λ v rest le.
          and_then-Leaves (put_first v) (length s) (length s) (read_elements d count (i + 1) rest)
            (Leaves-le (length rest) (length s) (read_elements d count (i + 1) rest) le
              (read_elements-Leaves count (i + 1) rest (omega (arith, le, lt))))
            (λ vs rest le. le))

  read_counted-Leaves : (n : ℤ) (s : Bytes) → length s < m → Leaves (length s) (read_counted d n s)
  read_counted-Leaves (pos count) s lt =
      if-Leaves (ltb max_alloc (count * 16)) (length s) panicked _ tt
        (read_elements-Leaves count 0 s lt)
  read_counted-Leaves (negsuc n) s lt = tt

  read_typed-Leaves : (c : ℕ) (s : Bytes) → length s < m → Leaves (length s) (read_typed d c s)
  unfolding read_simple_string read_error read_integer read_bulk_string read_array
  read_typed-Leaves c s lt =
      let text = map_read-Leaves string (length s) (read_line s) (read_line-Leaves s) in
      let whole =
        map_read-Leaves integer (length s) (read_integer s)
          (number-Leaves invalid_integer got s (λ n rest le. le)) in
      let bulk = map_read-Leaves string (length s) (read_bulk_string s) (
        number-Leaves invalid_length read_sized s (λ n rest le.
          Leaves-le (length rest) (length s) (read_sized n rest) le (read_sized-Leaves n rest))) in
      let all = map_read-Leaves array (length s) (read_array d s) (
        number-Leaves invalid_length (read_counted d) s (λ n rest le.
          Leaves-le (length rest) (length s) (read_counted d n rest) le
            (read_counted-Leaves n rest (omega (arith, le, lt))))) in
      if-Leaves (c == b'+') (length s) (map_read string (read_simple_string s)) _ text (
        if-Leaves (c == b'-') (length s) (map_read string (read_error s)) _ text (
          if-Leaves (c == b':') (length s) (map_read integer (read_integer s)) _ whole (
            if-Leaves (c == b'$') (length s) (map_read string (read_bulk_string s)) _ bulk (
              if-Leaves (c == b'*') (length s) (map_read array (read_array d s))
                (failed unknown_type) all tt))))

decode-Leaves : (fuel : ℕ) (s : Bytes) → length s < fuel → Leaves (length s - 1) (decode fuel s)
unfolding decode
decode-Leaves zero s h = absurd (omega (arith, h))
decode-Leaves (suc fuel) [] h = tt
decode-Leaves (suc fuel) (c ∷ cs) h =
    Leaves-le (length cs) (suc (length cs) - 1) (read_typed (decode fuel) c cs) (omega arith) (
      read_typed-Leaves (decode fuel) fuel
        (λ s lt.
          Leaves-le (length s - 1) (length s) (decode fuel s) (omega arith)
            (decode-Leaves fuel s lt))
        c cs (omega (arith, h)))

-- Decode ends on any bytes: its fuel is enough, and if it reads a value it takes one byte at
-- least.
pub decode_value-Leaves : (s : Bytes) → Leaves (length s - 1) (decode_value s)
unfolding decode_value
decode_value-Leaves s = decode-Leaves (length s + 1) s (omega arith)

-- The rest after a value is shorter.
pub decode_value-shorter :
    (s : Bytes) (v : Value) (rest : Bytes) → decode_value s ≡ got v rest → length rest < length s
unfolding decode_value decode
decode_value-shorter [] v rest h = ground (arith, h)
decode_value-shorter (c ∷ cs) v rest h =
    let left : length rest ≤ length (c ∷ cs) - 1 =
      subst (Leaves (length (c ∷ cs) - 1)) h (decode_value-Leaves (c ∷ cs)) in
    omega (arith, left)
