-- ===== src/Core/Decode/Prefix.antt =====
-- core/resp.go: a value that was read does not depend on the bytes after it.
use learning_redis.Common.{
  ℕ, zero, suc, ◌+◌, ◌-◌, ◌*◌, ◌≤◌, [], ◌∷◌, ◌++◌, Bytes, Bool, true, false, ◌&&◌, Option, none,
  some, ltb, ◌==◌, if◌then◌else◌, length, take, drop, Bool-cases, arith, ◌≡◌, refl, length-append,
  not-lt→ltb, inl, inr, Option-cases,
}
use learning_redis.Common.Int.{ℤ, pos, negsuc}
use learning_redis.Common.Decimal.{parse_int}
use learning_redis.Core.Decode.{
  Value, array, string, integer, ReadError, malformed_line, not_terminated, invalid_integer,
  invalid_length, Read, got, failed, panicked, out_of_fuel, and_then, max_alloc, read_string,
  ends_line, line_of, read_line, read_simple_string, read_error, number, read_integer, has_byte,
  read_body, read_sized, read_bulk_string, at_element, put_first, read_elements, read_counted,
  read_array, map_read, read_typed, decode, decode_value,
}

pub take-append : (n : ℕ) (xs ys : Bytes) → n ≤ length xs → take n (xs ++ ys) ≡ take n xs
take-append zero xs ys h = refl
take-append (suc n) [] ys h = absurd (omega (arith, h))
take-append (suc n) (x ∷ xs) ys h = rw (take-append n xs ys (omega (arith, h))) refl

pub drop-append : (n : ℕ) (xs ys : Bytes) → n ≤ length xs → drop n (xs ++ ys) ≡ drop n xs ++ ys
drop-append zero xs ys h = refl
drop-append (suc n) [] ys h = absurd (omega (arith, h))
drop-append (suc n) (x ∷ xs) ys h = drop-append n xs ys (omega (arith, h))

-- What is read of `s ++ t`, where `s` reads as the first result: the same value or panic. An error can go away.
abbrev pub Extends {ℓ} : {A : Type ℓ} → Read A → Bytes → Read A → Type ℓ
Extends (got a rest) t r = r ≡ got a (rest ++ t)
Extends panicked t r = r ≡ panicked
Extends (failed e) t r = Unit
Extends out_of_fuel t r = Unit

and_then-Extends {ℓ κ} :
    {A : Type ℓ} {B : Type κ} (f g : A → Bytes → Read B) (t : Bytes) (r r' : Read A)
    → Extends r t r'
    → ((a : A) (rest : Bytes) → Extends (f a rest) t (g a (rest ++ t)))
    → Extends (and_then r f) t (and_then r' g)
and_then-Extends f g t (got a rest) r' e h = rw e (h a rest)
and_then-Extends f g t panicked r' e h = rw e refl
and_then-Extends f g t (failed err) r' e h = tt
and_then-Extends f g t out_of_fuel r' e h = tt

map_read-Extends {ℓ κ} :
    {A : Type ℓ} {B : Type κ} (f : A → B) (t : Bytes) (r r' : Read A)
    → Extends r t r'
    → Extends (map_read f r) t (map_read f r')
map_read-Extends f t (got a rest) r' e = rw e refl
map_read-Extends f t panicked r' e = rw e refl
map_read-Extends f t (failed err) r' e = tt
map_read-Extends f t out_of_fuel r' e = tt

if-Extends {ℓ} :
    {A : Type ℓ} (b : Bool) (t : Bytes) (r1 r2 r1' r2' : Read A)
    → Extends r1 t r1'
    → Extends r2 t r2'
    → Extends (if b then r1 else r2) t (if b then r1' else r2')
if-Extends true t r1 r2 r1' r2' h1 h2 = h1
if-Extends false t r1 r2 r1' r2' h1 h2 = h2

abbrev split_at : Bytes → Bytes → Option (Bytes × Bytes)
split_at line rest = some (line, rest)

read_string-append :
    (s t line rest : Bytes)
    → read_string s ≡ some (line, rest)
    → read_string (s ++ t) ≡ some (line, rest ++ t)
unfolding read_string
read_string-append [] t line rest h = ground (arith, h)
read_string-append (c ∷ cs) t line rest h = elim (Bool-cases (c == 10)) [
  | inl e ↦ rw e (by_end e h)
  | inr e ↦ elim (Option-cases (read_string cs)) [
    | inl nothing ↦ ground (arith, h, e, nothing)
    | inr ((l, r), read) ↦ rw (e, read_string-append cs t l r read) (by_more e read h)
  ]
]
  where
    by_end :
        (c == 10) ≡ true
        → read_string (c ∷ cs) ≡ some (line, rest)
        → split_at (c ∷ []) (cs ++ t) ≡ split_at line (rest ++ t)
    by_end e h = ground (arith, e, h)

    by_more :
        {l r : Bytes}
        → (c == 10) ≡ false
        → read_string cs ≡ some (l, r)
        → read_string (c ∷ cs) ≡ some (line, rest)
        → split_at (c ∷ l) (r ++ t) ≡ split_at line (rest ++ t)
    by_more e read h = ground (arith, e, read, h)

read_line-Extends : (s t : Bytes) → Extends (read_line s) t (read_line (s ++ t))
unfolding read_line
read_line-Extends s t = by_string (read_string s) refl
  where
    by_string :
        (o : Option (Bytes × Bytes))
        → read_string s ≡ o
        → Extends (line_of o) t (line_of (read_string (s ++ t)))
    by_string none e = tt
    by_string (some (line, rest)) e = rw (read_string-append s t line rest e) (
        if-Extends (ends_line line) t (got (take (length line - 2) line) rest)
          (failed malformed_line) (got (take (length line - 2) line) (rest ++ t))
          (failed malformed_line) refl tt)

read_body-Extends : (len : ℕ) (s t : Bytes) → Extends (read_body len s) t (read_body len (s ++ t))
read_body-Extends len s t = elim (Bool-cases (ltb max_alloc (len + 2))) [
  | inl big ↦ rw big refl
  | inr fits ↦ elim (Bool-cases (ltb (length s) (len + 2))) [
    | inl short ↦ rw (fits, short) tt
    | inr whole ↦
        let enough : len + 2 ≤ length s = ground (arith, whole) in
        let still : ltb (length (s ++ t)) (len + 2) ≡ false =
          not-lt→ltb (length (s ++ t)) (len + 2)
            (λ h. omega (arith, h, enough, length-append s t)) in
        rw (fits, whole, still, take-append (len + 2) s t enough, drop-append (len + 2) s t enough)
          (if-Extends
            (has_byte (take (len + 2) s) len 13 && has_byte (take (len + 2) s) (len + 1) 10) t
            (got (take len (take (len + 2) s)) (drop (len + 2) s)) (failed not_terminated)
            (got (take len (take (len + 2) s)) (drop (len + 2) s ++ t)) (failed not_terminated) refl
            tt)
  ]
]

read_sized-Extends : (n : ℤ) (s t : Bytes) → Extends (read_sized n s) t (read_sized n (s ++ t))
read_sized-Extends (pos len) s t = read_body-Extends len s t
read_sized-Extends (negsuc zero) s t = refl
read_sized-Extends (negsuc (suc n)) s t = refl

number-Extends {ℓ} :
    {A : Type ℓ} (e : ReadError) (f g : ℤ → Bytes → Read A) (t : Bytes) (o : Option ℤ)
    (rest : Bytes)
    → ((n : ℤ) (rest : Bytes) → Extends (f n rest) t (g n (rest ++ t)))
    → Extends (number e f o rest) t (number e g o (rest ++ t))
number-Extends e f g t none rest h = tt
number-Extends e f g t (some n) rest h = h n rest

-- A line with a number, and what is done with it.
numbered-Extends {ℓ} :
    {A : Type ℓ} (e : ReadError) (f g : ℤ → Bytes → Read A) (s t : Bytes)
    → ((n : ℤ) (rest : Bytes) → Extends (f n rest) t (g n (rest ++ t)))
    → Extends
        (and_then (read_line s) (λ line. number e f (parse_int line)))
        t
        (and_then (read_line (s ++ t)) (λ line. number e g (parse_int line)))
numbered-Extends e f g s t h =
    and_then-Extends (λ line. number e f (parse_int line)) (λ line. number e g (parse_int line)) t
      (read_line s) (read_line (s ++ t)) (read_line-Extends s t)
      (λ line rest. number-Extends e f g t (parse_int line) rest h)

module _ (d d' : Bytes → Read Value) (t : Bytes)
    (h : (s : Bytes) → Extends (d s) t (d' (s ++ t))) where
  at_element-Extends :
      (i : ℕ) (r r' : Read Value) → Extends r t r' → Extends (at_element i r) t (at_element i r')
  at_element-Extends i (got v rest) r' e = rw e refl
  at_element-Extends i (failed err) r' e = tt
  at_element-Extends i panicked r' e = rw e refl
  at_element-Extends i out_of_fuel r' e = tt

  read_elements-Extends :
      (count i : ℕ) (s : Bytes)
      → Extends (read_elements d count i s) t (read_elements d' count i (s ++ t))
  unfolding read_elements
  read_elements-Extends zero i s = refl
  read_elements-Extends (suc count) i s =
      and_then-Extends (λ v rest. and_then (read_elements d count (i + 1) rest) (put_first v))
        (λ v rest. and_then (read_elements d' count (i + 1) rest) (put_first v)) t
        (at_element i (d s)) (at_element i (d' (s ++ t)))
        (at_element-Extends i (d s) (d' (s ++ t)) (h s))
        (λ v rest.
          and_then-Extends (put_first v) (put_first v) t (read_elements d count (i + 1) rest)
            (read_elements d' count (i + 1) (rest ++ t)) (read_elements-Extends count (i + 1) rest)
            (λ vs rest. refl))

  read_counted-Extends :
      (n : ℤ) (s : Bytes) → Extends (read_counted d n s) t (read_counted d' n (s ++ t))
  read_counted-Extends (pos count) s = elim (Bool-cases (ltb max_alloc (count * 16))) [
    | inl big ↦ rw big refl
    | inr fits ↦ rw fits (read_elements-Extends count 0 s)
  ]
  read_counted-Extends (negsuc n) s = refl

  read_typed-Extends : (c : ℕ) (s : Bytes) → Extends (read_typed d c s) t (read_typed d' c (s ++ t))
  unfolding read_simple_string read_error read_integer read_bulk_string read_array
  read_typed-Extends c s =
      let line = read_line-Extends s t in
      let text = map_read-Extends string t (read_line s) (read_line (s ++ t)) line in
      let whole =
        map_read-Extends integer t (read_integer s) (read_integer (s ++ t))
          (numbered-Extends invalid_integer got got s t (λ n rest. refl)) in
      let bulk = map_read-Extends string t (read_bulk_string s) (read_bulk_string (s ++ t)) (
        numbered-Extends invalid_length read_sized read_sized s t
          (λ n rest. read_sized-Extends n rest t)) in
      let all = map_read-Extends array t (read_array d s) (read_array d' (s ++ t)) (
        numbered-Extends invalid_length (read_counted d) (read_counted d') s t
          read_counted-Extends) in
      if-Extends (c == b'+') t (map_read string (read_simple_string s)) _
        (map_read string (read_simple_string (s ++ t))) _ text
        (if-Extends (c == b'-') t (map_read string (read_error s)) _
          (map_read string (read_error (s ++ t))) _ text
          (if-Extends (c == b':') t (map_read integer (read_integer s)) _
            (map_read integer (read_integer (s ++ t))) _ whole
            (if-Extends (c == b'$') t (map_read string (read_bulk_string s)) _
              (map_read string (read_bulk_string (s ++ t))) _ bulk
              (if-Extends (c == b'*') t (map_read array (read_array d s)) _
                (map_read array (read_array d' (s ++ t))) _ all tt))))

-- More fuel and more bytes.
pub decode-Extends : (f g : ℕ) (s t : Bytes) → f ≤ g → Extends (decode f s) t (decode g (s ++ t))
unfolding decode
decode-Extends zero g s t h = tt
decode-Extends (suc f) zero s t h = absurd (omega (arith, h))
decode-Extends (suc f) (suc g) [] t h = tt
decode-Extends (suc f) (suc g) (c ∷ cs) t h =
    read_typed-Extends (decode f) (decode g) t (λ s. decode-Extends f g s t (omega (arith, h))) c cs

-- If Decode reads a value from some bytes, it reads that value whatever bytes follow, and leaves
-- them after those it left before; if it panics, it panics whatever bytes follow.
pub decode_value-Extends : (s t : Bytes) → Extends (decode_value s) t (decode_value (s ++ t))
unfolding decode_value
decode_value-Extends s t =
    decode-Extends (length s + 1) (length (s ++ t) + 1) s t (omega (arith, length-append s t))
