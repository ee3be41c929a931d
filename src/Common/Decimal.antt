-- ===== src/Common/Decimal.antt =====
-- Decimal numbers as text: `strconv.ParseInt(s, 10, 64)` and `strconv.FormatInt(n, 10)`.
use Prim.Native.Nat.{ℕ, zero, suc, ◌+◌, ◌-◌, ◌*◌, ◌/◌, ◌%◌, ◌^◌, ◌≤◌, ◌<◌}
use mathlib.Core.Path.{◌≡◌, refl, ap, ◌∙◌, sym, subst}
use mathlib.Core.Bool.{true, false, ◌&&◌}
use mathlib.Core.List.{[], ◌∷◌}
use mathlib.Core.Logic.{◌⊎◌, inl, inr}
use mathlib.Core.Option.{Option, none, some}
use native.Mathlib.Nat.{pow-suc}
use native.Mathlib.Omega.{arith}
use learning_redis.Common.Tests.{
  lt→ltb, ltb→lt, leb→le, Bool-cases, Bytes, ltb, leb, ◌==◌, if◌then◌else◌, ◌>>=◌,
}
use learning_redis.Common.Int.{ℤ, pos, negsuc, signed_word}

-- The digits of `n` in front of `acc`, by a number of steps.
unfoldable pub decimal : ℕ → ℕ → Bytes → Bytes
decimal zero n acc = acc
decimal (suc fuel) n acc =
    let more = decimal fuel (n / 10) ((48 + n % 10) ∷ acc) in
    if ltb n 10 then (48 + n) ∷ acc else more

-- A 64-bit number has at most 20 digits.
unfoldable pub format_nat : ℕ → Bytes
unfolding decimal
format_nat n = decimal 20 n []

unfoldable pub format_int : ℤ → Bytes
unfolding format_nat
format_int (pos n) = format_nat n
format_int (negsuc n) = b'-' ∷ format_nat (suc n)

-- `none` on a byte that is not a digit.
unfoldable pub read_digits : Bytes → ℕ → Option ℕ
read_digits [] n = some n
read_digits (c ∷ cs) n =
    let rest = read_digits cs (n * 10 + (c - 48)) in if leb 48 c && leb c 57 then rest else none

-- One digit at least.
unfoldable pub read_nat : Bytes → Option ℕ
unfolding read_digits
read_nat [] = none
read_nat (c ∷ cs) = read_digits (c ∷ cs) 0

abbrev pub positive : ℕ → Option ℤ
positive n = if ltb n (2 ^ 63) then some (pos n) else none

abbrev pub negated : ℕ → ℤ
negated zero = pos 0
negated (suc n) = negsuc n

abbrev pub negative : ℕ → Option ℤ
negative n = if leb n (2 ^ 63) then some (negated n) else none

-- A sign, then digits, within the range of int64.
unfoldable pub parse_int : Bytes → Option ℤ
unfolding read_nat
parse_int [] = none
parse_int (c ∷ cs) =
    if c == b'-'
    then (read_nat cs >>= negative)
    else if c == b'+'
    then (read_nat cs >>= positive)
    else (read_nat (c ∷ cs) >>= positive)

-- The range of int64.
abbrev pub InInt64 : ℤ → Type 0
InInt64 (pos n) = n < 2 ^ 63
InInt64 (negsuc n) = n < 2 ^ 63

pub signed_word-InInt64 : (n : ℕ) → InInt64 (signed_word n)
signed_word-InInt64 n = elim (Bool-cases (ltb n (2 ^ 63))) [
  | inl small ↦ rw small (ltb→lt n (2 ^ 63) small)
  | inr large ↦ let above : 2 ^ 63 ≤ n = ground (arith, large) in rw large (omega (arith, above))
]

positive-InInt64 : (o : Option ℕ) (n : ℤ) → (o >>= positive) ≡ some n → InInt64 n
positive-InInt64 none n h = ground (arith, h)
positive-InInt64 (some k) n h = elim (Bool-cases (ltb k (2 ^ 63))) [
  | inl small ↦
      let is : some (pos k) ≡ some n = simp small at h in
      let same : pos k ≡ n = ground (arith, is) in subst InInt64 same (ltb→lt k (2 ^ 63) small)
  | inr large ↦ let is : none ≡ some n = simp large at h in ground (arith, is)
]

negative-InInt64 : (o : Option ℕ) (n : ℤ) → (o >>= negative) ≡ some n → InInt64 n
negative-InInt64 none n h = ground (arith, h)
negative-InInt64 (some k) n h = elim (Bool-cases (leb k (2 ^ 63))) [
  | inl small ↦
      let is : some (negated k) ≡ some n = simp small at h in
      let same : negated k ≡ n = ground (arith, is) in
      subst InInt64 same (fits k (leb→le k (2 ^ 63) small))
  | inr large ↦ let is : none ≡ some n = simp large at h in ground (arith, is)
]
  where
    fits : (k : ℕ) → k ≤ 2 ^ 63 → InInt64 (negated k)
    fits zero le = omega arith
    fits (suc k) le = omega (arith, le)

-- What is read is a number of int64.
pub parse_int-InInt64 : (s : Bytes) (n : ℤ) → parse_int s ≡ some n → InInt64 n
unfolding parse_int
parse_int-InInt64 [] n h = ground (arith, h)
parse_int-InInt64 (c ∷ cs) n h = elim (Bool-cases (c == b'-')) [
  | inl minus ↦ negative-InInt64 (read_nat cs) n (simp minus at h)
  | inr other ↦ elim (Bool-cases (c == b'+')) [
    | inl plus ↦ positive-InInt64 (read_nat cs) n (simp (other, plus) at h)
    | inr digit ↦ positive-InInt64 (read_nat (c ∷ cs)) n (simp (other, digit) at h)
  ]
]

read_digits-decimal :
    (fuel n : ℕ) (acc : Bytes)
    → n < 10 ^ fuel
    → read_digits (decimal fuel n acc) 0 ≡ read_digits acc n
unfolding decimal read_digits
read_digits-decimal zero zero acc h = refl
read_digits-decimal zero (suc n) acc h = absurd (omega arith)
read_digits-decimal (suc fuel) n acc h =
    let rest =
      read_digits-decimal fuel (n / 10) ((48 + n % 10) ∷ acc) (omega (arith, pow-suc 10 fuel)) in
    let back : n / 10 * 10 + (48 + n % 10 - 48) ≡ n = omega arith in
    let same : 0 * 10 + (48 + n - 48) ≡ n = omega arith in ground (arith, rest, back, same)

-- A written number starts with a digit.
decimal-digit :
    (fuel n : ℕ) (acc : Bytes)
    → (c : ℕ) × (cs : Bytes) × (decimal (suc fuel) n acc ≡ c ∷ cs) × (48 ≤ c) × (c ≤ 57)
unfolding decimal
decimal-digit zero n acc = elim (small n) [
  | inl (e, lt) ↦ (48 + n, acc, rw e refl, omega arith, omega arith)
  | inr e ↦ (48 + n % 10, acc, rw e refl, omega arith, omega arith)
]
  where
    small : (n : ℕ) → ((ltb n 10 ≡ true) × (n < 10)) ⊎ (ltb n 10 ≡ false)
    small n = ground arith
decimal-digit (suc fuel) n acc = elim (small n) [
  | inl (e, lt) ↦ (48 + n, acc, rw e refl, omega arith, omega arith)
  | inr e ↦
      let (c, cs, run, lo, hi) = decimal-digit fuel (n / 10) ((48 + n % 10) ∷ acc) in
      (c, cs, rw e run, lo, hi)
]
  where
    small : (n : ℕ) → ((ltb n 10 ≡ true) × (n < 10)) ⊎ (ltb n 10 ≡ false)
    small n = ground arith

read_nat-format_nat : (n : ℕ) → n < 10 ^ 20 → read_nat (format_nat n) ≡ some n
unfolding format_nat read_nat read_digits
read_nat-format_nat n h =
    let (c, cs, run, lo, hi) = decimal-digit 19 n [] in
    rw run (ap (λ (t : Bytes). read_digits t 0) (sym run) ∙ read_digits-decimal 20 n [] h)

unsigned : (c : ℕ) (cs : Bytes) → 48 ≤ c → parse_int (c ∷ cs) ≡ (read_nat (c ∷ cs) >>= positive)
unfolding parse_int
unsigned c cs lo = ground arith

-- Every number of int64 is read back as it was written.
pub parse_int-format_int : (n : ℤ) → InInt64 n → parse_int (format_int n) ≡ some n
unfolding format_int format_nat
parse_int-format_int (pos n) h =
    let (c, cs, run, lo, hi) = decimal-digit 19 n [] in
    let back : read_nat (decimal 20 n []) ≡ some n = read_nat-format_nat n (omega arith) in
    ap parse_int run
    ∙ unsigned c cs lo
    ∙ ap (λ (t : Bytes). read_nat t >>= positive) (sym run)
    ∙ rw back (rw (lt→ltb n (2 ^ 63) h) refl)
parse_int-format_int (negsuc n) h =
    let back : read_nat (decimal 20 (suc n) []) ≡ some (suc n) =
      read_nat-format_nat (suc n) (omega arith) in
    let fits : leb (suc n) (2 ^ 63) ≡ true = ground arith in
    unfold parse_int in rw (back, fits) refl
