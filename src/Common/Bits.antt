-- ===== src/Common/Bits.antt =====
-- `&`, `|`, `^` and shifts of machine words as arithmetic, at every width.
use Prim.Native.Nat.{ℕ, zero, suc, ◌+◌, ◌-◌, ◌*◌, ◌/◌, ◌%◌, ◌^◌, ◌≤◌, ◌<◌, min, max}
use Prim.Native.Nat.{bit_and, bit_or, bit_xor, digits, bitwise, differ}
use Prim.Native.Nat.{bit_and-bitwise, bit_or-bitwise, bit_xor-bitwise}
use mathlib.Core.Path.{◌≡◌, refl, ap, sym, ◌∙◌, subst}
use mathlib.Core.Bool.{Bool, true, ◌&&◌}
use native.Mathlib.Nat.{pow-suc, one-le-pow, div-add-mod, div-div-eq-div-mul}
use native.Mathlib.Omega.{arith}
use learning_redis.Common.Tests.{◌==◌, ==_iff}

-- Do two functions agree on the `k` numbers from `i` on? By evaluation.
unfoldable pub agree_from : ℕ → ℕ → (ℕ → ℕ) → (ℕ → ℕ) → Bool
agree_from i zero f g = true
agree_from i (suc k) f g = f i == g i && agree_from (i + 1) k f g

agree_from-at :
    (k i d : ℕ) (f g : ℕ → ℕ) → d < k → agree_from i k f g ≡ true → f (i + d) ≡ g (i + d)
unfolding agree_from
agree_from-at zero i d f g lt run = absurd (omega arith)
agree_from-at (suc k) i zero f g lt run =
    let here : f i ≡ g i = ground (arith, run, ==_iff (f i) (g i)) in
    let e : i + 0 ≡ i = omega arith in rw e here
agree_from-at (suc k) i (suc d) f g lt run =
    let rest : agree_from (i + 1) k f g ≡ true = ground (arith, run) in
    let e : i + 1 + d ≡ i + suc d = omega arith in
    subst (λ (t : ℕ). f t ≡ g t) e (agree_from-at k (i + 1) d f g (omega arith) rest)

-- Two functions that a table shows equal below `n`.
pub table_eq : (n : ℕ) (f g : ℕ → ℕ) → agree_from 0 n f g ≡ true → (x : ℕ) → x < n → f x ≡ g x
table_eq n f g run x lt =
    let e : 0 + x ≡ x = omega arith in
    subst (λ (t : ℕ). f t ≡ g t) e (agree_from-at n 0 x f g lt run)

-- The native operations stand for `bitwise z f`, which works on binary digits from the lowest on.
-- Fuel beyond the first argument adds nothing.
module _ (z : ℕ → ℕ) (f : ℕ → ℕ → ℕ) where
  one_more : (n b a : ℕ) → a ≤ n → digits z f (suc n) a b ≡ digits z f n a b
  one_more zero b (suc a) fits = absurd (omega arith)
  one_more (suc n) b (suc a) fits =
      ap (λ (t : ℕ). t * 2 + f (suc a % 2) (b % 2)) (one_more n (b / 2) (suc a / 2) (omega arith))
  one_more zero b zero fits = refl
  one_more (suc n) b zero fits = refl

  many_more : (k n b a : ℕ) → n ≡ a + k → digits z f n a b ≡ digits z f a a b
  many_more zero n b a e = let e' : n ≡ a = omega arith in ap (λ (t : ℕ). digits z f t a b) e'
  many_more (suc k) n b a e =
      let e' : n ≡ suc (a + k) = omega arith in
      ap (λ (t : ℕ). digits z f t a b) e'
      ∙ one_more (a + k) b a (omega arith)
      ∙ many_more k (a + k) b a refl

  -- An operation that is `bitwise z f`.
  module _ (op : ℕ → ℕ → ℕ) (is_bitwise : (x y : ℕ) → op x y ≡ bitwise z f x y)
      (on_nothing : (y : ℕ) → z y ≡ z (y / 2) * 2 + f 0 (y % 2)) where
    lowest_digit : (x y : ℕ) → op x y ≡ op (x / 2) (y / 2) * 2 + f (x % 2) (y % 2)
    lowest_digit zero y = rw (is_bitwise 0 y, is_bitwise 0 (y / 2)) (on_nothing y)
    lowest_digit (suc x) y =
        let half = suc x / 2 in
        is_bitwise (suc x) y
        ∙ ap (λ (t : ℕ). t * 2 + f (suc x % 2) (y % 2))
            (many_more (x - half) x (y / 2) half (omega arith) ∙ sym (is_bitwise half (y / 2)))

    -- What the operation makes of 0 on the right.
    right_zero :
        (g : ℕ → ℕ)
        → z 0 ≡ g 0
        → ((x : ℕ) → g x ≡ g (x / 2) * 2 + f (x % 2) 0)
        → (k x : ℕ) → x < k
        → op x 0 ≡ g x
    right_zero g start step zero x lt = absurd (omega arith)
    right_zero g start step (suc k) zero lt = is_bitwise 0 0 ∙ start
    right_zero g start step (suc k) (suc x) lt =
        lowest_digit (suc x) 0
        ∙ ap (λ (t : ℕ). t * 2 + f (suc x % 2) 0)
            (right_zero g start step k (suc x / 2) (omega arith))
        ∙ sym (step (suc x))

-- One digit of each operation.
pub or_digit : (x y : ℕ) → bit_or x y ≡ bit_or (x / 2) (y / 2) * 2 + max (x % 2) (y % 2)
or_digit = lowest_digit (λ y. y) max bit_or (λ x y. bit_or-bitwise x y) (λ y. omega arith)

pub and_digit : (x y : ℕ) → bit_and x y ≡ bit_and (x / 2) (y / 2) * 2 + min (x % 2) (y % 2)
and_digit = lowest_digit (λ y. 0) min bit_and (λ x y. bit_and-bitwise x y) (λ y. omega arith)

pub xor_digit : (x y : ℕ) → bit_xor x y ≡ bit_xor (x / 2) (y / 2) * 2 + differ (x % 2) (y % 2)
xor_digit = lowest_digit (λ y. y) differ bit_xor (λ x y. bit_xor-bitwise x y) (λ y. omega arith)

pub zero-bit_or : (b : ℕ) → bit_or 0 b ≡ b
zero-bit_or b = bit_or-bitwise 0 b

pub zero-bit_xor : (b : ℕ) → bit_xor 0 b ≡ b
zero-bit_xor b = bit_xor-bitwise 0 b

pub bit_or-zero : (a : ℕ) → bit_or a 0 ≡ a
bit_or-zero a =
    right_zero (λ y. y) max bit_or (λ x y. bit_or-bitwise x y) (λ y. omega arith) (λ x. x) refl
      (λ x. omega arith) (suc a) a (omega arith)

pub bit_and-zero : (a : ℕ) → bit_and a 0 ≡ 0
bit_and-zero a =
    right_zero (λ y. 0) min bit_and (λ x y. bit_and-bitwise x y) (λ y. omega arith) (λ x. 0) refl
      (λ x. omega arith) (suc a) a (omega arith)

above_suc : (q k : ℕ) → 2 * (q * 2 ^ k) ≡ q * 2 ^ suc k
above_suc q k = omega (arith, ap (◌*◌ q) (pow-suc 2 k))

-- A field of `k` low bits beside one above it: `|` is a sum, in either order.
pub bit_or-add : (k a q : ℕ) → a < 2 ^ k → bit_or a (q * 2 ^ k) ≡ a + q * 2 ^ k
bit_or-add zero zero q h = omega (arith, zero-bit_or (q * 2 ^ 0))
bit_or-add zero (suc a) q h = absurd (omega arith)
bit_or-add (suc k) a q h = ground (
  arith,
  or_digit a (q * 2 ^ suc k),
  above_suc q k,
  bit_or-add k (a / 2) q (omega (arith, pow-suc 2 k)),
)

pub bit_or-add_above : (k q a : ℕ) → a < 2 ^ k → bit_or (q * 2 ^ k) a ≡ q * 2 ^ k + a
bit_or-add_above zero q zero h = omega (arith, bit_or-zero (q * 2 ^ 0))
bit_or-add_above zero q (suc a) h = absurd (omega arith)
bit_or-add_above (suc k) q a h = ground (
  arith,
  or_digit (q * 2 ^ suc k) a,
  above_suc q k,
  bit_or-add_above k q (a / 2) (omega (arith, pow-suc 2 k)),
)

mod_double : (a n : ℕ) → 0 < n → a % (2 * n) ≡ a / 2 % n * 2 + a % 2
mod_double a n h =
    ground (arith, div-add-mod a (2 * n), div-add-mod (a / 2) n, div-div-eq-div-mul a 2 n)

-- A mask of `k` ones is the remainder by `2 ^ k`.
pub bit_and-mask : (k a : ℕ) → bit_and a (2 ^ k - 1) ≡ a % 2 ^ k
bit_and-mask zero a = omega (arith, bit_and-zero a)
bit_and-mask (suc k) a = ground (
  arith,
  and_digit a (2 ^ suc k - 1),
  pow-suc 2 k,
  one-le-pow k 2,
  bit_and-mask k (a / 2),
  mod_double a (2 ^ k),
)

differ-le : (a b : ℕ) → differ (a % 2) (b % 2) ≤ 1
differ-le a b = small (a % 2) (b % 2) (omega arith) (omega arith)
  where
    small : (x y : ℕ) → x ≤ 1 → y ≤ 1 → differ x y ≤ 1
    small zero y hx hy = hy
    small (suc zero) zero hx hy = omega arith
    small (suc zero) (suc zero) hx hy = omega arith
    small (suc zero) (suc (suc y)) hx hy = absurd (omega arith)
    small (suc (suc x)) y hx hy = absurd (omega arith)

-- `^` stays within the width of its arguments.
pub bit_xor-lt : (k a b : ℕ) → a < 2 ^ k → b < 2 ^ k → bit_xor a b < 2 ^ k
bit_xor-lt zero zero b ha hb = omega (arith, zero-bit_xor b)
bit_xor-lt zero (suc a) b ha hb = absurd (omega arith)
bit_xor-lt (suc k) a b ha hb = omega (
  arith,
  xor_digit a b,
  differ-le a b,
  pow-suc 2 k,
  bit_xor-lt k (a / 2) (b / 2) (omega (arith, pow-suc 2 k)) (omega (arith, pow-suc 2 k)),
)
