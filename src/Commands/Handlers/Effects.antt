-- ===== src/Commands/Handlers/Effects.antt =====
-- commands/incr.go and commands/expire.go: what INCR and EXPIRE do to a key that SET wrote.
use learning_redis.Common.{
  ℕ, suc, ◌+◌, ◌-◌, ◌*◌, ◌%◌, ◌^◌, ◌≤◌, ◌<◌, ◌≡◌, refl, sym, ap, ◌∙◌, subst, arith, [], ◌∷◌, Bytes,
  true, false, Option, none, some, ltb, leb, lt→ltb,
}
use learning_redis.Common.Int.{ℤ, pos, word_of}
use learning_redis.Common.Decimal.{
  parse_int, format_int, format_nat, parse_int-format_int, signed_word-InInt64,
}
use learning_redis.Core.Encode.{encode_integer}
use learning_redis.Store.Entry.{detect_encoding, int_or_zero, encoding_int}
use learning_redis.Store.Keys.{Store, Env, is_expired, stamp_new, remove_key}
use learning_redis.Store.Strings.{set, get, get_int, get_int_from, touch, expiry_after, entry_for}
use learning_redis.Store.Strings
use learning_redis.Store.Strings.Replies.{
  kept_as, set_entry, set-lookup, Alive, Alive-is_expired, set-get, get-set_past,
}
use learning_redis.Commands.Registry.{Moment}
use learning_redis.Commands.Handlers.{
  duration, second, incremented, time_until, incr_found, handle_incr, handle_expire,
}

-- The entry of a number.
entry_for-int :
    (value : Bytes) (at : Option ℕ) (lru : ℕ) (n : ℤ)
    → parse_int value ≡ some n
    → let e = entry_for (detect_encoding value) value at lru in
      (e.encoding ≡ encoding_int) × (e.int_val ≡ n) × (e.expires_at ≡ at)
unfolding detect_encoding
entry_for-int value at lru n h = rw h (refl, ap int_or_zero h, refl)

set-get_int :
    (env now : Env) (s : Store) (key value : Bytes) (life : ℤ) (n : ℤ)
    → parse_int value ≡ some n
    → Alive now.now (expiry_after env life)
    → get_int now (set env s key value life) key ≡ (
      touch now (set env s key value life) key (set_entry env s value life),
      Strings.integer n (expiry_after env life),
    )
unfolding get_int
set-get_int env now s key value life n h alive =
    let found = set-lookup env s key value life in
    let e = set_entry env s value life in
    let (enc, val, at) = entry_for-int value (expiry_after env life) (stamp_new env s) n h in
    let live : is_expired now.now e ≡ false =
      Alive-is_expired now.now e (subst (Alive now.now) (sym at) alive) in
    rw found (rw live (rw (enc, val, at) refl))

-- A key keeps its time to live through `time.Until`.
expiry_after-time_until :
    (m : Moment) (o : Option ℕ) → Alive m.env.now o → expiry_after m.env (time_until m o) ≡ o
expiry_after-time_until m none alive = refl
expiry_after-time_until m (some at) alive =
    let later : leb m.env.now at ≡ true = ground (arith, alive) in
    let positive : ltb 0 (at - m.env.now + 0) ≡ true = ground (arith, alive) in
    let back : m.env.now + (at - m.env.now) ≡ at = omega (arith, alive) in
    rw (later, positive, back) refl

-- INCR on a key that SET gave a number, before the key expires: the reply is the number plus
-- one, as an int64 that wraps around, and Get, until the old expiry, reads that number.
pub handle_incr-set :
    (env later : Env) (m : Moment) (s : Store) (key value : Bytes) (life n : ℤ)
    → parse_int value ≡ some n
    → Alive m.env.now (expiry_after env life)
    → Alive later.now (expiry_after env life)
    → (s' s'' : Store) × (handle_incr m (key ∷ []) (set env s key value life)
        ≡ some (s', encode_integer (incremented n)))
      × (get later s' key ≡ some (s'', some (format_int (incremented n))))
unfolding handle_incr
handle_incr-set env later m s key value life n h alive still =
    let k = incremented n in
    let expiry = expiry_after env life in
    let t = touch m.env (set env s key value life) key (set_entry env s value life) in
    let kept = expiry_after-time_until m expiry alive in
    let (s'', run) =
      set-get m.env later t key (format_int k) (time_until m expiry)
        (subst (Alive later.now) (sym kept) still) in
    let back = parse_int-format_int k (signed_word-InInt64 ((word_of n + 1) % 2 ^ 64)) in
    (
      set m.env t key (format_int k) (time_until m expiry),
      s'',
      ap (incr_found m key) (set-get_int env m.env s key value life n h alive),
      run ∙ ap (λ (o : Option ℤ). some (s'', some (kept_as (format_int k) o))) back,
    )

-- EXPIRE with 1 to 9223372036 seconds on a key that SET wrote and that has not expired replies
-- 1, and when that time has passed Get finds nothing under the key.
pub handle_expire-set :
    (env later : Env) (m : Moment) (s : Store) (key value : Bytes) (life : ℤ) (n : ℕ)
    → Alive m.env.now (expiry_after env life)
    → 0 < n
    → n ≤ 9223372036
    → m.env.now + n * second ≤ later.now
    → (s' s'' : Store) × (handle_expire m (key ∷ format_nat n ∷ []) (set env s key value life)
        ≡ some (s', encode_integer (pos 1)))
      × (get later s' key ≡ some (s'', none))
unfolding handle_expire
handle_expire-set env later m s key value life n alive some_time few past =
    let (t, run) = set-get env m.env s key value life alive in
    let kept = kept_as value (parse_int value) in
    let read : parse_int (format_nat n) ≡ some (pos n) =
      unfold format_int in parse_int-format_int (pos n) (omega (arith, few)) in
    let (ns, is) = whole n some_time few in
    let length_of : duration (pos n) second ≡ pos (suc ns) =
      duration_small n (omega (arith, few)) ∙ ap pos is in
    let s' = set m.env t key kept (duration (pos n) second) in
    let gone = get-set_past m.env later t key kept ns (omega (arith, is, past)) in
    (
      s',
      remove_key key (set m.env t key kept (pos (suc ns))),
      rw (read, run) refl,
      ap (λ (z : ℤ). get later (set m.env t key kept z) key) length_of ∙ gone,
    )
  where
    whole : (n : ℕ) → 0 < n → n ≤ 9223372036 → (ns : ℕ) × (n * second ≡ suc ns)
    whole n h le = (n * second - 1, omega (arith, h))

    duration_small : (n : ℕ) → n ≤ 9223372036 → duration (pos n) second ≡ pos (n * second)
    duration_small n le =
        let word : n % 2 ^ 64 ≡ n = omega (arith, le) in
        let product : n * second % 2 ^ 64 ≡ n * second = omega (arith, le) in
        let small : ltb (n * second) (2 ^ 63) ≡ true =
          lt→ltb (n * second) (2 ^ 63) (omega (arith, le)) in
        rw (word, product, small) refl
