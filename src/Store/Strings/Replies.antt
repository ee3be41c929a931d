-- ===== src/Store/Strings/Replies.antt =====
-- What the operations on strings reply after a write.
use learning_redis.Common.{
  ℕ, suc, subst, ◌+◌, ◌≤◌, ◌<◌, ◌≡◌, refl, sym, ap, ◌∙◌, arith, ◌++◌, Bytes, Bool, true, false,
  Option, none, some, if◌then◌else◌, length, length-append, Bool-cases, Option-cases, inl, inr, leb,
  ltb,
}
use learning_redis.Common.Int.{ℤ, pos}
use learning_redis.Common.Decimal.{parse_int, format_int}
use learning_redis.Store.Entry.{
  Sds, Entry, detect_encoding, int_or_zero, new_sds, append_string, append_slice, grow_to,
  sds_max_pre_alloc,
}
use learning_redis.Store.Keys.{
  expired_at, Store, Env, lookup, stamp_new, is_expired, remove_key, stored, released,
}
use learning_redis.Store.Keys.Accounts.{lookup-put_self}
use learning_redis.Store.Strings.{
  set, append, appended, appendable, get, text_of, entry_for, expiry_after, touch,
}

-- The text that `Set` keeps: a number is written back in its shortest form.
abbrev pub kept_as : Bytes → Option ℤ → Bytes
kept_as value none = value
kept_as value (some n) = format_int n

stored-lookup :
    (s : Store) (key : Bytes) (e : Entry) (o : Option Entry)
    → lookup key (stored key e (released key s o)).data_of ≡ some e
stored-lookup s key e none = lookup-put_self key e s.data_of
stored-lookup s key e (some old) = lookup-put_self key e s.data_of

-- What `Set` leaves under the key.
abbrev pub set_entry : Env → Store → Bytes → ℤ → Entry
set_entry env s value life =
    entry_for (detect_encoding value) value (expiry_after env life) (stamp_new env s)

pub set-lookup :
    (env : Env) (s : Store) (key value : Bytes) (life : ℤ)
    → lookup key (set env s key value life).data_of ≡ some (set_entry env s value life)
unfolding set
set-lookup env s key value life =
    stored-lookup s key (set_entry env s value life) (lookup key s.data_of)

-- An entry that `Set` writes is read back by `Get` until it expires.
pub entry_for-text :
    (value : Bytes) (at : Option ℕ) (lru : ℕ)
    → let e = entry_for (detect_encoding value) value at lru in
      (text_of e.encoding e ≡ some (some (kept_as value (parse_int value)))) × (e.expires_at ≡ at)
unfolding detect_encoding new_sds
entry_for-text value at lru = elim (Option-cases (parse_int value)) [
  | inl plain ↦ elim (Bool-cases (leb (length value) 44)) [
    | inl short ↦ rw plain (rw short (refl, refl))
    | inr long ↦ rw plain (rw long (refl, refl))
  ]
  | inr (n, e) ↦
      let e' : int_or_zero (parse_int value) ≡ n = ap int_or_zero e in
      rw e (ap (λ (t : ℤ). some (some (format_int t))) e', refl)
]

-- The time has not come.
abbrev pub Alive : ℕ → Option ℕ → Type 0
Alive now none = Unit
Alive now (some at) = now < at

pub Alive-is_expired : (now : ℕ) (e : Entry) → Alive now e.expires_at → is_expired now e ≡ false
unfolding is_expired
Alive-is_expired now e h = by_time e.expires_at h
  where
    by_time : (o : Option ℕ) → Alive now o → expired_at now o ≡ false
    by_time none h = refl
    by_time (some at) h = ground arith

-- `Set` and then `Get`, before the key expires, gives the value back; a value that is a number comes
-- back in its shortest decimal form.
pub set-get :
    (env later : Env) (s : Store) (key value : Bytes) (life : ℤ)
    → Alive later.now (expiry_after env life)
    → (s' : Store) × (get later (set env s key value life) key
        ≡ some (s', some (kept_as value (parse_int value))))
unfolding get
set-get env later s key value life alive =
    let found = set-lookup env s key value life in
    let e = set_entry env s value life in
    let (text, at) = entry_for-text value (expiry_after env life) (stamp_new env s) in
    let live : is_expired later.now e ≡ false =
      Alive-is_expired later.now e (subst (Alive later.now) (sym at) alive) in
    (touch later (set env s key value life) key e, rw found (rw live (rw text refl)))

-- After that time the key is removed.
pub get-set_past :
    (env later : Env) (s : Store) (key value : Bytes) (n : ℕ)
    → env.now + suc n ≤ later.now
    → get later (set env s key value (pos (suc n))) key
      ≡ some (remove_key key (set env s key value (pos (suc n))), none)
unfolding get is_expired
get-set_past env later s key value n past =
    let found = set-lookup env s key value (pos (suc n)) in
    let (text, at) = entry_for-text value (expiry_after env (pos (suc n))) (stamp_new env s) in
    let positive : ltb 0 (suc n + 0) ≡ true = ground arith in
    let past' : expired_at later.now (some (env.now + suc n)) ≡ true = ground arith in
    let gone : expired_at later.now (set_entry env s value (pos (suc n))).expires_at ≡ true =
      ap (expired_at later.now) at ∙ rw positive past' in
    rw found (rw gone refl)

-- `Append` on a string key that is there replies the sum of the lengths, and leaves the two texts one
-- after the other, under the old expiry.
pub append-joins :
    (env : Env) (s : Store) (key value : Bytes) (old : Entry) (b : Sds)
    → lookup key s.data_of ≡ some old
    → appendable old old.encoding ≡ some b
    → (s' : Store) × (e : Entry) × (append env s key value ≡ some (s', length b.buf + length value))
      × (lookup key s'.data_of ≡ some e)
      × (text_of e.encoding e ≡ some (some (b.buf ++ value)))
      × (e.expires_at ≡ old.expires_at)
unfolding append append_string
append-joins env s key value old b found buf =
    let b' = append_string env.grow b value in
    let e = appended env s old b' in
    let (joined, size) = joins b value (ltb sds_max_pre_alloc (length b.buf + length value)) in
    (
      stored key e (released key s (some old)),
      e,
      rw found (rw buf (ap (λ (n : ℕ). some (stored key e (released key s (some old)), n)) size)),
      stored-lookup s key e (some old),
      ap (λ (t : Bytes). some (some t)) joined,
      refl,
    )
  where
    joins :
        (b : Sds) (v : Bytes) (big : Bool)
        → let b' =
            append_slice env.grow (if big then grow_to b (length b.buf + length v) else b) v in
          (b'.buf ≡ b.buf ++ v) × (length b'.buf ≡ length b.buf + length v)
    joins b v true = (refl, length-append b.buf v)
    joins b v false = (refl, length-append b.buf v)
