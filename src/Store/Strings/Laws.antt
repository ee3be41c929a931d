-- ===== src/Store/Strings/Laws.antt =====
-- The operations on strings keep the store well formed, and what they store they give back.
use learning_redis.Common.{
  ℕ, subst, ◌+◌, ◌≡◌, ◌≢◌, refl, List, [], ◌∷◌, Bytes, Bool, true, false, Option, none, some,
  length, Bool-cases, Option-cases, inl, inr, leb,
}
use learning_redis.Common.Int.{ℤ, pos}
use learning_redis.Common.Decimal.{parse_int}
use learning_redis.Hll.Sketch.Histogram.{Float}
use learning_redis.Store.Entry.{
  Encoding, encoding_int, encoding_embstr, encoding_raw, encoding_hll, Sds, Entry, entry_size,
  value_size, detect_encoding, new_sds, append_string,
}
use learning_redis.Store.Keys.{Store, Env, lookup, is_expired, remove_key, released, stored}
use learning_redis.Store.Keys.Accounts.{Tagged, WellFormed, lookup-Tagged}
use learning_redis.Store.Keys.Accounts.Steps.{
  stored-WellFormed, replaced-WellFormed, remove_key-WellFormed,
}
use learning_redis.Store.Strings.{
  set, append, append_to, appended, appendable, get, get_from, get_int, get_int_from, text_of, ttl,
  ttl_of, ttl_from, delete, delete_loop, delete_one, delete_expired, expire_loop, expire_one,
  entry_for, touched, touch, peek, never_expires,
}

module _ (fl : Float) where
  entry_for-Tagged :
      (value : Bytes) (at : Option ℕ) (lru : ℕ)
      → Tagged fl
          (entry_for (detect_encoding value) value at lru).encoding
          (entry_for (detect_encoding value) value at lru)
  unfolding detect_encoding
  entry_for-Tagged value at lru = elim (Option-cases (parse_int value)) [
    | inl plain ↦ elim (Bool-cases (leb (length value) 44)) [
      | inl short ↦ rw plain (rw short (new_sds value, refl))
      | inr long ↦ rw plain (rw long (new_sds value, refl))
    ]
    | inr (n, e) ↦ rw e tt
  ]

  pub set-WellFormed :
      (env : Env) (s : Store) (key value : Bytes) (ttl : ℤ)
      → WellFormed fl s
      → WellFormed fl (set env s key value ttl)
  unfolding set
  set-WellFormed env s key value ttl w = stored-WellFormed fl s key _ w (entry_for-Tagged value _ _)

  -- A string key, or one that holds a number.
  abbrev pub IsText : Option Entry → Type 0
  IsText none = Unit
  IsText (some e) = e.encoding ≢ encoding_hll

  appendable-some :
      (enc : Encoding) (e : Entry)
      → Tagged fl enc e
      → enc ≢ encoding_hll
      → (b : Sds) × (appendable e enc ≡ some b)
  appendable-some encoding_int e t h = (_, refl)
  appendable-some encoding_embstr e t h = t
  appendable-some encoding_raw e t h = t
  appendable-some encoding_hll e t h = absurd (h refl)

  -- On a key that is missing or holds a string or a number, `Append` does not panic.
  pub append-WellFormed :
      (env : Env) (s : Store) (key value : Bytes)
      → WellFormed fl s
      → IsText (lookup key s.data_of)
      → (s' : Store) × (n : ℕ) × (append env s key value ≡ some (s', n)) × WellFormed fl s'
  unfolding append
  append-WellFormed env s key value w text = by_entry (lookup key s.data_of) refl text
    where
      by_entry :
          (o : Option Entry)
          → lookup key s.data_of ≡ o
          → IsText o
          → (s' : Store) × (n : ℕ) × (append_to env s key value o ≡ some (s', n)) × WellFormed fl s'
      by_entry none found text = (
        set env s key value (pos 0),
        length value,
        refl,
        set-WellFormed env s key value (pos 0) w,
      )
      by_entry (some old) found text =
          let (buf, run) =
            appendable-some old.encoding old (lookup-Tagged fl key s.data_of old w.tagged found)
              text in
          let buf' = append_string env.grow buf value in
          (
            stored key (appended env s old buf') (released key s (some old)),
            length buf'.buf,
            rw run refl,
            subst
                (λ (o : Option Entry).
                  WellFormed fl (stored key (appended env s old buf') (released key s o)))
                found (stored-WellFormed fl s key (appended env s old buf') w (buf', refl)),
          )

  touch-WellFormed :
      (env : Env) (s : Store) (key : Bytes) (e : Entry)
      → WellFormed fl s
      → lookup key s.data_of ≡ some e
      → WellFormed fl (touch env s key e)
  unfolding entry_size value_size
  touch-WellFormed env s key e w found =
      replaced-WellFormed fl s key e (touched env s e) w found (same e.encoding)
        (retag e.encoding (lookup-Tagged fl key s.data_of e w.tagged found))
    where
      same :
          (enc : Encoding)
          → length key + value_size enc (touched env s e) + 64 ≡ length key + value_size enc e + 64
      same encoding_int = refl
      same encoding_embstr = refl
      same encoding_raw = refl
      same encoding_hll = refl

      retag : (enc : Encoding) → Tagged fl enc e → Tagged fl enc (touched env s e)
      retag encoding_int t = t
      retag encoding_embstr t = t
      retag encoding_raw t = t
      retag encoding_hll t = t

  text_of-some :
      (enc : Encoding) (e : Entry) → Tagged fl enc e → (t : Option Bytes) × (text_of enc e ≡ some t)
  text_of-some encoding_int e t = (_, refl)
  text_of-some encoding_embstr e (s, t) = (some s.buf, rw t refl)
  text_of-some encoding_raw e (s, t) = (some s.buf, rw t refl)
  text_of-some encoding_hll e t = (none, refl)

  -- `Get` does not panic.
  pub get-WellFormed :
      (env : Env) (s : Store) (key : Bytes)
      → WellFormed fl s
      → (s' : Store) × (r : Option Bytes) × (get env s key ≡ some (s', r)) × WellFormed fl s'
  unfolding get
  get-WellFormed env s key w = by_entry (lookup key s.data_of) refl
    where
      by_entry :
          (o : Option Entry)
          → lookup key s.data_of ≡ o
          → (s' : Store) × (r : Option Bytes) × (get_from env s key o ≡ some (s', r))
            × WellFormed fl s'
      by_entry none found = (s, none, refl, w)
      by_entry (some e) found = elim (Bool-cases (is_expired env.now e)) [
        | inl gone ↦ (remove_key key s, none, rw gone refl, remove_key-WellFormed fl s key w)
        | inr live ↦
            let (t, run) =
              text_of-some e.encoding e (lookup-Tagged fl key s.data_of e w.tagged found) in
            (touch env s key e, t, rw live (rw run refl), touch-WellFormed env s key e w found)
      ]

  -- So does no operation that only looks at an entry, or removes it if it has expired.
  pub peek-WellFormed {ℓ} :
      {A : Type ℓ} (env : Env) (s : Store) (key : Bytes) (read : Entry → A) (o : Option Entry)
      → WellFormed fl s
      → WellFormed fl (peek env s key read o).0
  peek-WellFormed env s key read none w = w
  peek-WellFormed env s key read (some e) w = elim (Bool-cases (is_expired env.now e)) [
    | inl gone ↦ rw gone (remove_key-WellFormed fl s key w)
    | inr live ↦ rw live w
  ]

  pub get_int-WellFormed :
      (env : Env) (s : Store) (key : Bytes) → WellFormed fl s → WellFormed fl (get_int env s key).0
  unfolding get_int
  get_int-WellFormed env s key w = by_entry (lookup key s.data_of) refl
    where
      by_entry :
          (o : Option Entry) → lookup key s.data_of ≡ o → WellFormed fl (get_int_from env s key o).0
      by_entry none found = w
      by_entry (some e) found = elim (Bool-cases (is_expired env.now e)) [
        | inl gone ↦ rw gone (remove_key-WellFormed fl s key w)
        | inr live ↦ rw live (touch-WellFormed env s key e w found)
      ]

  pub ttl-WellFormed :
      (env : Env) (s : Store) (key : Bytes) → WellFormed fl s → WellFormed fl (ttl env s key).0
  unfolding ttl
  ttl-WellFormed env s key w = by_entry (lookup key s.data_of)
    where
      by_time : (e : Entry) (o : Option ℕ) → WellFormed fl (ttl_from env s key e o).0
      by_time e none = w
      by_time e (some at) = elim (Bool-cases (leb at env.now)) [
        | inl gone ↦ rw gone (remove_key-WellFormed fl s key w)
        | inr live ↦ rw live w
      ]

      by_entry : (o : Option Entry) → WellFormed fl (ttl_of env s key o).0
      by_entry none = w
      by_entry (some e) = by_time e e.expires_at

  delete_loop-WellFormed :
      (env : Env) (keys : List Bytes) (s : Store) (removed : ℕ)
      → WellFormed fl s
      → WellFormed fl (delete_loop env s keys removed).0
  unfolding delete_loop
  delete_loop-WellFormed env [] s removed w = w
  delete_loop-WellFormed env (key ∷ keys) s removed w =
      delete_loop-WellFormed env keys _ _ (by_entry (lookup key s.data_of))
    where
      by_entry : (o : Option Entry) → WellFormed fl (delete_one env s key o).0
      by_entry none = w
      by_entry (some e) = remove_key-WellFormed fl s key w

  pub delete-WellFormed :
      (env : Env) (s : Store) (keys : List Bytes)
      → WellFormed fl s
      → WellFormed fl (delete env s keys).0
  unfolding delete
  delete-WellFormed env s keys w = delete_loop-WellFormed env keys s 0 w

  expire_loop-WellFormed :
      (env : Env) (order : List (Bytes × Entry)) (s : Store) (checked deleted : ℕ)
      → WellFormed fl s
      → WellFormed fl (expire_loop env order s checked deleted).0
  unfolding expire_loop
  expire_loop-WellFormed env [] s checked deleted w = w
  expire_loop-WellFormed env ((key, e) ∷ order) s checked deleted w =
      elim (Bool-cases (leb 20 checked)) [
        | inl full ↦ rw full w
        | inr room ↦ elim (Bool-cases (never_expires e.expires_at)) [
          | inl always ↦ rw (room, always) (expire_loop-WellFormed env order s checked deleted w)
          | inr sometimes ↦
              rw (room, sometimes)
                (expire_loop-WellFormed env order (expire_one env s key e).0 (checked + 1) _
                  (expired (is_expired env.now e) refl))
        ]
      ]
    where
      expired : (b : Bool) → is_expired env.now e ≡ b → WellFormed fl (expire_one env s key e).0
      expired true h = rw h (remove_key-WellFormed fl s key w)
      expired false h = rw h w

  pub delete_expired-WellFormed :
      (env : Env) (order : List (Bytes × Entry)) (s : Store)
      → WellFormed fl s
      → WellFormed fl (delete_expired env order s).0
  unfolding delete_expired
  delete_expired-WellFormed env order s w = expire_loop-WellFormed env order s 0 0 w
