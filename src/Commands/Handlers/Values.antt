-- ===== src/Commands/Handlers/Values.antt =====
-- commands/: the handlers of SET, GET, APPEND, DEL, EXPIRE, TTL and INCR on well-formed stores.
use learning_redis.Common.{
  ℕ, ◌+◌, ◌%◌, ◌^◌, ◌≡◌, refl, arith, List, [], ◌∷◌, Bytes, Bool, true, false, Option, none, some,
  leb, if◌then◌else◌, codes, bytes_eq, All, Bool-cases, inl, inr,
}
use learning_redis.Common.Int.{ℤ, pos, signed_word, word_of, ltb_ℤ}
use learning_redis.Common.Decimal.{parse_int, format_int, InInt64, signed_word-InInt64}
use learning_redis.Hll.Sketch.Histogram.{Float}
use learning_redis.Core.Encode.{encode_error, encode_simple_string, encode_integer}
use learning_redis.Core.Frame.{
  Plain, is_plain, is_plain-Plain, Frame, simple, failure, number, bulk, null,
}
use learning_redis.Store.Entry.{Entry}
use learning_redis.Store.Keys.{Store, Env, lookup}
use learning_redis.Store.Keys.Accounts.{WellFormed}
use learning_redis.Store.Strings.{
  set, get, append, delete, ttl, ttl_of, ttl_from, get_int, get_encoding, get_freq, peek,
  delete_expired, IntResult, missing, not_an_integer,
}
use learning_redis.Store.Strings
use learning_redis.Store.Strings.Laws.{
  IsText, set-WellFormed, append-WellFormed, get-WellFormed, get_int-WellFormed, ttl-WellFormed,
  delete-WellFormed,
}
use learning_redis.Commands.Command.{to_upper}
use learning_redis.Commands.Registry.{Moment}
use learning_redis.Commands.Registry.Served.{Preserves}
use learning_redis.Commands.Handlers.{
  err, duration, second, millisecond, set_for, set_option, set_expiring, set_arguments, handle_set,
  bulk_or_null, handle_get, handle_append, counted, numbered, handle_del, expire_found, expire_in,
  handle_expire, handle_ttl, incremented, time_until, incr_to, incr_found, handle_incr,
}

module _ (fl : Float) where
  -- What a handler returned.
  abbrev pub Answers : List Bytes → Option (Store × Bytes) → Type 0
  Answers args o =
      (s' : Store) × (reply : Bytes) × (o ≡ some (s', reply))
      × WellFormed fl s'
      × (All Plain args → Frame reply)

  pub err-Answers :
      (args : List Bytes) (s : Store) (text : Bytes)
      → WellFormed fl s
      → is_plain text ≡ true
      → Answers args (err s text)
  err-Answers args s text w h =
      (s, encode_error text, refl, w, λ plain. failure text (is_plain-Plain text h))

  pub if-Answers :
      (args : List Bytes) (b : Bool) (x y : Option (Store × Bytes))
      → Answers args x
      → Answers args y
      → Answers args (if b then x else y)
  if-Answers args true x y h h' = h
  if-Answers args false x y h h' = h'

  pub number-Answers :
      (args : List Bytes) (s : Store) (n : ℤ)
      → WellFormed fl s
      → InInt64 n
      → Answers args (numbered (s, n))
  number-Answers args s n w h = (s, encode_integer n, refl, w, λ plain. number n h)

  pub count-Answers :
      (args : List Bytes) (s : Store) (n : ℕ) → WellFormed fl s → Answers args (counted (s, n))
  count-Answers args s n w = number-Answers args s (signed_word n) w (signed_word-InInt64 n)

  set_for-Answers :
      (args : List Bytes) (m : Moment) (s : Store) (key value : Bytes) (life : ℤ)
      → WellFormed fl s
      → Answers args (set_for m s key value life)
  set_for-Answers args m s key value life w = (
    set m.env s key value life,
    encode_simple_string (codes "OK"),
    refl,
    set-WellFormed fl m.env s key value life w,
    λ plain. simple (codes "OK") (is_plain-Plain (codes "OK") refl),
  )

  pub handle_set-Preserves : Preserves fl handle_set
  unfolding handle_set
  handle_set-Preserves m [] s w bytes = err-Answers [] s set_arguments w refl
  handle_set-Preserves m (key ∷ []) s w bytes = err-Answers (key ∷ []) s set_arguments w refl
  handle_set-Preserves m (key ∷ value ∷ []) s w bytes =
      set_for-Answers (key ∷ value ∷ []) m s key value (pos 0) w
  handle_set-Preserves m (key ∷ value ∷ option ∷ []) s w bytes =
      err-Answers (key ∷ value ∷ option ∷ []) s set_arguments w refl
  handle_set-Preserves m (key ∷ value ∷ option ∷ n ∷ []) s w bytes = by_number (parse_int n)
    where
      args : List Bytes
      args = key ∷ value ∷ option ∷ n ∷ []

      by_number : (o : Option ℤ) → Answers args (set_expiring m s key value (to_upper option) o)
      by_number none = err-Answers args s (codes "ERR invalid expire time in 'set' command") w refl
      by_number (some life) =
          if-Answers args (ltb_ℤ (pos 0) life) (set_option m s key value (to_upper option) life) _
            (if-Answers args (bytes_eq (to_upper option) (codes "EX"))
              (set_for m s key value (duration life second)) _
              (set_for-Answers args m s key value (duration life second) w)
              (if-Answers args (bytes_eq (to_upper option) (codes "PX"))
                (set_for m s key value (duration life millisecond)) _
                (set_for-Answers args m s key value (duration life millisecond) w)
                (err-Answers args s (codes "ERR syntax error") w refl)))
            (err-Answers args s (codes "ERR invalid expire time in 'set' command") w refl)
  handle_set-Preserves m (key ∷ value ∷ option ∷ n ∷ extra ∷ rest) s w bytes =
      err-Answers (key ∷ value ∷ option ∷ n ∷ extra ∷ rest) s set_arguments w refl

  bulk_or_null-Frame : (o : Option Bytes) → Frame (bulk_or_null o)
  bulk_or_null-Frame none = null
  bulk_or_null-Frame (some value) = bulk value

  pub handle_get-Preserves : Preserves fl handle_get
  unfolding handle_get
  handle_get-Preserves m [] s w bytes =
      err-Answers [] s (codes "ERR wrong number of arguments for 'get' command") w refl
  handle_get-Preserves m (key ∷ []) s w bytes =
      let (s', value, run, w') = get-WellFormed fl m.env s key w in
      (s', bulk_or_null value, rw run refl, w', λ plain. bulk_or_null-Frame value)
  handle_get-Preserves m (key ∷ extra ∷ rest) s w bytes =
      err-Answers (key ∷ extra ∷ rest) s (codes "ERR wrong number of arguments for 'get' command") w
        refl

  -- APPEND, on a key that does not hold a sketch.
  pub handle_append-Answers :
      (m : Moment) (key value : Bytes) (s : Store)
      → WellFormed fl s
      → IsText fl (lookup key s.data_of)
      → Answers (key ∷ value ∷ []) (handle_append m (key ∷ value ∷ []) s)
  unfolding handle_append
  handle_append-Answers m key value s w text =
      let (s', n, run, w') = append-WellFormed fl m.env s key value w text in
      (
        s',
        encode_integer (signed_word n),
        rw run refl,
        w',
        λ plain. number (signed_word n) (signed_word-InInt64 n),
      )

  pub handle_del-Preserves : Preserves fl handle_del
  unfolding handle_del
  handle_del-Preserves m [] s w bytes =
      err-Answers [] s (codes "ERR wrong number of arguments for 'del' command") w refl
  handle_del-Preserves m (key ∷ keys) s w bytes =
      count-Answers (key ∷ keys) (delete m.env s (key ∷ keys)).0 (delete m.env s (key ∷ keys)).1
        (delete-WellFormed fl m.env s (key ∷ keys) w)

  pub handle_expire-Preserves : Preserves fl handle_expire
  unfolding handle_expire
  handle_expire-Preserves m [] s w bytes =
      err-Answers [] s (codes "ERR wrong number of arguments for EXPIRE command") w refl
  handle_expire-Preserves m (key ∷ []) s w bytes =
      err-Answers (key ∷ []) s (codes "ERR wrong number of arguments for EXPIRE command") w refl
  handle_expire-Preserves m (key ∷ n ∷ []) s w bytes = by_number (parse_int n)
    where
      args : List Bytes
      args = key ∷ n ∷ []

      by_value :
          (life : ℤ) (s' : Store) (o : Option Bytes)
          → WellFormed fl s'
          → Answers args (expire_found m key life s' o)
      by_value life s' none w' =
          err-Answers args s' (codes "Cannot find key in the hashmap") w' refl
      by_value life s' (some value) w' =
          number-Answers args (set m.env s' key value (duration life second)) (pos 1)
            (set-WellFormed fl m.env s' key value (duration life second) w') (omega arith)

      by_number : (o : Option ℤ) → Answers args (expire_in m s key o)
      by_number none =
          err-Answers args s (codes "ERR invalid expire time for EXPIRE command") w refl
      by_number (some life) =
          let (s', value, run, w') = get-WellFormed fl m.env s key w in
          rw run (by_value life s' value w')
  handle_expire-Preserves m (key ∷ n ∷ extra ∷ rest) s w bytes =
      err-Answers (key ∷ n ∷ extra ∷ rest) s
        (codes "ERR wrong number of arguments for EXPIRE command") w refl

  ttl-InInt64 : (env : Env) (s : Store) (key : Bytes) → InInt64 (ttl env s key).1
  unfolding ttl
  ttl-InInt64 env s key = by_entry (lookup key s.data_of)
    where
      by_time : (e : Entry) (o : Option ℕ) → InInt64 (ttl_from env s key e o).1
      by_time e none = omega arith
      by_time e (some at) = elim (Bool-cases (leb at env.now)) [
        | inl gone ↦ rw gone (omega arith)
        | inr live ↦ rw live (omega arith)
      ]

      by_entry : (o : Option Entry) → InInt64 (ttl_of env s key o).1
      by_entry none = omega arith
      by_entry (some e) = by_time e e.expires_at

  pub handle_ttl-Preserves : Preserves fl handle_ttl
  unfolding handle_ttl
  handle_ttl-Preserves m [] s w bytes =
      err-Answers [] s (codes "ERR wrong number of arguments for 'ttl' command") w refl
  handle_ttl-Preserves m (key ∷ []) s w bytes =
      number-Answers (key ∷ []) (ttl m.env s key).0 (ttl m.env s key).1
        (ttl-WellFormed fl m.env s key w) (ttl-InInt64 m.env s key)
  handle_ttl-Preserves m (key ∷ extra ∷ rest) s w bytes =
      err-Answers (key ∷ extra ∷ rest) s (codes "ERR wrong number of arguments for 'ttl' command") w
        refl

  pub handle_incr-Preserves : Preserves fl handle_incr
  unfolding handle_incr
  handle_incr-Preserves m [] s w bytes =
      err-Answers [] s (codes "ERR incorrect arguments for INCR") w refl
  handle_incr-Preserves m (key ∷ []) s w bytes =
      by_int (get_int m.env s key).1 (get_int m.env s key).0 (get_int-WellFormed fl m.env s key w)
    where
      to :
          (n : ℤ) (expiry : Option ℕ) (s' : Store)
          → InInt64 n
          → WellFormed fl s'
          → Answers (key ∷ []) (incr_to m key n expiry s')
      to n expiry s' h w' =
          number-Answers (key ∷ []) (set m.env s' key (format_int n) (time_until m expiry)) n
            (set-WellFormed fl m.env s' key (format_int n) (time_until m expiry) w') h

      by_int :
          (r : IntResult) (s' : Store)
          → WellFormed fl s'
          → Answers (key ∷ []) (incr_found m key (s', r))
      by_int missing s' w' = to (pos 1) none s' (omega arith) w'
      by_int not_an_integer s' w' =
          err-Answers (key ∷ []) s' (codes "ERR while incrementing") w' refl
      by_int (Strings.integer n expiry) s' w' =
          to (incremented n) expiry s' (signed_word-InInt64 ((word_of n + 1) % 2 ^ 64)) w'
  handle_incr-Preserves m (key ∷ extra ∷ rest) s w bytes =
      err-Answers (key ∷ extra ∷ rest) s (codes "ERR incorrect arguments for INCR") w refl
