-- ===== src/Commands/Handlers/Inspect.antt =====
-- commands/: the handlers of sketches, and of OBJECT, PING, INFO, DEBUG and `_EXPIRY`, on well-formed stores.
use learning_redis.Common.{
  ℕ, ◌+◌, ◌-◌, ◌≤◌, ◌≡◌, ◌≢◌, ◌&&◌, leb→le, refl, arith, List, [], ◌∷◌, ◌++◌, Bytes, Bool, true,
  false, Option, none, some, leb, codes, bytes_eq, length, Bool-cases, inl, inr,
}
use learning_redis.Common.Int.{pos, signed_word}
use learning_redis.Common.Decimal.{signed_word-InInt64}
use learning_redis.Hll.Sketch.Histogram.{Float, estimate}
use learning_redis.Hll.Sketch.Counting.{empty_histo}
use learning_redis.Core.Encode.{encode_error, encode_simple_string, encode_bulk_string}
use learning_redis.Core.Frame.{Plain, is_plain-Plain, Frame, simple, failure, bulk}
use learning_redis.Store.Entry.{Encoding, encoding_int, encoding_embstr, encoding_raw, encoding_hll}
use learning_redis.Store.Keys.{Store, Env, lookup, is_lfu}
use learning_redis.Store.Lfu.{lfu_decode_counter}
use learning_redis.Store.Keys.Accounts.{WellFormed}
use learning_redis.Store.Strings.{get_encoding, get_freq, delete_expired}
use learning_redis.Store.Strings.Laws.{peek-WellFormed, delete_expired-WellFormed}
use learning_redis.Store.Sketches.Counts.{pf_add-WellFormed}
use learning_redis.Store.Sketches.Merges.{pf_merge-WellFormed}
use learning_redis.Store.Sketches.Queries.{pf_count-WellFormed}
use learning_redis.Commands.Command.{to_upper, upper}
use learning_redis.Commands.Registry.Served.{Preserves, quoted-Plain}
use learning_redis.Commands.Handlers.Values.{
  Answers, err-Answers, if-Answers, number-Answers, count-Answers,
}
use learning_redis.Commands.Handlers.{
  counted, numbered, added, handle_pf_add, handle_pf_count, handle_pf_merge, encoding_name,
  encoding_reply, no_lfu, freq_reply, object_of, handle_object, handle_ping, info_section,
  info_name, handle_info, debug_of, handle_debug, handle_expiry, lower, to_lower,
}

-- Letters are not newlines, and become none.
pub to_lower-Plain : (s : Bytes) → Plain s → Plain (to_lower s)
unfolding to_lower
to_lower-Plain [] h = tt
to_lower-Plain (c ∷ cs) (ne, h) = (apart c ne, to_lower-Plain cs h)
  where
    apart : (c : ℕ) → c ≢ 10 → lower c ≢ 10
    apart c ne e = elim (Bool-cases (leb b'A' c && leb c b'Z')) [
      | inl letter ↦ let sum : c + 32 ≡ 10 = simp letter at e in omega (arith, sum)
      | inr other ↦ ne (simp other at e)
    ]

pub to_upper-Plain : (s : Bytes) → Plain s → Plain (to_upper s)
unfolding to_upper
to_upper-Plain [] h = tt
to_upper-Plain (c ∷ cs) (ne, h) = (apart c ne, to_upper-Plain cs h)
  where
    apart : (c : ℕ) → c ≢ 10 → upper c ≢ 10
    apart c ne e = elim (Bool-cases (leb b'a' c && leb c b'z')) [
      | inl letter ↦
          let sum : c - 32 ≡ 10 = simp letter at e in
          let above : leb b'a' c ≡ true = left (leb b'a' c) (leb c b'z') letter in
          let le : b'a' ≤ c = leb→le b'a' c above in omega (arith, sum, le)
      | inr other ↦ ne (simp other at e)
    ]
      where
        left : (a b : Bool) → (a && b) ≡ true → a ≡ true
        left true b h = refl
        left false b h = h

module _ (fl : Float) where
  pub handle_pf_add-Preserves : estimate fl empty_histo ≡ 0 → Preserves fl handle_pf_add
  unfolding handle_pf_add
  handle_pf_add-Preserves empty m [] s w bytes =
      err-Answers fl [] s (codes "Incorrect number of arguments for pfadd") w refl
  handle_pf_add-Preserves empty m (key ∷ values) s w bytes =
      let (s', r, run, w', same) = pf_add-WellFormed fl empty m.env s key values w in
      rw run (by_result s' r w')
    where
      by_result :
          (s' : Store) (r : Option Bool)
          → WellFormed fl s'
          → Answers fl (key ∷ values) (added (s', r))
      by_result s' none w' =
          err-Answers fl (key ∷ values) s'
            (codes "WRONGTYPE Key is not a valid HyperLogLog string value.") w' refl
      by_result s' (some true) w' = number-Answers fl (key ∷ values) s' (pos 1) w' (omega arith)
      by_result s' (some false) w' = number-Answers fl (key ∷ values) s' (pos 0) w' (omega arith)

  pub handle_pf_count-Preserves : Preserves fl (handle_pf_count fl)
  unfolding handle_pf_count
  handle_pf_count-Preserves m [] s w bytes =
      err-Answers fl [] s (codes "Incorrect number of arguments for PFCount") w refl
  handle_pf_count-Preserves m (key ∷ []) s w bytes =
      let (s', n, run, w') = pf_count-WellFormed fl s key w in
      rw run (count-Answers fl (key ∷ []) s' n w')
  handle_pf_count-Preserves m (key ∷ extra ∷ rest) s w bytes =
      err-Answers fl (key ∷ extra ∷ rest) s (codes "Incorrect number of arguments for PFCount") w
        refl

  pub handle_pf_merge-Preserves : estimate fl empty_histo ≡ 0 → Preserves fl handle_pf_merge
  unfolding handle_pf_merge
  handle_pf_merge-Preserves empty m [] s w bytes =
      err-Answers fl [] s (codes "Incorrect number of arguments for PFMerge") w refl
  handle_pf_merge-Preserves empty m (dest ∷ sources) s w bytes =
      let (s', run, w') = pf_merge-WellFormed fl empty m.env s dest sources w in
      (
        s',
        encode_simple_string (codes "OK"),
        rw run refl,
        w',
        λ plain. simple (codes "OK") (is_plain-Plain (codes "OK") refl),
      )

  encoding_reply-Answers :
      (args : List Bytes) (s : Store) (o : Option Encoding)
      → WellFormed fl s
      → Answers fl args (encoding_reply (s, o))
  encoding_reply-Answers args s none w = err-Answers fl args s (codes "ERR no such key") w refl
  encoding_reply-Answers args s (some enc) w = (s, encoding_name enc, refl, w, λ plain. by_name enc)
    where
      by_name : (enc : Encoding) → Frame (encoding_name enc)
      by_name encoding_int = bulk (codes "int")
      by_name encoding_embstr = bulk (codes "embstr")
      by_name encoding_raw = bulk (codes "str")
      by_name encoding_hll =
          failure (codes "ERR unknown encoding")
            (is_plain-Plain (codes "ERR unknown encoding") refl)

  freq_reply-Answers :
      (args : List Bytes) (s : Store) (o : Option ℕ) (lfu : Bool)
      → WellFormed fl s
      → Answers fl args (freq_reply ((s, o), lfu))
  freq_reply-Answers args s o false w = err-Answers fl args s no_lfu w refl
  freq_reply-Answers args s none true w = err-Answers fl args s (codes "ERR no such key") w refl
  freq_reply-Answers args s (some n) true w =
      number-Answers fl args s (signed_word n) w (signed_word-InInt64 n)

  get_freq-WellFormed :
      (env : Env) (s : Store) (key : Bytes)
      → WellFormed fl s
      → WellFormed fl (get_freq env s key).0.0
  unfolding get_freq
  get_freq-WellFormed env s key w = elim (Bool-cases (is_lfu s)) [
    | inl lfu ↦
        rw lfu
          (peek-WellFormed fl env s key (λ e. lfu_decode_counter e.lru) (lookup key s.data_of) w)
    | inr plain ↦ rw plain w
  ]

  pub handle_object-Preserves : Preserves fl handle_object
  unfolding handle_object object_of get_encoding
  handle_object-Preserves m [] s w bytes =
      err-Answers fl [] s (codes "ERR wrong number of arguments for 'object' command") w refl
  handle_object-Preserves m (name ∷ []) s w bytes =
      err-Answers fl (name ∷ []) s (codes "ERR wrong number of arguments for 'object' command") w
        refl
  handle_object-Preserves m (name ∷ key ∷ rest) s w bytes =
      if-Answers fl args (bytes_eq (to_upper name) (codes "ENCODING"))
        (encoding_reply (get_encoding m.env s key)) _
        (encoding_reply-Answers args (get_encoding m.env s key).0 (get_encoding m.env s key).1
          (peek-WellFormed fl m.env s key (λ e. e.encoding) (lookup key s.data_of) w))
        (if-Answers fl args (bytes_eq (to_upper name) (codes "FREQ"))
          (freq_reply (get_freq m.env s key)) _
          (freq_reply-Answers args (get_freq m.env s key).0.0 (get_freq m.env s key).0.1
            (get_freq m.env s key).1 (get_freq-WellFormed m.env s key w))
          (err-Answers fl args s (codes "ERR unknown subcommand for 'object'") w refl))
    where
      args : List Bytes
      args = name ∷ key ∷ rest

  pub handle_ping-Preserves : Preserves fl handle_ping
  unfolding handle_ping
  handle_ping-Preserves m [] s w bytes = (
    s,
    encode_simple_string (codes "PONG"),
    refl,
    w,
    λ plain. simple (codes "PONG") (is_plain-Plain (codes "PONG") refl),
  )
  handle_ping-Preserves m (text ∷ []) s w bytes =
      (s, encode_bulk_string text, refl, w, λ plain. bulk text)
  handle_ping-Preserves m (text ∷ extra ∷ rest) s w bytes =
      err-Answers fl (text ∷ extra ∷ rest) s
        (codes "ERR wrong number of arguments for 'ping' command") w refl

  pub handle_info-Preserves : (enabled : Bool) → Preserves fl (handle_info enabled)
  unfolding handle_info
  handle_info-Preserves enabled m args s w bytes = (
    s,
    encode_bulk_string (info_section enabled s (info_name args)),
    refl,
    w,
    λ plain. bulk (info_section enabled s (info_name args)),
  )

  pub handle_debug-Preserves : Preserves fl handle_debug
  unfolding handle_debug debug_of
  handle_debug-Preserves m [] s w bytes =
      err-Answers fl [] s (codes "ERR DEBUG subcommand required") w refl
  handle_debug-Preserves m (name ∷ rest) s w bytes =
      if-Answers fl args (bytes_eq (to_upper name) (codes "MEMORY"))
        (numbered (s, signed_word s.used_memory)) _
        (number-Answers fl args s (signed_word s.used_memory) w (signed_word-InInt64 s.used_memory))
        (if-Answers fl args (bytes_eq (to_upper name) (codes "KEYS"))
          (counted (s, length s.data_of)) _ (count-Answers fl args s (length s.data_of) w)
          (
            s,
            encode_error (codes "ERR unknown DEBUG subcommand '" ++ (name ++ codes "'")),
            refl,
            w,
            λ plain. failure (codes "ERR unknown DEBUG subcommand '" ++ (name ++ codes "'")) (
                quoted-Plain (codes "ERR unknown DEBUG subcommand '") name (codes "'") refl plain.0
                  refl),
          ))
    where
      args : List Bytes
      args = name ∷ rest

  pub handle_expiry-Preserves : Preserves fl handle_expiry
  unfolding handle_expiry
  handle_expiry-Preserves m args s w bytes =
      let order = m.order 0 s.data_of in
      count-Answers fl args (delete_expired m.env order s).0 (delete_expired m.env order s).1
        (delete_expired-WellFormed fl m.env order s w)
