-- ===== src/Store/Contents/Writes.antt =====
-- store/store.go: what the writes do to the contents of a store in which no key has a time to live.
use learning_redis.Common.{
  ℕ, ◌+◌, ◌++◌, ◌≡◌, refl, ap, subst, ◌∙◌, Bytes, Bool, true, false, Option, none, some, ◌>>=◌, ltb,
  if◌then◌else◌, length,
}
use learning_redis.Common.Int.{ℤ, pos}
use learning_redis.Common.Decimal.{format_int}
use learning_redis.Store.Entry.{
  Encoding, encoding_int, encoding_embstr, encoding_raw, encoding_hll, Sds, Entry, detect_encoding,
  new_sds, append_string, append_slice, grow_to, sds_max_pre_alloc,
}
use learning_redis.Store.Keys.{
  Store, Env, lookup, is_expired, expired_at, released, stored, stamp_new,
}
use learning_redis.Store.Strings.{
  entry_for, expiry_after, set, appendable, appended, append_to, append, touched, IntResult,
  missing, not_an_integer, integer, int_of, get_int_from, get_int,
}
use learning_redis.Store.Contents.{
  Content, Contents, content, contents, text_in, find_content, write_content, content_of,
  content_of-lookup, contents-put, contents-put_same, Lasts, lookup-Lasts, put-Lasts,
}

-- These contents, and no time to live.
abbrev pub Stands : Store → Contents → Type 0
Stands s cs = (contents s.data_of ≡ cs) × Lasts s.data_of

-- An operation and its effect on contents: both panic, or they give the same result.
abbrev pub Reaches : {A : Type 0} → Option (Store × A) → Option (Contents × A) → Type 0
Reaches none none = Unit
Reaches none (some b) = ⊥
Reaches (some a) none = ⊥
Reaches (some (s, a)) (some (cs, b)) = Stands s cs × (a ≡ b)

pub Lasts-is_expired : (now : ℕ) (e : Entry) → e.expires_at ≡ none → is_expired now e ≡ false
unfolding is_expired
Lasts-is_expired now e at = ap (expired_at now) at

pub stored-Stands :
    (s : Store) (key : Bytes) (e : Entry) (o : Option Entry)
    → Lasts s.data_of
    → e.expires_at ≡ none
    → Stands (stored key e (released key s o)) (write_content key (content e) (contents s.data_of))
stored-Stands s key e none h at = (contents-put key e s.data_of, put-Lasts key e s.data_of h at)
stored-Stands s key e (some old) h at =
    (contents-put key e s.data_of, put-Lasts key e s.data_of h at)

-- What `Set` writes.
abbrev pub text_content : Bytes → Content
text_content value = content (entry_for (detect_encoding value) value none 0)

entry_for-content :
    (enc : Encoding) (value : Bytes) (at : Option ℕ) (lru : ℕ)
    → (content (entry_for enc value at lru) ≡ content (entry_for enc value none 0))
      × ((entry_for enc value at lru).expires_at ≡ at)
entry_for-content encoding_int value at lru = (refl, refl)
entry_for-content encoding_embstr value at lru = (refl, refl)
entry_for-content encoding_raw value at lru = (refl, refl)
entry_for-content encoding_hll value at lru = (refl, refl)

pub set-Stands :
    (env : Env) (s : Store) (key value : Bytes) (life : ℤ)
    → expiry_after env life ≡ none
    → Lasts s.data_of
    → Stands
        (set env s key value life)
        (write_content key (text_content value) (contents s.data_of))
unfolding set
set-Stands env s key value life never h =
    let e = entry_for (detect_encoding value) value (expiry_after env life) (stamp_new env s) in
    let (same, at) =
      entry_for-content (detect_encoding value) value (expiry_after env life) (stamp_new env s) in
    let (now, lasts) = stored-Stands s key e (lookup key s.data_of) h (at ∙ never) in
    (now ∙ ap (λ (c : Content). write_content key c (contents s.data_of)) same, lasts)

-- APPEND.
abbrev pub buffer : Content → Encoding → Option Bytes
buffer c encoding_int = some (format_int c.int_val)
buffer c enc = c.text

abbrev pub raw_content : Bytes → Content
raw_content t = record { encoding = encoding_raw; int_val = pos 0; text = some t; sketch = none }

abbrev pub append_onto : Bytes → Bytes → Contents → Option Content → Option (Contents × ℕ)
append_onto key value cs none = some (write_content key (text_content value) cs, length value)
append_onto key value cs (some c) = do
  buf ← buffer c c.encoding
  some (write_content key (raw_content (buf ++ value)) cs, length (buf ++ value))

unfoldable pub append_content : Bytes → Bytes → Contents → Option (Contents × ℕ)
append_content key value cs = append_onto key value cs (find_content key cs)

append_string-buf :
    (grow : ℕ → ℕ → ℕ) (b : Sds) (v : Bytes) → (append_string grow b v).buf ≡ b.buf ++ v
unfolding append_string
append_string-buf grow b v = by_size (ltb sds_max_pre_alloc (length b.buf + length v))
  where
    by_size :
        (big : Bool)
        → (append_slice grow (if big then grow_to b (length b.buf + length v) else b) v).buf
          ≡ b.buf ++ v
    by_size true = refl
    by_size false = refl

pub append-Reaches :
    (env : Env) (s : Store) (key value : Bytes)
    → Lasts s.data_of
    → Reaches (append env s key value) (append_content key value (contents s.data_of))
unfolding append append_content
append-Reaches env s key value h =
    subst
      (λ (o : Option Content).
        Reaches (append env s key value) (append_onto key value (contents s.data_of) o))
      (content_of-lookup key s.data_of) (by_entry (lookup key s.data_of) refl)
  where
    by_buffer :
        (old : Entry) (o : Option Sds)
        → old.expires_at ≡ none
        → Reaches
            (o >>= λ buf. some (
              stored key
                  (appended env s old (append_string env.grow buf value))
                  (released key s (some old)),
              length (append_string env.grow buf value).buf,
            ))
            (text_in o >>= λ buf. some (
              write_content key (raw_content (buf ++ value)) (contents s.data_of),
              length (buf ++ value),
            ))
    by_buffer old none at = tt
    by_buffer old (some b) at =
        let joined = append_string-buf env.grow b value in
        let e = appended env s old (append_string env.grow b value) in
        let (now, lasts) = stored-Stands s key e (some old) h at in
        (
          (
            now ∙ ap (λ (t : Bytes). write_content key (raw_content t) (contents s.data_of)) joined,
            lasts,
          ),
          ap (λ (t : Bytes). length t) joined,
        )

    by_encoding :
        (old : Entry) (enc : Encoding)
        → old.expires_at ≡ none
        → Reaches
            (appendable old enc >>= λ buf. some (
              stored key
                  (appended env s old (append_string env.grow buf value))
                  (released key s (some old)),
              length (append_string env.grow buf value).buf,
            ))
            (buffer (content old) enc >>= λ buf. some (
              write_content key (raw_content (buf ++ value)) (contents s.data_of),
              length (buf ++ value),
            ))
    by_encoding old encoding_int at =
        unfold new_sds in by_buffer old (some (new_sds (format_int old.int_val))) at
    by_encoding old encoding_embstr at = by_buffer old old.str_val at
    by_encoding old encoding_raw at = by_buffer old old.str_val at
    by_encoding old encoding_hll at = by_buffer old old.str_val at

    by_entry :
        (o : Option Entry)
        → lookup key s.data_of ≡ o
        → Reaches
            (append_to env s key value o)
            (append_onto key value (contents s.data_of) (content_of o))
    by_entry none found =
        let never : expiry_after env (pos 0) ≡ none = refl in
        (set-Stands env s key value (pos 0) never h, refl)
    by_entry (some old) found =
        by_encoding old old.encoding (lookup-Lasts key s.data_of old h found)

-- The read of a number, which changes no content.
abbrev pub int_is : Encoding → Content → IntResult
int_is encoding_int c = integer c.int_val none
int_is enc c = not_an_integer

abbrev pub int_in : Option Content → IntResult
int_in none = missing
int_in (some c) = int_is c.encoding c

pub get_int-Stands :
    (env : Env) (s : Store) (key : Bytes)
    → Lasts s.data_of
    → Stands (get_int env s key).0 (contents s.data_of)
      × ((get_int env s key).1 ≡ int_in (find_content key (contents s.data_of)))
unfolding get_int
get_int-Stands env s key h =
    let (stands, read) = by_entry (lookup key s.data_of) refl in
    (stands, read ∙ ap int_in (content_of-lookup key s.data_of))
  where
    by_encoding :
        (e : Entry) (enc : Encoding)
        → e.encoding ≡ enc
        → e.expires_at ≡ none
        → int_of enc e ≡ int_is enc (content e)
    by_encoding e encoding_int is at = ap (integer e.int_val) at
    by_encoding e encoding_embstr is at = refl
    by_encoding e encoding_raw is at = refl
    by_encoding e encoding_hll is at = refl

    by_entry :
        (o : Option Entry)
        → lookup key s.data_of ≡ o
        → Stands (get_int_from env s key o).0 (contents s.data_of)
          × ((get_int_from env s key o).1 ≡ int_in (content_of o))
    by_entry none found = ((refl, h), refl)
    by_entry (some e) found =
        let at = lookup-Lasts key s.data_of e h found in
        let live = Lasts-is_expired env.now e at in
        rw live (
          (
            contents-put_same key e (touched env s e) s.data_of found refl,
            put-Lasts key (touched env s e) s.data_of h at,
          ),
          by_encoding e e.encoding refl at,
        )
