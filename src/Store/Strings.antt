-- ===== src/Store/Strings.antt =====
-- store/store.go: the operations on strings and numbers, on any kind of key, and active expiry of
-- store/expire.go. A method returns the new store beside its result; `none` is a nil dereference.
pub mod Replies
pub mod Laws
pub mod Expired
pub mod Gone
use learning_redis.Common.{
  ℕ, zero, suc, ◌+◌, ◌-◌, ◌*◌, ◌/◌, ◌^◌, min, List, [], ◌∷◌, ◌++◌, Bytes, Bool, true, false, not,
  Option, none, some, ◌>>=◌, ltb, leb, if◌then◌else◌, length,
}
use learning_redis.Common.Int.{ℤ, pos, negsuc, pos_part, ltb_ℤ}
use learning_redis.Common.Decimal.{parse_int, format_int}
use learning_redis.Store.Words.{add_word, sub_word}
use learning_redis.Store.Lfu.{lfu_decode_counter}
use learning_redis.Store.Entry.{
  Encoding, encoding_int, encoding_embstr, encoding_raw, encoding_hll, Sds, new_sds, append_string,
  Entry, detect_encoding, int_or_zero,
}
use learning_redis.Store.Keys.{
  Data, Store, Env, lookup, put, is_lfu, stamp_new, stamp_access, is_expired, remove_key, released,
  stored,
}

-- `Set`'s entry.
abbrev pub entry_for : Encoding → Bytes → Option ℕ → ℕ → Entry
entry_for encoding_int value expires_at lru = record {
  encoding = encoding_int;
  int_val = int_or_zero (parse_int value);
  str_val = none;
  hll_val = none;
  expires_at = expires_at;
  lru = lru;
}
entry_for encoding_hll value expires_at lru = record {
  encoding = encoding_hll;
  int_val = pos 0;
  str_val = none;
  hll_val = none;
  expires_at = expires_at;
  lru = lru;
}
entry_for enc value expires_at lru = record {
  encoding = enc;
  int_val = pos 0;
  str_val = some (new_sds value);
  hll_val = none;
  expires_at = expires_at;
  lru = lru;
}

-- `expiresAt`: none unless the time to live is positive.
abbrev pub expiry_after : Env → ℤ → Option ℕ
expiry_after env ttl = if ltb_ℤ (pos 0) ttl then some (env.now + pos_part ttl) else none

unfoldable pub set : Env → Store → Bytes → Bytes → ℤ → Store
set env s key value ttl =
    let e = entry_for (detect_encoding value) value (expiry_after env ttl) (stamp_new env s) in
    stored key e (released key s (lookup key s.data_of))

-- The string that `Append` extends; that of a HyperLogLog is a nil pointer.
abbrev pub appendable : Entry → Encoding → Option Sds
appendable e encoding_int = some (new_sds (format_int e.int_val))
appendable e enc = e.str_val

-- The entry that `Append` leaves, with the old expiry.
abbrev pub appended : Env → Store → Entry → Sds → Entry
appended env s old buf = record {
  encoding = encoding_raw;
  int_val = pos 0;
  str_val = some buf;
  hll_val = none;
  expires_at = old.expires_at;
  lru = stamp_access env s old.lru;
}

abbrev pub append_to : Env → Store → Bytes → Bytes → Option Entry → Option (Store × ℕ)
append_to env s key value none = some (set env s key value (pos 0), length value)
append_to env s key value (some old) = do
  buf ← appendable old old.encoding
  let buf' = append_string env.grow buf value
  some (stored key (appended env s old buf') (released key s (some old)), length buf'.buf)

-- The length is that of the new value.
unfoldable pub append : Env → Store → Bytes → Bytes → Option (Store × ℕ)
unfolding set
append env s key value = append_to env s key value (lookup key s.data_of)

-- An access that is not a write: `e.lru = s.stampAccess(e.lru); s.data[key] = e`.
abbrev pub touched : Env → Store → Entry → Entry
touched env s e = record e { lru = stamp_access env s e.lru }

abbrev pub touch : Env → Store → Bytes → Entry → Store
touch env s key e = record s { data_of = put key (touched env s e) s.data_of }

pub data IntResult : Type 0 where
  missing not_an_integer : IntResult
  integer : ℤ → Option ℕ → IntResult

abbrev pub int_of : Encoding → Entry → IntResult
int_of encoding_int e = integer e.int_val e.expires_at
int_of enc e = not_an_integer

abbrev pub get_int_from : Env → Store → Bytes → Option Entry → Store × IntResult
get_int_from env s key none = (s, missing)
get_int_from env s key (some e) =
    if is_expired env.now e
    then (remove_key key s, missing)
    else (touch env s key e, int_of e.encoding e)

unfoldable pub get_int : Env → Store → Bytes → Store × IntResult
get_int env s key = get_int_from env s key (lookup key s.data_of)

-- The text of a value; a missing one for a HyperLogLog. The outer `none` is a nil dereference.
abbrev pub text_of : Encoding → Entry → Option (Option Bytes)
text_of encoding_int e = some (some (format_int e.int_val))
text_of encoding_hll e = some none
text_of enc e = do s ← e.str_val; some (some s.buf)

abbrev pub get_from : Env → Store → Bytes → Option Entry → Option (Store × Option Bytes)
get_from env s key none = some (s, none)
get_from env s key (some e) =
    let found = do text ← text_of e.encoding e; some (touch env s key e, text)
    in if is_expired env.now e then some (remove_key key s, none) else found

unfoldable pub get : Env → Store → Bytes → Option (Store × Option Bytes)
get env s key = get_from env s key (lookup key s.data_of)

abbrev pub peek {ℓ} :
    {A : Type ℓ} → Env → Store → Bytes → (Entry → A) → Option Entry → Store × Option A
peek env s key read none = (s, none)
peek env s key read (some e) =
    if is_expired env.now e then (remove_key key s, none) else (s, some (read e))

unfoldable pub get_encoding : Env → Store → Bytes → Store × Option Encoding
get_encoding env s key = peek env s key (λ e. e.encoding) (lookup key s.data_of)

-- The last part is `policyOK`.
unfoldable pub get_freq : Env → Store → Bytes → (Store × Option ℕ) × Bool
get_freq env s key =
    if not (is_lfu s)
    then ((s, none), false)
    else (peek env s key (λ e. lfu_decode_counter e.lru) (lookup key s.data_of), true)

-- Durations end at 2^63 - 1.
abbrev pub ttl_from : Env → Store → Bytes → Entry → Option ℕ → Store × ℤ
ttl_from env s key e none = (s, negsuc 0)
ttl_from env s key e (some at) =
    if leb at env.now
    then (remove_key key s, negsuc 1)
    else (s, pos ((min (at - env.now) (2 ^ 63 - 1) / 1000000 + 500) / 1000))

abbrev pub ttl_of : Env → Store → Bytes → Option Entry → Store × ℤ
ttl_of env s key none = (s, negsuc 1)
ttl_of env s key (some e) = ttl_from env s key e e.expires_at

unfoldable pub ttl : Env → Store → Bytes → Store × ℤ
ttl env s key = ttl_of env s key (lookup key s.data_of)

abbrev pub delete_one : Env → Store → Bytes → Option Entry → Store × ℕ
delete_one env s key none = (s, 0)
delete_one env s key (some e) = (remove_key key s, if is_expired env.now e then 0 else 1)

unfoldable pub delete_loop : Env → Store → List Bytes → ℕ → Store × ℕ
delete_loop env s [] removed = (s, removed)
delete_loop env s (key ∷ keys) removed =
    let (s', n) = delete_one env s key (lookup key s.data_of) in
    delete_loop env s' keys (add_word removed n)

unfoldable pub delete : Env → Store → List Bytes → Store × ℕ
unfolding delete_loop
delete env s keys = delete_loop env s keys 0

-- `DeleteExpired`'s loop over the map: `order` is the order in which the runtime yields it.
abbrev pub expire_one : Env → Store → Bytes → Entry → Store × ℕ
expire_one env s key e = if is_expired env.now e then (remove_key key s, 1) else (s, 0)

abbrev pub never_expires : Option ℕ → Bool
never_expires none = true
never_expires (some at) = false

unfoldable pub expire_loop : Env → Data → Store → ℕ → ℕ → Store × ℕ
expire_loop env [] s checked deleted = (s, deleted)
expire_loop env ((key, e) ∷ order) s checked deleted =
    let (s', n) = expire_one env s key e in
    let skipped = expire_loop env order s checked deleted in
    let gone_on = expire_loop env order s' (checked + 1) (deleted + n) in
    if leb 20 checked then (s, deleted) else if never_expires e.expires_at then skipped else gone_on

unfoldable pub delete_expired : Env → Data → Store → Store × ℕ
unfolding expire_loop
delete_expired env order s = expire_loop env order s 0 0
