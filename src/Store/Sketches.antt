-- ===== src/Store/Sketches.antt =====
-- store/store.go: PFADD, PFCOUNT and PFMERGE.
pub mod Counts
pub mod Merges
pub mod Queries
use learning_redis.Common.{
  ℕ, zero, suc, List, [], ◌∷◌, Bytes, Bool, true, false, ◌||◌, Option, none, some, ◌>>=◌,
  if◌then◌else◌,
}
use learning_redis.Common.Int.{pos}
use learning_redis.Hll.Sketch.{Hll, new, add, merge}
use learning_redis.Hll.Sketch.Histogram.{Float, count}
use learning_redis.Store.Words.{add_word}
use learning_redis.Store.Entry.{
  Encoding, encoding_int, encoding_embstr, encoding_raw, encoding_hll, Entry,
}
use learning_redis.Store.Keys.{
  Data, Store, Env, lookup, put, stamp_new, stamp_access, is_expired, remove_key, released, stored,
}

abbrev pub is_hll : Encoding → Bool
is_hll encoding_hll = true
is_hll enc = false

abbrev pub hll_entry : Option Hll → ℕ → Entry
hll_entry h lru = record {
  encoding = encoding_hll;
  int_val = pos 0;
  str_val = none;
  hll_val = h;
  expires_at = none;
  lru = lru;
}

-- `for _, v := range values { if e.hllVal.Add([]byte(v)) { changed = true } }`
unfoldable pub add_values : List Bytes → Hll → Bool → Option (Hll × Bool)
add_values [] h changed = some (h, changed)
add_values (v ∷ vs) h changed = do (h', grew) ← add h v; add_values vs h' (changed || grew)

-- The sketch that `PFAdd` starts from: that of the key, or a new one. A nil pointer is `none`.
abbrev pub fill :
    Env → Store → Bytes → List Bytes → Entry → Option Entry → Bool → Option (Store × Bool)
fill env s key values e before created = do
  h ← e.hll_val
  (h', changed) ← add_values values h created
  some (stored key (record e { hll_val = some h' }) (released key s before), changed)

abbrev pub pf_add_found :
    Env → Store → Bytes → List Bytes → Option Entry → Option (Store × Option Bool)
pf_add_found env s key values none = do
  (s', changed) ← fill env s key values (hll_entry (some new) (stamp_new env s)) none true
  some (s', some changed)
pf_add_found env s key values (some e) =
    let filled = do
      (s', changed) ←
          fill env s key values (record e { lru = stamp_access env s e.lru }) (some e) false
      some (s', some changed)
    in if is_hll e.encoding then filled else some (s, none)

-- An expired key is removed first, and then it is as if it did not exist.
abbrev pub pf_add_to :
    Env → Store → Bytes → List Bytes → Option Entry → Option (Store × Option Bool)
pf_add_to env s key values none = pf_add_found env s key values none
pf_add_to env s key values (some e) =
    if is_expired env.now e
    then pf_add_found env (remove_key key s) key values none
    else pf_add_found env s key values (some e)

-- The result is `none` for ErrNotHLL.
unfoldable pub pf_add : Env → Store → Bytes → List Bytes → Option (Store × Option Bool)
unfolding add_values
pf_add env s key values = pf_add_to env s key values (lookup key s.data_of)

-- `Count` changes the sketch that the map points to, since it caches the estimate.
abbrev pub pf_count_of : Float → Store → Bytes → Option Entry → Option (Store × ℕ)
pf_count_of fl s key none = some (s, 0)
pf_count_of fl s key (some e) =
    let counted = do
      h ← e.hll_val
      (n, h') ← count fl h
      some (record s { data_of = put key (record e { hll_val = some h' }) s.data_of }, n)
    in if is_hll e.encoding then counted else some (s, 0)

unfoldable pub pf_count : Float → Store → Bytes → Option (Store × ℕ)
pf_count fl s key = pf_count_of fl s key (lookup key s.data_of)

abbrev pub merge_entry : Hll → Option Entry → Option Hll
merge_entry acc none = some acc
merge_entry acc (some e) =
    let merged = do h ← e.hll_val; (acc', changed) ← merge acc h; some acc'
    in if is_hll e.encoding then merged else some acc

unfoldable pub merge_keys : Data → List Bytes → Hll → Option Hll
merge_keys d [] acc = some acc
merge_keys d (key ∷ keys) acc = do acc' ← merge_entry acc (lookup key d); merge_keys d keys acc'

unfoldable pub pf_merge : Env → Store → Bytes → List Bytes → Option Store
unfolding merge_keys
pf_merge env s dest sources = do
  acc ← merge_keys s.data_of (dest ∷ sources) new
  some (
      stored dest (hll_entry (some acc) (stamp_new env s))
        (released dest s (lookup dest s.data_of)))
