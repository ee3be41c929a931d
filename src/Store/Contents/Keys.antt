-- ===== src/Store/Contents/Keys.antt =====
-- store/store.go: what Delete, PFAdd and PFMerge do to contents without a time to live.
use learning_redis.Common.{
  ℕ, List, [], ◌∷◌, ◌≡◌, refl, sym, ap, subst, ◌∙◌, Bytes, Bool, true, false, Option, none, some,
  ◌>>=◌, if◌then◌else◌,
}
use learning_redis.Common.Int.{pos}
use learning_redis.Hll.Sketch.{Hll, new, merge}
use learning_redis.Store.Words.{add_word}
use learning_redis.Store.Entry.{encoding_hll, Entry}
use learning_redis.Store.Keys.{
  Data, Store, Env, lookup, remove_key, take_out, released, stored, stamp_new, stamp_access,
}
use learning_redis.Store.Strings.{delete_one, delete_loop, delete}
use learning_redis.Store.Sketches.{
  is_hll, hll_entry, add_values, fill, pf_add_to, pf_add, merge_entry, merge_keys, pf_merge,
}
use learning_redis.Store.Contents.{
  Content, Contents, content, contents, find_content, write_content, drop_content, content_of,
  content_of-lookup, contents-erase, Lasts, lookup-Lasts, erase-Lasts,
}
use learning_redis.Store.Contents.Writes.{Stands, Reaches, Lasts-is_expired, stored-Stands}

-- DEL: the contents, and how many keys were there.
abbrev pub delete_found : Bytes → Contents → Option Content → Contents × ℕ
delete_found key cs none = (cs, 0)
delete_found key cs (some c) = (drop_content key cs, 1)

unfoldable pub delete_contents : Contents → List Bytes → ℕ → Contents × ℕ
delete_contents cs [] removed = (cs, removed)
delete_contents cs (key ∷ keys) removed =
    let (cs', n) = delete_found key cs (find_content key cs) in
    delete_contents cs' keys (add_word removed n)

delete_one-Stands :
    (env : Env) (s : Store) (key : Bytes)
    → Lasts s.data_of
    → Stands
        (delete_one env s key (lookup key s.data_of)).0
        (delete_found key (contents s.data_of) (find_content key (contents s.data_of))).0
      × ((delete_one env s key (lookup key s.data_of)).1
          ≡ (delete_found key (contents s.data_of) (find_content key (contents s.data_of))).1)
unfolding remove_key
delete_one-Stands env s key h =
    subst
      (λ (o : Option Content).
        Stands (delete_one env s key (lookup key s.data_of)).0
          (delete_found key (contents s.data_of) o).0
        × ((delete_one env s key (lookup key s.data_of)).1
            ≡ (delete_found key (contents s.data_of) o).1))
      (content_of-lookup key s.data_of) (by_entry (lookup key s.data_of) refl)
  where
    by_entry :
        (o : Option Entry)
        → lookup key s.data_of ≡ o
        → Stands (delete_one env s key o).0 (delete_found key (contents s.data_of) (content_of o)).0
          × ((delete_one env s key o).1 ≡ (delete_found key (contents s.data_of) (content_of o)).1)
    by_entry none found = ((refl, h), refl)
    by_entry (some e) found =
        let live = Lasts-is_expired env.now e (lookup-Lasts key s.data_of e h found) in
        let gone : Stands (take_out key s (some e)) (drop_content key (contents s.data_of)) =
          (contents-erase key s.data_of, erase-Lasts key s.data_of h) in
        (
          subst
              (λ (o : Option Entry).
                Stands (take_out key s o) (drop_content key (contents s.data_of)))
              (sym found) gone,
          rw live refl,
        )

delete_loop-Stands :
    (env : Env) (keys : List Bytes) (s : Store) (cs : Contents) (removed : ℕ)
    → Stands s cs
    → Stands (delete_loop env s keys removed).0 (delete_contents cs keys removed).0
      × ((delete_loop env s keys removed).1 ≡ (delete_contents cs keys removed).1)
unfolding delete_loop delete_contents
delete_loop-Stands env [] s cs removed h = (h, refl)
delete_loop-Stands env (key ∷ keys) s cs removed (same, h) =
    let one = delete_one env s key (lookup key s.data_of) in
    let goes = delete_found key cs (find_content key cs) in
    let (stands, count) =
      subst
        (λ (t : Contents).
          Stands one.0 (delete_found key t (find_content key t)).0
          × (one.1 ≡ (delete_found key t (find_content key t)).1))
        same (delete_one-Stands env s key h) in
    subst
      (λ (n : ℕ).
        Stands (delete_loop env one.0 keys (add_word removed one.1)).0
          (delete_contents goes.0 keys (add_word removed n)).0
        × ((delete_loop env one.0 keys (add_word removed one.1)).1
            ≡ (delete_contents goes.0 keys (add_word removed n)).1))
      count (delete_loop-Stands env keys one.0 goes.0 (add_word removed one.1) stands)

pub delete-Stands :
    (env : Env) (s : Store) (keys : List Bytes)
    → Lasts s.data_of
    → Stands (delete env s keys).0 (delete_contents (contents s.data_of) keys 0).0
      × ((delete env s keys).1 ≡ (delete_contents (contents s.data_of) keys 0).1)
unfolding delete
delete-Stands env s keys h = delete_loop-Stands env keys s (contents s.data_of) 0 (refl, h)

-- PFADD; the outer `none` is a panic, the inner one the error.
abbrev pub sketch_content : Option Hll → Content
sketch_content h = record { encoding = encoding_hll; int_val = pos 0; text = none; sketch = h }

abbrev pub fill_content :
    Bytes → List Bytes → Contents → Content → Bool → Option (Contents × Option Bool)
fill_content key values cs c created = do
  h ← c.sketch
  (h', changed) ← add_values values h created
  some (write_content key (record c { sketch = some h' }) cs, some changed)

abbrev pub pf_add_onto :
    Bytes → List Bytes → Contents → Option Content → Option (Contents × Option Bool)
pf_add_onto key values cs none = fill_content key values cs (sketch_content (some new)) true
pf_add_onto key values cs (some c) =
    if is_hll c.encoding then fill_content key values cs c false else some (cs, none)

unfoldable pub pf_add_content : Bytes → List Bytes → Contents → Option (Contents × Option Bool)
pf_add_content key values cs = pf_add_onto key values cs (find_content key cs)

abbrev told : Store × Bool → Option (Store × Option Bool)
told (s, changed) = some (s, some changed)

fill-Reaches :
    (env : Env) (s : Store) (key : Bytes) (values : List Bytes) (e : Entry) (before : Option Entry)
    (created : Bool)
    → Lasts s.data_of
    → e.expires_at ≡ none
    → Reaches
        (fill env s key values e before created >>= told)
        (fill_content key values (contents s.data_of) (content e) created)
fill-Reaches env s key values e before created h at = by_sketch e.hll_val
  where
    by_added :
        (o : Option (Hll × Bool))
        → Reaches
            ((o >>= λ r.
                some (stored key (record e { hll_val = some r.0 }) (released key s before), r.1))
              >>= told)
            (o >>= λ r. some (
              write_content key (record (content e) { sketch = some r.0 }) (contents s.data_of),
              some r.1,
            ))
    by_added none = tt
    by_added (some (h', changed)) =
        (stored-Stands s key (record e { hll_val = some h' }) before h at, refl)

    by_sketch :
        (o : Option Hll)
        → Reaches
            ((o >>= λ g. add_values values g created >>= λ r.
                some (stored key (record e { hll_val = some r.0 }) (released key s before), r.1))
              >>= told)
            (o >>= λ g. add_values values g created >>= λ r. some (
              write_content key (record (content e) { sketch = some r.0 }) (contents s.data_of),
              some r.1,
            ))
    by_sketch none = tt
    by_sketch (some g) = by_added (add_values values g created)

pub pf_add-Reaches :
    (env : Env) (s : Store) (key : Bytes) (values : List Bytes)
    → Lasts s.data_of
    → Reaches (pf_add env s key values) (pf_add_content key values (contents s.data_of))
unfolding pf_add pf_add_content
pf_add-Reaches env s key values h =
    subst
      (λ (o : Option Content).
        Reaches (pf_add env s key values) (pf_add_onto key values (contents s.data_of) o))
      (content_of-lookup key s.data_of) (by_entry (lookup key s.data_of) refl)
  where
    by_kind :
        (e : Entry) (b : Bool)
        → e.expires_at ≡ none
        → Reaches
            (if b
              then fill env s key values
                  (record e { lru = stamp_access env s e.lru })
                  (some e)
                  false
                >>= told
              else some (s, none))
            (if b
              then fill_content key values (contents s.data_of) (content e) false
              else some (contents s.data_of, none))
    by_kind e true at =
        fill-Reaches env s key values (record e { lru = stamp_access env s e.lru }) (some e) false h
          at
    by_kind e false at = ((refl, h), refl)

    by_entry :
        (o : Option Entry)
        → lookup key s.data_of ≡ o
        → Reaches
            (pf_add_to env s key values o)
            (pf_add_onto key values (contents s.data_of) (content_of o))
    by_entry none found =
        fill-Reaches env s key values (hll_entry (some new) (stamp_new env s)) none true h refl
    by_entry (some e) found =
        let at = lookup-Lasts key s.data_of e h found in
        rw (Lasts-is_expired env.now e at) (by_kind e (is_hll e.encoding) at)

-- PFMERGE.
abbrev pub merge_content : Hll → Option Content → Option Hll
merge_content acc none = some acc
merge_content acc (some c) =
    let merged = do h ← c.sketch; (acc', changed) ← merge acc h; some acc'
    in if is_hll c.encoding then merged else some acc

unfoldable pub merge_contents : Contents → List Bytes → Hll → Option Hll
merge_contents cs [] acc = some acc
merge_contents cs (key ∷ keys) acc = do
  acc' ← merge_content acc (find_content key cs)
  merge_contents cs keys acc'

merge_entry-content :
    (acc : Hll) (o : Option Entry) → merge_entry acc o ≡ merge_content acc (content_of o)
merge_entry-content acc none = refl
merge_entry-content acc (some e) = refl

merge_keys-contents :
    (d : Data) (keys : List Bytes) (acc : Hll)
    → merge_keys d keys acc ≡ merge_contents (contents d) keys acc
unfolding merge_keys merge_contents
merge_keys-contents d [] acc = refl
merge_keys-contents d (key ∷ keys) acc =
    ap (λ (o : Option Hll). o >>= merge_keys d keys)
      (merge_entry-content acc (lookup key d) ∙ ap (merge_content acc) (content_of-lookup key d))
    ∙ by_acc (merge_content acc (find_content key (contents d)))
        (λ acc'. merge_keys-contents d keys acc')
  where
    by_acc :
        (o : Option Hll)
        → ((a : Hll) → merge_keys d keys a ≡ merge_contents (contents d) keys a)
        → (o >>= merge_keys d keys) ≡ (o >>= merge_contents (contents d) keys)
    by_acc none ih = refl
    by_acc (some a) ih = ih a

abbrev pub merge_written : Bytes → Contents → Hll → Option Contents
merge_written dest cs acc = some (write_content dest (sketch_content (some acc)) cs)

unfoldable pub pf_merge_content : Bytes → List Bytes → Contents → Option Contents
pf_merge_content dest sources cs = merge_contents cs (dest ∷ sources) new >>= merge_written dest cs

-- An operation without a result.
abbrev pub Arrives : Option Store → Option Contents → Type 0
Arrives none none = Unit
Arrives none (some cs) = ⊥
Arrives (some s) none = ⊥
Arrives (some s) (some cs) = Stands s cs

pub pf_merge-Arrives :
    (env : Env) (s : Store) (dest : Bytes) (sources : List Bytes)
    → Lasts s.data_of
    → Arrives (pf_merge env s dest sources) (pf_merge_content dest sources (contents s.data_of))
unfolding pf_merge pf_merge_content
pf_merge-Arrives env s dest sources h =
    subst
      (λ (o : Option Hll).
        Arrives (pf_merge env s dest sources) (o >>= merge_written dest (contents s.data_of)))
      (merge_keys-contents s.data_of (dest ∷ sources) new)
      (by_acc (merge_keys s.data_of (dest ∷ sources) new))
  where
    by_acc :
        (o : Option Hll)
        → Arrives
            (o >>= λ acc. some (
              stored dest
                (hll_entry (some acc) (stamp_new env s))
                (released dest s (lookup dest s.data_of))))
            (o >>= merge_written dest (contents s.data_of))
    by_acc none = tt
    by_acc (some acc) =
        stored-Stands s dest (hll_entry (some acc) (stamp_new env s)) (lookup dest s.data_of) h refl
