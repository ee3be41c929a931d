-- ===== src/Store/Sketches/Merges.antt =====
-- PFMERGE keeps the store well formed.
use learning_redis.Common.{◌≡◌, refl, List, [], ◌∷◌, Bytes, Option, none, some}
use learning_redis.Hll.Registers.{Registers, union}
use learning_redis.Hll.Sketch.{Hll, new}
use learning_redis.Hll.Sketch.Histogram.{Float, estimate}
use learning_redis.Hll.Sketch.Counting.{empty_histo, Counted, new-Counted, merge-Counted}
use learning_redis.Store.Entry.{
  Encoding, encoding_int, encoding_embstr, encoding_raw, encoding_hll, Entry,
}
use learning_redis.Store.Keys.{Data, Store, Env, lookup, released, stored, stamp_new}
use learning_redis.Store.Keys.Accounts.{Tagged, WellFormed, EachTagged, lookup-Tagged}
use learning_redis.Store.Keys.Accounts.Steps.{stored-WellFormed}
use learning_redis.Store.Sketches.{hll_entry, merge_entry, merge_keys, pf_merge}

module _ (fl : Float) (empty : estimate fl empty_histo ≡ 0) where
  merge_entry-Counted :
      (acc : Hll) (f : Registers) (o : Option Entry)
      → Counted fl acc f
      → ((e : Entry) → o ≡ some e → Tagged fl e.encoding e)
      → (acc' : Hll) × (g : Registers) × (merge_entry acc o ≡ some acc') × Counted fl acc' g
  merge_entry-Counted acc f none c tagged = (acc, f, refl, c)
  merge_entry-Counted acc f (some e) c tagged = by_encoding e.encoding refl (tagged e refl)
    where
      by_encoding :
          (enc : Encoding)
          → e.encoding ≡ enc
          → Tagged fl enc e
          → (acc' : Hll) × (g : Registers) × (merge_entry acc (some e) ≡ some acc')
            × Counted fl acc' g
      by_encoding encoding_hll h (k, g, at, ck) =
          let (m, changed, run, cm) = merge-Counted fl acc k f g c ck.holds in
          (m, union f g, rw (h, at) (rw run refl), cm)
      by_encoding encoding_int h t = (acc, f, rw h refl, c)
      by_encoding encoding_embstr h t = (acc, f, rw h refl, c)
      by_encoding encoding_raw h t = (acc, f, rw h refl, c)

  merge_keys-Counted :
      (d : Data) (keys : List Bytes) (acc : Hll) (f : Registers)
      → EachTagged fl d
      → Counted fl acc f
      → (acc' : Hll) × (g : Registers) × (merge_keys d keys acc ≡ some acc') × Counted fl acc' g
  unfolding merge_keys
  merge_keys-Counted d [] acc f each c = (acc, f, refl, c)
  merge_keys-Counted d (key ∷ keys) acc f each c =
      let (acc', g, run, c') =
        merge_entry-Counted acc f (lookup key d) c (λ e h. lookup-Tagged fl key d e each h) in
      let (acc'', g', rest, c'') = merge_keys-Counted d keys acc' g each c' in
      (acc'', g', rw run rest, c'')

  -- `PFMerge` does not panic.
  pub pf_merge-WellFormed :
      (env : Env) (s : Store) (dest : Bytes) (sources : List Bytes)
      → WellFormed fl s
      → (s' : Store) × (pf_merge env s dest sources ≡ some s') × WellFormed fl s'
  unfolding pf_merge
  pf_merge-WellFormed env s dest sources w =
      let (acc, g, run, c) =
        merge_keys-Counted s.data_of (dest ∷ sources) new (λ j. 0) w.tagged
          (new-Counted fl empty) in
      let e = hll_entry (some acc) (stamp_new env s) in
      (
        stored dest e (released dest s (lookup dest s.data_of)),
        rw run refl,
        stored-WellFormed fl s dest e w (acc, g, refl, c),
      )
