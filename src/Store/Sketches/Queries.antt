-- ===== src/Store/Sketches/Queries.antt =====
-- store/store.go: `PFCount` keeps the store well formed.
use learning_redis.Common.{
  ℕ, subst, ◌≡◌, refl, sym, ap, ◌∙◌, Bytes, Option, none, some, Bool-cases, Option-cases, inl, inr,
}
use learning_redis.Hll.Sketch.{Hll, size}
use learning_redis.Hll.Sketch.Histogram.{Float, count, histogram}
use learning_redis.Hll.Sketch.Counting.{count-estimate_of, estimate_of}
use learning_redis.Store.Entry.{
  Encoding, encoding_int, encoding_embstr, encoding_raw, encoding_hll, Entry, entry_size,
  value_size,
}
use learning_redis.Store.Keys.{Store, lookup, put}
use learning_redis.Store.Keys.Accounts.{Tagged, WellFormed, lookup-Tagged}
use learning_redis.Store.Keys.Accounts.Steps.{replaced-WellFormed}
use learning_redis.Store.Sketches.{pf_count, pf_count_of}

module _ (fl : Float) where
  abbrev size_after : ℕ → Option (ℕ × Hll) → ℕ
  size_after before none = before
  size_after before (some (n, h)) = size h

  -- The count changes the cache only.
  size_after-count : (h : Hll) → size_after (size h) (count fl h) ≡ size h
  unfolding count size
  size_after-count h = elim (Bool-cases h.dirty) [
    | inl dirty ↦ elim (Option-cases (histogram h)) [
      | inl panics ↦ rw (dirty, panics) refl
      | inr (histo, run) ↦ rw (dirty, run) refl
    ]
    | inr clean ↦ rw clean refl
  ]

  count-size : (h h' : Hll) (n : ℕ) → count fl h ≡ some (n, h') → size h' ≡ size h
  count-size h h' n run = sym (ap (size_after (size h)) run) ∙ size_after-count h

  -- `PFCount` does not panic.
  pub pf_count-WellFormed :
      (s : Store) (key : Bytes)
      → WellFormed fl s
      → (s' : Store) × (n : ℕ) × (pf_count fl s key ≡ some (s', n)) × WellFormed fl s'
  unfolding pf_count entry_size value_size
  pf_count-WellFormed s key w = by_entry (lookup key s.data_of) refl
    where
      by_encoding :
          (e : Entry) (enc : Encoding)
          → lookup key s.data_of ≡ some e
          → e.encoding ≡ enc
          → Tagged fl enc e
          → (s' : Store) × (n : ℕ) × (pf_count_of fl s key (some e) ≡ some (s', n))
            × WellFormed fl s'
      by_encoding e encoding_hll found is (h, f, at, c) =
          let (h', run, c') = count-estimate_of fl h f c in
          let e' = record e { hll_val = some h' } in
          let tag : Tagged fl e.encoding e' =
            subst (λ (enc : Encoding). Tagged fl enc e') (sym is) (h', f, refl, c') in
          let same : entry_size key e' ≡ entry_size key e =
            unfold entry_size value_size in
            rw (is, at, count-size h h' (estimate_of fl f) run) refl in
          (
            record s { data_of = put key e' s.data_of },
            estimate_of fl f,
            rw is (rw at (rw run refl)),
            replaced-WellFormed fl s key e e' w found same tag,
          )
      by_encoding e encoding_int found is t = (s, 0, rw is refl, w)
      by_encoding e encoding_embstr found is t = (s, 0, rw is refl, w)
      by_encoding e encoding_raw found is t = (s, 0, rw is refl, w)

      by_entry :
          (o : Option Entry)
          → lookup key s.data_of ≡ o
          → (s' : Store) × (n : ℕ) × (pf_count_of fl s key o ≡ some (s', n)) × WellFormed fl s'
      by_entry none found = (s, 0, refl, w)
      by_entry (some e) found =
          by_encoding e e.encoding found refl (lookup-Tagged fl key s.data_of e w.tagged found)
