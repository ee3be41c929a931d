-- ===== src/Store/Eviction/Frees.antt =====
-- The eviction loop ends, with the memory below the limit or no key left.
use learning_redis.Common.{
  ℕ, zero, suc, ◌+◌, ◌*◌, ◌<◌, ◌≡◌, ◌⊎◌, refl, ap, arith, List, [], ◌∷◌, Bytes, Bool, true, false,
  ◌&&◌, some, if◌then◌else◌, length, bytes_eq, bytes_eq_refl, Bool-cases, inl, inr, ltb, All, ◌==◌,
}
use learning_redis.Common.Int.{ℤ, pos, leb_ℤ, pos_part}
use learning_redis.Hll.Sketch.Histogram.{Float}
use learning_redis.Store.Entry.{Entry}
use learning_redis.Store.Keys.{Candidate, Data, Store, Env, lookup, remove_key}
use learning_redis.Store.Keys.Accounts.{WellFormed}
use learning_redis.Store.Keys.Accounts.Steps.{remove_key-WellFormed}
use learning_redis.Store.Eviction.{
  above, over_memory, fill_pool, sample_keys, reverse_onto, pop_loop, pop_pool, evict_round,
  is_empty, evict_loop, perform_evictions,
}
use learning_redis.Store.Eviction.Pops.{
  Exists, fill_pool-Filled, sample_keys-All, pop_loop-Popped, pop_loop-removes, reverse_onto-All,
  length-reverse_onto, remove_key-shrinks, pool_weight, weight, pool_weight-le,
}

-- What is assumed of the order in which a map yields its keys: it yields keys of the map, and one at
-- least if there is one.
abbrev pub Yields : (ℕ → Data → Data) → Type 0
Yields order =
    (i : ℕ) (d : Data)
    → All (λ x. Exists d x.0) (order i d) × ((0 < length d) → 0 < length (order i d))

module _ (fl : Float) where
  pooled-WellFormed :
      (s : Store) (p : List Candidate) → WellFormed fl s → WellFormed fl (record s { ev_pool = p })
  pooled-WellFormed s p w = record {
    memory = w.memory;
    keys = w.keys;
    distinct = w.distinct;
    tagged = w.tagged;
  }

  -- What a round leaves: a well-formed store, nearer to the end.
  abbrev Nearer : Store → Store → Type 0
  Nearer s s' = WellFormed fl s' × (weight s' < weight s)

  removed-Nearer :
      (s t : Store) (p q : List Candidate) (c : Bytes) (e : Entry)
      → WellFormed fl s
      → lookup c s.data_of ≡ some e
      → t ≡ remove_key c (record s { ev_pool = p })
      → Nearer s (record t { ev_pool = q })
  removed-Nearer s t p q c e w found is =
      let s1 = record s { ev_pool = p } in
      let shrunk = remove_key-shrinks c e s1 found in
      let gone = remove_key-WellFormed fl s1 c (pooled-WellFormed s p w) in
      rw is (pooled-WellFormed (remove_key c s1) q gone, omega (arith, shrunk, pool_weight-le q))

  emptied-Nearer :
      (s t : Store) (p left : List Candidate)
      → WellFormed fl s
      → left ≡ []
      → t ≡ record s { ev_pool = p }
      → pool_weight s.ev_pool ≡ 1
      → Nearer s (record t { ev_pool = reverse_onto left [] })
  unfolding reverse_onto
  emptied-Nearer s t p left w none_left same pooled =
      rw (none_left, same) (pooled-WellFormed s [] w, omega (arith, pooled))

  evict_round-Nearer :
      (env : Env) (order : Data → Data) (samples : ℕ) (s : Store)
      → WellFormed fl s
      → 0 < length s.data_of
      → All (λ x. Exists s.data_of x.0) (order s.data_of)
      → 0 < length (order s.data_of)
      → Nearer s (evict_round env order samples s)
  unfolding evict_round pop_pool
  evict_round-Nearer env order samples s w some_key each filled = by_pool s.ev_pool refl
    where
      sample : Data
      sample = sample_keys samples (order s.data_of) 0

      after : List Candidate → Store
      after pool =
          let p = fill_pool env s sample pool in
          let r = pop_loop (reverse_onto p []) (record s { ev_pool = p }) in
          record r.1 { ev_pool = reverse_onto r.0 [] }

      by_pool : (pool : List Candidate) → s.ev_pool ≡ pool → Nearer s (after pool)
      by_pool [] none_pooled =
          let (in_map, taken) =
            sample_keys-All (Exists s.data_of) samples (order s.data_of) 0 each in
          let (held, some_pooled) = fill_pool-Filled env s (Exists s.data_of) sample [] tt in_map in
          let p = fill_pool env s sample [] in
          let (c, e, found, is) =
            pop_loop-removes (reverse_onto p []) (record s { ev_pool = p })
              (reverse_onto-All (λ c. Exists s.data_of c.key) p [] held tt)
              (omega
                (arith, length-reverse_onto p [], some_pooled (omega (arith, taken filled)))) in
          removed-Nearer s _ p _ c e w found is
      by_pool (x ∷ xs) pooled =
          let p = fill_pool env s sample (x ∷ xs) in
          let s1 = record s { ev_pool = p } in
          let r = pop_loop (reverse_onto p []) s1 in
          elim (pop_loop-Popped (reverse_onto p []) s1) [
            | inl (c, e, found, is) ↦ removed-Nearer s r.1 p (reverse_onto r.0 []) c e w found is
            | inr (empty, same) ↦ emptied-Nearer s r.1 p r.0 w empty same (ap pool_weight pooled)
          ]

  -- The loop ended for one of its two reasons.
  abbrev pub Ended : ℕ → Store → Type 0
  Ended max_bytes s = (over_memory s max_bytes ≡ false) ⊎ (s.data_of ≡ [])

  below-Ended :
      (max_bytes : ℕ) (s : Store) → above s.used_memory max_bytes ≡ false → Ended max_bytes s
  unfolding over_memory
  below-Ended max_bytes s h = inl (rw h (and-false (ltb 0 max_bytes)))
    where
      and-false : (b : Bool) → (b && false) ≡ false
      and-false true = refl
      and-false false = refl

  evict_loop-ends :
      (fuel i : ℕ) (env : Env) (order : ℕ → Data → Data) (samples max_bytes : ℕ) (s : Store)
      → WellFormed fl s
      → Yields order
      → weight s < fuel
      → (s' : Store) × (evict_loop fuel i env order samples max_bytes s ≡ some s')
        × WellFormed fl s'
        × Ended max_bytes s'
  unfolding evict_loop
  evict_loop-ends zero i env order samples max_bytes s w yields enough = absurd (omega arith)
  evict_loop-ends (suc fuel) i env order samples max_bytes s w yields enough =
      elim (Bool-cases (above s.used_memory max_bytes)) [
        | inr below ↦ (s, rw below refl, w, below-Ended max_bytes s below)
        | inl over ↦ by_data s.data_of refl over (λ some_key.
            let (each, some_ordered) = yields i s.data_of in
            let (w', nearer) =
              evict_round-Nearer env (order i) samples s w some_key each (some_ordered some_key) in
            evict_loop-ends fuel (i + 1) env order samples max_bytes
              (evict_round env (order i) samples s) w' yields (omega arith))
      ]
    where
      by_data :
          (d : Data)
          → s.data_of ≡ d
          → above s.used_memory max_bytes ≡ true
          → ((0 < length s.data_of)
              → (s' : Store) × (evict_loop fuel
                    (i + 1)
                    env
                    order
                    samples
                    max_bytes
                    (evict_round env (order i) samples s)
                  ≡ some s')
                × WellFormed fl s'
                × Ended max_bytes s')
          → (s' : Store) × (evict_loop (suc fuel) i env order samples max_bytes s ≡ some s')
            × WellFormed fl s'
            × Ended max_bytes s'
      by_data [] none_left over next = (s, rw (over, ap is_empty none_left) refl, w, inr none_left)
      by_data (x ∷ xs) there over next =
          let size : length s.data_of ≡ suc (length xs) = ap length there in
          let (s', run, w', ended) = next (omega (arith, size)) in
          (s', rw (over, ap is_empty there) run, w', ended)

  -- `PerformEvictions` ends. Then the memory is not above the limit, or no key is left.
  pub perform_evictions-ends :
      (env : Env) (order : ℕ → Data → Data) (samples : ℤ) (max_bytes : ℕ) (s : Store)
      → WellFormed fl s
      → Yields order
      → (s' : Store) × (perform_evictions env order samples max_bytes s ≡ some s')
        × WellFormed fl s'
        × Ended max_bytes s'
  unfolding perform_evictions over_memory
  perform_evictions-ends env order samples zero s w yields = (s, refl, w, inl refl)
  perform_evictions-ends env order samples (suc m) s w yields =
      let samples' = if leb_ℤ samples (pos 0) then 5 else pos_part samples in
      let limited : (suc m == 0) ≡ false = ground arith in
      let ends =
        evict_loop-ends (2 * length s.data_of + 2) 0 env order samples' (suc m) s w yields
          (omega (arith, pool_weight-le s.ev_pool)) in
      rw limited ends

-- A map that yields its keys in the order of the list does so.
pub All-exists : (d : Data) → All (λ x. (e : Entry) × (lookup x.0 d ≡ some e)) d
unfolding lookup
All-exists d = from d d (λ x m. m)
  where
    from :
        (d xs : Data)
        → ((key : Bytes) (h : Exists xs key) → Exists d key)
        → All (λ x. Exists d x.0) xs
    from d [] sub = tt
    from d ((k, e) ∷ xs) sub =
        (sub k (e, rw (bytes_eq_refl k) refl), from d xs (λ key h. sub key (later k e xs key h)))
      where
        later :
            (k : Bytes) (e : Entry) (xs : Data) (key : Bytes)
            → Exists xs key
            → Exists ((k, e) ∷ xs) key
        later k e xs key (e', h) = elim (Bool-cases (bytes_eq k key)) [
          | inl same ↦ (e, rw same refl)
          | inr other ↦ (e', rw other h)
        ]
