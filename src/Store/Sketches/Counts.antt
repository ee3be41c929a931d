-- ===== src/Store/Sketches/Counts.antt =====
-- PFADD and PFCOUNT keep the store well formed, and count the values that were added.
use learning_redis.Common.{
  subst, ◌≡◌, refl, sym, ap, ◌∙◌, arith, List, [], ◌∷◌, Bytes, Bool, true, false, Option, none,
  some, ◌>>=◌, if◌then◌else◌, ◌||◌, Bool-cases, inl, inr, ltb,
}
use learning_redis.Hll.Registers.{Registers, grow}
use learning_redis.Hll.Murmur.{hll_pat_len}
use learning_redis.Hll.Sketch.{Hll, new}
use learning_redis.Hll.Sketch.Histogram.{Float, estimate}
use learning_redis.Hll.Sketch.Counting.{
  empty_histo, estimate_of, Counted, new-Counted, count-estimate_of, add-Counted,
}
use learning_redis.Hll.Sketch.Union.{seen}
use learning_redis.Store.Entry.{
  Encoding, encoding_int, encoding_embstr, encoding_raw, encoding_hll, Entry,
}
use learning_redis.Store.Keys.{
  Store, Env, lookup, put, is_expired, remove_key, take_out, released, stored, stamp_access,
  stamp_new,
}
use learning_redis.Store.Keys.Accounts.{
  Tagged, WellFormed, lookup-Tagged, lookup-put_self, lookup-erase_self,
}
use learning_redis.Store.Keys.Accounts.Steps.{stored-WellFormed, remove_key-WellFormed}
use learning_redis.Store.Sketches.{
  is_hll, hll_entry, add_values, fill, pf_add_found, pf_add_to, pf_add, pf_count,
}

module _ (fl : Float) (empty : estimate fl empty_histo ≡ 0) where
  add_values-Counted :
      (vs : List Bytes) (h : Hll) (f : Registers) (changed : Bool)
      → Counted fl h f
      → (h' : Hll) × (b : Bool) × (add_values vs h changed ≡ some (h', b))
        × Counted fl h' (seen f vs)
  unfolding add_values seen
  add_values-Counted [] h f changed c = (h, changed, refl, c)
  add_values-Counted (v ∷ vs) h f changed c =
      let (h', run, c') = add-Counted fl h f v c in
      let (h'', b, rest, c'') =
        add_values-Counted vs h' (grow f (hll_pat_len v).0 (hll_pat_len v).1)
          (changed || ltb (f (hll_pat_len v).0) (hll_pat_len v).1) c' in
      (h'', b, rw run rest, c'')

  -- `fill` on the sketch `e` of a key, or a new one.
  fill-Counted :
      (env : Env) (s : Store) (key : Bytes) (values : List Bytes) (e : Entry) (created : Bool)
      (h : Hll) (f : Registers)
      → WellFormed fl s
      → e.encoding ≡ encoding_hll
      → e.hll_val ≡ some h
      → Counted fl h f
      → (s' : Store) × (b : Bool) × (fill env s key values e (lookup key s.data_of) created
          ≡ some (s', b))
        × WellFormed fl s'
        × (e' : Entry) × (h' : Hll) × (lookup key s'.data_of ≡ some e')
        × (e'.encoding ≡ encoding_hll)
        × (e'.hll_val ≡ some h')
        × Counted fl h' (seen f values)
  fill-Counted env s key values e created h f w is at c =
      let (h', b, run, c') = add_values-Counted values h f created c in
      let e' = record e { hll_val = some h' } in
      let tag : Tagged fl e.encoding e' =
        subst (λ (enc : Encoding). Tagged fl enc e') (sym is) (h', seen f values, refl, c') in
      (
        stored key e' (released key s (lookup key s.data_of)),
        b,
        rw at (rw run refl),
        stored-WellFormed fl s key e' w tag,
        e',
        h',
        found (lookup key s.data_of) e',
        is,
        refl,
        c',
      )
    where
      found :
          (o : Option Entry) (e' : Entry)
          → lookup key (stored key e' (released key s o)).data_of ≡ some e'
      found none e' = lookup-put_self key e' s.data_of
      found (some old) e' = lookup-put_self key e' s.data_of

  -- What a sketch key reads as after `PFAdd`.
  pub record Added (result : Option (Store × Option Bool)) (key : Bytes) (g : Registers)
      : Type 0 where
    pub after : Store
    pub changed : Bool
    pub run : result ≡ some (after, some changed)
    pub well_formed : WellFormed fl after
    pub entry : Entry
    pub sketch : Hll
    pub found : lookup key after.data_of ≡ some entry
    pub is : entry.encoding ≡ encoding_hll
    pub at : entry.hll_val ≡ some sketch
    pub counted : Counted fl sketch g

  fresh-Added :
      (env : Env) (s : Store) (key : Bytes) (values : List Bytes)
      → WellFormed fl s
      → lookup key s.data_of ≡ none
      → Added (pf_add_found env s key values none) key (seen (λ j. 0) values)
  fresh-Added env s key values w missing =
      let e = hll_entry (some new) (stamp_new env s) in
      let (s', b, run, w', e', h', found, is, at, c) =
        fill-Counted env s key values e true new (λ j. 0) w refl refl (new-Counted fl empty) in
      let run' : fill env s key values e none true ≡ some (s', b) =
        subst (λ (o : Option Entry). fill env s key values e o true ≡ some (s', b)) missing run in
      record {
        after = s';
        changed = b;
        run = rw run' refl;
        well_formed = w';
        entry = e';
        sketch = h';
        found = found;
        is = is;
        at = at;
        counted = c;
      }

  abbrev replied : Store × Bool → Option (Store × Option Bool)
  replied (s, changed) = some (s, some changed)

  old-Added :
      (env : Env) (s : Store) (key : Bytes) (values : List Bytes) (old : Entry) (h : Hll)
      (f : Registers)
      → WellFormed fl s
      → lookup key s.data_of ≡ some old
      → old.encoding ≡ encoding_hll
      → old.hll_val ≡ some h
      → Counted fl h f
      → Added (pf_add_found env s key values (some old)) key (seen f values)
  old-Added env s key values old h f w there is_old at_old c_old =
      let e = record old { lru = stamp_access env s old.lru } in
      let (s', b, run, w', e', h', found, is, at, c) =
        fill-Counted env s key values e false h f w is_old at_old c_old in
      let run' : fill env s key values e (some old) false ≡ some (s', b) =
        subst (λ (o : Option Entry). fill env s key values e o false ≡ some (s', b)) there run in
      record {
        after = s';
        changed = b;
        run =
            subst
              (λ (enc : Encoding).
                (if is_hll enc
                  then (fill env s key values e (some old) false >>= replied)
                  else some (s, none))
                ≡ some (s', some b))
              (sym is_old) (ap (λ (o : Option (Store × Bool)). o >>= replied) run');
        well_formed = w';
        entry = e';
        sketch = h';
        found = found;
        is = is;
        at = at;
        counted = c;
      }

  -- `PFCount` on a sketch that holds `g`.
  pub pf_count-estimate :
      (s : Store) (key : Bytes) (e : Entry) (h : Hll) (g : Registers)
      → WellFormed fl s
      → lookup key s.data_of ≡ some e
      → e.encoding ≡ encoding_hll
      → e.hll_val ≡ some h
      → Counted fl h g
      → (s' : Store) × (pf_count fl s key ≡ some (s', estimate_of fl g))
  unfolding pf_count
  pf_count-estimate s key e h g w found is at c =
      let (h', run, c') = count-estimate_of fl h g c in
      (
        record s { data_of = put key (record e { hll_val = some h' }) s.data_of },
        rw found (rw is (rw at (rw run refl))),
      )

  -- A key that does not exist: PFADD creates it, and PFCOUNT then gives the estimate of the registers
  -- that the values fill.
  pub pf_add-pf_count :
      (env : Env) (s : Store) (key : Bytes) (values : List Bytes)
      → WellFormed fl s
      → lookup key s.data_of ≡ none
      → (s' s'' : Store) × (changed : Bool) × (pf_add env s key values ≡ some (s', some changed))
        × WellFormed fl s'
        × (pf_count fl s' key ≡ some (s'', estimate_of fl (seen (λ j. 0) values)))
  unfolding pf_add
  pf_add-pf_count env s key values w missing =
      let a = fresh-Added env s key values w missing in
      let (s'', counted) =
        pf_count-estimate a.after key a.entry a.sketch (seen (λ j. 0) values) a.well_formed a.found
          a.is a.at a.counted in
      (a.after, s'', a.changed, rw missing a.run, a.well_formed, counted)

  -- The operation returns a well-formed store, and one that refuses changes nothing.
  abbrev pub Runs : Store → Option (Store × Option Bool) → Type 0
  Runs s x =
      (s' : Store) × (r : Option Bool) × (x ≡ some (s', r)) × WellFormed fl s' × (r ≡ none → s' ≡ s)

  -- On any key `PFAdd` does not panic: it refuses a value of another kind and changes nothing then.
  pub pf_add-WellFormed :
      (env : Env) (s : Store) (key : Bytes) (values : List Bytes)
      → WellFormed fl s
      → Runs s (pf_add env s key values)
  unfolding pf_add
  pf_add-WellFormed env s key values w = by_entry (lookup key s.data_of) refl
    where
      from_added : (x : Option (Store × Option Bool)) (g : Registers) → Added x key g → Runs s x
      from_added x g a = (a.after, some a.changed, a.run, a.well_formed, λ e. ground arith)

      by_encoding :
          (e : Entry) (enc : Encoding)
          → lookup key s.data_of ≡ some e
          → e.encoding ≡ enc
          → Tagged fl enc e
          → Runs s (pf_add_found env s key values (some e))
      by_encoding e encoding_hll found is (h, f, at, c) =
          from_added _ (seen f values) (old-Added env s key values e h f w found is at c)
      by_encoding e encoding_int found is t = (s, none, rw is refl, w, λ x. refl)
      by_encoding e encoding_embstr found is t = (s, none, rw is refl, w, λ x. refl)
      by_encoding e encoding_raw found is t = (s, none, rw is refl, w, λ x. refl)

      by_entry :
          (o : Option Entry) → lookup key s.data_of ≡ o → Runs s (pf_add_to env s key values o)
      by_entry none found =
          from_added _ (seen (λ j. 0) values) (fresh-Added env s key values w found)
      by_entry (some e) found = elim (Bool-cases (is_expired env.now e)) [
        | inl gone ↦
            let removed : lookup key (remove_key key s).data_of ≡ none =
              unfold remove_key in
              ap (λ (o : Option Entry). lookup key (take_out key s o).data_of) found
              ∙ lookup-erase_self key s.data_of w.distinct in
            rw gone (
              from_added _ (seen (λ j. 0) values) (
                fresh-Added env (remove_key key s) key values (remove_key-WellFormed fl s key w)
                  removed))
        | inr live ↦
            rw live (
              by_encoding e e.encoding found refl (lookup-Tagged fl key s.data_of e w.tagged found))
      ]
