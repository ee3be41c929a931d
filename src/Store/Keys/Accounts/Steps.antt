-- ===== src/Store/Keys/Accounts/Steps.antt =====
-- Every way in which the operations change the map keeps the accounts right.
use learning_redis.Common.{
  ℕ, subst, ◌+◌, ◌%◌, ◌^◌, ◌≡◌, ◌≢◌, refl, sym, ap, ◌∙◌, arith, [], ◌∷◌, Bytes, false, Option, none,
  some, length, bytes_eq, bytes_eq_iff, Bool-cases, inl, inr,
}
use learning_redis.Hll.Sketch.Histogram.{Float}
use learning_redis.Store.Words.{add_word_mod, sub_word_mod}
use learning_redis.Store.Entry.{Entry, entry_size}
use learning_redis.Store.Keys.{
  Data, Store, empty_store, lookup, put, erase, remove_key, take_out, released, stored,
}
use learning_redis.Store.Keys.Accounts.{
  total, Distinct, Tagged, WellFormed, put-Tagged, erase-Tagged, lookup-put_ne, lookup-erase_ne,
}

abbrev size_in : Bytes → Option Entry → ℕ
size_in key none = 0
size_in key (some e) = entry_size key e

abbrev pub count_in : Option Entry → ℕ
count_in none = 0
count_in (some e) = 1

total-put :
    (key : Bytes) (e : Entry) (d : Data)
    → total (put key e d) + size_in key (lookup key d) ≡ total d + entry_size key e
unfolding total put lookup
total-put key e [] = omega arith
total-put key e ((k, old) ∷ rest) = elim (Bool-cases (bytes_eq k key)) [
  | inl same ↦ let k_is : k ≡ key = (bytes_eq_iff k key).0 same in rw same (rw k_is (omega arith))
  | inr other ↦ let ih = total-put key e rest in rw other (omega arith)
]

length-put :
    (key : Bytes) (e : Entry) (d : Data)
    → length (put key e d) + count_in (lookup key d) ≡ length d + 1
unfolding put lookup
length-put key e [] = refl
length-put key e ((k, old) ∷ rest) = elim (Bool-cases (bytes_eq k key)) [
  | inl same ↦ rw same (omega arith)
  | inr other ↦ let ih = length-put key e rest in rw other (omega arith)
]

total-erase : (key : Bytes) (d : Data) → total (erase key d) + size_in key (lookup key d) ≡ total d
unfolding total erase lookup
total-erase key [] = refl
total-erase key ((k, old) ∷ rest) = elim (Bool-cases (bytes_eq k key)) [
  | inl same ↦ let k_is : k ≡ key = (bytes_eq_iff k key).0 same in rw same (rw k_is (omega arith))
  | inr other ↦ let ih = total-erase key rest in rw other (omega arith)
]

pub length-erase :
    (key : Bytes) (d : Data) → length (erase key d) + count_in (lookup key d) ≡ length d
unfolding erase lookup
length-erase key [] = refl
length-erase key ((k, old) ∷ rest) = elim (Bool-cases (bytes_eq k key)) [
  | inl same ↦ rw same (omega arith)
  | inr other ↦ let ih = length-erase key rest in rw other (omega arith)
]

different : (k key : Bytes) → bytes_eq k key ≡ false → key ≢ k
different k key e same = ground (arith, e, (bytes_eq_iff k key).1 (sym same))

put-Distinct : (key : Bytes) (e : Entry) (d : Data) → Distinct d → Distinct (put key e d)
unfolding put Distinct lookup
put-Distinct key e [] h = (refl, tt)
put-Distinct key e ((k, old) ∷ rest) h = elim (Bool-cases (bytes_eq k key)) [
  | inl same ↦ rw same h
  | inr other ↦
      rw other
        (lookup-put_ne key k e rest (different k key other) ∙ h.0, put-Distinct key e rest h.1)
]

erase-Distinct : (key : Bytes) (d : Data) → Distinct d → Distinct (erase key d)
unfolding erase Distinct lookup
erase-Distinct key [] h = tt
erase-Distinct key ((k, old) ∷ rest) h = elim (Bool-cases (bytes_eq k key)) [
  | inl same ↦ rw same h.1
  | inr other ↦
      rw other
        (lookup-erase_ne key k rest (different k key other) ∙ h.0, erase-Distinct key rest h.1)
]

module _ (fl : Float) where
  pub empty_store-WellFormed : WellFormed fl empty_store
  unfolding empty_store total Distinct
  empty_store-WellFormed = record { memory = refl; keys = refl; distinct = tt; tagged = tt }

  -- The entry of a key is replaced, or a new one added, and the old size is taken off before.
  pub stored-WellFormed :
      (s : Store) (key : Bytes) (e : Entry)
      → WellFormed fl s
      → Tagged fl e.encoding e
      → WellFormed fl (stored key e (released key s (lookup key s.data_of)))
  stored-WellFormed s key e w tagged = by_entry (lookup key s.data_of) refl
    where
      by_entry :
          (o : Option Entry)
          → lookup key s.data_of ≡ o
          → WellFormed fl (stored key e (released key s o))
      by_entry none found =
          let sizes : total (put key e s.data_of) + 0 ≡ total s.data_of + entry_size key e =
            subst
              (λ (o : Option Entry).
                total (put key e s.data_of) + size_in key o ≡ total s.data_of + entry_size key e)
              found (total-put key e s.data_of) in
          let counts : length (put key e s.data_of) + 0 ≡ length s.data_of + 1 =
            subst
              (λ (o : Option Entry).
                length (put key e s.data_of) + count_in o ≡ length s.data_of + 1)
              found (length-put key e s.data_of) in
          record {
            memory = rw w.memory (
                add_word_mod (total s.data_of) (entry_size key e)
                ∙ ap (λ n. n % 2 ^ 64) (omega arith));
            keys =
                rw w.keys (add_word_mod (length s.data_of) 1 ∙ ap (λ n. n % 2 ^ 64) (omega arith));
            distinct = put-Distinct key e s.data_of w.distinct;
            tagged = put-Tagged fl key s.data_of e w.tagged tagged;
          }
      by_entry (some old) found =
          let sizes : total (put key e s.data_of) + entry_size key old
              ≡ total s.data_of + entry_size key e =
            subst
              (λ (o : Option Entry).
                total (put key e s.data_of) + size_in key o ≡ total s.data_of + entry_size key e)
              found (total-put key e s.data_of) in
          let before : total (erase key s.data_of) + entry_size key old ≡ total s.data_of =
            subst
              (λ (o : Option Entry). total (erase key s.data_of) + size_in key o ≡ total s.data_of)
              found (total-erase key s.data_of) in
          let counts : length (put key e s.data_of) + 1 ≡ length s.data_of + 1 =
            subst
              (λ (o : Option Entry).
                length (put key e s.data_of) + count_in o ≡ length s.data_of + 1)
              found (length-put key e s.data_of) in
          record {
            memory = rw w.memory (
                rw
                  (sub_word_mod (total s.data_of) (entry_size key old) (total (erase key s.data_of))
                    (sym before))
                  (add_word_mod (total (erase key s.data_of)) (entry_size key e)
                    ∙ ap (λ n. n % 2 ^ 64) (omega arith)));
            keys = w.keys ∙ ap (λ n. n % 2 ^ 64) (omega arith);
            distinct = put-Distinct key e s.data_of w.distinct;
            tagged = put-Tagged fl key s.data_of e w.tagged tagged;
          }

  -- An entry is replaced by one of the same size.
  pub replaced-WellFormed :
      (s : Store) (key : Bytes) (old e : Entry)
      → WellFormed fl s
      → lookup key s.data_of ≡ some old
      → entry_size key e ≡ entry_size key old
      → Tagged fl e.encoding e
      → WellFormed fl (record s { data_of = put key e s.data_of })
  replaced-WellFormed s key old e w found same tagged =
      let sizes : total (put key e s.data_of) + entry_size key old
          ≡ total s.data_of + entry_size key e =
        subst
          (λ (o : Option Entry).
            total (put key e s.data_of) + size_in key o ≡ total s.data_of + entry_size key e)
          found (total-put key e s.data_of) in
      let counts : length (put key e s.data_of) + 1 ≡ length s.data_of + 1 =
        subst
          (λ (o : Option Entry). length (put key e s.data_of) + count_in o ≡ length s.data_of + 1)
          found (length-put key e s.data_of) in
      record {
        memory = w.memory ∙ ap (λ n. n % 2 ^ 64) (omega arith);
        keys = w.keys ∙ ap (λ n. n % 2 ^ 64) (omega arith);
        distinct = put-Distinct key e s.data_of w.distinct;
        tagged = put-Tagged fl key s.data_of e w.tagged tagged;
      }

  pub remove_key-WellFormed :
      (s : Store) (key : Bytes) → WellFormed fl s → WellFormed fl (remove_key key s)
  unfolding remove_key
  remove_key-WellFormed s key w = by_entry (lookup key s.data_of) refl
    where
      by_entry : (o : Option Entry) → lookup key s.data_of ≡ o → WellFormed fl (take_out key s o)
      by_entry none found = w
      by_entry (some old) found =
          let sizes : total (erase key s.data_of) + entry_size key old ≡ total s.data_of =
            subst
              (λ (o : Option Entry). total (erase key s.data_of) + size_in key o ≡ total s.data_of)
              found (total-erase key s.data_of) in
          let counts : length (erase key s.data_of) + 1 ≡ length s.data_of =
            subst
              (λ (o : Option Entry). length (erase key s.data_of) + count_in o ≡ length s.data_of)
              found (length-erase key s.data_of) in
          record {
            memory = rw w.memory (
                sub_word_mod (total s.data_of) (entry_size key old) (total (erase key s.data_of))
                  (sym sizes));
            keys =
                rw w.keys
                  (sub_word_mod (length s.data_of) 1 (length (erase key s.data_of)) (sym counts));
            distinct = erase-Distinct key s.data_of w.distinct;
            tagged = erase-Tagged fl key s.data_of w.tagged;
          }
