-- ===== src/Store/Keys/Accounts.antt =====
-- The accounting of store/store.go and store/lru.go: the memory counter is the sum of the sizes of the
-- entries and the key counter their number, and every entry has the value that its encoding names.
pub mod Steps
use learning_redis.Common.{
  ℕ, zero, suc, subst, ◌+◌, ◌-◌, ◌%◌, ◌^◌, ◌*◌, ◌≤◌, ◌<◌, ◌≡◌, ◌≢◌, refl, sym, ap, ◌∙◌, arith, List,
  [], ◌∷◌, Bytes, Bool, true, false, Option, none, some, if◌then◌else◌, length, bytes_eq,
  bytes_eq_iff, bytes_eq_refl, bytes_eq-false, Bool-cases, Option-cases, inl, inr, All,
}
use learning_redis.Hll.Registers.{Registers}
use learning_redis.Hll.Sketch.{Hll}
use learning_redis.Hll.Sketch.Histogram.{Float}
use learning_redis.Hll.Sketch.Counting.{Counted}
use learning_redis.Store.Words.{add_word, sub_word, add_word_mod, sub_word_mod}
use learning_redis.Store.Entry.{
  Encoding, encoding_int, encoding_embstr, encoding_raw, encoding_hll, Sds, Entry, entry_size,
}
use learning_redis.Store.Keys.{
  Data, Store, empty_store, lookup, put, erase, remove_key, take_out, released, stored,
}

pub total : Data → ℕ
total [] = 0
total ((k, e) ∷ rest) = entry_size k e + total rest

-- No key stands twice in the list.
unfoldable pub Distinct : Data → Type 0
Distinct [] = Unit
Distinct ((k, e) ∷ rest) = (lookup k rest ≡ none) × Distinct rest

module _ (fl : Float) where
  -- The pointer that the encoding names is not nil, and a sketch holds registers, with a right cache.
  abbrev pub Tagged : Encoding → Entry → Type 0
  Tagged encoding_int e = Unit
  Tagged encoding_embstr e = (s : Sds) × (e.str_val ≡ some s)
  Tagged encoding_raw e = (s : Sds) × (e.str_val ≡ some s)
  Tagged encoding_hll e = (h : Hll) × (f : Registers) × (e.hll_val ≡ some h) × Counted fl h f

  abbrev pub EachTagged : Data → Type 0
  EachTagged = All (λ entry. Tagged entry.1.encoding entry.1)

  pub record WellFormed (s : Store) : Type 0 where
    pub memory : s.used_memory ≡ total s.data_of % 2 ^ 64
    pub keys : s.keys_stat ≡ length s.data_of % 2 ^ 64
    pub distinct : Distinct s.data_of
    pub tagged : EachTagged s.data_of

  pub lookup-Tagged :
      (key : Bytes) (d : Data) (e : Entry)
      → EachTagged d
      → lookup key d ≡ some e
      → Tagged e.encoding e
  unfolding lookup
  lookup-Tagged key [] e each h = ground arith
  lookup-Tagged key ((k, old) ∷ rest) e each h = elim (Bool-cases (bytes_eq k key)) [
    | inl same ↦
        let found : some old ≡ some e = simp same at h in
        let at_head : old ≡ e = ground (arith, found) in
        subst (λ (t : Entry). Tagged t.encoding t) at_head each.0
    | inr other ↦
        let found : lookup key rest ≡ some e = simp other at h in
        lookup-Tagged key rest e each.1 found
  ]

  pub put-Tagged :
      (key : Bytes) (d : Data) (e : Entry)
      → EachTagged d
      → Tagged e.encoding e
      → EachTagged (put key e d)
  unfolding put
  put-Tagged key [] e each h = (h, tt)
  put-Tagged key ((k, old) ∷ rest) e each h = elim (Bool-cases (bytes_eq k key)) [
    | inl same ↦ rw same (h, each.1)
    | inr other ↦ rw other (each.0, put-Tagged key rest e each.1 h)
  ]

  pub erase-Tagged : (key : Bytes) (d : Data) → EachTagged d → EachTagged (erase key d)
  unfolding erase
  erase-Tagged key [] each = tt
  erase-Tagged key ((k, old) ∷ rest) each = elim (Bool-cases (bytes_eq k key)) [
    | inl same ↦ rw same each.1
    | inr other ↦ rw other (each.0, erase-Tagged key rest each.1)
  ]

-- Reads after writes.
pub lookup-put_self : (key : Bytes) (e : Entry) (d : Data) → lookup key (put key e d) ≡ some e
unfolding lookup put
lookup-put_self key e [] = rw (bytes_eq_refl key) refl
lookup-put_self key e ((k, old) ∷ rest) = elim (Bool-cases (bytes_eq k key)) [
  | inl same ↦ rw same (rw same refl)
  | inr other ↦ rw other (rw other (lookup-put_self key e rest))
]

pub lookup-put_ne :
    (key other : Bytes) (e : Entry) (d : Data)
    → key ≢ other
    → lookup other (put key e d) ≡ lookup other d
unfolding lookup put
lookup-put_ne key other e [] ne = rw (bytes_eq-false key other ne) refl
lookup-put_ne key other e ((k, old) ∷ rest) ne = elim (Bool-cases (bytes_eq k key)) [
  | inl same ↦
      let differs : bytes_eq k other ≡ false =
        bytes_eq-false k other (λ e'. ne (sym ((bytes_eq_iff k key).0 same) ∙ e')) in
      rw same (rw differs refl)
  | inr differs ↦ rw differs (rw (lookup-put_ne key other e rest ne) refl)
]

pub lookup-erase_ne :
    (key other : Bytes) (d : Data) → key ≢ other → lookup other (erase key d) ≡ lookup other d
unfolding lookup erase
lookup-erase_ne key other [] ne = refl
lookup-erase_ne key other ((k, old) ∷ rest) ne = elim (Bool-cases (bytes_eq k key)) [
  | inl same ↦
      let differs : bytes_eq k other ≡ false =
        bytes_eq-false k other (λ e'. ne (sym ((bytes_eq_iff k key).0 same) ∙ e')) in
      rw same (rw differs refl)
  | inr differs ↦ rw differs (rw (lookup-erase_ne key other rest ne) refl)
]

pub lookup-erase_self : (key : Bytes) (d : Data) → Distinct d → lookup key (erase key d) ≡ none
unfolding lookup erase Distinct
lookup-erase_self key [] h = refl
lookup-erase_self key ((k, old) ∷ rest) h = elim (Bool-cases (bytes_eq k key)) [
  | inl same ↦ rw same (ap (λ (t : Bytes). lookup t rest) (sym ((bytes_eq_iff k key).0 same)) ∙ h.0)
  | inr other ↦ rw other (rw other (lookup-erase_self key rest h.1))
]
