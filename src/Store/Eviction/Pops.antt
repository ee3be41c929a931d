-- ===== src/Store/Eviction/Pops.antt =====
-- What a round of the eviction loop takes from the pool and from the map.
use learning_redis.Common.{
  ℕ, subst, ◌+◌, ◌*◌, ◌≤◌, ◌<◌, ◌≡◌, ◌⊎◌, refl, arith, List, [], ◌∷◌, Bytes, Option, none, some,
  length, Bool-cases, inl, inr, leb, All,
}
use learning_redis.Store.Entry.{Entry}
use learning_redis.Store.Keys.{Candidate, Data, Store, Env, lookup, remove_key, erase}
use learning_redis.Store.Keys.Accounts.Steps.{length-erase, count_in}
use learning_redis.Store.Eviction.{
  eviction_score, fill_pool, pool_insert, sample_keys, reverse_onto, pop_found, pop_loop,
}
use learning_redis.Store.Eviction.Pool.{pool_insert-Inserted}

abbrev pub Exists : Data → Bytes → Type 0
Exists d key = (e : Entry) × (lookup key d ≡ some e)

pub fill_pool-Filled :
    (env : Env) (s : Store) (P : Bytes → Type 0) (sample : Data) (pool : List Candidate)
    → All (λ c. P c.key) pool
    → All (λ x. P x.0) sample
    → All (λ c. P c.key) (fill_pool env s sample pool)
      × ((0 < length pool + length sample) → 0 < length (fill_pool env s sample pool))
unfolding fill_pool
fill_pool-Filled env s P [] pool held each = (held, λ h. omega arith)
fill_pool-Filled env s P ((key, e) ∷ sample) pool held each =
    let i = pool_insert-Inserted P pool key (eviction_score env s e) held each.0 in
    let (held', filled) =
      fill_pool-Filled env s P sample (pool_insert pool key (eviction_score env s e)) i.each
        each.1 in
    (held', λ h. filled (omega (arith, i.filled)))

pub sample_keys-All :
    (P : Bytes → Type 0) (n : ℕ) (d : Data) (taken : ℕ)
    → All (λ x. P x.0) d
    → All (λ x. P x.0) (sample_keys n d taken)
      × ((0 < length d) → 0 < length (sample_keys n d taken))
unfolding sample_keys
sample_keys-All P n [] taken h = (tt, λ x. x)
sample_keys-All P n ((key, e) ∷ rest) taken h = elim (Bool-cases (leb n (taken + 1))) [
  | inl enough ↦ rw enough ((h.0, tt), λ x. omega arith)
  | inr more ↦ rw more ((h.0, (sample_keys-All P n rest (taken + 1) h.1).0), λ x. omega arith)
]

-- After the pops either a key is gone or the pool is empty.
abbrev pub Popped : Store → List Candidate × Store → Type 0
Popped s r =
    ((c : Bytes) × (e : Entry) × (lookup c s.data_of ≡ some e) × (r.1 ≡ remove_key c s))
    ⊎ ((r.0 ≡ []) × (r.1 ≡ s))

pub pop_loop-Popped : (cs : List Candidate) (s : Store) → Popped s (pop_loop cs s)
unfolding pop_loop
pop_loop-Popped [] s = inr (refl, refl)
pop_loop-Popped (c ∷ cs) s = by_entry (lookup c.key s.data_of) refl (pop_loop-Popped cs s)
  where
    by_entry :
        (o : Option Entry)
        → lookup c.key s.data_of ≡ o
        → Popped s (pop_loop cs s)
        → Popped s (pop_found c cs s o (pop_loop cs s))
    by_entry none h rest = rest
    by_entry (some e) h rest = inl (c.key, e, h, refl)

-- If every candidate exists and there is one, a key is gone.
pub pop_loop-removes :
    (cs : List Candidate) (s : Store)
    → All (λ c. Exists s.data_of c.key) cs
    → 0 < length cs
    → (c : Bytes) × (e : Entry) × (lookup c s.data_of ≡ some e)
      × ((pop_loop cs s).1 ≡ remove_key c s)
unfolding pop_loop
pop_loop-removes [] s each h = absurd (omega arith)
pop_loop-removes (c ∷ cs) s each h = let (e, found) = each.0 in (c.key, e, found, rw found refl)

pub reverse_onto-All :
    (P : Candidate → Type 0) (cs acc : List Candidate)
    → All P cs
    → All P acc
    → All P (reverse_onto cs acc)
unfolding reverse_onto
reverse_onto-All P [] acc h h' = h'
reverse_onto-All P (c ∷ cs) acc h h' = reverse_onto-All P cs (c ∷ acc) h.1 (h.0, h')

pub length-reverse_onto :
    (cs acc : List Candidate) → length (reverse_onto cs acc) ≡ length cs + length acc
unfolding reverse_onto
length-reverse_onto [] acc = omega arith
length-reverse_onto (c ∷ cs) acc = omega (arith, length-reverse_onto cs (c ∷ acc))

pub remove_key-shrinks :
    (c : Bytes) (e : Entry) (s : Store)
    → lookup c s.data_of ≡ some e
    → length (remove_key c s).data_of + 1 ≡ length s.data_of
unfolding remove_key
remove_key-shrinks c e s found = rw found (
    subst (λ (o : Option Entry). length (erase c s.data_of) + count_in o ≡ length s.data_of) found
      (length-erase c s.data_of))

-- How far the loop is from its end.
abbrev pub pool_weight : List Candidate → ℕ
pool_weight [] = 0
pool_weight (c ∷ cs) = 1

abbrev pub weight : Store → ℕ
weight s = 2 * length s.data_of + pool_weight s.ev_pool

pub pool_weight-le : (p : List Candidate) → pool_weight p ≤ 1
pool_weight-le [] = omega arith
pool_weight-le (c ∷ cs) = omega arith
