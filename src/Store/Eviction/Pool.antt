-- ===== src/Store/Eviction/Pool.antt =====
-- The eviction pool: sorted by score, at most 16 candidates, and one at least after an insertion.
use learning_redis.Common.{
  ℕ, suc, ◌≤◌, ◌<◌, ◌≡◌, refl, ap, ◌∙◌, arith, List, [], ◌∷◌, ◌++◌, Bytes, Bool, true, false,
  Option, none, some, length, length-append, bytes_eq, Bool-cases, inl, inr, leb, ltb, leb→le, All,
  All-append,
}
use learning_redis.Store.Keys.{Candidate}
use learning_redis.Store.Eviction.{
  insert_sorted, sort_pool, refresh, refreshed, displace, insert_with, pool_insert,
  eviction_pool_size,
}

-- Ascending scores.
abbrev pub Sorted : List Candidate → Type 0
Sorted [] = Unit
Sorted (c ∷ cs) = All (λ d. c.score ≤ d.score) cs × Sorted cs

insert_sorted-All :
    (P : Candidate → Type 0) (c : Candidate) (cs : List Candidate)
    → P c
    → All P cs
    → All P (insert_sorted c cs)
unfolding insert_sorted
insert_sorted-All P c [] pc h = (pc, tt)
insert_sorted-All P c (d ∷ ds) pc h = elim (Bool-cases (leb c.score d.score)) [
  | inl e ↦ rw e (pc, h)
  | inr e ↦ rw e (h.0, insert_sorted-All P c ds pc h.1)
]

All-le :
    (a b : ℕ) (cs : List Candidate) → a ≤ b → All (λ d. b ≤ d.score) cs → All (λ d. a ≤ d.score) cs
All-le a b [] le h = tt
All-le a b (c ∷ cs) le h = (omega (arith, h.0), All-le a b cs le h.1)

insert_sorted-Sorted :
    (c : Candidate) (cs : List Candidate) → Sorted cs → Sorted (insert_sorted c cs)
unfolding insert_sorted
insert_sorted-Sorted c [] h = (tt, tt)
insert_sorted-Sorted c (d ∷ ds) h = elim (Bool-cases (leb c.score d.score)) [
  | inl e ↦ let le = leb→le c.score d.score e in rw e ((le, All-le c.score d.score ds le h.0), h)
  | inr e ↦
      let le : d.score ≤ c.score = ground arith in
      rw e (insert_sorted-All (λ x. d.score ≤ x.score) c ds le h.0, insert_sorted-Sorted c ds h.1)
]

sort_pool-Sorted : (cs : List Candidate) → Sorted (sort_pool cs)
unfolding sort_pool
sort_pool-Sorted [] = tt
sort_pool-Sorted (c ∷ cs) = insert_sorted-Sorted c (sort_pool cs) (sort_pool-Sorted cs)

sort_pool-All : (P : Candidate → Type 0) (cs : List Candidate) → All P cs → All P (sort_pool cs)
unfolding sort_pool
sort_pool-All P [] h = tt
sort_pool-All P (c ∷ cs) h = insert_sorted-All P c (sort_pool cs) h.0 (sort_pool-All P cs h.1)

length-insert_sorted :
    (c : Candidate) (cs : List Candidate) → length (insert_sorted c cs) ≡ suc (length cs)
unfolding insert_sorted
length-insert_sorted c [] = refl
length-insert_sorted c (d ∷ ds) = elim (Bool-cases (leb c.score d.score)) [
  | inl e ↦ rw e refl
  | inr e ↦ rw e (ap suc (length-insert_sorted c ds))
]

length-sort_pool : (cs : List Candidate) → length (sort_pool cs) ≡ length cs
unfolding sort_pool
length-sort_pool [] = refl
length-sort_pool (c ∷ cs) = length-insert_sorted c (sort_pool cs) ∙ ap suc (length-sort_pool cs)

-- A refresh keeps the keys, and finds nothing in an empty pool.
abbrev Kept : (Bytes → Type 0) → ℕ → Option (List Candidate) → Type 0
Kept P n none = Unit
Kept P n (some cs) = All (λ c. P c.key) cs × (length cs ≡ n) × (0 < n)

refresh-Kept :
    (P : Bytes → Type 0) (key : Bytes) (score : ℕ) (cs : List Candidate)
    → All (λ c. P c.key) cs
    → Kept P (length cs) (refresh key score cs)
unfolding refresh
refresh-Kept P key score [] h = tt
refresh-Kept P key score (c ∷ cs) h =
    by_key (bytes_eq c.key key) (refresh key score cs) (refresh-Kept P key score cs h.1)
  where
    by_key :
        (b : Bool) (o : Option (List Candidate))
        → Kept P (length cs) o
        → Kept P (suc (length cs)) (refreshed c cs score b o)
    by_key true o k = ((h.0, h.1), refl, omega arith)
    by_key false none k = tt
    by_key false (some cs') k = ((h.0, k.0), ap suc k.1, omega arith)

-- Sorted, with at most 16 candidates.
abbrev pub Fits : List Candidate → Type 0
Fits pool = Sorted pool × (length pool ≤ eviction_pool_size)

-- What an insertion leaves: a pool that is not empty, whose keys are those of before and the new one,
-- and that fits if the pool before did.
pub record Inserted (P : Bytes → Type 0) (Before : Type 0) (pool : List Candidate) : Type 0 where
  pub fits : Before → Fits pool
  pub filled : 0 < length pool
  pub each : All (λ c. P c.key) pool

sort_pool-Inserted :
    (P : Bytes → Type 0) (Before : Type 0) (cs : List Candidate)
    → All (λ c. P c.key) cs
    → 0 < length cs
    → (Before → length cs ≤ 16)
    → Inserted P Before (sort_pool cs)
sort_pool-Inserted P Before cs each filled bounded = record {
  fits = λ b. (sort_pool-Sorted cs, omega (arith, length-sort_pool cs, bounded b));
  filled = omega (arith, length-sort_pool cs);
  each = sort_pool-All (λ c. P c.key) cs each;
}

pub pool_insert-Inserted :
    (P : Bytes → Type 0) (pool : List Candidate) (key : Bytes) (score : ℕ)
    → All (λ c. P c.key) pool
    → P key
    → Inserted P (Fits pool) (pool_insert pool key score)
unfolding pool_insert
pool_insert-Inserted P pool key score each p =
    by_refresh (refresh key score pool) (refresh-Kept P key score pool each)
  where
    displaced :
        (cs : List Candidate)
        → 0 < length cs
        → All (λ c. P c.key) cs
        → Inserted P (Fits cs) (displace (record { key = key; score = score }) cs)
    displaced [] f e = absurd (omega arith)
    displaced (c ∷ cs) f e = elim (Bool-cases (leb score c.score)) [
      | inl worse ↦ rw worse (record { fits = λ b. b; filled = f; each = e })
      | inr better ↦ rw better (
          sort_pool-Inserted P (Fits (c ∷ cs)) (record { key = key; score = score } ∷ cs) (p, e.1)
            (omega arith) (λ b. b.1))
    ]

    by_refresh :
        (o : Option (List Candidate))
        → Kept P (length pool) o
        → Inserted P (Fits pool) (insert_with (record { key = key; score = score }) pool o)
    by_refresh (some cs) k =
        sort_pool-Inserted P (Fits pool) cs k.0 (omega (arith, k.1, k.2))
          (λ b. omega (arith, k.1, b.1))
    by_refresh none k = elim (Bool-cases (ltb (length pool) 16)) [
      | inl room ↦
          let grown = length-append pool (record { key = key; score = score } ∷ []) in
          rw room (
            sort_pool-Inserted P (Fits pool) (pool ++ (record { key = key; score = score } ∷ []))
              (All-append (λ c. P c.key) pool (record { key = key; score = score } ∷ []) each
                (p, tt))
              (omega (arith, grown)) (λ b. ground (arith, grown)))
      | inr full ↦ rw full (displaced pool (ground arith) each)
    ]
