-- ===== src/Store/Eviction.antt =====
-- store/lru.go: the eviction pool and the loop that frees memory.
pub mod Pool
pub mod Pops
pub mod Frees
use learning_redis.Common.{
  ℕ, zero, suc, ◌+◌, ◌-◌, ◌^◌, ◌*◌, List, [], ◌∷◌, ◌++◌, Bytes, Bool, true, false, not, ◌&&◌,
  Option, none, some, ltb, leb, ◌==◌, if◌then◌else◌, length, set, bytes_eq,
}
use learning_redis.Common.Int.{ℤ, pos, negsuc, pos_part, leb_ℤ}
use learning_redis.Store.Lfu.{lfu_decode_counter, lru_clock, lru_idle}
use learning_redis.Store.Entry.{Entry}
use learning_redis.Store.Keys.{Data, Store, Candidate, Env, lookup, is_lfu, remove_key}

abbrev pub eviction_pool_size : ℕ
eviction_pool_size = 16

-- The value of a word as an int64, when it is positive.
abbrev pub above : ℕ → ℕ → Bool
above used max_bytes = ltb used (2 ^ 63) && ltb max_bytes used

-- `OverMemory`, for a limit that is not negative.
unfoldable pub over_memory : Store → ℕ → Bool
over_memory s max_bytes = ltb 0 max_bytes && above s.used_memory max_bytes

unfoldable pub eviction_score : Env → Store → Entry → ℕ
eviction_score env s e =
    if is_lfu s then (255 - lfu_decode_counter e.lru) else lru_idle (lru_clock env.now) e.lru

-- `sort.Slice` by the score. (Which of two equal scores comes first is not said there.)
unfoldable pub insert_sorted : Candidate → List Candidate → List Candidate
insert_sorted c [] = c ∷ []
insert_sorted c (d ∷ ds) =
    let rest = insert_sorted c ds in if leb c.score d.score then c ∷ (d ∷ ds) else d ∷ rest

unfoldable pub sort_pool : List Candidate → List Candidate
unfolding insert_sorted
sort_pool [] = []
sort_pool (c ∷ cs) = insert_sorted c (sort_pool cs)

-- The pool with the score of a key refreshed, if it is in the pool.
abbrev pub refreshed :
    Candidate → List Candidate → ℕ → Bool → Option (List Candidate) → Option (List Candidate)
refreshed c cs score true rest = some (record c { score = score } ∷ cs)
refreshed c cs score false none = none
refreshed c cs score false (some cs') = some (c ∷ cs')

unfoldable pub refresh : Bytes → ℕ → List Candidate → Option (List Candidate)
refresh key score [] = none
refresh key score (c ∷ cs) = refreshed c cs score (bytes_eq c.key key) (refresh key score cs)

-- A full pool gives up its first candidate, the least evictable, for a better one.
abbrev pub displace : Candidate → List Candidate → List Candidate
displace cand [] = []
displace cand (c ∷ cs) = if leb cand.score c.score then c ∷ cs else sort_pool (cand ∷ cs)

abbrev pub insert_new : Candidate → List Candidate → List Candidate
insert_new cand pool =
    if ltb (length pool) eviction_pool_size
    then sort_pool (pool ++ (cand ∷ []))
    else displace cand pool

abbrev pub insert_with : Candidate → List Candidate → Option (List Candidate) → List Candidate
insert_with cand pool none = insert_new cand pool
insert_with cand pool (some pool') = sort_pool pool'

unfoldable pub pool_insert : List Candidate → Bytes → ℕ → List Candidate
unfolding refresh sort_pool
pool_insert pool key score =
    let cand : Candidate = record { key = key; score = score } in
    insert_with cand pool (refresh key score pool)

-- The sampled keys, scored into the pool.
unfoldable pub fill_pool : Env → Store → Data → List Candidate → List Candidate
unfolding pool_insert eviction_score
fill_pool env s [] pool = pool
fill_pool env s ((key, e) ∷ sample) pool =
    fill_pool env s sample (pool_insert pool key (eviction_score env s e))

abbrev pub split_last : Candidate → List Candidate → List Candidate × Candidate
split_last c [] = ([], c)
split_last c (d ∷ ds) = let (front, last) = split_last d ds in (c ∷ front, last)

-- `sampleKeys(n)`: the first keys of the map in the order that the runtime gives, with their entries.
unfoldable pub sample_keys : ℕ → Data → ℕ → Data
sample_keys n [] taken = []
sample_keys n ((key, e) ∷ order) taken =
    let rest = sample_keys n order (taken + 1) in
    if leb n (taken + 1) then (key, e) ∷ [] else (key, e) ∷ rest

unfoldable pub reverse_onto : List Candidate → List Candidate → List Candidate
reverse_onto [] acc = acc
reverse_onto (c ∷ cs) acc = reverse_onto cs (c ∷ acc)

abbrev pub pop_found :
    Candidate
    → List Candidate
    → Store
    → Option Entry
    → List Candidate × Store
    → List Candidate × Store
pop_found c cs s none rest = rest
pop_found c cs s (some e) rest = (cs, remove_key c.key s)

-- `for i := len(s.evPool) - 1; i >= 0; i--`, over the pool from its end: what is left of the pool, and
-- the store. Candidates whose keys are gone are dropped until one exists.
unfoldable pub pop_loop : List Candidate → Store → List Candidate × Store
pop_loop [] s = ([], s)
pop_loop (c ∷ cs) s = pop_found c cs s (lookup c.key s.data_of) (pop_loop cs s)

unfoldable pub pop_pool : Store → Store
unfolding pop_loop reverse_onto
pop_pool s =
    let (left, s') = pop_loop (reverse_onto s.ev_pool []) s in
    record s' { ev_pool = reverse_onto left [] }

-- One round: sample, score into the pool, evict from its end.
unfoldable pub evict_round : Env → (Data → Data) → ℕ → Store → Store
unfolding fill_pool sample_keys pop_pool
evict_round env order samples s =
    pop_pool
      (record s { ev_pool = fill_pool env s (sample_keys samples (order s.data_of) 0) s.ev_pool })

abbrev pub is_empty : Data → Bool
is_empty [] = true
is_empty (x ∷ xs) = false

-- `order i` is the order of the map in round `i`. `none` is out of fuel.
unfoldable pub evict_loop : ℕ → ℕ → Env → (ℕ → Data → Data) → ℕ → ℕ → Store → Option Store
unfolding evict_round
evict_loop zero i env order samples max_bytes s = none
evict_loop (suc fuel) i env order samples max_bytes s =
    let more =
      evict_loop fuel (i + 1) env order samples max_bytes (evict_round env (order i) samples s) in
    if not (above s.used_memory max_bytes)
    then some s
    else if is_empty s.data_of
    then some s
    else more

-- Two rounds a key, and two more, are enough.
unfoldable pub perform_evictions : Env → (ℕ → Data → Data) → ℤ → ℕ → Store → Option Store
unfolding evict_loop
perform_evictions env order samples max_bytes s =
    let samples' = if leb_ℤ samples (pos 0) then 5 else pos_part samples in
    if max_bytes == 0
    then some s
    else evict_loop (2 * length s.data_of + 2) 0 env order samples' max_bytes s
