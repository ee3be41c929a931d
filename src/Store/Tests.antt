-- ===== src/Store/Tests.antt =====
-- Runs of the store on concrete keys, and the theorems at concrete inputs.
use learning_redis.Common.{
  ℕ, ◌+◌, ◌-◌, ◌*◌, ◌%◌, ◌^◌, ◌≡◌, refl, arith, [], ◌∷◌, ◌++◌, Bool, true, none, some, length,
  codes, ltb, if◌then◌else◌, bytes_eq,
}
use learning_redis.Common.Int.{pos}
use learning_redis.Common.Decimal.{parse_int, format_int}
use learning_redis.Hll.Tests.{whole_numbers, empty_estimate}
use learning_redis.Hll.Sketch.Counting.{estimate_of}
use learning_redis.Hll.Sketch.Union.{seen}
use learning_redis.Store.Lfu.{ldt_idle, lru_idle}
use learning_redis.Store.Lfu.Laws.{ldt_idle_elapsed, lru_idle_elapsed}
use learning_redis.Store.Entry.{Entry, encoding_embstr, new_sds, entry_size, detect_encoding}
use learning_redis.Store.Words.{add_word}
use learning_redis.Store.Keys.{Store, Env, empty_store, lookup, put}
use learning_redis.Store.Keys.Accounts.{WellFormed}
use learning_redis.Store.Keys.Accounts.Steps.{empty_store-WellFormed}
use learning_redis.Store.Strings.{set, append, get, ttl, text_of}
use learning_redis.Store.Strings.Laws.{IsText, set-WellFormed, append-WellFormed}
use learning_redis.Store.Strings.Gone.{set-get_expired}
use learning_redis.Store.Strings.Replies.{kept_as, set-get, append-joins}
use learning_redis.Store.Sketches.{pf_add, pf_count}
use learning_redis.Store.Sketches.Counts.{pf_add-pf_count}
use learning_redis.Store.Eviction.{perform_evictions}
use learning_redis.Store.Eviction.Frees.{Ended, perform_evictions-ends, All-exists}

-- 1000 seconds after 1970, with a draw that always hits.
abbrev pub noon : Env
noon = record {
  now = 1000000000000;
  draw = λ d. true;
  params = record { log_factor = 10; decay_time = 1 };
  grow = λ cap needed. needed * 2;
}

abbrev pub later : Env
later = record noon { now = 1003000000000 }

abbrev pub name_set : Store
name_set = set noon empty_store (codes "name") (codes "vinay") (pos 2000000000)

abbrev pub seven_set : Store
seven_set = set noon name_set (codes "n") (codes "007") (pos 0)

-- The keys of the two runs: 73 bytes for `name`, 73 for `n`.
accounts_run : (seven_set.used_memory ≡ 146) × (seven_set.keys_stat ≡ 2)
unfolding set empty_store add_word lookup put bytes_eq entry_size detect_encoding parse_int new_sds
accounts_run = (refl, refl)

ttl_runs : (ttl noon name_set (codes "name")).1 ≡ pos 2
unfolding ttl set empty_store add_word lookup put bytes_eq entry_size detect_encoding parse_int
    new_sds
ttl_runs = refl

pub name_set-WellFormed : WellFormed whole_numbers name_set
name_set-WellFormed =
    set-WellFormed whole_numbers noon empty_store (codes "name") (codes "vinay") (pos 2000000000)
      (empty_store-WellFormed whole_numbers)

name-IsText : IsText whole_numbers (lookup (codes "name") name_set.data_of)
unfolding set empty_store add_word lookup put bytes_eq entry_size detect_encoding parse_int new_sds
name-IsText e = ground (arith, e)

append-WellFormed_example :
    (s' : Store) × (n : ℕ) × (append noon name_set (codes "name") (codes "!") ≡ some (s', n))
    × WellFormed whole_numbers s'
append-WellFormed_example =
    append-WellFormed whole_numbers noon name_set (codes "name") (codes "!") name_set-WellFormed
      name-IsText

abbrev vinay : Entry
vinay = record {
  encoding = encoding_embstr;
  int_val = pos 0;
  str_val = some (new_sds (codes "vinay"));
  hll_val = none;
  expires_at = some 1002000000000;
  lru = 1000;
}

abbrev one_name : Store
one_name = record empty_store { data_of = (codes "name", vinay) ∷ [] }

append-joins_example :
    (s' : Store) × (e : Entry) × (append noon one_name (codes "name") (codes "!")
      ≡ some (s', length (new_sds (codes "vinay")).buf + length (codes "!")))
    × (lookup (codes "name") s'.data_of ≡ some e)
    × (text_of e.encoding e ≡ some (some ((new_sds (codes "vinay")).buf ++ codes "!")))
    × (e.expires_at ≡ vinay.expires_at)
append-joins_example =
    append-joins noon one_name (codes "name") (codes "!") vinay (new_sds (codes "vinay"))
      (unfold lookup bytes_eq in refl) refl

-- A number comes back in its shortest form: here `007` as `7`.
set-get_example :
    (s' : Store) × (get later (set noon name_set (codes "n") (codes "007") (pos 0)) (codes "n")
      ≡ some (s', some (kept_as (codes "007") (parse_int (codes "007")))))
set-get_example = set-get noon later name_set (codes "n") (codes "007") (pos 0) tt

kept_runs : kept_as (codes "007") (parse_int (codes "007")) ≡ codes "7"
unfolding parse_int format_int
kept_runs = refl

set-get_expired_example :
    (s' : Store) × (get later
        (set noon name_set (codes "k") (codes "vinay") (pos 2000000000))
        (codes "k")
      ≡ some (s', none))
    × (lookup (codes "k") s'.data_of ≡ none)
    × (lookup (codes "name") s'.data_of ≡ lookup (codes "name") name_set.data_of)
    × WellFormed whole_numbers s'
set-get_expired_example =
    set-get_expired whole_numbers noon later name_set (codes "k") (codes "name") (codes "vinay")
      1999999999 name_set-WellFormed (λ e. ground (arith, e)) (omega arith)

pf_add-pf_count_example :
    (s' s'' : Store) × (changed : Bool) × (pf_add noon empty_store
        (codes "h")
        (codes "a" ∷ codes "b" ∷ [])
      ≡ some (s', some changed))
    × WellFormed whole_numbers s'
    × (pf_count whole_numbers s' (codes "h")
        ≡ some (s'', estimate_of whole_numbers (seen (λ j. 0) (codes "a" ∷ codes "b" ∷ []))))
pf_add-pf_count_example =
    pf_add-pf_count whole_numbers empty_estimate noon empty_store (codes "h")
      (codes "a" ∷ codes "b" ∷ []) (empty_store-WellFormed whole_numbers) missing
  where
    missing : lookup (codes "h") empty_store.data_of ≡ none
    missing = unfold empty_store lookup in refl

perform_evictions-ends_example :
    (s' : Store) × (perform_evictions noon (λ i d. d) (pos 5) 10 name_set ≡ some s')
    × WellFormed whole_numbers s'
    × Ended whole_numbers 10 s'
perform_evictions-ends_example =
    perform_evictions-ends whole_numbers noon (λ i d. d) (pos 5) 10 name_set name_set-WellFormed
      (λ i d. (All-exists d, λ h. h))

ldt_idle_elapsed_example :
    ldt_idle ((65530 + 10) % 65536) 65530 ≡ (if ltb (65530 + 10) 65536 then 10 else 10 - 1)
ldt_idle_elapsed_example = ldt_idle_elapsed 65530 10 (omega arith) (omega arith)

lru_idle_elapsed_example :
    lru_idle ((100 + 10) % 2 ^ 24) 100 ≡ (if ltb (100 + 10) (2 ^ 24) then 10 else 10 - 1)
lru_idle_elapsed_example = lru_idle_elapsed 100 10 (omega arith) (omega arith)
