-- ===== src/Store/Keys.antt =====
-- The map of keys to entries of store/store.go, and the counters that go with it.
pub mod Accounts
use learning_redis.Common.{
  ℕ, zero, suc, ◌+◌, ◌-◌, List, [], ◌∷◌, Bytes, Bool, true, false, not, ◌&&◌, ◌||◌, Option, none,
  some, ltb, leb, if◌then◌else◌, length, bytes_eq, codes,
}
use learning_redis.Store.Words.{add_word, sub_word}
use learning_redis.Store.Lfu.{LfuParams, lfu_touch, lfu_new, lfu_clock, lru_clock}
use learning_redis.Store.Entry.{Entry, entry_size}

abbrev pub Data : Type 0
Data = List (Bytes × Entry)

unfoldable pub lookup : Bytes → Data → Option Entry
lookup key [] = none
lookup key ((k, e) ∷ rest) = let found = lookup key rest in if bytes_eq k key then some e else found

-- `data[key] = e`
unfoldable pub put : Bytes → Entry → Data → Data
put key e [] = (key, e) ∷ []
put key e ((k, old) ∷ rest) =
    let rest' = put key e rest in if bytes_eq k key then (k, e) ∷ rest else (k, old) ∷ rest'

-- `delete(data, key)`
unfoldable pub erase : Bytes → Data → Data
erase key [] = []
erase key ((k, e) ∷ rest) =
    let rest' = erase key rest in if bytes_eq k key then rest else (k, e) ∷ rest'

pub record Candidate : Type 0 where
  pub key : Bytes
  pub score : ℕ

-- The Store, with `KeyspaceStat[0]["keys"]`. The two counters are words of 64 bits.
pub record Store : Type 0 where
  pub data_of : Data
  pub used_memory : ℕ
  pub ev_pool : List Candidate
  pub policy : Bytes
  pub keys_stat : ℕ

-- What an operation reads besides the store: the time, the draw of the random counter, the settings,
-- and the capacity that the runtime gives to a slice that must grow.
pub record Env : Type 0 where
  pub now : ℕ
  pub draw : ℕ → Bool
  pub params : LfuParams
  pub grow : ℕ → ℕ → ℕ

unfoldable pub empty_store : Store
empty_store = record {
  data_of = [];
  used_memory = 0;
  ev_pool = [];
  policy = codes "noeviction";
  keys_stat = 0;
}

unfoldable pub set_policy : Store → Bytes → Store
set_policy s policy = record s { policy = policy }

unfoldable pub is_lfu : Store → Bool
is_lfu s = bytes_eq s.policy (codes "allkeys-lfu") || bytes_eq s.policy (codes "volatile-lfu")

unfoldable pub stamp_new : Env → Store → ℕ
stamp_new env s = if is_lfu s then lfu_new (lfu_clock env.now) else lru_clock env.now

unfoldable pub stamp_access : Env → Store → ℕ → ℕ
stamp_access env s current =
    if is_lfu s
    then lfu_touch env.params env.draw current (lfu_clock env.now)
    else lru_clock env.now

abbrev pub expired_at : ℕ → Option ℕ → Bool
expired_at now none = false
expired_at now (some at) = not (ltb now at)

unfoldable pub is_expired : ℕ → Entry → Bool
is_expired now e = expired_at now e.expires_at

abbrev pub take_out : Bytes → Store → Option Entry → Store
take_out key s none = s
take_out key s (some e) = record s {
  data_of = erase key s.data_of;
  used_memory = sub_word s.used_memory (entry_size key e);
  keys_stat = sub_word s.keys_stat 1;
}

unfoldable pub remove_key : Bytes → Store → Store
remove_key key s = take_out key s (lookup key s.data_of)

-- `s.data[key] = e` after the accounting that `Set`, `Append`, `PFAdd` and `PFMerge` do for the entry
-- that was there, and before that for the new one.
abbrev pub released : Bytes → Store → Option Entry → Store
released key s none = record s { keys_stat = add_word s.keys_stat 1 }
released key s (some old) = record s { used_memory = sub_word s.used_memory (entry_size key old) }

abbrev pub stored : Bytes → Entry → Store → Store
stored key e s = record s {
  data_of = put key e s.data_of;
  used_memory = add_word s.used_memory (entry_size key e);
}
