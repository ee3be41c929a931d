-- ===== src/Store/Strings/Gone.antt =====
-- store/store.go: a key whose time to live has passed, when it is read.
use learning_redis.Common.{ℕ, suc, ◌+◌, ◌≤◌, ◌≡◌, ◌≢◌, refl, ap, ◌∙◌, Bytes, Option, none, some}
use learning_redis.Common.Int.{pos}
use learning_redis.Hll.Sketch.Histogram.{Float}
use learning_redis.Store.Entry.{Entry}
use learning_redis.Store.Keys.{Store, Env, lookup, take_out, remove_key, stored, released}
use learning_redis.Store.Keys.Accounts.{
  WellFormed, lookup-put_ne, lookup-erase_ne, lookup-erase_self,
}
use learning_redis.Store.Keys.Accounts.Steps.{remove_key-WellFormed}
use learning_redis.Store.Strings.{set, get}
use learning_redis.Store.Strings.Laws.{set-WellFormed}
use learning_redis.Store.Strings.Replies.{set_entry, set-lookup, get-set_past}

stored-lookup_ne :
    (s : Store) (key other : Bytes) (e : Entry) (o : Option Entry)
    → key ≢ other
    → lookup other (stored key e (released key s o)).data_of ≡ lookup other s.data_of
stored-lookup_ne s key other e none ne = lookup-put_ne key other e s.data_of ne
stored-lookup_ne s key other e (some old) ne = lookup-put_ne key other e s.data_of ne

set-lookup_ne :
    (env : Env) (s : Store) (key other value : Bytes) (n : ℕ)
    → key ≢ other
    → lookup other (set env s key value (pos (suc n))).data_of ≡ lookup other s.data_of
unfolding set
set-lookup_ne env s key other value n ne =
    stored-lookup_ne s key other (set_entry env s value (pos (suc n))) (lookup key s.data_of) ne

take_out-lookup_ne :
    (s : Store) (key other : Bytes) (o : Option Entry)
    → key ≢ other
    → lookup other (take_out key s o).data_of ≡ lookup other s.data_of
take_out-lookup_ne s key other none ne = refl
take_out-lookup_ne s key other (some e) ne = lookup-erase_ne key other s.data_of ne

module _ (fl : Float) where
  -- On a well-formed store: after the time to live of a Set has passed, Get of the key does not
  -- panic, reports it as missing and removes it, every other key holds what it held before the
  -- Set, and the store is well formed.
  pub set-get_expired :
      (env later : Env) (s : Store) (key other value : Bytes) (n : ℕ)
      → WellFormed fl s
      → key ≢ other
      → env.now + suc n ≤ later.now
      → (s' : Store) × (get later (set env s key value (pos (suc n))) key ≡ some (s', none))
        × (lookup key s'.data_of ≡ none)
        × (lookup other s'.data_of ≡ lookup other s.data_of)
        × WellFormed fl s'
  unfolding remove_key
  set-get_expired env later s key other value n w ne past =
      let s1 = set env s key value (pos (suc n)) in
      let w1 = set-WellFormed fl env s key value (pos (suc n)) w in
      (
        remove_key key s1,
        get-set_past env later s key value n past,
        ap (λ (o : Option Entry). lookup key (take_out key s1 o).data_of)
              (set-lookup env s key value (pos (suc n)))
            ∙ lookup-erase_self key s1.data_of w1.distinct,
        take_out-lookup_ne s1 key other (lookup key s1.data_of) ne
            ∙ set-lookup_ne env s key other value n ne,
        remove_key-WellFormed fl s1 key w1,
      )
