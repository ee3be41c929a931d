-- ===== src/Store/Strings/Expired.antt =====
-- store/store.go: how many keys `DeleteExpired` removes.
use learning_redis.Common.{
  ℕ, ◌+◌, ◌-◌, ◌≤◌, ◌≡◌, ◌≢◌, refl, sym, ◌∙◌, arith, [], ◌∷◌, Bytes, Option, none, some, leb,
  length, All, Bool-cases, inl, inr, bytes_eq, bytes_eq_iff, subst,
}
use learning_redis.Store.Entry.{Entry}
use learning_redis.Store.Keys.{Data, Store, Env, lookup, erase, is_expired, remove_key, take_out}
use learning_redis.Store.Keys.Accounts.{Distinct, lookup-erase_ne}
use learning_redis.Store.Keys.Accounts.Steps.{length-erase, count_in}
use learning_redis.Store.Eviction.Pops.{Exists}
use learning_redis.Store.Strings.{expire_loop, delete_expired, never_expires}

-- Keys of the map, each once.
abbrev pub Lists : Data → Data → Type 0
Lists order d = Distinct order × All (λ x. Exists d x.0) order

remove_key-Exists :
    (key : Bytes) (s : Store) (order : Data)
    → lookup key order ≡ none
    → All (λ x. Exists s.data_of x.0) order
    → All (λ x. Exists (remove_key key s).data_of x.0) order
unfolding lookup remove_key
remove_key-Exists key s [] absent h = tt
remove_key-Exists key s ((k, e) ∷ order) absent ((found, at), hs) =
    elim (Bool-cases (bytes_eq k key)) [
      | inl same ↦ let is : some e ≡ none = simp same at absent in ground (arith, is)
      | inr other ↦
          let further : lookup key order ≡ none = simp other at absent in
          let apart : key ≢ k = λ e. ground (arith, other, (bytes_eq_iff k key).1 (sym e)) in
          ((found, kept (lookup key s.data_of) apart), remove_key-Exists key s order further hs)
    ]
  where
    kept : (o : Option Entry) → key ≢ k → lookup k (take_out key s o).data_of ≡ some found
    kept none apart = at
    kept (some e) apart = lookup-erase_ne key k s.data_of apart ∙ at

remove_key-length :
    (key : Bytes) (s : Store)
    → Exists s.data_of key
    → length (remove_key key s).data_of + 1 ≡ length s.data_of
unfolding remove_key
remove_key-length key s (e, found) =
    let size : length (erase key s.data_of) + count_in (some e) ≡ length s.data_of =
      subst (λ (o : Option Entry). length (erase key s.data_of) + count_in o ≡ length s.data_of)
        found (length-erase key s.data_of) in
    rw found size

-- The keys that were deleted are gone, and they are as many as the loop can still look at, at most.
abbrev Deletes : Store → ℕ → ℕ → Store × ℕ → Type 0
Deletes s checked deleted (s', n) =
    (length s'.data_of + n ≡ length s.data_of + deleted) × (n ≤ deleted + (20 - checked))

expire_loop-Deletes :
    (env : Env) (order : Data) (s : Store) (checked deleted : ℕ)
    → Lists order s.data_of
    → Deletes s checked deleted (expire_loop env order s checked deleted)
unfolding expire_loop Distinct
expire_loop-Deletes env [] s checked deleted h = (refl, omega arith)
expire_loop-Deletes env ((key, e) ∷ order) s checked deleted ((absent, distinct), (here, there)) =
    elim (Bool-cases (leb 20 checked)) [
      | inl full ↦ rw full (refl, omega arith)
      | inr room ↦
          let below : checked ≤ 19 = ground (arith, room) in
          elim (Bool-cases (never_expires e.expires_at)) [
            | inl always ↦
                rw (room, always)
                  (expire_loop-Deletes env order s checked deleted (distinct, there))
            | inr sometimes ↦ elim (Bool-cases (is_expired env.now e)) [
              | inl gone ↦
                  let (sum, le) =
                    expire_loop-Deletes env order (remove_key key s) (checked + 1) (deleted + 1)
                      (distinct, remove_key-Exists key s order absent there) in
                  rw (room, sometimes, gone)
                    (omega (arith, sum, remove_key-length key s here), omega (arith, le, below))
              | inr live ↦
                  let (sum, le) =
                    expire_loop-Deletes env order s (checked + 1) (deleted + 0) (distinct, there) in
                  rw (room, sometimes, live) (omega (arith, sum), omega (arith, le, below))
            ]
          ]
    ]

-- On a map that yields its keys, each once, DeleteExpired reports the number of keys that it
-- removed, which is 20 at most.
pub delete_expired-counts :
    (env : Env) (order : Data) (s : Store)
    → Lists order s.data_of
    → (length (delete_expired env order s).0.data_of + (delete_expired env order s).1
        ≡ length s.data_of)
      × ((delete_expired env order s).1 ≤ 20)
unfolding delete_expired
delete_expired-counts env order s h =
    let (sum, le) = expire_loop-Deletes env order s 0 0 h in (omega (arith, sum), omega (arith, le))
