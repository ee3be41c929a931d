-- ===== src/Commands/Route/Safe.antt =====
-- The routing check never panics, on any command whose arguments are bytes.
use learning_redis.Common.{
  ℕ, ◌<◌, ◌≡◌, refl, List, [], ◌∷◌, Bytes, Bool, true, false, Option, none, some, ◌==◌, length,
  get_elem?-some, Bool-cases, inl, inr, All,
}
use learning_redis.Common.Int.{pos}
use learning_redis.Cluster.Slot.{key_hash_slot}
use learning_redis.Cluster.Slot.Crc.{key_hash_slot-lt}
use learning_redis.Cluster.Layout.{Layout, owner_of}
use learning_redis.Commands.Command.{Command}
use learning_redis.Commands.Command.Keys.{keys_of-some}
use learning_redis.Commands.Route.{
  all_in_slot, is_self, owned, check_layout, check_keys, check_cluster, crossslot, clusterdown,
  moved,
}

-- A string of bytes.
abbrev pub IsBytes : Bytes → Type 0
IsBytes = All (λ c. c < 256)

-- Every owner of a slot is a node of the layout.
abbrev pub OwnersExist : Option Layout → Type 0
OwnersExist none = Unit
OwnersExist (some l) =
    (slot owner : ℕ) → owner_of l (pos slot) ≡ some owner → owner < length l.nodes

all_in_slot-some :
    (slot : ℕ) (ks : List Bytes) → All IsBytes ks → (b : Bool) × (all_in_slot slot ks ≡ some b)
unfolding all_in_slot
all_in_slot-some slot [] each = (true, refl)
all_in_slot-some slot (k ∷ ks) each =
    let (other, run, lt) = key_hash_slot-lt k each.0 in
    let (b, rest) = all_in_slot-some slot ks each.1 in
    elim (Bool-cases (other == slot)) [
      | inl same ↦ (b, rw run (rw same rest))
      | inr differs ↦ (false, rw run (rw differs refl))
    ]

owned-some :
    (l : Layout) (slot : ℕ) (o : Option ℕ)
    → ((owner : ℕ) → o ≡ some owner → owner < length l.nodes)
    → (e : Option Bytes) × (owned l slot o ≡ some e)
owned-some l slot none exist = (some clusterdown, refl)
owned-some l slot (some owner) exist =
    let (n, read) = get_elem?-some l.nodes owner (exist owner refl) in
    elim (Bool-cases (is_self l.self owner)) [
      | inl mine ↦ (none, rw mine refl)
      | inr other ↦ (some (moved slot n), rw other (rw read refl))
    ]

check_layout-some :
    (l : Layout) (ks : List Bytes)
    → OwnersExist (some l)
    → All IsBytes ks
    → (e : Option Bytes) × (check_layout l ks ≡ some e)
unfolding check_layout
check_layout-some l [] exist each = (none, refl)
check_layout-some l (k ∷ ks) exist each =
    let (slot, run, lt) = key_hash_slot-lt k each.0 in
    let (b, together) = all_in_slot-some slot ks each.1 in
    let (e, own) = owned-some l slot (owner_of l (pos slot)) (exist slot) in
    by_test slot run b together e own
  where
    by_test :
        (slot : ℕ)
        → key_hash_slot k ≡ some slot
        → (b : Bool) → all_in_slot slot ks ≡ some b
        → (e : Option Bytes) → owned l slot (owner_of l (pos slot)) ≡ some e
        → (e' : Option Bytes) × (check_layout l (k ∷ ks) ≡ some e')
    by_test slot run true together e own = (e, rw run (rw together own))
    by_test slot run false together e own = (some crossslot, rw run (rw together refl))

check_keys-some :
    (o : Option Layout) (ks : List Bytes)
    → OwnersExist o
    → All IsBytes ks
    → (e : Option Bytes) × (check_keys o ks ≡ some e)
unfolding check_keys
check_keys-some none ks exist each = (none, refl)
check_keys-some (some l) ks exist each = check_layout-some l ks exist each

-- The check of a command ends and does not panic.
pub check_cluster-some :
    (o : Option Layout) (cmd : Command)
    → OwnersExist o
    → All IsBytes cmd.args
    → (e : Option Bytes) × (check_cluster o cmd ≡ some e)
unfolding check_cluster
check_cluster-some o cmd exist each =
    let (ks, run, bytes) = keys_of-some IsBytes cmd each in
    let (e, checks) = check_keys-some o ks exist bytes in (e, rw run checks)
