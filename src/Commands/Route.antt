-- ===== src/Commands/Route.antt =====
-- commands/route.go: may this node run a command? The inner `none` is nil, which is yes; the outer
-- one is a panic.
pub mod Batch
pub mod Safe
pub mod Frames
use learning_redis.Common.{
  ℕ, zero, suc, ◌+◌, List, [], ◌∷◌, ◌++◌, Bytes, Bool, true, false, not, Option, none, some, ◌>>=◌,
  ◌==◌, if◌then◌else◌, get_elem?, codes,
}
use learning_redis.Common.Int.{ℤ, pos}
use learning_redis.Common.Decimal.{format_nat}
use learning_redis.Cluster.Slot.{key_hash_slot}
use learning_redis.Cluster.Layout.{Node, Layout, owner_of}
use learning_redis.Core.Encode.{encode_error}
use learning_redis.Commands.Command.{Command, keys_of}

abbrev pub crossslot : Bytes
crossslot = encode_error (codes "CROSSSLOT Keys in request don't hash to the same slot")

abbrev pub clusterdown : Bytes
clusterdown = encode_error (codes "CLUSTERDOWN Hash slot not served")

unfoldable pub moved : ℕ → Node → Bytes
moved slot n = encode_error (codes "MOVED " ++ (format_nat slot ++ (codes " " ++ n.addr)))

-- `for _, k := range keys[1:]`: is every key in this slot?
unfoldable pub all_in_slot : ℕ → List Bytes → Option Bool
all_in_slot slot [] = some true
all_in_slot slot (k ∷ ks) = do
  other ← key_hash_slot k
  let rest = all_in_slot slot ks
  if other == slot then rest else some false

abbrev pub is_self : Option ℕ → ℕ → Bool
is_self none owner = false
is_self (some self) owner = self == owner

abbrev pub owned : Layout → ℕ → Option ℕ → Option (Option Bytes)
owned l slot none = some (some clusterdown)
owned l slot (some owner) =
    let elsewhere = do n ← get_elem? l.nodes owner; some (some (moved slot n))
    in if is_self l.self owner then some none else elsewhere

unfoldable pub check_layout : Layout → List Bytes → Option (Option Bytes)
unfolding all_in_slot
check_layout l [] = some none
check_layout l (key ∷ keys) = do
  slot ← key_hash_slot key
  together ← all_in_slot slot keys
  if together then owned l slot (owner_of l (pos slot)) else some (some crossslot)

-- `checkKeys`; no layout is a node with cluster mode off.
unfoldable pub check_keys : Option Layout → List Bytes → Option (Option Bytes)
unfolding check_layout
check_keys none keys = some none
check_keys (some l) keys = check_layout l keys

unfoldable pub check_cluster : Option Layout → Command → Option (Option Bytes)
check_cluster layout cmd = do keys ← keys_of cmd; check_keys layout keys

unfoldable pub batch_keys : List Command → Option (List Bytes)
batch_keys [] = some []
batch_keys (c ∷ cs) = do k ← keys_of c; ks ← batch_keys cs; some (k ++ ks)

unfoldable pub check_cluster_batch : Option Layout → List Command → Option (Option Bytes)
unfolding batch_keys
check_cluster_batch layout cmds = do keys ← batch_keys cmds; check_keys layout keys
