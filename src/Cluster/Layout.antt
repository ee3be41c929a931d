-- ===== src/Cluster/Layout.antt =====
-- The layout of cluster/config.go, as a node reads it after startup.
use learning_redis.Common.{ℕ, List, Bytes, Option, none, some, ltb, if◌then◌else◌, get_elem?}
use learning_redis.Common.Int.{ℤ, pos, negsuc}
use learning_redis.Cluster.Slot.{num_slots}

-- An inclusive range.
pub record SlotRange : Type 0 where
  pub start : ℕ
  pub end : ℕ

pub record Node : Type 0 where
  pub name : Bytes
  pub addr : Bytes
  pub port : ℤ
  pub id : Bytes
  pub slots : List SlotRange

-- A pointer to a node is its position in `nodes`; a nil one is `none`. `owner` has an entry a slot.
pub record Layout : Type 0 where
  pub nodes : List Node
  pub self : Option ℕ
  pub owner : List (Option ℕ)

abbrev pub owner_entry : Option (Option ℕ) → Option ℕ
owner_entry none = none
owner_entry (some o) = o

-- `Owner`: nil outside the slots.
unfoldable pub owner_of : Layout → ℤ → Option ℕ
owner_of l (negsuc n) = none
owner_of l (pos slot) = if ltb slot num_slots then owner_entry (get_elem? l.owner slot) else none
