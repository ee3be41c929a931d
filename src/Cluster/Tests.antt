-- ===== src/Cluster/Tests.antt =====
-- Slots of concrete keys, and the theorems at concrete keys.
use learning_redis.Common.{ℕ, ◌≡◌, ◌≢◌, ◌<◌, refl, arith, [], some, codes}
use learning_redis.Cluster.Slot.{crc16, key_hash_slot, num_slots}
use learning_redis.Cluster.Slot.Tags.{Lacks, tagged, key_hash_slot-tagged}
use learning_redis.Cluster.Slot.Crc.{key_hash_slot-lt}

-- The check value of CRC16-XMODEM.
crc16_runs : crc16 (codes "123456789") ≡ some 0x31C3
unfolding crc16
crc16_runs = refl

slot_runs : key_hash_slot (codes "foo") ≡ some 12182
unfolding key_hash_slot
slot_runs = refl

empty_tag_runs : key_hash_slot (codes "{}foo") ≡ some 9500
unfolding key_hash_slot
empty_tag_runs = refl

key_hash_slot-lt_example :
    (slot : ℕ) × (key_hash_slot (codes "{user1000}.following") ≡ some slot) × (slot < num_slots)
key_hash_slot-lt_example = key_hash_slot-lt (codes "{user1000}.following") (ground arith)

key_hash_slot-tagged_example :
    key_hash_slot (tagged [] (codes "user1000") (codes ".following"))
    ≡ key_hash_slot (tagged (codes "my") (codes "user1000") (codes ".followers"))
key_hash_slot-tagged_example =
    key_hash_slot-tagged [] (codes "my") (codes "user1000") (codes ".following")
      (codes ".followers") tt lacks_my lacks_close not_empty
  where
    lacks_my : Lacks b'{' (codes "my")
    lacks_my = ground arith

    lacks_close : Lacks b'}' (codes "user1000")
    lacks_close = ground arith

    not_empty : codes "user1000" ≢ []
    not_empty e = ground (arith, e)
