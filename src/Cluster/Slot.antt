-- ===== src/Cluster/Slot.antt =====
-- cluster/slot.go: CRC16-XMODEM with its table, and the hash slot of a key, which honours hash tags.
pub mod Tags
pub mod Crc
use learning_redis.Common.{
  ℕ, zero, suc, ◌+◌, ◌-◌, ◌*◌, ◌/◌, ◌%◌, ◌^◌, List, [], ◌∷◌, Bytes, Bool, Option, none, some, ltb,
  ◌==◌, not, if◌then◌else◌, get_elem?, take, drop, bit_and, bit_xor, ◌>>=◌,
}

abbrev pub num_slots : ℕ
num_slots = 16384

-- One round of the inner loop: `crc&0x8000 != 0` chooses whether the polynomial is added.
unfoldable pub crc_round : ℕ → ℕ
crc_round crc =
    if not (bit_and crc 0x8000 == 0) then bit_xor (crc * 2 % 65536) 0x1021 else crc * 2 % 65536

unfoldable pub crc_rounds : ℕ → ℕ → ℕ
unfolding crc_round
crc_rounds zero crc = crc
crc_rounds (suc n) crc = crc_rounds n (crc_round crc)

-- The entry `i` of `crc16tab`.
unfoldable pub table_entry : ℕ → ℕ
unfolding crc_rounds
table_entry i = crc_rounds 8 (i * 256 % 65536)

-- The list of the entries from `i` on.
unfoldable pub table_from : ℕ → ℕ → List ℕ
unfolding table_entry
table_from zero i = []
table_from (suc n) i = table_entry i ∷ table_from n (i + 1)

unfoldable pub crc16tab : List ℕ
unfolding table_from
crc16tab = table_from 256 0

-- `none` is an index out of range.
unfoldable pub crc16_from : ℕ → Bytes → Option ℕ
unfolding crc16tab
crc16_from crc [] = some crc
crc16_from crc (c ∷ cs) = do
  entry ← get_elem? crc16tab (bit_xor (crc / 256 % 256) c)
  crc16_from (bit_xor (crc * 256 % 65536) entry) cs

unfoldable pub crc16 : Bytes → Option ℕ
unfolding crc16_from
crc16 s = crc16_from 0 s

-- `indexByte(s, c, from)`, with the -1 of no match as `none`; the list is `s[from:]`.
unfoldable pub index_byte_from : Bytes → ℕ → ℕ → Option ℕ
index_byte_from [] c i = none
index_byte_from (x ∷ xs) c i =
    let rest = index_byte_from xs c (i + 1) in if x == c then some i else rest

unfoldable pub index_byte : Bytes → ℕ → ℕ → Option ℕ
unfolding index_byte_from
index_byte s c start = index_byte_from (drop start s) c start

-- The part of the key that is hashed: between the first `{`, at `open_at`, and the first `}` after it,
-- unless one of the two is missing or nothing stands between them.
unfoldable pub tag_to : Bytes → ℕ → Option ℕ → Bytes
tag_to key open_at none = key
tag_to key open_at (some close_at) =
    if ltb (open_at + 1) close_at
    then take (close_at - (open_at + 1)) (drop (open_at + 1) key)
    else key

unfoldable pub tag_from : Bytes → Option ℕ → Bytes
unfolding tag_to index_byte
tag_from key none = key
tag_from key (some open_at) = tag_to key open_at (index_byte key b'}' (open_at + 1))

unfoldable pub hash_part : Bytes → Bytes
unfolding tag_from
hash_part key = tag_from key (index_byte key b'{' 0)

unfoldable pub key_hash_slot : Bytes → Option ℕ
unfolding hash_part crc16
key_hash_slot key = do crc ← crc16 (hash_part key); some (bit_and crc (num_slots - 1))
