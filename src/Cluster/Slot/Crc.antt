-- ===== src/Cluster/Slot/Crc.antt =====
-- Every key has a slot: the table covers every index that occurs, and the slot is in range.
use learning_redis.Common.{
  ℕ, zero, suc, ◌+◌, ◌*◌, ◌/◌, ◌%◌, ◌<◌, ◌≡◌, refl, ap, ◌∙◌, arith, [], ◌∷◌, Bytes, some, get_elem?,
  bit_xor, All,
}
use learning_redis.Common.Bits.{bit_xor-lt, bit_and-mask}
use learning_redis.Cluster.Slot.{
  crc_round, crc_rounds, table_entry, table_from, crc16tab, crc16_from, crc16, hash_part,
  key_hash_slot, num_slots,
}
use learning_redis.Cluster.Slot.Tags.{hash_part-All}

crc_round-lt : (crc : ℕ) → crc_round crc < 65536
unfolding crc_round
crc_round-lt crc =
    let mixed = bit_xor-lt 16 (crc * 2 % 65536) 0x1021 (omega arith) (omega arith) in ground arith

crc_rounds-lt : (n crc : ℕ) → crc < 65536 → crc_rounds n crc < 65536
unfolding crc_rounds
crc_rounds-lt zero crc h = h
crc_rounds-lt (suc n) crc h = crc_rounds-lt n (crc_round crc) (crc_round-lt crc)

table_entry-lt : (i : ℕ) → table_entry i < 65536
unfolding table_entry
table_entry-lt i = crc_rounds-lt 8 (i * 256 % 65536) (omega arith)

table_from-get : (n i k : ℕ) → k < n → get_elem? (table_from n i) k ≡ some (table_entry (i + k))
unfolding table_from
table_from-get zero i k h = absurd (omega arith)
table_from-get (suc n) i zero h =
    let e : i ≡ i + 0 = omega arith in ap (λ (t : ℕ). some (table_entry t)) e
table_from-get (suc n) i (suc k) h =
    let e : i + 1 + k ≡ i + suc k = omega arith in
    table_from-get n (i + 1) k (omega arith) ∙ ap (λ (t : ℕ). some (table_entry t)) e

pub crc16tab-get : (k : ℕ) → k < 256 → get_elem? crc16tab k ≡ some (table_entry k)
unfolding crc16tab
crc16tab-get k h =
    let e : 0 + k ≡ k = omega arith in
    table_from-get 256 0 k h ∙ ap (λ (t : ℕ). some (table_entry t)) e

crc16_from-lt :
    (s : Bytes) (crc : ℕ)
    → crc < 65536
    → All (λ c. c < 256) s
    → (r : ℕ) × (crc16_from crc s ≡ some r) × (r < 65536)
unfolding crc16_from
crc16_from-lt [] crc h each = (crc, refl, h)
crc16_from-lt (c ∷ cs) crc h each =
    let k = bit_xor (crc / 256 % 256) c in
    let k_lt : k < 256 = bit_xor-lt 8 (crc / 256 % 256) c (omega arith) each.0 in
    let crc' = bit_xor (crc * 256 % 65536) (table_entry k) in
    let (r, run, lt) =
      crc16_from-lt cs crc'
        (bit_xor-lt 16 (crc * 256 % 65536) (table_entry k) (omega arith) (table_entry-lt k))
        each.1 in
    (r, rw (crc16tab-get k k_lt) run, lt)

-- Every key has a slot, below 16384: the table is never read out of range.
pub key_hash_slot-lt :
    (key : Bytes)
    → All (λ c. c < 256) key
    → (slot : ℕ) × (key_hash_slot key ≡ some slot) × (slot < num_slots)
unfolding key_hash_slot crc16
key_hash_slot-lt key each =
    let (crc, run, lt) = crc16_from-lt (hash_part key) 0 (omega arith) (hash_part-All _ key each) in
    (crc % 16384, rw run (ap some (bit_and-mask 14 crc)), omega arith)
