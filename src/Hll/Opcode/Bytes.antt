-- ===== src/Hll/Opcode/Bytes.antt =====
-- The opcode bytes in plain arithmetic, and the round trip through each opcode.
use learning_redis.Common.{ℕ, ◌+◌, ◌-◌, ◌*◌, ◌/◌, ◌%◌, ◌≤◌, ◌<◌, ◌≡◌, refl, arith, ◌∙◌, bit_and}
use learning_redis.Common.Bits.{agree_from, table_eq, bit_or-add_above, bit_and-mask}
use learning_redis.Hll.Opcode.{
  encode_zero, encode_xzero, encode_val, op_zero, op_xzero, op_val, decode_op_kind, decode_zero,
  decode_xzero, decode_val,
}

top_bit : (b : ℕ) → b < 256 → bit_and b 0x80 ≡ b / 128 * 128
unfolding agree_from
top_bit = table_eq 256 _ _ refl

second_bit : (b : ℕ) → b < 256 → bit_and b 0x40 ≡ b / 64 % 2 * 64
unfolding agree_from
second_bit = table_eq 256 _ _ refl

pub decode_op_kind-zero : (b : ℕ) → b < 64 → decode_op_kind b ≡ op_zero
unfolding decode_op_kind
decode_op_kind-zero b h = ground (arith, top_bit b, second_bit b)

pub decode_op_kind-xzero : (b : ℕ) → 64 ≤ b → b < 128 → decode_op_kind b ≡ op_xzero
unfolding decode_op_kind
decode_op_kind-xzero b lo hi = ground (arith, top_bit b, second_bit b)

pub decode_op_kind-val : (b : ℕ) → 128 ≤ b → b < 256 → decode_op_kind b ≡ op_val
unfolding decode_op_kind
decode_op_kind-val b lo hi = ground (arith, top_bit b)

pub encode_zero_lem : (n : ℕ) → 1 ≤ n → n ≤ 64 → encode_zero n ≡ n - 1
unfolding encode_zero
encode_zero_lem n lo hi = omega arith

pub encode_xzero_lem :
    (n : ℕ) → 1 ≤ n → n ≤ 16384 → encode_xzero n ≡ (64 + (n - 1) / 256, (n - 1) % 256)
unfolding encode_xzero
encode_xzero_lem n lo hi =
    ground (arith, bit_or-add_above 6 1 ((n + 65535) % 65536 / 256) (omega arith))

pub encode_val_lem :
    (v n : ℕ) → 1 ≤ v → v ≤ 32 → 1 ≤ n → n ≤ 4 → encode_val v n ≡ 128 + (v - 1) * 4 + (n - 1)
unfolding encode_val
encode_val_lem v n v_lo v_hi n_lo n_hi = ground (
  arith,
  bit_or-add_above 7 1 ((v + 255) % 256 * 4 % 256) (omega arith),
  bit_or-add_above 2 (32 + (v - 1)) ((n + 255) % 256) (omega arith),
)

pub decode_xzero_lem : (b0 b1 : ℕ) → b1 < 256 → decode_xzero b0 b1 ≡ b0 % 64 * 256 + b1 + 1
unfolding decode_xzero
decode_xzero_lem b0 b1 h =
    ground (arith, bit_and-mask 6 b0, bit_or-add_above 8 (b0 % 64) b1 (omega arith))

pub decode_val_lem : (b : ℕ) → decode_val b ≡ (b / 4 % 32 + 1, b % 4 + 1)
unfolding decode_val
decode_val_lem b = ground (arith, bit_and-mask 5 (b / 4), bit_and-mask 2 b)

-- Each opcode is told from its first byte, and read back as it was packed: a run of 1 to 64 zeros in
-- one byte, a run of 1 to 16384 zeros in two, and a run of 1 to 4 registers that hold 1 to 32.
pub opcodes_round_trip :
    (z x v n : ℕ)
    → (1 ≤ z) × (z ≤ 64)
    → (1 ≤ x) × (x ≤ 16384)
    → (1 ≤ v) × (v ≤ 32)
    → (1 ≤ n) × (n ≤ 4)
    → ((decode_op_kind (encode_zero z) ≡ op_zero) × (decode_zero (encode_zero z) ≡ z))
      × ((decode_op_kind (encode_xzero x).0 ≡ op_xzero)
          × (decode_xzero (encode_xzero x).0 (encode_xzero x).1 ≡ x))
      × ((decode_op_kind (encode_val v n) ≡ op_val) × (decode_val (encode_val v n) ≡ (v, n)))
unfolding decode_zero
opcodes_round_trip z x v n hz hx hv hn = (
  rw (encode_zero_lem z hz.0 hz.1) (decode_op_kind-zero (z - 1) (omega arith), omega arith),
  rw (encode_xzero_lem x hx.0 hx.1) (
    decode_op_kind-xzero (64 + (x - 1) / 256) (omega arith) (omega arith),
    decode_xzero_lem _ _ (omega arith) ∙ omega arith,
  ),
  rw (encode_val_lem v n hv.0 hv.1 hn.0 hn.1) (
    decode_op_kind-val (128 + (v - 1) * 4 + (n - 1)) (omega arith) (omega arith),
    decode_val_lem (128 + (v - 1) * 4 + (n - 1)) ∙ ground arith,
  ),
)
