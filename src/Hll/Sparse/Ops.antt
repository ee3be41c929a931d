-- ===== src/Hll/Sparse/Ops.antt =====
-- An opcode stream as a list of runs: what each opcode covers, and the registers that it spells.
use learning_redis.Common.{
  ℕ, ◌+◌, ◌-◌, ◌≤◌, ◌≡◌, arith, List, [], ◌∷◌, ◌++◌, Bytes, ltb, if◌then◌else◌, All,
}
use learning_redis.Hll.Opcode.{
  SparseOpKind, op_zero, op_xzero, op_val, encode_zero, encode_xzero, encode_val,
}

pub data Op : Type 0 where
  zero_op : ℕ → Op
  xzero_op : ℕ → Op
  val_op : ℕ → ℕ → Op

abbrev pub op_len : Op → ℕ
op_len (zero_op n) = n
op_len (xzero_op n) = n
op_len (val_op v n) = n

abbrev pub op_value : Op → ℕ
op_value (zero_op n) = 0
op_value (xzero_op n) = 0
op_value (val_op v n) = v

abbrev pub op_kind : Op → SparseOpKind
op_kind (zero_op n) = op_zero
op_kind (xzero_op n) = op_xzero
op_kind (val_op v n) = op_val

abbrev pub encode_op : Op → Bytes
encode_op (zero_op n) = encode_zero n ∷ []
encode_op (xzero_op n) = (encode_xzero n).0 ∷ (encode_xzero n).1 ∷ []
encode_op (val_op v n) = encode_val v n ∷ []

-- What an opcode can hold.
abbrev pub IsOp : Op → Type 0
IsOp (zero_op n) = (1 ≤ n) × (n ≤ 64)
IsOp (xzero_op n) = (1 ≤ n) × (n ≤ 16384)
IsOp (val_op v n) = (1 ≤ v) × (v ≤ 32) × (1 ≤ n) × (n ≤ 4)

abbrev pub encode_ops : List Op → Bytes
encode_ops [] = []
encode_ops (o ∷ ops) = encode_op o ++ encode_ops ops

-- How many registers the runs cover.
abbrev pub total_len : List Op → ℕ
total_len [] = 0
total_len (o ∷ ops) = op_len o + total_len ops

-- The value of register `i`, counted from the first run.
abbrev pub register : List Op → ℕ → ℕ
register [] i = 0
register (o ∷ ops) i = if ltb i (op_len o) then op_value o else register ops (i - op_len o)

-- A stream that spells `count` registers, with their values.
pub record Spells (sparse : Bytes) (count : ℕ) : Type 0 where
  pub ops : List Op
  pub each : All IsOp ops
  pub stream : sparse ≡ encode_ops ops
  pub total : total_len ops ≡ count

pub op_len-pos : (o : Op) → IsOp o → (1 ≤ op_len o) × (op_len o ≤ 16384)
op_len-pos (zero_op n) h = omega arith
op_len-pos (xzero_op n) h = omega arith
op_len-pos (val_op v n) h = omega arith
