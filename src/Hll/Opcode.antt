-- ===== src/Hll/Opcode.antt =====
-- The three opcodes of the sparse form (store/hll/hll_sparse.go): how a run of registers is
-- packed into one byte or two, and read back. A byte is a number below 256.
pub mod Bytes
use learning_redis.Common.{
  ℕ, ◌+◌, ◌*◌, ◌/◌, ◌%◌, List, [], ◌∷◌, Bool, true, not, bit_and, bit_or, leb, ◌==◌, if◌then◌else◌,
}

abbrev pub sparse_val_max_value : ℕ
sparse_val_max_value = 32

abbrev pub sparse_zero_max_len : ℕ
sparse_zero_max_len = 64

-- `byte(length - 1)`: the conversion keeps the low eight bits of a negative number too.
unfoldable pub encode_zero : ℕ → ℕ
encode_zero length = (length + 255) % 256

-- `uint16(length - 1)`, its top six data bits under the marker 01, and its low eight bits.
unfoldable pub encode_xzero : ℕ → ℕ × ℕ
encode_xzero length = let n = (length + 65535) % 65536 in (bit_or 0x40 (n / 256) % 256, n % 256)

-- The first argument is a uint8, from which 1 is taken with wrap-around.
unfoldable pub encode_val : ℕ → ℕ → ℕ
encode_val value length =
    let v = (value + 255) % 256 in
    let l = (length + 255) % 256 in bit_or (bit_or 0x80 (v * 4 % 256)) l

pub data SparseOpKind : Type 0 where
  op_zero op_xzero op_val : SparseOpKind

unfoldable pub decode_op_kind : ℕ → SparseOpKind
decode_op_kind b =
    if not (bit_and b 0x80 == 0)
    then op_val
    else if not (bit_and b 0x40 == 0)
    then op_xzero
    else op_zero

unfoldable pub decode_zero : ℕ → ℕ
decode_zero b = b + 1

unfoldable pub decode_xzero : ℕ → ℕ → ℕ
decode_xzero b0 b1 = bit_or (bit_and b0 0x3F * 256 % 65536) b1 + 1

-- The value and the run's length.
unfoldable pub decode_val : ℕ → ℕ × ℕ
decode_val b = ((bit_and (b / 4) 0x1F + 1) % 256, bit_and b 0x03 + 1)

-- The shorter opcode that holds a run of zeros.
unfoldable pub encode_zero_run : ℕ → List ℕ
encode_zero_run length =
    if leb length sparse_zero_max_len
    then encode_zero length ∷ []
    else let (first, second) = encode_xzero length in first ∷ second ∷ []
