-- ===== src/Hll.antt =====
-- The HyperLogLog sketch of store/hll: the hash, the opcodes of the sparse form, the sparse and
-- the dense registers, and the sketch that moves from one form to the other.
pub mod Registers
pub mod Opcode
pub mod Sparse
pub mod Dense
pub mod Murmur
pub mod Sketch
pub mod Tests
