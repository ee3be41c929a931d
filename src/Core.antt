-- ===== src/Core.antt =====
-- core/: the RESP protocol and the append-only file.
pub mod Encode
pub mod Decode
pub mod Frame
pub mod Aof
pub mod Tests
