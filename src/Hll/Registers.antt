-- ===== src/Hll/Registers.antt =====
-- The abstract sketch, which both forms implement: 16384 registers that only ever grow.
use learning_redis.Common.{ℕ, ◌==◌, if◌then◌else◌, max}

-- `1 << p` with p = 14.
abbrev pub registers : ℕ
registers = 16384

abbrev pub register_max : ℕ
register_max = 63

abbrev pub Registers : Type 0
Registers = ℕ → ℕ

-- Register `i` becomes at least `val`.
abbrev pub grow : Registers → ℕ → ℕ → Registers
grow f i val j = if j == i then max (f j) val else f j

-- The elementwise maximum.
abbrev pub union : Registers → Registers → Registers
union f g j = max (f j) (g j)
