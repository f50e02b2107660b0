-- ===== src/Common/Words.antt =====
-- The unsigned integers of C: a value is a native number, and what wraps is reduced by `%`.
use Prim.Native.Nat.{ℕ, ◌+◌, ◌-◌, ◌%◌, ◌^◌}

abbrev pub u32 : ℕ → ℕ
u32 n = n % 2 ^ 32

abbrev pub u64 : ℕ → ℕ
u64 n = n % 2 ^ 64

-- `a - b` and `a--` on uint64_t, for values below 2 ^ 64: `-` on ℕ stops at 0, so the modulus is
-- added first.
abbrev pub u64_sub : ℕ → ℕ → ℕ
u64_sub a b = (a + 2 ^ 64 - b) % 2 ^ 64

-- The same on uint32_t, for values below 2 ^ 32.
abbrev pub u32_sub : ℕ → ℕ → ℕ
u32_sub a b = (a + 2 ^ 32 - b) % 2 ^ 32
