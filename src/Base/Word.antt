-- ===== src/Base/Word.antt =====
-- Machine words: uint64_t, and size_t on a 64-bit platform.
use Prim.Native.Nat.{ℕ, ◌%◌}

abbrev pub u64_mod : ℕ
u64_mod = 18446744073709551616

abbrev pub u64_max : ℕ
u64_max = 18446744073709551615

-- The result of an unsigned 64-bit operation.
abbrev pub u64 : ℕ → ℕ
u64 n = n % u64_mod

-- The result of an unsigned 32-bit operation.
abbrev pub u32 : ℕ → ℕ
u32 n = n % 4294967296
