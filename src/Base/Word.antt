-- ===== src/Base/Word.antt =====
-- 32-bit and 64-bit unsigned arithmetic: a word is a number below its modulus.
use Prim.Native.Nat.{ℕ, ◌+◌, ◌-◌, ◌*◌, ◌%◌, ◌<◌}

-- `std::numeric_limits<std::uint32_t>::max()`
abbrev pub u32_max : ℕ
u32_max = 0xffff_ffff

abbrev pub u64_max : ℕ
u64_max = 0xffff_ffff_ffff_ffff

-- Wrapping addition of two words.
abbrev pub add32 : ℕ → ℕ → ℕ
add32 a b = (a + b) % 0x1_0000_0000

abbrev pub mul32 : ℕ → ℕ → ℕ
mul32 a b = (a * b) % 0x1_0000_0000

-- Wrapping subtraction: the modulus is added first, since `-` stops at 0.
abbrev pub sub32 : ℕ → ℕ → ℕ
sub32 a b = (a + 0x1_0000_0000 - b) % 0x1_0000_0000

abbrev pub add64 : ℕ → ℕ → ℕ
add64 a b = (a + b) % 0x1_0000_0000_0000_0000

-- The type's range.
abbrev pub IsU32 : ℕ → Type 0
IsU32 n = n < 0x1_0000_0000

abbrev pub IsU64 : ℕ → Type 0
IsU64 n = n < 0x1_0000_0000_0000_0000
