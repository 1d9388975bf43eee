-- ===== src/Base/Words.antt =====
-- Machine words: a w-bit integer is a number below 2 ^ w, and wrap-around is written out.
use Prim.Native.Nat.{ℕ, ◌-◌, ◌%◌, ◌^◌}

abbrev pub u8 : ℕ → ℕ
u8 n = n % 2 ^ 8

abbrev pub u16 : ℕ → ℕ
u16 n = n % 2 ^ 16

abbrev pub u32 : ℕ → ℕ
u32 n = n % 2 ^ 32

abbrev pub u64 : ℕ → ℕ
u64 n = n % 2 ^ 64

-- `-n` on a 64-bit word.
abbrev pub neg64 : ℕ → ℕ
neg64 n = (2 ^ 64 - n) % 2 ^ 64
