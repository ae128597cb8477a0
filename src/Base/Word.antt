-- ===== src/Base/Word.antt =====
-- Machine words as native numbers: what wraps is cut by `%`.
use Prim.Native.Nat.{ℕ, ◌+◌, ◌-◌, ◌%◌, ◌^◌}
use mathlib.Core.Bool.{Bool}
use rv_o.Base.Tests.{ltb}

abbrev pub u8 : ℕ → ℕ
u8 n = n % 2 ^ 8

abbrev pub u16 : ℕ → ℕ
u16 n = n % 2 ^ 16

abbrev pub u32 : ℕ → ℕ
u32 n = n % 2 ^ 32

abbrev pub u64 : ℕ → ℕ
u64 n = n % 2 ^ 64

-- `a - b` on `uint32_t`; both operands are below 2 ^ 32.
abbrev pub sub32 : ℕ → ℕ → ℕ
sub32 a b = (a + 2 ^ 32 - b) % 2 ^ 32

-- The sign bit of a 32-bit pattern: is `(int32_t)w` negative?
abbrev pub neg32 : ℕ → Bool
neg32 w = ltb (2 ^ 31 - 1) w
