-- ===== src/Base/Int.antt =====
-- Signed integers over the native numbers, under the library's names, for what the patterns of
-- signed machine words stand for.
pub mod Laws
use rv_o.Base.Tests.{ltb, leb, if◌then◌else◌}
use rv_o.Base.Word.{neg32}
use Prim.Native.Nat.{ℕ, suc, ◌+◌, ◌-◌, ◌*◌, ◌/◌, ◌%◌, ◌^◌, ◌≤◌, ◌<◌}
use mathlib.Core.Path.{◌≡◌}
use mathlib.Core.Bool.{Bool}
use native.Mathlib.Omega.{arith}

-- `negsuc n` is -(n + 1).
pub data ℤ : Type 0 where
  pos : ℕ → ℤ
  negsuc : ℕ → ℤ

abbrev pub pos_part : ℤ → ℕ
pos_part (pos n) = n
pos_part (negsuc n) = 0

abbrev pub neg_part : ℤ → ℕ
neg_part (pos n) = 0
neg_part (negsuc n) = suc n

-- a - b, as an integer.
abbrev pub sub_ℕ : ℕ → ℕ → ℤ
sub_ℕ a b = if leb b a then pos (a - b) else negsuc (b - a - 1)

infixl 65 ◌+ℤ◌ ◌-ℤ◌
infixl 70 ◌*ℤ◌
infix 50 ◌≤ℤ◌ ◌<ℤ◌
unfoldable pub ◌+ℤ◌ : ℤ → ℤ → ℤ
a +ℤ b = sub_ℕ (pos_part a + pos_part b) (neg_part a + neg_part b)

unfoldable pub ◌-ℤ◌ : ℤ → ℤ → ℤ
a -ℤ b = sub_ℕ (pos_part a + neg_part b) (neg_part a + pos_part b)

unfoldable pub ◌*ℤ◌ : ℤ → ℤ → ℤ
a *ℤ b =
    sub_ℕ (pos_part a * pos_part b + neg_part a * neg_part b)
      (pos_part a * neg_part b + neg_part a * pos_part b)

abbrev pub ◌≤ℤ◌ : ℤ → ℤ → Type 0
a ≤ℤ b = pos_part a + neg_part b ≤ pos_part b + neg_part a

abbrev pub ◌<ℤ◌ : ℤ → ℤ → Type 0
a <ℤ b = pos_part a + neg_part b < pos_part b + neg_part a

-- What a 32-bit pattern stands for when it is read as an `int32_t`.
abbrev pub signed32 : ℕ → ℤ
signed32 w = if neg32 w then negsuc (2 ^ 32 - 1 - w) else pos w

-- The 32-bit pattern of an integer, the cast to `uint32_t`.
abbrev pub pattern32 : ℤ → ℕ
pattern32 (pos n) = n % 2 ^ 32
pattern32 (negsuc n) = 2 ^ 32 - 1 - n % 2 ^ 32

abbrev pub ltb_ℤ : ℤ → ℤ → Bool
ltb_ℤ a b = ltb (pos_part a + neg_part b) (pos_part b + neg_part a)

-- `a >> k` on a signed integer rounds down.
abbrev pub shift_right : ℤ → ℕ → ℤ
shift_right (pos n) k = pos (n / 2 ^ k)
shift_right (negsuc n) k = negsuc (n / 2 ^ k)

-- Minus a number.
abbrev pub neg : ℕ → ℤ
neg n = sub_ℕ 0 n

-- `a / b` of C, cut towards zero; `a % b` has the sign of `a`.
abbrev pub tdiv : ℤ → ℤ → ℤ
tdiv (pos a) (pos b) = pos (a / b)
tdiv (pos a) (negsuc b) = neg (a / suc b)
tdiv (negsuc a) (pos b) = neg (suc a / b)
tdiv (negsuc a) (negsuc b) = pos (suc a / suc b)

-- The absolute value.
abbrev pub abs : ℤ → ℕ
abs (pos n) = n
abs (negsuc n) = suc n

abbrev pub tmod : ℤ → ℤ → ℤ
tmod (pos a) (pos b) = pos (a % b)
tmod (pos a) (negsuc b) = pos (a % suc b)
tmod (negsuc a) (pos b) = neg (suc a % b)
tmod (negsuc a) (negsuc b) = neg (suc a % suc b)

pub eq_of_parts : (a b : ℤ) → pos_part a + neg_part b ≡ pos_part b + neg_part a → a ≡ b
eq_of_parts a b h = ground arith
