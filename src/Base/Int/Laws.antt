-- ===== src/Base/Int/Laws.antt =====
-- Division and the 32-bit patterns of integers.
use rv_o.Base.{ℕ, zero, suc, ◌-◌, ◌^◌, ◌<◌, ◌≡◌, ◌≢◌, arith}
use native.Mathlib.Nat.{div-lt_self, div-add-mod, mod-lt, div-le_self}
use rv_o.Base.Int.{
  ℤ, pos, negsuc, abs, ◌+ℤ◌, ◌*ℤ◌, ◌≤ℤ◌, ◌<ℤ◌, signed32, pattern32, tdiv, tmod, shift_right,
}

-- An integer in the range of `int32_t` is what its pattern stands for.
pub signed32-pattern32 :
    (z : ℤ) → negsuc (2 ^ 31 - 1) ≤ℤ z → z <ℤ pos (2 ^ 31) → signed32 (pattern32 z) ≡ z
signed32-pattern32 (pos n) lo hi = ground arith
signed32-pattern32 (negsuc n) lo hi = ground arith

pub pattern32-signed32 : (w : ℕ) → w < 2 ^ 32 → pattern32 (signed32 w) ≡ w
pattern32-signed32 w h = ground arith

pub pattern32-lt : (z : ℤ) → pattern32 z < 2 ^ 32
pattern32-lt (pos n) = omega arith
pattern32-lt (negsuc n) = omega arith

-- Quotient times divisor plus remainder is the dividend.
pub tdiv-tmod : (x y : ℤ) → y ≢ pos 0 → tdiv x y *ℤ y +ℤ tmod x y ≡ x
unfolding ◌*ℤ◌ ◌+ℤ◌
tdiv-tmod (pos a) (pos b) h = ground (arith, div-add-mod a b)
tdiv-tmod (pos a) (negsuc b) h = ground (arith, div-add-mod a (suc b))
tdiv-tmod (negsuc a) (pos b) h = ground (arith, div-add-mod (suc a) b)
tdiv-tmod (negsuc a) (negsuc b) h = ground (arith, div-add-mod (suc a) (suc b))

-- The remainder is smaller than the divisor and has the sign of the dividend.
pub tmod_bounds :
    (x y : ℤ)
    → y ≢ pos 0
    → (abs (tmod x y) < abs y) × (pos 0 ≤ℤ x → pos 0 ≤ℤ tmod x y) × (x ≤ℤ pos 0 → tmod x y ≤ℤ pos 0)
tmod_bounds (pos a) (pos b) h =
    (ground (arith, mod-lt a {m = b}), λ p. ground arith, λ p. ground arith)
tmod_bounds (pos a) (negsuc b) h = (ground arith, λ p. ground arith, λ p. ground arith)
tmod_bounds (negsuc a) (pos b) h =
    (ground (arith, mod-lt (suc a) {m = b}), λ p. ground arith, λ p. ground arith)
tmod_bounds (negsuc a) (negsuc b) h = (ground arith, λ p. ground arith, λ p. ground arith)

pub abs_range : (z : ℤ) → abs z < 2 ^ 31 → (negsuc (2 ^ 31 - 1) ≤ℤ z) × (z <ℤ pos (2 ^ 31))
abs_range (pos n) h = omega arith
abs_range (negsuc n) h = omega arith

-- A product is put together again from its two words.
pub words-mul :
    (z : ℤ)
    → negsuc (2 ^ 63 - 1) ≤ℤ z
    → z <ℤ pos (2 ^ 63)
    → signed32 (pattern32 (shift_right z 32)) *ℤ pos (2 ^ 32) +ℤ pos (pattern32 z) ≡ z
unfolding ◌*ℤ◌ ◌+ℤ◌
words-mul (pos n) lo hi = ground arith
words-mul (negsuc n) lo hi = ground arith

-- Only the least `int32_t` divided by -1 leaves the range.
pub tdiv_range :
    (x y : ℤ)
    → negsuc (2 ^ 31 - 1) ≤ℤ x
    → x <ℤ pos (2 ^ 31)
    → y ≢ pos 0
    → (x ≡ negsuc (2 ^ 31 - 1) → y ≢ negsuc 0)
    → (negsuc (2 ^ 31 - 1) ≤ℤ tdiv x y) × (tdiv x y <ℤ pos (2 ^ 31))
tdiv_range (pos a) (pos b) lo hi nz ov = ground (arith, div-le_self a b)
tdiv_range (pos a) (negsuc b) lo hi nz ov = ground (arith, div-le_self a (suc b))
tdiv_range (negsuc a) (pos b) lo hi nz ov = ground (arith, div-le_self (suc a) b)
tdiv_range (negsuc a) (negsuc zero) lo hi nz ov = ground arith
tdiv_range (negsuc a) (negsuc (suc b)) lo hi nz ov =
    ground (arith, div-lt_self {n = suc a} {k = suc (suc b)} (omega arith) (omega arith))
