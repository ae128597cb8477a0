-- ===== src/Doom/Fixed.antt =====
-- doom/fixed.c: 16.16 fixed-point division without a 64-bit division where the divisor is small.
-- A `fixed_t` is its 32-bit pattern.
mod Tests
use rv_o.Base.{
  ℕ, ◌+◌, ◌-◌, ◌*◌, ◌/◌, ◌%◌, ◌^◌, ◌≤◌, ◌<◌, ◌≡◌, arith, leb, if◌then◌else◌, u32, neg32, sub32,
  bit_xor, Bool-cases, inl, inr, refl, ◌==◌, Option, none, some, ap, ◌∙◌,
}
use native.Mathlib.Nat.{mul-add-div_right, div-add-mod, mod-lt, mul_comm}

-- `abs` of an `int`, which C leaves undefined at INT_MIN.
unfoldable pub abs_int : ℕ → Option ℕ
abs_int x = if x == 0x80000000 then none else some (if neg32 x then sub32 0 x else x)

-- `ua` and `ub`, which are defined for every pattern.
abbrev pub magnitude : ℕ → ℕ
magnitude x = if neg32 x then sub32 0 x else x

-- The quotient of the magnitudes.
unfoldable pub divide_magnitudes : ℕ → ℕ → ℕ
divide_magnitudes ua ub =
    let whole = ua / ub in
    let rest = sub32 ua (u32 (whole * ub)) in
    if leb ub 0xFFFF
    then u32 (u32 (whole * 2 ^ 16) + u32 (rest * 2 ^ 16) / ub)
    else u32 (ua * 2 ^ 16 / ub)

-- The division where both absolute values are defined.
abbrev pub divide_or_saturate : ℕ → ℕ → ℕ → ℕ → ℕ
divide_or_saturate a b abs_a abs_b =
    let q = divide_magnitudes (magnitude a) (magnitude b) in
    if leb abs_b (abs_a / 2 ^ 14)
    then if neg32 (bit_xor a b) then 0x80000000 else 0x7FFFFFFF
    else if neg32 (bit_xor a b)
    then sub32 0 q
    else q

-- `__wrap_FixedDiv`: none where it is undefined.
unfoldable pub fixed_div : ℕ → ℕ → Option ℕ
unfolding abs_int divide_magnitudes
fixed_div a b = elim (abs_int a) [
  | none ↦ none
  | some abs_a ↦ elim (abs_int b) [
    | none ↦ none
    | some abs_b ↦ some (divide_or_saturate a b abs_a abs_b)
  ]
]

regroup : (q ub : ℕ) → q * 2 ^ 16 * ub ≡ q * ub * 2 ^ 16
regroup q ub = grind arith

-- What the whole part leaves is less than the divisor.
whole-le : (ua ub : ℕ) → 0 < ub → (ua / ub * ub ≤ ua) × (ua - ua / ub * ub < ub)
whole-le ua ub p = omega (arith, div-add-mod ua ub, mod-lt ua p, mul_comm (ua / ub) ub)

-- Dividing in two steps.
split_quotient :
    (ua ub : ℕ) → 0 < ub → ua * 2 ^ 16 / ub ≡ ua / ub * 2 ^ 16 + (ua - ua / ub * ub) * 2 ^ 16 / ub
split_quotient ua ub p =
    let parts : ua * 2 ^ 16 ≡ ua / ub * 2 ^ 16 * ub + (ua - ua / ub * ub) * 2 ^ 16 =
      omega (arith, regroup (ua / ub) ub, whole-le ua ub p) in
    ap (λ n. n / ub) parts ∙ mul-add-div_right p (ua / ub * 2 ^ 16) ((ua - ua / ub * ub) * 2 ^ 16)

-- On 32-bit magnitudes with a divisor that is not 0, both branches compute the low word of the
-- quotient of the 48-bit dividend: the two 32-bit divisions lose nothing.
pub divide_magnitudes_lem :
    (ua ub : ℕ) → ua < 2 ^ 32 → 0 < ub → divide_magnitudes ua ub ≡ ua * 2 ^ 16 / ub % 2 ^ 32
unfolding divide_magnitudes
divide_magnitudes_lem ua ub h p = elim (Bool-cases (leb ub 0xFFFF)) [
  | inl s ↦
      let w = ua / ub * ub in
      let (le, lt) = whole-le ua ub p in
      let r : sub32 ua (u32 w) ≡ ua - w = omega arith in
      let fits : u32 ((ua - w) * 2 ^ 16) ≡ (ua - w) * 2 ^ 16 = ground arith in
      rw s (rw r (rw fits (omega (arith, split_quotient ua ub p))))
  | inr s ↦ rw s refl
]
