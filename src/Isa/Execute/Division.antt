-- ===== src/Isa/Execute/Division.antt =====
-- isa/execute.cpp: the M extension's division, as integers.
use rv_o.Base.{ℕ, ◌-◌, ◌^◌, ◌≤◌, ◌<◌, ◌≡◌, ◌≢◌, arith, ◌∙◌, ap}
use rv_o.Base.Int.{pos, negsuc, ◌+ℤ◌, ◌*ℤ◌, ◌≤ℤ◌, ◌<ℤ◌, signed32, pattern32, tdiv, tmod, abs}
use rv_o.Base.Int.Laws.{signed32-pattern32, tdiv-tmod, tmod_bounds, tdiv_range, abs_range}
use rv_o.Isa.Execute.{divide, remainder}

-- The operands of a division that has neither a zero divisor nor an overflow.
pub record IsRegular (a b : ℕ) : Type 0 where
  pub a_word : a < 2 ^ 32
  pub b_word : b < 2 ^ 32
  pub nonzero : b ≢ 0
  pub in_range : a ≡ 2 ^ 31 → b ≢ 2 ^ 32 - 1

module _ (a b : ℕ) (r : IsRegular a b) where
  signed32-ne-zero : signed32 b ≢ pos 0
  signed32-ne-zero = λ e. ground (arith, r.nonzero)

  signed32_overflow : signed32 a ≡ negsuc (2 ^ 31 - 1) → signed32 b ≢ negsuc 0
  signed32_overflow = λ e f. ground (arith, r.in_range)

  signed32_range : (negsuc (2 ^ 31 - 1) ≤ℤ signed32 a) × (signed32 a <ℤ pos (2 ^ 31))
  signed32_range = ground arith

  divide_regular : divide a b ≡ pattern32 (tdiv (signed32 a) (signed32 b))
  unfolding divide
  divide_regular = ground (arith, r.nonzero, r.in_range)

  remainder_regular : remainder a b ≡ pattern32 (tmod (signed32 a) (signed32 b))
  unfolding remainder
  remainder_regular = ground (arith, r.nonzero, r.in_range)

  signed32-divide : signed32 (divide a b) ≡ tdiv (signed32 a) (signed32 b)
  signed32-divide =
      let range =
        tdiv_range (signed32 a) (signed32 b) signed32_range.0 signed32_range.1 signed32-ne-zero
          signed32_overflow in
      ap signed32 divide_regular
      ∙ signed32-pattern32 (tdiv (signed32 a) (signed32 b)) range.0 range.1

  signed32-remainder : signed32 (remainder a b) ≡ tmod (signed32 a) (signed32 b)
  signed32-remainder =
      let bounds = tmod_bounds (signed32 a) (signed32 b) signed32-ne-zero in
      let small : abs (signed32 b) ≤ 2 ^ 31 = ground arith in
      let range = abs_range (tmod (signed32 a) (signed32 b)) (omega (arith, bounds.0)) in
      ap signed32 remainder_regular
      ∙ signed32-pattern32 (tmod (signed32 a) (signed32 b)) range.0 range.1

  -- DIV and REM on operands with a divisor other than 0 and no overflow: as signed integers, the
  -- quotient times the divisor plus the remainder is the dividend, the remainder is smaller than
  -- the divisor in absolute value, and it is not of the opposite sign to the dividend.
  pub divide-remainder :
      (signed32 (divide a b) *ℤ signed32 b +ℤ signed32 (remainder a b) ≡ signed32 a)
      × (abs (signed32 (remainder a b)) < abs (signed32 b))
      × (pos 0 ≤ℤ signed32 a → pos 0 ≤ℤ signed32 (remainder a b))
      × (signed32 a ≤ℤ pos 0 → signed32 (remainder a b) ≤ℤ pos 0)
  divide-remainder =
      rw (signed32-divide, signed32-remainder)
        (let bounds = tmod_bounds (signed32 a) (signed32 b) signed32-ne-zero in
          (tdiv-tmod (signed32 a) (signed32 b) signed32-ne-zero, bounds.0, bounds.1, bounds.2))
