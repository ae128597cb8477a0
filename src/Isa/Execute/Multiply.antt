-- ===== src/Isa/Execute/Multiply.antt =====
-- isa/execute.cpp: the M extension's multiplication, as integers.
use rv_o.Base.{ℕ, ◌+◌, ◌-◌, ◌*◌, ◌%◌, ◌^◌, ◌≤◌, ◌<◌, ◌≡◌, arith, ap, inl, inr, Bool-cases}
use native.Mathlib.Nat.{mul-le-mul}
use rv_o.Base.Word.{neg32}
use rv_o.Base.Int.{ℤ, pos, negsuc, ◌+ℤ◌, ◌*ℤ◌, ◌≤ℤ◌, ◌<ℤ◌, signed32, pattern32, abs}
use rv_o.Base.Int.Laws.{words-mul}
use rv_o.Isa.{mul, mulh, mulhsu, mulhu}
use rv_o.Isa.Execute.{result_value}

-- A word and its complement are 0 modulo 2 ^ 32, times any number.
complement-mul : (a b : ℕ) → a ≤ 2 ^ 32 → a * b + (2 ^ 32 - a) * b ≡ 2 ^ 32 * b
complement-mul a b h =
    let e : a + (2 ^ 32 - a) ≡ 2 ^ 32 = omega arith in omega (arith, ap (λ (t : ℕ). t * b) e)

module _ (a b : ℕ) (ha : a < 2 ^ 32) (hb : b < 2 ^ 32) where
  low_word_signed : pattern32 (signed32 a *ℤ signed32 b) ≡ a * b % 2 ^ 32
  unfolding ◌*ℤ◌
  low_word_signed = elim (Bool-cases (neg32 a)) [
    | inl na ↦ elim (Bool-cases (neg32 b)) [
      | inl nb ↦ ground (arith, complement-mul a b, complement-mul b (2 ^ 32 - a))
      | inr pb ↦ ground (arith, complement-mul a b)
    ]
    | inr pa ↦ elim (Bool-cases (neg32 b)) [
      | inl nb ↦ ground (arith, complement-mul b a)
      | inr pb ↦ ground arith
    ]
  ]

  low_word_mixed : pattern32 (signed32 a *ℤ pos b) ≡ a * b % 2 ^ 32
  unfolding ◌*ℤ◌
  low_word_mixed = elim (Bool-cases (neg32 a)) [
    | inl na ↦ ground (arith, complement-mul a b)
    | inr pa ↦ ground arith
  ]

-- A product of a signed word and a signed or unsigned word fits 64 bits.
product_range :
    (x y : ℤ)
    → abs x ≤ 2 ^ 31
    → abs y ≤ 2 ^ 32 - 1
    → (negsuc (2 ^ 63 - 1) ≤ℤ x *ℤ y) × (x *ℤ y <ℤ pos (2 ^ 63))
unfolding ◌*ℤ◌
product_range (pos m) (pos n) h k = ground (arith, mul-le-mul h k)
product_range (pos m) (negsuc n) h k = ground (arith, mul-le-mul h k)
product_range (negsuc m) (pos n) h k = ground (arith, mul-le-mul h k)
product_range (negsuc m) (negsuc n) h k = ground (arith, mul-le-mul h k)

module _ (imm pc a b : ℕ) (ha : a < 2 ^ 32) (hb : b < 2 ^ 32) where
  -- MUL gives the low word, and MULH, MULHSU and MULHU the high word, of the product of the
  -- operands read as signed, as signed and unsigned, and as unsigned integers: the two words make
  -- up the product, whatever the signs are.
  pub mul_words :
      (signed32 (result_value mulh imm pc a b) *ℤ pos (2 ^ 32) +ℤ pos (result_value mul imm pc a b)
        ≡ signed32 a *ℤ signed32 b)
      × (signed32 (result_value mulhsu imm pc a b) *ℤ pos (2 ^ 32)
            +ℤ pos (result_value mul imm pc a b)
          ≡ signed32 a *ℤ pos b)
      × (result_value mulhu imm pc a b * 2 ^ 32 + result_value mul imm pc a b ≡ a * b)
  unfolding result_value ◌*ℤ◌ ◌+ℤ◌
  mul_words =
      let small_a : abs (signed32 a) ≤ 2 ^ 31 = ground arith in
      let small_b : abs (signed32 b) ≤ 2 ^ 32 - 1 = ground arith in
      let signed = product_range (signed32 a) (signed32 b) small_a small_b in
      let mixed = product_range (signed32 a) (pos b) small_a (omega arith) in
      (
        rw (← low_word_signed a b ha hb) (words-mul (signed32 a *ℤ signed32 b) signed.0 signed.1),
        rw (← low_word_mixed a b ha hb) (words-mul (signed32 a *ℤ pos b) mixed.0 mixed.1),
        omega arith,
      )
