-- ===== src/Isa/Execute.antt =====
-- isa/execute.cpp: the value, the direction and the target of one instruction.
pub mod Division
pub mod Range
mod Sums
pub mod Multiply
use rv_o.Base.{
  ℕ, Bool, true, false, ◌&&◌, not, if◌then◌else◌, ◌==◌, ltb, leb, u32, sub32, ◌+◌, ◌-◌, ◌*◌, ◌/◌,
  ◌%◌, ◌^◌, bit_and, bit_or, bit_xor,
}
use rv_o.Base.Int.{ℤ, pos, ◌*ℤ◌, signed32, pattern32, ltb_ℤ, shift_right, tdiv, tmod}
use rv_o.Isa.{
  Op, Instr, is_branch, lui, auipc, jal, jalr, beq, bne, blt, bge, bltu, bgeu, lb, lh, lw, lbu, lhu,
  sb, sh, sw, addi, slti, sltiu, xori, ori, andi, slli, srli, srai, add, sub, sll, slt, sltu, xor,
  srl, sra, or, and, mul, mulh, mulhsu, mulhu, div, divu, rem, remu,
}

-- `struct ExecResult`
pub record ExecResult : Type 0 where
  pub value : ℕ
  pub redirect : Bool
  pub target : ℕ

-- A Boolean stored into the `uint32_t` value.
unfoldable pub flag : Bool → ℕ
flag true = 1
flag false = 0

-- `~1u` clears the lowest bit.
unfoldable pub clear_bit0 : ℕ → ℕ
clear_bit0 w = bit_and w (2 ^ 32 - 2)

-- Division is defined on every input: by zero, and for the one quotient that overflows.
unfoldable pub divide : ℕ → ℕ → ℕ
divide a b =
    if b == 0
    then 2 ^ 32 - 1
    else if a == 2 ^ 31 && b == 2 ^ 32 - 1
    then a
    else pattern32 (tdiv (signed32 a) (signed32 b))

unfoldable pub remainder : ℕ → ℕ → ℕ
remainder a b =
    if b == 0
    then a
    else if a == 2 ^ 31 && b == 2 ^ 32 - 1
    then 0
    else pattern32 (tmod (signed32 a) (signed32 b))

-- `(uint32_t)((int64_t)x >> 32)` of a 64-bit product.
unfoldable pub high_word : ℤ → ℕ
high_word x = pattern32 (shift_right x 32)

-- `out.value`, by the `switch`; the branches and the system instructions leave it 0.
unfoldable pub result_value : Op → ℕ → ℕ → ℕ → ℕ → ℕ
unfolding flag high_word divide remainder ◌*ℤ◌
result_value lui imm _ _ _ = imm
result_value auipc imm pc _ _ = u32 (pc + imm)
result_value jal _ pc _ _ = u32 (pc + 4)
result_value jalr _ pc _ _ = u32 (pc + 4)
result_value lb imm _ a _ = u32 (a + imm)
result_value lh imm _ a _ = u32 (a + imm)
result_value lw imm _ a _ = u32 (a + imm)
result_value lbu imm _ a _ = u32 (a + imm)
result_value lhu imm _ a _ = u32 (a + imm)
result_value sb imm _ a _ = u32 (a + imm)
result_value sh imm _ a _ = u32 (a + imm)
result_value sw imm _ a _ = u32 (a + imm)
result_value addi imm _ a _ = u32 (a + imm)
result_value slti imm _ a _ = flag (ltb_ℤ (signed32 a) (signed32 imm))
result_value sltiu imm _ a _ = flag (ltb a imm)
result_value xori imm _ a _ = bit_xor a imm
result_value ori imm _ a _ = bit_or a imm
result_value andi imm _ a _ = bit_and a imm
result_value slli imm _ a _ = u32 (a * 2 ^ (imm % 32))
result_value srli imm _ a _ = a / 2 ^ (imm % 32)
result_value srai imm _ a _ = pattern32 (shift_right (signed32 a) (imm % 32))
result_value add _ _ a b = u32 (a + b)
result_value sub _ _ a b = sub32 a b
result_value sll _ _ a b = u32 (a * 2 ^ (b % 32))
result_value slt _ _ a b = flag (ltb_ℤ (signed32 a) (signed32 b))
result_value sltu _ _ a b = flag (ltb a b)
result_value xor _ _ a b = bit_xor a b
result_value srl _ _ a b = a / 2 ^ (b % 32)
result_value sra _ _ a b = pattern32 (shift_right (signed32 a) (b % 32))
result_value or _ _ a b = bit_or a b
result_value and _ _ a b = bit_and a b
result_value mul _ _ a b = u32 (a * b)
result_value mulh _ _ a b = high_word (signed32 a *ℤ signed32 b)
result_value mulhsu _ _ a b = high_word (signed32 a *ℤ pos b)
result_value mulhu _ _ a b = a * b / 2 ^ 32
result_value div _ _ a b = divide a b
result_value divu _ _ a b = if b == 0 then 2 ^ 32 - 1 else a / b
result_value rem _ _ a b = remainder a b
result_value remu _ _ a b = if b == 0 then a else a % b
result_value _ _ _ _ _ = 0

-- `out.redirect`
unfoldable pub redirects : Op → ℕ → ℕ → Bool
redirects jal a b = true
redirects jalr a b = true
redirects beq a b = a == b
redirects bne a b = not (a == b)
redirects blt a b = ltb_ℤ (signed32 a) (signed32 b)
redirects bge a b = not (ltb_ℤ (signed32 a) (signed32 b))
redirects bltu a b = ltb a b
redirects bgeu a b = leb b a
redirects _ a b = false

-- The target that the `switch` sets, for the two jumps.
unfoldable pub jump_target : Op → ℕ → ℕ → ℕ → ℕ
unfolding clear_bit0
jump_target jal imm pc a = u32 (pc + imm)
jump_target jalr imm pc a = clear_bit0 (u32 (a + imm))
jump_target _ imm pc a = 0

unfoldable pub execute : Instr → ℕ → ℕ → ℕ → ExecResult
unfolding result_value redirects jump_target is_branch
execute ins pc a b =
    let taken = redirects ins.op a b in
    record {
      value = result_value ins.op ins.imm pc a b;
      redirect = taken;
      target =
          if is_branch ins.op && taken then u32 (pc + ins.imm) else jump_target ins.op ins.imm pc a;
    }
