-- ===== src/Isa/Encode.antt =====
-- The encoding of an instruction, read off the format diagrams of isa/decode.cpp and the RISC-V
-- tables: the independent description that the decoder is compared with.
pub mod RoundTrip
use rv_o.Base.{ℕ, Bool, true, false, if◌then◌else◌, ◌==◌, ◌+◌, ◌*◌, ◌/◌, ◌%◌, ◌^◌}
use rv_o.Isa.{
  Op, Instr, lui, auipc, jal, jalr, beq, bne, blt, bge, bltu, bgeu, lb, lh, lw, lbu, lhu, sb, sh,
  sw, addi, slti, sltiu, xori, ori, andi, slli, srli, srai, add, sub, sll, slt, sltu, xor, srl, sra,
  or, and, mul, mulh, mulhsu, mulhu, div, divu, rem, remu, fence, ecall, ebreak, illegal,
}

-- The formats; `shift` is the sub-format of I for shifts by an immediate, `fixed` has no fields.
pub data Format : Type 0 where
  u_type j_type i_type b_type s_type shift r_type fixed : Format

-- The constant fields of an opcode.
pub record Layout : Type 0 where
  pub format : Format
  pub opcode : ℕ
  pub funct3 : ℕ
  pub funct7 : ℕ

abbrev pub layout_of : Format → ℕ → ℕ → ℕ → Layout
layout_of f o f3 f7 = record { format = f; opcode = o; funct3 = f3; funct7 = f7 }

abbrev pub layout : Op → Layout
layout lui = layout_of u_type 0x37 0 0
layout auipc = layout_of u_type 0x17 0 0
layout jal = layout_of j_type 0x6f 0 0
layout jalr = layout_of i_type 0x67 0 0
layout beq = layout_of b_type 0x63 0 0
layout bne = layout_of b_type 0x63 1 0
layout blt = layout_of b_type 0x63 4 0
layout bge = layout_of b_type 0x63 5 0
layout bltu = layout_of b_type 0x63 6 0
layout bgeu = layout_of b_type 0x63 7 0
layout lb = layout_of i_type 0x03 0 0
layout lh = layout_of i_type 0x03 1 0
layout lw = layout_of i_type 0x03 2 0
layout lbu = layout_of i_type 0x03 4 0
layout lhu = layout_of i_type 0x03 5 0
layout sb = layout_of s_type 0x23 0 0
layout sh = layout_of s_type 0x23 1 0
layout sw = layout_of s_type 0x23 2 0
layout addi = layout_of i_type 0x13 0 0
layout slti = layout_of i_type 0x13 2 0
layout sltiu = layout_of i_type 0x13 3 0
layout xori = layout_of i_type 0x13 4 0
layout ori = layout_of i_type 0x13 6 0
layout andi = layout_of i_type 0x13 7 0
layout slli = layout_of shift 0x13 1 0
layout srli = layout_of shift 0x13 5 0
layout srai = layout_of shift 0x13 5 32
layout add = layout_of r_type 0x33 0 0
layout sll = layout_of r_type 0x33 1 0
layout slt = layout_of r_type 0x33 2 0
layout sltu = layout_of r_type 0x33 3 0
layout xor = layout_of r_type 0x33 4 0
layout srl = layout_of r_type 0x33 5 0
layout or = layout_of r_type 0x33 6 0
layout and = layout_of r_type 0x33 7 0
layout sub = layout_of r_type 0x33 0 32
layout sra = layout_of r_type 0x33 5 32
layout mul = layout_of r_type 0x33 0 1
layout mulh = layout_of r_type 0x33 1 1
layout mulhsu = layout_of r_type 0x33 2 1
layout mulhu = layout_of r_type 0x33 3 1
layout div = layout_of r_type 0x33 4 1
layout divu = layout_of r_type 0x33 5 1
layout rem = layout_of r_type 0x33 6 1
layout remu = layout_of r_type 0x33 7 1
layout fence = layout_of fixed 0x0f 0 0
layout ecall = layout_of fixed 0x73 0 0
layout ebreak = layout_of fixed 0x100073 0 0
layout illegal = layout_of fixed 0 0 0

-- The word with the given constant fields, registers and immediate.
abbrev pub assemble : Layout → ℕ → ℕ → ℕ → ℕ → ℕ
assemble l rd rs1 rs2 imm = elim l.format [
  | u_type ↦ imm / 2 ^ 12 * 2 ^ 12 + rd * 2 ^ 7 + l.opcode
  | j_type ↦
      imm / 2 ^ 20 % 2 * 2 ^ 31
      + imm / 2 % 2 ^ 10 * 2 ^ 21
      + imm / 2 ^ 11 % 2 * 2 ^ 20
      + imm / 2 ^ 12 % 2 ^ 8 * 2 ^ 12
      + rd * 2 ^ 7
      + l.opcode
  | i_type ↦ imm % 2 ^ 12 * 2 ^ 20 + rs1 * 2 ^ 15 + l.funct3 * 2 ^ 12 + rd * 2 ^ 7 + l.opcode
  | b_type ↦
      imm / 2 ^ 12 % 2 * 2 ^ 31
      + imm / 2 ^ 5 % 2 ^ 6 * 2 ^ 25
      + rs2 * 2 ^ 20
      + rs1 * 2 ^ 15
      + l.funct3 * 2 ^ 12
      + imm / 2 % 2 ^ 4 * 2 ^ 8
      + imm / 2 ^ 11 % 2 * 2 ^ 7
      + l.opcode
  | s_type ↦
      imm / 2 ^ 5 % 2 ^ 7 * 2 ^ 25
      + rs2 * 2 ^ 20
      + rs1 * 2 ^ 15
      + l.funct3 * 2 ^ 12
      + imm % 2 ^ 5 * 2 ^ 7
      + l.opcode
  | shift ↦
      l.funct7 * 2 ^ 25 + imm * 2 ^ 20 + rs1 * 2 ^ 15 + l.funct3 * 2 ^ 12 + rd * 2 ^ 7 + l.opcode
  | r_type ↦
      l.funct7 * 2 ^ 25 + rs2 * 2 ^ 20 + rs1 * 2 ^ 15 + l.funct3 * 2 ^ 12 + rd * 2 ^ 7 + l.opcode
  | fixed ↦ l.opcode
]

-- `fence` and `illegal` come from several words, so theirs is not the word decoded.
pub encode : Instr → ℕ
encode ins = assemble (layout ins.op) ins.rd ins.rs1 ins.rs2 ins.imm
