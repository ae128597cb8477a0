-- ===== src/Isa/Decode.antt =====
-- isa/decode.cpp: the immediates of the five formats and the decoder.
pub mod Immediates
use rv_o.Base.{
  ℕ, ◌&&◌, ◌||◌, if◌then◌else◌, ◌==◌, u32, List, [], ◌∷◌, get_or, ◌*◌, ◌/◌, ◌^◌, bit_and, bit_or,
}
use rv_o.Base.Int.{signed32, pattern32, shift_right}
use rv_o.Isa.{
  Op, Instr, lui, auipc, jal, jalr, beq, bne, blt, bge, bltu, bgeu, lb, lh, lw, lbu, lhu, sb, sh,
  sw, addi, slti, sltiu, xori, ori, andi, slli, srli, srai, add, sub, sll, slt, sltu, xor, srl, sra,
  or, and, mul, mulh, mulhsu, mulhu, div, divu, rem, remu, fence, ecall, ebreak, illegal,
}

-- `(int32_t)w >> k`, as a pattern.
unfoldable pub sar : ℕ → ℕ → ℕ
sar w k = pattern32 (shift_right (signed32 w) k)

unfoldable pub imm_i : ℕ → ℕ
unfolding sar
imm_i w = sar w 20

unfoldable pub imm_s : ℕ → ℕ
unfolding sar
imm_s w = bit_or (sar (bit_and w 0xFE000000) 20) (bit_and (w / 2 ^ 7) 0x1F)

unfoldable pub imm_b : ℕ → ℕ
unfolding sar
imm_b w =
    bit_or
      (bit_or (bit_or (sar (bit_and w 0x80000000) 19) (u32 (bit_and w 0x80 * 2 ^ 4)))
        (bit_and (w / 2 ^ 20) 0x7E0))
      (bit_and (w / 2 ^ 7) 0x1E)

unfoldable pub imm_u : ℕ → ℕ
imm_u w = bit_and w 0xFFFFF000

unfoldable pub imm_j : ℕ → ℕ
unfolding sar
imm_j w =
    bit_or
      (bit_or (bit_or (sar (bit_and w 0x80000000) 11) (bit_and w 0xFF000))
        (bit_and (w / 2 ^ 9) 0x800))
      (bit_and (w / 2 ^ 20) 0x7FE)

-- The tables of opcodes, indexed by funct3.
abbrev pub k_branch : List Op
k_branch = beq ∷ bne ∷ illegal ∷ illegal ∷ blt ∷ bge ∷ bltu ∷ bgeu ∷ []

abbrev pub k_load : List Op
k_load = lb ∷ lh ∷ lw ∷ illegal ∷ lbu ∷ lhu ∷ illegal ∷ illegal ∷ []

abbrev pub k_store : List Op
k_store = sb ∷ sh ∷ sw ∷ illegal ∷ illegal ∷ illegal ∷ illegal ∷ illegal ∷ []

abbrev pub k_op_imm : List Op
k_op_imm = addi ∷ slli ∷ slti ∷ sltiu ∷ xori ∷ srli ∷ ori ∷ andi ∷ []

abbrev pub k_op : List Op
k_op = add ∷ sll ∷ slt ∷ sltu ∷ xor ∷ srl ∷ or ∷ and ∷ []

abbrev pub k_op_alt : List Op
k_op_alt = sub ∷ illegal ∷ illegal ∷ illegal ∷ illegal ∷ sra ∷ illegal ∷ illegal ∷ []

abbrev pub k_mul_div : List Op
k_mul_div = mul ∷ mulh ∷ mulhsu ∷ mulhu ∷ div ∷ divu ∷ rem ∷ remu ∷ []

-- What the `switch` sets: the opcode and the immediate.
abbrev pub Decoded : Type 0
Decoded = Op × ℕ

-- case 0x13: the shifts keep funct7 apart, and their amount sits in the rs2 field.
unfoldable pub decode_op_imm : ℕ → ℕ → ℕ → ℕ → Decoded
unfolding imm_i
decode_op_imm w funct3 funct7 rs2 =
    if funct3 == 1 || funct3 == 5
    then (if funct3 == 5 && funct7 == 0x20
        then (srai, rs2)
        else if funct7 == 0
        then (get_or k_op_imm funct3 illegal, rs2)
        else (illegal, imm_i w))
    else (get_or k_op_imm funct3 illegal, imm_i w)

-- case 0x33
unfoldable pub decode_op : ℕ → ℕ → Decoded
decode_op funct3 funct7 =
    if funct7 == 0
    then (get_or k_op funct3 illegal, 0)
    else if funct7 == 0x20
    then (get_or k_op_alt funct3 illegal, 0)
    else if funct7 == 1
    then (get_or k_mul_div funct3 illegal, 0)
    else (illegal, 0)

-- case 0x73
unfoldable pub decode_system : ℕ → Decoded
decode_system w =
    if w == 0x73 then (ecall, 0) else if w == 0x100073 then (ebreak, 0) else (illegal, 0)

-- The `switch` on the opcode field.
unfoldable pub decode_fields : ℕ → ℕ → ℕ → ℕ → ℕ → Decoded
unfolding decode_op_imm decode_op decode_system imm_i imm_s imm_b imm_u imm_j
decode_fields w opcode funct3 funct7 rs2 =
    if opcode == 0x37
    then (lui, imm_u w)
    else if opcode == 0x17
    then (auipc, imm_u w)
    else if opcode == 0x6F
    then (jal, imm_j w)
    else if opcode == 0x67
    then (if funct3 == 0 then (jalr, imm_i w) else (illegal, 0))
    else if opcode == 0x63
    then (get_or k_branch funct3 illegal, imm_b w)
    else if opcode == 0x03
    then (get_or k_load funct3 illegal, imm_i w)
    else if opcode == 0x23
    then (get_or k_store funct3 illegal, imm_s w)
    else if opcode == 0x13
    then decode_op_imm w funct3 funct7 rs2
    else if opcode == 0x33
    then decode_op funct3 funct7
    else if opcode == 0x0F
    then (fence, 0)
    else if opcode == 0x73
    then decode_system w
    else (illegal, 0)

unfoldable pub decode : ℕ → Instr
decode w =
    let rs2 = bit_and (w / 2 ^ 20) 31 in
    let (op, imm) = decode_fields w (bit_and w 0x7F) (bit_and (w / 2 ^ 12) 7) (w / 2 ^ 25) rs2 in
    record {
      op = op;
      rd = bit_and (w / 2 ^ 7) 31;
      rs1 = bit_and (w / 2 ^ 15) 31;
      rs2 = rs2;
      imm = imm;
      raw = w;
    }
