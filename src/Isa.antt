-- ===== src/Isa.antt =====
-- isa/isa.h: the opcodes, the decoded instruction and the classification predicates.
pub mod Decode
pub mod Encode
pub mod Execute
mod Tests
use rv_o.Base.{ℕ, Bool, true, false, ◌&&◌, ◌||◌, leb, if◌then◌else◌, ◌==◌, u8, u16}
use rv_o.Base.{◌+◌, ◌-◌, ◌^◌, ◌%◌, ltb}

-- `enum class Op`, in the order of OP_LIST.
pub data Op : Type 0 where
  lui auipc jal jalr beq bne blt bge bltu : Op
  bgeu lb lh lw lbu lhu sb sh sw : Op
  addi slti sltiu xori ori andi slli srli srai : Op
  add sub sll slt sltu xor srl sra or : Op
  and mul mulh mulhsu mulhu div divu rem remu : Op
  fence ecall ebreak illegal : Op

-- The value of the enumerator, which `>=` and `<=` on `Op` compare.
unfoldable pub code : Op → ℕ
code lui = 0
code auipc = 1
code jal = 2
code jalr = 3
code beq = 4
code bne = 5
code blt = 6
code bge = 7
code bltu = 8
code bgeu = 9
code lb = 10
code lh = 11
code lw = 12
code lbu = 13
code lhu = 14
code sb = 15
code sh = 16
code sw = 17
code addi = 18
code slti = 19
code sltiu = 20
code xori = 21
code ori = 22
code andi = 23
code slli = 24
code srli = 25
code srai = 26
code add = 27
code sub = 28
code sll = 29
code slt = 30
code sltu = 31
code xor = 32
code srl = 33
code sra = 34
code or = 35
code and = 36
code mul = 37
code mulh = 38
code mulhsu = 39
code mulhu = 40
code div = 41
code divu = 42
code rem = 43
code remu = 44
code fence = 45
code ecall = 46
code ebreak = 47
code illegal = 48

unfoldable pub between : Op → Op → Op → Bool
unfolding code
between lo hi op = leb (code lo) (code op) && leb (code op) (code hi)

-- `struct Instr`; the registers are below 32, `imm` is the bit pattern of the `int32_t`.
pub record Instr : Type 0 where
  pub op : Op
  pub rd : ℕ
  pub rs1 : ℕ
  pub rs2 : ℕ
  pub imm : ℕ
  pub raw : ℕ

unfoldable pub is_load : Op → Bool
unfolding between
is_load op = between lb lhu op

unfoldable pub is_store : Op → Bool
unfolding between
is_store op = between sb sw op

unfoldable pub is_branch : Op → Bool
unfolding between
is_branch op = between beq bgeu op

-- The cases of the `switch` in `writesRd`.
unfoldable pub is_system : Op → Bool
is_system fence = true
is_system ecall = true
is_system ebreak = true
is_system illegal = true
is_system _ = false

unfoldable pub writes_rd : Op → Bool
unfolding is_branch is_store is_system
writes_rd op = if is_branch op || is_store op then false else if is_system op then false else true

unfoldable pub uses_rs1 : Op → Bool
uses_rs1 lui = false
uses_rs1 auipc = false
uses_rs1 jal = false
uses_rs1 fence = false
uses_rs1 ecall = false
uses_rs1 ebreak = false
uses_rs1 illegal = false
uses_rs1 _ = true

unfoldable pub uses_rs2 : Op → Bool
unfolding is_branch is_store between
uses_rs2 op = is_branch op || is_store op || between add remu op

-- `enum class FuKind`
pub data FuKind : Type 0 where
  alu branch mul_unit div_unit lsu no_unit : FuKind

unfoldable pub fu_kind_of : Op → FuKind
unfolding is_load is_store is_branch between is_system code
fu_kind_of op =
    if is_load op || is_store op
    then lsu
    else if is_branch op || code op == code jal || code op == code jalr
    then branch
    else if between mul mulhu op
    then mul_unit
    else if between div remu op
    then div_unit
    else if is_system op
    then no_unit
    else alu

-- Memory access width in bytes.
unfoldable pub access_size : Op → ℕ
access_size lb = 1
access_size lbu = 1
access_size sb = 1
access_size lh = 2
access_size lhu = 2
access_size sh = 2
access_size _ = 4

-- `(uint32_t)(int32_t)(int8_t)raw`: the low byte with its sign bit copied upwards.
unfoldable pub sign_extend8 : ℕ → ℕ
sign_extend8 raw = if ltb 127 (u8 raw) then u8 raw + (2 ^ 32 - 2 ^ 8) else u8 raw

unfoldable pub sign_extend16 : ℕ → ℕ
sign_extend16 raw = if ltb 32767 (u16 raw) then u16 raw + (2 ^ 32 - 2 ^ 16) else u16 raw

unfoldable pub extend_load : Op → ℕ → ℕ
unfolding sign_extend8 sign_extend16
extend_load lb raw = sign_extend8 raw
extend_load lbu raw = u8 raw
extend_load lh raw = sign_extend16 raw
extend_load lhu raw = u16 raw
extend_load _ raw = raw
