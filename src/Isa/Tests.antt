-- ===== src/Isa/Tests.antt =====
-- The instruction set on concrete words.
use rv_o.Base.{ℕ, ◌+◌, ◌*◌, ◌%◌, ◌^◌, ◌<◌, ◌≡◌, refl, arith, true}
use rv_o.Base.Int.{pos, negsuc, ◌+ℤ◌, ◌*ℤ◌, ◌≤ℤ◌, signed32, abs}
use rv_o.Isa.{addi, jalr, mul, mulh, mulhsu, mulhu}
use rv_o.Isa.Decode.{decode, decode_fields}
use rv_o.Isa.Encode.{encode}
use rv_o.Isa.Encode.RoundTrip.{encode-decode}
use rv_o.Isa.Execute.{execute, divide, remainder, result_value}
use rv_o.Isa.Execute.Division.{IsRegular, divide-remainder}
use rv_o.Isa.Execute.Multiply.{mul_words}
use rv_o.Isa.Execute.Range.{decode_range, target-even}

-- addi a0, a0, -1
abbrev addi_word : ℕ
addi_word = 0xfff50513

decode_addi :
    decode addi_word
    ≡ record { op = addi; rd = 10; rs1 = 10; rs2 = 31; imm = 0xffffffff; raw = addi_word }
unfolding decode decode_fields
decode_addi = refl

encode-decode_example : encode (decode addi_word) ≡ addi_word
encode-decode_example =
    encode-decode addi_word (omega arith) (unfold decode decode_fields in cc)
      (unfold decode decode_fields in cc)

execute_jalr :
    execute (record { op = jalr; rd = 1; rs1 = 5; rs2 = 0; imm = 0xffffffff; raw = 0 }) 8 0x104 0
    ≡ record { value = 12; redirect = true; target = 0x102 }
unfolding execute
execute_jalr = refl

-- -7 / 2 and -7 % 2
divide_negative : (divide 0xfffffff9 2 ≡ 0xfffffffd) × (remainder 0xfffffff9 2 ≡ 0xffffffff)
unfolding divide remainder
divide_negative = (refl, refl)

regular : IsRegular 0xfffffff9 2
regular = record {
  a_word = omega arith;
  b_word = omega arith;
  nonzero = omega arith;
  in_range = λ e. omega arith;
}

divide-remainder_example :
    (signed32 (divide 0xfffffff9 2) *ℤ signed32 2 +ℤ signed32 (remainder 0xfffffff9 2) ≡ negsuc 6)
    × (abs (signed32 (remainder 0xfffffff9 2)) < 2)
    × (pos 0 ≤ℤ negsuc 6 → pos 0 ≤ℤ signed32 (remainder 0xfffffff9 2))
    × (negsuc 6 ≤ℤ pos 0 → signed32 (remainder 0xfffffff9 2) ≤ℤ pos 0)
divide-remainder_example = divide-remainder 0xfffffff9 2 regular

mul_words_example :
    (signed32 (result_value mulh 0 0 0xfffffff9 3) *ℤ pos (2 ^ 32)
        +ℤ pos (result_value mul 0 0 0xfffffff9 3)
      ≡ negsuc 6 *ℤ pos 3)
    × (signed32 (result_value mulhsu 0 0 0xfffffff9 3) *ℤ pos (2 ^ 32)
          +ℤ pos (result_value mul 0 0 0xfffffff9 3)
        ≡ negsuc 6 *ℤ pos 3)
    × (result_value mulhu 0 0 0xfffffff9 3 * 2 ^ 32 + result_value mul 0 0 0xfffffff9 3
        ≡ 0xfffffff9 * 3)
mul_words_example = mul_words 0 0 0xfffffff9 3 (omega arith) (omega arith)

-- `beq x5, x6, 8` at 0x1000
decode_range_example :
    ((decode 0x00628463).rd < 32)
    × ((decode 0x00628463).rs1 < 32)
    × ((decode 0x00628463).rs2 < 32)
    × ((decode 0x00628463).imm < 2 ^ 32)
decode_range_example = decode_range 0x00628463 (omega arith)

-- The same branch at 0x1000, taken.
target-even_example : (execute (decode 0x00628463) 0x1000 3 3).target % 2 ≡ 0
target-even_example = target-even 0x00628463 0x1000 3 3 (omega arith) refl
