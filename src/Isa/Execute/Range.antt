-- ===== src/Isa/Execute/Range.antt =====
-- isa/decode.cpp, isa/execute.cpp: the fields that decode fills, and where control goes.
use rv_o.Base.{
  ℕ, zero, suc, Bool, true, false, ◌&&◌, ◌||◌, ◌==◌, ◌≡◌, refl, if-both, if◌then◌else◌, u32, get_or,
  bit_and_step, ◌+◌, ◌-◌, ◌/◌, ◌%◌, ◌^◌, ◌<◌, arith, bit_and, bit_and_mask,
}
use rv_o.Isa.{
  Op, is_branch, lui, auipc, jal, jalr, beq, bne, blt, bge, bltu, bgeu, srai, fence, ecall, ebreak,
  illegal,
}
use rv_o.Isa.Decode.{
  Decoded, imm_i, imm_b, imm_j, k_load, k_store, k_op_imm, k_op, k_op_alt, k_mul_div, decode,
  decode_fields, decode_op, decode_op_imm, decode_system,
}
use rv_o.Isa.Decode.Immediates.{imm_i_lem, imm_s_lem, imm_b_lem, imm_u_lem, imm_j_lem}
use rv_o.Isa.Execute.{clear_bit0, jump_target, redirects, execute}

-- An immediate is one of the five formats', the shift amount or 0.
decode_fields_lt :
    (w o f3 f7 rs2 : ℕ) → w < 2 ^ 32 → rs2 < 2 ^ 5 → (decode_fields w o f3 f7 rs2).1 < 2 ^ 32
unfolding decode_fields decode_op decode_op_imm decode_system
decode_fields_lt w o f3 f7 rs2 h k =
    ground (arith, imm_i_lem w h, imm_s_lem w h, imm_b_lem w h, imm_u_lem w h, imm_j_lem w h)

-- Whatever a 32-bit word decodes to, its registers are below 32 and its immediate is a 32-bit word.
pub decode_range :
    (w : ℕ)
    → w < 2 ^ 32
    → ((decode w).rd < 32)
      × ((decode w).rs1 < 32)
      × ((decode w).rs2 < 32)
      × ((decode w).imm < 2 ^ 32)
unfolding decode
decode_range w h = (
  rw (bit_and_mask 5 (w / 2 ^ 7)) (omega arith),
  rw (bit_and_mask 5 (w / 2 ^ 15)) (omega arith),
  rw (bit_and_mask 5 (w / 2 ^ 20)) (omega arith),
  rw (bit_and_mask 5 (w / 2 ^ 20)) (
      decode_fields_lt w (bit_and w 0x7F) (bit_and (w / 2 ^ 12) 7) (w / 2 ^ 25) (w / 2 ^ 20 % 2 ^ 5)
        h (omega arith)),
)

clear_bit0-even : (w : ℕ) → clear_bit0 w % 2 ≡ 0
unfolding clear_bit0
clear_bit0-even w = omega (arith, bit_and_step w (2 ^ 32 - 2))

-- The instructions whose target is at an offset from the pc.
abbrev relative : Op → Bool
relative jal = true
relative beq = true
relative bne = true
relative blt = true
relative bge = true
relative bltu = true
relative bgeu = true
relative _ = false

table_relative :
    (n : ℕ)
    → (relative (get_or k_load n illegal) ≡ false)
      × (relative (get_or k_store n illegal) ≡ false)
      × (relative (get_or k_op_imm n illegal) ≡ false)
      × (relative (get_or k_op n illegal) ≡ false)
      × (relative (get_or k_op_alt n illegal) ≡ false)
      × (relative (get_or k_mul_div n illegal) ≡ false)
table_relative zero = (refl, refl, refl, refl, refl, refl)
table_relative (suc zero) = (refl, refl, refl, refl, refl, refl)
table_relative (suc (suc zero)) = (refl, refl, refl, refl, refl, refl)
table_relative (suc (suc (suc zero))) = (refl, refl, refl, refl, refl, refl)
table_relative (suc (suc (suc (suc zero)))) = (refl, refl, refl, refl, refl, refl)
table_relative (suc (suc (suc (suc (suc zero))))) = (refl, refl, refl, refl, refl, refl)
table_relative (suc (suc (suc (suc (suc (suc zero)))))) = (refl, refl, refl, refl, refl, refl)
table_relative (suc (suc (suc (suc (suc (suc (suc zero))))))) = (refl, refl, refl, refl, refl, refl)
table_relative (suc (suc (suc (suc (suc (suc (suc (suc n)))))))) =
    (refl, refl, refl, refl, refl, refl)

abbrev EvenOffset : Decoded → Type 0
EvenOffset d = relative d.0 ≡ true → d.1 % 2 ≡ 0

no_offset : (op : Op) (imm : ℕ) → relative op ≡ false → EvenOffset (op, imm)
no_offset op imm e t = absurd (ground (arith, e, t))

-- A branch's offset and that of `jal` are even.
decode_fields-even : (w o f3 f7 rs2 : ℕ) → w < 2 ^ 32 → EvenOffset (decode_fields w o f3 f7 rs2)
unfolding decode_fields
decode_fields-even w o f3 f7 rs2 h =
    let (loads, stores, op_imm, ops, op_alt, mul_div) = table_relative f3 in
    let even_j : imm_j w % 2 ≡ 0 = ground (arith, imm_j_lem w h) in
    let even_b : imm_b w % 2 ≡ 0 = ground (arith, imm_b_lem w h) in
    let shift : EvenOffset (decode_op_imm w f3 f7 rs2) =
      unfold decode_op_imm in
      if-both EvenOffset (f3 == 1 || f3 == 5) _ _
        (λ _.
          if-both EvenOffset (f3 == 5 && f7 == 0x20) _ _ (λ _. no_offset srai rs2 refl)
            (λ _.
              if-both EvenOffset (f7 == 0) _ _
                (λ _. no_offset (get_or k_op_imm f3 illegal) rs2 op_imm)
                (λ _. no_offset illegal (imm_i w) refl)))
        (λ _. no_offset (get_or k_op_imm f3 illegal) (imm_i w) op_imm) in
    let register : EvenOffset (decode_op f3 f7) =
      unfold decode_op in
      if-both EvenOffset (f7 == 0) _ _ (λ _. no_offset (get_or k_op f3 illegal) 0 ops)
        (λ _.
          if-both EvenOffset (f7 == 0x20) _ _ (λ _. no_offset (get_or k_op_alt f3 illegal) 0 op_alt)
            (λ _.
              if-both EvenOffset (f7 == 1) _ _
                (λ _. no_offset (get_or k_mul_div f3 illegal) 0 mul_div)
                (λ _. no_offset illegal 0 refl))) in
    let system : EvenOffset (decode_system w) =
      unfold decode_system in
      if-both EvenOffset (w == 0x73) _ _ (λ _. no_offset ecall 0 refl)
        (λ _.
          if-both EvenOffset (w == 0x100073) _ _ (λ _. no_offset ebreak 0 refl)
            (λ _. no_offset illegal 0 refl)) in
    if-both EvenOffset (o == 0x37) _ _ (λ _. no_offset lui _ refl)
      (λ _.
        if-both EvenOffset (o == 0x17) _ _ (λ _. no_offset auipc _ refl)
          (λ _.
            if-both EvenOffset (o == 0x6F) _ _ (λ _ _. even_j)
              (λ _.
                if-both EvenOffset (o == 0x67) _ _
                  (λ _.
                    if-both EvenOffset (f3 == 0) _ _ (λ _. no_offset jalr _ refl)
                      (λ _. no_offset illegal 0 refl))
                  (λ _.
                    if-both EvenOffset (o == 0x63) _ _ (λ _ _. even_b)
                      (λ _.
                        if-both EvenOffset (o == 0x03) _ _
                          (λ _. no_offset (get_or k_load f3 illegal) _ loads)
                          (λ _.
                            if-both EvenOffset (o == 0x23) _ _
                              (λ _. no_offset (get_or k_store f3 illegal) _ stores)
                              (λ _.
                                if-both EvenOffset (o == 0x13) _ _ (λ _. shift)
                                  (λ _.
                                    if-both EvenOffset (o == 0x33) _ _ (λ _. register)
                                      (λ _.
                                        if-both EvenOffset (o == 0x0F) _ _
                                          (λ _. no_offset fence 0 refl)
                                          (λ _.
                                            if-both EvenOffset (o == 0x73) _ _ (λ _. system)
                                              (λ _. no_offset illegal 0 refl)))))))))))

taken-even :
    (taken : Bool) (imm pc : ℕ)
    → pc % 2 ≡ 0
    → imm % 2 ≡ 0
    → (if taken then u32 (pc + imm) else 0) % 2 ≡ 0
taken-even true imm pc p e = omega (arith, p, e)
taken-even false imm pc p e = refl

target_of-even :
    (op : Op) (imm pc a b : ℕ)
    → pc % 2 ≡ 0
    → EvenOffset (op, imm)
    → (if is_branch op && redirects op a b then u32 (pc + imm) else jump_target op imm pc a) % 2 ≡ 0
unfolding is_branch jump_target
target_of-even jal imm pc a b p e = omega (arith, p, e refl)
target_of-even jalr imm pc a b p e = clear_bit0-even (u32 (a + imm))
target_of-even beq imm pc a b p e = taken-even _ imm pc p (e refl)
target_of-even bne imm pc a b p e = taken-even _ imm pc p (e refl)
target_of-even blt imm pc a b p e = taken-even _ imm pc p (e refl)
target_of-even bge imm pc a b p e = taken-even _ imm pc p (e refl)
target_of-even bltu imm pc a b p e = taken-even _ imm pc p (e refl)
target_of-even bgeu imm pc a b p e = taken-even _ imm pc p (e refl)
target_of-even _ imm pc a b p e = refl

-- Whatever a 32-bit word decodes to, executing it at an even pc gives an even target: the offsets of
-- the branches and of `jal` are even, and `jalr` clears the lowest bit of the sum.
pub target-even :
    (w pc a b : ℕ) → w < 2 ^ 32 → pc % 2 ≡ 0 → (execute (decode w) pc a b).target % 2 ≡ 0
unfolding execute decode
target-even w pc a b h p =
    let o = bit_and w 0x7F in
    let f3 = bit_and (w / 2 ^ 12) 7 in
    let rs2 = bit_and (w / 2 ^ 20) 31 in
    let d = decode_fields w o f3 (w / 2 ^ 25) rs2 in
    target_of-even d.0 d.1 pc a b p (decode_fields-even w o f3 (w / 2 ^ 25) rs2 h)
