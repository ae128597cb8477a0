-- ===== src/Isa/Encode/RoundTrip.antt =====
-- isa/decode.cpp: the decoder against the encoding.
use rv_o.Base.{
  ℕ, ◌+◌, ◌/◌, ◌%◌, ◌^◌, ◌<◌, ◌≡◌, ◌≢◌, refl, arith, if◌then◌else◌, bit_and_mask, Bool, true, false,
  ◌==◌, ◌&&◌, ◌||◌, List, [], ◌∷◌, get_or, zero, suc, ==_iff, Bool-cases, inl, inr,
}
use rv_o.Isa.{Op, illegal, fence, addi, slti, sltiu, xori, ori, andi}
use rv_o.Isa.Decode.{
  Decoded, decode, decode_fields, decode_op, decode_op_imm, decode_system, imm_i, imm_s, imm_b,
  k_branch, k_load, k_store, k_op, k_op_alt, k_mul_div, k_op_imm,
}
use rv_o.Isa.Decode.Immediates.{imm_i_lem, imm_s_lem, imm_b_lem, imm_u_lem, imm_j_lem}
use rv_o.Isa.Encode.{
  encode, assemble, layout, layout_of, Layout, Format, i_type, b_type, s_type, r_type,
}

-- The fields of a word, as arithmetic.
abbrev rd_of : ℕ → ℕ
rd_of w = w / 2 ^ 7 % 2 ^ 5

abbrev rs1_of : ℕ → ℕ
rs1_of w = w / 2 ^ 15 % 2 ^ 5

abbrev rs2_of : ℕ → ℕ
rs2_of w = w / 2 ^ 20 % 2 ^ 5

abbrev funct3_of : ℕ → ℕ
funct3_of w = w / 2 ^ 12 % 2 ^ 3

abbrev rebuilt : ℕ → Layout → ℕ → ℕ
rebuilt w l imm = assemble l (rd_of w) (rs1_of w) (rs2_of w) imm

-- What the decoder found in `w` gives `w` back.
abbrev Restores : ℕ → Decoded → Type 0
Restores w d = d.0 ≢ illegal → d.0 ≢ fence → rebuilt w (layout d.0) d.1 ≡ w

-- A table of opcodes has the constant fields of its group, and its index for funct3.
module _ (format : Format) (opcode funct7 : ℕ) where
  abbrev Rows : List Op → ℕ → Type 0
  Rows [] f = Unit
  Rows (x ∷ xs) f = (x ≢ illegal → layout x ≡ layout_of format opcode f funct7) × Rows xs (suc f)

  Rows-get_or :
      (xs : List Op) (f i g : ℕ)
      → Rows xs f
      → g ≡ f + i
      → get_or xs i illegal ≢ illegal
      → layout (get_or xs i illegal) ≡ layout_of format opcode g funct7
  Rows-get_or [] f i g r e h = absurd (h refl)
  Rows-get_or (x ∷ xs) f zero g r e h = let e' : g ≡ f = omega arith in rw e' (r.0 h)
  Rows-get_or (x ∷ xs) f (suc i) g r e h = Rows-get_or xs (suc f) i g r.1 (omega arith) h

branch-Rows : Rows b_type 0x63 0 k_branch 0
branch-Rows = ground arith

load-Rows : Rows i_type 0x03 0 k_load 0
load-Rows = ground arith

store-Rows : Rows s_type 0x23 0 k_store 0
store-Rows = ground arith

op-Rows : Rows r_type 0x33 0 k_op 0
op-Rows = ground arith

op_alt-Rows : Rows r_type 0x33 0x20 k_op_alt 0
op_alt-Rows = ground arith

mul_div-Rows : Rows r_type 0x33 1 k_mul_div 0
mul_div-Rows = ground arith

abbrev plain_ops : List Op
plain_ops = addi ∷ illegal ∷ slti ∷ sltiu ∷ xori ∷ illegal ∷ ori ∷ andi ∷ []

plain-Rows : Rows i_type 0x13 0 plain_ops 0
plain-Rows = ground arith

-- Without the two shifts, the table of immediates is that of the plain I format.
plain-k_op_imm :
    (f : ℕ) → f < 8 → f ≢ 1 → f ≢ 5 → get_or k_op_imm f illegal ≡ get_or plain_ops f illegal
plain-k_op_imm zero h p q = refl
plain-k_op_imm (suc zero) h p q = absurd (p refl)
plain-k_op_imm (suc (suc zero)) h p q = refl
plain-k_op_imm (suc (suc (suc zero))) h p q = refl
plain-k_op_imm (suc (suc (suc (suc zero)))) h p q = refl
plain-k_op_imm (suc (suc (suc (suc (suc zero))))) h p q = absurd (q refl)
plain-k_op_imm (suc (suc (suc (suc (suc (suc f)))))) h p q = refl

module _ (w : ℕ) (word : w < 2 ^ 32) where
  if_Restores :
      (c : Bool) (x y : Decoded)
      → (c ≡ true → Restores w x)
      → (c ≡ false → Restores w y)
      → Restores w (if c then x else y)
  if_Restores true x y p q = p refl
  if_Restores false x y p q = q refl

  illegal_Restores : (imm : ℕ) → Restores w (illegal, imm)
  illegal_Restores imm h = absurd (h refl)

  branch_Restores : w % 2 ^ 7 ≡ 0x63 → Restores w (get_or k_branch (funct3_of w) illegal, imm_b w)
  branch_Restores o h nf =
      rw
        (
          Rows-get_or b_type 0x63 0 k_branch 0 (funct3_of w) (funct3_of w) branch-Rows (omega arith)
              h,
          imm_b_lem w word,
        )
        (ground arith)

  load_Restores : w % 2 ^ 7 ≡ 0x03 → Restores w (get_or k_load (funct3_of w) illegal, imm_i w)
  load_Restores o h nf =
      rw
        (
          Rows-get_or i_type 0x03 0 k_load 0 (funct3_of w) (funct3_of w) load-Rows (omega arith) h,
          imm_i_lem w word,
        )
        (ground arith)

  store_Restores : w % 2 ^ 7 ≡ 0x23 → Restores w (get_or k_store (funct3_of w) illegal, imm_s w)
  store_Restores o h nf =
      rw
        (
          Rows-get_or s_type 0x23 0 k_store 0 (funct3_of w) (funct3_of w) store-Rows (omega arith)
              h,
          imm_s_lem w word,
        )
        (ground arith)

  r_Restores :
      (xs : List Op) (f7 : ℕ)
      → Rows r_type 0x33 f7 xs 0
      → w % 2 ^ 7 ≡ 0x33
      → w / 2 ^ 25 ≡ f7
      → Restores w (get_or xs (funct3_of w) illegal, 0)
  r_Restores xs f7 rows o e h nf =
      rw (Rows-get_or r_type 0x33 f7 xs 0 (funct3_of w) (funct3_of w) rows (omega arith) h)
        (omega arith)

  op_Restores : w % 2 ^ 7 ≡ 0x33 → Restores w (decode_op (funct3_of w) (w / 2 ^ 25))
  unfolding decode_op
  op_Restores o =
      let f7 = w / 2 ^ 25 in
      if_Restores (f7 == 0) _ _ (λ e. r_Restores k_op 0 op-Rows o ((==_iff f7 0).0 e))
        (λ _.
          if_Restores (f7 == 0x20) _ _
            (λ e. r_Restores k_op_alt 0x20 op_alt-Rows o ((==_iff f7 0x20).0 e))
            (λ _.
              if_Restores (f7 == 1) _ _
                (λ e. r_Restores k_mul_div 1 mul_div-Rows o ((==_iff f7 1).0 e))
                (λ _. illegal_Restores 0)))

  plain_Restores :
      w % 2 ^ 7 ≡ 0x13
      → (funct3_of w == 1 || funct3_of w == 5) ≡ false
      → Restores w (get_or k_op_imm (funct3_of w) illegal, imm_i w)
  plain_Restores o t =
      let ne : (funct3_of w ≢ 1) × (funct3_of w ≢ 5) = (λ e. ground arith, λ e. ground arith) in
      rw (plain-k_op_imm (funct3_of w) (omega arith) ne.0 ne.1) (λ h nf.
        rw
          (
            Rows-get_or i_type 0x13 0 plain_ops 0 (funct3_of w) (funct3_of w) plain-Rows
                (omega arith) h,
            imm_i_lem w word,
          )
          (ground arith))

  shift_Restores :
      w % 2 ^ 7 ≡ 0x13
      → w / 2 ^ 25 ≡ 0
      → (funct3_of w == 1 || funct3_of w == 5) ≡ true
      → Restores w (get_or k_op_imm (funct3_of w) illegal, rs2_of w)
  shift_Restores o z t h nf = elim (Bool-cases (funct3_of w == 1)) [
    | inl e ↦ rw ((==_iff (funct3_of w) 1).0 e) (ground arith)
    | inr e ↦ let five : funct3_of w ≡ 5 = ground arith in rw five (ground arith)
  ]

  op_imm_Restores :
      w % 2 ^ 7 ≡ 0x13 → Restores w (decode_op_imm w (funct3_of w) (w / 2 ^ 25) (rs2_of w))
  unfolding decode_op_imm
  op_imm_Restores o =
      let f3 = funct3_of w in
      let f7 = w / 2 ^ 25 in
      if_Restores (f3 == 1 || f3 == 5) _ _
        (λ t.
          if_Restores (f3 == 5 && f7 == 0x20) _ _ (λ e h nf. ground arith)
            (λ _.
              if_Restores (f7 == 0) _ _ (λ e. shift_Restores o ((==_iff f7 0).0 e) t)
                (λ _. illegal_Restores (imm_i w))))
        (λ t. plain_Restores o t)

  system_Restores : Restores w (decode_system w)
  unfolding decode_system
  system_Restores =
      if_Restores (w == 0x73) _ _ (λ e h nf. ground arith)
        (λ _. if_Restores (w == 0x100073) _ _ (λ e h nf. ground arith) (λ _. illegal_Restores 0))

  fields_Restores : Restores w (decode_fields w (w % 2 ^ 7) (funct3_of w) (w / 2 ^ 25) (rs2_of w))
  unfolding decode_fields
  fields_Restores =
      let o = w % 2 ^ 7 in
      if_Restores (o == 0x37) _ _ (λ e h nf. rw (imm_u_lem w word) (ground arith))
        (λ _.
          if_Restores (o == 0x17) _ _ (λ e h nf. rw (imm_u_lem w word) (ground arith))
            (λ _.
              if_Restores (o == 0x6F) _ _ (λ e h nf. rw (imm_j_lem w word) (ground arith))
                (λ _.
                  if_Restores (o == 0x67) _ _
                    (λ e.
                      if_Restores (funct3_of w == 0) _ _
                        (λ z h nf. rw (imm_i_lem w word) (ground arith)) (λ _. illegal_Restores 0))
                    (λ _.
                      if_Restores (o == 0x63) _ _ (λ e. branch_Restores ((==_iff o 0x63).0 e))
                        (λ _.
                          if_Restores (o == 0x03) _ _ (λ e. load_Restores ((==_iff o 0x03).0 e))
                            (λ _.
                              if_Restores (o == 0x23) _ _
                                (λ e. store_Restores ((==_iff o 0x23).0 e))
                                (λ _.
                                  if_Restores (o == 0x13) _ _
                                    (λ e. op_imm_Restores ((==_iff o 0x13).0 e))
                                    (λ _.
                                      if_Restores (o == 0x33) _ _
                                        (λ e. op_Restores ((==_iff o 0x33).0 e))
                                        (λ _.
                                          if_Restores (o == 0x0F) _ _ (λ e h nf. absurd (nf refl))
                                            (λ _.
                                              if_Restores (o == 0x73) _ _ (λ e. system_Restores)
                                                (λ _. illegal_Restores 0)))))))))))

-- Decoding loses nothing: unless the word is illegal or a fence, the encoding of the decoded
-- instruction is the word.
pub encode-decode :
    (w : ℕ) → w < 2 ^ 32 → (decode w).op ≢ illegal → (decode w).op ≢ fence → encode (decode w) ≡ w
unfolding encode decode
encode-decode w word =
    rw
      (
        bit_and_mask 7 w,
        bit_and_mask 3 (w / 2 ^ 12),
        bit_and_mask 5 (w / 2 ^ 20),
        bit_and_mask 5 (w / 2 ^ 7),
        bit_and_mask 5 (w / 2 ^ 15),
      )
      (fields_Restores w word)
