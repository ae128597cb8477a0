-- ===== src/Isa/Decode/Immediates.antt =====
-- The five immediates as sums of the fields of the word, with the sign.
use rv_o.Base.{
  ℕ, ◌+◌, ◌-◌, ◌*◌, ◌/◌, ◌%◌, ◌^◌, ◌<◌, ◌≡◌, arith, ltb, if◌then◌else◌, bit_and, bit_and_mask,
  bit_and_field, bit_or-add,
}
use rv_o.Isa.Decode.{sar, imm_i, imm_s, imm_b, imm_u, imm_j}

-- `n` when the sign bit of the word is clear, and `n` with ones above bit `k` when it is set.
abbrev pub signed_by : ℕ → ℕ → ℕ → ℕ
signed_by w k n = if ltb (2 ^ 31 - 1) w then n + (2 ^ 32 - 2 ^ k) else n

module _ (w : ℕ) (h : w < 2 ^ 32) where
  pub imm_i_lem : imm_i w ≡ signed_by w 11 (w / 2 ^ 20 % 2 ^ 11)
  unfolding imm_i
  imm_i_lem = ground arith

  top_s : sar (bit_and w 0xFE000000) 20 ≡ signed_by w 11 (w / 2 ^ 25 % 2 ^ 6 * 2 ^ 5)
  unfolding sar
  top_s = rw (bit_and_field 25 7 w) (ground arith)

  pub imm_s_lem : imm_s w ≡ signed_by w 11 (w / 2 ^ 25 % 2 ^ 6 * 2 ^ 5 + w / 2 ^ 7 % 2 ^ 5)
  unfolding imm_s
  imm_s_lem =
      rw (top_s, bit_and_mask 5 (w / 2 ^ 7))
        (rw
          (bit_or-add 5 (signed_by w 11 (w / 2 ^ 25 % 2 ^ 6 * 2 ^ 5)) (w / 2 ^ 7 % 2 ^ 5)
            (ground arith) (omega arith))
          (ground arith))

  top_b : sar (bit_and w 0x80000000) 19 ≡ signed_by w 12 0
  unfolding sar
  top_b = rw (bit_and_field 31 1 w) (ground arith)

  abbrev b_11 : ℕ
  b_11 = w / 2 ^ 7 % 2 * 2 ^ 11

  abbrev b_10_5 : ℕ
  b_10_5 = w / 2 ^ 25 % 2 ^ 6 * 2 ^ 5

  abbrev b_4_1 : ℕ
  b_4_1 = w / 2 ^ 8 % 2 ^ 4 * 2

  bits_11 : bit_and w 0x80 * 2 ^ 4 % 2 ^ 32 ≡ b_11
  bits_11 = rw (bit_and_field 7 1 w) (omega arith)

  bits_10_5 : bit_and (w / 2 ^ 20) 0x7E0 ≡ b_10_5
  bits_10_5 = rw (bit_and_field 5 6 (w / 2 ^ 20)) (omega arith)

  bits_4_1 : bit_and (w / 2 ^ 7) 0x1E ≡ b_4_1
  bits_4_1 = rw (bit_and_field 1 4 (w / 2 ^ 7)) (omega arith)

  pub imm_b_lem : imm_b w ≡ signed_by w 12 (b_11 + b_10_5 + b_4_1)
  unfolding imm_b
  imm_b_lem =
      rw (top_b, bits_11, bits_10_5, bits_4_1)
        (rw
          (
            bit_or-add 12 (signed_by w 12 0) b_11 (ground arith) (omega arith),
            bit_or-add 11 (signed_by w 12 0 + b_11) b_10_5 (ground arith) (omega arith),
            bit_or-add 5 (signed_by w 12 0 + b_11 + b_10_5) b_4_1 (ground arith) (omega arith),
          )
          (ground arith))

  pub imm_u_lem : imm_u w ≡ w / 2 ^ 12 * 2 ^ 12
  unfolding imm_u
  imm_u_lem = rw (bit_and_field 12 20 w) (omega arith)

  top_j : sar (bit_and w 0x80000000) 11 ≡ signed_by w 20 0
  unfolding sar
  top_j = rw (bit_and_field 31 1 w) (ground arith)

  abbrev j_19_12 : ℕ
  j_19_12 = w / 2 ^ 12 % 2 ^ 8 * 2 ^ 12

  abbrev j_11 : ℕ
  j_11 = w / 2 ^ 20 % 2 * 2 ^ 11

  abbrev j_10_1 : ℕ
  j_10_1 = w / 2 ^ 21 % 2 ^ 10 * 2

  bits_19_12 : bit_and w 0xFF000 ≡ j_19_12
  bits_19_12 = bit_and_field 12 8 w

  bits_j_11 : bit_and (w / 2 ^ 9) 0x800 ≡ j_11
  bits_j_11 = rw (bit_and_field 11 1 (w / 2 ^ 9)) (omega arith)

  bits_10_1 : bit_and (w / 2 ^ 20) 0x7FE ≡ j_10_1
  bits_10_1 = rw (bit_and_field 1 10 (w / 2 ^ 20)) (omega arith)

  pub imm_j_lem : imm_j w ≡ signed_by w 20 (j_19_12 + j_11 + j_10_1)
  unfolding imm_j
  imm_j_lem =
      rw (top_j, bits_19_12, bits_j_11, bits_10_1)
        (rw
          (
            bit_or-add 20 (signed_by w 20 0) j_19_12 (ground arith) (omega arith),
            bit_or-add 12 (signed_by w 20 0 + j_19_12) j_11 (ground arith) (omega arith),
            bit_or-add 11 (signed_by w 20 0 + j_19_12 + j_11) j_10_1 (ground arith) (omega arith),
          )
          (ground arith))
