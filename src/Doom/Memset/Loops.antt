-- ===== src/Doom/Memset/Loops.antt =====
-- doom/memops.c: the loops of `memset` against one loop over the bytes.
use rv_o.Base.{
  ℕ, zero, suc, ◌+◌, ◌-◌, ◌/◌, ◌^◌, ◌<◌, ◌≡◌, refl, sym, ap, ◌∙◌, arith, true, List, set, leb, ◌==◌,
  u8, bit_and, Bool-cases, inl, inr,
}
use rv_o.Doom.Memset.{
  fill_bytes, Progress, align, pattern_of, put_word, set_fours, set_words, memset,
}

-- The memory once what is left is filled byte by byte.
unfoldable finished : Progress → ℕ → List ℕ
unfolding fill_bytes
finished p byte = fill_bytes p.count p.mem p.out byte

fill_bytes-add :
    (a b : ℕ) (m : List ℕ) (out byte : ℕ)
    → fill_bytes (a + b) m out byte ≡ fill_bytes b (fill_bytes a m out byte) (out + a) byte
unfolding fill_bytes
fill_bytes-add zero b m out byte =
    let same_count : 0 + b ≡ b = omega arith in
    let same_out : out ≡ out + 0 = omega arith in
    ap (λ n. fill_bytes n m out byte) same_count ∙ ap (λ x. fill_bytes b m x byte) same_out
fill_bytes-add (suc a) b m out byte =
    let shift : suc a + b ≡ suc (a + b) = omega arith in
    let next : out + 1 + a ≡ out + suc a = omega arith in
    ap (λ n. fill_bytes n m out byte) shift
    ∙ fill_bytes-add a b (set m out byte) (out + 1) byte
    ∙ ap (λ x. fill_bytes b (fill_bytes a (set m out byte) (out + 1) byte) x byte) next

put_word-fill_bytes :
    (m : List ℕ) (out byte : ℕ)
    → byte < 2 ^ 8
    → put_word m out (pattern_of byte) ≡ fill_bytes 4 m out byte
unfolding put_word fill_bytes pattern_of
put_word-fill_bytes m out byte h =
    let b0 : u8 (pattern_of byte / 1) ≡ byte = ground (arith, h) in
    let b1 : u8 (pattern_of byte / 256) ≡ byte = ground (arith, h) in
    let b2 : u8 (pattern_of byte / 65536) ≡ byte = ground (arith, h) in
    let b3 : u8 (pattern_of byte / 16777216) ≡ byte = ground (arith, h) in
    let a0 : out + 0 ≡ out = omega arith in
    let a2 : out + 1 + 1 ≡ out + 2 = omega arith in
    let a3 : out + 2 + 1 ≡ out + 3 = omega arith in rw (b0, b1, b2, b3, a0, a2, a3) refl

align-finished :
    (count : ℕ) (m : List ℕ) (out byte : ℕ)
    → finished (align m out byte count) byte ≡ fill_bytes count m out byte
unfolding align finished fill_bytes
align-finished zero m out byte = refl
align-finished (suc count) m out byte = elim (Bool-cases (bit_and out 3 == 0)) [
  | inl e ↦ rw e refl
  | inr e ↦ rw e (align-finished count (set m out byte) (out + 1) byte)
]

-- A first part that is filled, and the rest.
finished-part :
    (a : ℕ) (p : Progress) (byte : ℕ)
    → leb a p.count ≡ true
    → finished
        (record { mem = fill_bytes a p.mem p.out byte; out = p.out + a; count = p.count - a })
        byte
      ≡ finished p byte
unfolding finished
finished-part a p byte h =
    let whole : a + (p.count - a) ≡ p.count = ground (arith, h) in
    sym (fill_bytes-add a (p.count - a) p.mem p.out byte)
    ∙ ap (λ n. fill_bytes n p.mem p.out byte) whole

set_words-finished :
    (fuel : ℕ) (p : Progress) (byte : ℕ)
    → byte < 2 ^ 8
    → finished (set_words fuel (pattern_of byte) p) byte ≡ finished p byte
unfolding set_words
set_words-finished zero p byte h = refl
set_words-finished (suc fuel) p byte h = elim (Bool-cases (leb 4 p.count)) [
  | inl e ↦
      rw (e, put_word-fill_bytes p.mem p.out byte h)
        (set_words-finished fuel
            (record { mem = fill_bytes 4 p.mem p.out byte; out = p.out + 4; count = p.count - 4 })
            byte h
          ∙ finished-part 4 p byte e)
  | inr e ↦ rw e refl
]

-- The four words of a round.
four-fill_bytes :
    (m : List ℕ) (out byte : ℕ)
    → byte < 2 ^ 8
    → put_word
        (put_word
          (put_word (put_word m out (pattern_of byte)) (out + 4) (pattern_of byte))
          (out + 8)
          (pattern_of byte))
        (out + 12)
        (pattern_of byte)
      ≡ fill_bytes 16 m out byte
four-fill_bytes m out byte h =
    rw
      (
        put_word-fill_bytes m out byte h,
        put_word-fill_bytes (fill_bytes 4 m out byte) (out + 4) byte h,
        sym (fill_bytes-add 4 4 m out byte),
        put_word-fill_bytes (fill_bytes 8 m out byte) (out + 8) byte h,
        sym (fill_bytes-add 8 4 m out byte),
        put_word-fill_bytes (fill_bytes 12 m out byte) (out + 12) byte h,
      )
      (sym (fill_bytes-add 12 4 m out byte))

set_fours-finished :
    (fuel : ℕ) (p : Progress) (byte : ℕ)
    → byte < 2 ^ 8
    → finished (set_fours fuel (pattern_of byte) p) byte ≡ finished p byte
unfolding set_fours
set_fours-finished zero p byte h = refl
set_fours-finished (suc fuel) p byte h = elim (Bool-cases (leb 16 p.count)) [
  | inl e ↦
      rw (e, four-fill_bytes p.mem p.out byte h)
        (set_fours-finished fuel
            (record {
              mem = fill_bytes 16 p.mem p.out byte;
              out = p.out + 16;
              count = p.count - 16;
            })
            byte h
          ∙ finished-part 16 p byte e)
  | inr e ↦ rw e refl
]

-- `memset` leaves the memory that a loop over the bytes leaves, for every destination, value and count.
pub memset-fill :
    (m : List ℕ) (destination value count : ℕ)
    → memset m destination value count ≡ fill_bytes count m destination (u8 value)
unfolding memset finished
memset-fill m destination value count =
    let byte = u8 value in
    let h : byte < 2 ^ 8 = omega arith in
    let p0 = align m destination byte count in
    let p1 = set_fours count (pattern_of byte) p0 in
    set_words-finished count p1 byte h
    ∙ set_fours-finished count p0 byte h
    ∙ align-finished count m destination byte
