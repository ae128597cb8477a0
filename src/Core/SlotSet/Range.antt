-- ===== src/Core/SlotSet/Range.antt =====
-- The bits of a word that a loop over the words sees.
use rv_o.Base.{
  ℕ, ◌+◌, ◌-◌, ◌*◌, ◌/◌, ◌%◌, ◌^◌, ◌<◌, ◌≡◌, refl, sym, ap, ◌∙◌, arith, Bool, true, false, List,
  get_or, ◌==◌, if◌then◌else◌, Bool-cases, inl, inr, bit_and, bit_and_mask, bit_and-le,
}
use rv_o.Core.SlotSet.Visit.{cut, below, ones_from}
use rv_o.Core.SlotSet.Bits.{bit_and-ones_from, cut_bits}

-- The range of bits that a loop from `begin` to `end` sees in word `w`.
abbrev pub lo : ℕ → ℕ → ℕ
lo begin w = if w == begin / 64 then begin % 64 else 0

abbrev pub hi : ℕ → ℕ → ℕ
hi end w = if w == (end - 1) / 64 then (end - 1) % 64 + 1 else 64

lower :
    (t : Bool) (bits n : ℕ)
    → bits < 2 ^ 64
    → (if t then bit_and bits (ones_from n) else bits)
      ≡ bit_and bits (ones_from (if t then n else 0))
lower true bits n b = refl
lower false bits n b = sym (bit_and-ones_from 0 bits (omega arith) b ∙ omega arith)

upper :
    (t : Bool) (bits end : ℕ)
    → bits < 2 ^ 64
    → 0 < end
    → (if t then bit_and bits (below (end % 64)) else bits)
      ≡ bit_and bits (2 ^ (if t then (end - 1) % 64 + 1 else 64) - 1)
unfolding below
upper true bits end b p = elim (Bool-cases (end % 64 == 0)) [
  | inl e ↦
      let last : (end - 1) % 64 + 1 ≡ 64 = ground (arith, e, p) in
      ap (λ t. bit_and bits (if t then 2 ^ 64 - 1 else 2 ^ (end % 64) - 1)) e
      ∙ sym (ap (λ (k : ℕ). bit_and bits (2 ^ k - 1)) last)
  | inr e ↦
      let last : (end - 1) % 64 + 1 ≡ end % 64 = ground (arith, e, p) in
      ap (λ t. bit_and bits (if t then 2 ^ 64 - 1 else 2 ^ (end % 64) - 1)) e
      ∙ sym (ap (λ (k : ℕ). bit_and bits (2 ^ k - 1)) last)
]
upper false bits end b p = sym (bit_and_mask 64 bits ∙ omega (arith, b))

module _ {ℓ} {S : Type ℓ} (f : S → ℕ → S × Bool) (words : S → List ℕ) where
  pub cut-range :
      (begin end w : ℕ) (s : S)
      → get_or (words s) w 0 < 2 ^ 64
      → 0 < end
      → lo begin w < hi end w
      → cut f words begin end w s
        ≡ get_or (words s) w 0 / 2 ^ lo begin w % 2 ^ (hi end w - lo begin w) * 2 ^ lo begin w
  cut-range begin end w s b p l =
      let bits = get_or (words s) w 0 in
      let low = bit_and bits (ones_from (lo begin w)) in
      ap (λ (t : ℕ). if w == (end - 1) / 64 then bit_and t (below (end % 64)) else t)
        (lower (w == begin / 64) bits (begin % 64) b)
      ∙ upper (w == (end - 1) / 64) low end
          (omega (arith, b, bit_and-le 64 bits (ones_from (lo begin w)) b)) p
      ∙ cut_bits (lo begin w) (hi end w) bits l (ground arith) b
