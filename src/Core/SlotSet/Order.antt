-- ===== src/Core/SlotSet/Order.antt =====
-- core/slot_set.h: the loop over the bits of a word as a walk over its slots.
use rv_o.Base.{
  ℕ, zero, suc, ◌+◌, ◌-◌, ◌*◌, ◌/◌, ◌%◌, ◌^◌, ◌≤◌, ◌<◌, ◌≡◌, ◌≢◌, refl, sym, ap, ◌∙◌, arith, Bool,
  true, false, List, get_or, ◌==◌, if◌then◌else◌, Bool-cases, inl, inr, bit_and, test_bit,
}
use native.Mathlib.Nat.{pow-suc, one-le-pow}
use rv_o.Core.SlotSet.Visit.{ctz, forward_bits}
use rv_o.Core.SlotSet.Bits.{ctz-shift, clear_lowest, even-shift}

module _ {ℓ} {S : Type ℓ} (f : S → ℕ → S × Bool) (words : S → List ℕ) where
  -- Is the slot in the set, as it is now?
  abbrev pub reads : S → ℕ → Bool
  reads s a = test_bit (get_or (words s) (a / 64) 0) (a % 64)

  -- The `left` slots from `a` on.
  unfoldable pub walk : ℕ → ℕ → S → S × Bool
  walk a zero s = (s, true)
  walk a (suc left) s =
      let (s', go) = f s a in
      let rest = walk (suc a) left s' in
      let skip = walk (suc a) left s in if reads s a then if go then rest else (s', false) else skip

  -- A visitor that changes no slot's membership but that of the slot it is given, in the states
  -- that matter.
  pub record IsLocal {κ} (ok : S → Type κ) : Type (ℓ ⊔ κ) where
    pub small : (s : S) (w : ℕ) → ok s → get_or (words s) w 0 < 2 ^ 64
    pub keeps : (s : S) (a : ℕ) → ok s → reads s a ≡ true → ok (f s a).0
    pub apart : (s : S) (a b : ℕ) → ok s → reads s a ≡ true → b ≢ a → reads (f s a).0 b ≡ reads s b

  forward_bits-zero : (fuel base : ℕ) (s : S) → forward_bits f fuel 0 base s ≡ (s, true)
  unfolding forward_bits
  forward_bits-zero zero base s = refl
  forward_bits-zero (suc fuel) base s = refl

  -- A round at a word whose lowest bit is bit `i`.
  forward_bits-odd :
      (fuel i m base : ℕ) (s : S)
      → m % 2 ≡ 1
      → i < 64
      → forward_bits f (suc fuel) (m * 2 ^ i) base s ≡ (
          if (f s (base + i)).1
          then forward_bits f fuel (m / 2 * 2 ^ suc i) base (f s (base + i)).0
          else ((f s (base + i)).0, false))
  unfolding forward_bits
  forward_bits-odd fuel i m base s odd l =
      let bits = m * 2 ^ i in
      let some_bit : (bits == 0) ≡ false = grind (arith, one-le-pow i 2) in
      let round : ℕ → ℕ → S × Bool = λ c b.
        if (f s (base + c)).1
        then forward_bits f fuel b base (f s (base + c)).0
        else ((f s (base + c)).0, false) in
      ap (λ t. if t then (s, true) else round (ctz 64 bits) (bit_and bits (bits - 1))) some_bit
      ∙ ap (λ c. round c (bit_and bits (bits - 1))) (ctz-shift i 64 m odd l)
      ∙ ap (round i) (clear_lowest i m odd)

  module _ {κ} (ok : S → Type κ) (h : IsLocal ok) where
    pub forward_bits-walk :
        (left i fuel m base : ℕ) (s : S)
        → ok s
        → left ≤ fuel
        → i + left ≤ 64
        → m < 2 ^ left
        → ((j : ℕ) → j < left → reads s (base + (i + j)) ≡ test_bit m j)
        → forward_bits f fuel (m * 2 ^ i) base s ≡ walk (base + i) left s
    unfolding walk
    forward_bits-walk zero i fuel m base s o lf li lm same =
        let none : m ≡ 0 = omega (arith, lm) in
        let empty : m * 2 ^ i ≡ 0 = grind (arith, none) in
        ap (λ (b : ℕ). forward_bits f fuel b base s) empty ∙ forward_bits-zero fuel base s
    forward_bits-walk (suc left) i zero m base s o lf li lm same = absurd (omega (arith, lf))
    forward_bits-walk (suc left) i (suc fuel) m base s o lf li lm same =
        let here : base + (i + 0) ≡ base + i = omega arith in
        let next : base + suc i ≡ suc (base + i) = omega arith in
        let half_lt : m / 2 < 2 ^ left = omega (arith, lm, pow-suc 2 left) in
        let step : (j : ℕ) → base + (suc i + j) ≡ base + (i + suc j) = λ j. omega arith in
        let first = ap (reads s) (sym here) ∙ same 0 (omega arith) in
        elim (Bool-cases (m % 2 == 1)) [
          | inr even ↦
              let out : reads s (base + i) ≡ false = first ∙ unfold test_bit in even in
              let half : m * 2 ^ i ≡ m / 2 * 2 ^ suc i = even-shift m i even in
              ap (λ (b : ℕ). forward_bits f (suc fuel) b base s) half
              ∙ forward_bits-walk left (suc i) (suc fuel) (m / 2) base s o (omega (arith, lf))
                  (omega (arith, li)) half_lt
                  (λ j l.
                    ap (reads s) (step j)
                    ∙ same (suc j) (omega (arith, l))
                    ∙ unfold test_bit in refl)
              ∙ ap (λ a. walk a left s) next
              ∙ sym (
                  ap
                    (λ t.
                      if t
                      then if (f s (base + i)).1
                        then walk (suc (base + i)) left (f s (base + i)).0
                        else ((f s (base + i)).0, false)
                      else walk (suc (base + i)) left s)
                    out)
          | inl odd ↦
              let member : reads s (base + i) ≡ true = first ∙ unfold test_bit in odd in
              let s' = (f s (base + i)).0 in
              forward_bits-odd fuel i m base s (ground (arith, odd)) (omega (arith, li))
              ∙ ap (λ x. if (f s (base + i)).1 then x else (s', false))
                  (forward_bits-walk left (suc i) fuel (m / 2) base s'
                      (h.keeps s (base + i) o member) (omega (arith, lf)) (omega (arith, li))
                      half_lt
                      (λ j l.
                        h.apart s (base + i) (base + (suc i + j)) o member
                          (λ (q : base + (suc i + j) ≡ base + i). absurd (omega (arith, q)))
                        ∙ ap (reads s) (step j)
                        ∙ same (suc j) (omega (arith, l))
                        ∙ unfold test_bit in refl)
                    ∙ ap (λ a. walk a left s') next)
              ∙ sym (
                  ap
                    (λ t.
                      if t
                      then if (f s (base + i)).1
                        then walk (suc (base + i)) left (f s (base + i)).0
                        else ((f s (base + i)).0, false)
                      else walk (suc (base + i)) left s)
                    member)
        ]
