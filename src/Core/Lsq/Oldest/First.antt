-- ===== src/Core/Lsq/Oldest/First.antt =====
-- core/lsq.h: the first entry from a position on that has a property.
use rv_o.Base.{
  ℕ, zero, suc, ◌+◌, ◌≤◌, ◌<◌, ◌≡◌, refl, sym, ap, ◌∙◌, arith, Bool, true, false, if◌then◌else◌,
  if-both, subst, Bool-cases, inl, inr,
}
use native.Mathlib.Decide.{ℕ_discrete, dec_lt}
use rv_o.Core.Ring.{Ring, nth}
use rv_o.Core.SlotSet.Walk.{after}
use rv_o.Core.Lsq.{LsqEntry, fresh}

-- The age of the first of `n` entries from position `a` on that has the property.
unfoldable pub first_seq : Ring LsqEntry → (ℕ → Bool) → ℕ → ℕ → ℕ → ℕ × Bool
first_seq r p a zero none_yet = (none_yet, true)
first_seq r p a (suc n) none_yet =
    if p a then ((nth fresh r a).seq, false) else first_seq r p (suc a) n none_yet

module _ (r : Ring LsqEntry) where
  pub first-add :
      (p : ℕ → Bool) (m n a s : ℕ)
      → first_seq r p a (m + n) s ≡ after (first_seq r p a m s) (first_seq r p (a + m) n)
  unfolding first_seq
  first-add p zero n a s =
      let left : 0 + n ≡ n = omega arith in
      let from : a ≡ a + 0 = omega arith in
      ap (λ k. first_seq r p a k s) left ∙ unfold after in ap (λ b. first_seq r p b n s) from
  first-add p (suc m) n a s =
      let left : suc m + n ≡ suc (m + n) = omega arith in
      let from : suc a + m ≡ a + suc m = omega arith in
      let here : ℕ × Bool = ((nth fresh r a).seq, false) in
      let rest = first-add p m n (suc a) s in
      ap (λ k. first_seq r p a k s) left
      ∙ ap (λ x. if p a then here else x)
          (rest ∙ ap (λ b. after (first_seq r p (suc a) m s) (first_seq r p b n)) from)
      ∙ elim (Bool-cases (p a)) [
        | inl e ↦
            ap
              (λ t.
                if t then here else after (first_seq r p (suc a) m s) (first_seq r p (a + suc m) n))
              e
            ∙ sym (
                ap
                  (λ t.
                    after (if t then here else first_seq r p (suc a) m s)
                      (first_seq r p (a + suc m) n))
                  e
                ∙ unfold after in refl)
        | inr e ↦
            ap
              (λ t.
                if t then here else after (first_seq r p (suc a) m s) (first_seq r p (a + suc m) n))
              e
            ∙ sym (
                ap
                  (λ t.
                    after (if t then here else first_seq r p (suc a) m s)
                      (first_seq r p (a + suc m) n))
                  e)
      ]

  pub first-same :
      (p p' : ℕ → Bool) (n a s : ℕ)
      → ((j : ℕ) → j < n → p (a + j) ≡ p' (a + j))
      → first_seq r p a n s ≡ first_seq r p' a n s
  unfolding first_seq
  first-same p p' zero a s e = refl
  first-same p p' (suc n) a s e =
      let here : ℕ × Bool = ((nth fresh r a).seq, false) in
      let same : p a ≡ p' a =
        ap p {y = a + 0} (omega arith) ∙ e 0 (omega arith) ∙ ap p' (omega arith) in
      ap (λ t. if t then here else first_seq r p (suc a) n s) same
      ∙ ap (λ x. if p' a then here else x)
          (first-same p p' n (suc a) s (λ j l.
            ap p {y = a + suc j} (omega arith)
            ∙ e (suc j) (omega (arith, l))
            ∙ ap p' (omega arith)))

  pub none_there : (n a s : ℕ) → first_seq r (λ _. false) a n s ≡ (s, true)
  unfolding first_seq
  none_there zero a s = refl
  none_there (suc n) a s = none_there n (suc a) s

  abbrev seq_at : ℕ → ℕ
  seq_at k = (nth fresh r k).seq

  first-ge :
      (p : ℕ → Bool) (n a s x : ℕ)
      → ((j : ℕ) → j < n → x ≤ seq_at (a + j))
      → x ≤ s
      → x ≤ (first_seq r p a n s).0
  unfolding first_seq
  first-ge p zero a s x h l = l
  first-ge p (suc n) a s x h l =
      let rest =
        first-ge p n (suc a) s x
          (λ j b.
            subst (λ k. x ≤ seq_at k) {x = a + suc j} (omega arith) (h (suc j) (omega (arith, b))))
          l in
      let here : x ≤ seq_at a =
        subst (λ k. x ≤ seq_at k) {x = a + 0} (omega arith) (h 0 (omega arith)) in
      if-both (λ (y : ℕ × Bool). x ≤ y.0) (p a) _ _ (λ _. here) (λ _. rest)

  pub first-le :
      (p : ℕ → Bool) (n a s j : ℕ)
      → ((i : ℕ) → i < j → seq_at i < seq_at j)
      → a ≤ j
      → j < a + n
      → p j ≡ true
      → (first_seq r p a n s).0 ≤ seq_at j
  unfolding first_seq
  first-le p zero a s j h l m e = omega (arith, l, m)
  first-le p (suc n) a s j h l m e = elim (ℕ_discrete a j) [
    | yes q ↦
        let member_of : p a ≡ true = ap p q ∙ e in
        subst (λ t. (if t then (seq_at a, false) else first_seq r p (suc a) n s).0 ≤ seq_at j)
          (sym member_of) (subst (λ k. seq_at a ≤ seq_at k) q (omega arith))
    | no d ↦
        if-both (λ (y : ℕ × Bool). y.0 ≤ seq_at j) (p a) _ _
          (λ _. omega (arith, h a (omega (arith, l, d))))
          (λ _. first-le p n (suc a) s j h (omega (arith, l, d)) (omega (arith, m)) e)
  ]

  pub first-found :
      (p : ℕ → Bool) (n a s k : ℕ)
      → ((i : ℕ) → k ≤ i → i < a + n → seq_at k ≤ seq_at i)
      → seq_at k ≤ s
      → (first_seq r p a n s).0 < seq_at k
      → (j : ℕ) × (j < k) × (p j ≡ true)
  unfolding first_seq
  first-found p zero a s k h l f = absurd (omega (arith, l, f))
  first-found p (suc n) a s k h l f = elim (dec_lt a k) [
    | no d ↦ absurd (
        let ge : seq_at k ≤ (if p a then (seq_at a, false) else first_seq r p (suc a) n s).0 =
          first-ge p (suc n) a s (seq_at k) (λ j b. h (a + j) (omega (arith, d)) (omega (arith, b)))
            l in
        omega (arith, ge, f))
    | yes b ↦ elim (Bool-cases (p a)) [
      | inl e ↦ (a, b, e)
      | inr e ↦
          first-found p n (suc a) s k (λ i c d. h i c (omega (arith, d))) l
            (subst (λ t. (if t then (seq_at a, false) else first_seq r p (suc a) n s).0 < seq_at k)
              e f)
    ]
  ]
