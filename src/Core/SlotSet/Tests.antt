-- ===== src/Core/SlotSet/Tests.antt =====
-- core/slot_set.h: visits on concrete sets.
use rv_o.Base.{
  ℕ, zero, suc, ◌-◌, ◌/◌, ◌%◌, ◌^◌, ◌≤◌, ◌<◌, ◌≡◌, refl, arith, Bool, true, false, List, [], ◌∷◌,
  ◌++◌, test_bit, test_bit-zero, get_or, ap, ◌∙◌,
}
use rv_o.Core.SlotSet.Visit.{
  ctz, high_bit, forward_bits, reverse_bits, below, forward_words, forward, reverse_words, reverse,
  visit_word, visit, visit_older,
}
use rv_o.Core.SlotSet.Order.{walk, reads, IsLocal}
use rv_o.Core.SlotSet.Words.{in_order}
use rv_o.Core.SlotSet.Walk.{after}

-- A visitor that lists the slots.
abbrev collect : List ℕ → ℕ → List ℕ × Bool
collect s a = (s ++ (a ∷ []), true)

-- Slots 0, 2 and 5 of 64.
abbrev one_word : List ℕ → List ℕ
one_word _ = 37 ∷ []

-- Slots 1, 3 and 65 of 70.
abbrev two_words : List ℕ → List ℕ
two_words _ = 10 ∷ 2 ∷ []

visit_wraps : visit collect one_word 64 2 [] ≡ 2 ∷ 5 ∷ 0 ∷ []
unfolding visit visit_word forward forward_words forward_bits ctz below
visit_wraps = refl

visit_both : visit collect two_words 70 3 [] ≡ 3 ∷ 65 ∷ 1 ∷ []
unfolding visit visit_word forward forward_words forward_bits ctz below
visit_both = refl

older_first_newest : visit_older collect two_words 70 3 2 [] ≡ 1 ∷ 65 ∷ 3 ∷ []
unfolding visit_older reverse reverse_words reverse_bits high_bit below
older_first_newest = refl

word_small : (w : ℕ) → get_or (37 ∷ []) w 0 < 2 ^ 64
word_small zero = omega arith
word_small (suc w) = omega arith

collect-IsLocal : IsLocal collect one_word (λ _. Unit {0})
collect-IsLocal = record {
  small = λ s w o. word_small w;
  keeps = λ s a o m. tt;
  apart = λ s a b o m d. refl;
}

outside : (a : ℕ) → 64 ≤ a → reads collect one_word [] a ≡ false
outside a l =
    let w : a / 64 ≡ suc (a / 64 - 1) = omega (arith, l) in
    ap (λ i. test_bit (get_or (37 ∷ []) i 0) (a % 64)) w ∙ test_bit-zero (a % 64)

in_order_example :
    visit collect one_word 64 2 []
    ≡ (after (walk collect one_word 2 (64 - 2) []) (walk collect one_word 0 2)).0
in_order_example =
    in_order collect one_word (λ _. Unit {0}) collect-IsLocal 64 2 [] tt (omega arith)
      (λ t a o l. outside a l)
