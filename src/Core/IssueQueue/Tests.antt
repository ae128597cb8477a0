-- ===== src/Core/IssueQueue/Tests.antt =====
-- A queue of one slot word, with one instruction in slot 0 that waits for register 1.
use rv_o.Base.{
  ℕ, zero, suc, ◌+◌, ◌*◌, ◌^◌, ◌<◌, ◌≡◌, refl, arith, true, not, ◌&&◌, ◌==◌, [], ◌∷◌, get_or,
  test_bit, test_bit-zero, test_bit-two_pow, ◌∙◌, ap,
}
use rv_o.Core.IssueQueue.{fresh_entry, IssueQueue, wakeup, wakeup_from, wakeup_word}
use rv_o.Core.IssueQueue.Wakeup.{bit}
use rv_o.Core.IssueQueue.Schedule.{IsScheduled, entry, wakeup-IsScheduled}

abbrev waiting : IssueQueue
waiting = record {
  e = record fresh_entry { seq = 5; ps1 = 1; valid = true } ∷ [];
  capacity = 1;
  words = 1;
  occupied = 1 ∷ [];
  ready = 0 ∷ [];
  blocked1 = 1 ∷ [];
  blocked2 = 0 ∷ [];
  wait1 = 0 ∷ 1 ∷ 0 ∷ [];
  wait2 = 0 ∷ 0 ∷ 0 ∷ [];
  n = 1;
}

small_word : (k : ℕ) → get_or (0 ∷ 1 ∷ 0 ∷ []) k 0 < 2 ^ 64
small_word zero = omega arith
small_word (suc zero) = omega arith
small_word (suc (suc zero)) = omega arith
small_word (suc (suc (suc k))) = omega arith

one_word : (k : ℕ) → get_or (1 ∷ []) k 0 < 2 ^ 64
one_word zero = omega arith
one_word (suc k) = omega arith

zero_word : (k : ℕ) → get_or (0 ∷ []) k 0 < 2 ^ 64
zero_word zero = omega arith
zero_word (suc k) = omega arith

zero_row : (k : ℕ) → get_or waiting.wait2 k 0 ≡ 0
zero_row zero = refl
zero_row (suc zero) = refl
zero_row (suc (suc zero)) = refl
zero_row (suc (suc (suc k))) = refl

one_bit : (i : ℕ) → test_bit 1 i ≡ (0 == i)
one_bit i = test_bit-two_pow 0 i

not_ready :
    (w i : ℕ)
    → w < 1
    → bit waiting.ready w i ≡ (
        bit waiting.occupied w i
        && (not (bit waiting.blocked1 w i) && not (bit waiting.blocked2 w i)))
not_ready zero i l = ground (arith, test_bit-zero i, one_bit i)
not_ready (suc w) i l = absurd (omega arith)

waits_for_one :
    (p w i : ℕ)
    → p < 3
    → w < 1
    → bit waiting.wait1 (p * 1 + w) i ≡ (bit waiting.blocked1 w i && p == (entry waiting w i).ps1)
waits_for_one zero zero zero lp l = ground (arith, test_bit-zero 0)
waits_for_one (suc zero) zero zero lp l = ground (arith, one_bit 0)
waits_for_one (suc (suc zero)) zero zero lp l = ground (arith, test_bit-zero 0)
waits_for_one zero zero (suc i) lp l = ground (arith, test_bit-zero (suc i), one_bit (suc i))
waits_for_one (suc zero) zero (suc i) lp l = ground (arith, one_bit (suc i))
waits_for_one (suc (suc zero)) zero (suc i) lp l =
    ground (arith, test_bit-zero (suc i), one_bit (suc i))
waits_for_one (suc (suc (suc p))) w i lp l = absurd (omega arith)
waits_for_one p (suc w) i lp l = absurd (omega arith)

waits_for_none :
    (p w i : ℕ)
    → w < 1
    → bit waiting.wait2 (p * 1 + w) i ≡ (bit waiting.blocked2 w i && p == (entry waiting w i).ps2)
waits_for_none p zero i l =
    ap (λ v. test_bit v i) (zero_row (p * 1 + 0)) ∙ ground (arith, test_bit-zero i)
waits_for_none p (suc w) i l = absurd (omega arith)

never_blocked :
    (w i : ℕ) → w < 1 → i < 64 → bit waiting.blocked2 w i ≡ true → bit waiting.occupied w i ≡ true
never_blocked zero i l j b = absurd (ground (arith, test_bit-zero i))
never_blocked (suc w) i l j b = absurd (omega arith)

waiting-IsScheduled : IsScheduled 3 waiting
waiting-IsScheduled = record {
  sized = record {
    size1 = refl;
    size2 = refl;
    size_ready = refl;
    size_wait1 = refl;
    size_wait2 = refl;
    word_wait1 = small_word;
    word_wait2 = λ k. omega (arith, zero_row k);
    word1 = one_word;
    word2 = zero_word;
  };
  ready_iff = λ w i l j. not_ready w i l;
  waits1 = λ p w i lp l j. waits_for_one p w i lp l;
  waits2 = λ p w i lp l j. waits_for_none p w i l;
  held1 = λ w i l j b. b;
  held2 = never_blocked;
}

woken : (wakeup waiting 1).ready ≡ 1 ∷ []
unfolding wakeup wakeup_from wakeup_word
woken = refl

wakeup_example :
    IsScheduled 3 (wakeup waiting 1)
    × ((w i : ℕ)
        → w < 1
        → i < 64
        → (bit (wakeup waiting 1).blocked1 w i
            ≡ (bit waiting.blocked1 w i && not (1 == (entry waiting w i).ps1)))
          × (bit (wakeup waiting 1).blocked2 w i
              ≡ (bit waiting.blocked2 w i && not (1 == (entry waiting w i).ps2))))
wakeup_example = wakeup-IsScheduled 3 1 (omega arith) waiting waiting-IsScheduled
