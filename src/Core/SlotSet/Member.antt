-- ===== src/Core/SlotSet/Member.antt =====
-- The slots that a bitmap holds.
use rv_o.Base.{
  ℕ, ◌+◌, ◌/◌, ◌%◌, ◌^◌, ◌≤◌, ◌<◌, ◌≡◌, ap, ◌∙◌, arith, Bool, false, ◌&&◌, ◌||◌, not, length,
  get_or, get_or-set, length-set, length-replicate, lt→ltb, Bool-cases, inl, inr, get_or-replicate,
  ◌==◌, bit_and, bit_or, bit_not, test_bit, test_bit-bit_and, test_bit-bit_or, test_bit-bit_not,
  test_bit-zero, test_bit-two_pow, bit_or-lt, bit_and-le,
}
use native.Mathlib.Nat.{pow-le-pow_right}
use rv_o.Core.SlotSet.{SlotSet, make, insert, erase}

-- Is the slot in the set?
unfoldable pub member : SlotSet → ℕ → Bool
member s slot = test_bit (get_or s.words (slot / 64) 0) (slot % 64)

pub record IsSized (s : SlotSet) : Type 0 where
  pub enough : length s.words ≡ (s.capacity + 63) / 64
  pub word : (w : ℕ) → get_or s.words w 0 < 2 ^ 64
  pub inside : (slot : ℕ) → s.capacity ≤ slot → member s slot ≡ false

bit-lt : (i : ℕ) → i < 64 → 2 ^ i < 2 ^ 64
bit-lt i l = omega (arith, pow-le-pow_right {n = 2} (omega arith) {i = i} {j = 63} (omega arith))

pub member-make : (capacity slot : ℕ) → member (make capacity) slot ≡ false
unfolding make member
member-make capacity slot =
    ap (λ v. test_bit v (slot % 64)) (get_or-replicate ((capacity + 63) / 64) (slot / 64) 0)
    ∙ test_bit-zero (slot % 64)

pub make-IsSized : (capacity : ℕ) → IsSized (make capacity)
unfolding make
make-IsSized capacity = record {
  enough = length-replicate ((capacity + 63) / 64) 0;
  word =
      λ w. let zeros = get_or-replicate {A = ℕ} ((capacity + 63) / 64) w 0 in omega (arith, zeros);
  inside = λ slot b. unfold make in member-make capacity slot;
}

module _ (s : SlotSet) (h : IsSized s) (a : ℕ) (l : a < s.capacity) where
  pub member-insert : (b : ℕ) → member (insert s a) b ≡ (a == b || member s b)
  unfolding insert member
  member-insert b =
      let i = a / 64 in
      let old = get_or s.words i 0 in
      let there : i < length s.words = omega (arith, h.enough) in
      elim (Bool-cases (i == b / 64)) [
        | inl e ↦
            let at : b / 64 ≡ i = ground arith in
            rw
              (
                get_or-set s.words i (b / 64) (bit_or old (2 ^ (a % 64))) 0,
                e,
                lt→ltb i (length s.words) there,
              )
              (ground (
                arith,
                test_bit-bit_or old (2 ^ (a % 64)) (b % 64),
                test_bit-two_pow (a % 64) (b % 64),
                ap (λ w. test_bit (get_or s.words w 0) (b % 64)) at,
              ))
        | inr e ↦ rw (get_or-set s.words i (b / 64) (bit_or old (2 ^ (a % 64))) 0, e) (ground arith)
      ]

  pub member-erase : (b : ℕ) → member (erase s a) b ≡ (not (a == b) && member s b)
  unfolding erase member
  member-erase b =
      let i = a / 64 in
      let old = get_or s.words i 0 in
      let mask = bit_not 64 (2 ^ (a % 64)) in
      let there : i < length s.words = omega (arith, h.enough) in
      elim (Bool-cases (i == b / 64)) [
        | inl e ↦
            let at : b / 64 ≡ i = ground arith in
            rw
              (
                get_or-set s.words i (b / 64) (bit_and old mask) 0,
                e,
                lt→ltb i (length s.words) there,
              )
              (ground (
                arith,
                test_bit-bit_and old mask (b % 64),
                test_bit-bit_not 64 (2 ^ (a % 64)) (b % 64) (bit-lt (a % 64) (omega arith))
                    (omega arith),
                test_bit-two_pow (a % 64) (b % 64),
                ap (λ w. test_bit (get_or s.words w 0) (b % 64)) at,
              ))
        | inr e ↦ rw (get_or-set s.words i (b / 64) (bit_and old mask) 0, e) (ground arith)
      ]

  pub insert-IsSized : IsSized (insert s a)
  unfolding insert
  insert-IsSized = record {
    enough = length-set s.words (a / 64) _ ∙ h.enough;
    word = λ w. ground (
      arith,
      get_or-set s.words (a / 64) w (bit_or (get_or s.words (a / 64) 0) (2 ^ (a % 64))) 0,
      h.word w,
      bit_or-lt 64 (get_or s.words (a / 64) 0) (2 ^ (a % 64)) (h.word (a / 64))
          (bit-lt (a % 64) (omega arith)),
    );
    inside = λ b c. unfold insert in (member-insert b ∙ ground (arith, h.inside b c, l, c));
  }

  pub erase-IsSized : IsSized (erase s a)
  unfolding erase
  erase-IsSized = record {
    enough = length-set s.words (a / 64) _ ∙ h.enough;
    word = λ w.
        let old = get_or s.words (a / 64) 0 in
        let mask = bit_not 64 (2 ^ (a % 64)) in
        ground (
          arith,
          get_or-set s.words (a / 64) w (bit_and old mask) 0,
          h.word w,
          h.word (a / 64),
          bit_and-le 64 old mask (h.word (a / 64)),
        );
    inside = λ b c. unfold erase in (member-erase b ∙ ground (arith, h.inside b c));
  }
