-- ===== src/Core/SlotSet/Older.antt =====
-- The visit of the older slots as a whole.
use rv_o.Base.{
  ℕ, zero, suc, ◌+◌, ◌-◌, ◌*◌, ◌/◌, ◌%◌, ◌^◌, ◌≤◌, ◌<◌, ◌≡◌, refl, sym, ap, ◌∙◌, arith, Bool, true,
  false, List, get_or, leb, ◌==◌, if◌then◌else◌, if-both, Bool-cases, inl, inr, test_bit,
}
use native.Mathlib.Nat.{one-le-pow, mod-lt}
use rv_o.Core.SlotSet.Visit.{reverse_bits, cut, reverse_words, reverse, visit_older}
use rv_o.Core.SlotSet.Bits.{test_bit-div, test_bit-mod}
use rv_o.Core.SlotSet.Order.{reads, IsLocal}
use rv_o.Core.SlotSet.Range.{lo, hi, cut-range}
use rv_o.Core.SlotSet.Walk.{after, if-after, after-if, fst-after}
use rv_o.Core.SlotSet.Newest.{walk_down, reverse_bits-walk}

module _ {ℓ} {S : Type ℓ} (f : S → ℕ → S × Bool) (words : S → List ℕ) where
  -- The upper part comes first.
  walk_down-add :
      (n m a : ℕ) (s : S)
      → walk_down f words a (m + n) s
        ≡ after (walk_down f words (a + m) n s) (walk_down f words a m)
  unfolding walk_down
  walk_down-add zero m a s =
      let left : m + 0 ≡ m = omega arith in
      ap (λ k. walk_down f words a k s) left ∙ unfold after in refl
  walk_down-add (suc n) m a s =
      let left : m + suc n ≡ suc (m + n) = omega arith in
      let slot : a + (m + n) ≡ a + m + n = omega arith in
      let below_it = walk_down f words a m in
      let branch : ℕ → S × Bool = λ x.
        if reads f words s x
        then if (f s x).1 then walk_down f words a (m + n) (f s x).0 else ((f s x).0, false)
        else walk_down f words a (m + n) s in
      let x = a + m + n in
      let s' = (f s x).0 in
      ap (λ k. walk_down f words a k s) left
      ∙ ap branch slot
      ∙ ap
          (λ y.
            if reads f words s x
            then if (f s x).1 then y else (s', false)
            else walk_down f words a (m + n) s)
          (walk_down-add n m a s')
      ∙ ap
          (λ y.
            if reads f words s x
            then if (f s x).1 then after (walk_down f words (a + m) n s') below_it else (s', false)
            else y)
          (walk_down-add n m a s)
      ∙ after-if (reads f words s x) (f s x).1 s' (walk_down f words (a + m) n s')
          (walk_down f words (a + m) n s) below_it

  module _ {κ} (ok : S → Type κ) (h : IsLocal f words ok) where
    pub walk_down-ok : (n a : ℕ) (s : S) → ok s → ok (walk_down f words a n s).0
    unfolding walk_down
    walk_down-ok zero a s o = o
    walk_down-ok (suc n) a s o =
        let x = a + n in
        if-both (λ (y : S × Bool). ok y.0) (reads f words s x) _ _
          (λ r.
            if-both (λ (y : S × Bool). ok y.0) (f s x).1 _ _
              (λ g. walk_down-ok n a (f s x).0 (h.keeps s x o r)) (λ g. h.keeps s x o r))
          (λ r. walk_down-ok n a s o)

    -- The loop over one word.
    word-walk_down :
        (begin end w : ℕ) (s : S)
        → ok s
        → 0 < end
        → lo begin w < hi end w
        → reverse_bits f 64 (cut f words begin end w s) (w * 64) s
          ≡ walk_down f words (w * 64 + lo begin w) (hi end w - lo begin w) s
    word-walk_down begin end w s o p l =
        let bits = get_or (words s) w 0 in
        let low = lo begin w in
        let n = hi end w - low in
        let top : hi end w ≤ 64 = ground arith in
        ap (λ (b : ℕ). reverse_bits f 64 b (w * 64) s)
          (cut-range f words begin end w s (h.small s w o) p l)
        ∙ reverse_bits-walk f words ok h n low 64 (bits / 2 ^ low % 2 ^ n) (w * 64) s o
            (omega (arith, top)) (omega (arith, top, l))
            (mod-lt (bits / 2 ^ low) (one-le-pow n 2 (omega arith)))
            (λ j b.
              let q : (w * 64 + (low + j)) / 64 ≡ w = omega (arith, b, top, l) in
              let r : (w * 64 + (low + j)) % 64 ≡ low + j = omega (arith, b, top, l) in
              ap (λ i. test_bit (get_or (words s) i 0) ((w * 64 + (low + j)) % 64)) q
              ∙ ap (test_bit bits) r
              ∙ sym (test_bit-mod n (bits / 2 ^ low) j b ∙ test_bit-div low bits j))

    -- The end of what the words from that of `begin` on cover.
    abbrev reach : ℕ → ℕ → ℕ → ℕ
    reach begin end left =
        if begin / 64 + left == (end - 1) / 64 + 1 then end else (begin / 64 + left) * 64

    reverse_words-walk :
        (begin end left : ℕ) (s : S)
        → ok s
        → begin < end
        → begin / 64 + left ≤ (end - 1) / 64 + 1
        → reverse_words f words begin end (begin / 64) left s
          ≡ walk_down f words begin (reach begin end left - begin) s
    unfolding reverse_words
    reverse_words-walk begin end zero s o b e =
        let none : reach begin end 0 - begin ≡ 0 = ground (arith, b, e) in
        sym (ap (λ n. walk_down f words begin n s) none ∙ unfold walk_down in refl)
    reverse_words-walk begin end (suc left) s o b e =
        let w = begin / 64 + left in
        let start = w * 64 + lo begin w in
        let n = hi end w - lo begin w in
        let m = start - begin in
        let s' = (walk_down f words start n s).0 in
        let some_bits : lo begin w < hi end w = ground (arith, b, e) in
        let rest =
          reverse_words-walk begin end left s' (walk_down-ok n start s o) b (omega (arith, e)) in
        let count : reach begin end left - begin ≡ m = ground (arith, b, e) in
        let whole : reach begin end (suc left) - begin ≡ m + n = ground (arith, b, e) in
        let from : start ≡ begin + m = ground (arith, b, e) in
        ap
          (λ (x : S × Bool).
            if x.1 then reverse_words f words begin end (begin / 64) left x.0 else (x.0, false))
          (word-walk_down begin end w s o (omega (arith, b)) some_bits)
        ∙ ap (λ (x : S × Bool). if (walk_down f words start n s).1 then x else (s', false))
            (rest ∙ ap (λ k. walk_down f words begin k s') count)
        ∙ if-after (walk_down f words start n s) (walk_down f words begin m)
        ∙ ap (λ a. after (walk_down f words a n s) (walk_down f words begin m)) from
        ∙ sym (walk_down-add n m begin s)
        ∙ ap (λ k. walk_down f words begin k s) (sym whole)

    reverse-walk_down :
        (begin end : ℕ) (s : S)
        → ok s
        → begin ≤ end
        → reverse f words begin end s ≡ walk_down f words begin (end - begin) s
    unfolding reverse
    reverse-walk_down begin end s o b =
        let all_words = (end - 1) / 64 + 1 - begin / 64 in
        let loop = reverse_words f words begin end (begin / 64) all_words s in
        elim (Bool-cases (begin == end)) [
          | inl e ↦
              let none : end - begin ≡ 0 = ground (arith, e) in
              ap (λ t. if t then (s, true) else loop) e
              ∙ sym (ap (λ n. walk_down f words begin n s) none ∙ unfold walk_down in refl)
          | inr e ↦
              let whole : reach begin end all_words - begin ≡ end - begin = ground (arith, e, b) in
              ap (λ t. if t then (s, true) else loop) e
              ∙ reverse_words-walk begin end all_words s o (ground (arith, e, b))
                  (ground (arith, e, b))
              ∙ ap (λ n. walk_down f words begin n s) whole
        ]

    -- The visit of the slots older than `end`: those from `end` down to the head, or, where the ring
    -- has wrapped, down to slot 0 and then from the last slot down to the head. The visitor is called
    -- at every slot that is a member when the walk comes to it, and at no other, as long as it
    -- changes no other slot's membership.
    pub older_in_order :
        (capacity head end : ℕ) (s : S)
        → ok s
        → head < capacity
        → end < capacity
        → visit_older f words capacity head end s ≡ (
            if leb head end
            then (walk_down f words head (end - head) s).0
            else (after (walk_down f words 0 end s) (walk_down f words head (capacity - head))).0)
    unfolding visit_older
    older_in_order capacity head end s o l m = elim (Bool-cases (leb head end)) [
      | inl e ↦
          rw e (ap (λ (x : S × Bool). x.0) (reverse-walk_down head end s o (ground (arith, e))))
      | inr e ↦
          let x = walk_down f words 0 end s in
          let first : reverse f words 0 end s ≡ x =
            reverse-walk_down 0 end s o (omega arith)
            ∙ ap (λ n. walk_down f words 0 n s) {y = end} (omega arith) in
          rw e (
            ap (λ (y : S × Bool). if y.1 then (reverse f words head capacity y.0).0 else y.0) first
            ∙ ap (λ (y : S × Bool). if x.1 then y.0 else x.0)
                (reverse-walk_down head capacity x.0 (walk_down-ok end 0 s o) (omega (arith, l)))
            ∙ fst-after x (walk_down f words head (capacity - head)))
    ]
