-- ===== src/Core/SlotSet/Words.antt =====
-- The loop over the words of a bitmap, and the visit as a whole.
use rv_o.Base.{
  ℕ, zero, suc, ◌+◌, ◌-◌, ◌*◌, ◌/◌, ◌%◌, ◌^◌, ◌≤◌, ◌<◌, ◌≡◌, refl, sym, ap, ◌∙◌, arith, Bool, true,
  false, ◌&&◌, not, List, get_or, leb, ◌==◌, if◌then◌else◌, Bool-cases, inl, inr, bit_and,
  bit_and_mask, test_bit,
}
use native.Mathlib.Nat.{mod-lt, one-le-pow}
use rv_o.Core.SlotSet.Visit.{
  forward_bits, cut, ones_from, forward_words, forward, visit, visit_word,
}
use rv_o.Core.SlotSet.Bits.{test_bit-div, test_bit-mod, bit_and-ones_from, shifted-lt}
use rv_o.Core.SlotSet.Order.{reads, walk, IsLocal, forward_bits-walk}
use rv_o.Core.SlotSet.Range.{lo, hi, cut-range}
use rv_o.Core.SlotSet.Walk.{
  after, if-after, fst-after, skip-after, after-skip, first_word, walk-add, walk-skip, walk-ok,
}

module _ {ℓ} {S : Type ℓ} (f : S → ℕ → S × Bool) (words : S → List ℕ) where
  module _ {κ} (ok : S → Type κ) (h : IsLocal f words ok) where
    -- The loop over one word.
    word-walk :
        (begin end w : ℕ) (s : S)
        → ok s
        → 0 < end
        → lo begin w < hi end w
        → forward_bits f 64 (cut f words begin end w s) (w * 64) s
          ≡ walk f words (w * 64 + lo begin w) (hi end w - lo begin w) s
    word-walk begin end w s o p l =
        let bits = get_or (words s) w 0 in
        let low = lo begin w in
        let n = hi end w - low in
        let top : hi end w ≤ 64 = ground arith in
        ap (λ (b : ℕ). forward_bits f 64 b (w * 64) s)
          (cut-range f words begin end w s (h.small s w o) p l)
        ∙ forward_bits-walk f words ok h n low 64 (bits / 2 ^ low % 2 ^ n) (w * 64) s o
            (omega (arith, top)) (omega (arith, top, l))
            (mod-lt (bits / 2 ^ low) (one-le-pow n 2 (omega arith)))
            (λ j b.
              let q : (w * 64 + (low + j)) / 64 ≡ w = omega (arith, b, top, l) in
              let r : (w * 64 + (low + j)) % 64 ≡ low + j = omega (arith, b, top, l) in
              ap (λ i. test_bit (get_or (words s) i 0) ((w * 64 + (low + j)) % 64)) q
              ∙ ap (test_bit bits) r
              ∙ sym (test_bit-mod n (bits / 2 ^ low) j b ∙ test_bit-div low bits j))

    forward_words-walk :
        (begin end left w : ℕ) (s : S)
        → ok s
        → begin < end
        → begin / 64 ≤ w
        → w + left ≡ (end - 1) / 64 + 1
        → forward_words f words begin end w left s
          ≡ walk f words (w * 64 + lo begin w) (end - (w * 64 + lo begin w)) s
    unfolding forward_words
    forward_words-walk begin end zero w s o b wb e =
        let done : end - (w * 64 + lo begin w) ≡ 0 = ground (arith, b, wb, e) in
        sym (ap (λ n. walk f words (w * 64 + lo begin w) n s) done ∙ unfold walk in refl)
    forward_words-walk begin end (suc left) w s o b wb e =
        let start = w * 64 + lo begin w in
        let n = hi end w - lo begin w in
        let s' = (walk f words start n s).0 in
        let some_bits : lo begin w < hi end w = ground (arith, b, wb, e) in
        let rest =
          forward_words-walk begin end left (w + 1) s' (walk-ok f words ok h n start s o) b
            (omega (arith, wb)) (omega (arith, e)) in
        let whole : end - start ≡ n + (end - (start + n)) = ground (arith, b, wb, e) in
        let continue : walk f words ((w + 1) * 64 + lo begin (w + 1))
              (end - ((w + 1) * 64 + lo begin (w + 1))) s'
            ≡ walk f words (start + n) (end - (start + n)) s' =
          elim (Bool-cases (w == (end - 1) / 64)) [
            | inl q ↦
                let none : end - ((w + 1) * 64 + lo begin (w + 1)) ≡ 0 =
                  ground (arith, b, wb, e, q) in
                let none' : end - (start + n) ≡ 0 = ground (arith, b, wb, e, q) in
                unfold walk in
                (ap (λ k. walk f words ((w + 1) * 64 + lo begin (w + 1)) k s') none
                  ∙ sym (ap (λ k. walk f words (start + n) k s') none'))
            | inr q ↦
                let same : (w + 1) * 64 + lo begin (w + 1) ≡ start + n =
                  ground (arith, b, wb, e, q) in
                ap (λ a. walk f words a (end - a) s') same
          ] in
        ap
          (λ (x : S × Bool).
            if x.1 then forward_words f words begin end (w + 1) left x.0 else (x.0, false))
          (word-walk begin end w s o (omega (arith, b)) some_bits)
        ∙ ap (λ (x : S × Bool). if (walk f words start n s).1 then x else (s', false))
            (rest ∙ continue)
        ∙ if-after (walk f words start n s) (walk f words (start + n) (end - (start + n)))
        ∙ sym (walk-add f words n (end - (start + n)) start s)
        ∙ ap (λ k. walk f words start k s) (sym whole)

    forward-walk :
        (begin end : ℕ) (s : S)
        → ok s
        → begin ≤ end
        → forward f words begin end s ≡ walk f words begin (end - begin) s
    unfolding forward
    forward-walk begin end s o b = elim (Bool-cases (begin == end)) [
      | inl e ↦
          let none : end - begin ≡ 0 = ground (arith, e) in
          ap
            (λ t.
              if t
              then (s, true)
              else forward_words f words begin end (begin / 64) ((end - 1) / 64 + 1 - begin / 64) s)
            e
          ∙ sym (ap (λ n. walk f words begin n s) none ∙ unfold walk in refl)
      | inr e ↦
          let start : begin / 64 * 64 + lo begin (begin / 64) ≡ begin = ground arith in
          ap
            (λ t.
              if t
              then (s, true)
              else forward_words f words begin end (begin / 64) ((end - 1) / 64 + 1 - begin / 64) s)
            e
          ∙ forward_words-walk begin end ((end - 1) / 64 + 1 - begin / 64) (begin / 64) s o
              (ground (arith, e, b)) (omega arith) (ground (arith, e, b))
          ∙ ap (λ a. walk f words a (end - a) s) start
    ]

    one_word :
        (capacity head : ℕ) (s : S)
        → ok s
        → head < capacity
        → capacity ≤ 64
        → ((t : S) (a : ℕ) → ok t → capacity ≤ a → reads f words t a ≡ false)
        → visit_word f words head s
          ≡ (after (walk f words head (capacity - head) s) (walk f words 0 head)).0
    unfolding visit_word
    one_word capacity head s o l c bounded =
        let bits = get_or (words s) 0 0 in
        let x = walk f words head (capacity - head) s in
        let old = get_or (words x.0) 0 0 in
        let upper_bits : forward_bits f 64 (bit_and bits (ones_from head)) 0 s ≡ x =
          ap (λ (b : ℕ). forward_bits f 64 b 0 s)
            (bit_and-ones_from head bits (omega (arith, l, c)) (h.small s 0 o))
          ∙ forward_bits-walk f words ok h (64 - head) head 64 (bits / 2 ^ head) 0 s o (omega arith)
              (omega (arith, l, c)) (shifted-lt head bits (omega (arith, l, c)) (h.small s 0 o))
              (λ j b.
                first_word f words s (head + j) (omega (arith, b)) ∙ sym (test_bit-div head bits j))
          ∙ ap (λ a. walk f words a (64 - head) s) {y = head} (omega arith)
          ∙ ap (λ n. walk f words head n s) {y = capacity - head + (64 - capacity)}
              (omega (arith, l, c))
          ∙ walk-add f words (capacity - head) (64 - capacity) head s
          ∙ after-skip x (walk f words (head + (capacity - head)) (64 - capacity)) (
              walk-skip f words (64 - capacity) (head + (capacity - head)) x.0 (λ b a m.
                bounded x.0 b (walk-ok f words ok h (capacity - head) head s o)
                  (omega (arith, a, l)))) in
        let lower_bits : forward_bits f 64 (bit_and old (2 ^ head - 1)) 0 x.0
            ≡ walk f words 0 head x.0 =
          let kept = walk-ok f words ok h (capacity - head) head s o in
          let one : old % 2 ^ head ≡ old % 2 ^ head * 2 ^ 0 = omega arith in
          ap (λ (b : ℕ). forward_bits f 64 b 0 x.0) (bit_and_mask head old ∙ one)
          ∙ forward_bits-walk f words ok h head 0 64 (old % 2 ^ head) 0 x.0 kept
              (omega (arith, l, c)) (omega (arith, l, c))
              (mod-lt old (one-le-pow head 2 (omega arith)))
              (λ j b.
                first_word f words x.0 (0 + j) (omega (arith, b, l, c))
                ∙ ap (test_bit old) {y = j} (omega arith)
                ∙ sym (test_bit-mod head old j b)) in
        ap
          (λ (y : S × Bool).
            if y.1 && not (head == 0)
            then (forward_bits f 64 (bit_and (get_or (words y.0) 0 0) (2 ^ head - 1)) 0 y.0).0
            else y.0)
          upper_bits
        ∙ ap (λ (y : S × Bool). if x.1 && not (head == 0) then y.0 else x.0) lower_bits
        ∙ skip-after x (head == 0) (walk f words 0 head) (λ e.
          let none : head ≡ 0 = ground (arith, e) in
          ap (λ n. walk f words 0 n x.0) none ∙ unfold walk in refl)

    abbrev two_runs : ℕ → ℕ → S → S
    two_runs capacity head s =
        let (s1, go) = forward f words head capacity s in
        let (s2, _) = forward f words 0 head s1 in if go then s2 else s1

    many_words :
        (capacity head : ℕ) (s : S)
        → ok s
        → head < capacity
        → two_runs capacity head s
          ≡ (after (walk f words head (capacity - head) s) (walk f words 0 head)).0
    many_words capacity head s o l =
        let x = walk f words head (capacity - head) s in
        ap (λ (y : S × Bool). if y.1 then (forward f words 0 head y.0).0 else y.0)
          (forward-walk head capacity s o (omega (arith, l)))
        ∙ ap (λ (y : S × Bool). if x.1 then y.0 else x.0)
            (forward-walk 0 head x.0 (walk-ok f words ok h (capacity - head) head s o) (omega arith)
              ∙ ap (λ n. walk f words 0 n x.0) {y = head} (omega arith))
        ∙ fst-after x (walk f words 0 head)

    -- On a set of `capacity` slots that has no member from there on, the visit is the walk from the
    -- head to the last slot, and, if the visitor has not stopped it, from slot 0 to the head: it calls
    -- the visitor at every slot that is a member when the walk comes to it, and at no other, as long
    -- as the visitor changes no other slot's membership.
    pub in_order :
        (capacity head : ℕ) (s : S)
        → ok s
        → head < capacity
        → ((t : S) (a : ℕ) → ok t → capacity ≤ a → reads f words t a ≡ false)
        → visit f words capacity head s
          ≡ (after (walk f words head (capacity - head) s) (walk f words 0 head)).0
    unfolding visit
    in_order capacity head s o l bounded = elim (Bool-cases (leb capacity 64)) [
      | inl e ↦
          ap (λ t. if t then visit_word f words head s else two_runs capacity head s) e
          ∙ one_word capacity head s o l (ground (arith, e)) bounded
      | inr e ↦
          ap (λ t. if t then visit_word f words head s else two_runs capacity head s) e
          ∙ many_words capacity head s o l
    ]
