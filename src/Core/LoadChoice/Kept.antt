-- ===== src/Core/LoadChoice/Kept.antt =====
-- core/slot_set.h: predicates on the visitor's state, over a visit.
use rv_o.Base.{
  ℕ, zero, suc, ◌+◌, ◌-◌, ◌*◌, ◌/◌, ◌^◌, Bool, ◌&&◌, not, List, get_or, ◌==◌, leb, if◌then◌else◌,
  bit_and, bit_not, true, false,
}
use rv_o.Core.SlotSet.Visit.{
  ones_from, ctz, high_bit, cut, forward_bits, reverse_bits, forward_words, reverse_words, forward,
  reverse, visit_word, visit, visit_older,
}

-- After a call, or after a part of a visit.
abbrev pub Ends {ℓ κ} : {S : Type ℓ} (going done : S → Type κ) → S × Bool → Type κ
Ends going done (s, true) = going s
Ends going done (s, false) = done s

module _ {ℓ κ} {S : Type ℓ} (f : S → ℕ → S × Bool) (words : S → List ℕ) (going done : S → Type κ)
    (stop : (s : S) → going s → done s)
    (h : (s : S) (slot : ℕ) → going s → Ends going done (f s slot)) where
  abbrev After : S × Bool → Type κ
  After = Ends going done

  either : (t : Bool) (x y : S × Bool) → After x → After y → After (if t then x else y)
  either true x y a b = a
  either false x y a b = b

  go_on :
      (x y : S × Bool) → After x → (going x.0 → After y) → After (if x.1 then y else (x.0, false))
  go_on (s, true) y e k = k e
  go_on (s, false) y e k = e

  finish : (x : S × Bool) → After x → done x.0
  finish (s, true) e = stop s e
  finish (s, false) e = e

  two_runs :
      (x : S × Bool) (more : Bool) (y : S × Bool)
      → After x
      → (going x.0 → After y)
      → done (if x.1 && more then y.0 else x.0)
  two_runs (s, true) true y e k = finish y (k e)
  two_runs (s, true) false y e k = stop s e
  two_runs (s, false) more y e k = e

  two_halves : (x y : S × Bool) → After x → (going x.0 → After y) → done (if x.1 then y.0 else x.0)
  two_halves (s, true) y e k = finish y (k e)
  two_halves (s, false) y e k = e

  forward_bits-ends :
      (fuel bits base : ℕ) (s : S) → going s → After (forward_bits f fuel bits base s)
  unfolding forward_bits
  forward_bits-ends zero bits base s k = k
  forward_bits-ends (suc fuel) bits base s k =
      let x = f s (base + ctz 64 bits) in
      let rest = forward_bits f fuel (bit_and bits (bits - 1)) base x.0 in
      either (bits == 0) (s, true) _ k
        (go_on x rest (h s (base + ctz 64 bits) k)
          (λ p. forward_bits-ends fuel (bit_and bits (bits - 1)) base x.0 p))

  reverse_bits-ends :
      (fuel bits base : ℕ) (s : S) → going s → After (reverse_bits f fuel bits base s)
  unfolding reverse_bits
  reverse_bits-ends zero bits base s k = k
  reverse_bits-ends (suc fuel) bits base s k =
      let x = f s (base + high_bit 64 bits) in
      let rest = reverse_bits f fuel (bit_and bits (bit_not 64 (2 ^ high_bit 64 bits))) base x.0 in
      either (bits == 0) (s, true) _ k
        (go_on x rest (h s (base + high_bit 64 bits) k) (λ p.
          reverse_bits-ends fuel (bit_and bits (bit_not 64 (2 ^ high_bit 64 bits))) base x.0 p))

  forward-ends : (begin end : ℕ) (s : S) → going s → After (forward f words begin end s)
  unfolding forward forward_words
  forward-ends begin end s k =
      let w = begin / 64 in
      let left = (end - 1) / 64 + 1 - begin / 64 in
      either (begin == end) (s, true) (forward_words f words begin end w left s) k (many w left s k)
    where
      many : (w left : ℕ) (t : S) → going t → After (forward_words f words begin end w left t)
      many w zero t k = k
      many w (suc left) t k =
          let x = forward_bits f 64 (cut f words begin end w t) (w * 64) t in
          go_on x (forward_words f words begin end (w + 1) left x.0)
            (forward_bits-ends 64 (cut f words begin end w t) (w * 64) t k)
            (λ p. many (w + 1) left x.0 p)

  reverse-ends : (begin end : ℕ) (s : S) → going s → After (reverse f words begin end s)
  unfolding reverse reverse_words
  reverse-ends begin end s k =
      let w = begin / 64 in
      let left = (end - 1) / 64 + 1 - begin / 64 in
      either (begin == end) (s, true) (reverse_words f words begin end w left s) k (many w left s k)
    where
      many : (w left : ℕ) (t : S) → going t → After (reverse_words f words begin end w left t)
      many w zero t k = k
      many w (suc left) t k =
          let x = reverse_bits f 64 (cut f words begin end (w + left) t) ((w + left) * 64) t in
          go_on x (reverse_words f words begin end w left x.0)
            (reverse_bits-ends 64 (cut f words begin end (w + left) t) ((w + left) * 64) t k)
            (λ p. many w left x.0 p)

  visit_word-done : (head : ℕ) (s : S) → going s → done (visit_word f words head s)
  unfolding visit_word
  visit_word-done head s k =
      let first = bit_and (get_or (words s) 0 0) (ones_from head) in
      let x = forward_bits f 64 first 0 s in
      let rest = bit_and (get_or (words x.0) 0 0) (2 ^ head - 1) in
      two_runs x (not (head == 0)) (forward_bits f 64 rest 0 x.0) (forward_bits-ends 64 first 0 s k)
        (λ p. forward_bits-ends 64 rest 0 x.0 p)

  either_state : (t : Bool) (x y : S) → done x → done y → done (if t then x else y)
  either_state true x y a b = a
  either_state false x y a b = b

  pub visit-done : (capacity head : ℕ) (s : S) → going s → done (visit f words capacity head s)
  unfolding visit
  visit-done capacity head s k =
      let x = forward f words head capacity s in
      let y = forward f words 0 head x.0 in
      either_state (leb capacity 64) (visit_word f words head s) (if x.1 then y.0 else x.0)
        (visit_word-done head s k)
        (two_halves x y (forward-ends head capacity s k) (λ p. forward-ends 0 head x.0 p))

  pub visit_older-done :
      (capacity head end : ℕ) (s : S) → going s → done (visit_older f words capacity head end s)
  unfolding visit_older
  visit_older-done capacity head end s k =
      let x = reverse f words 0 end s in
      let y = reverse f words head capacity x.0 in
      either_state (leb head end) (reverse f words head end s).0 (if x.1 then y.0 else x.0)
        (finish (reverse f words head end s) (reverse-ends head end s k))
        (two_halves x y (reverse-ends 0 end s k) (λ p. reverse-ends head capacity x.0 p))

-- What every call keeps, a visit keeps.
module _ {ℓ κ} {S : Type ℓ} (f : S → ℕ → S × Bool) (words : S → List ℕ) (kept : S → Type κ)
    (h : (s : S) (slot : ℕ) → kept s → kept (f s slot).0) where
  kept_after : (x : S × Bool) → kept x.0 → Ends kept kept x
  kept_after (s, true) k = k
  kept_after (s, false) k = k

  pub visit_older-kept :
      (capacity head end : ℕ) (s : S) → kept s → kept (visit_older f words capacity head end s)
  visit_older-kept =
      visit_older-done f words kept kept (λ s k. k) (λ s slot k. kept_after (f s slot) (h s slot k))
