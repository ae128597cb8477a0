-- ===== src/Core/Predictor/Way.antt =====
-- The search of a set of the target buffer, and the choice of the way to replace.
use rv_o.Base.{
  ℕ, zero, suc, ◌+◌, ◌≤◌, ◌<◌, ◌≡◌, refl, sym, ap, ◌∙◌, arith, true, false, ◌&&◌, List, [], ◌∷◌,
  set, get_or-set_self, get_or-set_ne, length, ltb, ◌==◌, if◌then◌else◌, none, some, Bool-cases,
  if-both, inl, inr, some_injective, subst,
}
use rv_o.Core.Predictor.State.{BtbEntry, no_btb_entry}
use rv_o.Core.Predictor.Btb.{hit, way, find_way, victim}

-- No way from `i` to below `j` holds `pc`.
abbrev pub Misses : List BtbEntry → ℕ → ℕ → ℕ → Type 0
Misses btb pc i j = (k : ℕ) → i ≤ k → k < j → hit btb pc k ≡ false

Misses-back :
    (btb : List BtbEntry) (pc i j : ℕ)
    → hit btb pc i ≡ false
    → Misses btb pc (i + 1) j
    → Misses btb pc i j
Misses-back btb pc i j h m k a b = elim (Bool-cases (i == k)) [
  | inl e ↦ subst (λ k. hit btb pc k ≡ false) (ground (arith, e)) h
  | inr e ↦ m k (ground (arith, a, e)) b
]

module _ (btb : List BtbEntry) (pc i left : ℕ) where
  find_way-hit : hit btb pc i ≡ true → find_way btb pc i (suc left) ≡ some i
  unfolding find_way
  find_way-hit h = rw (h, find_way) refl

  find_way-miss : hit btb pc i ≡ false → find_way btb pc i (suc left) ≡ find_way btb pc (i + 1) left
  unfolding find_way
  find_way-miss h = rw (h, find_way) refl

-- Where the search ends, and the ways that it passed by.
pub find_way-some :
    (btb : List BtbEntry) (pc i left j : ℕ)
    → find_way btb pc i left ≡ some j
    → (i ≤ j) × (j < i + left) × Misses btb pc i j
unfolding find_way
find_way-some btb pc i zero j e = absurd (ground (arith, e))
find_way-some btb pc i (suc left) j e = elim (Bool-cases (hit btb pc i)) [
  | inl h ↦
      let at : i ≡ j = some_injective (sym (find_way-hit btb pc i left h) ∙ e) in
      (omega (arith, at), omega (arith, at), λ k a b. absurd (omega (arith, at)))
  | inr h ↦
      let (a, b, m) =
        find_way-some btb pc (i + 1) left j (sym (find_way-miss btb pc i left h) ∙ e) in
      (omega arith, omega arith, Misses-back btb pc i j h m)
]

pub find_way-none :
    (btb : List BtbEntry) (pc i left : ℕ)
    → find_way btb pc i left ≡ none
    → Misses btb pc i (i + left)
find_way-none btb pc i zero e = λ k a b. absurd (omega arith)
find_way-none btb pc i (suc left) e = elim (Bool-cases (hit btb pc i)) [
  | inl h ↦ absurd (ground (arith, e, find_way-hit btb pc i left h))
  | inr h ↦ Misses-back btb pc i (i + suc left) h (
      subst (Misses btb pc (i + 1)) (omega arith)
        (find_way-none btb pc (i + 1) left (sym (find_way-miss btb pc i left h) ∙ e)))
]

-- A new entry for `pc` is found, when no way before it holds `pc`.
pub find_way-set :
    (btb : List BtbEntry) (pc i left j : ℕ) (new : BtbEntry)
    → i ≤ j
    → j < i + left
    → j < length btb
    → hit (new ∷ []) pc 0 ≡ true
    → Misses btb pc i j
    → find_way (set btb j new) pc i left ≡ some j
find_way-set btb pc i zero j new a b l v m = absurd (omega arith)
find_way-set btb pc i (suc left) j new a b l v m = elim (Bool-cases (i == j)) [
  | inl e ↦
      let at : j ≡ i = ground (arith, e) in
      let new_hit : hit (set btb j new) pc j ≡ true =
        ap (λ w. w.valid && w.pc == pc) (get_or-set_self btb j new no_btb_entry l) ∙ v in
      find_way-hit (set btb j new) pc i left
        (subst (λ k. hit (set btb j new) pc k ≡ true) at new_hit)
      ∙ ap some (sym at)
  | inr e ↦
      let miss : hit (set btb j new) pc i ≡ false =
        ap (λ w. w.valid && w.pc == pc)
          (get_or-set_ne btb j i new no_btb_entry (λ q. ground (arith, e, q)))
        ∙ m i (omega arith) (ground (arith, e, a)) in
      find_way-miss (set btb j new) pc i left miss
      ∙ find_way-set btb pc (i + 1) left j new (ground (arith, e, a)) (omega arith) l v
          (λ k c d. m k (omega arith) d)
]

module _ (btb : List BtbEntry) (best i left : ℕ) where
  victim-free : (way btb i).valid ≡ false → victim btb best i (suc left) ≡ i
  unfolding victim
  victim-free h = rw (h, victim) refl

  victim-used :
      (way btb i).valid ≡ true
      → victim btb best i (suc left)
        ≡ victim btb
            (if ltb (way btb i).last_use (way btb best).last_use then i else best)
            (i + 1)
            left
  unfolding victim
  victim-used h = rw (h, victim) refl

-- The replaced way is one of the set.
pub victim-bounds :
    (btb : List BtbEntry) (best i left lo hi : ℕ)
    → lo ≤ best
    → best < hi
    → lo ≤ i
    → i + left ≤ hi
    → (lo ≤ victim btb best i left) × (victim btb best i left < hi)
unfolding victim
victim-bounds btb best i zero lo hi a b c d = (a, b)
victim-bounds btb best i (suc left) lo hi a b c d = elim (Bool-cases ((way btb i).valid)) [
  | inl h ↦
      let older = ltb (way btb i).last_use (way btb best).last_use in
      let next = if older then i else best in
      rw (victim-used btb best i left h) (
        victim-bounds btb next (i + 1) left lo hi
          (if-both (λ n. lo ≤ n) older i best (λ _. c) (λ _. a))
          (if-both (λ n. n < hi) older i best (λ _. omega arith) (λ _. b)) (omega arith)
          (omega arith))
  | inr h ↦ rw (victim-free btb best i left h) (c, omega arith)
]
