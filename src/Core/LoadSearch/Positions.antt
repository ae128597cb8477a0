-- ===== src/Core/LoadSearch/Positions.antt =====
-- core/slot_set.h: the visit of the older stores, by positions of the ring.
use rv_o.Base.{
  ℕ, zero, suc, ◌+◌, ◌-◌, ◌≤◌, ◌<◌, ◌≡◌, refl, sym, ap, ◌∙◌, arith, Bool, true, false, List, leb,
  if◌then◌else◌, Bool-cases, inl, inr,
}
use rv_o.Core.Ring.{Ring, index_of, nth}
use rv_o.Core.Ring.Index.{IsValid, index_of_split}
use rv_o.Core.SlotSet.Visit.{visit_older}
use rv_o.Core.SlotSet.Order.{reads, IsLocal}
use rv_o.Core.SlotSet.Walk.{after, after-if, after-same}
use rv_o.Core.SlotSet.Newest.{walk_down}
use rv_o.Core.SlotSet.Older.{older_in_order, walk_down-ok}
use rv_o.Core.Lsq.{LsqEntry, fresh}

module _ {ℓ} {S : Type ℓ} (f : S → ℕ → S × Bool) (p : LsqEntry → Bool) (r : Ring LsqEntry) where
  -- The entries with the property from position `a + n - 1` of the ring down to `a`.
  unfoldable pub down : ℕ → ℕ → S → S × Bool
  down a zero s = (s, true)
  down a (suc n) s =
      let (s', go) = f s (index_of r (a + n)) in
      let rest = down a n s' in
      let skip = down a n s in
      if p (nth fresh r (a + n)) then if go then rest else (s', false) else skip

  down-add : (n m a : ℕ) (s : S) → down a (m + n) s ≡ after (down (a + m) n s) (down a m)
  unfolding down
  down-add zero m a s =
      let left : m + 0 ≡ m = omega arith in ap (λ k. down a k s) left ∙ unfold after in refl
  down-add (suc n) m a s =
      let left : m + suc n ≡ suc (m + n) = omega arith in
      let place : a + (m + n) ≡ a + m + n = omega arith in
      let k = a + m + n in
      let s' = (f s (index_of r k)).0 in
      let branch : ℕ → S × Bool = λ x.
        if p (nth fresh r x)
        then if (f s (index_of r x)).1
          then down a (m + n) (f s (index_of r x)).0
          else ((f s (index_of r x)).0, false)
        else down a (m + n) s in
      ap (λ x. down a x s) left
      ∙ ap branch place
      ∙ ap
          (λ y.
            if p (nth fresh r k)
            then if (f s (index_of r k)).1 then y else (s', false)
            else down a (m + n) s)
          (down-add n m a s')
      ∙ ap
          (λ y.
            if p (nth fresh r k)
            then if (f s (index_of r k)).1
              then after (down (a + m) n s') (down a m)
              else (s', false)
            else y)
          (down-add n m a s)
      ∙ after-if (p (nth fresh r k)) (f s (index_of r k)).1 s' (down (a + m) n s')
          (down (a + m) n s) (down a m)

  module _ {κ} (words : S → List ℕ) (ok : S → Type κ) (h : IsLocal f words ok) (v : IsValid r)
      (same : (s : S) (k : ℕ)
        → ok s
        → k < r.n
        → reads f words s (index_of r k) ≡ p (nth fresh r k)) where
    walk_down-down :
        (n a b : ℕ) (s : S)
        → ok s
        → a + n ≤ r.n
        → ((j : ℕ) → j < n → b + j ≡ index_of r (a + j))
        → walk_down f words b n s ≡ down a n s
    unfolding walk_down down
    walk_down-down zero a b s o l e = refl
    walk_down-down (suc n) a b s o l e =
        let k = a + n in
        let slot = index_of r k in
        let here = e n (omega arith) in
        let s' = (f s slot).0 in
        let read : reads f words s slot ≡ p (nth fresh r k) = same s k o (omega (arith, l)) in
        let walked : ℕ → S × Bool =
          λ x. if (f s x).1 then walk_down f words b n (f s x).0 else ((f s x).0, false) in
        let found : S × Bool = if (f s slot).1 then down a n s' else (s', false) in
        let shorter : (j : ℕ) → j < n → b + j ≡ index_of r (a + j) =
          λ j q. e j (omega (arith, q)) in
        ap (λ x. if reads f words s x then walked x else walk_down f words b n s) here
        ∙ ap (λ t. if t then walked slot else walk_down f words b n s) read
        ∙ ap (λ y. if p (nth fresh r k) then walked slot else y)
            (walk_down-down n a b s o (omega (arith, l)) shorter)
        ∙ elim (Bool-cases (p (nth fresh r k))) [
          | inr out ↦
              ap (λ t. if t then walked slot else down a n s) out
              ∙ sym (ap (λ t. if t then found else down a n s) out)
          | inl is_in ↦
              ap (λ t. if t then walked slot else down a n s) is_in
              ∙ ap (λ y. if (f s slot).1 then y else (s', false))
                  (walk_down-down n a b s' (h.keeps s slot o (read ∙ is_in)) (omega (arith, l))
                    shorter)
              ∙ sym (ap (λ t. if t then found else down a n s) is_in)
        ]

    pub older_down :
        (k : ℕ) (s : S)
        → ok s
        → k < r.n
        → visit_older f words r.capacity (index_of r 0) (index_of r k) s ≡ (down 0 k s).0
    older_down k s o l =
        let head = index_of r 0 in
        let slot = index_of r k in
        let at_head : head ≡ r.head_idx =
          index_of_split r v 0 (omega (arith, l, v.fits)) ∙ ground (arith, v.head_in) in
        let at_slot = index_of_split r v k (omega (arith, l, v.fits)) in
        let visited =
          older_in_order f words ok h r.capacity head slot s o (omega (arith, at_head, v.head_in))
            (ground (arith, at_slot, v.head_in, l, v.fits)) in
        elim (Bool-cases (leb head slot)) [
          | inl e ↦
              let count : slot - head ≡ k =
                ground (arith, e, at_head, at_slot, l, v.fits, v.head_in) in
              visited
              ∙ ap
                  (λ t.
                    if t
                    then (walk_down f words head (slot - head) s).0
                    else (after (walk_down f words 0 slot s)
                        (walk_down f words head (r.capacity - head))).0)
                  e
              ∙ ap (λ n. (walk_down f words head n s).0) count
              ∙ ap (λ (x : S × Bool). x.0)
                  (walk_down-down k 0 head s o (omega (arith, l)) (λ j q. ground (
                    arith,
                    e,
                    at_head,
                    at_slot,
                    index_of_split r v (0 + j) (omega (arith, q, l, v.fits)),
                    q,
                    l,
                    v.fits,
                    v.head_in,
                  )))
          | inr e ↦
              let m = r.capacity - head in
              let whole : k ≡ m + slot =
                ground (arith, e, at_head, at_slot, l, v.fits, v.head_in) in
              let x = walk_down f words 0 slot s in
              let upper_part : x ≡ down m slot s =
                walk_down-down slot m 0 s o (omega (arith, whole, l)) (λ j q. ground (
                  arith,
                  e,
                  at_head,
                  at_slot,
                  index_of_split r v (m + j) (omega (arith, q, whole, l, v.fits)),
                  q,
                  whole,
                  l,
                  v.fits,
                  v.head_in,
                )) in
              let lower_part : walk_down f words head m x.0 ≡ down 0 m x.0 =
                walk_down-down m 0 head x.0 (walk_down-ok f words ok h slot 0 s o)
                  (omega (arith, whole, l))
                  (λ j q. ground (
                    arith,
                    at_head,
                    index_of_split r v (0 + j) (omega (arith, q, at_head, v.head_in)),
                    q,
                    whole,
                    l,
                    v.fits,
                    v.head_in,
                  )) in
              let from : down m slot s ≡ down (0 + m) slot s =
                ap (λ a. down a slot s) {y = 0 + m} (omega arith) in
              visited
              ∙ ap
                  (λ t.
                    if t
                    then (walk_down f words head (slot - head) s).0
                    else (after x (walk_down f words head m)).0)
                  e
              ∙ ap (λ (y : S × Bool). y.0)
                  (after-same x (walk_down f words head m) (down 0 m) lower_part
                    ∙ ap (λ y. after y (down 0 m)) (upper_part ∙ from)
                    ∙ sym (down-add slot m 0 s))
              ∙ ap (λ n. (down 0 n s).0) (sym whole)
        ]
