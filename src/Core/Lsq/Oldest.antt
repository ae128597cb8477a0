-- ===== src/Core/Lsq/Oldest.antt =====
-- core/lsq.h: the oldest entry of a work set.
mod First
use rv_o.Base.{
  ℕ, zero, suc, ◌+◌, ◌-◌, ◌^◌, ◌≤◌, ◌<◌, ◌≡◌, ◌↔◌, refl, sym, ap, ◌∙◌, arith, Bool, true, false,
  ◌&&◌, List, ltb, if◌then◌else◌, subst,
}
use native.Mathlib.Decide.{dec_lt}
use rv_o.Core.Ring.{index_of, nth}
use rv_o.Core.Ring.Index.{IsValid, index_of_split, index_of-lt}
use rv_o.Core.SlotSet.{SlotSet}
use rv_o.Core.SlotSet.Visit.{visit}
use rv_o.Core.SlotSet.Order.{reads, walk, IsLocal}
use rv_o.Core.SlotSet.Walk.{after, after-skip, after-same}
use rv_o.Core.SlotSet.Words.{in_order}
use rv_o.Core.SlotSet.Member.{member}
use rv_o.Core.Lsq
use rv_o.Core.Lsq.{LsqEntry, fresh, Lsq}
use rv_o.Core.Lsq.Tracks.{Tracks}
use rv_o.Core.Lsq.Invariant.{unknown, IsTracked}
use rv_o.Core.Lsq.Oldest.First.{first_seq, first-add, first-same, none_there, first-le, first-found}

-- The age of the oldest entry of a set, and 2 ^ 64 - 1 if there is none.
unfoldable pub oldest_seq : Lsq → SlotSet → ℕ
oldest_seq q set =
    visit (λ seq slot. ((Lsq.at q slot).seq, false)) (λ seq. set.words) set.capacity
      (index_of q.ring 0) (2 ^ 64 - 1)

unfoldable pub oldest_unknown_store : Lsq → ℕ
oldest_unknown_store q = oldest_seq q q.unknown_stores

unfoldable pub oldest_pending_load : Lsq → ℕ
oldest_pending_load q = oldest_seq q q.pending

module _ (q : Lsq) (set : SlotSet) where
  abbrev visitor : ℕ → ℕ → ℕ × Bool
  visitor s slot = ((Lsq.at q slot).seq, false)

  abbrev words_of : ℕ → List ℕ
  words_of s = set.words

  walk-first :
      (p : ℕ → Bool) (n a b s : ℕ)
      → ((j : ℕ) → j < n → b + j ≡ index_of q.ring (a + j))
      → ((j : ℕ) → j < n → member set (index_of q.ring (a + j)) ≡ p (a + j))
      → walk visitor words_of b n s ≡ first_seq q.ring p a n s
  unfolding walk first_seq
  walk-first p zero a b s at h = refl
  walk-first p (suc n) a b s at h =
      let slot = index_of q.ring a in
      let rest = first_seq q.ring p (suc a) n s in
      let start : b ≡ b + 0 = omega arith in
      let here : b ≡ slot = start ∙ at 0 (omega arith) ∙ ap (index_of q.ring) (omega arith) in
      let read : member set slot ≡ p a =
        ap (λ k. member set (index_of q.ring k)) {y = a + 0} (omega arith)
        ∙ h 0 (omega arith)
        ∙ ap p (omega arith) in
      let ih =
        walk-first p n (suc a) (suc b) s
          (λ j l.
            sym (ap (λ x. x) {x = b + suc j} (omega arith))
            ∙ at (suc j) (omega (arith, l))
            ∙ ap (index_of q.ring) (omega arith))
          (λ j l.
            ap (λ k. member set (index_of q.ring k)) {y = a + suc j} (omega arith)
            ∙ h (suc j) (omega (arith, l))
            ∙ ap p (omega arith)) in
      ap (λ x. if reads visitor words_of s b then visitor s b else x) ih
      ∙ ap (λ x. if reads visitor words_of s x then visitor s x else rest) here
      ∙ ap (λ t. if t then visitor s slot else rest) {y = p a} (unfold member in read)
      ∙ unfold nth in refl

  walk-ring :
      (p : ℕ → Bool) (s : ℕ)
      → IsValid q.ring
      → ((j : ℕ) → j < q.ring.capacity → member set (index_of q.ring j) ≡ p j)
      → after
          (walk visitor words_of (index_of q.ring 0) (q.ring.capacity - index_of q.ring 0) s)
          (walk visitor words_of 0 (index_of q.ring 0))
        ≡ first_seq q.ring p 0 q.ring.capacity s
  walk-ring p s v h =
      let head = index_of q.ring 0 in
      let capacity = q.ring.capacity in
      let m = capacity - head in
      let split = index_of_split q.ring v in
      let at_head : head ≡ q.ring.head_idx =
        split 0 (omega (arith, v.positive)) ∙ ground (arith, v.head_in) in
      let upper : walk visitor words_of head m s ≡ first_seq q.ring p 0 m s =
        walk-first p m 0 head s
          (λ j l. ground (arith, at_head, split (0 + j) (omega (arith, l)), l, v.head_in))
          (λ j l. h (0 + j) (omega (arith, l))) in
      let lower : (t : ℕ) → walk visitor words_of 0 head t ≡ first_seq q.ring p (0 + m) head t =
        λ t.
          walk-first p head (0 + m) 0 t
            (λ j l. ground (
              arith,
              at_head,
              split (0 + m + j) (omega (arith, l, at_head, v.head_in)),
              l,
              v.head_in,
            ))
            (λ j l. h (0 + m + j) (omega (arith, l, at_head, v.head_in))) in
      let whole : m + head ≡ capacity = omega (arith, at_head, v.head_in) in
      ap (λ x. after x (walk visitor words_of 0 head)) upper
      ∙ after-same (first_seq q.ring p 0 m s) (walk visitor words_of 0 head)
          (first_seq q.ring p (0 + m) head) (lower (first_seq q.ring p 0 m s).0)
      ∙ sym (first-add q.ring p m head 0 s)
      ∙ ap (λ n. first_seq q.ring p 0 n s) whole

-- On a queue whose sets are right, the visit of a set finds the first entry from the head on that
-- has the property.
oldest_seq-first :
    (q : Lsq) (set : SlotSet) (p : LsqEntry → Bool)
    → IsValid q.ring
    → Tracks q.ring p set
    → oldest_seq q set ≡ (first_seq q.ring (λ k. p (nth fresh q.ring k)) 0 q.ring.n (2 ^ 64 - 1)).0
unfolding oldest_seq
oldest_seq-first q set p v t =
    let r = q.ring in
    let live_one : ℕ → Bool = λ k. ltb k r.n && p (nth fresh r k) in
    let s = 2 ^ 64 - 1 in
    let local : IsLocal (visitor q set) (words_of q set) (λ _. ℕ) = record {
      small = λ t' w o. t.sized.word w;
      keeps = λ t' a o m. o;
      apart = λ t' a b o m d. refl;
    } in
    let visited =
      in_order (visitor q set) (words_of q set) (λ _. ℕ) local r.capacity (index_of r 0) s 0
        (index_of-lt r v 0 (omega arith))
        (λ t' a o b. unfold member in t.sized.inside a (omega (arith, b, t.fits))) in
    let first_part : first_seq r live_one 0 r.n s ≡ first_seq r (λ k. p (nth fresh r k)) 0 r.n s =
      first-same r live_one (λ k. p (nth fresh r k)) r.n 0 s (λ j l. ground (arith, l)) in
    let no_more : (x : ℕ) → first_seq r live_one (0 + r.n) (r.capacity - r.n) x ≡ (x, true) = λ x.
      first-same r live_one (λ _. false) (r.capacity - r.n) (0 + r.n) x (λ j l. ground arith)
      ∙ none_there r (r.capacity - r.n) (0 + r.n) x in
    let whole : r.capacity ≡ r.n + (r.capacity - r.n) = omega (arith, v.fits) in
    ap (λ c. visit (visitor q set) (words_of q set) c (index_of r 0) s) t.fits
    ∙ visited
    ∙ ap (λ (x : ℕ × Bool). x.0)
        (walk-ring q set live_one s v t.holds
          ∙ ap (λ n. first_seq r live_one 0 n s) whole
          ∙ first-add r live_one r.n (r.capacity - r.n) 0 s
          ∙ after-skip (first_seq r live_one 0 r.n s)
              (first_seq r live_one (0 + r.n) (r.capacity - r.n))
              (no_more (first_seq r live_one 0 r.n s).0)
          ∙ first_part)

-- On a queue in its invariant whose ages increase from the oldest entry on and stay below
-- 2 ^ 64 - 1, the oldest store with an unknown address is older than an entry exactly where one of
-- the entries before it is such a store: the wall that a load meets.
pub wall_iff :
    (q : Lsq) (k : ℕ)
    → IsTracked q
    → k < q.ring.n
    → ((i j : ℕ) → i < j → j < q.ring.n → (nth fresh q.ring i).seq < (nth fresh q.ring j).seq)
    → ((i : ℕ) → i < q.ring.n → (nth fresh q.ring i).seq < 2 ^ 64 - 1)
    → (oldest_unknown_store q < (nth fresh q.ring k).seq)
      ↔ ((j : ℕ) × (j < k) × (unknown (nth fresh q.ring j) ≡ true))
unfolding oldest_unknown_store
wall_iff q k i l sorted small =
    let r = q.ring in
    let p : ℕ → Bool = λ x. unknown (nth fresh r x) in
    let found = oldest_seq-first q q.unknown_stores unknown i.ring i.unknown_stores in
    let seq : ℕ → ℕ = λ x. (nth fresh r x).seq in
    let later : (x : ℕ) → k ≤ x → x < 0 + r.n → seq k ≤ seq x = λ x a b. elim (dec_lt k x) [
      | yes c ↦ omega (arith, sorted k x c (omega (arith, b)))
      | no c ↦ subst (λ y. seq k ≤ seq y) {x = k} (omega (arith, a, c)) (omega arith)
    ] in
    (
      λ h.
          first-found r p r.n 0 (2 ^ 64 - 1) k later (omega (arith, small k l))
            (subst (λ x. x < seq k) found h),
      λ h.
          let (j, b, e) = h in
          let low =
            first-le r p r.n 0 (2 ^ 64 - 1) j (λ x c. sorted x j c (omega (arith, b, l)))
              (omega arith) (omega (arith, b, l)) e in
          omega (arith, found, low, sorted j k b l),
    )
