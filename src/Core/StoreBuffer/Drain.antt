-- ===== src/Core/StoreBuffer/Drain.antt =====
-- core/ooo.cpp: the loop that pops the acknowledged stores.
use rv_o.Base.{
  ℕ, zero, suc, ◌^◌, ◌≤◌, ◌<◌, ◌≡◌, sym, ap, ◌∙◌, arith, true, false, ◌&&◌, not, List, [], ◌∷◌,
  if◌then◌else◌, Bool-cases, inl, inr,
}
use rv_o.Core.Ring
use rv_o.Core.Ring.{Ring}
use rv_o.Core.Ring.Index.{IsValid, pop_head-IsValid}
use rv_o.Core.Ring.Contents.{contents, contents_pops, entries}
use rv_o.Core.StoreBuffer.{StoreBufEntry, fresh, StoreBuffer, pop_head, pop_acked}

-- The stores from the first one on that has no acknowledgement.
abbrev pub from_unacked : List StoreBufEntry → List StoreBufEntry
from_unacked [] = []
from_unacked (e ∷ es) = if e.acked then from_unacked es else e ∷ es

module _ (fuel : ℕ) (b : StoreBuffer) where
  pop_acked-stops :
      not (Ring.empty b.ring) && (Ring.head fresh b.ring).acked ≡ false → pop_acked (suc fuel) b ≡ b
  unfolding pop_acked
  pop_acked-stops h = ap (λ c. if c then pop_acked fuel (pop_head b) else b) h

  pop_acked-goes_on :
      not (Ring.empty b.ring) && (Ring.head fresh b.ring).acked ≡ true
      → pop_acked (suc fuel) b ≡ pop_acked fuel (pop_head b)
  unfolding pop_acked
  pop_acked-goes_on h = ap (λ c. if c then pop_acked fuel (pop_head b) else b) h

popped_fewer :
    (fuel : ℕ) (r : Ring StoreBufEntry)
    → Ring.empty r ≡ false
    → r.n ≤ r.capacity
    → r.capacity < 2 ^ 31
    → r.n ≤ suc fuel
    → (Ring.pop_head r).n ≤ fuel
unfolding Ring.pop_head Ring.empty
popped_fewer fuel r e f l h = ground (arith, e, f, l, h)

empty-contents : (r : Ring StoreBufEntry) → r.n ≡ 0 → contents fresh r ≡ []
empty-contents r e = ap (entries fresh r 0) e

-- With a fuel of at least the number of entries, the loop pops exactly the acknowledged stores at
-- the head: what is left are the stores from the first one on that has no acknowledgement. It supposes
-- a valid ring.
pub pop_acked-contents :
    (fuel : ℕ) (b : StoreBuffer)
    → IsValid b.ring
    → b.ring.n ≤ fuel
    → contents fresh (pop_acked fuel b).ring ≡ from_unacked (contents fresh b.ring)
unfolding pop_acked pop_head
pop_acked-contents zero b v h =
    let none_left = empty-contents b.ring (omega (arith, h)) in
    none_left ∙ sym (ap from_unacked none_left)
pop_acked-contents (suc fuel) b v h = elim (Bool-cases (Ring.empty b.ring)) [
  | inl e ↦
      let none_left = empty-contents b.ring (unfold Ring.empty in ground (arith, e)) in
      ap (λ (x : StoreBuffer). contents fresh x.ring) (pop_acked-stops fuel b (ground (arith, e)))
      ∙ none_left
      ∙ sym (ap from_unacked none_left)
  | inr e ↦
      let (popped, _) = contents_pops fresh b.ring v e in
      let head = Ring.head fresh b.ring in
      let rest = contents fresh (Ring.pop_head b.ring) in
      elim (Bool-cases (head.acked)) [
        | inl a ↦
            ap (λ (x : StoreBuffer). contents fresh x.ring)
              (pop_acked-goes_on fuel b (ground (arith, e, a)))
            ∙ pop_acked-contents fuel (pop_head b) (pop_head-IsValid b.ring v e)
                (popped_fewer fuel b.ring e v.fits v.small h)
            ∙ sym
                (ap from_unacked popped ∙ ap (λ c. if c then from_unacked rest else head ∷ rest) a)
        | inr a ↦
            ap (λ (x : StoreBuffer). contents fresh x.ring)
              (pop_acked-stops fuel b (ground (arith, e, a)))
            ∙ popped
            ∙ sym
                (ap from_unacked popped ∙ ap (λ c. if c then from_unacked rest else head ∷ rest) a)
      ]
]
