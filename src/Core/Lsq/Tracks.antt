-- ===== src/Core/Lsq/Tracks.antt =====
-- A bitmap that holds the slots of the ring's entries with a property, and what keeps it so.
use rv_o.Base.{
  ℕ, suc, ◌-◌, ◌<◌, ◌≡◌, refl, ap, sym, ◌∙◌, arith, Bool, true, false, ◌&&◌, ltb, leb, ◌==◌,
  Bool-cases, inl, inr, sub32, ltb→lt, if◌then◌else◌,
}
use native.Mathlib.Decide.{ℕ_discrete}
use rv_o.Core.Ring
use rv_o.Core.Ring.{Ring, index_of, nth, put, pop_head, pop_tail, empty, full, push}
use rv_o.Core.Ring.Index.{IsValid, index_of-lt, index_of_injective, index_of-pop_head}
use rv_o.Core.Ring.Contents.{
  nth-push, nth-push_last, n-push, index_of-push, nth-pop_head, nth-pop_tail,
}
use rv_o.Core.Ring.Write.{nth-put_self, nth-put_ne}
use rv_o.Core.SlotSet
use rv_o.Core.SlotSet.{SlotSet, insert, erase}
use rv_o.Core.SlotSet.Member.{
  member, IsSized, make-IsSized, member-make, insert-IsSized, erase-IsSized, member-insert,
  member-erase,
}
use rv_o.Core.Lsq.{LsqEntry, fresh}

-- The members are the slots of the live entries with the property.
pub record Tracks (r : Ring LsqEntry) (p : LsqEntry → Bool) (s : SlotSet) : Type 0 where
  pub sized : IsSized s
  pub fits : s.capacity ≡ r.capacity
  pub holds : (k : ℕ) → k < r.capacity → member s (index_of r k) ≡ (ltb k r.n && p (nth fresh r k))

pub make-Tracks :
    (capacity : ℕ) (p : LsqEntry → Bool)
    → Tracks (Ring.make fresh capacity) p (SlotSet.make capacity)
unfolding Ring.make SlotSet.make
make-Tracks capacity p = record {
  sized = unfold SlotSet.make in make-IsSized capacity;
  fits = refl;
  holds = λ k l. ground (arith, member-make capacity (index_of (Ring.make fresh capacity) k));
}

module _ (p : LsqEntry → Bool) (r : Ring LsqEntry) (h : IsValid r) (s : SlotSet)
    (t : Tracks r p s) where
  slot-lt : (k : ℕ) → k < r.capacity → index_of r k < s.capacity
  slot-lt k l = omega (arith, index_of-lt r h k, t.fits)

  same_slot :
      (j k : ℕ) → j < r.capacity → k < r.capacity → (index_of r j == index_of r k) ≡ (j == k)
  same_slot j k a b = ground (
    arith,
    λ (e : index_of r j ≡ index_of r k). index_of_injective r h j k a b e,
    λ (e : j ≡ k). ap (index_of r) e,
  )

  module _ (k : ℕ) (l : k < r.n) (v : LsqEntry) where
    -- The entries with the property after a write.
    has-put :
        (j : ℕ)
        → (ltb j (put r (index_of r k) v).n && p (nth fresh (put r (index_of r k) v) j))
          ≡ (if k == j then p v else ltb j r.n && p (nth fresh r j))
    unfolding put
    has-put j = elim (ℕ_discrete j k) [
      | yes e ↦ ground (
        arith,
        e,
        ap p (nth-put_self fresh r h k v l),
        ap (λ i. p (nth fresh (put r (index_of r k) v) i)) e,
      )
      | no d ↦ elim (Bool-cases (ltb j r.n)) [
        | inl b ↦ ground (arith, d, b, ap p (nth-put_ne fresh r h k v l j (ltb→lt j r.n b) d))
        | inr b ↦ ground (arith, d, b)
      ]
    ]

    unchanged :
        ((put r (index_of r k) v).capacity ≡ r.capacity)
        × ((j : ℕ) → index_of (put r (index_of r k) v) j ≡ index_of r j)
    unfolding put index_of
    unchanged = (refl, λ j. refl)

    in_ring : k < r.capacity
    in_ring = omega (arith, l, h.fits)

    -- A write of an entry that has the property as the old one did.
    pub put-Tracks : p v ≡ p (nth fresh r k) → Tracks (put r (index_of r k) v) p s
    put-Tracks e = record {
      sized = t.sized;
      fits = t.fits ∙ sym (unchanged.0);
      holds = λ j b.
          let c : j < r.capacity = omega (arith, b, unchanged.0) in
          ap (member s) (unchanged.1 j)
          ∙ ground
              (arith, e, l, t.holds j c, has-put j, λ (q : k ≡ j). ap (λ i. p (nth fresh r i)) q);
    }

    pub put-Tracks_insert : p v ≡ true → Tracks (put r (index_of r k) v) p (insert s (index_of r k))
    put-Tracks_insert e = record {
      sized = insert-IsSized s t.sized (index_of r k) (slot-lt k in_ring);
      fits = unfold insert in (t.fits ∙ sym (unchanged.0));
      holds = λ j b.
          let c : j < r.capacity = omega (arith, b, unchanged.0) in
          ap (member (insert s (index_of r k))) (unchanged.1 j)
          ∙ member-insert s t.sized (index_of r k) (slot-lt k in_ring) (index_of r j)
          ∙ ground (arith, e, t.holds j c, has-put j, same_slot k j in_ring c);
    }

    pub put-Tracks_erase : p v ≡ false → Tracks (put r (index_of r k) v) p (erase s (index_of r k))
    put-Tracks_erase e = record {
      sized = erase-IsSized s t.sized (index_of r k) (slot-lt k in_ring);
      fits = unfold erase in (t.fits ∙ sym (unchanged.0));
      holds = λ j b.
          let c : j < r.capacity = omega (arith, b, unchanged.0) in
          ap (member (erase s (index_of r k))) (unchanged.1 j)
          ∙ member-erase s t.sized (index_of r k) (slot-lt k in_ring) (index_of r j)
          ∙ ground (arith, e, t.holds j c, has-put j, same_slot k j in_ring c);
    }

  pub pop_tail-Tracks : empty r ≡ false → Tracks (pop_tail r) p (erase s (index_of r (sub32 r.n 1)))
  unfolding empty
  pop_tail-Tracks e =
      let last : sub32 r.n 1 < r.capacity = ground (arith, e, h.fits, h.small) in
      let less : (pop_tail r).n ≡ sub32 r.n 1 = unfold pop_tail in refl in
      let cap : (pop_tail r).capacity ≡ r.capacity = unfold pop_tail in refl in
      let slot : (j : ℕ) → index_of (pop_tail r) j ≡ index_of r j =
        λ j. unfold pop_tail index_of in refl in
      record {
        sized = erase-IsSized s t.sized (index_of r (sub32 r.n 1)) (slot-lt (sub32 r.n 1) last);
        fits = unfold erase in (t.fits ∙ sym cap);
        holds = λ j b.
            let c : j < r.capacity = omega (arith, b, cap) in
            ap (member (erase s (index_of r (sub32 r.n 1)))) (slot j)
            ∙ member-erase s t.sized (index_of r (sub32 r.n 1)) (slot-lt (sub32 r.n 1) last)
                (index_of r j)
            ∙ ground (
              arith,
              e,
              h.fits,
              h.small,
              less,
              t.holds j c,
              same_slot (sub32 r.n 1) j last c,
              ap p (nth-pop_tail fresh r h j),
            );
      }

  pub pop_head-Tracks : empty r ≡ false → Tracks (pop_head r) p (erase s r.head_idx)
  unfolding empty
  pop_head-Tracks e =
      let first : index_of r 0 ≡ r.head_idx =
        unfold index_of in ground (arith, h.head_in, h.small) in
      let there : r.head_idx < s.capacity = omega (arith, h.head_in, t.fits) in
      let less : (pop_head r).n ≡ sub32 r.n 1 = unfold pop_head in refl in
      let cap : (pop_head r).capacity ≡ r.capacity = unfold pop_head in refl in
      record {
        sized = erase-IsSized s t.sized r.head_idx there;
        fits = unfold erase in (t.fits ∙ sym cap);
        holds = λ j b.
            let c : j < r.capacity = omega (arith, b, cap) in
            ap (member (erase s r.head_idx)) (index_of-pop_head r h j c)
            ∙ member-erase s t.sized r.head_idx there (index_of r (suc j))
            ∙ elim (Bool-cases (ltb (suc j) r.capacity)) [
              | inl d ↦ ground (
                arith,
                e,
                d,
                h.fits,
                h.small,
                less,
                first,
                t.holds (suc j) (ltb→lt (suc j) r.capacity d),
                same_slot 0 (suc j) h.positive (ltb→lt (suc j) r.capacity d),
                ap p (nth-pop_head fresh r h j c),
              )
              | inr d ↦
                  let whole : index_of r (suc j) ≡ r.head_idx =
                    unfold index_of in ground (arith, d, c, h.head_in, h.small) in
                  ground (arith, e, d, h.fits, h.small, less, whole)
            ];
      }

  pub push-Tracks : (v : LsqEntry) → p v ≡ false → full r ≡ false → Tracks (push fresh r v) p s
  unfolding full
  push-Tracks v f e =
      let more : (push fresh r v).n ≡ suc r.n = n-push fresh r v (omega (arith, h.fits, h.small)) in
      let cap : (push fresh r v).capacity ≡ r.capacity = unfold push in refl in
      record {
        sized = t.sized;
        fits = t.fits ∙ sym cap;
        holds = λ j b.
            let c : j < r.capacity = omega (arith, b, cap) in
            ap (member s) (index_of-push fresh r v j) ∙ elim (Bool-cases (ltb j r.n)) [
              | inl d ↦ ground (
                arith,
                d,
                more,
                t.holds j c,
                ap p (nth-push fresh r h v j (ltb→lt j r.n d) (unfold full in e)),
              )
              | inr d ↦ ground (
                arith,
                d,
                more,
                t.holds j c,
                f,
                λ (q : j ≡ r.n). ap (λ i. p (nth fresh (push fresh r v) i)) q,
                ap p (nth-push_last fresh r h v (unfold full in e)),
              )
            ];
      }

-- A member is the slot of a live entry with the property.
pub Tracks-member :
    (p : LsqEntry → Bool) (r : Ring LsqEntry) (s : SlotSet) (slot : ℕ)
    → IsValid r
    → Tracks r p s
    → slot < r.capacity
    → member s slot ≡ true
    → (k : ℕ) × (k < r.n) × (index_of r k ≡ slot) × (p (nth fresh r k) ≡ true)
Tracks-member p r s slot h t l m =
    let k : ℕ =
      if leb r.head_idx slot then slot - r.head_idx else r.capacity - (r.head_idx - slot) in
    let inside : k < r.capacity = ground (arith, h.head_in) in
    let here : index_of r k ≡ slot = unfold index_of in ground (arith, h.head_in, h.small) in
    let both = t.holds k inside in
    let there = ap (member s) here in
    (k, ground (arith, both, there, m), here, ground (arith, both, there, m))
