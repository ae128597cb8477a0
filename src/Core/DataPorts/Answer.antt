-- ===== src/Core/DataPorts/Answer.antt =====
-- The answer to a load's request.
use rv_o.Base.{
  ℕ, ◌*◌, ◌/◌, ◌^◌, ◌<◌, ◌≡◌, refl, ap, ◌∙◌, arith, Bool, true, false, ◌&&◌, ◌||◌, not, u16, u32,
  bit_or, bit_or_low, if◌then◌else◌, ◌==◌,
}
use rv_o.Isa.{extend_load}
use rv_o.Core.Ring
use rv_o.Core.Ring.{Ring, index_of, nth}
use rv_o.Core.Ring.Index.{index_of-lt, live_iff}
use rv_o.Core.Ring.Write.{nth-put_self}
use rv_o.Core.Lsq
use rv_o.Core.Lsq.{LsqEntry, fresh, Lsq, issue_load, complete_load}
use rv_o.Core.Lsq.Invariant.{candidate, IsTracked}
use rv_o.Core.Lsq.Use.{respond}
use rv_o.Core.DataPorts.{load_request}

-- The tag of a load's request gives back the slot and the generation.
tag-parts :
    (slot gen : ℕ)
    → slot < 2 ^ 31
    → gen < 2 ^ 16
    → (u32 (bit_or (slot * 2 ^ 16) gen / 2 ^ 16) ≡ slot) × (u16 (bit_or (slot * 2 ^ 16) gen) ≡ gen)
tag-parts slot gen s g =
    let sum = bit_or_low gen 16 slot g in (omega (arith, sum, s, g), omega (arith, sum, g))

abbrev stale : LsqEntry → ℕ → Bool
stale e tag = e.is_store || (not e.issued || (e.done || not (e.gen == u16 tag)))

-- An answer that is not stale, for a live slot.
respond-complete_load :
    (q : Lsq) (tag rdata slot : ℕ) (e : LsqEntry)
    → u32 (tag / 2 ^ 16) ≡ slot
    → Lsq.at q slot ≡ e
    → Ring.live q.ring slot ≡ true
    → stale e tag ≡ false
    → respond q tag rdata ≡ complete_load q slot (extend_load e.op rdata)
unfolding respond
respond-complete_load q tag rdata slot e idx here is_live fresh_answer =
    let taken : LsqEntry → Lsq = λ x. complete_load q slot (extend_load x.op rdata) in
    let body : ℕ → Lsq = λ i.
      if Ring.live q.ring i && not (stale (Lsq.at q i) tag)
      then complete_load q i (extend_load (Lsq.at q i).op rdata)
      else q in
    ap body idx
    ∙ ap (λ x. if Ring.live q.ring slot && not (stale x tag) then taken x else q) here
    ∙ ap (λ t. if t && not (stale e tag) then taken e else q) is_live
    ∙ ap (λ t. if true && not t then taken e else q) fresh_answer

-- The cache's answer to the request of a load completes that load, with the data extended as its
-- operation says.
pub respond-load_request :
    (q : Lsq) (k rdata : ℕ)
    → IsTracked q
    → k < q.ring.n
    → candidate (nth fresh q.ring k) ≡ true
    → (nth fresh q.ring k).gen < 2 ^ 16
    → respond (issue_load q (index_of q.ring k)) (load_request q (index_of q.ring k)).tag rdata
      ≡ complete_load
          (issue_load q (index_of q.ring k))
          (index_of q.ring k)
          (extend_load (nth fresh q.ring k).op rdata)
unfolding load_request
respond-load_request q k rdata i l c g =
    let slot = index_of q.ring k in
    let e = nth fresh q.ring k in
    let sent : LsqEntry = record e { issued = true } in
    let low = index_of-lt q.ring i.ring k (omega (arith, l, i.ring.fits)) in
    let (at_slot, at_gen) = tag-parts slot e.gen (omega (arith, low, i.ring.small)) g in
    let here : Lsq.at (issue_load q slot) slot ≡ sent =
      unfold issue_load nth Ring.put index_of in nth-put_self fresh q.ring i.ring k sent l in
    let is_live : Ring.live q.ring slot ≡ true =
      (live_iff q.ring i.ring slot (omega (arith, low, i.ring.small))).1 (k, l, refl) in
    let tag = bit_or (slot * 2 ^ 16) e.gen in
    unfold nth in
    respond-complete_load (issue_load q slot) tag rdata slot sent at_slot here
      (unfold issue_load Ring.put Ring.live in is_live)
      (unfold candidate in ground (arith, c, at_gen))
