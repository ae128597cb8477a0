-- ===== src/Core/Lsq/Ends.antt =====
-- core/lsq.h: what enters and leaves the queue at its ends, and the queue's invariant.
use rv_o.Base.{
  ℕ, suc, ◌-◌, ◌<◌, ◌≡◌, refl, arith, Bool, true, false, ◌&&◌, ◌||◌, not, if◌then◌else◌, sub32, ap,
  ◌∙◌, sym, get_or, ◌==◌, Bool-cases, inl, inr,
}
use rv_o.Core.Ring
use rv_o.Core.Ring.{Ring, index_of, nth}
use rv_o.Core.Ring.Index.{IsValid, pop_head-IsValid, pop_tail-IsValid}
use rv_o.Core.Ring.Contents.{nth_zero, nth-pop_head, nth-pop_tail}
use rv_o.Core.SlotSet
use rv_o.Core.SlotSet.{SlotSet}
use rv_o.Core.Lsq.{
  LsqEntry, fresh, Lsq, at, remove, pop_head, pop_tail, word_bucket, last_byte, change_words,
}
use rv_o.Core.Lsq.Tracks.{Tracks, pop_head-Tracks, pop_tail-Tracks}
use rv_o.Core.Lsq.Counts.{
  number, number-pop_head, number-pop_tail, hits, get_or-change_words, length-change_words,
}
use rv_o.Core.Lsq.Invariant.{
  candidate, waiting, unreported, unfilled, updating, known, unknown, accessed, sound, IsTracked,
}

-- The removal of a slot, for a ring without it.
module _ (q : Lsq) (i : IsTracked q) (slot : ℕ) (s : sound (at q slot) ≡ true) (r : Ring LsqEntry)
    (valid : IsValid r) (left : (k : ℕ) → k < r.n → sound (nth fresh r k) ≡ true)
    (tracks : (p : LsqEntry → Bool) (x : SlotSet)
      → Tracks q.ring p x
      → Tracks r p (SlotSet.erase x slot))
    (count : (p : LsqEntry → Bool)
      → (if p (at q slot) then sub32 (number p q.ring) 1 else number p q.ring) ≡ number p r) where
  removed_counts :
      (p : LsqEntry → Bool) (test : Bool) {c : ℕ}
      → test ≡ p (at q slot)
      → c ≡ number p q.ring
      → (if test then sub32 c 1 else c) ≡ number p r
  removed_counts p test {c} e h =
      ap (λ t. if t then sub32 c 1 else c) e
      ∙ ap (λ n. if p (at q slot) then sub32 n 1 else n) h
      ∙ count p

  removed_words :
      (b : ℕ)
      → b < 64
      → get_or
          (if (at q slot).is_store && (at q slot).addr_valid
            then change_words (λ c. sub32 c 1) q.store_words (at q slot)
            else q.store_words)
          b
          0
        ≡ number (hits b) r
  removed_words b l =
      let e = at q slot in
      let test = word_bucket e.addr == b || word_bucket (last_byte e) == b in
      let old = get_or-change_words (λ c. sub32 c 1) q.store_words e b i.buckets in
      elim (Bool-cases (e.is_store && e.addr_valid)) [
        | inl y ↦
            ap
              (λ t.
                get_or (if t then change_words (λ c. sub32 c 1) q.store_words e else q.store_words)
                  b 0)
              y
            ∙ old
            ∙ removed_counts (hits b) test (unfold hits in ground (arith, y)) (i.words b l)
        | inr y ↦
            ap
              (λ t.
                get_or (if t then change_words (λ c. sub32 c 1) q.store_words e else q.store_words)
                  b 0)
              y
            ∙ removed_counts (hits b) false (unfold hits in ground (arith, y)) (i.words b l)
      ]

  removed-IsTracked : IsTracked (record (remove q slot) { ring = r })
  unfolding remove
  removed-IsTracked =
      let e = at q slot in
      record {
        ring = valid;
        entries = left;
        candidates = tracks candidate q.candidates i.candidates;
        pending = tracks waiting q.pending i.pending;
        updates = tracks updating q.updates i.updates;
        known_stores = tracks known q.known_stores i.known_stores;
        unknown_stores = tracks unknown q.unknown_stores i.unknown_stores;
        accessed_loads = tracks accessed q.accessed_loads i.accessed_loads;
        buckets = ground (arith, i.buckets, length-change_words (λ c. sub32 c 1) q.store_words e);
        words = removed_words;
        loads_pending =
            removed_counts waiting (e.issued && not e.done)
              (unfold sound waiting in ground (arith, s)) i.loads_pending;
        loads_unreported =
            removed_counts unreported (not e.is_store && (e.done && not e.reported))
              (unfold unreported in refl) i.loads_unreported;
        stores_waiting =
            removed_counts unfilled (e.is_store && not e.data_ready) (unfold unfilled in refl)
              i.stores_waiting;
      }

module _ (q : Lsq) (i : IsTracked q) (e : Ring.empty q.ring ≡ false) where
  not_empty : 0 < q.ring.n
  not_empty = unfold Ring.empty in ground (arith, e)

  pub pop_head-IsTracked : IsTracked (pop_head q)
  unfolding pop_head
  pop_head-IsTracked =
      let r = q.ring in
      let first : nth fresh r 0 ≡ at q r.head_idx = unfold Ring.head in nth_zero fresh r i.ring in
      let less : (Ring.pop_head r).n ≡ r.n - 1 =
        unfold Ring.pop_head in omega (arith, not_empty, i.ring.fits, i.ring.small) in
      removed-IsTracked q i r.head_idx (sym (ap sound first) ∙ i.entries 0 not_empty)
        (Ring.pop_head r) (pop_head-IsValid r i.ring e)
        (λ k l.
          ap sound (nth-pop_head fresh r i.ring k (omega (arith, l, less, i.ring.fits)))
          ∙ i.entries (suc k) (omega (arith, l, less)))
        (λ p x t. pop_head-Tracks p r i.ring x t e)
        (λ p. unfold Ring.head in number-pop_head p r i.ring e)

  pub pop_tail-IsTracked : IsTracked (pop_tail q)
  unfolding pop_tail
  pop_tail-IsTracked =
      let r = q.ring in
      let less : (Ring.pop_tail r).n ≡ r.n - 1 =
        unfold Ring.pop_tail in omega (arith, not_empty, i.ring.fits, i.ring.small) in
      let last : nth fresh r (sub32 r.n 1) ≡ at q (index_of r (sub32 r.n 1)) = unfold nth in refl in
      removed-IsTracked q i (index_of r (sub32 r.n 1))
        (sym (ap sound last)
          ∙ i.entries (sub32 r.n 1) (omega (arith, not_empty, i.ring.fits, i.ring.small)))
        (Ring.pop_tail r) (pop_tail-IsValid r i.ring e)
        (λ k l. ap sound (nth-pop_tail fresh r i.ring k) ∙ i.entries k (omega (arith, l, less)))
        (λ p x t. pop_tail-Tracks p r i.ring x t e)
        (λ p. unfold Ring.tail in number-pop_tail p r i.ring e)
