-- ===== src/Core/Lsq/Loads.antt =====
-- core/lsq.h: the methods on a load, and the queue's invariant.
use rv_o.Base.{
  ℕ, ◌<◌, ◌≡◌, refl, arith, true, ◌||◌, if◌then◌else◌, sub32, inl, inr, Bool-cases, ap, ◌∙◌,
}
use rv_o.Core.Ring
use rv_o.Core.Ring.{Ring, index_of}
use rv_o.Core.Lsq.{Lsq, at, issue_load, complete_load, report_load}
use rv_o.Core.Lsq.Counts.{hits}
use rv_o.Core.Lsq.Invariant.{
  candidate, waiting, unreported, unfilled, updating, known, unknown, accessed, sound, IsTracked,
  sound-put, ring-put, keep, enter, leave, count_same, count_up, count_down,
}

module _ (q : Lsq) (i : IsTracked q) (k : ℕ) (l : k < q.ring.n) where
  entry-sound : sound (at q (index_of q.ring k)) ≡ true
  entry-sound = unfold Ring.nth in i.entries k l

  pub issue_load-IsTracked :
      candidate (at q (index_of q.ring k)) ≡ true → IsTracked (issue_load q (index_of q.ring k))
  unfolding issue_load candidate waiting unreported unfilled updating known unknown accessed sound
      hits
  issue_load-IsTracked c =
      let v = record (at q (index_of q.ring k)) { issued = true } in
      let s = entry-sound in
      record {
        ring = ring-put q i k l v;
        entries = sound-put q i k l v (ground (arith, c, s));
        candidates = leave q i k l v candidate i.candidates (ground (arith, c));
        pending = enter q i k l v waiting i.pending (ground (arith, c));
        updates = keep q i k l v updating i.updates refl;
        known_stores = keep q i k l v known i.known_stores refl;
        unknown_stores = keep q i k l v unknown i.unknown_stores refl;
        accessed_loads = enter q i k l v accessed i.accessed_loads (ground (arith, c));
        buckets = i.buckets;
        words = λ b h. count_same q i k l v (hits b) refl (i.words b h);
        loads_pending =
            count_up q i k l v waiting (ground (arith, c)) (ground (arith, c)) i.loads_pending;
        loads_unreported = count_same q i k l v unreported refl i.loads_unreported;
        stores_waiting = count_same q i k l v unfilled refl i.stores_waiting;
      }

  -- Before a load completes it is a candidate or waits for the cache.
  pub complete_load-IsTracked :
      (value : ℕ)
      → (candidate (at q (index_of q.ring k)) || waiting (at q (index_of q.ring k))) ≡ true
      → IsTracked (complete_load q (index_of q.ring k) value)
  unfolding complete_load candidate waiting unreported unfilled updating known unknown accessed
      sound hits
  complete_load-IsTracked value c =
      let e = at q (index_of q.ring k) in
      let v = record e { value = value; done = true } in
      let s = entry-sound in
      record {
        ring = ring-put q i k l v;
        entries = sound-put q i k l v (ground (arith, c, s));
        candidates = leave q i k l v candidate i.candidates (ground (arith, c));
        pending = leave q i k l v waiting i.pending (ground (arith, c));
        updates = enter q i k l v updating i.updates (ground (arith, c, s));
        known_stores = keep q i k l v known i.known_stores refl;
        unknown_stores = keep q i k l v unknown i.unknown_stores refl;
        accessed_loads = enter q i k l v accessed i.accessed_loads (ground (arith, c));
        buckets = i.buckets;
        words = λ b h. count_same q i k l v (hits b) refl (i.words b h);
        loads_pending = elim (Bool-cases e.issued) [
          | inl y ↦
              ap (λ x. if x then sub32 q.pending_loads 1 else q.pending_loads) y
              ∙ count_down q i k l v waiting (ground (arith, c, y)) (ground (arith, c))
                  i.loads_pending
          | inr y ↦
              ap (λ x. if x then sub32 q.pending_loads 1 else q.pending_loads) y
              ∙ count_same q i k l v waiting (ground (arith, c, y)) i.loads_pending
        ];
        loads_unreported =
            count_up q i k l v unreported (ground (arith, c, s)) (ground (arith, c, s))
              i.loads_unreported;
        stores_waiting = count_same q i k l v unfilled refl i.stores_waiting;
      }

  pub report_load-IsTracked :
      unreported (at q (index_of q.ring k)) ≡ true → IsTracked (report_load q (index_of q.ring k))
  unfolding report_load candidate waiting unreported unfilled updating known unknown accessed sound
      hits
  report_load-IsTracked c =
      let v = record (at q (index_of q.ring k)) { reported = true } in
      let s = entry-sound in
      record {
        ring = ring-put q i k l v;
        entries = sound-put q i k l v (ground (arith, c, s));
        candidates = keep q i k l v candidate i.candidates refl;
        pending = keep q i k l v waiting i.pending refl;
        updates = leave q i k l v updating i.updates (ground (arith, c));
        known_stores = keep q i k l v known i.known_stores refl;
        unknown_stores = keep q i k l v unknown i.unknown_stores refl;
        accessed_loads = keep q i k l v accessed i.accessed_loads refl;
        buckets = i.buckets;
        words = λ b h. count_same q i k l v (hits b) refl (i.words b h);
        loads_pending = count_same q i k l v waiting refl i.loads_pending;
        loads_unreported =
            count_down q i k l v unreported (ground (arith, c)) (ground (arith, c))
              i.loads_unreported;
        stores_waiting = count_same q i k l v unfilled refl i.stores_waiting;
      }
