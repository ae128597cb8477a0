-- ===== src/Core/Lsq/Stores.antt =====
-- core/lsq.h: the methods on a store and the resolution of an address, and the queue's invariant.
use rv_o.Base.{
  ℕ, ◌+◌, ◌<◌, ◌≡◌, refl, arith, true, false, ◌||◌, if◌then◌else◌, u32, if-both, inl, inr,
  Bool-cases, ap, ◌∙◌, get_or, ◌==◌,
}
use rv_o.Core.Ring
use rv_o.Core.Ring.{Ring, index_of}
use rv_o.Core.SlotSet
use rv_o.Core.Lsq.{
  Lsq, at, capture_store_data, resolve_address, word_bucket, last_byte, change_words,
}
use rv_o.Core.Lsq.Counts.{hits, get_or-change_words, length-change_words}
use rv_o.Core.Lsq.Invariant.{
  candidate, waiting, unreported, unfilled, updating, known, unknown, accessed, sound, IsTracked,
  sound-put, ring-put, keep, enter, leave, count_same, count_up, count_down,
}

module _ (q : Lsq) (i : IsTracked q) (k : ℕ) (l : k < q.ring.n) where
  entry-sound : sound (at q (index_of q.ring k)) ≡ true
  entry-sound = unfold Ring.nth in i.entries k l

  pub capture_store_data-IsTracked :
      (value : ℕ)
      → unfilled (at q (index_of q.ring k)) ≡ true
      → IsTracked (capture_store_data q (index_of q.ring k) value)
  unfolding capture_store_data candidate waiting unreported unfilled updating known unknown accessed
      sound hits
  capture_store_data-IsTracked value c =
      let v = record (at q (index_of q.ring k)) { data_word = value; data_ready = true } in
      let s = entry-sound in
      record {
        ring = ring-put q i k l v;
        entries = sound-put q i k l v s;
        candidates = keep q i k l v candidate i.candidates refl;
        pending = keep q i k l v waiting i.pending refl;
        updates = leave q i k l v updating i.updates (ground (arith, c));
        known_stores = keep q i k l v known i.known_stores refl;
        unknown_stores = keep q i k l v unknown i.unknown_stores refl;
        accessed_loads = keep q i k l v accessed i.accessed_loads refl;
        buckets = i.buckets;
        words = λ b h. count_same q i k l v (hits b) refl (i.words b h);
        loads_pending = count_same q i k l v waiting refl i.loads_pending;
        loads_unreported = count_same q i k l v unreported refl i.loads_unreported;
        stores_waiting =
            count_down q i k l v unfilled (ground (arith, c)) (ground (arith, c)) i.stores_waiting;
      }

  resolve_load :
      (at q (index_of q.ring k)).is_store ≡ false
      → (at q (index_of q.ring k)).addr_valid ≡ false
      → IsTracked (record q {
        ring =
            Ring.put q.ring
              (index_of q.ring k)
              (record (at q (index_of q.ring k)) { addr_valid = true });
        candidates = SlotSet.insert q.candidates (index_of q.ring k);
      })
  unfolding candidate waiting unreported unfilled updating known unknown accessed sound hits
  resolve_load f a =
      let v = record (at q (index_of q.ring k)) { addr_valid = true } in
      let s = entry-sound in
      record {
        ring = ring-put q i k l v;
        entries = sound-put q i k l v (ground (arith, a, s));
        candidates = enter q i k l v candidate i.candidates (ground (arith, f, a, s));
        pending = keep q i k l v waiting i.pending refl;
        updates = keep q i k l v updating i.updates refl;
        known_stores = keep q i k l v known i.known_stores (ground (arith, f));
        unknown_stores = keep q i k l v unknown i.unknown_stores (ground (arith, f));
        accessed_loads = keep q i k l v accessed i.accessed_loads refl;
        buckets = i.buckets;
        words = λ b h. count_same q i k l v (hits b) (ground (arith, f)) (i.words b h);
        loads_pending = count_same q i k l v waiting refl i.loads_pending;
        loads_unreported = count_same q i k l v unreported refl i.loads_unreported;
        stores_waiting = count_same q i k l v unfilled refl i.stores_waiting;
      }

  resolve_store :
      (at q (index_of q.ring k)).is_store ≡ true
      → (at q (index_of q.ring k)).addr_valid ≡ false
      → IsTracked (record q {
        ring =
            Ring.put q.ring
              (index_of q.ring k)
              (record (at q (index_of q.ring k)) { addr_valid = true });
        unknown_stores = SlotSet.erase q.unknown_stores (index_of q.ring k);
        known_stores = SlotSet.insert q.known_stores (index_of q.ring k);
        store_words = change_words (λ c. u32 (c + 1)) q.store_words (at q (index_of q.ring k));
      })
  unfolding candidate waiting unreported unfilled updating known unknown accessed sound
  resolve_store f a =
      let e = at q (index_of q.ring k) in
      let v = record e { addr_valid = true } in
      let s = entry-sound in
      record {
        ring = ring-put q i k l v;
        entries = sound-put q i k l v (ground (arith, f, a, s));
        candidates = keep q i k l v candidate i.candidates (ground (arith, f));
        pending = keep q i k l v waiting i.pending refl;
        updates = keep q i k l v updating i.updates refl;
        known_stores = enter q i k l v known i.known_stores (ground (arith, f));
        unknown_stores = leave q i k l v unknown i.unknown_stores (ground (arith, f));
        accessed_loads = keep q i k l v accessed i.accessed_loads refl;
        buckets = length-change_words (λ c. u32 (c + 1)) q.store_words e ∙ i.buckets;
        words = λ b h.
            get_or-change_words (λ c. u32 (c + 1)) q.store_words e b i.buckets
            ∙ elim (Bool-cases (word_bucket e.addr == b || word_bucket (last_byte e) == b)) [
              | inl y ↦
                  ap
                    (λ x.
                      if x then u32 (get_or q.store_words b 0 + 1) else get_or q.store_words b 0)
                    y
                  ∙ count_up q i k l v (hits b) (unfold hits in ground (arith, a))
                      (unfold hits in ground (arith, f, y)) (i.words b h)
              | inr y ↦
                  ap
                    (λ x.
                      if x then u32 (get_or q.store_words b 0 + 1) else get_or q.store_words b 0)
                    y
                  ∙ count_same q i k l v (hits b) (unfold hits in ground (arith, y)) (i.words b h)
            ];
        loads_pending = count_same q i k l v waiting refl i.loads_pending;
        loads_unreported = count_same q i k l v unreported refl i.loads_unreported;
        stores_waiting = count_same q i k l v unfilled refl i.stores_waiting;
      }

  -- An address is resolved once.
  pub resolve_address-IsTracked :
      (at q (index_of q.ring k)).addr_valid ≡ false
      → IsTracked (resolve_address q (index_of q.ring k))
  unfolding resolve_address
  resolve_address-IsTracked a =
      if-both IsTracked (at q (index_of q.ring k)).is_store _ _ (λ f. resolve_store f a)
        (λ f. resolve_load f a)
