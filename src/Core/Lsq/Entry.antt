-- ===== src/Core/Lsq/Entry.antt =====
-- core/ooo.cpp: the new entry of a memory operation, and the queue's invariant.
use rv_o.Base.{
  ℕ, suc, ◌+◌, ◌<◌, ◌≡◌, refl, arith, Bool, true, false, if◌then◌else◌, u16, u32, ap, ◌∙◌, sym,
  subst, length, get_or, set, set-set, ltb, ltb→lt, Bool-cases, inl, inr, get_or-set_self,
}
use rv_o.Isa.{is_store}
use rv_o.Core.Ring
use rv_o.Core.Ring.{Ring, index_of, nth}
use rv_o.Core.Ring.Index.{push-IsValid, index_of-lt}
use rv_o.Core.Ring.Contents.{nth-push, nth-push_last, n-push}
use rv_o.Core.SlotSet
use rv_o.Core.Lsq.{LsqEntry, fresh, Lsq, at, alloc, set_store_source}
use rv_o.Core.Lsq.Tracks.{push-Tracks}
use rv_o.Core.Lsq.Counts.{number-push, hits}
use rv_o.Core.Lsq.Invariant.{
  candidate, waiting, unreported, unfilled, updating, known, unknown, accessed, sound, IsTracked,
  sound-put, ring-put, keep, enter, count_same, count_up,
}
use rv_o.Core.Lsq.Use.{Dispatched, describe}

-- The entry that `alloc` leaves in the slot.
abbrev pub blank : ℕ → LsqEntry
blank gen = record fresh { gen = gen }

module _ (q : Lsq) (i : IsTracked q) (f : Ring.full q.ring ≡ false) where
  abbrev pub new_gen : ℕ
  new_gen = u16 (get_or q.gen_ctr (index_of q.ring q.ring.n) 0 + 1)

  pub room : q.ring.n < q.ring.capacity
  room = unfold Ring.full in ground (arith, f, i.ring.fits)

  slot_there : index_of q.ring q.ring.n < length q.ring.e
  slot_there = omega (arith, index_of-lt q.ring i.ring q.ring.n, i.ring.storage, i.ring.fits)

  -- The allocation is a push of the blank entry.
  pub alloc-push : (alloc q).0 ≡ record q {
    gen_ctr = set q.gen_ctr (index_of q.ring q.ring.n) new_gen;
    ring = Ring.push fresh q.ring (blank new_gen);
  }
  unfolding alloc Ring.alloc Ring.at Ring.push Ring.put
  alloc-push =
      let there = get_or-set_self q.ring.e (index_of q.ring q.ring.n) fresh fresh slot_there in
      ap
        (λ (x : LsqEntry). record q {
          gen_ctr = set q.gen_ctr (index_of q.ring q.ring.n) new_gen;
          ring = record q.ring {
            e =
                set (set q.ring.e (index_of q.ring q.ring.n) fresh) (index_of q.ring q.ring.n)
                  (record x { gen = new_gen });
            n = u32 (q.ring.n + 1);
          };
        })
        there

  pub push-IsTracked : IsTracked (record q {
    gen_ctr = set q.gen_ctr (index_of q.ring q.ring.n) new_gen;
    ring = Ring.push fresh q.ring (blank new_gen);
  })
  unfolding candidate waiting unreported unfilled updating known unknown accessed sound hits
  push-IsTracked =
      let v = blank new_gen in
      let r = q.ring in
      let more : (Ring.push fresh r v).n ≡ suc r.n =
        n-push fresh r v (omega (arith, i.ring.fits, i.ring.small)) in
      record {
        ring = push-IsValid fresh r v i.ring f;
        entries = λ k l. elim (Bool-cases (ltb k r.n)) [
          | inl b ↦
              ap sound (nth-push fresh r i.ring v k (ltb→lt k r.n b) f)
              ∙ i.entries k (ltb→lt k r.n b)
          | inr b ↦
              let last : k ≡ r.n = ground (arith, b, l, more) in
              ap (λ j. sound (nth fresh (Ring.push fresh r v) j)) last
              ∙ ap sound (nth-push_last fresh r i.ring v f)
        ];
        candidates = push-Tracks candidate r i.ring q.candidates i.candidates v refl f;
        pending = push-Tracks waiting r i.ring q.pending i.pending v refl f;
        updates = push-Tracks updating r i.ring q.updates i.updates v refl f;
        known_stores = push-Tracks known r i.ring q.known_stores i.known_stores v refl f;
        unknown_stores = push-Tracks unknown r i.ring q.unknown_stores i.unknown_stores v refl f;
        accessed_loads = push-Tracks accessed r i.ring q.accessed_loads i.accessed_loads v refl f;
        buckets = i.buckets;
        words = λ b l. i.words b l ∙ number-push (hits b) r i.ring v f refl;
        loads_pending = i.loads_pending ∙ number-push waiting r i.ring v f refl;
        loads_unreported = i.loads_unreported ∙ number-push unreported r i.ring v f refl;
        stores_waiting = i.stores_waiting ∙ number-push unfilled r i.ring v f refl;
      }

-- The fields of a load: the blank entry is one.
module _ (q : Lsq) (i : IsTracked q) (k : ℕ) (l : k < q.ring.n) (d : Dispatched) (gen : ℕ)
    (b : at q (index_of q.ring k) ≡ blank gen) where
  pub describe_load :
      is_store d.op ≡ false
      → IsTracked (record q {
        ring = Ring.put q.ring (index_of q.ring k) (describe d (at q (index_of q.ring k)));
      })
  unfolding candidate waiting unreported unfilled updating known unknown accessed sound hits
  describe_load f =
      let v = describe d (at q (index_of q.ring k)) in
      record {
        ring = ring-put q i k l v;
        entries = sound-put q i k l v (ground (arith, b));
        candidates = keep q i k l v candidate i.candidates (ground (arith, b, f));
        pending = keep q i k l v waiting i.pending (ground (arith, b, f));
        updates = keep q i k l v updating i.updates (ground (arith, b, f));
        known_stores = keep q i k l v known i.known_stores (ground (arith, b, f));
        unknown_stores = keep q i k l v unknown i.unknown_stores (ground (arith, b, f));
        accessed_loads = keep q i k l v accessed i.accessed_loads (ground (arith, b, f));
        buckets = i.buckets;
        words = λ w h. count_same q i k l v (hits w) (ground (arith, b, f)) (i.words w h);
        loads_pending = count_same q i k l v waiting (ground (arith, b, f)) i.loads_pending;
        loads_unreported =
            count_same q i k l v unreported (ground (arith, b, f)) i.loads_unreported;
        stores_waiting = count_same q i k l v unfilled (ground (arith, b, f)) i.stores_waiting;
      }

  -- The entry of a store, with what `set_store_source` writes.
  abbrev sourced : Bool → LsqEntry → LsqEntry
  sourced ready e = record e {
    data_preg = d.source;
    data_ready = ready;
    data_word = if ready then d.value else e.data_word;
  }

  sourced-IsTracked :
      (ready : Bool)
      → is_store d.op ≡ true
      → IsTracked (record q {
        ring =
            Ring.put q.ring
              (index_of q.ring k)
              (sourced ready (describe d (at q (index_of q.ring k))));
        unknown_stores = SlotSet.insert q.unknown_stores (index_of q.ring k);
        updates = if ready then q.updates else SlotSet.insert q.updates (index_of q.ring k);
        waiting_stores = if ready then q.waiting_stores else u32 (q.waiting_stores + 1);
      })
  unfolding candidate waiting unreported unfilled updating known unknown accessed sound hits
  sourced-IsTracked true f =
      let v = sourced true (describe d (at q (index_of q.ring k))) in
      record {
        ring = ring-put q i k l v;
        entries = sound-put q i k l v (ground (arith, b));
        candidates = keep q i k l v candidate i.candidates (ground (arith, b, f));
        pending = keep q i k l v waiting i.pending (ground (arith, b, f));
        updates = keep q i k l v updating i.updates (ground (arith, b, f));
        known_stores = keep q i k l v known i.known_stores (ground (arith, b, f));
        unknown_stores = enter q i k l v unknown i.unknown_stores (ground (arith, b, f));
        accessed_loads = keep q i k l v accessed i.accessed_loads (ground (arith, b, f));
        buckets = i.buckets;
        words = λ w h. count_same q i k l v (hits w) (ground (arith, b, f)) (i.words w h);
        loads_pending = count_same q i k l v waiting (ground (arith, b, f)) i.loads_pending;
        loads_unreported =
            count_same q i k l v unreported (ground (arith, b, f)) i.loads_unreported;
        stores_waiting = count_same q i k l v unfilled (ground (arith, b, f)) i.stores_waiting;
      }
  sourced-IsTracked false f =
      let v = sourced false (describe d (at q (index_of q.ring k))) in
      record {
        ring = ring-put q i k l v;
        entries = sound-put q i k l v (ground (arith, b));
        candidates = keep q i k l v candidate i.candidates (ground (arith, b, f));
        pending = keep q i k l v waiting i.pending (ground (arith, b, f));
        updates = enter q i k l v updating i.updates (ground (arith, b, f));
        known_stores = keep q i k l v known i.known_stores (ground (arith, b, f));
        unknown_stores = enter q i k l v unknown i.unknown_stores (ground (arith, b, f));
        accessed_loads = keep q i k l v accessed i.accessed_loads (ground (arith, b, f));
        buckets = i.buckets;
        words = λ w h. count_same q i k l v (hits w) (ground (arith, b, f)) (i.words w h);
        loads_pending = count_same q i k l v waiting (ground (arith, b, f)) i.loads_pending;
        loads_unreported =
            count_same q i k l v unreported (ground (arith, b, f)) i.loads_unreported;
        stores_waiting =
            count_up q i k l v unfilled (ground (arith, b, f)) (ground (arith, b, f))
              i.stores_waiting;
      }

  -- Describing a store and then setting its source writes the entry once.
  pub describe_store :
      is_store d.op ≡ true
      → IsTracked (
          set_store_source
            (record q {
              ring = Ring.put q.ring (index_of q.ring k) (describe d (at q (index_of q.ring k)));
            })
            (index_of q.ring k)
            d.source
            d.ready
            d.value)
  unfolding set_store_source Ring.at Ring.put
  describe_store f =
      let slot = index_of q.ring k in
      let e1 = describe d (at q slot) in
      let there : slot < length q.ring.e =
        omega (arith, index_of-lt q.ring i.ring k, i.ring.storage, i.ring.fits, l) in
      let once : set (set q.ring.e slot e1) slot
            (sourced d.ready (get_or (set q.ring.e slot e1) slot fresh))
          ≡ set q.ring.e slot (sourced d.ready e1) =
        set-set q.ring.e slot e1 (sourced d.ready (get_or (set q.ring.e slot e1) slot fresh))
        ∙ ap (λ (x : LsqEntry). set q.ring.e slot (sourced d.ready x))
            (get_or-set_self q.ring.e slot e1 fresh there) in
      subst
        (λ x. IsTracked (record q {
          ring = record q.ring { e = x };
          unknown_stores = SlotSet.insert q.unknown_stores slot;
          updates = if d.ready then q.updates else SlotSet.insert q.updates slot;
          waiting_stores = if d.ready then q.waiting_stores else u32 (q.waiting_stores + 1);
        }))
        (sym once) (sourced-IsTracked d.ready f)
