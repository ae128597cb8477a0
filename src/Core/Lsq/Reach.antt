-- ===== src/Core/Lsq/Reach.antt =====
-- Every state that the stages take the load-store queue to.
use rv_o.Base.{
  ℕ, zero, suc, ◌/◌, ◌^◌, ◌≤◌, ◌<◌, ◌≡◌, refl, arith, Bool, true, false, ◌&&◌, ◌||◌, not,
  if◌then◌else◌, u16, u32, ap, ◌∙◌, sym, subst, set, ◌==◌, ltb, Bool-cases, inl, inr, none, some,
  some_injective, get_or-replicate, if-both,
}
use rv_o.Isa.{Op, lb, lbu, sb, lh, lhu, sh, is_store, access_size, extend_load}
use rv_o.Core.Ring
use rv_o.Core.Ring.{Ring, index_of, nth}
use rv_o.Core.Ring.Index.{make-IsValid, live_iff}
use rv_o.Core.Ring.Contents.{nth-push_last, n-push, index_of-push}
use rv_o.Core.Ring.Write.{nth-put_self}
use rv_o.Core.Lsq.{
  fresh, Lsq, make, at, alloc, complete_load, report_load, capture_store_data, pop_tail,
}
use rv_o.Core.Lsq.Tracks.{make-Tracks}
use rv_o.Core.Lsq.Counts.{number-make, hits}
use rv_o.Core.Lsq.Invariant.{
  candidate, waiting, unreported, unfilled, updating, known, unknown, accessed, sound, IsTracked,
  sound-put, ring-put, keep, count_same,
}
use rv_o.Core.Lsq.Use.{Dispatched, dispatch, fill_entry, fill_address, respond, update, squash}
use rv_o.Core.Lsq.Loads.{complete_load-IsTracked, report_load-IsTracked}
use rv_o.Core.Lsq.Stores.{capture_store_data-IsTracked, resolve_address-IsTracked}
use rv_o.Core.Lsq.Ends.{pop_tail-IsTracked}
use rv_o.Core.Lsq.Entry.{blank, new_gen, alloc-push, push-IsTracked, describe_load, describe_store}

pub make-IsTracked : (size : ℕ) → 0 < size → size < 2 ^ 31 → IsTracked (make size)
unfolding make
make-IsTracked size p l = record {
  ring = make-IsValid fresh size p l;
  entries = λ k b. absurd (unfold Ring.make in omega (arith, b));
  candidates = make-Tracks size candidate;
  pending = make-Tracks size waiting;
  updates = make-Tracks size updating;
  known_stores = make-Tracks size known;
  unknown_stores = make-Tracks size unknown;
  accessed_loads = make-Tracks size accessed;
  buckets = refl;
  words = λ b h. ap (λ (x : ℕ). x) (get_or-replicate {A = ℕ} 64 b 0) ∙ number-make (hits b) size;
  loads_pending = number-make waiting size;
  loads_unreported = number-make unreported size;
  stores_waiting = number-make unfilled size;
}

module _ (q : Lsq) (i : IsTracked q) (d : Dispatched) where
  filled :
      Ring.full q.ring ≡ false → IsTracked (fill_entry (alloc q).0 (index_of q.ring q.ring.n) d)
  unfolding fill_entry
  filled f =
      let gen = new_gen q i f in
      let slot = index_of q.ring q.ring.n in
      let pushed = record q {
        gen_ctr = set q.gen_ctr slot gen;
        ring = Ring.push fresh q.ring (blank gen);
      } in
      let v = push-IsTracked q i f in
      let l : q.ring.n < pushed.ring.n =
        omega (arith, n-push fresh q.ring (blank gen) (omega (arith, i.ring.fits, i.ring.small))) in
      let same : index_of pushed.ring q.ring.n ≡ slot =
        index_of-push fresh q.ring (blank gen) q.ring.n in
      let b : at pushed (index_of pushed.ring q.ring.n) ≡ blank gen =
        unfold nth in nth-push_last fresh q.ring i.ring (blank gen) f in
      subst (λ x. IsTracked (fill_entry x slot d)) (sym (alloc-push q i f))
        (subst (λ x. IsTracked (fill_entry pushed x d)) same
          (if-both IsTracked (is_store d.op) _ _ (λ s. describe_store pushed v q.ring.n l d gen b s)
            (λ s. describe_load pushed v q.ring.n l d gen b s)))

  pub dispatch-IsTracked : (q' : Lsq) (idx : ℕ) → dispatch q d ≡ some (q', idx) → IsTracked q'
  unfolding dispatch alloc Ring.alloc
  dispatch-IsTracked q' idx h = elim (Bool-cases (Ring.full q.ring)) [
    | inl f ↦ absurd (ground (arith, f, h))
    | inr f ↦
        let new = fill_entry (alloc q).0 (index_of q.ring q.ring.n) d in
        let slot : ℕ = index_of q.ring q.ring.n in
        let done : (new, slot) ≡ (q', idx) =
          some_injective (sym (ap (λ c. if c then none else some (new, slot)) f) ∙ h) in
        subst IsTracked (ap (λ x. x.0) done) (filled f)
  ]

access_size_bounds : (op : Op) → (0 < access_size op) × (access_size op ≤ 4)
unfolding access_size
access_size_bounds lb = (omega arith, omega arith)
access_size_bounds lbu = (omega arith, omega arith)
access_size_bounds sb = (omega arith, omega arith)
access_size_bounds lh = (omega arith, omega arith)
access_size_bounds lhu = (omega arith, omega arith)
access_size_bounds sh = (omega arith, omega arith)
access_size_bounds _ = (omega arith, omega arith)

module _ (q : Lsq) (i : IsTracked q) where
  pub fill_address-IsTracked :
      (k value : ℕ)
      → k < q.ring.n
      → (at q (index_of q.ring k)).addr_valid ≡ false
      → IsTracked (fill_address q (index_of q.ring k) value)
  unfolding fill_address
  fill_address-IsTracked k value l a =
      let slot = index_of q.ring k in
      let e = at q slot in
      let v = record e { addr = value; size = access_size e.op } in
      let q1 = record q { ring = Ring.put q.ring slot v } in
      let written : at q1 slot ≡ v =
        unfold nth Ring.put index_of in nth-put_self fresh q.ring i.ring k v l in
      let size = access_size_bounds e.op in
      let s : sound e ≡ true = unfold nth in i.entries k l in
      let i1 : IsTracked q1 =
        unfold candidate waiting unreported unfilled updating known unknown accessed hits in
        record {
          ring = ring-put q i k l v;
          entries = sound-put q i k l v (unfold sound in ground (arith, a, s, size));
          candidates = keep q i k l v candidate i.candidates refl;
          pending = keep q i k l v waiting i.pending refl;
          updates = keep q i k l v updating i.updates refl;
          known_stores = keep q i k l v known i.known_stores refl;
          unknown_stores = keep q i k l v unknown i.unknown_stores refl;
          accessed_loads = keep q i k l v accessed i.accessed_loads refl;
          buckets = i.buckets;
          words = λ b h. count_same q i k l v (hits b) (ground (arith, a)) (i.words b h);
          loads_pending = count_same q i k l v waiting refl i.loads_pending;
          loads_unreported = count_same q i k l v unreported refl i.loads_unreported;
          stores_waiting = count_same q i k l v unfilled refl i.stores_waiting;
        } in
      unfold Ring.put index_of in
      resolve_address-IsTracked q1 i1 k l (ap (λ x. x.addr_valid) written ∙ a)

  pub respond-IsTracked : (tag rdata : ℕ) → IsTracked (respond q tag rdata)
  unfolding respond
  respond-IsTracked tag rdata =
      let slot = u32 (tag / 2 ^ 16) in
      let e = at q slot in
      let stale = e.is_store || (not e.issued || (e.done || not (e.gen == u16 tag))) in
      if-both IsTracked (Ring.live q.ring slot && not stale) _ q
        (λ c.
          let (k, l, here) = (live_iff q.ring i.ring slot (omega arith)).0 (ground (arith, c)) in
          let ready : (candidate (at q (index_of q.ring k)) || waiting (at q (index_of q.ring k)))
              ≡ true =
            unfold candidate waiting in ground (arith, c, ap (at q) here) in
          subst (λ s. IsTracked (complete_load q s (extend_load e.op rdata))) here
            (complete_load-IsTracked q i k l (extend_load e.op rdata) ready))
        (λ _. i)

  report_visit :
      (k : ℕ) (free : Bool)
      → k < q.ring.n
      → let e = at q (index_of q.ring k) in
        IsTracked (
          if not e.is_store && (e.done && (not e.reported && free))
          then report_load q (index_of q.ring k)
          else q)
  report_visit k free l =
      let e = at q (index_of q.ring k) in
      if-both IsTracked (not e.is_store && (e.done && (not e.reported && free))) _ q
        (λ c. report_load-IsTracked q i k l (unfold unreported in ground (arith, c))) (λ _. i)

module _ (q : Lsq) (i : IsTracked q) where
  pub update-IsTracked :
      (k : ℕ) (ready : Bool) (value : ℕ) (free : Bool)
      → k < q.ring.n
      → IsTracked (update q (index_of q.ring k) ready value free)
  unfolding update
  update-IsTracked k ready value free l =
      let slot = index_of q.ring k in
      let e = at q slot in
      elim (Bool-cases (e.is_store && (not e.data_ready && ready))) [
        | inl c ↦
            let captured =
              capture_store_data-IsTracked q i k l value (unfold unfilled in ground (arith, c)) in
            rw c (
              unfold capture_store_data Ring.put index_of in
              report_visit (capture_store_data q slot value) captured k free l)
        | inr c ↦ rw c (report_visit q i k free l)
      ]

pub squash-IsTracked : (fuel : ℕ) (q : Lsq) (seq : ℕ) → IsTracked q → IsTracked (squash fuel q seq)
unfolding squash
squash-IsTracked zero q seq i = i
squash-IsTracked (suc fuel) q seq i =
    if-both IsTracked (not (Ring.count q.ring == 0) && ltb seq (Ring.tail fresh q.ring).seq) _ q
      (λ c.
        squash-IsTracked fuel (pop_tail q) seq
          (pop_tail-IsTracked q i (unfold Ring.empty Ring.count in ground (arith, c))))
      (λ c. i)
