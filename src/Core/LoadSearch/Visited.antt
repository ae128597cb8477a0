-- ===== src/Core/LoadSearch/Visited.antt =====
-- core/ooo.cpp: the visit of the older stores and the filter of the words, in the search.
use rv_o.Base.{
  ℕ, zero, suc, ◌+◌, ◌/◌, ◌%◌, ◌^◌, ◌≤◌, ◌<◌, ◌≡◌, refl, sym, ap, ◌∙◌, arith, Bool, true, false,
  ◌&&◌, not, List, ◌++◌, get_or, ◌==◌, if◌then◌else◌, if-both, Bool-cases, inl, inr, test_bit,
  subst,
}
use rv_o.Core.Ring
use rv_o.Core.Ring.{Ring, index_of, nth}
use rv_o.Core.SlotSet.{SlotSet}
use rv_o.Core.SlotSet.Visit.{visit_older}
use rv_o.Core.SlotSet.Order.{IsLocal}
use rv_o.Core.SlotSet.Member.{member}
use rv_o.Core.Lsq
use rv_o.Core.Lsq.{LsqEntry, fresh, Lsq, complete_load, overlaps, may_store_to_word, word_bucket}
use rv_o.Core.Lsq.Counts.{hits}
use rv_o.Core.Lsq.Invariant.{known, sound, IsTracked}
use rv_o.Core.Lsq.Steps.{may_store_to_word-overlaps, not_counted}
use rv_o.Core.StoreBuffer.{StoreBuffer}
use rv_o.Core.LoadSearch.{
  OlderStore, queued, Search, older_store, visit_store, search_buffer, search,
}
use rv_o.Core.LoadSearch.Positions.{older_down}
use rv_o.Core.LoadSearch.Decide.{
  Verdict, free, reply, otherwise, decide, older_stores, buffered_stores, outcome, start, listed,
  unlisted, decide-append, down-decide, search_buffer-decide,
}

module _ (slot : ℕ) (le : LsqEntry) where
  -- The visitor leaves the set of known stores alone.
  same_known :
      (s : Search) (st : OlderStore)
      → (older_store slot le s st).queue.known_stores ≡ s.queue.known_stores
  unfolding older_store complete_load
  same_known s st =
      let p : Search → Type 0 = λ x. x.queue.known_stores ≡ s.queue.known_stores in
      if-both p (st.addr == le.addr && st.size == le.size) _ _
        (λ _. if-both p (not st.data_ready) _ _ (λ _. refl) (λ _. refl))
        (λ _. if-both p (overlaps st.addr st.size le.addr le.size) _ _ (λ _. refl) (λ _. refl))

  abbrev known_words : Search → List ℕ
  known_words s = s.queue.known_stores.words

  module _ (q : Lsq) (i : IsTracked q) where
    abbrev Unchanged : Search → Type 0
    Unchanged s = s.queue.known_stores ≡ q.known_stores

    visit_store-IsLocal : IsLocal (visit_store slot le) known_words Unchanged
    unfolding visit_store
    visit_store-IsLocal = record {
      small = λ s w o.
          subst (λ (x : SlotSet). get_or x.words w 0 < 2 ^ 64) (sym o)
            (i.known_stores.sized.word w);
      keeps = λ s a o m. same_known s (queued (Lsq.at s.queue a)) ∙ o;
      apart = λ s a b o m d.
          ap (λ (x : SlotSet). test_bit (get_or x.words (b / 64) 0) (b % 64))
            (same_known s (queued (Lsq.at s.queue a)));
    }

    member_known :
        (j : ℕ)
        → j < q.ring.n
        → test_bit (get_or q.known_stores.words (index_of q.ring j / 64) 0) (index_of q.ring j % 64)
          ≡ known (nth fresh q.ring j)
    member_known j b =
        let held = i.known_stores.holds j (omega (arith, b, i.ring.fits)) in
        unfold member in (held ∙ ground (arith, b))

    visited :
        (k : ℕ)
        → k < q.ring.n
        → visit_older
            (visit_store slot le)
            known_words
            q.known_stores.capacity
            (index_of q.ring 0)
            (index_of q.ring k)
            (start q slot le)
          ≡ outcome q slot le (decide (reply le) (older_stores q.ring k))
    visited k l =
        ap
          (λ c.
            visit_older (visit_store slot le) known_words c (index_of q.ring 0) (index_of q.ring k)
              (start q slot le))
          i.known_stores.fits
        ∙ older_down (visit_store slot le) known q.ring known_words Unchanged visit_store-IsLocal
            i.ring
            (λ s j o b.
              ap
                (λ (x : SlotSet).
                  test_bit (get_or x.words (index_of q.ring j / 64) 0) (index_of q.ring j % 64))
                o
              ∙ member_known j b)
            k (start q slot le) refl l
        ∙ ap (λ (x : Search × Bool). x.0) (down-decide q slot le k)

quiet : (v : Verdict) → otherwise free v ≡ v
unfolding otherwise
quiet v = refl

-- A known store that is not counted in the load's word has another address.
differs :
    (e le : LsqEntry)
    → known e ≡ true
    → hits (word_bucket le.addr) e ≡ false
    → (e.addr == le.addr) ≡ false
unfolding known hits
differs e le c h = ground (arith, c, h, λ (q : e.addr ≡ le.addr). ap word_bucket q)

-- A load within one aligned word, where `may_store_to_word` says no: no older store says anything.
nothing_older :
    (q : Lsq) (le : LsqEntry) (k : ℕ)
    → IsTracked q
    → k ≤ q.ring.n
    → ((j : ℕ) → j < k → known (nth fresh q.ring j) ≡ true → (nth fresh q.ring j).addr < 2 ^ 32)
    → le.addr < 2 ^ 32
    → 0 < le.size
    → le.addr % 4 + le.size ≤ 4
    → may_store_to_word q le.addr ≡ false
    → decide (reply le) (older_stores q.ring k) ≡ free
nothing_older q le zero i l a b p w m = unfold older_stores decide in refl
nothing_older q le (suc k) i l a b p w m =
    let e = nth fresh q.ring k in
    let older = nothing_older q le k i (omega (arith, l)) (λ j c. a j (omega (arith, c))) b p w m in
    elim (Bool-cases (known e)) [
      | inr out ↦ unlisted q (index_of q.ring k) le k out ∙ older
      | inl is_known ↦
          let apart =
            may_store_to_word-overlaps q k le.addr le.size i l is_known (a k (omega arith) is_known)
              b p w m in
          let other : (e.addr == le.addr) ≡ false =
            differs e le is_known (not_counted q k le.addr i l m) in
          let says : reply le (queued e) ≡ free = unfold reply in ground (arith, apart, other) in
          listed q (index_of q.ring k) le k is_known
          ∙ ap (λ v. otherwise v (decide (reply le) (older_stores q.ring k))) says
          ∙ quiet (decide (reply le) (older_stores q.ring k))
          ∙ older
    ]

pub search-reply :
    (q : Lsq) (b : StoreBuffer) (k : ℕ)
    → IsTracked q
    → k < q.ring.n
    → ((j : ℕ) → j < k → known (nth fresh q.ring j) ≡ true → (nth fresh q.ring j).addr < 2 ^ 32)
    → (nth fresh q.ring k).addr < 2 ^ 32
    → (nth fresh q.ring k).addr % 4 + (nth fresh q.ring k).size ≤ 4
    → search q b (index_of q.ring k)
      ≡ outcome q (index_of q.ring k) (nth fresh q.ring k) (
          decide (reply (nth fresh q.ring k)) (older_stores q.ring k ++ buffered_stores b b.ring.n))
unfolding search Ring.count
search-reply q b k i l a c w =
    let le = nth fresh q.ring k in
    let slot = index_of q.ring k in
    let older = decide (reply le) (older_stores q.ring k) in
    let positive : 0 < le.size = unfold sound in ground (arith, i.entries k l) in
    let same_entry : Lsq.at q slot ≡ le = unfold nth in refl in
    let go_on = search_buffer slot le b b.ring.n in
    let found : (if may_store_to_word q le.addr then outcome q slot le older else start q slot le)
        ≡ outcome q slot le older =
      elim (Bool-cases (may_store_to_word q le.addr)) [
        | inl m ↦ ap (λ t. if t then outcome q slot le older else start q slot le) m
        | inr m ↦
            ap (λ t. if t then outcome q slot le older else start q slot le) m
            ∙ sym (
                ap (outcome q slot le) (nothing_older q le k i (omega (arith, l)) a c positive w m))
      ] in
    ap
      (λ (x : LsqEntry). search_buffer slot x b b.ring.n (
        if may_store_to_word q x.addr
        then visit_older (visit_store slot x) (known_words slot le) q.known_stores.capacity
            (index_of q.ring 0) slot (start q slot x)
        else start q slot x))
      same_entry
    ∙ ap (λ (x : Search). go_on (if may_store_to_word q le.addr then x else start q slot le))
        (visited slot le q i k l)
    ∙ ap go_on found
    ∙ search_buffer-decide q slot le b b.ring.n older
    ∙ sym (
        ap (outcome q slot le)
          (decide-append (reply le) (older_stores q.ring k) (buffered_stores b b.ring.n)))
