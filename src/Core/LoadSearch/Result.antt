-- ===== src/Core/LoadSearch/Result.antt =====
-- core/ooo.cpp: the search for an older store as a whole.
use rv_o.Base.{
  u32, ltb, ◌∷◌, ℕ, zero, suc, ◌+◌, ◌%◌, ◌^◌, ◌≤◌, ◌<◌, ◌≡◌, refl, sym, ap, ◌∙◌, arith, true, ◌&&◌,
  List, ◌++◌, ◌==◌, if◌then◌else◌, if-both,
}
use rv_o.Core.Ring.{Ring, index_of, nth}
use rv_o.Core.Lsq.{LsqEntry, fresh, Lsq, overlaps}
use rv_o.Core.Lsq.Invariant.{known, IsTracked}
use rv_o.Core.StoreBuffer.{StoreBuffer}
use rv_o.Core.StoreBuffer
use rv_o.Core.LoadSearch.{buffered, OlderStore, queued, search}
use rv_o.Core.LoadSearch.Decide.{
  free, waits, takes, reply, judge, touches, otherwise, decide, older_stores, buffered_stores,
  outcome, decide-append,
}
use rv_o.Core.LoadSearch.Visited.{search-reply}

-- Short of the end of the address space the 32-bit test is right.
reply-judge :
    (le : LsqEntry) (st : OlderStore)
    → le.addr + le.size < 2 ^ 32
    → st.addr + st.size < 2 ^ 32
    → reply le st ≡ judge le st
unfolding reply judge touches overlaps
reply-judge le st a b =
    let same : (ltb le.addr (u32 (st.addr + st.size)) && ltb st.addr (u32 (le.addr + le.size)))
        ≡ (ltb st.addr (le.addr + le.size) && ltb le.addr (st.addr + st.size)) =
      ground (arith, a, b) in
    ap
      (λ t.
        if st.addr == le.addr && st.size == le.size
        then if st.data_ready then takes st.data_word else waits
        else if t
        then waits
        else free)
      same

module _ (le : LsqEntry) (a : le.addr + le.size < 2 ^ 32) where
  abbrev SameVerdict : List OlderStore → Type 0
  SameVerdict stores = decide (reply le) stores ≡ decide (judge le) stores

  add_store :
      (st : OlderStore) (stores : List OlderStore)
      → st.addr + st.size < 2 ^ 32
      → SameVerdict stores
      → SameVerdict (st ∷ stores)
  unfolding decide
  add_store st stores b e =
      ap (λ v. otherwise v (decide (reply le) stores)) (reply-judge le st a b)
      ∙ ap (otherwise (judge le st)) e

  older_stores-same :
      (r : Ring LsqEntry) (k : ℕ)
      → ((j : ℕ)
          → j < k
          → known (nth fresh r j) ≡ true
          → (nth fresh r j).addr + (nth fresh r j).size < 2 ^ 32)
      → SameVerdict (older_stores r k)
  unfolding older_stores
  older_stores-same r zero h = unfold decide in refl
  older_stores-same r (suc k) h =
      let older = older_stores-same r k (λ j l. h j (omega (arith, l))) in
      if-both SameVerdict (known (nth fresh r k)) (queued (nth fresh r k) ∷ older_stores r k)
        (older_stores r k)
        (λ e. add_store (queued (nth fresh r k)) (older_stores r k) (h k (omega arith) e) older)
        (λ _. older)

  buffered_stores-same :
      (b : StoreBuffer) (n : ℕ)
      → ((j : ℕ)
          → j < n
          → (nth StoreBuffer.fresh b.ring j).addr + (nth StoreBuffer.fresh b.ring j).size < 2 ^ 32)
      → SameVerdict (buffered_stores b n)
  unfolding buffered_stores
  buffered_stores-same b zero h = unfold decide in refl
  buffered_stores-same b (suc n) h =
      add_store (buffered (nth StoreBuffer.fresh b.ring n)) (buffered_stores b n)
        (h n (omega arith)) (buffered_stores-same b n (λ j l. h j (omega (arith, l))))

  pub append-same :
      (first older : List OlderStore)
      → SameVerdict first
      → SameVerdict older
      → SameVerdict (first ++ older)
  append-same first older e f =
      decide-append (reply le) first older
      ∙ ap (λ v. otherwise v (decide (reply le) older)) e
      ∙ ap (otherwise (decide (judge le) first)) f
      ∙ sym (decide-append (judge le) first older)

-- On a load within one aligned word that is entry `k` of the queue, the search looks at the older
-- stores of the queue whose address is known, from the newest to the oldest, and then at those of
-- the store buffer in the same way, and the first that touches the load decides: with the very
-- address and size its data is forwarded, and completes the load, or is waited for if it is not
-- there yet; any other store with a byte in common makes the load wait. Where no store touches the
-- load, nothing is changed. It supposes that neither the load nor one of these stores reaches the last
-- byte of the 32-bit address space.
pub search-decide :
    (q : Lsq) (b : StoreBuffer) (k : ℕ)
    → IsTracked q
    → k < q.ring.n
    → ((j : ℕ)
        → j < k
        → known (nth fresh q.ring j) ≡ true
        → (nth fresh q.ring j).addr + (nth fresh q.ring j).size < 2 ^ 32)
    → ((j : ℕ)
        → j < b.ring.n
        → (nth StoreBuffer.fresh b.ring j).addr + (nth StoreBuffer.fresh b.ring j).size < 2 ^ 32)
    → (nth fresh q.ring k).addr + (nth fresh q.ring k).size < 2 ^ 32
    → (nth fresh q.ring k).addr % 4 + (nth fresh q.ring k).size ≤ 4
    → search q b (index_of q.ring k)
      ≡ outcome q (index_of q.ring k) (nth fresh q.ring k) (
          decide (judge (nth fresh q.ring k)) (older_stores q.ring k ++ buffered_stores b b.ring.n))
search-decide q b k i l stores buffer a w =
    let le = nth fresh q.ring k in
    search-reply q b k i l (λ j c e. omega (arith, stores j c e)) (omega (arith, a)) w
    ∙ ap (outcome q (index_of q.ring k) le) (
        append-same le a (older_stores q.ring k) (buffered_stores b b.ring.n)
          (older_stores-same le a q.ring k stores) (buffered_stores-same le a b b.ring.n buffer))
