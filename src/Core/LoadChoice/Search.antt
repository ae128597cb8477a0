-- ===== src/Core/LoadChoice/Search.antt =====
-- core/ooo.cpp: what the search for older stores leaves alone.
use rv_o.Base.{
  ℕ, zero, suc, ◌≡◌, refl, ap, ◌∙◌, arith, true, false, ◌&&◌, not, length, get_or-set, ltb, ◌==◌,
  if-both,
}
use rv_o.Core.Ring
use rv_o.Core.Ring.{Ring}
use rv_o.Core.Lsq
use rv_o.Core.Lsq.{LsqEntry, fresh, Lsq, complete_load, overlaps, may_store_to_word}
use rv_o.Core.StoreBuffer
use rv_o.Core.StoreBuffer.{StoreBuffer}
use rv_o.Core.LoadSearch.{
  OlderStore, queued, buffered, Search, older_store, visit_store, search_buffer, search,
}
use rv_o.Core.LoadChoice.{}
use rv_o.Core.LoadChoice.Kept.{visit_older-kept}

-- The entries keep their age, their address in the program and their reorder buffer slot.
abbrev pub SameLoads : Lsq → Lsq → Type 0
SameLoads q q' =
    (slot : ℕ)
    → ((Lsq.at q' slot).seq ≡ (Lsq.at q slot).seq)
      × ((Lsq.at q' slot).pc ≡ (Lsq.at q slot).pc)
      × ((Lsq.at q' slot).rob_idx ≡ (Lsq.at q slot).rob_idx)

field-complete_load :
    (field : LsqEntry → ℕ)
    → ((e : LsqEntry) (v : ℕ) → field (record e { value = v; done = true }) ≡ field e)
    → (q : Lsq) (slot value x : ℕ)
    → field (Lsq.at (complete_load q slot value) x) ≡ field (Lsq.at q x)
unfolding complete_load Ring.put Ring.at
field-complete_load field same q slot value x =
    let completed : LsqEntry = record (Lsq.at q slot) { value = value; done = true } in
    let here = slot == x && ltb slot (length q.ring.e) in
    ap field (get_or-set q.ring.e slot x completed fresh)
    ∙ if-both (λ e. field e ≡ field (Lsq.at q x)) here completed (Lsq.at q x)
        (λ c.
          let there : slot ≡ x = ground (arith, c) in
          same (Lsq.at q slot) value ∙ ap (λ k. field (Lsq.at q k)) there)
        (λ c. refl)

pub complete_load-SameLoads :
    (q0 q : Lsq) (slot value : ℕ) → SameLoads q0 q → SameLoads q0 (complete_load q slot value)
complete_load-SameLoads q0 q slot value h x =
    let (ages, pcs, places) = h x in
    (
      field-complete_load (λ e. e.seq) (λ e v. refl) q slot value x ∙ ages,
      field-complete_load (λ e. e.pc) (λ e v. refl) q slot value x ∙ pcs,
      field-complete_load (λ e. e.rob_idx) (λ e v. refl) q slot value x ∙ places,
    )

module _ (q0 : Lsq) (slot : ℕ) (le : LsqEntry) where
  abbrev KeepsLoads : Search → Type 0
  KeepsLoads s = SameLoads q0 s.queue

  older_store-KeepsLoads :
      (s : Search) (st : OlderStore) → KeepsLoads s → KeepsLoads (older_store slot le s st)
  unfolding older_store
  older_store-KeepsLoads s st h =
      if-both KeepsLoads (st.addr == le.addr && st.size == le.size) _ _
        (λ _.
          if-both KeepsLoads (not st.data_ready) _ _ (λ _. h)
            (λ _. complete_load-SameLoads q0 s.queue slot _ h))
        (λ _. if-both KeepsLoads (overlaps st.addr st.size le.addr le.size) _ _ (λ _. h) (λ _. h))

  search_buffer-KeepsLoads :
      (b : StoreBuffer) (j : ℕ) (s : Search)
      → KeepsLoads s
      → KeepsLoads (search_buffer slot le b j s)
  unfolding search_buffer
  search_buffer-KeepsLoads b zero s h = h
  search_buffer-KeepsLoads b (suc j) s h =
      let st = buffered (Ring.nth StoreBuffer.fresh b.ring j) in
      if-both KeepsLoads (not s.blocked && not s.forwarded) _ _
        (λ _.
          search_buffer-KeepsLoads b j (older_store slot le s st) (older_store-KeepsLoads s st h))
        (λ _. h)

pub search-SameLoads :
    (q0 q : Lsq) (b : StoreBuffer) (slot : ℕ)
    → SameLoads q0 q
    → SameLoads q0 (search q b slot).queue
unfolding search visit_store
search-SameLoads q0 q b slot h =
    let le = Lsq.at q slot in
    let begun : Search = record { queue = q; blocked = false; forwarded = false } in
    let visited =
      visit_older-kept (visit_store slot le) (λ s. s.queue.known_stores.words)
        (KeepsLoads q0 slot le)
        (λ s other k.
          unfold visit_store in
          older_store-KeepsLoads q0 slot le s (queued (Lsq.at s.queue other)) k)
        q.known_stores.capacity (Ring.index_of q.ring 0) slot begun h in
    search_buffer-KeepsLoads q0 slot le b (Ring.count b.ring) _ (
      if-both (KeepsLoads q0 slot le) (may_store_to_word q le.addr) _ begun (λ _. visited) (λ _. h))

-- A search that forwards nothing leaves the queue as it is.
module _ (q0 : Lsq) (slot : ℕ) (le : LsqEntry) where
  abbrev OnlyForwards : Search → Type 0
  OnlyForwards s = s.forwarded ≡ false → s.queue ≡ q0

  older_store-OnlyForwards :
      (s : Search) (st : OlderStore) → OnlyForwards s → OnlyForwards (older_store slot le s st)
  unfolding older_store
  older_store-OnlyForwards s st h =
      if-both OnlyForwards (st.addr == le.addr && st.size == le.size) _ _
        (λ _.
          if-both OnlyForwards (not st.data_ready) _ _ (λ _. h) (λ _ e. absurd (ground (arith, e))))
        (λ _. if-both OnlyForwards (overlaps st.addr st.size le.addr le.size) _ _ (λ _. h) (λ _. h))

  search_buffer-OnlyForwards :
      (b : StoreBuffer) (j : ℕ) (s : Search)
      → OnlyForwards s
      → OnlyForwards (search_buffer slot le b j s)
  unfolding search_buffer
  search_buffer-OnlyForwards b zero s h = h
  search_buffer-OnlyForwards b (suc j) s h =
      let st = buffered (Ring.nth StoreBuffer.fresh b.ring j) in
      if-both OnlyForwards (not s.blocked && not s.forwarded) _ _
        (λ _.
          search_buffer-OnlyForwards b j (older_store slot le s st)
            (older_store-OnlyForwards s st h))
        (λ _. h)

pub search-unchanged :
    (q : Lsq) (b : StoreBuffer) (slot : ℕ)
    → (search q b slot).forwarded ≡ false
    → (search q b slot).queue ≡ q
unfolding search visit_store
search-unchanged q b slot =
    let le = Lsq.at q slot in
    let begun : Search = record { queue = q; blocked = false; forwarded = false } in
    let visited =
      visit_older-kept (visit_store slot le) (λ s. s.queue.known_stores.words)
        (OnlyForwards q slot le)
        (λ s other k.
          unfold visit_store in
          older_store-OnlyForwards q slot le s (queued (Lsq.at s.queue other)) k)
        q.known_stores.capacity (Ring.index_of q.ring 0) slot begun (λ _. refl) in
    search_buffer-OnlyForwards q slot le b (Ring.count b.ring) _ (
      if-both (OnlyForwards q slot le) (may_store_to_word q le.addr) _ begun (λ _. visited)
        (λ _ _. refl))
