-- ===== src/Core/LoadSearch.antt =====
-- core/ooo.cpp: the search of `lsqOperate` for an older store that a load must wait for or takes
-- its data from.
pub mod Positions
pub mod Decide
mod Visited
pub mod Result
mod Tests
use rv_o.Base.{ℕ, zero, suc, Bool, true, false, ◌&&◌, not, ◌==◌, if◌then◌else◌}
use rv_o.Isa.{extend_load}
use rv_o.Core.Ring
use rv_o.Core.Ring.{Ring}
use rv_o.Core.SlotSet.Visit.{visit_older}
use rv_o.Core.Lsq
use rv_o.Core.Lsq.{LsqEntry, Lsq, complete_load, overlaps, may_store_to_word}
use rv_o.Core.StoreBuffer
use rv_o.Core.StoreBuffer.{StoreBufEntry, StoreBuffer}

-- What `olderStore` is told of a store.
pub record OlderStore : Type 0 where
  pub addr : ℕ
  pub size : ℕ
  pub data_ready : Bool
  pub data_word : ℕ

abbrev pub queued : LsqEntry → OlderStore
queued e = record {
  addr = e.addr;
  size = e.size;
  data_ready = e.data_ready;
  data_word = e.data_word;
}

abbrev pub buffered : StoreBufEntry → OlderStore
buffered e = record { addr = e.addr; size = e.size; data_ready = true; data_word = e.data_word }

-- The queue, and the two flags of the search.
pub record Search : Type 0 where
  pub queue : Lsq
  pub blocked : Bool
  pub forwarded : Bool

module _ (slot : ℕ) (le : LsqEntry) where
  -- `olderStore`, for the load `le` of the slot.
  unfoldable pub older_store : Search → OlderStore → Search
  older_store s st =
      if st.addr == le.addr && st.size == le.size
      then if not st.data_ready then record s { blocked = true } else record s {
        queue = complete_load s.queue slot (extend_load le.op st.data_word);
        forwarded = true;
      }
      else if overlaps st.addr st.size le.addr le.size
      then record s { blocked = true }
      else s

  -- The visitor of the older stores of the queue.
  unfoldable pub visit_store : Search → ℕ → Search × Bool
  visit_store s other =
      let s' = older_store s (queued (Lsq.at s.queue other)) in
      (s', not s'.blocked && not s'.forwarded)

  -- The loop over the store buffer from entry `j - 1` down.
  unfoldable pub search_buffer : StoreBuffer → ℕ → Search → Search
  search_buffer b zero s = s
  search_buffer b (suc j) s =
      let rest =
        search_buffer b j (older_store s (buffered (Ring.nth StoreBuffer.fresh b.ring j))) in
      if not s.blocked && not s.forwarded then rest else s

-- The search for the load of a slot.
unfoldable pub search : Lsq → StoreBuffer → ℕ → Search
search q b slot =
    let le = Lsq.at q slot in
    let start : Search = record { queue = q; blocked = false; forwarded = false } in
    let found =
      visit_older (visit_store slot le) (λ s. s.queue.known_stores.words) q.known_stores.capacity
        (Ring.index_of q.ring 0) slot start in
    let s = if may_store_to_word q le.addr then found else start in
    search_buffer slot le b (Ring.count b.ring) s
