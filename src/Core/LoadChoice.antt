-- ===== src/Core/LoadChoice.antt =====
-- core/ooo.cpp: how `lsqOperate` chooses the load that goes to the cache.
pub mod Kept
mod Search
pub mod Order
mod Tests
use rv_o.Base.{
  ℕ, ◌-◌, ◌/◌, ◌%◌, ◌^◌, Bool, true, false, ◌&&◌, ◌||◌, not, Option, none, some, List, length,
  get_or, ltb, leb, ◌==◌, if◌then◌else◌,
}
use rv_o.Sim.Config.{SimConfig, MemOrder, conservative, speculative}
use rv_o.Core.Ring
use rv_o.Core.Ring.{Ring}
use rv_o.Core.Rob.{RobEntry, fresh_entry}
use rv_o.Core.SlotSet.Visit.{visit}
use rv_o.Core.Lsq
use rv_o.Core.Lsq.{LsqEntry, Lsq, complete_load}
use rv_o.Core.Lsq.Oldest.{oldest_unknown_store, oldest_pending_load}
use rv_o.Core.StoreBuffer.{StoreBuffer}
use rv_o.Core.LoadSearch.{search}

abbrev pub is_conservative : MemOrder → Bool
is_conservative conservative = true
is_conservative _ = false

abbrev pub is_speculative : MemOrder → Bool
is_speculative speculative = true
is_speculative _ = false

-- The counter of the dependence predictor for a load.
unfoldable pub dep_entry : List ℕ → ℕ → ℕ
dep_entry dep_table pc = get_or dep_table (pc / 4 % length dep_table) 0

-- A load that may go to the cache: its slot, and whether it passes a store without an address.
pub record Candidate : Type 0 where
  pub cand_ring : ℕ
  pub past_wall : Bool

-- The queue, which forwarding changes, and the load found so far.
pub record Choice : Type 0 where
  pub queue : Lsq
  pub cand : Option Candidate

-- Must a load that has a store without an address before it wait for the address?
unfoldable pub cautious : SimConfig → List ℕ → LsqEntry → Bool
cautious cfg dep_table le =
    not (is_speculative cfg.mem_order) || (cfg.dep_predictor && leb 2 (dep_entry dep_table le.pc))

module _ (cfg : SimConfig) (dep_table : List ℕ) (rob : Ring RobEntry) (b : StoreBuffer) where
  module _ (unknown_seq pending_seq : ℕ) where
    -- The visitor of the loads that wait with an address.
    unfoldable pub visit_candidate : Choice → ℕ → Choice × Bool
    visit_candidate s slot =
        let le = Lsq.at s.queue slot in
        let wall = ltb unknown_seq le.seq in
        let found = search s.queue b slot in
        if ltb pending_seq le.seq
        then (s, false)
        else if not ((Ring.at fresh_entry rob le.rob_idx).fault == 0)
        then (record s { queue = complete_load s.queue slot 0 }, true)
        else if wall && cautious cfg dep_table le
        then (s, true)
        else if found.forwarded
        then (record s { queue = found.queue }, not (is_conservative cfg.mem_order))
        else if not found.blocked
        then (
          record {
            queue = found.queue;
            cand = some (record { cand_ring = slot; past_wall = wall });
          },
          false,
        )
        else (record s { queue = found.queue }, not (is_conservative cfg.mem_order))

  -- The visit for one access.
  unfoldable pub choose : Lsq → Choice
  choose q =
      let unknown_seq = oldest_unknown_store q in
      let pending_seq =
        if is_conservative cfg.mem_order then oldest_pending_load q else 2 ^ 64 - 1 in
      visit (visit_candidate unknown_seq pending_seq) (λ s. s.queue.candidates.words)
        q.candidates.capacity (Ring.index_of q.ring 0) (record { queue = q; cand = none })
