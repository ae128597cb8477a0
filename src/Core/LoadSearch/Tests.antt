-- ===== src/Core/LoadSearch/Tests.antt =====
-- core/ooo.cpp: a load takes the byte of the store before it.
use rv_o.Base.{ℕ, zero, suc, ◌+◌, ◌<◌, ◌^◌, ◌≡◌, ◌++◌, refl, arith, true}
use rv_o.Isa.{lbu, is_store, access_size}
use rv_o.Core.Ring
use rv_o.Core.Ring.{nth, index_of}
use rv_o.Core.SlotSet
use rv_o.Core.StoreBuffer
use rv_o.Core.StoreBuffer.{StoreBuffer}
use rv_o.Core.Lsq.{Lsq, fresh, make, alloc, resolve_address, set_store_source}
use rv_o.Core.Lsq.Invariant.{known}
use rv_o.Core.Lsq.Use.{Dispatched, fill_entry, dispatch, fill_address}
use rv_o.Core.Lsq.Steps.{Reached, next, dispatches, resolves, Reached-IsTracked}
use rv_o.Core.Lsq.Tests.{start, known_store, store_run}
use rv_o.Core.LoadSearch.{search}
use rv_o.Core.LoadSearch.Decide.{judge, decide, older_stores, buffered_stores, outcome}
use rv_o.Core.LoadSearch.Result.{search-decide}

abbrev load_byte : Dispatched
load_byte = record {
  seq = 2;
  rob_idx = 1;
  pc = 4;
  op = lbu;
  pdst = 40;
  source = 0;
  ready = true;
  value = 0;
}

abbrev with_both : Lsq
with_both = fill_entry (alloc known_store).0 1 load_byte

abbrev both : Lsq
both = fill_address with_both (index_of with_both.ring 1) 67

both_run : Reached start both
unfolding dispatch fill_entry fill_address make Ring.make alloc Ring.alloc Ring.full index_of
    Ring.at Ring.put is_store set_store_source resolve_address access_size SlotSet.insert
    SlotSet.make
both_run =
    next (next store_run (dispatches known_store with_both load_byte 1 refl))
      (resolves with_both 1 67 (omega arith) refl)

low_addresses :
    (j : ℕ)
    → j < 1
    → known (nth fresh both.ring j) ≡ true
    → (nth fresh both.ring j).addr + (nth fresh both.ring j).size < 2 ^ 32
unfolding fill_entry fill_address make Ring.make alloc Ring.alloc index_of Ring.at Ring.put is_store
    set_store_source resolve_address access_size nth
low_addresses zero b k = omega arith
low_addresses (suc i) b k = omega (arith, b)

search-decide_example :
    search both (StoreBuffer.make 4) (index_of both.ring 1)
    ≡ outcome both (index_of both.ring 1) (nth fresh both.ring 1) (
        decide (judge (nth fresh both.ring 1)) (
          older_stores both.ring 1
          ++ buffered_stores (StoreBuffer.make 4) (StoreBuffer.make 4).ring.n))
unfolding dispatch fill_entry fill_address make Ring.make alloc Ring.alloc Ring.full index_of
    Ring.at Ring.put is_store set_store_source resolve_address access_size nth StoreBuffer.make
search-decide_example =
    search-decide both (StoreBuffer.make 4) 1
      (Reached-IsTracked 4 both (omega arith) (omega arith) both_run) (omega arith) low_addresses
      (λ j l. omega (arith, l)) (omega arith) (omega arith)
