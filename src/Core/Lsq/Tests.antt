-- ===== src/Core/Lsq/Tests.antt =====
-- core/lsq.h: a load and a store go through the queue.
use rv_o.Base.{ℕ, zero, suc, ◌-◌, ◌^◌, ◌<◌, ◌↔◌, some, ◌≡◌, refl, arith, true, false, test_bit}
use rv_o.Isa.{lw, sb, is_store, access_size}
use rv_o.Core.Ring
use rv_o.Core.Ring.{nth, index_of}
use rv_o.Core.SlotSet
use rv_o.Core.SlotSet.Member.{member}
use rv_o.Core.Lsq.{
  Lsq, fresh, make, alloc, issue_load, resolve_address, set_store_source, overlaps,
  may_store_to_word, word_bucket,
}
use rv_o.Core.Lsq.Invariant.{IsTracked, known, unknown}
use rv_o.Core.Lsq.Use.{Dispatched, fill_entry, dispatch, fill_address}
use rv_o.Core.Lsq.Oldest.{oldest_unknown_store, wall_iff}
use rv_o.Core.Lsq.Steps.{
  Reached, here, next, dispatches, resolves, issues, Reached-IsTracked, may_store_to_word-overlaps,
}

abbrev load_word : Dispatched
load_word = record {
  seq = 1;
  rob_idx = 0;
  pc = 0;
  op = lw;
  pdst = 40;
  source = 0;
  ready = true;
  value = 0;
}

abbrev pub start : Lsq
start = make 4

abbrev with_load : Lsq
with_load = fill_entry (alloc start).0 0 load_word

abbrev pub resolved : Lsq
resolved = fill_address with_load (index_of with_load.ring 0) 64

with_load_start : dispatch start load_word ≡ some (with_load, 0)
unfolding dispatch make Ring.make alloc Ring.alloc Ring.full index_of
with_load_start = refl

pub resolved_run : Reached start resolved
unfolding fill_entry make Ring.make alloc Ring.alloc index_of Ring.at Ring.put is_store
resolved_run =
    next (next here (dispatches start with_load load_word 0 with_load_start))
      (resolves with_load 0 64 (omega arith) refl)

run : Reached start (issue_load resolved 0)
unfolding fill_entry fill_address make Ring.make alloc Ring.alloc index_of Ring.at Ring.put is_store
    member resolve_address SlotSet.insert SlotSet.make test_bit access_size
run = next resolved_run (issues resolved 0 (omega arith) refl)

Reached-IsTracked_example : IsTracked (issue_load resolved 0)
Reached-IsTracked_example =
    Reached-IsTracked 4 (issue_load resolved 0) (omega arith) (omega arith) run

abbrev store_byte : Dispatched
store_byte = record {
  seq = 1;
  rob_idx = 0;
  pc = 0;
  op = sb;
  pdst = 255;
  source = 5;
  ready = true;
  value = 9;
}

abbrev with_store : Lsq
with_store = fill_entry (alloc start).0 0 store_byte

abbrev pub known_store : Lsq
known_store = fill_address with_store (index_of with_store.ring 0) 67

pub store_run : Reached start known_store
unfolding dispatch fill_entry make Ring.make alloc Ring.alloc Ring.full index_of Ring.at Ring.put
    is_store set_store_source
store_run =
    next (next here (dispatches start with_store store_byte 0 refl))
      (resolves with_store 0 67 (omega arith) refl)

-- The store at 67 is not in the word at 68.
may_store_to_word-overlaps_example :
    overlaps (nth fresh known_store.ring 0).addr (nth fresh known_store.ring 0).size 68 4 ≡ false
unfolding known fill_entry fill_address make Ring.make alloc Ring.alloc index_of Ring.at Ring.put
    is_store set_store_source resolve_address nth word_bucket may_store_to_word access_size
may_store_to_word-overlaps_example =
    may_store_to_word-overlaps known_store 0 68 4
      (Reached-IsTracked 4 known_store (omega arith) (omega arith) store_run) (omega arith) refl
      (omega arith) (omega arith) (omega arith) (omega arith) refl

abbrev later_load : Dispatched
later_load = record load_word { seq = 2 }

abbrev behind_store : Lsq
behind_store = fill_entry (alloc with_store).0 1 later_load

wall_run : Reached start behind_store
unfolding dispatch fill_entry make Ring.make alloc Ring.alloc Ring.full index_of Ring.at Ring.put
    is_store set_store_source
wall_run =
    next (next here (dispatches start with_store store_byte 0 refl))
      (dispatches with_store behind_store later_load 1 refl)

ages_increase :
    (i j : ℕ)
    → i < j
    → j < 2
    → (nth fresh behind_store.ring i).seq < (nth fresh behind_store.ring j).seq
unfolding fill_entry make Ring.make alloc Ring.alloc index_of Ring.at Ring.put is_store
    set_store_source nth
ages_increase i zero b c = omega (arith, b)
ages_increase zero (suc zero) b c = omega arith
ages_increase (suc i) (suc zero) b c = omega (arith, b)
ages_increase i (suc (suc j)) b c = omega (arith, c)

ages_small : (i : ℕ) → i < 2 → (nth fresh behind_store.ring i).seq < 2 ^ 64 - 1
unfolding fill_entry make Ring.make alloc Ring.alloc index_of Ring.at Ring.put is_store
    set_store_source nth
ages_small zero b = omega arith
ages_small (suc zero) b = omega arith
ages_small (suc (suc i)) b = omega (arith, b)

-- The load behind the store meets the wall.
wall_iff_example :
    (oldest_unknown_store behind_store < (nth fresh behind_store.ring 1).seq)
    ↔ ((j : ℕ) × (j < 1) × (unknown (nth fresh behind_store.ring j) ≡ true))
unfolding fill_entry make Ring.make alloc Ring.alloc index_of Ring.at Ring.put is_store
    set_store_source
wall_iff_example =
    wall_iff behind_store 1 (Reached-IsTracked 4 behind_store (omega arith) (omega arith) wall_run)
      (omega arith) ages_increase ages_small
