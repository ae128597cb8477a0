-- ===== src/Core/Lsq.antt =====
-- core/lsq.h: the load-store queue, a ring of entries with the work sets and the counters that
-- answer what the core asks each cycle.
pub mod Tracks
pub mod Counts
pub mod Invariant
pub mod Loads
pub mod Stores
pub mod Ends
pub mod Use
pub mod Entry
pub mod Reach
pub mod Steps
pub mod Oldest
pub mod Tests
use rv_o.Base.{
  ℕ, ◌+◌, ◌-◌, ◌/◌, ◌^◌, Bool, true, false, ◌&&◌, ◌||◌, not, List, get_or, set, replicate, ltb,
  ◌==◌, if◌then◌else◌, u16, u32, sub32, bit_and,
}
use rv_o.Isa.{Op, illegal}
use rv_o.Core.Ring
use rv_o.Core.Ring.{Ring}
use rv_o.Core.SlotSet
use rv_o.Core.SlotSet.{SlotSet}

-- `struct LsqEntry`
pub record LsqEntry : Type 0 where
  pub seq : ℕ
  pub rob_idx : ℕ
  pub pc : ℕ
  pub addr : ℕ
  pub data_word : ℕ
  pub value : ℕ
  pub gen : ℕ
  pub op : Op
  pub pdst : ℕ
  pub size : ℕ
  pub data_preg : ℕ
  pub is_store : Bool
  pub addr_valid : Bool
  pub data_ready : Bool
  pub done : Bool
  pub issued : Bool
  pub reported : Bool

abbrev pub fresh : LsqEntry
fresh = record {
  seq = 0;
  rob_idx = 0;
  pc = 0;
  addr = 0;
  data_word = 0;
  value = 0;
  gen = 0;
  op = illegal;
  pdst = 255;
  size = 4;
  data_preg = 255;
  is_store = false;
  addr_valid = false;
  data_ready = true;
  done = false;
  issued = false;
  reported = false;
}

-- Do two accesses touch a byte in common? The sums wrap.
unfoldable pub overlaps : ℕ → ℕ → ℕ → ℕ → Bool
overlaps a a_size b b_size = ltb b (u32 (a + a_size)) && ltb a (u32 (b + b_size))

-- `class LSQ`. `ring` is the base class.
pub record Lsq : Type 0 where
  pub ring : Ring LsqEntry
  pub gen_ctr : List ℕ
  pub candidates : SlotSet
  pub pending : SlotSet
  pub updates : SlotSet
  pub known_stores : SlotSet
  pub unknown_stores : SlotSet
  pub accessed_loads : SlotSet
  pub store_words : List ℕ
  pub pending_loads : ℕ
  pub unreported_loads : ℕ
  pub waiting_stores : ℕ

unfoldable pub make : ℕ → Lsq
make size = record {
  ring = Ring.make fresh size;
  gen_ctr = replicate size 0;
  candidates = SlotSet.make size;
  pending = SlotSet.make size;
  updates = SlotSet.make size;
  known_stores = SlotSet.make size;
  unknown_stores = SlotSet.make size;
  accessed_loads = SlotSet.make size;
  store_words = replicate 64 0;
  pending_loads = 0;
  unreported_loads = 0;
  waiting_stores = 0;
}

-- The entry of a slot, and a write to it. A method that takes an entry by reference takes its slot.
abbrev pub at : Lsq → ℕ → LsqEntry
at q slot = Ring.at fresh q.ring slot

unfoldable pub alloc : Lsq → Lsq × ℕ
alloc q =
    let (r, idx) = Ring.alloc fresh q.ring in
    let gen = u16 (get_or q.gen_ctr idx 0 + 1) in
    (
      record q {
        gen_ctr = set q.gen_ctr idx gen;
        ring = Ring.put r idx (record (Ring.at fresh r idx) { gen = gen });
      },
      idx,
    )

unfoldable pub issue_load : Lsq → ℕ → Lsq
issue_load q slot = record q {
  candidates = SlotSet.erase q.candidates slot;
  pending = SlotSet.insert q.pending slot;
  accessed_loads = SlotSet.insert q.accessed_loads slot;
  ring = Ring.put q.ring slot (record (at q slot) { issued = true });
  pending_loads = u32 (q.pending_loads + 1);
}

unfoldable pub complete_load : Lsq → ℕ → ℕ → Lsq
complete_load q slot value = record q {
  candidates = SlotSet.erase q.candidates slot;
  pending = SlotSet.erase q.pending slot;
  updates = SlotSet.insert q.updates slot;
  accessed_loads = SlotSet.insert q.accessed_loads slot;
  ring = Ring.put q.ring slot (record (at q slot) { value = value; done = true });
  pending_loads = if (at q slot).issued then sub32 q.pending_loads 1 else q.pending_loads;
  unreported_loads = u32 (q.unreported_loads + 1);
}

unfoldable pub report_load : Lsq → ℕ → Lsq
report_load q slot = record q {
  updates = SlotSet.erase q.updates slot;
  ring = Ring.put q.ring slot (record (at q slot) { reported = true });
  unreported_loads = sub32 q.unreported_loads 1;
}

unfoldable pub set_store_source : Lsq → ℕ → ℕ → Bool → ℕ → Lsq
set_store_source q slot preg ready value =
    let e = at q slot in
    record q {
      unknown_stores = SlotSet.insert q.unknown_stores slot;
      updates = if ready then q.updates else SlotSet.insert q.updates slot;
      ring = Ring.put q.ring slot (record e {
        data_preg = preg;
        data_ready = ready;
        data_word = if ready then value else e.data_word;
      });
      waiting_stores = if ready then q.waiting_stores else u32 (q.waiting_stores + 1);
    }

unfoldable pub capture_store_data : Lsq → ℕ → ℕ → Lsq
capture_store_data q slot value = record q {
  updates = SlotSet.erase q.updates slot;
  ring = Ring.put q.ring slot (record (at q slot) { data_word = value; data_ready = true });
  waiting_stores = sub32 q.waiting_stores 1;
}

-- `(addr >> 2) & 63`
unfoldable pub word_bucket : ℕ → ℕ
word_bucket addr = bit_and (addr / 4) 63

-- `addr + size - 1` on `uint32_t`
abbrev pub last_byte : LsqEntry → ℕ
last_byte e = sub32 (u32 (e.addr + e.size)) 1

-- `storeWords` at the buckets of an entry's first and last byte, where they differ once each.
abbrev pub change_words : (ℕ → ℕ) → List ℕ → LsqEntry → List ℕ
change_words f words e =
    let low = word_bucket e.addr in
    let high = word_bucket (last_byte e) in
    let first = set words low (f (get_or words low 0)) in
    if low == high then first else set first high (f (get_or first high 0))

unfoldable pub resolve_address : Lsq → ℕ → Lsq
unfolding word_bucket
resolve_address q slot =
    let e = at q slot in
    let q1 = record q { ring = Ring.put q.ring slot (record e { addr_valid = true }) } in
    if e.is_store
    then record q1 {
      unknown_stores = SlotSet.erase q.unknown_stores slot;
      known_stores = SlotSet.insert q.known_stores slot;
      store_words = change_words (λ c. u32 (c + 1)) q.store_words e;
    }
    else record q1 { candidates = SlotSet.insert q.candidates slot }

unfoldable pub may_store_to_word : Lsq → ℕ → Bool
unfolding word_bucket
may_store_to_word q addr = not (get_or q.store_words (word_bucket addr) 0 == 0)

-- `remove`, which takes the entry of a slot out of the sets and the counters.
unfoldable pub remove : Lsq → ℕ → Lsq
unfolding word_bucket
remove q slot =
    let e = at q slot in
    record q {
      candidates = SlotSet.erase q.candidates slot;
      pending = SlotSet.erase q.pending slot;
      updates = SlotSet.erase q.updates slot;
      known_stores = SlotSet.erase q.known_stores slot;
      unknown_stores = SlotSet.erase q.unknown_stores slot;
      accessed_loads = SlotSet.erase q.accessed_loads slot;
      store_words =
          if e.is_store && e.addr_valid
          then change_words (λ c. sub32 c 1) q.store_words e
          else q.store_words;
      pending_loads = if e.issued && not e.done then sub32 q.pending_loads 1 else q.pending_loads;
      unreported_loads =
          if not e.is_store && (e.done && not e.reported)
          then sub32 q.unreported_loads 1
          else q.unreported_loads;
      waiting_stores =
          if e.is_store && not e.data_ready then sub32 q.waiting_stores 1 else q.waiting_stores;
    }

unfoldable pub pop_head : Lsq → Lsq
unfolding remove
pop_head q = let q1 = remove q q.ring.head_idx in record q1 { ring = Ring.pop_head q.ring }

unfoldable pub pop_tail : Lsq → Lsq
unfolding remove
pop_tail q =
    let q1 = remove q (Ring.index_of q.ring (sub32 q.ring.n 1)) in
    record q1 { ring = Ring.pop_tail q.ring }

unfoldable pub has_pending_loads : Lsq → Bool
has_pending_loads q = not (q.pending_loads == 0)

unfoldable pub needs_update : Lsq → Bool
needs_update q = not (q.unreported_loads == 0) || not (q.waiting_stores == 0)
