-- ===== src/Core/Lsq/Use.antt =====
-- core/ooo.cpp: what the stages do with the load-store queue, one entry at a time, and the squash of
-- a recovery.
use rv_o.Base.{
  ℕ, zero, suc, ◌/◌, ◌^◌, Bool, ◌&&◌, ◌||◌, not, ltb, ◌==◌, if◌then◌else◌, u16, u32, Option, none,
  some,
}
use rv_o.Isa.{Op, is_store, access_size, extend_load}
use rv_o.Core.Ring
use rv_o.Core.Ring.{Ring}
use rv_o.Core.Lsq.{
  LsqEntry, fresh, Lsq, at, alloc, complete_load, report_load, set_store_source, capture_store_data,
  resolve_address, pop_tail,
}

-- What dispatch knows of a memory operation: `source` is the register of a store's data, with its
-- `ready` bit and its value.
pub record Dispatched : Type 0 where
  pub seq : ℕ
  pub rob_idx : ℕ
  pub pc : ℕ
  pub op : Op
  pub pdst : ℕ
  pub source : ℕ
  pub ready : Bool
  pub value : ℕ

-- The fields that dispatch writes into the new entry.
abbrev pub describe : Dispatched → LsqEntry → LsqEntry
describe d e = record e {
  seq = d.seq;
  rob_idx = d.rob_idx;
  pc = d.pc;
  op = d.op;
  is_store = is_store d.op;
  pdst = d.pdst;
}

-- The fields and the data source of the new entry.
unfoldable pub fill_entry : Lsq → ℕ → Dispatched → Lsq
fill_entry q idx d =
    let q1 = record q { ring = Ring.put q.ring idx (describe d (at q idx)) } in
    if is_store d.op then set_store_source q1 idx d.source d.ready d.value else q1

-- The queue with its new entry, and the slot; dispatch stalls when the queue is full.
unfoldable pub dispatch : Lsq → Dispatched → Option (Lsq × ℕ)
dispatch q d =
    let (q1, idx) = alloc q in if Ring.full q.ring then none else some (fill_entry q1 idx d, idx)

-- The output of an address unit.
unfoldable pub fill_address : Lsq → ℕ → ℕ → Lsq
fill_address q slot value =
    let e = at q slot in
    resolve_address
      (record q {
        ring = Ring.put q.ring slot (record e { addr = value; size = access_size e.op });
      })
      slot

-- The answer of the cache to a load: its tag is the slot, and below it 16 bits of generation.
unfoldable pub respond : Lsq → ℕ → ℕ → Lsq
respond q tag rdata =
    let idx = u32 (tag / 2 ^ 16) in
    let e = at q idx in
    let stale = e.is_store || (not e.issued || (e.done || not (e.gen == u16 tag))) in
    if Ring.live q.ring idx && not stale then complete_load q idx (extend_load e.op rdata) else q

-- One visit of a pending update: a store's data is captured when its register is `ready`, and a
-- completed load is reported when an output slot is `free`.
unfoldable pub update : Lsq → ℕ → Bool → ℕ → Bool → Lsq
update q slot ready value free =
    let e = at q slot in
    let q1 =
      if e.is_store && (not e.data_ready && ready) then capture_store_data q slot value else q in
    let e1 = at q1 slot in
    if not e1.is_store && (e1.done && (not e1.reported && free)) then report_load q1 slot else q1

-- `while (lsq.count() && lsq.tail().seq > seq) lsq.popTail()`, on fuel.
unfoldable pub squash : ℕ → Lsq → ℕ → Lsq
squash zero q seq = q
squash (suc fuel) q seq =
    let rest = squash fuel (pop_tail q) seq in
    if not (Ring.count q.ring == 0) && ltb seq (Ring.tail fresh q.ring).seq then rest else q
