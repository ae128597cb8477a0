-- ===== src/Core/StoreBuffer.antt =====
-- core/lsq.h: the store buffer, with what core/ooo.cpp does to it.
pub mod Issued
pub mod Drain
mod Tests
use rv_o.Base.{
  ℕ, zero, suc, ◌+◌, ◌*◌, ◌^◌, Bool, true, false, ◌&&◌, not, Option, none, some, List, [], ltb,
  ◌==◌, if◌then◌else◌, u32, sub32, bit_or,
}
use rv_o.Core.Ring
use rv_o.Core.Ring.{Ring}
use rv_o.Memory.Request.{MemRequest}

-- `struct StoreBufEntry`
pub record StoreBufEntry : Type 0 where
  pub addr : ℕ
  pub size : ℕ
  pub data_word : ℕ
  pub inflight : Bool
  pub acked : Bool
  pub txn : ℕ

abbrev pub fresh : StoreBufEntry
fresh = record { addr = 0; size = 4; data_word = 0; inflight = false; acked = false; txn = 0 }

-- `class StoreBuffer`, a ring with the number of its issued stores.
pub record StoreBuffer : Type 0 where
  pub ring : Ring StoreBufEntry
  pub issued : ℕ

unfoldable pub make : ℕ → StoreBuffer
make size = record { ring = Ring.make fresh size; issued = 0 }

unfoldable pub next_to_issue : StoreBuffer → Option StoreBufEntry
next_to_issue b = if ltb b.issued b.ring.n then some (Ring.nth fresh b.ring b.issued) else none

unfoldable pub next_issue_slot : StoreBuffer → ℕ
next_issue_slot b = Ring.index_of b.ring b.issued

-- A write through the reference that `nth` returns.
abbrev pub put_nth : StoreBuffer → ℕ → StoreBufEntry → StoreBuffer
put_nth b k e = record b { ring = Ring.put b.ring (Ring.index_of b.ring k) e }

unfoldable pub issue : StoreBuffer → StoreBuffer
issue b =
    record (put_nth b b.issued (record (Ring.nth fresh b.ring b.issued) { inflight = true })) {
      issued = u32 (b.issued + 1);
    }

unfoldable pub pop_head : StoreBuffer → StoreBuffer
pop_head b = record { ring = Ring.pop_head b.ring; issued = sub32 b.issued 1 }

-- Commit of a store: none when the buffer is full.
unfoldable pub retire : StoreBuffer → ℕ → ℕ → ℕ → Option StoreBuffer
retire b addr size word =
    if Ring.full b.ring
    then none
    else some (record b {
      ring = Ring.push fresh b.ring (record fresh { addr = addr; size = size; data_word = word });
    })

-- The request for a store, tagged with its slot and its transaction.
abbrev pub store_request : StoreBuffer → StoreBufEntry → ℕ → MemRequest
store_request b e txn = record {
  wline = [];
  tag = bit_or (bit_or (2 ^ 63) (next_issue_slot b * 2 ^ 32)) txn;
  addr = e.addr;
  size = e.size;
  wdata = e.data_word;
  src = 0;
  is_write = true;
}

-- The issue of the next store, with the transaction that it gets.
abbrev pub send_next : StoreBuffer → ℕ → Option StoreBufEntry → Option (MemRequest × StoreBuffer)
send_next b txn none = none
send_next b txn (some e) =
    some (store_request b e txn, issue (put_nth b b.issued (record e { txn = txn })))

unfoldable pub send : StoreBuffer → ℕ → Option (MemRequest × StoreBuffer)
unfolding next_to_issue next_issue_slot issue
send b txn = send_next b txn (next_to_issue b)

-- The acknowledgement of a store in `drainDataResponses`.
unfoldable pub acknowledge : StoreBuffer → ℕ → ℕ → StoreBuffer
acknowledge b slot txn =
    let e = Ring.at fresh b.ring slot in
    if Ring.live b.ring slot && (e.inflight && (not e.acked && e.txn == txn))
    then record b { ring = Ring.put b.ring slot (record e { acked = true }) }
    else b

-- The loop of `lsqOperate` that pops the acknowledged stores, on fuel.
unfoldable pub pop_acked : ℕ → StoreBuffer → StoreBuffer
unfolding pop_head
pop_acked zero b = b
pop_acked (suc fuel) b =
    let rest = pop_acked fuel (pop_head b) in
    if not (Ring.empty b.ring) && (Ring.head fresh b.ring).acked then rest else b
