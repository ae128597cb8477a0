-- ===== src/Memory/Dram.antt =====
-- memory/dram.h and memory/dram.cpp: main memory of a fixed latency.
pub mod Fifo
pub mod Timing
mod Tests
use rv_o.Base.{
  ℕ, ◌+◌, ◌-◌, Bool, true, false, not, Option, none, some, List, [], ◌∷◌, ◌++◌, take, drop, leb,
  ◌==◌, if◌then◌else◌, u64,
}
use rv_o.Memory.{Memory, check, load, store}
use rv_o.Memory.Request.{MemRequest, MemResponse, no_response}

-- `struct Txn`
pub record Txn : Type 0 where
  pub resp : MemResponse
  pub ready_at : ℕ

-- `class DRAM`
pub record Dram : Type 0 where
  pub backing : Memory
  pub latency : ℕ
  pub tick_count : ℕ
  pub accepted_this_cycle : Bool
  pub inflight : List Txn
  pub resp_q : List MemResponse

unfoldable pub make : Memory → ℕ → Dram
make backing latency = record {
  backing = backing;
  latency = if latency == 0 then 1 else latency;
  tick_count = 0;
  accepted_this_cycle = false;
  inflight = [];
  resp_q = [];
}

abbrev pub can_accept : Dram → Bool
can_accept d = not d.accepted_this_cycle

abbrev pub has_response : Dram → Bool
has_response d = elim (d.resp_q) [ [] ↦ false | _ ∷ _ ↦ true ]

-- A scalar access, of at most 4 bytes.
unfoldable pub perform_scalar : Memory → MemRequest → MemResponse → Option (MemResponse × Memory)
perform_scalar m req r =
    if req.is_write
    then elim (store m req.addr req.size req.wdata) [ none ↦ none | some m' ↦ some (r, m') ]
    else elim (load m req.addr req.size) [ none ↦ none | some v ↦ some (record r { rdata = v }, m) ]

-- A block: `memcpy` from or to the bytes of the memory, after the check.
unfoldable pub perform_block : Memory → MemRequest → MemResponse → Option (MemResponse × Memory)
perform_block m req r = elim (check m req.addr req.size) [
  | none ↦ none
  | some _ ↦
      if req.is_write
      then some (
        r,
        record {
          bytes =
              take req.addr m.bytes
              ++ take req.size req.wline
              ++ drop (req.addr + req.size) m.bytes;
        },
      )
      else some (record r { rline = take req.size (drop req.addr m.bytes) }, m)
]

-- `perform`; `none` is a fatal error.
unfoldable pub perform : Memory → MemRequest → Option (MemResponse × Memory)
unfolding perform_scalar perform_block
perform m req =
    let r = record no_response { src = req.src; tag = req.tag } in
    if leb req.size 4 then perform_scalar m req r else perform_block m req r

-- Where the response of an access goes: out at once, or behind those in flight.
abbrev pub place : Dram → MemResponse → Dram
place d r = if d.latency == 1 then record d { resp_q = d.resp_q ++ (r ∷ []) } else record d {
  inflight =
      d.inflight ++ (record { resp = r; ready_at = u64 (d.tick_count + d.latency - 1) } ∷ []);
}

unfoldable pub access : Dram → MemRequest → Option Dram
unfolding perform
access d req = elim (perform d.backing req) [
  | none ↦ none
  | some (r, m) ↦ some (place (record d { accepted_this_cycle = true; backing = m }) r)
]

-- `frontResponse` and `popResponse`
unfoldable pub pop_response : Dram → Option (MemResponse × Dram)
pop_response d = elim (d.resp_q) [ [] ↦ none | r ∷ rs ↦ some (r, record d { resp_q = rs }) ]

-- The loop of `tick`.
unfoldable pub deliver : ℕ → List Txn → List MemResponse → List Txn × List MemResponse
deliver now [] resp_q = ([], resp_q)
deliver now (t ∷ ts) resp_q = elim (leb t.ready_at now) [
  | true ↦ deliver now ts (resp_q ++ (t.resp ∷ []))
  | false ↦ (t ∷ ts, resp_q)
]

unfoldable pub tick : Dram → Dram
unfolding deliver
tick d =
    let now = u64 (d.tick_count + 1) in
    let (inflight, resp_q) = deliver now d.inflight d.resp_q in
    record d { tick_count = now; accepted_this_cycle = false; inflight = inflight; resp_q = resp_q }
