-- ===== src/Core/DataPorts.antt =====
-- core/ooo.cpp: the loop of `lsqOperate` over the data ports. The first-level cache is a parameter.
pub mod Answer
mod Tests
use rv_o.Base.{
  ℕ, zero, suc, ◌+◌, ◌*◌, ◌^◌, Bool, true, false, Option, none, some, List, [], if◌then◌else◌, u32,
  bit_or,
}
use rv_o.Sim.Config.{SimConfig}
use rv_o.Memory.Request.{MemRequest}
use rv_o.Core.Ring
use rv_o.Core.Ring.{Ring}
use rv_o.Core.Rob.{RobEntry}
use rv_o.Core.Lsq
use rv_o.Core.Lsq.{Lsq, issue_load}
use rv_o.Core.StoreBuffer.{StoreBuffer, send}
use rv_o.Core.LoadChoice.{Candidate, choose}

-- The request for a load, tagged with its slot and, below it, 16 bits of generation.
unfoldable pub load_request : Lsq → ℕ → MemRequest
load_request q slot = record {
  wline = [];
  tag = bit_or (slot * 2 ^ 16) (Lsq.at q slot).gen;
  addr = (Lsq.at q slot).addr;
  size = (Lsq.at q slot).size;
  wdata = 0;
  src = 0;
  is_write = false;
}

module _ {ℓ} {M : Type ℓ} (can_accept : M → Bool) (access : M → MemRequest → M) where
  -- What the loop changes: the queue, the store buffer with its transaction counter, the cache.
  pub record Data : Type ℓ where
    pub queue : Lsq
    pub stores : StoreBuffer
    pub sb_txn_ctr : ℕ
    pub dmem : M

  -- The next store, if there is one, goes out.
  abbrev send_store : Data → Option (MemRequest × StoreBuffer) → Data × Bool
  send_store d none = (d, false)
  send_store d (some (req, stores)) = (
    record d { stores = stores; sb_txn_ctr = u32 (d.sb_txn_ctr + 1); dmem = access d.dmem req },
    true,
  )

  abbrev send_load : Data → Candidate → Data × Bool
  send_load d c = (
    record d {
      queue = issue_load d.queue c.cand_ring;
      dmem = access d.dmem (load_request d.queue c.cand_ring);
    },
    true,
  )

  -- With a load that may go: the store buffer goes first only when it is full.
  abbrev send_one : Data → Option Candidate → Option (MemRequest × StoreBuffer) → Data × Bool
  send_one d none store = send_store d store
  send_one d (some c) none = send_load d c
  send_one d (some c) (some s) =
      if Ring.full d.stores.ring then send_store d (some s) else send_load d c

  module _ (cfg : SimConfig) (dep_table : List ℕ) (rob : Ring RobEntry) where
    -- One access, and whether a request was sent.
    unfoldable pub access_once : Data → Data × Bool
    access_once d =
        let found = choose cfg dep_table rob d.stores d.queue in
        let d1 = record d { queue = found.queue } in
        let sent = send_one d1 found.cand (send d.stores d.sb_txn_ctr) in
        if can_accept d.dmem then sent else (d1, false)

    -- The loop, with the ports that are left.
    unfoldable pub access_data : ℕ → Data → Data
    access_data zero d = d
    access_data (suc ports) d =
        let (d1, sent) = access_once d in
        let rest = access_data ports d1 in if sent then rest else d1
