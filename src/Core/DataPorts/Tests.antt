-- ===== src/Core/DataPorts/Tests.antt =====
-- core/ooo.cpp: the answer to the load of the queue's test run.
use rv_o.Base.{◌≡◌, refl, arith}
use rv_o.Isa.{extend_load, is_store, access_size}
use rv_o.Core.Ring
use rv_o.Core.Ring.{index_of, nth}
use rv_o.Core.Lsq.{fresh, make, alloc, issue_load, complete_load, resolve_address}
use rv_o.Core.Lsq.Invariant.{candidate}
use rv_o.Core.Lsq.Use.{respond, fill_entry, fill_address}
use rv_o.Core.Lsq.Steps.{Reached-IsTracked}
use rv_o.Core.Lsq.Tests.{resolved, resolved_run}
use rv_o.Core.DataPorts.{load_request}
use rv_o.Core.DataPorts.Answer.{respond-load_request}

respond-load_request_example :
    respond
      (issue_load resolved (index_of resolved.ring 0))
      (load_request resolved (index_of resolved.ring 0)).tag
      0x80
    ≡ complete_load
        (issue_load resolved (index_of resolved.ring 0))
        (index_of resolved.ring 0)
        (extend_load (nth fresh resolved.ring 0).op 0x80)
unfolding fill_entry fill_address make Ring.make alloc Ring.alloc index_of Ring.at Ring.put is_store
    resolve_address candidate nth access_size
respond-load_request_example =
    respond-load_request resolved 0 0x80
      (Reached-IsTracked 4 resolved (omega arith) (omega arith) resolved_run) (omega arith) refl
      (omega arith)
