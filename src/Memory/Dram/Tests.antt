-- ===== src/Memory/Dram/Tests.antt =====
-- A memory of latency 3 that answers a load.
use rv_o.Base.{◌+◌, ◌≡◌, refl, arith, true, false, some, [], ◌∷◌, ◌++◌}
use rv_o.Memory.{check, load, load_from}
use rv_o.Memory.Request.{MemRequest, MemResponse, no_response}
use rv_o.Memory.Dram.{Dram, make, perform, perform_scalar, access, tick}
use rv_o.Memory.Dram.Timing.{IsTimed, due, after, tick-IsTimed}
use rv_o.Memory.Dram.Fifo.{Run, start, accesses, ticks, owed, taken-owed, Run-IsTimed}

abbrev request : MemRequest
request = record { wline = []; tag = 7; addr = 0; size = 4; wdata = 0; src = 0; is_write = false }

abbrev response : MemResponse
response = record no_response { tag = 7 }

abbrev cold : Dram
cold = make (record { bytes = 0 ∷ 0 ∷ 0 ∷ 0 ∷ [] }) 3

abbrev loaded : Dram
loaded = record cold {
  accepted_this_cycle = true;
  inflight = record { resp = response; ready_at = 2 } ∷ [];
}

performed : perform cold.backing request ≡ some (response, cold.backing)
unfolding perform perform_scalar load load_from check make
performed = refl

accepted : access cold request ≡ some loaded
unfolding perform perform_scalar load load_from check make access
accepted = refl

run : Run (record { bytes = 0 ∷ 0 ∷ 0 ∷ 0 ∷ [] }) 3 (response ∷ []) [] (tick loaded)
unfolding make
run = ticks (accesses request response cold.backing start performed accepted) (omega arith)

taken-owed_example : response ∷ [] ≡ owed (tick loaded)
taken-owed_example = taken-owed (omega arith) run

tick-IsTimed_example :
    IsTimed (tick loaded)
    × ((tick loaded).resp_q ≡ loaded.resp_q ++ due (loaded.tick_count + 1) loaded.inflight)
    × ((tick loaded).inflight ≡ after (loaded.tick_count + 1) loaded.inflight)
unfolding make
tick-IsTimed_example =
    tick-IsTimed loaded
      (Run-IsTimed {latency = 3} (omega arith)
        (accesses request response cold.backing start performed accepted))
      (omega arith)
