-- ===== src/Memory/Cache/Tests.antt =====
-- A cache of two lines that misses and gets its line.
use rv_o.Base.{◌*◌, ◌^◌, ◌≡◌, refl, arith, true, false, [], ◌∷◌, get_or, inl, inr, ◌%◌, replicate}
use rv_o.Sim.Config.{CacheConfig}
use rv_o.Memory.Request.{MemRequest, MemResponse, no_response}
use rv_o.Memory.Cache.State.{Cache, make, slot}
use rv_o.Memory.Cache.Lines.{perform_on_line}
use rv_o.Memory.Cache.Owed.{owed}
use rv_o.Memory.Cache.Counted.{IsCounted}
use rv_o.Memory.Cache.Delivery.{deliver-IsCounted, tick-IsCounted}
use rv_o.Memory.Cache.ReadWrite.{write-read}
use rv_o.Memory.Cache.{deliver_below_response, tick}

abbrev small : CacheConfig
small = record { size_bytes = 16; ways = 1; line_bytes = 8; hit_latency = 1; mshrs = 1; wbq = 1 }

abbrev cold : Cache
cold = make small 0

abbrev load_word : MemRequest
load_word = record { wline = []; tag = 5; addr = 8; size = 4; wdata = 0; src = 0; is_write = false }

-- The cache with the miss in its entry.
abbrev waiting : Cache
waiting = record cold {
  mshrs =
      record {
        valid = true;
        line_addr = 8;
        refill_sent = true;
        waiting = record { req = load_word; issue_tick = 0 } ∷ [];
      }
      ∷ [];
  pending_misses = 1;
}

waiting-IsCounted : IsCounted waiting
unfolding make
waiting-IsCounted = record { counted = refl; small = omega arith; pending = tt }

abbrev refill : MemResponse
refill = record no_response { tag = 0; rline = replicate 8 7 }

deliver-IsCounted_example :
    IsCounted (deliver_below_response waiting refill)
    × (owed 5 (deliver_below_response waiting refill) ≡ owed 5 waiting)
unfolding make
deliver-IsCounted_example = deliver-IsCounted waiting refill 5 waiting-IsCounted (inr (refl, tt))

tick-IsCounted_example :
    IsCounted (tick true waiting).1 × (owed 5 (tick true waiting).1 ≡ owed 5 waiting)
tick-IsCounted_example = tick-IsCounted waiting true 5 waiting-IsCounted

abbrev store_word : MemRequest
store_word = record load_word { wdata = 0x1ff; size = 1; is_write = true }

write-read_example :
    let c' = (perform_on_line cold store_word 1 0).1 in
    ((perform_on_line c' (record load_word { size = 1 }) 1 0).0.rdata ≡ 0x1ff % 2 ^ (8 * 1))
    × (get_or c'.dirty (slot c' 1 0) false ≡ true)
    × (get_or c'.bytes 3 0 ≡ get_or cold.bytes 3 0)
unfolding make
write-read_example =
    write-read cold store_word (record load_word { size = 1 }) 1 0 3 refl refl refl refl
      (omega arith) refl (omega arith) (omega arith) (inl (omega arith))
