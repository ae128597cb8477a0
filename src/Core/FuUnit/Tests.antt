-- ===== src/Core/FuUnit/Tests.antt =====
-- A multiplier of latency 3 with two operations under way, of which one comes out at the next edge.
use rv_o.Base.{ℕ, ◌≡◌, refl, arith, true, [], ◌∷◌, if◌then◌else◌, ltb}
use rv_o.Core.FuUnit.{FuOp, no_op, FuUnit, tick, tick_pipelined, busy, flush_younger}
use rv_o.Core.FuUnit.Conservation.{
  IsConsistent, inside, tick-IsConsistent, flush_younger-IsConsistent,
}

abbrev op_of : ℕ → FuOp
op_of seq = record no_op { seq = seq; valid = true }

abbrev unit_of_two : FuUnit
unit_of_two = record {
  latency = 3;
  pipelined = true;
  stages = no_op ∷ op_of 8 ∷ op_of 4 ∷ [];
  cur = no_op;
  remaining = 0;
  out = no_op;
  ops = 2;
  busy_cycles = 2;
  input_slot = 0;
  in_flight = 2;
}

two-IsConsistent : IsConsistent unit_of_two
two-IsConsistent = ground arith

comes_out : (tick unit_of_two).0.out.seq ≡ 4
unfolding tick tick_pipelined busy
comes_out = refl

tick_example :
    IsConsistent (tick unit_of_two).0
    × ((a : ℕ) → inside a (tick unit_of_two).0 ≡ inside a unit_of_two)
tick_example = tick-IsConsistent unit_of_two two-IsConsistent

flush_example :
    IsConsistent (flush_younger unit_of_two 5)
    × ((a : ℕ)
        → inside a (flush_younger unit_of_two 5) ≡ (if ltb 5 a then 0 else inside a unit_of_two))
flush_example = flush_younger-IsConsistent unit_of_two 5 two-IsConsistent
