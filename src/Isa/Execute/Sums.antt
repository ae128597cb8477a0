-- ===== src/Isa/Execute/Sums.antt =====
-- isa/execute.cpp: sums and differences of signed integers.
use rv_o.Base.{ℕ, ◌^◌, ◌<◌, ◌≡◌, arith}
use rv_o.Base.Int.{◌+ℤ◌, ◌-ℤ◌, signed32, pattern32}
use rv_o.Isa.{add, addi, sub}
use rv_o.Isa.Execute.{result_value}

-- `add` and `addi` give the pattern of the sum of what the two patterns stand for, and `sub` that of
-- the difference.
sum-difference :
    (imm pc a b : ℕ)
    → imm < 2 ^ 32
    → a < 2 ^ 32
    → b < 2 ^ 32
    → (result_value add imm pc a b ≡ pattern32 (signed32 a +ℤ signed32 b))
      × (result_value addi imm pc a b ≡ pattern32 (signed32 a +ℤ signed32 imm))
      × (result_value sub imm pc a b ≡ pattern32 (signed32 a -ℤ signed32 b))
unfolding result_value ◌+ℤ◌ ◌-ℤ◌
sum-difference imm pc a b hi ha hb = (ground arith, ground arith, ground arith)
