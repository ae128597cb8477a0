-- ===== src/Sim/Config/Tests.antt =====
-- The default configuration is valid.
use rv_o.Base.{◌≡◌, refl, arith, some, false}
use rv_o.Core.Ring
use rv_o.Core.Rename.{initial}
use rv_o.Core.Rename.Invariant.{IsRenamed}
use rv_o.Core.Rename.Reach.{start}
use rv_o.Sim.Config.{default_config, fetch_block_bytes, derive, validate}
use rv_o.Sim.Config.Registers.{validate-suffices}

validate_default : validate default_config ≡ some (derive default_config)
unfolding validate derive fetch_block_bytes
validate_default = refl

validate_example :
    IsRenamed (derive default_config).phys_regs (initial 64 32)
    × (Ring.full (initial 64 32).rob ≡ false → Ring.empty (initial 64 32).free_list ≡ false)
unfolding derive
validate_example =
    validate-suffices default_config (derive default_config) (initial 64 32) refl (omega arith)
      validate_default start
