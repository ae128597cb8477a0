-- ===== src/RefModel/Tests.antt =====
-- Runs of the reference model: `addi x5, x0, 7`, then `sb x5, 6(x0)`.
use rv_o.Base.{◌≡◌, refl, some, [], ◌∷◌, false, replicate, get_or}
use rv_o.Isa.{is_load, is_store, writes_rd, uses_rs1, uses_rs2, access_size}
use rv_o.Isa.Decode.{decode, decode_fields}
use rv_o.Isa.Execute.{execute}
use rv_o.Memory.{load32, store}
use rv_o.Commit.{memory_write, CommitRecord, replay_registers, replay_memory}
use rv_o.RefModel.{
  RefModel, StepResult, started, fatal, already_halted, stepped, step, step_default, access,
}
use rv_o.RefModel.Replay.{replay-step}

abbrev s0 : RefModel
s0 = record {
  mem = record { bytes = 0x93 ∷ 0x02 ∷ 0x70 ∷ 0 ∷ 0x23 ∷ 0x03 ∷ 0x50 ∷ 0 ∷ [] };
  replay_input = 0;
  regs = replicate 32 0;
  pc = 0;
  halted = false;
  exit_code = 0;
  retired = 0;
}

abbrev after : StepResult → RefModel
after r = elim r [ fatal ↦ s0 | already_halted ↦ s0 | stepped s _ ↦ s ]

abbrev written : StepResult → CommitRecord
written r = elim r [ fatal ↦ started s0 0 | already_halted ↦ started s0 0 | stepped _ c ↦ c ]

abbrev s1 : RefModel
s1 = after (step s0)

abbrev s2 : RefModel
s2 = after (step s1)

addi_runs : get_or s1.regs 5 0 ≡ 7
unfolding step load32 decode step_default access is_load is_store writes_rd uses_rs1 execute
    decode_fields
addi_runs = refl

sb_runs : step s1 ≡ stepped s2 (written (step s1))
unfolding step load32 decode step_default access is_load is_store writes_rd uses_rs1 uses_rs2
    execute memory_write store access_size decode_fields
sb_runs = refl

replay_example :
    (replay_registers (written (step s1)) s1.regs ≡ s2.regs)
    × (replay_memory (written (step s1)) s1.mem ≡ some s2.mem)
replay_example = replay-step s1 s2 (written (step s1)) sb_runs
