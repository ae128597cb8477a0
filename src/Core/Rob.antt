-- ===== src/Core/Rob.antt =====
-- core/rob.h: an entry of the reorder buffer. The buffer is a `Ring` of them.
use rv_o.Base.{ℕ, Bool, false, ◌&&◌, same, ◌||◌, not, ◌==◌}
use rv_o.Isa.{Instr, illegal}

-- `struct Checkpoint` of core/predictor.h
pub record Checkpoint : Type 0 where
  pub hist : ℕ
  pub ras_n : ℕ
  pub ras_top : ℕ

-- `struct RobEntry`
pub record RobEntry : Type 0 where
  pub seq : ℕ
  pub pc : ℕ
  pub ins : Instr
  pub done : Bool
  pub pdst : ℕ
  pub prev_phys : ℕ
  pub is_mem : Bool
  pub is_system : Bool
  pub fault : ℕ
  pub is_branch : Bool
  pub predicted_taken : Bool
  pub actual_taken : Bool
  pub predicted_target : ℕ
  pub actual_target : ℕ
  pub pred_idx : ℕ
  pub pred_before : Checkpoint
  pub sys_a0 : ℕ
  pub sys_a7 : ℕ

-- "No physical register", of core/fu.h.
abbrev pub k_no_reg : ℕ
k_no_reg = 0xFF

abbrev pub fresh_checkpoint : Checkpoint
fresh_checkpoint = record { hist = 0; ras_n = 0; ras_top = 0 }

abbrev pub fresh_instr : Instr
fresh_instr = record { op = illegal; rd = 0; rs1 = 0; rs2 = 0; imm = 0; raw = 0 }

-- `RobEntry{}`
abbrev pub fresh_entry : RobEntry
fresh_entry = record {
  seq = 0;
  pc = 0;
  ins = fresh_instr;
  done = false;
  pdst = k_no_reg;
  prev_phys = k_no_reg;
  is_mem = false;
  is_system = false;
  fault = 0;
  is_branch = false;
  predicted_taken = false;
  actual_taken = false;
  predicted_target = 0;
  actual_target = 0;
  pred_idx = 0;
  pred_before = fresh_checkpoint;
  sys_a0 = 0;
  sys_a7 = 0;
}

-- Did fetch guess wrong?
unfoldable pub mispredicted : RobEntry → Bool
mispredicted e =
    not (same e.actual_taken e.predicted_taken)
    || (e.actual_taken && not (e.actual_target == e.predicted_target))
