-- ===== src/RefModel.antt =====
-- core/refmodel.cpp and core/refmodel.h: the reference model, one instruction at a time.
pub mod Replay
mod Tests
use rv_o.Base.{
  ℕ, ◌+◌, ◌%◌, Option, none, some, Bool, true, false, ◌&&◌, ◌||◌, not, ◌==◌, if◌then◌else◌, List,
  get_or, set, replicate, u32, u64, or_none,
}
use rv_o.Isa.{
  Op, Instr, ecall, ebreak, illegal, is_load, is_store, access_size, extend_load, writes_rd,
  uses_rs1, uses_rs2,
}
use rv_o.Isa.Decode.{decode}
use rv_o.Isa.Execute.{ExecResult, execute}
use rv_o.Memory
use rv_o.Memory.{Memory, load, store, load32}
use rv_o.Commit.{RegisterWrite, MemoryWrite, memory_write, illegal_instruction, CommitRecord}
use rv_o.Syscall.{syscall_returns_input, Outcome, run_syscall}

-- `class RefModel`
pub record RefModel : Type 0 where
  pub mem : Memory
  pub replay_input : ℕ
  pub regs : List ℕ
  pub pc : ℕ
  pub halted : Bool
  pub exit_code : ℕ
  pub retired : ℕ

unfoldable pub initial : ℕ → RefModel
initial mem_bytes = record {
  mem = Memory.make mem_bytes;
  replay_input = 0xFFFFFFFF;
  regs = replicate 32 0;
  pc = 0;
  halted = false;
  exit_code = 0;
  retired = 0;
}

-- `step` returns false on a model that has halted, ends the process on a misaligned or out-of-range
-- access, and otherwise executes one instruction and describes it.
pub data StepResult : Type 0 where
  fatal already_halted : StepResult
  stepped : RefModel → CommitRecord → StepResult

abbrev pub or_fatal : {A : Type 0} → Option A → (A → StepResult) → StepResult
or_fatal none k = fatal
or_fatal (some a) k = k a

-- The record before the instruction's effects.
abbrev pub started : RefModel → ℕ → CommitRecord
started s raw = record {
  sequence = s.retired;
  pc = s.pc;
  instruction = raw;
  register_write = none;
  memory_write = none;
  exception = none;
}

-- The ECALL case. `runSyscall` has the argument register by reference.
unfoldable pub step_ecall : RefModel → CommitRecord → StepResult
step_ecall s r =
    or_fatal
      (run_syscall (get_or s.regs 17 0) (get_or s.regs 10 0) s.mem s.exit_code s.replay_input)
      (λ o.
        stepped
          (record s {
            regs = set s.regs 10 o.arg;
            exit_code = o.exit_code;
            halted = o.exits;
            retired = u64 (s.retired + 1);
            pc = if o.exits then s.pc else u32 (s.pc + 4);
          })
          (record r {
            register_write =
                if syscall_returns_input (get_or s.regs 17 0)
                then some (record { rd = 10; value = o.arg })
                else none;
          }))

-- A load's value, or a store's memory and record. `addr` is what `execute` computed.
pub record Access : Type 0 where
  pub result : ℕ
  pub mem : Memory
  pub write : Option MemoryWrite

unfoldable pub access : Op → ℕ → ℕ → Memory → Option Access
access op addr b m =
    let size = access_size op in
    if is_load op || is_store op
    then if not (addr % size == 0)
      then none
      else if is_load op
      then or_none (load m addr size)
          (λ v. some (record { result = extend_load op v; mem = m; write = none }))
      else or_none (store m addr size b)
          (λ m'. some (record { result = addr; mem = m'; write = some (memory_write addr b size) }))
    else some (record { result = addr; mem = m; write = none })

-- The default case.
unfoldable pub step_default : RefModel → Instr → CommitRecord → StepResult
step_default s ins r =
    let a = if uses_rs1 ins.op then get_or s.regs ins.rs1 0 else 0 in
    let b = if uses_rs2 ins.op then get_or s.regs ins.rs2 0 else 0 in
    let x = execute ins s.pc a b in
    or_fatal (access ins.op x.value b s.mem) (λ t.
      let writes = writes_rd ins.op && not (ins.rd == 0) in
      stepped
        (record s {
          mem = t.mem;
          regs = if writes then set s.regs ins.rd t.result else s.regs;
          retired = u64 (s.retired + 1);
          pc = if x.redirect then x.target else u32 (s.pc + 4);
        })
        (record r {
          register_write = if writes then some (record { rd = ins.rd; value = t.result }) else none;
          memory_write = t.write;
        }))

-- The `switch`.
unfoldable pub step_op : RefModel → Instr → CommitRecord → Op → StepResult
unfolding step_ecall step_default
step_op s ins r ecall = step_ecall s r
step_op s ins r ebreak = stepped (record s { retired = u64 (s.retired + 1); halted = true }) r
step_op s ins r illegal =
    stepped (record s { halted = true; exit_code = 1 })
      (record r { exception = some illegal_instruction })
step_op s ins r _ = step_default s ins r

unfoldable pub step : RefModel → StepResult
unfolding step_op
step s =
    if s.halted
    then already_halted
    else if not (s.pc % 4 == 0)
    then fatal
    else or_fatal (load32 s.mem s.pc)
        (λ raw. let ins = decode raw in step_op s ins (started s raw) ins.op)
