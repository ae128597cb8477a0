-- ===== src/Commit.antt =====
-- core/commit.h: what one instruction did to the architectural state when it retired.
use rv_o.Base.{ℕ, ◌-◌, ◌*◌, ◌^◌, Option, none, some, List, set, ◌==◌, if◌then◌else◌, bit_and}
use rv_o.Memory.{Memory, store}

pub record RegisterWrite : Type 0 where
  pub rd : ℕ
  pub value : ℕ

pub record MemoryWrite : Type 0 where
  pub addr : ℕ
  pub value : ℕ
  pub size : ℕ

-- The constructor of `MemoryWrite`, which cuts the value to the size.
unfoldable pub memory_write : ℕ → ℕ → ℕ → MemoryWrite
memory_write addr value size = record {
  addr = addr;
  value = if size == 4 then value else bit_and value (2 ^ (8 * size) - 1);
  size = size;
}

pub data ExceptionKind : Type 0 where
  illegal_instruction : ExceptionKind

pub record CommitRecord : Type 0 where
  pub sequence : ℕ
  pub pc : ℕ
  pub instruction : ℕ
  pub register_write : Option RegisterWrite
  pub memory_write : Option MemoryWrite
  pub exception : Option ExceptionKind

-- What a reader of the commit stream does with a record: replay its writes.
abbrev pub replay_registers : CommitRecord → List ℕ → List ℕ
replay_registers r regs = elim r.register_write [ none ↦ regs | some w ↦ set regs w.rd w.value ]

abbrev pub replay_memory : CommitRecord → Memory → Option Memory
replay_memory r m = elim r.memory_write [ none ↦ some m | some w ↦ store m w.addr w.size w.value ]
