-- ===== src/RefModel/Replay.antt =====
-- core/refmodel.cpp: a step against the commit record that it leaves.
use rv_o.Base.{
  ℕ, ◌+◌, ◌%◌, ◌^◌, ◌≡◌, refl, ap, ap₂, sym, ◌∙◌, arith, Option, none, some, true, false, ◌&&◌,
  ◌||◌, not, ◌==◌, if◌then◌else◌, List, get_or, set, bit_and_mask, Bool-cases, inl, inr, subst,
  set-get_or, or_none, if-both,
}
use rv_o.Isa.{
  Op, Instr, sb, sh, sw, ecall, ebreak, illegal, is_load, is_store, access_size, writes_rd,
  uses_rs1, uses_rs2,
}
use rv_o.Isa.Execute.{execute}
use rv_o.Isa.Decode.{decode}
use rv_o.Memory.{Memory, load, store, store_from, check, load32}
use rv_o.Commit.{memory_write, CommitRecord, replay_registers, replay_memory}
use rv_o.Syscall.{syscall_returns_input, Outcome, run_syscall}
use rv_o.RefModel.{
  RefModel, StepResult, fatal, already_halted, stepped, or_fatal, started, Access, access,
  step_ecall, step_default, step_op, step,
}

-- What a step's record says, where there is one.
abbrev Describes : RefModel → StepResult → Type 0
Describes s fatal = Unit
Describes s already_halted = Unit
Describes s (stepped s' r) =
    (replay_registers r s.regs ≡ s'.regs) × (replay_memory r s.mem ≡ some s'.mem)

or_fatal-Describes :
    {A : Type 0} (s : RefModel) (o : Option A) (k : A → StepResult)
    → ((a : A) → o ≡ some a → Describes s (k a))
    → Describes s (or_fatal o k)
or_fatal-Describes s none k h = tt
or_fatal-Describes s (some a) k h = h a refl

abbrev All : {A : Type 0} → (A → Type 0) → Option A → Type 0
All P none = Unit
All P (some a) = P a

or_none-All :
    {A B : Type 0} (P : B → Type 0) (o : Option A) (k : A → Option B)
    → ((a : A) → o ≡ some a → All P (k a))
    → All P (or_none o k)
or_none-All P none k h = tt
or_none-All P (some a) k h = h a refl

All-some : {A : Type 0} (P : A → Type 0) (o : Option A) (a : A) → o ≡ some a → All P o → P a
All-some P o a e h = subst (All P) e h

store_from-byte :
    (bytes : List ℕ) (a v : ℕ) → store_from bytes a 1 0 (v % 2 ^ 8) ≡ store_from bytes a 1 0 v
unfolding store_from
store_from-byte bytes a v = ap (set bytes (a + 0)) (omega arith)

store_from-half :
    (bytes : List ℕ) (a v : ℕ) → store_from bytes a 2 0 (v % 2 ^ 16) ≡ store_from bytes a 2 0 v
unfolding store_from
store_from-half bytes a v =
    ap₂ (λ x y. set (set bytes (a + 0) x) (a + 1) y) (omega arith) (omega arith)

abbrev stored : Memory → ℕ → ℕ → List ℕ → Option Memory
stored m addr size bytes = elim (check m addr size) [
  | none ↦ none
  | some _ ↦ some (record { bytes = bytes })
]

-- The value in the record is cut to the width, and storing it stores the same bytes.
store-memory_write :
    (m : Memory) (addr v : ℕ) (op : Op)
    → is_store op ≡ true
    → let w = memory_write addr v (access_size op) in
      store m w.addr w.size w.value ≡ store m addr (access_size op) v
unfolding is_store access_size memory_write store
store-memory_write m addr v sb h =
    rw (bit_and_mask 8 v) (ap (stored m addr 1) (store_from-byte m.bytes addr v))
store-memory_write m addr v sh h =
    rw (bit_and_mask 16 v) (ap (stored m addr 2) (store_from-half m.bytes addr v))
store-memory_write m addr v sw h = refl
store-memory_write m addr v _ h = absurd (ground arith)

-- A syscall that returns no input leaves its argument alone.
arg-run_syscall :
    (num arg : ℕ) (m : Memory) (exit_code replay_input : ℕ) (o : Outcome)
    → run_syscall num arg m exit_code replay_input ≡ some o
    → syscall_returns_input num ≡ false
    → o.arg ≡ arg
unfolding run_syscall
arg-run_syscall num arg m exit_code replay_input o x h = ground arith

ecall-Describes : (s : RefModel) (raw : ℕ) → Describes s (step_ecall s (started s raw))
unfolding step_ecall
ecall-Describes s raw =
    let num = get_or s.regs 17 0 in
    let arg = get_or s.regs 10 0 in
    or_fatal-Describes s (run_syscall num arg s.mem s.exit_code s.replay_input) _ (λ o x.
      elim (Bool-cases (syscall_returns_input num)) [
        | inl i ↦ rw i (refl, refl)
        | inr i ↦ rw i (
          sym (
              ap (set s.regs 10) (arg-run_syscall num arg s.mem s.exit_code s.replay_input o x i)
              ∙ set-get_or s.regs 10 0),
          refl,
        )
      ])

-- What an access does to memory is what its record says.
abbrev Recorded : Memory → Access → Type 0
Recorded m t = elim t.write [ none ↦ some m | some w ↦ store m w.addr w.size w.value ] ≡ some t.mem

access-Recorded : (op : Op) (addr b : ℕ) (m : Memory) → All (Recorded m) (access op addr b m)
unfolding access
access-Recorded op addr b m = elim (Bool-cases (is_load op || is_store op)) [
  | inr e ↦ rw e refl
  | inl e ↦ elim (Bool-cases (addr % access_size op == 0)) [
    | inr f ↦ rw e (rw f tt)
    | inl f ↦ elim (Bool-cases (is_load op)) [
      | inl l ↦
          rw e
            (rw f (rw l (or_none-All (Recorded m) (load m addr (access_size op)) _ (λ v x. refl))))
      | inr l ↦ rw e (
          rw f (
            rw l (
              or_none-All (Recorded m) (store m addr (access_size op) b) _
                (λ m' x. store-memory_write m addr b op (ground arith) ∙ x))))
    ]
  ]
]

default-Describes :
    (s : RefModel) (ins : Instr) (raw : ℕ) → Describes s (step_default s ins (started s raw))
unfolding step_default
default-Describes s ins raw =
    let a = if uses_rs1 ins.op then get_or s.regs ins.rs1 0 else 0 in
    let b = if uses_rs2 ins.op then get_or s.regs ins.rs2 0 else 0 in
    let x = execute ins s.pc a b in
    or_fatal-Describes s (access ins.op x.value b s.mem) _ (λ t e.
      let memory =
        All-some (Recorded s.mem) (access ins.op x.value b s.mem) t e
          (access-Recorded ins.op x.value b s.mem) in
      elim (Bool-cases (writes_rd ins.op && not (ins.rd == 0))) [
        | inl w ↦ rw w (refl, memory)
        | inr w ↦ rw w (refl, memory)
      ])

op-Describes :
    (s : RefModel) (ins : Instr) (raw : ℕ) (op : Op)
    → Describes s (step_op s ins (started s raw) op)
unfolding step_op
op-Describes s ins raw ecall = ecall-Describes s raw
op-Describes s ins raw ebreak = (refl, refl)
op-Describes s ins raw illegal = (refl, refl)
op-Describes s ins raw _ = default-Describes s ins raw

step-Describes : (s : RefModel) → Describes s (step s)
unfolding step
step-Describes s =
    if-both (Describes s) s.halted already_halted _ (λ h. tt)
      (λ h.
        if-both (Describes s) (not (s.pc % 4 == 0)) fatal _ (λ f. tt)
          (λ f.
            or_fatal-Describes s (load32 s.mem s.pc) _
              (λ raw x. op-Describes s (decode raw) raw (decode raw).op)))

-- The record of a step is complete: replaying its register write on the registers before the step,
-- and its memory write on the memory before it, gives the registers and the memory after it,
-- whatever the instruction was, system calls included.
pub replay-step :
    (s s' : RefModel) (r : CommitRecord)
    → step s ≡ stepped s' r
    → (replay_registers r s.regs ≡ s'.regs) × (replay_memory r s.mem ≡ some s'.mem)
replay-step s s' r e = subst (Describes s) e (step-Describes s)
