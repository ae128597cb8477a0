-- ===== src/Core/Rename.antt =====
-- core/rename.h, and what core/ooo.cpp does with it: renaming at dispatch, freeing at commit, and
-- the walk over the reorder buffer at a recovery.
pub mod Undo
pub mod Roles
pub mod Outcome
pub mod Invariant
pub mod Reach
pub mod Recovery
pub mod Stalls
mod Tests
use rv_o.Base.{
  ℕ, zero, suc, ◌+◌, ◌-◌, Bool, true, false, ◌&&◌, ◌||◌, not, ◌==◌, ltb, if◌then◌else◌, List, [],
  ◌∷◌, replicate, get_or, set, Option, none, some, u64,
}
use rv_o.Isa.{Instr, writes_rd, is_load, is_store, fu_kind_of, no_unit, branch}
use rv_o.Core.Ring
use rv_o.Core.Ring.{Ring}
use rv_o.Core.Rob.{RobEntry, Checkpoint, k_no_reg, fresh_entry}

-- The members of `OoOCore` that renaming reads and writes: the rename map, the free list, the
-- ready bits of the physical registers, the reorder buffer and the counter of instructions.
pub record RenameState : Type 0 where
  pub map : List ℕ
  pub free_list : Ring ℕ
  pub ready : List Bool
  pub rob : Ring RobEntry
  pub seq_ctr : ℕ

-- `RenameMap::reset` from register `i` on.
abbrev pub identity_from : ℕ → ℕ → List ℕ
identity_from i zero = []
identity_from i (suc k) = i ∷ identity_from (suc i) k

-- The loop `for (p = 32; p < physRegs; p++) freeList.push(p)`, with `left` rounds to go.
unfoldable pub fill : Ring ℕ → ℕ → ℕ → Ring ℕ
fill r p zero = r
fill r p (suc left) = fill (Ring.push 0 r p) (suc p) left

-- The rename state that the constructor of `OoOCore` builds; the map starts as the identity.
unfoldable pub initial : ℕ → ℕ → RenameState
unfolding fill
initial phys_regs rob_size = record {
  map = identity_from 0 32;
  free_list = fill (Ring.make 0 phys_regs) 32 (phys_regs - 32);
  ready = replicate phys_regs true;
  rob = Ring.make fresh_entry rob_size;
  seq_ctr = 0;
}

unfoldable pub has_dest : Instr → Bool
has_dest ins = writes_rd ins.op && not (ins.rd == 0)

-- `struct Fetched` of core/ooo.h
pub record Fetched : Type 0 where
  pub pc : ℕ
  pub raw : ℕ
  pub pred_taken : Bool
  pub pred_target : ℕ
  pub pred_idx : ℕ
  pub pred_before : Checkpoint

-- What the rest of the core says: whether this is the first instruction of the cycle, `sb.empty()`,
-- `lsq.full()` and `iq.full()`.
pub record Resources : Type 0 where
  pub first : Bool
  pub sb_empty : Bool
  pub lsq_full : Bool
  pub iq_full : Bool

-- `unit == FuKind::NONE`
unfoldable pub serializes : Instr → Bool
serializes ins = elim (fu_kind_of ins.op) [ no_unit ↦ true | _ ↦ false ]

-- `unit == FuKind::BRANCH`
unfoldable pub on_branch_unit : Instr → Bool
on_branch_unit ins = elim (fu_kind_of ins.op) [ branch ↦ true | _ ↦ false ]

-- The new entry, but for the registers of its destination. `map` is the rename map.
unfoldable pub dispatched : List ℕ → ℕ → Instr → Fetched → RobEntry
dispatched map seq ins f =
    let sys = serializes ins in
    let branches = not sys && on_branch_unit ins in
    record fresh_entry {
      seq = seq;
      pc = f.pc;
      ins = ins;
      pred_before = f.pred_before;
      done = sys;
      is_system = sys;
      sys_a0 = if sys then get_or map 10 0 else 0;
      sys_a7 = if sys then get_or map 17 0 else 0;
      is_mem = not sys && (is_load ins.op || is_store ins.op);
      is_branch = branches;
      predicted_taken = branches && f.pred_taken;
      predicted_target = if branches then f.pred_target else 0;
      pred_idx = if branches then f.pred_idx else 0;
    }

-- With a destination: it takes the free list's head and displaces its register's mapping.
unfoldable pub rename_dest : RenameState → RobEntry → RenameState
rename_dest s e =
    let pdst = Ring.head 0 s.free_list in
    record s {
      map = set s.map e.ins.rd pdst;
      free_list = Ring.pop_head s.free_list;
      ready = set s.ready pdst false;
      rob =
          Ring.push fresh_entry s.rob
            (record e { pdst = pdst; prev_phys = get_or s.map e.ins.rd 0 });
      seq_ctr = u64 (s.seq_ctr + 1);
    }

-- Without a destination.
unfoldable pub rename_plain : RenameState → RobEntry → RenameState
rename_plain s e = record s { rob = Ring.push fresh_entry s.rob e; seq_ctr = u64 (s.seq_ctr + 1) }

-- One instruction through dispatch, `none` where it stalls. The entry is written into the slot
-- that `rob.alloc()` gives, which is what `push` does.
unfoldable pub rename : RenameState → Instr → Fetched → Resources → Option RenameState
rename s ins f r =
    let e = dispatched s.map s.seq_ctr ins f in
    if serializes ins && (not r.first || (not (Ring.empty s.rob) || not r.sb_empty))
    then none
    else if Ring.full s.rob
    then none
    else if (is_load ins.op || is_store ins.op) && r.lsq_full
    then none
    else if r.iq_full
    then none
    else if has_dest ins && Ring.empty s.free_list
    then none
    else if not (serializes ins) && has_dest ins
    then some (rename_dest s e)
    else some (rename_plain s e)

-- Commit of the oldest entry: the mapping that it displaced is free. A system instruction has no
-- destination.
unfoldable pub commit : RenameState → RenameState
commit s =
    let e = Ring.head fresh_entry s.rob in
    record s {
      free_list = if e.pdst == k_no_reg then s.free_list else Ring.push 0 s.free_list e.prev_phys;
      rob = Ring.pop_head s.rob;
    }

-- One round of the walk: the youngest entry gives back its register and restores the mapping.
unfoldable pub squash_tail : RenameState → RenameState
squash_tail s =
    let t = Ring.tail fresh_entry s.rob in
    let keep = t.pdst == k_no_reg in
    record s {
      map = if keep then s.map else set s.map t.ins.rd t.prev_phys;
      free_list = if keep then s.free_list else Ring.push 0 s.free_list t.pdst;
      rob = Ring.pop_tail s.rob;
    }

-- The condition of the loop.
abbrev pub goes_on : ℕ → RenameState → Bool
goes_on seq s = not (Ring.empty s.rob) && ltb seq (Ring.tail fresh_entry s.rob).seq

-- `while (rob.count() && rob.tail().seq > seq)`, on fuel.
unfoldable pub walk : ℕ → ℕ → RenameState → RenameState
unfolding squash_tail
walk zero seq s = s
walk (suc fuel) seq s = elim (goes_on seq s) [ true ↦ walk fuel seq (squash_tail s) | false ↦ s ]

-- Each round takes an entry off, so as many rounds as there are entries are enough.
unfoldable pub recover : RenameState → ℕ → RenameState
unfolding walk
recover s seq = walk (Ring.count s.rob) seq s
