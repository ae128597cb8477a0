-- ===== src/Core/Rename/Tests.antt =====
-- Two branches' worth of renaming on 34 physical registers, so that the second destination takes
-- the last one.
use rv_o.Base.{ℕ, ◌≡◌, refl, arith, Option, none, some, true, false}
use rv_o.Isa.{Instr, addi, add, beq, writes_rd, is_load, is_store, fu_kind_of}
use rv_o.Core.Ring
use rv_o.Core.Ring.Contents.{contents}
use rv_o.Core.Rob.{fresh_checkpoint, fresh_entry}
use rv_o.Core.Rename.{
  RenameState, Fetched, Resources, has_dest, serializes, dispatched, on_branch_unit, rename_dest,
  rename_plain, initial, rename, commit, recover,
}
use rv_o.Core.Rename.Undo.{Ordered}
use rv_o.Core.Rename.Invariant.{IsRenamed}
use rv_o.Core.Rename.Reach.{renames, Reachable, start, next, Reachable-IsRenamed}
use rv_o.Core.Rename.Stalls.{free_list-suffices}
use rv_o.Core.Rename.Recovery.{Speculates, begin, then_renames, then_commits, map-recover}

abbrev write_x5 : Instr
write_x5 = record { op = addi; rd = 5; rs1 = 0; rs2 = 0; imm = 1; raw = 0 }

abbrev write_x6 : Instr
write_x6 = record { op = add; rd = 6; rs1 = 5; rs2 = 5; imm = 0; raw = 0 }

abbrev jump_back : Instr
jump_back = record { op = beq; rd = 0; rs1 = 5; rs2 = 6; imm = 8; raw = 0 }

abbrev fetched : ℕ → Fetched
fetched pc = record {
  pc = pc;
  raw = 0;
  pred_taken = false;
  pred_target = 0;
  pred_idx = 0;
  pred_before = fresh_checkpoint;
}

abbrev roomy : Resources
roomy = record { first = true; sb_empty = true; lsq_full = false; iq_full = false }

abbrev or_initial : Option RenameState → RenameState
or_initial o = elim o [ none ↦ initial 34 4 | some s ↦ s ]

abbrev s0 : RenameState
s0 = initial 34 4

abbrev s1 : RenameState
s1 = or_initial (rename s0 write_x5 (fetched 0) roomy)

abbrev s2 : RenameState
s2 = or_initial (rename s1 jump_back (fetched 4) roomy)

abbrev s3 : RenameState
s3 = or_initial (rename s2 write_x6 (fetched 8) roomy)

renames_s1 : rename s0 write_x5 (fetched 0) roomy ≡ some s1
unfolding rename Ring.full initial Ring.make writes_rd Ring.empty Ring.push Ring.pop_head Ring.head
    Ring.index_of serializes has_dest dispatched on_branch_unit is_load is_store fu_kind_of
    rename_dest rename_plain
renames_s1 = refl

renames_s2 : rename s1 jump_back (fetched 4) roomy ≡ some s2
unfolding rename Ring.full initial Ring.make writes_rd Ring.empty Ring.push Ring.pop_head Ring.head
    Ring.index_of serializes has_dest dispatched on_branch_unit is_load is_store fu_kind_of
    rename_dest rename_plain
renames_s2 = refl

renames_s3 : rename s2 write_x6 (fetched 8) roomy ≡ some s3
unfolding rename Ring.full initial Ring.make writes_rd Ring.empty Ring.push Ring.pop_head Ring.head
    Ring.index_of serializes has_dest dispatched on_branch_unit is_load is_store fu_kind_of
    rename_dest rename_plain
renames_s3 = refl

s2-Reachable : Reachable 34 4 s2
unfolding rename Ring.full initial Ring.make writes_rd Ring.empty Ring.push Ring.pop_head Ring.head
    Ring.index_of serializes has_dest dispatched on_branch_unit is_load is_store fu_kind_of
    rename_dest rename_plain
s2-Reachable =
    next (next start (renames write_x5 (fetched 0) roomy (omega arith) (omega arith) renames_s1))
      (renames jump_back (fetched 4) roomy (omega arith) (omega arith) renames_s2)

Reachable_example : IsRenamed 34 s2
Reachable_example =
    Reachable-IsRenamed 34 4 s2 (omega arith) (omega arith) (omega arith) (omega arith) s2-Reachable

-- The branch has sequence number 1; the instruction after it commits nothing, the one before it does.
s3-Speculates : Speculates 1 s2 (commit s3)
unfolding rename Ring.full initial Ring.make writes_rd Ring.empty Ring.push Ring.pop_head Ring.head
    Ring.index_of serializes has_dest dispatched on_branch_unit is_load is_store fu_kind_of
    rename_dest rename_plain
s3-Speculates =
    then_commits
      (then_renames write_x6 (fetched 8) roomy begin (omega arith) (omega arith) renames_s3) refl
      (omega arith)

map-recover_example :
    ((recover (commit s3) 1).map ≡ s2.map)
    × Ordered 0 2 (contents fresh_entry (recover (commit s3) 1).rob)
unfolding rename Ring.full initial Ring.make writes_rd Ring.empty Ring.push Ring.pop_head Ring.head
    Ring.index_of serializes has_dest dispatched on_branch_unit is_load is_store fu_kind_of
    rename_dest rename_plain
map-recover_example = map-recover 34 1 s2 (commit s3) Reachable_example (refl) s3-Speculates

-- Two reorder buffer entries and the default number of registers.
abbrev small : RenameState
small = initial 34 2

abbrev small1 : RenameState
small1 = or_initial (rename small write_x5 (fetched 0) roomy)

renames_small1 : rename small write_x5 (fetched 0) roomy ≡ some small1
unfolding rename Ring.full initial Ring.make writes_rd Ring.empty Ring.push Ring.pop_head Ring.head
    Ring.index_of serializes has_dest dispatched on_branch_unit is_load is_store fu_kind_of
    rename_dest rename_plain
renames_small1 = refl

small1-Reachable : Reachable 34 2 small1
unfolding rename Ring.full initial Ring.make writes_rd Ring.empty Ring.push Ring.pop_head Ring.head
    Ring.index_of serializes has_dest dispatched on_branch_unit is_load is_store fu_kind_of
    rename_dest rename_plain
small1-Reachable =
    next start (renames write_x5 (fetched 0) roomy (omega arith) (omega arith) renames_small1)

free_list-suffices_example : Ring.empty small1.free_list ≡ false
unfolding rename Ring.full initial Ring.make writes_rd Ring.empty Ring.push Ring.pop_head Ring.head
    Ring.index_of serializes has_dest dispatched on_branch_unit is_load is_store fu_kind_of
    rename_dest rename_plain
free_list-suffices_example =
    free_list-suffices 2 small1 (omega arith) (omega arith) small1-Reachable refl
