-- ===== src/Core/Rename/Stalls.antt =====
-- core/rename.h: the length of the free list, for the default number of physical registers that
-- `validateConfig` of sim/config.cpp sets.
use rv_o.Base.{
  ℕ, zero, suc, ◌+◌, ◌≤◌, ◌<◌, ◌≡◌, refl, ap, sym, ◌∙◌, arith, false, List, [], ◌∷◌, length,
  Bool-cases, inl, inr,
}
use rv_o.Core.Ring
use rv_o.Core.Ring.{Ring}
use rv_o.Core.Ring.Contents.{contents, length-entries}
use rv_o.Core.Rob.{RobEntry, fresh_entry}
use rv_o.Core.Rename.{
  RenameState, initial, goes_on, rename_dest, rename_plain, commit, squash_tail, walk, recover,
}
use rv_o.Core.Rename.Undo.{displaced}
use rv_o.Core.Rename.Outcome.{rename-cases}
use rv_o.Core.Rename.Reach.{
  Step, renames, commits, recovers, Reachable, start, next, Reachable-IsRenamed,
}

displaced-le : (es : List RobEntry) → length (displaced es) ≤ length es
displaced-le [] = omega arith
displaced-le (e ∷ es) = ground (arith, displaced-le es)

capacity-walk : (fuel seq : ℕ) (s : RenameState) → (walk fuel seq s).rob.capacity ≡ s.rob.capacity
unfolding walk squash_tail Ring.pop_tail
capacity-walk zero seq s = refl
capacity-walk (suc fuel) seq s = elim (Bool-cases (goes_on seq s)) [
  | inl c ↦ rw (walk, c) (capacity-walk fuel seq (squash_tail s))
  | inr c ↦ rw (walk, c) refl
]

capacity-Step : {s s' : RenameState} → Step s s' → s'.rob.capacity ≡ s.rob.capacity
unfolding commit recover Ring.pop_head Ring.push rename_dest rename_plain
capacity-Step {s} {s'} (renames ins fe res r w x) = elim (rename-cases s ins fe res s' x).1 [
  | inl (z, q) ↦ ap (λ t. t.rob.capacity) (sym q)
  | inr q ↦ ap (λ t. t.rob.capacity) (sym q)
]
capacity-Step (commits ne) = refl
capacity-Step {s} (recovers seq) = capacity-walk (Ring.count s.rob) seq s

capacity-Reachable :
    (phys_regs rob_size : ℕ) {s : RenameState}
    → Reachable phys_regs rob_size s
    → s.rob.capacity ≡ rob_size
unfolding initial Ring.make
capacity-Reachable phys_regs rob_size start = refl
capacity-Reachable phys_regs rob_size (next r st) =
    capacity-Step st ∙ capacity-Reachable phys_regs rob_size r

-- With `32 + rob_size` physical registers, in every state that renaming, commit and recovery reach,
-- the free list has a register whenever the reorder buffer has a slot: the free list never stalls
-- an instruction that the reorder buffer would take.
pub free_list-suffices :
    (rob_size : ℕ) (s : RenameState)
    → 0 < rob_size
    → rob_size ≤ 223
    → Reachable (32 + rob_size) rob_size s
    → Ring.full s.rob ≡ false
    → Ring.empty s.free_list ≡ false
unfolding Ring.full Ring.empty
free_list-suffices rob_size s p le r f =
    let h =
      Reachable-IsRenamed (32 + rob_size) rob_size s (omega arith) (omega arith) p (omega arith)
        r in
    ground (
      arith,
      h.roles.room,
      h.rob_ok,
      capacity-Reachable (32 + rob_size) rob_size r,
      displaced-le (contents fresh_entry s.rob),
      length-entries fresh_entry s.rob 0 s.rob.n,
      length-entries 0 s.free_list 0 s.free_list.n,
    )
