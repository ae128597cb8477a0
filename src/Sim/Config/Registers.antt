-- ===== src/Sim/Config/Registers.antt =====
-- What a validated configuration means for renaming.
use rv_o.Base.{
  ℕ, ◌+◌, ◌≤◌, ◌<◌, ◌^◌, ◌≡◌, ap, sym, ◌∙◌, subst, arith, Bool, true, false, ◌&&◌, some, leb, u32,
  some_injective, refl, if-both, ◌==◌,
}
use rv_o.Core.Ring
use rv_o.Core.Rename.{RenameState}
use rv_o.Core.Rename.Invariant.{IsRenamed}
use rv_o.Core.Rename.Reach.{Reachable, Reachable-IsRenamed}
use rv_o.Core.Rename.Stalls.{free_list-suffices}
use rv_o.Sim.Config.{SimConfig, derive, require, all_ok, validate}

required : (ok : Bool) (c c' : SimConfig) → require ok c ≡ some c' → (ok ≡ true) × (c ≡ c')
required true c c' p = (refl, some_injective p)
required false c c' p = absurd (ground arith)

both : (a b : Bool) → (a && b) ≡ true → (a ≡ true) × (b ≡ true)
both true b h = (refl, h)
both false b h = absurd (ground arith)

leb→le : (m n : ℕ) → leb m n ≡ true → m ≤ n
leb→le m n h = ground arith

first_checks :
    (c : SimConfig) → all_ok c ≡ true → (33 ≤ c.phys_regs) × (c.phys_regs ≤ 255) × (1 ≤ c.rob_size)
first_checks c h =
    let (registers, rest) = both (leb 33 c.phys_regs && leb c.phys_regs 255) _ h in
    let (low, high) = both (leb 33 c.phys_regs) (leb c.phys_regs 255) registers in
    let (entries, _) = both (leb 1 c.rob_size) _ rest in
    (leb→le 33 c.phys_regs low, leb→le c.phys_regs 255 high, leb→le 1 c.rob_size entries)

abbrev Derived : SimConfig → SimConfig → Type 0
Derived c d = (d.phys_regs ≡ u32 (32 + d.rob_size)) × (d.rob_size ≡ c.rob_size)

derived : (c : SimConfig) → c.phys_regs ≡ 0 → Derived c (derive c)
unfolding derive
derived c z =
    if-both (Derived c) (c.phys_regs == 0) (record c { phys_regs = u32 (32 + c.rob_size) }) c
      (λ t. (refl, refl)) (λ n. absurd (ground arith))

-- A configuration that leaves `physRegs` at 0 and passes validation gives a core whose registers keep
-- their roles, and whose free list has a register whenever the reorder buffer has a slot, in every
-- state that renaming, commit and recovery reach.
pub validate-suffices :
    (c c' : SimConfig) (s : RenameState)
    → c.phys_regs ≡ 0
    → c.rob_size < 2 ^ 32
    → validate c ≡ some c'
    → Reachable c'.phys_regs c'.rob_size s
    → IsRenamed c'.phys_regs s × (Ring.full s.rob ≡ false → Ring.empty s.free_list ≡ false)
unfolding validate
validate-suffices c c' s z w v r =
    let d = derive c in
    let (ok, e) = required (all_ok d) d c' v in
    let (lo, hi, one) = first_checks d ok in
    let (regs, size) = derived c z in
    let each : c'.phys_regs ≡ 32 + c'.rob_size =
      ap (λ t. t.phys_regs) (sym e) ∙ omega arith ∙ ap (λ t. 32 + t.rob_size) e in
    let lo' : 33 ≤ c'.phys_regs = subst (λ t. 33 ≤ t.phys_regs) e lo in
    let hi' : c'.phys_regs ≤ 255 = subst (λ t. t.phys_regs ≤ 255) e hi in
    (
      Reachable-IsRenamed c'.phys_regs c'.rob_size s lo' hi' (omega arith) (omega arith) r,
      free_list-suffices c'.rob_size s (omega arith) (omega arith)
          (subst (λ n. Reachable n c'.rob_size s) each r),
    )
