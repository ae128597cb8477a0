-- ===== src/Core/Rename/Outcome.antt =====
-- The ways in which renaming an instruction succeeds.
use rv_o.Base.{
  ◌≡◌, refl, sym, ◌∙◌, arith, Bool, true, false, not, ◌&&◌, ◌||◌, Option, some, none, Bool-cases,
  inl, inr, ◌⊎◌, if◌then◌else◌, some_injective,
}
use rv_o.Isa.{Instr, is_load, is_store}
use rv_o.Core.Ring
use rv_o.Core.Rename.{
  RenameState, Fetched, Resources, has_dest, serializes, dispatched, rename_dest, rename_plain,
  rename,
}

-- A stall was passed by.
passed {ℓ} :
    {A : Type ℓ} (c : Bool) (x : Option A) (a : A)
    → (if c then none else x) ≡ some a
    → (c ≡ false) × (x ≡ some a)
passed true x a p = absurd (ground arith)
passed false x a p = (refl, p)

take_then {ℓ} :
    {A : Type ℓ} (c : Bool) (a b : A) → c ≡ true → (if c then some a else some b) ≡ some a
take_then c a b e = rw e refl

take_else {ℓ} :
    {A : Type ℓ} (c : Bool) (a b : A) → c ≡ false → (if c then some a else some b) ≡ some b
take_else c a b e = rw e refl

module _ (s : RenameState) (ins : Instr) (f : Fetched) (r : Resources) where
  pub rename-cases :
      (s' : RenameState)
      → rename s ins f r ≡ some s'
      → let e = dispatched s.map s.seq_ctr ins f in
        (Ring.full s.rob ≡ false)
        × (((Ring.empty s.free_list ≡ false) × (rename_dest s e ≡ s')) ⊎ (rename_plain s e ≡ s'))
  unfolding rename
  rename-cases s' x =
      let e = dispatched s.map s.seq_ctr ins f in
      let dest = not (serializes ins) && has_dest ins in
      let last = if dest then some (rename_dest s e) else some (rename_plain s e) in
      let from4 = if has_dest ins && Ring.empty s.free_list then none else last in
      let from3 = if r.iq_full then none else from4 in
      let from2 = if (is_load ins.op || is_store ins.op) && r.lsq_full then none else from3 in
      let from1 = if Ring.full s.rob then none else from2 in
      let (_, x1) =
        passed (serializes ins && (not r.first || (not (Ring.empty s.rob) || not r.sb_empty))) from1
          s' x in
      let (full, x2) = passed (Ring.full s.rob) from2 s' x1 in
      let (_, x3) = passed ((is_load ins.op || is_store ins.op) && r.lsq_full) from3 s' x2 in
      let (_, x4) = passed r.iq_full from4 s' x3 in
      let (some_free, x5) = passed (has_dest ins && Ring.empty s.free_list) last s' x4 in
      (
        full,
        elim (Bool-cases dest) [
          | inl d ↦ inl (
            ground arith,
            some_injective (sym (take_then dest (rename_dest s e) (rename_plain s e) d) ∙ x5),
          )
          | inr d ↦
              inr
                (some_injective (sym (take_else dest (rename_dest s e) (rename_plain s e) d) ∙ x5))
        ],
      )
