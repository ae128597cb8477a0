-- ===== src/Core/Rename/Invariant.antt =====
-- core/rename.h: the roles of the physical registers, over renaming, commit and recovery.
use rv_o.Base.{
  ℕ, zero, suc, ◌+◌, ◌^◌, ◌≤◌, ◌<◌, ◌≡◌, refl, ap, sym, ◌∙◌, arith, Bool, true, false, ◌==◌, subst,
  if◌then◌else◌, [], ◌∷◌, ◌++◌, get_or, some, count, Bool-cases, inl, inr, u64,
}
use rv_o.Isa.{Instr}
use rv_o.Core.Ring
use rv_o.Core.Ring.{Ring}
use rv_o.Core.Ring.Index.{IsValid, push-IsValid, pop_head-IsValid, pop_tail-IsValid}
use rv_o.Core.Ring.Contents.{
  contents, contents-push, contents-pop_head, contents-pop_tail, length-entries,
}
use rv_o.Core.Rob.{RobEntry, k_no_reg, fresh_entry}
use rv_o.Core.Rename.{
  RenameState, Fetched, Resources, dispatched, rename_plain, goes_on, rename_dest, rename, commit,
  squash_tail, walk,
}
use rv_o.Core.Rename.Outcome.{rename-cases}
use rv_o.Core.Rename.Roles.{Roles, commit-Roles, no_dest-Roles, dest-Roles, squash-Roles}

-- `phys_regs` is the configured number of physical registers.
pub record IsRenamed (phys_regs : ℕ) (s : RenameState) : Type 0 where
  pub rob_ok : IsValid s.rob
  pub free_ok : IsValid s.free_list
  pub free_cap : s.free_list.capacity ≡ phys_regs
  pub small : phys_regs ≤ 255
  pub roles : Roles phys_regs s.map (contents 0 s.free_list) (contents fresh_entry s.rob) s.seq_ctr

-- Room for one more, and how the free list grows by a register that comes back.
give_back :
    (r : Ring ℕ) (keep : Bool) (p : ℕ)
    → IsValid r
    → Ring.full r ≡ false
    → let r' = if keep then r else Ring.push 0 r p in
      IsValid r'
      × (r'.capacity ≡ r.capacity)
      × (contents 0 r' ≡ (if keep then contents 0 r else contents 0 r ++ p ∷ []))
give_back r true p h f = (h, refl, refl)
give_back r false p h f =
    (push-IsValid 0 r p h f, unfold Ring.push in refl, contents-push 0 r h p f)

module _ (phys_regs : ℕ) (s : RenameState) (h : IsRenamed phys_regs s) where
  free-room : Ring.full s.free_list ≡ false
  unfolding Ring.full
  free-room = ground (arith, h.roles.room, h.free_cap, length-entries 0 s.free_list 0 s.free_list.n)

  pub commit-IsRenamed : Ring.empty s.rob ≡ false → IsRenamed phys_regs (commit s)
  unfolding commit
  commit-IsRenamed ne =
      let e = Ring.head fresh_entry s.rob in
      let (ok, cap, list) =
        give_back s.free_list (e.pdst == k_no_reg) e.prev_phys h.free_ok free-room in
      record {
        rob_ok = pop_head-IsValid s.rob h.rob_ok ne;
        free_ok = ok;
        free_cap = cap ∙ h.free_cap;
        small = h.small;
        roles =
            rw list
              (commit-Roles e (rw (sym (contents-pop_head fresh_entry s.rob h.rob_ok ne)) h.roles));
      }

  pub squash_tail-IsRenamed : Ring.empty s.rob ≡ false → IsRenamed phys_regs (squash_tail s)
  unfolding squash_tail
  squash_tail-IsRenamed ne =
      let e = Ring.tail fresh_entry s.rob in
      let (ok, cap, list) = give_back s.free_list (e.pdst == k_no_reg) e.pdst h.free_ok free-room in
      record {
        rob_ok = pop_tail-IsValid s.rob h.rob_ok ne;
        free_ok = ok;
        free_cap = cap ∙ h.free_cap;
        small = h.small;
        roles =
            rw list
              (squash-Roles e (rw (sym (contents-pop_tail fresh_entry s.rob h.rob_ok ne)) h.roles));
      }

  -- A register from the free list is a register, and so not `k_no_reg`.
  pub head_fits : Ring.empty s.free_list ≡ false → Ring.head 0 s.free_list < 255
  head_fits ne =
      let p = Ring.head 0 s.free_list in
      let at_p = h.roles.once p in
      let list = ap (count p) (contents-pop_head 0 s.free_list h.free_ok ne) in
      ground (arith, at_p, list, h.small)

  seq-next : s.seq_ctr + 1 < 2 ^ 64 → u64 (s.seq_ctr + 1) ≡ suc s.seq_ctr
  seq-next w = ground arith

  rename_dest-IsRenamed :
      (e : RobEntry)
      → Ring.full s.rob ≡ false
      → Ring.empty s.free_list ≡ false
      → e.ins.rd < 32
      → s.seq_ctr + 1 < 2 ^ 64
      → e.seq ≡ s.seq_ctr
      → IsRenamed phys_regs (rename_dest s e)
  unfolding rename_dest
  rename_dest-IsRenamed e f ne r w q =
      let p = Ring.head 0 s.free_list in
      let e' : RobEntry = record e { pdst = p; prev_phys = get_or s.map e.ins.rd 0 } in
      let cap : (Ring.pop_head s.free_list).capacity ≡ s.free_list.capacity =
        unfold Ring.pop_head in refl in
      record {
        rob_ok = push-IsValid fresh_entry s.rob e' h.rob_ok f;
        free_ok = pop_head-IsValid s.free_list h.free_ok ne;
        free_cap = cap ∙ h.free_cap;
        small = h.small;
        roles = rw (contents-push fresh_entry s.rob h.rob_ok e' f) (
            rw (seq-next w) (
              dest-Roles e' (rw (sym (contents-pop_head 0 s.free_list h.free_ok ne)) h.roles)
                h.small r refl q));
      }

  plain-IsRenamed :
      (e : RobEntry)
      → Ring.full s.rob ≡ false
      → s.seq_ctr + 1 < 2 ^ 64
      → e.pdst ≡ k_no_reg
      → e.seq ≡ s.seq_ctr
      → IsRenamed phys_regs (rename_plain s e)
  unfolding rename_plain
  plain-IsRenamed e f w p q = record {
    rob_ok = push-IsValid fresh_entry s.rob e h.rob_ok f;
    free_ok = h.free_ok;
    free_cap = h.free_cap;
    small = h.small;
    roles =
        rw (contents-push fresh_entry s.rob h.rob_ok e f)
          (rw (seq-next w) (no_dest-Roles e h.roles p q));
  }

  pub rename-IsRenamed :
      (ins : Instr) (fe : Fetched) (res : Resources) (s' : RenameState)
      → ins.rd < 32
      → s.seq_ctr + 1 < 2 ^ 64
      → rename s ins fe res ≡ some s'
      → IsRenamed phys_regs s'
  unfolding dispatched
  rename-IsRenamed ins fe res s' r w x =
      let e = dispatched s.map s.seq_ctr ins fe in
      let (f, out) = rename-cases s ins fe res s' x in
      elim out [
        | inl (z, q) ↦ subst (IsRenamed phys_regs) q (rename_dest-IsRenamed e f z r w refl)
        | inr q ↦ subst (IsRenamed phys_regs) q (plain-IsRenamed e f w refl refl)
      ]

-- The walk stops only where its condition fails, and keeps the invariant.
pub walk-IsRenamed :
    (phys_regs fuel seq : ℕ) (s : RenameState)
    → IsRenamed phys_regs s
    → IsRenamed phys_regs (walk fuel seq s)
unfolding walk
walk-IsRenamed phys_regs zero seq s h = h
walk-IsRenamed phys_regs (suc fuel) seq s h = elim (Bool-cases (goes_on seq s)) [
  | inl c ↦
      rw (walk, c)
        (walk-IsRenamed phys_regs fuel seq (squash_tail s)
          (squash_tail-IsRenamed phys_regs s h (ground arith)))
  | inr c ↦ rw (walk, c) h
]
