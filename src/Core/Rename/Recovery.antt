-- ===== src/Core/Rename/Recovery.antt =====
-- core/rename.h: a recovery after speculation.
use rv_o.Base.{
  ℕ, zero, suc, ◌+◌, ◌^◌, ◌≤◌, ◌<◌, ◌≡◌, refl, ap, sym, ◌∙◌, arith, true, false, List, [], ◌∷◌,
  ◌++◌, set, get_or, some, le→leb, Bool-cases, inl, inr, u64,
}
use rv_o.Isa.{Instr}
use rv_o.Core.Ring
use rv_o.Core.Ring.Contents.{contents, entries, contents-push, contents-pop_head, contents-pop_tail}
use rv_o.Core.Rob.{RobEntry, fresh_entry, k_no_reg}
use rv_o.Core.Rename.{
  RenameState, Fetched, Resources, dispatched, rename_plain, goes_on, rename, rename_dest, commit,
  squash_tail, walk, recover,
}
use rv_o.Core.Rename.Undo.{
  undo_one, undo, from_seq, Ordered, undo-snoc, from_seq-snoc, from_seq-none, Ordered-snoc,
  Ordered-unsnoc, Ordered-weaken,
}
use rv_o.Core.Rename.Roles.{undo_one-set}
use rv_o.Core.Rename.Outcome.{rename-cases}
use rv_o.Core.Rename.Invariant.{
  IsRenamed, head_fits, rename-IsRenamed, commit-IsRenamed, squash_tail-IsRenamed, walk-IsRenamed,
}

-- What the core does while the branch with sequence number `k` is in flight: it renames, commits
-- entries up to the branch, and recovers from branches that are not older.
pub data Speculates (k : ℕ) : RenameState → RenameState → Type 0 where
  begin : {s : RenameState} → Speculates k s s
  then_renames :
      {s s1 s2 : RenameState} (ins : Instr) (fe : Fetched) (res : Resources)
      → Speculates k s s1
      → ins.rd < 32
      → s1.seq_ctr + 1 < 2 ^ 64
      → rename s1 ins fe res ≡ some s2
      → Speculates k s s2
  then_commits :
      {s s1 : RenameState}
      → Speculates k s s1
      → Ring.empty s1.rob ≡ false
      → (Ring.head fresh_entry s1.rob).seq ≤ k
      → Speculates k s (commit s1)
  then_recovers :
      {s s1 : RenameState} (seq : ℕ) → Speculates k s s1 → k ≤ seq → Speculates k s (recover s1 seq)

-- The map with every entry younger than `k` taken back.
abbrev pub map_at : ℕ → RenameState → List ℕ
map_at k s = undo s.map (from_seq (suc k) (contents fresh_entry s.rob))

module _ (phys_regs : ℕ) (s : RenameState) (h : IsRenamed phys_regs s) where
  map_at-commit :
      (k : ℕ)
      → Ring.empty s.rob ≡ false
      → (Ring.head fresh_entry s.rob).seq ≤ k
      → map_at k (commit s) ≡ map_at k s
  unfolding commit
  map_at-commit k ne le = rw (contents-pop_head fresh_entry s.rob h.rob_ok ne) (ground arith)

  map_at-squash_tail :
      (k : ℕ)
      → Ring.empty s.rob ≡ false
      → k < (Ring.tail fresh_entry s.rob).seq
      → map_at k (squash_tail s) ≡ map_at k s
  unfolding squash_tail
  map_at-squash_tail k ne le =
      let t = Ring.tail fresh_entry s.rob in
      let es = contents fresh_entry (Ring.pop_tail s.rob) in
      rw (contents-pop_tail fresh_entry s.rob h.rob_ok ne)
        (ground (arith, from_seq-snoc (suc k) es t, undo-snoc s.map (from_seq (suc k) es) t))

  map_at-plain :
      (k : ℕ) (e : RobEntry)
      → Ring.full s.rob ≡ false
      → e.pdst ≡ k_no_reg
      → map_at k (rename_plain s e) ≡ map_at k s
  unfolding rename_plain
  map_at-plain k e f p =
      let es = contents fresh_entry s.rob in
      rw (contents-push fresh_entry s.rob h.rob_ok e f)
        (ground (arith, from_seq-snoc (suc k) es e, undo-snoc s.map (from_seq (suc k) es) e))

  map_at-rename_dest :
      (k : ℕ) (e : RobEntry)
      → Ring.full s.rob ≡ false
      → Ring.empty s.free_list ≡ false
      → e.ins.rd < 32
      → k < e.seq
      → map_at k (rename_dest s e) ≡ map_at k s
  unfolding rename_dest
  map_at-rename_dest k e f ne r l =
      let p = Ring.head 0 s.free_list in
      let e' : RobEntry = record e { pdst = p; prev_phys = get_or s.map e.ins.rd 0 } in
      let es = contents fresh_entry s.rob in
      let fits : p < 255 = head_fits phys_regs s h ne in
      let back : undo_one (set s.map e.ins.rd p) e' ≡ s.map =
        undo_one-set s.map e' (ground arith) refl (omega (arith, h.roles.width)) in
      let grown : from_seq (suc k) (es ++ e' ∷ []) ≡ from_seq (suc k) es ++ e' ∷ [] =
        from_seq-snoc (suc k) es e' ∙ rw (le→leb (suc k) e.seq l) refl in
      rw (contents-push fresh_entry s.rob h.rob_ok e' f) (
        ap (undo (set s.map e.ins.rd p)) grown
        ∙ undo-snoc (set s.map e.ins.rd p) (from_seq (suc k) es) e'
        ∙ ap (λ m. undo m (from_seq (suc k) es)) back)

  map_at-rename :
      (k : ℕ) (ins : Instr) (fe : Fetched) (res : Resources) (s' : RenameState)
      → ins.rd < 32
      → k < s.seq_ctr
      → rename s ins fe res ≡ some s'
      → map_at k s' ≡ map_at k s
  unfolding dispatched
  map_at-rename k ins fe res s' r l x =
      let e = dispatched s.map s.seq_ctr ins fe in
      let (f, out) = rename-cases s ins fe res s' x in
      elim out [
        | inl (z, q) ↦ ap (map_at k) (sym q) ∙ map_at-rename_dest k e f z r l
        | inr q ↦ ap (map_at k) (sym q) ∙ map_at-plain k e f refl
      ]

map_at-walk :
    (phys_regs k fuel seq : ℕ) (s : RenameState)
    → IsRenamed phys_regs s
    → k ≤ seq
    → map_at k (walk fuel seq s) ≡ map_at k s
unfolding walk
map_at-walk phys_regs k zero seq s h l = refl
map_at-walk phys_regs k (suc fuel) seq s h l = elim (Bool-cases (goes_on seq s)) [
  | inl c ↦
      let ne : Ring.empty s.rob ≡ false = ground arith in
      rw (walk, c)
        (map_at-walk phys_regs k fuel seq (squash_tail s) (squash_tail-IsRenamed phys_regs s h ne) l
          ∙ map_at-squash_tail phys_regs s h k ne (ground arith))
  | inr c ↦ rw (walk, c) refl
]

count-squash_tail :
    {phys_regs fuel : ℕ} (s : RenameState)
    → IsRenamed phys_regs s
    → Ring.empty s.rob ≡ false
    → Ring.count s.rob ≤ suc fuel
    → Ring.count (squash_tail s).rob ≤ fuel
unfolding squash_tail Ring.count Ring.pop_tail Ring.empty
count-squash_tail s h ne l = ground (arith, h.rob_ok)

contents-empty : (s : RenameState) → Ring.empty s.rob ≡ true → contents fresh_entry s.rob ≡ []
unfolding Ring.empty
contents-empty s z = let n : s.rob.n ≡ 0 = ground arith in ap (entries fresh_entry s.rob 0) n

-- As many rounds as there are entries are enough: the walk ends where its condition fails.
walk-ends :
    (phys_regs fuel seq : ℕ) (s : RenameState)
    → IsRenamed phys_regs s
    → Ring.count s.rob ≤ fuel
    → goes_on seq (walk fuel seq s) ≡ false
unfolding walk
walk-ends phys_regs zero seq s h l = unfold Ring.empty Ring.count in ground arith
walk-ends phys_regs (suc fuel) seq s h l = elim (Bool-cases (goes_on seq s)) [
  | inl c ↦
      let ne : Ring.empty s.rob ≡ false = ground arith in
      rw (walk, c)
        (walk-ends phys_regs fuel seq (squash_tail s) (squash_tail-IsRenamed phys_regs s h ne)
          (count-squash_tail s h ne l))
  | inr c ↦ rw (walk, c) c
]

ends-Ordered :
    (phys_regs seq : ℕ) (s : RenameState)
    → IsRenamed phys_regs s
    → goes_on seq s ≡ false
    → Ordered 0 (suc seq) (contents fresh_entry s.rob)
ends-Ordered phys_regs seq s h g =
    let es = contents fresh_entry (Ring.pop_tail s.rob) in
    let t = Ring.tail fresh_entry s.rob in
    elim (Bool-cases (Ring.empty s.rob)) [
      | inl z ↦ rw (contents-empty s z) (omega arith)
      | inr ne ↦
          let split = contents-pop_tail fresh_entry s.rob h.rob_ok ne in
          let (older, _) = Ordered-unsnoc 0 s.seq_ctr es t (rw (sym split) h.roles.ordered) in
          rw split (
            Ordered-weaken 0 0 (suc t.seq) (suc seq) (es ++ t ∷ []) (omega arith) (ground arith)
              (Ordered-snoc 0 t.seq es t older (omega arith)))
    ]

rename-later :
    (s : RenameState) (ins : Instr) (fe : Fetched) (res : Resources) (s' : RenameState)
    → s.seq_ctr + 1 < 2 ^ 64
    → rename s ins fe res ≡ some s'
    → suc s.seq_ctr ≡ s'.seq_ctr
unfolding rename_dest rename_plain
rename-later s ins fe res s' w x =
    let next : suc s.seq_ctr ≡ u64 (s.seq_ctr + 1) = ground arith in
    elim (rename-cases s ins fe res s' x).1 [
      | inl (z, q) ↦ next ∙ ap (λ t. t.seq_ctr) q
      | inr q ↦ next ∙ ap (λ t. t.seq_ctr) q
    ]

seq_ctr-walk : (fuel seq : ℕ) (s : RenameState) → (walk fuel seq s).seq_ctr ≡ s.seq_ctr
unfolding walk squash_tail
seq_ctr-walk zero seq s = refl
seq_ctr-walk (suc fuel) seq s = elim (Bool-cases (goes_on seq s)) [
  | inl c ↦ rw (walk, c) (seq_ctr-walk fuel seq (squash_tail s))
  | inr c ↦ rw (walk, c) refl
]

Speculates-keeps :
    (phys_regs k : ℕ) {s s' : RenameState}
    → IsRenamed phys_regs s
    → k < s.seq_ctr
    → Speculates k s s'
    → IsRenamed phys_regs s' × (k < s'.seq_ctr) × (map_at k s' ≡ map_at k s)
unfolding commit recover
Speculates-keeps phys_regs k h l begin = (h, l, refl)
Speculates-keeps phys_regs k h l (then_renames {s1 = s1} {s2 = s2} ins fe res r rd w x) =
    let (h1, l1, e1) = Speculates-keeps phys_regs k h l r in
    let later = rename-later s1 ins fe res s2 w x in
    (
      rename-IsRenamed phys_regs s1 h1 ins fe res s2 rd w x,
      omega arith,
      map_at-rename phys_regs s1 h1 k ins fe res s2 rd l1 x ∙ e1,
    )
Speculates-keeps phys_regs k h l (then_commits {s1 = s1} r ne le) =
    let (h1, l1, e1) = Speculates-keeps phys_regs k h l r in
    (commit-IsRenamed phys_regs s1 h1 ne, l1, map_at-commit phys_regs s1 h1 k ne le ∙ e1)
Speculates-keeps phys_regs k h l (then_recovers {s1 = s1} seq r le) =
    let (h1, l1, e1) = Speculates-keeps phys_regs k h l r in
    let n = Ring.count s1.rob in
    (
      walk-IsRenamed phys_regs n seq s1 h1,
      omega (arith, seq_ctr-walk n seq s1),
      map_at-walk phys_regs k n seq s1 h1 le ∙ e1,
    )

-- Let `s` be a state in the reclaim discipline just after the instruction with sequence number `k`
-- was renamed. Whatever is then renamed, committed up to `k`, or recovered from younger
-- instructions, a recovery to `k` gives back the rename map of `s`, and leaves only entries with
-- sequence numbers up to `k`, in ascending order, in the reorder buffer.
pub map-recover :
    (phys_regs k : ℕ) (s s' : RenameState)
    → IsRenamed phys_regs s
    → s.seq_ctr ≡ suc k
    → Speculates k s s'
    → ((recover s' k).map ≡ s.map) × Ordered 0 (suc k) (contents fresh_entry (recover s' k).rob)
unfolding recover
map-recover phys_regs k s s' h q r =
    let (h', _, e) = Speculates-keeps phys_regs k h (omega arith) r in
    let n = Ring.count s'.rob in
    let t = walk n k s' in
    let ok = walk-IsRenamed phys_regs n k s' h' in
    let old = ends-Ordered phys_regs k t ok (walk-ends phys_regs n k s' h' (omega arith)) in
    let none_younger =
      from_seq-none (suc k) 0 (suc k) (contents fresh_entry t.rob) old (omega arith) in
    let none_yet =
      from_seq-none (suc k) 0 s.seq_ctr (contents fresh_entry s.rob) h.roles.ordered
        (omega arith) in
    (
      ap (undo t.map) (sym none_younger)
          ∙ map_at-walk phys_regs k n k s' h' (omega arith)
          ∙ e
          ∙ ap (undo s.map) none_yet,
      old,
    )
