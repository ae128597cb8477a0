-- ===== src/Core/Rename/Reach.antt =====
-- The states that renaming, commit and recovery reach from the initial one.
use rv_o.Base.{
  ℕ, zero, suc, ◌+◌, ◌-◌, ◌^◌, ◌≤◌, ◌<◌, ◌≡◌, refl, ap, sym, ◌∙◌, arith, false, leb, ltb, ◌&&◌,
  if◌then◌else◌, [], ◌∷◌, ◌++◌, length, some, count,
}
use mathlib.Core.List.{append_assoc, append-nil}
use rv_o.Isa.{Instr}
use rv_o.Core.Ring
use rv_o.Core.Ring.{Ring}
use rv_o.Core.Ring.Index.{IsValid, make-IsValid, push-IsValid}
use rv_o.Core.Ring.Contents.{contents, contents-push, contents-make}
use rv_o.Core.Rob.{fresh_entry}
use rv_o.Core.Rename.{
  RenameState, Fetched, Resources, identity_from, fill, initial, rename, commit, recover,
}
use rv_o.Core.Rename.Invariant.{IsRenamed, rename-IsRenamed, commit-IsRenamed, walk-IsRenamed}

-- One action on the rename state: an instruction renamed, the oldest entry committed, or a recovery
-- to any sequence number. `rd` is a 5-bit field, and the counter does not wrap.
pub data Step : RenameState → RenameState → Type 0 where
  renames :
      {s s' : RenameState} (ins : Instr) (fe : Fetched) (res : Resources)
      → ins.rd < 32
      → s.seq_ctr + 1 < 2 ^ 64
      → rename s ins fe res ≡ some s'
      → Step s s'
  commits : {s : RenameState} → Ring.empty s.rob ≡ false → Step s (commit s)
  recovers : {s : RenameState} (seq : ℕ) → Step s (recover s seq)

-- `validateConfig` asks for `33 ≤ phys_regs ≤ 255`.
pub data Reachable (phys_regs rob_size : ℕ) : RenameState → Type 0 where
  start : Reachable phys_regs rob_size (initial phys_regs rob_size)
  next :
      {s s' : RenameState}
      → Reachable phys_regs rob_size s
      → Step s s'
      → Reachable phys_regs rob_size s'

length-identity_from : (i k : ℕ) → length (identity_from i k) ≡ k
length-identity_from i zero = refl
length-identity_from i (suc k) = ap suc (length-identity_from (suc i) k)

count-identity_from :
    (a i k : ℕ) → count a (identity_from i k) ≡ (if leb i a && ltb a (i + k) then 1 else 0)
count-identity_from a i zero = ground arith
count-identity_from a i (suc k) = ground (arith, count-identity_from a (suc i) k)

two_parts :
    (a lo n : ℕ)
    → count a (identity_from 0 lo) + count a (identity_from lo n) + 0
      ≡ (if ltb a (lo + n) then 1 else 0)
two_parts a lo n = ground (arith, count-identity_from a 0 lo, count-identity_from a lo n)

fill-list :
    (r : Ring ℕ) (p left : ℕ)
    → IsValid r
    → r.n + left ≤ r.capacity
    → IsValid (fill r p left)
      × ((fill r p left).capacity ≡ r.capacity)
      × (contents 0 (fill r p left) ≡ contents 0 r ++ identity_from p left)
unfolding fill
fill-list r p zero h l = (h, refl, sym (append-nil (contents 0 r)))
fill-list r p (suc left) h l =
    let f : Ring.full r ≡ false = unfold Ring.full in ground arith in
    let c : (Ring.push 0 r p).capacity ≡ r.capacity = unfold Ring.push in refl in
    let n : (Ring.push 0 r p).n ≡ suc r.n = unfold Ring.push in omega (arith, h.small) in
    let (ok, cap, list) =
      fill-list (Ring.push 0 r p) (suc p) left (push-IsValid 0 r p h f) (omega (arith, c, n)) in
    (
      ok,
      cap ∙ c,
      list
          ∙ ap (λ xs. xs ++ identity_from (suc p) left) (contents-push 0 r h p f)
          ∙ append_assoc (contents 0 r) (p ∷ []) (identity_from (suc p) left),
    )

pub initial-IsRenamed :
    (phys_regs rob_size : ℕ)
    → 33 ≤ phys_regs
    → phys_regs ≤ 255
    → 0 < rob_size
    → rob_size < 2 ^ 31
    → IsRenamed phys_regs (initial phys_regs rob_size)
unfolding initial
initial-IsRenamed phys_regs rob_size lo hi p q =
    let cap' : (Ring.make {A = ℕ} 0 phys_regs).capacity ≡ phys_regs = unfold Ring.make in refl in
    let n : (Ring.make {A = ℕ} 0 phys_regs).n ≡ 0 = unfold Ring.make in refl in
    let empty_ok : IsValid (Ring.make {A = ℕ} 0 phys_regs) =
      make-IsValid 0 phys_regs (omega arith) (omega arith) in
    let (ok, cap, list) =
      fill-list (Ring.make {A = ℕ} 0 phys_regs) 32 (phys_regs - 32) empty_ok
        (omega (arith, n, cap')) in
    record {
      rob_ok = make-IsValid fresh_entry rob_size p q;
      free_ok = ok;
      free_cap = cap ∙ cap';
      small = hi;
      roles = rw list (
          rw (contents-make {A = ℕ} 0 phys_regs) (
            rw (contents-make fresh_entry rob_size) (record {
              width = length-identity_from 0 32;
              once = λ a.
                  two_parts a 32 (phys_regs - 32)
                  ∙ ap (λ n. if ltb a n then 1 else 0) (omega arith);
              room = omega (arith, length-identity_from 32 (phys_regs - 32));
              tracks = tt;
              ordered = omega arith;
            })));
    }

pub Step-IsRenamed :
    {s s' : RenameState} (phys_regs : ℕ)
    → Step s s'
    → IsRenamed phys_regs s
    → IsRenamed phys_regs s'
Step-IsRenamed {s} {s'} phys_regs (renames ins fe res r w x) h =
    rename-IsRenamed phys_regs s h ins fe res s' r w x
Step-IsRenamed {s} phys_regs (commits ne) h = commit-IsRenamed phys_regs s h ne
Step-IsRenamed {s} phys_regs (recovers seq) h =
    unfold recover in walk-IsRenamed phys_regs (Ring.count s.rob) seq s h

-- In every state that renaming, commit and recovery reach, each physical register has exactly one
-- role: below `phys_regs` it stands once in the rename map, in the free list, or among the mappings
-- that entries in flight displaced, and no other number stands in them; the map's mappings agree
-- with the destinations of the entries in flight, whose sequence numbers ascend; and the free list
-- and the reorder buffer are valid rings.
pub Reachable-IsRenamed :
    (phys_regs rob_size : ℕ) (s : RenameState)
    → 33 ≤ phys_regs
    → phys_regs ≤ 255
    → 0 < rob_size
    → rob_size < 2 ^ 31
    → Reachable phys_regs rob_size s
    → IsRenamed phys_regs s
Reachable-IsRenamed phys_regs rob_size s lo hi p q start =
    initial-IsRenamed phys_regs rob_size lo hi p q
Reachable-IsRenamed phys_regs rob_size s lo hi p q (next {s = s0} r st) =
    Step-IsRenamed phys_regs st (Reachable-IsRenamed phys_regs rob_size s0 lo hi p q r)
