-- ===== src/Core/Predictor/Target.antt =====
-- What the target buffer and the return stack remember.
use rv_o.Base.{
  ℕ, suc, ◌+◌, ◌*◌, ◌/◌, ◌%◌, ◌^◌, ◌-◌, ◌≤◌, ◌<◌, ◌≡◌, refl, sym, ap, ap₂, ◌∙◌, arith, true, ◌&&◌,
  get_or, set, get_or-set_self, get_or-set_ne, get_or-set, get_or-set_ring, length, length-set, ltb,
  ◌==◌, Option, none, some, Option-cases, if-both, inl, inr, sub32, u32, u64, some_injective, subst,
}
use native.Mathlib.Nat.{mul-le-mul_right}
use rv_o.Isa.{Instr}
use rv_o.Core.Rob.{Checkpoint}
use rv_o.Core.Predictor.State.{Kind, call, ret, BtbEntry, no_btb_entry, Predictor, kind_of}
use rv_o.Core.Predictor.Btb.{
  way, touch, write_way, way_for, set_base, find_way, btb_find, victim, btb_write, ras_push,
  ras_top,
}
use rv_o.Core.Predictor.{train_kind, update}
use rv_o.Core.Predictor.Sized.{Sizes, sizes, train_kind-IsSized}
use rv_o.Core.Predictor.Way.{Misses, find_way-some, find_way-none, find_way-set, victim-bounds}
use rv_o.Core.Predictor.{Pred, fall_through, predict, predict_kind}

-- What the target buffer holds for `pc`.
unfoldable pub held : Predictor → ℕ → Option (Kind × ℕ)
held p pc = elim (find_way p.btb pc (set_base p pc) p.btb_ways) [
  | none ↦ none
  | some i ↦ some ((way p.btb i).kind, (way p.btb i).target)
]

-- The buffer has its sets, and each of them a way.
pub record IsShaped (z : Sizes) : Type 0 where
  pub ways : 0 < z.ways
  pub sets : 0 < z.sets
  pub room : z.sets * z.ways ≤ z.targets

set_base-room :
    (p : Predictor) (pc : ℕ) → IsShaped (sizes p) → set_base p pc + p.btb_ways ≤ length p.btb
set_base-room p pc s =
    let m : suc (pc / 4 % p.btb_sets) * p.btb_ways ≤ p.btb_sets * p.btb_ways =
      mul-le-mul_right p.btb_ways (omega (arith, s.sets)) in
    omega (arith, m, s.room)

write_way-held :
    (p : Predictor) (pc j : ℕ) (kind : Kind) (target : ℕ)
    → IsShaped (sizes p)
    → set_base p pc ≤ j
    → j < set_base p pc + p.btb_ways
    → Misses p.btb pc (set_base p pc) j
    → held (write_way p j pc kind target) pc ≡ some (kind, target)
unfolding held
write_way-held p pc j kind target s a b m =
    let new : BtbEntry = record {
      valid = true;
      kind = kind;
      pc = pc;
      target = target;
      last_use = u64 (p.btb_clock + 1);
    } in
    let l : j < length p.btb = omega (arith, b, set_base-room p pc s) in
    rw (find_way-set p.btb pc (set_base p pc) p.btb_ways j new a b l (ground arith) m, held)
      (ap (λ (w : BtbEntry). some (w.kind, w.target)) (get_or-set_self p.btb j new no_btb_entry l))

-- The search's answer, in both cases.
btb_find-none :
    (p : Predictor) (pc : ℕ)
    → find_way p.btb pc (set_base p pc) p.btb_ways ≡ none
    → btb_find p pc ≡ (none, p)
unfolding btb_find
btb_find-none p pc e = rw (e, btb_find) refl

btb_find-some :
    (p : Predictor) (pc j : ℕ)
    → find_way p.btb pc (set_base p pc) p.btb_ways ≡ some j
    → btb_find p pc ≡ (some j, touch p j)
unfolding btb_find
btb_find-some p pc j e = rw (e, btb_find) refl

btb_write-held :
    (p : Predictor) (pc : ℕ) (kind : Kind) (target : ℕ)
    → IsShaped (sizes p)
    → held (btb_write p pc kind target) pc ≡ some (kind, target)
unfolding btb_write way_for
btb_write-held p pc kind target s =
    let base = set_base p pc in
    let goal : Option ℕ × Predictor → Type 0 = λ found.
      held (write_way found.1 (way_for found pc) pc kind target) pc ≡ some (kind, target) in
    elim (Option-cases (find_way p.btb pc base p.btb_ways)) [
      | inl e ↦
          let (a, b) =
            victim-bounds p.btb base base p.btb_ways base (base + p.btb_ways) (omega arith)
              (omega (arith, s.ways)) (omega arith) (omega arith) in
          let v = victim p.btb base base p.btb_ways in
          subst goal (sym (btb_find-none p pc e)) (
            write_way-held p pc v kind target s a b
              (λ k c d. find_way-none p.btb pc base p.btb_ways e k c (omega (arith, b, d))))
      | inr (j, e) ↦
          let (a, b, m) = find_way-some p.btb pc base p.btb_ways j e in
          let room : IsShaped (sizes (touch p j)) = record {
            ways = s.ways;
            sets = s.sets;
            room = rw (length-set p.btb j) s.room;
          } in
          subst goal (sym (btb_find-some p pc j e)) (
            write_way-held (touch p j) pc j kind target room a b (λ k c d.
              ap (λ (w : BtbEntry). w.valid && w.pc == pc)
                (get_or-set_ne p.btb j k _ no_btb_entry (λ q. absurd (omega (arith, q, d))))
              ∙ m k c d))
    ]

-- Once a taken branch or jump has resolved, the target buffer holds its kind and its target, found
-- by the search that a prediction makes: whether its entry is refreshed, takes a free way, or
-- replaces another one. It supposes that the buffer has sets and ways, and an entry for each.
pub update-held :
    (p : Predictor) (pc : ℕ) (ins : Instr) (target pht_idx : ℕ) (before : Checkpoint)
    → IsShaped (sizes p)
    → held (update p pc ins true target pht_idx before) pc ≡ some (kind_of ins, target)
unfolding update
update-held p pc ins target pht_idx before s =
    btb_write-held (train_kind p pc true pht_idx before (kind_of ins)) pc (kind_of ins) target
      (subst IsShaped (sym (train_kind-IsSized p pc true pht_idx before (kind_of ins))) s)

-- The time of use is all that a search changes in the way that it finds.
touch-way :
    (p : Predictor) (j : ℕ)
    → ((way (touch p j).btb j).kind ≡ (way p.btb j).kind)
      × ((way (touch p j).btb j).target ≡ (way p.btb j).target)
touch-way p j =
    let new = record (way p.btb j) { last_use = u64 (p.btb_clock + 1) } in
    rw (get_or-set p.btb j j new no_btb_entry) (
      if-both (λ (w : BtbEntry). (w.kind ≡ (way p.btb j).kind) × (w.target ≡ (way p.btb j).target))
        (j == j && ltb j (length p.btb)) new (way p.btb j) (λ _. (refl, refl)) (λ _. (refl, refl)))

-- A prediction of a known instruction.
predict-held :
    (p : Predictor) (pc : ℕ) (k : Kind) (target : ℕ)
    → held p pc ≡ some (k, target)
    → (j : ℕ) × (predict p pc ≡ predict_kind (touch p j) (fall_through p pc) pc k target)
unfolding predict held
predict-held p pc k target e = elim (Option-cases (find_way p.btb pc (set_base p pc) p.btb_ways)) [
  | inl f ↦ absurd (ground (arith, e, f))
  | inr (j, f) ↦
      let w : BtbEntry = way p.btb j in
      let answer : Option ℕ → Option (Kind × ℕ) =
        λ o. elim o [ none ↦ none | some i ↦ some ((way p.btb i).kind, (way p.btb i).target) ] in
      let both = some_injective (sym (ap answer f) ∙ e) in
      let same_way = touch-way p j in
      let goal : Option ℕ × Predictor → Type 0 = λ (found, q).
        (elim found [
          | none ↦ (fall_through p pc, q)
          | some i ↦ predict_kind q (fall_through p pc) pc (way q.btb i).kind (way q.btb i).target
        ])
        ≡ predict_kind (touch p j) (fall_through p pc) pc k target in
      (
        j,
        subst goal (sym (btb_find-some p pc j f)) (
            ap₂ (predict_kind (touch p j) (fall_through p pc) pc)
              (same_way.0 ∙ ap (λ (x : Kind × ℕ). x.0) both)
              (same_way.1 ∙ ap (λ (x : Kind × ℕ). x.1) both)),
      )
]

-- A return pops the address that was pushed last.
ret-ras_push :
    (p : Predictor) (r : Pred) (j back address target : ℕ)
    → 0 < length p.ras
    → p.ras_n < 2 ^ 32 - 1
    → let q = touch (ras_push p address) j in
      let after = predict_kind q r back ret target in
      (after.0.taken ≡ true) × (after.0.target ≡ address) × (after.1.ras_n ≡ p.ras_n)
unfolding predict_kind ras_push ras_top
ret-ras_push p r j back address target h l =
    let some_pushed : ltb 0 (u32 (p.ras_n + 1)) ≡ true = ground (arith, l) in
    let back_n : sub32 (u32 (p.ras_n + 1)) 1 ≡ p.ras_n = omega (arith, l) in
    let q_ras = set p.ras (p.ras_n % length p.ras) address in
    let top : ras_top (touch (ras_push p address) j) ≡ address =
      ap (λ n. get_or q_ras (n % length q_ras) 0) back_n
      ∙ get_or-set_ring p.ras p.ras_n address 0 h in
    if-both
      (λ (after : Pred × Predictor).
        (after.0.taken ≡ true) × (after.0.target ≡ address) × (after.1.ras_n ≡ p.ras_n))
      (ltb 0 (u32 (p.ras_n + 1))) _ _ (λ _. (refl, top, back_n))
      (λ e. absurd (ground (arith, e, some_pushed)))

-- A call that is predicted from the target buffer, and then a return: the call goes to its target,
-- the return to the instruction behind the call, whatever target the buffer holds for it, and the
-- return stack has its height back. It supposes that the buffer knows both instructions, that the
-- stack has room for an address, and that its count does not wrap.
pub predict-call_ret :
    (p : Predictor) (pc back target stale : ℕ)
    → held p pc ≡ some (call, target)
    → held (predict p pc).1 back ≡ some (ret, stale)
    → 0 < length p.ras
    → p.ras_n < 2 ^ 32 - 1
    → let (called, p') = predict p pc in
      let (returned, p'') = predict p' back in
      (called.target ≡ target)
      × (returned.taken ≡ true)
      × (returned.target ≡ u32 (pc + 4))
      × (p''.ras_n ≡ p.ras_n)
unfolding predict_kind ras_push
predict-call_ret p pc back target stale e f h l =
    let (j, a) = predict-held p pc call target e in
    let p' = (predict p pc).1 in
    let (k, b) = predict-held p' back ret stale f in
    let goal : Pred × Predictor → Type 0 = λ (returned, p'').
      (returned.taken ≡ true) × (returned.target ≡ u32 (pc + 4)) × (p''.ras_n ≡ p.ras_n) in
    let pushed : p' ≡ ras_push (touch p j) (u32 (pc + 4)) = ap (λ (x : Pred × Predictor). x.1) a in
    let (taken, address, height) = subst goal (sym b) (
      subst (λ q. goal (predict_kind (touch q k) (fall_through p' back) back ret stale))
        (sym pushed)
        (ret-ras_push (touch p j) (fall_through p' back) k back (u32 (pc + 4)) stale h l)) in
    (ap (λ (x : Pred × Predictor). x.0.target) a, taken, address, height)
