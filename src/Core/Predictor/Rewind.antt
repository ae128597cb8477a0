-- ===== src/Core/Predictor/Rewind.antt =====
-- core/predictor.cpp: what a recovery to a checkpoint brings back of the history and, with the repair
-- of the return stack on, of that stack.
use rv_o.Base.{
  ℕ, ◌%◌, ◌<◌, ◌≡◌, refl, sym, ap, ◌∙◌, arith, Bool, true, List, get_or, set, get_or-set_ring,
  length, ltb, ◌==◌, if◌then◌else◌, Option-cases, Bool-cases, if-both, inl, inr, sub32, subst,
}
use rv_o.Core.Rob.{Checkpoint}
use rv_o.Core.Predictor.State.{Kind, cond_branch, uncond, call, ret, Predictor, has_tage}
use rv_o.Core.Predictor.Btb.{btb_find, ras_top}
use rv_o.Core.Predictor.{
  Pred, fall_through, restore_history, restore_stack, checkpoint, predict_kind, predict, restore,
}
use rv_o.Core.Predictor.Sized.{Call, run, predict-IsSized, run-IsSized}

predict_kind-before :
    (p : Predictor) (r : Pred) (pc : ℕ) (k : Kind) (target : ℕ)
    → (predict_kind p r pc k target).0.before ≡ r.before
unfolding predict_kind
predict_kind-before p r pc cond_branch target = refl
predict_kind-before p r pc call target = refl
predict_kind-before p r pc ret target =
    if-both (λ (q : Pred × Predictor). q.0.before ≡ r.before) (ltb 0 p.ras_n) _ _ (λ _. refl)
      (λ _. refl)
predict_kind-before p r pc uncond target = refl

predict-before : (p : Predictor) (pc : ℕ) → (predict p pc).0.before ≡ checkpoint p
unfolding predict
predict-before p pc = elim (Option-cases (btb_find p pc).0) [
  | inl e ↦ rw (e, predict) refl
  | inr (_, e) ↦ rw (e, predict) (predict_kind-before (btb_find p pc).1 (fall_through p pc) pc _ _)
]

restore_history-hist :
    (q : Predictor) (cp : Checkpoint) → (checkpoint (restore_history q cp)).hist ≡ cp.hist
unfolding checkpoint
restore_history-hist q cp = elim (Bool-cases (has_tage q)) [
  | inl e ↦ rw e (ap (λ b. if b then cp.hist else q.ghr) e)
  | inr e ↦ rw e (ap (λ b. if b then q.hist_pos else cp.hist) e)
]

restored_top :
    (q : Predictor) (cp : Checkpoint)
    → 0 < length q.ras
    → (cp.ras_n ≡ 0 → cp.ras_top ≡ 0)
    → (checkpoint (restore_stack q cp)).ras_top ≡ cp.ras_top
unfolding checkpoint ras_top
restored_top q cp h z =
    let m = sub32 cp.ras_n 1 in
    let written = set q.ras (m % length q.ras) cp.ras_top in
    let top : Bool → ℕ = λ b.
      let ras = if b then q.ras else written in if b then 0 else get_or ras (m % length ras) 0 in
    elim (Bool-cases (cp.ras_n == 0)) [
      | inl e ↦ ap top e ∙ sym (z (ground (arith, e)))
      | inr e ↦ ap top e ∙ get_or-set_ring q.ras m cp.ras_top 0 h
    ]

checkpoint-path :
    {a b : Checkpoint} → a.hist ≡ b.hist → a.ras_n ≡ b.ras_n → a.ras_top ≡ b.ras_top → a ≡ b
checkpoint-path p q r = λ i. record { hist = p i; ras_n = q i; ras_top = r i }

-- The checkpoint of a restored state is the one that it was restored from.
checkpoint-restore :
    (q : Predictor) (cp : Checkpoint)
    → q.ras_repair ≡ true
    → 0 < length q.ras
    → (cp.ras_n ≡ 0 → cp.ras_top ≡ 0)
    → checkpoint (restore q cp) ≡ cp
unfolding restore checkpoint
checkpoint-restore q cp r h z =
    let q' = restore_history q cp in
    let hist = restore_history-hist q cp in
    let top =
      restored_top q' cp
        (if-both (λ (x : Predictor). 0 < length x.ras) (has_tage q) _ _ (λ _. h) (λ _. h)) z in
    ap (λ b. checkpoint (if b then restore_stack q' cp else q')) r ∙ checkpoint-path hist refl top

checkpoint-empty : (p : Predictor) → (checkpoint p).ras_n ≡ 0 → (checkpoint p).ras_top ≡ 0
unfolding checkpoint
checkpoint-empty p e = ap (λ n. if n == 0 then 0 else ras_top p) e

-- Whatever the core asks of the predictor after a prediction, later predictions, replays, updates
-- and recoveries included, the recovery to that prediction's checkpoint leaves the state with the
-- same checkpoint as before the prediction: the same history (its position with TAGE tables, its
-- bits without), the same number of return addresses, and the same address on top. It supposes the
-- repair of the return stack, and a stack that has room for at least one address.
pub restore-predict :
    (p : Predictor) (pc : ℕ) (calls : List Call)
    → p.ras_repair ≡ true
    → 0 < length p.ras
    → checkpoint (restore (run (predict p pc).1 calls) (predict p pc).0.before) ≡ checkpoint p
restore-predict p pc calls r h =
    let q = run (predict p pc).1 calls in
    let s = run-IsSized (predict p pc).1 calls ∙ predict-IsSized p pc in
    ap (λ cp. checkpoint (restore q cp)) (predict-before p pc)
    ∙ checkpoint-restore q (checkpoint p) (ap (λ z. z.repair) s ∙ r)
        (subst (λ n. 0 < n) (sym (ap (λ z. z.stack) s)) h) (checkpoint-empty p)
