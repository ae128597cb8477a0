-- ===== src/Core/Predictor/Sized.antt =====
-- core/predictor.cpp: the configuration and the size of the return stack, over the calls.
use rv_o.Base.{
  ℕ, ◌+◌, ◌%◌, ◌≡◌, refl, ap, ◌∙◌, Bool, ◌&&◌, not, List, [], ◌∷◌, length, length-set, ltb, ◌==◌,
  if◌then◌else◌, Option-cases, if-both, inl, inr, u32, same, bit_and, ◌^◌, ◌-◌,
}
use rv_o.Isa.{Instr}
use rv_o.Core.Rob.{Checkpoint}
use rv_o.Core.Predictor.State.{Kind, cond_branch, uncond, call, ret, Predictor, kind_of, has_tage}
use rv_o.Core.Predictor.Btb.{btb_find, btb_write, find_way, set_base, ras_push}
use rv_o.Core.Predictor.History.{push_history}
use rv_o.Core.Predictor.Tage.{
  Lookup, tage_lookup, tage_update, train, train_provider, allocate, age, find_useless,
  after_provider,
}
use rv_o.Core.Predictor.{
  Pred, fall_through, restore_history, restore_stack, predict_kind, predict, restore, replay_kind,
  replay, train_kind, update,
}

-- What the core asks of the predictor.
pub data Call : Type 0 where
  predicts : ℕ → Call
  replays : ℕ → Instr → Bool → Call
  restores : Checkpoint → Call
  updates : ℕ → Instr → Bool → ℕ → ℕ → Checkpoint → Call

unfoldable pub apply : Predictor → Call → Predictor
apply p (predicts pc) = (predict p pc).1
apply p (replays pc ins taken) = replay p pc ins taken
apply p (restores cp) = restore p cp
apply p (updates pc ins taken target pht_idx before) = update p pc ins taken target pht_idx before

unfoldable pub run : Predictor → List Call → Predictor
unfolding apply
run p [] = p
run p (c ∷ cs) = run (apply p c) cs

-- The configuration and the sizes that no call changes.
pub record Sizes : Type 0 where
  pub tables : ℕ
  pub repair : Bool
  pub stack : ℕ
  pub ways : ℕ
  pub sets : ℕ
  pub targets : ℕ

abbrev pub sizes : Predictor → Sizes
sizes p = record {
  tables = p.n_tables;
  repair = p.ras_repair;
  stack = length p.ras;
  ways = p.btb_ways;
  sets = p.btb_sets;
  targets = length p.btb;
}

abbrev pub IsSized : Predictor → Predictor → Type 0
IsSized p q = sizes q ≡ sizes p

abbrev with_targets : Predictor → ℕ → Sizes
with_targets p n = record (sizes p) { targets = n }

abbrev with_stack : Predictor → ℕ → Sizes
with_stack p n = record (sizes p) { stack = n }

btb_find-IsSized : (p : Predictor) (pc : ℕ) → IsSized p (btb_find p pc).1
unfolding btb_find
btb_find-IsSized p pc = elim (Option-cases (find_way p.btb pc (set_base p pc) p.btb_ways)) [
  | inl e ↦ rw (e, btb_find) refl
  | inr (i, e) ↦ rw (e, btb_find) (ap (with_targets p) (length-set p.btb i _))
]

push_history-IsSized : (p : Predictor) (taken : Bool) → IsSized p (push_history p taken)
unfolding push_history
push_history-IsSized p taken = if-both (IsSized p) (has_tage p) _ _ (λ _. refl) (λ _. refl)

ras_push-IsSized : (p : Predictor) (address : ℕ) → IsSized p (ras_push p address)
unfolding ras_push
ras_push-IsSized p address = ap (with_stack p) (length-set p.ras (p.ras_n % length p.ras) address)

predict_kind-IsSized :
    (p : Predictor) (r : Pred) (pc : ℕ) (k : Kind) (target : ℕ)
    → IsSized p (predict_kind p r pc k target).1
unfolding predict_kind
predict_kind-IsSized p r pc cond_branch target = push_history-IsSized p _
predict_kind-IsSized p r pc call target = ras_push-IsSized p (u32 (pc + 4))
predict_kind-IsSized p r pc ret target =
    if-both (λ (q : Pred × Predictor). IsSized p q.1) (ltb 0 p.ras_n) _ _ (λ _. refl) (λ _. refl)
predict_kind-IsSized p r pc uncond target = refl

pub predict-IsSized : (p : Predictor) (pc : ℕ) → IsSized p (predict p pc).1
unfolding predict
predict-IsSized p pc =
    let s = btb_find-IsSized p pc in
    elim (Option-cases (btb_find p pc).0) [
      | inl e ↦ rw (e, predict) s
      | inr (i, e) ↦
          rw (e, predict) (predict_kind-IsSized (btb_find p pc).1 (fall_through p pc) pc _ _ ∙ s)
    ]

restore_history-IsSized : (p : Predictor) (cp : Checkpoint) → IsSized p (restore_history p cp)
restore_history-IsSized p cp =
    if-both (IsSized p) (has_tage p) (record p { hist_pos = cp.hist }) (record p { ghr = cp.hist })
      (λ _. refl) (λ _. refl)

restore_stack-IsSized : (p : Predictor) (cp : Checkpoint) → IsSized p (restore_stack p cp)
restore_stack-IsSized p cp = ap (with_stack p) (
    if-both (λ l. length l ≡ length p.ras) (cp.ras_n == 0) p.ras _ (λ _. refl)
      (λ _. length-set p.ras _ _))

restore-IsSized : (p : Predictor) (cp : Checkpoint) → IsSized p (restore p cp)
unfolding restore
restore-IsSized p cp =
    let p' = restore_history p cp in
    if-both (IsSized p) p.ras_repair (restore_stack p' cp) p'
      (λ _. restore_stack-IsSized p' cp ∙ restore_history-IsSized p cp)
      (λ _. restore_history-IsSized p cp)

replay-IsSized :
    (p : Predictor) (pc : ℕ) (ins : Instr) (taken : Bool) → IsSized p (replay p pc ins taken)
unfolding replay
replay-IsSized p pc ins taken = go (kind_of ins)
  where
    go : (k : Kind) → IsSized p (replay_kind p pc taken k)
    go cond_branch = push_history-IsSized p taken
    go call =
        if-both (IsSized p) p.ras_repair _ p (λ _. ras_push-IsSized p (u32 (pc + 4))) (λ _. refl)
    go ret = if-both (IsSized p) (p.ras_repair && ltb 0 p.ras_n) _ p (λ _. refl) (λ _. refl)
    go uncond = refl

train-IsSized :
    (p : Predictor) (pc : ℕ) (taken : Bool) (l : Lookup) → IsSized p (train p pc taken l)
unfolding train train_provider
train-IsSized p pc taken l = elim (Option-cases (l.provider)) [
  | inl e ↦ rw e refl
  | inr (_, e) ↦ rw e refl
]

allocate-IsSized :
    (p : Predictor) (taken : Bool) (l : Lookup) (first_table : ℕ)
    → IsSized p (allocate p taken l first_table)
unfolding allocate
allocate-IsSized p taken l first_table =
    elim (Option-cases (find_useless p.tables l.idx first_table (p.n_tables - first_table))) [
      | inl e ↦ rw (e, allocate) refl
      | inr (_, e) ↦ rw (e, allocate) refl
    ]

age-IsSized : (p : Predictor) → IsSized p (age p)
unfolding age
age-IsSized p =
    if-both (IsSized p) (bit_and (u32 (p.updates + 1)) (2 ^ 18 - 1) == 0) _ _ (λ _. refl)
      (λ _. refl)

tage_update-IsSized :
    (p : Predictor) (pc : ℕ) (taken : Bool) (position : ℕ)
    → IsSized p (tage_update p pc taken position)
unfolding tage_update
tage_update-IsSized p pc taken position =
    let l = tage_lookup p pc position in
    let p' = train p pc taken l in
    let s = train-IsSized p pc taken l in
    let missed = not (same l.pred taken) && ltb (after_provider l) p.n_tables in
    let next = allocate p' taken l (after_provider l) in
    age-IsSized (if missed then next else p')
    ∙ (if-both (IsSized p) missed next p' (λ _. allocate-IsSized p' taken l (after_provider l) ∙ s)
        (λ _. s))

btb_write-IsSized :
    (p : Predictor) (pc : ℕ) (kind : Kind) (target : ℕ) → IsSized p (btb_write p pc kind target)
unfolding btb_write
btb_write-IsSized p pc kind target =
    ap (with_targets (btb_find p pc).1) (length-set (btb_find p pc).1.btb _ _)
    ∙ btb_find-IsSized p pc

pub train_kind-IsSized :
    (p : Predictor) (pc : ℕ) (taken : Bool) (pht_idx : ℕ) (before : Checkpoint) (k : Kind)
    → IsSized p (train_kind p pc taken pht_idx before k)
train_kind-IsSized p pc taken pht_idx before cond_branch =
    if-both (IsSized p) (has_tage p) (tage_update p pc taken before.hist) _
      (λ _. tage_update-IsSized p pc taken before.hist) (λ _. refl)
train_kind-IsSized p pc taken pht_idx before uncond = refl
train_kind-IsSized p pc taken pht_idx before call = refl
train_kind-IsSized p pc taken pht_idx before ret = refl

update-IsSized :
    (p : Predictor) (pc : ℕ) (ins : Instr) (taken : Bool) (target pht_idx : ℕ) (before : Checkpoint)
    → IsSized p (update p pc ins taken target pht_idx before)
unfolding update
update-IsSized p pc ins taken target pht_idx before =
    let p' = train_kind p pc taken pht_idx before (kind_of ins) in
    if-both (IsSized p) taken (btb_write p' pc (kind_of ins) target) p'
      (λ _.
        btb_write-IsSized p' pc (kind_of ins) target
        ∙ train_kind-IsSized p pc taken pht_idx before (kind_of ins))
      (λ _. train_kind-IsSized p pc taken pht_idx before (kind_of ins))

apply-IsSized : (p : Predictor) (c : Call) → IsSized p (apply p c)
unfolding apply
apply-IsSized p (predicts pc) = predict-IsSized p pc
apply-IsSized p (replays pc ins taken) = replay-IsSized p pc ins taken
apply-IsSized p (restores cp) = restore-IsSized p cp
apply-IsSized p (updates pc ins taken target pht_idx before) =
    update-IsSized p pc ins taken target pht_idx before

pub run-IsSized : (p : Predictor) (cs : List Call) → IsSized p (run p cs)
unfolding run
run-IsSized p [] = refl
run-IsSized p (c ∷ cs) = run-IsSized (apply p c) cs ∙ apply-IsSized p c
