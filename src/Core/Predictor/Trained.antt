-- ===== src/Core/Predictor/Trained.antt =====
-- core/predictor.cpp: training, and the ranges of the counters.
use rv_o.Base.{
  ℕ, ◌+◌, ◌-◌, ◌≤◌, arith, Bool, false, ◌&&◌, not, List, get_or, set, map, ltb, ◌==◌, ◌^◌, u32,
  bit_and, if◌then◌else◌, none, some, Option-cases, if-both, inl, inr, same,
}
use rv_o.Base.Int.{pos, negsuc, ◌≤ℤ◌}
use rv_o.Core.Rob.{Checkpoint}
use rv_o.Isa.{Instr}
use rv_o.Core.Predictor.State.{Kind, cond_branch, uncond, call, ret, Predictor, kind_of, has_tage}
use rv_o.Core.Predictor.Btb.{btb_write, btb_find, find_way, set_base}
use rv_o.Core.Predictor.Tage.{
  Lookup, nudge, nudge_count, train, train_provider, trained_base, find_useless, allocate, age,
  halved, entry_at, tage_lookup, tage_update, after_provider, pht_slot,
}
use rv_o.Core.Predictor.{make, train_kind, update}
use rv_o.Sim.Config.{SimConfig}
use rv_o.Core.Predictor.Range.{
  lower_all-Tables, halved-Tables, new_entry-InRange, replicate-Counts, replicate-Tables, Counts,
  IsTrained, nudge_bounds, nudge_count-le, Counts-get_or, Counts-set, entry-InRange,
  put_entry-Tables,
}

trained_base-Counts :
    (p : Predictor) (pc : ℕ) (taken : Bool) → Counts p.pht → Counts (trained_base p pc taken)
unfolding trained_base
trained_base-Counts p pc taken h =
    let n = get_or p.pht (pht_slot p pc) 0 in
    Counts-set p.pht (pht_slot p pc) (nudge_count n taken 3)
      (nudge_count-le n taken (Counts-get_or p.pht (pht_slot p pc) h)) h

train_provider-IsTrained :
    (p : Predictor) (taken : Bool) (l : Lookup) (base : List ℕ) (j : ℕ)
    → Counts base
    → IsTrained p
    → IsTrained (train_provider p taken l base j)
unfolding train_provider
train_provider-IsTrained p taken l base j h t =
    let e = entry_at p.tables j l.idx in
    let r = entry-InRange p.tables j l.idx t.tagged in
    let differ = not (same l.provider_pred l.alt_pred) in
    let unproven : Bool = elim (l.alt) [ none ↦ l.weak | some _ ↦ false ] in
    let ctr = nudge_bounds e.ctr taken (negsuc 3) (pos 3) r.low r.high in
    let alt = nudge p.use_alt_on_weak (same l.alt_pred taken) (negsuc 7) (pos 7) in
    let alt_ok =
      nudge_bounds p.use_alt_on_weak (same l.alt_pred taken) (negsuc 7) (pos 7) t.alt_low
        t.alt_high in
    let u = nudge_count e.u (same l.provider_pred taken) 3 in
    record {
      base = if-both Counts unproven base p.pht (λ _. h) (λ _. t.base);
      tagged =
          put_entry-Tables p.tables j l.idx
            (record e { u = if differ then u else e.u; ctr = nudge e.ctr taken (negsuc 3) (pos 3) })
            (record {
              low = ctr.0;
              high = ctr.1;
              useful =
                  if-both (λ n. n ≤ 3) differ u e.u
                    (λ _. nudge_count-le e.u (same l.provider_pred taken) r.useful) (λ _. r.useful);
            })
            t.tagged;
      alt_low =
          if-both (λ n. negsuc 7 ≤ℤ n) (l.weak && differ) alt p.use_alt_on_weak (λ _. alt_ok.0)
            (λ _. t.alt_low);
      alt_high =
          if-both (λ n. n ≤ℤ pos 7) (l.weak && differ) alt p.use_alt_on_weak (λ _. alt_ok.1)
            (λ _. t.alt_high);
    }

train-IsTrained :
    (p : Predictor) (pc : ℕ) (taken : Bool) (l : Lookup)
    → IsTrained p
    → IsTrained (train p pc taken l)
unfolding train
train-IsTrained p pc taken l t =
    let base = trained_base-Counts p pc taken t.base in
    elim (Option-cases (l.provider)) [
      | inl e ↦
          rw e
            (record { base = base; tagged = t.tagged; alt_low = t.alt_low; alt_high = t.alt_high })
      | inr (j, e) ↦ rw e (train_provider-IsTrained p taken l (trained_base p pc taken) j base t)
    ]

age-IsTrained : (p : Predictor) → IsTrained p → IsTrained (age p)
unfolding age
age-IsTrained p t =
    let updates = u32 (p.updates + 1) in
    if-both IsTrained (bit_and updates (2 ^ 18 - 1) == 0)
      (record p { updates = updates; tables = map (map halved) p.tables })
      (record p { updates = updates })
      (λ _. record {
        base = t.base;
        tagged = halved-Tables p.tables t.tagged;
        alt_low = t.alt_low;
        alt_high = t.alt_high;
      })
      (λ _. record { base = t.base; tagged = t.tagged; alt_low = t.alt_low; alt_high = t.alt_high })

allocate-IsTrained :
    (p : Predictor) (taken : Bool) (l : Lookup) (first_table : ℕ)
    → IsTrained p
    → IsTrained (allocate p taken l first_table)
unfolding allocate
allocate-IsTrained p taken l first_table t =
    let left = p.n_tables - first_table in
    elim (Option-cases (find_useless p.tables l.idx first_table left)) [
      | inl e ↦
          rw (e, allocate)
            (record {
              base = t.base;
              tagged = lower_all-Tables p.tables l.idx first_table left t.tagged;
              alt_low = t.alt_low;
              alt_high = t.alt_high;
            })
      | inr (first, e) ↦
          rw (e, allocate)
            (record {
              base = t.base;
              tagged = put_entry-Tables p.tables _ l.idx _ (new_entry-InRange taken _) t.tagged;
              alt_low = t.alt_low;
              alt_high = t.alt_high;
            })
    ]

tage_update-IsTrained :
    (p : Predictor) (pc : ℕ) (taken : Bool) (position : ℕ)
    → IsTrained p
    → IsTrained (tage_update p pc taken position)
unfolding tage_update
tage_update-IsTrained p pc taken position t =
    let l = tage_lookup p pc position in
    let p' = train p pc taken l in
    let t' = train-IsTrained p pc taken l t in
    let missed = not (same l.pred taken) && ltb (after_provider l) p.n_tables in
    age-IsTrained (if missed then allocate p' taken l (after_provider l) else p') (
      if-both IsTrained missed (allocate p' taken l (after_provider l)) p'
        (λ _. allocate-IsTrained p' taken l (after_provider l) t') (λ _. t'))

train_kind-IsTrained :
    (p : Predictor) (pc : ℕ) (taken : Bool) (pht_idx : ℕ) (before : Checkpoint) (k : Kind)
    → IsTrained p
    → IsTrained (train_kind p pc taken pht_idx before k)
train_kind-IsTrained p pc taken pht_idx before cond_branch t =
    let pht = set p.pht pht_idx (nudge_count (get_or p.pht pht_idx 0) taken 3) in
    if-both IsTrained (has_tage p) (tage_update p pc taken before.hist) (record p { pht = pht })
      (λ _. tage_update-IsTrained p pc taken before.hist t)
      (λ _. record {
        base =
            Counts-set p.pht pht_idx (nudge_count (get_or p.pht pht_idx 0) taken 3)
              (nudge_count-le (get_or p.pht pht_idx 0) taken (Counts-get_or p.pht pht_idx t.base))
              t.base;
        tagged = t.tagged;
        alt_low = t.alt_low;
        alt_high = t.alt_high;
      })
train_kind-IsTrained p pc taken pht_idx before uncond t = t
train_kind-IsTrained p pc taken pht_idx before call t = t
train_kind-IsTrained p pc taken pht_idx before ret t = t

btb_write-IsTrained :
    (p : Predictor) (pc : ℕ) (kind : Kind) (target : ℕ)
    → IsTrained p
    → IsTrained (btb_write p pc kind target)
unfolding btb_write btb_find
btb_write-IsTrained p pc kind target t =
    elim (Option-cases (find_way p.btb pc (set_base p pc) p.btb_ways)) [
      | inl e ↦
          rw (e, btb_find)
            (record {
              base = t.base;
              tagged = t.tagged;
              alt_low = t.alt_low;
              alt_high = t.alt_high;
            })
      | inr (_, e) ↦
          rw (e, btb_find)
            (record {
              base = t.base;
              tagged = t.tagged;
              alt_low = t.alt_low;
              alt_high = t.alt_high;
            })
    ]

-- Whatever branch resolves, and whichever way, the update leaves every direction counter of the
-- predictor in its range: the 2-bit counters of the base table at most 3, the signed counter of
-- each TAGE entry from -4 to 3 and its usefulness at most 3, and the count that trusts the
-- alternative prediction from -8 to 7, when they all were before.
pub update-IsTrained :
    (p : Predictor) (pc : ℕ) (ins : Instr) (taken : Bool) (target pht_idx : ℕ) (before : Checkpoint)
    → IsTrained p
    → IsTrained (update p pc ins taken target pht_idx before)
unfolding update
update-IsTrained p pc ins taken target pht_idx before t =
    let p' = train_kind p pc taken pht_idx before (kind_of ins) in
    let t' = train_kind-IsTrained p pc taken pht_idx before (kind_of ins) t in
    if-both IsTrained taken (btb_write p' pc (kind_of ins) target) p'
      (λ _. btb_write-IsTrained p' pc (kind_of ins) target t') (λ _. t')

pub make-IsTrained : (c : SimConfig) (hist_len : List ℕ) → IsTrained (make c hist_len)
unfolding make
make-IsTrained c hist_len = record {
  base = replicate-Counts (2 ^ c.pht_bits);
  tagged = replicate-Tables c.tage_tables (2 ^ c.tage_table_bits);
  alt_low = omega arith;
  alt_high = omega arith;
}
