-- ===== src/Core/Predictor.antt =====
-- core/predictor.h and core/predictor.cpp: the branch predictor.
pub mod State
pub mod Btb
pub mod History
pub mod Tage
pub mod Range
pub mod Trained
pub mod Sized
pub mod Rewind
pub mod Way
pub mod Target
pub mod Room
mod Tests
use rv_o.Base.{
  ℕ, zero, suc, ◌+◌, ◌-◌, ◌*◌, ◌/◌, ◌%◌, ◌^◌, Bool, true, false, ◌&&◌, not, List, [], get_or, set,
  replicate, length, ltb, leb, ◌==◌, if◌then◌else◌, Option, none, some, u32, sub32,
}
use rv_o.Base.Int.{pos}
use rv_o.Isa.{Instr}
use rv_o.Core.Rob.{Checkpoint}
use rv_o.Core.Predictor.State.{
  Kind, cond_branch, uncond, call, ret, BtbEntry, no_btb_entry, no_tage_entry, Predictor, kind_of,
  has_tage, pht_index,
}
use rv_o.Core.Predictor.Btb.{way, btb_find, btb_write, ras_push, ras_top}
use rv_o.Core.Predictor.History.{push_history}
use rv_o.Core.Predictor.Tage.{Lookup, tage_lookup, nudge_count, tage_update}
use rv_o.Sim.Config.{SimConfig}

-- `while (ring < need) ring <<= 1`, on fuel.
unfoldable pub grow_ring : ℕ → ℕ → ℕ → ℕ
grow_ring zero need ring = ring
grow_ring (suc fuel) need ring = elim (ltb ring need) [
  | true ↦ grow_ring fuel need (u32 (ring * 2))
  | false ↦ ring
]

-- What the ring of history bits must hold, in 32 bits.
abbrev pub ring_need : SimConfig → ℕ
ring_need c = u32 (c.tage_max_hist + 2 * (c.rob_size + c.fetch_q_size) + 64)

-- The constructor. The history lengths, which it computes by `lround` and `pow`, are an argument.
-- Without TAGE tables it leaves what belongs to them empty.
unfoldable pub make : SimConfig → List ℕ → Predictor
unfolding grow_ring
make c hist_len =
    let ring = if c.tage_tables == 0 then 0 else grow_ring 32 (ring_need c) 64 in
    record {
      ras_repair = c.ras_repair;
      pht = replicate (2 ^ c.pht_bits) 1;
      ghr = 0;
      ghr_mask = if c.ghr_bits == 0 then 0 else 2 ^ c.ghr_bits - 1;
      btb = replicate c.btb_entries no_btb_entry;
      btb_ways = c.btb_ways;
      btb_sets = c.btb_entries / c.btb_ways;
      btb_clock = 0;
      ras = replicate c.ras_entries 0;
      ras_n = 0;
      n_tables = c.tage_tables;
      table_bits = c.tage_table_bits;
      tag_bits = c.tage_tag_bits;
      hist_len = if c.tage_tables == 0 then [] else hist_len;
      tables = replicate c.tage_tables (replicate (2 ^ c.tage_table_bits) no_tage_entry);
      hist_bits = replicate ring 0;
      folded = replicate (ring * c.tage_tables * 3) 0;
      hist_pos = 0;
      ring_mask = ring - 1;
      use_alt_on_weak = pos 0;
      updates = 0;
      lfsr = 0xace1;
    }

-- `struct Pred`
pub record Pred : Type 0 where
  pub taken : Bool
  pub target : ℕ
  pub pht_idx : ℕ
  pub before : Checkpoint

unfoldable pub checkpoint : Predictor → Checkpoint
checkpoint p = record {
  hist = if has_tage p then p.hist_pos else p.ghr;
  ras_n = p.ras_n;
  ras_top = if p.ras_n == 0 then 0 else ras_top p;
}

-- A prediction with its effects, by the kind of the entry that was found.
unfoldable pub predict_kind : Predictor → Pred → ℕ → Kind → ℕ → Pred × Predictor
predict_kind p r pc cond_branch target =
    let taken =
      if has_tage p then (tage_lookup p pc p.hist_pos).pred else leb 2 (get_or p.pht r.pht_idx 0) in
    (record r { taken = taken; target = target }, push_history p taken)
predict_kind p r pc call target =
    (record r { taken = true; target = target }, ras_push p (u32 (pc + 4)))
predict_kind p r pc ret target =
    if ltb 0 p.ras_n
    then (record r { taken = true; target = ras_top p }, record p { ras_n = sub32 p.ras_n 1 })
    else (record r { taken = true; target = target }, p)
predict_kind p r pc uncond target = (record r { taken = true; target = target }, p)

-- The prediction of an unknown instruction: fall through.
abbrev pub fall_through : Predictor → ℕ → Pred
fall_through p pc = record {
  taken = false;
  target = 0;
  pht_idx = pht_index p pc;
  before = checkpoint p;
}

unfoldable pub predict : Predictor → ℕ → Pred × Predictor
unfolding checkpoint predict_kind
predict p pc =
    let r = fall_through p pc in
    let (found, p') = btb_find p pc in
    elim found [
      | none ↦ (r, p')
      | some i ↦ predict_kind p' r pc (way p'.btb i).kind (way p'.btb i).target
    ]

abbrev pub restore_history : Predictor → Checkpoint → Predictor
restore_history p cp =
    if has_tage p then record p { hist_pos = cp.hist } else record p { ghr = cp.hist }

abbrev pub restore_stack : Predictor → Checkpoint → Predictor
restore_stack p cp = record p {
  ras_n = cp.ras_n;
  ras = if cp.ras_n == 0 then p.ras else set p.ras (sub32 cp.ras_n 1 % length p.ras) cp.ras_top;
}

unfoldable pub restore : Predictor → Checkpoint → Predictor
restore p cp = let p' = restore_history p cp in if p.ras_repair then restore_stack p' cp else p'

abbrev pub replay_kind : Predictor → ℕ → Bool → Kind → Predictor
replay_kind p pc taken cond_branch = push_history p taken
replay_kind p pc taken call = if p.ras_repair then ras_push p (u32 (pc + 4)) else p
replay_kind p pc taken ret =
    if p.ras_repair && ltb 0 p.ras_n then record p { ras_n = sub32 p.ras_n 1 } else p
replay_kind p pc taken uncond = p

unfoldable pub replay : Predictor → ℕ → Instr → Bool → Predictor
replay p pc ins taken = replay_kind p pc taken (kind_of ins)

-- The training of the direction, for a conditional branch.
abbrev pub train_kind : Predictor → ℕ → Bool → ℕ → Checkpoint → Kind → Predictor
train_kind p pc taken pht_idx before cond_branch =
    if has_tage p
    then tage_update p pc taken before.hist
    else record p { pht = set p.pht pht_idx (nudge_count (get_or p.pht pht_idx 0) taken 3) }
train_kind p pc taken pht_idx before _ = p

unfoldable pub update : Predictor → ℕ → Instr → Bool → ℕ → ℕ → Checkpoint → Predictor
update p pc ins taken target pht_idx before =
    let p' = train_kind p pc taken pht_idx before (kind_of ins) in
    if taken then btb_write p' pc (kind_of ins) target else p'
