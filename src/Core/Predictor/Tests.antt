-- ===== src/Core/Predictor/Tests.antt =====
-- Runs of the predictor.
use rv_o.Base.{ℕ, ◌+◌, ◌*◌, ◌≤◌, ◌≡◌, refl, arith, true, some, [], ◌∷◌, length, u32}
use rv_o.Isa.{Op, Instr, is_branch, jal, jalr, beq}
use rv_o.Sim.Config.{SimConfig, default_config}
use rv_o.Core.Rob.{Checkpoint}
use rv_o.Core.Predictor.State.{Predictor, kind_of}
use rv_o.Core.Predictor.Btb.{find_way, btb_write, ras_push}
use rv_o.Core.Predictor.{make, checkpoint, predict, restore, update}
use rv_o.Core.Predictor.Range.{IsTrained}
use rv_o.Core.Predictor.Trained.{make-IsTrained, update-IsTrained}
use rv_o.Core.Predictor.Sized.{sizes, run, predicts, replays}
use rv_o.Core.Predictor.Rewind.{restore-predict}
use rv_o.Core.Predictor.Target.{held, IsShaped, update-held, predict-call_ret}
use rv_o.Core.Predictor.Room.{make-room}

abbrev small : SimConfig
small = record default_config {
  pht_bits = 1;
  ghr_bits = 1;
  btb_entries = 2;
  btb_ways = 1;
  ras_entries = 2;
  ras_repair = true;
  tage_tables = 0;
}

abbrev tagged : SimConfig
tagged = record default_config { tage_tables = 2 }

abbrev branch : Op → ℕ → ℕ → Instr
branch op rd rs1 = record { op = op; rd = rd; rs1 = rs1; rs2 = 0; imm = 0; raw = 0 }

abbrev at_start : Checkpoint
at_start = record { hist = 0; ras_n = 0; ras_top = 0 }

update-IsTrained_example :
    IsTrained (update (make tagged (4 ∷ 128 ∷ [])) 0x100 (branch beq 0 0) true 0x80 0 at_start)
update-IsTrained_example =
    update-IsTrained (make tagged (4 ∷ 128 ∷ [])) 0x100 (branch beq 0 0) true 0x80 0 at_start
      (make-IsTrained tagged (4 ∷ 128 ∷ []))

restore-predict_example :
    checkpoint (
      restore
        (run
          (predict (make small []) 0x100).1
          (replays 0x100 (branch jal 1 0) true ∷ predicts 0x200 ∷ []))
        (predict (make small []) 0x100).0.before)
    ≡ checkpoint (make small [])
unfolding make
restore-predict_example =
    restore-predict (make small []) 0x100
      (replays 0x100 (branch jal 1 0) true ∷ predicts 0x200 ∷ []) refl (omega arith)

small-IsShaped : IsShaped (sizes (make small []))
unfolding make
small-IsShaped = record { ways = omega arith; sets = omega arith; room = omega arith }

update-held_example :
    held (update (make small []) 0x100 (branch jal 1 0) true 0x200 0 at_start) 0x100
    ≡ some (kind_of (branch jal 1 0), 0x200)
update-held_example =
    update-held (make small []) 0x100 (branch jal 1 0) 0x200 0 at_start small-IsShaped

-- The predictor after a call and a return have resolved.
abbrev trained : Predictor
trained =
    update (update (make small []) 0x100 (branch jal 1 0) true 0x200 0 at_start) 0x204
      (branch jalr 0 1) true 0x300 0 at_start

predict-call_ret_example :
    let (called, p') = predict trained 0x100 in
    let (returned, p'') = predict p' 0x204 in
    (called.target ≡ 0x200)
    × (returned.taken ≡ true)
    × (returned.target ≡ u32 (0x100 + 4))
    × (p''.ras_n ≡ trained.ras_n)
unfolding held make update predict find_way btb_write kind_of is_branch ras_push
predict-call_ret_example =
    predict-call_ret trained 0x100 0x204 0x200 0x300 refl refl (omega arith) (omega arith)

make-room_example :
    let p = make tagged [] in
    (tagged.tage_max_hist + 2 * (tagged.rob_size + tagged.fetch_q_size) + 64 ≤ length p.hist_bits)
    × (length p.hist_bits
        ≤ 2 * (tagged.tage_max_hist + 2 * (tagged.rob_size + tagged.fetch_q_size) + 64))
    × (p.ring_mask + 1 ≡ length p.hist_bits)
    × (length p.folded ≡ length p.hist_bits * tagged.tage_tables * 3)
make-room_example = make-room tagged [] (omega arith) (omega arith)
