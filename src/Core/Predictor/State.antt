-- ===== src/Core/Predictor/State.antt =====
-- core/predictor.h: what the branch predictor keeps, and how it classifies instructions.
use rv_o.Base.{
  ℕ, ◌-◌, ◌/◌, Bool, true, false, ◌&&◌, not, List, length, ◌==◌, if◌then◌else◌, bit_and, bit_xor,
}
use rv_o.Base.Int.{ℤ, pos}
use rv_o.Isa.{Op, Instr, is_branch, jalr}

-- `enum Kind`
pub data Kind : Type 0 where
  cond_branch uncond call ret : Kind

pub record BtbEntry : Type 0 where
  pub valid : Bool
  pub kind : Kind
  pub pc : ℕ
  pub target : ℕ
  pub last_use : ℕ

abbrev pub no_btb_entry : BtbEntry
no_btb_entry = record { valid = false; kind = cond_branch; pc = 0; target = 0; last_use = 0 }

-- `struct TageEntry`; the counter is an `int8_t`.
pub record TageEntry : Type 0 where
  pub ctr : ℤ
  pub u : ℕ
  pub tag : ℕ

abbrev pub no_tage_entry : TageEntry
no_tage_entry = record { ctr = pos 0; u = 0; tag = 0 }

-- `class Predictor`. `ras_n` counts, and the stack is a ring.
pub record Predictor : Type 0 where
  pub ras_repair : Bool
  pub pht : List ℕ
  pub ghr : ℕ
  pub ghr_mask : ℕ
  pub btb : List BtbEntry
  pub btb_ways : ℕ
  pub btb_sets : ℕ
  pub btb_clock : ℕ
  pub ras : List ℕ
  pub ras_n : ℕ
  pub n_tables : ℕ
  pub table_bits : ℕ
  pub tag_bits : ℕ
  pub hist_len : List ℕ
  pub tables : List (List TageEntry)
  pub hist_bits : List ℕ
  pub folded : List ℕ
  pub hist_pos : ℕ
  pub ring_mask : ℕ
  pub use_alt_on_weak : ℤ
  pub updates : ℕ
  pub lfsr : ℕ

abbrev is_jalr : Op → Bool
is_jalr jalr = true
is_jalr _ = false

-- A call is a jump with `rd = ra`, a return is `jalr x0, 0(ra)`.
unfoldable pub kind_of : Instr → Kind
kind_of ins =
    if is_branch ins.op
    then cond_branch
    else if ins.rd == 1
    then call
    else if is_jalr ins.op && (ins.rd == 0 && ins.rs1 == 1)
    then ret
    else uncond

abbrev pub has_tage : Predictor → Bool
has_tage p = not (p.n_tables == 0)

unfoldable pub pht_index : Predictor → ℕ → ℕ
pht_index p pc = bit_and (bit_xor (pc / 4) (if has_tage p then 0 else p.ghr)) (length p.pht - 1)
