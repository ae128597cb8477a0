-- ===== src/Core/FuUnit.antt =====
-- core/fu.h: a functional unit of fixed latency, pipelined or not.
pub mod Conservation
mod Tests
use rv_o.Base.{
  ℕ, zero, suc, ◌+◌, ◌-◌, Bool, true, false, ◌&&◌, not, List, [], ◌∷◌, get_or, set, replicate, ltb,
  ◌==◌, if◌then◌else◌, u64, u32, sub32,
}
use rv_o.Core.Rob.{k_no_reg}

-- `struct FuOp`
pub record FuOp : Type 0 where
  pub seq : ℕ
  pub rob_idx : ℕ
  pub value : ℕ
  pub lsq_idx : ℕ
  pub target : ℕ
  pub pdst : ℕ
  pub valid : Bool
  pub redirect : Bool

abbrev pub no_op : FuOp
no_op = record {
  seq = 0;
  rob_idx = 0;
  value = 0;
  lsq_idx = 0;
  target = 0;
  pdst = k_no_reg;
  valid = false;
  redirect = false;
}

-- `struct FuUnit`, less its name
pub record FuUnit : Type 0 where
  pub latency : ℕ
  pub pipelined : Bool
  pub stages : List FuOp
  pub cur : FuOp
  pub remaining : ℕ
  pub out : FuOp
  pub ops : ℕ
  pub busy_cycles : ℕ
  pub input_slot : ℕ
  pub in_flight : ℕ

unfoldable pub make : ℕ → Bool → FuUnit
make latency pipelined = record {
  latency = latency;
  pipelined = pipelined;
  stages = if pipelined then replicate latency no_op else [];
  cur = no_op;
  remaining = 0;
  out = no_op;
  ops = 0;
  busy_cycles = 0;
  input_slot = 0;
  in_flight = 0;
}

unfoldable pub busy : FuUnit → Bool
busy u = if u.pipelined then not (u.in_flight == 0) else u.cur.valid

unfoldable pub can_accept : FuUnit → Bool
can_accept u =
    if u.pipelined
    then not (get_or u.stages u.input_slot no_op).valid
    else not u.cur.valid && not u.out.valid

unfoldable pub accept : FuUnit → FuOp → FuUnit
accept u op =
    if u.pipelined
    then record u {
      ops = u64 (u.ops + 1);
      stages = set u.stages u.input_slot op;
      in_flight = u32 (u.in_flight + 1);
    }
    else record u { ops = u64 (u.ops + 1); cur = op; remaining = u.latency }

-- The pipelined half of a clock edge, with the busy cycle counted.
unfoldable pub tick_pipelined : FuUnit → FuUnit × Bool
tick_pipelined u =
    let slot = if u.input_slot == 0 then sub32 u.latency 1 else sub32 u.input_slot 1 in
    let last = get_or u.stages slot no_op in
    if u.out.valid
    then (u, false)
    else if last.valid
    then (
      record u {
        input_slot = slot;
        out = last;
        stages = set u.stages slot (record last { valid = false });
        in_flight = sub32 u.in_flight 1;
      },
      true,
    )
    else (record u { input_slot = slot }, false)

-- The other half.
unfoldable pub tick_occupied : FuUnit → FuUnit × Bool
tick_occupied u =
    let left = sub32 u.remaining 1 in
    if left == 0
    then (record u { remaining = left; out = u.cur; cur = record u.cur { valid = false } }, true)
    else (record u { remaining = left }, false)

-- The unit after a clock edge, and whether a new output is ready.
unfoldable pub tick : FuUnit → FuUnit × Bool
tick u =
    let counted = record u { busy_cycles = u64 (u.busy_cycles + 1) } in
    if not (busy u)
    then (u, false)
    else if u.pipelined
    then tick_pipelined counted
    else tick_occupied counted

-- Is the op valid and younger?
abbrev pub doomed : ℕ → FuOp → Bool
doomed seq op = op.valid && ltb seq op.seq

abbrev pub killed : ℕ → FuOp → FuOp
killed seq op = if doomed seq op then record op { valid = false } else op

-- The loop of `flushYounger` over the stages, and what it leaves of `inFlight`.
abbrev pub flush_stages : ℕ → List FuOp → List FuOp
flush_stages seq [] = []
flush_stages seq (op ∷ rest) = killed seq op ∷ flush_stages seq rest

abbrev pub flush_count : ℕ → List FuOp → ℕ → ℕ
flush_count seq [] n = n
flush_count seq (op ∷ rest) n = flush_count seq rest (if doomed seq op then sub32 n 1 else n)

unfoldable pub flush_younger : FuUnit → ℕ → FuUnit
flush_younger u seq = record u {
  stages = flush_stages seq u.stages;
  in_flight = flush_count seq u.stages u.in_flight;
  cur = killed seq u.cur;
  remaining = if doomed seq u.cur then 0 else u.remaining;
  out = killed seq u.out;
}
