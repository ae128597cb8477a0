-- ===== src/Core/IssueQueue.antt =====
-- core/iq.h: the issue queue, as bitmaps over the slots of the reorder buffer.
pub mod Wakeup
pub mod Schedule
mod Tests
use rv_o.Base.{
  ℕ, zero, suc, ◌+◌, ◌-◌, ◌*◌, ◌/◌, ◌%◌, ◌^◌, Bool, true, false, ◌&&◌, ◌||◌, not, List, [], ◌∷◌,
  get_or, set, replicate, ltb, ◌==◌, if◌then◌else◌, Option, none, some, u32, sub32, bit_and, bit_or,
  bit_not,
}
use rv_o.Isa.{FuKind, no_unit}

-- `struct IqEntry`
pub record IqEntry : Type 0 where
  pub seq : ℕ
  pub rob_idx : ℕ
  pub lsq_idx : ℕ
  pub ps1 : ℕ
  pub ps2 : ℕ
  pub unit : FuKind
  pub valid : Bool

abbrev pub fresh_entry : IqEntry
fresh_entry = record {
  seq = 0;
  rob_idx = 0;
  lsq_idx = 0;
  ps1 = 0;
  ps2 = 0;
  unit = no_unit;
  valid = false;
}

-- `struct IssueQueue`; the bitmaps are vectors of 64-bit words.
pub record IssueQueue : Type 0 where
  pub e : List IqEntry
  pub capacity : ℕ
  pub words : ℕ
  pub occupied : List ℕ
  pub ready : List ℕ
  pub blocked1 : List ℕ
  pub blocked2 : List ℕ
  pub wait1 : List ℕ
  pub wait2 : List ℕ
  pub n : ℕ

unfoldable pub make : ℕ → ℕ → ℕ → IssueQueue
make capacity rob_size phys_regs =
    let words = (rob_size + 63) / 64 in
    record {
      e = replicate rob_size fresh_entry;
      capacity = capacity;
      words = words;
      occupied = replicate words 0;
      ready = replicate words 0;
      blocked1 = replicate words 0;
      blocked2 = replicate words 0;
      wait1 = replicate (phys_regs * words) 0;
      wait2 = replicate (phys_regs * words) 0;
      n = 0;
    }

unfoldable pub full : IssueQueue → Bool
full q = q.n == q.capacity

-- `map[w] |= bit` and `map[w] &= ~bit`
abbrev pub set_bit : List ℕ → ℕ → ℕ → List ℕ
set_bit map w bit = set map w (bit_or (get_or map w 0) bit)

abbrev pub clear_bit : List ℕ → ℕ → ℕ → List ℕ
clear_bit map w bit = set map w (bit_and (get_or map w 0) (bit_not 64 bit))

-- `none` is the null pointer.
unfoldable pub allocate : IssueQueue → ℕ → Option IssueQueue
unfolding full
allocate q rob_idx =
    if full q
    then none
    else some (record q {
      e = set q.e rob_idx (record fresh_entry { rob_idx = rob_idx; valid = true });
      occupied = set_bit q.occupied (rob_idx / 64) (2 ^ (rob_idx % 64));
      n = u32 (q.n + 1);
    })

-- `track` on the entry of slot `idx`.
unfoldable pub track : IssueQueue → ℕ → Bool → Bool → IssueQueue
track q idx ready1 ready2 =
    let w = idx / 64 in
    let bit = 2 ^ (idx % 64) in
    let entry = get_or q.e idx fresh_entry in
    record q {
      wait1 = if ready1 then q.wait1 else set_bit q.wait1 (entry.ps1 * q.words + w) bit;
      blocked1 = if ready1 then q.blocked1 else set_bit q.blocked1 w bit;
      wait2 = if ready2 then q.wait2 else set_bit q.wait2 (entry.ps2 * q.words + w) bit;
      blocked2 = if ready2 then q.blocked2 else set_bit q.blocked2 w bit;
      ready = if ready1 && ready2 then set_bit q.ready w bit else q.ready;
    }

unfoldable pub source_ready : IssueQueue → ℕ → Bool → Bool
source_ready q slot second =
    bit_and (get_or (if second then q.blocked2 else q.blocked1) (slot / 64) 0) (2 ^ (slot % 64))
    == 0

unfoldable pub release : IssueQueue → ℕ → IssueQueue
release q idx =
    let w = idx / 64 in
    let bit = 2 ^ (idx % 64) in
    let entry = get_or q.e idx fresh_entry in
    record q {
      wait1 =
          if bit_and (get_or q.blocked1 w 0) bit == 0
          then q.wait1
          else clear_bit q.wait1 (entry.ps1 * q.words + w) bit;
      wait2 =
          if bit_and (get_or q.blocked2 w 0) bit == 0
          then q.wait2
          else clear_bit q.wait2 (entry.ps2 * q.words + w) bit;
      blocked1 = clear_bit q.blocked1 w bit;
      blocked2 = clear_bit q.blocked2 w bit;
      occupied = clear_bit q.occupied w bit;
      ready = clear_bit q.ready w bit;
      e = set q.e idx (record entry { valid = false });
      n = sub32 q.n 1;
    }

-- One round of the loop of `wakeup`.
unfoldable pub wakeup_word : IssueQueue → ℕ → ℕ → IssueQueue
wakeup_word q preg w =
    let idx = preg * q.words + w in
    let first = get_or q.wait1 idx 0 in
    let second = get_or q.wait2 idx 0 in
    let blocked1 = bit_and (get_or q.blocked1 w 0) (bit_not 64 first) in
    let blocked2 = bit_and (get_or q.blocked2 w 0) (bit_not 64 second) in
    record q {
      wait1 = set q.wait1 idx 0;
      wait2 = set q.wait2 idx 0;
      blocked1 = set q.blocked1 w blocked1;
      blocked2 = set q.blocked2 w blocked2;
      ready = set q.ready w (
          bit_or (get_or q.ready w 0)
            (bit_and (bit_or first second) (bit_not 64 (bit_or blocked1 blocked2))));
    }

-- The rounds from word `w` on, with `left` to go.
unfoldable pub wakeup_from : IssueQueue → ℕ → ℕ → ℕ → IssueQueue
unfolding wakeup_word
wakeup_from q preg w zero = q
wakeup_from q preg w (suc left) = wakeup_from (wakeup_word q preg w) preg (w + 1) left

unfoldable pub wakeup : IssueQueue → ℕ → IssueQueue
unfolding wakeup_from
wakeup q preg = wakeup_from q preg 0 q.words
