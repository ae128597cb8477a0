-- ===== src/Core/Predictor/History.antt =====
-- core/predictor.cpp: the global history, as bits, and folded for each TAGE table.
use rv_o.Base.{
  ℕ, zero, suc, ◌+◌, ◌-◌, ◌*◌, ◌/◌, ◌%◌, ◌^◌, Bool, List, get_or, set, if◌then◌else◌, u16, u32,
  sub32, bit_and, bit_or, bit_xor,
}
use rv_o.Core.Predictor.State.{Predictor, has_tage}

abbrev pub bit_of : Bool → ℕ
bit_of b = if b then 1 else 0

-- `fold`: one bit enters and one leaves a history compressed to `width` bits.
unfoldable pub fold : ℕ → ℕ → ℕ → ℕ → ℕ → ℕ
fold comp in_bit out_bit len width =
    let c = bit_xor (u32 (comp * 2)) in_bit in
    let c' = bit_xor c (u32 (out_bit * 2 ^ (len % width))) in
    u16 (bit_and (bit_xor c' (c' / 2 ^ width)) (2 ^ width - 1))

-- Where `foldsAt(position)` begins.
abbrev pub folds_at : Predictor → ℕ → ℕ
folds_at p position = bit_and position p.ring_mask * p.n_tables * 3

-- The loop of `pushHistory` over the tables, from table `i` on; the new position is `now`.
unfoldable pub fold_tables : Predictor → Bool → ℕ → ℕ → ℕ → List ℕ → List ℕ
unfolding fold
fold_tables p taken now i zero folded = folded
fold_tables p taken now i (suc left) folded =
    let old = folds_at p p.hist_pos + 3 * i in
    let new = folds_at p now + 3 * i in
    let len = get_or p.hist_len i 0 in
    let out_bit = get_or p.hist_bits (bit_and (sub32 now len) p.ring_mask) 0 in
    let f0 = set folded new (fold (get_or folded old 0) (bit_of taken) out_bit len p.table_bits) in
    let f1 =
      set f0 (new + 1) (fold (get_or f0 (old + 1) 0) (bit_of taken) out_bit len p.tag_bits) in
    let f2 =
      set f1 (new + 2) (fold (get_or f1 (old + 2) 0) (bit_of taken) out_bit len (p.tag_bits - 1)) in
    fold_tables p taken now (i + 1) left f2

unfoldable pub push_history : Predictor → Bool → Predictor
unfolding fold_tables
push_history p taken =
    let now = u32 (p.hist_pos + 1) in
    let bits = set p.hist_bits (bit_and now p.ring_mask) (bit_of taken) in
    if has_tage p
    then record p {
      hist_pos = now;
      hist_bits = bits;
      folded = fold_tables (record p { hist_bits = bits }) taken now 0 p.n_tables p.folded;
    }
    else record p { ghr = bit_and (bit_or (u32 (p.ghr * 2)) (bit_of taken)) p.ghr_mask }
