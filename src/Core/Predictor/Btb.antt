-- ===== src/Core/Predictor/Btb.antt =====
-- core/predictor.cpp: the branch target buffer and the return-address stack.
use rv_o.Base.{
  ℕ, zero, suc, ◌+◌, ◌*◌, ◌/◌, ◌%◌, Bool, true, false, ◌&&◌, List, get_or, set, length, ltb, ◌==◌,
  if◌then◌else◌, Option, none, some, u32, u64, sub32,
}
use rv_o.Core.Predictor.State.{Kind, BtbEntry, no_btb_entry, Predictor}

abbrev pub way : List BtbEntry → ℕ → BtbEntry
way btb i = get_or btb i no_btb_entry

-- `(pc >> 2) % btbSets * btbWays`, where the set begins.
abbrev pub set_base : Predictor → ℕ → ℕ
set_base p pc = pc / 4 % p.btb_sets * p.btb_ways

-- The way holds the entry of `pc`.
abbrev pub hit : List BtbEntry → ℕ → ℕ → Bool
hit btb pc i = (way btb i).valid && (way btb i).pc == pc

-- The loop of `btbFind` from index `i` on, with `left` ways to go.
unfoldable pub find_way : List BtbEntry → ℕ → ℕ → ℕ → Option ℕ
find_way btb pc i zero = none
find_way btb pc i (suc left) = elim (hit btb pc i) [
  | true ↦ some i
  | false ↦ find_way btb pc (i + 1) left
]

-- A way with its time of use set.
abbrev pub touch : Predictor → ℕ → Predictor
touch p i =
    let clock = u64 (p.btb_clock + 1) in
    record p { btb = set p.btb i (record (way p.btb i) { last_use = clock }); btb_clock = clock }

-- `btbFind`: where the entry is, and the state with its time of use.
unfoldable pub btb_find : Predictor → ℕ → Option ℕ × Predictor
unfolding find_way
btb_find p pc = elim (find_way p.btb pc (set_base p pc) p.btb_ways) [
  | none ↦ (none, p)
  | some i ↦ (some i, touch p i)
]

-- The loop of `update` that picks a way: the first free one, else the least recently used.
unfoldable pub victim : List BtbEntry → ℕ → ℕ → ℕ → ℕ
victim btb best i zero = best
victim btb best i (suc left) = elim ((way btb i).valid) [
  | false ↦ i
  | true ↦
      victim btb (if ltb (way btb i).last_use (way btb best).last_use then i else best) (i + 1) left
]

abbrev pub write_way : Predictor → ℕ → ℕ → Kind → ℕ → Predictor
write_way p i pc kind target =
    let clock = u64 (p.btb_clock + 1) in
    record p {
      btb =
          set p.btb i
            (record { valid = true; kind = kind; pc = pc; target = target; last_use = clock });
      btb_clock = clock;
    }

-- The way for `pc` after the search: the one that was found, else one to replace.
unfoldable pub way_for : Option ℕ × Predictor → ℕ → ℕ
unfolding victim
way_for (some i, p) pc = i
way_for (none, p) pc = victim p.btb (set_base p pc) (set_base p pc) p.btb_ways

-- The entry of `pc` is made new or refreshed, with this kind and target.
unfoldable pub btb_write : Predictor → ℕ → Kind → ℕ → Predictor
unfolding btb_find way_for
btb_write p pc kind target =
    let found = btb_find p pc in write_way found.1 (way_for found pc) pc kind target

-- `ras[rasN % ras.size()] = address; rasN++`
unfoldable pub ras_push : Predictor → ℕ → Predictor
ras_push p address = record p {
  ras = set p.ras (p.ras_n % length p.ras) address;
  ras_n = u32 (p.ras_n + 1);
}

-- The newest address, for `rasN` above 0.
unfoldable pub ras_top : Predictor → ℕ
ras_top p = get_or p.ras (sub32 p.ras_n 1 % length p.ras) 0
