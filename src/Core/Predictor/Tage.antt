-- ===== src/Core/Predictor/Tage.antt =====
-- core/predictor.cpp: the TAGE tables.
use rv_o.Base.{
  ℕ, zero, suc, ◌+◌, ◌-◌, ◌*◌, ◌/◌, ◌%◌, ◌^◌, Bool, true, false, ◌&&◌, not, List, [], ◌∷◌, get_or,
  set, length, map, ltb, leb, ◌==◌, if◌then◌else◌, Option, none, some, u16, u32, sub32, bit_and,
  bit_xor, same,
}
use rv_o.Base.Int.{ℤ, pos, negsuc, ◌+ℤ◌, ◌-ℤ◌, ltb_ℤ}
use rv_o.Core.Predictor.State.{TageEntry, no_tage_entry, Predictor}
use rv_o.Core.Predictor.History.{folds_at}

-- `struct Lookup`, with the members `idx` and `tag` that `tageLookup` fills. A table number of -1,
-- the base table, is `none`.
pub record Lookup : Type 0 where
  pub provider : Option ℕ
  pub alt : Option ℕ
  pub provider_pred : Bool
  pub alt_pred : Bool
  pub pred : Bool
  pub weak : Bool
  pub idx : List ℕ
  pub tag : List ℕ

-- The table index and the tag of table `i`.
unfoldable pub table_index : Predictor → ℕ → ℕ → ℕ → ℕ
table_index p pc position i =
    let w = pc / 4 in
    bit_and
      (bit_xor (bit_xor w (w / 2 ^ (p.table_bits - i % p.table_bits)))
        (get_or p.folded (folds_at p position + 3 * i) 0))
      (2 ^ p.table_bits - 1)

unfoldable pub table_tag : Predictor → ℕ → ℕ → ℕ → ℕ
table_tag p pc position i =
    let f = folds_at p position + 3 * i in
    bit_and (bit_xor (bit_xor (pc / 4) (get_or p.folded (f + 1) 0)) (get_or p.folded (f + 2) 0 * 2))
      (2 ^ p.tag_bits - 1)

-- `f(i), f(i + 1), ...`, for the loop that fills `idx` and `tag`.
abbrev pub tabulate : (ℕ → ℕ) → ℕ → ℕ → List ℕ
tabulate f i zero = []
tabulate f i (suc left) = f i ∷ tabulate f (i + 1) left

abbrev pub entry_at : List (List TageEntry) → ℕ → List ℕ → TageEntry
entry_at tables j idx = get_or (get_or tables j []) (get_or idx j 0) no_tage_entry

-- The search from the longest history down: the first table with a match provides, and the next
-- one is the alternative. The argument counts the tables still to be asked.
unfoldable pub find_match : List (List TageEntry) → List ℕ → List ℕ → ℕ → Option ℕ
find_match tables idx tag zero = none
find_match tables idx tag (suc j) = elim ((entry_at tables j idx).tag == get_or tag j 0) [
  | true ↦ some j
  | false ↦ find_match tables idx tag j
]

-- `ctr >= 0`
abbrev pub leans_taken : ℤ → Bool
leans_taken c = not (ltb_ℤ c (pos 0))

abbrev pub is_weak : ℤ → Bool
is_weak (pos n) = n == 0
is_weak (negsuc n) = n == 0

abbrev pub pht_slot : Predictor → ℕ → ℕ
pht_slot p pc = bit_and (pc / 4) (length p.pht - 1)

unfoldable pub tage_lookup : Predictor → ℕ → ℕ → Lookup
unfolding table_index table_tag find_match
tage_lookup p pc position =
    let idx = tabulate (table_index p pc position) 0 p.n_tables in
    let tag = tabulate (table_tag p pc position) 0 p.n_tables in
    let base = leb 2 (get_or p.pht (pht_slot p pc) 0) in
    elim (find_match p.tables idx tag p.n_tables) [
      | none ↦ record {
        provider = none;
        alt = none;
        provider_pred = base;
        alt_pred = base;
        pred = base;
        weak = false;
        idx = idx;
        tag = tag;
      }
      | some j ↦
          let alt = find_match p.tables idx tag j in
          let alt_pred : Bool = elim alt [
            | none ↦ base
            | some k ↦ leans_taken (entry_at p.tables k idx).ctr
          ] in
          let c = (entry_at p.tables j idx).ctr in
          record {
            provider = some j;
            alt = alt;
            provider_pred = leans_taken c;
            alt_pred = alt_pred;
            pred = if is_weak c && leans_taken p.use_alt_on_weak then alt_pred else leans_taken c;
            weak = is_weak c;
            idx = idx;
            tag = tag;
          }
    ]

-- `nudge` on a signed counter, and on an unsigned one whose `lo` is 0.
unfoldable pub nudge : ℤ → Bool → ℤ → ℤ → ℤ
nudge c up lo hi =
    if up && ltb_ℤ c hi then c +ℤ pos 1 else if not up && ltb_ℤ lo c then c -ℤ pos 1 else c

unfoldable pub nudge_count : ℕ → Bool → ℕ → ℕ
nudge_count c up hi = if up && ltb c hi then c + 1 else if not up && ltb 0 c then c - 1 else c

abbrev pub put_entry : List (List TageEntry) → ℕ → List ℕ → TageEntry → List (List TageEntry)
put_entry tables j idx e = set tables j (set (get_or tables j []) (get_or idx j 0) e)

-- What table `j`, the provider, learns; `base` is the base table with its counter moved.
unfoldable pub train_provider : Predictor → Bool → Lookup → List ℕ → ℕ → Predictor
unfolding nudge nudge_count
train_provider p taken l base j =
    let e = entry_at p.tables j l.idx in
    let differ = not (same l.provider_pred l.alt_pred) in
    let unproven : Bool = elim (l.alt) [ none ↦ l.weak | some _ ↦ false ] in
    record p {
      use_alt_on_weak =
          if l.weak && differ
          then nudge p.use_alt_on_weak (same l.alt_pred taken) (negsuc 7) (pos 7)
          else p.use_alt_on_weak;
      tables = put_entry p.tables j l.idx (record e {
        u = if differ then nudge_count e.u (same l.provider_pred taken) 3 else e.u;
        ctr = nudge e.ctr taken (negsuc 3) (pos 3);
      });
      pht = if unproven then base else p.pht;
    }

-- The base table, its counter for `pc` moved towards the outcome.
unfoldable pub trained_base : Predictor → ℕ → Bool → List ℕ
unfolding nudge_count
trained_base p pc taken =
    set p.pht (pht_slot p pc) (nudge_count (get_or p.pht (pht_slot p pc) 0) taken 3)

-- What the provider, or the base table where there is none, learns.
unfoldable pub train : Predictor → ℕ → Bool → Lookup → Predictor
unfolding train_provider trained_base
train p pc taken l = elim (l.provider) [
  | none ↦ record p { pht = trained_base p pc taken }
  | some j ↦ train_provider p taken l (trained_base p pc taken) j
]

-- The loop for `first` and `second`: the first table from `j` on whose entry is not useful.
unfoldable pub find_useless : List (List TageEntry) → List ℕ → ℕ → ℕ → Option ℕ
find_useless tables idx j zero = none
find_useless tables idx j (suc left) = elim ((entry_at tables j idx).u == 0) [
  | true ↦ some j
  | false ↦ find_useless tables idx (j + 1) left
]

-- The loop that lowers the usefulness of every candidate.
unfoldable pub lower_all : List (List TageEntry) → List ℕ → ℕ → ℕ → List (List TageEntry)
lower_all tables idx j zero = tables
lower_all tables idx j (suc left) =
    let e = entry_at tables j idx in
    lower_all (if ltb 0 e.u then put_entry tables j idx (record e { u = e.u - 1 }) else tables) idx
      (j + 1) left

-- A misprediction earns an entry in a table from `first_table` on.
unfoldable pub allocate : Predictor → Bool → Lookup → ℕ → Predictor
unfolding find_useless lower_all
allocate p taken l first_table =
    let left = p.n_tables - first_table in
    let lfsr = bit_xor (p.lfsr / 2) (bit_and (sub32 0 (bit_and p.lfsr 1)) 0xb400) in
    elim (find_useless p.tables l.idx first_table left) [
      | none ↦ record p { lfsr = lfsr; tables = lower_all p.tables l.idx first_table left }
      | some first ↦
          let second = find_useless p.tables l.idx (first + 1) (p.n_tables - (first + 1)) in
          let j : ℕ = elim second [
            | none ↦ first
            | some k ↦ if bit_and lfsr 3 == 0 then k else first
          ] in
          record p {
            lfsr = lfsr;
            tables = put_entry p.tables j l.idx (record {
              ctr = if taken then pos 0 else negsuc 0;
              u = 0;
              tag = u16 (get_or l.tag j 0);
            });
          }
    ]

abbrev pub halved : TageEntry → TageEntry
halved e = record e { u = e.u / 2 }

-- The usefulness of every entry is halved once in `2 ^ 18` updates.
unfoldable pub age : Predictor → Predictor
age p =
    let updates = u32 (p.updates + 1) in
    if bit_and updates (2 ^ 18 - 1) == 0
    then record p { updates = updates; tables = map (map halved) p.tables }
    else record p { updates = updates }

-- `l.provider + 1`
abbrev pub after_provider : Lookup → ℕ
after_provider l = elim (l.provider) [ none ↦ 0 | some j ↦ j + 1 ]

unfoldable pub tage_update : Predictor → ℕ → Bool → ℕ → Predictor
unfolding tage_lookup train allocate age
tage_update p pc taken position =
    let l = tage_lookup p pc position in
    let p' = train p pc taken l in
    let missed = not (same l.pred taken) && ltb (after_provider l) p.n_tables in
    age (if missed then allocate p' taken l (after_provider l) else p')
