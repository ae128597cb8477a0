-- ===== src/Core/Predictor/Range.antt =====
-- core/predictor.cpp: the ranges of the predictor's counters.
use rv_o.Base.{
  ℕ, zero, suc, ◌+◌, ◌-◌, ◌≤◌, arith, Bool, true, false, List, [], ◌∷◌, get_or, set, map, ltb,
  if◌then◌else◌, if-both, replicate,
}
use rv_o.Base.Int.{ℤ, pos, negsuc, ◌≤ℤ◌, ◌+ℤ◌, ◌-ℤ◌}
use rv_o.Core.Predictor.State.{TageEntry, no_tage_entry, Predictor}
use rv_o.Core.Predictor.Tage.{nudge, nudge_count, halved, lower_all, put_entry, entry_at}

-- A 3-bit signed counter and a 2-bit count.
pub record InRange (e : TageEntry) : Type 0 where
  pub low : negsuc 3 ≤ℤ e.ctr
  pub high : e.ctr ≤ℤ pos 3
  pub useful : e.u ≤ 3

abbrev pub Every : (TageEntry → Type 0) → List TageEntry → Type 0
Every P [] = Unit
Every P (e ∷ es) = P e × Every P es

abbrev pub Tables : List (List TageEntry) → Type 0
Tables [] = Unit
Tables (t ∷ ts) = Every InRange t × Tables ts

abbrev pub Counts : List ℕ → Type 0
Counts [] = Unit
Counts (n ∷ ns) = (n ≤ 3) × Counts ns

-- Every 2-bit and 3-bit counter of the direction predictor is in its range.
pub record IsTrained (p : Predictor) : Type 0 where
  pub base : Counts p.pht
  pub tagged : Tables p.tables
  pub alt_low : negsuc 7 ≤ℤ p.use_alt_on_weak
  pub alt_high : p.use_alt_on_weak ≤ℤ pos 7

pub nudge_bounds :
    (c : ℤ) (up : Bool) (lo hi : ℤ)
    → lo ≤ℤ c
    → c ≤ℤ hi
    → (lo ≤ℤ nudge c up lo hi) × (nudge c up lo hi ≤ℤ hi)
unfolding nudge ◌+ℤ◌ ◌-ℤ◌
nudge_bounds c up lo hi a b = ground arith

pub nudge_count-le : (c : ℕ) (up : Bool) → c ≤ 3 → nudge_count c up 3 ≤ 3
unfolding nudge_count
nudge_count-le c up h = ground arith

pub Counts-get_or : (ns : List ℕ) (i : ℕ) → Counts ns → get_or ns i 0 ≤ 3
Counts-get_or [] i h = omega arith
Counts-get_or (n ∷ ns) zero h = h.0
Counts-get_or (n ∷ ns) (suc i) h = Counts-get_or ns i h.1

pub Counts-set : (ns : List ℕ) (i v : ℕ) → v ≤ 3 → Counts ns → Counts (set ns i v)
Counts-set [] i v l h = tt
Counts-set (n ∷ ns) zero v l h = (l, h.1)
Counts-set (n ∷ ns) (suc i) v l h = (h.0, Counts-set ns i v l h.1)

pub Every-get_or :
    (es : List TageEntry) (i : ℕ) → Every InRange es → InRange (get_or es i no_tage_entry)
Every-get_or [] i h = omega arith
Every-get_or (e ∷ es) zero h = h.0
Every-get_or (e ∷ es) (suc i) h = Every-get_or es i h.1

pub Every-set :
    (es : List TageEntry) (i : ℕ) (e : TageEntry)
    → InRange e
    → Every InRange es
    → Every InRange (set es i e)
Every-set [] i e r h = tt
Every-set (x ∷ es) zero e r h = (r, h.1)
Every-set (x ∷ es) (suc i) e r h = (h.0, Every-set es i e r h.1)

pub Tables-get_or :
    (ts : List (List TageEntry)) (j : ℕ) → Tables ts → Every InRange (get_or ts j [])
Tables-get_or [] j h = tt
Tables-get_or (t ∷ ts) zero h = h.0
Tables-get_or (t ∷ ts) (suc j) h = Tables-get_or ts j h.1

pub Tables-set :
    (ts : List (List TageEntry)) (j : ℕ) (t : List TageEntry)
    → Every InRange t
    → Tables ts
    → Tables (set ts j t)
Tables-set [] j t e h = tt
Tables-set (x ∷ ts) zero t e h = (e, h.1)
Tables-set (x ∷ ts) (suc j) t e h = (h.0, Tables-set ts j t e h.1)

pub entry-InRange :
    (ts : List (List TageEntry)) (j : ℕ) (idx : List ℕ) → Tables ts → InRange (entry_at ts j idx)
entry-InRange ts j idx h = Every-get_or (get_or ts j []) (get_or idx j 0) (Tables-get_or ts j h)

pub put_entry-Tables :
    (ts : List (List TageEntry)) (j : ℕ) (idx : List ℕ) (e : TageEntry)
    → InRange e
    → Tables ts
    → Tables (put_entry ts j idx e)
put_entry-Tables ts j idx e r h =
    Tables-set ts j (set (get_or ts j []) (get_or idx j 0) e)
      (Every-set (get_or ts j []) (get_or idx j 0) e r (Tables-get_or ts j h)) h

pub lower_all-Tables :
    (ts : List (List TageEntry)) (idx : List ℕ) (j left : ℕ)
    → Tables ts
    → Tables (lower_all ts idx j left)
unfolding lower_all
lower_all-Tables ts idx j zero h = h
lower_all-Tables ts idx j (suc left) h =
    let e = entry_at ts j idx in
    let r = entry-InRange ts j idx h in
    let next = if ltb 0 e.u then put_entry ts j idx (record e { u = e.u - 1 }) else ts in
    let ok : Tables next =
      if-both Tables (ltb 0 e.u) (put_entry ts j idx (record e { u = e.u - 1 })) ts
        (λ _.
          put_entry-Tables ts j idx (record e { u = e.u - 1 })
            (record { low = r.low; high = r.high; useful = ground (arith, r.useful) }) h)
        (λ _. h) in
    lower_all-Tables next idx (j + 1) left ok

pub halved-InRange : (e : TageEntry) → InRange e → InRange (halved e)
halved-InRange e r = record { low = r.low; high = r.high; useful = ground (arith, r.useful) }

pub halved-Every : (es : List TageEntry) → Every InRange es → Every InRange (map halved es)
halved-Every [] h = tt
halved-Every (e ∷ es) h = (halved-InRange e h.0, halved-Every es h.1)

pub halved-Tables : (ts : List (List TageEntry)) → Tables ts → Tables (map (map halved) ts)
halved-Tables [] h = tt
halved-Tables (t ∷ ts) h = (halved-Every t h.0, halved-Tables ts h.1)

pub new_entry-InRange :
    (taken : Bool) (tag : ℕ)
    → InRange (record { ctr = if taken then pos 0 else negsuc 0; u = 0; tag = tag })
new_entry-InRange true tag = record { low = omega arith; high = omega arith; useful = omega arith }
new_entry-InRange false tag = record { low = omega arith; high = omega arith; useful = omega arith }

pub replicate-Counts : (n : ℕ) → Counts (replicate n 1)
replicate-Counts zero = tt
replicate-Counts (suc n) = (omega arith, replicate-Counts n)

pub no_tage_entry-InRange : InRange no_tage_entry
no_tage_entry-InRange = new_entry-InRange true 0

pub replicate-Every : (n : ℕ) → Every InRange (replicate n no_tage_entry)
replicate-Every zero = tt
replicate-Every (suc n) = (no_tage_entry-InRange, replicate-Every n)

pub replicate-Tables : (m n : ℕ) → Tables (replicate m (replicate n no_tage_entry))
replicate-Tables zero n = tt
replicate-Tables (suc m) n = (replicate-Every n, replicate-Tables m n)
