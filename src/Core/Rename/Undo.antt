-- ===== src/Core/Rename/Undo.antt =====
-- The walk of a recovery as a function on lists of entries.
use rv_o.Base.{
  ℕ, suc, ◌≤◌, ◌<◌, ◌≡◌, ◌≢◌, refl, ap, sym, arith, ◌==◌, leb, if◌then◌else◌, List, [], ◌∷◌, ◌++◌,
  get_or, set,
}
use rv_o.Core.Rob.{RobEntry, k_no_reg}

-- What squashing one entry does to the map.
abbrev pub undo_one : List ℕ → RobEntry → List ℕ
undo_one m e = if e.pdst == k_no_reg then m else set m e.ins.rd e.prev_phys

-- What squashing all of the entries, oldest first in the list, does to it: the youngest goes first.
abbrev pub undo : List ℕ → List RobEntry → List ℕ
undo m [] = m
undo m (e ∷ es) = undo_one (undo m es) e

-- The entries from sequence number `k` on.
abbrev pub from_seq : ℕ → List RobEntry → List RobEntry
from_seq k [] = []
from_seq k (e ∷ es) = if leb k e.seq then e ∷ from_seq k es else from_seq k es

-- The mappings that the entries displaced.
abbrev pub displaced : List RobEntry → List ℕ
displaced [] = []
displaced (e ∷ es) = if e.pdst == k_no_reg then displaced es else e.prev_phys ∷ displaced es

-- Each entry's destination is what the map held before the younger entries renamed.
abbrev pub Tracks : List ℕ → List RobEntry → Type 0
Tracks m [] = Unit
Tracks m (e ∷ es) =
    (e.pdst ≢ k_no_reg → (e.ins.rd < 32) × (get_or (undo m es) e.ins.rd 0 ≡ e.pdst)) × Tracks m es

-- Sequence numbers ascend from `lo` and stay below `hi`.
abbrev pub Ordered : ℕ → ℕ → List RobEntry → Type 0
Ordered lo hi [] = lo ≤ hi
Ordered lo hi (e ∷ es) = (lo ≤ e.seq) × Ordered (suc e.seq) hi es

pub undo-snoc :
    (m : List ℕ) (es : List RobEntry) (e : RobEntry)
    → undo m (es ++ e ∷ []) ≡ undo (undo_one m e) es
undo-snoc m [] e = refl
undo-snoc m (d ∷ es) e = ap (λ t. undo_one t d) (undo-snoc m es e)

pub from_seq-snoc :
    (k : ℕ) (es : List RobEntry) (e : RobEntry)
    → from_seq k (es ++ e ∷ []) ≡ (if leb k e.seq then from_seq k es ++ e ∷ [] else from_seq k es)
from_seq-snoc k [] e = ground arith
from_seq-snoc k (d ∷ es) e = ground (arith, from_seq-snoc k es e)

pub displaced-snoc :
    (es : List RobEntry) (e : RobEntry)
    → displaced (es ++ e ∷ [])
      ≡ (if e.pdst == k_no_reg then displaced es else displaced es ++ e.prev_phys ∷ [])
displaced-snoc [] e = ground arith
displaced-snoc (d ∷ es) e = ground (arith, displaced-snoc es e)

pub Tracks-snoc :
    (m : List ℕ) (es : List RobEntry) (e : RobEntry)
    → (e.pdst ≢ k_no_reg → (e.ins.rd < 32) × (get_or m e.ins.rd 0 ≡ e.pdst))
    → Tracks (undo_one m e) es
    → Tracks m (es ++ e ∷ [])
Tracks-snoc m [] e h t = (h, tt)
Tracks-snoc m (d ∷ es) e h t = (λ p. rw (undo-snoc m es e) (t.0 p), Tracks-snoc m es e h t.1)

pub Tracks-unsnoc :
    (m : List ℕ) (es : List RobEntry) (e : RobEntry)
    → Tracks m (es ++ e ∷ [])
    → (e.pdst ≢ k_no_reg → (e.ins.rd < 32) × (get_or m e.ins.rd 0 ≡ e.pdst))
      × Tracks (undo_one m e) es
Tracks-unsnoc m [] e t = (t.0, tt)
Tracks-unsnoc m (d ∷ es) e t =
    let rest = Tracks-unsnoc m es e t.1 in
    (rest.0, (λ p. rw (sym (undo-snoc m es e)) (t.0 p), rest.1))

pub Ordered-snoc :
    (lo hi : ℕ) (es : List RobEntry) (e : RobEntry)
    → Ordered lo hi es
    → hi ≤ e.seq
    → Ordered lo (suc e.seq) (es ++ e ∷ [])
Ordered-snoc lo hi [] e o h = (omega arith, omega arith)
Ordered-snoc lo hi (d ∷ es) e o h = (o.0, Ordered-snoc (suc d.seq) hi es e o.1 h)

pub Ordered-unsnoc :
    (lo hi : ℕ) (es : List RobEntry) (e : RobEntry)
    → Ordered lo hi (es ++ e ∷ [])
    → Ordered lo e.seq es × (e.seq < hi)
Ordered-unsnoc lo hi [] e o = (o.0, o.1)
Ordered-unsnoc lo hi (d ∷ es) e o =
    let rest = Ordered-unsnoc (suc d.seq) hi es e o.1 in ((o.0, rest.0), rest.1)

pub Ordered-weaken :
    (lo lo' hi hi' : ℕ) (es : List RobEntry)
    → lo' ≤ lo
    → hi ≤ hi'
    → Ordered lo hi es
    → Ordered lo' hi' es
Ordered-weaken lo lo' hi hi' [] p q o = omega arith
Ordered-weaken lo lo' hi hi' (e ∷ es) p q o =
    (omega arith, Ordered-weaken (suc e.seq) (suc e.seq) hi hi' es (omega arith) q o.1)

pub Ordered-le : (lo hi : ℕ) (es : List RobEntry) → Ordered lo hi es → lo ≤ hi
Ordered-le lo hi [] o = o
Ordered-le lo hi (e ∷ es) o = omega (arith, Ordered-le (suc e.seq) hi es o.1)

-- Below `k` nothing is from `k` on.
pub from_seq-none :
    (k lo hi : ℕ) (es : List RobEntry) → Ordered lo hi es → hi ≤ k → from_seq k es ≡ []
from_seq-none k lo hi [] o h = refl
from_seq-none k lo hi (e ∷ es) o h =
    ground (arith, Ordered-le (suc e.seq) hi es o.1, from_seq-none k (suc e.seq) hi es o.1 h)
