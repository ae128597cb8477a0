-- ===== src/Memory/Cache/Counted.antt =====
-- The occupied entries of a cache: their count, the searches for them, and the installs that wait.
use rv_o.Base.{
  ℕ, zero, suc, ◌+◌, ◌^◌, ◌≤◌, ◌<◌, ◌≡◌, ◌≢◌, refl, sym, ap, ◌∙◌, arith, Bool, true, false, ◌&&◌,
  none, some, List, [], ◌∷◌, get_or, set, length, get_or-set, get_or-set_ne, ltb, ◌==◌, if-both,
  Bool-cases, inl, inr, some_injective,
}
use rv_o.Memory.Cache.State.{Mshr, no_mshr, PendingInstall, Cache}
use rv_o.Memory.Cache.Lines.{free_mshr, mshr_for}
use rv_o.Memory.Cache.Owed.{valid_count}
use rv_o.Memory.Cache.{}

abbrev pub valid_at : List Mshr → ℕ → Bool
valid_at ms i = (get_or ms i no_mshr).valid

-- The install is for none of these.
abbrev pub NotIn : ℕ → List PendingInstall → Type 0
NotIn i [] = Unit
NotIn i (p ∷ ps) = (i ≢ p.mshr_idx) × NotIn i ps

-- Each install that waits for room is for an occupied entry, and for one of its own.
abbrev pub Pending : List Mshr → List PendingInstall → Type 0
Pending ms [] = Unit
Pending ms (p ∷ ps) = (valid_at ms p.mshr_idx ≡ true) × NotIn p.mshr_idx ps × Pending ms ps

-- The count of the misses is that of the occupied entries.
pub record IsCounted (c : Cache) : Type 0 where
  pub counted : c.pending_misses ≡ valid_count c.mshrs
  pub small : length c.mshrs < 2 ^ 32
  pub pending : Pending c.mshrs c.pending_installs

pub valid_count-le : (ms : List Mshr) → valid_count ms ≤ length ms
valid_count-le [] = omega arith
valid_count-le (m ∷ ms) = elim (Bool-cases (m.valid)) [
  | inl e ↦ rw e (omega (arith, valid_count-le ms))
  | inr e ↦ rw e (omega (arith, valid_count-le ms))
]

pub valid-length : (ms : List Mshr) (i : ℕ) → valid_at ms i ≡ true → i < length ms
valid-length [] i e = absurd (ground (arith, e))
valid-length (m ∷ ms) zero e = omega arith
valid-length (m ∷ ms) (suc i) e = omega (arith, valid-length ms i e)

-- A write to an entry that no install waits for, or that stays occupied.
pub Pending-set :
    (ms : List Mshr) (i : ℕ) (m : Mshr) (ps : List PendingInstall)
    → m.valid ≡ true
    → Pending ms ps
    → Pending (set ms i m) ps
Pending-set ms i m [] v h = tt
Pending-set ms i m (p ∷ ps) v h = (
  rw (get_or-set ms i p.mshr_idx m no_mshr, valid_at)
      (if-both (λ (x : Mshr). x.valid ≡ true) (i == p.mshr_idx && ltb i (length ms)) m
        (get_or ms p.mshr_idx no_mshr) (λ _. v) (λ _. h.0)),
  h.1,
  Pending-set ms i m ps v h.2,
)

pub Pending-free :
    (ms : List Mshr) (i : ℕ) (m : Mshr) (ps : List PendingInstall)
    → NotIn i ps
    → Pending ms ps
    → Pending (set ms i m) ps
Pending-free ms i m [] n h = tt
Pending-free ms i m (p ∷ ps) n h = (
  ap (λ (x : Mshr). x.valid) (get_or-set_ne ms i p.mshr_idx m no_mshr n.0) ∙ h.0,
  h.1,
  Pending-free ms i m ps n.1 h.2,
)

module _ (m : Mshr) (ms : List Mshr) (addr k : ℕ) where
  pub free_mshr-here : m.valid ≡ false → free_mshr (m ∷ ms) k ≡ some k
  unfolding free_mshr
  free_mshr-here e = rw (e, free_mshr) refl

  pub free_mshr-next : m.valid ≡ true → free_mshr (m ∷ ms) k ≡ free_mshr ms (k + 1)
  unfolding free_mshr
  free_mshr-next e = rw (e, free_mshr) refl

  pub mshr_for-here : m.valid && m.line_addr == addr ≡ true → mshr_for (m ∷ ms) addr k ≡ some k
  unfolding mshr_for
  mshr_for-here e = rw (e, mshr_for) refl

  pub mshr_for-next :
      m.valid && m.line_addr == addr ≡ false → mshr_for (m ∷ ms) addr k ≡ mshr_for ms addr (k + 1)
  unfolding mshr_for
  mshr_for-next e = rw (e, mshr_for) refl

-- What the searches find.
pub free_mshr-free :
    (ms : List Mshr) (k i : ℕ)
    → free_mshr ms k ≡ some i
    → (j : ℕ) × (i ≡ k + j) × (j < length ms) × (valid_at ms j ≡ false)
unfolding free_mshr
free_mshr-free [] k i e = absurd (ground (arith, e))
free_mshr-free (m ∷ ms) k i e = elim (Bool-cases (m.valid)) [
  | inl v ↦
      let (j, at, room, free) = free_mshr-free ms (k + 1) i (sym (free_mshr-next m ms 0 k v) ∙ e) in
      (suc j, omega (arith, at), omega (arith, room), free)
  | inr v ↦
      let at : k ≡ i = some_injective (sym (free_mshr-here m ms 0 k v) ∙ e) in
      (0, omega (arith, at), omega arith, v)
]

pub free_mshr-none : (ms : List Mshr) (k : ℕ) → free_mshr ms k ≡ none → valid_count ms ≡ length ms
free_mshr-none [] k e = refl
free_mshr-none (m ∷ ms) k e = elim (Bool-cases (m.valid)) [
  | inl v ↦
      let rest = free_mshr-none ms (k + 1) (sym (free_mshr-next m ms 0 k v) ∙ e) in
      rw v (omega (arith, rest))
  | inr v ↦ absurd (ground (arith, e, free_mshr-here m ms 0 k v))
]

pub mshr_for-valid :
    (ms : List Mshr) (addr k i : ℕ)
    → mshr_for ms addr k ≡ some i
    → (j : ℕ) × (i ≡ k + j) × (valid_at ms j ≡ true)
unfolding mshr_for
mshr_for-valid [] addr k i e = absurd (ground (arith, e))
mshr_for-valid (m ∷ ms) addr k i e = elim (Bool-cases (m.valid && m.line_addr == addr)) [
  | inl v ↦
      let at : k ≡ i = some_injective (sym (mshr_for-here m ms addr k v) ∙ e) in
      (0, omega (arith, at), ground (arith, v))
  | inr v ↦
      let (j, at, found) =
        mshr_for-valid ms addr (k + 1) i (sym (mshr_for-next m ms addr k v) ∙ e) in
      (suc j, omega (arith, at), found)
]
