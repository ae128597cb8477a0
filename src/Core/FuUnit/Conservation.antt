-- ===== src/Core/FuUnit/Conservation.antt =====
-- core/fu.h: the operations inside a functional unit, counted.
use rv_o.Base.{
  ℕ, zero, suc, ◌+◌, ◌^◌, ◌≤◌, ◌<◌, ◌≡◌, refl, ap, arith, Bool, true, false, not, ◌&&◌, List, [],
  ◌∷◌, length, length-set, get_or, set, ltb, ◌==◌, if◌then◌else◌, sub32, u64, Bool-cases, if-both,
  inl, inr,
}
use rv_o.Core.FuUnit.{
  FuOp, no_op, FuUnit, busy, can_accept, accept, tick_pipelined, tick_occupied, tick, doomed,
  flush_stages, flush_count, flush_younger,
}

-- One for each live entry.
abbrev alive : FuOp → ℕ
alive op = if op.valid then 1 else 0

abbrev total : List FuOp → ℕ
total [] = 0
total (op ∷ rest) = alive op + total rest

-- One for each live entry with sequence number `a`.
abbrev pub is : ℕ → FuOp → ℕ
is a op = if op.valid && op.seq == a then 1 else 0

abbrev pub among : ℕ → List FuOp → ℕ
among a [] = 0
among a (op ∷ rest) = is a op + among a rest

-- How often the instruction with sequence number `a` is in the unit.
abbrev pub inside : ℕ → FuUnit → ℕ
inside a u = (if u.pipelined then among a u.stages else is a u.cur) + is a u.out

total-set :
    (xs : List FuOp) (i : ℕ) (op : FuOp)
    → i < length xs
    → total (set xs i op) + alive (get_or xs i no_op) ≡ total xs + alive op
total-set [] i op h = absurd (omega arith)
total-set (x ∷ xs) zero op h = omega arith
total-set (x ∷ xs) (suc i) op h = omega (arith, total-set xs i op (omega arith))

among-set :
    (a : ℕ) (xs : List FuOp) (i : ℕ) (op : FuOp)
    → i < length xs
    → among a (set xs i op) + is a (get_or xs i no_op) ≡ among a xs + is a op
among-set a [] i op h = absurd (omega arith)
among-set a (x ∷ xs) zero op h = omega arith
among-set a (x ∷ xs) (suc i) op h = omega (arith, among-set a xs i op (omega arith))

total-le : (xs : List FuOp) → total xs ≤ length xs
total-le [] = omega arith
total-le (x ∷ xs) = ground (arith, total-le xs)

-- The counter of a pipelined unit counts the live stages; the other kind counts down.
pub record IsConsistent (u : FuUnit) : Type 0 where
  pub positive : 0 < u.latency
  pub small : u.latency < 2 ^ 31
  pub width : u.pipelined ≡ true → length u.stages ≡ u.latency
  pub slot_in : u.input_slot < u.latency
  pub counted : u.pipelined ≡ true → u.in_flight ≡ total u.stages
  pub running :
      u.pipelined ≡ false → u.cur.valid ≡ true → (0 < u.remaining) × (u.remaining ≤ u.latency)
  pub parked : u.pipelined ≡ false → u.cur.valid ≡ true → u.out.valid ≡ false

-- An accepted instruction, where the unit can accept one, is in the unit once more than before, and
-- the others are in it as before; the unit stays consistent.
accept-IsConsistent :
    (u : FuUnit) (op : FuOp)
    → IsConsistent u
    → can_accept u ≡ true
    → op.valid ≡ true
    → IsConsistent (accept u op) × ((a : ℕ) → inside a (accept u op) ≡ inside a u + is a op)
unfolding accept can_accept
accept-IsConsistent u op h c v = elim (Bool-cases u.pipelined) [
  | inl p ↦
      let grow = total-set u.stages u.input_slot op (omega (arith, h.width p, h.slot_in)) in
      let fits = total-le u.stages in
      (
        ground (arith, h, grow, fits, length-set u.stages u.input_slot op),
        λ a.
            ground (
              arith,
              h,
              among-set a u.stages u.input_slot op (omega (arith, h.width p, h.slot_in)),
            ),
      )
  | inr p ↦ (ground (arith, h), λ a. ground arith)
]

-- After a step from `u` the unit is consistent, and holds the same instructions.
abbrev pub Keeps : FuUnit → FuUnit × Bool → Type 0
Keeps u t = IsConsistent t.0 × ((a : ℕ) → inside a t.0 ≡ inside a u)

tick_pipelined-IsConsistent :
    (u : FuUnit) → IsConsistent u → u.pipelined ≡ true → Keeps u (tick_pipelined u)
unfolding tick_pipelined
tick_pipelined-IsConsistent u h p =
    let slot = if u.input_slot == 0 then sub32 u.latency 1 else sub32 u.input_slot 1 in
    let fits : slot < u.latency = ground (arith, h) in
    let last = get_or u.stages slot no_op in
    let last' : FuOp = record last { valid = false } in
    let in_range : slot < length u.stages = omega (arith, h.width p) in
    if-both (Keeps u) u.out.valid _ _ (λ o. (h, λ a. refl))
      (λ o.
        if-both (Keeps u) last.valid _ _
          (λ v. (
            ground (
              arith,
              h,
              fits,
              total-set u.stages slot last' in_range,
              total-le u.stages,
              length-set u.stages slot last',
            ),
            λ a. ground (arith, h, among-set a u.stages slot last' in_range),
          ))
          (λ v. (ground (arith, h, fits), λ a. ground arith)))

tick_occupied-IsConsistent :
    (u : FuUnit)
    → IsConsistent u
    → u.pipelined ≡ false
    → u.cur.valid ≡ true
    → Keeps u (tick_occupied u)
unfolding tick_occupied
tick_occupied-IsConsistent u h p c = (ground (arith, h), λ a. ground (arith, h))

flushed : (seq : ℕ) (xs : List FuOp) → length (flush_stages seq xs) ≡ length xs
flushed seq [] = refl
flushed seq (x ∷ xs) = ap suc (flushed seq xs)

flush_count-total :
    (seq : ℕ) (xs : List FuOp) (n : ℕ)
    → total xs ≤ n
    → n < 2 ^ 32
    → flush_count seq xs n + total xs ≡ n + total (flush_stages seq xs)
flush_count-total seq [] n l w = omega arith
flush_count-total seq (x ∷ xs) n l w = elim (Bool-cases (doomed seq x)) [
  | inl d ↦ ground (arith, flush_count-total seq xs (sub32 n 1) (ground arith) (ground arith))
  | inr d ↦ ground (arith, flush_count-total seq xs n (ground arith) w)
]

among-flush_stages :
    (seq a : ℕ) (xs : List FuOp)
    → among a (flush_stages seq xs) ≡ (if ltb seq a then 0 else among a xs)
among-flush_stages seq a [] = ground arith
among-flush_stages seq a (x ∷ xs) = ground (arith, among-flush_stages seq a xs)

-- A clock edge keeps the unit consistent, and every instruction that is in it stays in it, once: it
-- neither loses nor duplicates one.
pub tick-IsConsistent :
    (u : FuUnit)
    → IsConsistent u
    → IsConsistent (tick u).0 × ((a : ℕ) → inside a (tick u).0 ≡ inside a u)
unfolding tick busy
tick-IsConsistent u h =
    let c : FuUnit = record u { busy_cycles = u64 (u.busy_cycles + 1) } in
    let hc : IsConsistent c = ground (arith, h) in
    if-both (Keeps u) (not (busy u)) (u, false) _ (λ b. (h, λ a. refl))
      (λ b.
        if-both (Keeps u) u.pipelined _ _ (λ p. tick_pipelined-IsConsistent c hc p)
          (λ p. tick_occupied-IsConsistent c hc p (ground arith)))

-- A flush keeps the unit consistent, takes out every instruction younger than `seq`, and no other.
pub flush_younger-IsConsistent :
    (u : FuUnit) (seq : ℕ)
    → IsConsistent u
    → IsConsistent (flush_younger u seq)
      × ((a : ℕ) → inside a (flush_younger u seq) ≡ (if ltb seq a then 0 else inside a u))
unfolding flush_younger
flush_younger-IsConsistent u seq h = elim (Bool-cases u.pipelined) [
  | inl p ↦ (
    ground (
      arith,
      h,
      flushed seq u.stages,
      flush_count-total seq u.stages u.in_flight (ground (arith, h))
          (ground (arith, h, total-le u.stages)),
    ),
    λ a. ground (arith, among-flush_stages seq a u.stages),
  )
  | inr p ↦ (ground (arith, h), λ a. ground arith)
]
