-- ===== src/Memory/Dram/Timing.antt =====
-- memory/dram.cpp: the clock of main memory.
use rv_o.Base.{
  ℕ, ◌+◌, ◌-◌, ◌^◌, ◌≤◌, ◌<◌, ◌≡◌, refl, sym, ap, ap₂, ◌∙◌, arith, Bool-cases, if-both, inl, inr,
  true, false, Option-cases, Option, none, some, List, [], ◌∷◌, ◌++◌, leb, ltb, ◌==◌, u64,
  if◌then◌else◌, some_injective, subst,
}
use mathlib.Core.List.{append_assoc, append-nil}
use rv_o.Memory.{Memory}
use rv_o.Memory.Request.{MemRequest, MemResponse}
use rv_o.Memory.Dram.{Txn, Dram, perform, place, access, deliver, tick}

-- In the order of their cycles, none before `lo`.
abbrev pub From : ℕ → List Txn → Type 0
From lo [] = Unit
From lo (t ∷ ts) = (lo ≤ t.ready_at) × From t.ready_at ts

-- None after `hi`.
abbrev pub Until : ℕ → List Txn → Type 0
Until hi [] = Unit
Until hi (t ∷ ts) = (t.ready_at ≤ hi) × Until hi ts

-- What is in flight is due in a later cycle, in order, and within the latency; the clock has room.
pub record IsTimed (d : Dram) : Type 0 where
  pub latency : 0 < d.latency
  pub later : From (d.tick_count + 1) d.inflight
  pub in_time : Until (d.tick_count + d.latency - 1) d.inflight
  pub clock : d.tick_count + d.latency < 2 ^ 64

-- Those due in the cycle `now`, and those due after it.
abbrev pub due : ℕ → List Txn → List MemResponse
due now [] = []
due now (t ∷ ts) = if t.ready_at == now then t.resp ∷ due now ts else due now ts

abbrev pub after : ℕ → List Txn → List Txn
after now [] = []
after now (t ∷ ts) = if ltb now t.ready_at then t ∷ after now ts else after now ts

From-weaken : (ts : List Txn) (lo lo' : ℕ) → lo' ≤ lo → From lo ts → From lo' ts
From-weaken [] lo lo' h f = tt
From-weaken (t ∷ ts) lo lo' h f = (omega (arith, f.0), f.1)

Until-weaken : (ts : List Txn) (hi hi' : ℕ) → hi ≤ hi' → Until hi ts → Until hi' ts
Until-weaken [] hi hi' h u = tt
Until-weaken (t ∷ ts) hi hi' h u = (omega (arith, u.0), Until-weaken ts hi hi' h u.1)

-- Nothing is due when all come later.
none_due : (ts : List Txn) (now : ℕ) → From (now + 1) ts → (due now ts ≡ []) × (after now ts ≡ ts)
none_due [] now f = (refl, refl)
none_due (t ∷ ts) now f =
    let (a, b) = none_due ts now (From-weaken ts t.ready_at (now + 1) f.0 f.1) in
    (ground (arith, f.0, a), ground (arith, f.0, b))

-- Of a queue in order, the loop takes those that are due.
deliver-due :
    (ts : List Txn) (rs : List MemResponse) (now : ℕ)
    → From now ts
    → deliver now ts rs ≡ (after now ts, rs ++ due now ts)
unfolding deliver
deliver-due [] rs now f = ap (λ xs. ([], xs)) (sym (append-nil rs))
deliver-due (t ∷ ts) rs now f = elim (Bool-cases (leb t.ready_at now)) [
  | inl e ↦
      let rest = deliver-due ts (rs ++ (t.resp ∷ [])) now (From-weaken ts t.ready_at now f.0 f.1) in
      let now_due : (t.ready_at == now) ≡ true = ground (arith, e, f.0) in
      let not_after : ltb now t.ready_at ≡ false = ground (arith, e) in
      rw (e, deliver)
        (rest
          ∙ ap₂ (λ xs ys. (xs, ys))
              (sym (ap (λ b. if b then t ∷ after now ts else after now ts) not_after))
              (append_assoc rs (t.resp ∷ []) (due now ts)
                ∙ ap (λ b. rs ++ (if b then t.resp ∷ due now ts else due now ts)) (sym now_due)))
  | inr e ↦
      let (none_now, all_after) = none_due (t ∷ ts) now (ground (arith, e), f.1) in
      rw (e, deliver)
        (ap₂ (λ xs ys. (xs, ys)) (sym all_after)
          (sym (ap (λ xs. rs ++ xs) none_now ∙ append-nil rs)))
]

after-From : (ts : List Txn) (now : ℕ) → From now ts → From (now + 1) (after now ts)
after-From [] now f = tt
after-From (t ∷ ts) now f =
    if-both (From (now + 1)) (ltb now t.ready_at) (t ∷ after now ts) (after now ts)
      (λ e. (
        ground (arith, e),
        subst (From t.ready_at)
            (sym (none_due ts now (From-weaken ts t.ready_at (now + 1) (ground (arith, e)) f.1)).1)
            f.1,
      ))
      (λ e. after-From ts now (From-weaken ts t.ready_at now f.0 f.1))

after-Until : (ts : List Txn) (now hi : ℕ) → Until hi ts → Until hi (after now ts)
after-Until [] now hi u = tt
after-Until (t ∷ ts) now hi u =
    if-both (Until hi) (ltb now t.ready_at) (t ∷ after now ts) (after now ts)
      (λ _. (u.0, after-Until ts now hi u.1)) (λ _. after-Until ts now hi u.1)

-- A clock edge of a memory whose requests are in order moves to the responses exactly those that
-- are due in the new cycle, in order, and leaves the later ones; the rest is in order again, due in
-- a later cycle and within the latency. It supposes that the 64-bit clock has room.
pub tick-IsTimed :
    (d : Dram)
    → IsTimed d
    → d.tick_count + d.latency < 2 ^ 64 - 1
    → IsTimed (tick d)
      × ((tick d).resp_q ≡ d.resp_q ++ due (d.tick_count + 1) d.inflight)
      × ((tick d).inflight ≡ after (d.tick_count + 1) d.inflight)
unfolding tick
tick-IsTimed d t h =
    let now : u64 (d.tick_count + 1) ≡ d.tick_count + 1 = omega (arith, h) in
    let moved =
      ap (λ n. deliver n d.inflight d.resp_q) now
      ∙ deliver-due d.inflight d.resp_q (d.tick_count + 1) t.later in
    let left = ap (λ (x : List Txn × List MemResponse). x.0) moved in
    (
      record {
        latency = t.latency;
        later =
            subst (λ n. From (n + 1) (tick d).inflight) (sym now)
              (subst (From (d.tick_count + 1 + 1)) (sym left)
                (after-From d.inflight (d.tick_count + 1) t.later));
        in_time =
            subst (λ n. Until (n + d.latency - 1) (tick d).inflight) (sym now)
              (Until-weaken (tick d).inflight (d.tick_count + d.latency - 1)
                (d.tick_count + 1 + d.latency - 1) (omega arith)
                (subst (Until (d.tick_count + d.latency - 1)) (sym left) (
                  after-Until d.inflight (d.tick_count + 1) (d.tick_count + d.latency - 1)
                    t.in_time)));
        clock = omega (arith, h, t.latency);
      },
      ap (λ (x : List Txn × List MemResponse). x.1) moved,
      left,
    )

From-append :
    (ts : List Txn) (t : Txn) (lo hi : ℕ)
    → From lo ts
    → Until hi ts
    → lo ≤ t.ready_at
    → hi ≤ t.ready_at
    → From lo (ts ++ (t ∷ []))
From-append [] t lo hi f u l h = (l, tt)
From-append (x ∷ xs) t lo hi f u l h =
    (f.0, From-append xs t x.ready_at hi f.1 u.1 (omega (arith, u.0, h)) h)

Until-append :
    (ts : List Txn) (t : Txn) (hi : ℕ) → Until hi ts → t.ready_at ≤ hi → Until hi (ts ++ (t ∷ []))
Until-append [] t hi u h = (h, tt)
Until-append (x ∷ xs) t hi u h = (u.0, Until-append xs t hi u.1 h)

place-IsTimed : (d : Dram) (r : MemResponse) → IsTimed d → IsTimed (place d r)
place-IsTimed d r t =
    let ready = u64 (d.tick_count + d.latency - 1) in
    let fits : ready ≡ d.tick_count + d.latency - 1 = omega (arith, t.clock) in
    if-both IsTimed (d.latency == 1) _ _
      (λ _. record { latency = t.latency; later = t.later; in_time = t.in_time; clock = t.clock })
      (λ e. record {
        latency = t.latency;
        later =
            From-append d.inflight (record { resp = r; ready_at = ready }) (d.tick_count + 1)
              (d.tick_count + d.latency - 1) t.later t.in_time (ground (arith, e, t.latency, fits))
              (omega (arith, fits));
        in_time =
            Until-append d.inflight (record { resp = r; ready_at = ready })
              (d.tick_count + d.latency - 1) t.in_time (omega (arith, fits));
        clock = t.clock;
      })

-- An access that is no fatal error places the response of `perform`.
pub access-some :
    (d d' : Dram) (req : MemRequest)
    → access d req ≡ some d'
    → (r : MemResponse) × (m : Memory) × (perform d.backing req ≡ some (r, m))
      × (d' ≡ place (record d { accepted_this_cycle = true; backing = m }) r)
unfolding access
access-some d d' req e = elim (Option-cases (perform d.backing req)) [
  | inl failed ↦ absurd (ground (arith, e, failed))
  | inr ((r, m), ok) ↦
      let placed : Option (MemResponse × Memory) → Option Dram = λ o. elim o [
        | none ↦ none
        | some (r, m) ↦ some (place (record d { accepted_this_cycle = true; backing = m }) r)
      ] in
      (r, m, ok, some_injective (sym e ∙ ap placed ok))
]

pub access-IsTimed :
    (d d' : Dram) (req : MemRequest) → access d req ≡ some d' → IsTimed d → IsTimed d'
access-IsTimed d d' req e t =
    let (r, m, ok, at) = access-some d d' req e in
    subst IsTimed (sym at) (
      place-IsTimed (record d { accepted_this_cycle = true; backing = m }) r
        (record { latency = t.latency; later = t.later; in_time = t.in_time; clock = t.clock }))
