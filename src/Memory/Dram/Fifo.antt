-- ===== src/Memory/Dram/Fifo.antt =====
-- memory/dram.cpp: main memory as a queue of answers.
use rv_o.Base.{
  ℕ, ◌+◌, ◌-◌, ◌^◌, ◌<◌, ◌≡◌, refl, sym, ap, ◌∙◌, arith, Bool-cases, inl, inr, true, if-both,
  Option, none, some, List, [], ◌∷◌, ◌++◌, map, leb, ◌==◌, u64, some_injective, subst,
}
use mathlib.Core.List.{append_assoc, append-nil}
use rv_o.Memory.{Memory}
use rv_o.Memory.Request.{MemRequest, MemResponse}
use rv_o.Memory.Dram.{Txn, Dram, make, perform, place, access, pop_response, deliver, tick}
use rv_o.Memory.Dram.Timing.{IsTimed, From, Until, access-some, access-IsTimed, tick-IsTimed}

-- The calls of a requester, with the responses that it was promised and those that it has taken.
pub data Run (backing : Memory) (latency : ℕ)
    : List MemResponse → List MemResponse → Dram → Type 0 where
  start : Run backing latency [] [] (make backing latency)
  accesses :
      {promised taken : List MemResponse} {d d' : Dram} (req : MemRequest) (r : MemResponse)
      (m : Memory)
      → Run backing latency promised taken d
      → perform d.backing req ≡ some (r, m)
      → access d req ≡ some d'
      → Run backing latency (promised ++ (r ∷ [])) taken d'
  pops :
      {promised taken : List MemResponse} {d d' : Dram} (r : MemResponse)
      → Run backing latency promised taken d
      → pop_response d ≡ some (r, d')
      → Run backing latency promised (taken ++ (r ∷ [])) d'
  ticks :
      {promised taken : List MemResponse} {d : Dram}
      → Run backing latency promised taken d
      → d.tick_count + d.latency < 2 ^ 64 - 1
      → Run backing latency promised taken (tick d)

abbrev pub response : Txn → MemResponse
response t = t.resp

-- The responses that the requester has not taken, oldest first.
abbrev pub owed : Dram → List MemResponse
owed d = d.resp_q ++ map response d.inflight

deliver-owed :
    (now : ℕ) (ts : List Txn) (rs : List MemResponse)
    → (deliver now ts rs).1 ++ map response (deliver now ts rs).0 ≡ rs ++ map response ts
unfolding deliver
deliver-owed now [] rs = refl
deliver-owed now (t ∷ ts) rs = elim (Bool-cases (leb t.ready_at now)) [
  | inl e ↦
      rw (e, deliver)
        (deliver-owed now ts (rs ++ (t.resp ∷ []))
          ∙ append_assoc rs (t.resp ∷ []) (map response ts))
  | inr e ↦ rw (e, deliver) refl
]

tick-owed : (d : Dram) → owed (tick d) ≡ owed d
unfolding tick
tick-owed d = deliver-owed (u64 (d.tick_count + 1)) d.inflight d.resp_q

map-append :
    (xs : List Txn) (t : Txn) → map response (xs ++ (t ∷ [])) ≡ map response xs ++ (t.resp ∷ [])
map-append [] t = refl
map-append (x ∷ xs) t = ap (◌∷◌ x.resp) (map-append xs t)

-- With latency 1 nothing waits, so an answer at once overtakes nothing.
none_waits : (d : Dram) → IsTimed d → d.latency ≡ 1 → d.inflight ≡ []
none_waits d t e = go d.inflight t.later t.in_time
  where
    go :
        (ts : List Txn)
        → From (d.tick_count + 1) ts
        → Until (d.tick_count + d.latency - 1) ts
        → ts ≡ []
    go [] f u = refl
    go (t ∷ ts) f u = absurd (omega (arith, f.0, u.0, e))

place-owed : (d : Dram) (r : MemResponse) → IsTimed d → owed (place d r) ≡ owed d ++ (r ∷ [])
place-owed d r t =
    if-both (λ (d' : Dram). owed d' ≡ owed d ++ (r ∷ [])) (d.latency == 1) _ _
      (λ e.
        let empty = none_waits d t (ground (arith, e)) in
        rw empty (
          append-nil (d.resp_q ++ (r ∷ []))
          ∙ ap (λ xs. xs ++ (r ∷ [])) (sym (append-nil d.resp_q))))
      (λ e.
        ap (λ xs. d.resp_q ++ xs) (map-append d.inflight _)
        ∙ sym (append_assoc d.resp_q (map response d.inflight) (r ∷ [])))

abbrev answer : Dram → List MemResponse → Option (MemResponse × Dram)
answer d [] = none
answer d (x ∷ xs) = some (x, record d { resp_q = xs })

pop_response-some :
    (d d' : Dram) (r : MemResponse)
    → pop_response d ≡ some (r, d')
    → (d.resp_q ≡ r ∷ d'.resp_q) × (d' ≡ record d { resp_q = d'.resp_q })
unfolding pop_response
pop_response-some d d' r e = go d.resp_q e
  where
    go :
        (q : List MemResponse)
        → answer d q ≡ some (r, d')
        → (q ≡ r ∷ d'.resp_q) × (d' ≡ record d { resp_q = d'.resp_q })
    go [] e = absurd (ground (arith, e))
    go (x ∷ xs) e =
        let pair = some_injective e in
        let state : record d { resp_q = xs } ≡ d' = ap (λ (z : MemResponse × Dram). z.1) pair in
        (
          ap (λ (z : MemResponse × Dram). z.0 ∷ z.1.resp_q) pair,
          sym state ∙ ap (λ (z : Dram). record d { resp_q = z.resp_q }) state,
        )

make-IsTimed : (backing : Memory) (latency : ℕ) → latency < 2 ^ 32 → IsTimed (make backing latency)
unfolding make
make-IsTimed backing latency h = record {
  latency = ground arith;
  later = tt;
  in_time = tt;
  clock = ground (arith, h);
}

pub Run-IsTimed :
    {backing : Memory} {latency : ℕ} {promised taken : List MemResponse} {d : Dram}
    → latency < 2 ^ 32
    → Run backing latency promised taken d
    → IsTimed d
Run-IsTimed {backing = backing} {latency = latency} h start = make-IsTimed backing latency h
Run-IsTimed h (accesses {d = d} {d' = d'} req r m run ok e) =
    access-IsTimed d d' req e (Run-IsTimed h run)
Run-IsTimed h (pops {d = d} {d' = d'} r run e) =
    let t = Run-IsTimed h run in
    subst IsTimed (sym (pop_response-some d d' r e).1)
      (record { latency = t.latency; later = t.later; in_time = t.in_time; clock = t.clock })
Run-IsTimed h (ticks {d = d} run room) = (tick-IsTimed d (Run-IsTimed h run) room).0

-- Whatever the requester does, in whatever cycles, the responses that it has taken, followed by
-- those that it has still to take, are those of the accepted requests, each once and in the order
-- of the requests, with what the memory held when the request was accepted. It supposes a 32-bit
-- latency.
pub taken-owed :
    {backing : Memory} {latency : ℕ} {promised taken : List MemResponse} {d : Dram}
    → latency < 2 ^ 32
    → Run backing latency promised taken d
    → promised ≡ taken ++ owed d
unfolding make
taken-owed h start = refl
taken-owed {taken = taken} h (accesses {promised = promised} {d = d} {d' = d'} req r m run ok e) =
    let (r', m', ok', at) = access-some d d' req e in
    let agree : r' ≡ r = ap (λ (z : MemResponse × Memory). z.0) (some_injective (sym ok' ∙ ok)) in
    let next = record d { accepted_this_cycle = true; backing = m' } in
    let t = Run-IsTimed h run in
    let timed : IsTimed next = record {
      latency = t.latency;
      later = t.later;
      in_time = t.in_time;
      clock = t.clock;
    } in
    ap (λ xs. xs ++ (r ∷ [])) (taken-owed h run)
    ∙ append_assoc taken (owed d) (r ∷ [])
    ∙ ap (λ xs. taken ++ xs)
        (ap (λ x. owed d ++ (x ∷ [])) (sym agree) ∙ sym (ap owed at ∙ place-owed next r' timed))
taken-owed h (pops {taken = taken} {d = d} {d' = d'} r run e) =
    let (front, rest) = pop_response-some d d' r e in
    taken-owed h run
    ∙ ap (λ q. taken ++ (q ++ map response d.inflight)) front
    ∙ sym (append_assoc taken (r ∷ []) (d'.resp_q ++ map response d.inflight))
    ∙ sym (ap (λ x. (taken ++ (r ∷ [])) ++ owed x) rest)
taken-owed {taken = taken} h (ticks {d = d} run room) =
    taken-owed h run ∙ ap (λ xs. taken ++ xs) (sym (tick-owed d))
