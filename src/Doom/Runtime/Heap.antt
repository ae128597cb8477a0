-- ===== src/Doom/Runtime/Heap.antt =====
-- The blocks of the heap.
use rv_o.Base.{
  ℕ, ◌+◌, ◌-◌, ◌≤◌, ◌<◌, ◌≡◌, refl, arith, if-both, Option, none, some, ltb, ◌==◌, if◌then◌else◌,
}
use rv_o.Base.Int.{ℤ, pos, negsuc}
use rv_o.Doom.Runtime.{enomem, fail, Host, Runtime, sbrk}

-- Where the heap in use ends; before the first call nothing is in use.
abbrev pub end_of : Host → Runtime → ℕ
end_of h s = if s.top == 0 then h.heap_start else s.top

-- The heap in use ends inside the heap.
pub record IsHeap (h : Host) (s : Runtime) : Type 0 where
  pub start : 0 < h.heap_start
  pub low : h.heap_start ≤ end_of h s
  pub high : end_of h s ≤ h.heap_end

-- What an answer to a request means: a refusal leaves the heap in use as it was, and a block begins
-- where it ended and has the size that was asked for.
abbrev pub Granted : Host → Runtime → ℤ → Option ℕ × Runtime → Type 0
Granted h s a (none, s') = end_of h s' ≡ end_of h s
Granted h s a (some block, s') =
    (block ≡ end_of h s) × ((n : ℕ) × (a ≡ pos n) × (end_of h s' ≡ block + n))

settled : (h : Host) (s : Runtime) (n : ℕ) → 0 < n → end_of h (record s { top = n }) ≡ n
settled h s n p = ground (arith, p)

refused :
    (h : Host) (s : Runtime) (a : ℤ)
    → IsHeap h s
    → let r : Option ℕ × Runtime = fail (record s { top = end_of h s }) enomem in
      IsHeap h r.1 × Granted h s a r
refused h s a i =
    let e = settled h s (end_of h s) (omega (arith, i.start, i.low)) in
    (record { start = i.start; low = omega (arith, i.low, e); high = omega (arith, i.high, e) }, e)

-- A request for heap either gets a block of its size that begins where the heap in use ended, or
-- is refused and leaves the heap in use as it was; a negative request is refused. Either way the
-- heap in use still ends inside the heap. It supposes a heap above address 0 whose part in use ends
-- inside it.
pub sbrk-Granted :
    (h : Host) (s : Runtime) (a : ℤ)
    → IsHeap h s
    → IsHeap h (sbrk h s a).1 × Granted h s a (sbrk h s a)
unfolding sbrk
sbrk-Granted h s (negsuc n) i = refused h s (negsuc n) i
sbrk-Granted h s (pos n) i =
    let top = end_of h s in
    if-both (λ (r : Option ℕ × Runtime). IsHeap h r.1 × Granted h s (pos n) r)
      (ltb (h.heap_end - top) n) _ _ (λ _. refused h s (pos n) i)
      (λ fits.
        let e = settled h s (top + n) (omega (arith, i.start, i.low)) in
        (
          record {
            start = i.start;
            low = omega (arith, i.low, e);
            high = ground (arith, i.high, e, fits);
          },
          (refl, (n, refl, e)),
        ))
