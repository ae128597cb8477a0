-- ===== src/Core/Lsq/Steps.antt =====
-- core/lsq.h: the states of the load-store queue in a run.
use rv_o.Base.{
  ℕ, ◌+◌, ◌/◌, ◌%◌, ◌^◌, ◌≤◌, ◌<◌, ◌≡◌, arith, Bool, true, false, ◌||◌, some, subst, ◌==◌, u32,
  sub32, Bool-cases, inl, inr, get_or,
}
use rv_o.Core.Ring
use rv_o.Core.Ring.{index_of, nth}
use rv_o.Core.SlotSet.Member.{member}
use rv_o.Core.Lsq.{
  fresh, Lsq, make, at, issue_load, complete_load, pop_head, overlaps, may_store_to_word,
  word_bucket, last_byte,
}
use rv_o.Core.Lsq.Tracks.{Tracks-member}
use rv_o.Core.Lsq.Counts.{number-nth, hits, word_bucket-mod}
use rv_o.Core.Lsq.Invariant.{candidate, known, sound, IsTracked}
use rv_o.Core.Lsq.Use.{Dispatched, dispatch, fill_address, respond, update, squash}
use rv_o.Core.Lsq.Loads.{issue_load-IsTracked, complete_load-IsTracked}
use rv_o.Core.Lsq.Ends.{pop_head-IsTracked}
use rv_o.Core.Lsq.Reach.{
  make-IsTracked, dispatch-IsTracked, fill_address-IsTracked, respond-IsTracked, update-IsTracked,
  squash-IsTracked,
}

-- What the stages of the core do to the queue. An address unit answers once for each entry, and a
-- load that is issued, forwarded to or found faulty comes from the set of candidates.
pub data Step : Lsq → Lsq → Type 0 where
  dispatches : (q q' : Lsq) (d : Dispatched) (idx : ℕ) → dispatch q d ≡ some (q', idx) → Step q q'
  resolves :
      (q : Lsq) (k value : ℕ)
      → k < q.ring.n
      → (at q (index_of q.ring k)).addr_valid ≡ false
      → Step q (fill_address q (index_of q.ring k) value)
  issues :
      (q : Lsq) (slot : ℕ)
      → slot < q.ring.capacity
      → member q.candidates slot ≡ true
      → Step q (issue_load q slot)
  completes :
      (q : Lsq) (slot value : ℕ)
      → slot < q.ring.capacity
      → member q.candidates slot ≡ true
      → Step q (complete_load q slot value)
  responds : (q : Lsq) (tag rdata : ℕ) → Step q (respond q tag rdata)
  updates :
      (q : Lsq) (k : ℕ) (ready : Bool) (value : ℕ) (free : Bool)
      → k < q.ring.n
      → Step q (update q (index_of q.ring k) ready value free)
  commits : (q : Lsq) → Ring.empty q.ring ≡ false → Step q (pop_head q)
  squashes : (q : Lsq) (seq : ℕ) → Step q (squash q.ring.n q seq)

pub data Reached (start : Lsq) : Lsq → Type 0 where
  here : Reached start start
  next : {q q' : Lsq} → Reached start q → Step q q' → Reached start q'

Step-IsTracked : {q q' : Lsq} → Step q q' → IsTracked q → IsTracked q'
Step-IsTracked (dispatches q q' d idx e) i = dispatch-IsTracked q i d q' idx e
Step-IsTracked (resolves q k value l a) i = fill_address-IsTracked q i k value l a
Step-IsTracked (issues q slot l m) i =
    let (k, b, at_slot, c) =
      Tracks-member candidate q.ring q.candidates slot i.ring i.candidates l m in
    subst (λ s. IsTracked (issue_load q s)) at_slot (issue_load-IsTracked q i k b (unfold nth in c))
Step-IsTracked (completes q slot value l m) i =
    let (k, b, at_slot, c) =
      Tracks-member candidate q.ring q.candidates slot i.ring i.candidates l m in
    let c' : candidate (at q (index_of q.ring k)) ≡ true = unfold nth in c in
    subst (λ s. IsTracked (complete_load q s value)) at_slot
      (complete_load-IsTracked q i k b value (ground (arith, c')))
Step-IsTracked (responds q tag rdata) i = respond-IsTracked q i tag rdata
Step-IsTracked (updates q k ready value free l) i = update-IsTracked q i k ready value free l
Step-IsTracked (commits q e) i = pop_head-IsTracked q i e
Step-IsTracked (squashes q seq) i = squash-IsTracked q.ring.n q seq i

from : {q q' : Lsq} → IsTracked q → Reached q q' → IsTracked q'
from i here = i
from i (next r s) = Step-IsTracked s (from i r)

-- In every state that a queue of fewer than 2 ^ 31 entries reaches from its start, each of the six
-- work sets holds exactly the slots of the live entries that its question is about, the three
-- counters and the count of resolved stores in each word bucket are the numbers of such entries,
-- and every entry is well-formed.
pub Reached-IsTracked :
    (size : ℕ) (q : Lsq) → 0 < size → size < 2 ^ 31 → Reached (make size) q → IsTracked q
Reached-IsTracked size q p l r = from (make-IsTracked size p l) r

-- Where `may_store_to_word` says no, no entry is counted in the word's bucket.
pub not_counted :
    (q : Lsq) (k addr : ℕ)
    → IsTracked q
    → k < q.ring.n
    → may_store_to_word q addr ≡ false
    → hits (word_bucket addr) (nth fresh q.ring k) ≡ false
not_counted q k addr i l m = elim (Bool-cases (hits (word_bucket addr) (nth fresh q.ring k))) [
  | inr out ↦ out
  | inl counted ↦
      let some_store = number-nth (hits (word_bucket addr)) q.ring i.ring k l counted in
      let none : get_or q.store_words (word_bucket addr) 0 ≡ 0 =
        unfold may_store_to_word in ground (arith, m) in
      let small : word_bucket addr < 64 = omega (arith, word_bucket-mod addr) in
      absurd (omega (arith, some_store, none, i.words (word_bucket addr) small))
]

-- An access that overlaps an aligned word's bytes begins or ends in that word.
shares_word :
    (a s b z : ℕ)
    → a < 2 ^ 32
    → 0 < s
    → s ≤ 4
    → b < 2 ^ 32
    → 0 < z
    → b % 4 + z ≤ 4
    → overlaps a s b z ≡ true
    → (a / 4 == b / 4 || sub32 (u32 (a + s)) 1 / 4 == b / 4) ≡ true
unfolding overlaps
shares_word a s b z la ps ls lb pz w o =
    let first : b < u32 (a + s) = ground (arith, o) in
    let second : a < u32 (b + z) = ground (arith, o) in
    ground (arith, first, second, la, ps, ls, lb, pz, w)

-- Where `may_store_to_word` says no for a load that stays within one aligned word, no store of the
-- queue whose address is known overlaps it, so the search among the older stores may be skipped.
pub may_store_to_word-overlaps :
    (q : Lsq) (k addr size : ℕ)
    → IsTracked q
    → k < q.ring.n
    → known (nth fresh q.ring k) ≡ true
    → (nth fresh q.ring k).addr < 2 ^ 32
    → addr < 2 ^ 32
    → 0 < size
    → addr % 4 + size ≤ 4
    → may_store_to_word q addr ≡ false
    → overlaps (nth fresh q.ring k).addr (nth fresh q.ring k).size addr size ≡ false
may_store_to_word-overlaps q k addr size i l c a b p w m =
    let e = nth fresh q.ring k in
    let s : sound e ≡ true = i.entries k l in
    elim (Bool-cases (overlaps e.addr e.size addr size)) [
      | inr apart ↦ apart
      | inl meet ↦
          let share =
            shares_word e.addr e.size addr size a (unfold sound in ground (arith, s))
              (unfold sound in ground (arith, s)) b p w meet in
          let counted : hits (word_bucket addr) e ≡ true =
            unfold hits known in
            ground (
              arith,
              c,
              share,
              word_bucket-mod addr,
              word_bucket-mod e.addr,
              word_bucket-mod (last_byte e),
            ) in
          absurd (ground (arith, counted, not_counted q k addr i l m))
    ]
