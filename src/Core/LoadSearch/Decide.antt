-- ===== src/Core/LoadSearch/Decide.antt =====
-- core/ooo.cpp: what the older stores say to a load, and the search through them.
use rv_o.Base.{
  ltb, ℕ, zero, suc, ◌+◌, ◌≡◌, refl, sym, ap, ◌∙◌, arith, Bool, true, false, ◌&&◌, not, List, [],
  ◌∷◌, ◌++◌, ◌==◌, if◌then◌else◌, Bool-cases, inl, inr,
}
use rv_o.Isa.{extend_load}
use rv_o.Core.Ring
use rv_o.Core.Ring.{Ring, index_of, nth}
use rv_o.Core.Lsq.{LsqEntry, fresh, Lsq, complete_load, overlaps}
use rv_o.Core.Lsq.Invariant.{known}
use rv_o.Core.StoreBuffer
use rv_o.Core.StoreBuffer.{StoreBuffer}
use rv_o.Core.LoadSearch.{
  OlderStore, queued, buffered, Search, older_store, visit_store, search_buffer,
}
use rv_o.Core.LoadSearch.Positions.{down}

-- A load may go to the cache, waits for a store, or takes a store's data.
pub data Verdict : Type 0 where
  free waits : Verdict
  takes : ℕ → Verdict

-- Do an access of `size` bytes at `addr` and one of `other_size` at `other` have a byte in common?
-- The addresses are numbers, with no end at 2 ^ 32.
unfoldable pub touches : ℕ → ℕ → ℕ → ℕ → Bool
touches addr size other other_size = ltb addr (other + other_size) && ltb other (addr + size)

-- What a store says to a load.
unfoldable pub judge : LsqEntry → OlderStore → Verdict
unfolding touches
judge le st =
    if st.addr == le.addr && st.size == le.size
    then if st.data_ready then takes st.data_word else waits
    else if touches st.addr st.size le.addr le.size
    then waits
    else free

-- The same with the test of the code, which adds in 32 bits.
unfoldable pub reply : LsqEntry → OlderStore → Verdict
reply le st =
    if st.addr == le.addr && st.size == le.size
    then if st.data_ready then takes st.data_word else waits
    else if overlaps st.addr st.size le.addr le.size
    then waits
    else free

unfoldable pub otherwise : Verdict → Verdict → Verdict
otherwise free v = v
otherwise waits v = waits
otherwise (takes w) v = takes w

-- The stores from the newest on: the first that touches the load decides.
unfoldable pub decide : (OlderStore → Verdict) → List OlderStore → Verdict
unfolding otherwise
decide says [] = free
decide says (st ∷ older) = otherwise (says st) (decide says older)

-- The stores of the queue before position `k` whose address is known, the newest first.
unfoldable pub older_stores : Ring LsqEntry → ℕ → List OlderStore
older_stores r zero = []
older_stores r (suc k) =
    if known (nth fresh r k) then queued (nth fresh r k) ∷ older_stores r k else older_stores r k

-- The first `j` entries of the store buffer, the newest first.
unfoldable pub buffered_stores : StoreBuffer → ℕ → List OlderStore
buffered_stores b zero = []
buffered_stores b (suc j) = buffered (Ring.nth StoreBuffer.fresh b.ring j) ∷ buffered_stores b j

-- What a verdict makes of the queue and the flags.
abbrev pub outcome : Lsq → ℕ → LsqEntry → Verdict → Search
outcome q slot le free = record { queue = q; blocked = false; forwarded = false }
outcome q slot le waits = record { queue = q; blocked = true; forwarded = false }
outcome q slot le (takes w) = record {
  queue = complete_load q slot (extend_load le.op w);
  blocked = false;
  forwarded = true;
}

otherwise_assoc : (u v w : Verdict) → otherwise u (otherwise v w) ≡ otherwise (otherwise u v) w
unfolding otherwise
otherwise_assoc free v w = refl
otherwise_assoc waits v w = refl
otherwise_assoc (takes d) v w = refl

pub decide-append :
    (says : OlderStore → Verdict) (first older : List OlderStore)
    → decide says (first ++ older) ≡ otherwise (decide says first) (decide says older)
decide-append says [] older = unfold decide otherwise in refl
decide-append says (st ∷ first) older =
    step (first ++ older)
    ∙ ap (otherwise (says st)) (decide-append says first older)
    ∙ otherwise_assoc (says st) (decide says first) (decide says older)
    ∙ sym (ap (λ v. otherwise v (decide says older)) (step first))
  where
    step : (xs : List OlderStore) → decide says (st ∷ xs) ≡ otherwise (says st) (decide says xs)
    step xs = unfold decide in refl

module _ (q : Lsq) (slot : ℕ) (le : LsqEntry) where
  abbrev pub start : Search
  start = outcome q slot le free

  abbrev pub is_free : Verdict → Bool
  is_free free = true
  is_free waits = false
  is_free (takes w) = false

  older_store-outcome :
      (st : OlderStore) → older_store slot le start st ≡ outcome q slot le (reply le st)
  unfolding older_store reply
  older_store-outcome st = elim (Bool-cases (st.addr == le.addr && st.size == le.size)) [
    | inl e ↦ elim (Bool-cases st.data_ready) [
      | inl d ↦ ground (arith, e, d)
      | inr d ↦ ground (arith, e, d)
    ]
    | inr e ↦ elim (Bool-cases (overlaps st.addr st.size le.addr le.size)) [
      | inl d ↦ ground (arith, e, d)
      | inr d ↦ ground (arith, e, d)
    ]
  ]

  flags :
      (v : Verdict)
      → (not (outcome q slot le v).blocked && not (outcome q slot le v).forwarded) ≡ is_free v
  flags free = refl
  flags waits = refl
  flags (takes w) = refl

  abbrev pub answer : Verdict → Search × Bool
  answer v = (outcome q slot le v, is_free v)

  visit_store-answer :
      (k : ℕ)
      → visit_store slot le start (index_of q.ring k)
        ≡ answer (reply le (queued (nth fresh q.ring k)))
  unfolding visit_store nth
  visit_store-answer k =
      let st = queued (nth fresh q.ring k) in
      ap (λ (x : Search). (x, not x.blocked && not x.forwarded)) (older_store-outcome st)
      ∙ ap (λ t. (outcome q slot le (reply le st), t)) (flags (reply le st))

  -- The rest of a visit counts where the store says nothing.
  go_on :
      (n : ℕ) (v older : Verdict)
      → down (visit_store slot le) known q.ring 0 n start ≡ answer older
      → (if is_free v
          then down (visit_store slot le) known q.ring 0 n (outcome q slot le v)
          else (outcome q slot le v, false))
        ≡ answer (otherwise v older)
  unfolding otherwise
  go_on n free older e = e
  go_on n waits older e = refl
  go_on n (takes w) older e = refl

  pub listed :
      (n : ℕ)
      → known (nth fresh q.ring n) ≡ true
      → decide (reply le) (older_stores q.ring (suc n))
        ≡ otherwise
            (reply le (queued (nth fresh q.ring n)))
            (decide (reply le) (older_stores q.ring n))
  unfolding older_stores
  listed n e =
      ap
        (λ t. decide (reply le) (
          if t then queued (nth fresh q.ring n) ∷ older_stores q.ring n else older_stores q.ring n))
        e
      ∙ unfold decide in refl

  pub unlisted :
      (n : ℕ)
      → known (nth fresh q.ring n) ≡ false
      → decide (reply le) (older_stores q.ring (suc n)) ≡ decide (reply le) (older_stores q.ring n)
  unfolding older_stores
  unlisted n e =
      ap
        (λ t. decide (reply le) (
          if t then queued (nth fresh q.ring n) ∷ older_stores q.ring n else older_stores q.ring n))
        e

  pub down-decide :
      (n : ℕ)
      → down (visit_store slot le) known q.ring 0 n start
        ≡ answer (decide (reply le) (older_stores q.ring n))
  unfolding down
  down-decide zero = unfold decide older_stores in refl
  down-decide (suc n) =
      let f = visit_store slot le in
      let st = queued (nth fresh q.ring n) in
      let older = decide (reply le) (older_stores q.ring n) in
      let skip = down f known q.ring 0 n start in
      let round : ℕ → Search × Bool = λ k.
        if known (nth fresh q.ring k)
        then if (f start (index_of q.ring k)).1
          then down f known q.ring 0 n (f start (index_of q.ring k)).0
          else ((f start (index_of q.ring k)).0, false)
        else skip in
      let found : Search × Bool → Search × Bool = λ x.
        if known (nth fresh q.ring n)
        then if x.1 then down f known q.ring 0 n x.0 else (x.0, false)
        else skip in
      let at_n : 0 + n ≡ n = omega arith in
      let ih = down-decide n in
      ap round at_n
      ∙ ap found (visit_store-answer n)
      ∙ elim (Bool-cases (known (nth fresh q.ring n))) [
        | inl e ↦
            ap
              (λ t.
                if t
                then if is_free (reply le st)
                  then down f known q.ring 0 n (outcome q slot le (reply le st))
                  else (outcome q slot le (reply le st), false)
                else skip)
              e
            ∙ go_on n (reply le st) older ih
            ∙ sym (ap answer (listed n e))
        | inr e ↦
            ap
              (λ t.
                if t
                then if is_free (reply le st)
                  then down f known q.ring 0 n (outcome q slot le (reply le st))
                  else (outcome q slot le (reply le st), false)
                else skip)
              e
            ∙ ih
            ∙ sym (ap answer (unlisted n e))
      ]

  pub search_buffer-decide :
      (b : StoreBuffer) (j : ℕ) (v : Verdict)
      → search_buffer slot le b j (outcome q slot le v)
        ≡ outcome q slot le (otherwise v (decide (reply le) (buffered_stores b j)))
  unfolding search_buffer buffered_stores otherwise
  search_buffer-decide b zero free = unfold decide in refl
  search_buffer-decide b zero waits = refl
  search_buffer-decide b zero (takes w) = refl
  search_buffer-decide b (suc j) free =
      let st = buffered (Ring.nth StoreBuffer.fresh b.ring j) in
      ap (search_buffer slot le b j) (older_store-outcome st)
      ∙ search_buffer-decide b j (reply le st)
      ∙ unfold decide in refl
  search_buffer-decide b (suc j) waits = refl
  search_buffer-decide b (suc j) (takes w) = refl
