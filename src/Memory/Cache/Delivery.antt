-- ===== src/Memory/Cache/Delivery.antt =====
-- memory/cache.cpp: the answers that a cache owes, over a clock edge and over a refill.
use rv_o.Base.{
  ℕ, suc, ◌+◌, ◌≡◌, ◌≢◌, refl, sym, ◌∙◌, arith, Bool, true, false, ◌&&◌, ◌||◌, not, Option, none,
  some, List, [], ◌∷◌, ◌++◌, get_or, length, length-set, ltb, leb, ◌==◌, if◌then◌else◌, if-both,
  Bool-cases, inl, inr, subst, ◌⊎◌, some_injective, u32, u64,
}
use rv_o.Memory.Request.{MemRequest, MemResponse}
use rv_o.Memory.Cache.State.{Mshr, no_mshr, WbEntry, HitTxn, PendingInstall, Cache}
use rv_o.Memory.Cache.Owed.{
  in_responses, in_hits, owed, in_responses-append, in_mshrs-set, valid_count-set,
}
use rv_o.Memory.Cache.Counted.{valid_at, NotIn, Pending, IsCounted, Pending-set, valid-length}
use rv_o.Memory.Cache.{
  try_install, wb_tag, deliver_below_response, deliver_hits, install_pending, unsent,
  send_writeback, send_refill, send_below, tick,
}
use rv_o.Memory.Cache.Install.{Tried, install_pending-IsCounted, try_install-Tried, with_installs}

NotIn-append :
    (i : ℕ) (ps : List PendingInstall) (p : PendingInstall)
    → i ≢ p.mshr_idx
    → NotIn i ps
    → NotIn i (ps ++ (p ∷ []))
NotIn-append i [] p h n = (h, tt)
NotIn-append i (q ∷ ps) p h n = (n.0, NotIn-append i ps p h n.1)

Pending-append :
    (ms : List Mshr) (ps : List PendingInstall) (p : PendingInstall)
    → valid_at ms p.mshr_idx ≡ true
    → NotIn p.mshr_idx ps
    → Pending ms ps
    → Pending ms (ps ++ (p ∷ []))
Pending-append ms [] p v n h = (v, tt, tt)
Pending-append ms (q ∷ ps) p v n h =
    (h.0, NotIn-append q.mshr_idx ps p (λ e. n.0 (sym e)) h.1, Pending-append ms ps p v n.1 h.2)

-- The acknowledgement of a writeback, or the line for an occupied entry that has none yet.
abbrev pub IsExpected : Cache → MemResponse → Type 0
IsExpected c r =
    (r.tag ≡ wb_tag)
    ⊎ ((valid_at c.mshrs (u32 r.tag) ≡ true) × NotIn (u32 r.tag) c.pending_installs)

-- A response of the level below, the acknowledgement of a writeback or the line for an occupied
-- entry that has none yet, loses no answer that the cache owes and makes none up: what waited for
-- the line is answered once, or waits on with the line while the writeback queue has no room. The
-- count of the misses stays that of the occupied entries.
pub deliver-IsCounted :
    (c : Cache) (r : MemResponse) (t : ℕ)
    → IsCounted c
    → IsExpected c r
    → IsCounted (deliver_below_response c r) × (owed t (deliver_below_response c r) ≡ owed t c)
unfolding deliver_below_response
deliver-IsCounted c r t i (inl ack) = rw ack (i, refl)
deliver-IsCounted c r t i (inr (v, n)) =
    if-both (λ (c' : Cache). IsCounted c' × (owed t c' ≡ owed t c)) (r.tag == wb_tag) c _
      (λ _. (i, refl))
      (λ _.
        go (try_install c (u32 r.tag) r.rline)
          (try_install-Tried c c.pending_installs (u32 r.tag) t r.rline i v n))
  where
    go :
        (x : Bool × Cache)
        → Tried c c.pending_installs t x
        → let next =
            if x.0
            then x.1
            else with_installs x.1
                (x.1.pending_installs ++ (record { mshr_idx = u32 r.tag; line = r.rline } ∷ [])) in
          IsCounted next × (owed t next ≡ owed t c)
    go (false, c') same =
        let p : PendingInstall = record { mshr_idx = u32 r.tag; line = r.rline } in
        subst
          (λ (x : Cache).
            IsCounted (with_installs x (x.pending_installs ++ (p ∷ []))) × (owed t x ≡ owed t c))
          (sym same)
          (
            record {
              counted = i.counted;
              small = i.small;
              pending = Pending-append c.mshrs c.pending_installs p v n i.pending;
            },
            refl,
          )
    go (true, c') (j, same, installs) =
        (subst (λ ps. IsCounted (with_installs c' ps)) (sym installs) j, same)

deliver_hits-owed :
    (t now : ℕ) (hs : List HitTxn) (rs : List MemResponse)
    → in_responses t (deliver_hits now hs rs).1 + in_hits t (deliver_hits now hs rs).0
      ≡ in_responses t rs + in_hits t hs
unfolding deliver_hits
deliver_hits-owed t now [] rs = refl
deliver_hits-owed t now (h ∷ hs) rs = elim (Bool-cases (leb h.ready_at now)) [
  | inl e ↦
      rw (e, deliver_hits)
        (omega (
          arith,
          deliver_hits-owed t now hs (rs ++ (h.resp ∷ [])),
          in_responses-append t rs h.resp,
        ))
  | inr e ↦ rw (e, deliver_hits) refl
]

module _ (m : Mshr) (ms : List Mshr) (k : ℕ) where
  unsent-here : m.valid && not m.refill_sent ≡ true → unsent (m ∷ ms) k ≡ some k
  unfolding unsent
  unsent-here e = rw (e, unsent) refl

  unsent-next : m.valid && not m.refill_sent ≡ false → unsent (m ∷ ms) k ≡ unsent ms (k + 1)
  unfolding unsent
  unsent-next e = rw (e, unsent) refl

unsent-valid :
    (ms : List Mshr) (k i : ℕ)
    → unsent ms k ≡ some i
    → (j : ℕ) × (i ≡ k + j) × (valid_at ms j ≡ true)
unfolding unsent
unsent-valid [] k i e = absurd (ground (arith, e))
unsent-valid (m ∷ ms) k i e = elim (Bool-cases (m.valid && not m.refill_sent)) [
  | inl v ↦
      let at : k ≡ i = some_injective (sym (unsent-here m ms k v) ∙ e) in
      (0, omega (arith, at), ground (arith, v))
  | inr v ↦
      let (j, at, found) = unsent-valid ms (k + 1) i (sym (unsent-next m ms k v) ∙ e) in
      (suc j, omega (arith, at), found)
]

module _ (c : Cache) (t : ℕ) (i : IsCounted c) where
  send_writeback-IsCounted :
      (w : WbEntry) (ws : List WbEntry)
      → IsCounted (send_writeback c w ws).1 × (owed t (send_writeback c w ws).1 ≡ owed t c)
  send_writeback-IsCounted w ws =
      (record { counted = i.counted; small = i.small; pending = i.pending }, refl)

  send_refill-IsCounted :
      (k : ℕ)
      → valid_at c.mshrs k ≡ true
      → IsCounted (send_refill c (some k)).1 × (owed t (send_refill c (some k)).1 ≡ owed t c)
  send_refill-IsCounted k v =
      let m = get_or c.mshrs k no_mshr in
      let m' = record m { refill_sent = true } in
      let room = valid-length c.mshrs k v in
      (
        record {
          counted = omega (arith, i.counted, valid_count-set c.mshrs k m' room);
          small = rw (length-set c.mshrs k m') i.small;
          pending = Pending-set c.mshrs k m' c.pending_installs v i.pending;
        },
        omega (arith, in_mshrs-set t c.mshrs k m' room),
      )

  send_below-IsCounted :
      (ws : List WbEntry) (refill : Option ℕ)
      → unsent c.mshrs 0 ≡ refill
      → IsCounted (send_below c ws refill).1 × (owed t (send_below c ws refill).1 ≡ owed t c)
  unfolding send_below
  send_below-IsCounted [] none e = (i, refl)
  send_below-IsCounted [] (some k) e =
      let (j, at, v) = unsent-valid c.mshrs 0 k e in
      send_refill-IsCounted k (subst (λ n. valid_at c.mshrs n ≡ true) (omega (arith, at)) v)
  send_below-IsCounted (w ∷ ws) none e = send_writeback-IsCounted w ws
  send_below-IsCounted (w ∷ ws) (some k) e =
      let (j, at, v) = unsent-valid c.mshrs 0 k e in
      if-both (λ (r : Option MemRequest × Cache). IsCounted r.1 × (owed t r.1 ≡ owed t c))
        (leb c.cfg.wbq (length (w ∷ ws))) _ _ (λ _. send_writeback-IsCounted w ws)
        (λ _.
          send_refill-IsCounted k (subst (λ n. valid_at c.mshrs n ≡ true) (omega (arith, at)) v))

-- A clock edge, whether the level below accepts or not, loses no answer that the cache owes and
-- makes none up: hits that fall due, installations that find room, a writeback or a refill that is
-- sent only move them. The count of the misses stays that of the occupied entries.
pub tick-IsCounted :
    (c : Cache) (below_accepts : Bool) (t : ℕ)
    → IsCounted c
    → IsCounted (tick below_accepts c).1 × (owed t (tick below_accepts c).1 ≡ owed t c)
unfolding tick
tick-IsCounted c below_accepts t i =
    let now = u64 (c.tick_count + 1) in
    let moved = deliver_hits now c.hit_pipe c.resp_q in
    let c' = record c { tick_count = now; hit_pipe = moved.0; resp_q = moved.1 } in
    let c'' = install_pending c' c.pending_installs in
    let (j, same) =
      install_pending-IsCounted t c' c.pending_installs
        (record { counted = i.counted; small = i.small; pending = i.pending }) in
    let hits : owed t c' ≡ owed t c = omega (arith, deliver_hits-owed t now c.hit_pipe c.resp_q) in
    let (k, sent) = send_below-IsCounted c'' t j c''.wbq (unsent c''.mshrs 0) refl in
    if-both (λ (r : Option MemRequest × Cache). IsCounted r.1 × (owed t r.1 ≡ owed t c))
      ((not (c''.pending_misses == 0) || ltb 0 (length c''.wbq)) && below_accepts) _ _
      (λ _. (k, sent ∙ same ∙ hits)) (λ _. (j, same ∙ hits))
