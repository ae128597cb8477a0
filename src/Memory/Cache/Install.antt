-- ===== src/Memory/Cache/Install.antt =====
-- memory/cache.cpp: the answers that a cache owes, over the installation of a line.
use rv_o.Base.{
  ℕ, ◌+◌, ◌^◌, ◌<◌, ◌≡◌, refl, sym, ap, ◌∙◌, arith, Bool, true, false, not, List, [], ◌∷◌, ◌++◌,
  get_or, set, length, length-set, if◌then◌else◌, if-both, subst, sub32,
}
use rv_o.Memory.Cache.State.{Waiting, no_mshr, PendingInstall, Cache, set_of}
use rv_o.Memory.Cache.Lines.{perform_on_line, install_line, victim_way}
use rv_o.Memory.Cache.Owed.{
  one, in_responses, in_hits, in_waiting, in_mshr, in_mshrs, owed, valid_count, in_responses-append,
  in_mshrs-set, valid_count-set, Queues, queues, perform_on_line-queues, perform_on_line-tag,
  install_line-queues,
}
use rv_o.Memory.Cache.Counted.{
  valid_at, NotIn, Pending, IsCounted, Pending-free, valid_count-le, valid-length,
}
use rv_o.Memory.Cache.{put_mshr, answer_waiting, try_install, install_pending}

-- All of the queues but the responses.
abbrev pub silent : Cache → Queues
silent c = record (queues c) { resp_q = [] }

pub answer_waiting-silent :
    (c : Cache) (s way : ℕ) (ws : List Waiting) → silent (answer_waiting c s way ws) ≡ silent c
unfolding answer_waiting
answer_waiting-silent c s way [] = refl
answer_waiting-silent c s way (w ∷ ws) =
    let p = perform_on_line c w.req s way in
    answer_waiting-silent (record p.1 { resp_q = p.1.resp_q ++ (p.0 ∷ []) }) s way ws
    ∙ ap (λ (q : Queues). record q { resp_q = [] }) (perform_on_line-queues c w.req s way)

pub answer_waiting-responses :
    (t : ℕ) (c : Cache) (s way : ℕ) (ws : List Waiting)
    → in_responses t (answer_waiting c s way ws).resp_q ≡ in_waiting t ws + in_responses t c.resp_q
unfolding answer_waiting
answer_waiting-responses t c s way [] = omega arith
answer_waiting-responses t c s way (w ∷ ws) =
    let (r, c') = perform_on_line c w.req s way in
    let tag : one t r.tag ≡ one t w.req.tag = ap (one t) (perform_on_line-tag c w.req s way) in
    let queue : in_responses t c'.resp_q ≡ in_responses t c.resp_q =
      ap (λ q. in_responses t q.resp_q) (perform_on_line-queues c w.req s way) in
    omega (
      arith,
      answer_waiting-responses t (record c' { resp_q = c'.resp_q ++ (r ∷ []) }) s way ws,
      in_responses-append t c'.resp_q r,
      tag,
      queue,
    )

-- The cache with these installs waiting.
abbrev pub with_installs : Cache → List PendingInstall → Cache
with_installs c ps = record c { pending_installs = ps }

-- An installation that fails changes nothing; one that succeeds frees the entry and keeps what is
-- owed.
abbrev pub Tried : Cache → List PendingInstall → ℕ → Bool × Cache → Type 0
Tried c ps t (false, c') = c' ≡ c
Tried c ps t (true, c') =
    IsCounted (with_installs c' ps)
    × (owed t c' ≡ owed t c)
    × (c'.pending_installs ≡ c.pending_installs)

module _ (c : Cache) (ps : List PendingInstall) (k t : ℕ) (line : List ℕ) where
  -- The answers of an entry's requests count as much as the requests did.
  pub answered :
      (c' c'' : Cache)
      → silent c'' ≡ silent c
      → in_responses t c''.resp_q
        ≡ in_waiting t (get_or c.mshrs k no_mshr).waiting + in_responses t c'.resp_q
      → in_responses t c'.resp_q ≡ in_responses t c.resp_q
      → valid_at c.mshrs k ≡ true
      → owed t (put_mshr c'' k no_mshr) ≡ owed t c
  answered c' c'' kept responses same v =
      let ms : in_mshrs t (set c''.mshrs k no_mshr) ≡ in_mshrs t (set c.mshrs k no_mshr) =
        ap (λ (q : Queues). in_mshrs t (set q.mshrs k no_mshr)) kept in
      let hits : in_hits t c''.hit_pipe ≡ in_hits t c.hit_pipe =
        ap (λ (q : Queues). in_hits t q.hit_pipe) kept in
      let share : in_mshr t (get_or c.mshrs k no_mshr)
          ≡ in_waiting t (get_or c.mshrs k no_mshr).waiting =
        ap (λ b. if b then in_waiting t (get_or c.mshrs k no_mshr).waiting else 0) v in
      omega (
        arith,
        ms,
        hits,
        share,
        responses,
        same,
        in_mshrs-set t c.mshrs k no_mshr (valid-length c.mshrs k v),
      )

  pub try_install-Tried :
      IsCounted (with_installs c ps)
      → valid_at c.mshrs k ≡ true
      → NotIn k ps
      → Tried c ps t (try_install c k line)
  unfolding try_install
  try_install-Tried i v n =
      let m = get_or c.mshrs k no_mshr in
      let set' = set_of c m.line_addr in
      let way = victim_way c set' in
      let installed = install_line c m.line_addr line false in
      let c' = installed.1 in
      let c'' = answer_waiting c' set' way m.waiting in
      let kept : silent c'' ≡ silent c =
        answer_waiting-silent c' set' way m.waiting
        ∙ ap (λ (q : Queues). record q { resp_q = [] })
            (install_line-queues c m.line_addr line false) in
      let room = valid-length c.mshrs k v in
      let ms : c''.mshrs ≡ c.mshrs = ap (λ (q : Queues). q.mshrs) kept in
      let freed : valid_count (set c.mshrs k no_mshr) + 1 ≡ valid_count c.mshrs =
        ground (arith, v, valid_count-set c.mshrs k no_mshr room) in
      let misses : c''.pending_misses ≡ valid_count c.mshrs =
        ap (λ (q : Queues). q.pending_misses) kept ∙ i.counted in
      let fewer : sub32 c''.pending_misses 1 ≡ valid_count (set c.mshrs k no_mshr) =
        omega (arith, freed, misses, valid_count-le c.mshrs, i.small) in
      let counted_after =
        subst (λ xs. sub32 c''.pending_misses 1 ≡ valid_count (set xs k no_mshr)) (sym ms) fewer in
      let small_after : length (set c.mshrs k no_mshr) < 2 ^ 32 =
        rw (length-set c.mshrs k no_mshr) i.small in
      if-both (Tried c ps t) (not installed.0) _ _ (λ _. refl)
        (λ _. (
          record {
            counted = counted_after;
            small = subst (λ xs. length (set xs k no_mshr) < 2 ^ 32) (sym ms) small_after;
            pending =
                subst (λ xs. Pending (set xs k no_mshr) ps) (sym ms)
                  (Pending-free c.mshrs k no_mshr ps n i.pending);
          },
          answered c' c'' kept (answer_waiting-responses t c' set' way m.waiting)
              (ap (λ (q : Queues). in_responses t q.resp_q)
                (install_line-queues c m.line_addr line false))
              v,
          ap (λ (q : Queues). q.pending_installs) kept,
        ))

pub install_pending-IsCounted :
    (t : ℕ) (c : Cache) (ps : List PendingInstall)
    → IsCounted (with_installs c ps)
    → IsCounted (install_pending c ps) × (owed t (install_pending c ps) ≡ owed t c)
unfolding install_pending
install_pending-IsCounted t c [] i = (i, refl)
install_pending-IsCounted t c (p ∷ ps) i =
    let (valid, own, others) = i.pending in
    let r = try_install c p.mshr_idx p.line in
    let tried =
      try_install-Tried c ps p.mshr_idx t p.line
        (record { counted = i.counted; small = i.small; pending = others }) valid own in
    go (λ c' j. install_pending-IsCounted t c' ps j) r tried
  where
    go :
        ((c' : Cache)
          → IsCounted (with_installs c' ps)
          → IsCounted (install_pending c' ps) × (owed t (install_pending c' ps) ≡ owed t c'))
        → (r : Bool × Cache) → Tried c ps t r
        → let next = if r.0 then install_pending r.1 ps else with_installs c (p ∷ ps) in
          IsCounted next × (owed t next ≡ owed t c)
    go rest (false, c') tried = (i, refl)
    go rest (true, c') (j, same, _) = ((rest c' j).0, (rest c' j).1 ∙ same)
