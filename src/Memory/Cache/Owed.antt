-- ===== src/Memory/Cache/Owed.antt =====
-- The answers that a cache owes: those in its queues, and those to the requests that wait in its
-- MSHRs.
use rv_o.Base.{
  ℕ, zero, suc, ◌+◌, ◌<◌, ◌≡◌, refl, ap, ◌∙◌, arith, Bool, List, [], ◌∷◌, ◌++◌, get_or, set, length,
  ltb, leb, ◌==◌, if◌then◌else◌, if-both,
}
use rv_o.Sim.Config.{CacheConfig}
use rv_o.Memory.Request.{MemRequest, MemResponse}
use rv_o.Memory.Cache.State.{Waiting, Mshr, no_mshr, HitTxn, PendingInstall, Cache, set_of}
use rv_o.Memory.Cache.Lines.{
  perform_on_line, read_line, answer_hit, serve_hit, install_line, must_evict, victim_way,
}

abbrev pub one : ℕ → ℕ → ℕ
one t tag = if t == tag then 1 else 0

abbrev pub in_responses : ℕ → List MemResponse → ℕ
in_responses t [] = 0
in_responses t (r ∷ rs) = one t r.tag + in_responses t rs

abbrev pub in_hits : ℕ → List HitTxn → ℕ
in_hits t [] = 0
in_hits t (h ∷ hs) = one t h.resp.tag + in_hits t hs

abbrev pub in_waiting : ℕ → List Waiting → ℕ
in_waiting t [] = 0
in_waiting t (w ∷ ws) = one t w.req.tag + in_waiting t ws

abbrev pub in_mshr : ℕ → Mshr → ℕ
in_mshr t m = if m.valid then in_waiting t m.waiting else 0

abbrev pub in_mshrs : ℕ → List Mshr → ℕ
in_mshrs t [] = 0
in_mshrs t (m ∷ ms) = in_mshr t m + in_mshrs t ms

-- The answers with tag `t` that are still to be taken.
abbrev pub owed : ℕ → Cache → ℕ
owed t c = in_responses t c.resp_q + in_hits t c.hit_pipe + in_mshrs t c.mshrs

abbrev pub valid_count : List Mshr → ℕ
valid_count [] = 0
valid_count (m ∷ ms) = (if m.valid then 1 else 0) + valid_count ms

module _ (t : ℕ) where
  pub in_responses-append :
      (rs : List MemResponse) (r : MemResponse)
      → in_responses t (rs ++ (r ∷ [])) ≡ one t r.tag + in_responses t rs
  in_responses-append [] r = refl
  in_responses-append (x ∷ rs) r = omega (arith, in_responses-append rs r)

  pub in_hits-append :
      (hs : List HitTxn) (h : HitTxn) → in_hits t (hs ++ (h ∷ [])) ≡ one t h.resp.tag + in_hits t hs
  in_hits-append [] h = refl
  in_hits-append (x ∷ hs) h = omega (arith, in_hits-append hs h)

  pub in_waiting-append :
      (ws : List Waiting) (w : Waiting)
      → in_waiting t (ws ++ (w ∷ [])) ≡ one t w.req.tag + in_waiting t ws
  in_waiting-append [] w = refl
  in_waiting-append (x ∷ ws) w = omega (arith, in_waiting-append ws w)

  -- A write to an entry exchanges its share.
  pub in_mshrs-set :
      (ms : List Mshr) (i : ℕ) (m : Mshr)
      → i < length ms
      → in_mshrs t (set ms i m) + in_mshr t (get_or ms i no_mshr) ≡ in_mshrs t ms + in_mshr t m
  in_mshrs-set [] i m h = absurd (omega arith)
  in_mshrs-set (x ∷ ms) zero m h = omega arith
  in_mshrs-set (x ∷ ms) (suc i) m h = omega (arith, in_mshrs-set ms i m (omega arith))

pub valid_count-set :
    (ms : List Mshr) (i : ℕ) (m : Mshr)
    → i < length ms
    → valid_count (set ms i m) + (if (get_or ms i no_mshr).valid then 1 else 0)
      ≡ valid_count ms + (if m.valid then 1 else 0)
valid_count-set [] i m h = absurd (omega arith)
valid_count-set (x ∷ ms) zero m h = omega arith
valid_count-set (x ∷ ms) (suc i) m h = omega (arith, valid_count-set ms i m (omega arith))

-- What an access to a line and an installation leave alone.
pub record Queues : Type 0 where
  pub cfg : CacheConfig
  pub mshrs : List Mshr
  pub pending_misses : ℕ
  pub pending_installs : List PendingInstall
  pub hit_pipe : List HitTxn
  pub resp_q : List MemResponse

abbrev pub queues : Cache → Queues
queues c = record {
  cfg = c.cfg;
  mshrs = c.mshrs;
  pending_misses = c.pending_misses;
  pending_installs = c.pending_installs;
  hit_pipe = c.hit_pipe;
  resp_q = c.resp_q;
}

module _ (c : Cache) where
  pub perform_on_line-queues :
      (req : MemRequest) (s way : ℕ) → queues (perform_on_line c req s way).1 ≡ queues c
  unfolding perform_on_line
  perform_on_line-queues req s way =
      if-both (λ (r : MemResponse × Cache). queues r.1 ≡ queues c) req.is_write _ _ (λ _. refl)
        (λ _. refl)

  pub perform_on_line-tag :
      (req : MemRequest) (s way : ℕ) → (perform_on_line c req s way).0.tag ≡ req.tag
  unfolding perform_on_line read_line
  perform_on_line-tag req s way =
      if-both (λ (r : MemResponse × Cache). r.0.tag ≡ req.tag) req.is_write _ _ (λ _. refl)
        (λ _.
          if-both (λ (r : MemResponse). r.tag ≡ req.tag) (ltb 4 req.size) _ _ (λ _. refl)
            (λ _. refl))

  pub install_line-queues :
      (addr : ℕ) (src : List ℕ) (d : Bool) → queues (install_line c addr src d).1 ≡ queues c
  unfolding install_line
  install_line-queues addr src d =
      let P : Bool × Cache → Type 0 = λ r. queues r.1 ≡ queues c in
      if-both P (must_evict c (set_of c addr) (victim_way c (set_of c addr))) _ _
        (λ _. if-both P (leb c.cfg.wbq (length c.wbq)) _ _ (λ _. refl) (λ _. refl)) (λ _. refl)

  pub answer_hit-owed : (t : ℕ) (r : MemResponse) → owed t (answer_hit c r) ≡ one t r.tag + owed t c
  answer_hit-owed t r =
      if-both (λ (c' : Cache). owed t c' ≡ one t r.tag + owed t c) (c.cfg.hit_latency == 1) _ _
        (λ _. omega (arith, in_responses-append t c.resp_q r))
        (λ _. omega (arith, in_hits-append t c.hit_pipe _))

-- Only the queues matter to what is owed.
abbrev pub owed_in : ℕ → Queues → ℕ
owed_in t q = in_responses t q.resp_q + in_hits t q.hit_pipe + in_mshrs t q.mshrs

pub serve_hit-owed :
    (c : Cache) (req : MemRequest) (s way t : ℕ)
    → owed t (serve_hit c req s way) ≡ one t req.tag + owed t c
serve_hit-owed c req s way t =
    let p = perform_on_line c req s way in
    answer_hit-owed p.1 t p.0
    ∙ ap (λ tag. one t tag + owed t p.1) (perform_on_line-tag c req s way)
    ∙ ap (λ q. one t req.tag + owed_in t q) (perform_on_line-queues c req s way)
