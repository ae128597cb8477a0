-- ===== src/Memory/Cache/Conservation.antt =====
-- memory/cache.cpp: the answers that a cache owes, over the access of a request.
use rv_o.Base.{ℕ, ◌+◌, ◌^◌, ◌<◌, ◌≡◌, refl, sym, ap, ◌∙◌, Option, none, some, length, subst}
use rv_o.Memory.Request.{MemRequest}
use rv_o.Memory.Cache.State.{Cache}
use rv_o.Memory.Cache.Owed.{one, owed, valid_count, Queues, queues}
use rv_o.Memory.Cache.Counted.{IsCounted, Pending}

-- The cache after an accepted request: it owes one answer more, with the request's tag.
abbrev pub Accepted : Cache → MemRequest → ℕ → Option Cache → Type 0
Accepted c req t o =
    (c' : Cache) × (o ≡ some c') × IsCounted c' × (owed t c' ≡ one t req.tag + owed t c)

option-both :
    {A : Type 0} (P : Option Cache → Type 0) (o : Option A) (n : Option Cache)
    (f : A → Option Cache)
    → (o ≡ none → P n)
    → ((a : A) → o ≡ some a → P (f a))
    → P (elim o [ none ↦ n | some a ↦ f a ])
option-both P none n f p q = p refl
option-both P (some a) n f p q = q a refl

-- The same counts and queues of misses.
pub IsCounted-queues : (c c' : Cache) → queues c' ≡ queues c → IsCounted c → IsCounted c'
IsCounted-queues c c' e i = record {
  counted =
      ap (λ (q : Queues). q.pending_misses) e
      ∙ i.counted
      ∙ ap (λ (q : Queues). valid_count q.mshrs) (sym e);
  small = subst (λ (q : Queues). length q.mshrs < 2 ^ 32) (sym e) i.small;
  pending = subst (λ (q : Queues). Pending q.mshrs q.pending_installs) (sym e) i.pending;
}
