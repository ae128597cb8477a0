-- ===== src/Core/Lsq/Invariant.antt =====
-- core/lsq.h: what the work sets and the counters of the load-store queue stand for.
use rv_o.Base.{
  ℕ, ◌+◌, ◌<◌, ◌≡◌, ap, ◌∙◌, Bool, true, false, ◌&&◌, ◌||◌, not, ltb, leb, length, get_or, u32,
  sub32,
}
use rv_o.Core.Ring
use rv_o.Core.Ring.{Ring, index_of, nth}
use rv_o.Core.Ring.Index.{IsValid, put-IsValid}
use rv_o.Core.Ring.Write.{nth-put_self, nth-put_ne}
use native.Mathlib.Decide.{ℕ_discrete}
use rv_o.Core.Lsq.{LsqEntry, fresh, Lsq}
use rv_o.Core.SlotSet
use rv_o.Core.SlotSet.{SlotSet}
use rv_o.Core.Lsq.Tracks.{Tracks, put-Tracks, put-Tracks_insert, put-Tracks_erase}
use rv_o.Core.Lsq.Counts.{number, number-put, number-put_up, number-put_down, hits}

-- Loads with an address that have neither been issued nor completed.
unfoldable pub candidate : LsqEntry → Bool
candidate e = not e.is_store && (e.addr_valid && (not e.issued && not e.done))

-- Loads that wait for the cache.
unfoldable pub waiting : LsqEntry → Bool
waiting e = not e.is_store && (e.issued && not e.done)

-- Completed loads that writeback has not been told of.
unfoldable pub unreported : LsqEntry → Bool
unreported e = not e.is_store && (e.done && not e.reported)

-- Stores without their data.
unfoldable pub unfilled : LsqEntry → Bool
unfilled e = e.is_store && not e.data_ready

unfoldable pub updating : LsqEntry → Bool
unfolding unreported unfilled
updating e = unreported e || unfilled e

unfoldable pub known : LsqEntry → Bool
known e = e.is_store && e.addr_valid

unfoldable pub unknown : LsqEntry → Bool
unknown e = e.is_store && not e.addr_valid

-- Loads that have been issued or have completed.
unfoldable pub accessed : LsqEntry → Bool
accessed e = not e.is_store && (e.issued || e.done)

-- An access has 1 to 4 bytes; a store is never issued or done as a load is; a load is only with its
-- address, and is reported only when done.
unfoldable pub sound : LsqEntry → Bool
sound e =
    ltb 0 e.size
    && (leb e.size 4
        && ((not e.issued && not e.done || not e.is_store && e.addr_valid)
            && (not e.reported || e.done)))

pub record IsTracked (q : Lsq) : Type 0 where
  pub ring : IsValid q.ring
  pub entries : (k : ℕ) → k < q.ring.n → sound (nth fresh q.ring k) ≡ true
  pub candidates : Tracks q.ring candidate q.candidates
  pub pending : Tracks q.ring waiting q.pending
  pub updates : Tracks q.ring updating q.updates
  pub known_stores : Tracks q.ring known q.known_stores
  pub unknown_stores : Tracks q.ring unknown q.unknown_stores
  pub accessed_loads : Tracks q.ring accessed q.accessed_loads
  pub buckets : length q.store_words ≡ 64
  pub words : (b : ℕ) → b < 64 → get_or q.store_words b 0 ≡ number (hits b) q.ring
  pub loads_pending : q.pending_loads ≡ number waiting q.ring
  pub loads_unreported : q.unreported_loads ≡ number unreported q.ring
  pub stores_waiting : q.waiting_stores ≡ number unfilled q.ring

module _ (q : Lsq) (i : IsTracked q) (k : ℕ) (l : k < q.ring.n) (v : LsqEntry) where
  pub sound-put :
      sound v ≡ true
      → (j : ℕ) → j < (Ring.put q.ring (index_of q.ring k) v).n
      → sound (nth fresh (Ring.put q.ring (index_of q.ring k) v) j) ≡ true
  unfolding Ring.put
  sound-put s j b = elim (ℕ_discrete j k) [
    | yes e ↦
        ap (λ x. sound (nth fresh (Ring.put q.ring (index_of q.ring k) v) x)) e
        ∙ ap sound (nth-put_self fresh q.ring i.ring k v l)
        ∙ s
    | no d ↦ ap sound (nth-put_ne fresh q.ring i.ring k v l j b d) ∙ i.entries j b
  ]

  pub ring-put : IsValid (Ring.put q.ring (index_of q.ring k) v)
  ring-put = put-IsValid q.ring i.ring (index_of q.ring k) v

  module _ (p : LsqEntry → Bool) where
    pub keep :
        {s : SlotSet}
        → Tracks q.ring p s
        → p v ≡ p (Ring.at fresh q.ring (index_of q.ring k))
        → Tracks (Ring.put q.ring (index_of q.ring k) v) p s
    keep {s} t e = put-Tracks p q.ring i.ring s t k l v (unfold nth in e)

    pub enter :
        {s : SlotSet}
        → Tracks q.ring p s
        → p v ≡ true
        → Tracks (Ring.put q.ring (index_of q.ring k) v) p (SlotSet.insert s (index_of q.ring k))
    enter {s} t e = put-Tracks_insert p q.ring i.ring s t k l v e

    pub leave :
        {s : SlotSet}
        → Tracks q.ring p s
        → p v ≡ false
        → Tracks (Ring.put q.ring (index_of q.ring k) v) p (SlotSet.erase s (index_of q.ring k))
    leave {s} t e = put-Tracks_erase p q.ring i.ring s t k l v e

    pub count_same :
        p v ≡ p (Ring.at fresh q.ring (index_of q.ring k))
        → {c : ℕ} → c ≡ number p q.ring
        → c ≡ number p (Ring.put q.ring (index_of q.ring k) v)
    count_same e h = h ∙ number-put p q.ring i.ring k l v (unfold nth in e)

    pub count_up :
        p (Ring.at fresh q.ring (index_of q.ring k)) ≡ false
        → p v ≡ true
        → {c : ℕ} → c ≡ number p q.ring
        → u32 (c + 1) ≡ number p (Ring.put q.ring (index_of q.ring k) v)
    count_up e f h =
        ap (λ n. u32 (n + 1)) h ∙ number-put_up p q.ring i.ring k l v (unfold nth in e) f

    pub count_down :
        p (Ring.at fresh q.ring (index_of q.ring k)) ≡ true
        → p v ≡ false
        → {c : ℕ} → c ≡ number p q.ring
        → sub32 c 1 ≡ number p (Ring.put q.ring (index_of q.ring k) v)
    count_down e f h =
        ap (λ n. sub32 n 1) h ∙ number-put_down p q.ring i.ring k l v (unfold nth in e) f
