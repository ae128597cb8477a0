-- ===== src/Core/LoadChoice/Order.antt =====
-- core/ooo.cpp: what the choice of a load for the cache has made sure of.
use rv_o.Base.{
  ℕ, ◌-◌, ◌^◌, ◌≤◌, ◌≡◌, refl, sym, ap, ◌∙◌, arith, subst, Bool, true, false, ◌&&◌, ◌||◌, not, none,
  some, List, length, get_or-set, ltb, leb, some_injective, ◌==◌, if◌then◌else◌, if-both,
  Bool-cases, inl, inr,
}
use rv_o.Sim.Config.{SimConfig}
use rv_o.Core.Ring
use rv_o.Core.Ring.{Ring}
use rv_o.Core.Rob.{RobEntry, fresh_entry}
use rv_o.Core.Lsq
use rv_o.Core.Lsq.{LsqEntry, fresh, Lsq, complete_load}
use rv_o.Core.Lsq.Oldest.{oldest_unknown_store, oldest_pending_load}
use rv_o.Core.StoreBuffer.{StoreBuffer}
use rv_o.Core.LoadSearch.{search}
use rv_o.Core.LoadChoice.{
  is_conservative, is_speculative, Candidate, Choice, dep_entry, cautious, visit_candidate, choose,
}
use rv_o.Core.LoadChoice.Kept.{Ends, visit-done}
use rv_o.Core.LoadChoice.Search.{
  SameLoads, complete_load-SameLoads, search-SameLoads, search-unchanged,
}

abbrev pub faulted : Ring RobEntry → LsqEntry → Bool
faulted rob e = not ((Ring.at fresh_entry rob e.rob_idx).fault == 0)

-- What is known of a load that is chosen from the queue `q`, with the queue `q'` after the choice.
pub record IsAllowed (cfg : SimConfig) (dep_table : List ℕ) (rob : Ring RobEntry) (b : StoreBuffer)
    (q : Lsq) (unknown_seq pending_seq : ℕ) (q' : Lsq) (c : Candidate) : Type 0 where
  pub in_turn : (Lsq.at q c.cand_ring).seq ≤ pending_seq
  pub no_fault : faulted rob (Lsq.at q c.cand_ring) ≡ false
  pub wall : c.past_wall ≡ ltb unknown_seq (Lsq.at q c.cand_ring).seq
  pub careless : (c.past_wall && cautious cfg dep_table (Lsq.at q c.cand_ring)) ≡ false
  pub unblocked : (search q' b c.cand_ring).blocked ≡ false
  pub not_forwarded : (search q' b c.cand_ring).forwarded ≡ false
  pub none_served :
      is_conservative cfg.mem_order ≡ true
      → (slot : ℕ) → (Lsq.at q' slot).done ≡ true
      → ((Lsq.at q slot).done || faulted rob (Lsq.at q slot)) ≡ true

module _ (cfg : SimConfig) (dep_table : List ℕ) (rob : Ring RobEntry) (b : StoreBuffer)
    (q : Lsq) where
  -- The loads that were completed have faulted.
  abbrev OnlyFaults : Lsq → Type 0
  OnlyFaults q' =
      (slot : ℕ)
      → (Lsq.at q' slot).done ≡ true
      → ((Lsq.at q slot).done || faulted rob (Lsq.at q slot)) ≡ true

  complete_load-OnlyFaults :
      (q' : Lsq) (slot : ℕ)
      → SameLoads q q'
      → faulted rob (Lsq.at q' slot) ≡ true
      → OnlyFaults q'
      → OnlyFaults (complete_load q' slot 0)
  unfolding complete_load Ring.put Ring.at
  complete_load-OnlyFaults q' slot same e h x =
      let completed : LsqEntry = record (Lsq.at q' slot) { value = 0; done = true } in
      let fault_at : ℕ → Bool = λ k. not ((Ring.at fresh_entry rob k).fault == 0) in
      let here = slot == x && ltb slot (length q'.ring.e) in
      let done_or_faulted : LsqEntry → Type 0 =
        λ v. v.done ≡ true → ((Lsq.at q x).done || faulted rob (Lsq.at q x)) ≡ true in
      subst done_or_faulted (sym (get_or-set q'.ring.e slot x completed fresh)) (
        if-both done_or_faulted here completed (Lsq.at q' x)
          (λ c _.
            let there : slot ≡ x = ground (arith, c) in
            let faulted_there : fault_at (Lsq.at q x).rob_idx ≡ true =
              sym (ap fault_at (same x).2)
              ∙ sym (ap (λ k. fault_at (Lsq.at q' k).rob_idx) there)
              ∙ e in
            ground (arith, faulted_there))
          (λ _. h x))

  module _ (unknown_seq pending_seq : ℕ) where
    record Going (s : Choice) : Type 0 where
      pub loads : SameLoads q s.queue
      pub nothing : s.cand ≡ none
      pub only_faults : is_conservative cfg.mem_order ≡ true → OnlyFaults s.queue

    abbrev Chosen : Choice → Type 0
    Chosen s =
        (c : Candidate)
        → s.cand ≡ some c
        → IsAllowed cfg dep_table rob b q unknown_seq pending_seq s.queue c

    going-Chosen : (s : Choice) → s.cand ≡ none → Chosen s
    going-Chosen s n c e = absurd (ground (arith, n, e))

    -- A load that is forwarded or blocked ends the visit in the conservative order only.
    passed-Ends :
        (s : Choice) (queue : Lsq)
        → Going s
        → SameLoads q queue
        → Ends Going Chosen (record s { queue = queue }, not (is_conservative cfg.mem_order))
    passed-Ends s queue k same = elim (Bool-cases (is_conservative cfg.mem_order)) [
      | inl e ↦
          subst (λ t. Ends Going Chosen (record s { queue = queue }, not t)) (sym e)
            (going-Chosen (record s { queue = queue }) k.nothing)
      | inr e ↦
          subst (λ t. Ends Going Chosen (record s { queue = queue }, not t)) (sym e)
            (record {
              loads = same;
              nothing = k.nothing;
              only_faults = λ t. absurd (ground (arith, e, t));
            })
    ]

    visit_candidate-Ends :
        (s : Choice) (slot : ℕ)
        → Going s
        → Ends Going Chosen (visit_candidate cfg dep_table rob b unknown_seq pending_seq s slot)
    unfolding visit_candidate cautious
    visit_candidate-Ends s slot k =
        let le = Lsq.at s.queue slot in
        let found = search s.queue b slot in
        let fault_at : ℕ → Bool = λ x. not ((Ring.at fresh_entry rob x).fault == 0) in
        let wall = ltb unknown_seq le.seq in
        let cautious_at : ℕ → Bool = λ x.
          not (is_speculative cfg.mem_order)
          || (cfg.dep_predictor && leb 2 (dep_entry dep_table x)) in
        let after : Choice × Bool → Type 0 = Ends Going Chosen in
        let searched : SameLoads q found.queue = search-SameLoads q s.queue b slot k.loads in
        let (ages, pcs, places) = k.loads slot in
        if-both after (ltb pending_seq le.seq) _ _ (λ _. going-Chosen s k.nothing)
          (λ turn.
            if-both after (fault_at le.rob_idx) _ _
              (λ bad. record {
                loads = complete_load-SameLoads q s.queue slot 0 k.loads;
                nothing = k.nothing;
                only_faults =
                    λ t. complete_load-OnlyFaults s.queue slot k.loads bad (k.only_faults t);
              })
              (λ fine.
                if-both after (wall && cautious cfg dep_table le) _ _ (λ _. k)
                  (λ care.
                    if-both after found.forwarded _ _ (λ _. passed-Ends s found.queue k searched)
                      (λ quiet.
                        let same_queue = search-unchanged s.queue b slot quiet in
                        if-both after (not found.blocked) _ _
                          (λ not_blocked c e.
                            subst
                              (IsAllowed cfg dep_table rob b q unknown_seq pending_seq found.queue)
                              (some_injective e)
                              (record {
                                in_turn = ground (arith, turn, ages);
                                no_fault = ap fault_at (sym places) ∙ fine;
                                wall = ap (ltb unknown_seq) ages;
                                careless = sym (ap (λ x. wall && cautious_at x) pcs) ∙ care;
                                unblocked =
                                    ap (λ x. (search x b slot).blocked) same_queue
                                    ∙ ground (arith, not_blocked);
                                not_forwarded =
                                    ap (λ x. (search x b slot).forwarded) same_queue ∙ quiet;
                                none_served =
                                    λ t. subst OnlyFaults (sym same_queue) (k.only_faults t);
                              }))
                          (λ _. passed-Ends s found.queue k searched)))))

-- The load that is chosen for the cache, if there is one, is an entry that has not faulted. The search
-- for older stores, with the queue as the choice leaves it, neither blocks it nor forwards to it. In
-- the conservative order the load is no younger than the oldest load that waits for the cache, and the
-- choice has completed no load on the way but faulted ones: nothing was forwarded. Where the oldest
-- store without an address is older than the load, which is where it is marked so, the memory order is
-- the speculative one and the dependence predictor, if it is on, has not flagged the load.
pub choose-IsAllowed :
    (cfg : SimConfig) (dep_table : List ℕ) (rob : Ring RobEntry) (b : StoreBuffer) (q : Lsq)
    (c : Candidate)
    → (choose cfg dep_table rob b q).cand ≡ some c
    → IsAllowed cfg dep_table rob b q
        (oldest_unknown_store q)
        (if is_conservative cfg.mem_order then oldest_pending_load q else 2 ^ 64 - 1)
        (choose cfg dep_table rob b q).queue
        c
unfolding choose
choose-IsAllowed cfg dep_table rob b q =
    let unknown_seq = oldest_unknown_store q in
    let pending_seq = if is_conservative cfg.mem_order then oldest_pending_load q else 2 ^ 64 - 1 in
    let begun : Choice = record { queue = q; cand = none } in
    visit-done (visit_candidate cfg dep_table rob b unknown_seq pending_seq)
      (λ s. s.queue.candidates.words) (Going cfg dep_table rob b q unknown_seq pending_seq)
      (Chosen cfg dep_table rob b q unknown_seq pending_seq)
      (λ s k. going-Chosen cfg dep_table rob b q unknown_seq pending_seq s k.nothing)
      (visit_candidate-Ends cfg dep_table rob b q unknown_seq pending_seq) q.candidates.capacity
      (Ring.index_of q.ring 0) begun
      (record {
        loads = λ slot. (refl, refl, refl);
        nothing = refl;
        only_faults = λ _ slot e. ground (arith, e);
      })
