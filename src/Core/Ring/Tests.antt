-- ===== src/Core/Ring/Tests.antt =====
-- A ring of three slots that has wrapped.
use rv_o.Base.{ℕ, ◌≡◌, refl, arith, true, false, [], ◌∷◌, ◌++◌}
use rv_o.Core.Ring.{Ring, empty, head, tail, pop_head, pop_tail, live, index_of, nth}
use rv_o.Core.Ring.Index.{IsValid}
use rv_o.Core.Ring.Contents.{contents, contents_pops}

abbrev wrapped : Ring ℕ
wrapped = record { e = 30 ∷ 10 ∷ 20 ∷ []; capacity = 3; head_idx = 2; n = 2 }

wrapped-IsValid : IsValid wrapped
wrapped-IsValid = omega arith

contents-wrapped : contents 0 wrapped ≡ 20 ∷ 30 ∷ []
unfolding nth index_of
contents-wrapped = refl

live_slots : (live wrapped 2 ≡ true) × (live wrapped 0 ≡ true) × (live wrapped 1 ≡ false)
unfolding live
live_slots = (refl, refl, refl)

contents_pops_example :
    (contents 0 wrapped ≡ head 0 wrapped ∷ contents 0 (pop_head wrapped))
    × (contents 0 wrapped ≡ contents 0 (pop_tail wrapped) ++ tail 0 wrapped ∷ [])
contents_pops_example = contents_pops 0 wrapped wrapped-IsValid (unfold empty in refl)
