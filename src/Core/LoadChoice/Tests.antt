-- ===== src/Core/LoadChoice/Tests.antt =====
-- core/ooo.cpp: a load without a store before it is chosen.
use rv_o.Base.{◌-◌, ◌^◌, ◌≡◌, refl, some, false, [], if◌then◌else◌, test_bit}
use rv_o.Sim.Config.{default_config}
use rv_o.Core.Ring
use rv_o.Core.Ring.{Ring}
use rv_o.Core.Rob.{RobEntry, fresh_entry}
use rv_o.Core.StoreBuffer
use rv_o.Isa.{is_store, access_size}
use rv_o.Core.Ring.{index_of}
use rv_o.Core.Lsq
use rv_o.Core.Lsq.{Lsq, resolve_address, may_store_to_word, word_bucket}
use rv_o.Core.SlotSet
use rv_o.Core.SlotSet.Member.{member}
use rv_o.Core.SlotSet.Visit.{
  visit, visit_older, visit_word, forward_bits, reverse_bits, reverse, reverse_words, ctz, high_bit,
  below,
}
use rv_o.Core.Lsq.Use.{fill_entry, fill_address}
use rv_o.Core.LoadSearch.{search, search_buffer, older_store, visit_store}
use rv_o.Core.Lsq.Oldest.{oldest_seq, oldest_unknown_store, oldest_pending_load}
use rv_o.Core.Lsq.Tests.{resolved}
use rv_o.Core.LoadChoice.{is_conservative, Candidate, visit_candidate, cautious, dep_entry, choose}
use rv_o.Core.LoadChoice.Order.{IsAllowed, choose-IsAllowed}

abbrev rob : Ring RobEntry
rob = Ring.make fresh_entry 4

abbrev first_load : Candidate
first_load = record { cand_ring = 0; past_wall = false }

chosen : (choose default_config [] rob (StoreBuffer.make 4) resolved).cand ≡ some first_load
unfolding fill_entry fill_address Lsq.make Ring.make Lsq.alloc Ring.alloc index_of Ring.at Ring.put
    is_store member resolve_address SlotSet.insert SlotSet.make test_bit access_size choose
    visit_candidate cautious dep_entry search visit_older visit visit_word forward_bits reverse_bits
    reverse reverse_words oldest_unknown_store oldest_pending_load oldest_seq may_store_to_word
    search_buffer older_store visit_store word_bucket Ring.count ctz high_bit below StoreBuffer.make
chosen = refl

choose-IsAllowed_example :
    IsAllowed default_config [] rob
      (StoreBuffer.make 4)
      resolved
      (oldest_unknown_store resolved)
      (if is_conservative default_config.mem_order
        then oldest_pending_load resolved
        else 2 ^ 64 - 1)
      (choose default_config [] rob (StoreBuffer.make 4) resolved).queue
      first_load
choose-IsAllowed_example =
    choose-IsAllowed default_config [] rob (StoreBuffer.make 4) resolved first_load chosen
