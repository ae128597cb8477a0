-- ===== src/Core/SlotSet.antt =====
-- core/slot_set.h: a set of ring slots as a bitmap of 64-bit words, visited in the age order of the
-- ring. The visits are in Visit.
pub mod Member
pub mod Visit
pub mod Bits
pub mod Range
pub mod Walk
pub mod Words
pub mod Newest
pub mod Older
mod Tests
pub mod Order
use rv_o.Base.{ℕ, ◌+◌, ◌/◌, ◌%◌, ◌^◌, List, get_or, set, replicate, bit_and, bit_or, bit_not}

-- `class SlotSet`
pub record SlotSet : Type 0 where
  pub capacity : ℕ
  pub words : List ℕ

unfoldable pub make : ℕ → SlotSet
make capacity = record { capacity = capacity; words = replicate ((capacity + 63) / 64) 0 }

-- `set`
unfoldable pub insert : SlotSet → ℕ → SlotSet
insert s slot = record s {
  words = set s.words (slot / 64) (bit_or (get_or s.words (slot / 64) 0) (2 ^ (slot % 64)));
}

-- `reset`
unfoldable pub erase : SlotSet → ℕ → SlotSet
erase s slot = record s {
  words =
      set s.words (slot / 64)
        (bit_and (get_or s.words (slot / 64) 0) (bit_not 64 (2 ^ (slot % 64))));
}
