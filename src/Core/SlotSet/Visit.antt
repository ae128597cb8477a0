-- ===== src/Core/SlotSet/Visit.antt =====
-- core/slot_set.h: the visits of the members in age order, and of the older ones from the newest.
-- A visitor takes a state and a slot, and says whether to go on; it may change the set, which is
-- read out of the state.
use rv_o.Base.{
  ℕ, zero, suc, ◌+◌, ◌-◌, ◌*◌, ◌/◌, ◌%◌, ◌^◌, Bool, true, false, ◌&&◌, not, List, get_or, leb, ◌==◌,
  if◌then◌else◌, u64, bit_and, bit_not,
}

-- `__builtin_ctzll`, of a number below 2 ^ fuel.
unfoldable pub ctz : ℕ → ℕ → ℕ
ctz zero bits = 0
ctz (suc fuel) bits = let rest = ctz fuel (bits / 2) in if bits % 2 == 1 then 0 else 1 + rest

-- `63 - __builtin_clzll`, the highest bit of a number below 2 ^ fuel.
unfoldable pub high_bit : ℕ → ℕ → ℕ
high_bit zero bits = 0
high_bit (suc fuel) bits =
    let rest = high_bit fuel bits in if leb (2 ^ fuel) bits then fuel else rest

-- `UINT64_MAX << n`
abbrev pub ones_from : ℕ → ℕ
ones_from n = u64 ((2 ^ 64 - 1) * 2 ^ n)

-- `below`
unfoldable pub below : ℕ → ℕ
below bit = if bit == 0 then 2 ^ 64 - 1 else 2 ^ bit - 1

module _ {ℓ} {S : Type ℓ} (f : S → ℕ → S × Bool) where
  -- The loop over the bits of a word, lowest first. Each round clears a bit, so 64 are enough.
  unfoldable pub forward_bits : ℕ → ℕ → ℕ → S → S × Bool
  forward_bits zero bits base s = (s, true)
  forward_bits (suc fuel) bits base s =
      let (s', go) = f s (base + ctz 64 bits) in
      let rest = forward_bits fuel (bit_and bits (bits - 1)) base s' in
      if bits == 0 then (s, true) else if go then rest else (s', false)

  -- The same from the highest bit down.
  unfoldable pub reverse_bits : ℕ → ℕ → ℕ → S → S × Bool
  reverse_bits zero bits base s = (s, true)
  reverse_bits (suc fuel) bits base s =
      let bit = high_bit 64 bits in
      let (s', go) = f s (base + bit) in
      let rest = reverse_bits fuel (bit_and bits (bit_not 64 (2 ^ bit))) base s' in
      if bits == 0 then (s, true) else if go then rest else (s', false)

  module _ (words : S → List ℕ) where
    -- What a loop over the words sees of word `w`: the bits of the slots in `begin` to `end - 1`.
    abbrev pub cut : ℕ → ℕ → ℕ → S → ℕ
    cut begin end w s =
        let bits = get_or (words s) w 0 in
        let low = if w == begin / 64 then bit_and bits (ones_from (begin % 64)) else bits in
        if w == (end - 1) / 64 then bit_and low (below (end % 64)) else low

    -- The words from `w` on, with `left` to go.
    unfoldable pub forward_words : ℕ → ℕ → ℕ → ℕ → S → S × Bool
    forward_words begin end w zero s = (s, true)
    forward_words begin end w (suc left) s =
        let (s', go) = forward_bits 64 (cut begin end w s) (w * 64) s in
        let rest = forward_words begin end (w + 1) left s' in if go then rest else (s', false)

    unfoldable pub forward : ℕ → ℕ → S → S × Bool
    forward begin end s =
        if begin == end
        then (s, true)
        else forward_words begin end (begin / 64) ((end - 1) / 64 + 1 - begin / 64) s

    -- The words from `w + left - 1` down to `w`.
    unfoldable pub reverse_words : ℕ → ℕ → ℕ → ℕ → S → S × Bool
    reverse_words begin end w zero s = (s, true)
    reverse_words begin end w (suc left) s =
        let (s', go) = reverse_bits 64 (cut begin end (w + left) s) ((w + left) * 64) s in
        let rest = reverse_words begin end w left s' in if go then rest else (s', false)

    unfoldable pub reverse : ℕ → ℕ → S → S × Bool
    reverse begin end s =
        if begin == end
        then (s, true)
        else reverse_words begin end (begin / 64) ((end - 1) / 64 + 1 - begin / 64) s

    -- A set of at most 64 slots, in one word.
    unfoldable pub visit_word : ℕ → S → S
    visit_word head s =
        let (s1, go) = forward_bits 64 (bit_and (get_or (words s) 0 0) (ones_from head)) 0 s in
        let (s2, _) = forward_bits 64 (bit_and (get_or (words s1) 0 0) (2 ^ head - 1)) 0 s1 in
        if go && not (head == 0) then s2 else s1

    unfoldable pub visit : ℕ → ℕ → S → S
    visit capacity head s =
        let (s1, go) = forward head capacity s in
        let (s2, _) = forward 0 head s1 in
        if leb capacity 64 then visit_word head s else if go then s2 else s1

    unfoldable pub visit_older : ℕ → ℕ → ℕ → S → S
    visit_older capacity head end s =
        let (s1, go1) = reverse head end s in
        let (s2, go2) = reverse 0 end s in
        let (s3, go3) = reverse head capacity s2 in
        if leb head end then s1 else if go2 then s3 else s2
