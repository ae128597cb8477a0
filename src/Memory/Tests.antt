-- ===== src/Memory/Tests.antt =====
-- Stores and loads on a small memory.
use rv_o.Base.{ℕ, ◌+◌, ◌*◌, ◌%◌, ◌^◌, ◌≤◌, ◌≡◌, ◌⊎◌, refl, some, none, [], ◌∷◌, length}
use rv_o.Memory.{Memory, make, load, store, load_words}
use rv_o.Memory.RoundTrip.{load-store}

abbrev small : Memory
small = record { bytes = 1 ∷ 2 ∷ 3 ∷ 4 ∷ 5 ∷ 6 ∷ 7 ∷ 8 ∷ [] }

abbrev written : Memory
written = record { bytes = 1 ∷ 2 ∷ 0xcd ∷ 0xab ∷ 5 ∷ 6 ∷ 7 ∷ 8 ∷ [] }

store_half : store small 2 2 0x123abcd ≡ some written
unfolding store
store_half = refl

out_of_range : (load small 5 4 ≡ none) × (store small 8 1 0 ≡ none)
unfolding load store
out_of_range = (refl, refl)

words_in_order : load_words (make 8) (0x04030201 ∷ 0x08070605 ∷ []) ≡ some small
unfolding load_words make
words_in_order = refl

load-store_example :
    (length written.bytes ≡ length small.bytes)
    × (load written 2 2 ≡ some (0x123abcd % 2 ^ (8 * 2)))
    × ((c n : ℕ) → (c + n ≤ 2) ⊎ (2 + 2 ≤ c) → load written c n ≡ load small c n)
load-store_example = load-store small written 2 2 0x123abcd store_half
