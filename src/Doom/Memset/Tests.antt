-- ===== src/Doom/Memset/Tests.antt =====
-- doom/memops.c: runs of `memset`.
use rv_o.Base.{ℕ, ◌≡◌, refl, List, ◌++◌, replicate, u8}
use rv_o.Memory.{store_from}
use rv_o.Doom.Memset.{fill_bytes, align, put_word, pattern_of, set_fours, set_words, memset}
use rv_o.Doom.Memset.Loops.{memset-fill}

abbrev blank : List ℕ
blank = replicate 32 0

-- Three bytes up to the boundary, four words at once, one word, and two bytes.
abbrev filled : List ℕ
filled = replicate 1 0 ++ replicate 25 171 ++ replicate 6 0

memset_of_25 : memset blank 1 4523 25 ≡ filled
unfolding memset align set_fours set_words fill_bytes put_word pattern_of store_from
memset_of_25 = refl

memset-fill_example : memset blank 1 4523 25 ≡ fill_bytes 25 blank 1 (u8 4523)
memset-fill_example = memset-fill blank 1 4523 25
