-- ===== src/Doom/Memset.antt =====
-- doom/memops.c: `memset` a word at a time. Its `memcpy` is not modelled.
pub mod Loops
mod Tests
use rv_o.Base.{
  ℕ, zero, suc, ◌+◌, ◌-◌, ◌*◌, true, false, List, set, leb, ◌==◌, if◌then◌else◌, u8, u32, bit_and,
}
use rv_o.Memory.{store_from}

-- `while (count--) *out++ = byte`. The guest's memory is the list of its bytes.
unfoldable pub fill_bytes : ℕ → List ℕ → ℕ → ℕ → List ℕ
fill_bytes zero m out byte = m
fill_bytes (suc count) m out byte = fill_bytes count (set m out byte) (out + 1) byte

-- The memory between the loops, with the address and the count that are left.
pub record Progress : Type 0 where
  pub mem : List ℕ
  pub out : ℕ
  pub count : ℕ

-- The loop that brings `out` to a word boundary.
unfoldable pub align : List ℕ → ℕ → ℕ → ℕ → Progress
align m out byte zero = record { mem = m; out = out; count = zero }
align m out byte (suc count) =
    let rest = align (set m out byte) (out + 1) byte count in
    if bit_and out 3 == 0 then record { mem = m; out = out; count = suc count } else rest

-- `byte * 0x01010101u`
unfoldable pub pattern_of : ℕ → ℕ
pattern_of byte = u32 (byte * 16843009)

-- `*w = pattern`
unfoldable pub put_word : List ℕ → ℕ → ℕ → List ℕ
unfolding store_from
put_word m out v = store_from m out 4 0 v

-- `for (; count >= 16; count -= 16, w += 4)`, on fuel.
unfoldable pub set_fours : ℕ → ℕ → Progress → Progress
unfolding put_word
set_fours zero v p = p
set_fours (suc fuel) v p =
    let m1 = put_word p.mem p.out v in
    let m2 = put_word m1 (p.out + 4) v in
    let m3 = put_word m2 (p.out + 8) v in
    let m4 = put_word m3 (p.out + 12) v in
    let rest = set_fours fuel v (record { mem = m4; out = p.out + 16; count = p.count - 16 }) in
    if leb 16 p.count then rest else p

-- `for (; count >= 4; count -= 4) *w++ = pattern`, on fuel.
unfoldable pub set_words : ℕ → ℕ → Progress → Progress
unfolding put_word
set_words zero v p = p
set_words (suc fuel) v p =
    let rest =
      set_words fuel v
        (record { mem = put_word p.mem p.out v; out = p.out + 4; count = p.count - 4 }) in
    if leb 4 p.count then rest else p

-- `memset`: the memory after it. Each round takes off some of the count, which is the fuel.
unfoldable pub memset : List ℕ → ℕ → ℕ → ℕ → List ℕ
unfolding align set_fours set_words fill_bytes pattern_of
memset m destination value count =
    let byte = u8 value in
    let p0 = align m destination byte count in
    let p1 = set_fours count (pattern_of byte) p0 in
    let p2 = set_words count (pattern_of byte) p1 in fill_bytes p2.count p2.mem p2.out byte
