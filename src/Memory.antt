-- ===== src/Memory.antt =====
-- memory/memory.h: the flat, little-endian main memory.
pub mod RoundTrip
pub mod Request
pub mod Dram
pub mod Cache
mod Tests
use rv_o.Base.{
  ℕ, zero, suc, ◌+◌, ◌*◌, ◌/◌, ◌%◌, ◌^◌, Option, none, some, List, [], ◌∷◌, length, get_or, set,
  replicate, ltb, if◌then◌else◌, u8, u32, bit_or, ◌++◌, drop, length,
}

-- `std::vector<uint8_t> bytes`
pub record Memory : Type 0 where
  pub bytes : List ℕ

unfoldable pub make : ℕ → Memory
make size = record { bytes = replicate size 0 }

-- `check`: `none` is the fatal error that ends the run.
unfoldable pub check : Memory → ℕ → ℕ → Option (Unit {0})
check m addr len = if ltb (length m.bytes) (addr + len) then none else some tt

-- The loop of `load` from byte `b` on, with `left` bytes to go.
unfoldable pub load_from : List ℕ → ℕ → ℕ → ℕ → ℕ → ℕ
load_from bytes a zero b v = v
load_from bytes a (suc left) b v =
    load_from bytes a left (b + 1) (bit_or v (get_or bytes (a + b) 0 * 2 ^ (8 * b)))

unfoldable pub load : Memory → ℕ → ℕ → Option ℕ
unfolding check load_from
load m a size = elim (check m a size) [ none ↦ none | some _ ↦ some (load_from m.bytes a size 0 0) ]

-- The loop of `store`.
unfoldable pub store_from : List ℕ → ℕ → ℕ → ℕ → ℕ → List ℕ
store_from bytes a zero b v = bytes
store_from bytes a (suc left) b v =
    store_from (set bytes (a + b) (u8 (v / 2 ^ (8 * b)))) a left (b + 1) v

unfoldable pub store : Memory → ℕ → ℕ → ℕ → Option Memory
unfolding check store_from
store m a size v = elim (check m a size) [
  | none ↦ none
  | some _ ↦ some (record { bytes = store_from m.bytes a size 0 v })
]

unfoldable pub load8 : Memory → ℕ → Option ℕ
unfolding load
load8 m a = load m a 1

unfoldable pub load32 : Memory → ℕ → Option ℕ
unfolding load
load32 m a = load m a 4

-- `loadWords` from word `i` on; the address is cast to `uint32_t`.
unfoldable pub load_words_from : Memory → ℕ → List ℕ → Option Memory
unfolding store
load_words_from m i [] = some m
load_words_from m i (w ∷ ws) = elim (store m (u32 (i * 4)) 4 w) [
  | none ↦ none
  | some m' ↦ load_words_from m' (i + 1) ws
]

unfoldable pub load_words : Memory → List ℕ → Option Memory
unfolding load_words_from
load_words m ws = load_words_from m 0 ws

-- `memcpy` of the image to address 0, after the check.
unfoldable pub load_bytes : Memory → List ℕ → Option Memory
unfolding check
load_bytes m image = elim (check m 0 (u32 (length image))) [
  | none ↦ none
  | some _ ↦ some (record { bytes = image ++ drop (length image) m.bytes })
]
