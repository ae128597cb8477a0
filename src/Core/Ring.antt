-- ===== src/Core/Ring.antt =====
-- core/ring.h: the fixed-capacity ring, oldest entry at the head.
pub mod Index
pub mod Contents
pub mod Write
mod Tests
use rv_o.Base.{
  ℕ, zero, suc, ◌+◌, ◌<◌, ◌≤◌, ◌^◌, ◌≡◌, Bool, ◌&&◌, List, [], ◌∷◌, get_or, set, replicate, length,
  ltb, leb, ◌==◌, if◌then◌else◌, u32, sub32,
}

-- `template <class T> class Ring`; the counters are `uint32_t`.
pub record Ring {ℓ} (A : Type ℓ) : Type ℓ where
  pub e : List A
  pub capacity : ℕ
  pub head_idx : ℕ
  pub n : ℕ

-- `T{}`, what a fresh slot holds, is the parameter `fresh`.
module _ {ℓ} {A : Type ℓ} (fresh : A) where
  unfoldable pub make : ℕ → Ring A
  make capacity = record { e = replicate capacity fresh; capacity = capacity; head_idx = 0; n = 0 }

  -- `e[idx]`; the vector is never read out of range.
  unfoldable pub at : Ring A → ℕ → A
  at r idx = get_or r.e idx fresh

module _ {ℓ} {A : Type ℓ} where
  unfoldable pub empty : Ring A → Bool
  empty r = r.n == 0

  unfoldable pub full : Ring A → Bool
  full r = r.n == r.capacity

  unfoldable pub count : Ring A → ℕ
  count r = r.n

  -- At most one wrap; the subtraction comes first.
  unfoldable pub index_of : Ring A → ℕ → ℕ
  index_of r k =
      let to_end = sub32 r.capacity r.head_idx in
      if ltb k to_end then u32 (r.head_idx + k) else sub32 k to_end

  unfoldable pub live : Ring A → ℕ → Bool
  live r idx =
      let distance =
        if leb r.head_idx idx
        then sub32 idx r.head_idx
        else sub32 r.capacity (sub32 r.head_idx idx) in
      ltb idx r.capacity && ltb distance r.n

  unfoldable pub pop_head : Ring A → Ring A
  pop_head r = record r { head_idx = index_of r 1; n = sub32 r.n 1 }

  unfoldable pub pop_tail : Ring A → Ring A
  pop_tail r = record r { n = sub32 r.n 1 }

  unfoldable pub clear : Ring A → Ring A
  clear r = record r { head_idx = 0; n = 0 }

  -- A write through the reference that `at` returns.
  unfoldable pub put : Ring A → ℕ → A → Ring A
  put r idx v = record r { e = set r.e idx v }

module _ {ℓ} {A : Type ℓ} (fresh : A) where
  unfoldable pub head : Ring A → A
  unfolding at
  head r = at fresh r r.head_idx

  unfoldable pub tail : Ring A → A
  unfolding at
  tail r = at fresh r (index_of r (sub32 r.n 1))

  unfoldable pub nth : Ring A → ℕ → A
  unfolding at
  nth r k = at fresh r (index_of r k)

  -- The ring with its new slot, and the slot's index.
  unfoldable pub alloc : Ring A → Ring A × ℕ
  alloc r = let idx = index_of r r.n in (record r { e = set r.e idx fresh; n = u32 (r.n + 1) }, idx)

  unfoldable pub push : Ring A → A → Ring A
  unfolding alloc put
  push r v = let (r', idx) = alloc r in put r' idx v
