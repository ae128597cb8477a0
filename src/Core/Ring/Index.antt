-- ===== src/Core/Ring/Index.antt =====
-- The index arithmetic of the ring.
use rv_o.Base.{
  ℕ, suc, ◌+◌, ◌-◌, ◌%◌, ◌^◌, ◌≤◌, ◌<◌, ◌≡◌, ◌↔◌, arith, true, false, length, set, length-set,
  length-replicate, if◌then◌else◌, leb, ltb,
}
use native.Mathlib.Nat.{mod-eq_of_lt, mod-eq-sub-mod}
use native.Mathlib.Decide.{dec_lt}
use rv_o.Core.Ring.{Ring, make, index_of, live, push, pop_head, pop_tail, put, empty, full}

-- The representation invariant. The capacities of the program are below 2 ^ 31.
pub record IsValid {ℓ} {A : Type ℓ} (r : Ring A) : Type 0 where
  pub storage : length r.e ≡ r.capacity
  pub positive : 0 < r.capacity
  pub small : r.capacity < 2 ^ 31
  pub head_in : r.head_idx < r.capacity
  pub fits : r.n ≤ r.capacity

module _ {ℓ} {A : Type ℓ} (fresh : A) where
  pub make-IsValid :
      (capacity : ℕ) → 0 < capacity → capacity < 2 ^ 31 → IsValid (make fresh capacity)
  unfolding make
  make-IsValid capacity p s = record {
    storage = length-replicate capacity fresh;
    positive = p;
    small = s;
    head_in = p;
    fits = omega arith;
  }

  pub push-IsValid : (r : Ring A) (v : A) → IsValid r → full r ≡ false → IsValid (push fresh r v)
  unfolding push full index_of
  push-IsValid r v h f = ground (
    arith,
    length-set r.e (index_of r r.n) fresh,
    length-set (set r.e (index_of r r.n) fresh) (index_of r r.n) v,
  )

module _ {ℓ} {A : Type ℓ} (r : Ring A) (h : IsValid r) where
  -- Up to the capacity, `index_of` is addition modulo the capacity.
  pub index_of-mod : (k : ℕ) → k ≤ r.capacity → index_of r k ≡ (r.head_idx + k) % r.capacity
  unfolding index_of
  index_of-mod k b = elim (dec_lt (r.head_idx + k) r.capacity) [
    | yes p ↦ ground (arith, mod-eq_of_lt p)
    | no p ↦ ground (
      arith,
      mod-eq-sub-mod {n = r.head_idx + k} {m = r.capacity} (omega arith),
      mod-eq_of_lt {n = r.head_idx + k - r.capacity} {m = r.capacity} (omega arith),
    )
  ]

  -- Before the end of the storage, and after the wrap.
  pub index_of_split :
      (k : ℕ)
      → k < r.capacity
      → index_of r k ≡ (
          if ltb k (r.capacity - r.head_idx) then r.head_idx + k else k - (r.capacity - r.head_idx))
  unfolding index_of
  index_of_split k l = ground (arith, l, h.head_in, h.small)

  pub index_of-lt : (k : ℕ) → k ≤ r.capacity → index_of r k < r.capacity
  unfolding index_of
  index_of-lt k b = ground arith

  pub index_of_injective :
      (j k : ℕ) → j < r.capacity → k < r.capacity → index_of r j ≡ index_of r k → j ≡ k
  unfolding index_of
  index_of_injective j k hj hk e = ground arith

  pub pop_head-IsValid : empty r ≡ false → IsValid (pop_head r)
  unfolding pop_head empty index_of
  pop_head-IsValid e = ground arith

  pub pop_tail-IsValid : empty r ≡ false → IsValid (pop_tail r)
  unfolding pop_tail empty
  pop_tail-IsValid e = ground arith

  pub put-IsValid : (idx : ℕ) (v : A) → IsValid (put r idx v)
  unfolding put
  put-IsValid idx v = ground (arith, length-set r.e idx v)

  pub index_of-pop_head : (k : ℕ) → k < r.capacity → index_of (pop_head r) k ≡ index_of r (suc k)
  unfolding pop_head index_of
  index_of-pop_head k b = ground arith

  -- `live` answers for the indices of the ring's `n` entries and for no other.
  pub live_iff :
      (idx : ℕ) → idx < 2 ^ 32 → (live r idx ≡ true) ↔ ((k : ℕ) × (k < r.n) × (index_of r k ≡ idx))
  unfolding live index_of
  live_iff idx w = (
    λ l. (
      if leb r.head_idx idx then idx - r.head_idx else r.capacity - (r.head_idx - idx),
      ground arith,
      ground arith,
    ),
    λ p. ground (arith, p.1, p.2),
  )
