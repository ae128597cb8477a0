-- ===== src/Memory/RoundTrip.antt =====
-- What a load sees of a store.
use rv_o.Base.{
  ℕ, zero, suc, ◌+◌, ◌*◌, ◌/◌, ◌%◌, ◌^◌, ◌≤◌, ◌<◌, ◌≡◌, ◌⊎◌, refl, arith, none, some, List, length,
  get_or, set, length-set, get_or-set_self, get_or-set_ne, ltb, if◌then◌else◌, ◌∙◌, inl, ap,
  bit_or_comm, bit_or, bit_or_low, sym, mod-mul,
}
use native.Mathlib.Nat.{add_comm, pow-suc, mod-lt, one-le-pow}
use native.Mathlib.Numerals.{towards_suc}
use native.Mathlib.Decide.{ℕ_discrete}
use rv_o.Memory.{Memory, load, store, load_from, store_from}

module _ (a v : ℕ) where
  pub length-store_from :
      (left b : ℕ) (bytes : List ℕ) → length (store_from bytes a left b v) ≡ length bytes
  unfolding store_from
  length-store_from zero b bytes = refl
  length-store_from (suc left) b bytes =
      length-store_from left (b + 1) (set bytes (a + b) (v / 2 ^ (8 * b) % 2 ^ 8))
      ∙ length-set bytes (a + b) (v / 2 ^ (8 * b) % 2 ^ 8)

  -- Outside the bytes still to be written nothing changes.
  pub store_from-outside :
      (left b : ℕ) (bytes : List ℕ) (j : ℕ)
      → (j < a + b) ⊎ (a + b + left ≤ j)
      → get_or (store_from bytes a left b v) j 0 ≡ get_or bytes j 0
  unfolding store_from
  store_from-outside zero b bytes j h = refl
  store_from-outside (suc left) b bytes j h =
      let v' = v / 2 ^ (8 * b) % 2 ^ 8 in
      store_from-outside left (b + 1) (set bytes (a + b) v') j (omega arith)
      ∙ get_or-set_ne bytes (a + b) j v' 0 (omega arith)

  pub store_from-inside :
      (left b : ℕ) (bytes : List ℕ) (k : ℕ)
      → a + b + left ≤ length bytes
      → b ≤ k
      → k < b + left
      → get_or (store_from bytes a left b v) (a + k) 0 ≡ v / 2 ^ (8 * k) % 2 ^ 8
  unfolding store_from
  store_from-inside zero b bytes k fits lo hi = absurd (omega arith)
  store_from-inside (suc left) b bytes k fits lo hi =
      let v' = v / 2 ^ (8 * b) % 2 ^ 8 in
      let bytes' = set bytes (a + b) v' in
      elim (ℕ_discrete k b) [
        | yes e ↦ rw e (
            store_from-outside left (b + 1) bytes' (a + b) (inl (omega arith))
            ∙ get_or-set_self bytes (a + b) v' 0 (omega arith))
        | no ne ↦
            store_from-inside left (b + 1) bytes' k (rw length-set (omega arith)) (omega arith)
              (omega arith)
      ]

two_pow_byte : (b : ℕ) → 2 ^ (8 * (b + 1)) ≡ 2 ^ (8 * b) * 2 ^ 8
two_pow_byte b =
    let e : 8 * (b + 1) ≡ 8 * b + 8 = omega arith in
    rw e (simp towards_suc (omega (arith, pow-suc 2 (8 * b))))

next_digit :
    (v b : ℕ)
    → bit_or (v % 2 ^ (8 * b)) (v / 2 ^ (8 * b) % 2 ^ 8 * 2 ^ (8 * b)) ≡ v % 2 ^ (8 * (b + 1))
next_digit v b =
    bit_or_comm (v % 2 ^ (8 * b)) (v / 2 ^ (8 * b) % 2 ^ 8 * 2 ^ (8 * b))
    ∙ bit_or_low (v % 2 ^ (8 * b)) (8 * b) (v / 2 ^ (8 * b) % 2 ^ 8)
        (mod-lt v (one-le-pow (8 * b) 2 (omega arith)))
    ∙ add_comm (v % 2 ^ (8 * b)) (v / 2 ^ (8 * b) % 2 ^ 8 * 2 ^ (8 * b))
    ∙ sym (rw two_pow_byte (mod-mul v (2 ^ (8 * b)) (2 ^ 8)))

-- Loading bytes that are the digits of `v` puts `v` together again.
load_from-digits :
    (bytes : List ℕ) (a v left b : ℕ)
    → ((k : ℕ) → b ≤ k → k < b + left → get_or bytes (a + k) 0 ≡ v / 2 ^ (8 * k) % 2 ^ 8)
    → load_from bytes a left b (v % 2 ^ (8 * b)) ≡ v % 2 ^ (8 * (b + left))
unfolding load_from
load_from-digits bytes a v zero b h = ap (λ (t : ℕ). v % 2 ^ (8 * t)) (omega arith)
load_from-digits bytes a v (suc left) b h =
    rw (h b (omega arith) (omega arith), next_digit v b)
      (load_from-digits bytes a v left (b + 1) (λ k lo hi. h k (omega arith) (omega arith))
        ∙ ap (λ (t : ℕ). v % 2 ^ (8 * t)) (omega arith))

-- Loads read only their own bytes.
load_from_ext :
    (xs ys : List ℕ) (a left b v : ℕ)
    → ((k : ℕ) → b ≤ k → k < b + left → get_or xs (a + k) 0 ≡ get_or ys (a + k) 0)
    → load_from xs a left b v ≡ load_from ys a left b v
unfolding load_from
load_from_ext xs ys a zero b v h = refl
load_from_ext xs ys a (suc left) b v h = rw (h b (omega arith) (omega arith)) (
    load_from_ext xs ys a left (b + 1) (bit_or v (get_or ys (a + b) 0 * 2 ^ (8 * b)))
      (λ k lo hi. h k (omega arith) (omega arith)))

pub load-eq :
    (m : Memory) (a size : ℕ)
    → load m a size
      ≡ (if ltb (length m.bytes) (a + size) then none else some (load_from m.bytes a size 0 0))
unfolding load
load-eq m a size = ground arith

module _ (m : Memory) (a size v : ℕ) where
  -- A store succeeds exactly when its bytes lie inside the memory, whose size it keeps.
  pub store-eq : store m a size v ≡ (
      if ltb (length m.bytes) (a + size)
      then none
      else some (record { bytes = store_from m.bytes a size 0 v }))
  unfolding store
  store-eq = ground arith

module _ (m m' : Memory) (a size v : ℕ) (stored : store m a size v ≡ some m') where
  stored_bytes : (m'.bytes ≡ store_from m.bytes a size 0 v) × (a + size ≤ length m.bytes)
  unfolding store
  stored_bytes = ground arith

  -- A store that is carried out keeps the size of the memory and is seen by a load of the same
  -- bytes, which gives the value cut to the width; a load of bytes that do not overlap sees what
  -- it saw before.
  pub load-store :
      (length m'.bytes ≡ length m.bytes)
      × (load m' a size ≡ some (v % 2 ^ (8 * size)))
      × ((c n : ℕ) → (c + n ≤ a) ⊎ (a + size ≤ c) → load m' c n ≡ load m c n)
  load-store =
      let (e, fits) = stored_bytes in
      let same : length m'.bytes ≡ length m.bytes =
        ap length e ∙ length-store_from a v size 0 m.bytes in
      let digits =
        load_from-digits m'.bytes a v size 0
          (λ k lo hi. rw e (store_from-inside a v size 0 m.bytes k (omega arith) lo hi)) in
      (
        same,
        rw (load-eq, same) (ground (arith, digits)),
        λ c n apart.
            rw (load-eq m' c n, load-eq m c n, same, e)
              (ap (λ t. if ltb (length m.bytes) (c + n) then none else some t)
                (load_from_ext (store_from m.bytes a size 0 v) m.bytes c n 0 0
                  (λ k lo hi. store_from-outside a v size 0 m.bytes (c + k) (omega arith)))),
      )
