-- ===== src/Core/Predictor/Room.antt =====
-- core/predictor.cpp: how the constructor sizes the ring of the global history.
use rv_o.Base.{
  ℕ, zero, suc, ◌+◌, ◌*◌, ◌^◌, ◌≤◌, ◌<◌, ◌≡◌, sym, ap, ◌∙◌, arith, Bool-cases, inl, inr, List,
  length, subst, length-replicate, ltb, ◌==◌, if◌then◌else◌, u32,
}
use native.Mathlib.Nat.{pow-succ', mul_assoc}
use rv_o.Sim.Config.{SimConfig}
use rv_o.Core.Predictor.{ring_need, grow_ring, make}

double : (fuel ring : ℕ) → ring * 2 ^ suc fuel ≡ ring * 2 * 2 ^ fuel
double fuel ring = ap (◌*◌ ring) (pow-succ' 2 fuel) ∙ sym (mul_assoc ring 2 (2 ^ fuel))

-- With enough doublings left, the ring grows to what is needed, and not to twice as much; it does
-- not wrap, since it is doubled only below 2 ^ 31.
grow_ring-bounds :
    (fuel need ring : ℕ)
    → need ≤ 2 ^ 31
    → need ≤ ring * 2 ^ fuel
    → ring ≤ 2 * need
    → (need ≤ grow_ring fuel need ring) × (grow_ring fuel need ring ≤ 2 * need)
unfolding grow_ring
grow_ring-bounds zero need ring s h l = (omega arith, l)
grow_ring-bounds (suc fuel) need ring s h l = elim (Bool-cases (ltb ring need)) [
  | inl e ↦
      let whole : u32 (ring * 2) ≡ ring * 2 = ground (arith, e, s) in
      rw (e, grow_ring)
        (subst (λ n. (need ≤ grow_ring fuel need n) × (grow_ring fuel need n ≤ 2 * need))
          (sym whole)
          (grow_ring-bounds fuel need (ring * 2) s (subst (λ n. need ≤ n) (double fuel ring) h)
            (ground (arith, e))))
  | inr e ↦ rw (e, grow_ring) (ground (arith, e), l)
]

-- With TAGE tables, the ring of history bits that the constructor makes holds the longest history,
-- two bits for every instruction that the reorder buffer and the fetch queue can have in flight, and
-- 64 more, and at most twice as many; its mask is one below its length, and each of its positions
-- has three folds for each table. The constructor's loop comes to its end within 32 doublings. It
-- supposes that the number of bits needed, which the source computes in 32 bits, is at most 2 ^ 31.
pub make-room :
    (c : SimConfig) (hist_len : List ℕ)
    → 0 < c.tage_tables
    → c.tage_max_hist + 2 * (c.rob_size + c.fetch_q_size) + 64 ≤ 2 ^ 31
    → let p = make c hist_len in
      (c.tage_max_hist + 2 * (c.rob_size + c.fetch_q_size) + 64 ≤ length p.hist_bits)
      × (length p.hist_bits ≤ 2 * (c.tage_max_hist + 2 * (c.rob_size + c.fetch_q_size) + 64))
      × (p.ring_mask + 1 ≡ length p.hist_bits)
      × (length p.folded ≡ length p.hist_bits * c.tage_tables * 3)
unfolding make
make-room c hist_len t h =
    let whole : ring_need c ≡ c.tage_max_hist + 2 * (c.rob_size + c.fetch_q_size) + 64 =
      omega (arith, h) in
    let ring = if c.tage_tables == 0 then 0 else grow_ring 32 (ring_need c) 64 in
    let (low, high) =
      grow_ring-bounds 32 (ring_need c) 64 (omega (arith, h)) (omega (arith, h))
        (omega (arith, h)) in
    let e : ring ≡ grow_ring 32 (ring_need c) 64 = ground (arith, t) in
    let bits : length (make c hist_len).hist_bits ≡ ring = length-replicate ring 0 in
    (
      omega (arith, bits, e, low, whole),
      omega (arith, bits, e, high, whole),
      omega (arith, bits, e, low, whole),
      length-replicate _ 0 ∙ ap (λ n. n * c.tage_tables * 3) (sym bits),
    )
