-- ===== src/Base/Bits.antt =====
-- Bit operations at variables, bit by bit.
use Prim.Native.Nat.{ℕ, zero, suc, ◌+◌, ◌-◌, ◌*◌, ◌/◌, ◌%◌, ◌^◌, ◌≤◌, ◌<◌, min, max}
use Prim.Native.Nat.{
  bit_and, bit_or, bit_xor, digits, bitwise, differ, bit_and-bitwise, bit_or-bitwise,
  bit_xor-bitwise,
}
use mathlib.Core.Path.{◌≡◌, refl, sym, ap, ◌∙◌}
use mathlib.Core.Bool.{Bool, false, not, ◌&&◌, ◌||◌}
use native.Mathlib.Nat.{add_comm, pow-suc, pow-succ', one-le-pow, div-add-mod, div-div-eq-div-mul}
use native.Mathlib.Omega.{arith}
use rv_o.Base.Tests.{◌==◌}

-- The native operations stand for `digits`, a recursion on the first operand with fuel. More fuel
-- than the operand makes no difference.
module _ (other : ℕ → ℕ) (digit : ℕ → ℕ → ℕ) where
  spare_fuel : (n a b : ℕ) → a ≤ n → digits other digit (suc n) a b ≡ digits other digit n a b
  spare_fuel n zero b h = unused n
    where
      unused : (k : ℕ) → digits other digit (suc k) 0 b ≡ digits other digit k 0 b
      unused zero = refl
      unused (suc k) = refl
  spare_fuel zero (suc a) b h = absurd (omega arith)
  spare_fuel (suc n) (suc a) b h =
      ap (λ t. t * 2 + digit (suc a % 2) (b % 2)) (spare_fuel n (suc a / 2) (b / 2) (omega arith))

  all_spare : (d n a b : ℕ) → a ≤ n → digits other digit (d + n) a b ≡ digits other digit n a b
  all_spare zero n a b h = ap (λ k. digits other digit k a b) (omega arith)
  all_spare (suc d) n a b h =
      ap (λ k. digits other digit k a b) {y = suc (d + n)} (omega arith)
      ∙ spare_fuel (d + n) a b (omega arith)
      ∙ all_spare d n a b h

  lowest_digit :
      (a b : ℕ)
      → bitwise other digit (suc a) b
        ≡ bitwise other digit (suc a / 2) (b / 2) * 2 + digit (suc a % 2) (b % 2)
  lowest_digit a b =
      let half = suc a / 2 in
      let spare : a - half + half ≡ a = omega arith in
      ap (λ t. t * 2 + digit (suc a % 2) (b % 2))
        (ap (λ k. digits other digit k half (b / 2)) (sym spare)
          ∙ all_spare (a - half) half half (b / 2) (omega arith))

-- The lowest bit of each operation, and the operation on the bits above it.
pub bit_and_step : (v w : ℕ) → bit_and v w ≡ min (v % 2) (w % 2) + 2 * bit_and (v / 2) (w / 2)
bit_and_step zero w = rw (bit_and-bitwise 0 w, bit_and-bitwise 0 (w / 2)) (omega arith)
bit_and_step (suc v) w =
    rw (bit_and-bitwise (suc v) w, bit_and-bitwise (suc v / 2) (w / 2))
      (omega (arith, lowest_digit (λ _. 0) min v w))

pub bit_or_step : (v w : ℕ) → bit_or v w ≡ max (v % 2) (w % 2) + 2 * bit_or (v / 2) (w / 2)
bit_or_step zero w = rw (bit_or-bitwise 0 w, bit_or-bitwise 0 (w / 2)) (omega arith)
bit_or_step (suc v) w =
    rw (bit_or-bitwise (suc v) w, bit_or-bitwise (suc v / 2) (w / 2))
      (omega (arith, lowest_digit (λ y. y) max v w))

pub bit_xor_step : (v w : ℕ) → bit_xor v w ≡ differ (v % 2) (w % 2) + 2 * bit_xor (v / 2) (w / 2)
bit_xor_step zero w = rw (bit_xor-bitwise 0 w, bit_xor-bitwise 0 (w / 2)) (omega arith)
bit_xor_step (suc v) w =
    rw (bit_xor-bitwise (suc v) w, bit_xor-bitwise (suc v / 2) (w / 2))
      (omega (arith, lowest_digit (λ y. y) differ v w))

-- The digit of an exclusive or is a digit.
differ-le : (x y : ℕ) → x < 2 → y < 2 → differ x y < 2
differ-le zero zero hx hy = omega arith
differ-le zero (suc zero) hx hy = omega arith
differ-le zero (suc (suc y)) hx hy = absurd (omega arith)
differ-le (suc zero) zero hx hy = omega arith
differ-le (suc zero) (suc y) hx hy = omega arith
differ-le (suc (suc x)) y hx hy = absurd (omega arith)

-- Bit `i` of `w`.
unfoldable pub test_bit : ℕ → ℕ → Bool
test_bit w zero = w % 2 == 1
test_bit w (suc i) = test_bit (w / 2) i

pub test_bit-bit_and : (a b i : ℕ) → test_bit (bit_and a b) i ≡ (test_bit a i && test_bit b i)
unfolding test_bit
test_bit-bit_and a b zero = ground (arith, bit_and_step a b)
test_bit-bit_and a b (suc i) =
    let e : bit_and a b / 2 ≡ bit_and (a / 2) (b / 2) = omega (arith, bit_and_step a b) in
    rw e (test_bit-bit_and (a / 2) (b / 2) i)

pub test_bit-bit_or : (a b i : ℕ) → test_bit (bit_or a b) i ≡ (test_bit a i || test_bit b i)
unfolding test_bit
test_bit-bit_or a b zero = ground (arith, bit_or_step a b)
test_bit-bit_or a b (suc i) =
    let e : bit_or a b / 2 ≡ bit_or (a / 2) (b / 2) = omega (arith, bit_or_step a b) in
    rw e (test_bit-bit_or (a / 2) (b / 2) i)

pub test_bit-zero : (i : ℕ) → test_bit 0 i ≡ false
unfolding test_bit
test_bit-zero zero = refl
test_bit-zero (suc i) = test_bit-zero i

-- `uint64_t{1} << k` has the one bit `k`.
pub test_bit-two_pow : (k i : ℕ) → test_bit (2 ^ k) i ≡ (k == i)
unfolding test_bit
test_bit-two_pow zero zero = refl
test_bit-two_pow zero (suc i) = ground (arith, test_bit-zero i)
test_bit-two_pow (suc k) zero = ground (arith, pow-suc 2 k)
test_bit-two_pow (suc k) (suc i) =
    let e : 2 ^ suc k / 2 ≡ 2 ^ k = omega (arith, pow-suc 2 k) in
    rw e (ground (arith, test_bit-two_pow k i))

-- `~w` on words of `k` bits.
abbrev pub bit_not : ℕ → ℕ → ℕ
bit_not k w = 2 ^ k - 1 - w

pub test_bit-bit_not :
    (k w i : ℕ) → w < 2 ^ k → i < k → test_bit (bit_not k w) i ≡ not (test_bit w i)
unfolding test_bit
test_bit-bit_not zero w i hw hi = absurd (omega arith)
test_bit-bit_not (suc k) w zero hw hi = ground (arith, pow-suc 2 k)
test_bit-bit_not (suc k) w (suc i) hw hi =
    let e : bit_not (suc k) w / 2 ≡ bit_not k (w / 2) = omega (arith, pow-suc 2 k) in
    rw e (test_bit-bit_not k (w / 2) i (omega (arith, pow-suc 2 k)) (omega arith))

pub bit_or-lt : (k a b : ℕ) → a < 2 ^ k → b < 2 ^ k → bit_or a b < 2 ^ k
bit_or-lt zero zero zero ha hb = omega arith
bit_or-lt zero (suc a) b ha hb = absurd (omega arith)
bit_or-lt zero zero (suc b) ha hb = absurd (omega arith)
bit_or-lt (suc k) a b ha hb = omega (
  arith,
  pow-suc 2 k,
  bit_or_step a b,
  bit_or-lt k (a / 2) (b / 2) (omega (arith, pow-suc 2 k)) (omega (arith, pow-suc 2 k)),
)

pub bit_xor-lt : (k a b : ℕ) → a < 2 ^ k → b < 2 ^ k → bit_xor a b < 2 ^ k
bit_xor-lt zero zero zero ha hb = omega arith
bit_xor-lt zero (suc a) b ha hb = absurd (omega arith)
bit_xor-lt zero zero (suc b) ha hb = absurd (omega arith)
bit_xor-lt (suc k) a b ha hb = omega (
  arith,
  pow-suc 2 k,
  bit_xor_step a b,
  differ-le (a % 2) (b % 2) (omega arith) (omega arith),
  bit_xor-lt k (a / 2) (b / 2) (omega (arith, pow-suc 2 k)) (omega (arith, pow-suc 2 k)),
)

pub bit_and-le : (k a b : ℕ) → a < 2 ^ k → bit_and a b ≤ a
bit_and-le zero zero b h = omega (arith, bit_and-bitwise 0 b)
bit_and-le zero (suc a) b h = absurd (omega arith)
bit_and-le (suc k) a b h = omega (
  arith,
  pow-suc 2 k,
  bit_and_step a b,
  bit_and-le k (a / 2) (b / 2) (omega (arith, pow-suc 2 k)),
)

-- With no bits on the right, `&` is 0 and `|` is the left operand.
zero_right_fuel : (n a : ℕ) → a ≤ n → (bit_and a 0 ≡ 0) × (bit_or a 0 ≡ a)
zero_right_fuel n zero h = (refl, refl)
zero_right_fuel zero (suc a) h = absurd (omega arith)
zero_right_fuel (suc n) (suc a) h =
    let half = zero_right_fuel n (suc a / 2) (omega arith) in
    (omega (arith, bit_and_step (suc a) 0, half.0), omega (arith, bit_or_step (suc a) 0, half.1))

pub bit_and-zero : (a : ℕ) → bit_and a 0 ≡ 0
bit_and-zero a = (zero_right_fuel a a (omega arith)).0

pub bit_or-zero : (a : ℕ) → bit_or a 0 ≡ a
bit_or-zero a = (zero_right_fuel a a (omega arith)).1

mul-two-pow : (q k : ℕ) → q * 2 ^ suc k ≡ 2 * (q * 2 ^ k)
mul-two-pow q k = omega (arith, ap (λ (t : ℕ). q * t) (pow-suc 2 k))

mod-digit : (k a : ℕ) → a % 2 ^ suc k ≡ a / 2 % 2 ^ k * 2 + a % 2
mod-digit k a =
    let d = div-div-eq-div-mul a 2 (2 ^ k) in
    let whole = rw (← d) at (div-add-mod a (2 * 2 ^ k)) in
    rw (pow-succ' 2 k) (omega (arith, whole, div-add-mod (a / 2) (2 ^ k)))

-- A mask of `k` ones is the remainder by `2 ^ k`.
pub bit_and_mask : (k a : ℕ) → bit_and a (2 ^ k - 1) ≡ a % 2 ^ k
bit_and_mask zero a = omega (arith, bit_and-zero a)
bit_and_mask (suc k) a = ground (
  arith,
  pow-suc 2 k,
  one-le-pow k 2,
  bit_and_step a (2 ^ suc k - 1),
  bit_and_mask k (a / 2),
  mod-digit k a,
)

-- `(hi << k) | lo` does not carry: it is the sum when `lo` fits the `k` bits left free.
pub bit_or_low : (lo k hi : ℕ) → lo < 2 ^ k → bit_or (hi * 2 ^ k) lo ≡ lo + hi * 2 ^ k
bit_or_low (suc lo) zero hi fits = absurd (omega arith)
bit_or_low zero k hi fits = omega (arith, bit_or-zero (hi * 2 ^ k))
bit_or_low (suc lo) (suc k) hi fits =
    let double = pow-suc 2 k in
    let half = bit_or_low (suc lo / 2) k hi (omega (arith, double)) in
    ground (arith, half, bit_or_step (hi * 2 ^ suc k) (suc lo), double, mul-two-pow hi k)

half-two-pow : (q k : ℕ) → q * 2 ^ suc k / 2 ≡ q * 2 ^ k
half-two-pow q k = omega (arith, mul-two-pow q k)

-- A mask of `j` ones moved up by `k` keeps the field of those bits where it stands.
pub bit_and_shifted : (k m w : ℕ) → bit_and w (m * 2 ^ k) ≡ bit_and (w / 2 ^ k) m * 2 ^ k
bit_and_shifted zero m w = ground (arith)
bit_and_shifted (suc k) m w =
    let e : w / 2 ^ suc k ≡ w / 2 / 2 ^ k =
      rw (pow-succ' 2 k) (sym (div-div-eq-div-mul w 2 (2 ^ k))) in
    rw e (
      omega (
        arith,
        mul-two-pow m k,
        mul-two-pow (bit_and (w / 2 / 2 ^ k) m) k,
        bit_and_step w (m * 2 ^ suc k),
        ap (λ (t : ℕ). bit_and (w / 2) t) (half-two-pow m k),
        bit_and_shifted k m (w / 2),
      ))

pub bit_and_field : (k j w : ℕ) → bit_and w ((2 ^ j - 1) * 2 ^ k) ≡ w / 2 ^ k % 2 ^ j * 2 ^ k
bit_and_field k j w = rw (bit_and_shifted, bit_and_mask)

-- `t | r` is a sum where `t` has no bit below `k` and `r` none from `k` on.
pub bit_or-add : (k t r : ℕ) → t % 2 ^ k ≡ 0 → r < 2 ^ k → bit_or t r ≡ t + r
bit_or-add k t r h l =
    let e : t / 2 ^ k * 2 ^ k ≡ t = omega (arith, div-add-mod t (2 ^ k)) in
    rw e at (bit_or_low r k (t / 2 ^ k) l) ∙ add_comm r t

bit_or_comm_fuel : (n a b : ℕ) → a ≤ n → b ≤ n → bit_or a b ≡ bit_or b a
bit_or_comm_fuel n zero b p q = omega (arith, bit_or-zero b, bit_or-bitwise 0 b)
bit_or_comm_fuel zero (suc a) b p q = absurd (omega arith)
bit_or_comm_fuel (suc n) (suc a) b p q = omega (
  arith,
  bit_or_step (suc a) b,
  bit_or_step b (suc a),
  bit_or_comm_fuel n (suc a / 2) (b / 2) (omega arith) (omega arith),
)

pub bit_or_comm : (a b : ℕ) → bit_or a b ≡ bit_or b a
bit_or_comm a b = bit_or_comm_fuel (a + b) a b (omega arith) (omega arith)

-- The low digits of `v` in base `p * q`: one more digit above the remainder by `p`.
pub mod-mul : (v p q : ℕ) → v % (p * q) ≡ v / p % q * p + v % p
mod-mul v p q =
    let whole = rw (← div-div-eq-div-mul v p q) at (div-add-mod v (p * q)) in
    let high = ap (λ (t : ℕ). p * t) (div-add-mod (v / p) q) in
    omega (arith, whole, high, div-add-mod v p)
