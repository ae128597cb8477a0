-- ===== src/Core/SlotSet/Bits.antt =====
-- The lowest bit of a word, and the bits that are left when a word is cut to a range.
use rv_o.Base.{
  ℕ, zero, suc, ◌+◌, ◌-◌, ◌*◌, ◌/◌, ◌%◌, ◌^◌, ◌≤◌, ◌<◌, ◌≡◌, refl, sym, ap, ◌∙◌, arith, Bool, true,
  false, ◌&&◌, ◌==◌, bit_and, bit_and_step, bit_and_field, bit_and_mask, test_bit, mod-mul,
  all_below, all_below-lt,
}
use native.Mathlib.Nat.{
  pow-suc, pow-succ', div-div-eq-div-mul, one-le-pow, div-lt_iff_lt-mul, mod-eq_of_lt,
}
use rv_o.Core.SlotSet.Visit.{ctz, ones_from}

double : (m i : ℕ) → m * 2 ^ suc i ≡ 2 * (m * 2 ^ i)
double m i = omega (arith, ap (λ (t : ℕ). m * t) (pow-suc 2 i))

-- The lowest bit of `m * 2 ^ i` is bit `i` where `m` is odd.
pub ctz-shift : (i fuel m : ℕ) → m % 2 ≡ 1 → i < fuel → ctz fuel (m * 2 ^ i) ≡ i
unfolding ctz
ctz-shift zero zero m o l = absurd (omega arith)
ctz-shift zero (suc fuel) m o l = ground (arith, o)
ctz-shift (suc i) zero m o l = absurd (omega arith)
ctz-shift (suc i) (suc fuel) m o l =
    let half : m * 2 ^ suc i / 2 ≡ m * 2 ^ i = omega (arith, double m i) in
    let even : m * 2 ^ suc i % 2 ≡ 0 = omega (arith, double m i) in
    ground (arith, even, ap (ctz fuel) half, ctz-shift i fuel m o (omega arith))

bit_and_self : (n a : ℕ) → a ≤ n → bit_and a a ≡ a
bit_and_self n zero h = refl
bit_and_self zero (suc a) h = absurd (omega arith)
bit_and_self (suc n) (suc a) h =
    omega (arith, bit_and_step (suc a) (suc a), bit_and_self n (suc a / 2) (omega arith))

-- `bits & (bits - 1)` clears it.
pub clear_lowest : (i m : ℕ) → m % 2 ≡ 1 → bit_and (m * 2 ^ i) (m * 2 ^ i - 1) ≡ m / 2 * 2 ^ suc i
clear_lowest zero m o =
    let half : (m * 1 - 1) / 2 ≡ m / 2 = omega (arith, o) in
    let half' : m * 1 / 2 ≡ m / 2 = omega arith in
    omega (
      arith,
      o,
      bit_and_step (m * 1) (m * 1 - 1),
      ap (λ (t : ℕ). bit_and (m * 1 / 2) t) half,
      ap (λ (t : ℕ). bit_and t (m / 2)) half',
      bit_and_self (m / 2) (m / 2) (omega arith),
    )
clear_lowest (suc i) m o =
    let x = m * 2 ^ i in
    let pos : 0 < x = grind (arith, one-le-pow i 2) in
    let whole = double m i in
    let half : m * 2 ^ suc i / 2 ≡ x = omega (arith, whole) in
    let half' : (m * 2 ^ suc i - 1) / 2 ≡ x - 1 = omega (arith, whole, pos) in
    omega (
      arith,
      whole,
      pos,
      double (m / 2) (suc i),
      bit_and_step (m * 2 ^ suc i) (m * 2 ^ suc i - 1),
      ap (λ (t : ℕ). bit_and (m * 2 ^ suc i / 2) t) half',
      ap (λ (t : ℕ). bit_and t (x - 1)) half,
      clear_lowest i m o,
    )

pub test_bit-div : (i x j : ℕ) → test_bit (x / 2 ^ i) j ≡ test_bit x (i + j)
unfolding test_bit
test_bit-div zero x j =
    let whole : x / 2 ^ 0 ≡ x = omega arith in
    let same : j ≡ 0 + j = omega arith in ap (λ (t : ℕ). test_bit t j) whole ∙ ap (test_bit x) same
test_bit-div (suc i) x j =
    let split : x / 2 ^ suc i ≡ x / 2 / 2 ^ i =
      rw (pow-succ' 2 i) (sym (div-div-eq-div-mul x 2 (2 ^ i))) in
    let next : suc (i + j) ≡ suc i + j = omega arith in
    ap (λ (t : ℕ). test_bit t j) split ∙ test_bit-div i (x / 2) j ∙ ap (test_bit x) next

mod-digit : (k a : ℕ) → a % 2 ^ suc k ≡ a / 2 % 2 ^ k * 2 + a % 2
mod-digit k a = rw (pow-succ' 2 k) (mod-mul a 2 (2 ^ k))

pub test_bit-mod : (n x j : ℕ) → j < n → test_bit (x % 2 ^ n) j ≡ test_bit x j
unfolding test_bit
test_bit-mod zero x j l = absurd (omega arith)
test_bit-mod (suc n) x zero l = ground (arith, mod-digit n x)
test_bit-mod (suc n) x (suc j) l =
    let half : x % 2 ^ suc n / 2 ≡ x / 2 % 2 ^ n = omega (arith, mod-digit n x) in
    ap (λ (t : ℕ). test_bit t j) half ∙ test_bit-mod n (x / 2) j (omega arith)

-- The masks of a 64-bit word.
mask_table :
    all_below 64 (λ n. ones_from n == (2 ^ (64 - n) - 1) * 2 ^ n && 2 ^ (64 - n) * 2 ^ n == 2 ^ 64)
    ≡ true
unfolding all_below
mask_table = refl

abbrev mask_row : ℕ → Bool
mask_row n = ones_from n == (2 ^ (64 - n) - 1) * 2 ^ n && 2 ^ (64 - n) * 2 ^ n == 2 ^ 64

pub shifted-lt : (n bits : ℕ) → n < 64 → bits < 2 ^ 64 → bits / 2 ^ n < 2 ^ (64 - n)
shifted-lt n bits l b =
    let row = all_below-lt 64 mask_row n mask_table l in
    let whole : 2 ^ (64 - n) * 2 ^ n ≡ 2 ^ 64 = ground (arith, row) in
    (div-lt_iff_lt-mul (one-le-pow n 2 (omega arith))).1 (omega (arith, b, whole))

-- `UINT64_MAX << n` keeps the bits from `n` on.
pub bit_and-ones_from :
    (n bits : ℕ) → n < 64 → bits < 2 ^ 64 → bit_and bits (ones_from n) ≡ bits / 2 ^ n * 2 ^ n
bit_and-ones_from n bits l b =
    let row = all_below-lt 64 mask_row n mask_table l in
    let mask : ones_from n ≡ (2 ^ (64 - n) - 1) * 2 ^ n = ground (arith, row) in
    ap (bit_and bits) mask
    ∙ bit_and_field n (64 - n) bits
    ∙ ap (λ (t : ℕ). t * 2 ^ n) (mod-eq_of_lt (shifted-lt n bits l b))

pub even-shift : (m i : ℕ) → (m % 2 == 1) ≡ false → m * 2 ^ i ≡ m / 2 * 2 ^ suc i
even-shift m i e =
    let half : m ≡ m / 2 * 2 = ground (arith, e) in
    omega (arith, ap (λ (t : ℕ). t * 2 ^ i) half, double (m / 2) i)

mod-shift : (lo n x : ℕ) → x * 2 ^ lo % 2 ^ (n + lo) ≡ x % 2 ^ n * 2 ^ lo
mod-shift zero n x =
    let same : n + 0 ≡ n = omega arith in
    let one : x * 2 ^ 0 ≡ x = omega arith in
    ap (λ (k : ℕ). x * 2 ^ 0 % 2 ^ k) same ∙ ap (λ (t : ℕ). t % 2 ^ n) one ∙ omega arith
mod-shift (suc lo) n x =
    let next : n + suc lo ≡ suc (n + lo) = omega arith in
    let half : x * 2 ^ suc lo / 2 ≡ x * 2 ^ lo = omega (arith, double x lo) in
    ap (λ (k : ℕ). x * 2 ^ suc lo % 2 ^ k) next
    ∙ omega (
      arith,
      mod-digit (n + lo) (x * 2 ^ suc lo),
      ap (λ (t : ℕ). t % 2 ^ (n + lo)) half,
      double x lo,
      double (x % 2 ^ n) lo,
      mod-shift lo n x,
    )

-- The bits of a word from `lo` to `hi - 1`.
pub cut_bits :
    (lo hi bits : ℕ)
    → lo < hi
    → hi ≤ 64
    → bits < 2 ^ 64
    → bit_and (bit_and bits (ones_from lo)) (2 ^ hi - 1) ≡ bits / 2 ^ lo % 2 ^ (hi - lo) * 2 ^ lo
cut_bits lo hi bits l m b =
    let width : hi ≡ hi - lo + lo = omega (arith, l) in
    ap (λ (t : ℕ). bit_and t (2 ^ hi - 1)) (bit_and-ones_from lo bits (omega (arith, l, m)) b)
    ∙ bit_and_mask hi (bits / 2 ^ lo * 2 ^ lo)
    ∙ ap (λ (k : ℕ). bits / 2 ^ lo * 2 ^ lo % 2 ^ k) width
    ∙ mod-shift lo (hi - lo) (bits / 2 ^ lo)
