-- ===== src/Core/SlotSet/Newest.antt =====
-- core/slot_set.h: the loop from the highest bit of a word as a walk over its slots.
use rv_o.Base.{
  ℕ, zero, suc, ◌+◌, ◌-◌, ◌*◌, ◌/◌, ◌%◌, ◌^◌, ◌≤◌, ◌<◌, ◌≡◌, refl, sym, ap, ◌∙◌, arith, Bool, true,
  false, List, leb, ◌==◌, if◌then◌else◌, Bool-cases, inl, inr, bit_and, bit_not, bit_and_step,
  test_bit,
}
use Prim.Native.Nat.{bit_and-bitwise}
use native.Mathlib.Nat.{pow-suc, one-le-pow, mod-eq-sub-mod, mod-eq_of_lt, pow-le-pow_right}
use rv_o.Core.SlotSet.Visit.{high_bit, reverse_bits}
use rv_o.Core.SlotSet.Bits.{test_bit-mod}
use rv_o.Core.SlotSet.Order.{reads, IsLocal}

-- The highest bit.
high_bit-of : (fuel b x : ℕ) → 2 ^ b ≤ x → x < 2 ^ suc b → b < fuel → high_bit fuel x ≡ b
unfolding high_bit
high_bit-of zero b x l u f = absurd (omega (arith, f))
high_bit-of (suc fuel) b x l u f = elim (Bool-cases (b == fuel)) [
  | inl e ↦
      let same : b ≡ fuel = ground (arith, e) in ground (arith, l, same, ap (λ (k : ℕ). 2 ^ k) same)
  | inr e ↦
      let less : suc b ≤ fuel = ground (arith, e, f) in
      let more : 2 ^ suc b ≤ 2 ^ fuel =
        pow-le-pow_right {n = 2} (omega arith) {i = suc b} {j = fuel} less in
      ground (arith, more, u, high_bit-of fuel b x l u less)
]

bit_and_none : (y : ℕ) → bit_and 0 y ≡ 0
bit_and_none y = omega (arith, bit_and-bitwise 0 y)

-- `bits &= ~(1 << bit)` at the highest bit.
clear_highest :
    (b k x : ℕ) → 2 ^ b ≤ x → x < 2 ^ suc b → b < k → bit_and x (bit_not k (2 ^ b)) ≡ x - 2 ^ b
clear_highest b zero x l u f = absurd (omega (arith, f))
clear_highest zero (suc k) x l u f =
    let one : x ≡ 1 = omega (arith, l, u) in
    let even : (2 ^ suc k - 1 - 1) % 2 ≡ 0 =
      omega (arith, pow-suc 2 k, one-le-pow k 2 (omega arith)) in
    let none : bit_and 0 ((2 ^ suc k - 1 - 1) / 2) ≡ 0 = bit_and_none ((2 ^ suc k - 1 - 1) / 2) in
    ap (λ (y : ℕ). bit_and y (bit_not (suc k) 1)) one
    ∙ omega (arith, one, even, none, bit_and_step 1 (2 ^ suc k - 1 - 1))
clear_highest (suc b) (suc k) x l u f =
    let below_top : 2 ^ suc b ≤ 2 ^ k =
      pow-le-pow_right {n = 2} (omega arith) {i = suc b} {j = k} (omega (arith, f)) in
    let half : bit_not (suc k) (2 ^ suc b) / 2 ≡ bit_not k (2 ^ b) =
      omega (arith, pow-suc 2 k, pow-suc 2 b, below_top) in
    let odd : bit_not (suc k) (2 ^ suc b) % 2 ≡ 1 =
      omega (arith, pow-suc 2 k, pow-suc 2 b, below_top) in
    omega (
      arith,
      odd,
      l,
      pow-suc 2 b,
      pow-suc 2 (suc b),
      bit_and_step x (bit_not (suc k) (2 ^ suc b)),
      ap (λ (t : ℕ). bit_and (x / 2) t) half,
      clear_highest b k (x / 2) (omega (arith, l, pow-suc 2 b))
          (omega (arith, u, pow-suc 2 (suc b))) (omega (arith, f)),
    )

-- Bit `n` of a number below 2 ^ (n + 1).
top_bit : (n m : ℕ) → m < 2 ^ suc n → test_bit m n ≡ leb (2 ^ n) m
unfolding test_bit
top_bit zero m l = ground (arith, l)
top_bit (suc n) m l =
    top_bit n (m / 2) (omega (arith, l, pow-suc 2 (suc n))) ∙ ground (arith, pow-suc 2 n)

double : (m i : ℕ) → m * 2 ^ suc i ≡ 2 * (m * 2 ^ i)
double m i = omega (arith, ap (λ (t : ℕ). m * t) (pow-suc 2 i))

-- The highest bit of a shifted number.
scaled :
    (i b m : ℕ)
    → 2 ^ b ≤ m
    → m < 2 ^ suc b
    → (2 ^ (b + i) ≤ m * 2 ^ i)
      × (m * 2 ^ i < 2 ^ suc (b + i))
      × ((m - 2 ^ b) * 2 ^ i ≡ m * 2 ^ i - 2 ^ (b + i))
scaled zero b m l u =
    let same : b + 0 ≡ b = omega arith in
    let power = ap (λ (k : ℕ). 2 ^ k) same in
    let power' = ap (λ (k : ℕ). 2 ^ suc k) same in
    (omega (arith, l, power), omega (arith, u, power'), omega (arith, power))
scaled (suc i) b m l u =
    let next : b + suc i ≡ suc (b + i) = omega arith in
    let power = ap (λ (k : ℕ). 2 ^ k) next in
    let power' = ap (λ (k : ℕ). 2 ^ suc k) next in
    let (low, high, rest) = scaled i b m l u in
    (
      omega (arith, low, power, double m i, pow-suc 2 (b + i)),
      omega (arith, high, power', double m i, pow-suc 2 (suc (b + i))),
      omega (arith, rest, power, double m i, double (m - 2 ^ b) i, pow-suc 2 (b + i)),
    )

module _ {ℓ} {S : Type ℓ} (f : S → ℕ → S × Bool) (words : S → List ℕ) where
  -- The `left` slots from the one before `a + left` down to `a`.
  unfoldable pub walk_down : ℕ → ℕ → S → S × Bool
  walk_down a zero s = (s, true)
  walk_down a (suc left) s =
      let (s', go) = f s (a + left) in
      let rest = walk_down a left s' in
      let skip = walk_down a left s in
      if reads f words s (a + left) then if go then rest else (s', false) else skip

  reverse_bits-zero : (fuel base : ℕ) (s : S) → reverse_bits f fuel 0 base s ≡ (s, true)
  unfolding reverse_bits
  reverse_bits-zero zero base s = refl
  reverse_bits-zero (suc fuel) base s = refl

  -- A round at a word whose highest bit is bit `n + i`.
  reverse_bits-high :
      (fuel i n m base : ℕ) (s : S)
      → 2 ^ n ≤ m
      → m < 2 ^ suc n
      → n + i < 64
      → reverse_bits f (suc fuel) (m * 2 ^ i) base s ≡ (
          if (f s (base + (n + i))).1
          then reverse_bits f fuel ((m - 2 ^ n) * 2 ^ i) base (f s (base + (n + i))).0
          else ((f s (base + (n + i))).0, false))
  unfolding reverse_bits
  reverse_bits-high fuel i n m base s low high l =
      let bits = m * 2 ^ i in
      let (bits_low, bits_high, cleared) = scaled i n m low high in
      let some_bit : (bits == 0) ≡ false =
        ground (arith, bits_low, one-le-pow (n + i) 2 (omega arith)) in
      let round : ℕ → ℕ → S × Bool = λ c b.
        if (f s (base + c)).1
        then reverse_bits f fuel b base (f s (base + c)).0
        else ((f s (base + c)).0, false) in
      let top = high_bit-of 64 (n + i) bits bits_low bits_high l in
      ap
        (λ t.
          if t
          then (s, true)
          else round (high_bit 64 bits) (bit_and bits (bit_not 64 (2 ^ high_bit 64 bits))))
        some_bit
      ∙ ap (λ c. round c (bit_and bits (bit_not 64 (2 ^ c)))) top
      ∙ ap (round (n + i)) (clear_highest (n + i) 64 bits bits_low bits_high l ∙ sym cleared)

  module _ {κ} (ok : S → Type κ) (h : IsLocal f words ok) where
    pub reverse_bits-walk :
        (left i fuel m base : ℕ) (s : S)
        → ok s
        → left ≤ fuel
        → left + i ≤ 64
        → m < 2 ^ left
        → ((j : ℕ) → j < left → reads f words s (base + (i + j)) ≡ test_bit m j)
        → reverse_bits f fuel (m * 2 ^ i) base s ≡ walk_down (base + i) left s
    unfolding walk_down
    reverse_bits-walk zero i fuel m base s o lf li lm same =
        let none : m ≡ 0 = omega (arith, lm) in
        let empty : m * 2 ^ i ≡ 0 = grind (arith, none) in
        ap (λ (b : ℕ). reverse_bits f fuel b base s) empty ∙ reverse_bits-zero fuel base s
    reverse_bits-walk (suc left) i zero m base s o lf li lm same = absurd (omega (arith, lf))
    reverse_bits-walk (suc left) i (suc fuel) m base s o lf li lm same =
        let slot = base + i + left in
        let here : base + (i + left) ≡ slot = omega arith in
        let here' : base + (left + i) ≡ slot = omega arith in
        let s' = (f s slot).0 in
        let top = ap (reads f words s) (sym here) ∙ same left (omega arith) ∙ top_bit left m lm in
        let branch : Bool → S × Bool = λ t.
          if t
          then if (f s slot).1 then walk_down (base + i) left s' else (s', false)
          else walk_down (base + i) left s in
        elim (Bool-cases (leb (2 ^ left) m)) [
          | inr out ↦
              reverse_bits-walk left i (suc fuel) m base s o (omega (arith, lf)) (omega (arith, li))
                (ground (arith, out)) (λ j l. same j (omega (arith, l)))
              ∙ sym (ap branch (top ∙ out))
          | inl is_in ↦
              let low : 2 ^ left ≤ m = ground (arith, is_in) in
              let less : m - 2 ^ left < 2 ^ left = omega (arith, lm, pow-suc 2 left) in
              let low_bits : m % 2 ^ left ≡ m - 2 ^ left =
                mod-eq-sub-mod {n = m} {m = 2 ^ left} low ∙ mod-eq_of_lt less in
              reverse_bits-high fuel i left m base s low lm (omega (arith, li))
              ∙ ap
                  (λ x.
                    if (f s x).1
                    then reverse_bits f fuel ((m - 2 ^ left) * 2 ^ i) base (f s x).0
                    else ((f s x).0, false))
                  here'
              ∙ ap (λ x. if (f s slot).1 then x else (s', false))
                  (reverse_bits-walk left i fuel (m - 2 ^ left) base s'
                    (h.keeps s slot o (top ∙ is_in)) (omega (arith, lf)) (omega (arith, li)) less
                    (λ j l.
                      h.apart s slot (base + (i + j)) o (top ∙ is_in)
                        (λ (q : base + (i + j) ≡ slot). absurd (omega (arith, q, l)))
                      ∙ same j (omega (arith, l))
                      ∙ sym (test_bit-mod left m j l)
                      ∙ ap (λ (x : ℕ). test_bit x j) low_bits))
              ∙ sym (ap branch (top ∙ is_in))
        ]
