-- ===== src/Base/Lists.antt =====
-- Arrays and vectors as lists, measured and indexed by native numbers.
use Prim.Native.Nat.{ℕ, zero, suc, ◌+◌, ◌%◌, ◌<◌}
use mathlib.Core.Path.{◌≡◌, refl, ap, ap₂}
use mathlib.Core.Logic.{◌≢◌}
use mathlib.Core.List.{List, [], ◌∷◌, ◌++◌}
use mathlib.Core.Bool.{◌&&◌}
use native.Mathlib.Omega.{arith}
use rv_o.Base.Tests.{if◌then◌else◌, ◌==◌, ltb}

module _ {ℓ} {A : Type ℓ} where
  abbrev pub length : List A → ℕ
  length [] = 0
  length (x ∷ xs) = suc (length xs)

  abbrev pub get_or : List A → ℕ → A → A
  get_or [] i d = d
  get_or (x ∷ xs) zero d = x
  get_or (x ∷ xs) (suc i) d = get_or xs i d

  -- A write out of bounds changes nothing.
  abbrev pub set : List A → ℕ → A → List A
  set [] i v = []
  set (x ∷ xs) zero v = v ∷ xs
  set (x ∷ xs) (suc i) v = x ∷ set xs i v

  abbrev pub take : ℕ → List A → List A
  take zero xs = []
  take (suc n) [] = []
  take (suc n) (x ∷ xs) = x ∷ take n xs

  abbrev pub drop : ℕ → List A → List A
  drop zero xs = xs
  drop (suc n) [] = []
  drop (suc n) (x ∷ xs) = drop n xs

  abbrev pub replicate : ℕ → A → List A
  replicate zero a = []
  replicate (suc n) a = a ∷ replicate n a

module _ {ℓ} {A : Type ℓ} where
  pub length-append : (xs ys : List A) → length (xs ++ ys) ≡ length xs + length ys
  length-append [] ys = omega arith
  length-append (x ∷ xs) ys = omega (arith, length-append xs ys)

  pub length-set : (xs : List A) (i : ℕ) (v : A) → length (set xs i v) ≡ length xs
  length-set [] i v = refl
  length-set (x ∷ xs) zero v = refl
  length-set (x ∷ xs) (suc i) v = ap suc (length-set xs i v)

  pub length-replicate : (n : ℕ) (a : A) → length (replicate n a) ≡ n
  length-replicate zero a = refl
  length-replicate (suc n) a = ap suc (length-replicate n a)

  pub get_or-set_self :
      (xs : List A) (i : ℕ) (v d : A) → i < length xs → get_or (set xs i v) i d ≡ v
  get_or-set_self [] i v d h = absurd (omega arith)
  get_or-set_self (x ∷ xs) zero v d h = refl
  get_or-set_self (x ∷ xs) (suc i) v d h = get_or-set_self xs i v d (omega arith)

  -- A ring that is written at a position holds the value there.
  pub get_or-set_ring :
      (xs : List A) (m : ℕ) (v d : A)
      → 0 < length xs
      → get_or (set xs (m % length xs) v) (m % length (set xs (m % length xs) v)) d ≡ v
  get_or-set_ring xs m v d h =
      rw (length-set xs (m % length xs) v) (get_or-set_self xs (m % length xs) v d (omega arith))

  pub get_or-set_ne :
      (xs : List A) (i j : ℕ) (v d : A) → i ≢ j → get_or (set xs i v) j d ≡ get_or xs j d
  get_or-set_ne [] i j v d h = refl
  get_or-set_ne (x ∷ xs) zero zero v d h = absurd (h refl)
  get_or-set_ne (x ∷ xs) zero (suc j) v d h = refl
  get_or-set_ne (x ∷ xs) (suc i) zero v d h = refl
  get_or-set_ne (x ∷ xs) (suc i) (suc j) v d h = get_or-set_ne xs i j v d (λ e. h (ap suc e))

  -- Writing back what an overwritten slot held.
  pub set-set_get :
      (xs : List A) (i : ℕ) (v d : A) → i < length xs → set (set xs i v) i (get_or xs i d) ≡ xs
  set-set_get [] i v d h = refl
  set-set_get (x ∷ xs) zero v d h = refl
  set-set_get (x ∷ xs) (suc i) v d h = ap (◌∷◌ x) (set-set_get xs i v d (omega arith))

  pub set-get_or : (xs : List A) (i : ℕ) (d : A) → set xs i (get_or xs i d) ≡ xs
  set-get_or [] i d = refl
  set-get_or (x ∷ xs) zero d = refl
  set-get_or (x ∷ xs) (suc i) d = ap (◌∷◌ x) (set-get_or xs i d)

  -- Both cases in one equation, which `ground` and `simp` use as it stands.
  pub get_or-set :
      (xs : List A) (i j : ℕ) (v d : A)
      → get_or (set xs i v) j d ≡ (if i == j && ltb i (length xs) then v else get_or xs j d)
  get_or-set [] zero zero v d = refl
  get_or-set [] zero (suc j) v d = ground arith
  get_or-set [] (suc i) zero v d = ground arith
  get_or-set [] (suc i) (suc j) v d = ground arith
  get_or-set (x ∷ xs) zero zero v d = ground arith
  get_or-set (x ∷ xs) zero (suc j) v d = ground arith
  get_or-set (x ∷ xs) (suc i) zero v d = ground arith
  get_or-set (x ∷ xs) (suc i) (suc j) v d = ground (arith, get_or-set xs i j v d)

  pub get_or-out : (xs : List A) (i : ℕ) (d : A) → length xs < suc i → get_or xs i d ≡ d
  get_or-out [] i d h = refl
  get_or-out (x ∷ xs) zero d h = absurd (omega arith)
  get_or-out (x ∷ xs) (suc i) d h = get_or-out xs i d (omega arith)

  pub get_or-replicate : (n i : ℕ) (a : A) → get_or (replicate n a) i a ≡ a
  get_or-replicate zero i a = refl
  get_or-replicate (suc n) zero a = refl
  get_or-replicate (suc n) (suc i) a = get_or-replicate n i a

  pub get_or_ext :
      (d : A) (xs ys : List A)
      → length xs ≡ length ys
      → ((i : ℕ) → i < length xs → get_or xs i d ≡ get_or ys i d)
      → xs ≡ ys
  get_or_ext d [] [] e h = refl
  get_or_ext d [] (y ∷ ys) e h = absurd (omega arith)
  get_or_ext d (x ∷ xs) [] e h = absurd (omega arith)
  get_or_ext d (x ∷ xs) (y ∷ ys) e h =
      ap₂ ◌∷◌ (h 0 (omega arith))
        (get_or_ext d xs ys (omega arith) (λ i l. h (suc i) (omega arith)))

-- How often a number occurs.
abbrev pub count : ℕ → List ℕ → ℕ
count a [] = 0
count a (x ∷ xs) = (if a == x then 1 else 0) + count a xs

module _ (a : ℕ) where
  pub count-append : (front back : List ℕ) → count a (front ++ back) ≡ count a front + count a back
  count-append [] back = omega arith
  count-append (x ∷ front) back = omega (arith, count-append front back)

-- A write takes one occurrence out and puts one in.
pub count-set :
    (a : ℕ) (xs : List ℕ) (i v : ℕ)
    → i < length xs
    → count a (set xs i v) + (if a == get_or xs i 0 then 1 else 0)
      ≡ count a xs + (if a == v then 1 else 0)
count-set a [] i v h = absurd (omega arith)
count-set a (x ∷ xs) zero v h = omega arith
count-set a (x ∷ xs) (suc i) v h = omega (arith, count-set a xs i v (omega arith))

pub count-get_or : (xs : List ℕ) (i : ℕ) → i < length xs → 0 < count (get_or xs i 0) xs
count-get_or [] i h = absurd (omega arith)
count-get_or (x ∷ xs) zero h = ground arith
count-get_or (x ∷ xs) (suc i) h = ground (arith, count-get_or xs i)

pub set-set {ℓ} : {A : Type ℓ} (xs : List A) (i : ℕ) (v w : A) → set (set xs i v) i w ≡ set xs i w
set-set [] i v w = refl
set-set (x ∷ xs) zero v w = refl
set-set (x ∷ xs) (suc i) v w = ap (◌∷◌ x) (set-set xs i v w)
