-- ===== src/Core/SlotSet/Walk.antt =====
-- Walks over the slots one after the other, and over slots that are not members.
use rv_o.Base.{
  ℕ, zero, suc, ◌+◌, ◌/◌, ◌%◌, ◌≤◌, ◌<◌, ◌≡◌, refl, sym, ap, ◌∙◌, arith, Bool, true, false, ◌&&◌,
  not, List, get_or, if◌then◌else◌, if-both, test_bit,
}
use rv_o.Core.SlotSet.Order.{reads, walk, IsLocal}

module _ {ℓ} {S : Type ℓ} where
  -- Walks one after the other.
  unfoldable pub after : S × Bool → (S → S × Bool) → S × Bool
  after (s, true) k = k s
  after (s, false) k = (s, false)

  pub if-after :
      (x : S × Bool) (k : S → S × Bool) → (if x.1 then k x.0 else (x.0, false)) ≡ after x k
  unfolding after
  if-after (s, true) k = refl
  if-after (s, false) k = refl

  pub fst-after :
      (x : S × Bool) (k : S → S × Bool) → (if x.1 then (k x.0).0 else x.0) ≡ (after x k).0
  unfolding after
  fst-after (s, true) k = refl
  fst-after (s, false) k = refl

  pub skip-after :
      (x : S × Bool) (skip : Bool) (k : S → S × Bool)
      → (skip ≡ true → k x.0 ≡ (x.0, true))
      → (if x.1 && not skip then (k x.0).0 else x.0) ≡ (after x k).0
  unfolding after
  skip-after (s, true) true k e = sym (ap (λ (y : S × Bool). y.0) (e refl))
  skip-after (s, true) false k e = refl
  skip-after (s, false) skip k e = refl

  pub after-skip : (x : S × Bool) (k : S → S × Bool) → k x.0 ≡ (x.0, true) → after x k ≡ x
  unfolding after
  after-skip (s, true) k e = e
  after-skip (s, false) k e = refl

  pub after-same : (x : S × Bool) (k k' : S → S × Bool) → k x.0 ≡ k' x.0 → after x k ≡ after x k'
  unfolding after
  after-same (s, true) k k' e = e
  after-same (s, false) k k' e = refl

  pub after-if :
      (member go : Bool) (s : S) (x y : S × Bool) (k : S → S × Bool)
      → (if member then if go then after x k else (s, false) else after y k)
        ≡ after (if member then if go then x else (s, false) else y) k
  unfolding after
  after-if true true s x y k = refl
  after-if true false s x y k = refl
  after-if false go s x y k = refl

module _ {ℓ} {S : Type ℓ} (f : S → ℕ → S × Bool) (words : S → List ℕ) where
  pub first_word :
      (s : S) (a : ℕ) → a < 64 → reads f words s (0 + a) ≡ test_bit (get_or (words s) 0 0) a
  first_word s a l =
      let w : (0 + a) / 64 ≡ 0 = omega (arith, l) in
      let b : (0 + a) % 64 ≡ a = omega (arith, l) in
      ap (λ i. test_bit (get_or (words s) i 0) ((0 + a) % 64)) w
      ∙ ap (test_bit (get_or (words s) 0 0)) b

  pub walk-add :
      (m n a : ℕ) (s : S)
      → walk f words a (m + n) s ≡ after (walk f words a m s) (walk f words (a + m) n)
  unfolding walk
  walk-add zero n a s =
      let left : 0 + n ≡ n = omega arith in
      let from : a ≡ a + 0 = omega arith in
      ap (λ k. walk f words a k s) left ∙ unfold after in ap (λ b. walk f words b n s) from
  walk-add (suc m) n a s =
      let left : suc m + n ≡ suc (m + n) = omega arith in
      let from : suc a + m ≡ a + suc m = omega arith in
      let s' = (f s a).0 in
      let hit =
        walk-add m n (suc a) s'
        ∙ ap (λ b. after (walk f words (suc a) m s') (walk f words b n)) from in
      let miss =
        walk-add m n (suc a) s
        ∙ ap (λ b. after (walk f words (suc a) m s) (walk f words b n)) from in
      ap (λ k. walk f words a k s) left
      ∙ ap
          (λ x.
            if reads f words s a
            then if (f s a).1 then x else (s', false)
            else walk f words (suc a) (m + n) s)
          hit
      ∙ ap
          (λ y.
            if reads f words s a
            then if (f s a).1
              then after (walk f words (suc a) m s') (walk f words (a + suc m) n)
              else (s', false)
            else y)
          miss
      ∙ after-if (reads f words s a) (f s a).1 s' (walk f words (suc a) m s')
          (walk f words (suc a) m s) (walk f words (a + suc m) n)

  pub walk-skip :
      (n a : ℕ) (s : S)
      → ((b : ℕ) → a ≤ b → b < a + n → reads f words s b ≡ false)
      → walk f words a n s ≡ (s, true)
  unfolding walk
  walk-skip zero a s out = refl
  walk-skip (suc n) a s out =
      ap
        (λ t.
          if t
          then if (f s a).1 then walk f words (suc a) n (f s a).0 else ((f s a).0, false)
          else walk f words (suc a) n s)
        (out a (omega arith) (omega arith))
      ∙ walk-skip n (suc a) s (λ b l m. out b (omega (arith, l)) (omega (arith, m)))

  module _ {κ} (ok : S → Type κ) (h : IsLocal f words ok) where
    pub walk-ok : (n a : ℕ) (s : S) → ok s → ok (walk f words a n s).0
    unfolding walk
    walk-ok zero a s o = o
    walk-ok (suc n) a s o =
        let s' = (f s a).0 in
        if-both (λ (x : S × Bool). ok x.0) (reads f words s a) _ _
          (λ r.
            if-both (λ (x : S × Bool). ok x.0) (f s a).1 _ _
              (λ g. walk-ok n (suc a) s' (h.keeps s a o r)) (λ g. h.keeps s a o r))
          (λ r. walk-ok n (suc a) s o)
