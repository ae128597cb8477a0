-- ===== src/Core/Ring/Contents.antt =====
-- The ring as the list of its live entries, oldest first: what each operation does to it.
use rv_o.Base.{
  ℕ, zero, suc, ◌+◌, ◌-◌, ◌^◌, ◌<◌, ◌≡◌, refl, arith, ap, ap₂, sym, ◌∙◌, false, List, [], ◌∷◌, ◌++◌,
  length, get_or, set, length-set, get_or-set_self, get_or-set_ne,
}
use rv_o.Core.Ring.{
  Ring, make, index_of, push, pop_head, pop_tail, at, empty, full, head, tail, nth,
}
use rv_o.Core.Ring.Index.{IsValid, index_of-lt, index_of_injective, index_of-pop_head}

module _ {ℓ} {A : Type ℓ} (fresh : A) where
  -- The `m` entries from the `k`-th oldest on.
  abbrev pub entries : Ring A → ℕ → ℕ → List A
  entries r k zero = []
  entries r k (suc m) = nth fresh r k ∷ entries r (suc k) m

  abbrev pub contents : Ring A → List A
  contents r = entries r 0 r.n

  pub length-entries : (r : Ring A) (k m : ℕ) → length (entries r k m) ≡ m
  length-entries r k zero = refl
  length-entries r k (suc m) = ap suc (length-entries r (suc k) m)

  entries-snoc :
      (r : Ring A) (k m : ℕ) → entries r k (suc m) ≡ entries r k m ++ nth fresh r (k + m) ∷ []
  entries-snoc r k zero = ap (λ j. nth fresh r j ∷ []) (omega arith)
  entries-snoc r k (suc m) =
      ap (◌∷◌ (nth fresh r k)) (
        entries-snoc r (suc k) m
        ∙ ap (λ j. entries r (suc k) m ++ nth fresh r j ∷ []) (omega arith))

  pub entries_ext :
      (r r' : Ring A) (k k' m : ℕ)
      → ((i : ℕ) → i < m → nth fresh r (k + i) ≡ nth fresh r' (k' + i))
      → entries r k m ≡ entries r' k' m
  entries_ext r r' k k' zero h = refl
  entries_ext r r' k k' (suc m) h =
      ap₂ ◌∷◌ (ap (nth fresh r) (omega arith) ∙ h 0 (omega arith) ∙ ap (nth fresh r') (omega arith))
        (entries_ext r r' (suc k) (suc k') m (λ i l.
          ap (nth fresh r) (omega arith)
          ∙ h (suc i) (omega arith)
          ∙ ap (nth fresh r') (omega arith)))

  pub index_of-push : (r : Ring A) (v : A) (k : ℕ) → index_of (push fresh r v) k ≡ index_of r k
  unfolding push index_of
  index_of-push r v k = refl

  -- The storage after a push, read at an index of the ring.
  e-push :
      (r : Ring A) (v : A) (j : ℕ)
      → get_or (push fresh r v).e j fresh
        ≡ get_or (set (set r.e (index_of r r.n) fresh) (index_of r r.n) v) j fresh
  unfolding push
  e-push r v j = refl

  pub n-push : (r : Ring A) (v : A) → r.n < 2 ^ 31 → (push fresh r v).n ≡ suc r.n
  unfolding push
  n-push r v l = omega arith

  module _ (r : Ring A) (h : IsValid r) where
    pub nth-push :
        (v : A) (k : ℕ) → k < r.n → full r ≡ false → nth fresh (push fresh r v) k ≡ nth fresh r k
    unfolding nth full
    nth-push v k l f =
        let room : r.n < r.capacity = ground arith in
        let other = λ (e : index_of r r.n ≡ index_of r k).
          absurd (omega (arith, index_of_injective r h r.n k room (omega arith) e)) in
        rw (index_of-push r v k) (
          e-push r v (index_of r k)
          ∙ get_or-set_ne (set r.e (index_of r r.n) fresh) (index_of r r.n) (index_of r k) v fresh
              other
          ∙ get_or-set_ne r.e (index_of r r.n) (index_of r k) fresh fresh other)

    pub nth-push_last : (v : A) → full r ≡ false → nth fresh (push fresh r v) r.n ≡ v
    unfolding nth full
    nth-push_last v f =
        let room : r.n < r.capacity = ground arith in
        rw (index_of-push r v r.n) (
          e-push r v (index_of r r.n)
          ∙ get_or-set_self (set r.e (index_of r r.n) fresh) (index_of r r.n) v fresh
              (rw length-set (omega (arith, index_of-lt r h r.n))))

    -- `push` on a ring that is not full adds the entry as the youngest, after all the others.
    pub contents-push : (v : A) → full r ≡ false → contents (push fresh r v) ≡ contents r ++ v ∷ []
    contents-push v f =
        ap (entries (push fresh r v) 0) (n-push r v (omega arith))
        ∙ entries-snoc (push fresh r v) 0 r.n
        ∙ ap₂ (λ xs x. xs ++ x ∷ [])
            (entries_ext (push fresh r v) r 0 0 r.n (λ i l. nth-push v (0 + i) (omega arith) f))
            (ap (nth fresh (push fresh r v)) (omega arith) ∙ nth-push_last v f)

    -- A ring that is not empty has `m + 1` entries, and a pop leaves `m`.
    count_pred :
        empty r ≡ false → (m : ℕ) × (r.n ≡ suc m) × ((pop_head r).n ≡ m) × ((pop_tail r).n ≡ m)
    unfolding empty pop_head pop_tail
    count_pred e = (r.n - 1, ground arith, ground arith, ground arith)

    pub nth_zero : nth fresh r 0 ≡ head fresh r
    unfolding nth head index_of
    nth_zero = ap (λ j. get_or r.e j fresh) (ground arith)

    pub nth-pop_head : (k : ℕ) → k < r.capacity → nth fresh (pop_head r) k ≡ nth fresh r (suc k)
    unfolding nth
    nth-pop_head k l = rw (index_of-pop_head r h k l) (unfold pop_head in refl)

    pub contents-pop_head : empty r ≡ false → contents r ≡ head fresh r ∷ contents (pop_head r)
    contents-pop_head e =
        let (m, n, n', _) = count_pred e in
        ap (entries r 0) n
        ∙ ap₂ ◌∷◌ nth_zero (
            entries_ext r (pop_head r) 1 0 m (λ i l. sym (
              ap (nth fresh (pop_head r)) (omega arith)
              ∙ nth-pop_head i (omega arith)
              ∙ ap (nth fresh r) (omega arith)))
            ∙ ap (entries (pop_head r) 0) (sym n'))

    pub nth_last : (m : ℕ) → r.n ≡ suc m → nth fresh r m ≡ tail fresh r
    unfolding nth tail
    nth_last m n = ap (λ j. at fresh r (index_of r j)) (omega arith)

    pub nth-pop_tail : (k : ℕ) → nth fresh (pop_tail r) k ≡ nth fresh r k
    unfolding nth pop_tail index_of
    nth-pop_tail k = refl

    pub contents-pop_tail :
        empty r ≡ false → contents r ≡ contents (pop_tail r) ++ tail fresh r ∷ []
    contents-pop_tail e =
        let (m, n, _, n') = count_pred e in
        ap (entries r 0) n
        ∙ entries-snoc r 0 m
        ∙ ap₂ (λ xs x. xs ++ x ∷ [])
            (entries_ext r (pop_tail r) 0 0 m (λ i l. sym (nth-pop_tail (0 + i)))
              ∙ ap (entries (pop_tail r) 0) (sym n'))
            (ap (nth fresh r) (omega arith) ∙ nth_last m n)

    -- On a ring that is not empty, `popHead` takes off what `head` shows, the oldest entry, and
    -- `popTail` what `tail` shows, the youngest; the others keep their order.
    pub contents_pops :
        empty r ≡ false
        → (contents r ≡ head fresh r ∷ contents (pop_head r))
          × (contents r ≡ contents (pop_tail r) ++ tail fresh r ∷ [])
    contents_pops e = (contents-pop_head e, contents-pop_tail e)

  pub contents-make : (capacity : ℕ) → contents (make fresh capacity) ≡ []
  unfolding make
  contents-make capacity = refl
