-- ===== src/Core/Ring/Write.antt =====
-- A write to a live slot of a ring, in the list of its entries.
use rv_o.Base.{
  ℕ, zero, suc, ◌+◌, ◌≤◌, ◌<◌, ◌≡◌, ◌≢◌, refl, ap, ap₂, sym, ◌∙◌, arith, ◌∷◌, set, get_or-set_self,
  get_or-set_ne,
}
use rv_o.Core.Ring.{Ring, index_of, put, nth}
use rv_o.Core.Ring.Index.{IsValid, index_of-lt, index_of_injective}
use rv_o.Core.Ring.Contents.{entries, entries_ext, contents}

module _ {ℓ} {A : Type ℓ} (fresh : A) (r : Ring A) (h : IsValid r) (k : ℕ) (v : A)
    (l : k < r.n) where
  pub nth-put_self : nth fresh (put r (index_of r k) v) k ≡ v
  unfolding nth put index_of
  nth-put_self =
      get_or-set_self r.e (index_of r k) v fresh
        (omega (arith, index_of-lt r h k (omega (arith, l, h.fits)), h.storage))

  pub nth-put_ne : (j : ℕ) → j < r.n → j ≢ k → nth fresh (put r (index_of r k) v) j ≡ nth fresh r j
  unfolding nth put index_of
  nth-put_ne j b d = get_or-set_ne r.e (index_of r k) (index_of r j) v fresh (λ e.
      d (sym (index_of_injective r h k j (omega (arith, l, h.fits)) (omega (arith, b, h.fits)) e)))

  entries-put :
      (m a j : ℕ)
      → a + m ≤ r.n
      → a + j ≡ k
      → entries fresh (put r (index_of r k) v) a m ≡ set (entries fresh r a m) j v
  entries-put zero a j b e = refl
  entries-put (suc m) a zero b e =
      let at : a ≡ k = omega (arith, e) in
      ap₂ ◌∷◌ (ap (nth fresh (put r (index_of r k) v)) at ∙ nth-put_self) (
        entries_ext fresh (put r (index_of r k) v) r (suc a) (suc a) m (λ i lt.
          nth-put_ne (suc a + i) (omega (arith, b, lt)) (λ q. absurd (omega (arith, q, at)))))
  entries-put (suc m) a (suc j) b e =
      ap₂ ◌∷◌ (nth-put_ne a (omega (arith, b)) (λ q. absurd (omega (arith, q, e))))
        (entries-put m (suc a) j (omega (arith, b)) (omega (arith, e)))

  pub contents-put : contents fresh (put r (index_of r k) v) ≡ set (contents fresh r) k v
  unfolding put
  contents-put = entries-put r.n 0 k (omega arith) (omega arith)
