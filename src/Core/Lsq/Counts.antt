-- ===== src/Core/Lsq/Counts.antt =====
-- Sums over the live entries of the queue, which its counters hold.
use rv_o.Base.{
  ℕ, zero, suc, ◌+◌, ◌*◌, ◌/◌, ◌%◌, ◌^◌, ◌≤◌, ◌<◌, ◌≡◌, refl, ap, ◌∙◌, arith, Bool, true, false,
  ◌&&◌, ◌||◌, List, [], ◌∷◌, ◌++◌, get_or, set, length, ◌==◌, if◌then◌else◌, get_or-set, length-set,
  u32, sub32, bit_and_mask,
}
use rv_o.Core.Ring.{
  Ring, index_of, nth, put, pop_head, pop_tail, empty, full, push, head, tail, make,
}
use rv_o.Core.Ring.Index.{IsValid}
use rv_o.Core.Ring.Contents.{
  contents, contents-push, contents-pop_head, contents-pop_tail, entries, length-entries,
}
use rv_o.Core.Ring.Write.{contents-put}
use rv_o.Core.Lsq.{LsqEntry, fresh, word_bucket, last_byte, change_words}

unfoldable pub total : (LsqEntry → ℕ) → List LsqEntry → ℕ
total w [] = 0
total w (e ∷ es) = w e + total w es

module _ (w : LsqEntry → ℕ) where
  total-append : (es fs : List LsqEntry) → total w (es ++ fs) ≡ total w es + total w fs
  unfolding total
  total-append [] fs = omega arith
  total-append (e ∷ es) fs = omega (arith, total-append es fs)

  total-set :
      (es : List LsqEntry) (j : ℕ) (v : LsqEntry)
      → j < length es
      → total w (set es j v) + w (get_or es j fresh) ≡ total w es + w v
  unfolding total
  total-set [] j v l = absurd (omega arith)
  total-set (e ∷ es) zero v l = omega arith
  total-set (e ∷ es) (suc j) v l = omega (arith, total-set es j v (omega arith))

  total-le :
      (bound : ℕ) (es : List LsqEntry)
      → ((e : LsqEntry) → w e ≤ bound)
      → total w es ≤ bound * length es
  unfolding total
  total-le bound [] h = omega arith
  total-le bound (e ∷ es) h = grind (arith, total-le bound es h, h e)

  total-get_or : (es : List LsqEntry) (j : ℕ) → j < length es → w (get_or es j fresh) ≤ total w es
  unfolding total
  total-get_or [] j l = absurd (omega arith)
  total-get_or (e ∷ es) zero l = omega arith
  total-get_or (e ∷ es) (suc j) l = omega (arith, total-get_or es j (omega arith))

get_or-entries :
    (r : Ring LsqEntry) (a m j : ℕ)
    → j < m
    → get_or (entries fresh r a m) j fresh ≡ nth fresh r (a + j)
get_or-entries r a zero j l = absurd (omega arith)
get_or-entries r a (suc m) zero l = ap (nth fresh r) (omega arith)
get_or-entries r a (suc m) (suc j) l =
    get_or-entries r (suc a) m j (omega arith) ∙ ap (nth fresh r) (omega arith)

-- What the entries of a ring add up to.
abbrev pub sum_of : (LsqEntry → ℕ) → Ring LsqEntry → ℕ
sum_of w r = total w (contents fresh r)

module _ (w : LsqEntry → ℕ) (r : Ring LsqEntry) (h : IsValid r) where
  module _ (k : ℕ) (l : k < r.n) where
    nth-contents : get_or (contents fresh r) k fresh ≡ nth fresh r k
    nth-contents = get_or-entries r 0 r.n k l ∙ ap (nth fresh r) (omega arith)

    pub sum_of-put :
        (v : LsqEntry) → sum_of w (put r (index_of r k) v) + w (nth fresh r k) ≡ sum_of w r + w v
    sum_of-put v =
        let inside : k < length (contents fresh r) =
          omega (arith, l, length-entries fresh r 0 r.n) in
        omega (
          arith,
          ap (total w) (contents-put fresh r h k v l),
          total-set w (contents fresh r) k v inside,
          ap w nth-contents,
        )

    pub sum_of-nth : w (nth fresh r k) ≤ sum_of w r
    sum_of-nth =
        let inside : k < length (contents fresh r) =
          omega (arith, l, length-entries fresh r 0 r.n) in
        omega (arith, total-get_or w (contents fresh r) k inside, ap w nth-contents)

  pub sum_of-push : (v : LsqEntry) → full r ≡ false → sum_of w (push fresh r v) ≡ sum_of w r + w v
  sum_of-push v f =
      ap (total w) (contents-push fresh r h v f)
      ∙ total-append w (contents fresh r) (v ∷ [])
      ∙ unfold total in omega arith

  pub sum_of-pop_head : empty r ≡ false → sum_of w r ≡ w (head fresh r) + sum_of w (pop_head r)
  sum_of-pop_head e = ap (total w) (contents-pop_head fresh r h e) ∙ unfold total in refl

  pub sum_of-pop_tail : empty r ≡ false → sum_of w r ≡ w (tail fresh r) + sum_of w (pop_tail r)
  sum_of-pop_tail e =
      ap (total w) (contents-pop_tail fresh r h e)
      ∙ total-append w (contents fresh (pop_tail r)) (tail fresh r ∷ [])
      ∙ unfold total in omega arith

  sum_of-lt : ((e : LsqEntry) → w e ≤ 1) → sum_of w r < 2 ^ 31
  sum_of-lt b =
      omega
        (arith, total-le w 1 (contents fresh r) b, length-entries fresh r 0 r.n, h.fits, h.small)

-- 1 for an entry with the property.
abbrev one_if : (LsqEntry → Bool) → LsqEntry → ℕ
one_if p e = if p e then 1 else 0

-- How many of the live entries have the property.
unfoldable pub number : (LsqEntry → Bool) → Ring LsqEntry → ℕ
number p r = sum_of (one_if p) r

module _ (p : LsqEntry → Bool) (r : Ring LsqEntry) (h : IsValid r) where
  number-lt : sum_of (one_if p) r < 2 ^ 31
  number-lt = sum_of-lt (one_if p) r h (λ e. ground arith)

  module _ (k : ℕ) (l : k < r.n) (v : LsqEntry) where
    pub number-put : p v ≡ p (nth fresh r k) → number p r ≡ number p (put r (index_of r k) v)
    unfolding number
    number-put e = ground (arith, e, sum_of-put (one_if p) r h k l v)

    pub number-put_up :
        p (nth fresh r k) ≡ false
        → p v ≡ true
        → u32 (number p r + 1) ≡ number p (put r (index_of r k) v)
    unfolding number
    number-put_up e f = ground (arith, e, f, sum_of-put (one_if p) r h k l v, number-lt)

    pub number-put_down :
        p (nth fresh r k) ≡ true
        → p v ≡ false
        → sub32 (number p r) 1 ≡ number p (put r (index_of r k) v)
    unfolding number
    number-put_down e f = ground (arith, e, f, sum_of-put (one_if p) r h k l v, number-lt)

  -- An entry with the property is counted.
  pub number-nth : (k : ℕ) → k < r.n → p (nth fresh r k) ≡ true → 0 < number p r
  unfolding number
  number-nth k l e = ground (arith, e, sum_of-nth (one_if p) r h k l)

  pub number-push :
      (v : LsqEntry) → full r ≡ false → p v ≡ false → number p r ≡ number p (push fresh r v)
  unfolding number
  number-push v f e = ground (arith, e, sum_of-push (one_if p) r h v f)

  -- A pop takes the popped entry out of the count.
  pub number-pop_head :
      empty r ≡ false
      → (if p (head fresh r) then sub32 (number p r) 1 else number p r) ≡ number p (pop_head r)
  unfolding number
  number-pop_head e = ground (arith, sum_of-pop_head (one_if p) r h e, number-lt)

  pub number-pop_tail :
      empty r ≡ false
      → (if p (tail fresh r) then sub32 (number p r) 1 else number p r) ≡ number p (pop_tail r)
  unfolding number
  number-pop_tail e = ground (arith, sum_of-pop_tail (one_if p) r h e, number-lt)

pub number-make : (p : LsqEntry → Bool) (capacity : ℕ) → 0 ≡ number p (make fresh capacity)
unfolding number total make
number-make p capacity = refl

-- The resolved stores that touch a bucket.
unfoldable pub hits : ℕ → LsqEntry → Bool
hits b e =
    e.is_store && (e.addr_valid && (word_bucket e.addr == b || word_bucket (last_byte e) == b))

pub word_bucket-mod : (addr : ℕ) → word_bucket addr ≡ addr / 4 % 64
unfolding word_bucket
word_bucket-mod addr = bit_and_mask 6 (addr / 4)

module _ (f : ℕ → ℕ) (words : List ℕ) (e : LsqEntry) where
  pub length-change_words : length (change_words f words e) ≡ length words
  length-change_words =
      let low = word_bucket e.addr in
      let high = word_bucket (last_byte e) in
      let first = set words low (f (get_or words low 0)) in
      ground (
        arith,
        length-set words low (f (get_or words low 0)),
        length-set first high (f (get_or first high 0)),
      )

  pub get_or-change_words :
      (b : ℕ)
      → length words ≡ 64
      → get_or (change_words f words e) b 0 ≡ (
          if word_bucket e.addr == b || word_bucket (last_byte e) == b
          then f (get_or words b 0)
          else get_or words b 0)
  get_or-change_words b s =
      let low = word_bucket e.addr in
      let high = word_bucket (last_byte e) in
      let first = set words low (f (get_or words low 0)) in
      ground (
        arith,
        s,
        word_bucket-mod e.addr,
        word_bucket-mod (last_byte e),
        length-set words low (f (get_or words low 0)),
        get_or-set words low b (f (get_or words low 0)) 0,
        get_or-set words low high (f (get_or words low 0)) 0,
        get_or-set first high b (f (get_or first high 0)) 0,
        λ (q : low ≡ b). ap (λ i. get_or words i 0) q,
        λ (q : high ≡ b). ap (λ i. get_or words i 0) q,
      )
