-- ===== src/Core/IssueQueue/Wakeup.antt =====
-- What a writeback does to the entries that wait for it.
use rv_o.Base.{
  ℕ, zero, suc, ◌+◌, ◌*◌, ◌^◌, ◌≤◌, ◌<◌, ◌≡◌, ap, arith, Bool, ◌&&◌, List, length, length-set,
  get_or, get_or-set, ltb, leb, if◌then◌else◌, bit_and, bit_or, bit_not, test_bit, bit_and-le,
  get_or-set_ne, ◌∙◌,
}
use native.Mathlib.Decide.{ℕ_discrete}
use rv_o.Core.IssueQueue.{IssueQueue, wakeup_word, wakeup_from}

-- The bit of the slot `64 * w + i` in a bitmap.
abbrev pub bit : List ℕ → ℕ → ℕ → Bool
bit map w i = test_bit (get_or map w 0) i

-- The bitmaps have their sizes and hold 64-bit words.
pub record IsSized (phys_regs : ℕ) (q : IssueQueue) : Type 0 where
  pub size1 : length q.blocked1 ≡ q.words
  pub size2 : length q.blocked2 ≡ q.words
  pub size_ready : length q.ready ≡ q.words
  pub size_wait1 : length q.wait1 ≡ phys_regs * q.words
  pub size_wait2 : length q.wait2 ≡ phys_regs * q.words
  pub word_wait1 : (k : ℕ) → get_or q.wait1 k 0 < 2 ^ 64
  pub word_wait2 : (k : ℕ) → get_or q.wait2 k 0 < 2 ^ 64
  pub word1 : (k : ℕ) → get_or q.blocked1 k 0 < 2 ^ 64
  pub word2 : (k : ℕ) → get_or q.blocked2 k 0 < 2 ^ 64

-- The words of one round.
abbrev pub still : List ℕ → List ℕ → ℕ → ℕ → ℕ
still blocked wait idx w = bit_and (get_or blocked w 0) (bit_not 64 (get_or wait idx 0))

module _ (phys_regs : ℕ) (q : IssueQueue) (preg w : ℕ) where
  wakeup_word-IsSized :
      IsSized phys_regs q
      → w < q.words
      → preg < phys_regs
      → IsSized phys_regs (wakeup_word q preg w)
  unfolding wakeup_word
  wakeup_word-IsSized h l p =
      let idx = preg * q.words + w in
      record {
        size1 = length-set q.blocked1 w _ ∙ h.size1;
        size2 = length-set q.blocked2 w _ ∙ h.size2;
        size_ready = length-set q.ready w _ ∙ h.size_ready;
        size_wait1 = length-set q.wait1 idx 0 ∙ h.size_wait1;
        size_wait2 = length-set q.wait2 idx 0 ∙ h.size_wait2;
        word_wait1 = λ k. ground (arith, get_or-set q.wait1 idx k 0 0, h.word_wait1 k);
        word_wait2 = λ k. ground (arith, get_or-set q.wait2 idx k 0 0, h.word_wait2 k);
        word1 = λ k.
            let b = still q.blocked1 q.wait1 idx w in
            ground (
              arith,
              get_or-set q.blocked1 w k b 0,
              h.word1 k,
              h.word1 w,
              bit_and-le 64 (get_or q.blocked1 w 0) (bit_not 64 (get_or q.wait1 idx 0)) (h.word1 w),
            );
        word2 = λ k.
            let b = still q.blocked2 q.wait2 idx w in
            ground (
              arith,
              get_or-set q.blocked2 w k b 0,
              h.word2 k,
              h.word2 w,
              bit_and-le 64 (get_or q.blocked2 w 0) (bit_not 64 (get_or q.wait2 idx 0)) (h.word2 w),
            );
      }

-- The loop, read at word `v`: the words from `w` on, `left` of them, have been through a round.
abbrev pub through : ℕ → ℕ → ℕ → Bool
through w left v = leb w v && ltb v (w + left)

abbrev pub now_ready : IssueQueue → ℕ → ℕ → ℕ
now_ready q idx v = bit_or (get_or q.ready v 0) (
    bit_and (bit_or (get_or q.wait1 idx 0) (get_or q.wait2 idx 0))
      (bit_not 64 (bit_or (still q.blocked1 q.wait1 idx v) (still q.blocked2 q.wait2 idx v))))

abbrev ready_of : ℕ → ℕ → ℕ → ℕ → ℕ → ℕ
ready_of b1 b2 r x y = bit_or r (
    bit_and (bit_or x y)
      (bit_not 64 (bit_or (bit_and b1 (bit_not 64 x)) (bit_and b2 (bit_not 64 y)))))

same_ready :
    {b1 b1' b2 b2' r r' x x' y y' : ℕ}
    → b1' ≡ b1
    → b2' ≡ b2
    → r' ≡ r
    → x' ≡ x
    → y' ≡ y
    → ready_of b1' b2' r' x' y' ≡ ready_of b1 b2 r x y
same_ready p1 p2 p3 p4 p5 = λ i. ready_of (p1 i) (p2 i) (p3 i) (p4 i) (p5 i)

-- What the loop makes of word `v` and of word `x` of the waiting rows.
abbrev pub Woken : IssueQueue → IssueQueue → ℕ → ℕ → ℕ → ℕ → Type 0
Woken q q' preg w left v =
    (get_or q'.blocked1 v 0 ≡ (
      if through w left v
      then still q.blocked1 q.wait1 (preg * q.words + v) v
      else get_or q.blocked1 v 0))
    × (get_or q'.blocked2 v 0 ≡ (
        if through w left v
        then still q.blocked2 q.wait2 (preg * q.words + v) v
        else get_or q.blocked2 v 0))
    × (get_or q'.ready v 0
        ≡ (if through w left v then now_ready q (preg * q.words + v) v else get_or q.ready v 0))

module _ (phys_regs preg : ℕ) (p : preg < phys_regs) where
  pub row-lt : (q : IssueQueue) (w : ℕ) → w < q.words → preg * q.words + w < phys_regs * q.words
  row-lt q w l = grind arith

  pub wakeup_from-Woken :
      (q : IssueQueue) (w left v : ℕ)
      → IsSized phys_regs q
      → w + left ≤ q.words
      → v < q.words
      → Woken q (wakeup_from q preg w left) preg w left v
  unfolding wakeup_from wakeup_word
  wakeup_from-Woken q w zero v h l lv = (ground arith, ground arith, ground arith)
  wakeup_from-Woken q w (suc left) v h l lv =
      let idx = preg * q.words + w in
      let rest =
        wakeup_from-Woken (wakeup_word q preg w) (w + 1) left v
          (wakeup_word-IsSized phys_regs q preg w h (omega arith) p) (omega arith) (omega arith) in
      elim (ℕ_discrete w v) [
        | yes e ↦ (
          ground (
            arith,
            rest.0,
            get_or-set q.blocked1 w v (still q.blocked1 q.wait1 idx w) 0,
            h.size1,
            ap (still q.blocked1 q.wait1 idx) e,
          ),
          ground (
            arith,
            rest.1,
            get_or-set q.blocked2 w v (still q.blocked2 q.wait2 idx w) 0,
            h.size2,
            ap (still q.blocked2 q.wait2 idx) e,
          ),
          ground (
            arith,
            rest.2,
            get_or-set q.ready w v (now_ready q idx w) 0,
            h.size_ready,
            ap (now_ready q idx) e,
          ),
        )
        | no ne ↦
            let o1 = get_or-set_ne q.blocked1 w v (still q.blocked1 q.wait1 idx w) 0 ne in
            let x1 = get_or-set_ne q.wait1 idx (preg * q.words + v) 0 0 (λ d. ne (omega arith)) in
            let o2 = get_or-set_ne q.blocked2 w v (still q.blocked2 q.wait2 idx w) 0 ne in
            let x2 = get_or-set_ne q.wait2 idx (preg * q.words + v) 0 0 (λ d. ne (omega arith)) in
            let o3 = get_or-set_ne q.ready w v (now_ready q idx w) 0 ne in
            (
              ground
                  (arith, rest.0, o1, ap (λ y. bit_and (get_or q.blocked1 v 0) (bit_not 64 y)) x1),
              ground
                  (arith, rest.1, o2, ap (λ y. bit_and (get_or q.blocked2 v 0) (bit_not 64 y)) x2),
              ground (arith, rest.2, o3, same_ready o1 o2 o3 x1 x2),
            )
      ]

  pub wait-wakeup_from :
      (q : IssueQueue) (w left x : ℕ)
      → IsSized phys_regs q
      → w + left ≤ q.words
      → (get_or (wakeup_from q preg w left).wait1 x 0 ≡ (
          if leb (preg * q.words + w) x && ltb x (preg * q.words + w + left)
          then 0
          else get_or q.wait1 x 0))
        × (get_or (wakeup_from q preg w left).wait2 x 0 ≡ (
            if leb (preg * q.words + w) x && ltb x (preg * q.words + w + left)
            then 0
            else get_or q.wait2 x 0))
  unfolding wakeup_from wakeup_word
  wait-wakeup_from q w zero x h l = (ground arith, ground arith)
  wait-wakeup_from q w (suc left) x h l =
      let idx = preg * q.words + w in
      let rest =
        wait-wakeup_from (wakeup_word q preg w) (w + 1) left x
          (wakeup_word-IsSized phys_regs q preg w h (omega arith) p) (omega arith) in
      (
        ground
            (arith, rest.0, get_or-set q.wait1 idx x 0 0, h.size_wait1, row-lt q w (omega arith)),
        ground
            (arith, rest.1, get_or-set q.wait2 idx x 0 0, h.size_wait2, row-lt q w (omega arith)),
      )

  pub wakeup_from-IsSized :
      (q : IssueQueue) (w left : ℕ)
      → IsSized phys_regs q
      → w + left ≤ q.words
      → IsSized phys_regs (wakeup_from q preg w left)
  unfolding wakeup_from wakeup_word
  wakeup_from-IsSized q w zero h l = h
  wakeup_from-IsSized q w (suc left) h l =
      wakeup_from-IsSized (wakeup_word q preg w) (w + 1) left
        (wakeup_word-IsSized phys_regs q preg w h (omega arith) p) (omega arith)
