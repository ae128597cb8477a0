-- ===== src/Core/IssueQueue/Schedule.antt =====
-- core/iq.h: how the bitmaps of the issue queue agree with one another, and the writeback.
use rv_o.Base.{
  ℕ, zero, suc, ◌+◌, ◌-◌, ◌*◌, ◌^◌, ◌<◌, ◌≡◌, refl, ap, ◌∙◌, arith, true, not, ◌&&◌, get_or, ltb,
  leb, ◌==◌, bit_and, bit_or, bit_not, test_bit, test_bit-bit_and, test_bit-bit_or,
  test_bit-bit_not, test_bit-zero, bit_or-lt, bit_and-le,
}
use rv_o.Core.IssueQueue.{IqEntry, fresh_entry, IssueQueue, wakeup_word, wakeup_from, wakeup}
use rv_o.Core.IssueQueue.Wakeup.{
  bit, IsSized, still, now_ready, through, wakeup_from-Woken, wait-wakeup_from, wakeup_from-IsSized,
}

-- The entry of slot `64 * w + i`.
abbrev pub entry : IssueQueue → ℕ → ℕ → IqEntry
entry q w i = get_or q.e (64 * w + i) fresh_entry

-- A slot is ready when it holds an instruction and waits for neither source; it waits for the
-- physical register that its entry names, and only an occupied slot waits.
pub record IsScheduled (phys_regs : ℕ) (q : IssueQueue) : Type 0 where
  pub sized : IsSized phys_regs q
  pub ready_iff :
      (w i : ℕ)
      → w < q.words
      → i < 64
      → bit q.ready w i
        ≡ (bit q.occupied w i && (not (bit q.blocked1 w i) && not (bit q.blocked2 w i)))
  pub waits1 :
      (p w i : ℕ)
      → p < phys_regs
      → w < q.words
      → i < 64
      → bit q.wait1 (p * q.words + w) i ≡ (bit q.blocked1 w i && p == (entry q w i).ps1)
  pub waits2 :
      (p w i : ℕ)
      → p < phys_regs
      → w < q.words
      → i < 64
      → bit q.wait2 (p * q.words + w) i ≡ (bit q.blocked2 w i && p == (entry q w i).ps2)
  pub held1 :
      (w i : ℕ) → w < q.words → i < 64 → bit q.blocked1 w i ≡ true → bit q.occupied w i ≡ true
  pub held2 :
      (w i : ℕ) → w < q.words → i < 64 → bit q.blocked2 w i ≡ true → bit q.occupied w i ≡ true

-- What a round does not touch.
untouched :
    (q : IssueQueue) (preg w left : ℕ)
    → ((wakeup_from q preg w left).e ≡ q.e)
      × ((wakeup_from q preg w left).occupied ≡ q.occupied)
      × ((wakeup_from q preg w left).words ≡ q.words)
      × ((wakeup_from q preg w left).n ≡ q.n)
unfolding wakeup_from wakeup_word
untouched q preg w zero = (refl, refl, refl, refl)
untouched q preg w (suc left) = untouched (wakeup_word q preg w) preg (w + 1) left

-- `a & ~b`, bit by bit.
test_bit-clear :
    (a b i : ℕ)
    → b < 2 ^ 64
    → i < 64
    → test_bit (bit_and a (bit_not 64 b)) i ≡ (test_bit a i && not (test_bit b i))
test_bit-clear a b i hb hi =
    ground (arith, test_bit-bit_and a (bit_not 64 b) i, test_bit-bit_not 64 b i hb hi)

row_below : (a b words w : ℕ) → a < b → w < words → a * words + w < b * words
row_below a b words w h l = grind arith

same_row :
    (r preg words w : ℕ)
    → w < words
    → (leb (preg * words + 0) (r * words + w) && ltb (r * words + w) (preg * words + 0 + words))
      ≡ (r == preg)
same_row r preg words w l = ground (
  arith,
  λ (c : r < preg). row_below r preg words w c l,
  λ (c : preg < r). row_below preg r words (words - 1) c (omega arith),
)

module _ (phys_regs preg : ℕ) (p : preg < phys_regs) (q : IssueQueue)
    (h : IsScheduled phys_regs q) where
  -- The waking of one slot, in terms of its entry: a source is unblocked when it is the register
  -- that was written.
  blocked-wakeup :
      (w i : ℕ)
      → w < q.words
      → i < 64
      → (bit (wakeup q preg).blocked1 w i ≡ (bit q.blocked1 w i && not (preg == (entry q w i).ps1)))
        × (bit (wakeup q preg).blocked2 w i
            ≡ (bit q.blocked2 w i && not (preg == (entry q w i).ps2)))
  unfolding wakeup
  blocked-wakeup w i l j =
      let idx = preg * q.words + w in
      let (b1, b2, _) = wakeup_from-Woken phys_regs preg p q 0 q.words w h.sized (omega arith) l in
      let inside : through 0 q.words w ≡ true = ground arith in
      let e1 : get_or (wakeup_from q preg 0 q.words).blocked1 w 0 ≡ still q.blocked1 q.wait1 idx w =
        ground (arith, b1, inside) in
      let e2 : get_or (wakeup_from q preg 0 q.words).blocked2 w 0 ≡ still q.blocked2 q.wait2 idx w =
        ground (arith, b2, inside) in
      (
        ap (λ x. test_bit x i) e1
            ∙ test_bit-clear (get_or q.blocked1 w 0) (get_or q.wait1 idx 0) i
                (h.sized.word_wait1 idx) j
            ∙ ground (arith, h.waits1 preg w i p l j),
        ap (λ x. test_bit x i) e2
            ∙ test_bit-clear (get_or q.blocked2 w 0) (get_or q.wait2 idx 0) i
                (h.sized.word_wait2 idx) j
            ∙ ground (arith, h.waits2 preg w i p l j),
      )

  still-lt :
      (w idx : ℕ)
      → w < q.words
      → bit_or (still q.blocked1 q.wait1 idx w) (still q.blocked2 q.wait2 idx w) < 2 ^ 64
  still-lt w idx l =
      bit_or-lt 64 (still q.blocked1 q.wait1 idx w) (still q.blocked2 q.wait2 idx w)
        (omega (
          arith,
          h.sized.word1 w,
          bit_and-le 64 (get_or q.blocked1 w 0) (bit_not 64 (get_or q.wait1 idx 0))
              (h.sized.word1 w),
        ))
        (omega (
          arith,
          h.sized.word2 w,
          bit_and-le 64 (get_or q.blocked2 w 0) (bit_not 64 (get_or q.wait2 idx 0))
              (h.sized.word2 w),
        ))

  ready-wakeup :
      (w i : ℕ)
      → w < q.words
      → i < 64
      → bit (wakeup q preg).ready w i ≡ (
          bit q.occupied w i
          && (not (bit q.blocked1 w i && not (preg == (entry q w i).ps1))
              && not (bit q.blocked2 w i && not (preg == (entry q w i).ps2))))
  unfolding wakeup
  ready-wakeup w i l j =
      let idx = preg * q.words + w in
      let s1 = still q.blocked1 q.wait1 idx w in
      let s2 = still q.blocked2 q.wait2 idx w in
      let (_, _, b3) = wakeup_from-Woken phys_regs preg p q 0 q.words w h.sized (omega arith) l in
      let e3 : get_or (wakeup_from q preg 0 q.words).ready w 0 ≡ now_ready q idx w = ground arith in
      let x = get_or q.wait1 idx 0 in
      let y = get_or q.wait2 idx 0 in
      let c1 = test_bit-clear (get_or q.blocked1 w 0) x i (h.sized.word_wait1 idx) j in
      let c2 = test_bit-clear (get_or q.blocked2 w 0) y i (h.sized.word_wait2 idx) j in
      ap (λ v. test_bit v i) e3
      ∙ test_bit-bit_or (get_or q.ready w 0) (bit_and (bit_or x y) (bit_not 64 (bit_or s1 s2))) i
      ∙ ground (
        arith,
        test_bit-clear (bit_or x y) (bit_or s1 s2) i (still-lt w idx l) j,
        test_bit-bit_or x y i,
        test_bit-bit_or s1 s2 i,
        c1,
        c2,
        h.waits1 preg w i p l j,
        h.waits2 preg w i p l j,
        h.ready_iff w i l j,
        h.held1 w i l j,
        h.held2 w i l j,
      )

  wait-wakeup :
      (r w i : ℕ)
      → r < phys_regs
      → w < q.words
      → i < 64
      → (bit (wakeup q preg).wait1 (r * q.words + w) i
          ≡ (not (r == preg) && bit q.wait1 (r * q.words + w) i))
        × (bit (wakeup q preg).wait2 (r * q.words + w) i
            ≡ (not (r == preg) && bit q.wait2 (r * q.words + w) i))
  unfolding wakeup
  wait-wakeup r w i lr l j =
      let x = r * q.words + w in
      let (w1, w2) = wait-wakeup_from phys_regs preg p q 0 q.words x h.sized (omega arith) in
      let row = same_row r preg q.words w l in
      (
        ap (λ v. test_bit v i) w1 ∙ ground (arith, row, test_bit-zero i),
        ap (λ v. test_bit v i) w2 ∙ ground (arith, row, test_bit-zero i),
      )

  -- A writeback of physical register `preg` keeps the bitmaps in agreement, and wakes exactly the
  -- sources that wait for it: a source stays blocked if and only if it was, and its entry names
  -- another register.
  pub wakeup-IsScheduled :
      IsScheduled phys_regs (wakeup q preg)
      × ((w i : ℕ)
          → w < q.words
          → i < 64
          → (bit (wakeup q preg).blocked1 w i
              ≡ (bit q.blocked1 w i && not (preg == (entry q w i).ps1)))
            × (bit (wakeup q preg).blocked2 w i
                ≡ (bit q.blocked2 w i && not (preg == (entry q w i).ps2))))
  wakeup-IsScheduled =
      let (e, o, ws, _) = untouched q preg 0 q.words in
      let entries : (w i : ℕ) → entry (wakeup q preg) w i ≡ entry q w i =
        λ w i. unfold wakeup in ap (λ es. get_or es (64 * w + i) fresh_entry) e in
      let held : (w i : ℕ) → bit (wakeup q preg).occupied w i ≡ bit q.occupied w i =
        λ w i. unfold wakeup in ap (λ os. bit os w i) o in
      let size : (wakeup q preg).words ≡ q.words = unfold wakeup in ws in
      let slot : (w : ℕ) → w < (wakeup q preg).words → w < q.words = λ w l. omega (arith, size) in
      (
        record {
          sized =
              unfold wakeup in
              wakeup_from-IsSized phys_regs preg p q 0 q.words h.sized (omega arith);
          ready_iff = λ w i l j.
              ground
                (arith, ready-wakeup w i (slot w l) j, held w i, blocked-wakeup w i (slot w l) j);
          waits1 = λ r w i lr l j.
              ap (λ n. bit (wakeup q preg).wait1 (r * n + w) i) size
              ∙ ground (
                arith,
                (wait-wakeup r w i lr (slot w l) j).0,
                (blocked-wakeup w i (slot w l) j).0,
                h.waits1 r w i lr (slot w l) j,
                ap (λ t. t.ps1) (entries w i),
              );
          waits2 = λ r w i lr l j.
              ap (λ n. bit (wakeup q preg).wait2 (r * n + w) i) size
              ∙ ground (
                arith,
                (wait-wakeup r w i lr (slot w l) j).1,
                (blocked-wakeup w i (slot w l) j).1,
                h.waits2 r w i lr (slot w l) j,
                ap (λ t. t.ps2) (entries w i),
              );
          held1 = λ w i l j b.
              ground
                (arith, held w i, (blocked-wakeup w i (slot w l) j).0, h.held1 w i (slot w l) j);
          held2 = λ w i l j b.
              ground
                (arith, held w i, (blocked-wakeup w i (slot w l) j).1, h.held2 w i (slot w l) j);
        },
        blocked-wakeup,
      )
