-- ===== src/Core/StoreBuffer/Issued.antt =====
-- core/lsq.h: the issued stores among those of the store buffer.
use rv_o.Base.{
  ℕ, zero, suc, ◌+◌, ◌^◌, ◌≤◌, ◌<◌, ◌≡◌, refl, sym, ap, ◌∙◌, arith, true, false, ◌&&◌, not, none,
  some, List, [], ◌∷◌, ◌++◌, get_or, set, length, ltb, ◌==◌, if◌then◌else◌, if-both, Bool-cases,
  inl, inr, subst, some_injective, u32, sub32,
}
use rv_o.Core.Ring
use rv_o.Core.Ring.{Ring}
use rv_o.Core.Ring.Index.{
  IsValid, make-IsValid, push-IsValid, pop_head-IsValid, put-IsValid, live_iff,
}
use rv_o.Core.Ring.Contents.{
  contents, contents-push, contents_pops, contents-make, length-entries, entries,
}
use rv_o.Core.Ring.Write.{contents-put}
use rv_o.Memory.Request.{MemRequest}
use rv_o.Core.StoreBuffer.{
  StoreBufEntry, fresh, StoreBuffer, make, next_to_issue, put_nth, issue, pop_head, retire,
  send_next, send, acknowledge, pop_acked,
}

-- The first `k` entries are with the cache, and the others wait and have no acknowledgement.
abbrev pub Prefix : ℕ → List StoreBufEntry → Type 0
Prefix zero [] = Unit
Prefix (suc k) [] = suc k ≤ 0
Prefix zero (e ∷ es) = (e.inflight ≡ false) × (e.acked ≡ false) × Prefix zero es
Prefix (suc k) (e ∷ es) = (e.inflight ≡ true) × Prefix k es

pub record IsOrdered (b : StoreBuffer) : Type 0 where
  pub ring : IsValid b.ring
  pub sent : Prefix b.issued (contents fresh b.ring)

Prefix-length : (k : ℕ) (es : List StoreBufEntry) → Prefix k es → k ≤ length es
Prefix-length zero [] h = omega arith
Prefix-length (suc k) [] h = absurd (omega (arith, h))
Prefix-length zero (e ∷ es) h = omega arith
Prefix-length (suc k) (e ∷ es) h = omega (arith, Prefix-length k es h.1)

Prefix-append :
    (k : ℕ) (es : List StoreBufEntry) (e : StoreBufEntry)
    → e.inflight ≡ false
    → e.acked ≡ false
    → Prefix k es
    → Prefix k (es ++ (e ∷ []))
Prefix-append zero [] e f g h = (f, g, tt)
Prefix-append (suc k) [] e f g h = absurd (omega (arith, h))
Prefix-append zero (x ∷ es) e f g h = (h.0, h.1, Prefix-append zero es e f g h.2)
Prefix-append (suc k) (x ∷ es) e f g h = (h.0, Prefix-append k es e f g h.1)

-- The issue of the entry behind the issued ones, which is written first.
Prefix-issue :
    (k : ℕ) (es : List StoreBufEntry) (e e' : StoreBufEntry)
    → k < length es
    → e'.inflight ≡ true
    → Prefix k es
    → Prefix (suc k) (set (set es k e) k e')
Prefix-issue k [] e e' l f h = absurd (omega arith)
Prefix-issue zero (x ∷ es) e e' l f h = (f, h.2)
Prefix-issue (suc k) (x ∷ es) e e' l f h = (h.0, Prefix-issue k es e e' (omega arith) f h.1)

-- An acknowledged entry is with the cache, so one less of the rest is.
Prefix-pop :
    (k : ℕ) (e : StoreBufEntry) (es : List StoreBufEntry)
    → k < 2 ^ 32
    → e.acked ≡ true
    → Prefix k (e ∷ es)
    → Prefix (sub32 k 1) es
Prefix-pop zero e es l a h = absurd (ground (arith, a, h.1))
Prefix-pop (suc k) e es l a h =
    let less : k ≡ sub32 (suc k) 1 = omega (arith, l) in subst (λ n. Prefix n es) less h.1

entries-nth :
    (r : Ring StoreBufEntry) (a m j : ℕ)
    → j < m
    → get_or (entries fresh r a m) j fresh ≡ Ring.nth fresh r (a + j)
entries-nth r a zero j l = absurd (omega arith)
entries-nth r a (suc m) zero l = ap (Ring.nth fresh r) (omega arith)
entries-nth r a (suc m) (suc j) l =
    entries-nth r (suc a) m j (omega arith) ∙ ap (Ring.nth fresh r) (omega arith)

-- A write to an entry that is with the cache and stays so.
Prefix-inflight :
    (k j : ℕ) (es : List StoreBufEntry) (e : StoreBufEntry)
    → (get_or es j fresh).inflight ≡ true
    → e.inflight ≡ true
    → Prefix k es
    → Prefix k (set es j e)
Prefix-inflight k j [] e f g h = h
Prefix-inflight zero zero (x ∷ es) e f g h = absurd (ground (arith, f, h.0))
Prefix-inflight (suc k) zero (x ∷ es) e f g h = (g, h.1)
Prefix-inflight zero (suc j) (x ∷ es) e f g h = (h.0, h.1, Prefix-inflight zero j es e f g h.2)
Prefix-inflight (suc k) (suc j) (x ∷ es) e f g h = (h.0, Prefix-inflight k j es e f g h.1)

retire-IsOrdered :
    (b b' : StoreBuffer) (addr size word : ℕ)
    → retire b addr size word ≡ some b'
    → IsOrdered b
    → IsOrdered b'
unfolding retire
retire-IsOrdered b b' addr size word e i = elim (Bool-cases (Ring.full b.ring)) [
  | inl f ↦ absurd (ground (arith, e, f))
  | inr f ↦
      let new = record fresh { addr = addr; size = size; data_word = word } in
      let after = record b { ring = Ring.push fresh b.ring new } in
      let at : after ≡ b' = some_injective (sym (ap (λ c. if c then none else some after) f) ∙ e) in
      subst IsOrdered at (record {
        ring = push-IsValid fresh b.ring new i.ring f;
        sent =
            subst (Prefix b.issued) (sym (contents-push fresh b.ring i.ring new f))
              (Prefix-append b.issued (contents fresh b.ring) new refl refl i.sent);
      })
]

pop_head-IsOrdered :
    (b : StoreBuffer)
    → Ring.empty b.ring ≡ false
    → (Ring.head fresh b.ring).acked ≡ true
    → IsOrdered b
    → IsOrdered (pop_head b)
unfolding pop_head
pop_head-IsOrdered b n a i =
    let (popped, _) = contents_pops fresh b.ring i.ring n in
    let bound = Prefix-length b.issued (contents fresh b.ring) i.sent in
    let small : b.issued < 2 ^ 32 =
      omega (arith, bound, length-entries fresh b.ring 0 b.ring.n, i.ring.fits, i.ring.small) in
    record {
      ring = pop_head-IsValid b.ring i.ring n;
      sent =
          Prefix-pop b.issued (Ring.head fresh b.ring) (contents fresh (Ring.pop_head b.ring)) small
            a (subst (Prefix b.issued) popped i.sent);
    }

module _ (b : StoreBuffer) (txn : ℕ) where
  sent_some :
      ltb b.issued b.ring.n ≡ true
      → send b txn ≡ send_next b txn (some (Ring.nth fresh b.ring b.issued))
  unfolding send next_to_issue
  sent_some l =
      ap (λ c. send_next b txn (if c then some (Ring.nth fresh b.ring b.issued) else none)) l

  sent_none : ltb b.issued b.ring.n ≡ false → send b txn ≡ none
  unfolding send next_to_issue
  sent_none l =
      ap (λ c. send_next b txn (if c then some (Ring.nth fresh b.ring b.issued) else none)) l

send-IsOrdered :
    (b b' : StoreBuffer) (txn : ℕ) (req : MemRequest)
    → send b txn ≡ some (req, b')
    → IsOrdered b
    → IsOrdered b'
unfolding send next_to_issue issue Ring.put
send-IsOrdered b b' txn req e i = elim (Bool-cases (ltb b.issued b.ring.n)) [
  | inl l ↦
      let k = b.issued in
      let first = record (Ring.nth fresh b.ring k) { txn = txn } in
      let r = Ring.put b.ring (Ring.index_of b.ring k) first in
      let second = record (Ring.nth fresh r k) { inflight = true } in
      let after = issue (put_nth b k first) in
      let at : after ≡ b' =
        ap (λ (x : MemRequest × StoreBuffer). x.1) (some_injective (sym (sent_some b txn l) ∙ e)) in
      let room : k < b.ring.n = ground (arith, l) in
      let written : contents fresh (Ring.put r (Ring.index_of r k) second)
          ≡ set (set (contents fresh b.ring) k first) k second =
        contents-put fresh r (put-IsValid b.ring i.ring (Ring.index_of b.ring k) first) k second
          room
        ∙ ap (λ es. set es k second) (contents-put fresh b.ring i.ring k first room) in
      let next : suc k ≡ u32 (k + 1) = omega (arith, room, i.ring.fits, i.ring.small) in
      subst IsOrdered at (record {
        ring =
            put-IsValid r (put-IsValid b.ring i.ring (Ring.index_of b.ring k) first)
              (Ring.index_of r k) second;
        sent =
            subst (λ n. Prefix n (contents fresh (Ring.put r (Ring.index_of r k) second))) next
              (subst (Prefix (suc k)) (sym written) (
                Prefix-issue k (contents fresh b.ring) first second
                  (omega (arith, room, length-entries fresh b.ring 0 b.ring.n)) refl i.sent));
      })
  | inr l ↦ absurd (ground (arith, e, sent_none b txn l))
]

acknowledge-IsOrdered :
    (b : StoreBuffer) (slot txn : ℕ)
    → slot < 2 ^ 32
    → IsOrdered b
    → IsOrdered (acknowledge b slot txn)
unfolding acknowledge Ring.nth
acknowledge-IsOrdered b slot txn w i =
    let e = Ring.at fresh b.ring slot in
    let acked = record e { acked = true } in
    if-both IsOrdered (Ring.live b.ring slot && (e.inflight && (not e.acked && e.txn == txn))) _ b
      (λ h.
        let (k, l, at) = (live_iff b.ring i.ring slot w).0 (ground (arith, h)) in
        let zero_plus : 0 + k ≡ k = omega arith in
        let sent : (get_or (contents fresh b.ring) k fresh).inflight ≡ true =
          ap (λ (x : StoreBufEntry). x.inflight)
            (entries-nth b.ring 0 b.ring.n k l
              ∙ ap (Ring.nth fresh b.ring) zero_plus
              ∙ ap (Ring.at fresh b.ring) at)
          ∙ ground (arith, h) in
        record {
          ring = put-IsValid b.ring i.ring slot acked;
          sent =
              subst (λ j. Prefix b.issued (contents fresh (Ring.put b.ring j acked))) at
                (subst (Prefix b.issued) (sym (contents-put fresh b.ring i.ring k acked l)) (
                  Prefix-inflight b.issued k (contents fresh b.ring) acked sent (ground (arith, h))
                    i.sent));
        })
      (λ _. i)

pop_acked-IsOrdered : (fuel : ℕ) (b : StoreBuffer) → IsOrdered b → IsOrdered (pop_acked fuel b)
unfolding pop_acked
pop_acked-IsOrdered zero b i = i
pop_acked-IsOrdered (suc fuel) b i =
    if-both IsOrdered (not (Ring.empty b.ring) && (Ring.head fresh b.ring).acked)
      (pop_acked fuel (pop_head b)) b
      (λ h.
        pop_acked-IsOrdered fuel (pop_head b)
          (pop_head-IsOrdered b (ground (arith, h)) (ground (arith, h)) i))
      (λ _. i)

-- What commit and the memory engine do to the store buffer.
pub data Reached : StoreBuffer → Type 0 where
  start : (size : ℕ) → 0 < size → size < 2 ^ 31 → Reached (make size)
  retires :
      {b b' : StoreBuffer} (addr size word : ℕ)
      → Reached b
      → retire b addr size word ≡ some b'
      → Reached b'
  sends :
      {b b' : StoreBuffer} (txn : ℕ) (req : MemRequest)
      → Reached b
      → send b txn ≡ some (req, b')
      → Reached b'
  acknowledges :
      {b : StoreBuffer} (slot txn : ℕ)
      → Reached b
      → slot < 2 ^ 32
      → Reached (acknowledge b slot txn)
  pops : {b : StoreBuffer} (fuel : ℕ) → Reached b → Reached (pop_acked fuel b)

-- In every state that commits, issues, acknowledgements in any order and pops can reach, the stores
-- that are with the cache are the `issued` oldest ones of the buffer, and the others wait without an
-- acknowledgement: stores go out in program order and none is popped before it went out. The
-- acknowledged slots are 32-bit numbers.
pub Reached-IsOrdered : {b : StoreBuffer} → Reached b → IsOrdered b
unfolding make
Reached-IsOrdered (start size p l) = record {
  ring = make-IsValid fresh size p l;
  sent = subst (Prefix 0) (sym (contents-make fresh size)) tt;
}
Reached-IsOrdered (retires {b = b} {b' = b'} addr size word run e) =
    retire-IsOrdered b b' addr size word e (Reached-IsOrdered run)
Reached-IsOrdered (sends {b = b} {b' = b'} txn req run e) =
    send-IsOrdered b b' txn req e (Reached-IsOrdered run)
Reached-IsOrdered (acknowledges {b = b} slot txn run w) =
    acknowledge-IsOrdered b slot txn w (Reached-IsOrdered run)
Reached-IsOrdered (pops {b = b} fuel run) = pop_acked-IsOrdered fuel b (Reached-IsOrdered run)
