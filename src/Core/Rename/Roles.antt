-- ===== src/Core/Rename/Roles.antt =====
-- The roles of the physical registers, over the map, the free list and the entries as lists.
use rv_o.Base.{
  ℕ, suc, ◌+◌, ◌≤◌, ◌<◌, ◌≡◌, sym, ◌∙◌, arith, false, ◌==◌, ltb, if◌then◌else◌, List, [], ◌∷◌, ◌++◌,
  length, get_or, set, length-set, length-append, set-set_get, count, count-append, count-set,
  get_or-set_self, Bool-cases, inl, inr,
}
use rv_o.Core.Rob.{RobEntry, k_no_reg}
use rv_o.Core.Rename.Undo.{
  undo_one, displaced, Tracks, Ordered, displaced-snoc, Tracks-snoc, Tracks-unsnoc, Ordered-snoc,
  Ordered-unsnoc, Ordered-weaken,
}

-- `phys_regs` is the configured number of physical registers, `m` the map, `fs` the free list,
-- `es` the entries in flight, oldest first, and `seq` the counter of instructions.
pub record Roles (phys_regs : ℕ) (m fs : List ℕ) (es : List RobEntry) (seq : ℕ) : Type 0 where
  pub width : length m ≡ 32
  -- The map, the free list and the displaced mappings hold each register once.
  pub once :
      (a : ℕ) → count a m + count a fs + count a (displaced es) ≡ (if ltb a phys_regs then 1 else 0)
  pub room : length fs + length (displaced es) + 32 ≡ phys_regs
  pub tracks : Tracks m es
  pub ordered : Ordered 0 seq es

pub undo_one-set :
    (m : List ℕ) (e : RobEntry)
    → (e.pdst == k_no_reg) ≡ false
    → e.prev_phys ≡ get_or m e.ins.rd 0
    → e.ins.rd < length m
    → undo_one (set m e.ins.rd e.pdst) e ≡ m
undo_one-set m e n p r = rw n (rw p (set-set_get m e.ins.rd e.pdst 0 r))

module _ {phys_regs : ℕ} {m fs : List ℕ} {es : List RobEntry} {seq : ℕ} where
  pub commit-Roles :
      (e : RobEntry)
      → Roles phys_regs m fs (e ∷ es) seq
      → Roles phys_regs m (if e.pdst == k_no_reg then fs else fs ++ e.prev_phys ∷ []) es seq
  commit-Roles e h = record {
    width = h.width;
    once = λ a. ground (arith, h.once a, count-append a fs (e.prev_phys ∷ []));
    room = ground (arith, h.room, length-append fs (e.prev_phys ∷ []));
    tracks = h.tracks.1;
    ordered = Ordered-weaken (suc e.seq) 0 seq seq es (omega arith) (omega arith) h.ordered.1;
  }

  pub no_dest-Roles :
      (e : RobEntry)
      → Roles phys_regs m fs es seq
      → e.pdst ≡ k_no_reg
      → e.seq ≡ seq
      → Roles phys_regs m fs (es ++ e ∷ []) (suc seq)
  no_dest-Roles e h p q = record {
    width = h.width;
    once = λ a. ground (arith, h.once a, displaced-snoc es e);
    room = ground (arith, h.room, displaced-snoc es e);
    tracks = Tracks-snoc m es e (λ n. absurd (n p)) (ground (arith, h.tracks));
    ordered = rw (sym q) (Ordered-snoc 0 e.seq es e (rw q h.ordered) (omega arith));
  }

  pub dest-Roles :
      (e : RobEntry)
      → Roles phys_regs m (e.pdst ∷ fs) es seq
      → phys_regs ≤ 255
      → e.ins.rd < 32
      → e.prev_phys ≡ get_or m e.ins.rd 0
      → e.seq ≡ seq
      → Roles phys_regs (set m e.ins.rd e.pdst) fs (es ++ e ∷ []) (suc seq)
  dest-Roles e h small r p q =
      let real : e.pdst < 255 = ground (arith, h.once e.pdst) in
      record {
        width = length-set m e.ins.rd e.pdst ∙ h.width;
        once = λ a. ground (
          arith,
          h.once a,
          h.width,
          displaced-snoc es e,
          count-append a (displaced es) (e.prev_phys ∷ []),
          count-set a m e.ins.rd e.pdst (omega (arith, h.width)),
        );
        room =
            ground
              (arith, h.room, displaced-snoc es e, length-append (displaced es) (e.prev_phys ∷ []));
        tracks =
            Tracks-snoc (set m e.ins.rd e.pdst) es e
              (λ n. (r, get_or-set_self m e.ins.rd e.pdst 0 (omega (arith, h.width))))
              (rw (undo_one-set m e (ground arith) p (omega (arith, h.width))) h.tracks);
        ordered = rw (sym q) (Ordered-snoc 0 e.seq es e (rw q h.ordered) (omega arith));
      }

  pub squash-Roles :
      (e : RobEntry)
      → Roles phys_regs m fs (es ++ e ∷ []) seq
      → Roles phys_regs (undo_one m e) (if e.pdst == k_no_reg then fs else fs ++ e.pdst ∷ []) es seq
  squash-Roles e h =
      let t = Tracks-unsnoc m es e h.tracks in
      let o = Ordered-unsnoc 0 seq es e h.ordered in
      record {
        width = ground (arith, h.width, length-set m e.ins.rd e.prev_phys);
        once = λ a. elim (Bool-cases (e.pdst == k_no_reg)) [
          | inl x ↦ ground (arith, h.once a, displaced-snoc es e)
          | inr x ↦
              let (r, g) = t.0 (ground arith) in
              ground (
                arith,
                h.once a,
                g,
                displaced-snoc es e,
                count-append a (displaced es) (e.prev_phys ∷ []),
                count-append a fs (e.pdst ∷ []),
                count-set a m e.ins.rd e.prev_phys (omega (arith, h.width)),
              )
        ];
        room = ground (
          arith,
          h.room,
          displaced-snoc es e,
          length-append fs (e.pdst ∷ []),
          length-append (displaced es) (e.prev_phys ∷ []),
        );
        tracks = t.1;
        ordered = Ordered-weaken 0 0 e.seq seq es (omega arith) (omega (arith, o.1)) o.0;
      }
