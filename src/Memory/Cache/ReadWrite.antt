-- ===== src/Memory/Cache/ReadWrite.antt =====
-- memory/cache.cpp: reads of a line after a write to it.
use rv_o.Base.{
  ℕ, ◌+◌, ◌-◌, ◌*◌, ◌%◌, ◌^◌, ◌≤◌, ◌<◌, ◌≡◌, refl, sym, ap, ◌∙◌, arith, true, false, none, some,
  List, get_or, set, length, get_or-set_self, ltb, ◌==◌, if◌then◌else◌, if-both, some_injective,
  ap₂, bit_and, inl, inr, ◌⊎◌,
}
use rv_o.Memory.{Memory, load_from, store_from, store}
use rv_o.Memory.RoundTrip.{load-eq, store-eq, load-store, store_from-outside}
use rv_o.Memory.Request.{MemRequest, MemResponse}
use rv_o.Memory.Cache.State.{Cache, offset_of, slot, line_at}
use rv_o.Sim.Config.{CacheConfig}
use rv_o.Memory.Cache.Owed.{Queues, perform_on_line-queues}
use rv_o.Memory.Cache.Lines.{perform_on_line, write_line, read_line}

-- The bytes of a write, read back.
load_from-store_from :
    (bytes : List ℕ) (a size v : ℕ)
    → a + size ≤ length bytes
    → load_from (store_from bytes a size 0 v) a size 0 0 ≡ v % 2 ^ (8 * size)
load_from-store_from bytes a size v h =
    let m : Memory = record { bytes = bytes } in
    let m' : Memory = record { bytes = store_from bytes a size 0 v } in
    let inside : ltb (length bytes) (a + size) ≡ false = ground (arith, h) in
    let stored : store m a size v ≡ some m' =
      store-eq m a size v ∙ ap (λ b. if b then none else some m') inside in
    let (same, loaded, _) = load-store m m' a size v stored in
    let inside' : ltb (length m'.bytes) (a + size) ≡ false = ground (arith, h, same) in
    some_injective (
      sym (ap (λ b. if b then none else some (load_from m'.bytes a size 0 0)) inside')
      ∙ sym (load-eq m' a size)
      ∙ loaded)

module _ (c : Cache) (w : MemRequest) (s way : ℕ) (is_w : w.is_write ≡ true) where
  wrote-bytes :
      (w.size == c.cfg.line_bytes) ≡ false
      → (perform_on_line c w s way).1.bytes
        ≡ store_from c.bytes (line_at c s way + offset_of c w.addr) w.size 0 w.wdata
  unfolding perform_on_line write_line
  wrote-bytes part =
      let after = store_from c.bytes (line_at c s way + offset_of c w.addr) w.size 0 w.wdata in
      if-both (λ (x : MemResponse × Cache). x.1.bytes ≡ after) w.is_write _ _
        (λ _.
          if-both (λ xs. xs ≡ after) (w.size == c.cfg.line_bytes) _ _
            (λ e. absurd (ground (arith, e, part))) (λ _. refl))
        (λ e. absurd (ground (arith, e, is_w)))

  wrote-dirty : (perform_on_line c w s way).1.dirty ≡ set c.dirty (slot c s way) true
  unfolding perform_on_line
  wrote-dirty =
      if-both (λ (x : MemResponse × Cache). x.1.dirty ≡ set c.dirty (slot c s way) true) w.is_write
        _ _ (λ _. refl) (λ e. absurd (ground (arith, e, is_w)))

read-rdata :
    (c : Cache) (r : MemRequest) (s way : ℕ)
    → r.is_write ≡ false
    → r.size ≤ 4
    → (perform_on_line c r s way).0.rdata
      ≡ load_from c.bytes (line_at c s way + offset_of c r.addr) r.size 0 0
unfolding perform_on_line read_line
read-rdata c r s way is_r h =
    let v = load_from c.bytes (line_at c s way + offset_of c r.addr) r.size 0 0 in
    if-both (λ (x : MemResponse × Cache). x.0.rdata ≡ v) r.is_write _ _
      (λ e. absurd (ground (arith, e, is_r)))
      (λ _.
        if-both (λ (x : MemResponse). x.rdata ≡ v) (ltb 4 r.size) _ _
          (λ e. absurd (ground (arith, e, h))) (λ _. refl))

-- After a scalar write to a line of the cache, a read of the same bytes of that line answers what
-- was written, cut to its width; the line is marked dirty, and no byte of the data array outside the
-- written ones has changed. It supposes a write of at most 4 bytes that is not a whole line, and
-- that the bytes and the mark lie inside the cache's arrays.
pub write-read :
    (c : Cache) (w r : MemRequest) (s way k : ℕ)
    → w.is_write ≡ true
    → r.is_write ≡ false
    → r.addr ≡ w.addr
    → r.size ≡ w.size
    → w.size ≤ 4
    → (w.size == c.cfg.line_bytes) ≡ false
    → slot c s way < length c.dirty
    → line_at c s way + offset_of c w.addr + w.size ≤ length c.bytes
    → (k < line_at c s way + offset_of c w.addr)
      ⊎ (line_at c s way + offset_of c w.addr + w.size ≤ k)
    → let c' = (perform_on_line c w s way).1 in
      ((perform_on_line c' r s way).0.rdata ≡ w.wdata % 2 ^ (8 * w.size))
      × (get_or c'.dirty (slot c' s way) false ≡ true)
      × (get_or c'.bytes k 0 ≡ get_or c.bytes k 0)
write-read c w r s way k is_w is_r same_addr same_size scalar part mark room other =
    let a = line_at c s way + offset_of c w.addr in
    let c' = (perform_on_line c w s way).1 in
    let bytes = wrote-bytes c w s way is_w part in
    let cfg : c'.cfg ≡ c.cfg = ap (λ (q : Queues). q.cfg) (perform_on_line-queues c w s way) in
    let same_slot : slot c' s way ≡ slot c s way = ap (λ (g : CacheConfig). s * g.ways + way) cfg in
    let same_place : line_at c' s way + offset_of c' r.addr ≡ a =
      ap₂
        (λ (g : CacheConfig) (x : ℕ).
          (s * g.ways + way) * g.line_bytes + bit_and x (g.line_bytes - 1))
        cfg same_addr in
    (
      read-rdata c' r s way is_r (omega (arith, same_size, scalar))
          ∙ ap (λ n. load_from c'.bytes n r.size 0 0) same_place
          ∙ ap₂ (λ xs n. load_from xs a n 0 0) bytes same_size
          ∙ load_from-store_from c.bytes a w.size w.wdata room,
      ap₂ (λ xs n. get_or xs n false) (wrote-dirty c w s way is_w) same_slot
          ∙ get_or-set_self c.dirty (slot c s way) true false mark,
      ap (λ xs. get_or xs k 0) bytes
          ∙ store_from-outside a w.wdata w.size 0 c.bytes k
              (elim other [ inl h ↦ inl (omega (arith, h)) | inr h ↦ inr (omega (arith, h)) ]),
    )
