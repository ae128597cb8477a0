-- ===== src/Memory/Cache/Lines.antt =====
-- memory/cache.cpp: lookup in the arrays, accesses to a line, and the installation of a line.
use rv_o.Base.{
  ℕ, zero, suc, ◌+◌, ◌-◌, ◌^◌, Bool, true, false, ◌&&◌, not, Option, none, some, List, [], ◌∷◌,
  ◌++◌, get_or, set, take, drop, length, ltb, leb, ◌==◌, if◌then◌else◌, u64,
}
use rv_o.Memory.{load_from, store_from}
use rv_o.Memory.Request.{MemRequest, MemResponse, no_response}
use rv_o.Memory.Cache.State.{
  Mshr, WbEntry, Cache, invalid_tag, set_of, tag_of, offset_of, slot, line_addr_of, line_at,
}

-- The loop of `findWay` from way `w` on.
unfoldable pub find_way_from : Cache → ℕ → ℕ → ℕ → ℕ → Option ℕ
find_way_from c set tag w zero = none
find_way_from c set tag w (suc left) = elim (get_or c.tags (slot c set w) 0 == tag) [
  | true ↦ some w
  | false ↦ find_way_from c set tag (w + 1) left
]

unfoldable pub find_way : Cache → ℕ → ℕ → Option ℕ
unfolding find_way_from
find_way c set tag = find_way_from c set tag 0 c.cfg.ways

-- The loop of `victimWay`: the first free way, else the one used longest ago.
unfoldable pub victim_from : Cache → ℕ → ℕ → ℕ → ℕ → ℕ → ℕ
victim_from c set victim oldest w zero = victim
victim_from c set victim oldest w (suc left) =
    let used = get_or c.lru (slot c set w) 0 in
    elim (get_or c.tags (slot c set w) 0 == invalid_tag) [
      | true ↦ w
      | false ↦
          victim_from c set (if ltb used oldest then w else victim)
            (if ltb used oldest then used else oldest) (w + 1) left
    ]

unfoldable pub victim_way : Cache → ℕ → ℕ
unfolding victim_from
victim_way c set = victim_from c set 0 (2 ^ 64 - 1) 0 c.cfg.ways

-- The loops of `freeMshr` and `mshrFor` from index `i` on.
unfoldable pub free_mshr : List Mshr → ℕ → Option ℕ
free_mshr [] i = none
free_mshr (m ∷ ms) i = elim (m.valid) [ false ↦ some i | true ↦ free_mshr ms (i + 1) ]

unfoldable pub mshr_for : List Mshr → ℕ → ℕ → Option ℕ
mshr_for [] addr i = none
mshr_for (m ∷ ms) addr i = elim (m.valid && m.line_addr == addr) [
  | true ↦ some i
  | false ↦ mshr_for ms addr (i + 1)
]

abbrev pub touch_lru : Cache → ℕ → ℕ → Cache
touch_lru c set' way =
    let now = u64 (c.lru_tick + 1) in
    record c { lru = set c.lru (slot c set' way) now; lru_tick = now }

-- `memcpy` of bytes into the data array.
abbrev pub splice : List ℕ → ℕ → List ℕ → List ℕ
splice xs at new = take at xs ++ new ++ drop (at + length new) xs

-- The data array after a write request on a line.
unfoldable pub write_line : Cache → MemRequest → ℕ → List ℕ
write_line c req at =
    if req.size == c.cfg.line_bytes
    then splice c.bytes at (take c.cfg.line_bytes req.wline)
    else store_from c.bytes (at + offset_of c req.addr) req.size 0 req.wdata

-- The response to a read request on a line.
unfoldable pub read_line : Cache → MemRequest → ℕ → MemResponse → MemResponse
read_line c req at r =
    if ltb 4 req.size
    then record r { rline = take req.size (drop (at + offset_of c req.addr) c.bytes) }
    else record r { rdata = load_from c.bytes (at + offset_of c req.addr) req.size 0 0 }

-- `performOnLine`: the response and the cache after it.
unfoldable pub perform_on_line : Cache → MemRequest → ℕ → ℕ → MemResponse × Cache
unfolding write_line read_line
perform_on_line c req set' way =
    let at = line_at c set' way in
    let r = record no_response { src = req.src; tag = req.tag } in
    if req.is_write
    then (
      r,
      touch_lru
          (record c { bytes = write_line c req at; dirty = set c.dirty (slot c set' way) true })
          set' way,
    )
    else (read_line c req at r, touch_lru c set' way)

-- The response that `reserveHit` made room for goes out at once, or behind the hits on the way.
abbrev pub answer_hit : Cache → MemResponse → Cache
answer_hit c r =
    if c.cfg.hit_latency == 1 then record c { resp_q = c.resp_q ++ (r ∷ []) } else record c {
      hit_pipe =
          c.hit_pipe
          ++ (record { resp = r; ready_at = u64 (c.tick_count + c.cfg.hit_latency - 1) } ∷ []);
    }

abbrev pub serve_hit : Cache → MemRequest → ℕ → ℕ → Cache
serve_hit c req set way = let (r, c') = perform_on_line c req set way in answer_hit c' r

-- A dirty line in the way that is to be replaced.
abbrev pub must_evict : Cache → ℕ → ℕ → Bool
must_evict c set way =
    not (get_or c.tags (slot c set way) 0 == invalid_tag) && get_or c.dirty (slot c set way) false

-- The line of a way, for the writeback queue.
abbrev pub evicted : Cache → ℕ → ℕ → WbEntry
evicted c set way = record {
  addr = line_addr_of c set way;
  line = take c.cfg.line_bytes (drop (line_at c set way) c.bytes);
}

abbrev pub write_way : Cache → ℕ → ℕ → ℕ → List ℕ → Bool → Cache
write_way c set' way addr src is_dirty = record c {
  bytes = splice c.bytes (line_at c set' way) (take c.cfg.line_bytes src);
  tags = set c.tags (slot c set' way) (tag_of c addr);
  dirty = set c.dirty (slot c set' way) is_dirty;
}

-- `installLine`: false if the writeback queue has no room. The set and the way are
-- `set_of c addr` and `victim_way c (set_of c addr)`.
unfoldable pub install_line : Cache → ℕ → List ℕ → Bool → Bool × Cache
install_line c addr src is_dirty =
    let set' = set_of c addr in
    let way = victim_way c set' in
    if must_evict c set' way
    then if leb c.cfg.wbq (length c.wbq) then (false, c) else (
      true,
      write_way (record c { wbq = c.wbq ++ (evicted c set' way ∷ []) }) set' way addr src is_dirty,
    )
    else (true, write_way c set' way addr src is_dirty)
