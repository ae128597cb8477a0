-- ===== src/Memory/Cache.antt =====
-- memory/cache.h and memory/cache.cpp: the nonblocking write-back cache.
pub mod State
pub mod Lines
pub mod Owed
pub mod Counted
pub mod Conservation
pub mod Install
pub mod Delivery
pub mod ReadWrite
mod Tests
use rv_o.Base.{
  ℕ, zero, suc, ◌+◌, ◌-◌, ◌*◌, ◌/◌, ◌^◌, Bool, true, false, ◌&&◌, ◌||◌, not, Option, none, some,
  List, [], ◌∷◌, ◌++◌, get_or, set, take, drop, length, ltb, leb, ◌==◌, if◌then◌else◌, u8, u32, u64,
  sub32,
}
use rv_o.Memory.Request.{MemRequest, MemResponse, no_response}
use rv_o.Memory.Cache.State.{
  Waiting, Mshr, no_mshr, WbEntry, HitTxn, PendingInstall, Cache, set_of, tag_of, offset_of,
  line_at,
}
use rv_o.Memory.Cache.Lines.{
  find_way, victim_way, free_mshr, mshr_for, touch_lru, perform_on_line, answer_hit, serve_hit,
  install_line,
}

unfoldable pub can_accept : Cache → Bool
can_accept c = ltb c.pending_misses (length c.mshrs) && ltb (length c.wbq) c.cfg.wbq

abbrev pub put_mshr : Cache → ℕ → Mshr → Cache
put_mshr c i m = record c { mshrs = set c.mshrs i m }

-- The request joins the waiting list of an entry.
abbrev pub merge : Cache → ℕ → MemRequest → Cache
merge c i req =
    let m = get_or c.mshrs i no_mshr in
    put_mshr c i
      (record m { waiting = m.waiting ++ (record { req = req; issue_tick = c.tick_count } ∷ []) })

-- A new entry. Without a free one, which `canAccept` excludes, there is none to write to.
abbrev pub new_miss : Cache → ℕ → MemRequest → Option ℕ → Option Cache
new_miss c addr req none = none
new_miss c addr req (some i) =
    some
      (record (put_mshr c i (record {
        valid = true;
        line_addr = addr;
        refill_sent = false;
        waiting = record { req = req; issue_tick = c.tick_count } ∷ [];
      })) { pending_misses = u32 (c.pending_misses + 1) })

-- The loop of `access` over the writeback queue: the entry of the line, and its place.
unfoldable pub find_wb : List WbEntry → ℕ → ℕ → Option (ℕ × WbEntry)
find_wb [] addr i = none
find_wb (w ∷ ws) addr i = elim (w.addr == addr) [
  | true ↦ some (i, w)
  | false ↦ find_wb ws addr (i + 1)
]

abbrev pub erase : List WbEntry → ℕ → List WbEntry
erase q i = take i q ++ drop (i + 1) q

-- A miss on a line that waits in the writeback queue: the line comes back and serves as a hit.
unfoldable pub restore_line : Cache → MemRequest → ℕ → ℕ × WbEntry → Cache
restore_line c req addr (i, w) =
    let set' = set_of c addr in
    let way = victim_way c set' in
    let c' = (install_line c addr w.line true).1 in
    serve_hit (record c' { wbq = erase c'.wbq i }) req set' way

-- A write of a whole line that misses needs no refill.
unfoldable pub write_whole : Cache → MemRequest → ℕ → Cache
write_whole c req addr =
    let set' = set_of c addr in
    let way = victim_way c set' in
    let c' = (install_line c addr req.wline true).1 in
    answer_hit (touch_lru c' set' way) (record no_response { src = req.src; tag = req.tag })

-- A miss that is neither in the arrays nor in the writeback queue.
unfoldable pub miss : Cache → MemRequest → ℕ → Option Cache
miss c req addr = elim (mshr_for c.mshrs addr 0) [
  | some i ↦ some (merge c i req)
  | none ↦
      if req.is_write && req.size == c.cfg.line_bytes
      then some (write_whole c req addr)
      else new_miss c addr req (free_mshr c.mshrs 0)
]

-- `access`; `none` where the source would write out of bounds.
unfoldable pub access : Cache → MemRequest → Option Cache
unfolding find_wb restore_line miss
access c req =
    let addr = sub32 req.addr (offset_of c req.addr) in
    elim (find_way c (set_of c req.addr) (tag_of c req.addr)) [
      | some way ↦ some (serve_hit c req (set_of c req.addr) way)
      | none ↦ elim (find_wb c.wbq addr 0) [
        | some found ↦ some (restore_line c req addr found)
        | none ↦ miss c req addr
      ]
    ]

-- The loop of `tryInstall` over the requests that waited.
unfoldable pub answer_waiting : Cache → ℕ → ℕ → List Waiting → Cache
answer_waiting c set way [] = c
answer_waiting c set way (w ∷ ws) =
    let (r, c') = perform_on_line c w.req set way in
    answer_waiting (record c' { resp_q = c'.resp_q ++ (r ∷ []) }) set way ws

-- `tryInstall`
unfoldable pub try_install : Cache → ℕ → List ℕ → Bool × Cache
unfolding answer_waiting
try_install c i line =
    let m = get_or c.mshrs i no_mshr in
    let set' = set_of c m.line_addr in
    let way = victim_way c set' in
    let (installed, c') = install_line c m.line_addr line false in
    if not installed
    then (false, c)
    else let c'' = answer_waiting c' set' way m.waiting in
      (true, record (put_mshr c'' i no_mshr) { pending_misses = sub32 c''.pending_misses 1 })

abbrev pub wb_tag : ℕ
wb_tag = 2 ^ 64 - 1

unfoldable pub deliver_below_response : Cache → MemResponse → Cache
deliver_below_response c r =
    if r.tag == wb_tag
    then c
    else let (installed, c') = try_install c (u32 r.tag) r.rline in
      if installed then c' else record c' {
        pending_installs =
            c'.pending_installs ++ (record { mshr_idx = u32 r.tag; line = r.rline } ∷ []);
      }

-- The loop of `tick` that moves the hits that are due to the responses.
unfoldable pub deliver_hits : ℕ → List HitTxn → List MemResponse → List HitTxn × List MemResponse
deliver_hits now [] resp_q = ([], resp_q)
deliver_hits now (t ∷ ts) resp_q = elim (leb t.ready_at now) [
  | true ↦ deliver_hits now ts (resp_q ++ (t.resp ∷ []))
  | false ↦ (t ∷ ts, resp_q)
]

-- The loop of `tick` over the installs that waited for room.
unfoldable pub install_pending : Cache → List PendingInstall → Cache
install_pending c [] = record c { pending_installs = [] }
install_pending c (p ∷ ps) =
    let (installed, c') = try_install c p.mshr_idx p.line in
    let rest = install_pending c' ps in
    if installed then rest else record c { pending_installs = p ∷ ps }

-- The first refill that has not been sent.
unfoldable pub unsent : List Mshr → ℕ → Option ℕ
unsent [] i = none
unsent (m ∷ ms) i = elim (m.valid && not m.refill_sent) [
  | true ↦ some i
  | false ↦ unsent ms (i + 1)
]

abbrev pub send_writeback : Cache → WbEntry → List WbEntry → Option MemRequest × Cache
send_writeback c w ws = (
  some (record {
    wline = w.line;
    tag = wb_tag;
    addr = w.addr;
    size = c.cfg.line_bytes;
    wdata = 0;
    src = c.src_id;
    is_write = true;
  }),
  record c { wbq = ws },
)

abbrev pub send_refill : Cache → Option ℕ → Option MemRequest × Cache
send_refill c none = (none, c)
send_refill c (some i) =
    let m = get_or c.mshrs i no_mshr in
    (
      some (record {
        wline = [];
        tag = i;
        addr = m.line_addr;
        size = c.cfg.line_bytes;
        wdata = 0;
        src = c.src_id;
        is_write = false;
      }),
      put_mshr c i (record m { refill_sent = true }),
    )

-- The one transaction of a cycle with the level below: a writeback when the queue is full or no
-- refill is to be sent, else a refill.
unfoldable pub send_below : Cache → List WbEntry → Option ℕ → Option MemRequest × Cache
send_below c [] refill = send_refill c refill
send_below c (w ∷ ws) none = send_writeback c w ws
send_below c (w ∷ ws) (some i) =
    if leb c.cfg.wbq (length (w ∷ ws)) then send_writeback c w ws else send_refill c (some i)

-- `tick`, with what `canAccept` of the level below answers; the request is the one that it gets.
unfoldable pub tick : Bool → Cache → Option MemRequest × Cache
unfolding deliver_hits install_pending unsent send_below
tick below_accepts c =
    let now = u64 (c.tick_count + 1) in
    let (hit_pipe, resp_q) = deliver_hits now c.hit_pipe c.resp_q in
    let c' = record c { tick_count = now; hit_pipe = hit_pipe; resp_q = resp_q } in
    let c'' = install_pending c' c'.pending_installs in
    if (not (c''.pending_misses == 0) || ltb 0 (length c''.wbq)) && below_accepts
    then send_below c'' c''.wbq (unsent c''.mshrs 0)
    else (none, c'')

-- The loop of `peek8` over the writeback queue.
unfoldable pub peek_wb : List WbEntry → ℕ → ℕ → Option ℕ
peek_wb [] line_bytes addr = none
peek_wb (w ∷ ws) line_bytes addr =
    if leb w.addr addr && ltb addr (u32 (w.addr + line_bytes))
    then some (get_or w.line (addr - w.addr) 0)
    else peek_wb ws line_bytes addr

-- The inner loop of `peek8` from the newest request down; a later write hides an earlier one.
unfoldable pub peek_waiting : List Waiting → ℕ → Option ℕ
peek_waiting [] addr = none
peek_waiting (w ∷ ws) addr =
    let r = w.req in
    elim (peek_waiting ws addr) [
      | some b ↦ some b
      | none ↦
          if not r.is_write || (ltb addr r.addr || leb (u32 (r.addr + r.size)) addr)
          then none
          else if ltb 4 r.size
          then some (get_or r.wline (addr - r.addr) 0)
          else some (u8 (r.wdata / 2 ^ (8 * (addr - r.addr))))
    ]

unfoldable pub peek_mshrs : List Mshr → ℕ → Option ℕ
unfolding peek_waiting
peek_mshrs [] addr = none
peek_mshrs (m ∷ ms) addr =
    let rest = peek_mshrs ms addr in
    if not m.valid
    then rest
    else elim (peek_waiting m.waiting addr) [ some b ↦ some b | none ↦ rest ]

unfoldable pub peek8 : Cache → ℕ → Option ℕ
unfolding peek_wb peek_mshrs
peek8 c addr = elim (find_way c (set_of c addr) (tag_of c addr)) [
  | some way ↦ some (get_or c.bytes (line_at c (set_of c addr) way + offset_of c addr) 0)
  | none ↦ elim (peek_wb c.wbq c.cfg.line_bytes addr) [
    | some b ↦ some b
    | none ↦ peek_mshrs c.mshrs addr
  ]
]
