-- ===== src/Memory/Cache/State.antt =====
-- memory/cache.h: what a cache keeps, and its geometry.
use rv_o.Base.{
  ℕ, zero, suc, ◌+◌, ◌-◌, ◌*◌, ◌/◌, ◌%◌, ◌^◌, Bool, false, List, [], get_or, replicate, ◌==◌,
  if◌then◌else◌, u32, bit_and, bit_or,
}
use rv_o.Sim.Config.{CacheConfig}
use rv_o.Memory.Request.{MemRequest, MemResponse}

pub record Waiting : Type 0 where
  pub req : MemRequest
  pub issue_tick : ℕ

pub record Mshr : Type 0 where
  pub valid : Bool
  pub line_addr : ℕ
  pub refill_sent : Bool
  pub waiting : List Waiting

abbrev pub no_mshr : Mshr
no_mshr = record { valid = false; line_addr = 0; refill_sent = false; waiting = [] }

pub record WbEntry : Type 0 where
  pub addr : ℕ
  pub line : List ℕ

pub record HitTxn : Type 0 where
  pub resp : MemResponse
  pub ready_at : ℕ

pub record PendingInstall : Type 0 where
  pub mshr_idx : ℕ
  pub line : List ℕ

-- `class Cache`, without its name, its statistics and the port below.
pub record Cache : Type 0 where
  pub cfg : CacheConfig
  pub src_id : ℕ
  pub sets : ℕ
  pub line_shift : ℕ
  pub tag_shift : ℕ
  pub bytes : List ℕ
  pub tags : List ℕ
  pub dirty : List Bool
  pub lru : List ℕ
  pub lru_tick : ℕ
  pub mshrs : List Mshr
  pub pending_misses : ℕ
  pub wbq : List WbEntry
  pub pending_installs : List PendingInstall
  pub hit_pipe : List HitTxn
  pub resp_q : List MemResponse
  pub tick_count : ℕ

abbrev pub invalid_tag : ℕ
invalid_tag = 2 ^ 32 - 1

-- `std::countr_zero` on 32 bits.
unfoldable pub countr_zero : ℕ → ℕ → ℕ
countr_zero zero n = 0
countr_zero (suc left) n = let rest = countr_zero left (n / 2) in if n % 2 == 0 then suc rest else 0

unfoldable pub make : CacheConfig → ℕ → Cache
unfolding countr_zero
make c src_id =
    let sets = c.size_bytes / u32 (c.line_bytes * c.ways) in
    let lines = sets * c.ways in
    record {
      cfg = record c { hit_latency = if c.hit_latency == 0 then 1 else c.hit_latency };
      src_id = src_id;
      sets = sets;
      line_shift = countr_zero 32 c.line_bytes;
      tag_shift = countr_zero 32 c.line_bytes + countr_zero 32 sets;
      bytes = replicate (lines * c.line_bytes) 0;
      tags = replicate lines invalid_tag;
      dirty = replicate lines false;
      lru = replicate lines 0;
      lru_tick = 0;
      mshrs = replicate c.mshrs no_mshr;
      pending_misses = 0;
      wbq = [];
      pending_installs = [];
      hit_pipe = [];
      resp_q = [];
      tick_count = 0;
    }

abbrev pub set_of : Cache → ℕ → ℕ
set_of c addr = bit_and (addr / 2 ^ c.line_shift) (c.sets - 1)

abbrev pub tag_of : Cache → ℕ → ℕ
tag_of c addr = addr / 2 ^ c.tag_shift

abbrev pub offset_of : Cache → ℕ → ℕ
offset_of c addr = bit_and addr (c.cfg.line_bytes - 1)

-- The index of a way in the arrays of tags, of dirty marks and of times.
abbrev pub slot : Cache → ℕ → ℕ → ℕ
slot c set way = set * c.cfg.ways + way

abbrev pub line_addr_of : Cache → ℕ → ℕ → ℕ
line_addr_of c set way =
    bit_or (u32 (get_or c.tags (slot c set way) 0 * 2 ^ c.tag_shift)) (u32 (set * 2 ^ c.line_shift))

-- Where a line begins in the data array.
abbrev pub line_at : Cache → ℕ → ℕ → ℕ
line_at c set way = slot c set way * c.cfg.line_bytes
