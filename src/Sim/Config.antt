-- ===== src/Sim/Config.antt =====
-- sim/config.h, and validateConfig of sim/config.cpp.
pub mod Registers
mod Tests
use rv_o.Base.{
  ℕ, ◌+◌, ◌-◌, ◌*◌, ◌/◌, ◌%◌, ◌^◌, Bool, true, false, ◌&&◌, ◌||◌, not, leb, ◌==◌, if◌then◌else◌,
  Option, none, some, u32, bit_and,
}

pub record CacheConfig : Type 0 where
  pub size_bytes : ℕ
  pub ways : ℕ
  pub line_bytes : ℕ
  pub hit_latency : ℕ
  pub mshrs : ℕ
  pub wbq : ℕ

pub data MemOrder : Type 0 where
  conservative bypass speculative : MemOrder

pub record SimConfig : Type 0 where
  pub mem_bytes : ℕ
  pub max_cycles : ℕ
  pub trace : Bool
  pub dump_regs : Bool
  pub diff_check : Bool
  pub flat_memory : Bool
  pub flat_latency : ℕ
  pub dram_latency : ℕ
  pub l1i : CacheConfig
  pub l1d : CacheConfig
  pub l2 : CacheConfig
  pub alu_count : ℕ
  pub agu_count : ℕ
  pub data_ports : ℕ
  pub mul_latency : ℕ
  pub mul_pipelined : Bool
  pub div_latency : ℕ
  pub wb_ports : ℕ
  pub width : ℕ
  pub rob_size : ℕ
  pub iq_size : ℕ
  pub lsq_size : ℕ
  pub sb_size : ℕ
  pub phys_regs : ℕ
  pub fetch_q_size : ℕ
  pub fetch_bytes : ℕ
  pub use_predictor : Bool
  pub mem_order : MemOrder
  pub dep_predictor : Bool
  pub dep_table_size : ℕ
  pub pht_bits : ℕ
  pub ghr_bits : ℕ
  pub btb_entries : ℕ
  pub btb_ways : ℕ
  pub ras_entries : ℕ
  pub ras_repair : Bool
  pub tage_tables : ℕ
  pub tage_table_bits : ℕ
  pub tage_tag_bits : ℕ
  pub tage_min_hist : ℕ
  pub tage_max_hist : ℕ

-- `SimConfig{}`
abbrev pub default_config : SimConfig
default_config = record {
  mem_bytes = 2 ^ 20;
  max_cycles = 10000000;
  trace = false;
  dump_regs = false;
  diff_check = false;
  flat_memory = false;
  flat_latency = 1;
  dram_latency = 30;
  l1i = record {
    size_bytes = 32 * 1024;
    ways = 8;
    line_bytes = 64;
    hit_latency = 1;
    mshrs = 2;
    wbq = 2;
  };
  l1d = record {
    size_bytes = 32 * 1024;
    ways = 8;
    line_bytes = 64;
    hit_latency = 1;
    mshrs = 4;
    wbq = 4;
  };
  l2 = record {
    size_bytes = 256 * 1024;
    ways = 8;
    line_bytes = 64;
    hit_latency = 4;
    mshrs = 4;
    wbq = 4;
  };
  alu_count = 2;
  agu_count = 1;
  data_ports = 1;
  mul_latency = 3;
  mul_pipelined = true;
  div_latency = 12;
  wb_ports = 2;
  width = 2;
  rob_size = 32;
  iq_size = 16;
  lsq_size = 16;
  sb_size = 8;
  phys_regs = 0;
  fetch_q_size = 8;
  fetch_bytes = 0;
  use_predictor = true;
  mem_order = speculative;
  dep_predictor = false;
  dep_table_size = 64;
  pht_bits = 10;
  ghr_bits = 0;
  btb_entries = 64;
  btb_ways = 1;
  ras_entries = 8;
  ras_repair = false;
  tage_tables = 0;
  tage_table_bits = 10;
  tage_tag_bits = 11;
  tage_min_hist = 4;
  tage_max_hist = 128;
}

unfoldable pub fetch_block_bytes : SimConfig → ℕ
fetch_block_bytes c =
    if not (c.fetch_bytes == 0)
    then c.fetch_bytes
    else if leb c.width 2
    then 8
    else if leb c.width 4
    then 16
    else 32

abbrev within : ℕ → ℕ → ℕ → Bool
within lo hi n = leb lo n && leb n hi

-- `std::has_single_bit`
abbrev has_single_bit : ℕ → Bool
has_single_bit n = not (n == 0) && bit_and n (n - 1) == 0

-- The checks of one cache. The source divides by `lineBytes` before it asks that it be a power of
-- two; at 0 the division ends the process where it is not defined, and the check fails here.
abbrev cache_ok : CacheConfig → Bool
cache_ok cache =
    let lines = if cache.ways == 0 then 0 else cache.size_bytes / cache.line_bytes in
    (has_single_bit cache.line_bytes && leb cache.line_bytes 128)
    && (leb 1 cache.ways && (lines % cache.ways == 0 && has_single_bit (lines / cache.ways)))
    && (leb 1 cache.mshrs && leb 1 cache.wbq)

-- The checks under `!c.flatMemory`.
abbrev caches_ok : SimConfig → Bool
caches_ok c =
    (cache_ok c.l1i && (cache_ok c.l1d && cache_ok c.l2))
    && (c.l1i.line_bytes == c.l1d.line_bytes && c.l1d.line_bytes == c.l2.line_bytes)
    && c.l1i.line_bytes % fetch_block_bytes c == 0

abbrev core_ok : SimConfig → Bool
core_ok c =
    let block = fetch_block_bytes c in
    (within 1 8 c.width
      && ((within 8 64 block && bit_and block (block - 1) == 0) && leb (block / 4) c.fetch_q_size))
    && ((leb 1 c.rob_size && leb 1 c.iq_size) && (leb 1 c.lsq_size && leb 1 c.sb_size))
    && (within 1 8 c.alu_count
        && leb 1 c.wb_ports
        && within 1 8 c.agu_count
        && within 1 8 c.data_ports)
    && (leb 1 c.mul_latency && leb 1 c.div_latency)

abbrev tage_ok : SimConfig → Bool
tage_ok c =
    within 4 16 c.tage_table_bits
    && within 4 16 c.tage_tag_bits
    && (leb 1 c.tage_min_hist && leb c.tage_min_hist c.tage_max_hist && leb c.tage_max_hist 1024)

abbrev predictor_ok : SimConfig → Bool
predictor_ok c =
    within 1 24 c.pht_bits
    && leb c.ghr_bits 30
    && (leb 1 c.btb_entries && leb 1 c.ras_entries && leb 1 c.dep_table_size)
    && (leb 1 c.btb_ways && c.btb_entries % c.btb_ways == 0)
    && leb c.tage_tables 12
    && (c.tage_tables == 0 || tage_ok c)

-- `require`: a failed check ends the process.
abbrev pub require : Bool → SimConfig → Option SimConfig
require ok c = if ok then some c else none

-- The default number of physical registers: one for each architectural register and one for each
-- reorder buffer entry.
unfoldable pub derive : SimConfig → SimConfig
derive c = if c.phys_regs == 0 then record c { phys_regs = u32 (32 + c.rob_size) } else c

abbrev pub all_ok : SimConfig → Bool
all_ok c =
    (leb 33 c.phys_regs && leb c.phys_regs 255)
    && (leb 1 c.rob_size
        && (core_ok c
            && ((c.flat_memory || caches_ok c) && (predictor_ok c && leb (64 * 1024) c.mem_bytes))))

unfoldable pub validate : SimConfig → Option SimConfig
unfolding derive fetch_block_bytes
validate c = let c' = derive c in require (all_ok c') c'
