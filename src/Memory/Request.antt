-- ===== src/Memory/Request.antt =====
-- memory/request.h: what passes between the levels of the memory system.
use rv_o.Base.{ℕ, Bool, List, []}

-- `struct MemRequest`. A line is the list of its bytes.
pub record MemRequest : Type 0 where
  pub wline : List ℕ
  pub tag : ℕ
  pub addr : ℕ
  pub size : ℕ
  pub wdata : ℕ
  pub src : ℕ
  pub is_write : Bool

-- `struct MemResponse`. What the source leaves unwritten in `rline` is left out of the list.
pub record MemResponse : Type 0 where
  pub rline : List ℕ
  pub tag : ℕ
  pub rdata : ℕ
  pub src : ℕ

abbrev pub no_response : MemResponse
no_response = record { rline = []; tag = 0; rdata = 0; src = 0 }
