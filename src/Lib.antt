-- ===== src/Lib.antt =====
-- rv-o3, a cycle-level simulator of an out-of-order RV32IM core: what its instructions mean, its
-- memory, and the structures that let it run instructions out of order and take them back.
--
-- The program. isa/ says what a word decodes to and what an instruction computes. memory/memory.h is
-- the flat memory. core/refmodel.cpp runs one instruction at a time on these and describes each in a
-- commit record (core/commit.h); the out-of-order core (core/ooo.cpp) emits the same records, and a
-- differential run compares the two streams. The core keeps its instructions in a reorder buffer,
-- renames registers through a map and a free list, holds instructions in an issue queue until their
-- sources are written, runs them in functional units, and on a misprediction squashes the younger
-- ones. Its buffers are rings (core/ring.h).
--
-- The files:
--   Base       numbers, bits, lists and 32-bit words, which all the others share
--   Isa        isa/isa.h; Isa/Decode isa/decode.cpp; Isa/Execute isa/execute.h and execute.cpp;
--              Isa/Encode is an encoder by the RISC-V formats, a description independent of the
--              decoder, which the repository does not have
--   Memory     memory/memory.h; Memory/Request memory/request.h; Memory/Dram memory/dram.h and
--              dram.cpp, where Fifo is its view as a queue and Timing its clock; Memory/Cache
--              memory/cache.h and cache.cpp: State and Lines are its data and the accesses to a
--              line, Owed, Counted, Conservation, Install and Delivery count its
--              answers, and ReadWrite reads what was written
--   Commit     core/commit.h
--   Syscall    sim/syscall.h, and the checks of sim/display.h
--   RefModel   core/refmodel.h and core/refmodel.cpp
--   Core/Ring  core/ring.h; Index is its arithmetic, Contents its view as a list, Write a
--              write in that view
--   Core/Rob   core/rob.h
--   Core/Rename  core/rename.h with dispatchStage, commitStage and recover of core/ooo.cpp, as far
--              as they touch the rename map, the free list, the ready bits and the reorder buffer
--   Core/FuUnit  core/fu.h
--   Core/IssueQueue  core/iq.h
--   Core/SlotSet  core/slot_set.h: Visit is the code of the visits, the rest is what is proved
--   Core/Lsq  the load-store queue of core/lsq.h; Use is what core/ooo.cpp does with it, and
--              Steps the states of a run
--   Core/LoadSearch  the search of lsqOperate in core/ooo.cpp for the store that a load waits for
--              or takes its data from; Decide is its specification
--   Core/LoadChoice  the visit of lsqOperate that chooses the load for an access
--   Core/DataPorts  the loop of lsqOperate over the data ports; Answer is the way back of a load
--   Core/StoreBuffer  the store buffer of core/lsq.h, with the calls of it in core/ooo.cpp
--   Core/Predictor  core/predictor.h and core/predictor.cpp: State, Btb with the return stack,
--              History and Tage are the code; Range, Trained, Sized, Rewind, Way, Target and Room
--              are what is proved of it
--   Sim/Config  sim/config.h, and validateConfig of sim/config.cpp; Registers joins it to Core/Rename
--   Doom/Fixed  doom/fixed.c
--   Doom/Runtime  doom/runtime.c
--   Doom/Memset  memset of doom/memops.c
-- A file's Tests child runs the code on concrete values.
--
-- Correspondence. A method of a class is a function of the class's record that returns the record
-- after the call. Names are the source's in snake case. Numbers are the native ℕ; where the source
-- has uint8_t, uint32_t or uint64_t arithmetic that may wrap, the model has u8, u32, u64 or sub32.
-- Vectors are lists; a read out of bounds, which the source never does, gives the default that is
-- written out. A fatal error, which ends the process, is `none` or the result `fatal`; so is what C
-- leaves undefined in doom/fixed.c.
--
-- Bounds and fuel. Ring capacities and unit latencies are below 2 ^ 31, and the counter of
-- instructions, 64 bits wide, does not wrap in the runs considered. The walk of a recovery takes as
-- fuel the number of entries in the reorder buffer: each round removes one, so it ends where its
-- condition fails. The predictor's constructor doubles its ring at most 32 times, which is enough for
-- every size up to 2 ^ 31. The loop that pops acknowledged stores takes the number of entries in the
-- store buffer. The word loops of `memset` take the count, of which each round takes off four or
-- sixteen. The loops over the bits of a word take 64, since each round clears a bit. Other loops
-- recurse on the number of their rounds.
--
-- Not modelled: printing, tracing, statistics, file and process input and output, the command line
-- and option files. In renaming, what the issue queue, the load-store queue and the store buffer
-- answer is an argument (`Resources`), and writeback, which only marks entries done, is left out. The
-- lengths of the TAGE histories are an argument of the predictor's constructor, which computes them
-- in floating point. For the Doom guest's runtime, the WAD, the bounds of the heap and the flags of
-- the C library's headers are a parameter (`Host`), and a path is the list of its bytes. The
-- first-level data cache of the core is a parameter of the loop over its ports. The replay of a load,
-- the composition of the caches, the stages between issue and writeback, the rest of the Doom port
-- and the benchmarks are not modelled.
-- The update pass of the load-store queue also marks the reorder buffer's entry of a store done,
-- which is left out.
pub mod Base
pub mod Isa
pub mod Memory
pub mod Core
pub mod Doom
pub mod Commit
pub mod RefModel
pub mod Sim
pub mod Syscall
