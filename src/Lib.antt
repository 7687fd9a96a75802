-- ===== src/Lib.antt =====
-- The core of rvsim, a cycle-level simulator of RISC-V processors: the structures of
-- crates/hardware/src/core/pipeline that hold instructions, loads and stores in program order, the
-- renaming of registers, the integer and load-store units, the decoding of instructions, caches,
-- translation buffers, branch targets, physical memory protection and the interrupt controller.
--
-- Parts. Renaming gives an instruction a physical register from the free list and changes the
-- speculative rename map; its retirement changes the committed map and frees the register that it
-- replaces; a flush frees the registers of the squashed instructions. A renamed instruction gets an
-- entry and a tag from the reorder buffer; a store also gets a place in the store buffer under that
-- tag, and a load one in the load queue. In the in-order engine the scoreboard takes the place of
-- the rename map. The execution stages complete or fault entries by tag; a load asks the store
-- buffer for the bytes of older stores; a store that learns its address asks the load queue for
-- loads that ran ahead of it; commit takes finished instructions off the front of the reorder
-- buffer and marks their stores, which drain to memory one by one; a mispredicted branch flushes
-- what is younger than its tag from all of them.
--
-- Files.
--   Base: shared names, lists, tests. Circular: the circular buffers that both structures use.
--   Types, Signals: crates/hardware/src/common and core/pipeline/signals.rs, as plain data.
--   RobTag, RobEntry, Rob: core/pipeline/rob.rs. `Rob` is the struct of that name, with the hash map
--     from tags to indices as a function; each method is a function of its name. Rob/Inv holds the
--     representation invariant `IsValid` and the abstract view `contents`, the queue of entries in
--     flight; the other children of Rob prove the methods against that queue. Rob/Queries models
--     the searches.
--   StoreBuffer: core/pipeline/store_buffer.rs in the same manner, with `IsSound` and `stores`.
--     StoreBuffer/Bytes is the byte memory that forwarding is stated against.
--   FreeList, RenameMap, CheckpointTable, PhysRegFile: core/pipeline/free_list.rs, rename_map.rs,
--     checkpoint.rs, prf.rs.
--   LoadQueue, Scoreboard: core/pipeline/load_queue.rs, scoreboard.rs. The circular buffers of stores
--     and loads share the search (Circular/Find) and the compaction (Circular/Compact).
--   Renaming: what frontend/rename.rs, backend/shared/commit.rs and backend/o3/mod.rs (under
--     core/pipeline) do with these and the reorder buffer. Renaming/Conserved holds the invariant.
--   Isa: the opcodes of crates/hardware/src/isa, Isa/Decode for decode.rs and instruction.rs, and
--     Isa/Expand for rvc/expand.rs, one module per quadrant; Isa/Expand/Manual is an independent
--     table of the compressed instructions.
--   Alu: core/units/alu, with the casts of the source in Alu/Casts. Lsu: core/units/lsu.
--   Ways: the search of one set of a set-associative table. Tlb: core/units/mmu/tlb.rs, with the
--     shared buffer in Tlb/Shared. Cache: core/units/cache/mod.rs, over any policy of
--     Cache/Policy and any prefetcher; Cache/Policies holds the five policies.
--   Mshr: core/units/cache/mshr.rs. Btb, Ras: core/units/bru/btb.rs and ras.rs.
--   Pmp: core/units/mmu/pmp.rs; Pmp/Match/Region gives the regions and permission bits of the
--     architecture that Pmp/Match/Decide is stated against. Plic: soc/devices/plic.rs.
--   The Tests modules apply the theorems to concrete buffers.
--
-- Bounds. Numbers are natural numbers; a 32-bit tag and a 64-bit sum keep their wrap-around
-- written out, except where a file's comment gives the range in which none occurs. Tags are
-- compared by signed distance, so the theorems on the reorder buffer ask that the tags in flight
-- span less than 2 ^ 31 (`Aged`, `HasTagRoom`); address ranges are asked to lie below 2 ^ 64. A
-- checkpoint table has at most 256 slots, as its identifiers have 8 bits. The signed types of
-- the source are integers, with the casts written out. Fuel: the searches of the circular
-- buffers make `count` rounds, the loops that run to the tail get the capacity, and `Rob.Flush`
-- shows that they stop within it.
--
-- Not modelled: the text output and statistics of these files, debug assertions, the store
-- buffer, load queue and checkpoint parts of rename_stage, the in-order engine, the constructors of
-- misaligned traps, the narrow accesses of the interrupt controller, floating point (which is that
-- of the host), and the other units of the simulator (the page-table walk, prediction, prefetching,
-- other devices, loading).
pub mod Base
pub mod Circular
pub mod Types
pub mod Signals
pub mod RobTag
pub mod RobEntry
pub mod Rob
pub mod StoreBuffer
pub mod FreeList
pub mod RenameMap
pub mod CheckpointTable
pub mod PhysRegFile
pub mod LoadQueue
pub mod Scoreboard
pub mod Renaming
pub mod Isa
pub mod Alu
pub mod Lsu
pub mod Pmp
pub mod Ways
pub mod Tlb
pub mod Cache
pub mod Mshr
pub mod Btb
pub mod Ras
pub mod Plic
