-- ===== src/Lsu.antt =====
-- The load/store unit, crates/hardware/src/core/units/lsu: atomic updates, fences, unaligned accesses.
pub mod Atomic
pub mod Ordering
pub mod Unaligned
mod Tests
