-- ===== src/Isa.antt =====
-- Instruction formats: crates/hardware/src/isa.
pub mod Opcodes
pub mod Decode
pub mod Expand
