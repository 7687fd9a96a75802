-- ===== src/Alu/Shifts.antt =====
-- crates/hardware/src/core/units/alu/shifts.rs
use rvsim.Base.{ℕ, ◌*◌, ◌/◌, ◌%◌, ◌^◌, Bool, if◌then◌else◌}
use rvsim.Signals.{AluOp}
use rvsim.Alu.Casts.{as_i32, as_i64, as_u32, to_u64, shr}

-- `b & SHAMT_MASK_RV64` and `b as u32 & SHAMT_MASK_RV32`
abbrev pub shamt64 : ℕ → ℕ
shamt64 b = b % 64

abbrev pub shamt32 : ℕ → ℕ
shamt32 b = b % 32

unfoldable pub execute : AluOp → ℕ → ℕ → Bool → ℕ
execute AluOp.sll a b is32 =
    if is32 then to_u64 (as_i32 (as_u32 a * 2 ^ shamt32 b)) else (a * 2 ^ shamt64 b) % 2 ^ 64
execute AluOp.srl a b is32 =
    if is32 then to_u64 (as_i32 (as_u32 a / 2 ^ shamt32 b)) else a / 2 ^ shamt64 b
execute AluOp.sra a b is32 =
    if is32 then to_u64 (shr (as_i32 a) (shamt32 b)) else to_u64 (shr (as_i64 a) (shamt64 b))
execute _ a b is32 = 0
