-- ===== src/Alu.antt =====
-- The integer unit, crates/hardware/src/core/units/alu: a register is a number below 2 ^ 64, and
-- Alu/Casts.antt writes out the casts to the signed types.
pub mod Casts
pub mod Arithmetic
pub mod Logic
pub mod Shifts
pub mod Modular
pub mod Multiply
pub mod Divide
pub mod Words
mod Tests
use rvsim.Base.{ℕ, Bool}
use rvsim.Signals.{AluOp}
use rvsim.Alu.Arithmetic
use rvsim.Alu.Logic
use rvsim.Alu.Shifts

-- `Alu::execute`; the third operand is not used.
unfoldable pub execute : AluOp → ℕ → ℕ → ℕ → Bool → ℕ
execute AluOp.add a b c is32 = Arithmetic.execute AluOp.add a b is32
execute AluOp.sub a b c is32 = Arithmetic.execute AluOp.sub a b is32
execute AluOp.mul a b c is32 = Arithmetic.execute AluOp.mul a b is32
execute AluOp.mulh a b c is32 = Arithmetic.execute AluOp.mulh a b is32
execute AluOp.mulhsu a b c is32 = Arithmetic.execute AluOp.mulhsu a b is32
execute AluOp.mulhu a b c is32 = Arithmetic.execute AluOp.mulhu a b is32
execute AluOp.div a b c is32 = Arithmetic.execute AluOp.div a b is32
execute AluOp.divu a b c is32 = Arithmetic.execute AluOp.divu a b is32
execute AluOp.rem a b c is32 = Arithmetic.execute AluOp.rem a b is32
execute AluOp.remu a b c is32 = Arithmetic.execute AluOp.remu a b is32
execute AluOp.or a b c is32 = Logic.execute AluOp.or a b is32
execute AluOp.and a b c is32 = Logic.execute AluOp.and a b is32
execute AluOp.xor a b c is32 = Logic.execute AluOp.xor a b is32
execute AluOp.slt a b c is32 = Logic.execute AluOp.slt a b is32
execute AluOp.sltu a b c is32 = Logic.execute AluOp.sltu a b is32
execute AluOp.sll a b c is32 = Shifts.execute AluOp.sll a b is32
execute AluOp.srl a b c is32 = Shifts.execute AluOp.srl a b is32
execute AluOp.sra a b c is32 = Shifts.execute AluOp.sra a b is32
execute _ a b c is32 = 0
