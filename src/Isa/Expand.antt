-- ===== src/Isa/Expand.antt =====
-- crates/hardware/src/isa/rvc/expand.rs: a 16-bit instruction as a 32-bit one.
pub mod Notation
pub mod Quadrant0
pub mod Quadrant1
pub mod Quadrant2
pub mod Manual
pub mod Correct
mod Tests
use rvsim.Base.{ℕ, bit_and, ◌==◌, if◌then◌else◌}
use rvsim.Isa.Expand.Quadrant0
use rvsim.Isa.Expand.Quadrant1
use rvsim.Isa.Expand.Quadrant2

unfoldable pub expand : ℕ → ℕ
unfolding Quadrant0.expand Quadrant1.expand Quadrant2.expand
expand inst =
    let op = bit_and inst 0x3 in
    if op == 0
    then Quadrant0.expand inst
    else if op == 1
    then Quadrant1.expand inst
    else if op == 2
    then Quadrant2.expand inst
    else 0
