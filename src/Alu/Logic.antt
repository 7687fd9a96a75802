-- ===== src/Alu/Logic.antt =====
-- crates/hardware/src/core/units/alu/logic.rs
use rvsim.Base.{ℕ, Bool, bit_and, bit_or, bit_xor, ltb, if◌then◌else◌}
use rvsim.Base.Int.{ltb_ℤ}
use rvsim.Signals.{AluOp}
use rvsim.Alu.Casts.{as_i32, as_i64, as_u32}

-- `b as u64`
abbrev pub from_bool : Bool → ℕ
from_bool b = if b then 1 else 0

unfoldable pub execute : AluOp → ℕ → ℕ → Bool → ℕ
execute AluOp.or a b is32 = bit_or a b
execute AluOp.and a b is32 = bit_and a b
execute AluOp.xor a b is32 = bit_xor a b
execute AluOp.slt a b is32 =
    if is32
    then from_bool (ltb_ℤ (as_i32 a) (as_i32 b))
    else from_bool (ltb_ℤ (as_i64 a) (as_i64 b))
execute AluOp.sltu a b is32 =
    if is32 then from_bool (ltb (as_u32 a) (as_u32 b)) else from_bool (ltb a b)
execute _ a b is32 = 0
