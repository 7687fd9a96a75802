-- ===== src/Alu/Arithmetic.antt =====
-- crates/hardware/src/core/units/alu/arithmetic.rs
use rvsim.Base.{ℕ, ◌+◌, ◌-◌, ◌*◌, ◌/◌, ◌%◌, ◌^◌, Bool, if◌then◌else◌, ◌==◌}
use rvsim.Base.Int.{pos, abs, ◌+ℤ◌, ◌-ℤ◌, ◌*ℤ◌}
use rvsim.Signals.{AluOp}
use rvsim.Alu.Casts.{as_i32, as_i64, as_u32, to_u64, wrap_i32, shr, tdiv, trem}

-- `-1i64 as u64`
abbrev all_ones : ℕ
all_ones = 2 ^ 64 - 1

-- `x as i32 as i64 as u64`
abbrev sign_extended : ℕ → ℕ
sign_extended x = to_u64 (as_i32 x)

unfoldable pub execute : AluOp → ℕ → ℕ → Bool → ℕ
unfolding ◌+ℤ◌ ◌-ℤ◌ ◌*ℤ◌
execute AluOp.add a b is32 =
    if is32 then to_u64 (wrap_i32 (as_i32 a +ℤ as_i32 b)) else (a + b) % 2 ^ 64
execute AluOp.sub a b is32 =
    if is32 then to_u64 (wrap_i32 (as_i32 a -ℤ as_i32 b)) else (a + 2 ^ 64 - b) % 2 ^ 64
execute AluOp.mul a b is32 =
    if is32 then to_u64 (wrap_i32 (as_i32 a *ℤ as_i32 b)) else (a * b) % 2 ^ 64
execute AluOp.mulh a b is32 =
    if is32 then to_u64 (shr (as_i32 a *ℤ as_i32 b) 32) else to_u64 (shr (as_i64 a *ℤ as_i64 b) 64)
execute AluOp.mulhsu a b is32 =
    if is32
    then to_u64 (shr (as_i32 a *ℤ pos (as_u32 b)) 32)
    else to_u64 (shr (as_i64 a *ℤ pos b) 64)
execute AluOp.mulhu a b is32 =
    if is32 then (as_u32 a * as_u32 b) / 2 ^ 32 else (a * b) / 2 ^ 64 % 2 ^ 64
execute AluOp.div a b is32 =
    if is32
    then (if abs (as_i32 b) == 0 then all_ones else to_u64 (wrap_i32 (tdiv (as_i32 a) (as_i32 b))))
    else if b == 0
    then all_ones
    else to_u64 (tdiv (as_i64 a) (as_i64 b))
execute AluOp.divu a b is32 =
    if is32
    then (if as_u32 b == 0 then all_ones else sign_extended (as_u32 a / as_u32 b))
    else if b == 0
    then all_ones
    else a / b
execute AluOp.rem a b is32 =
    if is32
    then (if abs (as_i32 b) == 0
        then to_u64 (as_i32 a)
        else to_u64 (wrap_i32 (trem (as_i32 a) (as_i32 b))))
    else if b == 0
    then a
    else to_u64 (trem (as_i64 a) (as_i64 b))
execute AluOp.remu a b is32 =
    if is32
    then (if as_u32 b == 0 then sign_extended (as_u32 a) else sign_extended (as_u32 a % as_u32 b))
    else if b == 0
    then a
    else a % b
execute _ a b is32 = 0
