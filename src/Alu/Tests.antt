-- ===== src/Alu/Tests.antt =====
-- The theorems on the integer unit at the most negative number and -1, and at -7 and 3.
use rvsim.Base.{◌+◌, ◌*◌, ◌-◌, ◌^◌, ◌<◌, ◌≡◌, false, arith}
use rvsim.Base.Int.{pos, ◌+ℤ◌, ◌*ℤ◌}
use rvsim.Signals.{AluOp}
use rvsim.Alu.{execute}
use rvsim.Alu.Casts.{as_i64}
use rvsim.Alu.Multiply.{mul-halves}
use rvsim.Alu.Divide.{Divides, IsRemainder, div-rem}

mul-halves_example :
    let a = 2 ^ 63 in
    let b = 2 ^ 64 - 1 in
    let low = execute AluOp.mul a b 0 false in
    (as_i64 (execute AluOp.mulh a b 0 false) *ℤ pos (2 ^ 64) +ℤ pos low ≡ as_i64 a *ℤ as_i64 b)
    × (as_i64 (execute AluOp.mulhsu a b 0 false) *ℤ pos (2 ^ 64) +ℤ pos low ≡ as_i64 a *ℤ pos b)
    × (execute AluOp.mulhu a b 0 false * 2 ^ 64 + low ≡ a * b)
mul-halves_example = mul-halves (2 ^ 63) (2 ^ 64 - 1) 0 0 (omega arith) (omega arith)

div-rem_example :
    let a = 2 ^ 64 - 7 in
    Divides a 3
      (execute AluOp.div a 3 0 false)
      (execute AluOp.rem a 3 0 false)
      (IsRemainder a 3 (execute AluOp.rem a 3 0 false))
    × Divides a 3
        (execute AluOp.divu a 3 0 false)
        (execute AluOp.remu a 3 0 false)
        (execute AluOp.remu a 3 0 false < 3)
div-rem_example = div-rem (2 ^ 64 - 7) 3 0 0 (omega arith) (omega arith)
