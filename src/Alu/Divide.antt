-- ===== src/Alu/Divide.antt =====
-- Quotients and remainders against the equation that defines them, also for a divisor of zero and
-- where the quotient overflows.
use native.Mathlib.Nat.{div-add-mod, mod-lt, mul_comm}
use rvsim.Base.{
  ℕ, suc, ◌+◌, ◌-◌, ◌*◌, ◌/◌, ◌%◌, ◌^◌, ◌<◌, ◌≡◌, ◌≢◌, ◌⊎◌, inl, inr, ap, arith, ltb, if◌then◌else◌,
  false, ◌==◌, ==_iff, Bool-cases,
}
use rvsim.Base.Int.{abs, ◌*ℤ◌}
use rvsim.Signals.{AluOp}
use rvsim.Alu.{execute}
use rvsim.Alu.Arithmetic
use rvsim.Alu.Casts.{as_i64, to_u64, tdiv, trem}
use rvsim.Alu.Modular.{to_u64-add, to_u64-mul, to_u64-as_i64, tdiv-trem}

-- `r` is smaller than `b` in absolute value, and has the sign of `a` unless it is 0.
abbrev pub IsRemainder : ℕ → ℕ → ℕ → Type 0
IsRemainder a b r =
    (abs (as_i64 r) < abs (as_i64 b)) × ((r ≡ 0) ⊎ (ltb r (2 ^ 63) ≡ ltb a (2 ^ 63)))

abbrev pub Divides : (a b q r : ℕ) → Type 0 → Type 0
Divides a b q r Fits = ((q * b + r) % 2 ^ 64 ≡ a) × (((b ≡ 0) × (q ≡ 2 ^ 64 - 1)) ⊎ Fits)

tdiv-lem :
    (a b : ℕ)
    → a < 2 ^ 64
    → b < 2 ^ 64
    → (to_u64 (tdiv (as_i64 a) (as_i64 b)) * b + to_u64 (trem (as_i64 a) (as_i64 b))) % 2 ^ 64 ≡ a
tdiv-lem a b ha hb =
    let x = as_i64 a in
    let y = as_i64 b in
    omega (
      arith,
      ap (λ t. to_u64 (tdiv x y) * t) (to_u64-as_i64 b hb),
      to_u64-mul (tdiv x y) y,
      to_u64-add (tdiv x y *ℤ y) (trem x y),
      ap to_u64 (tdiv-trem x y),
      to_u64-as_i64 a ha,
    )

trem-IsRemainder :
    (a b : ℕ)
    → a < 2 ^ 64
    → b < 2 ^ 64
    → b ≢ 0
    → IsRemainder a b (to_u64 (trem (as_i64 a) (as_i64 b)))
trem-IsRemainder a b ha hb nz = elim (Bool-cases (ltb a (2 ^ 63))) [
  | inl p ↦ elim (Bool-cases (ltb b (2 ^ 63))) [
    | inl q ↦ rw (p, q, if◌then◌else◌) (ground (arith, mod-lt a {m = b}))
    | inr q ↦ rw (p, q, if◌then◌else◌) (ground (arith, mod-lt a {m = suc (2 ^ 64 - 1 - b)}))
  ]
  | inr p ↦ elim (Bool-cases (ltb b (2 ^ 63))) [
    | inl q ↦ rw (p, q, if◌then◌else◌) (ground (arith, mod-lt (suc (2 ^ 64 - 1 - a)) {m = b}))
    | inr q ↦
        rw (p, q, if◌then◌else◌)
          (ground (arith, mod-lt (suc (2 ^ 64 - 1 - a)) {m = suc (2 ^ 64 - 1 - b)}))
  ]
]

-- For all operands below 2 ^ 64 the signed and the unsigned quotient `q` and remainder `r` satisfy
-- q * b + r = a modulo 2 ^ 64. Where b is not 0 the remainder is smaller than b, in absolute value
-- for the signed pair, where it has the sign of a unless it is 0; where b is 0 the quotient is all
-- ones.
pub div-rem :
    (a b c d : ℕ)
    → a < 2 ^ 64
    → b < 2 ^ 64
    → Divides a b
        (execute AluOp.div a b c false)
        (execute AluOp.rem a b d false)
        (IsRemainder a b (execute AluOp.rem a b d false))
      × Divides a b
          (execute AluOp.divu a b c false)
          (execute AluOp.remu a b d false)
          (execute AluOp.remu a b d false < b)
unfolding execute Arithmetic.execute
div-rem a b c d ha hb = elim (Bool-cases (b == 0)) [
  | inl e ↦ let z : b ≡ 0 = (==_iff b 0).0 e in ground arith
  | inr e ↦
      let nz : b ≢ 0 = ground arith in
      rw (e, if◌then◌else◌)
        (
          (tdiv-lem a b ha hb, inr (trem-IsRemainder a b ha hb nz)),
          (
            omega (arith, div-add-mod a b, mul_comm (a / b) b),
            inr (mod-lt a {m = b} (omega arith)),
          ),
        )
]
