-- ===== src/Alu/Words.antt =====
-- The operations on the low 32 bits, whose results are sign-extended.
use native.Mathlib.Nat.{div-le_self, div-add-mod, mod-lt}
use rvsim.Base.{
  ℕ, ◌+◌, ◌-◌, ◌*◌, ◌/◌, ◌%◌, ◌^◌, ◌<◌, ◌≡◌, inl, inr, refl, ap, ap₂, arith, Bool, true, false,
  if◌then◌else◌, ◌==◌, ==_iff, Bool-cases,
}
use rvsim.Base.Int.{abs, ◌+ℤ◌, ◌-ℤ◌, ◌*ℤ◌}
use rvsim.Signals.{AluOp}
use rvsim.Alu.{execute}
use rvsim.Alu.Arithmetic
use rvsim.Alu.Shifts
use rvsim.Alu.Shifts.{shamt32}
use rvsim.Alu.Casts.{as_i32, as_u32, to_u64, wrap_i32, shr, tdiv, trem}
use rvsim.Alu.Modular.{to_u64-add, to_u64-lt, to_u64-sub, to_u64-mul, tdiv-trem, mul-mod_cong}

-- The operations that have a 32-bit instruction.
abbrev pub is_word_op : AluOp → Bool
is_word_op AluOp.add = true
is_word_op AluOp.sub = true
is_word_op AluOp.sll = true
is_word_op AluOp.srl = true
is_word_op AluOp.sra = true
is_word_op AluOp.mul = true
is_word_op AluOp.div = true
is_word_op AluOp.divu = true
is_word_op AluOp.rem = true
is_word_op AluOp.remu = true
is_word_op _ = false

abbrev pub IsWord : ℕ → Type 0
IsWord r = to_u64 (as_i32 r) ≡ r

as_i32-IsWord : (x : ℕ) → IsWord (to_u64 (as_i32 x))
as_i32-IsWord x = ground arith

shr-IsWord : (x k : ℕ) → IsWord (to_u64 (shr (as_i32 x) k))
shr-IsWord x k =
    ground (arith, div-le_self (as_u32 x) (2 ^ k), div-le_self (2 ^ 32 - 1 - as_u32 x) (2 ^ k))

if-IsWord : (t : Bool) (x y : ℕ) → IsWord x → IsWord y → IsWord (if t then x else y)
if-IsWord true x y p q = p
if-IsWord false x y p q = q

-- The result of each operation is a sign-extended 32-bit value.
result-IsWord : (op : AluOp) (a b c : ℕ) → is_word_op op ≡ true → IsWord (execute op a b c true)
unfolding execute Arithmetic.execute Shifts.execute
result-IsWord AluOp.add a b c h = as_i32-IsWord (to_u64 (as_i32 a +ℤ as_i32 b))
result-IsWord AluOp.sub a b c h = as_i32-IsWord (to_u64 (as_i32 a -ℤ as_i32 b))
result-IsWord AluOp.sll a b c h = as_i32-IsWord (as_u32 a * 2 ^ shamt32 b)
result-IsWord AluOp.srl a b c h = as_i32-IsWord (as_u32 a / 2 ^ shamt32 b)
result-IsWord AluOp.sra a b c h = shr-IsWord a (shamt32 b)
result-IsWord AluOp.mul a b c h = as_i32-IsWord (to_u64 (as_i32 a *ℤ as_i32 b))
result-IsWord AluOp.div a b c h =
    if-IsWord (abs (as_i32 b) == 0) (2 ^ 64 - 1) (to_u64 (wrap_i32 (tdiv (as_i32 a) (as_i32 b))))
      refl (as_i32-IsWord (to_u64 (tdiv (as_i32 a) (as_i32 b))))
result-IsWord AluOp.divu a b c h =
    if-IsWord (as_u32 b == 0) (2 ^ 64 - 1) (to_u64 (as_i32 (as_u32 a / as_u32 b))) refl
      (as_i32-IsWord (as_u32 a / as_u32 b))
result-IsWord AluOp.rem a b c h =
    if-IsWord (abs (as_i32 b) == 0) _ _ (as_i32-IsWord a)
      (as_i32-IsWord (to_u64 (trem (as_i32 a) (as_i32 b))))
result-IsWord AluOp.remu a b c h =
    if-IsWord (as_u32 b == 0) _ _ (as_i32-IsWord (as_u32 a)) (as_i32-IsWord (as_u32 a % as_u32 b))
result-IsWord _ a b c h = cc

low_half : (a : ℕ) → as_u32 (as_u32 a) ≡ as_u32 a
low_half a = omega arith

low_shamt : (b : ℕ) → shamt32 (as_u32 b) ≡ shamt32 b
low_shamt b = omega arith

-- The upper halves of the operands do not matter.
result-low :
    (op : AluOp) (a b c : ℕ)
    → is_word_op op ≡ true
    → execute op (as_u32 a) (as_u32 b) c true ≡ execute op a b c true
unfolding execute Arithmetic.execute Shifts.execute
result-low AluOp.add a b c h = rw (low_half a, low_half b)
result-low AluOp.sub a b c h = rw (low_half a, low_half b)
result-low AluOp.sll a b c h = rw (low_half a, low_shamt b)
result-low AluOp.srl a b c h = rw (low_half a, low_shamt b)
result-low AluOp.sra a b c h = rw (low_half a, low_shamt b)
result-low AluOp.mul a b c h = rw (low_half a, low_half b)
result-low AluOp.div a b c h = rw (low_half a, low_half b)
result-low AluOp.divu a b c h = rw (low_half a, low_half b)
result-low AluOp.rem a b c h = rw (low_half a, low_half b)
result-low AluOp.remu a b c h =
    ap₂ (λ x y. if y == 0 then to_u64 (as_i32 x) else to_u64 (as_i32 (x % y))) (low_half a)
      (low_half b)
result-low _ a b c h = cc

low-as_i32 : (x : ℕ) → as_u32 (to_u64 (as_i32 x)) ≡ as_u32 x
low-as_i32 x = ground arith

-- The operations that have a 32-bit instruction give a sign-extended 32-bit value that depends on
-- the low halves of the operands only.
pub execute-IsWord :
    (op : AluOp) (a b c : ℕ)
    → is_word_op op ≡ true
    → IsWord (execute op a b c true)
      × (execute op (as_u32 a) (as_u32 b) c true ≡ execute op a b c true)
execute-IsWord op a b c h = (result-IsWord op a b c h, result-low op a b c h)

low_product :
    (x y a b : ℕ) → as_u32 x ≡ as_u32 a → as_u32 y ≡ as_u32 b → as_u32 (x * y) ≡ as_u32 (a * b)
low_product x y a b p q =
    omega (arith, mul-mod_cong (2 ^ 32) y b x q, mul-mod_cong (2 ^ 32) x a b p)

low_tdiv :
    (a b : ℕ)
    → (as_u32 (to_u64 (tdiv (as_i32 a) (as_i32 b))) * as_u32 b
          + as_u32 (to_u64 (trem (as_i32 a) (as_i32 b))))
        % 2 ^ 32
      ≡ as_u32 a
low_tdiv a b =
    let x = as_i32 a in
    let y = as_i32 b in
    let q = to_u64 (tdiv x y) in
    omega (
      arith,
      low_product (as_u32 q) (as_u32 b) q (to_u64 y) (low_half q) (omega (arith, low-as_i32 b)),
      to_u64-mul (tdiv x y) y,
      to_u64-add (tdiv x y *ℤ y) (trem x y),
      ap to_u64 (tdiv-trem x y),
      low-as_i32 a,
    )

low_div :
    (a b : ℕ)
    → (as_u32 (
              if abs (as_i32 b) == 0
              then 2 ^ 64 - 1
              else to_u64 (wrap_i32 (tdiv (as_i32 a) (as_i32 b))))
            * as_u32 b
          + as_u32 (
              if abs (as_i32 b) == 0
              then to_u64 (as_i32 a)
              else to_u64 (wrap_i32 (trem (as_i32 a) (as_i32 b)))))
        % 2 ^ 32
      ≡ as_u32 a
low_div a b = elim (Bool-cases (abs (as_i32 b) == 0)) [
  | inl e ↦
      let none : as_u32 b ≡ 0 = ground arith in
      rw (e, if◌then◌else◌) (omega (arith, ap (λ t. as_u32 (2 ^ 64 - 1) * t) none, low-as_i32 a))
  | inr e ↦
      rw
        (
          e,
          if◌then◌else◌,
          low-as_i32 (to_u64 (tdiv (as_i32 a) (as_i32 b))),
          low-as_i32 (to_u64 (trem (as_i32 a) (as_i32 b))),
        )
        (low_tdiv a b)
]

low_divu :
    (x y : ℕ)
    → x < 2 ^ 32
    → (as_u32 (if y == 0 then 2 ^ 64 - 1 else to_u64 (as_i32 (x / y))) * y
          + as_u32 (if y == 0 then to_u64 (as_i32 x) else to_u64 (as_i32 (x % y))))
        % 2 ^ 32
      ≡ x
low_divu x y h = elim (Bool-cases (y == 0)) [
  | inl e ↦
      rw (e, if◌then◌else◌)
        (omega (arith, ap (λ t. as_u32 (2 ^ 64 - 1) * t) ((==_iff y 0).0 e), low-as_i32 x))
  | inr e ↦
      rw (e, if◌then◌else◌)
        (omega (
          arith,
          low-as_i32 (x / y),
          low-as_i32 (x % y),
          div-le_self x y,
          mod-lt x {m = y} (ground arith),
          mul-mod_cong (2 ^ 32) (as_u32 (to_u64 (as_i32 (x / y)))) (x / y) y
              (omega (arith, low-as_i32 (x / y))),
          div-add-mod x y,
        ))
]

low_sub :
    (a b : ℕ)
    → b < 2 ^ 64
    → as_u32 (to_u64 (wrap_i32 (as_i32 a -ℤ as_i32 b))) ≡ as_u32 ((a + 2 ^ 64 - b) % 2 ^ 64)
low_sub a b h = omega (
  arith,
  low-as_i32 (to_u64 (as_i32 a -ℤ as_i32 b)),
  to_u64-sub (as_i32 a) (as_i32 b),
  to_u64-lt (as_i32 b),
  low-as_i32 a,
  low-as_i32 b,
)

-- In the low half sums, differences and products are those of the 64-bit operation, and the
-- quotient `q` and the remainder `r`, signed or unsigned, satisfy q * b + r = a modulo 2 ^ 32, a
-- divisor of zero included.
pub word_low :
    (a b c : ℕ)
    → b < 2 ^ 64
    → (as_u32 (execute AluOp.add a b c true) ≡ as_u32 (execute AluOp.add a b c false))
      × (as_u32 (execute AluOp.sub a b c true) ≡ as_u32 (execute AluOp.sub a b c false))
      × (as_u32 (execute AluOp.mul a b c true) ≡ as_u32 (execute AluOp.mul a b c false))
      × ((as_u32 (execute AluOp.div a b c true) * as_u32 b + as_u32 (execute AluOp.rem a b c true))
            % 2 ^ 32
          ≡ as_u32 a)
      × ((as_u32 (execute AluOp.divu a b c true) * as_u32 b
              + as_u32 (execute AluOp.remu a b c true))
            % 2 ^ 32
          ≡ as_u32 a)
unfolding execute Arithmetic.execute
word_low a b c h = (
  omega (
    arith,
    low-as_i32 (to_u64 (as_i32 a +ℤ as_i32 b)),
    to_u64-add (as_i32 a) (as_i32 b),
    low-as_i32 a,
    low-as_i32 b,
  ),
  low_sub a b h,
  omega (
    arith,
    low-as_i32 (to_u64 (as_i32 a *ℤ as_i32 b)),
    to_u64-mul (as_i32 a) (as_i32 b),
    low_product (to_u64 (as_i32 a)) (to_u64 (as_i32 b)) a b (low-as_i32 a) (low-as_i32 b),
  ),
  low_div a b,
  low_divu (as_u32 a) (as_u32 b) (omega arith),
)
