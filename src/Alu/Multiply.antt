-- ===== src/Alu/Multiply.antt =====
-- The low and the high halves of products.
use native.Mathlib.Nat.{mul-le-mul}
use rvsim.Base.{ℕ, suc, ◌+◌, ◌-◌, ◌*◌, ◌%◌, ◌^◌, ◌≤◌, ◌<◌, ◌≡◌, sym, ap₂, ◌∙◌, arith, false}
use rvsim.Base.Int.{ℤ, pos, negsuc, pos_part, neg_part, ◌+ℤ◌, ◌*ℤ◌}
use rvsim.Signals.{AluOp}
use rvsim.Alu.{execute}
use rvsim.Alu.Arithmetic
use rvsim.Alu.Casts.{as_i64, to_u64, shr}
use rvsim.Alu.Modular.{to_u64-mul, to_u64-as_i64}

shr-split : (z : ℤ) → shr z 64 *ℤ pos (2 ^ 64) +ℤ pos (to_u64 z) ≡ z
unfolding ◌+ℤ◌ ◌*ℤ◌
shr-split (pos n) = ground arith
shr-split (negsuc n) = ground arith

-- The high half fits a register.
as_i64-shr :
    (z : ℤ) → pos_part z < 2 ^ 127 → neg_part z ≤ 2 ^ 127 → as_i64 (to_u64 (shr z 64)) ≡ shr z 64
as_i64-shr (pos n) p q = ground arith
as_i64-shr (negsuc n) p q = ground arith

product_bounds :
    (x y : ℤ)
    → pos_part x < 2 ^ 63
    → neg_part x ≤ 2 ^ 63
    → pos_part y < 2 ^ 64
    → neg_part y ≤ 2 ^ 63
    → (pos_part (x *ℤ y) < 2 ^ 127) × (neg_part (x *ℤ y) ≤ 2 ^ 127)
unfolding ◌*ℤ◌
product_bounds (pos a) (pos b) p q r s = ground (
  arith,
  mul-le-mul {n₁ = a} {m₁ = b} {n₂ = 2 ^ 63 - 1} {m₂ = 2 ^ 64 - 1} (omega arith) (omega arith),
)
product_bounds (pos a) (negsuc b) p q r s = ground (
  arith,
  mul-le-mul {n₁ = a} {m₁ = suc b} {n₂ = 2 ^ 63 - 1} {m₂ = 2 ^ 63} (omega arith) (omega arith),
)
product_bounds (negsuc a) (pos b) p q r s = ground (
  arith,
  mul-le-mul {n₁ = suc a} {m₁ = b} {n₂ = 2 ^ 63} {m₂ = 2 ^ 64 - 1} (omega arith) (omega arith),
)
product_bounds (negsuc a) (negsuc b) p q r s = ground (
  arith,
  mul-le-mul {n₁ = suc a} {m₁ = suc b} {n₂ = 2 ^ 63} {m₂ = 2 ^ 63} (omega arith) (omega arith),
)

as_i64_bounds :
    (a : ℕ) → a < 2 ^ 64 → (pos_part (as_i64 a) < 2 ^ 63) × (neg_part (as_i64 a) ≤ 2 ^ 63)
as_i64_bounds a h = (ground arith, ground arith)

halves :
    (x y : ℤ)
    → pos_part x < 2 ^ 63
    → neg_part x ≤ 2 ^ 63
    → pos_part y < 2 ^ 64
    → neg_part y ≤ 2 ^ 63
    → as_i64 (to_u64 (shr (x *ℤ y) 64)) *ℤ pos (2 ^ 64) +ℤ pos ((to_u64 x * to_u64 y) % 2 ^ 64)
      ≡ x *ℤ y
halves x y p q r s =
    let b = product_bounds x y p q r s in
    ap₂ (λ h l. h *ℤ pos (2 ^ 64) +ℤ pos l) (as_i64-shr (x *ℤ y) b.0 b.1) (sym (to_u64-mul x y))
    ∙ shr-split (x *ℤ y)

halved :
    (a b : ℕ) (x y : ℤ)
    → to_u64 x ≡ a
    → to_u64 y ≡ b
    → pos_part x < 2 ^ 63
    → neg_part x ≤ 2 ^ 63
    → pos_part y < 2 ^ 64
    → neg_part y ≤ 2 ^ 63
    → as_i64 (to_u64 (shr (x *ℤ y) 64)) *ℤ pos (2 ^ 64) +ℤ pos ((a * b) % 2 ^ 64) ≡ x *ℤ y
halved a b x y ea eb p q r s =
    ap₂ (λ a' b'. as_i64 (to_u64 (shr (x *ℤ y) 64)) *ℤ pos (2 ^ 64) +ℤ pos ((a' * b') % 2 ^ 64))
      (sym ea) (sym eb)
    ∙ halves x y p q r s

-- For operands below 2 ^ 64 the high and the low half make up the whole product: of two signed
-- operands, of a signed and an unsigned one, and of two unsigned ones.
pub mul-halves :
    (a b c d : ℕ)
    → a < 2 ^ 64
    → b < 2 ^ 64
    → let low = execute AluOp.mul a b d false in
      (as_i64 (execute AluOp.mulh a b c false) *ℤ pos (2 ^ 64) +ℤ pos low ≡ as_i64 a *ℤ as_i64 b)
      × (as_i64 (execute AluOp.mulhsu a b c false) *ℤ pos (2 ^ 64) +ℤ pos low ≡ as_i64 a *ℤ pos b)
      × (execute AluOp.mulhu a b c false * 2 ^ 64 + low ≡ a * b)
unfolding execute Arithmetic.execute
mul-halves a b c d ha hb =
    let x = as_i64_bounds a ha in
    let y = as_i64_bounds b hb in
    (
      halved a b (as_i64 a) (as_i64 b) (to_u64-as_i64 a ha) (to_u64-as_i64 b hb) x.0 x.1
          (omega arith) y.1,
      halved a b (as_i64 a) (pos b) (to_u64-as_i64 a ha) (omega arith) x.0 x.1 hb (omega arith),
      omega (
        arith,
        mul-le-mul {n₁ = a} {m₁ = b} {n₂ = 2 ^ 64 - 1} {m₂ = 2 ^ 64 - 1} (omega arith)
            (omega arith),
      ),
    )
