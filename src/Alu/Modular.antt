-- ===== src/Alu/Modular.antt =====
-- The cast of integers to registers as arithmetic modulo 2 ^ 64.
use native.Mathlib.Nat.{div-add-mod, mul-add-mod_self_left}
use rvsim.Base.{ℕ, suc, ◌+◌, ◌-◌, ◌*◌, ◌/◌, ◌%◌, ◌^◌, ◌<◌, ◌≡◌, sym, ap, ◌∙◌, arith}
use rvsim.Base.Int.{
  ℤ, pos, negsuc, pos_part, neg_part, ◌+ℤ◌, ◌-ℤ◌, ◌*ℤ◌, +ℤ_parts, -ℤ_parts, *ℤ_parts,
}
use rvsim.Alu.Casts.{as_i64, to_u64, tdiv, trem}

-- What it takes to be the cast of `p - n`.
pub to_u64_parts : (z : ℤ) → (to_u64 z + neg_part z) % 2 ^ 64 ≡ pos_part z % 2 ^ 64
to_u64_parts (pos n) = omega arith
to_u64_parts (negsuc n) = omega arith

pub to_u64-lt : (z : ℤ) → to_u64 z < 2 ^ 64
to_u64-lt (pos n) = omega arith
to_u64-lt (negsuc n) = omega arith

pub to_u64-as_i64 : (x : ℕ) → x < 2 ^ 64 → to_u64 (as_i64 x) ≡ x
to_u64-as_i64 x h = ground arith

pub to_u64-add : (a b : ℤ) → to_u64 (a +ℤ b) ≡ (to_u64 a + to_u64 b) % 2 ^ 64
to_u64-add a b =
    omega (
      arith,
      +ℤ_parts a b,
      to_u64_parts a,
      to_u64_parts b,
      to_u64_parts (a +ℤ b),
      to_u64-lt (a +ℤ b),
    )

pub to_u64-sub : (a b : ℤ) → to_u64 (a -ℤ b) ≡ (to_u64 a + 2 ^ 64 - to_u64 b) % 2 ^ 64
to_u64-sub a b = omega (
  arith,
  -ℤ_parts a b,
  to_u64_parts a,
  to_u64_parts b,
  to_u64_parts (a -ℤ b),
  to_u64-lt (a -ℤ b),
  to_u64-lt b,
)

-- A factor may be replaced by one with the same remainder.
mul-mod_reduce : (m c x : ℕ) → (c * x) % m ≡ (c * (x % m)) % m
mul-mod_reduce m c x =
    ap (λ t. t % m) (ap (λ t. c * t) (sym (div-add-mod x m)) ∙ (grind arith))
    ∙ mul-add-mod_self_left m (c * (x / m)) (c * (x % m))

pub mul-mod_cong : (m a b c : ℕ) → a % m ≡ b % m → (c * a) % m ≡ (c * b) % m
mul-mod_cong m a b c e = mul-mod_reduce m c a ∙ ap (λ t. (c * t) % m) e ∙ sym (mul-mod_reduce m c b)

pub to_u64-mul : (a b : ℤ) → to_u64 (a *ℤ b) ≡ (to_u64 a * to_u64 b) % 2 ^ 64
to_u64-mul a b =
    let x = to_u64 a in
    let y = to_u64 b in
    let n = neg_part a in
    let m = neg_part b in
    let p = pos_part a in
    let q = pos_part b in
    omega (
      arith,
      *ℤ_parts a b,
      to_u64_parts (a *ℤ b),
      to_u64-lt (a *ℤ b),
      mul-mod_cong (2 ^ 64) (x + n) p (y + m) (to_u64_parts a),
      mul-mod_cong (2 ^ 64) (y + m) q p (to_u64_parts b),
      mul-mod_cong (2 ^ 64) (x + n) p m (to_u64_parts a),
      mul-mod_cong (2 ^ 64) (y + m) q n (to_u64_parts b),
    )

pub tdiv-trem : (a b : ℤ) → tdiv a b *ℤ b +ℤ trem a b ≡ a
unfolding ◌+ℤ◌ ◌*ℤ◌
tdiv-trem (pos a) (pos b) = grind (arith, div-add-mod a b)
tdiv-trem (pos a) (negsuc b) = grind (arith, div-add-mod a (suc b))
tdiv-trem (negsuc a) (pos b) = grind (arith, div-add-mod (suc a) b)
tdiv-trem (negsuc a) (negsuc b) = grind (arith, div-add-mod (suc a) (suc b))
