-- ===== src/Alu/Casts.antt =====
-- The casts between the register type `u64` and the signed types of crates/hardware/src/core/units/alu,
-- and the operators of the signed types, in place of the source language's.
use rvsim.Base.{ℕ, suc, ◌-◌, ◌/◌, ◌%◌, ◌^◌, ltb, if◌then◌else◌}
use rvsim.Base.Int.{ℤ, pos, negsuc}

-- `x as i64`, for x below 2 ^ 64
abbrev pub as_i64 : ℕ → ℤ
as_i64 x = if ltb x (2 ^ 63) then pos x else negsuc (2 ^ 64 - 1 - x)

-- `x as u32`
abbrev pub as_u32 : ℕ → ℕ
as_u32 x = x % 2 ^ 32

-- `x as i32`
abbrev pub as_i32 : ℕ → ℤ
as_i32 x = if ltb (as_u32 x) (2 ^ 31) then pos (as_u32 x) else negsuc (2 ^ 32 - 1 - as_u32 x)

-- `z as u64`
abbrev pub to_u64 : ℤ → ℕ
to_u64 (pos n) = n % 2 ^ 64
to_u64 (negsuc n) = 2 ^ 64 - 1 - n % 2 ^ 64

-- The value of an `i32` operation that wraps around.
abbrev pub wrap_i32 : ℤ → ℤ
wrap_i32 z = as_i32 (to_u64 z)

-- `z >> k`, for a signed z
abbrev pub shr : ℤ → ℕ → ℤ
shr (pos n) k = pos (n / 2 ^ k)
shr (negsuc n) k = negsuc (n / 2 ^ k)

abbrev pub neg : ℕ → ℤ
neg n = if ltb 0 n then negsuc (n - 1) else pos 0

-- `a / b` and `a % b` round towards zero; the remainder has the sign of `a`.
abbrev pub tdiv : ℤ → ℤ → ℤ
tdiv (pos a) (pos b) = pos (a / b)
tdiv (pos a) (negsuc b) = neg (a / suc b)
tdiv (negsuc a) (pos b) = neg (suc a / b)
tdiv (negsuc a) (negsuc b) = pos (suc a / suc b)

abbrev pub trem : ℤ → ℤ → ℤ
trem (pos a) (pos b) = pos (a % b)
trem (pos a) (negsuc b) = pos (a % suc b)
trem (negsuc a) (pos b) = neg (suc a % b)
trem (negsuc a) (negsuc b) = neg (suc a % suc b)
