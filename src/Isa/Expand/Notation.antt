-- ===== src/Isa/Expand/Notation.antt =====
-- The operators that crates/hardware/src/isa/rvc/expand.rs puts instructions together with.
use rvsim.Base.{ℕ, ◌-◌, ◌*◌, ◌%◌, ◌^◌, bit_or}
use rvsim.Alu.Casts.{as_i32, to_u64, shr}

-- `a | b`
infixl 55 ◌<|>◌
abbrev pub ◌<|>◌ : ℕ → ℕ → ℕ
a <|> b = bit_or a b

-- `((val << shift) as i32 >> shift) as u32`
abbrev pub sign_extend : ℕ → ℕ → ℕ
sign_extend val bits = to_u64 (shr (as_i32 (val * 2 ^ (32 - bits))) (32 - bits)) % 2 ^ 32
