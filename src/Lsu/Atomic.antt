-- ===== src/Lsu/Atomic.antt =====
-- crates/hardware/src/core/units/lsu/atomic.rs
pub mod Extremes
use rvsim.Base.{
  ℕ, ◌+◌, ◌-◌, ◌%◌, ◌^◌, ◌<◌, ◌≡◌, Bool, true, false, bit_and, bit_or, bit_xor, min, max, arith,
  if◌then◌else◌,
}
use rvsim.Base.Int.{ℤ, pos, ◌+ℤ◌, ltb_ℤ}
use rvsim.Signals.{AtomicOp, MemWidth}
use rvsim.Alu.Casts.{as_i32, as_i64, as_u32, to_u64}

-- The operators of a signed type; `&`, `|` and `^` work on its bit pattern.
abbrev min_ℤ : ℤ → ℤ → ℤ
min_ℤ a b = if ltb_ℤ b a then b else a

abbrev max_ℤ : ℤ → ℤ → ℤ
max_ℤ a b = if ltb_ℤ b a then a else b

-- The operations at 32 bits: the bit pattern of `res`.
abbrev word_update : AtomicOp → ℕ → ℕ → ℕ
word_update AtomicOp.swap m r = as_u32 r
word_update AtomicOp.add m r = (as_u32 m + as_u32 r) % 2 ^ 32
word_update AtomicOp.xor m r = bit_xor (as_u32 m) (as_u32 r)
word_update AtomicOp.and m r = bit_and (as_u32 m) (as_u32 r)
word_update AtomicOp.or m r = bit_or (as_u32 m) (as_u32 r)
word_update AtomicOp.min m r = as_u32 (to_u64 (min_ℤ (as_i32 m) (as_i32 r)))
word_update AtomicOp.max m r = as_u32 (to_u64 (max_ℤ (as_i32 m) (as_i32 r)))
word_update AtomicOp.minu m r = min (as_u32 m) (as_u32 r)
word_update AtomicOp.maxu m r = max (as_u32 m) (as_u32 r)
word_update _ m r = 0

abbrev double_update : AtomicOp → ℕ → ℕ → ℕ
double_update AtomicOp.swap m r = r
double_update AtomicOp.add m r = (m + r) % 2 ^ 64
double_update AtomicOp.xor m r = bit_xor m r
double_update AtomicOp.and m r = bit_and m r
double_update AtomicOp.or m r = bit_or m r
double_update AtomicOp.min m r = to_u64 (min_ℤ (as_i64 m) (as_i64 r))
double_update AtomicOp.max m r = to_u64 (max_ℤ (as_i64 m) (as_i64 r))
double_update AtomicOp.minu m r = min m r
double_update AtomicOp.maxu m r = max m r
double_update _ m r = 0

-- `matches!(width, MemWidth::Word)`; a result of 32 bits is sign-extended.
pub atomic_alu : AtomicOp → ℕ → ℕ → MemWidth → ℕ
atomic_alu op m r MemWidth.word = to_u64 (as_i32 (word_update op m r))
atomic_alu op m r _ = double_update op m r
