-- ===== src/Lsu/Atomic/Extremes.antt =====
-- The atomic minimum and maximum, signed and unsigned.
use rvsim.Base.{ℕ, ◌+◌, ◌^◌, ◌≤◌, ◌<◌, ◌≡◌, ◌⊎◌, arith}
use rvsim.Base.Int.{ℤ, pos_part, neg_part}
use rvsim.Signals.{AtomicOp, MemWidth}
use rvsim.Alu.Casts.{as_i32, as_i64, as_u32, to_u64}
use rvsim.Lsu.Atomic.{atomic_alu}

infix 50 ◌≤ℤ◌
abbrev pub ◌≤ℤ◌ : ℤ → ℤ → Type 0
a ≤ℤ b = pos_part a + neg_part b ≤ pos_part b + neg_part a

abbrev IsOneOf : ℕ → ℕ → ℕ → Type 0
IsOneOf x a b = (x ≡ a) ⊎ (x ≡ b)

abbrev pub sign_extended : ℕ → ℕ
sign_extended x = to_u64 (as_i32 x)

-- The extremes of `a` and `b` under the two readings of a register.
abbrev pub Extremes : (ℕ → ℤ) → (ℕ → ℕ) → (a b lo hi lo_u hi_u : ℕ) → Type 0
Extremes signed unsigned a b lo hi lo_u hi_u =
    (IsOneOf lo a b × (signed lo ≤ℤ signed a) × (signed lo ≤ℤ signed b))
    × (IsOneOf hi a b × (signed a ≤ℤ signed hi) × (signed b ≤ℤ signed hi))
    × (IsOneOf lo_u a b × (unsigned lo_u ≤ unsigned a) × (unsigned lo_u ≤ unsigned b))
    × (IsOneOf hi_u a b × (unsigned a ≤ unsigned hi_u) × (unsigned b ≤ unsigned hi_u))

word_min :
    (m r : ℕ)
    → let lo = atomic_alu AtomicOp.min m r MemWidth.word in
      IsOneOf lo (sign_extended m) (sign_extended r)
      × (as_i32 lo ≤ℤ as_i32 m)
      × (as_i32 lo ≤ℤ as_i32 r)
unfolding atomic_alu
word_min m r = ground arith

word_max :
    (m r : ℕ)
    → let hi = atomic_alu AtomicOp.max m r MemWidth.word in
      IsOneOf hi (sign_extended m) (sign_extended r)
      × (as_i32 m ≤ℤ as_i32 hi)
      × (as_i32 r ≤ℤ as_i32 hi)
unfolding atomic_alu
word_max m r = ground arith

word_minu :
    (m r : ℕ)
    → let lo = atomic_alu AtomicOp.minu m r MemWidth.word in
      IsOneOf lo (sign_extended m) (sign_extended r)
      × (as_u32 lo ≤ as_u32 m)
      × (as_u32 lo ≤ as_u32 r)
unfolding atomic_alu
word_minu m r = ground arith

word_maxu :
    (m r : ℕ)
    → let hi = atomic_alu AtomicOp.maxu m r MemWidth.word in
      IsOneOf hi (sign_extended m) (sign_extended r)
      × (as_u32 m ≤ as_u32 hi)
      × (as_u32 r ≤ as_u32 hi)
unfolding atomic_alu
word_maxu m r = ground arith

as_i32-sign_extended : (x : ℕ) → as_i32 (sign_extended x) ≡ as_i32 x
as_i32-sign_extended x = ground arith

as_u32-sign_extended : (x : ℕ) → as_u32 (sign_extended x) ≡ as_u32 x
as_u32-sign_extended x = ground arith

double_extremes :
    (m r : ℕ)
    → m < 2 ^ 64
    → r < 2 ^ 64
    → let lo = atomic_alu AtomicOp.min m r MemWidth.double in
      let hi = atomic_alu AtomicOp.max m r MemWidth.double in
      let lo_u = atomic_alu AtomicOp.minu m r MemWidth.double in
      let hi_u = atomic_alu AtomicOp.maxu m r MemWidth.double in
      (IsOneOf lo m r × (as_i64 lo ≤ℤ as_i64 m) × (as_i64 lo ≤ℤ as_i64 r))
      × (IsOneOf hi m r × (as_i64 m ≤ℤ as_i64 hi) × (as_i64 r ≤ℤ as_i64 hi))
      × (IsOneOf lo_u m r × (lo_u ≤ m) × (lo_u ≤ r))
      × (IsOneOf hi_u m r × (m ≤ hi_u) × (r ≤ hi_u))
unfolding atomic_alu
double_extremes m r hm hr = ground arith

-- At 64 bits, for operands below 2 ^ 64, and at 32 bits, for the sign-extended low halves of any
-- operands: each of the four operations gives one of the two operands, and one that is at most, or
-- at least, as large as both of them in the signed or the unsigned order.
pub atomic_alu-Extremes :
    (m r : ℕ)
    → m < 2 ^ 64
    → r < 2 ^ 64
    → let at = λ (op : AtomicOp) (w : MemWidth). atomic_alu op m r w in
      let word = MemWidth.word in
      let double = MemWidth.double in
      Extremes as_i64
        (λ x. x)
        m
        r
        (at AtomicOp.min double)
        (at AtomicOp.max double)
        (at AtomicOp.minu double)
        (at AtomicOp.maxu double)
      × Extremes as_i32 as_u32
          (sign_extended m)
          (sign_extended r)
          (at AtomicOp.min word)
          (at AtomicOp.max word)
          (at AtomicOp.minu word)
          (at AtomicOp.maxu word)
atomic_alu-Extremes m r hm hr = (
  double_extremes m r hm hr,
  rw
      (
        as_i32-sign_extended m,
        as_i32-sign_extended r,
        as_u32-sign_extended m,
        as_u32-sign_extended r,
      )
      (word_min m r, word_max m r, word_minu m r, word_maxu m r),
)
