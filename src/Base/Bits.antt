-- ===== src/Base/Bits.antt =====
-- Masks, single bits and disjoint fields in terms of quotients and remainders by powers of two.
use Prim.Native.Nat.{
  ℕ, zero, suc, ◌+◌, ◌-◌, ◌*◌, ◌/◌, ◌%◌, ◌^◌, ◌≤◌, ◌<◌, min, max, bit_and, bit_or, digits,
  bit_and-bitwise, bit_or-bitwise,
}
use mathlib.Core.Path.{◌≡◌, refl, ap, ap₂, subst, sym, ◌∙◌}
use mathlib.Core.Bool.{Bool, true, ◌&&◌}
use native.Mathlib.Decide.{dec_lt}
use native.Mathlib.Omega.{arith}
use rvsim.Base.Tests.{◌==◌}
use native.Mathlib.Nat.{
  pow-suc, one-le-pow, div-add-mod, mul-add-mod_self_left, mod-eq_of_lt, mod-lt, mul_comm,
  div-div-eq-div-mul,
}

-- With enough rounds their number does not matter.
module _ (z : ℕ → ℕ) (f : ℕ → ℕ → ℕ) where
  enough_digits : (m n a b : ℕ) → a ≤ m → a ≤ n → digits z f m a b ≡ digits z f n a b
  enough_digits zero zero a b p q = refl
  enough_digits zero (suc n) zero b p q = refl
  enough_digits zero (suc n) (suc a) b p q = absurd (omega arith)
  enough_digits (suc m) zero zero b p q = refl
  enough_digits (suc m) zero (suc a) b p q = absurd (omega arith)
  enough_digits (suc m) (suc n) zero b p q = refl
  enough_digits (suc m) (suc n) (suc a) b p q =
      omega (arith, enough_digits m n (suc a / 2) (b / 2) (omega arith) (omega arith))

-- The lowest digit.
pub bit_and_step : (a b : ℕ) → bit_and a b ≡ bit_and (a / 2) (b / 2) * 2 + min (a % 2) (b % 2)
bit_and_step zero b = omega (arith, bit_and-bitwise 0 b, bit_and-bitwise 0 (b / 2))
bit_and_step (suc a) b = omega (
  arith,
  bit_and-bitwise (suc a) b,
  bit_and-bitwise (suc a / 2) (b / 2),
  enough_digits (λ b. zero) min a (suc a / 2) (suc a / 2) (b / 2) (omega arith) (omega arith),
)

pub bit_or_step : (a b : ℕ) → bit_or a b ≡ bit_or (a / 2) (b / 2) * 2 + max (a % 2) (b % 2)
bit_or_step zero b = omega (arith, bit_or-bitwise 0 b, bit_or-bitwise 0 (b / 2))
bit_or_step (suc a) b = omega (
  arith,
  bit_or-bitwise (suc a) b,
  bit_or-bitwise (suc a / 2) (b / 2),
  enough_digits (λ b. b) max a (suc a / 2) (suc a / 2) (b / 2) (omega arith) (omega arith),
)

pub zero-bit_or : (b : ℕ) → bit_or 0 b ≡ b
zero-bit_or b = bit_or-bitwise 0 b

pub zero-bit_and : (b : ℕ) → bit_and 0 b ≡ 0
zero-bit_and b = bit_and-bitwise 0 b

bit_and-zero_upto : (n a : ℕ) → a ≤ n → bit_and a 0 ≡ 0
bit_and-zero_upto n zero h = refl
bit_and-zero_upto zero (suc a) h = absurd (omega arith)
bit_and-zero_upto (suc n) (suc a) h =
    omega (arith, bit_and_step (suc a) 0, bit_and-zero_upto n (suc a / 2) (omega arith))

pub bit_and-zero : (a : ℕ) → bit_and a 0 ≡ 0
bit_and-zero a = bit_and-zero_upto a a (omega arith)

-- `r | (q << k)`, where `r` has `k` bits.
pub bit_or-shifted : (k q r : ℕ) → r < 2 ^ k → bit_or r (q * 2 ^ k) ≡ r + q * 2 ^ k
bit_or-shifted zero q r fits =
    let none : r ≡ 0 = omega arith in rw none (omega (arith, zero-bit_or (q * 2 ^ 0)))
bit_or-shifted (suc k) q r fits =
    let double : q * 2 ^ suc k ≡ 2 * (q * 2 ^ k) =
      omega (arith, ap (λ (t : ℕ). q * t) (pow-suc 2 k)) in
    ground (
      arith,
      bit_or_step r (q * 2 ^ suc k),
      double,
      bit_or-shifted k q (r / 2) (omega (arith, pow-suc 2 k)),
    )

pub mod_double : (x p : ℕ) → 1 ≤ p → x % (2 * p) ≡ x % 2 + 2 * ((x / 2) % p)
mod_double x p hp =
    let q = x / 2 in
    let c = 2 * (q % p) + x % 2 in
    let whole : x ≡ (2 * p) * (q / p) + c = omega (arith, div-add-mod q p) in
    ap (λ y. y % (2 * p)) whole
    ∙ mul-add-mod_self_left (2 * p) (q / p) c
    ∙ mod-eq_of_lt {n = c} {m = 2 * p} (omega (arith, mod-lt q {m = p}))
    ∙ omega arith

-- `a & ((1 << k) - 1)`
pub bit_and-mask : (k a : ℕ) → bit_and a (2 ^ k - 1) ≡ a % 2 ^ k
bit_and-mask zero a = omega (arith, bit_and-zero a)
bit_and-mask (suc k) a =
    let half : (2 ^ suc k - 1) / 2 ≡ 2 ^ k - 1 = omega (arith, pow-suc 2 k, one-le-pow k 2) in
    omega (
      arith,
      bit_and_step a (2 ^ suc k - 1),
      ap (bit_and (a / 2)) half,
      bit_and-mask k (a / 2),
      mod_double a (2 ^ k) (one-le-pow k 2 (omega arith)),
      ap (λ (t : ℕ). a % t) (pow-suc 2 k ∙ mul_comm (2 ^ k) 2),
      pow-suc 2 k,
      one-le-pow k 2,
    )

-- `a & (1 << k)`
pub bit_and-single : (k a : ℕ) → bit_and a (2 ^ k) ≡ ((a / 2 ^ k) % 2) * 2 ^ k
bit_and-single zero a = omega (arith, bit_and_step a 1, bit_and-zero (a / 2))
bit_and-single (suc k) a =
    let half : 2 ^ suc k / 2 ≡ 2 ^ k = omega (arith, pow-suc 2 k) in
    let same : a / 2 ^ suc k ≡ a / 2 / 2 ^ k =
      ap (λ (t : ℕ). a / t) (pow-suc 2 k ∙ mul_comm (2 ^ k) 2)
      ∙ sym (div-div-eq-div-mul a 2 (2 ^ k)) in
    omega (
      arith,
      bit_and_step a (2 ^ suc k),
      ap (bit_and (a / 2)) half,
      bit_and-single k (a / 2),
      ap (λ (t : ℕ). t % 2 * 2 ^ suc k) same,
      ap (λ (t : ℕ). (a / 2 / 2 ^ k) % 2 * t) (pow-suc 2 k),
      pow-suc 2 k,
    )

-- A test that passes at every number below `n`.
abbrev pub passes_below : (ℕ → Bool) → ℕ → Bool
passes_below test zero = true
passes_below test (suc n) = passes_below test n && test n

pub passes_below_at :
    (test : ℕ → Bool) (n x : ℕ) → passes_below test n ≡ true → x < n → test x ≡ true
passes_below_at test zero x h lt = absurd (omega arith)
passes_below_at test (suc n) x h lt = elim (dec_lt x n) [
  | yes p ↦ passes_below_at test n x (ground arith) p
  | no p ↦ subst (λ y. test y ≡ true) {x = n} {y = x} (omega arith) (ground arith)
]

bit_or-zero_upto : (n a : ℕ) → a ≤ n → bit_or a 0 ≡ a
bit_or-zero_upto n zero h = refl
bit_or-zero_upto zero (suc a) h = absurd (omega arith)
bit_or-zero_upto (suc n) (suc a) h =
    omega (arith, bit_or_step (suc a) 0, bit_or-zero_upto n (suc a / 2) (omega arith))

pub bit_or-zero : (a : ℕ) → bit_or a 0 ≡ a
bit_or-zero a = bit_or-zero_upto a a (omega arith)

-- `(q << k) | r`, where `r` has `k` bits.
pub shifted-bit_or : (k q r : ℕ) → r < 2 ^ k → bit_or (q * 2 ^ k) r ≡ q * 2 ^ k + r
shifted-bit_or zero q r fits =
    let none : r ≡ 0 = omega arith in rw none (omega (arith, bit_or-zero (q * 2 ^ 0)))
shifted-bit_or (suc k) q r fits =
    let double : q * 2 ^ suc k ≡ 2 * (q * 2 ^ k) =
      omega (arith, ap (λ (t : ℕ). q * t) (pow-suc 2 k)) in
    ground (
      arith,
      bit_or_step (q * 2 ^ suc k) r,
      double,
      shifted-bit_or k q (r / 2) (omega (arith, pow-suc 2 k)),
    )

-- `a & (ones << k)`, for `j` ones.
pub bit_and-field : (j k a : ℕ) → bit_and a ((2 ^ j - 1) * 2 ^ k) ≡ ((a / 2 ^ k) % 2 ^ j) * 2 ^ k
bit_and-field j zero a = omega (
  arith,
  bit_and-mask j a,
  ap (bit_and a) {x = (2 ^ j - 1) * 2 ^ 0} {y = 2 ^ j - 1} (omega arith),
  ap (λ (t : ℕ). t % 2 ^ j) {x = a / 2 ^ 0} {y = a} (omega arith),
)
bit_and-field j (suc k) a =
    let ones = 2 ^ j - 1 in
    let double : ones * 2 ^ suc k ≡ 2 * (ones * 2 ^ k) =
      omega (arith, ap (λ (t : ℕ). ones * t) (pow-suc 2 k)) in
    let half : (ones * 2 ^ suc k) / 2 ≡ ones * 2 ^ k = omega (arith, double) in
    let same : a / 2 ^ suc k ≡ a / 2 / 2 ^ k =
      ap (λ (t : ℕ). a / t) (pow-suc 2 k ∙ mul_comm (2 ^ k) 2)
      ∙ sym (div-div-eq-div-mul a 2 (2 ^ k)) in
    omega (
      arith,
      bit_and_step a (ones * 2 ^ suc k),
      double,
      ap (bit_and (a / 2)) half,
      bit_and-field j k (a / 2),
      ap (λ (t : ℕ). t % 2 ^ j * 2 ^ suc k) same,
      ap (λ (t : ℕ). (a / 2 / 2 ^ k) % 2 ^ j * t) (pow-suc 2 k),
    )

pub pow_add : (m n : ℕ) → 2 ^ (m + n) ≡ 2 ^ m * 2 ^ n
pow_add zero n = ap (λ k. 2 ^ k) {x = 0 + n} {y = n} (omega arith) ∙ omega arith
pow_add (suc m) n =
    ap (λ k. 2 ^ k) {x = suc m + n} {y = suc (m + n)} (omega arith)
    ∙ omega (
      arith,
      pow-suc 2 (m + n),
      ap (λ (t : ℕ). 2 * t) (pow_add m n),
      ap (λ (t : ℕ). t * 2 ^ n) (pow-suc 2 m),
    )

-- Bit `k` of a number.
abbrev pub bit_of : ℕ → ℕ → ℕ
bit_of a k = (a / 2 ^ k) % 2

bit_of-suc : (a k : ℕ) → bit_of a (suc k) ≡ bit_of (a / 2) k
bit_of-suc a k =
    ap (λ (t : ℕ). t % 2)
      (ap (λ (t : ℕ). a / t) (pow-suc 2 k ∙ mul_comm (2 ^ k) 2)
        ∙ sym (div-div-eq-div-mul a 2 (2 ^ k)))

pub bit_of-bit_and : (k a b : ℕ) → bit_of (bit_and a b) k ≡ min (bit_of a k) (bit_of b k)
bit_of-bit_and zero a b = omega (arith, bit_and_step a b)
bit_of-bit_and (suc k) a b =
    bit_of-suc (bit_and a b) k
    ∙ ap (λ (t : ℕ). bit_of t k) {x = bit_and a b / 2} {y = bit_and (a / 2) (b / 2)}
        (omega (arith, bit_and_step a b))
    ∙ bit_of-bit_and k (a / 2) (b / 2)
    ∙ ap₂ min (sym (bit_of-suc a k)) (sym (bit_of-suc b k))

-- `a & (1 << k) != 0`
pub bit_and-single_zero : (k a : ℕ) → (bit_and a (2 ^ k) == 0) ≡ (bit_of a k == 0)
bit_and-single_zero k a = elim (dec_lt (bit_of a k) 1) [
  | yes z ↦
      let none : bit_of a k ≡ 0 = omega arith in
      let gone : bit_and a (2 ^ k) ≡ 0 =
        bit_and-single k a ∙ ap (λ (t : ℕ). t * 2 ^ k) none ∙ omega arith in
      rw (none, gone)
  | no o ↦
      let one : bit_of a k ≡ 1 = omega arith in
      let there : bit_and a (2 ^ k) ≡ 2 ^ k =
        bit_and-single k a ∙ ap (λ (t : ℕ). t * 2 ^ k) one ∙ omega arith in
      rw (one, there) (ground (arith, one-le-pow k 2))
]

pub bit_and-le : (n a b : ℕ) → b ≤ n → bit_and a b ≤ b
bit_and-le zero a b h = omega (arith, bit_and-zero a, ap (bit_and a) {x = b} {y = 0} (omega arith))
bit_and-le (suc n) a b h =
    omega (arith, bit_and_step a b, bit_and-le n (a / 2) (b / 2) (omega arith))
