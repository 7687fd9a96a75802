-- ===== src/Pmp/Napot.antt =====
-- The regions that NAPOT addresses encode.
use rvsim.Base.{
  ℕ, zero, suc, ◌+◌, ◌-◌, ◌*◌, ◌/◌, ◌%◌, ◌^◌, ◌≤◌, ◌<◌, ◌≡◌, sym, ap, ap₂, ◌∙◌, arith, bit_and,
}
use native.Mathlib.Nat.{
  pow-suc, one-le-pow, mul-add-div, div-eq_of_lt, mod-eq_of_lt, lt_of_mul-lt-mul_right,
}
use rvsim.Base.Bits.{bit_and-field, pow_add}
use rvsim.Pmp.{trailing_ones, napot_range, byte_address}

-- The address register for the region of 2 ^ (k + 3) bytes at `base * 2 ^ (k + 3)`: the base, a 0,
-- and `k` ones.
abbrev pub napot_encode : ℕ → ℕ → ℕ
napot_encode k base = base * 2 ^ (k + 1) + (2 ^ k - 1)

pub encode_step : (k base : ℕ) → napot_encode (suc k) base ≡ 2 * napot_encode k base + 1
encode_step k base =
    let p : 2 ^ (suc k + 1) ≡ 2 * 2 ^ (k + 1) =
      ap (λ n. 2 ^ n) {x = suc k + 1} {y = suc (k + 1)} (omega arith)
      ∙ omega (arith, pow-suc 2 (k + 1)) in
    omega (arith, ap (λ (t : ℕ). base * t) p, pow-suc 2 k, one-le-pow k 2)

trailing_ones-encode : (n k base : ℕ) → k < n → trailing_ones n (napot_encode k base) ≡ k
unfolding trailing_ones
trailing_ones-encode zero k base h = elim h [ ]
trailing_ones-encode (suc n) zero base h = ground arith
trailing_ones-encode (suc n) (suc k) base h =
    let step = encode_step k base in
    let half : napot_encode (suc k) base / 2 ≡ napot_encode k base = omega (arith, step) in
    let odd : napot_encode (suc k) base % 2 ≡ 1 = omega (arith, step) in
    ground (arith, odd, ap (trailing_ones n) half ∙ trailing_ones-encode n k base (omega arith))

-- The four times smaller address that the register holds, times four.
byte_address-encode :
    (k base : ℕ)
    → base * 2 ^ (k + 3) + 2 ^ (k + 3) < 2 ^ 64
    → byte_address (napot_encode k base) ≡ 2 ^ (k + 3) * base + 4 * (2 ^ k - 1)
byte_address-encode k base h = omega (
  arith,
  ap (λ (t : ℕ). base * t) (pow_add k 3),
  ap (λ (t : ℕ). base * t) (pow_add k 1),
  pow_add k 3,
  pow_add k 1,
  one-le-pow k 2,
)

less_one : (h s : ℕ) → 1 ≤ h → (h - 1) * s + s ≡ h * s
less_one zero s p = absurd (omega arith)
less_one (suc h) s p = ap (λ (t : ℕ). t * s + s) {x = suc h - 1} {y = h} (omega arith) ∙ omega arith

masked :
    (k base : ℕ)
    → k + 3 < 64
    → base * 2 ^ (k + 3) + 2 ^ (k + 3) < 2 ^ 64
    → bit_and (byte_address (napot_encode k base)) (2 ^ 64 - 1 - (2 ^ (k + 3) - 1))
      ≡ base * 2 ^ (k + 3)
masked k base small h =
    let size = 2 ^ (k + 3) in
    let high = 2 ^ (61 - k) in
    let whole : high * size ≡ 2 ^ 64 =
      sym (
        ap (λ n. 2 ^ n) {x = 64} {y = 61 - k + (k + 3)} (omega arith) ∙ pow_add (61 - k) (k + 3)) in
    let mask : 2 ^ 64 - 1 - (size - 1) ≡ (high - 1) * size = omega (
      arith,
      whole,
      less_one high size (one-le-pow (61 - k) 2 (omega arith)),
      one-le-pow (k + 3) 2,
    ) in
    let fits : base < high =
      lt_of_mul-lt-mul_right size {m = base} {n = high} (omega (arith, whole)) in
    ap₂ bit_and (byte_address-encode k base h) mask
    ∙ bit_and-field (61 - k) (k + 3) (size * base + 4 * (2 ^ k - 1))
    ∙ ap (λ (t : ℕ). t % high * size)
        (mul-add-div {m = size} (one-le-pow (k + 3) 2 (omega arith)) base (4 * (2 ^ k - 1))
          ∙ ap (λ (t : ℕ). base + t)
              (div-eq_of_lt {n = 4 * (2 ^ k - 1)} {m = size}
                (omega (arith, pow_add k 3, one-le-pow k 2)))
          ∙ omega arith)
    ∙ ap (λ (t : ℕ). t * size) (mod-eq_of_lt {n = base} {m = high} fits)

-- The range read from an address register in NAPOT form is the aligned region of 2 ^ (k + 3) bytes
-- that it was encoded from, wherever the region ends below 2 ^ 64.
pub napot_range-encode :
    (k base : ℕ)
    → k + 3 < 64
    → base * 2 ^ (k + 3) + 2 ^ (k + 3) < 2 ^ 64
    → napot_range (napot_encode k base) ≡ (base * 2 ^ (k + 3), base * 2 ^ (k + 3) + 2 ^ (k + 3))
unfolding napot_range
napot_range-encode k base small h =
    rw (trailing_ones-encode 64 k base (omega arith), masked k base small h) (ground arith)
