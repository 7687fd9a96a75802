-- ===== src/Pmp/Match/Region.antt =====
-- The regions of the entries and what the bits of a configuration register permit.
use rvsim.Base.{
  ℕ, zero, suc, ◌+◌, ◌-◌, ◌*◌, ◌/◌, ◌%◌, ◌^◌, ◌≤◌, ◌<◌, ◌≡◌, ◌⊎◌, inl, inr, refl, sym, ap, ap₂, ◌∙◌,
  subst, true, false, not, arith, bit_and, ltb, if◌then◌else◌, ◌==◌, Bool-cases,
}
use native.Mathlib.Nat.{pow-suc, one-le-pow, pow-le-pow_right}
use rvsim.Base.Bits.{bit_and-field, bit_and-mask, pow_add}
use rvsim.Pmp.{
  PmpEntry, PmpAddrMatch, range_by, is_mode_off, off, tor, na4, napot, Access, match_mode, is_off,
  range_of, napot_range, na4_range,
}
use rvsim.Pmp.Napot.{napot_encode, encode_step, napot_range-encode}

-- Bits 3 and 4 of the configuration register.
abbrev pub mode : PmpEntry → ℕ
mode e = (e.cfg / 8) % 4

-- The bytes from `lo` on and before `hi` are the region of the entry: from the register before it
-- to its own (TOR), four bytes (NA4), or the aligned region that its register encodes (NAPOT).
abbrev pub IsRegion : ℕ → PmpEntry → ℕ → ℕ → Type 0
IsRegion previous e lo hi =
    ((mode e ≡ 1) × (lo ≡ 4 * previous) × (hi ≡ 4 * e.addr))
    ⊎ ((mode e ≡ 2) × (lo ≡ 4 * e.addr) × (hi ≡ 4 * e.addr + 4))
    ⊎ ((mode e ≡ 3)
        × (k : ℕ) × (base : ℕ) × (e.addr ≡ napot_encode k base)
        × (lo ≡ base * 2 ^ (k + 3))
        × (hi ≡ base * 2 ^ (k + 3) + 2 ^ (k + 3)))

-- All bytes of the access are in the region.
abbrev pub Covers : Access → ℕ → PmpEntry → Type 0
Covers a previous e =
    (lo : ℕ) × (hi : ℕ) × IsRegion previous e lo hi
    × (lo ≤ a.byte_addr)
    × (a.byte_addr + a.size ≤ hi)

-- Every number is an address that encodes a region.
encoded : (n x : ℕ) → x < 2 ^ n → (k : ℕ) × (base : ℕ) × (x ≡ napot_encode k base)
encoded zero x h = (0, 0, omega arith)
encoded (suc n) x h = elim (Bool-cases (x % 2 == 0)) [
  | inl even ↦ (0, x / 2, ground (arith, even))
  | inr odd ↦
      let half : x / 2 < 2 ^ n = omega (arith, h, pow-suc 2 n) in
      suc_encoded x odd (encoded n (x / 2) half)
]
  where
    suc_encoded :
        (y : ℕ)
        → (y % 2 == 0) ≡ false
        → (k : ℕ) × (base : ℕ) × (y / 2 ≡ napot_encode k base)
        → (k : ℕ) × (base : ℕ) × (y ≡ napot_encode k base)
    suc_encoded y odd (k, base, half) =
        let parity : y % 2 ≡ 1 = ground (arith, odd) in
        (suc k, base, (let step = encode_step k base in omega (arith, step, half, parity)))

small_power : (k : ℕ) → 2 ^ k ≤ 2 ^ 54 → k ≤ 54
small_power k h = elim (Bool-cases (ltb 54 k)) [
  | inl large ↦
      let above : 2 ^ 55 ≤ 2 ^ k =
        pow-le-pow_right {n = 2} (omega arith) {i = 55} {j = k} (ground (arith, large)) in
      absurd (omega (arith, above, h))
  | inr small ↦ ground (arith, small)
]

encode_fits :
    (k base : ℕ)
    → napot_encode k base < 2 ^ 54
    → (k + 3 < 64) × (base * 2 ^ (k + 3) + 2 ^ (k + 3) < 2 ^ 64)
encode_fits k base h =
    let small = small_power k (omega (arith, h, one-le-pow k 2)) in
    let eight : 2 ^ (k + 3) ≡ 2 ^ k * 8 = pow_add k 3 in
    let two : 2 ^ (k + 1) ≡ 2 ^ k * 2 = pow_add k 1 in
    let scaled : base * 2 ^ (k + 3) ≡ 4 * (base * 2 ^ (k + 1)) =
      omega (arith, ap (λ (t : ℕ). base * t) eight, ap (λ (t : ℕ). base * t) two) in
    (omega (arith, small), omega (arith, scaled, eight, h, one-le-pow k 2))

abbrev mode_of : ℕ → PmpAddrMatch
mode_of m = if m == 0 then off else if m == 1 then tor else if m == 2 then na4 else napot

match_mode-mode : (e : PmpEntry) → match_mode e ≡ mode_of (mode e)
match_mode-mode e =
    let field = bit_and-mask 2 (e.cfg / 2 ^ 3) in
    let twice = bit_and-mask 2 (bit_and (e.cfg / 2 ^ 3) 0x3) in
    let same : bit_and (bit_and (e.cfg / 2 ^ 3) 0x3) 0x3 ≡ mode e = omega (arith, field, twice) in
    ap mode_of same

range_of-by :
    (previous : ℕ) (e : PmpEntry) → range_of previous e ≡ range_by (match_mode e) previous e
unfolding range_of
range_of-by previous e = refl

range_in :
    (m : PmpAddrMatch) (previous : ℕ) (e : PmpEntry)
    → mode_of (mode e) ≡ m
    → range_of previous e ≡ range_by m previous e
range_in m previous e h =
    range_of-by previous e ∙ ap (λ x. range_by x previous e) (match_mode-mode e ∙ h)

off_in : (m : PmpAddrMatch) (e : PmpEntry) → mode_of (mode e) ≡ m → is_off e ≡ is_mode_off m
off_in m e h = ap is_mode_off (match_mode-mode e ∙ h)

mode-cases : (e : PmpEntry) → (mode e ≡ 0) ⊎ (mode e ≡ 1) ⊎ (mode e ≡ 2) ⊎ (mode e ≡ 3)
mode-cases e = four (mode e) (omega arith)
  where
    four : (m : ℕ) → m < 4 → (m ≡ 0) ⊎ (m ≡ 1) ⊎ (m ≡ 2) ⊎ (m ≡ 3)
    four zero h = inl refl
    four (suc zero) h = inr (inl refl)
    four (suc (suc zero)) h = inr (inr (inl refl))
    four (suc (suc (suc n))) h = inr (inr (inr (omega arith)))

-- The range that the code computes is the region, and the only one.
pub region_range :
    (previous : ℕ) (e : PmpEntry) (lo hi : ℕ)
    → previous < 2 ^ 54
    → e.addr < 2 ^ 54
    → IsRegion previous e lo hi
    → (is_off e ≡ false) × (range_of previous e ≡ (lo, hi))
unfolding na4_range
region_range previous e lo hi hp he (inl (m, l, u)) =
    let is_tor = ap mode_of m in
    (
      off_in tor e is_tor,
      range_in tor previous e is_tor ∙ ap₂ (λ x y. (x, y)) (omega arith) (omega arith),
    )
region_range previous e lo hi hp he (inr (inl (m, l, u))) =
    let is_na4 = ap mode_of m in
    (
      off_in na4 e is_na4,
      range_in na4 previous e is_na4 ∙ ap₂ (λ x y. (x, y)) (omega arith) (omega arith),
    )
region_range previous e lo hi hp he (inr (inr (m, k, base, code, l, u))) =
    let is_napot = ap mode_of m in
    let fits = encode_fits k base (subst (λ x. x < 2 ^ 54) code he) in
    (
      off_in napot e is_napot,
      range_in napot previous e is_napot
          ∙ ap napot_range code
          ∙ napot_range-encode k base fits.0 fits.1
          ∙ ap₂ (λ x y. (x, y)) (sym l) (sym u),
    )

pub region :
    (previous : ℕ) (e : PmpEntry)
    → e.addr < 2 ^ 54
    → (is_off e ≡ true) ⊎ ((lo : ℕ) × (hi : ℕ) × IsRegion previous e lo hi)
region previous e he = elim (mode-cases e) [
  | inl m ↦ inl (off_in off e (ap mode_of m))
  | inr (inl m) ↦ inr (4 * previous, 4 * e.addr, inl (m, refl, refl))
  | inr (inr (inl m)) ↦ inr (4 * e.addr, 4 * e.addr + 4, inr (inl (m, refl, refl)))
  | inr (inr (inr m)) ↦
      let (k, base, code) = encoded 54 e.addr he in
      inr (
        base * 2 ^ (k + 3),
        base * 2 ^ (k + 3) + 2 ^ (k + 3),
        inr (inr (m, k, base, code, refl, refl)),
      )
]

non_zero : (f p : ℕ) → f < 2 → 1 ≤ p → not (f * p == 0) ≡ (f == 1)
non_zero zero p h q = ground arith
non_zero (suc zero) p h q = ground arith
non_zero (suc (suc f)) p h q = absurd (omega arith)

-- The test of one bit.
pub bit : (k x : ℕ) → not (bit_and x ((2 ^ 1 - 1) * 2 ^ k) == 0) ≡ ((x / 2 ^ k) % 2 == 1)
bit k x =
    ap (λ y. not (y == 0)) (bit_and-field 1 k x)
    ∙ non_zero ((x / 2 ^ k) % 2) (2 ^ k) (omega arith) (one-le-pow k 2 (omega arith))
