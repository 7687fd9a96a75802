-- ===== src/Lsu/Unaligned/Latency.antt =====
-- What an unaligned access costs, in terms of the cache lines that it touches.
use native.Mathlib.Nat.{
  one-le-pow, pow-suc, pow-le-pow_right, div-eq-sub-div, div-add-mod, mod-lt, mul-add-div,
  div-eq_of_lt,
}
use rvsim.Base.{
  ℕ, zero, suc, ◌+◌, ◌-◌, ◌*◌, ◌/◌, ◌%◌, ◌^◌, ◌≤◌, ◌≡◌, ◌≢◌, ◌⊎◌, inl, inr, ap, ◌∙◌, arith, leb,
  if◌then◌else◌, ◌==◌, Bool-cases,
}
use rvsim.Base.Bits.{bit_and-mask}
use rvsim.Lsu.Unaligned.{is_aligned, crosses_cache_line, calculate_unaligned_latency}

pub is_aligned-mod : (k addr : ℕ) → is_aligned addr (2 ^ k) ≡ (addr % 2 ^ k == 0)
unfolding is_aligned
is_aligned-mod zero addr = ground arith
is_aligned-mod (suc k) addr =
    rw (bit_and-mask (suc k) addr) (ground (arith, pow-suc 2 k, one-le-pow k 2))

crosses-mod :
    (l addr size : ℕ)
    → 1 ≤ size
    → crosses_cache_line addr size (2 ^ l) ≡ leb (2 ^ l) (addr % 2 ^ l + (size - 1))
unfolding crosses_cache_line
crosses-mod l addr size h = rw (bit_and-mask l addr) (ground arith)

-- The line of the last byte.
last_line :
    (p addr size : ℕ)
    → 1 ≤ p
    → 1 ≤ size
    → size ≤ p
    → (addr + size - 1) / p ≡ addr / p + (if leb p (addr % p + (size - 1)) then 1 else 0)
last_line p addr size hp hs hl =
    let r = addr % p + (size - 1) in
    ap (λ t. t / p) {x = addr + size - 1} {y = p * (addr / p) + r}
      (omega (arith, div-add-mod addr p))
    ∙ mul-add-div hp (addr / p) r
    ∙ ap (λ t. addr / p + t)
        (elim (Bool-cases (leb p r)) [
          | inl over ↦ rw over (
              div-eq-sub-div {m = p} {n = r} hp (ground arith)
              ∙ ap (λ t. t + 1)
                  (div-eq_of_lt {n = r - p} {m = p} (omega (arith, mod-lt addr {m = p}))))
          | inr within ↦ rw within (div-eq_of_lt {n = r} {m = p} (ground arith))
        ])

-- For a size that is a power of two and no longer than a line: an access costs nothing where its
-- address is a multiple of its size, one cycle where it is not and its first and last byte lie in
-- the same line, and two where they lie in different lines.
pub calculate_unaligned_latency-lines :
    (k l addr : ℕ)
    → k ≤ l
    → let size = 2 ^ k in
      let line = 2 ^ l in
      let cycles = calculate_unaligned_latency addr size line in
      ((addr % size ≡ 0) × (cycles ≡ 0))
      ⊎ ((addr % size ≢ 0) × (addr / line ≡ (addr + size - 1) / line) × (cycles ≡ 1))
      ⊎ ((addr % size ≢ 0) × (addr / line ≢ (addr + size - 1) / line) × (cycles ≡ 2))
unfolding calculate_unaligned_latency
calculate_unaligned_latency-lines k l addr h =
    let last =
      last_line (2 ^ l) addr (2 ^ k) (one-le-pow l 2 (omega arith)) (one-le-pow k 2 (omega arith))
        (pow-le-pow_right {n = 2} (omega arith) {i = k} {j = l} h) in
    rw (is_aligned-mod k addr, crosses-mod l addr (2 ^ k) (one-le-pow k 2 (omega arith)))
      (ground arith)
