-- ===== src/StoreBuffer/Bytes.antt =====
-- A memory of bytes, little-endian reads and writes of it, and the bytes of one number that another
-- read takes out of it.
use native.Mathlib.Nat.{
  div-add-mod, mul-add-mod_self_left, mod-eq_of_lt, div-div-eq-div-mul, mod-lt, mod-one, pow-suc,
  mul_assoc, one-le-pow,
}
use rvsim.Base.{
  ℕ, zero, suc, ◌+◌, ◌-◌, ◌*◌, ◌/◌, ◌%◌, ◌^◌, ◌≤◌, ◌≡◌, ◌⊎◌, refl, sym, ap, ap₂, ◌∙◌, ◌&&◌, arith,
  ltb, leb, if◌then◌else◌,
}

abbrev pub Memory : Type 0
Memory = ℕ → ℕ

-- Byte `k` of a number.
abbrev pub byte_of : ℕ → ℕ → ℕ
byte_of data' k = (data' / 2 ^ (8 * k)) % 256

abbrev pub write_bytes : ℕ → ℕ → ℕ → Memory → Memory
write_bytes start n data' m a =
    if leb start a && ltb a (start + n) then byte_of data' (a - start) else m a

abbrev pub read_bytes : Memory → ℕ → ℕ → ℕ
read_bytes m a zero = 0
read_bytes m a (suc n) = m a + 256 * read_bytes m (a + 1) n

-- The lowest byte of a number modulo `256 * p`, and the rest.
mod_split : (x p : ℕ) → 1 ≤ p → x % (256 * p) ≡ x % 256 + 256 * ((x / 256) % p)
mod_split x p hp =
    let q = x / 256 in
    let c = 256 * (q % p) + x % 256 in
    let whole : x ≡ (256 * p) * (q / p) + c = omega (arith, div-add-mod q p) in
    ap (λ y. y % (256 * p)) whole
    ∙ mul-add-mod_self_left (256 * p) (q / p) c
    ∙ mod-eq_of_lt {n = c} {m = 256 * p} (omega (arith, mod-lt q {m = p}))
    ∙ omega arith

pow_eight : (k : ℕ) → 2 ^ (8 * (k + 1)) ≡ 2 ^ (8 * k) * 256
pow_eight k = ap (λ j. 2 ^ j) {x = 8 * (k + 1)} {y = 8 + 8 * k} (omega arith) ∙ times 8 (8 * k)
  where
    times : (n j : ℕ) → 2 ^ (n + j) ≡ 2 ^ j * 2 ^ n
    times zero j = ap (λ k. 2 ^ k) {x = 0 + j} {y = j} (omega arith) ∙ omega arith
    times (suc n) j =
        ap (λ k. 2 ^ k) {x = suc n + j} {y = suc (n + j)} (omega arith)
        ∙ pow-suc 2 (n + j)
        ∙ ap (λ x. x * 2) (times n j)
        ∙ mul_assoc (2 ^ j) (2 ^ n) 2
        ∙ ap (λ x. 2 ^ j * x) (sym (pow-suc 2 n))

shift_byte : (x s : ℕ) → x / 2 ^ (8 * (s + 1)) ≡ (x / 2 ^ (8 * s)) / 256
shift_byte x s = ap (λ p. x / p) (pow_eight s) ∙ sym (div-div-eq-div-mul x (2 ^ (8 * s)) 256)

-- A read inside a write returns a part of the number written.
pub read-write_covered :
    (n load start size data' : ℕ) (m : Memory)
    → start ≤ load
    → load + n ≤ start + size
    → read_bytes (write_bytes start size data' m) load n
      ≡ (data' / 2 ^ (8 * (load - start))) % 2 ^ (8 * n)
read-write_covered zero load start size data' m lo hi =
    sym (mod-one (data' / 2 ^ (8 * (load - start))))
read-write_covered (suc n) load start size data' m lo hi =
    let x = data' / 2 ^ (8 * (load - start)) in
    let first : write_bytes start size data' m load ≡ x % 256 = ground arith in
    let rest : read_bytes (write_bytes start size data' m) (load + 1) n ≡ (x / 256) % 2 ^ (8 * n) =
      read-write_covered n (load + 1) start size data' m (omega arith) (omega arith)
      ∙ ap (λ y. y % 2 ^ (8 * n))
          (ap (λ s. data' / 2 ^ (8 * s)) {x = load + 1 - start} {y = load - start + 1} (omega arith)
            ∙ shift_byte data' (load - start)) in
    ap₂ (λ a b. a + 256 * b) first rest
    ∙ sym (mod_split x (2 ^ (8 * n)) (one-le-pow (8 * n) 2 (omega arith)))
    ∙ ap (λ p. x % p) {x = 256 * 2 ^ (8 * n)} {y = 2 ^ (8 * suc n)}
        (omega (arith, pow_eight n) ∙ ap (λ k. 2 ^ (8 * k)) {x = n + 1} {y = suc n} (omega arith))

-- A read apart from a write does not see it.
pub read-write_apart :
    (n load start size data' : ℕ) (m : Memory)
    → (load + n ≤ start) ⊎ (start + size ≤ load)
    → read_bytes (write_bytes start size data' m) load n ≡ read_bytes m load n
read-write_apart zero load start size data' m apart = refl
read-write_apart (suc n) load start size data' m apart =
    let first : write_bytes start size data' m load ≡ m load = ground arith in
    ap₂ (λ a b. a + 256 * b) first (read-write_apart n (load + 1) start size data' m (ground arith))
