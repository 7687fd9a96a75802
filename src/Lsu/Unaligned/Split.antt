-- ===== src/Lsu/Unaligned/Split.antt =====
-- Split accesses against whole reads and writes of a byte memory, and the cost of unaligned ones.
use native.Mathlib.Numerals.{towards_suc}
use rvsim.Base.{
  ℕ, zero, suc, ◌+◌, ◌-◌, ◌*◌, ◌/◌, ◌%◌, ◌^◌, ◌≤◌, ◌<◌, ◌≡◌, inl, inr, refl, ap, fun_ext, ◌∙◌, ◌&&◌,
  arith, ltb, leb, if◌then◌else◌, ◌==◌, ==_iff, bit_and, bit_or, Bool-cases,
}
use rvsim.Base.Bits.{bit_or-shifted, bit_and-mask}
use rvsim.StoreBuffer.Bytes.{Memory, byte_of, write_bytes, read_bytes, read-write_covered}
use rvsim.Lsu.Unaligned.{load_loop, split_load, store_loop, split_store}

-- One byte of a memory.
abbrev pub peek : ℕ → Memory → ℕ × Memory
peek a m = (m a, m)

abbrev pub poke : ℕ → ℕ → Memory → Memory
poke a v m x = if x == a then v else m x

abbrev pub IsBytes : Memory → Type 0
IsBytes m = (a : ℕ) → m a < 256

pow_eight : (i : ℕ) → 2 ^ ((i + 1) * 8) ≡ 256 * 2 ^ (i * 8)
pow_eight i =
    ap (λ k. 2 ^ k) {x = (i + 1) * 8} {y = i * 8 + 8} (omega arith) ∙ simp towards_suc (omega arith)

one_byte : (b p : ℕ) → b < 256 → b * p + p ≤ 256 * p
one_byte b p h = grind arith

load_loop-read_bytes :
    (n addr i result : ℕ) (m : Memory)
    → IsBytes m
    → addr + i + n ≤ 2 ^ 64
    → result < 2 ^ (i * 8)
    → load_loop peek addr n i result m ≡ (result + read_bytes m (addr + i) n * 2 ^ (i * 8), m)
unfolding load_loop
load_loop-read_bytes zero addr i result m bytes room small = ap (λ t. (t, m)) (omega arith)
load_loop-read_bytes (suc n) addr i result m bytes room small =
    let b = m (addr + i) in
    let joined = bit_or-shifted (i * 8) b result small in
    let power = pow_eight i in
    ap (λ a. load_loop peek addr n (i + 1) (bit_or result (m a * 2 ^ (i * 8))) m)
      {x = (addr + i) % 2 ^ 64} {y = addr + i} (omega arith)
    ∙ ap (λ t. load_loop peek addr n (i + 1) t m) joined
    ∙ load_loop-read_bytes n addr (i + 1) (result + b * 2 ^ (i * 8)) m bytes (omega arith)
        (omega (arith, power, one_byte b (2 ^ (i * 8)) (bytes (addr + i))))
    ∙ ap (λ t. (t, m))
        (omega (
          arith,
          ap (λ a. read_bytes m a n * 2 ^ ((i + 1) * 8)) {x = addr + (i + 1)} {y = addr + i + 1}
              (omega arith),
          ap (λ t. read_bytes m (addr + i + 1) n * t) power,
        ))

store_loop-write_bytes :
    (n addr i val : ℕ) (m : Memory) (x : ℕ)
    → addr + i + n ≤ 2 ^ 64
    → store_loop poke addr val n i m x
      ≡ (if leb (addr + i) x && ltb x (addr + i + n) then byte_of val (x - addr) else m x)
unfolding store_loop
store_loop-write_bytes zero addr i val m x room = ground arith
store_loop-write_bytes (suc n) addr i val m x room =
    let byte = bit_and-mask 8 (val / 2 ^ (i * 8)) in
    store_loop-write_bytes n addr (i + 1) val
      (poke ((addr + i) % 2 ^ 64) (bit_and (val / 2 ^ (i * 8)) 0xff) m) x (omega arith)
    ∙ elim (Bool-cases (x == (addr + i) % 2 ^ 64)) [
      | inl e ↦
          let here : x ≡ addr + i = omega (arith, (==_iff x _).0 e) in
          let same : (val / 2 ^ (i * 8)) % 256 ≡ byte_of val (x - addr) =
            ap (λ k. (val / 2 ^ k) % 256) {x = i * 8} {y = 8 * (x - addr)} (omega arith) in
          ground arith
      | inr e ↦ ground arith
    ]

split_load-read_bytes :
    (addr n : ℕ) (m : Memory)
    → IsBytes m
    → addr + n ≤ 2 ^ 64
    → split_load peek addr n m ≡ (read_bytes m addr n, m)
unfolding split_load
split_load-read_bytes addr n m bytes room =
    load_loop-read_bytes n addr 0 0 m bytes (omega arith) (omega arith)
    ∙ ap (λ t. (t, m))
        (omega (arith, ap (λ a. read_bytes m a n) {x = addr + 0} {y = addr} (omega arith)))

split_store-write_bytes :
    (addr n val : ℕ) (m : Memory)
    → addr + n ≤ 2 ^ 64
    → split_store poke addr n val m ≡ write_bytes addr n val m
unfolding split_store
split_store-write_bytes addr n val m room =
    fun_ext λ x. store_loop-write_bytes n addr 0 val m x (omega arith) ∙ ground arith

write_bytes-IsBytes : (addr n val : ℕ) (m : Memory) → IsBytes m → IsBytes (write_bytes addr n val m)
write_bytes-IsBytes addr n val m bytes a = ground (arith, bytes a)

-- On a byte memory, where the access does not leave 64 bits: a split load after a split store of the
-- same size gives the low bytes of the value stored; the store writes the bytes of the value in
-- little-endian order into its range, and changes no other byte.
pub split_load-split_store :
    (addr n val a : ℕ) (m : Memory)
    → IsBytes m
    → addr + n ≤ 2 ^ 64
    → let m' = split_store poke addr n val m in
      ((split_load peek addr n m').0 ≡ val % 2 ^ (8 * n))
      × (m' a ≡ (if leb addr a && ltb a (addr + n) then byte_of val (a - addr) else m a))
split_load-split_store addr n val a m bytes room = rw (split_store-write_bytes addr n val m room) (
  ap (λ t. t.0)
        (split_load-read_bytes addr n (write_bytes addr n val m)
          (write_bytes-IsBytes addr n val m bytes) room)
      ∙ read-write_covered n addr addr n val m (omega arith) (omega arith)
      ∙ ap (λ k. (val / 2 ^ (8 * k)) % 2 ^ (8 * n)) {x = addr - addr} {y = 0} (omega arith)
      ∙ ap (λ t. t % 2 ^ (8 * n)) {x = val / 2 ^ (8 * 0)} {y = val} (omega arith),
  refl,
)
