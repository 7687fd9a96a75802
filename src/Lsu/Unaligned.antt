-- ===== src/Lsu/Unaligned.antt =====
-- crates/hardware/src/core/units/lsu/unaligned.rs. The closures that reach single bytes of a memory
-- are functions on its state.
pub mod Split
pub mod Latency
use rvsim.Base.{
  ℕ, zero, suc, ◌+◌, ◌-◌, ◌*◌, ◌/◌, ◌%◌, ◌^◌, Bool, true, false, ◌||◌, bit_and, bit_or, leb,
  if◌then◌else◌, ◌==◌,
}

pub is_aligned : ℕ → ℕ → Bool
is_aligned addr size = if size == 0 || size == 1 then true else bit_and addr (size - 1) == 0

pub crosses_cache_line : ℕ → ℕ → ℕ → Bool
crosses_cache_line addr size cache_line_size =
    if size == 0
    then false
    else leb cache_line_size (bit_and addr (cache_line_size - 1) + (size - 1))

pub calculate_unaligned_latency : ℕ → ℕ → ℕ → ℕ
calculate_unaligned_latency addr size cache_line_size =
    if is_aligned addr size
    then 0
    else if crosses_cache_line addr size cache_line_size
    then 2
    else 1

module _ {ℓ} {S : Type ℓ} where
  -- `n` rounds from byte `i` on, with `result`; `addr + i` wraps around. The sizes that the source
  -- documents are 1, 2, 4 and 8, for which the shift by `i * 8` stays below 64; from 9 bytes on the
  -- source overflows in the shift, and here the value grows.
  pub load_loop : (ℕ → S → ℕ × S) → ℕ → ℕ → ℕ → ℕ → S → ℕ × S
  load_loop read_byte addr zero i result s = (result, s)
  load_loop read_byte addr (suc n) i result s =
      let (byte, s') = read_byte ((addr + i) % 2 ^ 64) s in
      load_loop read_byte addr n (i + 1) (bit_or result (byte * 2 ^ (i * 8))) s'

  pub split_load : (ℕ → S → ℕ × S) → ℕ → ℕ → S → ℕ × S
  split_load read_byte addr size s = load_loop read_byte addr size 0 0 s

  -- As above, for sizes up to 8 bytes.
  pub store_loop : (ℕ → ℕ → S → S) → ℕ → ℕ → ℕ → ℕ → S → S
  store_loop write_byte addr val zero i s = s
  store_loop write_byte addr val (suc n) i s =
      store_loop write_byte addr val n (i + 1)
        (write_byte ((addr + i) % 2 ^ 64) (bit_and (val / 2 ^ (i * 8)) 0xff) s)

  pub split_store : (ℕ → ℕ → S → S) → ℕ → ℕ → ℕ → S → S
  split_store write_byte addr size val s = store_loop write_byte addr val size 0 s
