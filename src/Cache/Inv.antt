-- ===== src/Cache/Inv.antt =====
-- The representation invariant of a cache, and where the addresses of its lines lie.
use native.Mathlib.Nat.{
  mul-pos, mul-lt-mul_of_pos_right, mul-add-div_right, mul-div_cancel_left, mul-add-mod_self_left,
  div-eq_of_lt, mod-eq_of_lt,
}
use rvsim.Base.{ℕ, ◌+◌, ◌*◌, ◌/◌, ◌%◌, ◌<◌, ◌≡◌, ap, ◌∙◌, true, length, arith}
use rvsim.Cache.{CacheSim, line_at, reconstruct_addr, set_index, tag_of}

-- The sizes fit, and no two ways of a set hold the same tag.
pub record IsCache {P F : Type 0} (c : CacheSim P F) : Type 0 where
  pub on : c.enabled ≡ true
  pub some_set : 0 < c.num_sets
  pub some_byte : 0 < c.line_bytes
  pub sized : length c.lines ≡ c.num_sets * c.ways
  pub distinct :
      (s i j : ℕ)
      → s < c.num_sets
      → i < c.ways
      → j < c.ways
      → (line_at c s i).valid ≡ true
      → (line_at c s j).valid ≡ true
      → (line_at c s i).tag ≡ (line_at c s j).tag
      → i ≡ j

module _ {P F : Type 0} (c : CacheSim P F) (s tag : ℕ) (lt : s < c.num_sets)
    (byte : 0 < c.line_bytes) where
  address : reconstruct_addr c s tag ≡ c.line_bytes * (c.num_sets * tag + s)
  unfolding reconstruct_addr
  address = grind arith

  -- The address that a line stands for has the set and the tag of the line.
  pub set_index-reconstruct_addr : set_index c (reconstruct_addr c s tag) ≡ s
  set_index-reconstruct_addr =
      ap (λ a. (a / c.line_bytes) % c.num_sets) address
      ∙ ap (λ q. q % c.num_sets) (mul-div_cancel_left (c.num_sets * tag + s) byte)
      ∙ mul-add-mod_self_left c.num_sets tag s
      ∙ mod-eq_of_lt lt

  pub tag_of-reconstruct_addr : tag_of c (reconstruct_addr c s tag) ≡ tag
  unfolding reconstruct_addr
  tag_of-reconstruct_addr =
      let size = c.line_bytes * c.num_sets in
      let within : s * c.line_bytes < size = omega (arith, mul-lt-mul_of_pos_right lt byte) in
      mul-add-div_right (mul-pos byte (omega arith)) tag (s * c.line_bytes)
      ∙ ap (λ q. tag + q) (div-eq_of_lt within)
      ∙ omega arith
