-- ===== src/Lsu/Ordering/Fences.antt =====
-- The ordering sets of FENCE as four-bit fields.
use rvsim.Base.{
  ℕ, ◌+◌, ◌*◌, ◌/◌, ◌%◌, ◌^◌, ◌<◌, ◌≡◌, refl, true, false, arith, bit_and, ◌==◌, ==_iff, ap, ap₂,
  ◌∙◌, Bool,
}
use rvsim.Base.Bits.{bit_and-mask, passes_below, passes_below_at}
use rvsim.Lsu.Ordering.{FenceSet, Fence, from_bits, to_bits, decode}

-- All sixteen sets.
four :
    (i o r w : Bool)
    → let s : FenceSet = record { i = i; o = o; r = r; w = w } in
      (from_bits (to_bits s) ≡ s) × (to_bits s < 16)
unfolding to_bits
four true true true true = (refl, omega arith)
four true true true false = (refl, omega arith)
four true true false true = (refl, omega arith)
four true true false false = (refl, omega arith)
four true false true true = (refl, omega arith)
four true false true false = (refl, omega arith)
four true false false true = (refl, omega arith)
four true false false false = (refl, omega arith)
four false true true true = (refl, omega arith)
four false true true false = (refl, omega arith)
four false true false true = (refl, omega arith)
four false true false false = (refl, omega arith)
four false false true true = (refl, omega arith)
four false false true false = (refl, omega arith)
four false false false true = (refl, omega arith)
four false false false false = (refl, omega arith)

from_bits-to_bits : (s : FenceSet) → from_bits (to_bits s) ≡ s
from_bits-to_bits s = (four s.i s.o s.r s.w).0

to_bits-lt : (s : FenceSet) → to_bits s < 16
to_bits-lt s = (four s.i s.o s.r s.w).1

to_bits-table : passes_below (λ x. to_bits (from_bits x) == x) 16 ≡ true
unfolding to_bits
to_bits-table = refl

to_bits-from_bits : (x : ℕ) → x < 16 → to_bits (from_bits x) ≡ x
to_bits-from_bits x h =
    (==_iff _ x).0 (passes_below_at (λ y. to_bits (from_bits y) == y) 16 x to_bits-table h)

-- An instruction with these sets in bits 27 to 20.
abbrev pub fence_word : ℕ → Fence → ℕ → ℕ
fence_word high f low = high * 2 ^ 28 + to_bits f.pred * 2 ^ 24 + to_bits f.succ * 2 ^ 20 + low

field : (x y : ℕ) (s : FenceSet) → y % 16 ≡ to_bits s → x ≡ y → from_bits (bit_and x 0xf) ≡ s
field x y s e p = ap from_bits (bit_and-mask 4 x ∙ omega arith) ∙ from_bits-to_bits s

-- The fields of an instruction, whatever its other bits are, decode to the two sets that were
-- encoded in them; and the sets that any word decodes to encode to its fields.
pub decode-fence_word :
    (high low inst : ℕ) (f : Fence)
    → low < 2 ^ 20
    → (decode (fence_word high f low) ≡ f)
      × (to_bits (decode inst).pred ≡ (inst / 2 ^ 24) % 16)
      × (to_bits (decode inst).succ ≡ (inst / 2 ^ 20) % 16)
unfolding decode
decode-fence_word high low inst f h =
    let word = fence_word high f low in
    let p = to_bits-lt f.pred in
    let s = to_bits-lt f.succ in
    (
      ap₂ (λ a b. record { pred = a; succ = b })
          (field (word / 2 ^ 24) (word / 2 ^ 24) f.pred (omega arith) refl)
          (field (word / 2 ^ 20) (word / 2 ^ 20) f.succ (omega arith) refl),
      ap (λ x. to_bits (from_bits x)) (bit_and-mask 4 (inst / 2 ^ 24))
          ∙ to_bits-from_bits ((inst / 2 ^ 24) % 16) (omega arith),
      ap (λ x. to_bits (from_bits x)) (bit_and-mask 4 (inst / 2 ^ 20))
          ∙ to_bits-from_bits ((inst / 2 ^ 20) % 16) (omega arith),
    )
