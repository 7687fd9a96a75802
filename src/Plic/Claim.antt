-- ===== src/Plic/Claim.antt =====
-- Claiming an interrupt.
use native.Mathlib.Decide.{dec_lt}
use rvsim.Base.{
  ℕ, zero, suc, ◌+◌, ◌-◌, ◌*◌, ◌/◌, ◌%◌, ◌^◌, ◌<◌, ◌≡◌, inl, inr, refl, sym, ap, ◌∙◌, Bool, true,
  false, arith, bit_and, length, min, get_or, set, get_or-set, if◌then◌else◌, ◌==◌, ==_iff,
  Bool-cases, List,
}
use rvsim.Base.Bits.{bit_of, bit_of-bit_and, bit_and-single_zero, passes_below, passes_below_at}
use rvsim.Plic.{Plic, enables_of, clear_pending, read_u32}
use rvsim.Plic.Best.{qualifies}

abbrev mask_bit : ℕ → ℕ → Bool
mask_bit b k = bit_of (2 ^ 32 - 1 - 2 ^ b) k == (if k == b then 0 else 1)

mask_table : passes_below (λ b. passes_below (mask_bit b) 32) 32 ≡ true
mask_table = refl

-- `w & !(1 << b)`
bit_of-cleared :
    (w b k : ℕ)
    → b < 32
    → k < 32
    → bit_of (bit_and w (2 ^ 32 - 1 - 2 ^ b)) k ≡ (if k == b then 0 else bit_of w k)
bit_of-cleared w b k hb hk =
    let m : bit_of (2 ^ 32 - 1 - 2 ^ b) k ≡ (if k == b then 0 else 1) = (==_iff _ _).0 (
      passes_below_at (mask_bit b) 32 k
        (passes_below_at (λ b. passes_below (mask_bit b) 32) 32 b mask_table hb) hk) in
    bit_of-bit_and k w (2 ^ 32 - 1 - 2 ^ b) ∙ ap (min (bit_of w k)) m ∙ ground arith

-- The bit of an interrupt that `qualifies` tests.
abbrev live : List ℕ → List ℕ → ℕ → Bool
live pending enables j =
    bit_and (bit_and (get_or pending (j / 32) 0) (get_or enables (j / 32) 0)) (2 ^ (j % 32)) == 0

live_bits :
    (pending enables : List ℕ) (j : ℕ)
    → live pending enables j ≡ (
        min
          (bit_of (get_or pending (j / 32) 0) (j % 32))
          (bit_of (get_or enables (j / 32) 0) (j % 32))
        == 0)
live_bits pending enables j =
    bit_and-single_zero (j % 32) (bit_and (get_or pending (j / 32) 0) (get_or enables (j / 32) 0))
    ∙ ap (λ t. t == 0)
        (bit_of-bit_and (j % 32) (get_or pending (j / 32) 0) (get_or enables (j / 32) 0))

abbrev cleared : List ℕ → ℕ → List ℕ
cleared pending id =
    set pending (id / 32) (bit_and (get_or pending (id / 32) 0) (2 ^ 32 - 1 - 2 ^ (id % 32)))

same_word :
    (pending enables : List ℕ) (id j : ℕ)
    → id / 32 ≡ j / 32
    → (min
          (if j % 32 == id % 32 then 0 else bit_of (get_or pending (j / 32) 0) (j % 32))
          (bit_of (get_or enables (j / 32) 0) (j % 32))
        == 0)
      ≡ (if j == id then true else live pending enables j)
same_word pending enables id j same = elim (Bool-cases (j == id)) [
  | inl e ↦
      let bits : (j % 32 == id % 32) ≡ true = ground arith in
      rw (e, bits, if◌then◌else◌) (ground arith)
  | inr e ↦
      let bits : (j % 32 == id % 32) ≡ false = ground arith in
      rw (e, bits, if◌then◌else◌) (sym (live_bits pending enables j))
]

live-cleared :
    (pending enables : List ℕ) (id j : ℕ)
    → id / 32 < length pending
    → live (cleared pending id) enables j ≡ (if j == id then true else live pending enables j)
live-cleared pending enables id j h =
    let word = bit_and (get_or pending (id / 32) 0) (2 ^ 32 - 1 - 2 ^ (id % 32)) in
    let read = get_or-set pending (id / 32) (j / 32) word 0 h in
    live_bits (cleared pending id) enables j ∙ elim (Bool-cases (id / 32 == j / 32)) [
      | inl e ↦
          let same : id / 32 ≡ j / 32 = (==_iff _ _).0 e in
          ap (λ t. min (bit_of t (j % 32)) (bit_of (get_or enables (j / 32) 0) (j % 32)) == 0)
            (read ∙ rw (e, if◌then◌else◌))
          ∙ ap (λ t. min t (bit_of (get_or enables (j / 32) 0) (j % 32)) == 0)
              (bit_of-cleared (get_or pending (id / 32) 0) (id % 32) (j % 32) (omega arith)
                  (omega arith)
                ∙ ap
                    (λ (w : ℕ).
                      if j % 32 == id % 32 then 0 else bit_of (get_or pending w 0) (j % 32))
                    same)
          ∙ same_word pending enables id j same
      | inr e ↦
          let apart : (j == id) ≡ false = ground arith in
          ap (λ t. min (bit_of t (j % 32)) (bit_of (get_or enables (j / 32) 0) (j % 32)) == 0)
            (read ∙ rw (e, if◌then◌else◌))
          ∙ sym (live_bits pending enables j)
          ∙ rw (apart, if◌then◌else◌)
    ]

-- The bitmap of pending interrupts has its 32 words.
abbrev pub IsSized : Plic → Type 0
IsSized p = length p.pending ≡ 32

clear_pending-qualifies :
    (p : Plic) (ctx id j : ℕ)
    → IsSized p
    → id < 1024
    → qualifies (clear_pending p id) ctx j ≡ (if j == id then false else qualifies p ctx j)
unfolding clear_pending
clear_pending-qualifies p ctx id j size h = elim (dec_lt 0 id) [
  | yes pos ↦ ground (arith, live-cleared p.pending (enables_of p ctx) id j (omega arith))
  | no z ↦ ground arith
]

read_claim :
    (p : Plic) (ctx : ℕ)
    → ctx < 2
    → read_u32 p (0x200000 + ctx * 0x1000 + 4)
      ≡ (get_or p.claims ctx 0, clear_pending p (get_or p.claims ctx 0))
unfolding read_u32
read_claim p zero h = refl
read_claim p (suc zero) h = refl
read_claim p (suc (suc n)) h = absurd (omega arith)

-- Reading the claim register of a context returns the number in its claim slot; the interrupt of
-- that number qualifies in no context any more, while every other one qualifies as before.
pub read_claim-qualifies :
    (p : Plic) (ctx other j : ℕ)
    → IsSized p
    → ctx < 2
    → get_or p.claims ctx 0 < 1024
    → let id = get_or p.claims ctx 0 in
      let (value, p') = read_u32 p (0x200000 + ctx * 0x1000 + 4) in
      (value ≡ id) × (qualifies p' other j ≡ (if j == id then false else qualifies p other j))
read_claim-qualifies p ctx other j size h low =
    rw (read_claim p ctx h)
      (refl, clear_pending-qualifies p other (get_or p.claims ctx 0) j size low)
