-- ===== src/Isa/Decode/Formats.antt =====
-- The decoder against the five formats of the RISC-V manual that carry an immediate.
use rvsim.Base.{ℕ, ◌+◌, ◌*◌, ◌/◌, ◌%◌, ◌^◌, ◌≤◌, ◌<◌, ◌≡◌, sym, ap, ◌∙◌, arith, bit_and, bit_or}
use rvsim.Base.Bits.{bit_and-mask, shifted-bit_or, bit_and-field}
use rvsim.Base.Int.{ℤ, pos, negsuc, pos_part, neg_part}
use rvsim.Alu.Casts.{to_u64}
use rvsim.Isa.Decode.{
  sign_extend, decode_i_type_imm, decode_s_type_imm, decode_b_type_imm, decode_j_type_imm,
  decode_u_type_imm,
}

-- The lowest `k` bits of an integer, in two's complement.
abbrev pub low_bits : ℕ → ℤ → ℕ
low_bits k z = to_u64 z % 2 ^ k

-- What fits `k + 1` bits.
abbrev pub Fits : ℕ → ℤ → Type 0
Fits k z = (pos_part z < 2 ^ k) × (neg_part z ≤ 2 ^ k)

abbrev pub word_i : (op rd funct3 rs1 : ℕ) → ℤ → ℕ
word_i op rd funct3 rs1 imm =
    op + rd * 2 ^ 7 + funct3 * 2 ^ 12 + rs1 * 2 ^ 15 + low_bits 12 imm * 2 ^ 20

abbrev pub word_s : (op funct3 rs1 rs2 : ℕ) → ℤ → ℕ
word_s op funct3 rs1 rs2 imm =
    op
    + (low_bits 12 imm % 2 ^ 5) * 2 ^ 7
    + funct3 * 2 ^ 12
    + rs1 * 2 ^ 15
    + rs2 * 2 ^ 20
    + (low_bits 12 imm / 2 ^ 5) * 2 ^ 25

-- Bits 12, 10 to 5, 4 to 1 and 11 of an even offset.
abbrev pub word_b : (op funct3 rs1 rs2 : ℕ) → ℤ → ℕ
word_b op funct3 rs1 rs2 imm =
    let bits = low_bits 13 imm in
    op
    + ((bits / 2 ^ 11) % 2) * 2 ^ 7
    + ((bits / 2) % 2 ^ 4) * 2 ^ 8
    + funct3 * 2 ^ 12
    + rs1 * 2 ^ 15
    + rs2 * 2 ^ 20
    + ((bits / 2 ^ 5) % 2 ^ 6) * 2 ^ 25
    + (bits / 2 ^ 12) * 2 ^ 31

abbrev pub word_u : (op rd : ℕ) → ℤ → ℕ
word_u op rd imm = op + rd * 2 ^ 7 + (low_bits 32 imm / 2 ^ 12) * 2 ^ 12

-- Bits 20, 10 to 1, 11 and 19 to 12 of an even offset.
abbrev pub word_j : (op rd : ℕ) → ℤ → ℕ
word_j op rd imm =
    let bits = low_bits 21 imm in
    op
    + rd * 2 ^ 7
    + ((bits / 2 ^ 12) % 2 ^ 8) * 2 ^ 12
    + ((bits / 2 ^ 11) % 2) * 2 ^ 20
    + ((bits / 2) % 2 ^ 10) * 2 ^ 21
    + (bits / 2 ^ 20) * 2 ^ 31

sign_extend_12 : (z : ℤ) → Fits 11 z → sign_extend (low_bits 12 z) 12 ≡ z
sign_extend_12 (pos n) h = ground arith
sign_extend_12 (negsuc n) h = ground arith

sign_extend_13 : (z : ℤ) → Fits 12 z → sign_extend (low_bits 13 z) 13 ≡ z
sign_extend_13 (pos n) h = ground arith
sign_extend_13 (negsuc n) h = ground arith

sign_extend_21 : (z : ℤ) → Fits 20 z → sign_extend (low_bits 21 z) 21 ≡ z
sign_extend_21 (pos n) h = ground arith
sign_extend_21 (negsuc n) h = ground arith

pub imm_i :
    (op rd funct3 rs1 : ℕ) (imm : ℤ)
    → op < 2 ^ 7
    → rd < 2 ^ 5
    → funct3 < 2 ^ 3
    → rs1 < 2 ^ 5
    → Fits 11 imm
    → decode_i_type_imm (word_i op rd funct3 rs1 imm) ≡ imm
unfolding decode_i_type_imm
imm_i op rd funct3 rs1 (pos n) ho hd hf hs fits = ground arith
imm_i op rd funct3 rs1 (negsuc n) ho hd hf hs fits = ground arith

-- The bits of an S-format offset come together again.
combine_s :
    (w bits : ℕ)
    → bits < 2 ^ 12
    → (w / 2 ^ 7) % 2 ^ 5 ≡ bits % 2 ^ 5
    → (w / 2 ^ 25) % 2 ^ 7 ≡ bits / 2 ^ 5
    → bit_or (bit_and (w / 2 ^ 25) 0x7f * 2 ^ 5) (bit_and (w / 2 ^ 7) 0x1f) ≡ bits
combine_s w bits h lo hi =
    rw (bit_and-mask 7 (w / 2 ^ 25), bit_and-mask 5 (w / 2 ^ 7))
      (shifted-bit_or 5 ((w / 2 ^ 25) % 2 ^ 7) ((w / 2 ^ 7) % 2 ^ 5) (omega arith) ∙ omega arith)

pub imm_s :
    (op funct3 rs1 rs2 : ℕ) (imm : ℤ)
    → op < 2 ^ 7
    → funct3 < 2 ^ 3
    → rs1 < 2 ^ 5
    → rs2 < 2 ^ 5
    → Fits 11 imm
    → decode_s_type_imm (word_s op funct3 rs1 rs2 imm) ≡ imm
unfolding decode_s_type_imm
imm_s op funct3 rs1 rs2 imm ho hf hs ht fits =
    let w = word_s op funct3 rs1 rs2 imm in
    ap (λ b. sign_extend b 12)
      (combine_s w (low_bits 12 imm) (omega arith) (omega arith) (omega arith))
    ∙ sign_extend_12 imm fits

join : (k q v r : ℕ) → v ≡ q * 2 ^ k → r < 2 ^ k → bit_or v r ≡ v + r
join k q v r e h = ap (λ t. bit_or t r) e ∙ shifted-bit_or k q r h ∙ ap (λ t. t + r) (sym e)

combine_b :
    (a b c d : ℕ)
    → b < 2
    → c < 2 ^ 6
    → d < 2 ^ 4
    → bit_or (bit_or (bit_or (a * 2 ^ 12) (b * 2 ^ 11)) (c * 2 ^ 5)) (d * 2 ^ 1)
      ≡ a * 2 ^ 12 + b * 2 ^ 11 + c * 2 ^ 5 + d * 2
combine_b a b c d hb hc hd =
    ap (λ t. bit_or (bit_or t (c * 2 ^ 5)) (d * 2 ^ 1))
      (shifted-bit_or 12 a (b * 2 ^ 11) (omega arith))
    ∙ ap (λ t. bit_or t (d * 2 ^ 1))
        (join 11 (a * 2 + b) (a * 2 ^ 12 + b * 2 ^ 11) (c * 2 ^ 5) (omega arith) (omega arith))
    ∙ join 5 (a * 2 ^ 7 + b * 2 ^ 6 + c) (a * 2 ^ 12 + b * 2 ^ 11 + c * 2 ^ 5) (d * 2 ^ 1)
        (omega arith) (omega arith)

combine_j :
    (a b c d : ℕ)
    → b < 2 ^ 8
    → c < 2
    → d < 2 ^ 10
    → bit_or (bit_or (bit_or (a * 2 ^ 20) (b * 2 ^ 12)) (c * 2 ^ 11)) (d * 2 ^ 1)
      ≡ a * 2 ^ 20 + b * 2 ^ 12 + c * 2 ^ 11 + d * 2
combine_j a b c d hb hc hd =
    ap (λ t. bit_or (bit_or t (c * 2 ^ 11)) (d * 2 ^ 1))
      (shifted-bit_or 20 a (b * 2 ^ 12) (omega arith))
    ∙ ap (λ t. bit_or t (d * 2 ^ 1))
        (join 12 (a * 2 ^ 8 + b) (a * 2 ^ 20 + b * 2 ^ 12) (c * 2 ^ 11) (omega arith) (omega arith))
    ∙ join 11 (a * 2 ^ 9 + b * 2 + c) (a * 2 ^ 20 + b * 2 ^ 12 + c * 2 ^ 11) (d * 2 ^ 1)
        (omega arith) (omega arith)

abbrev pub IsEven : ℤ → Type 0
IsEven z = to_u64 z % 2 ≡ 0

pub imm_b :
    (op funct3 rs1 rs2 : ℕ) (imm : ℤ)
    → op < 2 ^ 7
    → funct3 < 2 ^ 3
    → rs1 < 2 ^ 5
    → rs2 < 2 ^ 5
    → Fits 12 imm
    → IsEven imm
    → decode_b_type_imm (word_b op funct3 rs1 rs2 imm) ≡ imm
unfolding decode_b_type_imm
imm_b op funct3 rs1 rs2 imm ho hf hs ht fits even =
    let w = word_b op funct3 rs1 rs2 imm in
    rw
      (
        bit_and-mask 1 (w / 2 ^ 7),
        bit_and-mask 4 (w / 2 ^ 8),
        bit_and-mask 6 (w / 2 ^ 25),
        bit_and-mask 1 (w / 2 ^ 31),
      )
      (ap (λ b. sign_extend b 13)
          (combine_b ((w / 2 ^ 31) % 2) ((w / 2 ^ 7) % 2) ((w / 2 ^ 25) % 2 ^ 6)
              ((w / 2 ^ 8) % 2 ^ 4) (omega arith) (omega arith) (omega arith)
            ∙ (omega arith))
        ∙ sign_extend_13 imm fits)

pub imm_j :
    (op rd : ℕ) (imm : ℤ)
    → op < 2 ^ 7
    → rd < 2 ^ 5
    → Fits 20 imm
    → IsEven imm
    → decode_j_type_imm (word_j op rd imm) ≡ imm
unfolding decode_j_type_imm
imm_j op rd imm ho hd fits even =
    let w = word_j op rd imm in
    rw
      (
        bit_and-mask 8 (w / 2 ^ 12),
        bit_and-mask 1 (w / 2 ^ 20),
        bit_and-mask 10 (w / 2 ^ 21),
        bit_and-mask 1 (w / 2 ^ 31),
      )
      (ap (λ b. sign_extend b 21)
          (combine_j ((w / 2 ^ 31) % 2) ((w / 2 ^ 12) % 2 ^ 8) ((w / 2 ^ 20) % 2)
              ((w / 2 ^ 21) % 2 ^ 10) (omega arith) (omega arith) (omega arith)
            ∙ (omega arith))
        ∙ sign_extend_21 imm fits)

pub imm_u :
    (op rd : ℕ) (imm : ℤ)
    → op < 2 ^ 7
    → rd < 2 ^ 5
    → Fits 31 imm
    → to_u64 imm % 2 ^ 12 ≡ 0
    → decode_u_type_imm (word_u op rd imm) ≡ imm
unfolding decode_u_type_imm
imm_u op rd (pos n) ho hd fits low = rw (bit_and-field 20 12 (word_u op rd (pos n))) (ground arith)
imm_u op rd (negsuc n) ho hd fits low =
    rw (bit_and-field 20 12 (word_u op rd (negsuc n))) (ground arith)
