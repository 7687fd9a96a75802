-- ===== src/Isa/Decode/RoundTrip.antt =====
-- Encoding an instruction in its format and decoding it.
use rvsim.Base.{ℕ, ◌/◌, ◌%◌, ◌^◌, ◌<◌, ◌≡◌, ap, ◌∙◌, arith, true, Bool, ◌||◌, ◌==◌}
use rvsim.Base.Bits.{bit_and-mask}
use rvsim.Base.Int.{ℤ}
use rvsim.Alu.Casts.{to_u64}
use rvsim.Isa.Opcodes.{
  op_load, op_imm, op_auipc, op_imm_32, op_store, op_lui, op_branch, op_jalr, op_jal, op_load_fp,
  op_store_fp,
}
use rvsim.Isa.Decode.{
  Decoded, decode, decode_imm, opcode, rd, rs1, rs2, funct3, decode_i_type_imm, decode_s_type_imm,
  decode_u_type_imm,
}
use rvsim.Isa.Decode.Formats.{
  Fits, IsEven, word_i, word_s, word_b, word_u, word_j, imm_i, imm_s, imm_b, imm_u, imm_j,
}

abbrev pub is_i : ℕ → Bool
is_i op = op == op_imm || op == op_load || op == op_jalr || op == op_imm_32 || op == op_load_fp

abbrev pub is_s : ℕ → Bool
is_s op = op == op_store || op == op_store_fp

abbrev pub is_u : ℕ → Bool
is_u op = op == op_lui || op == op_auipc

-- The tests pick the right decoder.
choose_i : (op w : ℕ) → is_i op ≡ true → decode_imm op w ≡ decode_i_type_imm w
unfolding decode_imm
choose_i op w h = ground arith

choose_s : (op w : ℕ) → is_s op ≡ true → decode_imm op w ≡ decode_s_type_imm w
unfolding decode_imm
choose_s op w h = ground arith

choose_u : (op w : ℕ) → is_u op ≡ true → decode_imm op w ≡ decode_u_type_imm w
unfolding decode_imm
choose_u op w h = ground arith

i-lt : (op : ℕ) → is_i op ≡ true → op < 2 ^ 7
i-lt op h = ground arith

s-lt : (op : ℕ) → is_s op ≡ true → op < 2 ^ 7
s-lt op h = ground arith

u-lt : (op : ℕ) → is_u op ≡ true → op < 2 ^ 7
u-lt op h = ground arith

opcode_lem : (w op : ℕ) → w % 2 ^ 7 ≡ op → opcode w ≡ op
opcode_lem w op e = bit_and-mask 7 w ∙ e

rd_lem : (w x : ℕ) → (w / 2 ^ 7) % 2 ^ 5 ≡ x → rd w ≡ x
rd_lem w x e = bit_and-mask 5 (w / 2 ^ 7) ∙ e

rs1_lem : (w x : ℕ) → (w / 2 ^ 15) % 2 ^ 5 ≡ x → rs1 w ≡ x
rs1_lem w x e = bit_and-mask 5 (w / 2 ^ 15) ∙ e

rs2_lem : (w x : ℕ) → (w / 2 ^ 20) % 2 ^ 5 ≡ x → rs2 w ≡ x
rs2_lem w x e = bit_and-mask 5 (w / 2 ^ 20) ∙ e

funct3_lem : (w x : ℕ) → (w / 2 ^ 12) % 2 ^ 3 ≡ x → funct3 w ≡ x
funct3_lem w x e = bit_and-mask 3 (w / 2 ^ 12) ∙ e

abbrev pub ReadsI : (op d f s : ℕ) → ℤ → Decoded → Type 0
ReadsI op d f s imm x = (x.opcode ≡ op) × (x.rd ≡ d) × (x.funct3 ≡ f) × (x.rs1 ≡ s) × (x.imm ≡ imm)

abbrev pub ReadsS : (op f s t : ℕ) → ℤ → Decoded → Type 0
ReadsS op f s t imm x = (x.opcode ≡ op) × (x.funct3 ≡ f) × (x.rs1 ≡ s) × (x.rs2 ≡ t) × (x.imm ≡ imm)

abbrev pub ReadsU : (op d : ℕ) → ℤ → Decoded → Type 0
ReadsU op d imm x = (x.opcode ≡ op) × (x.rd ≡ d) × (x.imm ≡ imm)

-- The immediate is read by the opcode found.
imm_lem :
    (w op : ℕ) {imm : ℤ} → opcode w ≡ op → decode_imm op w ≡ imm → decode_imm (opcode w) w ≡ imm
imm_lem w op e h = ap (λ o. decode_imm o w) e ∙ h

reads_i :
    (op d f s : ℕ) (imm : ℤ)
    → is_i op ≡ true
    → d < 2 ^ 5
    → f < 2 ^ 3
    → s < 2 ^ 5
    → Fits 11 imm
    → ReadsI op d f s imm (decode (word_i op d f s imm))
unfolding decode
reads_i op d f s imm h hd hf hs fits =
    let w = word_i op d f s imm in
    let small = i-lt op h in
    let o = opcode_lem w op (omega arith) in
    (
      o,
      rd_lem w d (omega arith),
      funct3_lem w f (omega arith),
      rs1_lem w s (omega arith),
      imm_lem w op o (choose_i op w h ∙ imm_i op d f s imm small hd hf hs fits),
    )

reads_s :
    (op f s t : ℕ) (imm : ℤ)
    → is_s op ≡ true
    → f < 2 ^ 3
    → s < 2 ^ 5
    → t < 2 ^ 5
    → Fits 11 imm
    → ReadsS op f s t imm (decode (word_s op f s t imm))
unfolding decode
reads_s op f s t imm h hf hs ht fits =
    let w = word_s op f s t imm in
    let small = s-lt op h in
    let o = opcode_lem w op (omega arith) in
    (
      o,
      funct3_lem w f (omega arith),
      rs1_lem w s (omega arith),
      rs2_lem w t (omega arith),
      imm_lem w op o (choose_s op w h ∙ imm_s op f s t imm small hf hs ht fits),
    )

reads_b :
    (f s t : ℕ) (imm : ℤ)
    → f < 2 ^ 3
    → s < 2 ^ 5
    → t < 2 ^ 5
    → Fits 12 imm
    → IsEven imm
    → ReadsS op_branch f s t imm (decode (word_b op_branch f s t imm))
unfolding decode decode_imm
reads_b f s t imm hf hs ht fits even =
    let w = word_b op_branch f s t imm in
    let o = opcode_lem w op_branch (omega arith) in
    (
      o,
      funct3_lem w f (omega arith),
      rs1_lem w s (omega arith),
      rs2_lem w t (omega arith),
      imm_lem w op_branch o (imm_b op_branch f s t imm (omega arith) hf hs ht fits even),
    )

reads_u :
    (op d : ℕ) (imm : ℤ)
    → is_u op ≡ true
    → d < 2 ^ 5
    → Fits 31 imm
    → to_u64 imm % 2 ^ 12 ≡ 0
    → ReadsU op d imm (decode (word_u op d imm))
unfolding decode
reads_u op d imm h hd fits low =
    let w = word_u op d imm in
    let small = u-lt op h in
    let o = opcode_lem w op (omega arith) in
    (
      o,
      rd_lem w d (omega arith),
      imm_lem w op o (choose_u op w h ∙ imm_u op d imm small hd fits low),
    )

reads_j :
    (d : ℕ) (imm : ℤ)
    → d < 2 ^ 5
    → Fits 20 imm
    → IsEven imm
    → ReadsU op_jal d imm (decode (word_j op_jal d imm))
unfolding decode decode_imm
reads_j d imm hd fits even =
    let w = word_j op_jal d imm in
    let o = opcode_lem w op_jal (omega arith) in
    (
      o,
      rd_lem w d (omega arith),
      imm_lem w op_jal o (imm_j op_jal d imm (omega arith) hd fits even),
    )

-- Decoding gives back the opcode, the registers, the function code and the signed immediate that an
-- instruction was encoded from, in each of the five formats with an immediate: I (a 12-bit
-- immediate `x`), S (also `x`), B (an even 13-bit offset `y`), U (a 32-bit multiple of 2 ^ 12, `z`)
-- and J (an even 21-bit offset `v`).
pub decode_round_trip :
    (i s u d f a b : ℕ) (x y z v : ℤ)
    → is_i i ≡ true
    → is_s s ≡ true
    → is_u u ≡ true
    → (d < 2 ^ 5) × (a < 2 ^ 5) × (b < 2 ^ 5) × (f < 2 ^ 3)
    → Fits 11 x
    → Fits 12 y × IsEven y
    → Fits 31 z × (to_u64 z % 2 ^ 12 ≡ 0)
    → Fits 20 v × IsEven v
    → ReadsI i d f a x (decode (word_i i d f a x))
      × ReadsS s f a b x (decode (word_s s f a b x))
      × ReadsS op_branch f a b y (decode (word_b op_branch f a b y))
      × ReadsU u d z (decode (word_u u d z))
      × ReadsU op_jal d v (decode (word_j op_jal d v))
decode_round_trip i s u d f a b x y z v hi hs hu (hd, ha, hb, hf) fx (fy, ey) (fz, lz) (fv, ev) = (
  reads_i i d f a x hi hd hf ha fx,
  reads_s s f a b x hs hf ha hb fx,
  reads_b f a b y hf ha hb fy ey,
  reads_u u d z hu hd fz lz,
  reads_j d v hd fv ev,
)
