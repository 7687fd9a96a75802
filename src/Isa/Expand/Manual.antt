-- ===== src/Isa/Expand/Manual.antt =====
-- The compressed instructions of the RISC-V manual: their 16-bit layouts, and the 32-bit instruction
-- that each stands for. `rd` and `rs` are register fields, of three or of five bits, and `u` is the
-- immediate without the zeros that its scale puts at its end.
use rvsim.Base.{ℕ, ◌+◌, ◌-◌, ◌*◌, ◌/◌, ◌%◌, ◌^◌, Bool, true, not, ◌&&◌, ltb, ◌==◌, if◌then◌else◌}
use rvsim.Base.Int.{ℤ, pos, negsuc}
use rvsim.Isa.Opcodes.{
  op_load, op_imm, op_imm_32, op_store, op_reg, op_reg_32, op_lui, op_branch, op_jalr, op_jal,
  op_load_fp, op_store_fp,
}
use rvsim.Isa.Decode.Formats.{word_i, word_s, word_b, word_u, word_j}

pub data Compressed : Type 0 where
  c_addi4spn : (rd u : ℕ) → Compressed
  c_fld : (rd rs u : ℕ) → Compressed
  c_lw : (rd rs u : ℕ) → Compressed
  c_ld : (rd rs u : ℕ) → Compressed
  c_fsd : (rd rs u : ℕ) → Compressed
  c_sw : (rd rs u : ℕ) → Compressed
  c_sd : (rd rs u : ℕ) → Compressed
  c_addi : (rd u : ℕ) → Compressed
  c_addiw : (rd u : ℕ) → Compressed
  c_li : (rd u : ℕ) → Compressed
  c_addi16sp : (u : ℕ) → Compressed
  c_lui : (rd u : ℕ) → Compressed
  c_srli : (rd u : ℕ) → Compressed
  c_srai : (rd u : ℕ) → Compressed
  c_andi : (rd u : ℕ) → Compressed
  c_sub : (rd rs : ℕ) → Compressed
  c_xor : (rd rs : ℕ) → Compressed
  c_or : (rd rs : ℕ) → Compressed
  c_and : (rd rs : ℕ) → Compressed
  c_subw : (rd rs : ℕ) → Compressed
  c_addw : (rd rs : ℕ) → Compressed
  c_j : (u : ℕ) → Compressed
  c_beqz : (rs u : ℕ) → Compressed
  c_bnez : (rs u : ℕ) → Compressed
  c_slli : (rd u : ℕ) → Compressed
  c_fldsp : (rd u : ℕ) → Compressed
  c_lwsp : (rd u : ℕ) → Compressed
  c_ldsp : (rd u : ℕ) → Compressed
  c_jr : (rs : ℕ) → Compressed
  c_mv : (rd rs : ℕ) → Compressed
  c_ebreak : Compressed
  c_jalr : (rs : ℕ) → Compressed
  c_add : (rd rs : ℕ) → Compressed
  c_fsdsp : (rs u : ℕ) → Compressed
  c_swsp : (rs u : ℕ) → Compressed
  c_sdsp : (rs u : ℕ) → Compressed

-- `k` bits in two's complement
abbrev pub signed : ℕ → ℕ → ℤ
signed k x = if ltb x (2 ^ (k - 1)) then pos x else negsuc (2 ^ k - 1 - x)

abbrev pub word_r : (op rd funct3 rs1 rs2 funct7 : ℕ) → ℕ
word_r op rd funct3 rs1 rs2 funct7 =
    op + rd * 2 ^ 7 + funct3 * 2 ^ 12 + rs1 * 2 ^ 15 + rs2 * 2 ^ 20 + funct7 * 2 ^ 25

-- The operands fit their fields, and the encoding is not reserved for another instruction.
unfoldable pub valid : Compressed → Bool
valid (c_addi4spn rd u) = ltb rd 8 && ltb u 256 && not (u == 0)
valid (c_fld rd rs u) = ltb rd 8 && ltb rs 8 && ltb u 32
valid (c_lw rd rs u) = ltb rd 8 && ltb rs 8 && ltb u 32
valid (c_ld rd rs u) = ltb rd 8 && ltb rs 8 && ltb u 32
valid (c_fsd rd rs u) = ltb rd 8 && ltb rs 8 && ltb u 32
valid (c_sw rd rs u) = ltb rd 8 && ltb rs 8 && ltb u 32
valid (c_sd rd rs u) = ltb rd 8 && ltb rs 8 && ltb u 32
valid (c_addi rd u) = ltb rd 32 && ltb u 64
valid (c_addiw rd u) = ltb rd 32 && ltb u 64 && not (rd == 0)
valid (c_li rd u) = ltb rd 32 && ltb u 64
valid (c_addi16sp u) = ltb u 64 && not (u == 0)
valid (c_lui rd u) = ltb rd 32 && ltb u 64 && not (rd == 2) && not (u == 0)
valid (c_srli rd u) = ltb rd 8 && ltb u 64
valid (c_srai rd u) = ltb rd 8 && ltb u 64
valid (c_andi rd u) = ltb rd 8 && ltb u 64
valid (c_sub rd rs) = ltb rd 8 && ltb rs 8
valid (c_xor rd rs) = ltb rd 8 && ltb rs 8
valid (c_or rd rs) = ltb rd 8 && ltb rs 8
valid (c_and rd rs) = ltb rd 8 && ltb rs 8
valid (c_subw rd rs) = ltb rd 8 && ltb rs 8
valid (c_addw rd rs) = ltb rd 8 && ltb rs 8
valid (c_j u) = ltb u 2048
valid (c_beqz rs u) = ltb rs 8 && ltb u 256
valid (c_bnez rs u) = ltb rs 8 && ltb u 256
valid (c_slli rd u) = ltb rd 32 && ltb u 64 && not (rd == 0)
valid (c_fldsp rd u) = ltb rd 32 && ltb u 64
valid (c_lwsp rd u) = ltb rd 32 && ltb u 64 && not (rd == 0)
valid (c_ldsp rd u) = ltb rd 32 && ltb u 64 && not (rd == 0)
valid (c_jr rs) = ltb rs 32 && not (rs == 0)
valid (c_mv rd rs) = ltb rd 32 && ltb rs 32 && not (rs == 0)
valid c_ebreak = true
valid (c_jalr rs) = ltb rs 32 && not (rs == 0)
valid (c_add rd rs) = ltb rd 32 && ltb rs 32 && not (rs == 0)
valid (c_fsdsp rs u) = ltb rs 32 && ltb u 64
valid (c_swsp rs u) = ltb rs 32 && ltb u 64
valid (c_sdsp rs u) = ltb rs 32 && ltb u 64

unfoldable pub layout : Compressed → ℕ
layout (c_addi4spn rd u) =
    rd * 2 ^ 2 + u / 2 % 2 * 2 ^ 5 + u % 2 * 2 ^ 6 + u / 16 * 2 ^ 7 + u / 4 % 4 * 2 ^ 11
layout (c_fld rd rs u) = rd * 2 ^ 2 + u / 8 * 2 ^ 5 + rs * 2 ^ 7 + u % 8 * 2 ^ 10 + 1 * 2 ^ 13
layout (c_lw rd rs u) =
    rd * 2 ^ 2 + u / 16 * 2 ^ 5 + u % 2 * 2 ^ 6 + rs * 2 ^ 7 + u / 2 % 8 * 2 ^ 10 + 2 * 2 ^ 13
layout (c_ld rd rs u) = rd * 2 ^ 2 + u / 8 * 2 ^ 5 + rs * 2 ^ 7 + u % 8 * 2 ^ 10 + 3 * 2 ^ 13
layout (c_fsd rd rs u) = rd * 2 ^ 2 + u / 8 * 2 ^ 5 + rs * 2 ^ 7 + u % 8 * 2 ^ 10 + 5 * 2 ^ 13
layout (c_sw rd rs u) =
    rd * 2 ^ 2 + u / 16 * 2 ^ 5 + u % 2 * 2 ^ 6 + rs * 2 ^ 7 + u / 2 % 8 * 2 ^ 10 + 6 * 2 ^ 13
layout (c_sd rd rs u) = rd * 2 ^ 2 + u / 8 * 2 ^ 5 + rs * 2 ^ 7 + u % 8 * 2 ^ 10 + 7 * 2 ^ 13
layout (c_addi rd u) = 1 + u % 32 * 2 ^ 2 + rd * 2 ^ 7 + u / 32 * 2 ^ 12 + 0 * 2 ^ 13
layout (c_addiw rd u) = 1 + u % 32 * 2 ^ 2 + rd * 2 ^ 7 + u / 32 * 2 ^ 12 + 1 * 2 ^ 13
layout (c_li rd u) = 1 + u % 32 * 2 ^ 2 + rd * 2 ^ 7 + u / 32 * 2 ^ 12 + 2 * 2 ^ 13
layout (c_addi16sp u) =
    1
    + u / 2 % 2 * 2 ^ 2
    + u / 8 % 4 * 2 ^ 3
    + u / 4 % 2 * 2 ^ 5
    + u % 2 * 2 ^ 6
    + 2 * 2 ^ 7
    + u / 32 * 2 ^ 12
    + 3 * 2 ^ 13
layout (c_lui rd u) = 1 + u % 32 * 2 ^ 2 + rd * 2 ^ 7 + u / 32 * 2 ^ 12 + 3 * 2 ^ 13
layout (c_srli rd u) = 1 + u % 32 * 2 ^ 2 + rd * 2 ^ 7 + 0 * 2 ^ 10 + u / 32 * 2 ^ 12 + 4 * 2 ^ 13
layout (c_srai rd u) = 1 + u % 32 * 2 ^ 2 + rd * 2 ^ 7 + 1 * 2 ^ 10 + u / 32 * 2 ^ 12 + 4 * 2 ^ 13
layout (c_andi rd u) = 1 + u % 32 * 2 ^ 2 + rd * 2 ^ 7 + 2 * 2 ^ 10 + u / 32 * 2 ^ 12 + 4 * 2 ^ 13
layout (c_sub rd rs) =
    1 + rs * 2 ^ 2 + 0 * 2 ^ 5 + rd * 2 ^ 7 + 3 * 2 ^ 10 + 0 * 2 ^ 12 + 4 * 2 ^ 13
layout (c_xor rd rs) =
    1 + rs * 2 ^ 2 + 1 * 2 ^ 5 + rd * 2 ^ 7 + 3 * 2 ^ 10 + 0 * 2 ^ 12 + 4 * 2 ^ 13
layout (c_or rd rs) = 1 + rs * 2 ^ 2 + 2 * 2 ^ 5 + rd * 2 ^ 7 + 3 * 2 ^ 10 + 0 * 2 ^ 12 + 4 * 2 ^ 13
layout (c_and rd rs) =
    1 + rs * 2 ^ 2 + 3 * 2 ^ 5 + rd * 2 ^ 7 + 3 * 2 ^ 10 + 0 * 2 ^ 12 + 4 * 2 ^ 13
layout (c_subw rd rs) =
    1 + rs * 2 ^ 2 + 0 * 2 ^ 5 + rd * 2 ^ 7 + 3 * 2 ^ 10 + 1 * 2 ^ 12 + 4 * 2 ^ 13
layout (c_addw rd rs) =
    1 + rs * 2 ^ 2 + 1 * 2 ^ 5 + rd * 2 ^ 7 + 3 * 2 ^ 10 + 1 * 2 ^ 12 + 4 * 2 ^ 13
layout (c_j u) =
    1
    + u / 16 % 2 * 2 ^ 2
    + u % 8 * 2 ^ 3
    + u / 64 % 2 * 2 ^ 6
    + u / 32 % 2 * 2 ^ 7
    + u / 512 % 2 * 2 ^ 8
    + u / 128 % 4 * 2 ^ 9
    + u / 8 % 2 * 2 ^ 11
    + u / 1024 * 2 ^ 12
    + 5 * 2 ^ 13
layout (c_beqz rs u) =
    1
    + u / 16 % 2 * 2 ^ 2
    + u % 4 * 2 ^ 3
    + u / 32 % 4 * 2 ^ 5
    + rs * 2 ^ 7
    + u / 4 % 4 * 2 ^ 10
    + u / 128 * 2 ^ 12
    + 6 * 2 ^ 13
layout (c_bnez rs u) =
    1
    + u / 16 % 2 * 2 ^ 2
    + u % 4 * 2 ^ 3
    + u / 32 % 4 * 2 ^ 5
    + rs * 2 ^ 7
    + u / 4 % 4 * 2 ^ 10
    + u / 128 * 2 ^ 12
    + 7 * 2 ^ 13
layout (c_slli rd u) = 2 + u % 32 * 2 ^ 2 + rd * 2 ^ 7 + u / 32 * 2 ^ 12
layout (c_fldsp rd u) =
    2 + u / 8 * 2 ^ 2 + u % 4 * 2 ^ 5 + rd * 2 ^ 7 + u / 4 % 2 * 2 ^ 12 + 1 * 2 ^ 13
layout (c_lwsp rd u) =
    2 + u / 16 * 2 ^ 2 + u % 8 * 2 ^ 4 + rd * 2 ^ 7 + u / 8 % 2 * 2 ^ 12 + 2 * 2 ^ 13
layout (c_ldsp rd u) =
    2 + u / 8 * 2 ^ 2 + u % 4 * 2 ^ 5 + rd * 2 ^ 7 + u / 4 % 2 * 2 ^ 12 + 3 * 2 ^ 13
layout (c_jr rs) = 2 + rs * 2 ^ 7 + 4 * 2 ^ 13
layout (c_mv rd rs) = 2 + rs * 2 ^ 2 + rd * 2 ^ 7 + 4 * 2 ^ 13
layout c_ebreak = 2 + 2 ^ 12 + 4 * 2 ^ 13
layout (c_jalr rs) = 2 + rs * 2 ^ 7 + 2 ^ 12 + 4 * 2 ^ 13
layout (c_add rd rs) = 2 + rs * 2 ^ 2 + rd * 2 ^ 7 + 2 ^ 12 + 4 * 2 ^ 13
layout (c_fsdsp rs u) = 2 + rs * 2 ^ 2 + u / 8 * 2 ^ 7 + u % 8 * 2 ^ 10 + 5 * 2 ^ 13
layout (c_swsp rs u) = 2 + rs * 2 ^ 2 + u / 16 * 2 ^ 7 + u % 16 * 2 ^ 9 + 6 * 2 ^ 13
layout (c_sdsp rs u) = 2 + rs * 2 ^ 2 + u / 8 * 2 ^ 7 + u % 8 * 2 ^ 10 + 7 * 2 ^ 13

unfoldable pub word : Compressed → ℕ
word (c_addi4spn rd u) = word_i op_imm (8 + rd) 0 2 (pos (4 * u))
word (c_fld rd rs u) = word_i op_load_fp (8 + rd) 3 (8 + rs) (pos (8 * u))
word (c_lw rd rs u) = word_i op_load (8 + rd) 2 (8 + rs) (pos (4 * u))
word (c_ld rd rs u) = word_i op_load (8 + rd) 3 (8 + rs) (pos (8 * u))
word (c_fsd rd rs u) = word_s op_store_fp 3 (8 + rs) (8 + rd) (pos (8 * u))
word (c_sw rd rs u) = word_s op_store 2 (8 + rs) (8 + rd) (pos (4 * u))
word (c_sd rd rs u) = word_s op_store 3 (8 + rs) (8 + rd) (pos (8 * u))
word (c_addi rd u) = word_i op_imm rd 0 rd (signed 6 u)
word (c_addiw rd u) = word_i op_imm_32 rd 0 rd (signed 6 u)
word (c_li rd u) = word_i op_imm rd 0 0 (signed 6 u)
word (c_addi16sp u) = word_i op_imm 2 0 2 (signed 10 (16 * u))
word (c_lui rd u) = word_u op_lui rd (signed 18 (u * 2 ^ 12))
word (c_srli rd u) = word_i op_imm (8 + rd) 5 (8 + rd) (pos u)
word (c_srai rd u) = word_i op_imm (8 + rd) 5 (8 + rd) (pos (2 ^ 10 + u))
word (c_andi rd u) = word_i op_imm (8 + rd) 7 (8 + rd) (signed 6 u)
word (c_sub rd rs) = word_r op_reg (8 + rd) 0 (8 + rd) (8 + rs) 0x20
word (c_xor rd rs) = word_r op_reg (8 + rd) 4 (8 + rd) (8 + rs) 0
word (c_or rd rs) = word_r op_reg (8 + rd) 6 (8 + rd) (8 + rs) 0
word (c_and rd rs) = word_r op_reg (8 + rd) 7 (8 + rd) (8 + rs) 0
word (c_subw rd rs) = word_r op_reg_32 (8 + rd) 0 (8 + rd) (8 + rs) 0x20
word (c_addw rd rs) = word_r op_reg_32 (8 + rd) 0 (8 + rd) (8 + rs) 0
word (c_j u) = word_j op_jal 0 (signed 12 (2 * u))
word (c_beqz rs u) = word_b op_branch 0 (8 + rs) 0 (signed 9 (2 * u))
word (c_bnez rs u) = word_b op_branch 1 (8 + rs) 0 (signed 9 (2 * u))
word (c_slli rd u) = word_i op_imm rd 1 rd (pos u)
word (c_fldsp rd u) = word_i op_load_fp rd 3 2 (pos (8 * u))
word (c_lwsp rd u) = word_i op_load rd 2 2 (pos (4 * u))
word (c_ldsp rd u) = word_i op_load rd 3 2 (pos (8 * u))
word (c_jr rs) = word_i op_jalr 0 0 rs (pos 0)
word (c_mv rd rs) = word_r op_reg rd 0 0 rs 0
word c_ebreak = 0x00100073
word (c_jalr rs) = word_i op_jalr 1 0 rs (pos 0)
word (c_add rd rs) = word_r op_reg rd 0 rd rs 0
word (c_fsdsp rs u) = word_s op_store_fp 3 2 rs (pos (8 * u))
word (c_swsp rs u) = word_s op_store 2 2 rs (pos (4 * u))
word (c_sdsp rs u) = word_s op_store 3 2 rs (pos (8 * u))
