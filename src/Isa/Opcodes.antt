-- ===== src/Isa/Opcodes.antt =====
-- The opcode constants of crates/hardware/src/isa: rv64i/opcodes.rs, rv64f/opcodes.rs,
-- rv64i/funct3.rs, rv64i/funct7.rs, privileged/opcodes.rs, rvc/constants.rs.
use rvsim.Base.{ℕ}

abbrev pub op_load : ℕ
op_load = 0b0000011

abbrev pub op_imm : ℕ
op_imm = 0b0010011

abbrev pub op_auipc : ℕ
op_auipc = 0b0010111

abbrev pub op_imm_32 : ℕ
op_imm_32 = 0b0011011

abbrev pub op_store : ℕ
op_store = 0b0100011

abbrev pub op_reg : ℕ
op_reg = 0b0110011

abbrev pub op_lui : ℕ
op_lui = 0b0110111

abbrev pub op_reg_32 : ℕ
op_reg_32 = 0b0111011

abbrev pub op_branch : ℕ
op_branch = 0b1100011

abbrev pub op_jalr : ℕ
op_jalr = 0b1100111

abbrev pub op_jal : ℕ
op_jal = 0b1101111

abbrev pub op_load_fp : ℕ
op_load_fp = 0b0000111

abbrev pub op_store_fp : ℕ
op_store_fp = 0b0100111

abbrev pub ebreak : ℕ
ebreak = 0x00100073

abbrev pub funct3_add_sub : ℕ
funct3_add_sub = 0b000

abbrev pub funct3_and : ℕ
funct3_and = 0b111

abbrev pub funct3_beq : ℕ
funct3_beq = 0b000

abbrev pub funct3_bne : ℕ
funct3_bne = 0b001

abbrev pub funct3_ld : ℕ
funct3_ld = 0b011

abbrev pub funct3_lw : ℕ
funct3_lw = 0b010

abbrev pub funct3_or : ℕ
funct3_or = 0b110

abbrev pub funct3_sd : ℕ
funct3_sd = 0b011

abbrev pub funct3_sll : ℕ
funct3_sll = 0b001

abbrev pub funct3_srl_sra : ℕ
funct3_srl_sra = 0b101

abbrev pub funct3_sw : ℕ
funct3_sw = 0b010

abbrev pub funct3_xor : ℕ
funct3_xor = 0b100

abbrev pub funct7_sra : ℕ
funct7_sra = 0b0100000

abbrev pub funct7_sub : ℕ
funct7_sub = 0b0100000

abbrev pub q0_c_addi4spn : ℕ
q0_c_addi4spn = 0b000

abbrev pub q0_c_fld : ℕ
q0_c_fld = 0b001

abbrev pub q0_c_fsd : ℕ
q0_c_fsd = 0b101

abbrev pub q0_c_ld : ℕ
q0_c_ld = 0b011

abbrev pub q0_c_lw : ℕ
q0_c_lw = 0b010

abbrev pub q0_c_sd : ℕ
q0_c_sd = 0b111

abbrev pub q0_c_sw : ℕ
q0_c_sw = 0b110

abbrev pub q1_c_addi : ℕ
q1_c_addi = 0b000

abbrev pub q1_c_addiw : ℕ
q1_c_addiw = 0b001

abbrev pub q1_c_beqz : ℕ
q1_c_beqz = 0b110

abbrev pub q1_c_bnez : ℕ
q1_c_bnez = 0b111

abbrev pub q1_c_j : ℕ
q1_c_j = 0b101

abbrev pub q1_c_li : ℕ
q1_c_li = 0b010

abbrev pub q1_c_lui_addi16sp : ℕ
q1_c_lui_addi16sp = 0b011

abbrev pub q1_c_misc_alu : ℕ
q1_c_misc_alu = 0b100

abbrev pub q2_c_fldsp : ℕ
q2_c_fldsp = 0b001

abbrev pub q2_c_fsdsp : ℕ
q2_c_fsdsp = 0b101

abbrev pub q2_c_ldsp : ℕ
q2_c_ldsp = 0b011

abbrev pub q2_c_lwsp : ℕ
q2_c_lwsp = 0b010

abbrev pub q2_c_misc_alu : ℕ
q2_c_misc_alu = 0b100

abbrev pub q2_c_sdsp : ℕ
q2_c_sdsp = 0b111

abbrev pub q2_c_slli : ℕ
q2_c_slli = 0b000

abbrev pub q2_c_swsp : ℕ
q2_c_swsp = 0b110
