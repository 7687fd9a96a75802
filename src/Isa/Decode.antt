-- ===== src/Isa/Decode.antt =====
-- crates/hardware/src/isa/decode.rs and instruction.rs: the fields of a 32-bit instruction.
pub mod Formats
pub mod RoundTrip
mod Tests
use rvsim.Base.{ℕ, ◌+◌, ◌-◌, ◌*◌, ◌/◌, ◌%◌, ◌^◌, Bool, ◌||◌, bit_and, bit_or, ◌==◌, if◌then◌else◌}
use rvsim.Base.Int.{ℤ, pos}
use rvsim.Alu.Casts.{as_i32, shr}
use rvsim.Isa.Opcodes.{
  op_load, op_imm, op_auipc, op_imm_32, op_store, op_lui, op_branch, op_jalr, op_jal, op_load_fp,
  op_store_fp,
}

abbrev pub opcode : ℕ → ℕ
opcode inst = bit_and inst 0x7f

abbrev pub rd : ℕ → ℕ
rd inst = bit_and (inst / 2 ^ 7) 0x1f

abbrev pub rs1 : ℕ → ℕ
rs1 inst = bit_and (inst / 2 ^ 15) 0x1f

abbrev pub rs2 : ℕ → ℕ
rs2 inst = bit_and (inst / 2 ^ 20) 0x1f

abbrev pub funct3 : ℕ → ℕ
funct3 inst = bit_and (inst / 2 ^ 12) 0x7

abbrev pub funct7 : ℕ → ℕ
funct7 inst = bit_and (inst / 2 ^ 25) 0x7f

pub record Decoded : Type 0 where
  pub raw : ℕ
  pub opcode : ℕ
  pub rd : ℕ
  pub rs1 : ℕ
  pub rs2 : ℕ
  pub funct3 : ℕ
  pub funct7 : ℕ
  pub imm : ℤ

-- `((val as i32) << shift >> shift) as i64`
abbrev pub sign_extend : ℕ → ℕ → ℤ
sign_extend val bits = shr (as_i32 (val * 2 ^ (32 - bits))) (32 - bits)

unfoldable pub decode_i_type_imm : ℕ → ℤ
decode_i_type_imm inst = shr (as_i32 inst) 20

unfoldable pub decode_s_type_imm : ℕ → ℤ
decode_s_type_imm inst =
    let low = bit_and (inst / 2 ^ 7) 0x1f in
    let high = bit_and (inst / 2 ^ 25) 0x7f in
    let combined = bit_or (high * 2 ^ 5) low in sign_extend combined 12

unfoldable pub decode_b_type_imm : ℕ → ℤ
decode_b_type_imm inst =
    let bit_11 = bit_and (inst / 2 ^ 7) 1 in
    let bits_4_1 = bit_and (inst / 2 ^ 8) 0xf in
    let bits_10_5 = bit_and (inst / 2 ^ 25) 0x3f in
    let bit_12 = bit_and (inst / 2 ^ 31) 1 in
    let combined =
      bit_or (bit_or (bit_or (bit_12 * 2 ^ 12) (bit_11 * 2 ^ 11)) (bits_10_5 * 2 ^ 5))
        (bits_4_1 * 2 ^ 1) in
    sign_extend combined 13

unfoldable pub decode_u_type_imm : ℕ → ℤ
decode_u_type_imm inst = as_i32 (bit_and inst 0xfffff000)

unfoldable pub decode_j_type_imm : ℕ → ℤ
decode_j_type_imm inst =
    let bits_19_12 = bit_and (inst / 2 ^ 12) 0xff in
    let bit_11 = bit_and (inst / 2 ^ 20) 1 in
    let bits_10_1 = bit_and (inst / 2 ^ 21) 0x3ff in
    let bit_20 = bit_and (inst / 2 ^ 31) 1 in
    let combined =
      bit_or (bit_or (bit_or (bit_20 * 2 ^ 20) (bits_19_12 * 2 ^ 12)) (bit_11 * 2 ^ 11))
        (bits_10_1 * 2 ^ 1) in
    sign_extend combined 21

-- The immediate that goes with an opcode.
unfoldable pub decode_imm : ℕ → ℕ → ℤ
decode_imm op inst =
    if op == op_imm || op == op_load || op == op_jalr || op == op_imm_32 || op == op_load_fp
    then decode_i_type_imm inst
    else if op == op_store || op == op_store_fp
    then decode_s_type_imm inst
    else if op == op_branch
    then decode_b_type_imm inst
    else if op == op_lui || op == op_auipc
    then decode_u_type_imm inst
    else if op == op_jal
    then decode_j_type_imm inst
    else pos 0

unfoldable pub decode : ℕ → Decoded
unfolding decode_imm decode_i_type_imm decode_s_type_imm decode_b_type_imm decode_u_type_imm
    decode_j_type_imm
decode inst = record {
  raw = inst;
  opcode = opcode inst;
  rd = rd inst;
  rs1 = rs1 inst;
  rs2 = rs2 inst;
  funct3 = funct3 inst;
  funct7 = funct7 inst;
  imm = decode_imm (opcode inst) inst;
}
