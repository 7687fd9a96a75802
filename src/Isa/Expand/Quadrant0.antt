-- ===== src/Isa/Expand/Quadrant0.antt =====
-- crates/hardware/src/isa/rvc/expand.rs, quadrant 0. `<|>` is the `|` of the source, and `/ 2 ^ k`,
-- `* 2 ^ k` are its shifts.
use rvsim.Base.{ℕ, ◌+◌, ◌*◌, ◌/◌, ◌^◌, bit_and, ◌==◌, if◌then◌else◌}
use rvsim.Isa.Expand.Notation.{◌<|>◌}
use rvsim.Isa.Opcodes.{
  funct3_add_sub, funct3_ld, funct3_lw, funct3_sd, funct3_sw, op_imm, op_load, op_load_fp, op_store,
  op_store_fp, q0_c_addi4spn, q0_c_fld, q0_c_fsd, q0_c_ld, q0_c_lw, q0_c_sd, q0_c_sw,
}

unfoldable pub expand : ℕ → ℕ
expand inst =
    let funct3 = bit_and (inst / 2 ^ 13) 0x7 in
    if funct3 == q0_c_addi4spn
    then (let imm =
          bit_and (inst / 2 ^ 6) 1 * 2 ^ 2
          <|> bit_and (inst / 2 ^ 5) 1 * 2 ^ 3
          <|> bit_and (inst / 2 ^ 11) 0x3 * 2 ^ 4
          <|> bit_and (inst / 2 ^ 7) 0xF * 2 ^ 6 in
        if imm == 0
        then 0
        else let rd = 8 + bit_and (inst / 2 ^ 2) 0x7 in
          imm * 2 ^ 20 <|> 2 * 2 ^ 15 <|> funct3_add_sub * 2 ^ 12 <|> rd * 2 ^ 7 <|> op_imm)
    else if funct3 == q0_c_fld
    then (let imm = bit_and (inst / 2 ^ 10) 0x7 * 2 ^ 3 <|> bit_and (inst / 2 ^ 5) 0x3 * 2 ^ 6 in
        let rs1 = 8 + bit_and (inst / 2 ^ 7) 0x7 in
        let rd = 8 + bit_and (inst / 2 ^ 2) 0x7 in
        imm * 2 ^ 20 <|> rs1 * 2 ^ 15 <|> funct3_ld * 2 ^ 12 <|> rd * 2 ^ 7 <|> op_load_fp)
    else if funct3 == q0_c_lw
    then (let imm =
          bit_and (inst / 2 ^ 6) 1 * 2 ^ 2
          <|> bit_and (inst / 2 ^ 10) 0x7 * 2 ^ 3
          <|> bit_and (inst / 2 ^ 5) 1 * 2 ^ 6 in
        let rs1 = 8 + bit_and (inst / 2 ^ 7) 0x7 in
        let rd = 8 + bit_and (inst / 2 ^ 2) 0x7 in
        imm * 2 ^ 20 <|> rs1 * 2 ^ 15 <|> funct3_lw * 2 ^ 12 <|> rd * 2 ^ 7 <|> op_load)
    else if funct3 == q0_c_ld
    then (let imm = bit_and (inst / 2 ^ 10) 0x7 * 2 ^ 3 <|> bit_and (inst / 2 ^ 5) 0x3 * 2 ^ 6 in
        let rs1 = 8 + bit_and (inst / 2 ^ 7) 0x7 in
        let rd = 8 + bit_and (inst / 2 ^ 2) 0x7 in
        imm * 2 ^ 20 <|> rs1 * 2 ^ 15 <|> funct3_ld * 2 ^ 12 <|> rd * 2 ^ 7 <|> op_load)
    else if funct3 == q0_c_fsd
    then (let imm = bit_and (inst / 2 ^ 10) 0x7 * 2 ^ 3 <|> bit_and (inst / 2 ^ 5) 0x3 * 2 ^ 6 in
        let rs1 = 8 + bit_and (inst / 2 ^ 7) 0x7 in
        let rs2 = 8 + bit_and (inst / 2 ^ 2) 0x7 in
        let imm_low = bit_and imm 0x1F in
        let imm_high = imm / 2 ^ 5 in
        imm_high * 2 ^ 25
        <|> rs2 * 2 ^ 20
        <|> rs1 * 2 ^ 15
        <|> funct3_sd * 2 ^ 12
        <|> imm_low * 2 ^ 7
        <|> op_store_fp)
    else if funct3 == q0_c_sw
    then (let imm =
          bit_and (inst / 2 ^ 6) 1 * 2 ^ 2
          <|> bit_and (inst / 2 ^ 10) 0x7 * 2 ^ 3
          <|> bit_and (inst / 2 ^ 5) 1 * 2 ^ 6 in
        let rs1 = 8 + bit_and (inst / 2 ^ 7) 0x7 in
        let rs2 = 8 + bit_and (inst / 2 ^ 2) 0x7 in
        let imm_low = bit_and imm 0x1F in
        let imm_high = imm / 2 ^ 5 in
        imm_high * 2 ^ 25
        <|> rs2 * 2 ^ 20
        <|> rs1 * 2 ^ 15
        <|> funct3_sw * 2 ^ 12
        <|> imm_low * 2 ^ 7
        <|> op_store)
    else if funct3 == q0_c_sd
    then (let imm = bit_and (inst / 2 ^ 10) 0x7 * 2 ^ 3 <|> bit_and (inst / 2 ^ 5) 0x3 * 2 ^ 6 in
        let rs1 = 8 + bit_and (inst / 2 ^ 7) 0x7 in
        let rs2 = 8 + bit_and (inst / 2 ^ 2) 0x7 in
        let imm_low = bit_and imm 0x1F in
        let imm_high = imm / 2 ^ 5 in
        imm_high * 2 ^ 25
        <|> rs2 * 2 ^ 20
        <|> rs1 * 2 ^ 15
        <|> funct3_sd * 2 ^ 12
        <|> imm_low * 2 ^ 7
        <|> op_store)
    else 0
