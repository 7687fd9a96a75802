-- ===== src/Isa/Expand/Quadrant2.antt =====
-- crates/hardware/src/isa/rvc/expand.rs, quadrant 2. `<|>` is the `|` of the source, and `/ 2 ^ k`,
-- `* 2 ^ k` are its shifts.
use rvsim.Base.{ℕ, ◌*◌, ◌/◌, ◌^◌, bit_and, ◌==◌, if◌then◌else◌}
use rvsim.Isa.Expand.Notation.{◌<|>◌}
use rvsim.Isa.Opcodes.{
  ebreak, funct3_add_sub, funct3_ld, funct3_lw, funct3_sd, funct3_sll, funct3_sw, op_imm, op_jalr,
  op_load, op_load_fp, op_reg, op_store, op_store_fp, q2_c_fldsp, q2_c_fsdsp, q2_c_ldsp, q2_c_lwsp,
  q2_c_misc_alu, q2_c_sdsp, q2_c_slli, q2_c_swsp,
}

unfoldable pub expand : ℕ → ℕ
expand inst =
    let funct3 = bit_and (inst / 2 ^ 13) 0x7 in
    if funct3 == q2_c_slli
    then (let imm = bit_and (inst / 2 ^ 2) 0x1F <|> bit_and (inst / 2 ^ 12) 1 * 2 ^ 5 in
        let rd = bit_and (inst / 2 ^ 7) 0x1F in
        if rd == 0
        then 0
        else imm * 2 ^ 20 <|> rd * 2 ^ 15 <|> funct3_sll * 2 ^ 12 <|> rd * 2 ^ 7 <|> op_imm)
    else if funct3 == q2_c_fldsp
    then (let imm =
          bit_and (inst / 2 ^ 12) 1 * 2 ^ 5
          <|> bit_and (inst / 2 ^ 5) 0x3 * 2 ^ 3
          <|> bit_and (inst / 2 ^ 2) 0x7 * 2 ^ 6 in
        let rd = bit_and (inst / 2 ^ 7) 0x1F in
        imm * 2 ^ 20 <|> 2 * 2 ^ 15 <|> funct3_ld * 2 ^ 12 <|> rd * 2 ^ 7 <|> op_load_fp)
    else if funct3 == q2_c_lwsp
    then (let imm =
          bit_and (inst / 2 ^ 12) 1 * 2 ^ 5
          <|> bit_and (inst / 2 ^ 4) 0x7 * 2 ^ 2
          <|> bit_and (inst / 2 ^ 2) 0x3 * 2 ^ 6 in
        let rd = bit_and (inst / 2 ^ 7) 0x1F in
        if rd == 0
        then 0
        else imm * 2 ^ 20 <|> 2 * 2 ^ 15 <|> funct3_lw * 2 ^ 12 <|> rd * 2 ^ 7 <|> op_load)
    else if funct3 == q2_c_ldsp
    then (let imm =
          bit_and (inst / 2 ^ 12) 1 * 2 ^ 5
          <|> bit_and (inst / 2 ^ 5) 0x3 * 2 ^ 3
          <|> bit_and (inst / 2 ^ 2) 0x7 * 2 ^ 6 in
        let rd = bit_and (inst / 2 ^ 7) 0x1F in
        if rd == 0
        then 0
        else imm * 2 ^ 20 <|> 2 * 2 ^ 15 <|> funct3_ld * 2 ^ 12 <|> rd * 2 ^ 7 <|> op_load)
    else if funct3 == q2_c_misc_alu
    then (let bit12 = bit_and (inst / 2 ^ 12) 1 in
        let rs2 = bit_and (inst / 2 ^ 2) 0x1F in
        let rs1 = bit_and (inst / 2 ^ 7) 0x1F in
        if bit12 == 0
        then (if rs2 == 0
            then (if rs1 == 0 then 0 else rs1 * 2 ^ 15 <|> funct3_add_sub * 2 ^ 12 <|> op_jalr)
            else rs2 * 2 ^ 20 <|> funct3_add_sub * 2 ^ 12 <|> rs1 * 2 ^ 7 <|> op_reg)
        else if rs2 == 0
        then (if rs1 == 0
            then (ebreak)
            else rs1 * 2 ^ 15 <|> funct3_add_sub * 2 ^ 12 <|> 1 * 2 ^ 7 <|> op_jalr)
        else rs2 * 2 ^ 20 <|> rs1 * 2 ^ 15 <|> funct3_add_sub * 2 ^ 12 <|> rs1 * 2 ^ 7 <|> op_reg)
    else if funct3 == q2_c_fsdsp
    then (let imm = bit_and (inst / 2 ^ 10) 0x7 * 2 ^ 3 <|> bit_and (inst / 2 ^ 7) 0x7 * 2 ^ 6 in
        let rs2 = bit_and (inst / 2 ^ 2) 0x1F in
        let imm_low = bit_and imm 0x1F in
        let imm_high = imm / 2 ^ 5 in
        imm_high * 2 ^ 25
        <|> rs2 * 2 ^ 20
        <|> 2 * 2 ^ 15
        <|> funct3_sd * 2 ^ 12
        <|> imm_low * 2 ^ 7
        <|> op_store_fp)
    else if funct3 == q2_c_swsp
    then (let imm = bit_and (inst / 2 ^ 9) 0xF * 2 ^ 2 <|> bit_and (inst / 2 ^ 7) 0x3 * 2 ^ 6 in
        let rs2 = bit_and (inst / 2 ^ 2) 0x1F in
        let imm_low = bit_and imm 0x1F in
        let imm_high = imm / 2 ^ 5 in
        imm_high * 2 ^ 25
        <|> rs2 * 2 ^ 20
        <|> 2 * 2 ^ 15
        <|> funct3_sw * 2 ^ 12
        <|> imm_low * 2 ^ 7
        <|> op_store)
    else if funct3 == q2_c_sdsp
    then (let imm = bit_and (inst / 2 ^ 10) 0x7 * 2 ^ 3 <|> bit_and (inst / 2 ^ 7) 0x7 * 2 ^ 6 in
        let rs2 = bit_and (inst / 2 ^ 2) 0x1F in
        let imm_low = bit_and imm 0x1F in
        let imm_high = imm / 2 ^ 5 in
        imm_high * 2 ^ 25
        <|> rs2 * 2 ^ 20
        <|> 2 * 2 ^ 15
        <|> funct3_sd * 2 ^ 12
        <|> imm_low * 2 ^ 7
        <|> op_store)
    else 0
