-- ===== src/Isa/Expand/Quadrant1.antt =====
-- crates/hardware/src/isa/rvc/expand.rs, quadrant 1. `<|>` is the `|` of the source, and `/ 2 ^ k`,
-- `* 2 ^ k` are its shifts.
use rvsim.Base.{ℕ, ◌+◌, ◌*◌, ◌/◌, ◌%◌, ◌^◌, ◌&&◌, bit_and, ◌==◌, if◌then◌else◌}
use rvsim.Isa.Expand.Notation.{◌<|>◌, sign_extend}
use rvsim.Isa.Opcodes.{
  funct3_add_sub, funct3_and, funct3_beq, funct3_bne, funct3_or, funct3_srl_sra, funct3_xor,
  funct7_sra, funct7_sub, op_branch, op_imm, op_imm_32, op_jal, op_lui, op_reg, op_reg_32,
  q1_c_addi, q1_c_addiw, q1_c_beqz, q1_c_bnez, q1_c_j, q1_c_li, q1_c_lui_addi16sp, q1_c_misc_alu,
}

unfoldable pub expand_misc : ℕ → ℕ
expand_misc inst =
    let bit12 = bit_and (inst / 2 ^ 12) 1 in
    let funct2 = bit_and (inst / 2 ^ 10) 0x3 in
    let rd = 8 + bit_and (inst / 2 ^ 7) 0x7 in
    let imm = sign_extend (bit_and (inst / 2 ^ 2) 0x1F <|> bit_and (inst / 2 ^ 12) 1 * 2 ^ 5) 6 in
    if funct2 == 0
    then (bit_and imm 0x3F * 2 ^ 20
        <|> rd * 2 ^ 15
        <|> funct3_srl_sra * 2 ^ 12
        <|> rd * 2 ^ 7
        <|> op_imm)
    else if funct2 == 1
    then (funct7_sra * 2 ^ 25
        <|> bit_and imm 0x3F * 2 ^ 20
        <|> rd * 2 ^ 15
        <|> funct3_srl_sra * 2 ^ 12
        <|> rd * 2 ^ 7
        <|> op_imm)
    else if funct2 == 2
    then (bit_and imm 0xFFF * 2 ^ 20
        <|> rd * 2 ^ 15
        <|> funct3_and * 2 ^ 12
        <|> rd * 2 ^ 7
        <|> op_imm)
    else if funct2 == 3
    then (let sub_op = bit_and (inst / 2 ^ 5) 0x3 in
        let rs2 = 8 + bit_and (inst / 2 ^ 2) 0x7 in
        if bit12 == 0 && sub_op == 0
        then (funct7_sub * 2 ^ 25
            <|> rs2 * 2 ^ 20
            <|> rd * 2 ^ 15
            <|> funct3_add_sub * 2 ^ 12
            <|> rd * 2 ^ 7
            <|> op_reg)
        else if bit12 == 0 && sub_op == 1
        then (rs2 * 2 ^ 20 <|> rd * 2 ^ 15 <|> funct3_xor * 2 ^ 12 <|> rd * 2 ^ 7 <|> op_reg)
        else if bit12 == 0 && sub_op == 2
        then (rs2 * 2 ^ 20 <|> rd * 2 ^ 15 <|> funct3_or * 2 ^ 12 <|> rd * 2 ^ 7 <|> op_reg)
        else if bit12 == 0 && sub_op == 3
        then (rs2 * 2 ^ 20 <|> rd * 2 ^ 15 <|> funct3_and * 2 ^ 12 <|> rd * 2 ^ 7 <|> op_reg)
        else if bit12 == 1 && sub_op == 0
        then (funct7_sub * 2 ^ 25
            <|> rs2 * 2 ^ 20
            <|> rd * 2 ^ 15
            <|> funct3_add_sub * 2 ^ 12
            <|> rd * 2 ^ 7
            <|> op_reg_32)
        else if bit12 == 1 && sub_op == 1
        then (rs2 * 2 ^ 20 <|> rd * 2 ^ 15 <|> funct3_add_sub * 2 ^ 12 <|> rd * 2 ^ 7 <|> op_reg_32)
        else 0)
    else 0

unfoldable pub expand : ℕ → ℕ
unfolding expand_misc
expand inst =
    let funct3 = bit_and (inst / 2 ^ 13) 0x7 in
    if funct3 == q1_c_addi
    then (let imm =
          sign_extend (bit_and (inst / 2 ^ 2) 0x1F <|> bit_and (inst / 2 ^ 12) 1 * 2 ^ 5) 6 in
        let rd = bit_and (inst / 2 ^ 7) 0x1F in
        bit_and imm 0xFFF * 2 ^ 20
        <|> rd * 2 ^ 15
        <|> funct3_add_sub * 2 ^ 12
        <|> rd * 2 ^ 7
        <|> op_imm)
    else if funct3 == q1_c_addiw
    then (let imm =
          sign_extend (bit_and (inst / 2 ^ 2) 0x1F <|> bit_and (inst / 2 ^ 12) 1 * 2 ^ 5) 6 in
        let rd = bit_and (inst / 2 ^ 7) 0x1F in
        if rd == 0
        then 0
        else bit_and imm 0xFFF * 2 ^ 20
          <|> rd * 2 ^ 15
          <|> funct3_add_sub * 2 ^ 12
          <|> rd * 2 ^ 7
          <|> op_imm_32)
    else if funct3 == q1_c_li
    then (let imm =
          sign_extend (bit_and (inst / 2 ^ 2) 0x1F <|> bit_and (inst / 2 ^ 12) 1 * 2 ^ 5) 6 in
        let rd = bit_and (inst / 2 ^ 7) 0x1F in
        bit_and imm 0xFFF * 2 ^ 20 <|> funct3_add_sub * 2 ^ 12 <|> rd * 2 ^ 7 <|> op_imm)
    else if funct3 == q1_c_lui_addi16sp
    then (let rd = bit_and (inst / 2 ^ 7) 0x1F in
        if rd == 2
        then (let imm =
              sign_extend
                (bit_and (inst / 2 ^ 6) 1 * 2 ^ 4
                  <|> bit_and (inst / 2 ^ 2) 1 * 2 ^ 5
                  <|> bit_and (inst / 2 ^ 5) 1 * 2 ^ 6
                  <|> bit_and (inst / 2 ^ 3) 3 * 2 ^ 7
                  <|> bit_and (inst / 2 ^ 12) 1 * 2 ^ 9)
                10 in
            if imm == 0
            then 0
            else bit_and imm 0xFFF * 2 ^ 20
              <|> 2 * 2 ^ 15
              <|> funct3_add_sub * 2 ^ 12
              <|> 2 * 2 ^ 7
              <|> op_imm)
        else let imm =
            sign_extend (bit_and (inst / 2 ^ 2) 0x1F <|> bit_and (inst / 2 ^ 12) 1 * 2 ^ 5) 6 in
          if imm == 0 then 0 else imm * 2 ^ 12 % 2 ^ 32 <|> rd * 2 ^ 7 <|> op_lui)
    else if funct3 == q1_c_misc_alu
    then expand_misc inst
    else if funct3 == q1_c_j
    then (let offset =
          sign_extend
            (bit_and (inst / 2 ^ 3) 0x7 * 2 ^ 1
              <|> bit_and (inst / 2 ^ 11) 1 * 2 ^ 4
              <|> bit_and (inst / 2 ^ 2) 1 * 2 ^ 5
              <|> bit_and (inst / 2 ^ 7) 1 * 2 ^ 6
              <|> bit_and (inst / 2 ^ 6) 1 * 2 ^ 7
              <|> bit_and (inst / 2 ^ 9) 3 * 2 ^ 8
              <|> bit_and (inst / 2 ^ 8) 1 * 2 ^ 10
              <|> bit_and (inst / 2 ^ 12) 1 * 2 ^ 11)
            12 in
        let imm20 = bit_and (offset / 2 ^ 20) 1 in
        let imm10_1 = bit_and (offset / 2 ^ 1) 0x3FF in
        let imm11 = bit_and (offset / 2 ^ 11) 1 in
        let imm19_12 = bit_and (offset / 2 ^ 12) 0xFF in
        imm20 * 2 ^ 31 <|> imm19_12 * 2 ^ 12 <|> imm11 * 2 ^ 20 <|> imm10_1 * 2 ^ 21 <|> op_jal)
    else if funct3 == q1_c_beqz
    then (let offset =
          sign_extend
            (bit_and (inst / 2 ^ 3) 0x3 * 2 ^ 1
              <|> bit_and (inst / 2 ^ 10) 0x3 * 2 ^ 3
              <|> bit_and (inst / 2 ^ 2) 1 * 2 ^ 5
              <|> bit_and (inst / 2 ^ 5) 0x3 * 2 ^ 6
              <|> bit_and (inst / 2 ^ 12) 1 * 2 ^ 8)
            9 in
        let rs1 = 8 + bit_and (inst / 2 ^ 7) 0x7 in
        let imm12 = bit_and (offset / 2 ^ 12) 1 in
        let imm10_5 = bit_and (offset / 2 ^ 5) 0x3F in
        let imm4_1 = bit_and (offset / 2 ^ 1) 0xF in
        let imm11 = bit_and (offset / 2 ^ 11) 1 in
        imm12 * 2 ^ 31
        <|> imm10_5 * 2 ^ 25
        <|> rs1 * 2 ^ 15
        <|> funct3_beq * 2 ^ 12
        <|> imm4_1 * 2 ^ 8
        <|> imm11 * 2 ^ 7
        <|> op_branch)
    else if funct3 == q1_c_bnez
    then (let offset =
          sign_extend
            (bit_and (inst / 2 ^ 3) 0x3 * 2 ^ 1
              <|> bit_and (inst / 2 ^ 10) 0x3 * 2 ^ 3
              <|> bit_and (inst / 2 ^ 2) 1 * 2 ^ 5
              <|> bit_and (inst / 2 ^ 5) 0x3 * 2 ^ 6
              <|> bit_and (inst / 2 ^ 12) 1 * 2 ^ 8)
            9 in
        let rs1 = 8 + bit_and (inst / 2 ^ 7) 0x7 in
        let imm12 = bit_and (offset / 2 ^ 12) 1 in
        let imm10_5 = bit_and (offset / 2 ^ 5) 0x3F in
        let imm4_1 = bit_and (offset / 2 ^ 1) 0xF in
        let imm11 = bit_and (offset / 2 ^ 11) 1 in
        imm12 * 2 ^ 31
        <|> imm10_5 * 2 ^ 25
        <|> rs1 * 2 ^ 15
        <|> funct3_bne * 2 ^ 12
        <|> imm4_1 * 2 ^ 8
        <|> imm11 * 2 ^ 7
        <|> op_branch)
    else 0
