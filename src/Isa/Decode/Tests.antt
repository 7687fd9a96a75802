-- ===== src/Isa/Decode/Tests.antt =====
-- Decoding at concrete instructions: addi x1, x2, -3; sd x5, -3(x2); a branch by -8; lui x1, -4096;
-- jal x1, -16.
use rvsim.Base.{refl, arith}
use rvsim.Base.Int.{negsuc}
use rvsim.Isa.Opcodes.{op_imm, op_store, op_lui, op_branch, op_jal}
use rvsim.Isa.Decode.{decode}
use rvsim.Isa.Decode.Formats.{word_i, word_s, word_b, word_u, word_j}
use rvsim.Isa.Decode.RoundTrip.{ReadsI, ReadsS, ReadsU, decode_round_trip}

decode_round_trip_example :
    ReadsI op_imm 1 3 2 (negsuc 2) (decode (word_i op_imm 1 3 2 (negsuc 2)))
    × ReadsS op_store 3 2 5 (negsuc 2) (decode (word_s op_store 3 2 5 (negsuc 2)))
    × ReadsS op_branch 3 2 5 (negsuc 7) (decode (word_b op_branch 3 2 5 (negsuc 7)))
    × ReadsU op_lui 1 (negsuc 4095) (decode (word_u op_lui 1 (negsuc 4095)))
    × ReadsU op_jal 1 (negsuc 15) (decode (word_j op_jal 1 (negsuc 15)))
decode_round_trip_example =
    decode_round_trip op_imm op_store op_lui 1 3 2 5 (negsuc 2) (negsuc 7) (negsuc 4095) (negsuc 15)
      refl refl refl (omega arith, omega arith, omega arith, omega arith) (omega arith, omega arith)
      ((omega arith, omega arith), omega arith) ((omega arith, omega arith), omega arith)
      ((omega arith, omega arith), omega arith)
