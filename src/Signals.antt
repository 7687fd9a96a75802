-- ===== src/Signals.antt =====
-- crates/hardware/src/core/pipeline/signals.rs: the control signals of a decoded instruction.
use rvsim.Base.{ℕ, Bool}

pub data AluOp : Type 0 where
  add sub sll slt sltu xor srl sra or and : AluOp
  mul mulh mulhsu mulhu div divu rem remu : AluOp
  f_add f_sub f_mul f_div f_sqrt f_min f_max f_m_add f_m_sub f_n_m_add f_n_m_sub : AluOp
  f_cvt_w_s f_cvt_l_s f_cvt_s_w f_cvt_s_l f_cvt_w_u_s f_cvt_l_u_s f_cvt_s_w_u f_cvt_s_l_u : AluOp
  f_cvt_s_d f_cvt_d_s f_sgn_j f_sgn_j_n f_sgn_j_x f_eq f_lt f_le f_class f_mv_to_x f_mv_to_f : AluOp

pub data AtomicOp : Type 0 where
  none lr sc swap add xor and or min max minu maxu : AtomicOp

pub data MemWidth : Type 0 where
  nop byte half word double : MemWidth

pub data OpASrc : Type 0 where
  reg1 pc zero : OpASrc

pub data OpBSrc : Type 0 where
  imm reg2 zero : OpBSrc

pub data ControlFlow : Type 0 where
  sequential branch jump : ControlFlow

pub data SystemOp : Type 0 where
  none mret sret wfi fence fence_i sfence_vma system : SystemOp

pub data CsrOp : Type 0 where
  none rw rs rc rwi rsi rci : CsrOp

pub record ControlSignals : Type 0 where
  pub reg_write : Bool
  pub fp_reg_write : Bool
  pub mem_read : Bool
  pub mem_write : Bool
  pub control_flow : ControlFlow
  pub is_rv32 : Bool
  pub width : MemWidth
  pub signed_load : Bool
  pub alu : AluOp
  pub a_src : OpASrc
  pub b_src : OpBSrc
  pub system_op : SystemOp
  pub csr_addr : ℕ
  pub csr_op : CsrOp
  pub rs1_fp : Bool
  pub rs2_fp : Bool
  pub rs3_fp : Bool
  pub atomic_op : AtomicOp

-- `width_to_bytes` of store_buffer.rs
abbrev pub width_to_bytes : MemWidth → ℕ
width_to_bytes MemWidth.byte = 1
width_to_bytes MemWidth.half = 2
width_to_bytes MemWidth.word = 4
width_to_bytes MemWidth.double = 8
width_to_bytes MemWidth.nop = 0
