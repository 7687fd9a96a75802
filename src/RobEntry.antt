-- ===== src/RobEntry.antt =====
-- The entries of the reorder buffer, `RobEntry` of crates/hardware/src/core/pipeline/rob.rs, with
-- its `Default`.
use rvsim.Base.{ℕ, Bool, true, false, Option, none, replicate}
use rvsim.Types.{
  RegIdx, InstSize, standard, ExceptionStage, Trap, PteUpdate, SfenceVmaInfo, LrScRecord, Ghr,
}
use rvsim.Signals.{
  ControlSignals, ControlFlow, MemWidth, AluOp, OpASrc, OpBSrc, SystemOp, CsrOp, AtomicOp,
}
use rvsim.RobTag.{RobTag}

pub record BpOutcome : Type 0 where
  pub taken : Bool
  pub mispredicted : Bool

pub data RobState : Type 0 where
  issued completed faulted : RobState

abbrev pub is_issued : RobState → Bool
is_issued issued = true
is_issued completed = false
is_issued faulted = false

abbrev pub is_completed : RobState → Bool
is_completed issued = false
is_completed completed = true
is_completed faulted = false

abbrev pub is_faulted : RobState → Bool
is_faulted issued = false
is_faulted completed = false
is_faulted faulted = true

pub record CsrUpdate : Type 0 where
  pub addr : ℕ
  pub old_val : ℕ
  pub new_val : ℕ
  pub applied : Bool

pub record RobEntry : Type 0 where
  pub tag : RobTag
  pub pc : ℕ
  pub inst : ℕ
  pub inst_size : InstSize
  pub rd : RegIdx
  pub rd_fp : Bool
  pub result : Option ℕ
  pub store_data : ℕ
  pub store_addr : ℕ
  pub ctrl : ControlSignals
  pub state : RobState
  pub trap : Option Trap
  pub exception_stage : Option ExceptionStage
  pub csr_update : Option CsrUpdate
  pub valid : Bool
  pub phys_dst : ℕ
  pub old_phys_dst : ℕ
  pub fp_flags : ℕ
  pub bp_update : Bool
  pub bp_outcome : BpOutcome
  pub bp_target : Option ℕ
  pub bp_pc : ℕ
  pub bp_ghr_snapshot : Ghr
  pub pte_update : Option PteUpdate
  pub sfence_vma : Option SfenceVmaInfo
  pub lr_sc : Option LrScRecord
  pub checkpoint_id : Option ℕ

abbrev pub default_ghr : Ghr
default_ghr = record { bits = replicate 16 0; len = 0 }

abbrev pub default_ctrl : ControlSignals
default_ctrl = record {
  reg_write = false;
  fp_reg_write = false;
  mem_read = false;
  mem_write = false;
  control_flow = ControlFlow.sequential;
  is_rv32 = false;
  width = MemWidth.nop;
  signed_load = false;
  alu = AluOp.add;
  a_src = OpASrc.reg1;
  b_src = OpBSrc.imm;
  system_op = SystemOp.none;
  csr_addr = 0;
  csr_op = CsrOp.none;
  rs1_fp = false;
  rs2_fp = false;
  rs3_fp = false;
  atomic_op = AtomicOp.none;
}

-- The entry that `allocate` writes.
abbrev pub fresh_entry :
    RobTag → ℕ → ℕ → InstSize → RegIdx → Bool → ControlSignals → ℕ → ℕ → RobEntry
fresh_entry tag pc inst inst_size rd rd_fp ctrl phys_dst old_phys_dst = record {
  tag = tag;
  pc = pc;
  inst = inst;
  inst_size = inst_size;
  rd = rd;
  rd_fp = rd_fp;
  result = none;
  store_data = 0;
  store_addr = 0;
  ctrl = ctrl;
  state = issued;
  trap = none;
  exception_stage = none;
  csr_update = none;
  valid = true;
  phys_dst = phys_dst;
  old_phys_dst = old_phys_dst;
  fp_flags = 0;
  bp_update = false;
  bp_outcome = record { taken = false; mispredicted = false };
  bp_target = none;
  bp_pc = 0;
  bp_ghr_snapshot = default_ghr;
  pte_update = none;
  sfence_vma = none;
  lr_sc = none;
  checkpoint_id = none;
}

-- `RobEntry::default()`
unfoldable pub default_entry : RobEntry
default_entry =
    let e = fresh_entry 0 0 0 standard 0 false default_ctrl 0 0 in record e { valid = false }
