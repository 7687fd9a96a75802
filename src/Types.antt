-- ===== src/Types.antt =====
-- crates/hardware/src/common: the newtypes as plain numbers (`RegIdx` below 32, addresses and
-- values below 2 ^ 64, physical registers below 2 ^ 16), traps, and the actions that an instruction
-- defers to its commit.
use rvsim.Base.{ℕ, Bool, ◌==◌, List}

abbrev pub RegIdx : Type 0
RegIdx = ℕ

-- `RegIdx::is_zero`
abbrev pub is_zero : RegIdx → Bool
is_zero r = r == 0

pub data InstSize : Type 0 where
  compressed standard : InstSize

-- `InstSize::as_u64`
abbrev pub inst_bytes : InstSize → ℕ
inst_bytes compressed = 2
inst_bytes standard = 4

pub data ExceptionStage : Type 0 where
  fetch decode execute memory : ExceptionStage

pub data Trap : Type 0 where
  instruction_address_misaligned instruction_access_fault illegal_instruction : ℕ → Trap
  breakpoint load_address_misaligned load_access_fault : ℕ → Trap
  store_address_misaligned store_access_fault : ℕ → Trap
  environment_call_from_u_mode environment_call_from_s_mode environment_call_from_m_mode : Trap
  instruction_page_fault load_page_fault store_page_fault : ℕ → Trap
  user_software_interrupt supervisor_software_interrupt machine_software_interrupt : Trap
  machine_timer_interrupt supervisor_timer_interrupt : Trap
  machine_external_interrupt supervisor_external_interrupt user_external_interrupt : Trap
  requested_trap double_fault : ℕ → Trap

pub record PteUpdate : Type 0 where
  pub pte_addr : ℕ
  pub pte_value : ℕ

pub record SfenceVmaInfo : Type 0 where
  pub rs1_idx : RegIdx
  pub rs2_idx : RegIdx
  pub rs1_val : ℕ
  pub rs2_val : ℕ

pub data LrScRecord : Type 0 where
  lr sc : ℕ → LrScRecord

-- The branch history that a prediction was made with; the buffers only carry it.
pub record Ghr : Type 0 where
  pub bits : List ℕ
  pub len : ℕ
