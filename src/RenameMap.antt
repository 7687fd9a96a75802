-- ===== src/RenameMap.antt =====
-- crates/hardware/src/core/pipeline/rename_map.rs: the physical register of each architectural one.
-- An index past the 32 registers of a file panics in the source; here a read is then 0 and a write
-- does nothing.
pub mod Held
use rvsim.Base.{ℕ, ◌+◌, Bool, not, ◌&&◌, List, get_or, set, if◌then◌else◌}
use rvsim.Types.{RegIdx, is_zero}
use rvsim.FreeList.{range}

pub record RenameMap : Type 0 where
  pub gpr : List ℕ
  pub fpr : List ℕ

unfoldable pub new : RenameMap
new = record { gpr = range 0 32; fpr = range 32 32 }

-- x0
abbrev pub is_x0 : RegIdx → Bool → Bool
is_x0 reg is_fp = not is_fp && is_zero reg

unfoldable pub get : RenameMap → RegIdx → Bool → ℕ
get m reg is_fp =
    if is_x0 reg is_fp then 0 else if is_fp then get_or m.fpr reg 0 else get_or m.gpr reg 0

pub set_mapping : RenameMap → RegIdx → Bool → ℕ → RenameMap
set_mapping m reg is_fp p =
    if is_x0 reg is_fp
    then m
    else if is_fp
    then record m { fpr = set m.fpr reg p }
    else record m { gpr = set m.gpr reg p }
