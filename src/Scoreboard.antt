-- ===== src/Scoreboard.antt =====
-- crates/hardware/src/core/pipeline/scoreboard.rs: the tag of the latest instruction in flight that
-- writes each register. An index past 31 panics in the source; here a read is then `none` and a
-- write does nothing.
pub mod Tracks
mod Tests
use rvsim.Base.{
  ℕ, Bool, true, false, not, ◌&&◌, ◌||◌, List, [], ◌∷◌, Option, none, some, get_or, set, replicate,
  if◌then◌else◌, ◌==◌,
}
use rvsim.Types.{RegIdx, is_zero}
use rvsim.RobTag.{RobTag}
use rvsim.RobEntry.{RobEntry}
use rvsim.Rob.{Rob}
use rvsim.Rob.Queries.{iter_in_order}

pub record Scoreboard : Type 0 where
  pub gpr : List (Option RobTag)
  pub fpr : List (Option RobTag)

unfoldable pub new : Scoreboard
new = record { gpr = replicate 32 none; fpr = replicate 32 none }

unfoldable pub set_producer : Scoreboard → RegIdx → Bool → RobTag → Scoreboard
set_producer sb reg is_fp tag =
    if is_fp
    then record sb { fpr = set sb.fpr reg (some tag) }
    else if not (is_zero reg)
    then record sb { gpr = set sb.gpr reg (some tag) }
    else sb

unfoldable pub get_producer : Scoreboard → RegIdx → Bool → Option RobTag
get_producer sb reg is_fp = if is_fp then get_or sb.fpr reg none else get_or sb.gpr reg none

-- `*slot == Some(tag)`
abbrev pub holds : Option RobTag → RobTag → Bool
holds none tag = false
holds (some t) tag = t == tag

unfoldable pub clear_if_match : Scoreboard → RegIdx → Bool → RobTag → Scoreboard
clear_if_match sb reg is_fp tag =
    if is_fp
    then (if holds (get_or sb.fpr reg none) tag
        then record sb { fpr = set sb.fpr reg none }
        else sb)
    else if holds (get_or sb.gpr reg none) tag
    then record sb { gpr = set sb.gpr reg none }
    else sb

unfoldable pub flush : Scoreboard → Scoreboard
flush sb = record { gpr = replicate 32 none; fpr = replicate 32 none }

-- The closure of `rebuild_from_rob`, and its calls on the entries visited.
unfoldable pub remark : Scoreboard → RobEntry → Scoreboard
remark sb e =
    if e.ctrl.fp_reg_write
    then record sb { fpr = set sb.fpr e.rd (some e.tag) }
    else if e.ctrl.reg_write && not (is_zero e.rd)
    then record sb { gpr = set sb.gpr e.rd (some e.tag) }
    else sb

unfoldable pub remark_all : Scoreboard → List RobEntry → Scoreboard
remark_all sb [] = sb
remark_all sb (e ∷ es) = remark_all (remark sb e) es

unfoldable pub rebuild_from_rob : Scoreboard → Rob → Scoreboard
rebuild_from_rob sb rob = remark_all (flush sb) (iter_in_order rob)

-- What rename_stage does for an instruction that it dispatches, and commit_stage for one that it
-- retires.
unfoldable pub dispatch : Scoreboard → RobEntry → Scoreboard
dispatch sb e =
    if e.ctrl.reg_write || e.ctrl.fp_reg_write
    then set_producer sb e.rd e.ctrl.fp_reg_write e.tag
    else sb

unfoldable pub retire : Scoreboard → RobEntry → Scoreboard
retire sb e =
    if e.ctrl.fp_reg_write
    then clear_if_match sb e.rd true e.tag
    else if e.ctrl.reg_write && not (is_zero e.rd)
    then clear_if_match sb e.rd false e.tag
    else sb
