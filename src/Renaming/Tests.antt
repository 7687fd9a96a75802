-- ===== src/Renaming/Tests.antt =====
-- The theorems on renaming at an engine of four reorder buffer entries and 66 physical registers,
-- that has renamed one instruction which writes x5.
use rvsim.Base.{◌+◌, ◌-◌, ◌^◌, ◌≡◌, refl, sym, subst, true, false, some, arith}
use rvsim.Types.{standard, execute, Trap}
use rvsim.Signals.{ControlSignals}
use rvsim.RobEntry.{RobEntry, default_ctrl, default_entry, fresh_entry}
use rvsim.Rob.{Rob, update_entry, faulting, completing, commit_head}
use rvsim.Rob
use rvsim.Rob.Inv.{Aged}
use rvsim.Rob.Queue.{HasTagRoom}
use rvsim.Rob.Flush.{new-IsValid}
use rvsim.Rob.Faults.{faulting-KeepsTag}
use rvsim.FreeList
use rvsim.FreeList.{available}
use rvsim.RenameMap
use rvsim.RenameMap.{get}
use rvsim.Renaming.{O3State, new_state, rename_one, rename_with, commit_one, flush, recover}
use rvsim.Renaming.{replay, recover_checkpointed}
use rvsim.Renaming.Checkpoints.{InFlight, map_through, Runs, recover_checkpointed-recover}
use rvsim.CheckpointTable.{CheckpointTable, find_by_tag, find_slot}
use rvsim.Base.{none, ◌∷◌, [], ◌<◌}
use rvsim.RobTag.{next_after}
use rvsim.Renaming.{can_accept}
use rvsim.Renaming.Accept.{can_accept-rename_one}
use rvsim.Renaming.Conserved.{Conserved, new_state-Conserved}
use rvsim.Renaming.Steps.{rename_one-Conserved}
use rvsim.Renaming.Retire.{commit_one-Conserved}
use rvsim.Renaming.Amend.{update_entry-Conserved}
use rvsim.Renaming.Flushes.{flush-Conserved, recover-Conserved}

abbrev adder : ControlSignals
adder = record default_ctrl { reg_write = true }

abbrev start : O3State
start = new_state 4 66

start-HasTagRoom : HasTagRoom start.rob
unfolding new_state
start-HasTagRoom =
    subst (Aged start.rob.next_tag (2 ^ 31 - 2)) (sym (new-IsValid 4 (omega arith)).0) tt

rename_one-Conserved_example : Conserved (rename_one start 4096 19 standard 5 adder).1
rename_one-Conserved_example =
    rename_one-Conserved start 4096 19 standard 5 adder
      (new_state-Conserved 4 66 (omega arith) (omega arith)) start-HasTagRoom (omega arith) refl

abbrev renamed : O3State
renamed = (rename_one start 4096 19 standard 5 adder).1

renamed-Conserved : Conserved renamed
renamed-Conserved =
    rename_one-Conserved start 4096 19 standard 5 adder
      (new_state-Conserved 4 66 (omega arith) (omega arith)) start-HasTagRoom (omega arith) refl

commit_one-Conserved_example : Conserved (commit_one renamed).1
commit_one-Conserved_example = commit_one-Conserved renamed renamed-Conserved

flush-Conserved_example :
    Conserved (flush renamed)
    × (available (flush renamed).free_list + 64 ≡ (flush renamed).free_list.capacity)
flush-Conserved_example = flush-Conserved renamed renamed-Conserved

recover-Conserved_example : Conserved (recover renamed 1)
recover-Conserved_example = recover-Conserved renamed 1 renamed-Conserved

abbrev trapped : RobEntry → RobEntry
trapped = faulting (Trap.illegal_instruction 19) execute

abbrev with_trap : O3State
with_trap = record renamed { rob = update_entry renamed.rob 1 trapped }

with_trap-Conserved : Conserved with_trap
with_trap-Conserved =
    update_entry-Conserved 1 trapped (λ e. (refl, refl, refl, refl)) renamed
      (faulting-KeepsTag (Trap.illegal_instruction 19) execute) renamed-Conserved

abbrev faulty : RobEntry
faulty = trapped (fresh_entry 1 4096 19 standard 5 false adder 64 5)

with_trap-front : (commit_head with_trap.rob).0 ≡ some faulty
unfolding rename_one rename_with new_state Rob.new Rob.allocate FreeList.new FreeList.allocate
    RenameMap.new get default_entry update_entry commit_head
with_trap-front = refl

renamed-HasTagRoom : HasTagRoom renamed.rob
unfolding rename_one rename_with new_state Rob.new Rob.allocate FreeList.new FreeList.allocate
    RenameMap.new default_entry next_after
renamed-HasTagRoom = ground arith

renamed-InFlight : InFlight 1 renamed
unfolding rename_one rename_with new_state Rob.new Rob.allocate FreeList.new FreeList.allocate
    RenameMap.new default_entry
renamed-InFlight = (0, refl)

abbrev table : CheckpointTable
table = record {
  slots = none ∷ some (record { branch_tag = 1; rename_map = renamed.rename_map }) ∷ [];
  count = 1;
}

table-find_by_tag :
    find_by_tag table 1 ≡ some (record { branch_tag = 1; rename_map = renamed.rename_map })
unfolding find_by_tag find_slot
table-find_by_tag = refl

renamed-snapshot : renamed.rename_map ≡ map_through 1 renamed
unfolding rename_one rename_with new_state Rob.new Rob.allocate FreeList.new FreeList.allocate
    RenameMap.new default_entry replay
renamed-snapshot = refl

abbrev twice : O3State
twice = (rename_one renamed 4100 19 standard 6 adder).1

recover_checkpointed-recover_example : recover_checkpointed twice table 1 ≡ recover twice 1
recover_checkpointed-recover_example =
    recover_checkpointed-recover renamed twice table 1
      (record { branch_tag = 1; rename_map = renamed.rename_map }) renamed-Conserved
      renamed-InFlight renamed-snapshot
      (Runs.renamed renamed twice 4100 19 standard 6 adder renamed-HasTagRoom (omega arith) refl
        (Runs.done twice))
      table-find_by_tag

start-accepts : 0 < can_accept 0 start 4 4 4 2
unfolding can_accept new_state Rob.new Rob.free_slots FreeList.new FreeList.available
start-accepts = omega arith

can_accept-rename_one_example :
    (rename_one start 4096 19 standard 5 adder).0 ≡ some start.rob.next_tag
can_accept-rename_one_example =
    can_accept-rename_one 0 start 4 4 4 2 4096 19 standard 5 adder
      (new_state-Conserved 4 66 (omega arith) (omega arith)) start-HasTagRoom start-accepts
