-- ===== src/Renaming.antt =====
-- The part of the out-of-order engine that moves physical registers: the renaming of one instruction
-- in core/pipeline/frontend/rename.rs, the register part of core/pipeline/backend/shared/commit.rs,
-- and the flushes of core/pipeline/backend/o3/mod.rs. The state holds the structures of `O3Engine`
-- that these touch.
pub mod Chain
pub mod Conserved
pub mod Steps
pub mod Retire
pub mod Amend
pub mod Flushes
pub mod Checkpoints
pub mod Accept
mod Tests
use rvsim.Base.{
  ℕ, Bool, true, false, not, ◌&&◌, ◌||◌, List, [], ◌∷◌, Option, none, some, if◌then◌else◌, ◌==◌,
  ltb, min,
}
use rvsim.Types.{RegIdx, InstSize, is_zero, Trap}
use rvsim.Signals.{ControlSignals}
use rvsim.RobTag.{RobTag}
use rvsim.RobEntry.{RobEntry}
use rvsim.Rob.{Rob, commit_head, find_entry}
use rvsim.Rob
use rvsim.Rob.Queries.{iter_in_order, iter_after}
use rvsim.FreeList.{FreeList, reclaim}
use rvsim.FreeList
use rvsim.RenameMap.{RenameMap, get, set_mapping}
use rvsim.RenameMap
use rvsim.PhysRegFile
use rvsim.PhysRegFile.{PhysRegFile, mark_arch_ready}
use rvsim.CheckpointTable.{CheckpointTable, Checkpoint, find_by_tag}

pub record O3State : Type 0 where
  pub rob : Rob
  pub free_list : FreeList
  pub rename_map : RenameMap
  pub committed_rename_map : RenameMap
  pub prf : PhysRegFile

-- 32 + 32 architectural registers
abbrev pub num_arch : ℕ
num_arch = 64

pub new_state : ℕ → ℕ → O3State
new_state rob_size prf_total = record {
  rob = Rob.new rob_size;
  free_list = FreeList.new prf_total num_arch;
  rename_map = RenameMap.new;
  committed_rename_map = RenameMap.new;
  prf = mark_arch_ready (PhysRegFile.new prf_total) num_arch;
}

-- `(reg_write && !rd.is_zero()) || fp_reg_write`
abbrev pub needs_dst : RegIdx → ControlSignals → Bool
needs_dst rd ctrl = (ctrl.reg_write && not (is_zero rd)) || ctrl.fp_reg_write

-- The allocation of the reorder buffer entry for the registers `dst` and `old`, with the free list
-- that the allocation of `dst` left. When the buffer is full, `dst` goes back.
pub rename_with :
    O3State
    → ℕ
    → ℕ
    → InstSize
    → RegIdx
    → ControlSignals
    → FreeList
    → ℕ
    → ℕ
    → Option RobTag × O3State
rename_with s pc inst inst_size rd ctrl f dst old =
    let r = Rob.allocate s.rob pc inst inst_size rd ctrl.fp_reg_write ctrl dst old in
    elim r.0 [
      | none ↦
          (none, record s { rob = r.1; free_list = if needs_dst rd ctrl then reclaim f dst else f })
      | some t ↦ (
        some t,
        record s {
          rob = r.1;
          free_list = f;
          rename_map =
              if needs_dst rd ctrl
              then set_mapping s.rename_map rd ctrl.fp_reg_write dst
              else s.rename_map;
          prf = if needs_dst rd ctrl then PhysRegFile.allocate s.prf dst else s.prf;
        },
      )
    ]

-- The renaming of one instruction; `none` where the source puts it back and stops.
pub rename_one : O3State → ℕ → ℕ → InstSize → RegIdx → ControlSignals → Option RobTag × O3State
rename_one s pc inst inst_size rd ctrl =
    let taken = FreeList.allocate s.free_list in
    if needs_dst rd ctrl
    then elim taken.0 [
      | none ↦ (none, s)
      | some p ↦
          rename_with s pc inst inst_size rd ctrl taken.1 p (get s.rename_map rd ctrl.fp_reg_write)
    ]
    else rename_with s pc inst inst_size rd ctrl s.free_list 0 0

-- The register that a retiring instruction replaces is free again.
abbrev pub recycle : FreeList → RobEntry → FreeList
recycle f e = if e.old_phys_dst == e.phys_dst then f else reclaim f e.old_phys_dst

pub commit_registers : O3State → RobEntry → O3State
commit_registers s e =
    if e.ctrl.fp_reg_write
    then record s {
      free_list = recycle s.free_list e;
      committed_rename_map = set_mapping s.committed_rename_map e.rd true e.phys_dst;
    }
    else if e.ctrl.reg_write && not (is_zero e.rd)
    then record s {
      free_list = recycle s.free_list e;
      committed_rename_map = set_mapping s.committed_rename_map e.rd false e.phys_dst;
    }
    else s

-- A finished instruction retires.
pub commit_one : O3State → Option RobEntry × O3State
commit_one s =
    let r = commit_head s.rob in
    elim r.0 [
      | none ↦ (none, record s { rob = r.1 })
      | some e ↦ (some e, commit_registers (record s { rob = r.1 }) e)
    ]

abbrev pub has_trap : Option Trap → Bool
has_trap none = false
has_trap (some trap) = true

-- A faulted instruction leaves the buffer with its register reclaimed, and the trap is taken.
pub trap_one : O3State → Option RobEntry × O3State
trap_one s =
    let r = commit_head s.rob in
    elim r.0 [
      | none ↦ (none, record s { rob = r.1 })
      | some e ↦
          if has_trap e.trap
          then (
            some e,
            record s {
              rob = r.1;
              free_list = if e.phys_dst == 0 then s.free_list else reclaim s.free_list e.phys_dst;
            },
          )
          else (none, record s { rob = r.1 })
    ]

-- `for entry in entries { free_list.reclaim(entry.phys_dst) }`
pub reclaim_all : FreeList → List RobEntry → FreeList
reclaim_all f [] = f
reclaim_all f (e ∷ es) = reclaim_all (reclaim f e.phys_dst) es

-- The loop of `rebuild_rename_map`, and its body.
abbrev pub replay_one : RenameMap → RobEntry → RenameMap
replay_one m e =
    if e.ctrl.reg_write && not (is_zero e.rd)
    then set_mapping m e.rd false e.phys_dst
    else if e.ctrl.fp_reg_write
    then set_mapping m e.rd true e.phys_dst
    else m

pub replay : RenameMap → List RobEntry → RenameMap
replay m [] = m
replay m (e ∷ es) = replay (replay_one m e) es

pub rebuild_rename_map : O3State → O3State
rebuild_rename_map s = record s { rename_map = replay s.committed_rename_map (iter_in_order s.rob) }

-- The flush of everything in flight.
pub flush : O3State → O3State
flush s = record s {
  free_list = reclaim_all s.free_list (iter_in_order s.rob);
  rename_map = s.committed_rename_map;
  rob = Rob.flush_all s.rob;
}

-- The flush behind a tag, with the map rebuilt from the entries that survive.
pub flush_behind : O3State → RobTag → O3State
flush_behind s keep_tag = rebuild_rename_map (record s {
  free_list = reclaim_all s.free_list (iter_after s.rob keep_tag);
  rob = Rob.flush_after s.rob keep_tag;
})

-- The recovery from a misprediction without a checkpoint: behind the branch while it is in flight,
-- of everything once it has retired.
pub recover : O3State → RobTag → O3State
recover s keep_tag = elim (find_entry s.rob keep_tag) [
  | none ↦ rebuild_rename_map (record s {
    free_list = reclaim_all s.free_list (iter_in_order s.rob);
    rob = Rob.flush_all s.rob;
  })
  | some e ↦ flush_behind s keep_tag
]

-- The recovery with checkpoints: the map of the snapshot in place of the rebuilt one.
pub recover_checkpointed : O3State → CheckpointTable → RobTag → O3State
recover_checkpointed s c keep_tag = elim (find_by_tag c keep_tag) [
  | none ↦ recover s keep_tag
  | some ckpt ↦ record (recover s keep_tag) { rename_map = Checkpoint.rename_map ckpt }
]

-- `can_accept`, with the stall that is left and the free places of the store buffer, the load queue
-- and the issue queue.
pub can_accept : ℕ → O3State → ℕ → ℕ → ℕ → ℕ → ℕ
can_accept squash_stall_remaining s sb_free lq_free iq_free width =
    if ltb 0 squash_stall_remaining
    then 0
    else min
        (min (min (min (min (Rob.free_slots s.rob) sb_free) lq_free) iq_free)
          (FreeList.available s.free_list))
        width
