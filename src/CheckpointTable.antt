-- ===== src/CheckpointTable.antt =====
-- crates/hardware/src/core/pipeline/checkpoint.rs: the snapshots of the rename map that branches
-- leave. `count -= 1` underflows in the source where ℕ stops at 0; `IsCounted` keeps it above 0 there.
pub mod Counted
use rvsim.Base.{
  ℕ, zero, suc, ◌+◌, ◌-◌, ◌%◌, ◌^◌, Bool, true, false, List, [], ◌∷◌, Option, none, some, length,
  get_or, set, replicate, map, if◌then◌else◌, ◌==◌, ltb, ◌&&◌,
}
use rvsim.RobTag.{RobTag, is_newer_than}
use rvsim.RenameMap.{RenameMap}

pub record Checkpoint : Type 0 where
  pub branch_tag : RobTag
  pub rename_map : RenameMap

pub record CheckpointTable : Type 0 where
  pub slots : List (Option Checkpoint)
  pub count : ℕ

pub new : ℕ → CheckpointTable
new capacity = record { slots = replicate capacity none; count = 0 }

pub is_full : CheckpointTable → Bool
is_full c = c.count == length c.slots

pub available : CheckpointTable → ℕ
available c = length c.slots - c.count

-- The first free slot, from index `i` on.
pub first_free : ℕ → List (Option Checkpoint) → Option ℕ
first_free i [] = none
first_free i (none ∷ ss) = some i
first_free i (some c ∷ ss) = first_free (i + 1) ss

-- The identifier is `i as u8`.
pub allocate : CheckpointTable → RobTag → RenameMap → Option ℕ × CheckpointTable
allocate c branch_tag rename_map = elim (first_free 0 c.slots) [
  | none ↦ (none, c)
  | some i ↦ (
    some (i % 2 ^ 8),
    record c {
      slots = set c.slots i (some (record { branch_tag = branch_tag; rename_map = rename_map }));
      count = c.count + 1;
    },
  )
]

unfoldable pub find_slot : RobTag → List (Option Checkpoint) → Option Checkpoint
find_slot t [] = none
find_slot t (none ∷ ss) = find_slot t ss
find_slot t (some c ∷ ss) = if c.branch_tag == t then some c else find_slot t ss

unfoldable pub find_by_tag : CheckpointTable → RobTag → Option Checkpoint
find_by_tag c t = find_slot t c.slots

abbrev pub is_some : Option Checkpoint → Bool
is_some none = false
is_some (some c) = true

pub free : CheckpointTable → ℕ → CheckpointTable
free c id =
    if ltb id (length c.slots) && is_some (get_or c.slots id none)
    then record c { slots = set c.slots id none; count = c.count - 1 }
    else c

-- The loop of `flush_after`: the slots and the count that it leaves.
pub flush_slots : RobTag → List (Option Checkpoint) → ℕ → List (Option Checkpoint) × ℕ
flush_slots t [] n = ([], n)
flush_slots t (none ∷ ss) n = let rest = flush_slots t ss n in (none ∷ rest.0, rest.1)
flush_slots t (some c ∷ ss) n =
    let newer = is_newer_than c.branch_tag t in
    let rest = flush_slots t ss (if newer then n - 1 else n) in
    ((if newer then none else some c) ∷ rest.0, rest.1)

pub flush_after : CheckpointTable → RobTag → CheckpointTable
flush_after c keep_tag =
    let left = flush_slots keep_tag c.slots c.count in record { slots = left.0; count = left.1 }

pub flush_all : CheckpointTable → CheckpointTable
flush_all c = record { slots = map {A = Option Checkpoint} (λ s. none) c.slots; count = 0 }
