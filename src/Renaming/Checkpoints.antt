-- ===== src/Renaming/Checkpoints.antt =====
-- The recovery from a checkpoint gives the map that the rebuild from the committed one would give.
use rvsim.Base.{
  ℕ, ◌^◌, ◌<◌, ◌≡◌, refl, sym, ap, ◌∙◌, subst, inl, inr, false, ◌&&◌, List, [], ◌∷◌, ◌++◌, none,
  some, arith, if◌then◌else◌, ◌==◌, ==_iff, Bool-cases, Option-cases,
}
use rvsim.Types.{RegIdx, InstSize}
use rvsim.Signals.{ControlSignals}
use rvsim.RobTag.{RobTag}
use rvsim.RobEntry.{RobEntry, default_entry}
use rvsim.Rob
use rvsim.Rob.{Rob, find_entry, update_entry}
use rvsim.Rob.Inv.{contents, position, position_old, Aged}
use rvsim.Rob.Queue.{HasTagRoom}
use rvsim.Rob.Update.{find_entry_refines, lookup_tag-get_or}
use rvsim.Rob.FlushLoops.{keep_through}
use rvsim.Rob.Flush.{flush_after_refines}
use rvsim.Rob.Queries.Squash.{iter_in_order-contents}
use rvsim.RenameMap.{RenameMap}
use rvsim.CheckpointTable.{CheckpointTable, Checkpoint, find_by_tag}
use rvsim.Renaming.{
  O3State, rename_one, commit_one, recover, recover_checkpointed, flush_behind, rebuild_rename_map,
  replay,
}
use rvsim.Renaming.Conserved.{Conserved}
use rvsim.Renaming.Steps.{Grows, rename_one-Grows}
use rvsim.Renaming.Retire.{Shrinks, commit_one-Shrinks}
use rvsim.Renaming.Flushes.{recover_behind}

-- The tag is in flight.
abbrev pub InFlight : RobTag → O3State → Type 0
InFlight t s = (n : ℕ) × (position t (contents s.rob) ≡ some n)

-- The map right after the renaming of the instruction with the tag.
abbrev pub map_through : RobTag → O3State → RenameMap
map_through t s = replay s.committed_rename_map (keep_through t (contents s.rob))

-- Renamings and retirements while the tag stays in flight.
pub data Runs (t : RobTag) : O3State → O3State → Type 0 where
  done : (s : O3State) → Runs t s s
  renamed :
      (s s' : O3State) (pc inst : ℕ) (size : InstSize) (rd : RegIdx) (ctrl : ControlSignals)
      → HasTagRoom s.rob
      → rd < 32
      → ctrl.reg_write && ctrl.fp_reg_write ≡ false
      → Runs t (rename_one s pc inst size rd ctrl).1 s'
      → Runs t s s'
  retired :
      (s s' : O3State) → InFlight t (commit_one s).1 → Runs t (commit_one s).1 s' → Runs t s s'

keep_through-append :
    (t : RobTag) (n : ℕ) (es : List RobEntry) (e : RobEntry)
    → position t es ≡ some n
    → (keep_through t (es ++ e ∷ []) ≡ keep_through t es) × (position t (es ++ e ∷ []) ≡ some n)
keep_through-append t n [] e h = cc
keep_through-append t n (x ∷ es) e h = elim (Option-cases (position t es)) [
  | inl gone ↦ ground (arith, gone)
  | inr (k, there) ↦
      let rest = keep_through-append t k es e there in ground (arith, there, rest.0, rest.1)
]

grows :
    (t : RobTag) (s s' : O3State)
    → Grows s s'
    → InFlight t s
    → InFlight t s' × (map_through t s' ≡ map_through t s)
grows t s s' (c, same, inl eq) (n, there) = (
  (n, ap (position t) eq ∙ there),
  ap (λ m. replay m (keep_through t (contents s'.rob))) same
      ∙ ap (λ es. replay s.committed_rename_map (keep_through t es)) eq,
)
grows t s s' (c, same, inr (e, eq)) (n, there) =
    let kept = keep_through-append t n (contents s.rob) e there in
    (
      (n, ap (position t) eq ∙ kept.1),
      ap (λ m. replay m (keep_through t (contents s'.rob))) same
          ∙ ap (λ es. replay s.committed_rename_map (keep_through t es)) eq
          ∙ ap (replay s.committed_rename_map) kept.0,
    )

-- The tag of an entry that leaves is not another entry's.
front-tag :
    (next bound n : ℕ) (t : RobTag) (e : RobEntry) (es : List RobEntry)
    → Aged next bound (e ∷ es)
    → position t es ≡ some n
    → (e.tag == t) ≡ false
front-tag next bound n t e es a there = elim (Bool-cases (e.tag == t)) [
  | inr apart ↦ apart
  | inl same ↦
      let gone : position t es ≡ none =
        ap (λ x. position x es) (sym ((==_iff e.tag t).0 same)) ∙ position_old next e.tag es a.3 in
      cc
]

shrinks :
    (t : RobTag) (s s' : O3State)
    → Conserved s
    → Shrinks s s'
    → InFlight t s'
    → map_through t s' ≡ map_through t s
unfolding replay
shrinks t s s' c0 (c, inl (eq, same)) (n, there) =
    ap (λ m. replay m (keep_through t (contents s'.rob))) same
    ∙ ap (λ es. replay s.committed_rename_map (keep_through t es)) eq
shrinks t s s' c0 (c, inr (e, eq, same)) (n, there) =
    let es = contents s'.rob in
    let m = s.committed_rename_map in
    let apart : (e.tag == t) ≡ false =
      front-tag s.rob.next_tag (2 ^ 31) n t e es
        (subst (Aged s.rob.next_tag (2 ^ 31)) eq c0.valid.aged) there in
    let kept : keep_through t (e ∷ es) ≡ e ∷ keep_through t es = rw (apart, if◌then◌else◌) refl in
    ap (λ m'. replay m' (keep_through t es)) same
    ∙ sym (ap (λ l. replay m (keep_through t l)) eq ∙ ap (replay m) kept)

runs :
    (t : RobTag) (s s' : O3State)
    → Conserved s
    → InFlight t s
    → Runs t s s'
    → Conserved s' × InFlight t s' × (map_through t s' ≡ map_through t s)
runs t s s' c f (done _) = (c, f, refl)
runs t s s' c f (renamed _ _ pc inst size rd ctrl room lt one rest) =
    let step = rename_one-Grows s pc inst size rd ctrl c room lt one in
    let next = grows t s (rename_one s pc inst size rd ctrl).1 step f in
    let later = runs t (rename_one s pc inst size rd ctrl).1 s' step.0 next.0 rest in
    (later.0, later.1, later.2 ∙ next.1)
runs t s s' c f (retired _ _ still rest) =
    let step = commit_one-Shrinks s c in
    let later = runs t (commit_one s).1 s' step.0 still rest in
    (later.0, later.1, later.2 ∙ shrinks t s (commit_one s).1 c step still)

-- The map that the recovery rebuilds while the branch is in flight.
recovered-map :
    (t : RobTag) (s : O3State)
    → Conserved s
    → InFlight t s
    → (recover s t).rename_map ≡ map_through t s
unfolding flush_behind rebuild_rename_map
recovered-map t s c (n, there) =
    let known =
      find_entry_refines c.valid t ∙ lookup_tag-get_or t default_entry (contents s.rob) n there in
    let kept = flush_after_refines s.rob t c.valid in
    ap (λ x. O3State.rename_map x) (recover_behind s t _ known)
    ∙ ap (replay s.committed_rename_map)
        (iter_in_order-contents (Rob.flush_after s.rob t) kept.1 ∙ kept.0)

restored :
    (s : O3State) (c : CheckpointTable) (t : RobTag) (ckpt : Checkpoint)
    → find_by_tag c t ≡ some ckpt
    → recover_checkpointed s c t ≡ record (recover s t) { rename_map = ckpt.rename_map }
unfolding recover_checkpointed
restored s c t ckpt h = rw (h, recover_checkpointed)

-- When the snapshot of a branch holds the map right after the branch was renamed, then after any
-- renamings and retirements during which the branch stays in flight, the recovery that restores the
-- snapshot gives the state that the rebuild from the surviving entries gives.
pub recover_checkpointed-recover :
    (s s' : O3State) (c : CheckpointTable) (t : RobTag) (ckpt : Checkpoint)
    → Conserved s
    → InFlight t s
    → ckpt.rename_map ≡ map_through t s
    → Runs t s s'
    → find_by_tag c t ≡ some ckpt
    → recover_checkpointed s' c t ≡ recover s' t
recover_checkpointed-recover s s' c t ckpt v f snap run here =
    let (v', f', same) = runs t s s' v f run in
    restored s' c t ckpt here
    ∙ ap (λ m. record (recover s' t) { rename_map = m })
        (snap ∙ sym same ∙ sym (recovered-map t s' v' f'))
