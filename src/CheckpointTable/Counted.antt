-- ===== src/CheckpointTable/Counted.antt =====
-- The count of the checkpoint table is the number of its occupied slots, whatever is done.
use rvsim.Base.{
  ℕ, zero, suc, ◌+◌, ◌-◌, ◌%◌, ◌^◌, ◌≤◌, ◌<◌, ◌≡◌, ◌⊎◌, inl, inr, refl, sym, ap, ◌∙◌, subst, true,
  false, List, [], ◌∷◌, Option, none, some, arith, length, length-set, get_or, set, if◌then◌else◌,
  ==_iff, ltb, ◌&&◌, Bool-cases, Option-cases,
}
use rvsim.RobTag.{RobTag, is_newer_than}
use rvsim.RenameMap.{RenameMap}
use rvsim.CheckpointTable.{
  Checkpoint, CheckpointTable, is_full, first_free, allocate, find_slot, find_by_tag, is_some, free,
  flush_slots, flush_after,
}

abbrev pub occupied : List (Option Checkpoint) → ℕ
occupied [] = 0
occupied (s ∷ ss) = (if is_some s then 1 else 0) + occupied ss

abbrev pub IsCounted : CheckpointTable → Type 0
IsCounted c = c.count ≡ occupied c.slots

occupied-le : (ss : List (Option Checkpoint)) → occupied ss ≤ length ss
occupied-le [] = omega arith
occupied-le (none ∷ ss) = omega (arith, occupied-le ss)
occupied-le (some c ∷ ss) = omega (arith, occupied-le ss)

occupied-set-some :
    (ss : List (Option Checkpoint)) (i j : ℕ) (c : Checkpoint)
    → first_free i ss ≡ some j
    → (d : ℕ) × (j ≡ i + d) × (d < length ss) × (occupied (set ss d (some c)) ≡ occupied ss + 1)
unfolding first_free
occupied-set-some [] i j c h = cc
occupied-set-some (none ∷ ss) i j c h = (0, ground arith, omega arith, omega arith)
occupied-set-some (some d ∷ ss) i j c h =
    let (k, eq, lt, more) = occupied-set-some ss (i + 1) j c h in
    (suc k, omega arith, omega arith, omega arith)

occupied_full :
    (ss : List (Option Checkpoint)) (i : ℕ) → first_free i ss ≡ none → occupied ss ≡ length ss
unfolding first_free
occupied_full [] i h = refl
occupied_full (none ∷ ss) i h = cc
occupied_full (some d ∷ ss) i h = omega (arith, occupied_full ss (i + 1) h)

find_slot-set :
    (t : RobTag) (ss : List (Option Checkpoint)) (j : ℕ) (c : Checkpoint)
    → find_slot t ss ≡ none
    → j < length ss
    → c.branch_tag ≡ t
    → find_slot t (set ss j (some c)) ≡ some c
unfolding find_slot
find_slot-set t [] j c h lt e = absurd (omega arith)
find_slot-set t (none ∷ ss) zero c h lt e = ground arith
find_slot-set t (some d ∷ ss) zero c h lt e = ground arith
find_slot-set t (none ∷ ss) (suc j) c h lt e = find_slot-set t ss j c h (omega arith) e
find_slot-set t (some d ∷ ss) (suc j) c h lt e = ground (arith, find_slot-set t ss j c)

occupied-flush :
    (t : RobTag) (ss : List (Option Checkpoint)) (n k : ℕ)
    → n ≡ occupied ss + k
    → (flush_slots t ss n).1 ≡ occupied (flush_slots t ss n).0 + k
unfolding flush_slots
occupied-flush t [] n k h = h
occupied-flush t (none ∷ ss) n k h = omega (arith, occupied-flush t ss n k (omega arith))
occupied-flush t (some c ∷ ss) n k h = elim (Bool-cases (is_newer_than c.branch_tag t)) [
  | inl newer ↦
      rw (newer, if◌then◌else◌) (omega (arith, occupied-flush t ss (n - 1) k (omega arith)))
  | inr older ↦
      rw (older, if◌then◌else◌) (omega (arith, occupied-flush t ss n (k + 1) (omega arith)))
]

abbrev snapshot : RobTag → RenameMap → Checkpoint
snapshot t m = record { branch_tag = t; rename_map = m }

abbrev written : CheckpointTable → RobTag → RenameMap → ℕ → CheckpointTable
written c t m i = record c { slots = set c.slots i (some (snapshot t m)); count = c.count + 1 }

allocate-none :
    (c : CheckpointTable) (t : RobTag) (m : RenameMap)
    → first_free 0 c.slots ≡ none
    → allocate c t m ≡ (none, c)
unfolding allocate
allocate-none c t m e = rw (e, allocate)

allocate-some :
    (c : CheckpointTable) (t : RobTag) (m : RenameMap) (i : ℕ)
    → first_free 0 c.slots ≡ some i
    → allocate c t m ≡ (some (i % 2 ^ 8), written c t m i)
unfolding allocate
allocate-some c t m i e = rw (e, allocate)

-- What an allocation leaves: nothing new in a full table, else a snapshot in one more slot.
abbrev pub Allocates : CheckpointTable → RobTag → RenameMap → Option ℕ × CheckpointTable → Type 0
Allocates c t m (id, c') =
    ((is_full c ≡ true) × (id ≡ none) × (c' ≡ c))
    ⊎ ((is_full c ≡ false)
        × ((i : ℕ) × (id ≡ some i) × (c'.slots ≡ set c.slots i (some (snapshot t m))))
        × IsCounted c'
        × (find_by_tag c t ≡ none → find_by_tag c' t ≡ some (snapshot t m)))

-- `allocate` answers `none` exactly when the table is full, and then changes nothing. Otherwise, in a
-- table of at most 256 slots, the slot that it names holds the snapshot and the others are as before,
-- the count is still that of the occupied slots, and a tag without a snapshot before is found with
-- this one.
pub allocate-IsCounted :
    (c : CheckpointTable) (t : RobTag) (m : RenameMap)
    → IsCounted c
    → length c.slots ≤ 2 ^ 8
    → Allocates c t m (allocate c t m)
unfolding is_full find_by_tag
allocate-IsCounted c t m counted small = elim (Option-cases (first_free 0 c.slots)) [
  | inl full ↦ subst (Allocates c t m) (sym (allocate-none c t m full)) (
      inl
        ((==_iff c.count (length c.slots)).1 (counted ∙ occupied_full c.slots 0 full), refl, refl))
  | inr (j, free_one) ↦
      let (k, eq, lt, more) = occupied-set-some c.slots 0 j (snapshot t m) free_one in
      let same : k ≡ j = omega arith in
      let room : c.count < length c.slots = omega (
        arith,
        counted,
        more,
        occupied-le (set c.slots k (some (snapshot t m))),
        length-set c.slots k (some (snapshot t m)),
      ) in
      subst (Allocates c t m) (sym (allocate-some c t m j free_one)) (
        inr (
          ground (arith, room),
          (j, ap some (omega arith), refl),
          counted' j k same more,
          λ absent. find_slot-set t c.slots j (snapshot t m) absent (omega arith) refl,
        ))
]
  where
    counted' :
        (j k : ℕ)
        → k ≡ j
        → occupied (set c.slots k (some (snapshot t m))) ≡ occupied c.slots + 1
        → c.count + 1 ≡ occupied (set c.slots j (some (snapshot t m)))
    counted' j k same more =
        subst (λ i. c.count + 1 ≡ occupied (set c.slots i (some (snapshot t m)))) same
          (omega (arith, counted, more))

find_slot-flush :
    (s t : RobTag) (ss : List (Option Checkpoint)) (n : ℕ)
    → find_slot s (flush_slots t ss n).0 ≡ (if is_newer_than s t then none else find_slot s ss)
unfolding find_slot flush_slots
find_slot-flush s t [] n = ground arith
find_slot-flush s t (none ∷ ss) n = find_slot-flush s t ss n
find_slot-flush s t (some c ∷ ss) n = elim (Bool-cases (is_newer_than c.branch_tag t)) [
  | inl newer ↦
      rw (newer, if◌then◌else◌)
        (ground (
          arith,
          find_slot-flush s t ss (n - 1),
          ap (λ x. is_newer_than x t) {x = c.branch_tag} {y = s},
          newer,
        ))
  | inr older ↦
      rw (older, if◌then◌else◌)
        (ground (
          arith,
          find_slot-flush s t ss n,
          ap (λ x. is_newer_than x t) {x = c.branch_tag} {y = s},
          older,
        ))
]

-- `flush_after` forgets exactly the snapshots of the branches newer than the tag, and the count is
-- still that of the occupied slots.
pub flush_after-IsCounted :
    (c : CheckpointTable) (t : RobTag)
    → IsCounted c
    → IsCounted (flush_after c t)
      × ((s : RobTag)
          → find_by_tag (flush_after c t) s ≡ (if is_newer_than s t then none else find_by_tag c s))
unfolding flush_after find_by_tag
flush_after-IsCounted c t counted = (
  omega (arith, occupied-flush t c.slots c.count 0 (omega (arith, counted))),
  λ s. find_slot-flush s t c.slots c.count,
)

occupied-set-none :
    (ss : List (Option Checkpoint)) (i : ℕ)
    → is_some (get_or ss i none) ≡ true
    → occupied (set ss i none) + 1 ≡ occupied ss
occupied-set-none [] i h = cc
occupied-set-none (s ∷ ss) zero h = ground arith
occupied-set-none (s ∷ ss) (suc i) h = omega (arith, occupied-set-none ss i h)

-- `free` keeps the count that of the occupied slots, whether or not it finds a snapshot.
pub free-IsCounted : (c : CheckpointTable) (id : ℕ) → IsCounted c → IsCounted (free c id)
unfolding free
free-IsCounted c id counted =
    elim (Bool-cases (ltb id (length c.slots) && is_some (get_or c.slots id none))) [
      | inl there ↦
          rw (there, if◌then◌else◌) (ground (arith, counted, occupied-set-none c.slots id))
      | inr gone ↦ rw (gone, if◌then◌else◌) counted
    ]
