-- ===== src/Renaming/Chain.antt =====
-- The renamings in flight as a chain: each was made on the map that the committed one becomes by
-- the older ones.
use rvsim.Base.{
  ℕ, ◌+◌, ◌≤◌, ◌<◌, ◌≡◌, ◌≢◌, ◌⊎◌, refl, sym, ◌∙◌, subst, inl, inr, true, false, ◌&&◌, List, [],
  ◌∷◌, ◌++◌, arith, if◌then◌else◌, ◌==◌,
}
use rvsim.RobEntry.{RobEntry}
use rvsim.FreeList.{FreeList, reclaim, available}
use rvsim.RenameMap.{RenameMap, get, set_mapping}
use rvsim.FreeList.Counts.{
  same, occurs, occurs-reclaim, zero-reclaim, available-reclaim, capacity-reclaim,
}
use rvsim.RenameMap.Held.{IsMap, set_mapping-IsMap}
use rvsim.Renaming.{needs_dst, replay_one, replay, reclaim_all}

-- What the renaming of one instruction on the map `m` left in its entry.
abbrev pub IsRenamed : RenameMap → RobEntry → Type 0
IsRenamed m e =
    (e.rd < 32)
    × (e.ctrl.reg_write && e.ctrl.fp_reg_write ≡ false)
    × (((needs_dst e.rd e.ctrl ≡ true)
          × (e.phys_dst ≢ 0)
          × (e.old_phys_dst ≡ get m e.rd e.ctrl.fp_reg_write))
        ⊎ ((needs_dst e.rd e.ctrl ≡ false) × (e.phys_dst ≡ 0)))

abbrev pub Chain : RenameMap → List RobEntry → Type 0
Chain m [] = Unit {0}
Chain m (e ∷ es) = IsRenamed m e × Chain (replay_one m e) es

pub replay-append :
    (m : RenameMap) (xs ys : List RobEntry) → replay m (xs ++ ys) ≡ replay (replay m xs) ys
unfolding replay
replay-append m [] ys = refl
replay-append m (x ∷ xs) ys = replay-append (replay_one m x) xs ys

pub Chain-append_right :
    (m : RenameMap) (xs : List RobEntry) (e : RobEntry)
    → Chain m xs
    → IsRenamed (replay m xs) e
    → Chain m (xs ++ e ∷ [])
unfolding replay
Chain-append_right m [] e c r = (r, tt)
Chain-append_right m (x ∷ xs) e c r = (c.0, Chain-append_right (replay_one m x) xs e c.1 r)

pub Chain-append_left : (m : RenameMap) (xs ys : List RobEntry) → Chain m (xs ++ ys) → Chain m xs
Chain-append_left m [] ys c = tt
Chain-append_left m (x ∷ xs) ys c = (c.0, Chain-append_left (replay_one m x) xs ys c.1)

-- Where an instruction writes one register file at most, the two orders of the tests agree.
pub replay_one-needs :
    (m : RenameMap) (e : RobEntry)
    → e.ctrl.reg_write && e.ctrl.fp_reg_write ≡ false
    → needs_dst e.rd e.ctrl ≡ true
    → replay_one m e ≡ set_mapping m e.rd e.ctrl.fp_reg_write e.phys_dst
replay_one-needs m e one needs = ground arith

pub replay_one-none :
    (m : RenameMap) (e : RobEntry) → needs_dst e.rd e.ctrl ≡ false → replay_one m e ≡ m
replay_one-none m e none_needed = ground arith

pub replay_one-IsMap :
    (m : RenameMap) (e : RobEntry) → IsMap m → IsRenamed m e → IsMap (replay_one m e)
replay_one-IsMap m e v (lt, one, inl (needs, pos, old)) =
    subst IsMap (sym (replay_one-needs m e one needs))
      (set_mapping-IsMap m e.rd e.ctrl.fp_reg_write e.phys_dst v lt pos)
replay_one-IsMap m e v (lt, one, inr (none_needed, z)) =
    subst IsMap (sym (replay_one-none m e none_needed)) v

-- How often a physical register is the destination of an instruction in flight, and how many
-- instructions in flight have one.
abbrev pub in_flight : ℕ → List RobEntry → ℕ
in_flight p [] = 0
in_flight p (e ∷ es) = same p e.phys_dst + in_flight p es

abbrev pub holders : List RobEntry → ℕ
holders [] = 0
holders (e ∷ es) = (if e.phys_dst == 0 then 0 else 1) + holders es

pub in_flight-append :
    (p : ℕ) (xs ys : List RobEntry) → in_flight p (xs ++ ys) ≡ in_flight p xs + in_flight p ys
in_flight-append p [] ys = omega arith
in_flight-append p (x ∷ xs) ys = omega (arith, in_flight-append p xs ys)

pub holders-append : (xs ys : List RobEntry) → holders (xs ++ ys) ≡ holders xs + holders ys
holders-append [] ys = omega arith
holders-append (x ∷ xs) ys = omega (arith, holders-append xs ys)

pub reclaim_all-counts :
    (f : FreeList) (es : List RobEntry)
    → ((p : ℕ) → 1 ≤ p → occurs p (reclaim_all f es).queue ≡ occurs p f.queue + in_flight p es)
      × (available (reclaim_all f es) ≡ available f + holders es)
      × ((reclaim_all f es).capacity ≡ f.capacity)
      × (occurs 0 (reclaim_all f es).queue ≡ occurs 0 f.queue)
unfolding reclaim_all
reclaim_all-counts f [] = (λ p h. omega arith, omega arith, refl, refl)
reclaim_all-counts f (e ∷ es) =
    let rest = reclaim_all-counts (reclaim f e.phys_dst) es in
    (
      λ p h. omega (arith, rest.0 p h, occurs-reclaim p f e.phys_dst h),
      omega (arith, rest.1, available-reclaim f e.phys_dst),
      rest.2 ∙ capacity-reclaim f e.phys_dst,
      rest.3 ∙ zero-reclaim f e.phys_dst,
    )
