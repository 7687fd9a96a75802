-- ===== src/Renaming/Retire.antt =====
-- The retirement of an instruction keeps the invariant of renaming: the register that it replaces is
-- free, and its own is committed.
use rvsim.Base.{
  ℕ, ◌+◌, ◌<◌, ◌≡◌, ◌≢◌, ◌⊎◌, refl, sym, ap, ◌∙◌, subst, inl, inr, true, false, ◌&&◌, List, [], ◌∷◌,
  none, some, arith, if◌then◌else◌, Bool-cases,
}
use rvsim.RobEntry.{RobEntry, is_issued}
use rvsim.Rob.{Rob, commit_head}
use rvsim.Rob.Inv.{IsValid, contents}
use rvsim.Rob.Commit.{commit_head_refines, retire}
use rvsim.FreeList.{reclaim, available}
use rvsim.FreeList.Counts.{
  same, occurs, occurs-reclaim, zero-reclaim, available-reclaim, capacity-reclaim,
}
use rvsim.RenameMap.{RenameMap, get, set_mapping, is_x0}
use rvsim.RenameMap.Held.{held, IsMap, held-set_mapping}
use rvsim.Renaming.{O3State, needs_dst, recycle, commit_registers, commit_one, replay, replay_one}
use rvsim.Renaming.Chain.{
  IsRenamed, Chain, replay_one-needs, replay_one-none, replay_one-IsMap, in_flight, holders,
}
use rvsim.Renaming.Conserved.{Conserved, exists_once}

pub retire-cases :
    (es : List RobEntry)
    → (((retire es).0 ≡ none) × ((retire es).1 ≡ es))
      ⊎ ((e : RobEntry) × ((retire es).0 ≡ some e) × (es ≡ e ∷ (retire es).1))
retire-cases [] = inl (refl, refl)
retire-cases (e ∷ es) = elim (Bool-cases (is_issued e.state)) [
  | inl waits ↦ rw (waits, if◌then◌else◌) (inl (refl, refl))
  | inr done ↦ rw (done, if◌then◌else◌) (inr (e, refl, refl))
]

-- An instruction with a destination does not write x0.
needs-is_x0 : (e : RobEntry) → needs_dst e.rd e.ctrl ≡ true → is_x0 e.rd e.ctrl.fp_reg_write ≡ false
needs-is_x0 e needs = ground arith

commit_registers_plain :
    (s : O3State) (e : RobEntry) → needs_dst e.rd e.ctrl ≡ false → commit_registers s e ≡ s
unfolding commit_registers
commit_registers_plain s e plain = ground arith

commit_registers_needs :
    (s : O3State) (e : RobEntry)
    → e.ctrl.reg_write && e.ctrl.fp_reg_write ≡ false
    → needs_dst e.rd e.ctrl ≡ true
    → commit_registers s e ≡ record s {
      free_list = recycle s.free_list e;
      committed_rename_map = set_mapping s.committed_rename_map e.rd e.ctrl.fp_reg_write e.phys_dst;
    }
unfolding commit_registers
commit_registers_needs s e one needs = ground arith

module _ (s : O3State) (c : Conserved s) (r : Rob) (v : IsValid r) where
  unchanged : contents r ≡ contents s.rob → Conserved (record s { rob = r })
  unchanged eq = record {
    valid = v;
    committed_IsMap = c.committed_IsMap;
    chain = subst (Chain s.committed_rename_map) (sym eq) c.chain;
    speculative = c.speculative ∙ ap (replay s.committed_rename_map) (sym eq);
    once = λ p lo.
        ap (λ es. occurs p s.free_list.queue + held p s.committed_rename_map + in_flight p es) eq
        ∙ c.once p lo;
    no_zero = c.no_zero;
    total = ap (λ es. available s.free_list + holders es + 64) eq ∙ c.total;
  }

  module _ (e : RobEntry) (eq : contents s.rob ≡ e ∷ contents r) where
    abbrev m : RenameMap
    m = s.committed_rename_map

    links : Chain m (e ∷ contents r)
    links = subst (Chain m) eq c.chain

    later : s.rename_map ≡ replay (replay_one m e) (contents r)
    unfolding replay
    later = c.speculative ∙ ap (replay m) eq

    retired_plain :
        needs_dst e.rd e.ctrl ≡ false → e.phys_dst ≡ 0 → Conserved (record s { rob = r })
    retired_plain plain z = record {
      valid = v;
      committed_IsMap = c.committed_IsMap;
      chain = subst (λ m'. Chain m' (contents r)) (replay_one-none m e plain) links.1;
      speculative = later ∙ ap (λ m'. replay m' (contents r)) (replay_one-none m e plain);
      once = λ p lo. ground (arith, c.once p lo, ap (in_flight p) eq, z);
      no_zero = c.no_zero;
      total = ground (arith, c.total, ap holders eq, z);
    }

    module _ (lt : e.rd < 32) (one : e.ctrl.reg_write && e.ctrl.fp_reg_write ≡ false)
        (needs : needs_dst e.rd e.ctrl ≡ true) (pos : e.phys_dst ≢ 0)
        (old : e.old_phys_dst ≡ get m e.rd e.ctrl.fp_reg_write) where
      moved :
          (p q : ℕ)
          → held p (set_mapping m e.rd e.ctrl.fp_reg_write q) + same p e.old_phys_dst
            ≡ held p m + same p q
      moved p q =
          ap (λ o. held p (set_mapping m e.rd e.ctrl.fp_reg_write q) + same p o) old
          ∙ held-set_mapping p m e.rd e.ctrl.fp_reg_write q c.committed_IsMap lt
              (needs-is_x0 e needs)

      old_pos : e.old_phys_dst ≢ 0
      old_pos z =
          c.committed_IsMap.named e.rd e.ctrl.fp_reg_write lt (needs-is_x0 e needs) (sym old ∙ z)

      -- The register that is replaced is committed, so it is not the destination as well.
      apart : e.old_phys_dst ≢ e.phys_dst
      apart z = ground (
        arith,
        moved e.phys_dst 0,
        c.once e.phys_dst (omega (arith, pos)),
        ap (in_flight e.phys_dst) eq,
      )

      recycled : recycle s.free_list e ≡ reclaim s.free_list e.old_phys_dst
      recycled = ground (arith, apart)

      retired_needs : Conserved (record s {
        rob = r;
        free_list = reclaim s.free_list e.old_phys_dst;
        committed_rename_map = set_mapping m e.rd e.ctrl.fp_reg_write e.phys_dst;
      })
      retired_needs =
          let f = s.free_list in
          let o = e.old_phys_dst in
          let step = replay_one-needs m e one needs in
          record {
            valid = v;
            committed_IsMap = subst IsMap step (replay_one-IsMap m e c.committed_IsMap links.0);
            chain = subst (λ m'. Chain m' (contents r)) step links.1;
            speculative = later ∙ ap (λ m'. replay m' (contents r)) step;
            once = λ p lo.
                omega (arith, occurs-reclaim p f o lo, moved p e.phys_dst, ap (in_flight p) eq)
                ∙ c.once p lo
                ∙ ap (exists_once p) (sym (capacity-reclaim f o));
            no_zero = zero-reclaim f o ∙ c.no_zero;
            total = ground (
              arith,
              c.total,
              available-reclaim f o,
              capacity-reclaim f o,
              ap holders eq,
              old_pos,
              pos,
            );
          }

    retired : Conserved (commit_registers (record s { rob = r }) e)
    retired = elim links.0.2 [
      | inl (needs, pos, old) ↦
          subst Conserved (sym (commit_registers_needs (record s { rob = r }) e links.0.1 needs)) (
            subst
              (λ f. Conserved (record s {
                rob = r;
                free_list = f;
                committed_rename_map = set_mapping m e.rd e.ctrl.fp_reg_write e.phys_dst;
              }))
              (sym (recycled links.0.0 links.0.1 needs pos old))
              (retired_needs links.0.0 links.0.1 needs pos old))
      | inr (plain, z) ↦
          subst Conserved (sym (commit_registers_plain (record s { rob = r }) e plain))
            (retired_plain plain z)
    ]

-- An entry that leaves was the front of the queue.
pub commit_head-front :
    (r : Rob) (e : RobEntry)
    → IsValid r
    → (commit_head r).0 ≡ some e
    → (contents r ≡ e ∷ contents (commit_head r).1) × IsValid (commit_head r).1
commit_head-front r e v eq =
    let refined = commit_head_refines r v in
    let answer = sym (ap (λ x. x.0) refined.0) ∙ eq in
    let left = ap (λ x. x.1) refined.0 in
    elim (retire-cases (contents r)) [
      | inl (refused, all) ↦ cc
      | inr (e', first, split) ↦
          let same : e' ≡ e = some_injective (sym first ∙ answer) in
          (split ∙ ap (λ x. x ∷ (retire (contents r)).1) same ∙ ap (◌∷◌ e) (sym left), refined.1)
    ]
  where
    some_injective : {x y : RobEntry} → some x ≡ some y → x ≡ y
    some_injective h = cc

commit_one-none :
    (s : O3State)
    → (commit_head s.rob).0 ≡ none
    → commit_one s ≡ (none, record s { rob = (commit_head s.rob).1 })
unfolding commit_one
commit_one-none s e = rw (e, commit_one)

commit_one-some :
    (s : O3State) (e : RobEntry)
    → (commit_head s.rob).0 ≡ some e
    → commit_one s ≡ (some e, commit_registers (record s { rob = (commit_head s.rob).1 }) e)
unfolding commit_one
commit_one-some s e eq = rw (eq, commit_one)

registers-replay :
    (s : O3State) (e : RobEntry)
    → IsRenamed s.committed_rename_map e
    → (commit_registers s e).committed_rename_map ≡ replay_one s.committed_rename_map e
registers-replay s e (lt, one, inl (needs, pos, old)) =
    ap (λ x. O3State.committed_rename_map x) (commit_registers_needs s e one needs)
    ∙ sym (replay_one-needs s.committed_rename_map e one needs)
registers-replay s e (lt, one, inr (plain, z)) =
    ap (λ x. O3State.committed_rename_map x) (commit_registers_plain s e plain)
    ∙ sym (replay_one-none s.committed_rename_map e plain)

registers-rob : (s : O3State) (e : RobEntry) → (commit_registers s e).rob ≡ s.rob
unfolding commit_registers
registers-rob s e = ground arith

-- What a retirement does to the queue: nothing, or its front leaves and is committed.
abbrev pub Shrinks : O3State → O3State → Type 0
Shrinks s s' =
    Conserved s'
    × (((contents s'.rob ≡ contents s.rob) × (s'.committed_rename_map ≡ s.committed_rename_map))
        ⊎ ((e : RobEntry) × (contents s.rob ≡ e ∷ contents s'.rob)
            × (s'.committed_rename_map ≡ replay_one s.committed_rename_map e)))

pub commit_one-Shrinks : (s : O3State) → Conserved s → Shrinks s (commit_one s).1
commit_one-Shrinks s c =
    let r = commit_head s.rob in
    let refined = commit_head_refines s.rob c.valid in
    let answer : r.0 ≡ (retire (contents s.rob)).0 = ap (λ x. x.0) refined.0 in
    let left : contents r.1 ≡ (retire (contents s.rob)).1 = ap (λ x. x.1) refined.0 in
    elim (retire-cases (contents s.rob)) [
      | inl (refused, all) ↦
          subst (λ x. Shrinks s x.1) (sym (commit_one-none s (answer ∙ refused)))
            (unchanged s c r.1 refined.1 (left ∙ all), inl (left ∙ all, refl))
      | inr (e, first, split) ↦
          let split' = split ∙ ap (◌∷◌ e) (sym left) in
          let s' = record s { rob = r.1 } in
          subst (λ x. Shrinks s x.1) (sym (commit_one-some s e (answer ∙ first)))
            (
              retired s c r.1 refined.1 e split',
              inr (
                e,
                split' ∙ ap (λ q. e ∷ contents q) (sym (registers-rob s' e)),
                registers-replay s' e (subst (Chain s.committed_rename_map) split' c.chain).0,
              ),
            )
    ]

-- The retirement of the instruction at the front, or its refusal, keeps the invariant of renaming.
pub commit_one-Conserved : (s : O3State) → Conserved s → Conserved (commit_one s).1
commit_one-Conserved s c = (commit_one-Shrinks s c).0
