-- ===== src/Renaming/Steps.antt =====
-- The renaming and the retirement of one instruction keep the invariant of renaming.
use rvsim.Base.{
  ℕ, ◌+◌, ◌≤◌, ◌<◌, ◌≡◌, ◌≢◌, ◌⊎◌, refl, sym, ap, ◌∙◌, subst, inl, inr, Bool, true, false, ◌&&◌,
  List, [], ◌∷◌, ◌++◌, Option, none, some, arith, if◌then◌else◌, ◌==◌, Bool-cases,
}
use rvsim.Types.{RegIdx, InstSize}
use rvsim.Signals.{ControlSignals}
use rvsim.RobTag.{RobTag}
use rvsim.RobEntry.{RobEntry, fresh_entry}
use rvsim.Rob.{Rob, commit_head}
use rvsim.Rob
use rvsim.Rob.Inv.{IsValid, contents}
use rvsim.Rob.Queue.{HasTagRoom, allocate_refines}
use rvsim.FreeList.{FreeList, reclaim, available}
use rvsim.FreeList
use rvsim.FreeList.Counts.{
  same, occurs, occurs-reclaim, zero-reclaim, available-reclaim, capacity-reclaim, allocate-cases,
}
use rvsim.PhysRegFile
use rvsim.RenameMap.{RenameMap, get, set_mapping}
use rvsim.Renaming.{O3State, needs_dst, rename_with, rename_one, replay, replay_one}
use rvsim.Renaming.Chain.{
  IsRenamed, Chain, Chain-append_right, replay-append, replay_one-needs, replay_one-none, in_flight,
  holders, in_flight-append, holders-append,
}
use rvsim.Renaming.Conserved.{Conserved, exists_once}

same-none : (p q : ℕ) → 1 ≤ p → q ≡ 0 → same p q ≡ 0
same-none p q lo z = ground arith

replay-snoc :
    (m : RenameMap) (es : List RobEntry) (e : RobEntry)
    → replay m (es ++ e ∷ []) ≡ replay_one (replay m es) e
unfolding replay
replay-snoc m es e = replay-append m es (e ∷ [])

-- What a renaming does to the queue: it gains one entry at most, and what is committed stays.
abbrev pub Grows : O3State → O3State → Type 0
Grows s s' =
    Conserved s'
    × (s'.committed_rename_map ≡ s.committed_rename_map)
    × ((contents s'.rob ≡ contents s.rob)
        ⊎ ((e : RobEntry) × (contents s'.rob ≡ contents s.rob ++ e ∷ [])))

module _ (s : O3State) (pc inst : ℕ) (size : InstSize) (rd : RegIdx) (ctrl : ControlSignals) where
  abbrev fp : Bool
  fp = ctrl.fp_reg_write

  abbrev allocated : ℕ → ℕ → Option RobTag × Rob
  allocated dst old = Rob.allocate s.rob pc inst size rd fp ctrl dst old

  rename_full :
      (f : FreeList) (dst old : ℕ)
      → (allocated dst old).0 ≡ none
      → rename_with s pc inst size rd ctrl f dst old ≡ (
        none,
        record s {
          rob = (allocated dst old).1;
          free_list = if needs_dst rd ctrl then reclaim f dst else f;
        },
      )
  unfolding rename_with
  rename_full f dst old e = rw (e, rename_with)

  pub rename_fits :
      (f : FreeList) (dst old : ℕ) (t : RobTag)
      → (allocated dst old).0 ≡ some t
      → rename_with s pc inst size rd ctrl f dst old ≡ (
        some t,
        record s {
          rob = (allocated dst old).1;
          free_list = f;
          rename_map =
              if needs_dst rd ctrl then set_mapping s.rename_map rd fp dst else s.rename_map;
          prf = if needs_dst rd ctrl then PhysRegFile.allocate s.prf dst else s.prf;
        },
      )
  unfolding rename_with
  rename_fits f dst old t e = rw (e, rename_with)

  pub rename_one_plain :
      needs_dst rd ctrl ≡ false
      → rename_one s pc inst size rd ctrl ≡ rename_with s pc inst size rd ctrl s.free_list 0 0
  unfolding rename_one
  rename_one_plain n = rw (n, if◌then◌else◌)

  rename_one_starved :
      needs_dst rd ctrl ≡ true
      → (FreeList.allocate s.free_list).0 ≡ none
      → rename_one s pc inst size rd ctrl ≡ (none, s)
  unfolding rename_one
  rename_one_starved n e = rw (n, if◌then◌else◌) (rw e)

  pub rename_one_served :
      (p : ℕ)
      → needs_dst rd ctrl ≡ true
      → (FreeList.allocate s.free_list).0 ≡ some p
      → rename_one s pc inst size rd ctrl
        ≡ rename_with s pc inst size rd ctrl
            (FreeList.allocate s.free_list).1
            p
            (get s.rename_map rd fp)
  unfolding rename_one
  rename_one_served p n e = rw (n, if◌then◌else◌) (rw e)

  module _ (c : Conserved s) (room : HasTagRoom s.rob) (lt : rd < 32)
      (one : ctrl.reg_write && fp ≡ false) where
    abbrev Counted : FreeList → ℕ → Type 0
    Counted f dst =
        ((p : ℕ) → 1 ≤ p → occurs p s.free_list.queue ≡ same p dst + occurs p f.queue)
        × (available s.free_list ≡ (if dst == 0 then 0 else 1) + available f)
        × (f.capacity ≡ s.free_list.capacity)
        × (occurs 0 f.queue ≡ 0)

    abbrev WellPlaced : ℕ → ℕ → Type 0
    WellPlaced dst old =
        ((needs_dst rd ctrl ≡ true) × (dst ≢ 0) × (old ≡ get s.rename_map rd fp))
        ⊎ ((needs_dst rd ctrl ≡ false) × (dst ≡ 0))

    given_back :
        (f : FreeList) (dst old : ℕ)
        → Counted f dst
        → WellPlaced dst old
        → Conserved (record s { free_list = if needs_dst rd ctrl then reclaim f dst else f })
    given_back f dst old k (inl (needs, pos, eq)) =
        rw (needs, if◌then◌else◌)
          (record {
            valid = c.valid;
            committed_IsMap = c.committed_IsMap;
            chain = c.chain;
            speculative = c.speculative;
            once = λ p lo.
                omega (arith, k.0 p lo, occurs-reclaim p f dst lo)
                ∙ c.once p lo
                ∙ ap (exists_once p) (sym (capacity-reclaim f dst ∙ k.2));
            no_zero = zero-reclaim f dst ∙ k.3;
            total =
                omega (arith, c.total, k.1, k.2, available-reclaim f dst, capacity-reclaim f dst);
          })
    given_back f dst old k (inr (not_needed, z)) =
        rw (not_needed, if◌then◌else◌)
          (record {
            valid = c.valid;
            committed_IsMap = c.committed_IsMap;
            chain = c.chain;
            speculative = c.speculative;
            once = λ p lo.
                omega (arith, k.0 p lo, same-none p dst lo z)
                ∙ c.once p lo
                ∙ ap (exists_once p) (sym k.2);
            no_zero = k.3;
            total = ground (arith, c.total, k.1, k.2, z);
          })

    replayed :
        (f : FreeList) (dst old : ℕ)
        → WellPlaced dst old
        → (if needs_dst rd ctrl then set_mapping s.rename_map rd fp dst else s.rename_map)
          ≡ replay_one s.rename_map (fresh_entry s.rob.next_tag pc inst size rd fp ctrl dst old)
    replayed f dst old (inl (needs, pos, eq)) =
        rw (needs, if◌then◌else◌)
          (sym (
            replay_one-needs s.rename_map
              (fresh_entry s.rob.next_tag pc inst size rd fp ctrl dst old) one needs))
    replayed f dst old (inr (not_needed, z)) =
        rw (not_needed, if◌then◌else◌)
          (sym (
            replay_one-none s.rename_map
              (fresh_entry s.rob.next_tag pc inst size rd fp ctrl dst old) not_needed))

    extended :
        (f : FreeList) (dst old : ℕ) (r : Rob)
        → Counted f dst
        → WellPlaced dst old
        → IsValid r
        → contents r
          ≡ contents s.rob ++ fresh_entry s.rob.next_tag pc inst size rd fp ctrl dst old ∷ []
        → Conserved (record s {
          rob = r;
          free_list = f;
          rename_map =
              if needs_dst rd ctrl then set_mapping s.rename_map rd fp dst else s.rename_map;
          prf = if needs_dst rd ctrl then PhysRegFile.allocate s.prf dst else s.prf;
        })
    extended f dst old r k w v eq =
        let e = fresh_entry s.rob.next_tag pc inst size rd fp ctrl dst old in
        let m = s.committed_rename_map in
        let es = contents s.rob in
        let renamed : IsRenamed (replay m es) e =
          subst (λ m'. IsRenamed m' e) c.speculative (lt, one, w) in
        record {
          valid = v;
          committed_IsMap = c.committed_IsMap;
          chain = subst (Chain m) (sym eq) (Chain-append_right m es e c.chain renamed);
          speculative =
              replayed f dst old w
              ∙ ap (λ m'. replay_one m' e) c.speculative
              ∙ sym (replay-snoc m es e)
              ∙ sym (ap (replay m) eq);
          once = λ p lo.
              omega (arith, k.0 p lo, ap (in_flight p) eq, in_flight-append p es (e ∷ []))
              ∙ c.once p lo
              ∙ ap (exists_once p) (sym k.2);
          no_zero = k.3;
          total = omega (arith, c.total, k.1, k.2, ap holders eq, holders-append es (e ∷ []));
        }

    with_dst :
        (f : FreeList) (dst old : ℕ)
        → Counted f dst
        → WellPlaced dst old
        → Grows s (rename_with s pc inst size rd ctrl f dst old).1
    with_dst f dst old k w =
        elim (allocate_refines s.rob pc inst size rd fp ctrl dst old c.valid room) [
          | inl (full, refused, unchanged) ↦
              subst (λ r. Grows s r.1) (sym (rename_full f dst old refused))
                (subst
                  (λ r. Grows s (record s {
                    rob = r;
                    free_list = if needs_dst rd ctrl then reclaim f dst else f;
                  }))
                  (sym unchanged) (given_back f dst old k w, refl, inl refl))
          | inr (fits, tagged, more, v) ↦
              subst (λ r. Grows s r.1) (sym (rename_fits f dst old s.rob.next_tag tagged))
                (extended f dst old (allocated dst old).1 k w v more, refl, inr (_, more))
        ]

    pub rename_one-Grows : Grows s (rename_one s pc inst size rd ctrl).1
    rename_one-Grows = elim (Bool-cases (needs_dst rd ctrl)) [
      | inr plain ↦
          subst (λ r. Grows s r.1) (sym (rename_one_plain plain))
            (with_dst s.free_list 0 0
              (λ p lo. omega (arith, same-none p 0 lo refl), omega arith, refl, c.no_zero)
              (inr (plain, refl)))
      | inl needs ↦ elim (allocate-cases s.free_list) [
        | inl (starved, _) ↦
            subst (λ r. Grows s r.1) (sym (rename_one_starved needs starved)) (c, refl, inl refl)
        | inr (p, served, counts, fewer, cap) ↦
            let pos : p ≢ 0 = λ z. ground (arith, z, counts 0, c.no_zero) in
            subst (λ r. Grows s r.1) (sym (rename_one_served p needs served))
              (with_dst (FreeList.allocate s.free_list).1 p (get s.rename_map rd fp)
                (
                  λ q lo. counts q,
                  ground (arith, fewer, pos),
                  cap,
                  omega (arith, counts 0, c.no_zero),
                )
                (inl (needs, pos, refl)))
      ]
    ]

    -- While one more tag fits, the renaming of an instruction that names a register below 32 and writes
    -- one register file at most keeps the invariant of renaming, also where it is refused.
    pub rename_one-Conserved : Conserved (rename_one s pc inst size rd ctrl).1
    rename_one-Conserved = rename_one-Grows.0
