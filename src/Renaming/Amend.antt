-- ===== src/Renaming/Amend.antt =====
-- What the execution of an instruction changes in its entry does not matter to renaming.
use rvsim.Base.{
  ℕ, ◌+◌, ◌≡◌, refl, sym, ap, ◌∙◌, subst, inl, inr, List, [], ◌∷◌, if◌then◌else◌, ◌==◌, Bool-cases,
}
use rvsim.RobTag.{RobTag}
use rvsim.RobEntry.{RobEntry}
use rvsim.Rob.{update_entry}
use rvsim.Rob.Inv.{contents}
use rvsim.Rob.Update.{KeepsTag, amend, update_entry_refines}
use rvsim.FreeList.{available}
use rvsim.FreeList.Counts.{same, occurs}
use rvsim.RenameMap.{RenameMap}
use rvsim.RenameMap.Held.{held}
use rvsim.Renaming.{O3State, replay, replay_one}
use rvsim.Renaming.Chain.{IsRenamed, Chain, in_flight, holders}
use rvsim.Renaming.Conserved.{Conserved}

-- The registers and the control signals of an entry stay.
abbrev pub KeepsRegisters : (RobEntry → RobEntry) → Type 0
KeepsRegisters f =
    (e : RobEntry)
    → ((f e).rd ≡ e.rd)
      × ((f e).ctrl ≡ e.ctrl)
      × ((f e).phys_dst ≡ e.phys_dst)
      × ((f e).old_phys_dst ≡ e.old_phys_dst)

module _ (t : RobTag) (f : RobEntry → RobEntry) (keeps : KeepsRegisters f) where
  replay_one-keeps : (m : RenameMap) (e : RobEntry) → replay_one m (f e) ≡ replay_one m e
  replay_one-keeps m e = rw ((keeps e).0, (keeps e).1, (keeps e).2)

  IsRenamed-keeps : (m : RenameMap) (e : RobEntry) → IsRenamed m e → IsRenamed m (f e)
  IsRenamed-keeps m e r = rw ((keeps e).0, (keeps e).1, (keeps e).2, (keeps e).3) r

  Chain-amend : (m : RenameMap) (es : List RobEntry) → Chain m es → Chain m (amend t f es)
  Chain-amend m [] c = tt
  Chain-amend m (e ∷ es) c = elim (Bool-cases (e.tag == t)) [
    | inl here ↦
        rw (here, if◌then◌else◌)
          (IsRenamed-keeps m e c.0, subst (λ m'. Chain m' es) (sym (replay_one-keeps m e)) c.1)
    | inr there ↦ rw (there, if◌then◌else◌) (c.0, Chain-amend (replay_one m e) es c.1)
  ]

  replay-amend : (m : RenameMap) (es : List RobEntry) → replay m (amend t f es) ≡ replay m es
  unfolding replay
  replay-amend m [] = refl
  replay-amend m (e ∷ es) = elim (Bool-cases (e.tag == t)) [
    | inl here ↦ rw (here, if◌then◌else◌) (ap (λ m'. replay m' es) (replay_one-keeps m e))
    | inr there ↦ rw (there, if◌then◌else◌) (replay-amend (replay_one m e) es)
  ]

  in_flight-amend : (p : ℕ) (es : List RobEntry) → in_flight p (amend t f es) ≡ in_flight p es
  in_flight-amend p [] = refl
  in_flight-amend p (e ∷ es) = elim (Bool-cases (e.tag == t)) [
    | inl here ↦ rw (here, if◌then◌else◌) (ap (λ q. same p q + in_flight p es) (keeps e).2)
    | inr there ↦ rw (there, if◌then◌else◌) (ap (λ n. same p e.phys_dst + n) (in_flight-amend p es))
  ]

  holders-amend : (es : List RobEntry) → holders (amend t f es) ≡ holders es
  holders-amend [] = refl
  holders-amend (e ∷ es) = elim (Bool-cases (e.tag == t)) [
    | inl here ↦
        rw (here, if◌then◌else◌) (ap (λ q. (if q == 0 then 0 else 1) + holders es) (keeps e).2)
    | inr there ↦
        rw (there, if◌then◌else◌)
          (ap (λ n. (if e.phys_dst == 0 then 0 else 1) + n) (holders-amend es))
  ]

  -- A change of an entry that keeps its tag, its registers and its control signals keeps the
  -- invariant of renaming.
  pub update_entry-Conserved :
      (s : O3State)
      → KeepsTag f
      → Conserved s
      → Conserved (record s { rob = update_entry s.rob t f })
  update_entry-Conserved s tagged c =
      let changed = update_entry_refines c.valid t f tagged in
      let m = s.committed_rename_map in
      let es = contents s.rob in
      record {
        valid = changed.1;
        committed_IsMap = c.committed_IsMap;
        chain = subst (Chain m) (sym changed.0) (Chain-amend m es c.chain);
        speculative = c.speculative ∙ sym (replay-amend m es) ∙ sym (ap (replay m) changed.0);
        once = λ p lo.
            ap (λ n. occurs p s.free_list.queue + held p m + n)
              (ap (in_flight p) changed.0 ∙ in_flight-amend p es)
            ∙ c.once p lo;
        no_zero = c.no_zero;
        total =
            ap (λ n. available s.free_list + n + 64) (ap holders changed.0 ∙ holders-amend es)
            ∙ c.total;
      }
