-- ===== src/Renaming/Accept.antt =====
-- The budget of the rename stage: where it is not used up, no instruction is put back.
use rvsim.Base.{ℕ, ◌<◌, ◌≡◌, ap, ◌∙◌, inl, inr, some, arith, Bool-cases}
use rvsim.Types.{RegIdx, InstSize}
use rvsim.Signals.{ControlSignals}
use rvsim.Rob.{Rob, capacity}
use rvsim.Rob
use rvsim.Rob.Queue.{HasTagRoom, allocate_refines}
use rvsim.FreeList.{FreeList, available}
use rvsim.FreeList
use rvsim.FreeList.Counts.{allocate-cases}
use rvsim.RenameMap.{get}
use rvsim.Renaming.{O3State, needs_dst, rename_with, rename_one, can_accept}
use rvsim.Renaming.Conserved.{Conserved}
use rvsim.Renaming.Steps.{rename_fits, rename_one_plain, rename_one_served}

accepted-room :
    (stall : ℕ) (s : O3State) (sb_free lq_free iq_free width : ℕ)
    → 0 < can_accept stall s sb_free lq_free iq_free width
    → (s.rob.count < capacity s.rob) × (0 < available s.free_list)
unfolding can_accept Rob.free_slots
accepted-room stall s sb_free lq_free iq_free width h = (ground arith, ground arith)

-- While `can_accept` is positive and one more tag fits, the renaming of an instruction succeeds and
-- gives it the next tag: neither the free list nor the reorder buffer refuses.
pub can_accept-rename_one :
    (stall : ℕ) (s : O3State) (sb_free lq_free iq_free width pc inst : ℕ) (size : InstSize)
    (rd : RegIdx) (ctrl : ControlSignals)
    → Conserved s
    → HasTagRoom s.rob
    → 0 < can_accept stall s sb_free lq_free iq_free width
    → (rename_one s pc inst size rd ctrl).0 ≡ some s.rob.next_tag
can_accept-rename_one stall s sb_free lq_free iq_free width pc inst size rd ctrl c room h =
    let free = accepted-room stall s sb_free lq_free iq_free width h in
    elim (Bool-cases (needs_dst rd ctrl)) [
      | inr plain ↦
          ap (λ r. r.0) (rename_one_plain s pc inst size rd ctrl plain)
          ∙ given s.free_list 0 0 free.0
      | inl needs ↦ elim (allocate-cases s.free_list) [
        | inl (_, empty) ↦ absurd (omega (arith, free.1))
        | inr (p, served, _, _, _) ↦
            ap (λ r. r.0) (rename_one_served s pc inst size rd ctrl p needs served)
            ∙ given (FreeList.allocate s.free_list).1 p (get s.rename_map rd ctrl.fp_reg_write)
                free.0
      ]
    ]
  where
    given :
        (f : FreeList) (dst old : ℕ)
        → s.rob.count < capacity s.rob
        → (rename_with s pc inst size rd ctrl f dst old).0 ≡ some s.rob.next_tag
    given f dst old fits =
        elim (allocate_refines s.rob pc inst size rd ctrl.fp_reg_write ctrl dst old c.valid room) [
          | inl (full, _, _) ↦ absurd (omega arith)
          | inr (_, tagged, _, _) ↦
              ap (λ r. r.0) (rename_fits s pc inst size rd ctrl f dst old s.rob.next_tag tagged)
        ]
