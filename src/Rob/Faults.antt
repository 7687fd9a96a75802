-- ===== src/Rob/Faults.antt =====
-- A fault stays: `complete` on an entry that has faulted changes nothing.
use rvsim.Base.{ℕ, ◌≡◌, refl, ap, ◌∙◌, List, [], ◌∷◌, arith}
use rvsim.Types.{ExceptionStage, Trap}
use rvsim.RobTag.{RobTag}
use rvsim.RobEntry.{RobEntry}
use rvsim.Rob.{Rob, completing, faulting, complete, fault}
use rvsim.Rob.Inv.{contents, IsValid}
use rvsim.Rob.Update.{amend, KeepsTag, update_entry_refines}

pub completing-KeepsTag : (result : ℕ) → KeepsTag (completing result)
completing-KeepsTag result e = ground arith

pub faulting-KeepsTag : (trap : Trap) (stage : ExceptionStage) → KeepsTag (faulting trap stage)
faulting-KeepsTag trap stage e = (refl, refl)

amend-completing-faulting :
    (t : RobTag) (result : ℕ) (trap : Trap) (stage : ExceptionStage) (es : List RobEntry)
    → amend t (completing result) (amend t (faulting trap stage) es)
      ≡ amend t (faulting trap stage) es
amend-completing-faulting t result trap stage [] = refl
amend-completing-faulting t result trap stage (e ∷ es) =
    ground (arith, amend-completing-faulting t result trap stage es)

-- Completing an instruction after it has faulted leaves the entries in flight as the fault alone
-- leaves them: the entry of that tag is faulted with the trap and its stage, the others are as before.
pub complete-fault :
    (r : Rob) (t : RobTag) (result : ℕ) (trap : Trap) (stage : ExceptionStage)
    → IsValid r
    → (contents (complete (fault r t trap stage) t result)
        ≡ amend t (faulting trap stage) (contents r))
      × IsValid (complete (fault r t trap stage) t result)
unfolding complete fault
complete-fault r t result trap stage v =
    let first = update_entry_refines v t (faulting trap stage) (faulting-KeepsTag trap stage) in
    let second = update_entry_refines first.1 t (completing result) (completing-KeepsTag result) in
    (
      second.0
          ∙ ap (amend t (completing result)) first.0
          ∙ amend-completing-faulting t result trap stage (contents r),
      second.1,
    )
