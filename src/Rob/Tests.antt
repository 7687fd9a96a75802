-- ===== src/Rob/Tests.antt =====
-- The theorems on the reorder buffer at a concrete one: three instructions in four slots, from the
-- third slot on around the end, with the tags 2 ^ 32 - 1, 1 and 2.
use rvsim.Base.{◌<◌, ◌≡◌, ◌⊎◌, ◌↔◌, refl, false, [], ◌∷◌, ◌++◌, reverse, none, some, arith}
use rvsim.Types.{standard}
use rvsim.RobEntry.{RobEntry, completed, default_ctrl, fresh_entry, default_entry}
use rvsim.Rob.{Rob, capacity, insert_tag, allocate, commit_head, flush_after}
use rvsim.Rob.Inv.{contents, IsValid}
use rvsim.Rob.Queue.{allocate_refines}
use rvsim.Rob.Commit.{Retires, commit_head_refines}
use rvsim.Rob.Flush.{Cuts, flush_after_refines}
use rvsim.Rob.Queries.{find_latest_result, hardwired}
use rvsim.Base.{not, ◌&&◌, true}
use rvsim.RobEntry.{is_issued}
use rvsim.Rob.Queries.{
  all_before_completed, fence_pred_satisfied, fence_dominates, has_fence_blocking, fence_blocks,
}
use rvsim.Rob.Queries.Older.{before, every, some_one, all_before_completed-every}
use rvsim.Rob.Queries.Latest.{IsLatest, find_latest_result_iff}

abbrev oldest : RobEntry
oldest =
    let e = fresh_entry 4294967295 4096 19 standard 5 false default_ctrl 40 5 in
    record e { state = completed; result = some 7 }

abbrev middle : RobEntry
middle = fresh_entry 1 4100 19 standard 6 false default_ctrl 41 6

abbrev newest : RobEntry
newest = fresh_entry 2 4104 19 standard 7 false default_ctrl 42 7

abbrev three : Rob
three = record {
  entries = newest ∷ default_entry ∷ oldest ∷ middle ∷ [];
  head = 2;
  tail = 1;
  count = 3;
  next_tag = 3;
  tag_index = insert_tag (insert_tag (insert_tag (λ _. none) 4294967295 2) 1 3) 2 0;
}

three-IsValid : IsValid three
three-IsValid = record {
  head_lt = omega arith;
  count_le = omega arith;
  tail_eq = refl;
  next_IsTag = (omega arith, omega arith);
  live = (refl, (refl, (refl, tt)));
  aged = ground arith;
  indexed = λ t. ground arith;
}

commit_head_refines_example : Retires three (commit_head three)
commit_head_refines_example = commit_head_refines three three-IsValid

flush_after_refines_example : Cuts 1 three (flush_after three 1)
flush_after_refines_example = flush_after_refines three 1 three-IsValid

find_latest_result_iff_example :
    (find_latest_result three 5 false ≡ some 7)
    ↔ ((hardwired 5 false ≡ false) × IsLatest 5 false 7 (reverse (contents three)))
find_latest_result_iff_example = find_latest_result_iff three 5 false 7 three-IsValid

allocate_refines_example :
    let (t, r') = allocate three 4108 19 standard 8 false default_ctrl 43 8 in
    ((three.count ≡ capacity three) × (t ≡ none) × (r' ≡ three))
    ⊎ ((three.count < capacity three)
        × (t ≡ some 3)
        × (contents r'
            ≡ contents three ++ fresh_entry 3 4108 19 standard 8 false default_ctrl 43 8 ∷ [])
        × IsValid r')
allocate_refines_example =
    allocate_refines three 4108 19 standard 8 false default_ctrl 43 8 three-IsValid (ground arith)

all_before_completed-every_example :
    (all_before_completed three 2
      ≡ every (λ e. not (is_issued e.state)) (before 2 (contents three)))
    × (fence_pred_satisfied three 2 true false
        ≡ every
            (λ e. not (is_issued e.state && fence_dominates true false e))
            (before 2 (contents three)))
    × (has_fence_blocking three 2 true false
        ≡ some_one (fence_blocks true false) (before 2 (contents three)))
all_before_completed-every_example =
    all_before_completed-every three 2 true false true false three-IsValid
