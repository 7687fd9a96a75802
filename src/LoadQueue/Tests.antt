-- ===== src/LoadQueue/Tests.antt =====
-- The theorems on the load queue at a concrete one: three loads in four slots, from the fourth slot
-- on around the end.
use rvsim.Base.{◌≡◌, refl, [], ◌∷◌, some, filter, arith}
use rvsim.Signals.{MemWidth}
use rvsim.RobTag.{is_older_or_eq}
use rvsim.LoadQueue.{
  LoadQueue, LoadQueueEntry, executed, loads, default_load, pending_load, deallocate, flush_after,
  check_ordering_violation,
}
use rvsim.LoadQueue.Inv.{IsSound}
use rvsim.LoadQueue.Ends.{flush_after-loads}
use rvsim.LoadQueue.Remove.{Removes, deallocate-Removes}
use rvsim.LoadQueue.Violation.Oldest.{IsAnswer, check_ordering_violation-IsAnswer}

abbrev early_load : LoadQueueEntry
early_load = record (pending_load 5 MemWidth.word) { paddr = some 2048; state = executed }

abbrev three_loads : LoadQueue
three_loads = record {
  entries =
      early_load ∷ pending_load 6 MemWidth.byte ∷ default_load ∷ pending_load 2 MemWidth.half ∷ [];
  head = 3;
  tail = 2;
  count = 3;
}

three_loads-IsSound : IsSound three_loads
three_loads-IsSound = record { head_lt = omega arith; count_le = omega arith; tail_eq = refl }

flush_after-loads_example :
    (loads (flush_after three_loads 5)
      ≡ filter (λ e. is_older_or_eq e.rob_tag 5) (loads three_loads))
    × IsSound (flush_after three_loads 5)
flush_after-loads_example = flush_after-loads three_loads 5 three_loads-IsSound

deallocate-Removes_example : Removes 5 three_loads (deallocate three_loads 5)
deallocate-Removes_example = deallocate-Removes three_loads 5 three_loads-IsSound

check_ordering_violation-IsAnswer_example :
    IsAnswer 2050 MemWidth.half 3 8
      (loads three_loads)
      (check_ordering_violation three_loads 2050 MemWidth.half 3)
check_ordering_violation-IsAnswer_example =
    check_ordering_violation-IsAnswer 2050 MemWidth.half 3 8 (omega arith, omega arith)
      ((omega arith, omega arith), omega arith) (omega arith, omega arith) three_loads
      (
        (((omega arith, omega arith), omega arith), tt),
        (
          (((omega arith, omega arith), omega arith), (omega arith, omega arith)),
          ((((omega arith, omega arith), omega arith), tt), tt),
        ),
      )
