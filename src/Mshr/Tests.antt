-- ===== src/Mshr/Tests.antt =====
-- Two registers, of which one is busy with two waiters.
use rvsim.Base.{ℕ, ◌≡◌, true, not, [], ◌∷◌, none, map, filter, refl}
use rvsim.Mshr.{
  MshrFile, MshrWaiter, pending, empty_entry, line_align, request, is_due, taken, drain_completions,
}
use rvsim.Mshr.Waiting.{IsMshr, is_valid, Requests, request-Requests, drain_completions-filter}

abbrev waiter : ℕ → MshrWaiter ℕ
waiter t = record { rob_tag = t; parked_entry = none }

abbrev one_miss : MshrFile ℕ
one_miss = record {
  entries =
      empty_entry
      ∷ record {
        line_addr = 4096;
        state = pending;
        complete_cycle = 110;
        waiters = waiter 1 ∷ waiter 2 ∷ [];
        valid = true;
        is_write = true;
      }
      ∷ [];
  cap = 2;
  count = 1;
  line_bytes = 64;
}

one_miss-IsMshr : IsMshr one_miss
one_miss-IsMshr = record { counted = refl; sized = refl }

request-Requests_example :
    Requests one_miss
      (line_align one_miss 4100)
      (waiter 3)
      (request one_miss 4100 true 100 20 (waiter 3))
request-Requests_example = request-Requests one_miss 4100 100 20 true (waiter 3) one_miss-IsMshr

drain_completions-filter_example :
    let (done, f') = drain_completions one_miss 110 in
    (done ≡ map taken (filter (is_due 110) one_miss.entries))
    × (filter is_valid f'.entries
        ≡ filter (λ e. not (is_due 110 e)) (filter is_valid one_miss.entries))
    × IsMshr f'
drain_completions-filter_example = drain_completions-filter one_miss 110 one_miss-IsMshr
