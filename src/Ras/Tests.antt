-- ===== src/Ras/Tests.antt =====
-- A full stack of two return addresses.
use rvsim.Base.{[], ◌∷◌, refl, arith}
use rvsim.Ras.{Ras, push, pop}
use rvsim.Ras.Calls.{IsRas, Pushes, Pops, push-pop}

abbrev two_calls : Ras
two_calls = record { stack = 100 ∷ 200 ∷ []; ptr = 2; capacity = 2 }

two_calls-IsRas : IsRas two_calls
two_calls-IsRas = record { some_room = omega arith; sized = refl; ptr_le = omega arith }

push-pop_example : Pushes two_calls 300 (push two_calls 300) × Pops two_calls (pop two_calls)
push-pop_example = push-pop two_calls 300 two_calls-IsRas
