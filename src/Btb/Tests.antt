-- ===== src/Btb/Tests.antt =====
-- A full set of two ways, in which an update replaces an entry.
use rvsim.Base.{◌≡◌, true, some, [], ◌∷◌, refl, arith}
use rvsim.Btb.{Btb, lookup, update}
use rvsim.Btb.Targets.{IsBtb, lookup-update}

abbrev full_set : Btb
full_set = record {
  table =
      record { tag = 4096; target = 8192; valid = true }
      ∷ record { tag = 4100; target = 8200; valid = true }
      ∷ [];
  num_sets = 1;
  ways = 2;
  replace_ptr = 1 ∷ [];
}

full_set-IsBtb : IsBtb full_set
full_set-IsBtb = record { some_way = omega arith; some_set = omega arith; sized = refl }

lookup-update_example :
    (lookup (update full_set 4108 64) 4108 ≡ some 64) × IsBtb (update full_set 4108 64)
lookup-update_example = lookup-update full_set 4108 64 full_set-IsBtb
