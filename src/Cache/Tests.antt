-- ===== src/Cache/Tests.antt =====
-- The theorems on the cache at one of two sets of two ways with LRU replacement, in which the first
-- set holds a dirty line and a clean one.
use rvsim.Base.{
  ◌<◌, ◌≡◌, ◌≢◌, ◌&&◌, ◌||◌, not, true, false, [], ◌∷◌, none, refl, arith, ℕ, zero, suc,
}
use rvsim.Cache.{CacheSim, line_at, default_line, contains, install_line_tracked}
use rvsim.Cache.Policies.{Stacks, use_way, lru_victim, lru}
use rvsim.Cache.Policies.Laws.{StackState, policies-Lawful}
use rvsim.Cache.Policies.Recency.{use_all, lru_victim-use_all}
use rvsim.Cache.Inv.{IsCache}
use rvsim.Cache.Install.{same_line, is_evicted, write_back, install_line_tracked-contains}

abbrev stacks : Stacks
stacks = record { usage = (0 ∷ 1 ∷ 2 ∷ []) ∷ (0 ∷ 1 ∷ 2 ∷ []) ∷ [] }

lru_victim-use_all_example : lru_victim (use_all (use_way stacks 1 2) 1 (0 ∷ 0 ∷ [])) 1 ≢ 2
lru_victim-use_all_example =
    lru_victim-use_all stacks 1 2 1 (0 ∷ 0 ∷ []) (omega arith) (omega arith) refl refl refl refl

abbrev two_lines : CacheSim Stacks Unit
two_lines = record {
  latency = 1;
  enabled = true;
  prefetcher = none;
  lines =
      record { tag = 7; valid = true; dirty = true }
      ∷ record { tag = 9; valid = true; dirty = false }
      ∷ default_line
      ∷ default_line
      ∷ [];
  num_sets = 2;
  ways = 2;
  line_bytes = 64;
  policy = record { usage = (1 ∷ 0 ∷ []) ∷ (0 ∷ 1 ∷ []) ∷ [] };
}

two_lines_distinct :
    (s i j : ℕ)
    → s < 2
    → i < 2
    → j < 2
    → (line_at two_lines s i).valid ≡ true
    → (line_at two_lines s j).valid ≡ true
    → (line_at two_lines s i).tag ≡ (line_at two_lines s j).tag
    → i ≡ j
two_lines_distinct s zero zero ls li lj vi vj same = refl
two_lines_distinct zero zero (suc zero) ls li lj vi vj same = absurd (omega (arith, same))
two_lines_distinct zero (suc zero) zero ls li lj vi vj same = absurd (omega (arith, same))
two_lines_distinct (suc zero) zero (suc zero) ls li lj vi vj same = absurd (ground (arith, vi))
two_lines_distinct (suc zero) (suc zero) zero ls li lj vi vj same = absurd (ground (arith, vi))
two_lines_distinct s (suc zero) (suc zero) ls li lj vi vj same = refl
two_lines_distinct s (suc (suc i)) j ls li lj vi vj same = absurd (omega arith)
two_lines_distinct s i (suc (suc j)) ls li lj vi vj same = absurd (omega arith)
two_lines_distinct (suc (suc s)) i j ls li lj vi vj same = absurd (omega arith)

two_lines-IsCache : IsCache two_lines
two_lines-IsCache = record {
  on = refl;
  some_set = omega arith;
  some_byte = omega arith;
  sized = refl;
  distinct = two_lines_distinct;
}

two_lines-StackState : StackState 2 2 (omega arith) two_lines.policy
two_lines-StackState zero = (omega arith, (omega arith, tt))
two_lines-StackState (suc zero) = (omega arith, (omega arith, tt))
two_lines-StackState (suc (suc s)) = tt

install_line_tracked-contains_example :
    let ((penalty, evicted), c') = install_line_tracked lru two_lines 1024 false 20 in
    (contains c' 900 ≡ (
      same_line two_lines 900 1024
      || (contains two_lines 900 && not (is_evicted two_lines 900 evicted))))
    × (penalty ≡ write_back 20 evicted)
    × IsCache c'
    × StackState 2 2 (omega arith) c'.policy
unfolding contains
install_line_tracked-contains_example =
    install_line_tracked-contains two_lines two_lines-IsCache (policies-Lawful 2 2 (omega arith)).0
      two_lines-StackState 1024 900 20 false refl
