-- ===== src/Ways.antt =====
-- The search of one set of a set-associative table, whose ways lie side by side from index `base`
-- on: the first of `n` ways, from way `w` on, whose entry passes the test.
pub mod Search
use rvsim.Base.{
  ℕ, zero, suc, ◌+◌, Bool, true, false, List, Option, none, some, get_or, if◌then◌else◌,
}

unfoldable pub find_way {ℓ} : {A : Type ℓ} → A → (A → Bool) → List A → ℕ → ℕ → ℕ → Option ℕ
find_way d test xs base zero w = none
find_way d test xs base (suc n) w =
    let rest = find_way d test xs base n (w + 1) in
    if test (get_or xs (base + w) d) then some w else rest

abbrev pub is_some {ℓ} : {A : Type ℓ} → Option A → Bool
is_some none = false
is_some (some a) = true
