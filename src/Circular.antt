-- ===== src/Circular.antt =====
-- The circular buffers of the pipeline (reorder buffer, store buffer, load queue): a vector `xs` of `cap`
-- entries, an index of the oldest and a number of entries. Indices go round at `cap`.
pub mod Window
pub mod Compact
pub mod Find
use rvsim.Base.{
  ℕ, zero, suc, ◌+◌, ◌-◌, ◌%◌, Bool, List, [], ◌∷◌, Option, none, some, get_or, set, if◌then◌else◌,
  ◌==◌,
}

-- The index `k` places after `h`.
abbrev pub slot : ℕ → ℕ → ℕ → ℕ
slot cap h k = (h + k) % cap

-- `if idx == 0 { entries.len() - 1 } else { idx - 1 }`
abbrev pub back : ℕ → ℕ → ℕ
back cap i = if i == 0 then cap - 1 else i - 1

-- `d` is never read where the indices are in range.
module _ {ℓ} {A : Type ℓ} (d : A) (xs : List A) (cap : ℕ) where
  -- `let mut idx = i; for _ in 0..n { visit entries[idx]; idx = (idx + 1) % entries.len() }`:
  -- the entries in the order of the visit.
  abbrev pub scan : ℕ → ℕ → List A
  scan i zero = []
  scan i (suc n) = get_or xs i d ∷ scan ((i + 1) % cap) n

  -- The same visit, going back from index `i`.
  abbrev pub scan_back : ℕ → ℕ → List A
  scan_back i zero = []
  scan_back i (suc n) = get_or xs i d ∷ scan_back (back cap i) n

-- The loop of the partial flushes, which move the entries that they keep to the front and clear the
-- `valid` bits of the others: `n` rounds from index `i`, with `new_tail` and `new_count`.
module _ {ℓ} {A : Type ℓ} (d : A) (kept : A → Bool) (invalidated : A → A) (cap : ℕ) where
  unfoldable pub compact_loop : ℕ → ℕ → ℕ → ℕ → List A → List A × ℕ × ℕ
  compact_loop zero new_tail new_count i xs = (xs, new_tail, new_count)
  compact_loop (suc n) new_tail new_count i xs =
      let e = get_or xs i d in
      let moved = if i == new_tail then xs else set (set xs new_tail e) i (invalidated e) in
      compact_loop n (if kept e then (new_tail + 1) % cap else new_tail)
        (if kept e then new_count + 1 else new_count) ((i + 1) % cap)
        (if kept e then moved else set xs i (invalidated e))

-- The loops that return the index of the oldest entry that passes a test, `n` rounds from index `i`.
module _ {ℓ} {A : Type ℓ} (d : A) (test : A → Bool) (xs : List A) (cap : ℕ) where
  unfoldable pub find_loop : ℕ → ℕ → Option ℕ
  find_loop zero i = none
  find_loop (suc n) i =
      let rest = find_loop n ((i + 1) % cap) in if test (get_or xs i d) then some i else rest
