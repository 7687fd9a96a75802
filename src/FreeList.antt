-- ===== src/FreeList.antt =====
-- crates/hardware/src/core/pipeline/free_list.rs: the physical registers that no instruction holds,
-- in the order in which they will be handed out.
pub mod Counts
use rvsim.Base.{
  ℕ, zero, suc, ◌+◌, ◌-◌, List, [], ◌∷◌, ◌++◌, Option, none, some, length, if◌then◌else◌, ◌==◌,
}

pub record FreeList : Type 0 where
  pub queue : List ℕ
  pub capacity : ℕ

-- The registers from `i` on, `n` of them.
abbrev pub range : ℕ → ℕ → List ℕ
range i zero = []
range i (suc n) = i ∷ range (i + 1) n

unfoldable pub new : ℕ → ℕ → FreeList
new prf_size num_arch = record { queue = range num_arch (prf_size - num_arch); capacity = prf_size }

abbrev pub pop_front : List ℕ → ℕ → Option ℕ × FreeList
pop_front [] capacity = (none, record { queue = []; capacity = capacity })
pop_front (p ∷ ps) capacity = (some p, record { queue = ps; capacity = capacity })

unfoldable pub allocate : FreeList → Option ℕ × FreeList
allocate f = pop_front f.queue f.capacity

pub reclaim : FreeList → ℕ → FreeList
reclaim f p = if p == 0 then f else record f { queue = f.queue ++ p ∷ [] }

unfoldable pub available : FreeList → ℕ
available f = length f.queue
