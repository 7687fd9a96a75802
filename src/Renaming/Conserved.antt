-- ===== src/Renaming/Conserved.antt =====
-- The invariant of renaming: every physical register but 0 is in exactly one place, on the free list,
-- in the committed map, or as the destination of one instruction in flight.
use rvsim.Base.{ℕ, ◌+◌, ◌≤◌, ◌<◌, ◌≡◌, sym, ap, subst, arith, ltb, if◌then◌else◌}
use rvsim.Rob.Inv.{IsValid, contents}
use rvsim.Rob.Flush.{new-IsValid}
use rvsim.FreeList.{available}
use rvsim.FreeList.Counts.{occurs, new-counts}
use rvsim.RenameMap
use rvsim.RenameMap.{RenameMap, get, is_x0}
use rvsim.RenameMap.Held.{held, IsMap, new-IsMap, held-new}
use rvsim.Renaming.{O3State, replay, new_state}
use rvsim.Renaming.Chain.{Chain, in_flight, holders}

-- 1 for a register of the file, else 0.
abbrev pub exists_once : ℕ → ℕ → ℕ
exists_once p capacity = if ltb p capacity then 1 else 0

pub record Conserved (s : O3State) : Type 0 where
  pub valid : IsValid s.rob
  pub committed_IsMap : IsMap s.committed_rename_map
  pub chain : Chain s.committed_rename_map (contents s.rob)
  pub speculative : s.rename_map ≡ replay s.committed_rename_map (contents s.rob)
  pub once :
      (p : ℕ)
      → 1 ≤ p
      → occurs p s.free_list.queue + held p s.committed_rename_map + in_flight p (contents s.rob)
        ≡ exists_once p s.free_list.capacity
  pub no_zero : occurs 0 s.free_list.queue ≡ 0
  pub total : available s.free_list + holders (contents s.rob) + 64 ≡ s.free_list.capacity

-- The part of the invariant that does not say how the renamings in flight came about.
pub record Balanced (s : O3State) : Type 0 where
  pub valid : IsValid s.rob
  pub committed_IsMap : IsMap s.committed_rename_map
  pub once :
      (p : ℕ)
      → 1 ≤ p
      → occurs p s.free_list.queue + held p s.committed_rename_map + in_flight p (contents s.rob)
        ≡ exists_once p s.free_list.capacity
  pub no_zero : occurs 0 s.free_list.queue ≡ 0
  pub total : available s.free_list + holders (contents s.rob) + 64 ≡ s.free_list.capacity

pub balanced : {s : O3State} → Conserved s → Balanced s
balanced c = record {
  valid = c.valid;
  committed_IsMap = c.committed_IsMap;
  once = c.once;
  no_zero = c.no_zero;
  total = c.total;
}

-- The engine starts in the invariant when it has a reorder buffer and at least 64 physical registers.
pub new_state-Conserved :
    (rob_size prf_total : ℕ)
    → 0 < rob_size
    → 64 ≤ prf_total
    → Conserved (new_state rob_size prf_total)
unfolding new_state replay
new_state-Conserved rob_size prf_total h hp =
    let fresh = new-IsValid rob_size h in
    let counts = new-counts prf_total 64 hp in
    record {
      valid = fresh.1;
      committed_IsMap = new-IsMap;
      chain = subst (Chain RenameMap.new) (sym fresh.0) tt;
      speculative = ap (replay RenameMap.new) (sym fresh.0);
      once = λ p lo. ground (arith, counts.0 p, counts.2, held-new p lo, ap (in_flight p) fresh.0);
      no_zero = ground (arith, counts.0 0);
      total = omega (arith, counts.1, counts.2, ap holders fresh.0);
    }
