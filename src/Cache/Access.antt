-- ===== src/Cache/Access.antt =====
-- The accesses of crates/hardware/src/core/units/cache/mod.rs, which also ask the prefetcher, and
-- the operations on the whole cache.
use rvsim.Base.{
  ℕ, ◌+◌, ◌/◌, Bool, true, false, not, ◌&&◌, List, [], ◌∷◌, Option, none, some, if◌then◌else◌,
}
use rvsim.Cache.{
  CacheSim, CacheLine, EvictedLine, reconstruct_addr, push, clean, probe, prefetch_loop, demand,
}
use rvsim.Cache.Policy.{ReplacementPolicy}

module _ {P F : Type 0} (policy : ReplacementPolicy P) (observe : F → ℕ → Bool → List ℕ × F) where
  -- `prefetcher.observe`, where there is one.
  abbrev pub observed : CacheSim P F → ℕ → Bool → Option F → List ℕ × CacheSim P F
  observed c addr hit none = ([], c)
  observed c addr hit (some f) =
      let (targets, f') = observe f addr hit in (targets, record c { prefetcher = some f' })

  unfoldable pub access : CacheSim P F → ℕ → Bool → ℕ → (Bool × ℕ) × CacheSim P F
  unfolding demand prefetch_loop
  access c addr is_write next_level_latency =
      let ((hit, penalty, evicted), c') = demand policy c addr is_write next_level_latency in
      let (targets, c'') = observed c' addr hit c'.prefetcher in
      let (es, d) = prefetch_loop policy next_level_latency [] targets c'' in
      if not c.enabled then ((false, 0), c) else ((hit, penalty), d)

  unfoldable pub access_tracked_split :
      CacheSim P F → ℕ → Bool → ℕ → (Bool × ℕ × List EvictedLine × List ℕ) × CacheSim P F
  unfolding demand
  access_tracked_split c addr is_write next_level_latency =
      let ((hit, penalty, evicted), c') = demand policy c addr is_write next_level_latency in
      let (targets, c'') = observed c' addr hit c'.prefetcher in
      if not c.enabled
      then ((false, 0, [], []), c)
      else ((hit, penalty, push evicted [], targets), c'')

  unfoldable pub access_tracked :
      CacheSim P F → ℕ → Bool → ℕ → (Bool × ℕ × List EvictedLine) × CacheSim P F
  unfolding access_tracked_split prefetch_loop
  access_tracked c addr is_write next_level_latency =
      let ((hit, penalty, evictions, targets), c') =
        access_tracked_split c addr is_write next_level_latency in
      let (all, d) = prefetch_loop policy next_level_latency evictions targets c' in
      ((hit, penalty, all), d)

  unfoldable pub access_check : CacheSim P F → ℕ → Bool → Bool × CacheSim P F
  unfolding probe prefetch_loop
  access_check c addr is_write =
      let (hit, c') = probe policy c addr is_write in
      let (targets, c'') = observed c' addr hit c'.prefetcher in
      let (es, d) = prefetch_loop policy 0 [] targets c'' in
      if not c.enabled then (false, c) else (hit, d)

module _ {P F : Type 0} where
  -- The loops of `flush` and `invalidate_all` over the lines from index `i` on: a line that is
  -- `removed` is cleaned, and reported where it is dirty.
  unfoldable pub clean_loop :
      CacheSim P F → (CacheLine → Bool) → ℕ → List CacheLine → List EvictedLine × List CacheLine
  unfolding reconstruct_addr
  clean_loop c removed i [] = ([], [])
  clean_loop c removed i (l ∷ ls) =
      let (es, ls') = clean_loop c removed (i + 1) ls in
      let reported : EvictedLine = record {
        addr = reconstruct_addr c (i / c.ways) l.tag;
        dirty = true;
      } in
      if removed l then (if l.dirty then reported ∷ es else es, clean l ∷ ls') else (es, l ∷ ls')

  abbrev pub swept : CacheSim P F → (CacheLine → Bool) → List EvictedLine × CacheSim P F
  swept c removed = let (es, ls) = clean_loop c removed 0 c.lines in (es, record c { lines = ls })

  unfoldable pub flush : CacheSim P F → List EvictedLine × CacheSim P F
  unfolding clean_loop
  flush c = if not c.enabled then ([], c) else swept c (λ l. l.valid && l.dirty)

  unfoldable pub invalidate_all : CacheSim P F → List EvictedLine × CacheSim P F
  unfolding clean_loop
  invalidate_all c = if not c.enabled then ([], c) else swept c (λ l. l.valid)
