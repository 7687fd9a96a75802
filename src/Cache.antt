-- ===== src/Cache.antt =====
-- crates/hardware/src/core/units/cache/mod.rs: the tags of a set-associative cache. The replacement
-- policy and the prefetcher are trait objects in the source; here they are parameters with their
-- states in the cache. A line read past the end panics in the source and is `default_line` here;
-- `IsCache` of Cache/Inv.antt keeps every index in range. Latencies are natural numbers.
pub mod Policy
pub mod Policies
pub mod Inv
pub mod Install
pub mod Access
mod Tests
use rvsim.Base.{
  ℕ, zero, suc, ◌+◌, ◌-◌, ◌*◌, ◌/◌, ◌%◌, Bool, true, false, not, ◌&&◌, List, [], ◌∷◌, ◌++◌, Option,
  none, some, length, get_or, set, replicate, if◌then◌else◌, ◌==◌,
}
use rvsim.Ways.{find_way, is_some}
use rvsim.Cache.Policy.{ReplacementPolicy}

pub record EvictedLine : Type 0 where
  pub addr : ℕ
  pub dirty : Bool

pub record CacheLine : Type 0 where
  pub tag : ℕ
  pub valid : Bool
  pub dirty : Bool

abbrev pub default_line : CacheLine
default_line = record { tag = 0; valid = false; dirty = false }

pub record CacheSim (P F : Type 0) : Type 0 where
  pub latency : ℕ
  pub enabled : Bool
  pub prefetcher : Option F
  pub lines : List CacheLine
  pub num_sets : ℕ
  pub ways : ℕ
  pub line_bytes : ℕ
  pub policy : P

abbrev pub or_default : ℕ → ℕ → ℕ
or_default n d = if n == 0 then d else n

-- `lines[idx].valid && lines[idx].tag == tag`
abbrev pub holds : ℕ → CacheLine → Bool
holds tag l = l.valid && (l.tag == tag)

abbrev pub dirtied : Bool → CacheLine → CacheLine
dirtied is_write l = if is_write then record l { dirty = true } else l

abbrev pub push : Option EvictedLine → List EvictedLine → List EvictedLine
push none es = es
push (some e) es = es ++ e ∷ []

abbrev pub clean : CacheLine → CacheLine
clean l = record l { valid = false; dirty = false }

abbrev pub is_free : CacheLine → Bool
is_free l = not l.valid

module _ {P F : Type 0} where
  -- `new`, with the numbers of its configuration and the policy and prefetcher that it chooses.
  unfoldable pub new :
      (size_bytes line_bytes ways latency : ℕ) → Bool → (ℕ → ℕ → P) → Option F → CacheSim P F
  new size_bytes line_bytes ways latency enabled new_policy prefetcher =
      let safe_ways = or_default ways 1 in
      let safe_line = or_default line_bytes 64 in
      let num_sets = or_default size_bytes 4096 / safe_line / safe_ways in
      record {
        latency = latency;
        enabled = enabled;
        prefetcher = prefetcher;
        lines = replicate (num_sets * safe_ways) default_line;
        num_sets = num_sets;
        ways = safe_ways;
        line_bytes = safe_line;
        policy = new_policy num_sets safe_ways;
      }

  -- No wrap-around is written for the products and the sum, which are `u64` in the source: for the tag
  -- and the set of a 64-bit address they stay below 2 ^ 64.
  unfoldable pub reconstruct_addr : CacheSim P F → ℕ → ℕ → ℕ
  reconstruct_addr c set_index tag = tag * (c.line_bytes * c.num_sets) + set_index * c.line_bytes

  abbrev pub set_index : CacheSim P F → ℕ → ℕ
  set_index c addr = (addr / c.line_bytes) % c.num_sets

  abbrev pub tag_of : CacheSim P F → ℕ → ℕ
  tag_of c addr = addr / (c.line_bytes * c.num_sets)

  abbrev pub base_of : CacheSim P F → ℕ → ℕ
  base_of c s = s * c.ways

  abbrev pub line_at : CacheSim P F → ℕ → ℕ → CacheLine
  line_at c s w = get_or c.lines (base_of c s + w) default_line

  abbrev pub find_line : CacheSim P F → ℕ → ℕ → Option ℕ
  find_line c s tag = find_way default_line (holds tag) c.lines (base_of c s) c.ways 0

  unfoldable pub contains : CacheSim P F → ℕ → Bool
  unfolding find_way
  contains c addr = c.enabled && is_some (find_line c (set_index c addr) (tag_of c addr))

  -- The line that a victim leaves behind, and the cycles for writing it back.
  abbrev pub evicted_line : CacheSim P F → ℕ → CacheLine → Option EvictedLine
  evicted_line c s l =
      if l.valid then some (record { addr = reconstruct_addr c s l.tag; dirty = l.dirty }) else none

  abbrev pub write_line : CacheSim P F → ℕ → ℕ → CacheLine → CacheSim P F
  write_line c s w l = record c { lines = set c.lines (base_of c s + w) l }

  abbrev pub invalidated : CacheSim P F → ℕ → Option ℕ → Bool × CacheSim P F
  invalidated c s none = (false, c)
  invalidated c s (some w) = (true, write_line c s w (clean (line_at c s w)))

  unfoldable pub invalidate_line : CacheSim P F → ℕ → Bool × CacheSim P F
  unfolding find_way
  invalidate_line c addr =
      let s = set_index c addr in
      if not c.enabled then (false, c) else invalidated c s (find_line c s (tag_of c addr))

module _ {P F : Type 0} (policy : ReplacementPolicy P) where
  abbrev pub touch : CacheSim P F → ℕ → ℕ → CacheSim P F
  touch c s w = record c { policy = policy.update c.policy s w }

  unfoldable pub install_line_tracked :
      CacheSim P F → ℕ → Bool → ℕ → (ℕ × Option EvictedLine) × CacheSim P F
  unfolding reconstruct_addr
  install_line_tracked c addr is_write next_level_latency =
      let s = set_index c addr in
      let (w, p) = policy.get_victim c.policy s in
      let c' = record c { policy = p } in
      let old = line_at c' s w in
      let penalty = if old.valid && old.dirty then next_level_latency else 0 in
      (
        (penalty, evicted_line c' s old),
        touch (write_line c' s w (record { tag = tag_of c addr; valid = true; dirty = is_write })) s
            w,
      )

  unfoldable pub install_line : CacheSim P F → ℕ → Bool → ℕ → ℕ × CacheSim P F
  unfolding install_line_tracked
  install_line c addr is_write next_level_latency =
      let (r, c') = install_line_tracked c addr is_write next_level_latency in (r.0, c')

  -- The loop over the ways of an access: on a hit the policy and the dirty bit change.
  abbrev pub hit_way : CacheSim P F → ℕ → Bool → Option ℕ → Bool × CacheSim P F
  hit_way c s is_write none = (false, c)
  hit_way c s is_write (some w) =
      let c' = touch c s w in (true, write_line c' s w (dirtied is_write (line_at c' s w)))

  unfoldable pub probe : CacheSim P F → ℕ → Bool → Bool × CacheSim P F
  unfolding find_way
  probe c addr is_write =
      hit_way c (set_index c addr) is_write (find_line c (set_index c addr) (tag_of c addr))

  -- The loop over prefetch targets, with the evictions so far.
  unfoldable pub prefetch_loop :
      ℕ → List EvictedLine → List ℕ → CacheSim P F → List EvictedLine × CacheSim P F
  unfolding contains install_line_tracked
  prefetch_loop next_level_latency es [] c = (es, c)
  prefetch_loop next_level_latency es (target ∷ targets) c =
      let (r, c') = install_line_tracked c target false next_level_latency in
      let skipped = prefetch_loop next_level_latency es targets c in
      let installed = prefetch_loop next_level_latency (push r.1 es) targets c' in
      if contains c target then skipped else installed

  unfoldable pub install_prefetches : CacheSim P F → List ℕ → ℕ → List EvictedLine × CacheSim P F
  unfolding prefetch_loop
  install_prefetches c targets next_level_latency = prefetch_loop next_level_latency [] targets c

  -- A hit or the installation, with the penalty and the evicted line.
  unfoldable pub demand :
      CacheSim P F → ℕ → Bool → ℕ → (Bool × ℕ × Option EvictedLine) × CacheSim P F
  unfolding probe install_line_tracked
  demand c addr is_write next_level_latency =
      let (hit, c') = probe c addr is_write in
      let ((penalty, evicted), c'') = install_line_tracked c' addr is_write next_level_latency in
      if hit then ((true, 0, none), c') else ((false, penalty, evicted), c'')

  abbrev pub placed :
      CacheSim P F → ℕ → Bool → ℕ → Option ℕ → (ℕ × Option EvictedLine) × CacheSim P F
  placed c addr is_write next_level_latency none =
      install_line_tracked c addr is_write next_level_latency
  placed c addr is_write next_level_latency (some w) =
      let s = set_index c addr in
      (
        (0, none),
        touch (write_line c s w (record { tag = tag_of c addr; valid = true; dirty = is_write })) s
            w,
      )

  unfoldable pub install_or_replace :
      CacheSim P F → ℕ → Bool → ℕ → (ℕ × Option EvictedLine) × CacheSim P F
  unfolding find_way install_line_tracked
  install_or_replace c addr is_write next_level_latency =
      if not c.enabled
      then ((0, none), c)
      else placed c addr is_write next_level_latency
          (find_way default_line is_free c.lines (base_of c (set_index c addr)) c.ways 0)
