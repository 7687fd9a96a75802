-- ===== src/Tlb/Shared.antt =====
-- crates/hardware/src/core/units/mmu/tlb.rs: the second-level translation buffer, which is
-- set-associative and shared.
pub mod RoundTrip
pub mod Ages
use rvsim.Base.{
  ℕ, zero, suc, ◌+◌, ◌-◌, ◌*◌, ◌/◌, Bool, true, false, not, ◌&&◌, List, Option, none, some, map,
  bit_and, bit_or, max, get_or, set, replicate, ltb, if◌then◌else◌, ◌==◌,
}
use rvsim.Ways.{find_way}
use rvsim.Tlb.{
  TlbEntry, default_entry, is_power_of_two, next_power_of_two, answers, has_vpn, from_pte,
  invalidated, belongs_to, flush_entry,
}

pub record L2Tlb : Type 0 where
  pub entries : List TlbEntry
  pub ways : ℕ
  pub set_mask : ℕ
  pub lru : List ℕ
  pub latency : ℕ

abbrev pub safe_ways : ℕ → ℕ
safe_ways ways = if ways == 0 then 4 else ways

abbrev pub set_count : ℕ → ℕ
set_count raw = max (if is_power_of_two raw then raw else next_power_of_two raw) 1

unfoldable pub new : ℕ → ℕ → ℕ → L2Tlb
new total_entries ways latency =
    let num_sets = set_count (total_entries / safe_ways ways) in
    record {
      entries = replicate (num_sets * safe_ways ways) default_entry;
      ways = safe_ways ways;
      set_mask = num_sets - 1;
      lru = replicate (num_sets * safe_ways ways) 0;
      latency = latency;
    }

abbrev pub set_of : L2Tlb → ℕ → ℕ
set_of t vpn = bit_and vpn t.set_mask

abbrev pub base_of : L2Tlb → ℕ → ℕ
base_of t set = set * t.ways

-- `if bit { pte |= 1 << k }`
abbrev pub or_bit : Bool → ℕ → ℕ → ℕ
or_bit b value pte = if b then bit_or pte value else pte

abbrev pub reconstruct_pte : TlbEntry → ℕ
reconstruct_pte e =
    or_bit e.d 128
      (or_bit e.global 32 (or_bit e.u 16 (or_bit e.x 8 (or_bit e.w 4 (or_bit e.r 2 1)))))

-- One way in the loop of `touch_lru`.
abbrev pub grow_older : ℕ → ℕ → List ℕ → List ℕ
grow_older old_age i ages =
    if ltb (get_or ages i 0) old_age then set ages i (get_or ages i 0 + 1) else ages

unfoldable pub touch_loop : ℕ → ℕ → ℕ → ℕ → List ℕ → List ℕ
touch_loop old_age base zero w ages = ages
touch_loop old_age base (suc n) w ages =
    touch_loop old_age base n (w + 1) (grow_older old_age (base + w) ages)

unfoldable pub touch_lru : L2Tlb → ℕ → ℕ → L2Tlb
unfolding touch_loop
touch_lru t s way =
    let base = base_of t s in
    record t {
      lru = set (touch_loop (get_or t.lru (base + way) 0) base t.ways 0 t.lru) (base + way) 0;
    }

-- The loop of `lru_victim`, with `max_age` and `victim`.
unfoldable pub victim_loop : List ℕ → ℕ → ℕ → ℕ → ℕ × ℕ → ℕ × ℕ
victim_loop ages base zero w best = best
victim_loop ages base (suc n) w best =
    victim_loop ages base n (w + 1)
      (if ltb best.0 (get_or ages (base + w) 0) then (get_or ages (base + w) 0, w) else best)

unfoldable pub lru_victim : L2Tlb → ℕ → ℕ
unfolding victim_loop
lru_victim t s = (victim_loop t.lru (base_of t s) t.ways 0 (0, 0)).1

abbrev pub find_in_set : L2Tlb → (TlbEntry → Bool) → ℕ → Option ℕ
find_in_set t test s = find_way default_entry test t.entries (base_of t s) t.ways 0

abbrev pub way_at : L2Tlb → ℕ → ℕ → TlbEntry
way_at t s w = get_or t.entries (base_of t s + w) default_entry

-- The page number, the bits of the page-table entry and the address space, for the entry of a way.
abbrev pub hit_of : TlbEntry → ℕ × ℕ × ℕ
hit_of e = (e.ppn, reconstruct_pte e, e.asid)

abbrev pub looked_up : L2Tlb → ℕ → Option ℕ → Option (ℕ × ℕ × ℕ) × L2Tlb
looked_up t s none = (none, t)
looked_up t s (some w) = (some (hit_of (way_at t s w)), touch_lru t s w)

unfoldable pub lookup : L2Tlb → ℕ → ℕ → Option (ℕ × ℕ × ℕ) × L2Tlb
unfolding find_way touch_lru
lookup t vpn asid = looked_up t (set_of t vpn) (find_in_set t (answers vpn asid) (set_of t vpn))

abbrev pub is_invalid : TlbEntry → Bool
is_invalid e = not e.valid

-- `write_entry` and `touch_lru`
abbrev pub fill_way : L2Tlb → ℕ → ℕ → TlbEntry → L2Tlb
fill_way t s w e = touch_lru (record t { entries = set t.entries (base_of t s + w) e }) s w

-- The way that an insertion takes: of the page's entry, else the first invalid one, else the victim.
abbrev pub or_else : Option ℕ → ℕ → ℕ
or_else none v = v
or_else (some w) v = w

unfoldable pub chosen_way : L2Tlb → ℕ → ℕ → ℕ
unfolding find_way lru_victim
chosen_way t vpn asid =
    let s = set_of t vpn in
    or_else (find_in_set t (answers vpn asid) s)
      (or_else (find_in_set t is_invalid s) (lru_victim t s))

unfoldable pub insert : L2Tlb → ℕ → ℕ → ℕ → ℕ → L2Tlb
unfolding chosen_way touch_lru
insert t vpn ppn pte asid =
    fill_way t (set_of t vpn) (chosen_way t vpn asid) (from_pte vpn ppn pte asid)

unfoldable pub flush : L2Tlb → L2Tlb
flush t = record t { entries = map invalidated t.entries }

-- One way in the loops of `flush_vaddr` and `flush_vaddr_asid`.
abbrev pub drop_at : (TlbEntry → Bool) → ℕ → List TlbEntry → List TlbEntry
drop_at test i xs =
    if test (get_or xs i default_entry)
    then set xs i (invalidated (get_or xs i default_entry))
    else xs

unfoldable pub drop_loop : (TlbEntry → Bool) → ℕ → ℕ → ℕ → List TlbEntry → List TlbEntry
drop_loop test base zero w xs = xs
drop_loop test base (suc n) w xs = drop_loop test base n (w + 1) (drop_at test (base + w) xs)

unfoldable pub flush_vaddr : L2Tlb → ℕ → L2Tlb
unfolding drop_loop
flush_vaddr t vpn = record t {
  entries = drop_loop (has_vpn vpn) (base_of t (set_of t vpn)) t.ways 0 t.entries;
}

unfoldable pub flush_asid : L2Tlb → ℕ → L2Tlb
flush_asid t asid = record t { entries = map (flush_entry asid) t.entries }

unfoldable pub flush_vaddr_asid : L2Tlb → ℕ → ℕ → L2Tlb
unfolding drop_loop
flush_vaddr_asid t vpn asid = record t {
  entries =
      drop_loop (λ e. has_vpn vpn e && belongs_to asid e) (base_of t (set_of t vpn)) t.ways 0
        t.entries;
}
