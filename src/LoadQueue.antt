-- ===== src/LoadQueue.antt =====
-- crates/hardware/src/core/pipeline/load_queue.rs: the loads in flight, a circular buffer in program
-- order. `entries[i]` panics out of range in the source; here such a read is `default_load`, and
-- `IsSound` of LoadQueue/Inv.antt keeps every index in range.
pub mod Inv
pub mod Ends
pub mod Fill
pub mod Gaps
pub mod Absent
pub mod Remove
pub mod Violation
mod Tests
use rvsim.Base.{
  ℕ, zero, suc, ◌+◌, ◌-◌, ◌%◌, ◌^◌, Bool, true, false, not, ◌&&◌, List, [], ◌∷◌, Option, none, some,
  map, filter, length, get_or, set, replicate, ltb, if◌then◌else◌, ◌==◌,
}
use rvsim.Circular.{scan, find_loop, compact_loop}
use rvsim.Signals.{MemWidth, width_to_bytes}
use rvsim.RobTag.{RobTag, is_older_than, is_newer_than, is_older_or_eq}

pub data LoadState : Type 0 where
  pending translated executed : LoadState

abbrev pub is_executed : LoadState → Bool
is_executed pending = false
is_executed translated = false
is_executed executed = true

pub record LoadQueueEntry : Type 0 where
  pub rob_tag : RobTag
  pub vaddr : ℕ
  pub paddr : Option ℕ
  pub loaded : ℕ
  pub width : MemWidth
  pub state : LoadState
  pub valid : Bool

pub record LoadQueue : Type 0 where
  pub entries : List LoadQueueEntry
  pub head : ℕ
  pub tail : ℕ
  pub count : ℕ

abbrev pub default_load : LoadQueueEntry
default_load = record {
  rob_tag = 0;
  vaddr = 0;
  paddr = none;
  loaded = 0;
  width = MemWidth.nop;
  state = pending;
  valid = false;
}

abbrev pub lq_capacity : LoadQueue → ℕ
lq_capacity lq = length lq.entries

abbrev pub load_at : LoadQueue → ℕ → LoadQueueEntry
load_at lq i = get_or lq.entries i default_load

-- The entries that a loop from `head` over `count` entries visits, and the live ones among them.
abbrev pub slots : LoadQueue → List LoadQueueEntry
slots lq = scan default_load lq.entries (lq_capacity lq) lq.head lq.count

abbrev pub is_valid : LoadQueueEntry → Bool
is_valid e = e.valid

abbrev pub loads : LoadQueue → List LoadQueueEntry
loads lq = filter is_valid (slots lq)

unfoldable pub new : ℕ → LoadQueue
new capacity = record { entries = replicate capacity default_load; head = 0; tail = 0; count = 0 }

unfoldable pub is_full : LoadQueue → Bool
is_full lq = lq.count == lq_capacity lq

unfoldable pub free_slots : LoadQueue → ℕ
free_slots lq = lq_capacity lq - lq.count

abbrev pub pending_load : RobTag → MemWidth → LoadQueueEntry
pending_load rob_tag width = record {
  rob_tag = rob_tag;
  vaddr = 0;
  paddr = none;
  loaded = 0;
  width = width;
  state = pending;
  valid = true;
}

unfoldable pub allocate : LoadQueue → RobTag → MemWidth → Bool × LoadQueue
unfolding is_full
allocate lq rob_tag width = if is_full lq then (false, lq) else (
  true,
  record lq {
    entries = set lq.entries lq.tail (pending_load rob_tag width);
    tail = (lq.tail + 1) % lq_capacity lq;
    count = lq.count + 1;
  },
)

-- `entries[idx].valid && entries[idx].rob_tag == rob_tag`
abbrev pub has_tag : RobTag → LoadQueueEntry → Bool
has_tag t e = e.valid && (e.rob_tag == t)

-- `find_by_tag_mut`: the index of the entry that it finds.
unfoldable pub find_by_tag : LoadQueue → RobTag → Option ℕ
unfolding find_loop
find_by_tag lq t = find_loop default_load (has_tag t) lq.entries (lq_capacity lq) lq.count lq.head

abbrev pub written : LoadQueue → ℕ → (LoadQueueEntry → LoadQueueEntry) → LoadQueue
written lq i f = record lq { entries = set lq.entries i (f (load_at lq i)) }

-- A change made through `find_by_tag_mut`.
unfoldable pub update_load : LoadQueue → RobTag → (LoadQueueEntry → LoadQueueEntry) → LoadQueue
unfolding find_by_tag
update_load lq t f = elim (find_by_tag lq t) [ none ↦ lq | some i ↦ written lq i f ]

abbrev pub with_address : ℕ → ℕ → LoadQueueEntry → LoadQueueEntry
with_address vaddr paddr e = record e { vaddr = vaddr; paddr = some paddr; state = translated }

unfoldable pub fill_address : LoadQueue → RobTag → ℕ → ℕ → LoadQueue
unfolding update_load
fill_address lq t vaddr paddr = update_load lq t (with_address vaddr paddr)

abbrev pub with_data : ℕ → LoadQueueEntry → LoadQueueEntry
with_data data' e = record e { loaded = data'; state = executed }

unfoldable pub fill_data : LoadQueue → RobTag → ℕ → LoadQueue
unfolding update_load
fill_data lq t data' = update_load lq t (with_data data')

-- `start + size`, where the sum wraps around
abbrev pub end_of : ℕ → MemWidth → ℕ
end_of start width = (start + width_to_bytes width) % 2 ^ 64

-- `load_start < store_end && load_end > store_start`
abbrev pub overlaps : ℕ → MemWidth → ℕ → MemWidth → Bool
overlaps load width store store_width =
    ltb load (end_of store store_width) && ltb store (end_of load width)

abbrev pub overlaps_paddr : Option ℕ → MemWidth → ℕ → MemWidth → Bool
overlaps_paddr none width store store_width = false
overlaps_paddr (some load) width store store_width = overlaps load width store store_width

-- The test of one load against a store that resolves.
abbrev pub violates : ℕ → MemWidth → RobTag → LoadQueueEntry → Bool
violates store store_width t e =
    e.valid
    && is_newer_than e.rob_tag t
    && is_executed e.state
    && overlaps_paddr e.paddr e.width store store_width

-- `match oldest_violator`
abbrev pub older_violator : Option RobTag → RobTag → Option RobTag
older_violator none tag = some tag
older_violator (some prev) tag = if is_older_than tag prev then some tag else some prev

unfoldable pub violation_loop :
    ℕ → MemWidth → RobTag → Option RobTag → List LoadQueueEntry → Option RobTag
violation_loop store store_width t oldest [] = oldest
violation_loop store store_width t oldest (e ∷ es) =
    violation_loop store store_width t
      (if violates store store_width t e then older_violator oldest e.rob_tag else oldest) es

unfoldable pub check_ordering_violation : LoadQueue → ℕ → MemWidth → RobTag → Option RobTag
unfolding violation_loop
check_ordering_violation lq store store_width t =
    if lq.count == 0 then none else violation_loop store store_width t none (slots lq)

abbrev pub invalidated : LoadQueueEntry → LoadQueueEntry
invalidated e = record e { valid = false }

-- `while self.count > 0 && !self.entries[self.head].valid`, by recursion on the count: the head and
-- the count that it leaves.
unfoldable pub skip_loop : List LoadQueueEntry → ℕ → ℕ → ℕ → ℕ × ℕ
skip_loop xs cap zero head = (head, 0)
skip_loop xs cap (suc n) head =
    let rest = skip_loop xs cap n ((head + 1) % cap) in
    if not (get_or xs head default_load).valid then rest else (head, suc n)

abbrev pub skip_invalid : LoadQueue → LoadQueue
skip_invalid lq =
    let (head, count) = skip_loop lq.entries (lq_capacity lq) lq.count lq.head in
    record lq { head = head; count = count }

abbrev pub popped : LoadQueue → LoadQueue
popped lq = record lq {
  entries = set lq.entries lq.head (invalidated (load_at lq lq.head));
  head = (lq.head + 1) % lq_capacity lq;
  count = lq.count - 1;
}

unfoldable pub deallocate : LoadQueue → RobTag → LoadQueue
unfolding find_by_tag skip_loop
deallocate lq t =
    let search : LoadQueue = elim (find_by_tag lq t) [
      | none ↦ lq
      | some i ↦ skip_invalid (written lq i invalidated)
    ] in
    if lq.count == 0 then lq else if has_tag t (load_at lq lq.head) then popped lq else search

unfoldable pub flush : LoadQueue → LoadQueue
flush lq = record { entries = map invalidated lq.entries; head = 0; tail = 0; count = 0 }

unfoldable pub flush_after : LoadQueue → RobTag → LoadQueue
unfolding compact_loop
flush_after lq keep_tag =
    let (xs, new_tail, new_count) =
      compact_loop default_load (λ e. e.valid && is_older_or_eq e.rob_tag keep_tag) invalidated
        (lq_capacity lq) lq.count lq.head 0 lq.head lq.entries in
    if lq.count == 0 then lq else record lq { entries = xs; tail = new_tail; count = new_count }
