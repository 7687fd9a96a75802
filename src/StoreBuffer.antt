-- ===== src/StoreBuffer.antt =====
-- crates/hardware/src/core/pipeline/store_buffer.rs: the stores on their way to memory, a circular
-- buffer in program order. A method that changes the buffer returns the new one. `entries[i]` panics
-- out of range in the source; here such a read is `default_store`, and `IsSound` of
-- StoreBuffer/Inv.antt keeps every index in range.
pub mod Inv
pub mod Ends
pub mod Compact
pub mod Bytes
pub mod Lookup
pub mod Tagged
pub mod Cancel
pub mod Conflict
pub mod Perform
pub mod Forward
mod Tests
use rvsim.Base.{
  ℕ, zero, suc, ◌+◌, ◌-◌, ◌*◌, ◌/◌, ◌%◌, ◌^◌, Bool, true, false, not, ◌&&◌, List, [], ◌∷◌, Option,
  none, some, map, length, get_or, set, replicate, ltb, leb, if◌then◌else◌, ◌==◌,
}
use rvsim.Circular.{scan, scan_back, back, compact_loop}
use rvsim.Signals.{MemWidth, width_to_bytes}
use rvsim.RobTag.{RobTag, is_older_than, is_older_or_eq}

pub data ForwardResult : Type 0 where
  hit : ℕ → ForwardResult
  miss : ForwardResult
  stall : ForwardResult

pub data StoreResolution : Type 0 where
  pending : StoreResolution
  ready : (paddr data' : ℕ) → StoreResolution
  committed : (paddr data' : ℕ) → StoreResolution
  cancelled : StoreResolution

abbrev pub is_committed : StoreResolution → Bool
is_committed pending = false
is_committed (ready a d) = false
is_committed (committed a d) = true
is_committed cancelled = true

abbrev pub is_pending : StoreResolution → Bool
is_pending pending = true
is_pending (ready a d) = false
is_pending (committed a d) = false
is_pending cancelled = false

abbrev pub paddr : StoreResolution → Option ℕ
paddr pending = none
paddr (ready a d) = some a
paddr (committed a d) = some a
paddr cancelled = none

pub record StoreBufferEntry : Type 0 where
  pub rob_tag : RobTag
  pub vaddr : ℕ
  pub width : MemWidth
  pub resolution : StoreResolution
  pub valid : Bool

pub record StoreBuffer : Type 0 where
  pub entries : List StoreBufferEntry
  pub head : ℕ
  pub tail : ℕ
  pub count : ℕ

abbrev pub default_store : StoreBufferEntry
default_store = record {
  rob_tag = 0;
  vaddr = 0;
  width = MemWidth.nop;
  resolution = pending;
  valid = false;
}

abbrev pub sb_capacity : StoreBuffer → ℕ
sb_capacity sb = length sb.entries

abbrev pub store_at : StoreBuffer → ℕ → StoreBufferEntry
store_at sb i = get_or sb.entries i default_store

-- The entries from the oldest on: what a loop from `head` over `count` entries visits.
abbrev pub stores : StoreBuffer → List StoreBufferEntry
stores sb = scan default_store sb.entries (sb_capacity sb) sb.head sb.count

pub new : ℕ → StoreBuffer
new capacity = record { entries = replicate capacity default_store; head = 0; tail = 0; count = 0 }

pub is_empty : StoreBuffer → Bool
is_empty sb = sb.count == 0

pub is_full : StoreBuffer → Bool
is_full sb = sb.count == sb_capacity sb

pub free_slots : StoreBuffer → ℕ
free_slots sb = sb_capacity sb - sb.count

-- A loop that returns `true` at the first entry that passes a test.
abbrev pub any_store : (StoreBufferEntry → Bool) → List StoreBufferEntry → Bool
any_store p [] = false
any_store p (e ∷ es) = if p e then true else any_store p es

pub has_committed_stores : StoreBuffer → Bool
has_committed_stores sb =
    if sb.count == 0
    then false
    else any_store (λ e. e.valid && is_committed e.resolution) (stores sb)

abbrev pub pending_store : RobTag → MemWidth → StoreBufferEntry
pending_store rob_tag width = record {
  rob_tag = rob_tag;
  vaddr = 0;
  width = width;
  resolution = pending;
  valid = true;
}

pub allocate : StoreBuffer → RobTag → MemWidth → Bool × StoreBuffer
unfolding is_full
allocate sb rob_tag width = if is_full sb then (false, sb) else (
  true,
  record sb {
    entries = set sb.entries sb.tail (pending_store rob_tag width);
    tail = (sb.tail + 1) % sb_capacity sb;
    count = sb.count + 1;
  },
)

-- `find_by_tag_mut`: the index of the entry that it finds, `n` rounds from index `i`.
pub find_by_tag : ℕ → StoreBuffer → RobTag → ℕ → Option ℕ
find_by_tag zero sb t i = none
find_by_tag (suc n) sb t i =
    let rest = find_by_tag n sb t ((i + 1) % sb_capacity sb) in
    if (store_at sb i).valid && ((store_at sb i).rob_tag == t) then some i else rest

-- A change made through `find_by_tag_mut`.
pub update_store : StoreBuffer → RobTag → (StoreBufferEntry → StoreBufferEntry) → StoreBuffer
update_store sb t f = elim (find_by_tag sb.count sb t sb.head) [
  | none ↦ sb
  | some i ↦ record sb { entries = set sb.entries i (f (store_at sb i)) }
]

abbrev pub resolved : ℕ → ℕ → ℕ → StoreBufferEntry → StoreBufferEntry
resolved vaddr paddr data' e = record e { vaddr = vaddr; resolution = ready paddr data' }

pub resolve : StoreBuffer → RobTag → ℕ → ℕ → ℕ → StoreBuffer
resolve sb t vaddr paddr data' = update_store sb t (resolved vaddr paddr data')

-- Only a ready store is committed; the debug assertion is left out.
abbrev pub commit_resolution : StoreResolution → StoreResolution
commit_resolution pending = pending
commit_resolution (ready a d) = committed a d
commit_resolution (committed a d) = committed a d
commit_resolution cancelled = cancelled

abbrev pub committing : StoreBufferEntry → StoreBufferEntry
committing e = record e { resolution = commit_resolution e.resolution }

pub mark_committed : StoreBuffer → RobTag → StoreBuffer
mark_committed sb t = update_store sb t committing

-- `start + size as u64`
abbrev pub end_of : ℕ → ℕ → ℕ
end_of start size = (start + size) % 2 ^ 64

-- `load_start < store_end && load_end > store_start`
abbrev pub overlaps : ℕ → MemWidth → ℕ → MemWidth → Bool
overlaps load width store store_width =
    ltb load (end_of store (width_to_bytes store_width))
    && ltb store (end_of load (width_to_bytes width))

-- `store_start <= load_start && store_end >= load_end`
abbrev pub covers : ℕ → MemWidth → ℕ → MemWidth → Bool
covers load width store store_width =
    leb store load
    && leb (end_of load (width_to_bytes width)) (end_of store (width_to_bytes store_width))

-- `(store_data >> (offset * 8)) & mask`, the mask being all ones in the bytes of the load
abbrev pub forwarded : ℕ → MemWidth → ℕ → ℕ → ℕ
forwarded load width store data' =
    (data' / 2 ^ (8 * (load - store))) % 2 ^ (8 * width_to_bytes width)

-- The test of one older store: `none` goes on to the next one.
abbrev pub forward_from : ℕ → MemWidth → MemWidth → ℕ → ℕ → Option ForwardResult
forward_from load width store_width store data' =
    if overlaps load width store store_width
    then (if covers load width store store_width
        then some (hit (forwarded load width store data'))
        else some stall)
    else none

abbrev pub forward_test : ℕ → MemWidth → StoreBufferEntry → Option ForwardResult
forward_test load width e = elim e.resolution [
  | pending ↦ none
  | ready a d ↦ forward_from load width e.width a d
  | committed a d ↦ forward_from load width e.width a d
  | cancelled ↦ none
]

abbrev pub older_store : RobTag → StoreBufferEntry → Bool
older_store t e = e.valid && is_older_than e.rob_tag t

abbrev pub or_else : Option ForwardResult → ForwardResult → ForwardResult
or_else none r = r
or_else (some r) _ = r

-- The loop of `forward_load`, over the entries from the newest back.
pub forward_loop : ℕ → MemWidth → RobTag → List StoreBufferEntry → ForwardResult
forward_loop load width t [] = miss
forward_loop load width t (e ∷ es) =
    let rest = forward_loop load width t es in
    if older_store t e then or_else (forward_test load width e) rest else rest

pub forward_load : StoreBuffer → ℕ → MemWidth → RobTag → ForwardResult
forward_load sb load width t =
    forward_loop load width t
      (scan_back default_store sb.entries (sb_capacity sb) (back (sb_capacity sb) sb.tail) sb.count)

pub has_unresolved_store_before : StoreBuffer → RobTag → Bool
has_unresolved_store_before sb t =
    if sb.count == 0
    then false
    else any_store (λ e. e.valid && is_older_than e.rob_tag t && is_pending e.resolution)
        (stores sb)

pub unresolved_loop : RobTag → List StoreBufferEntry → Bool
unresolved_loop t [] = false
unresolved_loop t (e ∷ es) =
    if e.valid && (e.rob_tag == t) then is_pending e.resolution else unresolved_loop t es

pub is_unresolved : StoreBuffer → RobTag → Bool
is_unresolved sb t = if sb.count == 0 then false else unresolved_loop t (stores sb)

abbrev pub may_overlap : ℕ → MemWidth → StoreBufferEntry → Bool
may_overlap load width e = elim e.resolution [
  | pending ↦ true
  | ready a d ↦ overlaps load width a e.width
  | committed a d ↦ overlaps load width a e.width
  | cancelled ↦ false
]

pub has_older_store_to : StoreBuffer → ℕ → MemWidth → RobTag → Bool
has_older_store_to sb load width t =
    if sb.count == 0
    then false
    else any_store (λ e. older_store t e && may_overlap load width e) (stores sb)

pub drain_one : StoreBuffer → Option StoreBufferEntry × StoreBuffer
drain_one sb =
    let e = store_at sb sb.head in
    if sb.count == 0
    then (none, sb)
    else if not e.valid
    then (none, sb)
    else if not (is_committed e.resolution)
    then (none, sb)
    else (
      some e,
      record sb {
        entries = set sb.entries sb.head (record e { valid = false });
        head = (sb.head + 1) % sb_capacity sb;
        count = sb.count - 1;
      },
    )

abbrev pub invalidated : StoreBufferEntry → StoreBufferEntry
invalidated e = record e { valid = false }

-- The loop of `flush_speculative` and `flush_after`, which keep some of the live entries.
abbrev pub compact : (StoreBufferEntry → Bool) → StoreBuffer → StoreBuffer
compact keep sb =
    let (xs, new_tail, new_count) =
      compact_loop default_store (λ e. e.valid && keep e) invalidated (sb_capacity sb) sb.count
        sb.head 0 sb.head sb.entries in
    if sb.count == 0 then sb else record sb { entries = xs; tail = new_tail; count = new_count }

pub flush_speculative : StoreBuffer → StoreBuffer
flush_speculative sb = compact (λ e. is_committed e.resolution) sb

pub flush_after : StoreBuffer → RobTag → StoreBuffer
flush_after sb keep_tag = compact (λ e. is_older_or_eq e.rob_tag keep_tag) sb

pub flush_all : StoreBuffer → StoreBuffer
flush_all sb = record {
  entries = map {A = StoreBufferEntry} (λ e. record e { valid = false }) sb.entries;
  head = 0;
  tail = 0;
  count = 0;
}

abbrev pub as_cancelled : StoreBufferEntry → StoreBufferEntry
as_cancelled e = record e { resolution = cancelled }

-- The newest entry is retracted; another one stays, as a store without effect.
pub cancel : StoreBuffer → RobTag → StoreBuffer
cancel sb t = elim (find_by_tag sb.count sb t sb.head) [
  | none ↦ sb
  | some i ↦
      if i == back (sb_capacity sb) sb.tail
      then record sb {
        entries = set sb.entries i (invalidated (store_at sb i));
        tail = back (sb_capacity sb) sb.tail;
        count = sb.count - 1;
      }
      else record sb { entries = set sb.entries i (as_cancelled (store_at sb i)) }
]

pub find_paddr : StoreBuffer → RobTag → Option ℕ
find_paddr sb t = elim (find_by_tag sb.count sb t sb.head) [
  | none ↦ none
  | some i ↦ paddr (store_at sb i).resolution
]
