-- ===== src/Mshr.antt =====
-- crates/hardware/src/core/units/cache/mshr.rs: the registers of outstanding cache misses. What a
-- waiter parks, an entry of a pipeline latch, is a parameter.
pub mod Waiting
mod Tests
use rvsim.Base.{
  ℕ, ◌+◌, ◌-◌, ◌%◌, ◌^◌, Bool, true, false, not, ◌&&◌, ◌||◌, List, [], ◌∷◌, ◌++◌, Option, none,
  some, map, filter, bit_and, get_or, set, replicate, leb, if◌then◌else◌, ◌==◌,
}
use rvsim.Circular.Find.{position}
use rvsim.RobTag.{RobTag, is_older_or_eq}

pub data MshrState : Type 0 where
  pending complete : MshrState

pub record MshrWaiter (P : Type 0) : Type 0 where
  pub rob_tag : RobTag
  pub parked_entry : Option P

pub record MshrEntry (P : Type 0) : Type 0 where
  pub line_addr : ℕ
  pub state : MshrState
  pub complete_cycle : ℕ
  pub waiters : List (MshrWaiter P)
  pub valid : Bool
  pub is_write : Bool

pub data CacheResponse : Type 0 where
  hit : CacheResponse
  mshr_allocated : (complete_cycle : ℕ) → CacheResponse
  mshr_coalesced : (complete_cycle : ℕ) → CacheResponse
  mshr_full : CacheResponse

pub record MshrFile (P : Type 0) : Type 0 where
  pub entries : List (MshrEntry P)
  pub cap : ℕ
  pub count : ℕ
  pub line_bytes : ℕ

module _ {P : Type 0} where
  abbrev pub empty_entry : MshrEntry P
  empty_entry = record {
    line_addr = 0;
    state = pending;
    complete_cycle = 0;
    waiters = [];
    valid = false;
    is_write = false;
  }

  unfoldable pub new : ℕ → ℕ → MshrFile P
  new capacity line_bytes = record {
    entries = replicate capacity empty_entry;
    cap = capacity;
    count = 0;
    line_bytes = if line_bytes == 0 then 64 else line_bytes;
  }

  -- `addr & !(self.line_bytes as u64 - 1)`
  abbrev pub line_align : MshrFile P → ℕ → ℕ
  line_align f addr = bit_and addr (2 ^ 64 - 1 - (f.line_bytes - 1))

  abbrev pub is_for : ℕ → MshrEntry P → Bool
  is_for line e = e.valid && (e.line_addr == line)

  abbrev pub find_line : MshrFile P → ℕ → Option ℕ
  find_line f line = position (is_for line) f.entries

  abbrev pub joined : MshrWaiter P → Bool → MshrEntry P → MshrEntry P
  joined w is_write e = record e {
    waiters = e.waiters ++ w ∷ [];
    is_write = e.is_write || is_write;
  }

  abbrev pub is_free : MshrEntry P → Bool
  is_free e = not e.valid

  abbrev pub allocated : ℕ → Bool → ℕ → MshrWaiter P → MshrEntry P
  allocated line is_write complete_cycle w = record {
    line_addr = line;
    state = pending;
    complete_cycle = complete_cycle;
    waiters = w ∷ [];
    valid = true;
    is_write = is_write;
  }

  abbrev pub coalesce : MshrFile P → MshrWaiter P → Bool → ℕ → CacheResponse × MshrFile P
  coalesce f w is_write i =
      let e = get_or f.entries i empty_entry in
      (
        mshr_coalesced e.complete_cycle,
        record f { entries = set f.entries i (joined w is_write e) },
      )

  -- The loop that looks for a free register.
  abbrev pub take_free :
      MshrFile P → ℕ → Bool → ℕ → MshrWaiter P → Option ℕ → CacheResponse × MshrFile P
  take_free f line is_write complete_cycle w none = (mshr_full, f)
  take_free f line is_write complete_cycle w (some i) = (
    mshr_allocated complete_cycle,
    record f {
      entries = set f.entries i (allocated line is_write complete_cycle w);
      count = f.count + 1;
    },
  )

  abbrev pub respond :
      MshrFile P → ℕ → Bool → ℕ → MshrWaiter P → Option ℕ → CacheResponse × MshrFile P
  respond f line is_write complete_cycle w (some i) = coalesce f w is_write i
  respond f line is_write complete_cycle w none =
      if leb f.cap f.count
      then (mshr_full, f)
      else take_free f line is_write complete_cycle w (position is_free f.entries)

  unfoldable pub request : MshrFile P → ℕ → Bool → ℕ → ℕ → MshrWaiter P → CacheResponse × MshrFile P
  request f addr is_write miss_latency current_cycle w =
      let line = line_align f addr in
      respond f line is_write ((current_cycle + miss_latency) % 2 ^ 64) w (find_line f line)

  -- `entry.valid && entry.complete_cycle <= current_cycle`
  abbrev pub is_due : ℕ → MshrEntry P → Bool
  is_due now e = e.valid && leb e.complete_cycle now

  abbrev pub taken : MshrEntry P → MshrEntry P
  taken e = record e { state = complete }

  abbrev pub vacated : MshrEntry P
  vacated = record empty_entry { state = complete }

  -- The loop over the registers: those left, the completed ones, and the count.
  unfoldable pub drain_loop :
      ℕ → List (MshrEntry P) → ℕ → List (MshrEntry P) × List (MshrEntry P) × ℕ
  drain_loop now [] count = ([], [], count)
  drain_loop now (e ∷ es) count =
      let due = is_due now e in
      let (rest, done, count') = drain_loop now es (if due then count - 1 else count) in
      if due then (vacated ∷ rest, taken e ∷ done, count') else (e ∷ rest, done, count')

  unfoldable pub drain_completions : MshrFile P → ℕ → List (MshrEntry P) × MshrFile P
  unfolding drain_loop
  drain_completions f now =
      let (rest, done, count) = drain_loop now f.entries f.count in
      (done, record f { entries = rest; count = count })

  abbrev pub squashed : RobTag → MshrEntry P → MshrEntry P
  squashed t e =
      if not e.valid
      then e
      else record e { waiters = filter (λ w. is_older_or_eq w.rob_tag t) e.waiters }

  unfoldable pub flush_after : MshrFile P → RobTag → MshrFile P
  flush_after f t = record f { entries = map (squashed t) f.entries }

  abbrev pub dropped : MshrEntry P → MshrEntry P
  dropped e = record e { valid = false; waiters = [] }

  unfoldable pub flush : MshrFile P → MshrFile P
  flush f = record f { entries = map dropped f.entries; count = 0 }

  unfoldable pub is_full : MshrFile P → Bool
  is_full f = leb f.cap f.count
