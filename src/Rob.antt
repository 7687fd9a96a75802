-- ===== src/Rob.antt =====
-- `Rob` of crates/hardware/src/core/pipeline/rob.rs: the reorder buffer, a circular buffer of the
-- instructions in flight with an index from tags to slots. A method that changes the buffer returns
-- the new one. `entries[i]` panics out of range in the source; here such a read is `default_entry`,
-- and `IsValid` of Rob/Inv.antt keeps every index in range.
pub mod Inv
pub mod Queue
pub mod Commit
pub mod Update
pub mod Faults
mod Forget
pub mod FlushLoops
pub mod Flush
pub mod Queries
mod Tests
use rvsim.Base.{
  ℕ, zero, suc, ◌+◌, ◌-◌, ◌%◌, bit_or, Bool, true, false, not, ◌&&◌, List, Option, none, some, map,
  length, get_or, set, replicate, if◌then◌else◌, ◌==◌,
}
use rvsim.Types.{RegIdx, InstSize, ExceptionStage, Trap, PteUpdate, SfenceVmaInfo, LrScRecord, Ghr}
use rvsim.Signals.{ControlSignals}
use rvsim.RobTag.{RobTag, is_older_than, next_after}
use rvsim.RobEntry.{
  RobEntry, completed, faulted, CsrUpdate, BpOutcome, fresh_entry, default_entry, is_issued,
  is_faulted,
}

-- `HashMap<RobTag, usize>`
abbrev pub TagIndex : Type 0
TagIndex = RobTag → Option ℕ

abbrev pub insert_tag : TagIndex → RobTag → ℕ → TagIndex
insert_tag m t i s = if s == t then some i else m s

abbrev pub remove_tag : TagIndex → RobTag → TagIndex
remove_tag m t s = if s == t then none else m s

pub record Rob : Type 0 where
  pub entries : List RobEntry
  pub head : ℕ
  pub tail : ℕ
  pub count : ℕ
  pub next_tag : RobTag
  pub tag_index : TagIndex

abbrev pub capacity : Rob → ℕ
capacity r = length r.entries

abbrev pub entry_at : Rob → ℕ → RobEntry
entry_at r i = get_or r.entries i default_entry

-- `(i + 1) % self.entries.len()`
abbrev pub step_index : Rob → ℕ → ℕ
step_index r i = (i + 1) % capacity r

unfoldable pub new : ℕ → Rob
new n = record {
  entries = replicate n default_entry;
  head = 0;
  tail = 0;
  count = 0;
  next_tag = 1;
  tag_index = λ _. none;
}

pub is_full : Rob → Bool
is_full r = r.count == capacity r

unfoldable pub free_slots : Rob → ℕ
free_slots r = capacity r - r.count

unfoldable pub allocate :
    Rob → ℕ → ℕ → InstSize → RegIdx → Bool → ControlSignals → ℕ → ℕ → Option RobTag × Rob
unfolding is_full
allocate r pc inst inst_size rd rd_fp ctrl phys_dst old_phys_dst =
    let tag = r.next_tag in
    let e = fresh_entry tag pc inst inst_size rd rd_fp ctrl phys_dst old_phys_dst in
    if is_full r then (none, r) else (
      some tag,
      record r {
        next_tag = next_after tag;
        entries = set r.entries r.tail e;
        tag_index = insert_tag r.tag_index tag r.tail;
        tail = step_index r r.tail;
        count = r.count + 1;
      },
    )

-- `find_entry`, and `find_entry_mut` with the change made through the reference.
pub find_entry : Rob → RobTag → Option RobEntry
find_entry r t = elim (r.tag_index t) [
  | none ↦ none
  | some i ↦ if (entry_at r i).valid then some (entry_at r i) else none
]

unfoldable pub update_entry : Rob → RobTag → (RobEntry → RobEntry) → Rob
update_entry r t f = elim (r.tag_index t) [
  | none ↦ r
  | some i ↦
      if (entry_at r i).valid then record r { entries = set r.entries i (f (entry_at r i)) } else r
]

abbrev pub completing : ℕ → RobEntry → RobEntry
completing result e =
    if not (is_faulted e.state) then record e { state = completed; result = some result } else e

pub complete : Rob → RobTag → ℕ → Rob
complete r t result = update_entry r t (completing result)

abbrev pub faulting : Trap → ExceptionStage → RobEntry → RobEntry
faulting trap stage e = record e { state = faulted; trap = some trap; exception_stage = some stage }

pub fault : Rob → RobTag → Trap → ExceptionStage → Rob
fault r t trap stage = update_entry r t (faulting trap stage)

pub set_csr_update : Rob → RobTag → CsrUpdate → Rob
set_csr_update r t u = update_entry r t (λ e. record e { csr_update = some u })

pub mark_csr_applied : Rob → RobTag → Rob
mark_csr_applied r t = update_entry r t λ e. elim e.csr_update [
  | none ↦ e
  | some u ↦ record e { csr_update = some (record u { applied = true }) }
]

pub set_bp_update : Rob → RobTag → ℕ → BpOutcome → Option ℕ → Ghr → Rob
set_bp_update r t pc outcome target ghr = update_entry r t λ e. record e {
  bp_update = true;
  bp_pc = pc;
  bp_outcome = outcome;
  bp_target = target;
  bp_ghr_snapshot = ghr;
}

pub set_bp_target : Rob → RobTag → ℕ → Rob
set_bp_target r t target = update_entry r t (λ e. record e { bp_target = some target })

pub set_fp_flags : Rob → RobTag → ℕ → Rob
set_fp_flags r t flags = update_entry r t (λ e. record e { fp_flags = bit_or e.fp_flags flags })

pub set_pte_update : Rob → RobTag → PteUpdate → Rob
set_pte_update r t u = update_entry r t (λ e. record e { pte_update = some u })

pub set_sfence_vma : Rob → RobTag → SfenceVmaInfo → Rob
set_sfence_vma r t info = update_entry r t (λ e. record e { sfence_vma = some info })

pub set_lr_sc : Rob → RobTag → LrScRecord → Rob
set_lr_sc r t l = update_entry r t (λ e. record e { lr_sc = some l })

pub set_checkpoint_id : Rob → RobTag → ℕ → Rob
set_checkpoint_id r t id = update_entry r t (λ e. record e { checkpoint_id = some id })

pub set_store_info : Rob → RobTag → ℕ → ℕ → Rob
set_store_info r t addr data' =
    update_entry r t (λ e. record e { store_addr = addr; store_data = data' })

-- The loop of `drain_fp_flags_before`, `n` rounds from index `i`.
pub drain_loop : ℕ → RobTag → ℕ → Rob → ℕ → ℕ × Rob
drain_loop zero before i r acc = (acc, r)
drain_loop (suc n) before i r acc =
    let e = entry_at r i in
    let hit = e.valid && is_older_than e.tag before in
    drain_loop n before (step_index r i)
      (if hit then record r { entries = set r.entries i (record e { fp_flags = 0 }) } else r)
      (if hit then bit_or acc e.fp_flags else acc)

pub drain_fp_flags_before : Rob → RobTag → ℕ × Rob
drain_fp_flags_before r before =
    if r.count == 0 then (0, r) else drain_loop r.count before r.head r 0

pub peek_head : Rob → Option RobEntry
peek_head r = if r.count == 0 then none else some (entry_at r r.head)

unfoldable pub commit_head : Rob → Option RobEntry × Rob
commit_head r =
    let e = entry_at r r.head in
    if r.count == 0 then (none, r) else if is_issued e.state then (none, r) else (
      some e,
      record r {
        tag_index = remove_tag r.tag_index e.tag;
        entries = set r.entries r.head (record e { valid = false });
        head = step_index r r.head;
        count = r.count - 1;
      },
    )

pub flush_all : Rob → Rob
flush_all r = record r {
  entries = map {A = RobEntry} (λ e. record e { valid = false }) r.entries;
  tag_index = λ _. none;
  head = 0;
  tail = 0;
  count = 0;
}

-- The three loops of `flush_after`. The search makes `count` rounds at most. The others stop at the
-- tail; their fuel is the capacity.
pub find_index : ℕ → Rob → RobTag → ℕ → Option ℕ
find_index zero r t i = none
find_index (suc n) r t i =
    let rest = find_index n r t (step_index r i) in if (entry_at r i).tag == t then some i else rest

pub remove_until_tail : ℕ → Rob → ℕ → Rob
remove_until_tail zero r i = r
remove_until_tail (suc fuel) r i =
    let e = entry_at r i in
    let removed = record r {
      tag_index = remove_tag r.tag_index e.tag;
      entries = set r.entries i (record e { valid = false });
    } in
    let rest = remove_until_tail fuel removed (step_index r i) in if i == r.tail then r else rest

pub recount : ℕ → Rob → ℕ → ℕ → ℕ
recount zero r i n = n
recount (suc fuel) r i n =
    let rest = recount fuel r (step_index r i) (if (entry_at r i).valid then n + 1 else n) in
    if i == r.tail then n else rest

pub cut : Rob → ℕ → Rob
cut r keep_idx =
    let r' = record (remove_until_tail (capacity r) r keep_idx) { tail = keep_idx } in
    record r' { count = recount (capacity r) r' r.head 0 }

pub flush_after : Rob → RobTag → Rob
unfolding cut
flush_after r t = if r.count == 0 then r else elim (find_index r.count r t r.head) [
  | none ↦ r
  | some i ↦ if step_index r i == r.tail then r else cut r (step_index r i)
]
