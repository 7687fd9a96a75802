-- ===== src/Rob/Queries.antt =====
-- The searches of the reorder buffer that read: the latest value of a register, the entries behind
-- a tag, and the conditions under which an instruction may issue. Each loop visits the entries in
-- the order of `scan` or `scan_back`; its body is a function by clauses over the visited entries.
pub mod Latest
pub mod Squash
pub mod Older
use rvsim.Base.{
  ℕ, ◌/◌, ◌%◌, ◌^◌, Bool, true, false, not, ◌&&◌, ◌||◌, List, [], ◌∷◌, filter, Option, none, some,
  if◌then◌else◌, ◌==◌,
}
use rvsim.Circular.{scan, scan_back, back}
use rvsim.Types.{RegIdx, is_zero}
use rvsim.Signals.{SystemOp}
use rvsim.RobTag.{RobTag, is_newer_than}
use rvsim.RobEntry.{RobEntry, default_entry, is_issued, is_completed}
use rvsim.Rob.{Rob, capacity}

abbrev pub same_bool : Bool → Bool → Bool
same_bool true b = b
same_bool false b = not b

-- `entry.valid && entry.rd == reg && entry.rd_fp == is_fp`
abbrev pub names_register : RegIdx → Bool → RobEntry → Bool
names_register reg is_fp e = e.valid && (e.rd == reg) && same_bool e.rd_fp is_fp

abbrev pub hardwired : RegIdx → Bool → Bool
hardwired reg is_fp = not is_fp && is_zero reg

-- The entries from the oldest on, and from the newest back.
abbrev pub visited : Rob → List RobEntry
visited r = scan default_entry r.entries (capacity r) r.head r.count

abbrev pub visited_back : Rob → List RobEntry
visited_back r = scan_back default_entry r.entries (capacity r) (back (capacity r) r.tail) r.count

pub latest_result : RegIdx → Bool → List RobEntry → Option ℕ
latest_result reg is_fp [] = none
latest_result reg is_fp (e ∷ es) =
    if names_register reg is_fp e
    then (if is_completed e.state then e.result else none)
    else latest_result reg is_fp es

pub find_latest_result : Rob → RegIdx → Bool → Option ℕ
find_latest_result r reg is_fp =
    if (r.count == 0) || hardwired reg is_fp then none else latest_result reg is_fp (visited_back r)

abbrev pub writes : Bool → RobEntry → Bool
writes is_fp e = if is_fp then e.ctrl.fp_reg_write else e.ctrl.reg_write

abbrev pub value_or_zero : Option ℕ → ℕ
value_or_zero none = 0
value_or_zero (some x) = x

pub latest_producer : RegIdx → Bool → List RobEntry → Option (ℕ × Bool)
latest_producer reg is_fp [] = none
latest_producer reg is_fp (e ∷ es) =
    if names_register reg is_fp e && writes is_fp e
    then some (value_or_zero e.result, is_completed e.state)
    else latest_producer reg is_fp es

pub find_latest_producer : Rob → RegIdx → Bool → Option (ℕ × Bool)
find_latest_producer r reg is_fp =
    if (r.count == 0) || hardwired reg is_fp
    then none
    else latest_producer reg is_fp (visited_back r)

pub prev_tag_loop : RobTag → Option RobTag → List RobEntry → Option RobTag
prev_tag_loop t prev [] = none
prev_tag_loop t prev (e ∷ es) =
    if e.valid && (e.tag == t)
    then prev
    else prev_tag_loop t (if e.valid then some e.tag else prev) es

pub prev_tag_of : Rob → RobTag → Option RobTag
prev_tag_of r t = if r.count == 0 then none else prev_tag_loop t none (visited r)

-- `iter_in_order` and `iter_all`, and `iter_after`
pub iter_in_order : Rob → List RobEntry
iter_in_order r = filter (λ e. e.valid) (visited r)

pub iter_after : Rob → RobTag → List RobEntry
iter_after r t = filter (λ e. e.valid && is_newer_than e.tag t) (visited r)

pub all_before_loop : RobTag → List RobEntry → Bool
all_before_loop t [] = true
all_before_loop t (e ∷ es) =
    if e.valid && (e.tag == t)
    then true
    else if e.valid && is_issued e.state
    then false
    else all_before_loop t es

pub all_before_completed : Rob → RobTag → Bool
all_before_completed r t = if r.count == 0 then true else all_before_loop t (visited r)

-- The entry is a load or a store that the predecessor set of the fence names.
abbrev pub fence_dominates : Bool → Bool → RobEntry → Bool
fence_dominates pred_r pred_w e = (pred_r && e.ctrl.mem_read) || (pred_w && e.ctrl.mem_write)

pub fence_pred_loop : RobTag → Bool → Bool → List RobEntry → Bool
fence_pred_loop t pred_r pred_w [] = true
fence_pred_loop t pred_r pred_w (e ∷ es) =
    if e.valid && (e.tag == t)
    then true
    else if e.valid && is_issued e.state && fence_dominates pred_r pred_w e
    then false
    else fence_pred_loop t pred_r pred_w es

pub fence_pred_satisfied : Rob → RobTag → Bool → Bool → Bool
fence_pred_satisfied r t pred_r pred_w =
    if not pred_r && not pred_w
    then true
    else if r.count == 0
    then true
    else fence_pred_loop t pred_r pred_w (visited r)

abbrev pub is_fence : SystemOp → Bool
is_fence SystemOp.fence = true
is_fence _ = false

-- Bits 21 and 20 of the instruction, the successor set.
abbrev pub succ_r : RobEntry → Bool
succ_r e = (e.inst / 2 ^ 21) % 2 == 1

abbrev pub succ_w : RobEntry → Bool
succ_w e = (e.inst / 2 ^ 20) % 2 == 1

abbrev pub fence_blocks : Bool → Bool → RobEntry → Bool
fence_blocks is_load is_store e =
    is_fence e.ctrl.system_op && ((is_load && succ_r e) || (is_store && succ_w e))

pub fence_blocking_loop : RobTag → Bool → Bool → List RobEntry → Bool
fence_blocking_loop t is_load is_store [] = false
fence_blocking_loop t is_load is_store (e ∷ es) =
    if e.valid && (e.tag == t)
    then false
    else if e.valid && fence_blocks is_load is_store e
    then true
    else fence_blocking_loop t is_load is_store es

pub has_fence_blocking : Rob → RobTag → Bool → Bool → Bool
has_fence_blocking r t is_load is_store =
    if (r.count == 0) || (not is_load && not is_store)
    then false
    else fence_blocking_loop t is_load is_store (visited r)
