-- ===== src/Ras.antt =====
-- crates/hardware/src/core/units/bru/ras.rs: the return address stack. An index out of range panics
-- in the source; here such a write does nothing and such a read gives 0.
pub mod Calls
mod Tests
use rvsim.Base.{
  ℕ, ◌+◌, ◌-◌, List, Option, none, some, get_or, set, replicate, ltb, if◌then◌else◌, ◌==◌,
}

pub record Ras : Type 0 where
  pub stack : List ℕ
  pub ptr : ℕ
  pub capacity : ℕ

unfoldable pub new : ℕ → Ras
new capacity = record { stack = replicate capacity 0; ptr = 0; capacity = capacity }

unfoldable pub push : Ras → ℕ → Ras
push r addr =
    if ltb r.ptr r.capacity
    then record r { stack = set r.stack r.ptr addr; ptr = r.ptr + 1 }
    else record r { stack = set r.stack (r.capacity - 1) addr }

unfoldable pub pop : Ras → Option ℕ × Ras
pop r =
    if r.ptr == 0
    then (none, r)
    else (some (get_or r.stack (r.ptr - 1) 0), record r { ptr = r.ptr - 1 })

unfoldable pub top : Ras → Option ℕ
top r = if r.ptr == 0 then none else some (get_or r.stack (r.ptr - 1) 0)

abbrev pub snapshot_ptr : Ras → ℕ
snapshot_ptr r = r.ptr

abbrev pub restore_ptr : Ras → ℕ → Ras
restore_ptr r ptr = record r { ptr = ptr }
