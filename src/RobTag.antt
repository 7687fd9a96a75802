-- ===== src/RobTag.antt =====
-- `RobTag` of crates/hardware/src/core/pipeline/rob.rs: 32-bit tags of the instructions in flight,
-- handed out in order, 0 left out, and compared by their signed distance.
pub mod Age
mod Tests
use rvsim.Base.{ℕ, ◌+◌, ◌-◌, ◌%◌, ◌^◌, Bool, not, leb, ◌==◌, if◌then◌else◌}

abbrev pub RobTag : Type 0
RobTag = ℕ

-- `self.0.wrapping_sub(other.0)`
abbrev pub wrapping_sub : RobTag → RobTag → ℕ
wrapping_sub a b = (a + 2 ^ 32 - b) % 2 ^ 32

-- The difference, read as an `i32`, is negative.
pub is_older_than : RobTag → RobTag → Bool
is_older_than a b = leb (2 ^ 31) (wrapping_sub a b)

pub is_newer_than : RobTag → RobTag → Bool
is_newer_than a b = is_older_than b a

pub is_older_or_eq : RobTag → RobTag → Bool
is_older_or_eq a b = not (is_older_than b a)

-- `next_tag.wrapping_add(1)`, and 1 in place of 0
unfoldable pub next_after : RobTag → RobTag
next_after t = let t' = (t + 1) % 2 ^ 32 in if t' == 0 then 1 else t'
