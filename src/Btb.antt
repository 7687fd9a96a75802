-- ===== src/Btb.antt =====
-- crates/hardware/src/core/units/bru/btb.rs: the branch target buffer, set-associative with a
-- replacement pointer for each set. A read past the end panics in the source and is
-- `default_entry` here; `IsBtb` of Btb/Targets.antt keeps every index in range.
pub mod Targets
mod Tests
use rvsim.Base.{
  ℕ, ◌+◌, ◌-◌, ◌*◌, ◌/◌, ◌%◌, ◌^◌, Bool, true, false, not, ◌&&◌, List, Option, none, some, bit_and,
  max, get_or, set, replicate, if◌then◌else◌, ◌==◌,
}
use rvsim.Ways.{find_way}

pub record BtbEntry : Type 0 where
  pub tag : ℕ
  pub target : ℕ
  pub valid : Bool

abbrev pub default_entry : BtbEntry
default_entry = record { tag = 0; target = 0; valid = false }

pub record Btb : Type 0 where
  pub table : List BtbEntry
  pub num_sets : ℕ
  pub ways : ℕ
  pub replace_ptr : List ℕ

unfoldable pub new : ℕ → ℕ → Btb
new size ways =
    let w = max ways 1 in
    let n = max (size / w) 1 in
    record {
      table = replicate (n * w) default_entry;
      num_sets = n;
      ways = w;
      replace_ptr = replicate n 0;
    }

-- `((pc >> 2) as usize) & (self.num_sets - 1)`
abbrev pub set_index : Btb → ℕ → ℕ
set_index b pc = bit_and (pc / 2 ^ 2) (b.num_sets - 1)

abbrev pub base_of : Btb → ℕ → ℕ
base_of b pc = set_index b pc * b.ways

-- `e.valid && e.tag == pc`
abbrev pub is_for : ℕ → BtbEntry → Bool
is_for pc e = e.valid && (e.tag == pc)

abbrev pub is_invalid : BtbEntry → Bool
is_invalid e = not e.valid

abbrev pub find_entry : Btb → ℕ → (BtbEntry → Bool) → Option ℕ
find_entry b pc test = find_way default_entry test b.table (base_of b pc) b.ways 0

abbrev pub entry_at : Btb → ℕ → ℕ → BtbEntry
entry_at b pc w = get_or b.table (base_of b pc + w) default_entry

abbrev pub target_at : Btb → ℕ → Option ℕ → Option ℕ
target_at b pc none = none
target_at b pc (some w) = some (entry_at b pc w).target

unfoldable pub lookup : Btb → ℕ → Option ℕ
unfolding find_way
lookup b pc = target_at b pc (find_entry b pc (is_for pc))

abbrev pub write : Btb → ℕ → ℕ → BtbEntry → Btb
write b pc w e = record b { table = set b.table (base_of b pc + w) e }

-- The three ways of an update: the entry of the branch, an invalid one, the victim.
abbrev pub retarget : Btb → ℕ → ℕ → ℕ → Btb
retarget b pc target w = write b pc w (record (entry_at b pc w) { target = target })

abbrev pub fresh : ℕ → ℕ → BtbEntry
fresh pc target = record { tag = pc; target = target; valid = true }

abbrev pub victim : Btb → ℕ → ℕ
victim b pc = get_or b.replace_ptr (set_index b pc) 0 % b.ways

abbrev pub replace : Btb → ℕ → ℕ → Btb
replace b pc target =
    let v = victim b pc in
    write (record b { replace_ptr = set b.replace_ptr (set_index b pc) ((v + 1) % b.ways % 2 ^ 8) })
      pc v (fresh pc target)

abbrev pub fill : Btb → ℕ → ℕ → Option ℕ → Btb
fill b pc target none = replace b pc target
fill b pc target (some w) = write b pc w (fresh pc target)

abbrev pub updated : Btb → ℕ → ℕ → Option ℕ → Option ℕ → Btb
updated b pc target none free = fill b pc target free
updated b pc target (some w) free = retarget b pc target w

unfoldable pub update : Btb → ℕ → ℕ → Btb
unfolding find_way
update b pc target = updated b pc target (find_entry b pc (is_for pc)) (find_entry b pc is_invalid)
