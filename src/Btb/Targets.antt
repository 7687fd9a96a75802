-- ===== src/Btb/Targets.antt =====
-- A lookup after an update.
use native.Mathlib.Nat.{mul-le-mul_right, mod-lt}
use rvsim.Base.{
  ℕ, suc, ◌+◌, ◌-◌, ◌*◌, ◌/◌, ◌^◌, ◌≤◌, ◌<◌, ◌≡◌, ap, ◌∙◌, true, Option, none, some, arith, length,
  length-set, get_or, get_or-set_self,
}
use rvsim.Base.Bits.{bit_and-le}
use rvsim.Ways.Search.{Fails, Finds, searched-Finds, find_way-set}
use rvsim.Btb.{
  Btb, BtbEntry, default_entry, set_index, base_of, is_for, is_invalid, find_entry, entry_at,
  target_at, lookup, write, fresh, victim, updated, update,
}

-- The sets lie within the table, and a set has a way.
pub record IsBtb (b : Btb) : Type 0 where
  pub some_way : 0 < b.ways
  pub some_set : 0 < b.num_sets
  pub sized : length b.table ≡ b.num_sets * b.ways

write-IsBtb : (b : Btb) (pc w : ℕ) (e : BtbEntry) → IsBtb b → IsBtb (write b pc w e)
write-IsBtb b pc w e v = record {
  some_way = v.some_way;
  some_set = v.some_set;
  sized = length-set b.table (base_of b pc + w) e ∙ v.sized;
}

module _ (b : Btb) (pc target : ℕ) (v : IsBtb b) where
  within : (w : ℕ) → w < b.ways → base_of b pc + w < length b.table
  within w h =
      let below : set_index b pc ≤ b.num_sets - 1 =
        bit_and-le (b.num_sets - 1) (pc / 2 ^ 2) (b.num_sets - 1) (omega arith) in
      let row : suc (set_index b pc) ≤ b.num_sets = omega (arith, below, v.some_set) in
      omega (arith, v.sized, mul-le-mul_right b.ways row)

  -- An entry written at a way, with no entry of the branch before it, is the one found.
  lookup-write :
      (w : ℕ) (e : BtbEntry)
      → w < b.ways
      → Fails default_entry (is_for pc) (base_of b pc) b.table 0 w
      → is_for pc e ≡ true
      → lookup (write b pc w e) pc ≡ some e.target
  unfolding lookup
  lookup-write w e lt f own =
      ap (target_at (write b pc w e) pc) (
        find_way-set default_entry (is_for pc) (base_of b pc) b.table b.ways w e lt (within w lt)
          own f)
      ∙ ap (λ x. some x.target)
          (get_or-set_self b.table (base_of b pc + w) e default_entry (within w lt))

  updated-target :
      (o free : Option ℕ)
      → Finds default_entry (is_for pc) (base_of b pc) b.table 0 b.ways o
      → Finds default_entry is_invalid (base_of b pc) b.table 0 b.ways free
      → (lookup (updated b pc target o free) pc ≡ some target) × IsBtb (updated b pc target o free)
  unfolding lookup
  updated-target (some w) free (lt, here, f) g =
      let e : BtbEntry = record (entry_at b pc w) { target = target } in
      (lookup-write w e lt f here, write-IsBtb b pc w e v)
  updated-target none (some w) f (lt, here, g) =
      let e = fresh pc target in
      (
        lookup-write w e lt (λ j lo hi. f j lo (omega (arith, hi, lt))) (ground arith),
        write-IsBtb b pc w e v,
      )
  updated-target none none f g =
      let e = fresh pc target in
      let lt = mod-lt (get_or b.replace_ptr (set_index b pc) 0) v.some_way in
      (
        lookup-write (victim b pc) e lt (λ j lo hi. f j lo (omega (arith, hi, lt))) (ground arith),
        record {
          some_way = v.some_way;
          some_set = v.some_set;
          sized = length-set b.table (base_of b pc + victim b pc) e ∙ v.sized;
        },
      )

  -- After an update for a branch a lookup of it gives the target, whether the branch had an entry,
  -- an invalid way was free, or an entry was replaced; the table keeps its sizes.
  pub lookup-update : (lookup (update b pc target) pc ≡ some target) × IsBtb (update b pc target)
  unfolding update
  lookup-update =
      updated-target (find_entry b pc (is_for pc)) (find_entry b pc is_invalid)
        (searched-Finds default_entry (is_for pc) (base_of b pc) b.table b.ways)
        (searched-Finds default_entry is_invalid (base_of b pc) b.table b.ways)
