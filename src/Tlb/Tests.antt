-- ===== src/Tlb/Tests.antt =====
-- The theorems on the translation buffers: one of two entries, and a shared one of two sets of two
-- ways after two insertions.
use rvsim.Base.{ℕ, set, ◌+◌, ◌*◌, ◌/◌, ◌%◌, ◌≡◌, [], ◌∷◌, some, none, arith, if◌then◌else◌, ◌==◌}
use rvsim.Tlb.{
  Tlb, lookup, from_pte, flush, invalidate, flush_vaddr, flush_asid, flush_vaddr_asid,
  default_entry,
}
use rvsim.Tlb.Answers.{found, hit, unless, is_private, found-flush}
use rvsim.Tlb.Shared
use rvsim.Tlb.Shared.{L2Tlb, base_of, set_of, find_in_set, is_invalid, or_else, chosen_way}
use rvsim.Tlb.Shared.Ages.{
  AgesZero, Chooses, inserting, flushing_asid, perform_all, chosen_way-perform_all,
}
use rvsim.Tlb.Shared.RoundTrip.{IsShared, shared-lookup-insert}

abbrev small : Tlb
small = record { entries = from_pte 4 100 207 1 ∷ default_entry ∷ []; mask = 1 }

found-flush_example :
    ((t' : Tlb) → lookup t' 4 1 ≡ hit (found t' 4 1))
    × (found (flush small) 4 1 ≡ none)
    × (found (invalidate small 6) 4 1 ≡ (if 6 == 4 then none else found small 4 1))
    × (found (flush_vaddr small 6) 4 1 ≡ (if 6 == 4 then none else found small 4 1))
    × (found (flush_asid small 1) 4 1 ≡ unless (is_private 1) (found small 4 1))
    × (found (flush_vaddr_asid small 6 1) 4 1
        ≡ (if 6 == 4 then unless (is_private 1) (found small 4 1) else found small 4 1))
found-flush_example = found-flush small 6 1 4 1 (omega arith)

abbrev shared : L2Tlb
shared = record {
  entries = from_pte 4 100 207 1 ∷ from_pte 6 101 207 1 ∷ default_entry ∷ default_entry ∷ [];
  ways = 2;
  set_mask = 1;
  lru = 0 ∷ 0 ∷ 0 ∷ 0 ∷ [];
  latency = 8;
}

shared-IsShared : IsShared shared
shared-IsShared = record { some_way = omega arith; room = omega arith }

shared-lookup-insert_example :
    (Shared.lookup (Shared.insert shared 8 300 207 1) 8 1).0
    ≡ some (300, 1 + 2 * ((207 / 2) % 32) + 128 * ((207 / 128) % 2), 1)
shared-lookup-insert_example = shared-lookup-insert shared 8 1 shared-IsShared 300 207

chosen_way-perform_all_example :
    let ops = inserting 4 100 207 1 ∷ inserting 6 101 207 1 ∷ flushing_asid 2 ∷ [] in
    let t = perform_all (Shared.new 4 2 8) ops in
    AgesZero t.lru
    × ((w : ℕ) × Chooses t 8 1 w
        × (chosen_way t 8 1 ≡ w)
        × ((Shared.insert t 8 300 207 1).entries
            ≡ set t.entries (base_of t (set_of t 8) + w) (from_pte 8 300 207 1)))
chosen_way-perform_all_example =
    chosen_way-perform_all 4 2 8 8 1 300 207
      (inserting 4 100 207 1 ∷ inserting 6 101 207 1 ∷ flushing_asid 2 ∷ [])
