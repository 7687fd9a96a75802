-- ===== src/Pmp/Tests.antt =====
-- The theorems on the protection unit, at one with a locked entry for the first 4 KB and a write
-- that the lock rejects.
use rvsim.Base.{◌+◌, ◌*◌, ◌^◌, ◌≡◌, true, false, [], ◌∷◌, length, refl, arith}
use rvsim.Pmp.{Pmp, Access, disabled, entry_at, napot_range, check}
use rvsim.Pmp.Match.Decide.{IsDecided, check-Decided}
use rvsim.Pmp.Napot.{napot_encode, napot_range-encode}
use rvsim.Pmp.Locks.{cfg, addr, perform_all, perform_all-locked}

abbrev locked : Pmp
locked = record { entries = record { cfg = 0x99; addr = 511 } ∷ disabled ∷ [] }

abbrev store_access : Access
store_access = record {
  byte_addr = 2048;
  size = 8;
  is_read = false;
  is_write = true;
  is_exec = false;
  is_machine_mode = true;
}

check-Decided_example : IsDecided store_access locked.entries (check locked store_access)
check-Decided_example =
    check-Decided store_access (omega arith) locked (omega arith, (omega arith, tt))

napot_range-encode_example :
    napot_range (napot_encode 9 3) ≡ (3 * 2 ^ (9 + 3), 3 * 2 ^ (9 + 3) + 2 ^ (9 + 3))
napot_range-encode_example = napot_range-encode 9 3 (omega arith) (omega arith)

perform_all-locked_example :
    let ws = cfg 0 0 ∷ addr 0 7 ∷ cfg 1 0x1f ∷ [] in
    (entry_at (perform_all locked ws) 0 ≡ entry_at locked 0)
    × (length (perform_all locked ws).entries ≡ length locked.entries)
perform_all-locked_example = perform_all-locked locked (cfg 0 0 ∷ addr 0 7 ∷ cfg 1 0x1f ∷ []) 0 refl
