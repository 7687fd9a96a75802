-- ===== src/StoreBuffer/Tests.antt =====
-- The theorems on the store buffer at a concrete one: three stores in four slots, from the fourth
-- slot on around the end.
use rvsim.Base.{◌≡◌, refl, true, false, [], ◌∷◌, arith}
use rvsim.Signals.{MemWidth}
use rvsim.RobTag.{is_older_or_eq}
use rvsim.StoreBuffer.{
  StoreBuffer, StoreBufferEntry, ready, committed, miss, stores, default_store, pending_store,
  drain_one, forward_load, has_older_store_to, has_unresolved_store_before, flush_after, cancel,
}
use rvsim.StoreBuffer.Inv.{IsSound}
use rvsim.StoreBuffer.Ends.{Drains, drain_one-depart}
use rvsim.StoreBuffer.Compact.{Filters, flush_after-filter}
use rvsim.StoreBuffer.Cancel.{Withdraws, cancel-withdraw}
use rvsim.StoreBuffer.Forward.{Forwards, forward_load-Forwards}
use rvsim.StoreBuffer.Conflict.{has_older_store_to-forward_load}

abbrev first_store : StoreBufferEntry
first_store = record {
  rob_tag = 1;
  vaddr = 4096;
  width = MemWidth.double;
  resolution = committed 2048 72623859790382856;
  valid = true;
}

abbrev second_store : StoreBufferEntry
second_store = record {
  rob_tag = 3;
  vaddr = 4100;
  width = MemWidth.half;
  resolution = ready 2052 258;
  valid = true;
}

abbrev three_stores : StoreBuffer
three_stores = record {
  entries = second_store ∷ pending_store 6 MemWidth.byte ∷ default_store ∷ first_store ∷ [];
  head = 3;
  tail = 2;
  count = 3;
}

three_stores-IsSound : IsSound three_stores
three_stores-IsSound = record {
  head_lt = omega arith;
  count_le = omega arith;
  tail_eq = refl;
  occupied = (refl, (refl, (refl, tt)));
}

drain_one-depart_example : Drains three_stores (drain_one three_stores)
drain_one-depart_example = drain_one-depart three_stores three_stores-IsSound

flush_after-filter_example :
    Filters (λ e. is_older_or_eq e.rob_tag 4) three_stores (flush_after three_stores 4)
flush_after-filter_example = flush_after-filter three_stores 4 three_stores-IsSound

cancel-withdraw_example : Withdraws 3 three_stores (cancel three_stores 3)
cancel-withdraw_example = cancel-withdraw three_stores 3 three_stores-IsSound

forward_load-Forwards_example :
    Forwards 5 2053 MemWidth.byte
      (λ a. 0)
      (stores three_stores)
      (forward_load three_stores 2053 MemWidth.byte 5)
forward_load-Forwards_example =
    forward_load-Forwards three_stores 2053 MemWidth.byte 5 (λ a. 0) three_stores-IsSound
      (omega arith) (omega arith, (omega arith, (tt, tt)))

has_older_store_to-forward_load_example :
    (has_older_store_to three_stores 3000 MemWidth.word 5 ≡ false
      → forward_load three_stores 3000 MemWidth.word 5 ≡ miss)
    × (has_unresolved_store_before three_stores 5 ≡ false
        → forward_load three_stores 3000 MemWidth.word 5 ≡ miss
        → has_older_store_to three_stores 3000 MemWidth.word 5 ≡ false)
has_older_store_to-forward_load_example =
    has_older_store_to-forward_load three_stores 3000 MemWidth.word 5 three_stores-IsSound
