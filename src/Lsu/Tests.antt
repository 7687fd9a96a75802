-- ===== src/Lsu/Tests.antt =====
-- The theorems on the load-store unit at concrete operands.
use rvsim.Base.{◌+◌, ◌-◌, ◌*◌, ◌%◌, ◌^◌, ◌≡◌, true, false, ◌&&◌, ltb, leb, if◌then◌else◌, arith}
use rvsim.StoreBuffer.Bytes.{Memory, byte_of}
use rvsim.Lsu.Ordering.{Fence}
use rvsim.Lsu.Unaligned.{split_load, split_store}
use rvsim.Lsu.Unaligned.Split.{peek, poke, split_load-split_store}

-- fence rw, w
abbrev fence_rw_w : Fence
fence_rw_w = record {
  pred = record { i = false; o = false; r = true; w = true };
  succ = record { i = false; o = false; r = false; w = true };
}

abbrev cleared_memory : Memory
cleared_memory a = 0

split_load-split_store_example :
    let m' = split_store poke 4093 8 0x0102030405060708 cleared_memory in
    ((split_load peek 4093 8 m').0 ≡ 0x0102030405060708 % 2 ^ (8 * 8))
    × (m' 4096 ≡ (
        if leb 4093 4096 && ltb 4096 (4093 + 8)
        then byte_of 0x0102030405060708 (4096 - 4093)
        else cleared_memory 4096))
split_load-split_store_example =
    split_load-split_store 4093 8 0x0102030405060708 4096 cleared_memory (λ a. omega arith)
      (omega arith)
