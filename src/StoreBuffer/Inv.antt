-- ===== src/StoreBuffer/Inv.antt =====
-- The representation invariant of the store buffer: the slots from `head` on hold the stores in
-- program order.
use rvsim.Base.{◌≤◌, ◌<◌, ◌≡◌, true, All}
use rvsim.Circular.{slot}
use rvsim.StoreBuffer.{StoreBuffer, StoreBufferEntry, sb_capacity, stores}

abbrev pub IsOccupied : StoreBufferEntry → Type 0
IsOccupied e = e.valid ≡ true

pub record IsSound (sb : StoreBuffer) : Type 0 where
  pub head_lt : sb.head < sb_capacity sb
  pub count_le : sb.count ≤ sb_capacity sb
  pub tail_eq : sb.tail ≡ slot (sb_capacity sb) sb.head sb.count
  pub occupied : All IsOccupied (stores sb)
