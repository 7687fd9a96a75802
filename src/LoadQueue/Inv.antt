-- ===== src/LoadQueue/Inv.antt =====
-- The representation invariant of the load queue: the slots from `head` to `tail` hold the loads in
-- program order, with gaps where a load was removed from the middle.
use rvsim.Base.{◌≤◌, ◌<◌, ◌≡◌}
use rvsim.Circular.{slot}
use rvsim.LoadQueue.{LoadQueue, lq_capacity}

pub record IsSound (lq : LoadQueue) : Type 0 where
  pub head_lt : lq.head < lq_capacity lq
  pub count_le : lq.count ≤ lq_capacity lq
  pub tail_eq : lq.tail ≡ slot (lq_capacity lq) lq.head lq.count
