-- ===== src/LoadQueue/Ends.antt =====
-- The load queue when it is made, at its newer end, and under flushes.
use rvsim.Base.{
  ℕ, suc, ◌+◌, ◌%◌, ◌<◌, ◌≡◌, ◌⊎◌, inl, inr, refl, sym, ap, ◌∙◌, Bool, true, false, ◌&&◌, List, [],
  ◌∷◌, ◌++◌, arith, length, length-set, set, filter, filter-append, filter_and, map, if◌then◌else◌,
  ◌==◌, ==_iff, Bool-cases,
}
use rvsim.Circular.{scan, compact_loop}
use rvsim.Circular.Window.{scan_push, slot-slot, slot-zero, length-scan}
use rvsim.Circular.Compact.{Leaves, compacted, Leaves-scan, length-filter}
use rvsim.Signals.{MemWidth}
use rvsim.RobTag.{RobTag, is_older_or_eq}
use rvsim.LoadQueue.{
  LoadQueue, LoadQueueEntry, lq_capacity, slots, loads, is_valid, default_load, pending_load,
  allocate, invalidated, flush, flush_after,
}
use rvsim.LoadQueue.Inv.{IsSound}

abbrev added : LoadQueue → LoadQueueEntry → LoadQueue
added lq e = record lq {
  entries = set lq.entries lq.tail e;
  tail = (lq.tail + 1) % lq_capacity lq;
  count = lq.count + 1;
}

module _ {lq : LoadQueue} (e : LoadQueueEntry) (v : IsSound lq)
    (fits : lq.count < lq_capacity lq) where
  slots-added : slots (added lq e) ≡ slots lq ++ e ∷ []
  slots-added =
      ap (λ c. scan default_load (set lq.entries lq.tail e) c lq.head (lq.count + 1))
        (length-set lq.entries lq.tail e)
      ∙ ap (scan default_load (set lq.entries lq.tail e) (lq_capacity lq) lq.head)
          {x = lq.count + 1} {y = suc lq.count} (omega arith)
      ∙ ap (λ i. scan default_load (set lq.entries i e) (lq_capacity lq) lq.head (suc lq.count))
          v.tail_eq
      ∙ scan_push default_load (lq_capacity lq) lq.head v.head_lt lq.entries lq.count e fits
          (omega arith)

  added-IsSound : IsSound (added lq e)
  added-IsSound = record {
    head_lt = rw (length-set lq.entries lq.tail e) v.head_lt;
    count_le = rw (length-set lq.entries lq.tail e) (omega arith);
    tail_eq =
        rw (length-set lq.entries lq.tail e, v.tail_eq)
          (slot-slot (lq_capacity lq) lq.head lq.count 1);
  }

-- What an allocation does: nothing where the queue is full, and else a new pending load at the end.
abbrev pub Allocates : LoadQueue → LoadQueueEntry → Bool × LoadQueue → Type 0
Allocates lq e (ok, lq') =
    ((lq.count ≡ lq_capacity lq) × (ok ≡ false) × (lq' ≡ lq))
    ⊎ ((lq.count < lq_capacity lq) × (ok ≡ true) × (loads lq' ≡ loads lq ++ e ∷ []) × IsSound lq')

-- `allocate` fails and changes nothing where the queue is full, and else adds a pending load with the
-- tag and the width behind all others and keeps the invariant.
pub allocate-Allocates :
    (lq : LoadQueue) (t : RobTag) (w : MemWidth)
    → IsSound lq
    → Allocates lq (pending_load t w) (allocate lq t w)
unfolding allocate
allocate-Allocates lq t w v = elim (Bool-cases (lq.count == lq_capacity lq)) [
  | inl full ↦
      rw (full, if◌then◌else◌) (inl ((==_iff lq.count (lq_capacity lq)).0 full, refl, refl))
  | inr more ↦
      let fits : lq.count < lq_capacity lq = ground (arith, v.count_le) in
      let e = pending_load t w in
      rw (more, if◌then◌else◌)
        (inr (
          fits,
          refl,
          ap (filter is_valid) (slots-added e v fits) ∙ filter-append is_valid (slots lq) (e ∷ []),
          added-IsSound e v fits,
        ))
]

length-map : (xs : List LoadQueueEntry) → length (map invalidated xs) ≡ length xs
length-map [] = refl
length-map (x ∷ xs) = ap suc (length-map xs)

-- After `flush` no load is left.
pub flush-empty :
    (lq : LoadQueue) → 0 < lq_capacity lq → (loads (flush lq) ≡ []) × IsSound (flush lq)
unfolding flush
flush-empty lq h =
    let size = length-map lq.entries in
    (
      refl,
      record {
        head_lt = omega arith;
        count_le = omega arith;
        tail_eq = sym (slot-zero (lq_capacity (flush lq)) 0 (omega arith));
      },
    )

module _ (lq : LoadQueue) (t : RobTag) (v : IsSound lq) where
  abbrev cap : ℕ
  cap = lq_capacity lq

  abbrev older : LoadQueueEntry → Bool
  older e = is_older_or_eq e.rob_tag t

  abbrev kept : LoadQueueEntry → Bool
  kept e = e.valid && older e

  abbrev front : List LoadQueueEntry
  front = filter kept (slots lq)

  abbrev left : List LoadQueueEntry × ℕ × ℕ
  left = compact_loop default_load kept invalidated cap lq.count lq.head 0 lq.head lq.entries

  abbrev after : LoadQueue
  after = record lq { entries = left.0; tail = left.1; count = left.2 }

  left-Leaves : Leaves default_load kept invalidated cap lq.head v.head_lt front left
  left-Leaves =
      compacted default_load kept invalidated cap lq.head v.head_lt lq.count lq.entries refl
        v.count_le

  -- What is kept is live.
  live_kept : (es : List LoadQueueEntry) → filter is_valid (filter kept es) ≡ filter kept es
  live_kept [] = refl
  live_kept (e ∷ es) = ground (arith, live_kept es)

  slots-after : slots after ≡ front
  slots-after =
      ap (λ c. scan default_load left.0 c lq.head left.2) left-Leaves.0
      ∙ Leaves-scan default_load kept invalidated cap lq.head v.head_lt front left left-Leaves

  after-IsSound : IsSound after
  after-IsSound =
      let l = left-Leaves in
      record {
        head_lt = rw l.0 v.head_lt;
        count_le = omega (
          arith,
          l.0,
          l.1,
          length-filter kept (slots lq),
          length-scan default_load lq.entries cap lq.head lq.count,
          v.count_le,
        );
        tail_eq = rw (l.0, l.1) l.2;
      }

  -- `flush_after` keeps the live loads that are not younger than the tag, in their order, and the
  -- invariant, wherever the gaps are.
  pub flush_after-loads :
      (loads (flush_after lq t) ≡ filter older (loads lq)) × IsSound (flush_after lq t)
  unfolding flush_after
  flush_after-loads = elim (Bool-cases (lq.count == 0)) [
    | inl empty ↦
        let none_left : slots lq ≡ [] =
          ap (scan default_load lq.entries cap lq.head) ((==_iff lq.count 0).0 empty) in
        rw (empty, if◌then◌else◌) (rw none_left, v)
    | inr some_left ↦
        rw (some_left, if◌then◌else◌)
          (
            ap (filter is_valid) slots-after
                ∙ live_kept (slots lq)
                ∙ filter_and is_valid older (slots lq),
            after-IsSound,
          )
  ]
