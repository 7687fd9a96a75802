-- ===== src/StoreBuffer/Ends.antt =====
-- `allocate` and `drain_one` as the two ends of a queue.
use rvsim.Base.{
  ℕ, zero, suc, ◌+◌, ◌-◌, ◌%◌, ◌<◌, ◌≡◌, ◌≢◌, ◌⊎◌, inl, inr, refl, sym, ap, ◌∙◌, subst, true, false,
  List, [], ◌∷◌, ◌++◌, Option, none, some, arith, length, length-set, length-replicate, set, All,
  All-append, if◌then◌else◌, ◌==◌, ==_iff, Bool-cases,
}
use rvsim.Circular.{slot, scan}
use rvsim.Circular.Window.{scan_push, scan_pop, slot-slot, slot-lt, slot-zero}
use rvsim.Signals.{MemWidth}
use rvsim.RobTag.{RobTag}
use rvsim.StoreBuffer.{
  StoreBuffer, StoreBufferEntry, sb_capacity, stores, store_at, default_store, pending_store,
  allocate, drain_one, is_committed, invalidated, new,
}
use rvsim.StoreBuffer.Inv.{IsSound, IsOccupied}

-- A new buffer of positive capacity holds no store and satisfies the invariant.
pub new-IsSound : (n : ℕ) → 0 < n → (stores (new n) ≡ []) × IsSound (new n)
unfolding new
new-IsSound n h = (
  refl,
  record {
    head_lt = omega (arith, length-replicate n default_store);
    count_le = omega arith;
    tail_eq =
        sym (slot-zero (sb_capacity (new n)) 0 (omega (arith, length-replicate n default_store)));
    occupied = tt;
  },
)

abbrev added : StoreBuffer → StoreBufferEntry → StoreBuffer
added sb e = record sb {
  entries = set sb.entries sb.tail e;
  tail = (sb.tail + 1) % sb_capacity sb;
  count = sb.count + 1;
}

module _ {sb : StoreBuffer} (e : StoreBufferEntry) (v : IsSound sb)
    (fits : sb.count < sb_capacity sb) where
  stores-added : stores (added sb e) ≡ stores sb ++ e ∷ []
  stores-added =
      ap (λ c. scan default_store (set sb.entries sb.tail e) c sb.head (sb.count + 1))
        (length-set sb.entries sb.tail e)
      ∙ ap (scan default_store (set sb.entries sb.tail e) (sb_capacity sb) sb.head)
          {x = sb.count + 1} {y = suc sb.count} (omega arith)
      ∙ ap (λ i. scan default_store (set sb.entries i e) (sb_capacity sb) sb.head (suc sb.count))
          v.tail_eq
      ∙ scan_push default_store (sb_capacity sb) sb.head v.head_lt sb.entries sb.count e fits
          (omega arith)

  added-IsSound : IsOccupied e → IsSound (added sb e)
  added-IsSound live = record {
    head_lt = rw (length-set sb.entries sb.tail e) v.head_lt;
    count_le = rw (length-set sb.entries sb.tail e) (omega arith);
    tail_eq =
        rw (length-set sb.entries sb.tail e, v.tail_eq)
          (slot-slot (sb_capacity sb) sb.head sb.count 1);
    occupied = rw stores-added (All-append IsOccupied (stores sb) (e ∷ []) v.occupied (live, tt));
  }

-- `allocate` answers `false` exactly when the buffer is full, and then changes nothing. Otherwise it
-- appends a pending store with the tag and the width, and keeps the invariant.
pub allocate-append :
    (sb : StoreBuffer) (t : RobTag) (w : MemWidth)
    → IsSound sb
    → let (ok, sb') = allocate sb t w in
      ((sb.count ≡ sb_capacity sb) × (ok ≡ false) × (sb' ≡ sb))
      ⊎ ((sb.count < sb_capacity sb)
          × (ok ≡ true)
          × (stores sb' ≡ stores sb ++ pending_store t w ∷ [])
          × IsSound sb')
unfolding allocate
allocate-append sb t w v = elim (Bool-cases (sb.count == sb_capacity sb)) [
  | inl full ↦
      rw (full, if◌then◌else◌) (inl ((==_iff sb.count (sb_capacity sb)).0 full, refl, refl))
  | inr more ↦
      let fits : sb.count < sb_capacity sb = ground (arith, v.count_le) in
      let e = pending_store t w in
      rw (more, if◌then◌else◌)
        (inr (fits, refl, stores-added e v fits, added-IsSound e v fits refl))
]

-- The front of a queue of stores leaves when it is committed or cancelled.
abbrev pub depart : List StoreBufferEntry → Option StoreBufferEntry × List StoreBufferEntry
depart [] = (none, [])
depart (e ∷ es) = if is_committed e.resolution then (some e, es) else (none, e ∷ es)

depart_waits :
    (e : StoreBufferEntry) (es : List StoreBufferEntry)
    → is_committed e.resolution ≡ false
    → depart (e ∷ es) ≡ (none, e ∷ es)
depart_waits e es w = rw w

depart_done :
    (e : StoreBufferEntry) (es : List StoreBufferEntry)
    → is_committed e.resolution ≡ true
    → depart (e ∷ es) ≡ (some e, es)
depart_done e es w = rw w

abbrev drained : StoreBuffer → StoreBuffer
drained sb = record sb {
  entries = set sb.entries sb.head (invalidated (store_at sb sb.head));
  head = (sb.head + 1) % sb_capacity sb;
  count = sb.count - 1;
}

module _ {sb : StoreBuffer} (v : IsSound sb) (n : ℕ) (size : sb.count ≡ suc n) where
  stores_nonempty : stores sb ≡ store_at sb sb.head ∷ stores (drained sb)
  stores_nonempty =
      let e = invalidated (store_at sb sb.head) in
      let xs = set sb.entries sb.head e in
      ap (scan default_store sb.entries (sb_capacity sb) sb.head) size
      ∙ scan_pop default_store (sb_capacity sb) sb.head v.head_lt sb.entries n e
          (omega (arith, v.count_le))
      ∙ ap (λ c. store_at sb sb.head ∷ scan default_store xs c ((sb.head + 1) % sb_capacity sb) n)
          (sym (length-set sb.entries sb.head e))
      ∙ ap
          (λ m.
            store_at sb sb.head
            ∷ scan default_store xs (length xs) ((sb.head + 1) % sb_capacity sb) m)
          {x = n} {y = sb.count - 1} (omega arith)

  drained-IsSound : IsSound (drained sb)
  drained-IsSound =
      let same = length-set sb.entries sb.head (invalidated (store_at sb sb.head)) in
      record {
        head_lt = rw same (slot-lt (sb_capacity sb) sb.head 1 (omega (arith, v.head_lt)));
        count_le = rw same (omega (arith, v.count_le));
        tail_eq =
            rw (same, v.tail_eq, slot-slot (sb_capacity sb) sb.head 1 (sb.count - 1))
              (ap (slot (sb_capacity sb) sb.head) {x = sb.count} (omega arith));
        occupied = (subst (All IsOccupied) stores_nonempty v.occupied).1;
      }

  head_occupied : (store_at sb sb.head).valid ≡ true
  head_occupied = (subst (All IsOccupied) stores_nonempty v.occupied).0

stores_empty : (sb : StoreBuffer) → sb.count ≡ 0 → stores sb ≡ []
stores_empty sb e = ap (scan default_store sb.entries (sb_capacity sb) sb.head) e

drain_empty : (sb : StoreBuffer) → sb.count ≡ 0 → drain_one sb ≡ (none, sb)
unfolding drain_one
drain_empty sb e = ground arith

drain_waits :
    (sb : StoreBuffer)
    → is_committed (store_at sb sb.head).resolution ≡ false
    → drain_one sb ≡ (none, sb)
unfolding drain_one
drain_waits sb w = ground arith

drain_pops :
    (sb : StoreBuffer)
    → sb.count ≢ 0
    → (store_at sb sb.head).valid ≡ true
    → is_committed (store_at sb sb.head).resolution ≡ true
    → drain_one sb ≡ (some (store_at sb sb.head), drained sb)
unfolding drain_one
drain_pops sb n live w = ground arith

some_not_none : (e : StoreBufferEntry) → some e ≢ none
some_not_none e h = cc

-- What a drain leaves; without a store to return, the buffer itself.
abbrev pub Drains : StoreBuffer → Option StoreBufferEntry × StoreBuffer → Type 0
Drains sb (o, sb') = ((o, stores sb') ≡ depart (stores sb)) × IsSound sb' × (o ≡ none → sb' ≡ sb)

-- `drain_one` takes the oldest store off the queue and returns it when it is committed or cancelled;
-- otherwise, and where the queue is empty, it returns none and the buffer is the same in every field.
-- It keeps the invariant.
pub drain_one-depart : (sb : StoreBuffer) → IsSound sb → Drains sb (drain_one sb)
drain_one-depart sb v = go sb.count refl
  where
    go : (n : ℕ) → sb.count ≡ n → Drains sb (drain_one sb)
    go zero e = subst (Drains sb) (sym (drain_empty sb e)) (
      ap (λ l. (none, l)) (stores_empty sb e) ∙ sym (ap depart (stores_empty sb e)),
      v,
      λ h. refl,
    )
    go (suc n) e = elim (Bool-cases (is_committed (store_at sb sb.head).resolution)) [
      | inr waits ↦ subst (Drains sb) (sym (drain_waits sb waits)) (
        ap (λ l. (none, l)) (stores_nonempty v n e)
            ∙ sym (ap depart (stores_nonempty v n e) ∙ depart_waits _ _ waits),
        v,
        λ h. refl,
      )
      | inl done ↦
          subst (Drains sb) (sym (drain_pops sb (omega arith) (head_occupied v n e) done)) (
            sym (ap depart (stores_nonempty v n e) ∙ depart_done _ _ done),
            drained-IsSound v n e,
            λ h. absurd (some_not_none _ h),
          )
    ]
