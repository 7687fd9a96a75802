-- ===== src/LoadQueue/Remove.antt =====
-- The removal of a load that commits.
use rvsim.Base.{
  ℕ, zero, suc, ◌+◌, ◌-◌, ◌%◌, ◌≡◌, ◌≢◌, refl, sym, ap, ◌∙◌, subst, inl, inr, true, false, List, [],
  ◌∷◌, Option, none, some, arith, length, length-set, set, filter, if◌then◌else◌, ◌==◌, Bool-cases,
  Option-cases,
}
use rvsim.Circular.{slot, scan}
use rvsim.Circular.Window.{scan_pop, slot-slot, slot-lt}
use rvsim.Circular.Find.{position, amend_first, position_absent}
use rvsim.RobTag.{RobTag}
use rvsim.LoadQueue.{
  LoadQueue, LoadQueueEntry, lq_capacity, slots, loads, is_valid, load_at, default_load, has_tag,
  find_by_tag, written, invalidated, skip_invalid, popped, deallocate,
}
use rvsim.LoadQueue.Inv.{IsSound}
use rvsim.LoadQueue.Gaps.{IsTrimmed, skip_invalid-loads, skip_loop-IsTrimmed}
use rvsim.LoadQueue.Absent.{Absent, some_not_none, front_found, Absent-position, position-Absent}
use rvsim.LoadQueue.Fill.{unknown, known, written-slots, index}

-- The list without its first entry that has the tag.
abbrev pub remove_tag : RobTag → List LoadQueueEntry → List LoadQueueEntry
remove_tag t [] = []
remove_tag t (e ∷ es) = if has_tag t e then es else e ∷ remove_tag t es

filter-invalidated :
    (t : RobTag) (es : List LoadQueueEntry)
    → filter is_valid (amend_first (has_tag t) invalidated es) ≡ remove_tag t (filter is_valid es)
filter-invalidated t [] = refl
filter-invalidated t (e ∷ es) = ground (arith, filter-invalidated t es)

module _ {lq : LoadQueue} (v : IsSound lq) (n : ℕ) (size : lq.count ≡ suc n) where
  slots_nonempty : slots lq ≡ load_at lq lq.head ∷ slots (popped lq)
  slots_nonempty =
      let e = invalidated (load_at lq lq.head) in
      let xs = set lq.entries lq.head e in
      ap (scan default_load lq.entries (lq_capacity lq) lq.head) size
      ∙ scan_pop default_load (lq_capacity lq) lq.head v.head_lt lq.entries n e
          (omega (arith, v.count_le))
      ∙ ap (λ c. load_at lq lq.head ∷ scan default_load xs c ((lq.head + 1) % lq_capacity lq) n)
          (sym (length-set lq.entries lq.head e))
      ∙ ap
          (λ m.
            load_at lq lq.head
            ∷ scan default_load xs (length xs) ((lq.head + 1) % lq_capacity lq) m)
          {x = n} {y = lq.count - 1} (omega arith)

  popped-IsSound : IsSound (popped lq)
  popped-IsSound =
      let same = length-set lq.entries lq.head (invalidated (load_at lq lq.head)) in
      record {
        head_lt = rw same (slot-lt (lq_capacity lq) lq.head 1 (omega (arith, v.head_lt)));
        count_le = rw same (omega (arith, v.count_le));
        tail_eq =
            rw (same, v.tail_eq, slot-slot (lq_capacity lq) lq.head 1 (lq.count - 1))
              (ap (slot (lq_capacity lq) lq.head) {x = lq.count} (omega arith));
      }

removed_front :
    (t : RobTag) (e : LoadQueueEntry) (es : List LoadQueueEntry)
    → has_tag t e ≡ true
    → filter is_valid es ≡ remove_tag t (filter is_valid (e ∷ es))
removed_front t e es h = ground arith

-- What a removal leaves.
abbrev pub Removes : RobTag → LoadQueue → LoadQueue → Type 0
Removes t lq lq' =
    (loads lq' ≡ remove_tag t (loads lq))
    × IsSound lq'
    × (Absent t (loads lq) → lq' ≡ lq)
    × (has_tag t (load_at lq lq.head) ≡ true → lq.count ≢ 0 → lq'.count ≡ lq.count - 1)
    × (has_tag t (load_at lq lq.head) ≡ false → ¬ Absent t (loads lq) → IsTrimmed lq')

remove_absent :
    (t : RobTag) (es : List LoadQueueEntry)
    → position (has_tag t) es ≡ none
    → filter is_valid es ≡ remove_tag t (filter is_valid es)
remove_absent t es e =
    sym (ap (filter is_valid) (position_absent (has_tag t) invalidated es e))
    ∙ filter-invalidated t es

deallocate_empty : (lq : LoadQueue) (t : RobTag) → lq.count ≡ 0 → deallocate lq t ≡ lq
unfolding deallocate
deallocate_empty lq t e = ground arith

deallocate_front :
    (lq : LoadQueue) (t : RobTag)
    → lq.count ≢ 0
    → has_tag t (load_at lq lq.head) ≡ true
    → deallocate lq t ≡ popped lq
unfolding deallocate
deallocate_front lq t n hit = ground arith

abbrev searched : LoadQueue → Option ℕ → LoadQueue
searched lq none = lq
searched lq (some i) = skip_invalid (written lq i invalidated)

deallocate_behind :
    (lq : LoadQueue) (t : RobTag) (o : Option ℕ)
    → lq.count ≢ 0
    → has_tag t (load_at lq lq.head) ≡ false
    → find_by_tag lq t ≡ o
    → deallocate lq t ≡ searched lq o
unfolding deallocate
deallocate_behind lq t none n miss found =
    let filled : (lq.count == 0) ≡ false = ground arith in rw (filled, miss, found) refl
deallocate_behind lq t (some i) n miss found =
    let filled : (lq.count == 0) ≡ false = ground arith in rw (filled, miss, found) refl

-- `deallocate` removes the oldest load with the tag, at the front or behind it, and keeps the order
-- of the others and the invariant. Where no load has the tag the queue is the same in every field. At
-- the front one slot of the count is given back. Behind the front the loop over gaps gives back all
-- that the queue then starts with: the queue is empty, or the entry at its head is live.
pub deallocate-Removes : (lq : LoadQueue) (t : RobTag) → IsSound lq → Removes t lq (deallocate lq t)
deallocate-Removes lq t v = go lq.count refl
  where
    go : (n : ℕ) → lq.count ≡ n → Removes t lq (deallocate lq t)
    go zero e =
        let none_left : slots lq ≡ [] =
          ap (scan default_load lq.entries (lq_capacity lq) lq.head) e in
        let nothing : Absent t (loads lq) = rw none_left tt in
        subst (Removes t lq) (sym (deallocate_empty lq t e))
          (rw none_left refl, v, (λ a. refl), (λ h m. absurd (m e)), λ h m. absurd (m nothing))
    go (suc n) e = elim (Bool-cases (has_tag t (load_at lq lq.head))) [
      | inl hit ↦ subst (Removes t lq) (sym (deallocate_front lq t (omega arith) hit)) (
        removed_front t (load_at lq lq.head) (slots (popped lq)) hit
            ∙ ap (λ l. remove_tag t (filter is_valid l)) (sym (slots_nonempty v n e)),
        popped-IsSound v n e,
        (λ a. absurd (
            front_found t (load_at lq lq.head) (slots (popped lq)) hit (
              ap (position (has_tag t)) (sym (slots_nonempty v n e))
              ∙ position-Absent t (slots lq) a))),
        (λ h m. refl),
        λ h. absurd (ground (arith, hit, h)),
      )
      | inr miss ↦ elim (Option-cases (position (has_tag t) (slots lq))) [
        | inl gone ↦
            subst (Removes t lq)
              (sym (deallocate_behind lq t none (omega arith) miss (unknown lq t v gone)))
              (
                remove_absent t (slots lq) gone,
                v,
                (λ a. refl),
                (λ h. absurd (ground (arith, miss, h))),
                λ h m. absurd (m (Absent-position t (slots lq) gone)),
              )
        | inr (k, there) ↦
            let i = index lq t v k in
            let w = written-slots lq t v invalidated k there in
            let found = written lq i invalidated in
            let skipped = skip_invalid-loads found w.1 in
            subst (Removes t lq)
              (sym (deallocate_behind lq t (some i) (omega arith) miss (known lq t v k there)))
              (
                skipped.0 ∙ ap (filter is_valid) w.0 ∙ filter-invalidated t (slots lq),
                skipped.1,
                (λ a. absurd (some_not_none k (sym there ∙ position-Absent t (slots lq) a))),
                (λ h. absurd (ground (arith, miss, h))),
                λ h m. skip_loop-IsTrimmed found.entries (lq_capacity found) found.count found.head,
              )
      ]
    ]
