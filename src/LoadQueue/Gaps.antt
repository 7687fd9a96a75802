-- ===== src/LoadQueue/Gaps.antt =====
-- The loop of `deallocate` over the entries at the head that are no more valid.
use rvsim.Base.{
  ℕ, zero, suc, ◌+◌, ◌%◌, ◌≤◌, ◌<◌, ◌≡◌, refl, sym, ap, ◌∙◌, subst, inl, inr, true, false, List,
  arith, get_or, filter, if◌then◌else◌, Bool-cases, ◌⊎◌,
}
use rvsim.Circular.{slot, scan}
use rvsim.Circular.Window.{slot-slot}
use rvsim.LoadQueue.{
  LoadQueue, LoadQueueEntry, lq_capacity, loads, is_valid, load_at, default_load, skip_loop,
  skip_invalid,
}
use rvsim.LoadQueue.Inv.{IsSound}

-- What the loop over the entries that are no more valid leaves.
skip_loop-stays :
    (xs : List LoadQueueEntry) (cap n head : ℕ)
    → (get_or xs head default_load).valid ≡ true
    → skip_loop xs cap (suc n) head ≡ (head, suc n)
unfolding skip_loop
skip_loop-stays xs cap n head live = rw (live, if◌then◌else◌)

skip_loop-steps :
    (xs : List LoadQueueEntry) (cap n head : ℕ)
    → (get_or xs head default_load).valid ≡ false
    → skip_loop xs cap (suc n) head ≡ skip_loop xs cap n ((head + 1) % cap)
unfolding skip_loop
skip_loop-steps xs cap n head gone = rw (gone, if◌then◌else◌)

abbrev Keeps : List LoadQueueEntry → ℕ → ℕ → ℕ → ℕ × ℕ → Type 0
Keeps xs cap n head (head', count) =
    (head' < cap)
    × (count ≤ n)
    × (slot cap head n ≡ slot cap head' count)
    × (filter is_valid (scan default_load xs cap head' count)
        ≡ filter is_valid (scan default_load xs cap head n))

skip_loop-Keeps :
    (xs : List LoadQueueEntry) (cap n head : ℕ)
    → head < cap
    → Keeps xs cap n head (skip_loop xs cap n head)
unfolding skip_loop
skip_loop-Keeps xs cap zero head h = (h, omega arith, refl, refl)
skip_loop-Keeps xs cap (suc n) head h = elim (Bool-cases (get_or xs head default_load).valid) [
  | inl live ↦
      subst (Keeps xs cap (suc n) head) (sym (skip_loop-stays xs cap n head live))
        (h, omega arith, refl, refl)
  | inr gone ↦
      let next = (head + 1) % cap in
      let rest = skip_loop-Keeps xs cap n next (omega arith) in
      let same : slot cap head (suc n) ≡ slot cap next n =
        ap (slot cap head) {x = suc n} {y = 1 + n} (omega arith) ∙ sym (slot-slot cap head 1 n) in
      let skipped : filter is_valid (scan default_load xs cap next n)
          ≡ filter is_valid (scan default_load xs cap head (suc n)) =
        rw gone refl in
      subst (Keeps xs cap (suc n) head) (sym (skip_loop-steps xs cap n head gone))
        (rest.0, omega (arith, rest.1), same ∙ rest.2, rest.3 ∙ skipped)
]

pub skip_invalid-loads :
    (lq : LoadQueue) → IsSound lq → (loads (skip_invalid lq) ≡ loads lq) × IsSound (skip_invalid lq)
skip_invalid-loads lq v =
    let k = skip_loop-Keeps lq.entries (lq_capacity lq) lq.count lq.head v.head_lt in
    (
      k.3,
      record {
        head_lt = k.0;
        count_le = omega (arith, k.1, v.count_le);
        tail_eq = v.tail_eq ∙ k.2;
      },
    )

-- The queue does not start with a gap: it is empty, or the entry at its head is live.
abbrev pub IsTrimmed : LoadQueue → Type 0
IsTrimmed lq = (lq.count ≡ 0) ⊎ ((load_at lq lq.head).valid ≡ true)

pub skip_loop-IsTrimmed :
    (xs : List LoadQueueEntry) (cap n head : ℕ)
    → let (head', count) = skip_loop xs cap n head in
      (count ≡ 0) ⊎ ((get_or xs head' default_load).valid ≡ true)
unfolding skip_loop
skip_loop-IsTrimmed xs cap zero head = inl refl
skip_loop-IsTrimmed xs cap (suc n) head = elim (Bool-cases (get_or xs head default_load).valid) [
  | inl live ↦ rw (skip_loop-stays xs cap n head live) (inr live)
  | inr gone ↦
      rw (skip_loop-steps xs cap n head gone) (skip_loop-IsTrimmed xs cap n ((head + 1) % cap))
]
