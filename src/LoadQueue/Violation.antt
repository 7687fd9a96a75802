-- ===== src/LoadQueue/Violation.antt =====
-- The search for a load that ran ahead of an older store to the same bytes: its loop, for the test
-- that it makes of one load.
pub mod Oldest
use rvsim.Base.{
  ℕ, ◌^◌, ◌≤◌, ◌<◌, ◌≡◌, ◌⊎◌, refl, sym, ap, ◌∙◌, subst, inl, inr, Bool, true, false, List, [], ◌∷◌,
  Option, none, some, All, arith, filter, if◌then◌else◌, ◌==◌, Bool-cases,
}
use rvsim.Signals.{MemWidth}
use rvsim.RobTag.{RobTag, is_older_than}
use rvsim.RobTag.Age.{IsTag, age, is_older_than-age}
use rvsim.LoadQueue.{
  LoadQueue, LoadQueueEntry, loads, slots, is_valid, violates, older_violator, violation_loop,
  check_ordering_violation,
}

-- Some load of the list passes the test and has the tag.
abbrev pub Has : (LoadQueueEntry → Bool) → RobTag → List LoadQueueEntry → Type 0
Has bad v [] = ⊥
Has bad v (e ∷ es) = ((bad e ≡ true) × (e.rob_tag ≡ v)) ⊎ Has bad v es

-- No load of the list that passes the test is older than the tag.
abbrev pub NoneOlder : (LoadQueueEntry → Bool) → ℕ → RobTag → List LoadQueueEntry → Type 0
NoneOlder bad next v es = All (λ e. bad e ≡ true → age next e.rob_tag ≤ age next v) es

-- The answer for a list of loads: none passes the test, or the oldest that does.
abbrev pub IsSelected : (LoadQueueEntry → Bool) → ℕ → List LoadQueueEntry → Option RobTag → Type 0
IsSelected bad next es none = All (λ e. bad e ≡ false) es
IsSelected bad next es (some v) = Has bad v es × NoneOlder bad next v es

abbrev pub Young : ℕ → RobTag → Type 0
Young next t = IsTag t × (age next t < 2 ^ 31)

empty_slots : (lq : LoadQueue) → lq.count ≡ 0 → slots lq ≡ []
empty_slots lq e = rw e refl

module _ (store : ℕ) (w : MemWidth) (t : RobTag) where
  abbrev pub bad : LoadQueueEntry → Bool
  bad e = violates store w t e

  not_live : (e : LoadQueueEntry) → e.valid ≡ false → bad e ≡ false
  not_live e gone = rw gone refl

  live_loop :
      (es : List LoadQueueEntry) (o : Option RobTag)
      → violation_loop store w t o es ≡ violation_loop store w t o (filter is_valid es)
  unfolding violation_loop
  live_loop [] o = refl
  live_loop (e ∷ es) o = elim (Bool-cases e.valid) [
    | inl live ↦
        live_loop es (if violates store w t e then older_violator o e.rob_tag else o)
        ∙ ap
            (λ b.
              violation_loop store w t o (if b then e ∷ filter is_valid es else filter is_valid es))
            (sym live)
    | inr gone ↦
        ap (λ b. violation_loop store w t (if b then older_violator o e.rob_tag else o) es)
          (not_live e gone)
        ∙ live_loop es o
        ∙ ap
            (λ b.
              violation_loop store w t o (if b then e ∷ filter is_valid es else filter is_valid es))
            (sym gone)
  ]

  module _ (next : RobTag) (hn : IsTag next) where
    -- The answer of the loop from a violation found before.
    abbrev From : RobTag → List LoadQueueEntry → Option RobTag → Type 0
    From p es none = ⊥
    From p es (some q) =
        (age next p ≤ age next q) × ((q ≡ p) ⊎ Has bad q es) × NoneOlder bad next q es

    -- The violation kept after one more load.
    abbrev Kept : LoadQueueEntry → RobTag → RobTag → Type 0
    Kept e p q =
        Young next q
        × (age next p ≤ age next q)
        × ((q ≡ p) ⊎ ((bad e ≡ true) × (e.rob_tag ≡ q)))
        × (bad e ≡ true → age next e.rob_tag ≤ age next q)

    abbrev stepped : LoadQueueEntry → RobTag → Option RobTag
    stepped e p = if bad e then older_violator (some p) e.rob_tag else some p

    stepped-Kept :
        (e : LoadQueueEntry) (p : RobTag)
        → Young next p
        → Young next e.rob_tag
        → (q : RobTag) × (stepped e p ≡ some q) × Kept e p q
    stepped-Kept e p hp he =
        let compared = is_older_than-age next e.rob_tag p hn he.0 hp.0 he.1 hp.1 in
        elim (Bool-cases (bad e)) [
          | inr fine ↦
              (p, rw fine refl, (hp, omega arith, inl refl, λ h. absurd (ground (arith, h, fine))))
          | inl found ↦ elim (Bool-cases (is_older_than e.rob_tag p)) [
            | inl older ↦ (
              e.rob_tag,
              rw (found, older) refl,
              (he, omega (arith, compared.0 older), inr (found, refl), λ h. omega arith),
            )
            | inr younger ↦ (
              p,
              rw (found, younger) refl,
              (hp, omega arith, inl refl, λ h. ground (arith, compared.1, younger)),
            )
          ]
        ]

    From-stepped :
        (e : LoadQueueEntry) (p q : RobTag) (es : List LoadQueueEntry) (o : Option RobTag)
        → Kept e p q
        → From q es o
        → From p (e ∷ es) o
    From-stepped e p q es none k f = f
    From-stepped e p q es (some v) (_, older, origin, bound) (less, source, rest) = (
      omega (arith, older, less),
      elim source [
        | inr later ↦ inr (inr later)
        | inl same ↦ elim origin [
          | inl kept ↦ inl (same ∙ kept)
          | inr (found, here) ↦ inr (inl (found, here ∙ sym same))
        ]
      ],
      ((λ h. omega (arith, bound h, less)), rest),
    )

    loop-From :
        (es : List LoadQueueEntry) (p : RobTag)
        → Young next p
        → All (λ e. Young next e.rob_tag) es
        → From p es (violation_loop store w t (some p) es)
    unfolding violation_loop
    loop-From [] p hp ys = (omega arith, inl refl, tt)
    loop-From (e ∷ es) p hp ys =
        let (q, step, kept) = stepped-Kept e p hp ys.0 in
        subst (λ o. From p (e ∷ es) (violation_loop store w t o es)) (sym step)
          (From-stepped e p q es _ kept (loop-From es q kept.0 ys.1))

    skip-IsSelected :
        (e : LoadQueueEntry) (es : List LoadQueueEntry) (o : Option RobTag)
        → bad e ≡ false
        → IsSelected bad next es o
        → IsSelected bad next (e ∷ es) o
    skip-IsSelected e es none fine a = (fine, a)
    skip-IsSelected e es (some v) fine (has, oldest) =
        (inr has, ((λ h. absurd (ground (arith, h, fine))), oldest))

    first-IsSelected :
        (e : LoadQueueEntry) (es : List LoadQueueEntry) (o : Option RobTag)
        → bad e ≡ true
        → From e.rob_tag es o
        → IsSelected bad next (e ∷ es) o
    first-IsSelected e es none found f = absurd f
    first-IsSelected e es (some v) found (less, source, rest) = (
      elim source [ inl same ↦ inl (found, sym same) | inr later ↦ inr later ],
      ((λ h. less), rest),
    )

    loop-IsSelected :
        (es : List LoadQueueEntry)
        → All (λ e. Young next e.rob_tag) es
        → IsSelected bad next es (violation_loop store w t none es)
    unfolding violation_loop
    loop-IsSelected [] ys = tt
    loop-IsSelected (e ∷ es) ys = elim (Bool-cases (bad e)) [
      | inr fine ↦
          subst
            (λ b.
              IsSelected bad next (e ∷ es)
                (violation_loop store w t (if b then some e.rob_tag else none) es))
            (sym fine) (skip-IsSelected e es _ fine (loop-IsSelected es ys.1))
      | inl found ↦
          subst
            (λ b.
              IsSelected bad next (e ∷ es)
                (violation_loop store w t (if b then some e.rob_tag else none) es))
            (sym found) (first-IsSelected e es _ found (loop-From es e.rob_tag ys.0 ys.1))
    ]

    pub check_ordering_violation-IsSelected :
        (lq : LoadQueue)
        → All (λ e. Young next e.rob_tag) (loads lq)
        → IsSelected bad next (loads lq) (check_ordering_violation lq store w t)
    unfolding check_ordering_violation
    check_ordering_violation-IsSelected lq ys = elim (Bool-cases (lq.count == 0)) [
      | inl empty ↦
          let none_left : slots lq ≡ [] = ground (arith, empty_slots lq) in
          rw (empty, if◌then◌else◌, none_left) tt
      | inr some_left ↦
          rw (some_left, if◌then◌else◌)
            (subst (IsSelected bad next (loads lq)) (sym (live_loop (slots lq) none))
              (loop-IsSelected (loads lq) ys))
    ]
