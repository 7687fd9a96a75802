-- ===== src/LoadQueue/Absent.antt =====
-- The search for a tag that no load of the queue has.
use rvsim.Base.{
  ℕ, suc, ◌≡◌, ◌≢◌, refl, sym, ap, ◌∙◌, subst, inl, inr, true, false, List, [], ◌∷◌, none, some,
  arith, filter, if◌then◌else◌, ◌==◌, Bool-cases, Option-cases, All,
}
use rvsim.Circular.Find.{position}
use rvsim.RobTag.{RobTag}
use rvsim.LoadQueue.{LoadQueueEntry, is_valid, has_tag}

pub some_not_none : (k : ℕ) → some k ≢ none
some_not_none k h = cc

-- No load of the list has the tag.
abbrev pub Absent : RobTag → List LoadQueueEntry → Type 0
Absent t es = All (λ e. (e.rob_tag == t) ≡ false) es

pub front_found :
    (t : RobTag) (e : LoadQueueEntry) (es : List LoadQueueEntry)
    → has_tag t e ≡ true
    → position (has_tag t) (e ∷ es) ≢ none
front_found t e es h m = absurd (some_not_none 0 (sym (rw h refl) ∙ m))

unfound_tail :
    (t : RobTag) (e : LoadQueueEntry) (es : List LoadQueueEntry)
    → position (has_tag t) (e ∷ es) ≡ none
    → (has_tag t e ≡ false) × (position (has_tag t) es ≡ none)
unfound_tail t e es h = elim (Bool-cases (has_tag t e)) [
  | inl hit ↦ absurd (front_found t e es hit h)
  | inr miss ↦ elim (Option-cases (position (has_tag t) es)) [
    | inl gone ↦ (miss, gone)
    | inr (k, there) ↦ absurd (some_not_none (suc k) (sym (rw (miss, there) refl) ∙ h))
  ]
]

filter-live :
    (e : LoadQueueEntry) (es : List LoadQueueEntry)
    → e.valid ≡ true
    → filter is_valid (e ∷ es) ≡ e ∷ filter is_valid es
filter-live e es live = ap (λ b. if b then e ∷ filter is_valid es else filter is_valid es) live

filter-gone :
    (e : LoadQueueEntry) (es : List LoadQueueEntry)
    → e.valid ≡ false
    → filter is_valid (e ∷ es) ≡ filter is_valid es
filter-gone e es gone = ap (λ b. if b then e ∷ filter is_valid es else filter is_valid es) gone

pub Absent-position :
    (t : RobTag) (es : List LoadQueueEntry)
    → position (has_tag t) es ≡ none
    → Absent t (filter is_valid es)
Absent-position t [] e = tt
Absent-position t (e ∷ es) h =
    let (miss, rest) = unfound_tail t e es h in
    let ih = Absent-position t es rest in
    elim (Bool-cases e.valid) [
      | inl live ↦ rw (live, if◌then◌else◌) (ground (arith, live, miss), ih)
      | inr gone ↦ rw (gone, if◌then◌else◌) ih
    ]

pub position-Absent :
    (t : RobTag) (es : List LoadQueueEntry)
    → Absent t (filter is_valid es)
    → position (has_tag t) es ≡ none
position-Absent t [] h = refl
position-Absent t (e ∷ es) h = elim (Bool-cases e.valid) [
  | inl live ↦
      let both = subst (Absent t) (filter-live e es live) h in
      rw (live, both.0, position-Absent t es both.1) refl
  | inr gone ↦ rw (gone, position-Absent t es (subst (Absent t) (filter-gone e es gone) h)) refl
]
