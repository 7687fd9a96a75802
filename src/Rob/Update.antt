-- ===== src/Rob/Update.antt =====
-- `find_entry`, and the methods that change one entry through `find_entry_mut`.
use mathlib.Core.Option
use rvsim.Base.{
  ℕ, zero, suc, ◌^◌, ◌<◌, ◌≡◌, refl, sym, ap, ap₂, ◌∙◌, inl, inr, true, List, [], ◌∷◌, Option, none,
  some, arith, length, length-set, set, get_or, All, ◌==◌, if◌then◌else◌, Bool-cases, Option-cases,
  subst,
}
use rvsim.Circular.{slot, scan}
use rvsim.Circular.Window.{length-scan, scan-set_in, get_or-scan}
use rvsim.RobTag.{RobTag}
use rvsim.RobTag.Age.{age}
use rvsim.RobEntry.{RobEntry, default_entry}
use rvsim.Rob.{Rob, capacity, entry_at, find_entry, update_entry}
use rvsim.Rob.Inv.{contents, IsValid, IsLive, Aged, position, position-lt}

-- The entry with a tag, and the queue with that entry changed.
abbrev pub lookup_tag : RobTag → List RobEntry → Option RobEntry
lookup_tag t [] = none
lookup_tag t (e ∷ es) = if e.tag == t then some e else lookup_tag t es

abbrev pub amend : RobTag → (RobEntry → RobEntry) → List RobEntry → List RobEntry
amend t f [] = []
amend t f (e ∷ es) = if e.tag == t then f e ∷ es else e ∷ amend t f es

-- The changes keep the tag and the `valid` bit.
abbrev pub KeepsTag : (RobEntry → RobEntry) → Type 0
KeepsTag f = (e : RobEntry) → ((f e).tag ≡ e.tag) × ((f e).valid ≡ e.valid)

amend-absent :
    (t : RobTag) (f : RobEntry → RobEntry) (es : List RobEntry)
    → position t es ≡ none
    → amend t f es ≡ es
amend-absent t f [] h = refl
amend-absent t f (e ∷ es) h = elim (Option-cases (position t es)) [
  | inl gone ↦ ground (arith, gone, amend-absent t f es gone)
  | inr (k, there) ↦ ground (arith, there)
]

amend-set :
    (t : RobTag) (f : RobEntry → RobEntry) (d : RobEntry) (es : List RobEntry) (k : ℕ)
    → position t es ≡ some k
    → amend t f es ≡ set es k (f (get_or es k d))
amend-set t f d [] k h = cc
amend-set t f d (e ∷ es) k h = elim (Option-cases (position t es)) [
  | inl gone ↦ ground (arith, gone)
  | inr (j, there) ↦ ground (arith, there, amend-set t f d es j there)
]

pub lookup_tag-absent :
    (t : RobTag) (es : List RobEntry) → position t es ≡ none → lookup_tag t es ≡ none
lookup_tag-absent t [] h = refl
lookup_tag-absent t (e ∷ es) h = elim (Option-cases (position t es)) [
  | inl gone ↦ ground (arith, gone, lookup_tag-absent t es gone)
  | inr (k, there) ↦ ground (arith, there)
]

pub lookup_tag-get_or :
    (t : RobTag) (d : RobEntry) (es : List RobEntry) (k : ℕ)
    → position t es ≡ some k
    → lookup_tag t es ≡ some (get_or es k d)
lookup_tag-get_or t d [] k h = cc
lookup_tag-get_or t d (e ∷ es) k h = elim (Option-cases (position t es)) [
  | inl gone ↦ ground (arith, gone)
  | inr (j, there) ↦ ground (arith, there, lookup_tag-get_or t d es j there)
]

module _ (t : RobTag) (f : RobEntry → RobEntry) (keeps : KeepsTag f) where
  position-amend : (s : RobTag) (es : List RobEntry) → position s (amend t f es) ≡ position s es
  position-amend s [] = refl
  position-amend s (e ∷ es) = ground (arith, position-amend s es, keeps e)

  Aged-amend :
      (next bound : ℕ) (es : List RobEntry) → Aged next bound es → Aged next bound (amend t f es)
  Aged-amend next bound [] a = tt
  Aged-amend next bound (e ∷ es) a = elim (Bool-cases (e.tag == t)) [
    | inl hit ↦ rw (hit, if◌then◌else◌, (keeps e).0) a
    | inr miss ↦ rw (miss, if◌then◌else◌) (a.0, a.1, a.2, Aged-amend next (age next e.tag) es a.3)
  ]

  IsLive-amend : (es : List RobEntry) → All IsLive es → All IsLive (amend t f es)
  IsLive-amend [] h = tt
  IsLive-amend (e ∷ es) h = elim (Bool-cases (e.tag == t)) [
    | inl hit ↦ rw (hit, if◌then◌else◌, (keeps e).1) h
    | inr miss ↦ rw (miss, if◌then◌else◌) (h.0, IsLive-amend es h.1)
  ]

All-get_or {ℓ} :
    (P : RobEntry → Type ℓ) (es : List RobEntry) (k : ℕ) (d : RobEntry)
    → All P es
    → k < length es
    → P (get_or es k d)
All-get_or P [] k d h lt = elim lt [ ]
All-get_or P (e ∷ es) zero d h lt = h.0
All-get_or P (e ∷ es) (suc k) d h lt = All-get_or P es k d h.1 (omega arith)

find_absent : (r : Rob) (t : RobTag) → r.tag_index t ≡ none → find_entry r t ≡ none
unfolding find_entry
find_absent r t e = ground arith

find_at :
    (r : Rob) (t : RobTag) (i : ℕ)
    → r.tag_index t ≡ some i
    → (entry_at r i).valid ≡ true
    → find_entry r t ≡ some (entry_at r i)
unfolding find_entry
find_at r t i e live = rw (e, find_entry) (rw live)

update_absent :
    (r : Rob) (t : RobTag) (f : RobEntry → RobEntry) → r.tag_index t ≡ none → update_entry r t f ≡ r
unfolding update_entry
update_absent r t f e = rw (e, update_entry)

update_at :
    (r : Rob) (t : RobTag) (f : RobEntry → RobEntry) (i : ℕ)
    → r.tag_index t ≡ some i
    → (entry_at r i).valid ≡ true
    → update_entry r t f ≡ record r { entries = set r.entries i (f (entry_at r i)) }
unfolding update_entry
update_at r t f i e live = rw (e, update_entry) (rw live)

-- Where the index sends a tag, and what stands there.
module _ {r : Rob} (v : IsValid r) (t : RobTag) where
  abbrev spot : ℕ → ℕ
  spot k = slot (capacity r) r.head k

  unknown : position t (contents r) ≡ none → r.tag_index t ≡ none
  unknown h = v.indexed t ∙ ap (Option.map spot) h

  known : (k : ℕ) → position t (contents r) ≡ some k → r.tag_index t ≡ some (spot k)
  known k h = v.indexed t ∙ ap (Option.map spot) h

  in_flight : (k : ℕ) → position t (contents r) ≡ some k → k < r.count
  in_flight k h =
      subst (λ n. k < n) (length-scan default_entry r.entries (capacity r) r.head r.count)
        (position-lt t (contents r) k h)

  spot-entry :
      (k : ℕ)
      → position t (contents r) ≡ some k
      → get_or (contents r) k default_entry ≡ entry_at r (spot k)
  spot-entry k h =
      get_or-scan default_entry (capacity r) r.head v.head_lt r.entries r.count k (in_flight k h)

  spot-live : (k : ℕ) → position t (contents r) ≡ some k → (entry_at r (spot k)).valid ≡ true
  spot-live k h =
      subst IsLive (spot-entry k h)
        (All-get_or IsLive (contents r) k default_entry v.live (position-lt t (contents r) k h))

  -- `find_entry` finds exactly the entry in flight that has the tag.
  pub find_entry_refines : find_entry r t ≡ lookup_tag t (contents r)
  find_entry_refines = elim (Option-cases (position t (contents r))) [
    | inl h ↦ find_absent r t (unknown h) ∙ sym (lookup_tag-absent t (contents r) h)
    | inr (k, h) ↦
        find_at r t (spot k) (known k h) (spot-live k h)
        ∙ sym (lookup_tag-get_or t default_entry (contents r) k h ∙ ap some (spot-entry k h))
  ]

  module _ (f : RobEntry → RobEntry) (keeps : KeepsTag f) where
    abbrev written : ℕ → Rob
    written k = record r { entries = set r.entries (spot k) (f (entry_at r (spot k))) }

    written-capacity : (k : ℕ) → capacity (written k) ≡ capacity r
    written-capacity k = length-set r.entries (spot k) (f (entry_at r (spot k)))

    contents-written :
        (k : ℕ) → position t (contents r) ≡ some k → contents (written k) ≡ amend t f (contents r)
    contents-written k h =
        ap (λ c. scan default_entry (written k).entries c r.head r.count) (written-capacity k)
        ∙ scan-set_in default_entry (capacity r) r.head v.head_lt r.entries r.count k
            (f (entry_at r (spot k))) (omega arith) v.count_le (in_flight k h)
        ∙ ap (λ e. set (contents r) k (f e)) (sym (spot-entry k h))
        ∙ sym (amend-set t f default_entry (contents r) k h)

    written-IsValid : (k : ℕ) → position t (contents r) ≡ some k → IsValid (written k)
    written-IsValid k h = record {
      head_lt = rw (written-capacity k) v.head_lt;
      count_le = rw (written-capacity k) v.count_le;
      tail_eq = rw (written-capacity k) v.tail_eq;
      next_IsTag = v.next_IsTag;
      live =
          subst (All IsLive) (sym (contents-written k h))
            (IsLive-amend t f keeps (contents r) v.live);
      aged =
          subst (Aged r.next_tag (2 ^ 31)) (sym (contents-written k h))
            (Aged-amend t f keeps r.next_tag (2 ^ 31) (contents r) v.aged);
      indexed = λ s.
          v.indexed s
          ∙ ap₂ (λ c o. Option.map (slot c r.head) o) (sym (written-capacity k))
              (sym (position-amend t f keeps s (contents r))
                ∙ ap (position s) (sym (contents-written k h)));
    }

    -- A change through `find_entry_mut` changes the entry in flight that has the tag, no other, and
    -- keeps the invariant.
    pub update_entry_refines :
        (contents (update_entry r t f) ≡ amend t f (contents r)) × IsValid (update_entry r t f)
    update_entry_refines = elim (Option-cases (position t (contents r))) [
      | inl h ↦
          subst (λ s. (contents s ≡ amend t f (contents r)) × IsValid s)
            (sym (update_absent r t f (unknown h))) (sym (amend-absent t f (contents r) h), v)
      | inr (k, h) ↦
          subst (λ s. (contents s ≡ amend t f (contents r)) × IsValid s)
            (sym (update_at r t f (spot k) (known k h) (spot-live k h)))
            (contents-written k h, written-IsValid k h)
    ]
