-- ===== src/Rob/Inv.antt =====
-- The representation invariant of the reorder buffer: the slots from `head` on hold the entries in
-- flight, oldest first, with falling ages, and the index finds exactly them.
use mathlib.Core.Option
use rvsim.Base.{
  ℕ, suc, ◌+◌, ◌^◌, ◌≤◌, ◌<◌, ◌≡◌, refl, inl, inr, true, List, [], ◌∷◌, ◌++◌, Option, none, some,
  arith, length, All, ◌==◌, ==_iff, ap, Option-cases, if◌then◌else◌,
}
use rvsim.Circular.{slot, scan}
use rvsim.Circular.Window.{slot-slot}
use rvsim.RobTag.{RobTag, next_after}
use rvsim.RobTag.Age.{IsTag, age, age-next_after, age-next_after_self}
use rvsim.RobEntry.{RobEntry, default_entry}
use rvsim.Rob.{Rob, capacity, TagIndex, remove_tag}

-- The entries in flight, oldest first.
abbrev pub contents : Rob → List RobEntry
contents r = scan default_entry r.entries (capacity r) r.head r.count

abbrev pub IsLive : RobEntry → Type 0
IsLive e = e.valid ≡ true

-- Ages fall along the list and stay below the bound; so they are distinct.
abbrev pub Aged : RobTag → ℕ → List RobEntry → Type 0
Aged next bound [] = Unit {0}
Aged next bound (e ∷ es) =
    IsTag e.tag × (age next e.tag < bound) × (1 ≤ age next e.tag) × Aged next (age next e.tag) es

-- The place of the first entry with a tag.
abbrev pub position : RobTag → List RobEntry → Option ℕ
position t [] = none
position t (e ∷ es) = if e.tag == t then some 0 else Option.map suc (position t es)

pub record IsValid (r : Rob) : Type 0 where
  pub head_lt : r.head < capacity r
  pub count_le : r.count ≤ capacity r
  pub tail_eq : r.tail ≡ slot (capacity r) r.head r.count
  pub next_IsTag : IsTag r.next_tag
  pub live : All IsLive (contents r)
  pub aged : Aged r.next_tag (2 ^ 31) (contents r)
  pub indexed :
      (t : RobTag) → r.tag_index t ≡ Option.map (slot (capacity r) r.head) (position t (contents r))

pub Aged-mono : (next m n : ℕ) (es : List RobEntry) → m ≤ n → Aged next m es → Aged next n es
Aged-mono next m n [] h a = tt
Aged-mono next m n (e ∷ es) h a = (a.0, omega arith, a.2, a.3)

-- A tag at least as old as the bound is not among the entries.
pub position_old :
    (next : RobTag) (t : RobTag) (es : List RobEntry)
    → Aged next (age next t) es
    → position t es ≡ none
position_old next t [] a = refl
position_old next t (e ∷ es) a = ground (
  arith,
  position_old next t es (Aged-mono next (age next e.tag) (age next t) es (omega arith) a.3),
)

-- Nor is the tag that comes next, which has age 0.
pub position_next :
    (next bound : ℕ) (es : List RobEntry) → Aged next bound es → position next es ≡ none
position_next next bound [] a = refl
position_next next bound (e ∷ es) a = ground (arith, position_next next (age next e.tag) es a.3)

-- Appending an entry with the tag that comes next. The tag after it shifts all ages alike.
pub Aged-snoc :
    (next bound : ℕ) (es : List RobEntry) (e : RobEntry)
    → IsTag next
    → 1 ≤ bound
    → bound ≤ 2 ^ 31
    → e.tag ≡ next
    → Aged next bound es
    → Aged (next_after next) (bound + age (next_after next) next) (es ++ e ∷ [])
Aged-snoc next bound [] e hn lo hi same a =
    rw same (hn, omega arith, (age-next_after_self next hn).0, tt)
Aged-snoc next bound (f ∷ es) e hn lo hi same a =
    let shifted : age (next_after next) f.tag ≡ age next f.tag + age (next_after next) next =
      age-next_after next f.tag hn a.0 (omega arith) in
    (
      a.0,
      omega arith,
      omega arith,
      rw shifted (Aged-snoc next (age next f.tag) es e hn (omega arith) (omega arith) same a.3),
    )

pub position_snoc :
    (t : RobTag) (es : List RobEntry) (e : RobEntry)
    → position e.tag es ≡ none
    → position t (es ++ e ∷ []) ≡ (if e.tag == t then some (length es) else position t es)
position_snoc t [] e h = refl
position_snoc t (f ∷ es) e h = elim (Option-cases (position e.tag es)) [
  | inl absent ↦ ground (arith, position_snoc t es e absent)
  | inr (k, there) ↦ ground (arith, there)
]

pub position-lt : (t : RobTag) (es : List RobEntry) (k : ℕ) → position t es ≡ some k → k < length es
position-lt t [] k e = cc
position-lt t (f ∷ es) k e = elim (Option-cases (position t es)) [
  | inl absent ↦ ground (arith, absent)
  | inr (j, there) ↦ ground (arith, there, position-lt t es j there)
]

-- The index after the oldest entry has left, as one about the remaining entries.
pub indexed_popped :
    (cap h : ℕ) (m : TagIndex) (e : RobEntry) (es : List RobEntry)
    → position e.tag es ≡ none
    → ((t : RobTag) → m t ≡ Option.map (slot cap h) (position t (e ∷ es)))
    → (t : RobTag) → remove_tag m e.tag t ≡ Option.map (slot cap (slot cap h 1)) (position t es)
indexed_popped cap h m e es absent ix t = elim (Option-cases (position t es)) [
  | inl gone ↦ ground (arith, absent, gone, ix t, ==_iff t e.tag)
  | inr (k, there) ↦
      ground
        (arith, absent, there, ix t, slot-slot cap h 1 k, ap (slot cap h) {x = 1 + k} {y = suc k})
]
