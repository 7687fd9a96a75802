-- ===== src/Rob/Forget.antt =====
-- Lists of entries cut in two: tags, ages, and the index without the tags of the second part.
use mathlib.Core.Option
use rvsim.Base.{
  ℕ, ◌≡◌, refl, inl, inr, List, [], ◌∷◌, ◌++◌, Option, none, some, arith, All, ==_iff, Option-cases,
  subst,
}
use rvsim.RobTag.{RobTag}
use rvsim.RobTag.Age.{age}
use rvsim.RobEntry.{RobEntry}
use rvsim.Rob.{TagIndex, remove_tag}
use rvsim.Rob.Inv.{IsLive, Aged, position, position_old}

-- The index without the tags of a list.
abbrev pub forget : List RobEntry → TagIndex → TagIndex
forget [] m = m
forget (e ∷ es) m = forget es (remove_tag m e.tag)

abbrev unless_some : Option ℕ → Option ℕ → Option ℕ
unless_some none o = o
unless_some (some _) o = none

forget-none : (t : RobTag) (fs : List RobEntry) (m : TagIndex) → m t ≡ none → forget fs m t ≡ none
forget-none t [] m h = h
forget-none t (f ∷ fs) m h = forget-none t fs (remove_tag m f.tag) (ground arith)

forget_lem :
    (t : RobTag) (fs : List RobEntry) (m : TagIndex)
    → forget fs m t ≡ unless_some (position t fs) (m t)
forget_lem t [] m = refl
forget_lem t (f ∷ fs) m = elim (Option-cases (position t fs)) [
  | inl gone ↦
      ground (arith, gone, forget_lem t fs (remove_tag m f.tag), ==_iff t f.tag, ==_iff f.tag t)
  | inr (k, there) ↦ ground (arith, there, forget_lem t fs (remove_tag m f.tag))
]

position_append :
    (t : RobTag) (es fs : List RobEntry) → position t (es ++ fs) ≡ none → position t fs ≡ none
position_append t [] fs h = h
position_append t (e ∷ es) fs h = elim (Option-cases (position t (es ++ fs))) [
  | inl gone ↦ position_append t es fs gone
  | inr (k, there) ↦ ground (arith, there)
]

-- By their ages, no tag occurs on both sides.
apart :
    (next bound : ℕ) (t : RobTag) (es fs : List RobEntry) (k : ℕ)
    → Aged next bound (es ++ fs)
    → position t es ≡ some k
    → position t fs ≡ none
apart next bound t [] fs k a h = cc
apart next bound t (e ∷ es) fs k a h = elim (Option-cases (position t es)) [
  | inl gone ↦
      let same : e.tag ≡ t = ground (arith, gone) in
      position_append t es fs
        (position_old next t (es ++ fs) (subst (λ s. Aged next (age next s) (es ++ fs)) same a.3))
  | inr (j, there) ↦ apart next (age next e.tag) t es fs j a.3 there
]

position-append_left :
    (t : RobTag) (es fs : List RobEntry) (k : ℕ)
    → position t es ≡ some k
    → position t (es ++ fs) ≡ some k
position-append_left t [] fs k h = cc
position-append_left t (e ∷ es) fs k h = elim (Option-cases (position t es)) [
  | inl gone ↦ ground (arith, gone)
  | inr (j, there) ↦ ground (arith, there, position-append_left t es fs j there)
]

position-append_none :
    (t : RobTag) (es fs : List RobEntry)
    → position t es ≡ none
    → position t fs ≡ none
    → position t (es ++ fs) ≡ none
position-append_none t [] fs h k = k
position-append_none t (e ∷ es) fs h k = elim (Option-cases (position t es)) [
  | inl gone ↦ ground (arith, gone, position-append_none t es fs gone k)
  | inr (j, there) ↦ ground (arith, there)
]

-- The index without the tags of the second part is the index of the first part.
pub indexed_cut :
    (next bound : ℕ) (g : ℕ → ℕ) (m : TagIndex) (es fs : List RobEntry)
    → Aged next bound (es ++ fs)
    → ((t : RobTag) → m t ≡ Option.map g (position t (es ++ fs)))
    → (t : RobTag) → forget fs m t ≡ Option.map g (position t es)
indexed_cut next bound g m es fs a ix t = elim (Option-cases (position t es)) [
  | inr (k, here) ↦ ground (
    arith,
    forget_lem t fs m,
    apart next bound t es fs k a here,
    ix t,
    position-append_left t es fs k here,
  )
  | inl gone ↦ elim (Option-cases (position t fs)) [
    | inl nowhere ↦
        ground (arith, forget_lem t fs m, ix t, position-append_none t es fs gone nowhere)
    | inr (k, there) ↦ ground (arith, forget_lem t fs m, there, gone)
  ]
]

pub Aged-append_left :
    (next bound : ℕ) (es fs : List RobEntry) → Aged next bound (es ++ fs) → Aged next bound es
Aged-append_left next bound [] fs a = tt
Aged-append_left next bound (e ∷ es) fs a =
    (a.0, a.1, a.2, Aged-append_left next (age next e.tag) es fs a.3)

pub IsLive-append_left : (es fs : List RobEntry) → All IsLive (es ++ fs) → All IsLive es
IsLive-append_left [] fs h = tt
IsLive-append_left (e ∷ es) fs h = (h.0, IsLive-append_left es fs h.1)
