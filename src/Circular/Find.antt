-- ===== src/Circular/Find.antt =====
-- The search of a circular buffer for the oldest entry that passes a test.
use rvsim.Base.{
  ℕ, zero, suc, ◌+◌, ◌%◌, ◌<◌, ◌≡◌, refl, sym, ap, ◌∙◌, inl, inr, Bool, List, [], ◌∷◌, Option, none,
  some, arith, length, get_or, set, if◌then◌else◌, Bool-cases,
}
use rvsim.Circular.{slot, scan, find_loop}
use rvsim.Circular.Window.{slot-slot, slot-zero, part, scan-part}

module _ {ℓ} {A : Type ℓ} (test : A → Bool) where
  -- The place of the first entry of a list that passes the test.
  abbrev pub position : List A → Option ℕ
  position [] = none
  position (e ∷ es) =
      if test e then some 0 else elim (position es) [ none ↦ none | some k ↦ some (suc k) ]

  -- The entry there, changed.
  abbrev pub amend_first : (A → A) → List A → List A
  amend_first f [] = []
  amend_first f (e ∷ es) = if test e then f e ∷ es else e ∷ amend_first f es

  pub position-lt : (es : List A) (k : ℕ) → position es ≡ some k → k < length es
  position-lt [] k h = cc
  position-lt (e ∷ es) zero h = omega arith
  position-lt (e ∷ es) (suc k) h = elim (Bool-cases (test e)) [
    | inl p ↦ absurd (ground (arith, p))
    | inr n ↦ omega (arith, position-lt es k (ground (arith, n)))
  ]

  pub position_absent : (f : A → A) (es : List A) → position es ≡ none → amend_first f es ≡ es
  position_absent f [] h = refl
  position_absent f (e ∷ es) h = elim (Bool-cases (test e)) [
    | inl p ↦ absurd (ground (arith, p))
    | inr n ↦ rw (n, if◌then◌else◌) (ap (◌∷◌ e) (position_absent f es (ground (arith, n))))
  ]

  pub position_present :
      (f : A → A) (d : A) (es : List A) (k : ℕ)
      → position es ≡ some k
      → amend_first f es ≡ set es k (f (get_or es k d))
  position_present f d [] k h = cc
  position_present f d (e ∷ es) zero h = elim (Bool-cases (test e)) [
    | inl p ↦ rw (p, if◌then◌else◌)
    | inr n ↦ absurd (ground (arith, n))
  ]
  position_present f d (e ∷ es) (suc k) h = elim (Bool-cases (test e)) [
    | inl p ↦ absurd (ground (arith, p))
    | inr n ↦ rw (n, if◌then◌else◌) (ap (◌∷◌ e) (position_present f d es k (ground (arith, n))))
  ]

module _ {ℓ} {A : Type ℓ} (d : A) (test : A → Bool) (xs : List A) (cap h : ℕ) where
  abbrev pub as_slot : ℕ → Option ℕ → Option ℕ
  as_slot a none = none
  as_slot a (some k) = some (slot cap h (a + k))

  abbrev bump : Option ℕ → Option ℕ
  bump none = none
  bump (some k) = some (suc k)

  as_slot-bump : (a : ℕ) (o : Option ℕ) → as_slot (a + 1) o ≡ as_slot a (bump o)
  as_slot-bump a none = refl
  as_slot-bump a (some k) =
      ap (λ j. some (slot cap h j)) {x = a + 1 + k} {y = a + suc k} (omega arith)

  find_loop-part :
      (n a : ℕ)
      → find_loop d test xs cap n (slot cap h a) ≡ as_slot a (position test (part d cap h xs a n))
  unfolding find_loop
  find_loop-part zero a = refl
  find_loop-part (suc n) a =
      let next = slot-slot cap h a 1 in
      elim (Bool-cases (test (get_or xs (slot cap h a) d))) [
        | inl hit ↦
            rw (hit, if◌then◌else◌)
              (ap (λ j. some (slot cap h j)) {x = a} {y = a + 0} (omega arith))
        | inr miss ↦
            rw (miss, if◌then◌else◌)
              (ap (find_loop d test xs cap n) next
                ∙ find_loop-part n (a + 1)
                ∙ as_slot-bump a (position test (part d cap h xs (a + 1) n))
                ∙ ap (λ i. as_slot a (bump (position test (scan d xs cap i n)))) (sym next)
                ∙ ap (as_slot a)
                    (bumped (position test (scan d xs cap ((slot cap h a + 1) % cap) n))))
      ]
    where
      bumped : (o : Option ℕ) → bump o ≡ (elim o [ none ↦ none | some k ↦ some (suc k) ])
      bumped none = refl
      bumped (some k) = refl

  pub find_loop-position :
      (n : ℕ)
      → h < cap
      → find_loop d test xs cap n h ≡ as_slot 0 (position test (scan d xs cap h n))
  find_loop-position n hh =
      ap (find_loop d test xs cap n) (sym (slot-zero cap h hh))
      ∙ find_loop-part n 0
      ∙ ap (λ l. as_slot 0 (position test l)) (sym (scan-part d cap h hh xs n))
