-- ===== src/Ways/Search.antt =====
-- What the search of a set finds.
use native.Mathlib.Decide.{dec_lt}
use mathlib.Core.Bool.{false≢true}
use rvsim.Base.{
  ℕ, zero, suc, ◌+◌, ◌≤◌, ◌<◌, ◌≡◌, refl, sym, ap, subst, ◌∙◌, Bool, true, false, List, Option,
  none, some, arith, length, get_or, set, get_or-set_self, get_or-set_ne, if◌then◌else◌, Bool-cases,
  inl, inr,
}
use rvsim.Ways.{find_way, is_some}

module _ {ℓ} {A : Type ℓ} (d : A) (test : A → Bool) (base : ℕ) where
  -- No way from `w` on up to `u` passes the test.
  abbrev pub Fails : List A → ℕ → ℕ → Type 0
  Fails xs w u = (j : ℕ) → w ≤ j → j < u → test (get_or xs (base + j) d) ≡ false

  -- What the search gives.
  abbrev pub Finds : List A → ℕ → ℕ → Option ℕ → Type 0
  Finds xs w u none = Fails xs w u
  Finds xs w u (some k) = (k < u) × (test (get_or xs (base + k) d) ≡ true) × Fails xs w k

  skip_way :
      (xs : List A) (w u : ℕ) (o : Option ℕ)
      → test (get_or xs (base + w) d) ≡ false
      → Finds xs (w + 1) u o
      → Finds xs w u o
  skip_way xs w u none miss f = λ j lo hi. elim (dec_lt w j) [
    | yes l ↦ f j (omega arith) hi
    | no g ↦ ap (λ i. test (get_or xs (base + i) d)) {x = j} {y = w} (omega arith) ∙ miss
  ]
  skip_way xs w u (some k) miss (lt, here, f) = (
    lt,
    here,
    λ j lo hi. elim (dec_lt w j) [
      | yes l ↦ f j (omega arith) hi
      | no g ↦ ap (λ i. test (get_or xs (base + i) d)) {x = j} {y = w} (omega arith) ∙ miss
    ],
  )

  find_way-Finds : (xs : List A) (n w : ℕ) → Finds xs w (w + n) (find_way d test xs base n w)
  unfolding find_way
  find_way-Finds xs zero w = λ j lo hi. absurd (omega arith)
  find_way-Finds xs (suc n) w = elim (Bool-cases (test (get_or xs (base + w) d))) [
    | inl hit ↦ rw (hit, if◌then◌else◌) (omega arith, hit, λ j lo hi. absurd (omega arith))
    | inr miss ↦
        rw (miss, if◌then◌else◌)
          (subst (λ u. Finds xs w u (find_way d test xs base n (w + 1))) {x = w + 1 + n}
            {y = w + suc n} (omega arith)
            (skip_way xs w (w + 1 + n) (find_way d test xs base n (w + 1)) miss
              (find_way-Finds xs n (w + 1))))
  ]

  -- From the first way on.
  pub searched-Finds : (xs : List A) (n : ℕ) → Finds xs 0 n (find_way d test xs base n 0)
  searched-Finds xs n =
      subst (λ u. Finds xs 0 u (find_way d test xs base n 0)) {x = 0 + n} {y = n} (omega arith)
        (find_way-Finds xs n 0)

  -- A way that passes, behind ways that fail, is found.
  pub find_way-first :
      (xs : List A) (n w k : ℕ)
      → w ≤ k
      → k < w + n
      → test (get_or xs (base + k) d) ≡ true
      → Fails xs w k
      → find_way d test xs base n w ≡ some k
  unfolding find_way
  find_way-first xs zero w k lo hi here f = absurd (omega arith)
  find_way-first xs (suc n) w k lo hi here f = elim (dec_lt w k) [
    | yes l ↦
        rw (f w (omega arith) l, if◌then◌else◌)
          (find_way-first xs n (w + 1) k (omega arith) (omega arith) here
            (λ j a b. f j (omega arith) b))
    | no g ↦ let at_w : w ≡ k = omega arith in rw (at_w, here, if◌then◌else◌) refl
  ]

  -- It stays the first after a write to it that passes.
  pub find_way-set :
      (xs : List A) (n k : ℕ) (e : A)
      → k < n
      → base + k < length xs
      → test e ≡ true
      → Fails xs 0 k
      → find_way d test (set xs (base + k) e) base n 0 ≡ some k
  find_way-set xs n k e hi room here f =
      find_way-first (set xs (base + k) e) n 0 k (omega arith) (omega arith)
        (ap test (get_or-set_self xs (base + k) e d room) ∙ here)
        (λ j a b.
          ap test (get_or-set_ne xs (base + k) (base + j) e d (λ same. omega (arith, same)))
          ∙ f j a b)

  -- Some way passes, or none does.
  pub is_some-find_way :
      (xs : List A) (n k : ℕ)
      → k < n
      → test (get_or xs (base + k) d) ≡ true
      → is_some (find_way d test xs base n 0) ≡ true
  is_some-find_way xs n k lt here = passing (find_way d test xs base n 0) (searched-Finds xs n)
    where
      passing : (o : Option ℕ) → Finds xs 0 n o → is_some o ≡ true
      passing none f = absurd (false≢true (sym (f k (omega arith) lt) ∙ here))
      passing (some j) f = refl

  pub is_some-find_way_none :
      (xs : List A) (n : ℕ) → Fails xs 0 n → is_some (find_way d test xs base n 0) ≡ false
  is_some-find_way_none xs n f = failing (find_way d test xs base n 0) (searched-Finds xs n)
    where
      failing : (o : Option ℕ) → Finds xs 0 n o → is_some o ≡ false
      failing none g = refl
      failing (some j) (lt, here, g) = absurd (false≢true (sym (f j (omega arith) lt) ∙ here))
