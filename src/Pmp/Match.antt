-- ===== src/Pmp/Match.antt =====
-- The loop over the entries: the lowest-numbered one that passes its test decides.
pub mod Region
pub mod Decide
use rvsim.Base.{
  ℕ, zero, suc, ◌<◌, ◌≡◌, ◌⊎◌, inl, inr, refl, ap, ◌∙◌, true, false, Bool, List, [], ◌∷◌, arith,
  length, get_or, if◌then◌else◌, Bool-cases,
}
use rvsim.Pmp.{
  Pmp, PmpEntry, PmpResult, allow, no_match, Access, disabled, matches, verdict, check_loop, check,
}

-- The address register before an entry's, for TOR.
abbrev pub register_before : ℕ → List PmpEntry → ℕ → ℕ
register_before previous es zero = previous
register_before previous es (suc i) = (get_or es i disabled).addr

abbrev pub matches_at : Access → ℕ → List PmpEntry → ℕ → Bool
matches_at a previous es i = matches a (register_before previous es i) (get_or es i disabled)

-- Entry `i` passes the test, and none before it does.
pub record Passes (a : Access) (previous : ℕ) (es : List PmpEntry) (i : ℕ) : Type 0 where
  pub within : i < length es
  pub passed : matches_at a previous es i ≡ true
  pub earlier : (j : ℕ) → j < i → matches_at a previous es j ≡ false

-- No entry passes the test.
abbrev pub NonePasses : Access → ℕ → List PmpEntry → Type 0
NonePasses a previous es = (i : ℕ) → i < length es → matches_at a previous es i ≡ false

abbrev pub Tested : Access → ℕ → List PmpEntry → PmpResult → Type 0
Tested a previous es result =
    ((i : ℕ) × Passes a previous es i × (result ≡ verdict a (get_or es i disabled)))
    ⊎ (NonePasses a previous es × (result ≡ (if a.is_machine_mode then allow else no_match)))

-- The register before an entry of the tail.
before_tail :
    (previous : ℕ) (e : PmpEntry) (es : List PmpEntry) (i : ℕ)
    → register_before previous (e ∷ es) (suc i) ≡ register_before e.addr es i
before_tail previous e es zero = refl
before_tail previous e es (suc i) = refl

tail_matches :
    (a : Access) (previous : ℕ) (e : PmpEntry) (es : List PmpEntry) (i : ℕ)
    → matches_at a previous (e ∷ es) (suc i) ≡ matches_at a e.addr es i
tail_matches a previous e es i =
    ap (λ q. matches a q (get_or es i disabled)) (before_tail previous e es i)

below_suc :
    (a : Access) (previous : ℕ) (e : PmpEntry) (es : List PmpEntry) (n : ℕ)
    → matches a previous e ≡ false
    → ((j : ℕ) → j < n → matches_at a e.addr es j ≡ false)
    → (j : ℕ) → j < suc n
    → matches_at a previous (e ∷ es) j ≡ false
below_suc a previous e es n m h zero lt = m
below_suc a previous e es n m h (suc j) lt = tail_matches a previous e es j ∙ h j (omega arith)

module _ (a : Access) where
  check_loop_hit :
      (previous : ℕ) (e : PmpEntry) (es : List PmpEntry)
      → matches a previous e ≡ true
      → check_loop a previous (e ∷ es) ≡ verdict a e
  unfolding check_loop
  check_loop_hit previous e es h = rw (h, if◌then◌else◌)

  check_loop_miss :
      (previous : ℕ) (e : PmpEntry) (es : List PmpEntry)
      → matches a previous e ≡ false
      → check_loop a previous (e ∷ es) ≡ check_loop a e.addr es
  unfolding check_loop
  check_loop_miss previous e es h = rw (h, if◌then◌else◌)

  check_loop-Tested :
      (previous : ℕ) (es : List PmpEntry) → Tested a previous es (check_loop a previous es)
  unfolding check_loop
  check_loop-Tested previous [] = inr ((λ i h. elim h [ ]), refl)
  check_loop-Tested previous (e ∷ es) = elim (Bool-cases (matches a previous e)) [
    | inl hit ↦ inl (
      0,
      record { within = omega arith; passed = hit; earlier = λ j h. elim h [ ] },
      check_loop_hit previous e es hit,
    )
    | inr miss ↦ elim (check_loop-Tested e.addr es) [
      | inl (i, s, r) ↦ inl (
        suc i,
        record {
          within = omega (arith, s.within);
          passed = tail_matches a previous e es i ∙ s.passed;
          earlier = below_suc a previous e es i miss s.earlier;
        },
        check_loop_miss previous e es miss ∙ r,
      )
      | inr (u, r) ↦
          inr (below_suc a previous e es (length es) miss u, check_loop_miss previous e es miss ∙ r)
    ]
  ]

pub check-Tested : (p : Pmp) (a : Access) → Tested a 0 p.entries (check p a)
unfolding check
check-Tested p a = check_loop-Tested a 0 p.entries
