-- ===== src/Pmp/Match/Decide.antt =====
-- Which entry decides an access and how, in terms of regions and the bits of its configuration.
use rvsim.Base.{
  ℕ, zero, suc, ◌+◌, ◌/◌, ◌%◌, ◌^◌, ◌≤◌, ◌<◌, ◌≡◌, ◌≢◌, ◌⊎◌, inl, inr, sym, ap, ◌∙◌, true, false,
  Bool, not, ◌&&◌, ◌||◌, List, [], ◌∷◌, All, arith, length, get_or, if◌then◌else◌, ◌==◌,
}
use rvsim.Pmp.{
  Pmp, PmpEntry, PmpResult, allow, deny, no_match, Access, disabled, is_off, is_readable,
  is_writable, is_executable, is_locked, inside, matches, verdict, range_of, check,
}
use rvsim.Pmp.Match.{register_before, matches_at, Tested, check-Tested}
use rvsim.Pmp.Match.Region.{Covers, IsRegion, region, region_range, bit}

-- What an entry that covers an access makes of it. Bits 0, 1 and 2 of its configuration permit reads,
-- writes and fetches, bit 7 locks it: an entry that is not locked does not bind machine mode.
abbrev pub decision : Access → ℕ → PmpResult
decision a cfg =
    if a.is_machine_mode && not ((cfg / 128) % 2 == 1)
    then allow
    else if (not a.is_read || (cfg % 2 == 1))
        && (not a.is_write || ((cfg / 2) % 2 == 1))
        && (not a.is_exec || ((cfg / 4) % 2 == 1))
    then allow
    else deny

verdict-decision : (a : Access) (e : PmpEntry) → verdict a e ≡ decision a e.cfg
verdict-decision a e =
    let readable : is_readable e ≡ (e.cfg % 2 == 1) =
      bit 0 e.cfg ∙ ap (λ (y : ℕ). y % 2 == 1) {x = e.cfg / 2 ^ 0} {y = e.cfg} (omega arith) in
    let writable : is_writable e ≡ ((e.cfg / 2) % 2 == 1) = bit 1 e.cfg in
    let executable : is_executable e ≡ ((e.cfg / 4) % 2 == 1) = bit 2 e.cfg in
    let locked : is_locked e ≡ ((e.cfg / 128) % 2 == 1) = bit 7 e.cfg in
    λ i.
      if a.is_machine_mode && not (locked i)
      then allow
      else if (not a.is_read || readable i)
          && (not a.is_write || writable i)
          && (not a.is_exec || executable i)
      then allow
      else deny

true_not_false : (b : Bool) → b ≡ true → b ≢ false
true_not_false b h m = cc

module _ (a : Access) where
  -- The entry with the number `i` covers the access.
  abbrev pub CoversAt : List PmpEntry → ℕ → Type 0
  CoversAt es i = Covers a (register_before 0 es i) (get_or es i disabled)

  abbrev pub IsDecided : List PmpEntry → PmpResult → Type 0
  IsDecided es result =
      ((i : ℕ) × (i < length es)
        × CoversAt es i
        × ((j : ℕ) → j < i → ¬ CoversAt es j)
        × (result ≡ decision a (get_or es i disabled).cfg))
      ⊎ (((i : ℕ) → i < length es → ¬ CoversAt es i)
          × (result ≡ (if a.is_machine_mode then allow else no_match)))

module _ (a : Access) (fits : a.byte_addr + a.size < 2 ^ 64) where
  inside-bounds :
      (lo hi : ℕ)
      → (inside a (lo, hi) ≡ true → (lo ≤ a.byte_addr) × (a.byte_addr + a.size ≤ hi))
        × ((lo ≤ a.byte_addr) × (a.byte_addr + a.size ≤ hi) → inside a (lo, hi) ≡ true)
  inside-bounds lo hi = (
    (λ h. (ground (arith, h, fits), ground (arith, h, fits))),
    λ h. ground (arith, h.0, h.1, fits),
  )

  matches-Covers :
      (previous : ℕ) (e : PmpEntry)
      → previous < 2 ^ 54
      → e.addr < 2 ^ 54
      → (matches a previous e ≡ true → Covers a previous e)
        × (Covers a previous e → matches a previous e ≡ true)
  matches-Covers previous e hp he = (to (region previous e he), from)
    where
      to :
          (is_off e ≡ true) ⊎ ((lo : ℕ) × (hi : ℕ) × IsRegion previous e lo hi)
          → matches a previous e ≡ true
          → Covers a previous e
      to (inl gone) h =
          absurd (true_not_false _ h (ap (λ b. not b && inside a (range_of previous e)) gone))
      to (inr (lo, hi, r)) h =
          let (on, range) = region_range previous e lo hi hp he r in
          let both : inside a (lo, hi) ≡ true = sym (λ i. not (on i) && inside a (range i)) ∙ h in
          let bounds = (inside-bounds lo hi).0 both in (lo, hi, r, bounds.0, bounds.1)

      from : Covers a previous e → matches a previous e ≡ true
      from (lo, hi, r, below, above) =
          let (on, range) = region_range previous e lo hi hp he r in
          (λ i. not (on i) && inside a (range i)) ∙ (inside-bounds lo hi).1 (below, above)

  module _ (es : List PmpEntry) (small : All (λ e. e.addr < 2 ^ 54) es) where
    small_at :
        (xs : List PmpEntry)
        → All (λ e. e.addr < 2 ^ 54) xs
        → (i : ℕ) → (get_or xs i disabled).addr < 2 ^ 54
    small_at [] h i = omega arith
    small_at (x ∷ xs) h zero = h.0
    small_at (x ∷ xs) h (suc i) = small_at xs h.1 i

    small_before : (i : ℕ) → register_before 0 es i < 2 ^ 54
    small_before zero = omega arith
    small_before (suc i) = small_at es small i

    at :
        (i : ℕ)
        → (matches_at a 0 es i ≡ true → CoversAt a es i)
          × (CoversAt a es i → matches_at a 0 es i ≡ true)
    at i =
        matches-Covers (register_before 0 es i) (get_or es i disabled) (small_before i)
          (small_at es small i)

    uncovered : (i : ℕ) → matches_at a 0 es i ≡ false → ¬ CoversAt a es i
    uncovered i m c = absurd (true_not_false _ ((at i).1 c) m)

    decided : (result : PmpResult) → Tested a 0 es result → IsDecided a es result
    decided result (inl (i, s, r)) = inl (
      i,
      s.within,
      (at i).0 s.passed,
      (λ j lt. uncovered j (s.earlier j lt)),
      r ∙ verdict-decision a (get_or es i disabled),
    )
    decided result (inr (u, r)) = inr ((λ i lt. uncovered i (u i lt)), r)

  -- The lowest-numbered entry whose region has all bytes of the access decides: it allows an access
  -- in machine mode if it is not locked, and otherwise allows exactly the kinds that its bits permit.
  -- Where no entry covers the access `check` allows it in machine mode and reports no match in the
  -- other modes. The access ends below 2 ^ 64, and the address registers have the 54 bits of a
  -- physical address without its two lowest.
  pub check-Decided :
      (p : Pmp) → All (λ e. e.addr < 2 ^ 54) p.entries → IsDecided a p.entries (check p a)
  check-Decided p small = decided p.entries small (check p a) (check-Tested p a)
