-- ===== src/Plic/Best.antt =====
-- The two searches for pending interrupts as one pass over all interrupts, and what they find.
use rvsim.Base.{
  ℕ, zero, suc, ◌+◌, ◌*◌, ◌/◌, ◌%◌, ◌^◌, ◌≤◌, ◌<◌, ◌≡◌, ◌⊎◌, inl, inr, refl, sym, ap, ap₂, subst,
  ◌∙◌, Bool, true, false, not, ◌&&◌, arith, bit_and, length, ltb, if◌then◌else◌, ◌==◌, ==_iff,
  Bool-cases,
}
use native.Mathlib.Decide.{dec_lt}
use rvsim.Base.Bits.{zero-bit_and}
use rvsim.Plic.{
  Plic, active, threshold, priority, num_words, qualified_bit, qualified_bits, qualified_words,
  has_qualified_irq, max_bit, max_bits, max_words, calc_max_id,
}

module _ (p : Plic) (ctx : ℕ) where
  -- The interrupt is pending, enabled and above the threshold.
  abbrev pub qualifies : ℕ → Bool
  qualifies id =
      not (id == 0)
      && not (bit_and (active p ctx (id / 32)) (2 ^ (id % 32)) == 0)
      && ltb id (length p.priorities)
      && ltb (threshold p ctx) (priority p id)

  abbrev better : ℕ → ℕ × ℕ → ℕ × ℕ
  better id best = if qualifies id && ltb best.0 (priority p id) then (priority p id, id) else best

  -- One pass over `n` interrupts from `id` on.
  pass : ℕ → ℕ → ℕ × ℕ → ℕ × ℕ
  pass zero id best = best
  pass (suc n) id best = pass n (id + 1) (better id best)

  found : ℕ → ℕ → Bool
  found zero id = false
  found (suc n) id = let rest = found n (id + 1) in if qualifies id then true else rest

  at_bit :
      (word bit : ℕ) → bit < 32 → ((word * 32 + bit) / 32 ≡ word) × ((word * 32 + bit) % 32 ≡ bit)
  at_bit word bit h = omega arith

  qualified_bit-qualifies :
      (word bit : ℕ) → bit < 32 → qualified_bit p ctx word bit ≡ qualifies (word * 32 + bit)
  qualified_bit-qualifies word bit h =
      rw ((at_bit word bit h).0, (at_bit word bit h).1) (ground arith)

  max_bit-better :
      (word bit : ℕ) (best : ℕ × ℕ)
      → bit < 32
      → max_bit p ctx word bit best ≡ better (word * 32 + bit) best
  max_bit-better word bit best h = rw ((at_bit word bit h).0, (at_bit word bit h).1) (ground arith)

  max_bits-pass :
      (n word bit : ℕ) (best : ℕ × ℕ)
      → bit + n ≤ 32
      → max_bits p ctx word n bit best ≡ pass n (word * 32 + bit) best
  unfolding max_bits pass
  max_bits-pass zero word bit best h = refl
  max_bits-pass (suc n) word bit best h =
      max_bits-pass n word (bit + 1) (max_bit p ctx word bit best) (omega arith)
      ∙ ap₂ (pass n) (omega arith) (max_bit-better word bit best (omega arith))

  qualified_bits-found :
      (n word bit : ℕ) → bit + n ≤ 32 → qualified_bits p ctx word n bit ≡ found n (word * 32 + bit)
  unfolding qualified_bits found
  qualified_bits-found zero word bit h = refl
  qualified_bits-found (suc n) word bit h =
      ap₂ (λ t r. if t then true else r) (qualified_bit-qualifies word bit (omega arith))
        (qualified_bits-found n word (bit + 1) (omega arith) ∙ ap (found n) (omega arith))

  -- Where no bit of a word is active, none of its interrupts qualifies.
  idle : (word bit : ℕ) → active p ctx word ≡ 0 → bit < 32 → qualifies (word * 32 + bit) ≡ false
  idle word bit e h =
      rw ((at_bit word bit h).0, (at_bit word bit h).1, e) (ground (arith, zero-bit_and (2 ^ bit)))

  pass_idle :
      (n word bit : ℕ) (best : ℕ × ℕ)
      → active p ctx word ≡ 0
      → bit + n ≤ 32
      → pass n (word * 32 + bit) best ≡ best
  unfolding pass
  pass_idle zero word bit best e h = refl
  pass_idle (suc n) word bit best e h =
      ap₂ (pass n) {x = word * 32 + bit + 1} {y = word * 32 + (bit + 1)} (omega arith)
        (rw (idle word bit e (omega arith)))
      ∙ pass_idle n word (bit + 1) best e (omega arith)

  found_idle :
      (n word bit : ℕ) → active p ctx word ≡ 0 → bit + n ≤ 32 → found n (word * 32 + bit) ≡ false
  unfolding found
  found_idle zero word bit e h = refl
  found_idle (suc n) word bit e h =
      ap₂ (λ t r. if t then true else r) (idle word bit e (omega arith))
        (ap (found n) (omega arith) ∙ found_idle n word (bit + 1) e (omega arith))

  pass-add : (m n id : ℕ) (best : ℕ × ℕ) → pass (m + n) id best ≡ pass n (id + m) (pass m id best)
  unfolding pass
  pass-add zero n id best =
      ap (λ k. pass k id best) {x = 0 + n} {y = n} (omega arith)
      ∙ ap (λ i. pass n i best) {x = id} {y = id + 0} (omega arith)
  pass-add (suc m) n id best =
      ap (λ k. pass k id best) {x = suc m + n} {y = suc (m + n)} (omega arith)
      ∙ pass-add m n (id + 1) (better id best)
      ∙ ap (λ i. pass n i (pass m (id + 1) (better id best))) {x = id + 1 + m} {y = id + suc m}
          (omega arith)

  found-add : (m n id : ℕ) → found (m + n) id ≡ (if found m id then true else found n (id + m))
  unfolding found
  found-add zero n id =
      ap (λ k. found k id) {x = 0 + n} {y = n} (omega arith)
      ∙ ap (found n) {x = id} {y = id + 0} (omega arith)
  found-add (suc m) n id =
      ap (λ k. found k id) {x = suc m + n} {y = suc (m + n)} (omega arith)
      ∙ ap (λ r. if qualifies id then true else r)
          (found-add m n (id + 1)
            ∙ ap (λ i. if found m (id + 1) then true else found n i) {x = id + 1 + m}
                {y = id + suc m} (omega arith))
      ∙ either (qualifies id) (found m (id + 1)) (found n (id + suc m))
    where
      either :
          (a b c : Bool)
          → (if a then true else if b then true else c)
            ≡ (if (if a then true else b) then true else c)
      either true b c = refl
      either false b c = refl

  word_pass :
      (word : ℕ) (best : ℕ × ℕ)
      → (if active p ctx word == 0 then best else max_bits p ctx word 32 0 best)
        ≡ pass 32 (word * 32) best
  word_pass word best = elim (Bool-cases (active p ctx word == 0)) [
    | inl e ↦
        rw (e, if◌then◌else◌)
          (sym (pass_idle 32 word 0 best ((==_iff _ 0).0 e) (omega arith))
            ∙ ap (λ i. pass 32 i best) {x = word * 32 + 0} {y = word * 32} (omega arith))
    | inr e ↦
        rw (e, if◌then◌else◌)
          (max_bits-pass 32 word 0 best (omega arith)
            ∙ ap (λ i. pass 32 i best) {x = word * 32 + 0} {y = word * 32} (omega arith))
  ]

  max_words-pass :
      (n word : ℕ) (best : ℕ × ℕ) → max_words p ctx n word best ≡ pass (n * 32) (word * 32) best
  unfolding max_words pass
  max_words-pass zero word best = refl
  max_words-pass (suc n) word best =
      ap (max_words p ctx n (word + 1)) (word_pass word best)
      ∙ max_words-pass n (word + 1) (pass 32 (word * 32) best)
      ∙ ap (λ i. pass (n * 32) i (pass 32 (word * 32) best)) {x = (word + 1) * 32}
          {y = word * 32 + 32} (omega arith)
      ∙ sym (pass-add 32 (n * 32) (word * 32) best)
      ∙ ap (λ k. pass k (word * 32) best) {x = 32 + n * 32} {y = suc n * 32} (omega arith)

  word_found :
      (word : ℕ) (rest : Bool)
      → (if active p ctx word == 0
          then rest
          else if qualified_bits p ctx word 32 0
          then true
          else rest)
        ≡ (if found 32 (word * 32) then true else rest)
  word_found word rest = elim (Bool-cases (active p ctx word == 0)) [
    | inl e ↦
        let none : found 32 (word * 32) ≡ false =
          ap (found 32) {x = word * 32} {y = word * 32 + 0} (omega arith)
          ∙ found_idle 32 word 0 ((==_iff _ 0).0 e) (omega arith) in
        rw (e, none, if◌then◌else◌)
    | inr e ↦
        let same : qualified_bits p ctx word 32 0 ≡ found 32 (word * 32) =
          qualified_bits-found 32 word 0 (omega arith)
          ∙ ap (found 32) {x = word * 32 + 0} {y = word * 32} (omega arith) in
        rw (e, same, if◌then◌else◌)
  ]

  qualified_words-found : (n word : ℕ) → qualified_words p ctx n word ≡ found (n * 32) (word * 32)
  unfolding qualified_words found
  qualified_words-found zero word = refl
  qualified_words-found (suc n) word =
      word_found word (qualified_words p ctx n (word + 1))
      ∙ ap (λ r. if found 32 (word * 32) then true else r)
          (qualified_words-found n (word + 1)
            ∙ ap (found (n * 32)) {x = (word + 1) * 32} {y = word * 32 + 32} (omega arith))
      ∙ sym (found-add 32 (n * 32) (word * 32))
      ∙ ap (λ k. found k (word * 32)) {x = 32 + n * 32} {y = suc n * 32} (omega arith)

  -- No interrupt below `n` qualifies.
  abbrev pub Quiet : ℕ → Type 0
  Quiet n = (j : ℕ) → j < n → qualifies j ≡ false

  -- `id` qualifies, and no interrupt below `n` that qualifies has a higher priority, or the same and
  -- a lower number.
  pub record Wins (n id : ℕ) : Type 0 where
    pub below : id < n
    pub own : qualifies id ≡ true
    pub others :
        (j : ℕ)
        → j < n
        → qualifies j ≡ true
        → (priority p j ≤ priority p id) × (j < id → priority p j < priority p id)

  abbrev Best : ℕ → ℕ × ℕ → Bool → Type 0
  Best n (prio, id) any =
      ((prio ≡ 0) × (id ≡ 0) × (any ≡ false) × Quiet n)
      ⊎ ((prio ≡ priority p id) × (any ≡ true) × Wins n id)

  Quiet-suc : (n : ℕ) → Quiet n → qualifies n ≡ false → Quiet (suc n)
  Quiet-suc n q e j h = elim (dec_lt j n) [
    | yes l ↦ q j l
    | no g ↦ ap qualifies {x = j} {y = n} (omega arith) ∙ e
  ]

  positive : (n : ℕ) → qualifies n ≡ true → 0 < priority p n
  positive n h = ground arith

  split_below : (j n : ℕ) → j < suc n → (j < n) ⊎ (j ≡ n)
  split_below j n h = elim (dec_lt j n) [ yes l ↦ inl l | no g ↦ inr (omega arith) ]

  first_Wins : (n : ℕ) → Quiet n → qualifies n ≡ true → Wins (suc n) n
  first_Wins n q h = record {
    below = omega arith;
    own = h;
    others = λ j l t. elim (split_below j n l) [
      | inl below ↦ absurd (ground (arith, q j below))
      | inr e ↦ rw e (omega arith, omega arith)
    ];
  }

  new_Wins :
      (n id : ℕ) → Wins n id → qualifies n ≡ true → priority p id < priority p n → Wins (suc n) n
  new_Wins n id w h more = record {
    below = omega arith;
    own = h;
    others = λ j l t. elim (split_below j n l) [
      | inl below ↦ omega (arith, (w.others j below t).0)
      | inr e ↦ rw e (omega arith, omega arith)
    ];
  }

  old_Wins :
      (n id : ℕ)
      → Wins n id
      → (qualifies n ≡ false) ⊎ (priority p n ≤ priority p id)
      → Wins (suc n) id
  old_Wins n id w h = record {
    below = omega (arith, w.below);
    own = w.own;
    others = λ j l t. elim (split_below j n l) [
      | inl below ↦ w.others j below t
      | inr e ↦ elim h [
        | inl none ↦ absurd (ground (arith, ap qualifies e))
        | inr le ↦ rw e (le, λ b. absurd (omega (arith, w.below)))
      ]
    ];
  }

  better-Best :
      (n prio id : ℕ) (any : Bool)
      → Best n (prio, id) any
      → Best (suc n) (better n (prio, id)) (if any then true else qualifies n)
  better-Best n prio id any (inl (z, zi, none, q)) = elim (Bool-cases (qualifies n)) [
    | inl hit ↦
        let above = positive n hit in
        let larger : ltb prio (priority p n) ≡ true = ground arith in
        rw (hit, larger, none, if◌then◌else◌) (inr (refl, refl, first_Wins n q hit))
    | inr miss ↦ rw (miss, none, if◌then◌else◌) (inl (z, zi, refl, Quiet-suc n q miss))
  ]
  better-Best n prio id any (inr (e, some_found, w)) = elim (Bool-cases (qualifies n)) [
    | inl hit ↦ elim (Bool-cases (ltb prio (priority p n))) [
      | inl more ↦
          rw (hit, more, some_found, if◌then◌else◌)
            (inr (refl, refl, new_Wins n id w hit (ground arith)))
      | inr less ↦
          rw (hit, less, some_found, if◌then◌else◌)
            (inr (e, refl, old_Wins n id w (inr (ground arith))))
    ]
    | inr miss ↦ rw (miss, some_found, if◌then◌else◌) (inr (e, refl, old_Wins n id w (inl miss)))
  ]

  pass-Best : (n : ℕ) → Best n (pass n 0 (0, 0)) (found n 0)
  unfolding pass found
  pass-Best zero = inl (refl, refl, refl, λ j h. elim h [ ])
  pass-Best (suc n) =
      let last : pass (suc n) 0 (0, 0) ≡ better n (pass n 0 (0, 0)) =
        ap (λ k. pass k 0 (0, 0)) {x = suc n} {y = n + 1} (omega arith)
        ∙ pass-add n 1 0 (0, 0)
        ∙ ap (λ i. better i (pass n 0 (0, 0))) {x = 0 + n} {y = n} (omega arith) in
      let last_found : found (suc n) 0 ≡ (if found n 0 then true else qualifies n) =
        ap (λ k. found k 0) {x = suc n} {y = n + 1} (omega arith)
        ∙ found-add n 1 0
        ∙ ap (λ i. if found n 0 then true else if qualifies i then true else false) {x = 0 + n}
            {y = n} (omega arith)
        ∙ ap (λ b. if found n 0 then true else b) (as_test (qualifies n)) in
      subst (λ b. Best (suc n) b (found (suc n) 0)) (sym last)
        (subst (Best (suc n) (better n (pass n 0 (0, 0)))) (sym last_found)
          (better-Best n (pass n 0 (0, 0)).0 (pass n 0 (0, 0)).1 (found n 0) (pass-Best n)))
    where
      as_test : (b : Bool) → (if b then true else false) ≡ b
      as_test true = refl
      as_test false = refl

  -- Interrupts beyond the bitmaps cannot be pending.
  abbrev pub sources : ℕ
  sources = num_words p ctx * 32

  -- `has_qualified_irq` and `calc_max_id` agree: either no interrupt is pending, enabled and above
  -- the threshold, and they answer `false` and 0; or the first answers `true` and the second names
  -- the interrupt of the highest priority among these, the one with the lowest number where
  -- priorities are equal.
  pub calc_max_id-Wins :
      ((has_qualified_irq p ctx ≡ false) × (calc_max_id p ctx ≡ 0) × Quiet sources)
      ⊎ ((has_qualified_irq p ctx ≡ true) × Wins sources (calc_max_id p ctx))
  unfolding has_qualified_irq calc_max_id
  calc_max_id-Wins =
      let words = num_words p ctx in
      let same = qualified_words-found words 0 in
      let id = ap (λ b. b.1) (max_words-pass words 0 (0, 0)) in
      elim (pass-Best sources) [
        | inl (z, zi, none, q) ↦ inl (same ∙ none, id ∙ zi, q)
        | inr (e, some_found, w) ↦ inr (same ∙ some_found, subst (Wins sources) (sym id) w)
      ]
