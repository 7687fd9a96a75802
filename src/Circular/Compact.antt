-- ===== src/Circular/Compact.antt =====
-- A partial flush closes the gaps between the entries that it keeps, in place.
use rvsim.Base.{
  ℕ, zero, suc, ◌+◌, ◌≤◌, ◌<◌, ◌≡◌, ◌≢◌, inl, inr, refl, sym, ap, ap₂, ◌∙◌, subst, Bool, true,
  false, List, [], ◌∷◌, ◌++◌, arith, length, length-append, length-set, get_or, set,
  get_or-set_self, filter, if◌then◌else◌, ◌==◌, ==_iff, Bool-cases,
}
use rvsim.Circular.{slot, scan, compact_loop}
use rvsim.Circular.Window.{
  at, part, part-suc, part_snoc, part-set_out, slot-slot, slot-lt, slot-zero, length-scan,
  scan-part,
}

append_assoc {ℓ} : {A : Type ℓ} (xs ys zs : List A) → (xs ++ ys) ++ zs ≡ xs ++ (ys ++ zs)
append_assoc [] ys zs = refl
append_assoc (x ∷ xs) ys zs = ap (◌∷◌ x) (append_assoc xs ys zs)

append_nil {ℓ} : {A : Type ℓ} (xs : List A) → xs ≡ xs ++ []
append_nil [] = refl
append_nil (x ∷ xs) = ap (◌∷◌ x) (append_nil xs)

module _ {ℓ} {A : Type ℓ} (d : A) (kept : A → Bool) (invalidated : A → A) (cap h : ℕ)
    (hh : h < cap) where
  -- What the loop leaves: the entries that it keeps, from index `h` on.
  abbrev pub Leaves : List A → List A × ℕ × ℕ → Type ℓ
  Leaves front (xs, tail, count) =
      (length xs ≡ cap)
      × (count ≡ length front)
      × (tail ≡ slot cap h (length front))
      × (part d cap h xs 0 (length front) ≡ front)

  -- An entry moves forward to place `k`.
  abbrev move : ℕ → ℕ → List A → List A
  move k j xs =
      let e = at d cap h xs j in
      if slot cap h j == slot cap h k
      then xs
      else set (set xs (slot cap h k) e) (slot cap h j) (invalidated e)

  move-length : (k j : ℕ) (xs : List A) → length (move k j xs) ≡ length xs
  move-length k j xs = elim (Bool-cases (slot cap h j == slot cap h k)) [
    | inl same ↦ rw (same, if◌then◌else◌)
    | inr apart ↦
        let e = at d cap h xs j in
        rw (apart, if◌then◌else◌)
          (length-set (set xs (slot cap h k) e) (slot cap h j) (invalidated e)
            ∙ length-set xs (slot cap h k) e)
  ]

  move-behind :
      (k j n : ℕ) (xs : List A)
      → k ≤ j
      → j + suc n ≤ cap
      → part d cap h (move k j xs) (j + 1) n ≡ part d cap h xs (j + 1) n
  move-behind k j n xs hk hn = elim (Bool-cases (slot cap h j == slot cap h k)) [
    | inl same ↦ rw (same, if◌then◌else◌)
    | inr apart ↦
        let e = at d cap h xs j in
        rw (apart, if◌then◌else◌)
          (part-set_out d cap h (set xs (slot cap h k) e) (j + 1) n j (invalidated e) hh
              (omega arith) (omega arith) (inl (omega arith))
            ∙ part-set_out d cap h xs (j + 1) n k e hh (omega arith) (omega arith)
                (inl (omega arith)))
  ]

  move-front :
      (k j : ℕ) (xs : List A)
      → k ≤ j
      → j < cap
      → length xs ≡ cap
      → part d cap h (move k j xs) 0 (k + 1) ≡ part d cap h xs 0 k ++ at d cap h xs j ∷ []
  move-front k j xs hk hj hl = elim (Bool-cases (slot cap h j == slot cap h k)) [
    | inl same ↦
        let here : slot cap h j ≡ slot cap h k = (==_iff _ _).0 same in
        rw (same, if◌then◌else◌)
          (ap (part d cap h xs 0) {x = k + 1} {y = suc k} (omega arith)
            ∙ part_snoc d cap h xs k
            ∙ ap (λ i. part d cap h xs 0 k ++ get_or xs i d ∷ []) (sym here))
    | inr apart ↦
        let e = at d cap h xs j in
        let ys = set xs (slot cap h k) e in
        let differ : k ≢ j = λ same. ground (arith, ap (slot cap h) same) in
        rw (apart, if◌then◌else◌)
          (part-set_out d cap h ys 0 (k + 1) j (invalidated e) hh (omega arith) hj
              (inr (omega (arith, differ)))
            ∙ ap (part d cap h ys 0) {x = k + 1} {y = suc k} (omega arith)
            ∙ part_snoc d cap h ys k
            ∙ ap₂ (λ l x. l ++ x ∷ [])
                (part-set_out d cap h xs 0 k k e hh (omega arith) (omega arith) (inr (omega arith)))
                (get_or-set_self xs (slot cap h k) e d (omega (arith, slot-lt cap h k))))
  ]

  step_kept :
      (n k j : ℕ) (xs : List A)
      → kept (at d cap h xs j) ≡ true
      → compact_loop d kept invalidated cap (suc n) (slot cap h k) k (slot cap h j) xs
        ≡ compact_loop d kept invalidated cap n
            (slot cap h (k + 1))
            (k + 1)
            (slot cap h (j + 1))
            (move k j xs)
  unfolding compact_loop
  step_kept n k j xs stays =
      rw (stays, if◌then◌else◌)
        (ap₂ (λ a b. compact_loop d kept invalidated cap n a (k + 1) b (move k j xs))
          (slot-slot cap h k 1) (slot-slot cap h j 1))

  abbrev dropped : ℕ → List A → List A
  dropped j xs = set xs (slot cap h j) (invalidated (at d cap h xs j))

  step_dropped :
      (n k j : ℕ) (xs : List A)
      → kept (at d cap h xs j) ≡ false
      → compact_loop d kept invalidated cap (suc n) (slot cap h k) k (slot cap h j) xs
        ≡ compact_loop d kept invalidated cap n (slot cap h k) k (slot cap h (j + 1)) (dropped j xs)
  unfolding compact_loop
  step_dropped n k j xs goes =
      rw (goes, if◌then◌else◌)
        (ap (λ b. compact_loop d kept invalidated cap n (slot cap h k) k b (dropped j xs))
          (slot-slot cap h j 1))

  filter_kept : (e : A) (es : List A) → kept e ≡ true → filter kept (e ∷ es) ≡ e ∷ filter kept es
  filter_kept e es stays = rw stays

  filter_dropped : (e : A) (es : List A) → kept e ≡ false → filter kept (e ∷ es) ≡ filter kept es
  filter_dropped e es goes = rw goes

  pub compact_loop-Leaves :
      (n k j : ℕ) (xs : List A)
      → length xs ≡ cap
      → k ≤ j
      → j + n ≤ cap
      → Leaves
          (part d cap h xs 0 k ++ filter kept (part d cap h xs j n))
          (compact_loop d kept invalidated cap n (slot cap h k) k (slot cap h j) xs)
  unfolding compact_loop
  compact_loop-Leaves zero k j xs hl hk hn =
      let front = part d cap h xs 0 k in
      let size : length (front ++ []) ≡ k =
        omega (arith, length-append front [], length-scan d xs cap (slot cap h 0) k) in
      rw size (hl, refl, refl, append_nil front)
  compact_loop-Leaves (suc n) k j xs hl hk hn =
      let e = at d cap h xs j in
      let front = part d cap h xs 0 k in
      let rest = part d cap h xs (j + 1) n in
      elim (Bool-cases (kept e)) [
        | inl stays ↦
            subst
              (λ l.
                Leaves l
                  (compact_loop d kept invalidated cap (suc n) (slot cap h k) k (slot cap h j) xs))
              (ap₂ (λ a b. a ++ filter kept b) (move-front k j xs hk (omega arith) hl)
                  (move-behind k j n xs hk (omega arith))
                ∙ append_assoc front (e ∷ []) (filter kept rest)
                ∙ ap (λ l. front ++ l)
                    (sym (ap (filter kept) (part-suc d cap h xs j n) ∙ filter_kept e rest stays)))
              (subst (Leaves _) (sym (step_kept n k j xs stays)) (
                compact_loop-Leaves n (k + 1) (j + 1) (move k j xs) (move-length k j xs ∙ hl)
                  (omega arith) (omega arith)))
        | inr goes ↦
            subst
              (λ l.
                Leaves l
                  (compact_loop d kept invalidated cap (suc n) (slot cap h k) k (slot cap h j) xs))
              (ap₂ (λ a b. a ++ filter kept b)
                  (part-set_out d cap h xs 0 k j (invalidated e) hh (omega arith) (omega arith)
                    (inr (omega arith)))
                  (part-set_out d cap h xs (j + 1) n j (invalidated e) hh (omega arith)
                    (omega arith) (inl (omega arith)))
                ∙ ap (λ l. front ++ l)
                    (sym (ap (filter kept) (part-suc d cap h xs j n) ∙ filter_dropped e rest goes)))
              (subst (Leaves _) (sym (step_dropped n k j xs goes)) (
                compact_loop-Leaves n k (j + 1) (dropped j xs)
                  (length-set xs (slot cap h j) (invalidated e) ∙ hl) (omega arith) (omega arith)))
      ]

  -- The whole loop, over the `n` entries from the oldest on.
  pub compacted :
      (n : ℕ) (xs : List A)
      → length xs ≡ cap
      → n ≤ cap
      → Leaves (filter kept (scan d xs cap h n)) (compact_loop d kept invalidated cap n h 0 h xs)
  compacted n xs hl hn =
      subst (λ l. Leaves (filter kept l) (compact_loop d kept invalidated cap n h 0 h xs))
        (sym (scan-part d cap h hh xs n))
        (subst
          (λ i.
            Leaves (filter kept (part d cap h xs 0 n))
              (compact_loop d kept invalidated cap n i 0 i xs))
          (slot-zero cap h hh) (compact_loop-Leaves n 0 0 xs hl (omega arith) (omega arith)))

  -- What is seen of it afterwards.
  pub Leaves-scan :
      (front : List A) (r : List A × ℕ × ℕ) → Leaves front r → scan d r.0 cap h r.2 ≡ front
  Leaves-scan front r l = ap (scan d r.0 cap h) l.1 ∙ scan-part d cap h hh r.0 (length front) ∙ l.3

pub length-filter {ℓ} :
    {A : Type ℓ} (keep : A → Bool) (es : List A) → length (filter keep es) ≤ length es
length-filter keep [] = omega arith
length-filter keep (e ∷ es) = ground (arith, length-filter keep es)
