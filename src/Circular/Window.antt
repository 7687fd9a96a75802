-- ===== src/Circular/Window.antt =====
-- How the visited part of a circular buffer changes under writes, and that the two directions of a
-- visit see the same entries.
use mathlib.Core.List.{reverse-append}
use native.Mathlib.Nat.{mod-add-mod, mod-eq_of_lt, mod-eq-sub-mod, add-zero}
use native.Mathlib.Decide.{dec_lt}
use rvsim.Base.{
  ℕ, zero, suc, ◌+◌, ◌-◌, ◌%◌, ◌≤◌, ◌<◌, ◌≡◌, refl, sym, ap, ap₂, ◌≢◌, ◌⊎◌, inl, inr, ◌∙◌, List, [],
  ◌∷◌, ◌++◌, reverse, arith, length, get_or, set, get_or-set_self, get_or-set_ne,
}
use rvsim.Circular.{slot, scan, back, scan_back}

pub slot-lt : (cap h k : ℕ) → 0 < cap → slot cap h k < cap
slot-lt cap h k p = omega arith

pub slot-zero : (cap h : ℕ) → h < cap → slot cap h 0 ≡ h
slot-zero cap h p = rw (add-zero, mod-eq_of_lt p)

pub slot-slot : (cap h j k : ℕ) → slot cap (slot cap h j) k ≡ slot cap h (j + k)
slot-slot cap h j k = rw mod-add-mod (ap (λ t. t % cap) (omega arith))

slot_wrap : (cap s : ℕ) → cap ≤ s → s < cap + cap → s % cap ≡ s - cap
slot_wrap cap s p q =
    mod-eq-sub-mod {n = s} {m = cap} p ∙ mod-eq_of_lt {n = s - cap} {m = cap} (omega arith)

-- Two places less than one round apart have different indices.
pub slot-injective :
    (cap h j k : ℕ) → h < cap → j < cap → k < cap → slot cap h j ≡ slot cap h k → j ≡ k
slot-injective cap h j k ph pj pk e = elim (dec_lt (h + j) cap) [
  | yes a ↦ elim (dec_lt (h + k) cap) [
    | yes b ↦ omega (arith, mod-eq_of_lt a, mod-eq_of_lt b)
    | no b ↦ omega (arith, mod-eq_of_lt a, slot_wrap cap (h + k) (omega arith) (omega arith))
  ]
  | no a ↦ elim (dec_lt (h + k) cap) [
    | yes b ↦ omega (arith, mod-eq_of_lt b, slot_wrap cap (h + j) (omega arith) (omega arith))
    | no b ↦ omega (
      arith,
      slot_wrap cap (h + j) (omega arith) (omega arith),
      slot_wrap cap (h + k) (omega arith) (omega arith),
    )
  ]
]

pub slot_full : (cap h : ℕ) → h < cap → slot cap h cap ≡ h
slot_full cap h p = slot_wrap cap (h + cap) (omega arith) (omega arith) ∙ omega arith

-- Two places up to one full round apart, the ends of the round not taken together.
pub slot-ne :
    (cap h j k : ℕ) → h < cap → j < k → k ≤ cap → (0 < j) ⊎ (k < cap) → slot cap h j ≢ slot cap h k
slot-ne cap h j k ph jk kc apart e = elim (dec_lt k cap) [
  | yes b ↦ omega (arith, slot-injective cap h j k ph (omega arith) b e)
  | no b ↦
      let full : k ≡ cap = omega arith in
      let home : slot cap h j ≡ slot cap h 0 =
        e ∙ ap (slot cap h) full ∙ slot_full cap h ph ∙ sym (slot-zero cap h ph) in
      omega (arith, slot-injective cap h j 0 ph (omega arith) (omega arith) home)
]

-- Going back undoes a step.
pub back-slot : (cap h k : ℕ) → h < cap → k < cap → back cap (slot cap h (suc k)) ≡ slot cap h k
back-slot cap h k ph pk = elim (dec_lt (h + suc k) cap) [
  | yes a ↦ ground (arith, mod-eq_of_lt a, mod-eq_of_lt {n = h + k} {m = cap})
  | no a ↦ elim (dec_lt (h + k) cap) [
    | yes b ↦ ground (arith, slot_wrap cap (h + suc k), mod-eq_of_lt b)
    | no b ↦ ground (arith, slot_wrap cap (h + suc k), slot_wrap cap (h + k))
  ]
]

pub length-scan {ℓ} :
    {A : Type ℓ} (d : A) (xs : List A) (cap i n : ℕ) → length (scan d xs cap i n) ≡ n
length-scan d xs cap i zero = refl
length-scan d xs cap i (suc n) = ap suc (length-scan d xs cap ((i + 1) % cap) n)

-- The entries from place `a` on, for a fixed oldest index `h`.
module _ {ℓ} {A : Type ℓ} (d : A) (cap h : ℕ) where
  abbrev pub at : List A → ℕ → A
  at xs k = get_or xs (slot cap h k) d

  abbrev pub part : List A → ℕ → ℕ → List A
  part xs a n = scan d xs cap (slot cap h a) n

  pub part-suc : (xs : List A) (a n : ℕ) → part xs a (suc n) ≡ at xs a ∷ part xs (a + 1) n
  part-suc xs a n = ap (λ i. at xs a ∷ scan d xs cap i n) (slot-slot cap h a 1)

  pub part_ext :
      (xs ys : List A) (a n : ℕ)
      → ((k : ℕ) → a ≤ k → k < a + n → at xs k ≡ at ys k)
      → part xs a n ≡ part ys a n
  part_ext xs ys a zero same = refl
  part_ext xs ys a (suc n) same =
      part-suc xs a n
      ∙ ap₂ ◌∷◌ (same a (omega arith) (omega arith))
          (part_ext xs ys (a + 1) n (λ k p q. same k (omega arith) (omega arith)))
      ∙ sym (part-suc ys a n)

  pub get_or-part : (xs : List A) (a n k : ℕ) → k < n → get_or (part xs a n) k d ≡ at xs (a + k)
  get_or-part xs a zero k hk = elim hk [ ]
  get_or-part xs a (suc n) zero hk = ap (at xs) {x = a} {y = a + 0} (omega arith)
  get_or-part xs a (suc n) (suc k) hk =
      ap (λ l. get_or l (suc k) d) (part-suc xs a n)
      ∙ get_or-part xs (a + 1) n k (omega arith)
      ∙ ap (at xs) {x = a + 1 + k} {y = a + suc k} (omega arith)

  part_cong : (xs : List A) (a b m n : ℕ) → a ≡ b → m ≡ n → part xs a m ≡ part xs b n
  part_cong xs a b m n p q = ap₂ (part xs) p q

  pub part-append : (xs : List A) (a m n : ℕ) → part xs a (m + n) ≡ part xs a m ++ part xs (a + m) n
  part-append xs a zero n = part_cong xs a (a + 0) (0 + n) n (omega arith) (omega arith)
  part-append xs a (suc m) n =
      part_cong xs a a (suc m + n) (suc (m + n)) refl (omega arith)
      ∙ part-suc xs a (m + n)
      ∙ ap (◌∷◌ (at xs a)) (part-append xs (a + 1) m n)
      ∙ ap₂ ◌++◌ (sym (part-suc xs a m))
          (part_cong xs (a + 1 + m) (a + suc m) n n (omega arith) refl)

  -- The newest entry stands last.
  pub part_snoc : (xs : List A) (n : ℕ) → part xs 0 (suc n) ≡ part xs 0 n ++ at xs n ∷ []
  part_snoc xs n =
      part_cong xs 0 0 (suc n) (n + 1) refl (omega arith)
      ∙ part-append xs 0 n 1
      ∙ ap (λ k. part xs 0 n ++ at xs k ∷ []) {x = 0 + n} {y = n} (omega arith)

  -- A write at a place outside the visit does not change it.
  pub part-set_out :
      (xs : List A) (a n p : ℕ) (v : A)
      → h < cap
      → a + n ≤ cap
      → p < cap
      → (p < a) ⊎ (a + n ≤ p)
      → part (set xs (slot cap h p) v) a n ≡ part xs a n
  part-set_out xs a n p v hh hn hp out = part_ext (set xs (slot cap h p) v) xs a n λ k lo hi.
      get_or-set_ne xs (slot cap h p) (slot cap h k) v d
        λ e. let same : p ≡ k = slot-injective cap h p k hh hp (omega arith) e in omega arith

  pub part-set_in :
      (xs : List A) (a n k i : ℕ) (v : A)
      → h < cap
      → cap ≤ length xs
      → a + n ≤ cap
      → k < n
      → i ≡ slot cap h (a + k)
      → part (set xs i v) a n ≡ set (part xs a n) k v
  part-set_in xs a zero k i v hh hl hn hk e = elim hk [ ]
  part-set_in xs a (suc n) zero i v hh hl hn hk e =
      let e' : i ≡ slot cap h a = e ∙ ap (slot cap h) {y = a} (omega arith) in
      part-suc (set xs i v) a n
      ∙ ap₂ ◌∷◌
          (ap (λ t. get_or (set xs i v) t d) (sym e')
            ∙ get_or-set_self xs i v d (omega (arith, slot-lt cap h a (omega arith))))
          (ap (λ t. part (set xs t v) (a + 1) n) e'
            ∙ part-set_out xs (a + 1) n a v hh (omega arith) (omega arith) (inl (omega arith)))
      ∙ sym (ap (λ l. set l 0 v) (part-suc xs a n))
  part-set_in xs a (suc n) (suc k) i v hh hl hn hk e =
      part-suc (set xs i v) a n
      ∙ ap₂ ◌∷◌
          (get_or-set_ne xs i (slot cap h a) v d λ e'.
            let same : a + suc k ≡ a =
              slot-injective cap h (a + suc k) a hh (omega arith) (omega arith) (sym e ∙ e') in
            omega arith)
          (part-set_in xs (a + 1) n k i v hh hl (omega arith) (omega arith)
            (e ∙ ap (slot cap h) {y = a + 1 + k} (omega arith)))
      ∙ sym (ap (λ l. set l (suc k) v) (part-suc xs a n))

  scan_back-slot :
      (xs : List A) (n : ℕ)
      → h < cap
      → n < cap
      → scan_back d xs cap (slot cap h n) (suc n) ≡ reverse (part xs 0 (suc n))
  scan_back-slot xs zero hh hn = refl
  scan_back-slot xs (suc n) hh hn = rw (back-slot cap h n hh (omega arith)) (
      ap (◌∷◌ (at xs (suc n))) (scan_back-slot xs n hh (omega arith))
      ∙ sym (reverse-append (part xs 0 (suc n)) (at xs (suc n) ∷ []))
      ∙ ap reverse (sym (part_snoc xs (suc n))))

-- The visit from the oldest entry, and the visit back from the newest.
module _ {ℓ} {A : Type ℓ} (d : A) (cap h : ℕ) (h-lt : h < cap) where
  pub scan-part : (xs : List A) (n : ℕ) → scan d xs cap h n ≡ part d cap h xs 0 n
  scan-part xs n = ap (λ i. scan d xs cap i n) (sym (slot-zero cap h h-lt))

  -- A write at the place behind the newest entry does not show.
  pub scan-set_out :
      (xs : List A) (n p : ℕ) (v : A)
      → n ≤ p
      → p < cap
      → scan d (set xs (slot cap h p) v) cap h n ≡ scan d xs cap h n
  scan-set_out xs n p v hn hp =
      scan-part (set xs (slot cap h p) v) n
      ∙ part-set_out d cap h xs 0 n p v h-lt (omega arith) hp (inr (omega arith))
      ∙ sym (scan-part xs n)

  -- A write at the oldest place does not show once the oldest entry is dropped.
  pub scan_pop :
      (xs : List A) (n : ℕ) (v : A)
      → suc n ≤ cap
      → scan d xs cap h (suc n) ≡ get_or xs h d ∷ scan d (set xs h v) cap ((h + 1) % cap) n
  scan_pop xs n v hn = ap (◌∷◌ (get_or xs h d)) (
      sym (part-set_out d cap h xs 1 n 0 v h-lt (omega arith) (omega arith) (inl (omega arith)))
      ∙ ap (λ i. scan d (set xs i v) cap ((h + 1) % cap) n) (slot-zero cap h h-lt))

  -- Writing there and counting one more appends.
  pub scan_push :
      (xs : List A) (n : ℕ) (v : A)
      → n < cap
      → cap ≤ length xs
      → scan d (set xs (slot cap h n) v) cap h (suc n) ≡ scan d xs cap h n ++ v ∷ []
  scan_push xs n v hn hl =
      scan-part (set xs (slot cap h n) v) (suc n)
      ∙ part_snoc d cap h (set xs (slot cap h n) v) n
      ∙ ap₂ (λ l a. l ++ a ∷ [])
          (sym (scan-part (set xs (slot cap h n) v) n) ∙ scan-set_out xs n n v (omega arith) hn)
          (get_or-set_self xs (slot cap h n) v d (omega (arith, slot-lt cap h n (omega arith))))

  pub get_or-scan :
      (xs : List A) (n k : ℕ) → k < n → get_or (scan d xs cap h n) k d ≡ get_or xs (slot cap h k) d
  get_or-scan xs n k hk =
      ap (λ l. get_or l k d) (scan-part xs n)
      ∙ get_or-part d cap h xs 0 n k hk
      ∙ ap (λ j. get_or xs (slot cap h j) d) {x = 0 + k} {y = k} (omega arith)

  pub scan-set_in :
      (xs : List A) (n k : ℕ) (v : A)
      → cap ≤ length xs
      → n ≤ cap
      → k < n
      → scan d (set xs (slot cap h k) v) cap h n ≡ set (scan d xs cap h n) k v
  scan-set_in xs n k v hl hn hk =
      scan-part (set xs (slot cap h k) v) n
      ∙ part-set_in d cap h xs 0 n k (slot cap h k) v h-lt hl (omega arith) hk
          (ap (slot cap h) {y = 0 + k} (omega arith))
      ∙ ap (λ l. set l k v) (sym (scan-part xs n))

  pub scan-append :
      (xs : List A) (m n : ℕ)
      → scan d xs cap h (m + n) ≡ scan d xs cap h m ++ scan d xs cap (slot cap h m) n
  scan-append xs m n =
      scan-part xs (m + n)
      ∙ part-append d cap h xs 0 m n
      ∙ ap₂ ◌++◌ (sym (scan-part xs m))
          (ap (λ k. scan d xs cap (slot cap h k) n) {x = 0 + m} {y = m} (omega arith))

  -- The loops that start at `if tail == 0 { len - 1 } else { tail - 1 }` see the newest first.
  pub scan_back-eq-reverse :
      (xs : List A) (n : ℕ)
      → n ≤ cap
      → scan_back d xs cap (back cap (slot cap h n)) n ≡ reverse (scan d xs cap h n)
  scan_back-eq-reverse xs zero hn = refl
  scan_back-eq-reverse xs (suc n) hn =
      rw (back-slot cap h n h-lt hn)
        (scan_back-slot d cap h xs n h-lt hn ∙ ap reverse (sym (scan-part xs (suc n))))
