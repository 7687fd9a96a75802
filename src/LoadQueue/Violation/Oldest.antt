-- ===== src/LoadQueue/Violation/Oldest.antt =====
-- What the search for an ordering violation finds, in terms of ages and bytes.
use rvsim.Base.{
  ℕ, ◌+◌, ◌%◌, ◌^◌, ◌≤◌, ◌<◌, ◌≡◌, ◌≢◌, ◌⊎◌, refl, inl, inr, Bool, true, false, List, [], ◌∷◌,
  Option, none, some, All, arith, Bool-cases, ltb, ◌&&◌,
}
use rvsim.Signals.{MemWidth, width_to_bytes}
use rvsim.RobTag.{RobTag}
use rvsim.RobTag.Age.{IsTag, age, is_newer_than-age}
use rvsim.LoadQueue.{
  LoadQueue, LoadQueueEntry, LoadState, pending, translated, executed, is_executed, loads,
  overlaps_paddr, check_ordering_violation,
}
use rvsim.LoadQueue.Violation.{
  Has, NoneOlder, IsSelected, Young, bad, check_ordering_violation-IsSelected,
}

-- An access of some bytes that ends below 2 ^ 64.
abbrev pub Fits : ℕ → MemWidth → Type 0
Fits start w = (1 ≤ width_to_bytes w) × (start + width_to_bytes w < 2 ^ 64)

abbrev pub FitsLoad : Option ℕ → MemWidth → Type 0
FitsLoad none w = Unit
FitsLoad (some p) w = Fits p w

-- A byte of the load is a byte of the store.
abbrev pub ShareByte : Option ℕ → MemWidth → ℕ → MemWidth → Type 0
ShareByte none w store store_width = ⊥
ShareByte (some p) w store store_width =
    (b : ℕ) × (p ≤ b)
    × (b < p + width_to_bytes w)
    × (store ≤ b)
    × (b < store + width_to_bytes store_width)

true_not_false : (b : Bool) → b ≡ true → b ≢ false
true_not_false b h m = cc

abbrev Common : (p n store m : ℕ) → Type 0
Common p n store m = (b : ℕ) × (p ≤ b) × (b < p + n) × (store ≤ b) × (b < store + m)

-- The comparisons of the ends, for `n` and `m` bytes.
compared : (p n store m : ℕ) → Bool
compared p n store m = ltb p ((store + m) % 2 ^ 64) && ltb store ((p + n) % 2 ^ 64)

compared-Common :
    (p n store m : ℕ)
    → 1 ≤ n
    → 1 ≤ m
    → p + n < 2 ^ 64
    → store + m < 2 ^ 64
    → compared p n store m ≡ true
    → Common p n store m
unfolding compared
compared-Common p n store m f g f' g' h = elim (Bool-cases (ltb p store)) [
  | inl before ↦ (store, ground (arith, before), ground (arith, h), ground arith, ground (arith, h))
  | inr behind ↦ (p, ground arith, ground (arith, h), ground (arith, behind), ground (arith, h))
]

Common-compared :
    (p n store m : ℕ)
    → p + n < 2 ^ 64
    → store + m < 2 ^ 64
    → Common p n store m
    → compared p n store m ≡ true
unfolding compared
Common-compared p n store m f g (b, lo, hi, lo', hi') = ground (arith)

share :
    (p : Option ℕ) (w : MemWidth) (store : ℕ) (sw : MemWidth)
    → FitsLoad p w
    → Fits store sw
    → overlaps_paddr p w store sw ≡ true
    → ShareByte p w store sw
unfolding compared
share none w store sw f g h = absurd (cc)
share (some p) w store sw (f, f') (g, g') h =
    compared-Common p (width_to_bytes w) store (width_to_bytes sw) f g f' g' h

shared :
    (p : Option ℕ) (w : MemWidth) (store : ℕ) (sw : MemWidth)
    → FitsLoad p w
    → Fits store sw
    → ShareByte p w store sw
    → overlaps_paddr p w store sw ≡ true
unfolding compared
shared none w store sw f g h = absurd h
shared (some p) w store sw (f, f') (g, g') h =
    Common-compared p (width_to_bytes w) store (width_to_bytes sw) f' g' h

executed_state : (s : LoadState) → is_executed s ≡ true → s ≡ executed
executed_state pending h = absurd (cc)
executed_state translated h = absurd (cc)
executed_state executed h = refl

all_of :
    (a b c d : Bool) → a && b && c && d ≡ true → (a ≡ true) × (b ≡ true) × (c ≡ true) × (d ≡ true)
all_of a b c d h = (ground arith, ground arith, ground arith, ground arith)

module _ (store : ℕ) (w : MemWidth) (t next : RobTag) where
  -- The load got its value although the store, which is older, writes one of its bytes.
  abbrev pub Overran : LoadQueueEntry → Type 0
  Overran e =
      (e.valid ≡ true)
      × (age next e.rob_tag < age next t)
      × (e.state ≡ executed)
      × ShareByte e.paddr e.width store w

  abbrev pub IsUsed : LoadQueueEntry → Type 0
  IsUsed e = Young next e.rob_tag × FitsLoad e.paddr e.width

  abbrev pub HasOverran : RobTag → List LoadQueueEntry → Type 0
  HasOverran v [] = ⊥
  HasOverran v (e ∷ es) = (Overran e × (e.rob_tag ≡ v)) ⊎ HasOverran v es

  -- The answer for a list of loads: no violation, or the oldest one.
  abbrev pub IsAnswer : List LoadQueueEntry → Option RobTag → Type 0
  IsAnswer es none = All (λ e. ¬ Overran e) es
  IsAnswer es (some v) = HasOverran v es × All (λ e. Overran e → age next e.rob_tag ≤ age next v) es

  module _ (hn : IsTag next) (ht : Young next t) (fits : Fits store w) where
    bad-Overran : (e : LoadQueueEntry) → IsUsed e → bad store w t e ≡ true → Overran e
    bad-Overran e ((tag, young), fit) h =
        let (live, newer, done, over) = all_of _ _ _ _ h in
        (
          live,
          (is_newer_than-age next e.rob_tag t hn tag ht.0 young ht.1).0 newer,
          executed_state e.state done,
          share e.paddr e.width store w fit fits over,
        )

    Overran-bad : (e : LoadQueueEntry) → IsUsed e → Overran e → bad store w t e ≡ true
    Overran-bad e ((tag, young), fit) (live, later, done, over) =
        rw
          (
            live,
            (is_newer_than-age next e.rob_tag t hn tag ht.0 young ht.1).1 later,
            done,
            shared e.paddr e.width store w fit fits over,
          )
          refl

    Has-HasOverran :
        (v : RobTag) (es : List LoadQueueEntry)
        → All IsUsed es
        → Has (bad store w t) v es
        → HasOverran v es
    Has-HasOverran v [] us h = h
    Has-HasOverran v (e ∷ es) (u, us) (inl (found, tag)) = inl (bad-Overran e u found, tag)
    Has-HasOverran v (e ∷ es) (u, us) (inr h) = inr (Has-HasOverran v es us h)

    oldest :
        (v : RobTag) (es : List LoadQueueEntry)
        → All IsUsed es
        → NoneOlder (bad store w t) next v es
        → All (λ e. Overran e → age next e.rob_tag ≤ age next v) es
    oldest v [] us h = tt
    oldest v (e ∷ es) (u, us) (h, hs) = ((λ o. h (Overran-bad e u o)), oldest v es us hs)

    none_overran :
        (es : List LoadQueueEntry)
        → All IsUsed es
        → All (λ e. bad store w t e ≡ false) es
        → All (λ e. ¬ Overran e) es
    none_overran [] us h = tt
    none_overran (e ∷ es) (u, us) (h, hs) =
        ((λ o. absurd (true_not_false _ (Overran-bad e u o) h)), none_overran es us hs)

    answered :
        (es : List LoadQueueEntry) (o : Option RobTag)
        → All IsUsed es
        → IsSelected (bad store w t) next es o
        → IsAnswer es o
    answered es none us h = none_overran es us h
    answered es (some v) us (has, first) = (Has-HasOverran v es us has, oldest v es us first)

    youngs : (es : List LoadQueueEntry) → All IsUsed es → All (λ e. Young next e.rob_tag) es
    youngs [] us = tt
    youngs (e ∷ es) (u, us) = (u.0, youngs es us)

    -- A load overran the store when it is live, younger than the store by age, executed, and has a
    -- byte in common with the store. `check_ordering_violation` returns none where no load of the
    -- queue overran the store; otherwise it returns the tag of a load that did, and none that did is
    -- older. The tags are in use with an age below 2 ^ 31, and the store and the translated loads
    -- have at least one byte and end below 2 ^ 64.
    pub check_ordering_violation-IsAnswer :
        (lq : LoadQueue)
        → All IsUsed (loads lq)
        → IsAnswer (loads lq) (check_ordering_violation lq store w t)
    check_ordering_violation-IsAnswer lq us =
        answered (loads lq) (check_ordering_violation lq store w t) us
          (check_ordering_violation-IsSelected store w t next hn lq (youngs (loads lq) us))
