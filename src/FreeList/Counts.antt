-- ===== src/FreeList/Counts.antt =====
-- How often a register is on the free list, and how the operations change that.
use rvsim.Base.{
  ℕ, zero, suc, ◌+◌, ◌-◌, ◌≤◌, ◌≡◌, ◌⊎◌, refl, inl, inr, List, [], ◌∷◌, ◌++◌, none, some, arith,
  length, length-append, if◌then◌else◌, ◌==◌, ltb, leb, ◌&&◌,
}
use rvsim.FreeList.{FreeList, range, pop_front, new, allocate, reclaim, available}

-- 1 where the registers are the same.
abbrev pub same : ℕ → ℕ → ℕ
same p q = if p == q then 1 else 0

abbrev pub occurs : ℕ → List ℕ → ℕ
occurs p [] = 0
occurs p (q ∷ qs) = same p q + occurs p qs

pub occurs-append : (p : ℕ) (xs ys : List ℕ) → occurs p (xs ++ ys) ≡ occurs p xs + occurs p ys
occurs-append p [] ys = omega arith
occurs-append p (x ∷ xs) ys = omega (arith, occurs-append p xs ys)

-- What a reclaimed register adds to the free list: nothing for 0.
pub occurs-reclaim :
    (p : ℕ) (f : FreeList) (x : ℕ)
    → 1 ≤ p
    → occurs p (reclaim f x).queue ≡ occurs p f.queue + same p x
unfolding reclaim
occurs-reclaim p f x h = ground (arith, occurs-append p f.queue (x ∷ []))

pub zero-reclaim : (f : FreeList) (x : ℕ) → occurs 0 (reclaim f x).queue ≡ occurs 0 f.queue
unfolding reclaim
zero-reclaim f x = ground (arith, occurs-append 0 f.queue (x ∷ []))

pub reclaim-zero : (f : FreeList) (x : ℕ) → x ≡ 0 → reclaim f x ≡ f
unfolding reclaim
reclaim-zero f x h = ground arith

pub available-reclaim :
    (f : FreeList) (x : ℕ) → available (reclaim f x) ≡ available f + (if x == 0 then 0 else 1)
unfolding reclaim available
available-reclaim f x = ground (arith, length-append f.queue (x ∷ []))

pub capacity-reclaim : (f : FreeList) (x : ℕ) → (reclaim f x).capacity ≡ f.capacity
unfolding reclaim
capacity-reclaim f x = ground arith

-- The two answers of `allocate`.
pub allocate-cases :
    (f : FreeList)
    → (((allocate f).0 ≡ none) × (available f ≡ 0))
      ⊎ ((p : ℕ) × ((allocate f).0 ≡ some p)
          × ((q : ℕ) → occurs q f.queue ≡ same q p + occurs q (allocate f).1.queue)
          × (available f ≡ suc (available (allocate f).1))
          × ((allocate f).1.capacity ≡ f.capacity))
unfolding allocate available
allocate-cases f = go f.queue f.capacity
  where
    go :
        (ps : List ℕ) (c : ℕ)
        → (((pop_front ps c).0 ≡ none) × (length ps ≡ 0))
          ⊎ ((p : ℕ) × ((pop_front ps c).0 ≡ some p)
              × ((q : ℕ) → occurs q ps ≡ same q p + occurs q (pop_front ps c).1.queue)
              × (length ps ≡ suc (length (pop_front ps c).1.queue))
              × ((pop_front ps c).1.capacity ≡ c))
    go [] c = inl (refl, refl)
    go (p ∷ ps) c = inr (p, refl, λ q. refl, refl, refl)

pub occurs-range : (p i n : ℕ) → occurs p (range i n) ≡ (if leb i p && ltb p (i + n) then 1 else 0)
occurs-range p i zero = ground arith
occurs-range p i (suc n) = ground (arith, occurs-range p (i + 1) n)

pub length-range : (i n : ℕ) → length (range i n) ≡ n
length-range i zero = refl
length-range i (suc n) = omega (arith, length-range (i + 1) n)

pub new-counts :
    (size arch : ℕ)
    → arch ≤ size
    → ((p : ℕ) → occurs p (new size arch).queue ≡ (if leb arch p && ltb p size then 1 else 0))
      × (available (new size arch) ≡ size - arch)
      × ((new size arch).capacity ≡ size)
unfolding new available
new-counts size arch h =
    (λ p. ground (arith, occurs-range p arch (size - arch)), length-range arch (size - arch), refl)
