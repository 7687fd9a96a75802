-- ===== src/Cache/Policies/Laws.antt =====
-- Every policy chooses its victims among the ways.
use native.Mathlib.Nat.{mod-lt}
use rvsim.Base.{
  ℕ, zero, suc, ◌+◌, ◌%◌, ◌≤◌, ◌<◌, ◌≡◌, List, [], ◌∷◌, All, arith, get_or, set, if◌then◌else◌,
  ◌==◌, Bool-cases, inl, inr,
}
use rvsim.Cache.Policy.{Lawful}
use rvsim.Cache.Policies.{
  Stacks, remove, stack_of, use_way, last_or, first_or, lru_victim, mru_victim, lru, mru,
  FifoPolicy, fifo_update, fifo_victim, fifo, PlruPolicy, plru_update, plru_loop, plru_victim, plru,
  RandomPolicy, scramble, random_victim, random,
}

module _ (sets ways : ℕ) (some_way : 0 < ways) where
  abbrev pub Below : List ℕ → Type 0
  Below ws = All (λ w. w < ways) ws

  -- The stacks hold ways, and the numbers are ways.
  abbrev pub StackState : Stacks → Type 0
  StackState p = (s : ℕ) → Below (stack_of p s)

  abbrev pub FifoState : FifoPolicy → Type 0
  FifoState p = (p.ways ≡ ways) × ((s : ℕ) → get_or p.next_way s 0 < ways)

  abbrev pub PlruState : PlruPolicy → Type 0
  PlruState p = p.ways ≡ ways

  abbrev pub RandomState : RandomPolicy → Type 0
  RandomState p = p.ways ≡ ways

  remove-Below : (way : ℕ) (ws : List ℕ) → Below ws → Below (remove way ws)
  remove-Below way [] h = tt
  remove-Below way (w ∷ ws) (lt, h) = elim (Bool-cases (w == way)) [
    | inl e ↦ rw (e, if◌then◌else◌) h
    | inr n ↦ rw (n, if◌then◌else◌) (lt, remove-Below way ws h)
  ]

  set-Below :
      (xs : List (List ℕ)) (s : ℕ) (ws : List ℕ)
      → ((j : ℕ) → Below (get_or xs j []))
      → Below ws
      → (j : ℕ) → Below (get_or (set xs s ws) j [])
  set-Below [] s ws h b j = tt
  set-Below (x ∷ xs) zero ws h b zero = b
  set-Below (x ∷ xs) zero ws h b (suc j) = h (suc j)
  set-Below (x ∷ xs) (suc s) ws h b zero = h zero
  set-Below (x ∷ xs) (suc s) ws h b (suc j) = set-Below xs s ws (λ k. h (suc k)) b j

  use_way-StackState : (p : Stacks) (s w : ℕ) → w < ways → StackState p → StackState (use_way p s w)
  unfolding use_way
  use_way-StackState p s w lt h =
      set-Below p.usage s (w ∷ remove w (stack_of p s)) h (lt, remove-Below w (stack_of p s) (h s))

  last_or-lt : (d : ℕ) (ws : List ℕ) → d < ways → Below ws → last_or d ws < ways
  last_or-lt d [] h b = h
  last_or-lt d (w ∷ ws) h (lt, b) = last_or-lt w ws lt b

  first_or-lt : (ws : List ℕ) → Below ws → first_or 0 ws < ways
  first_or-lt [] b = some_way
  first_or-lt (w ∷ ws) (lt, b) = lt

  set-lt :
      (xs : List ℕ) (s v : ℕ)
      → ((j : ℕ) → get_or xs j 0 < ways)
      → v < ways
      → (j : ℕ) → get_or (set xs s v) j 0 < ways
  set-lt [] s v h lt j = some_way
  set-lt (x ∷ xs) zero v h lt zero = lt
  set-lt (x ∷ xs) zero v h lt (suc j) = h (suc j)
  set-lt (x ∷ xs) (suc s) v h lt zero = h zero
  set-lt (x ∷ xs) (suc s) v h lt (suc j) = set-lt xs s v (λ k. h (suc k)) lt j

  fifo_update-FifoState : (p : FifoPolicy) (s w : ℕ) → FifoState p → FifoState (fifo_update p s w)
  unfolding fifo_update
  fifo_update-FifoState p s w (size, h) = elim (Bool-cases (get_or p.next_way s 0 == w)) [
    | inr n ↦ rw (n, if◌then◌else◌) (size, h)
    | inl e ↦
        let next = (get_or p.next_way s 0 + 1) % p.ways in
        let lt : next < ways = rw size (mod-lt (get_or p.next_way s 0 + 1) some_way) in
        rw (e, if◌then◌else◌) (size, set-lt p.next_way s next h lt)
  ]

  plru_loop-lt : (used n i : ℕ) → i + n ≤ ways → plru_loop used n i < ways
  unfolding plru_loop
  plru_loop-lt used zero i h = some_way
  plru_loop-lt used (suc n) i h = ground (arith, plru_loop-lt used n (i + 1) (omega arith))

  -- Each of the five policies keeps its states, and chooses a way below the number of ways.
  pub policies-Lawful :
      Lawful lru sets ways StackState
      × Lawful mru sets ways StackState
      × Lawful fifo sets ways FifoState
      × Lawful plru sets ways PlruState
      × Lawful random sets ways RandomState
  unfolding lru_victim mru_victim fifo_victim plru_update plru_victim random_victim
  policies-Lawful = (
    record {
      update_state = λ p s w ls lw h. use_way-StackState p s w lw h;
      victim_state = λ p s ls h. h;
      victim_lt = λ p s ls h. last_or-lt 0 (stack_of p s) some_way (h s);
    },
    record {
      update_state = λ p s w ls lw h. use_way-StackState p s w lw h;
      victim_state = λ p s ls h. h;
      victim_lt = λ p s ls h. first_or-lt (stack_of p s) (h s);
    },
    record {
      update_state = λ p s w ls lw h. fifo_update-FifoState p s w h;
      victim_state = λ p s ls h. h;
      victim_lt = λ p s ls h. h.1 s;
    },
    record {
      update_state = λ p s w ls lw h. h;
      victim_state = λ p s ls h. h;
      victim_lt = λ p s ls h. plru_loop-lt (get_or p.usage s 0) p.ways 0 (omega (arith, h));
    },
    record {
      update_state = λ p s w ls lw h. h;
      victim_state = λ p s ls h. h;
      victim_lt =
          λ p s ls h. let size : p.ways ≡ ways = h in rw size (mod-lt (scramble p.state) some_way);
    },
  )
