-- ===== src/Cache/Policies/Recency.antt =====
-- Which way the LRU policy replaces.
use rvsim.Base.{
  ℕ, ◌<◌, ◌≡◌, ◌≢◌, refl, sym, ap, ◌∙◌, Bool, true, false, ◌||◌, List, [], ◌∷◌, arith, length,
  length-set, get_or-set_self, if◌then◌else◌, ◌==◌, Bool-cases, inl, inr,
}
use rvsim.Cache.Policies.{Stacks, remove, stack_of, use_way, last_or, lru_victim}

abbrev pub mem : ℕ → List ℕ → Bool
mem u [] = false
mem u (x ∷ xs) = (x == u) || mem u xs

-- `w` comes before `u`.
abbrev before : ℕ → ℕ → List ℕ → Bool
before w u [] = false
before w u (x ∷ xs) = if x == w then mem u xs else if x == u then false else before w u xs

mem-remove : (u x : ℕ) (xs : List ℕ) → u ≢ x → mem u (remove x xs) ≡ mem u xs
mem-remove u x [] ne = refl
mem-remove u x (y ∷ ys) ne = ground (arith, mem-remove u x ys ne)

before-remove : (w u x : ℕ) (xs : List ℕ) → x ≢ w → x ≢ u → before w u (remove x xs) ≡ before w u xs
before-remove w u x [] nw nu = refl
before-remove w u x (y ∷ ys) nw nu =
    ground (arith, before-remove w u x ys nw nu, mem-remove u x ys (λ e. nu (sym e)))

mem-remove_twice :
    (w x : ℕ) (xs : List ℕ) → x ≢ w → mem w (remove w (remove x xs)) ≡ mem w (remove w xs)
mem-remove_twice w x [] ne = refl
mem-remove_twice w x (y ∷ ys) ne =
    ground (arith, mem-remove_twice w x ys ne, mem-remove w x ys (λ e. ne (sym e)))

last_or-mem : (w d : ℕ) (xs : List ℕ) → d ≢ w → mem w xs ≡ false → last_or d xs ≢ w
last_or-mem w d [] ne h = ne
last_or-mem w d (y ∷ ys) ne h = last_or-mem w y ys (ground arith) (ground arith)

last_or-before :
    (w u d : ℕ) (xs : List ℕ)
    → before w u xs ≡ true
    → mem w (remove w xs) ≡ false
    → last_or d xs ≢ w
last_or-before w u d [] b m = ground arith
last_or-before w u d (x ∷ xs) b m = elim (Bool-cases (x == w)) [
  | inl e ↦ behind xs (ground arith) (ground arith)
  | inr n ↦ last_or-before w u x xs (ground arith) (ground arith)
]
  where
    behind : (ys : List ℕ) → mem u ys ≡ true → mem w ys ≡ false → last_or x ys ≢ w
    behind [] p q = ground arith
    behind (y ∷ ys) p q = last_or-mem w y ys (ground arith) (ground arith)

-- Uses of one set, in order.
unfoldable pub use_all : Stacks → ℕ → List ℕ → Stacks
use_all p s [] = p
use_all p s (w ∷ ws) = use_all (use_way p s w) s ws

length-use_way : (p : Stacks) (s w : ℕ) → length (use_way p s w).usage ≡ length p.usage
unfolding use_way
length-use_way p s w = length-set p.usage s (w ∷ remove w (stack_of p s))

stack_of-use_way :
    (p : Stacks) (s w : ℕ)
    → s < length p.usage
    → stack_of (use_way p s w) s ≡ w ∷ remove w (stack_of p s)
unfolding use_way
stack_of-use_way p s w h = get_or-set_self p.usage s (w ∷ remove w (stack_of p s)) [] h

use_all-before :
    (p : Stacks) (s w u : ℕ) (ws : List ℕ)
    → s < length p.usage
    → before w u (stack_of p s) ≡ true
    → mem w (remove w (stack_of p s)) ≡ false
    → mem w ws ≡ false
    → mem u ws ≡ false
    → lru_victim (use_all p s ws) s ≢ w
unfolding use_all lru_victim
use_all-before p s w u [] h b m nw nu = last_or-before w u 0 (stack_of p s) b m
use_all-before p s w u (x ∷ ws) h b m nw nu =
    let st = stack_of p s in
    let next = stack_of-use_way p s x h in
    let xw : x ≢ w = ground arith in
    let xu : x ≢ u = ground arith in
    use_all-before (use_way p s x) s w u ws (omega (arith, length-use_way p s x))
      (ap (before w u) next ∙ ground (arith, before-remove w u x st xw xu))
      (ap (λ l. mem w (remove w l)) next ∙ ground (arith, mem-remove_twice w x st xw))
      (ground arith) (ground arith)

-- After a use of way `w`, the LRU policy does not choose `w` as the victim of the set while some
-- other way of the set has not been used since, whatever other ways were used; where `w` is in the
-- stack of the set at most once.
pub lru_victim-use_all :
    (p : Stacks) (s w u : ℕ) (ws : List ℕ)
    → s < length p.usage
    → u ≢ w
    → mem u (stack_of p s) ≡ true
    → mem w (remove w (stack_of p s)) ≡ false
    → mem w ws ≡ false
    → mem u ws ≡ false
    → lru_victim (use_all (use_way p s w) s ws) s ≢ w
lru_victim-use_all p s w u ws h ne present once nw nu =
    let st = stack_of p s in
    let next = stack_of-use_way p s w h in
    use_all-before (use_way p s w) s w u ws (omega (arith, length-use_way p s w))
      (ap (before w u) next ∙ ground (arith, mem-remove u w st ne))
      (ap (λ l. mem w (remove w l)) next ∙ ground arith) nw nu
