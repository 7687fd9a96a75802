-- ===== src/RenameMap/Held.antt =====
-- How often a physical register occurs in a rename map, and how a changed mapping changes that.
use rvsim.Base.{
  ℕ, zero, suc, ◌+◌, ◌≤◌, ◌<◌, ◌≡◌, ◌≢◌, ◌⊎◌, refl, sym, ap, ap₂, ◌∙◌, inl, inr, Bool, true, false,
  List, [], ◌∷◌, arith, length, length-set, get_or, set, get_or-set_self, get_or-set_ne, ltb,
  if◌then◌else◌, ◌==◌, ==_iff, Bool-cases,
}
use rvsim.Types.{RegIdx}
use rvsim.FreeList.{range}
use rvsim.FreeList.Counts.{same, occurs, occurs-range}
use rvsim.RenameMap
use rvsim.RenameMap.{RenameMap, get, set_mapping, is_x0}

occurs-set :
    (p : ℕ) (xs : List ℕ) (i v : ℕ)
    → i < length xs
    → occurs p (set xs i v) + same p (get_or xs i 0) ≡ occurs p xs + same p v
occurs-set p [] i v h = absurd (omega arith)
occurs-set p (x ∷ xs) zero v h = omega arith
occurs-set p (x ∷ xs) (suc i) v h = omega (arith, occurs-set p xs i v (omega arith))

-- The architectural registers of a map that have a physical one.
abbrev pub held : ℕ → RenameMap → ℕ
held p m = occurs p m.gpr + occurs p m.fpr

-- A map with 32 registers in each file, of which only x0 has the physical register 0.
pub record IsMap (m : RenameMap) : Type 0 where
  pub gprs : length m.gpr ≡ 32
  pub fprs : length m.fpr ≡ 32
  pub named :
      (reg : RegIdx) (is_fp : Bool) → reg < 32 → is_x0 reg is_fp ≡ false → get m reg is_fp ≢ 0

pub held-set_mapping :
    (p : ℕ) (m : RenameMap) (reg : RegIdx) (is_fp : Bool) (q : ℕ)
    → IsMap m
    → reg < 32
    → is_x0 reg is_fp ≡ false
    → held p (set_mapping m reg is_fp q) + same p (get m reg is_fp) ≡ held p m + same p q
unfolding get set_mapping
held-set_mapping p m reg true q v h x =
    omega (arith, occurs-set p m.fpr reg q (omega (arith, v.fprs)))
held-set_mapping p m reg false q v h x =
    rw (x, if◌then◌else◌) (omega (arith, occurs-set p m.gpr reg q (omega (arith, v.gprs))))

get_or-set :
    (xs : List ℕ) (i v j : ℕ)
    → i < length xs
    → (get_or (set xs i v) j 0 ≡ v) ⊎ (get_or (set xs i v) j 0 ≡ get_or xs j 0)
get_or-set xs i v j h = elim (Bool-cases (i == j)) [
  | inl here ↦
      inl
        (ap (λ k. get_or (set xs i v) k 0) (sym ((==_iff i j).0 here)) ∙ get_or-set_self xs i v 0 h)
  | inr apart ↦ inr (get_or-set_ne xs i j v 0 (ground arith))
]

get-set_mapping :
    (m : RenameMap) (reg : RegIdx) (is_fp : Bool) (q : ℕ) (reg' : RegIdx) (is_fp' : Bool)
    → IsMap m
    → reg < 32
    → is_x0 reg' is_fp' ≡ false
    → (get (set_mapping m reg is_fp q) reg' is_fp' ≡ q)
      ⊎ (get (set_mapping m reg is_fp q) reg' is_fp' ≡ get m reg' is_fp')
unfolding get set_mapping
get-set_mapping m reg true q reg' true v h x = get_or-set m.fpr reg q reg' (omega (arith, v.fprs))
get-set_mapping m reg true q reg' false v h x = inr refl
get-set_mapping m reg false q reg' true v h x = elim (Bool-cases (is_x0 reg false)) [
  | inl zero_reg ↦ rw (zero_reg, if◌then◌else◌) (inr refl)
  | inr other ↦ rw (other, if◌then◌else◌) (inr refl)
]
get-set_mapping m reg false q reg' false v h x = elim (Bool-cases (is_x0 reg false)) [
  | inl zero_reg ↦ rw (zero_reg, if◌then◌else◌) (inr refl)
  | inr other ↦ rw (other, x, if◌then◌else◌) (get_or-set m.gpr reg q reg' (omega (arith, v.gprs)))
]

sizes-set_mapping :
    (m : RenameMap) (reg : RegIdx) (is_fp : Bool) (q : ℕ)
    → (length (set_mapping m reg is_fp q).gpr ≡ length m.gpr)
      × (length (set_mapping m reg is_fp q).fpr ≡ length m.fpr)
unfolding set_mapping
sizes-set_mapping m reg true q = (refl, length-set m.fpr reg q)
sizes-set_mapping m reg false q = elim (Bool-cases (is_x0 reg false)) [
  | inl zero_reg ↦ rw (zero_reg, if◌then◌else◌) (refl, refl)
  | inr other ↦ rw (other, if◌then◌else◌) (length-set m.gpr reg q, refl)
]

pub set_mapping-IsMap :
    (m : RenameMap) (reg : RegIdx) (is_fp : Bool) (q : ℕ)
    → IsMap m
    → reg < 32
    → q ≢ 0
    → IsMap (set_mapping m reg is_fp q)
set_mapping-IsMap m reg is_fp q v h pos =
    let sizes = sizes-set_mapping m reg is_fp q in
    record {
      gprs = sizes.0 ∙ v.gprs;
      fprs = sizes.1 ∙ v.fprs;
      named = λ reg' is_fp' h' x none_held. elim (get-set_mapping m reg is_fp q reg' is_fp' v h x) [
        | inl new_one ↦ pos (sym new_one ∙ none_held)
        | inr old_one ↦ v.named reg' is_fp' h' x (sym old_one ∙ none_held)
      ];
    }

-- The identity map of a new engine.
pub held-new : (p : ℕ) → 1 ≤ p → held p RenameMap.new ≡ (if ltb p 64 then 1 else 0)
unfolding RenameMap.new
held-new p h = ap₂ ◌+◌ (occurs-range p 0 32) (occurs-range p 32 32) ∙ ground arith

get_or-range : (i n k : ℕ) → k < n → get_or (range i n) k 0 ≡ i + k
get_or-range i zero k h = absurd (omega arith)
get_or-range i (suc n) zero h = omega arith
get_or-range i (suc n) (suc k) h = omega (arith, get_or-range (i + 1) n k (omega arith))

new-named :
    (reg : RegIdx) (is_fp : Bool)
    → reg < 32
    → is_x0 reg is_fp ≡ false
    → get RenameMap.new reg is_fp ≢ 0
unfolding RenameMap.new get
new-named reg true lt x e = omega (arith, sym (get_or-range 32 32 reg lt) ∙ e)
new-named reg false lt x e =
    let here : get_or (range 0 32) reg 0 ≡ 0 = sym (rw (x, if◌then◌else◌) refl) ∙ e in
    let zero_reg : reg ≡ 0 = omega (arith, sym (get_or-range 0 32 reg lt) ∙ here) in ground arith

pub new-IsMap : IsMap RenameMap.new
unfolding RenameMap.new
new-IsMap = record { gprs = refl; fprs = refl; named = new-named }
