-- ===== src/Cache/Policy.antt =====
-- The trait `ReplacementPolicy` of crates/hardware/src/core/units/cache/policies/mod.rs, and what a
-- cache relies on: the victim is one of its ways.
use rvsim.Base.{ℕ, ◌<◌}

pub record ReplacementPolicy (P : Type 0) : Type 0 where
  pub update : P → ℕ → ℕ → P
  pub get_victim : P → ℕ → ℕ × P

-- States that name only ways below `ways`, for sets below `sets`.
pub record Lawful {P : Type 0} (policy : ReplacementPolicy P) (sets ways : ℕ) (IsState : P → Type 0)
    : Type 0 where
  pub update_state :
      (p : P) (s w : ℕ) → s < sets → w < ways → IsState p → IsState (policy.update p s w)
  pub victim_state : (p : P) (s : ℕ) → s < sets → IsState p → IsState (policy.get_victim p s).1
  pub victim_lt : (p : P) (s : ℕ) → s < sets → IsState p → (policy.get_victim p s).0 < ways
