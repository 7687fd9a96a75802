-- ===== src/PhysRegFile.antt =====
-- crates/hardware/src/core/pipeline/prf.rs: the values of the physical registers and whether they
-- are there yet. Register 0 is hardwired to 0.
pub mod Access
use rvsim.Base.{
  ℕ, zero, suc, ◌<◌, Bool, true, false, List, [], ◌∷◌, length, get_or, set, replicate, min, ltb,
  if◌then◌else◌, ◌==◌,
}

pub record PhysRegFile : Type 0 where
  pub values : List ℕ
  pub ready : List Bool

pub new : ℕ → PhysRegFile
new total = record {
  values = replicate total 0;
  ready = if ltb 0 total then set (replicate total false) 0 true else replicate total false;
}

pub write : PhysRegFile → ℕ → ℕ → PhysRegFile
write f p val =
    if p == 0
    then f
    else if ltb p (length f.values)
    then record { values = set f.values p val; ready = set f.ready p true }
    else f

pub read : PhysRegFile → ℕ → ℕ
read f p = if ltb p (length f.values) then get_or f.values p 0 else 0

pub is_ready : PhysRegFile → ℕ → Bool
is_ready f p = if ltb p (length f.ready) then get_or f.ready p false else false

-- The first `n` registers become ready.
pub set_ready : ℕ → List Bool → List Bool
set_ready zero bs = bs
set_ready (suc n) [] = []
set_ready (suc n) (b ∷ bs) = true ∷ set_ready n bs

pub mark_arch_ready : PhysRegFile → ℕ → PhysRegFile
mark_arch_ready f num_arch = record f { ready = set_ready (min num_arch (length f.ready)) f.ready }

pub allocate : PhysRegFile → ℕ → PhysRegFile
allocate f p =
    if p == 0
    then f
    else if ltb p (length f.ready)
    then record f { ready = set f.ready p false }
    else f
