-- ===== src/PhysRegFile/Access.antt =====
-- What the register file answers after a write, an allocation or the initial marking.
use rvsim.Base.{
  ℕ, zero, suc, ◌≤◌, ◌<◌, ◌≡◌, refl, sym, ap, ◌∙◌, subst, inl, inr, Bool, true, false, List, [],
  ◌∷◌, arith, length, length-set, get_or, set, get_or-set_self, get_or-set_ne, length-replicate,
  get_or-replicate, replicate, min, ltb, if◌then◌else◌, ◌==◌, ==_iff, Bool-cases,
}
use rvsim.PhysRegFile.{
  PhysRegFile, new, write, read, is_ready, set_ready, mark_arch_ready, allocate,
}

-- As many ready bits as values, and register 0 there with value 0.
pub record IsRegFile (f : PhysRegFile) : Type 0 where
  pub sizes : length f.ready ≡ length f.values
  pub some_register : 0 < length f.values
  pub zero_value : read f 0 ≡ 0
  pub zero_ready : is_ready f 0 ≡ true

get_or-set {ℓ} :
    {A : Type ℓ} (xs : List A) (i j : ℕ) (v d : A)
    → i < length xs
    → get_or (set xs i v) j d ≡ (if j == i then v else get_or xs j d)
get_or-set xs i j v d h = elim (Bool-cases (j == i)) [
  | inl here ↦
      rw (here, if◌then◌else◌)
        (ap (λ k. get_or (set xs i v) k d) ((==_iff j i).0 here) ∙ get_or-set_self xs i v d h)
  | inr apart ↦ rw (apart, if◌then◌else◌) (get_or-set_ne xs i j v d (ground arith))
]

abbrev written : PhysRegFile → ℕ → ℕ → PhysRegFile
written f p val = record { values = set f.values p val; ready = set f.ready p true }

abbrev pending : PhysRegFile → ℕ → PhysRegFile
pending f p = record f { ready = set f.ready p false }

write_zero : (f : PhysRegFile) (p val : ℕ) → (p == 0) ≡ true → write f p val ≡ f
unfolding write
write_zero f p val z = rw z

write_in :
    (f : PhysRegFile) (p val : ℕ)
    → (p == 0) ≡ false
    → p < length f.values
    → write f p val ≡ written f p val
unfolding write
write_in f p val pos h = rw (pos, if◌then◌else◌) (ground arith)

allocate_zero : (f : PhysRegFile) (p : ℕ) → (p == 0) ≡ true → allocate f p ≡ f
unfolding allocate
allocate_zero f p z = rw z

allocate_in :
    (f : PhysRegFile) (p : ℕ) → (p == 0) ≡ false → p < length f.ready → allocate f p ≡ pending f p
unfolding allocate
allocate_in f p pos h = rw (pos, if◌then◌else◌) (ground arith)

read_in : (f : PhysRegFile) (q : ℕ) → q < length f.values → read f q ≡ get_or f.values q 0
unfolding read
read_in f q h = ground arith

is_ready_in : (f : PhysRegFile) (q : ℕ) → q < length f.ready → is_ready f q ≡ get_or f.ready q false
unfolding is_ready
is_ready_in f q h = ground arith

-- What a file answers after register `p` got the value `val`, or after it got none: the value, the
-- ready bit, and the two for register 0.
abbrev pub Answers : PhysRegFile → ℕ → (ℕ → ℕ) → Bool → PhysRegFile → Type 0
Answers f p change there f' =
    ((q : ℕ)
      → q < length f.values
      → read f' q ≡ (if p == 0 then read f q else if q == p then change (read f q) else read f q))
    × ((q : ℕ)
        → q < length f.values
        → is_ready f' q ≡ (if p == 0 then is_ready f q else if q == p then there else is_ready f q))
    × IsRegFile f'

unchanged :
    (f : PhysRegFile) (p : ℕ) (change : ℕ → ℕ) (there : Bool)
    → IsRegFile f
    → (p == 0) ≡ true
    → Answers f p change there f
unchanged f p change there v z =
    (λ q h. rw (z, if◌then◌else◌) refl, λ q h. rw (z, if◌then◌else◌) refl, v)

-- A write to a register other than 0 makes it ready with the value and changes no other; a write to
-- register 0 changes nothing; and the file stays well-formed.
pub write-Answers :
    (f : PhysRegFile) (p val : ℕ)
    → IsRegFile f
    → p < length f.values
    → Answers f p (λ old. val) true (write f p val)
write-Answers f p val v h = elim (Bool-cases (p == 0)) [
  | inl z ↦
      subst (Answers f p (λ old. val) true) (sym (write_zero f p val z))
        (unchanged f p (λ old. val) true v z)
  | inr pos ↦
      let len = length-set f.values p val in
      let len' = length-set f.ready p true in
      let value : (q : ℕ)
          → q < length f.values
          → read (written f p val) q ≡ (if q == p then val else read f q) =
        λ q lt.
          read_in (written f p val) q (omega arith)
          ∙ get_or-set f.values p q val 0 h
          ∙ ap (λ x. if q == p then val else x) (sym (read_in f q lt)) in
      let bit : (q : ℕ)
          → q < length f.values
          → is_ready (written f p val) q ≡ (if q == p then true else is_ready f q) =
        λ q lt.
          is_ready_in (written f p val) q (omega (arith, v.sizes))
          ∙ get_or-set f.ready p q true false (omega (arith, v.sizes))
          ∙ ap (λ x. if q == p then true else x) (sym (is_ready_in f q (omega (arith, v.sizes)))) in
      subst (Answers f p (λ old. val) true) (sym (write_in f p val pos h)) (
        λ q lt. rw (pos, if◌then◌else◌) (value q lt),
        λ q lt. rw (pos, if◌then◌else◌) (bit q lt),
        record {
          sizes = omega (arith, v.sizes);
          some_register = omega (arith, v.some_register);
          zero_value = ground (arith, value 0 v.some_register, v.zero_value, pos);
          zero_ready = ground (arith, bit 0 v.some_register, v.zero_ready, pos);
        },
      )
]

-- An allocation of a register other than 0 makes it not ready and changes no value and no other ready
-- bit; one of register 0 changes nothing; and the file stays well-formed.
pub allocate-Answers :
    (f : PhysRegFile) (p : ℕ)
    → IsRegFile f
    → p < length f.values
    → Answers f p (λ old. old) false (allocate f p)
allocate-Answers f p v h = elim (Bool-cases (p == 0)) [
  | inl z ↦
      subst (Answers f p (λ old. old) false) (sym (allocate_zero f p z))
        (unchanged f p (λ old. old) false v z)
  | inr pos ↦
      let len' = length-set f.ready p false in
      let value : (q : ℕ) → q < length f.values → read (pending f p) q ≡ read f q =
        λ q lt. read_in (pending f p) q lt ∙ sym (read_in f q lt) in
      let bit : (q : ℕ)
          → q < length f.values
          → is_ready (pending f p) q ≡ (if q == p then false else is_ready f q) =
        λ q lt.
          is_ready_in (pending f p) q (omega (arith, v.sizes))
          ∙ get_or-set f.ready p q false false (omega (arith, v.sizes))
          ∙ ap (λ x. if q == p then false else x)
              (sym (is_ready_in f q (omega (arith, v.sizes)))) in
      subst (Answers f p (λ old. old) false) (sym (allocate_in f p pos (omega (arith, v.sizes)))) (
        λ q lt. rw (pos, if◌then◌else◌) (ground (arith, value q lt)),
        λ q lt. rw (pos, if◌then◌else◌) (bit q lt),
        record {
          sizes = omega (arith, v.sizes);
          some_register = v.some_register;
          zero_value = value 0 v.some_register ∙ v.zero_value;
          zero_ready = ground (arith, bit 0 v.some_register, v.zero_ready, pos);
        },
      )
]

set_ready-get_or :
    (n : ℕ) (bs : List Bool) (q : ℕ)
    → q < length bs
    → get_or (set_ready n bs) q false ≡ (if ltb q n then true else get_or bs q false)
unfolding set_ready
set_ready-get_or zero bs q h = ground arith
set_ready-get_or (suc n) [] q h = absurd (omega arith)
set_ready-get_or (suc n) (b ∷ bs) zero h = ground arith
set_ready-get_or (suc n) (b ∷ bs) (suc q) h = ground (arith, set_ready-get_or n bs q)

length-set_ready : (n : ℕ) (bs : List Bool) → length (set_ready n bs) ≡ length bs
unfolding set_ready
length-set_ready zero bs = refl
length-set_ready (suc n) [] = refl
length-set_ready (suc n) (b ∷ bs) = ap suc (length-set_ready n bs)

ready-new : (total : ℕ) → 0 < total → (new total).ready ≡ set (replicate total false) 0 true
unfolding new
ready-new total h = ground arith

values-new : (total : ℕ) → length (new total).values ≡ total
unfolding new
values-new total = length-replicate total 0

zero-new : (total q : ℕ) → get_or (new total).values q 0 ≡ 0
unfolding new
zero-new total q = get_or-replicate total q 0

ready-new-get_or :
    (total q : ℕ) → 0 < total → get_or (new total).ready q false ≡ (if q == 0 then true else false)
ready-new-get_or total q h =
    ap (λ l. get_or l q false) (ready-new total h)
    ∙ get_or-set (replicate total false) 0 q true false
        (omega (arith, length-replicate total false))
    ∙ ap (λ x. if q == 0 then true else x) (get_or-replicate total q false)

-- At the start of an engine with `total` physical registers, of which the first `n` are architectural,
-- exactly these are ready, every value is 0, and the file is well-formed.
pub new-IsRegFile :
    (total n : ℕ)
    → 1 ≤ n
    → n ≤ total
    → let f = mark_arch_ready (new total) n in
      IsRegFile f
      × ((q : ℕ) → q < total → is_ready f q ≡ ltb q n)
      × ((q : ℕ) → q < total → read f q ≡ 0)
unfolding mark_arch_ready
new-IsRegFile total n lo hi =
    let f = new total in
    let g = mark_arch_ready f n in
    let len : length f.ready ≡ total =
      ap length (ready-new total (omega arith))
      ∙ length-set (replicate total false) 0 true
      ∙ length-replicate total false in
    let vals : length f.values ≡ total = values-new total in
    let len' : length g.ready ≡ total = length-set_ready (min n (length f.ready)) f.ready ∙ len in
    let bit : (q : ℕ) → q < total → is_ready g q ≡ ltb q n = λ q h.
      is_ready_in g q (omega arith)
      ∙ set_ready-get_or (min n (length f.ready)) f.ready q (omega arith)
      ∙ ground (arith, ready-new-get_or total q (omega arith), len) in
    let value : (q : ℕ) → q < total → read g q ≡ 0 =
      λ q h. read_in g q (omega arith) ∙ zero-new total q in
    (
      record {
        sizes = len' ∙ sym vals;
        some_register = omega arith;
        zero_value = value 0 (omega arith);
        zero_ready = bit 0 (omega arith) ∙ ground arith;
      },
      bit,
      value,
    )
