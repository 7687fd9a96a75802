-- ===== src/Ras/Calls.antt =====
-- The return address stack against a list of return addresses.
use rvsim.Base.{
  ℕ, zero, suc, ◌+◌, ◌-◌, ◌≤◌, ◌<◌, ◌≡◌, refl, sym, ap, ap₂, ◌∙◌, true, false, List, [], ◌∷◌,
  Option, none, some, arith, length, length-set, get_or, get_or-set_self, get_or-set_ne, set, ltb,
  if◌then◌else◌, ◌==◌, Bool-cases, inl, inr,
}
use rvsim.Ras.{Ras, push, pop, top}

pub record IsRas (r : Ras) : Type 0 where
  pub some_room : 0 < r.capacity
  pub sized : length r.stack ≡ r.capacity
  pub ptr_le : r.ptr ≤ r.capacity

-- The addresses, the newest first.
abbrev pub addresses : List ℕ → ℕ → List ℕ
addresses xs zero = []
addresses xs (suc n) = get_or xs n 0 ∷ addresses xs n

abbrev pub calls : Ras → List ℕ
calls r = addresses r.stack r.ptr

-- The rest of a list.
abbrev pub tail_of : List ℕ → List ℕ
tail_of [] = []
tail_of (x ∷ xs) = xs

abbrev pub head_of : List ℕ → Option ℕ
head_of [] = none
head_of (x ∷ xs) = some x

addresses-set : (xs : List ℕ) (i n v : ℕ) → n ≤ i → addresses (set xs i v) n ≡ addresses xs n
addresses-set xs i zero v h = refl
addresses-set xs i (suc n) v h =
    ap₂ (λ a l. a ∷ l) (get_or-set_ne xs i n v 0 (λ e. omega (arith, e)))
      (addresses-set xs i n v (omega arith))

addresses-written :
    (xs : List ℕ) (n v : ℕ) → n < length xs → addresses (set xs n v) (suc n) ≡ v ∷ addresses xs n
addresses-written xs n v h =
    ap₂ (λ a l. a ∷ l) (get_or-set_self xs n v 0 h) (addresses-set xs n n v (omega arith))

abbrev pub SameSize : Ras → Ras → Type 0
SameSize r r' = (r'.capacity ≡ r.capacity) × (length r'.stack ≡ length r.stack)

-- What a pop gives and leaves, and what a push leaves.
abbrev pub Pops : Ras → Option ℕ × Ras → Type 0
Pops r (o, r') =
    (o ≡ head_of (calls r))
    × (calls r' ≡ tail_of (calls r))
    × (top r ≡ head_of (calls r))
    × IsRas r'
    × SameSize r r'

pop-Pops : (r : Ras) (n : ℕ) → IsRas r → r.ptr ≡ n → Pops r (pop r)
unfolding pop top
pop-Pops r zero v e =
    let none_left : calls r ≡ [] = ap (addresses r.stack) e in
    let empty : (r.ptr == 0) ≡ true = ground arith in
    rw (empty, if◌then◌else◌, none_left) (refl, refl, refl, v, (refl, refl))
pop-Pops r (suc n) v e =
    let filled : (r.ptr == 0) ≡ false = ground arith in
    let newest : calls r ≡ get_or r.stack (r.ptr - 1) 0 ∷ addresses r.stack (r.ptr - 1) =
      ap (addresses r.stack) {x = r.ptr} {y = suc (r.ptr - 1)} (omega arith) in
    rw (filled, if◌then◌else◌)
      (
        sym (ap head_of newest),
        sym (ap tail_of newest),
        sym (ap head_of newest),
        record { some_room = v.some_room; sized = v.sized; ptr_le = omega (arith, v.ptr_le) },
        (refl, refl),
      )

abbrev pub Pushes : Ras → ℕ → Ras → Type 0
Pushes r addr r' =
    (calls r' ≡ addr ∷ (if ltb r.ptr r.capacity then calls r else tail_of (calls r)))
    × IsRas r'
    × SameSize r r'

push-Pushes : (r : Ras) (addr : ℕ) → IsRas r → Pushes r addr (push r addr)
unfolding push
push-Pushes r addr v = elim (Bool-cases (ltb r.ptr r.capacity)) [
  | inl room ↦
      let lt : r.ptr < r.capacity = ground arith in
      rw (room, if◌then◌else◌)
        (
          ap (addresses (set r.stack r.ptr addr)) {x = r.ptr + 1} {y = suc r.ptr} (omega arith)
              ∙ addresses-written r.stack r.ptr addr (omega (arith, lt, v.sized)),
          record {
            some_room = v.some_room;
            sized = length-set r.stack r.ptr addr ∙ v.sized;
            ptr_le = omega (arith, lt);
          },
          (refl, length-set r.stack r.ptr addr),
        )
  | inr full ↦
      let last = r.capacity - 1 in
      let at_end : r.ptr ≡ suc last = ground (arith, v.ptr_le, v.some_room) in
      rw (full, if◌then◌else◌)
        (
          ap (addresses (set r.stack last addr)) at_end
              ∙ addresses-written r.stack last addr (omega (arith, v.sized, v.some_room))
              ∙ ap (λ l. addr ∷ tail_of l) (sym (ap (addresses r.stack) at_end)),
          record {
            some_room = v.some_room;
            sized = length-set r.stack last addr ∙ v.sized;
            ptr_le = v.ptr_le;
          },
          (refl, length-set r.stack last addr),
        )
]

-- A push puts the address in front of the others, in a full stack in place of the newest one; a pop
-- takes the newest address off and returns it, or none from an empty stack; `top` returns it too.
-- Push and pop keep the capacity and the length of the storage, and the invariant.
pub push-pop : (r : Ras) (addr : ℕ) → IsRas r → Pushes r addr (push r addr) × Pops r (pop r)
push-pop r addr v = (push-Pushes r addr v, pop-Pops r r.ptr v refl)
