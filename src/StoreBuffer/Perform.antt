-- ===== src/StoreBuffer/Perform.antt =====
-- The stores of a list performed on memory in program order, and the same from the newest back.
use mathlib.Core.List.{reverse-append}
use rvsim.Base.{
  ℕ, ◌+◌, ◌^◌, ◌<◌, ◌≡◌, ◌⊎◌, inl, inr, refl, sym, ap, ◌∙◌, subst, true, List, [], ◌∷◌, ◌++◌,
  reverse, some, All, All-append, if◌then◌else◌,
}
use rvsim.Signals.{MemWidth, width_to_bytes}
use rvsim.RobTag.{RobTag}
use rvsim.StoreBuffer.{StoreBufferEntry, pending, ready, committed, cancelled, older_store, paddr}
use rvsim.StoreBuffer.Bytes.{Memory, write_bytes}

-- A store as it reaches memory: one without an address has no effect yet, a cancelled one never.
abbrev pub perform_one : StoreBufferEntry → Memory → Memory
perform_one e m = elim e.resolution [
  | pending ↦ m
  | ready a d ↦ write_bytes a (width_to_bytes e.width) d m
  | committed a d ↦ write_bytes a (width_to_bytes e.width) d m
  | cancelled ↦ m
]

abbrev pub perform_if_older : RobTag → StoreBufferEntry → Memory → Memory
perform_if_older t e m = if older_store t e then perform_one e m else m

-- The stores older than a tag, performed from the oldest on.
abbrev pub perform : RobTag → List StoreBufferEntry → Memory → Memory
perform t [] m = m
perform t (e ∷ es) m = perform t es (perform_if_older t e m)

-- The address range of a store lies within 64 bits.
abbrev pub InRange : StoreBufferEntry → Type 0
InRange e = elim e.resolution [
  | pending ↦ Unit {0}
  | ready a d ↦ a + 8 < 2 ^ 64
  | committed a d ↦ a + 8 < 2 ^ 64
  | cancelled ↦ Unit {0}
]

-- An older store shares bytes with the load, and does not hold all bytes of the load.
abbrev pub Partial : ℕ → MemWidth → RobTag → StoreBufferEntry → Type 0
Partial load w t e =
    (older_store t e ≡ true)
    × ((a : ℕ) × (paddr e.resolution ≡ some a)
        × (load < a + width_to_bytes e.width)
        × (a < load + width_to_bytes w)
        × ((load < a) ⊎ (a + width_to_bytes e.width < load + width_to_bytes w)))

abbrev pub Any : (StoreBufferEntry → Type 0) → List StoreBufferEntry → Type 0
Any P [] = ⊥
Any P (e ∷ es) = P e ⊎ Any P es

-- The stores are listed from the newest on.
abbrev pub perform_back : RobTag → List StoreBufferEntry → Memory → Memory
perform_back t [] m = m
perform_back t (e ∷ es) m = perform_if_older t e (perform_back t es m)

perform_back-snoc :
    (t : RobTag) (es : List StoreBufferEntry) (e : StoreBufferEntry) (m : Memory)
    → perform_back t (es ++ e ∷ []) m ≡ perform_back t es (perform_if_older t e m)
perform_back-snoc t [] e m = refl
perform_back-snoc t (f ∷ es) e m = ap (perform_if_older t f) (perform_back-snoc t es e m)

reverse_cons :
    (e : StoreBufferEntry) (es : List StoreBufferEntry) → reverse (e ∷ es) ≡ reverse es ++ e ∷ []
reverse_cons e es = reverse-append (e ∷ []) es

pub perform_back-reverse :
    (t : RobTag) (es : List StoreBufferEntry) (m : Memory)
    → perform_back t (reverse es) m ≡ perform t es m
perform_back-reverse t [] m = refl
perform_back-reverse t (e ∷ es) m =
    ap (λ l. perform_back t l m) (reverse_cons e es)
    ∙ perform_back-snoc t (reverse es) e m
    ∙ perform_back-reverse t es (perform_if_older t e m)

pub All-reverse :
    (P : StoreBufferEntry → Type 0) (es : List StoreBufferEntry) → All P es → All P (reverse es)
All-reverse P [] h = tt
All-reverse P (e ∷ es) h =
    subst (All P) (sym (reverse_cons e es))
      (All-append P (reverse es) (e ∷ []) (All-reverse P es h.1) (h.0, tt))

Any-append :
    (P : StoreBufferEntry → Type 0) (xs ys : List StoreBufferEntry)
    → Any P (xs ++ ys)
    → Any P xs ⊎ Any P ys
Any-append P [] ys h = inr h
Any-append P (x ∷ xs) ys (inl p) = inl (inl p)
Any-append P (x ∷ xs) ys (inr h) = elim (Any-append P xs ys h) [
  | inl a ↦ inl (inr a)
  | inr b ↦ inr b
]

pub Any-reverse :
    (P : StoreBufferEntry → Type 0) (es : List StoreBufferEntry) → Any P (reverse es) → Any P es
Any-reverse P [] h = h
Any-reverse P (e ∷ es) h =
    elim (Any-append P (reverse es) (e ∷ []) (subst (Any P) (reverse_cons e es) h)) [
      | inl before ↦ inr (Any-reverse P es before)
      | inr (inl here) ↦ inl here
      | inr (inr none_left) ↦ absurd none_left
    ]
