-- ===== src/StoreBuffer/Lookup.antt =====
-- The search of the store buffer for a tag, and what it means for the queue of stores.
use mathlib.Core.Option
use rvsim.Base.{
  ℕ, zero, suc, ◌+◌, ◌%◌, ◌<◌, ◌≡◌, inl, inr, refl, sym, ap, ◌∙◌, subst, true, ◌&&◌, List, [], ◌∷◌,
  Option, none, some, arith, length, get_or, set, All, if◌then◌else◌, ◌==◌, Option-cases,
}
use rvsim.Circular.{slot}
use rvsim.Circular.Window.{
  part, part-suc, scan-part, get_or-scan, length-scan, slot-slot, slot-zero,
}
use rvsim.RobTag.{RobTag}
use rvsim.StoreBuffer.{
  StoreBuffer, StoreBufferEntry, sb_capacity, stores, store_at, default_store, find_by_tag, paddr,
}
use rvsim.StoreBuffer.Inv.{IsSound, IsOccupied}

-- The place of the oldest store with a tag.
abbrev pub place : RobTag → List StoreBufferEntry → Option ℕ
place t [] = none
place t (e ∷ es) = if e.rob_tag == t then some 0 else Option.map suc (place t es)

-- The queue with that store changed, and its address.
abbrev pub amend_store :
    RobTag → (StoreBufferEntry → StoreBufferEntry) → List StoreBufferEntry → List StoreBufferEntry
amend_store t f [] = []
amend_store t f (e ∷ es) = if e.rob_tag == t then f e ∷ es else e ∷ amend_store t f es

abbrev pub address_of : RobTag → List StoreBufferEntry → Option ℕ
address_of t [] = none
address_of t (e ∷ es) = if e.rob_tag == t then paddr e.resolution else address_of t es

pub place-lt :
    (t : RobTag) (es : List StoreBufferEntry) (k : ℕ) → place t es ≡ some k → k < length es
place-lt t [] k e = cc
place-lt t (f ∷ es) k e = elim (Option-cases (place t es)) [
  | inl absent ↦ ground (arith, absent)
  | inr (j, there) ↦ ground (arith, there, place-lt t es j there)
]

pub amend_store-absent :
    (t : RobTag) (f : StoreBufferEntry → StoreBufferEntry) (es : List StoreBufferEntry)
    → place t es ≡ none
    → amend_store t f es ≡ es
amend_store-absent t f [] h = refl
amend_store-absent t f (e ∷ es) h = elim (Option-cases (place t es)) [
  | inl gone ↦ ground (arith, gone, amend_store-absent t f es gone)
  | inr (k, there) ↦ ground (arith, there)
]

pub amend_store-set :
    (t : RobTag) (f : StoreBufferEntry → StoreBufferEntry) (es : List StoreBufferEntry) (k : ℕ)
    → place t es ≡ some k
    → amend_store t f es ≡ set es k (f (get_or es k default_store))
amend_store-set t f [] k h = cc
amend_store-set t f (e ∷ es) k h = elim (Option-cases (place t es)) [
  | inl gone ↦ ground (arith, gone)
  | inr (j, there) ↦ ground (arith, there, amend_store-set t f es j there)
]

pub address_of-absent :
    (t : RobTag) (es : List StoreBufferEntry) → place t es ≡ none → address_of t es ≡ none
address_of-absent t [] h = refl
address_of-absent t (e ∷ es) h = elim (Option-cases (place t es)) [
  | inl gone ↦ ground (arith, gone, address_of-absent t es gone)
  | inr (k, there) ↦ ground (arith, there)
]

pub address_of-get_or :
    (t : RobTag) (es : List StoreBufferEntry) (k : ℕ)
    → place t es ≡ some k
    → address_of t es ≡ paddr (get_or es k default_store).resolution
address_of-get_or t [] k h = cc
address_of-get_or t (e ∷ es) k h = elim (Option-cases (place t es)) [
  | inl gone ↦ ground (arith, gone)
  | inr (j, there) ↦ ground (arith, there, address_of-get_or t es j there)
]

-- The search finds the place of the first store with the tag.
find_step :
    (x : StoreBufferEntry) (es : List StoreBufferEntry) (rest : Option ℕ) (t : RobTag)
    (i cap h a : ℕ)
    → x.valid ≡ true
    → i ≡ slot cap h a
    → rest ≡ Option.map (λ k. slot cap h (a + 1 + k)) (place t es)
    → (if x.valid && (x.rob_tag == t) then some i else rest)
      ≡ Option.map (λ k. slot cap h (a + k)) (place t (x ∷ es))
find_step x es rest t i cap h a live e ih = elim (Option-cases (place t es)) [
  | inl gone ↦ ground (arith, gone, live, ap (slot cap h) {x = a} {y = a + 0})
  | inr (k, there) ↦ ground (
    arith,
    there,
    live,
    ap (slot cap h) {x = a} {y = a + 0},
    ap (slot cap h) {x = a + 1 + k} {y = a + suc k},
  )
]

module _ (sb : StoreBuffer) (t : RobTag) where
  abbrev pub here : ℕ → ℕ
  here k = slot (sb_capacity sb) sb.head k

  abbrev from : ℕ → ℕ → List StoreBufferEntry
  from a n = part default_store (sb_capacity sb) sb.head sb.entries a n

  find_by_tag-place :
      (n a : ℕ)
      → All IsOccupied (from a n)
      → find_by_tag n sb t (here a) ≡ Option.map (λ k. here (a + k)) (place t (from a n))
  unfolding find_by_tag
  find_by_tag-place zero a live = refl
  find_by_tag-place (suc n) a live =
      let split = part-suc default_store (sb_capacity sb) sb.head sb.entries a n in
      let live' = subst (All IsOccupied) split live in
      find_step (store_at sb (here a)) (from (a + 1) n)
        (find_by_tag n sb t ((here a + 1) % sb_capacity sb)) t (here a) (sb_capacity sb) sb.head a
        live'.0 refl
        (ap (find_by_tag n sb t) (slot-slot (sb_capacity sb) sb.head a 1)
          ∙ find_by_tag-place n (a + 1) live'.1)
      ∙ ap (λ l. Option.map (λ k. here (a + k)) (place t l)) (sym split)

  module _ (v : IsSound sb) where
    found : find_by_tag sb.count sb t sb.head ≡ Option.map here (place t (stores sb))
    found =
        ap (find_by_tag sb.count sb t) (sym (slot-zero (sb_capacity sb) sb.head v.head_lt))
        ∙ find_by_tag-place sb.count 0 (subst (All IsOccupied) all v.occupied)
        ∙ map_zero (place t (from 0 sb.count))
        ∙ ap (λ l. Option.map here (place t l)) (sym all)
      where
        all : stores sb ≡ from 0 sb.count
        all = scan-part default_store (sb_capacity sb) sb.head v.head_lt sb.entries sb.count

        map_zero : (o : Option ℕ) → Option.map (λ k. here (0 + k)) o ≡ Option.map here o
        map_zero none = refl
        map_zero (some k) = ap (λ i. some (here i)) {x = 0 + k} {y = k} (omega arith)

    pub in_buffer : (k : ℕ) → place t (stores sb) ≡ some k → k < sb.count
    in_buffer k h = omega (
      arith,
      place-lt t (stores sb) k h,
      length-scan default_store sb.entries (sb_capacity sb) sb.head sb.count,
    )

    pub unknown : place t (stores sb) ≡ none → find_by_tag sb.count sb t sb.head ≡ none
    unknown h = found ∙ ap (Option.map here) h

    pub known :
        (k : ℕ) → place t (stores sb) ≡ some k → find_by_tag sb.count sb t sb.head ≡ some (here k)
    known k h = found ∙ ap (Option.map here) h

    pub entry_here :
        (k : ℕ)
        → place t (stores sb) ≡ some k
        → get_or (stores sb) k default_store ≡ store_at sb (here k)
    entry_here k h =
        get_or-scan default_store (sb_capacity sb) sb.head v.head_lt sb.entries sb.count k
          (in_buffer k h)
