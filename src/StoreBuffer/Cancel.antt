-- ===== src/StoreBuffer/Cancel.antt =====
-- `cancel` takes back a store that will not be written.
use native.Mathlib.Decide.{dec_lt}
use rvsim.Base.{
  ℕ, suc, ◌-◌, ◌<◌, ◌≡◌, ◌≢◌, inl, inr, refl, sym, ap, ◌∙◌, subst, List, [], ◌∷◌, ◌++◌, none, some,
  arith, length, length-set, set, All, if◌then◌else◌, ◌==◌, ==_iff, Option-cases,
}
use rvsim.Circular.{slot, scan, back}
use rvsim.Circular.Window.{
  scan-part, part_snoc, scan-set_out, length-scan, back-slot, slot-injective,
}
use rvsim.RobTag.{RobTag}
use rvsim.StoreBuffer.{
  StoreBuffer, StoreBufferEntry, sb_capacity, stores, store_at, default_store, find_by_tag, cancel,
  invalidated, as_cancelled,
}
use rvsim.StoreBuffer.Inv.{IsSound, IsOccupied}
use rvsim.StoreBuffer.Lookup.{place, amend_store, here, in_buffer, unknown, known}
use rvsim.StoreBuffer.Tagged.{written, written-Amends}

-- The oldest store with the tag is withdrawn: the newest of all leaves, another one stays as a
-- store without effect.
abbrev pub withdraw : RobTag → List StoreBufferEntry → List StoreBufferEntry
withdraw t [] = []
withdraw t (e ∷ []) = if e.rob_tag == t then [] else e ∷ []
withdraw t (e ∷ f ∷ es) =
    if e.rob_tag == t then as_cancelled e ∷ f ∷ es else e ∷ withdraw t (f ∷ es)

withdraw-absent : (t : RobTag) (es : List StoreBufferEntry) → place t es ≡ none → withdraw t es ≡ es
withdraw-absent t [] h = refl
withdraw-absent t (e ∷ []) h = ground arith
withdraw-absent t (e ∷ f ∷ es) h = elim (Option-cases (place t (f ∷ es))) [
  | inl gone ↦ ground (arith, gone, withdraw-absent t (f ∷ es) gone)
  | inr (k, there) ↦ ground (arith, there)
]

withdraw-newest :
    (t : RobTag) (es : List StoreBufferEntry) (e : StoreBufferEntry)
    → place t (es ++ e ∷ []) ≡ some (length es)
    → withdraw t (es ++ e ∷ []) ≡ es
withdraw-newest t [] e h = ground arith
withdraw-newest t (f ∷ []) e h = ground arith
withdraw-newest t (f ∷ g ∷ es) e h = elim (Option-cases (place t (g ∷ es ++ e ∷ []))) [
  | inl gone ↦ ground (arith, gone)
  | inr (k, there) ↦ ground (arith, there, withdraw-newest t (g ∷ es) e)
]

withdraw-older :
    (t : RobTag) (es : List StoreBufferEntry) (k : ℕ)
    → place t es ≡ some k
    → suc k < length es
    → withdraw t es ≡ amend_store t as_cancelled es
withdraw-older t [] k h lt = cc
withdraw-older t (e ∷ []) k h lt = absurd (omega arith)
withdraw-older t (e ∷ f ∷ es) k h lt = elim (Option-cases (place t (f ∷ es))) [
  | inl gone ↦ ground (arith, gone)
  | inr (j, there) ↦ ground (arith, there, withdraw-older t (f ∷ es) j there)
]

abbrev retracted : StoreBuffer → ℕ → StoreBuffer
retracted sb i = record sb {
  entries = set sb.entries i (invalidated (store_at sb i));
  tail = back (sb_capacity sb) sb.tail;
  count = sb.count - 1;
}

cancel_absent :
    (sb : StoreBuffer) (t : RobTag) → find_by_tag sb.count sb t sb.head ≡ none → cancel sb t ≡ sb
unfolding cancel
cancel_absent sb t e = rw (e, cancel)

cancel_newest :
    (sb : StoreBuffer) (t : RobTag) (i : ℕ)
    → find_by_tag sb.count sb t sb.head ≡ some i
    → i ≡ back (sb_capacity sb) sb.tail
    → cancel sb t ≡ retracted sb i
unfolding cancel
cancel_newest sb t i e last = rw (e, cancel) (rw ((==_iff i _).1 last))

cancel_older :
    (sb : StoreBuffer) (t : RobTag) (i : ℕ)
    → find_by_tag sb.count sb t sb.head ≡ some i
    → i ≢ back (sb_capacity sb) sb.tail
    → cancel sb t ≡ written sb i as_cancelled
unfolding cancel
cancel_older sb t i e apart = rw (e, cancel) (ground arith)

-- What a cancellation leaves.
abbrev pub Withdraws : RobTag → StoreBuffer → StoreBuffer → Type 0
Withdraws t sb sb' = (stores sb' ≡ withdraw t (stores sb)) × IsSound sb'

newest_slot :
    (sb : StoreBuffer) (t : RobTag) (k : ℕ)
    → IsSound sb
    → sb.count ≡ suc k
    → back (sb_capacity sb) sb.tail ≡ here sb t k
newest_slot sb t k v size =
    ap (back (sb_capacity sb)) (v.tail_eq ∙ ap (slot (sb_capacity sb) sb.head) size)
    ∙ back-slot (sb_capacity sb) sb.head k v.head_lt (omega (arith, v.count_le))

All-append_left : (xs ys : List StoreBufferEntry) → All IsOccupied (xs ++ ys) → All IsOccupied xs
All-append_left [] ys h = tt
All-append_left (x ∷ xs) ys h = (h.0, All-append_left xs ys h.1)

retracted-Withdraws :
    (sb : StoreBuffer) (t : RobTag) (k : ℕ)
    → IsSound sb
    → place t (stores sb) ≡ some k
    → sb.count ≡ suc k
    → Withdraws t sb (retracted sb (here sb t k))
retracted-Withdraws sb t k v there size =
    let cap = sb_capacity sb in
    let i = here sb t k in
    let e = invalidated (store_at sb i) in
    let same_cap : sb_capacity (retracted sb i) ≡ cap = length-set sb.entries i e in
    let front = scan default_store sb.entries cap sb.head k in
    let all : stores sb ≡ front ++ store_at sb i ∷ [] =
      ap (scan default_store sb.entries cap sb.head) size
      ∙ scan-part default_store cap sb.head v.head_lt sb.entries (suc k)
      ∙ part_snoc default_store cap sb.head sb.entries k
      ∙ ap (λ l. l ++ store_at sb i ∷ [])
          (sym (scan-part default_store cap sb.head v.head_lt sb.entries k)) in
    let left : stores (retracted sb i) ≡ front =
      ap (λ c. scan default_store (set sb.entries i e) c sb.head (sb.count - 1)) same_cap
      ∙ ap (scan default_store (set sb.entries i e) cap sb.head) {x = sb.count - 1} {y = k}
          (omega arith)
      ∙ scan-set_out default_store cap sb.head v.head_lt sb.entries k k e (omega arith)
          (omega (arith, v.count_le)) in
    let there' : place t (front ++ store_at sb i ∷ []) ≡ some (length front) =
      ap (place t) (sym all)
      ∙ there
      ∙ ap some (sym (length-scan default_store sb.entries cap sb.head k)) in
    (
      left ∙ sym (ap (withdraw t) all ∙ withdraw-newest t front (store_at sb i) there'),
      record {
        head_lt = rw same_cap v.head_lt;
        count_le = rw same_cap (omega (arith, v.count_le));
        tail_eq = rw same_cap (
            newest_slot sb t k v size
            ∙ ap (slot cap sb.head) {x = k} {y = sb.count - 1} (omega arith));
        occupied = rw left (All-append_left front _ (subst (All IsOccupied) all v.occupied));
      },
    )

-- `cancel` withdraws the oldest store with the tag, changes no other, and keeps the invariant.
pub cancel-withdraw : (sb : StoreBuffer) (t : RobTag) → IsSound sb → Withdraws t sb (cancel sb t)
cancel-withdraw sb t v = elim (Option-cases (place t (stores sb))) [
  | inl gone ↦
      subst (Withdraws t sb) (sym (cancel_absent sb t (unknown sb t v gone)))
        (sym (withdraw-absent t (stores sb) gone), v)
  | inr (k, there) ↦ elim (dec_lt (suc k) sb.count) [
    | yes more ↦
        let n : ℕ = sb.count - 1 in
        let apart : here sb t k ≢ back (sb_capacity sb) sb.tail = λ e.
          let same : k ≡ n =
            slot-injective (sb_capacity sb) sb.head k n v.head_lt (omega (arith, v.count_le))
              (omega (arith, v.count_le)) (e ∙ newest_slot sb t n v (omega arith)) in
          omega arith in
        let kept = written-Amends sb t as_cancelled k (λ e. refl) v there in
        subst (Withdraws t sb) (sym (cancel_older sb t (here sb t k) (known sb t v k there) apart))
          (
            kept.0
                ∙ sym (
                    withdraw-older t (stores sb) k there (
                      omega (
                        arith,
                        length-scan default_store sb.entries (sb_capacity sb) sb.head sb.count,
                      ))),
            kept.1,
          )
    | no last ↦
        let size : sb.count ≡ suc k = omega (arith, in_buffer sb t v k there) in
        subst (Withdraws t sb)
          (sym (
            cancel_newest sb t (here sb t k) (known sb t v k there)
              (sym (newest_slot sb t k v size))))
          (retracted-Withdraws sb t k v there size)
  ]
]
