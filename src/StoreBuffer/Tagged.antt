-- ===== src/StoreBuffer/Tagged.antt =====
-- The operations on the store with a tag that do not remove it: `resolve`, `mark_committed`,
-- `find_paddr`.
use rvsim.Base.{
  ℕ, ◌≡◌, inl, inr, refl, sym, ap, ◌∙◌, subst, List, [], ◌∷◌, none, some, arith, length-set, set,
  All, if◌then◌else◌, ◌==◌, Bool-cases, Option-cases,
}
use rvsim.Circular.{scan}
use rvsim.Circular.Window.{scan-set_in}
use rvsim.RobTag.{RobTag}
use rvsim.StoreBuffer.{
  StoreBuffer, StoreBufferEntry, sb_capacity, stores, store_at, default_store, find_by_tag,
  update_store, resolve, resolved, mark_committed, committing, find_paddr, paddr,
}
use rvsim.StoreBuffer.Inv.{IsSound, IsOccupied}
use rvsim.StoreBuffer.Lookup.{
  place, amend_store, address_of, amend_store-absent, amend_store-set, address_of-absent,
  address_of-get_or, here, in_buffer, unknown, known, entry_here,
}

-- `find_paddr` answers with the address of the oldest store with the tag, if it has one by now.
pub find_paddr-address_of :
    (sb : StoreBuffer) (t : RobTag) → IsSound sb → find_paddr sb t ≡ address_of t (stores sb)
unfolding find_paddr
find_paddr-address_of sb t v = elim (Option-cases (place t (stores sb))) [
  | inl gone ↦ rw (unknown sb t v gone, find_paddr) (sym (address_of-absent t (stores sb) gone))
  | inr (k, there) ↦
      rw (known sb t v k there, find_paddr)
        (ap (λ e. paddr (StoreBufferEntry.resolution e)) (sym (entry_here sb t v k there))
          ∙ sym (address_of-get_or t (stores sb) k there))
]

-- A change of a store that leaves it valid.
abbrev pub KeepsValid : (StoreBufferEntry → StoreBufferEntry) → Type 0
KeepsValid f = (e : StoreBufferEntry) → (f e).valid ≡ e.valid

IsOccupied-amend_store :
    (t : RobTag) (f : StoreBufferEntry → StoreBufferEntry) (es : List StoreBufferEntry)
    → KeepsValid f
    → All IsOccupied es
    → All IsOccupied (amend_store t f es)
IsOccupied-amend_store t f [] keeps h = tt
IsOccupied-amend_store t f (e ∷ es) keeps h = elim (Bool-cases (e.rob_tag == t)) [
  | inl same ↦ rw (same, if◌then◌else◌, keeps e) h
  | inr other ↦ rw (other, if◌then◌else◌) (h.0, IsOccupied-amend_store t f es keeps h.1)
]

abbrev pub Amends :
    RobTag → (StoreBufferEntry → StoreBufferEntry) → StoreBuffer → StoreBuffer → Type 0
Amends t f sb sb' = (stores sb' ≡ amend_store t f (stores sb)) × IsSound sb'

abbrev pub written : StoreBuffer → ℕ → (StoreBufferEntry → StoreBufferEntry) → StoreBuffer
written sb i f = record sb { entries = set sb.entries i (f (store_at sb i)) }

pub written-Amends :
    (sb : StoreBuffer) (t : RobTag) (f : StoreBufferEntry → StoreBufferEntry) (k : ℕ)
    → KeepsValid f
    → IsSound sb
    → place t (stores sb) ≡ some k
    → Amends t f sb (written sb (here sb t k) f)
written-Amends sb t f k keeps v there =
    let i = here sb t k in
    let size : sb_capacity (written sb i f) ≡ sb_capacity sb =
      length-set sb.entries i (f (store_at sb i)) in
    let same : stores (written sb i f) ≡ amend_store t f (stores sb) =
      ap (λ c. scan default_store (written sb i f).entries c sb.head sb.count) size
      ∙ scan-set_in default_store (sb_capacity sb) sb.head v.head_lt sb.entries sb.count k
          (f (store_at sb i)) (omega arith) v.count_le (in_buffer sb t v k there)
      ∙ ap (λ e. set (stores sb) k (f e)) (sym (entry_here sb t v k there))
      ∙ sym (amend_store-set t f (stores sb) k there) in
    (
      same,
      record {
        head_lt = rw size v.head_lt;
        count_le = rw size v.count_le;
        tail_eq = rw size v.tail_eq;
        occupied = rw same (IsOccupied-amend_store t f (stores sb) keeps v.occupied);
      },
    )

update_absent :
    (sb : StoreBuffer) (t : RobTag) (f : StoreBufferEntry → StoreBufferEntry)
    → find_by_tag sb.count sb t sb.head ≡ none
    → update_store sb t f ≡ sb
unfolding update_store
update_absent sb t f e = rw (e, update_store)

update_at :
    (sb : StoreBuffer) (t : RobTag) (f : StoreBufferEntry → StoreBufferEntry) (i : ℕ)
    → find_by_tag sb.count sb t sb.head ≡ some i
    → update_store sb t f ≡ written sb i f
unfolding update_store
update_at sb t f i e = rw (e, update_store)

update_store-Amends :
    (sb : StoreBuffer) (t : RobTag) (f : StoreBufferEntry → StoreBufferEntry)
    → KeepsValid f
    → IsSound sb
    → Amends t f sb (update_store sb t f)
unfolding update_store
update_store-Amends sb t f keeps v = elim (Option-cases (place t (stores sb))) [
  | inl gone ↦
      subst (Amends t f sb) (sym (update_absent sb t f (unknown sb t v gone)))
        (sym (amend_store-absent t f (stores sb) gone), v)
  | inr (k, there) ↦
      subst (Amends t f sb) (sym (update_at sb t f (here sb t k) (known sb t v k there)))
        (written-Amends sb t f k keeps v there)
]

-- `resolve` gives the oldest store with the tag its addresses and its data, and `mark_committed`
-- commits it if it is ready; neither changes another store, and both keep the invariant.
pub resolve-Amends :
    (sb : StoreBuffer) (t : RobTag) (vaddr paddr data' : ℕ)
    → IsSound sb
    → Amends t (resolved vaddr paddr data') sb (resolve sb t vaddr paddr data')
      × Amends t committing sb (mark_committed sb t)
unfolding resolve mark_committed
resolve-Amends sb t vaddr paddr data' v = (
  update_store-Amends sb t (resolved vaddr paddr data') (λ e. refl) v,
  update_store-Amends sb t committing (λ e. refl) v,
)
