-- ===== src/StoreBuffer/Compact.antt =====
-- The two partial flushes of the store buffer keep some entries and close the gaps between them, in
-- place.
use rvsim.Base.{
  ℕ, ◌≤◌, ◌≡◌, inl, inr, refl, sym, ap, ◌∙◌, subst, Bool, false, ◌&&◌, List, [], ◌∷◌, arith, length,
  All, All-filter, filter, if◌then◌else◌, ◌==◌, ==_iff, Bool-cases,
}
use rvsim.Circular.{scan, compact_loop}
use rvsim.Circular.Window.{length-scan}
use rvsim.Circular.Compact.{Leaves, compacted, Leaves-scan, length-filter}
use rvsim.RobTag.{RobTag, is_older_or_eq}
use rvsim.StoreBuffer.{
  StoreBuffer, StoreBufferEntry, sb_capacity, stores, default_store, compact, is_committed,
  invalidated, flush_speculative, flush_after,
}
use rvsim.StoreBuffer.Inv.{IsSound, IsOccupied}

-- Among live entries the `valid` bit does not matter.
filter_occupied :
    (keep : StoreBufferEntry → Bool) (es : List StoreBufferEntry)
    → All IsOccupied es
    → filter (λ e. e.valid && keep e) es ≡ filter keep es
filter_occupied keep [] h = refl
filter_occupied keep (e ∷ es) h = ground (arith, filter_occupied keep es h.1)

-- What a flush that keeps some entries leaves.
abbrev pub Filters : (StoreBufferEntry → Bool) → StoreBuffer → StoreBuffer → Type 0
Filters keep sb sb' = (stores sb' ≡ filter keep (stores sb)) × IsSound sb'

module _ (keep : StoreBufferEntry → Bool) (sb : StoreBuffer) (v : IsSound sb) where
  abbrev cap : ℕ
  cap = sb_capacity sb

  abbrev kept : StoreBufferEntry → Bool
  kept e = e.valid && keep e

  abbrev front : List StoreBufferEntry
  front = filter kept (stores sb)

  length-front : length front ≤ sb.count
  length-front = omega (
    arith,
    length-filter kept (stores sb),
    length-scan default_store sb.entries cap sb.head sb.count,
  )

  abbrev left : List StoreBufferEntry × ℕ × ℕ
  left = compact_loop default_store kept invalidated cap sb.count sb.head 0 sb.head sb.entries

  abbrev after : StoreBuffer
  after = record sb { entries = left.0; tail = left.1; count = left.2 }

  left-Leaves : Leaves default_store kept invalidated cap sb.head v.head_lt front left
  left-Leaves =
      compacted default_store kept invalidated cap sb.head v.head_lt sb.count sb.entries refl
        v.count_le

  after-Filters : Filters keep sb after
  after-Filters =
      let l = left-Leaves in
      let same : stores after ≡ front =
        ap (λ c. scan default_store left.0 c sb.head left.2) l.0
        ∙ Leaves-scan default_store kept invalidated cap sb.head v.head_lt front left l in
      (
        same ∙ filter_occupied keep (stores sb) v.occupied,
        record {
          head_lt = rw l.0 v.head_lt;
          count_le = omega (arith, l.0, l.1, length-front, v.count_le);
          tail_eq = rw (l.0, l.1) l.2;
          occupied = rw same (All-filter IsOccupied kept (stores sb) v.occupied);
        },
      )

  compact_none : sb.count ≡ 0 → compact keep sb ≡ sb
  compact_none e = ground arith

  compact_some : (sb.count == 0) ≡ false → compact keep sb ≡ after
  compact_some e = rw (e, if◌then◌else◌)

  compact-Filters : Filters keep sb (compact keep sb)
  compact-Filters = elim (Bool-cases (sb.count == 0)) [
    | inl empty ↦
        let none_left : stores sb ≡ [] =
          ap (scan default_store sb.entries cap sb.head) ((==_iff sb.count 0).0 empty) in
        subst (Filters keep sb) (sym (compact_none ((==_iff sb.count 0).0 empty)))
          (none_left ∙ sym (ap (filter keep) none_left), v)
    | inr some_left ↦ subst (Filters keep sb) (sym (compact_some some_left)) after-Filters
  ]

-- `flush_speculative` keeps exactly the committed and cancelled stores, in their order, and the
-- invariant.
pub flush_speculative-filter :
    (sb : StoreBuffer)
    → IsSound sb
    → Filters (λ e. is_committed e.resolution) sb (flush_speculative sb)
unfolding flush_speculative
flush_speculative-filter sb v = compact-Filters (λ e. is_committed e.resolution) sb v

-- `flush_after` keeps exactly the stores that are not younger than the tag, in their order, and the
-- invariant.
pub flush_after-filter :
    (sb : StoreBuffer) (t : RobTag)
    → IsSound sb
    → Filters (λ e. is_older_or_eq e.rob_tag t) sb (flush_after sb t)
unfolding flush_after
flush_after-filter sb t v = compact-Filters (λ e. is_older_or_eq e.rob_tag t) sb v
