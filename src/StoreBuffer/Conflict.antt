-- ===== src/StoreBuffer/Conflict.antt =====
-- The conservative test `has_older_store_to` against the answers of `forward_load`.
use mathlib.Core.List.{reverse-append}
use rvsim.Base.{
  ℕ, ◌≡◌, inl, inr, refl, sym, ap, ◌∙◌, Bool, true, false, ◌&&◌, ◌||◌, List, [], ◌∷◌, ◌++◌, reverse,
  none, arith, if◌then◌else◌, Bool-cases, ◌==◌, ==_iff,
}
use rvsim.Circular.{scan, scan_back, back}
use rvsim.Circular.Window.{scan_back-eq-reverse}
use rvsim.Signals.{MemWidth}
use rvsim.RobTag.{RobTag, is_older_than}
use rvsim.StoreBuffer.{
  StoreBuffer, StoreBufferEntry, ForwardResult, miss, StoreResolution, pending, ready, committed,
  cancelled, sb_capacity, stores, default_store, any_store, older_store, may_overlap, is_pending,
  forward_test, or_else, forward_loop, forward_load, has_older_store_to,
  has_unresolved_store_before,
}
use rvsim.StoreBuffer.Inv.{IsSound}

any_store-append :
    (p : StoreBufferEntry → Bool) (xs ys : List StoreBufferEntry)
    → any_store p (xs ++ ys) ≡ (any_store p xs || any_store p ys)
any_store-append p [] ys = refl
any_store-append p (x ∷ xs) ys = ground (arith, any_store-append p xs ys)

any_store-reverse :
    (p : StoreBufferEntry → Bool) (es : List StoreBufferEntry)
    → any_store p (reverse es) ≡ any_store p es
any_store-reverse p [] = refl
any_store-reverse p (e ∷ es) =
    ap (any_store p) (reverse-append (e ∷ []) es)
    ∙ any_store-append p (reverse es) (e ∷ [])
    ∙ ground (arith, any_store-reverse p es)

module _ (load : ℕ) (w : MemWidth) (t : RobTag) where
  abbrev conflicts : StoreBufferEntry → Bool
  conflicts e = older_store t e && may_overlap load w e

  abbrev unresolved : StoreBufferEntry → Bool
  unresolved e = e.valid && is_older_than e.rob_tag t && is_pending e.resolution

  abbrev with_state : StoreBufferEntry → StoreResolution → StoreBufferEntry
  with_state e s = record e { resolution = s }

  test_apart :
      (e : StoreBufferEntry) (s : StoreResolution)
      → may_overlap load w (with_state e s) ≡ false
      → forward_test load w (with_state e s) ≡ none
  test_apart e pending h = cc
  test_apart e (ready a d) h = rw h
  test_apart e (committed a d) h = rw h
  test_apart e cancelled h = refl

  test_answers :
      (e : StoreBufferEntry) (s : StoreResolution) (rest : ForwardResult)
      → may_overlap load w (with_state e s) ≡ true
      → is_pending s ≡ false
      → or_else (forward_test load w (with_state e s)) rest ≡ miss
      → ⊥
  test_answers e pending rest h p m = cc
  test_answers e (ready a d) rest h p m = ground (arith, h)
  test_answers e (committed a d) rest h p m = ground (arith, h)
  test_answers e cancelled rest h p m = cc

  loop-miss :
      (es : List StoreBufferEntry)
      → any_store conflicts es ≡ false
      → forward_loop load w t es ≡ miss
  unfolding forward_loop
  loop-miss [] h = refl
  loop-miss (e ∷ es) h = ground (arith, loop-miss es, test_apart e e.resolution)

  miss-loop :
      (es : List StoreBufferEntry)
      → any_store unresolved es ≡ false
      → forward_loop load w t es ≡ miss
      → any_store conflicts es ≡ false
  unfolding forward_loop
  miss-loop [] h m = refl
  miss-loop (e ∷ es) h m =
      ground (arith, miss-loop es, test_answers e e.resolution (forward_loop load w t es))

-- The early return on an empty buffer.
guarded :
    (sb : StoreBuffer) (p : StoreBufferEntry → Bool)
    → any_store p (stores sb) ≡ (if sb.count == 0 then false else any_store p (stores sb))
guarded sb p = elim (Bool-cases (sb.count == 0)) [
  | inl empty ↦
      rw (empty, if◌then◌else◌)
        (ap (λ n. any_store p (scan default_store sb.entries (sb_capacity sb) sb.head n))
          ((==_iff sb.count 0).0 empty))
  | inr more ↦ rw (more, if◌then◌else◌)
]

back-eq-reverse :
    (sb : StoreBuffer)
    → IsSound sb
    → scan_back default_store sb.entries (sb_capacity sb) (back (sb_capacity sb) sb.tail) sb.count
      ≡ reverse (stores sb)
back-eq-reverse sb v =
    ap (λ i. scan_back default_store sb.entries (sb_capacity sb) (back (sb_capacity sb) i) sb.count)
      v.tail_eq
    ∙ scan_back-eq-reverse default_store (sb_capacity sb) sb.head v.head_lt sb.entries sb.count
        v.count_le

-- A load that `has_older_store_to` lets pass misses in `forward_load`. Conversely, when no older store
-- is unresolved, a load that misses passes.
pub has_older_store_to-forward_load :
    (sb : StoreBuffer) (load : ℕ) (w : MemWidth) (t : RobTag)
    → IsSound sb
    → (has_older_store_to sb load w t ≡ false → forward_load sb load w t ≡ miss)
      × (has_unresolved_store_before sb t ≡ false
          → forward_load sb load w t ≡ miss
          → has_older_store_to sb load w t ≡ false)
unfolding has_older_store_to has_unresolved_store_before forward_load
has_older_store_to-forward_load sb load w t v =
    let same = back-eq-reverse sb v in
    (
      λ apart.
          ap (forward_loop load w t) same
          ∙ loop-miss load w t (reverse (stores sb)) (
              any_store-reverse (conflicts load w t) (stores sb)
              ∙ guarded sb (conflicts load w t)
              ∙ apart),
      λ known missed.
          sym (guarded sb (conflicts load w t))
          ∙ sym (any_store-reverse (conflicts load w t) (stores sb))
          ∙ miss-loop load w t (reverse (stores sb))
              (any_store-reverse (unresolved load w t) (stores sb)
                ∙ guarded sb (unresolved load w t)
                ∙ known)
              (ap (forward_loop load w t) (sym same) ∙ missed),
    )
