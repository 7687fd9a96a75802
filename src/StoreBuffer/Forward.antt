-- ===== src/StoreBuffer/Forward.antt =====
-- `forward_load` against the memory that a load should see: the one that the older stores leave when
-- they are performed in program order.
use rvsim.Base.{
  ℕ, ◌+◌, ◌^◌, ◌≤◌, ◌<◌, ◌≡◌, ◌⊎◌, inl, inr, refl, sym, ap, ◌∙◌, subst, true, false, List, [], ◌∷◌,
  reverse, Option, none, some, arith, All, if◌then◌else◌, Bool-cases,
}
use rvsim.Circular.{scan_back, back}
use rvsim.Circular.Window.{scan_back-eq-reverse}
use rvsim.Signals.{MemWidth, width_to_bytes}
use rvsim.RobTag.{RobTag}
use rvsim.StoreBuffer.{
  StoreBuffer, StoreBufferEntry, ForwardResult, hit, miss, stall, StoreResolution, pending, ready,
  committed, cancelled, sb_capacity, stores, default_store, overlaps, covers, forward_from,
  forward_test, older_store, or_else, forward_loop, forward_load,
}
use rvsim.StoreBuffer.Inv.{IsSound}
use rvsim.StoreBuffer.Bytes.{Memory, write_bytes, read_bytes, read-write_covered, read-write_apart}
use rvsim.StoreBuffer.Perform.{
  perform_one, perform, InRange, Partial, Any, perform_back, perform_back-reverse, All-reverse,
  Any-reverse,
}

width-le : (w : MemWidth) → width_to_bytes w ≤ 8
width-le w = ground arith

-- What the test of a store says of a read before and after the store.
abbrev Outcome : ℕ → ℕ → Option ForwardResult → Type 0
Outcome before after none = after ≡ before
Outcome before after (some (hit v)) = after ≡ v
Outcome before after (some miss) = ⊥
Outcome before after (some stall) = Unit {0}

from_Outcome :
    (load a d : ℕ) (w w' : MemWidth) (m : Memory)
    → load + 8 < 2 ^ 64
    → a + 8 < 2 ^ 64
    → Outcome
        (read_bytes m load (width_to_bytes w))
        (read_bytes (write_bytes a (width_to_bytes w') d m) load (width_to_bytes w))
        (forward_from load w w' a d)
from_Outcome load a d w w' m hl ha = elim (Bool-cases (overlaps load w a w')) [
  | inr apart ↦
      rw (apart, if◌then◌else◌)
        (read-write_apart (width_to_bytes w) load a (width_to_bytes w') d m
          (ground (arith, width-le w, width-le w')))
  | inl meet ↦ elim (Bool-cases (covers load w a w')) [
    | inl all ↦
        rw (meet, all, if◌then◌else◌)
          (read-write_covered (width_to_bytes w) load a (width_to_bytes w') d m (ground arith)
            (ground (arith, width-le w, width-le w')))
    | inr partly ↦ rw (meet, partly, if◌then◌else◌) tt
  ]
]

from_stall :
    (load a d : ℕ) (w w' : MemWidth)
    → load + 8 < 2 ^ 64
    → a + 8 < 2 ^ 64
    → forward_from load w w' a d ≡ some stall
    → (load < a + width_to_bytes w')
      × (a < load + width_to_bytes w)
      × ((load < a) ⊎ (a + width_to_bytes w' < load + width_to_bytes w))
from_stall load a d w w' hl ha h = ground (arith, width-le w, width-le w')

module _ (t : RobTag) (load : ℕ) (w : MemWidth) (hl : load + 8 < 2 ^ 64) (m : Memory) where
  abbrev read : Memory → ℕ
  read m' = read_bytes m' load (width_to_bytes w)

  abbrev with_resolution : StoreBufferEntry → StoreResolution → StoreBufferEntry
  with_resolution e s = record e { resolution = s }

  test_Outcome :
      (e : StoreBufferEntry) (m' : Memory) (s : StoreResolution)
      → InRange (with_resolution e s)
      → Outcome
          (read m')
          (read (perform_one (with_resolution e s) m'))
          (forward_test load w (with_resolution e s))
  test_Outcome e m' pending ha = refl
  test_Outcome e m' (ready a d) ha = from_Outcome load a d w e.width m' hl ha
  test_Outcome e m' (committed a d) ha = from_Outcome load a d w e.width m' hl ha
  test_Outcome e m' cancelled ha = refl

  test_stall :
      (e : StoreBufferEntry) (s : StoreResolution)
      → older_store t e ≡ true
      → InRange (with_resolution e s)
      → forward_test load w (with_resolution e s) ≡ some stall
      → Partial load w t (with_resolution e s)
  test_stall e pending older ha h = cc
  test_stall e (ready a d) older ha h =
      let s = from_stall load a d w e.width hl ha h in (older, (a, refl, s.0, s.1, s.2))
  test_stall e (committed a d) older ha h =
      let s = from_stall load a d w e.width hl ha h in (older, (a, refl, s.0, s.1, s.2))
  test_stall e cancelled older ha h = cc

  -- What the loop says of the stores that it has visited.
  abbrev Serves : List StoreBufferEntry → ForwardResult → Type 0
  Serves es (hit v) = read (perform_back t es m) ≡ v
  Serves es miss = read (perform_back t es m) ≡ read m
  Serves es stall = Any (Partial load w t) es

  Serves-skip :
      (e : StoreBufferEntry) (es : List StoreBufferEntry) (r : ForwardResult)
      → read (perform_back t (e ∷ es) m) ≡ read (perform_back t es m)
      → Serves es r
      → Serves (e ∷ es) r
  Serves-skip e es (hit v) same h = same ∙ h
  Serves-skip e es miss same h = same ∙ h
  Serves-skip e es stall same h = inr h

  Serves-test :
      (e : StoreBufferEntry) (es : List StoreBufferEntry) (r : ForwardResult)
      (o : Option ForwardResult)
      → older_store t e ≡ true
      → InRange e
      → forward_test load w e ≡ o
      → Outcome (read (perform_back t es m)) (read (perform_back t (e ∷ es) m)) o
      → Serves es r
      → Serves (e ∷ es) (or_else o r)
  Serves-test e es r none older ha eq out h = Serves-skip e es r out h
  Serves-test e es r (some (hit v)) older ha eq out h = out
  Serves-test e es r (some miss) older ha eq out h = absurd out
  Serves-test e es r (some stall) older ha eq out h = inl (test_stall e e.resolution older ha eq)

  loop_older :
      (e : StoreBufferEntry) (es : List StoreBufferEntry)
      → older_store t e ≡ true
      → forward_loop load w t (e ∷ es) ≡ or_else (forward_test load w e) (forward_loop load w t es)
  unfolding forward_loop
  loop_older e es older = rw older

  loop_newer :
      (e : StoreBufferEntry) (es : List StoreBufferEntry)
      → older_store t e ≡ false
      → forward_loop load w t (e ∷ es) ≡ forward_loop load w t es
  unfolding forward_loop
  loop_newer e es newer = rw newer

  forward_loop-Serves :
      (es : List StoreBufferEntry) → All InRange es → Serves es (forward_loop load w t es)
  unfolding forward_loop
  forward_loop-Serves [] h = refl
  forward_loop-Serves (e ∷ es) h = elim (Bool-cases (older_store t e)) [
    | inl older ↦ subst (Serves (e ∷ es)) (sym (loop_older e es older)) (
        Serves-test e es (forward_loop load w t es) (forward_test load w e) older h.0 refl
          (rw (older, if◌then◌else◌) (test_Outcome e (perform_back t es m) e.resolution h.0))
          (forward_loop-Serves es h.1))
    | inr newer ↦ subst (Serves (e ∷ es)) (sym (loop_newer e es newer)) (
        Serves-skip e es (forward_loop load w t es) (rw (newer, if◌then◌else◌) refl)
          (forward_loop-Serves es h.1))
  ]

-- The three answers to a load of `w` at `load`, on memory `m`.
abbrev pub Forwards :
    RobTag → ℕ → MemWidth → Memory → List StoreBufferEntry → ForwardResult → Type 0
Forwards t load w m es (hit v) = read_bytes (perform t es m) load (width_to_bytes w) ≡ v
Forwards t load w m es miss =
    read_bytes (perform t es m) load (width_to_bytes w) ≡ read_bytes m load (width_to_bytes w)
Forwards t load w m es stall = Any (Partial load w t) es

Forwards-reverse :
    (t : RobTag) (load : ℕ) (w : MemWidth) (hl : load + 8 < 2 ^ 64) (m : Memory)
    (es : List StoreBufferEntry) (r : ForwardResult)
    → Serves t load w hl m (reverse es) r
    → Forwards t load w m es r
Forwards-reverse t load w hl m es (hit v) h =
    ap (λ m'. read_bytes m' load (width_to_bytes w)) (sym (perform_back-reverse t es m)) ∙ h
Forwards-reverse t load w hl m es miss h =
    ap (λ m'. read_bytes m' load (width_to_bytes w)) (sym (perform_back-reverse t es m)) ∙ h
Forwards-reverse t load w hl m es stall h = Any-reverse (Partial load w t) es h

-- Where no address range leaves 64 bits, a hit of `forward_load` is the value that the load reads
-- once the stores older than it have been performed in program order on any memory `m`; on a miss
-- these stores do not change what the load reads; and on a stall some older store holds part of the
-- bytes of the load and not all.
pub forward_load-Forwards :
    (sb : StoreBuffer) (load : ℕ) (w : MemWidth) (t : RobTag) (m : Memory)
    → IsSound sb
    → load + 8 < 2 ^ 64
    → All InRange (stores sb)
    → Forwards t load w m (stores sb) (forward_load sb load w t)
unfolding forward_load
forward_load-Forwards sb load w t m v hl ranges =
    let visited =
      scan_back default_store sb.entries (sb_capacity sb) (back (sb_capacity sb) sb.tail)
        sb.count in
    let same : visited ≡ reverse (stores sb) =
      ap
        (λ i.
          scan_back default_store sb.entries (sb_capacity sb) (back (sb_capacity sb) i) sb.count)
        v.tail_eq
      ∙ scan_back-eq-reverse default_store (sb_capacity sb) sb.head v.head_lt sb.entries sb.count
          v.count_le in
    Forwards-reverse t load w hl m (stores sb) (forward_loop load w t visited) (
      subst (λ l. Serves t load w hl m l (forward_loop load w t visited)) same
        (forward_loop-Serves t load w hl m visited
          (subst (All InRange) (sym same) (All-reverse InRange (stores sb) ranges))))
