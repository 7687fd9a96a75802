-- ===== src/Tlb/Answers.antt =====
-- What a first-level translation buffer answers after an insertion and after each kind of flush.
use rvsim.Base.{
  false, ℕ, zero, suc, ◌<◌, ◌≡◌, refl, sym, Bool, ◌&&◌, ◌||◌, List, [], ◌∷◌, Option, none, some,
  map, arith, length, get_or, get_or-set, if◌then◌else◌, ◌==◌,
}
use rvsim.Base.Bits.{bit_and-le}
use rvsim.Tlb.{
  Tlb, TlbEntry, TlbHit, default_entry, index, entry_at, answers, hit_of, lookup, pte_bit, from_pte,
  insert, invalidated, invalidate, flush, flush_vaddr, flush_entry, flush_asid, flush_vaddr_asid,
}

-- Every index is in range.
abbrev pub IsTlb : Tlb → Type 0
IsTlb t = t.mask < length t.entries

index-lt : (t : Tlb) (vpn : ℕ) → IsTlb t → index t vpn < length t.entries
index-lt t vpn h = omega (arith, bit_and-le t.mask vpn t.mask (omega arith))

-- The entry that a lookup finds.
abbrev pub found : Tlb → ℕ → ℕ → Option TlbEntry
found t vpn asid = let e = entry_at t (index t vpn) in if answers vpn asid e then some e else none

abbrev pub hit : Option TlbEntry → Option TlbHit
hit none = none
hit (some e) = some (hit_of e)

lookup-found : (t : Tlb) (vpn asid : ℕ) → lookup t vpn asid ≡ hit (found t vpn asid)
unfolding lookup
lookup-found t vpn asid = ground arith

-- What is found, unless the test holds of it.
abbrev pub unless : (TlbEntry → Bool) → Option TlbEntry → Option TlbEntry
unless p none = none
unless p (some e) = if p e then none else some e

-- After an insertion a lookup with the index of the page gives the new translation for that page, if
-- it is global or the address space is the one inserted for, and else nothing; every other lookup
-- gives what it gave before.
pub lookup-insert :
    (t : Tlb) (vpn ppn pte asid vpn' asid' : ℕ)
    → IsTlb t
    → lookup (insert t vpn ppn pte asid) vpn' asid' ≡ (
        if index t vpn == index t vpn'
        then (if (vpn == vpn') && (pte_bit pte 5 || (asid == asid'))
            then some (hit_of (from_pte vpn ppn pte asid))
            else none)
        else lookup t vpn' asid')
unfolding lookup insert
lookup-insert t vpn ppn pte asid vpn' asid' h = ground (
  arith,
  get_or-set t.entries (index t vpn) (index t vpn') (from_pte vpn ppn pte asid) default_entry
      (index-lt t vpn h),
)

get_or-map :
    (f : TlbEntry → TlbEntry) (xs : List TlbEntry) (i : ℕ)
    → f default_entry ≡ default_entry
    → get_or (map f xs) i default_entry ≡ f (get_or xs i default_entry)
get_or-map f [] i h = sym h
get_or-map f (x ∷ xs) zero h = refl
get_or-map f (x ∷ xs) (suc i) h = get_or-map f xs i h

-- The entry is of the address space alone.
abbrev pub is_private : ℕ → TlbEntry → Bool
is_private asid e = if e.global then false else e.asid == asid

-- A lookup gives the permissions of the entry that it finds. What is found after the five operations that remove translations: `flush` removes all of them,
-- `invalidate` and `flush_vaddr` those of the page, `flush_asid` those of the address space, and
-- `flush_vaddr_asid` those of the page in the address space; the last two keep global ones. All
-- other lookups find what they found before.
pub found-flush :
    (t : Tlb) (v a vpn asid : ℕ)
    → IsTlb t
    → ((t' : Tlb) → lookup t' vpn asid ≡ hit (found t' vpn asid))
      × (found (flush t) vpn asid ≡ none)
      × (found (invalidate t v) vpn asid ≡ (if v == vpn then none else found t vpn asid))
      × (found (flush_vaddr t v) vpn asid ≡ (if v == vpn then none else found t vpn asid))
      × (found (flush_asid t a) vpn asid ≡ unless (is_private a) (found t vpn asid))
      × (found (flush_vaddr_asid t v a) vpn asid
          ≡ (if v == vpn then unless (is_private a) (found t vpn asid) else found t vpn asid))
unfolding flush invalidate flush_vaddr flush_asid flush_vaddr_asid
found-flush t v a vpn asid h =
    let i = index t v in
    let j = index t vpn in
    let removed =
      get_or-set t.entries i j (invalidated (entry_at t i)) default_entry (index-lt t v h) in
    (
      (λ t'. lookup-found t' vpn asid),
      ground (arith, get_or-map invalidated t.entries j refl),
      ground (arith, removed),
      ground (arith, removed),
      ground (arith, get_or-map (flush_entry a) t.entries j refl),
      ground (arith, removed),
    )
