-- ===== src/Tlb/Shared/RoundTrip.antt =====
-- A lookup after an insertion.
use native.Mathlib.Nat.{mul-le-mul_right}
use rvsim.Base.{
  ℕ, zero, suc, ltb, ◌+◌, ◌*◌, ◌/◌, ◌%◌, ◌^◌, ◌≤◌, ◌<◌, ◌≡◌, ap, ◌∙◌, Bool, true, false, List,
  Option, none, some, arith, bit_or, length, get_or, get_or-set_self, if◌then◌else◌,
}
use rvsim.Base.Bits.{bit_and-le, bit_and-mask, bit_or-shifted}
use rvsim.Tlb.{TlbEntry, default_entry, answers, pte_bit, from_pte}
use rvsim.Tlb.Shared.{
  L2Tlb, set_of, base_of, find_in_set, or_bit, reconstruct_pte, touch_lru, victim_loop, lru_victim,
  hit_of, looked_up, lookup, is_invalid, or_else, chosen_way, insert,
}
use rvsim.Ways.Search.{Fails, Finds, searched-Finds, find_way-set}

-- The sets lie within the entries, and a set has a way.
pub record IsShared (t : L2Tlb) : Type 0 where
  pub some_way : 0 < t.ways
  pub room : (t.set_mask + 1) * t.ways ≤ length t.entries

abbrev bit : Bool → ℕ
bit b = if b then 1 else 0

or_bit-add : (k : ℕ) (b : Bool) (pte : ℕ) → pte < 2 ^ k → or_bit b (2 ^ k) pte ≡ pte + bit b * 2 ^ k
or_bit-add k true pte h =
    ap (bit_or pte) {x = 2 ^ k} {y = 1 * 2 ^ k} (omega arith) ∙ bit_or-shifted k 1 pte h
or_bit-add k false pte h = omega arith

bit-le : (b : Bool) → bit b ≤ 1
bit-le b = ground arith

reconstruct-bits :
    (e : TlbEntry)
    → reconstruct_pte e
      ≡ 1
        + 2 * bit e.r
        + 4 * bit e.w
        + 8 * bit e.x
        + 16 * bit e.u
        + 32 * bit e.global
        + 128 * bit e.d
reconstruct-bits e =
    let with_r = or_bit e.r 2 1 in
    let with_w = or_bit e.w 4 with_r in
    let with_x = or_bit e.x 8 with_w in
    let with_u = or_bit e.u 16 with_x in
    let with_g = or_bit e.global 32 with_u in
    let r = or_bit-add 1 e.r 1 (omega arith) in
    let w = or_bit-add 2 e.w with_r (omega (arith, r, bit-le e.r)) in
    let x = or_bit-add 3 e.x with_w (omega (arith, r, w, bit-le e.r, bit-le e.w)) in
    let u = or_bit-add 4 e.u with_x (omega (arith, r, w, x, bit-le e.r, bit-le e.w, bit-le e.x)) in
    let low : with_u < 2 ^ 5 =
      omega (arith, r, w, x, u, bit-le e.r, bit-le e.w, bit-le e.x, bit-le e.u) in
    let g = or_bit-add 5 e.global with_u low in
    let d = or_bit-add 7 e.d with_g (omega (arith, g, low, bit-le e.global)) in
    omega (arith, r, w, x, u, g, d)

pte_bit-bit : (pte k : ℕ) → bit (pte_bit pte k) ≡ (pte / 2 ^ k) % 2
pte_bit-bit pte k = ground (arith, bit_and-mask 1 (pte / 2 ^ k))

-- The valid bit is set, and the accessed bit and those above the dirty bit are dropped.
reconstruct-from_pte :
    (vpn ppn pte asid : ℕ)
    → reconstruct_pte (from_pte vpn ppn pte asid)
      ≡ 1 + 2 * ((pte / 2) % 32) + 128 * ((pte / 128) % 2)
reconstruct-from_pte vpn ppn pte asid =
    reconstruct-bits (from_pte vpn ppn pte asid)
    ∙ omega (
      arith,
      pte_bit-bit pte 1,
      pte_bit-bit pte 2,
      pte_bit-bit pte 3,
      pte_bit-bit pte 4,
      pte_bit-bit pte 5,
      pte_bit-bit pte 7,
    )

answers_itself : (vpn ppn pte asid : ℕ) → answers vpn asid (from_pte vpn ppn pte asid) ≡ true
answers_itself vpn ppn pte asid = ground arith

victim-lt :
    (ages : List ℕ) (base n w u : ℕ) (best : ℕ × ℕ)
    → best.1 < u
    → w + n ≤ u
    → (victim_loop ages base n w best).1 < u
unfolding victim_loop
victim-lt ages base zero w u best h k = h
victim-lt ages base (suc n) w u best h k =
    victim-lt ages base n (w + 1) u
      (if ltb best.0 (get_or ages (base + w) 0) then (get_or ages (base + w) 0, w) else best)
      (ground arith) (omega arith)

module _ (t : L2Tlb) (vpn asid : ℕ) (v : IsShared t) where
  abbrev s : ℕ
  s = set_of t vpn

  abbrev matching : TlbEntry → Bool
  matching = answers vpn asid

  within : (w : ℕ) → w < t.ways → base_of t s + w < length t.entries
  within w h =
      let below : s ≤ t.set_mask = bit_and-le t.set_mask vpn t.set_mask (omega arith) in
      omega (arith, v.room, mul-le-mul_right t.ways below)

  -- The way taken is one of the set, and no way before it has the page.
  taken :
      (o p : Option ℕ)
      → Finds default_entry matching (base_of t s) t.entries 0 t.ways o
      → Finds default_entry is_invalid (base_of t s) t.entries 0 t.ways p
      → let c = or_else o (or_else p (lru_victim t s)) in
        (c < t.ways) × Fails default_entry matching (base_of t s) t.entries 0 c
  unfolding lru_victim
  taken (some k) p (lt, here, f) q = (lt, f)
  taken none (some k) f (lt, here, q) = (lt, λ j lo hi. f j lo (omega arith))
  taken none none f q =
      let lt = victim-lt t.lru (base_of t s) t.ways 0 t.ways (0, 0) v.some_way (omega arith) in
      (lt, λ j lo hi. f j lo (omega (arith, lt, hi)))

  chosen_way-Fails :
      (chosen_way t vpn asid < t.ways)
      × Fails default_entry matching (base_of t s) t.entries 0 (chosen_way t vpn asid)
  unfolding chosen_way lru_victim
  chosen_way-Fails =
      taken (find_in_set t matching s) (find_in_set t is_invalid s)
        (searched-Finds default_entry matching (base_of t s) t.entries t.ways)
        (searched-Finds default_entry is_invalid (base_of t s) t.entries t.ways)

  -- A lookup after an insertion for the same page and address space gives the page number and the
  -- address space inserted, and the bits of the page-table entry: the valid bit set, bits 1 to 5 and
  -- 7 kept, all others 0.
  pub shared-lookup-insert :
      (ppn pte : ℕ)
      → (lookup (insert t vpn ppn pte asid) vpn asid).0
        ≡ some (ppn, 1 + 2 * ((pte / 2) % 32) + 128 * ((pte / 128) % 2), asid)
  unfolding lookup insert touch_lru
  shared-lookup-insert ppn pte =
      let c = chosen_way t vpn asid in
      let e = from_pte vpn ppn pte asid in
      let base = base_of t s in
      let (lt, f) = chosen_way-Fails in
      let room = within c lt in
      ap (λ o. (looked_up (insert t vpn ppn pte asid) s o).0)
        (find_way-set default_entry matching base t.entries t.ways c e lt room
          (answers_itself vpn ppn pte asid) f)
      ∙ ap (λ x. some (hit_of x)) (get_or-set_self t.entries (base + c) e default_entry room)
      ∙ ap (λ bits. some (ppn, bits, asid)) (reconstruct-from_pte vpn ppn pte asid)
