-- ===== src/Tlb/Shared/Ages.antt =====
-- The ages of the ways, which decide the victim of an insertion.
use rvsim.Base.{
  ℕ, zero, suc, ◌+◌, ◌*◌, ◌/◌, ◌<◌, ◌≡◌, ◌⊎◌, inl, inr, Bool, true, refl, ap, ◌∙◌, List, [], ◌∷◌,
  Option, none, some, arith, get_or, get_or-replicate, set,
}
use rvsim.Tlb.{TlbEntry, default_entry, answers, from_pte}
use rvsim.Ways.Search.{Fails, Finds, searched-Finds}
use rvsim.Tlb.Shared.{
  L2Tlb, new, safe_ways, set_count, set_of, base_of, find_in_set, touch_loop, touch_lru,
  victim_loop, lru_victim, looked_up, lookup, way_at, is_invalid, or_else, chosen_way, insert,
  flush, flush_vaddr, flush_asid, flush_vaddr_asid,
}

abbrev pub AgesZero : List ℕ → Type 0
AgesZero ages = (i : ℕ) → get_or ages i 0 ≡ 0

get_or-set_zero : (xs : List ℕ) (i : ℕ) → AgesZero xs → AgesZero (set xs i 0)
get_or-set_zero [] i h j = refl
get_or-set_zero (x ∷ xs) zero h zero = refl
get_or-set_zero (x ∷ xs) zero h (suc j) = h (suc j)
get_or-set_zero (x ∷ xs) (suc i) h zero = h zero
get_or-set_zero (x ∷ xs) (suc i) h (suc j) = get_or-set_zero xs i (λ k. h (suc k)) j

-- No age is below 0.
touch_loop_zero : (n base w : ℕ) (ages : List ℕ) → touch_loop 0 base n w ages ≡ ages
unfolding touch_loop
touch_loop_zero zero base w ages = refl
touch_loop_zero (suc n) base w ages =
    ap (touch_loop 0 base n (w + 1)) (ground arith) ∙ touch_loop_zero n base (w + 1) ages

touch_lru-AgesZero : (t : L2Tlb) (s way : ℕ) → AgesZero t.lru → AgesZero (touch_lru t s way).lru
unfolding touch_lru
touch_lru-AgesZero t s way h =
    let base = base_of t s in
    let same : touch_loop (get_or t.lru (base + way) 0) base t.ways 0 t.lru ≡ t.lru =
      ap (λ a. touch_loop a base t.ways 0 t.lru) (h (base + way))
      ∙ touch_loop_zero t.ways base 0 t.lru in
    λ i. ap (λ l. get_or (set l (base + way) 0) i 0) same ∙ get_or-set_zero t.lru (base + way) h i

looked_up-AgesZero :
    (t : L2Tlb) (s : ℕ) (o : Option ℕ) → AgesZero t.lru → AgesZero (looked_up t s o).1.lru
looked_up-AgesZero t s none h = h
looked_up-AgesZero t s (some w) h = touch_lru-AgesZero t s w h

victim_loop_zero :
    (ages : List ℕ) (base n w : ℕ) → AgesZero ages → victim_loop ages base n w (0, 0) ≡ (0, 0)
unfolding victim_loop
victim_loop_zero ages base zero w h = refl
victim_loop_zero ages base (suc n) w h =
    ap (victim_loop ages base n (w + 1)) (rw (h (base + w)) refl)
    ∙ victim_loop_zero ages base n (w + 1) h

-- The operations that change the buffer.
pub data Op : Type 0 where
  looking_up : (vpn asid : ℕ) → Op
  inserting : (vpn ppn pte asid : ℕ) → Op
  flushing : Op
  flushing_vaddr : (vpn : ℕ) → Op
  flushing_asid : (asid : ℕ) → Op
  flushing_vaddr_asid : (vpn asid : ℕ) → Op

abbrev pub perform : L2Tlb → Op → L2Tlb
perform t (looking_up vpn asid) = (lookup t vpn asid).1
perform t (inserting vpn ppn pte asid) = insert t vpn ppn pte asid
perform t flushing = flush t
perform t (flushing_vaddr vpn) = flush_vaddr t vpn
perform t (flushing_asid asid) = flush_asid t asid
perform t (flushing_vaddr_asid vpn asid) = flush_vaddr_asid t vpn asid

abbrev pub perform_all : L2Tlb → List Op → L2Tlb
perform_all t [] = t
perform_all t (op ∷ ops) = perform_all (perform t op) ops

perform-AgesZero : (t : L2Tlb) (op : Op) → AgesZero t.lru → AgesZero (perform t op).lru
unfolding lookup insert flush flush_vaddr flush_asid flush_vaddr_asid
perform-AgesZero t (looking_up vpn asid) h =
    looked_up-AgesZero t (set_of t vpn) (find_in_set t (answers vpn asid) (set_of t vpn)) h
perform-AgesZero t (inserting vpn ppn pte asid) h =
    let s = set_of t vpn in
    let w = chosen_way t vpn asid in
    let e = from_pte vpn ppn pte asid in
    touch_lru-AgesZero (record t { entries = set t.entries (base_of t s + w) e }) s w h
perform-AgesZero t flushing h = h
perform-AgesZero t (flushing_vaddr vpn) h = h
perform-AgesZero t (flushing_asid asid) h = h
perform-AgesZero t (flushing_vaddr_asid vpn asid) h = h

perform_all-AgesZero :
    (t : L2Tlb) (ops : List Op) → AgesZero t.lru → AgesZero (perform_all t ops).lru
perform_all-AgesZero t [] h = h
perform_all-AgesZero t (op ∷ ops) h =
    perform_all-AgesZero (perform t op) ops (perform-AgesZero t op h)

-- The way `w` is the first of the set whose entry passes the test.
abbrev pub FirstWay : L2Tlb → (s : ℕ) → (TlbEntry → Bool) → ℕ → Type 0
FirstWay t s test w =
    (w < t.ways)
    × (test (way_at t s w) ≡ true)
    × Fails default_entry test (base_of t s) t.entries 0 w

-- No way of the set has an entry that passes the test.
abbrev pub NoWay : L2Tlb → (s : ℕ) → (TlbEntry → Bool) → Type 0
NoWay t s test = Fails default_entry test (base_of t s) t.entries 0 t.ways

-- The first way that has the page, else the first invalid way of the set, else way 0.
abbrev pub Chooses : L2Tlb → (vpn asid w : ℕ) → Type 0
Chooses t vpn asid w =
    let s = set_of t vpn in
    FirstWay t s (answers vpn asid) w
    ⊎ (NoWay t s (answers vpn asid) × FirstWay t s is_invalid w)
    ⊎ (NoWay t s (answers vpn asid) × NoWay t s is_invalid × (w ≡ 0))

found-Chooses :
    (t : L2Tlb) (vpn asid : ℕ) (own free : Option ℕ)
    → Finds default_entry (answers vpn asid) (base_of t (set_of t vpn)) t.entries 0 t.ways own
    → Finds default_entry is_invalid (base_of t (set_of t vpn)) t.entries 0 t.ways free
    → Chooses t vpn asid (or_else own (or_else free 0))
found-Chooses t vpn asid (some w) free f g = inl f
found-Chooses t vpn asid none (some w) f g = inr (inl (f, g))
found-Chooses t vpn asid none none f g = inr (inr (f, g, refl))

-- In a buffer that a sequence of operations leaves from a new one every age is 0. So the way that an
-- insertion chooses is the first that has the page, else the first invalid one of the set, and in a
-- full set without the page always way 0; and the insertion writes the new entry at that way of the
-- set and no other entry.
pub chosen_way-perform_all :
    (total_entries ways latency vpn asid ppn pte : ℕ) (ops : List Op)
    → let t = perform_all (new total_entries ways latency) ops in
      AgesZero t.lru
      × ((w : ℕ) × Chooses t vpn asid w
          × (chosen_way t vpn asid ≡ w)
          × ((insert t vpn ppn pte asid).entries
              ≡ set t.entries (base_of t (set_of t vpn) + w) (from_pte vpn ppn pte asid)))
unfolding new chosen_way lru_victim insert touch_lru
chosen_way-perform_all total_entries ways latency vpn asid ppn pte ops =
    let t = perform_all (new total_entries ways latency) ops in
    let s = set_of t vpn in
    let own = find_in_set t (answers vpn asid) s in
    let free = find_in_set t is_invalid s in
    let zeros =
      perform_all-AgesZero (new total_entries ways latency) ops
        (λ i. get_or-replicate (set_count (total_entries / safe_ways ways) * safe_ways ways) i 0) in
    let way : chosen_way t vpn asid ≡ or_else own (or_else free 0) =
      ap (λ best. or_else own (or_else free best.1))
        (victim_loop_zero t.lru (base_of t s) t.ways 0 zeros) in
    (
      zeros,
      (
        or_else own (or_else free 0),
        found-Chooses t vpn asid own free
            (searched-Finds default_entry (answers vpn asid) (base_of t s) t.entries t.ways)
            (searched-Finds default_entry is_invalid (base_of t s) t.entries t.ways),
        way,
        ap (λ w. set t.entries (base_of t s + w) (from_pte vpn ppn pte asid)) way,
      ),
    )
