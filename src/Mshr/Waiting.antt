-- ===== src/Mshr/Waiting.antt =====
-- Who waits for which line: requests lose no waiter, and completions free exactly the registers that
-- are due.
use rvsim.Base.{
  ℕ, suc, ◌+◌, ◌-◌, ◌%◌, ◌^◌, ◌≡◌, ◌⊎◌, refl, sym, ap, subst, ◌∙◌, Bool, true, false, not, List, [],
  ◌∷◌, ◌++◌, Option, none, some, map, filter, arith, length, length-set, get_or, leb, if◌then◌else◌,
  ◌==◌, Bool-cases, Option-cases, inl, inr,
}
use rvsim.Circular.Find.{position, amend_first, position_present}
use rvsim.Circular.Compact.{length-filter}
use rvsim.Mshr.{
  MshrFile, MshrEntry, MshrWaiter, CacheResponse, hit, mshr_full, mshr_allocated, mshr_coalesced,
  empty_entry, line_align, is_for, find_line, joined, is_free, allocated, coalesce, take_free,
  respond, request, is_due, taken, vacated, drain_loop, drain_completions,
}

abbrev pub is_refusal : CacheResponse → Bool
is_refusal hit = false
is_refusal (mshr_allocated c) = false
is_refusal (mshr_coalesced c) = false
is_refusal mshr_full = true

module _ {A : Type 0} (p : A → Bool) (x : A) (xs : List A) where
  filter_yes : p x ≡ true → filter p (x ∷ xs) ≡ x ∷ filter p xs
  filter_yes h = rw h refl

  filter_no : p x ≡ false → filter p (x ∷ xs) ≡ filter p xs
  filter_no h = rw h refl

module _ {P : Type 0} where
  abbrev pub is_valid : MshrEntry P → Bool
  is_valid e = e.valid

  pub record IsMshr (f : MshrFile P) : Type 0 where
    pub counted : f.count ≡ length (filter is_valid f.entries)
    pub sized : length f.entries ≡ f.cap

  -- The waiters for a line, in the order of their requests.
  abbrev pub waiting : ℕ → List (MshrEntry P) → List (MshrWaiter P)
  waiting line [] = []
  waiting line (e ∷ es) = if is_for line e then e.waiters else waiting line es

  waiting_absent :
      (line : ℕ) (es : List (MshrEntry P)) → position (is_for line) es ≡ none → waiting line es ≡ []
  waiting_absent line [] h = refl
  waiting_absent line (e ∷ es) h = elim (Bool-cases (is_for line e)) [
    | inl p ↦ absurd (ground (arith, p))
    | inr n ↦ rw (n, if◌then◌else◌) (waiting_absent line es (ground (arith, n)))
  ]

  waiting-joined :
      (line l : ℕ) (w : MshrWaiter P) (b : Bool) (es : List (MshrEntry P)) (k : ℕ)
      → position (is_for line) es ≡ some k
      → waiting l (amend_first (is_for line) (joined w b) es)
        ≡ (if l == line then waiting line es ++ w ∷ [] else waiting l es)
  waiting-joined line l w b [] k h = absurd (ground arith)
  waiting-joined line l w b (e ∷ es) k h = elim (Bool-cases (is_for line e)) [
    | inl p ↦ rw (p, if◌then◌else◌) (ground (arith, p))
    | inr n ↦ elim (Option-cases (position (is_for line) es)) [
      | inl none_left ↦ absurd (ground (arith, n, none_left))
      | inr (k', there) ↦
          let rest = waiting-joined line l w b es k' there in
          rw (n, if◌then◌else◌) (ground (arith, rest, n))
    ]
  ]

  waiting-allocated :
      (line l c : ℕ) (b : Bool) (w : MshrWaiter P) (es : List (MshrEntry P)) (k : ℕ)
      → position (is_for line) es ≡ none
      → position is_free es ≡ some k
      → waiting l (amend_first is_free (λ e. allocated line b c w) es)
        ≡ (if l == line then w ∷ [] else waiting l es)
  waiting-allocated line l c b w [] k h g = absurd (ground arith)
  waiting-allocated line l c b w (e ∷ es) k h g = elim (Bool-cases e.valid) [
    | inr free ↦ ground (arith, free)
    | inl busy ↦ elim (Option-cases (position is_free es)) [
      | inl none_left ↦ absurd (ground (arith, busy, none_left))
      | inr (k', there) ↦ elim (Bool-cases (e.line_addr == line)) [
        | inl same ↦ absurd (ground (arith, busy, same, h))
        | inr apart ↦ elim (Option-cases (position (is_for line) es)) [
          | inr (j, found) ↦ absurd (ground (arith, busy, apart, found, h))
          | inl absent ↦
              ground (arith, waiting-allocated line l c b w es k' absent there, busy, apart)
        ]
      ]
    ]
  ]

  count-joined :
      (line : ℕ) (w : MshrWaiter P) (b : Bool) (es : List (MshrEntry P))
      → length (filter is_valid (amend_first (is_for line) (joined w b) es))
        ≡ length (filter is_valid es)
  count-joined line w b [] = refl
  count-joined line w b (e ∷ es) = ground (arith, count-joined line w b es)

  count-allocated :
      (line c : ℕ) (b : Bool) (w : MshrWaiter P) (es : List (MshrEntry P)) (k : ℕ)
      → position is_free es ≡ some k
      → length (filter is_valid (amend_first is_free (λ e. allocated line b c w) es))
        ≡ length (filter is_valid es) + 1
  count-allocated line c b w [] k g = absurd (ground arith)
  count-allocated line c b w (e ∷ es) k g = elim (Bool-cases e.valid) [
    | inr free ↦ ground (arith, free)
    | inl busy ↦ elim (Option-cases (position is_free es)) [
      | inl none_left ↦ absurd (ground (arith, busy, none_left))
      | inr (k', there) ↦ ground (arith, count-allocated line c b w es k' there, busy)
    ]
  ]

  -- Without a free register all are counted.
  all_busy :
      (es : List (MshrEntry P))
      → position is_free es ≡ none
      → length (filter is_valid es) ≡ length es
  all_busy [] g = refl
  all_busy (e ∷ es) g = elim (Bool-cases e.valid) [
    | inr free ↦ absurd (ground (arith, free))
    | inl busy ↦ ground (arith, all_busy es (ground (arith, busy)), busy)
  ]

  -- What a request does: nothing where no register is left, and else the waiter comes last among
  -- those for its line.
  abbrev pub Requests : MshrFile P → ℕ → MshrWaiter P → CacheResponse × MshrFile P → Type 0
  Requests f line w (response, f') =
      ((is_refusal response ≡ true) × (f' ≡ f) × (f.count ≡ f.cap) × (find_line f line ≡ none))
      ⊎ ((is_refusal response ≡ false)
          × ((l : ℕ)
              → waiting l f'.entries
                ≡ (if l == line then waiting line f.entries ++ w ∷ [] else waiting l f.entries))
          × IsMshr f')

  module _ (f : MshrFile P) (line : ℕ) (b : Bool) (c : ℕ) (w : MshrWaiter P) (v : IsMshr f) where
    coalesce-Requests : (k : ℕ) → find_line f line ≡ some k → Requests f line w (coalesce f w b k)
    coalesce-Requests k h =
        let e = joined w b (get_or f.entries k empty_entry) in
        let same = position_present (is_for line) (joined w b) empty_entry f.entries k h in
        inr (
          refl,
          (λ l. ap (waiting l) (sym same) ∙ waiting-joined line l w b f.entries k h),
          record {
            counted =
                v.counted
                ∙ sym (count-joined line w b f.entries)
                ∙ ap (λ es. length (filter is_valid es)) same;
            sized = length-set f.entries k e ∙ v.sized;
          },
        )

    take_free-Requests :
        (o : Option ℕ)
        → find_line f line ≡ none
        → leb f.cap f.count ≡ false
        → position is_free f.entries ≡ o
        → Requests f line w (take_free f line b c w o)
    take_free-Requests none h room g =
        absurd (ground (arith, all_busy f.entries g, v.counted, v.sized))
    take_free-Requests (some k) h room g =
        let new_entry = λ (e : MshrEntry P). allocated line b c w in
        let same = position_present is_free new_entry empty_entry f.entries k g in
        inr (
          refl,
          (λ l.
              ap (waiting l) (sym same)
              ∙ waiting-allocated line l c b w f.entries k h g
              ∙ ap (λ ws. if l == line then ws ++ w ∷ [] else waiting l f.entries)
                  (sym (waiting_absent line f.entries h))),
          record {
            counted = omega (
              arith,
              v.counted,
              count-allocated line c b w f.entries k g,
              ap (λ es. length (filter is_valid es)) same,
            );
            sized = length-set f.entries k (allocated line b c w) ∙ v.sized;
          },
        )

    respond-Requests :
        (o : Option ℕ) → find_line f line ≡ o → Requests f line w (respond f line b c w o)
    respond-Requests (some k) h = coalesce-Requests k h
    respond-Requests none h = elim (Bool-cases (leb f.cap f.count)) [
      | inl full ↦
          rw (full, if◌then◌else◌)
            (inl
              (refl, refl, ground (arith, v.counted, v.sized, length-filter is_valid f.entries), h))
      | inr room ↦
          rw (room, if◌then◌else◌) (take_free-Requests (position is_free f.entries) h room refl)
    ]

  -- A request is refused only where every register is busy and none is for its line, and then changes
  -- nothing. Otherwise the waiter is added behind those for its line, no waiter for any line is lost,
  -- and the count stays the number of busy registers.
  pub request-Requests :
      (f : MshrFile P) (addr miss_latency current_cycle : ℕ) (is_write : Bool) (w : MshrWaiter P)
      → IsMshr f
      → Requests f (line_align f addr) w (request f addr is_write miss_latency current_cycle w)
  unfolding request
  request-Requests f addr miss_latency current_cycle is_write w v =
      let line = line_align f addr in
      respond-Requests f line is_write ((current_cycle + miss_latency) % 2 ^ 64) w v
        (find_line f line) refl

  abbrev Drained : ℕ → List (MshrEntry P) → ℕ → List (MshrEntry P) × List (MshrEntry P) × ℕ → Type 0
  Drained now es extra (rest, done, count) =
      (done ≡ map taken (filter (is_due now) es))
      × (filter is_valid rest ≡ filter (λ e. not (is_due now e)) (filter is_valid es))
      × (count ≡ length (filter is_valid rest) + extra)
      × (length rest ≡ length es)

  drain_due :
      (now : ℕ) (e : MshrEntry P) (es : List (MshrEntry P)) (count : ℕ)
      → is_due now e ≡ true
      → let (rest, done, count') = drain_loop now es (count - 1) in
        drain_loop now (e ∷ es) count ≡ (vacated ∷ rest, taken e ∷ done, count')
  unfolding drain_loop
  drain_due now e es count due = rw (due, if◌then◌else◌) refl

  drain_kept :
      (now : ℕ) (e : MshrEntry P) (es : List (MshrEntry P)) (count : ℕ)
      → is_due now e ≡ false
      → let (rest, done, count') = drain_loop now es count in
        drain_loop now (e ∷ es) count ≡ (e ∷ rest, done, count')
  unfolding drain_loop
  drain_kept now e es count kept = rw (kept, if◌then◌else◌) refl

  drain_loop-Drained :
      (now : ℕ) (es : List (MshrEntry P)) (count extra : ℕ)
      → count ≡ length (filter is_valid es) + extra
      → Drained now es extra (drain_loop now es count)
  unfolding drain_loop
  drain_loop-Drained now [] count extra h = (refl, refl, h, refl)
  drain_loop-Drained now (e ∷ es) count extra h =
      let stays = λ (x : MshrEntry P). not (is_due now x) in
      elim (Bool-cases (is_due now e)) [
        | inl due ↦
            let valid : e.valid ≡ true = ground (arith, due) in
            let was = filter_yes is_valid e es valid in
            let rest =
              drain_loop-Drained now es (count - 1) extra (omega (arith, h, ap length was)) in
            subst (Drained now (e ∷ es) extra) (sym (drain_due now e es count due)) (
              ap (λ l. taken e ∷ l) rest.0
                  ∙ sym (ap (map taken) (filter_yes (is_due now) e es due)),
              rest.1
                  ∙ sym
                      (ap (filter stays) was ∙ filter_no stays e (filter is_valid es) (ap not due)),
              rest.2,
              ap suc rest.3,
            )
        | inr kept ↦
            let missed = sym (ap (map taken) (filter_no (is_due now) e es kept)) in
            elim (Bool-cases e.valid) [
              | inl valid ↦
                  let was = filter_yes is_valid e es valid in
                  let rest =
                    drain_loop-Drained now es count (extra + 1) (omega (arith, h, ap length was)) in
                  let still = filter_yes is_valid e (drain_loop now es count).0 valid in
                  subst (Drained now (e ∷ es) extra) (sym (drain_kept now e es count kept)) (
                    rest.0 ∙ missed,
                    still
                        ∙ ap (λ l. e ∷ l) rest.1
                        ∙ sym (
                            ap (filter stays) was
                            ∙ filter_yes stays e (filter is_valid es) (ap not kept)),
                    omega (arith, rest.2, ap length still),
                    ap suc rest.3,
                  )
              | inr free ↦
                  let was = filter_no is_valid e es free in
                  let rest =
                    drain_loop-Drained now es count extra (omega (arith, h, ap length was)) in
                  let still = filter_no is_valid e (drain_loop now es count).0 free in
                  subst (Drained now (e ∷ es) extra) (sym (drain_kept now e es count kept)) (
                    rest.0 ∙ missed,
                    still ∙ rest.1 ∙ sym (ap (filter stays) was),
                    omega (arith, rest.2, ap length still),
                    ap suc rest.3,
                  )
            ]
      ]

  -- `drain_completions` returns the busy registers whose completion cycle has come, each one time and
  -- with its waiters, in order; the busy registers left are exactly the others, and the count is
  -- theirs.
  pub drain_completions-filter :
      (f : MshrFile P) (now : ℕ)
      → IsMshr f
      → let (done, f') = drain_completions f now in
        (done ≡ map taken (filter (is_due now) f.entries))
        × (filter is_valid f'.entries
            ≡ filter (λ e. not (is_due now e)) (filter is_valid f.entries))
        × IsMshr f'
  unfolding drain_completions
  drain_completions-filter f now v =
      let d = drain_loop-Drained now f.entries f.count 0 (omega (arith, v.counted)) in
      (d.0, d.1, record { counted = omega (arith, d.2); sized = d.3 ∙ v.sized })
