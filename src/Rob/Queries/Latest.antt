-- ===== src/Rob/Queries/Latest.antt =====
-- The value of a register that a younger instruction would read.
use rvsim.Base.{
  ℕ, ◌≡◌, refl, sym, ap, ◌∙◌, ◌≢◌, ◌↔◌, inl, inr, Bool, true, false, ◌||◌, List, [], ◌∷◌, ◌++◌,
  reverse, none, some, arith, All, if◌then◌else◌, ◌==◌, Bool-cases,
}
use rvsim.Circular.Window.{scan_back-eq-reverse}
use rvsim.Types.{RegIdx}
use rvsim.RobEntry.{RobEntry, default_entry, is_completed}
use rvsim.Rob.{Rob, capacity}
use rvsim.Rob.Inv.{contents, IsValid}
use rvsim.Rob.Queries.{names_register, hardwired, visited_back, latest_result, find_latest_result}

visited_back-reverse : (r : Rob) → IsValid r → visited_back r ≡ reverse (contents r)
visited_back-reverse r v =
    ap (λ i. visited_back (record r { tail = i })) v.tail_eq
    ∙ scan_back-eq-reverse default_entry (capacity r) r.head v.head_lt r.entries r.count v.count_le

-- The entries, newest first, split at the newest one that names the register.
pub record IsLatest (reg : RegIdx) (is_fp : Bool) (x : ℕ) (es : List RobEntry) : Type 0 where
  pub newer : List RobEntry
  pub entry : RobEntry
  pub older : List RobEntry
  pub split : es ≡ newer ++ entry ∷ older
  pub others : All (λ e. names_register reg is_fp e ≡ false) newer
  pub named : names_register reg is_fp entry ≡ true
  pub done : is_completed entry.state ≡ true
  pub value : entry.result ≡ some x

latest_result-IsLatest :
    (reg : RegIdx) (is_fp : Bool) (x : ℕ) (es : List RobEntry)
    → latest_result reg is_fp es ≡ some x
    → IsLatest reg is_fp x es
unfolding latest_result
latest_result-IsLatest reg is_fp x [] h = absurd cc
latest_result-IsLatest reg is_fp x (e ∷ es) h = elim (Bool-cases (names_register reg is_fp e)) [
  | inl hit ↦ elim (Bool-cases (is_completed e.state)) [
    | inl done ↦ record {
      newer = [];
      entry = e;
      older = es;
      split = refl;
      others = tt;
      named = hit;
      done = done;
      value = ground (arith, hit, done);
    }
    | inr waits ↦ absurd (ground (arith, hit, waits))
  ]
  | inr miss ↦
      let skipped : latest_result reg is_fp (e ∷ es) ≡ latest_result reg is_fp es =
        rw (miss, if◌then◌else◌) in
      let rest = latest_result-IsLatest reg is_fp x es (sym skipped ∙ h) in
      record {
        newer = e ∷ rest.newer;
        entry = rest.entry;
        older = rest.older;
        split = ap (◌∷◌ e) rest.split;
        others = (miss, rest.others);
        named = rest.named;
        done = rest.done;
        value = rest.value;
      }
]

latest_result_at :
    (reg : RegIdx) (is_fp : Bool) (x : ℕ) (newer : List RobEntry) (e : RobEntry)
    (older : List RobEntry)
    → All (λ f. names_register reg is_fp f ≡ false) newer
    → names_register reg is_fp e ≡ true
    → is_completed e.state ≡ true
    → e.result ≡ some x
    → latest_result reg is_fp (newer ++ e ∷ older) ≡ some x
unfolding latest_result
latest_result_at reg is_fp x [] e older others named done value =
    rw (named, if◌then◌else◌) (rw (done, if◌then◌else◌) value)
latest_result_at reg is_fp x (f ∷ newer) e older others named done value =
    rw (others.0, if◌then◌else◌)
      (latest_result_at reg is_fp x newer e older others.1 named done value)

-- `find_latest_result` returns a value exactly when the register is not x0, and the newest entry in
-- flight that names it has completed with that value.
pub find_latest_result_iff :
    (r : Rob) (reg : RegIdx) (is_fp : Bool) (x : ℕ)
    → IsValid r
    → (find_latest_result r reg is_fp ≡ some x)
      ↔ ((hardwired reg is_fp ≡ false) × IsLatest reg is_fp x (reverse (contents r)))
unfolding find_latest_result latest_result
find_latest_result_iff r reg is_fp x v = (forth, back_again)
  where
    newest_first : visited_back r ≡ reverse (contents r)
    newest_first = visited_back-reverse r v

    forth :
        find_latest_result r reg is_fp ≡ some x
        → (hardwired reg is_fp ≡ false) × IsLatest reg is_fp x (reverse (contents r))
    forth h = elim (Bool-cases ((r.count == 0) || hardwired reg is_fp)) [
      | inl off ↦ absurd (ground (arith, off))
      | inr on ↦
          let found : latest_result reg is_fp (visited_back r) ≡ some x = ground (arith, on) in
          (
            ground (arith, on),
            latest_result-IsLatest reg is_fp x (reverse (contents r))
                (ap (latest_result reg is_fp) (sym newest_first) ∙ found),
          )
    ]

    back_again :
        (hardwired reg is_fp ≡ false) × IsLatest reg is_fp x (reverse (contents r))
        → find_latest_result r reg is_fp ≡ some x
    back_again (on, l) =
        let found : latest_result reg is_fp (visited_back r) ≡ some x =
          ap (latest_result reg is_fp) (newest_first ∙ l.split)
          ∙ latest_result_at reg is_fp x l.newer l.entry l.older l.others l.named l.done l.value in
        let some_entry : r.count ≢ 0 = λ e.
          let gone : latest_result reg is_fp (visited_back r) ≡ none =
            ap (λ n. latest_result reg is_fp (visited_back (record r { count = n }))) e in
          cc in
        ground (arith, on, found, some_entry)
