-- ===== src/Rob/Queue.antt =====
-- `allocate` and `commit_head` as the two ends of a queue.
use rvsim.Base.{
  ℕ, suc, ◌+◌, ◌-◌, ◌^◌, ◌<◌, ◌≡◌, refl, ap, ◌∙◌, inl, inr, Bool, true, [], ◌∷◌, ◌++◌, none, some,
  arith, length-set, set, All-append, ◌==◌, ==_iff, if◌then◌else◌, ◌⊎◌, Bool-cases,
}
use rvsim.Circular.{scan}
use rvsim.Circular.Window.{length-scan, scan_push, slot-slot}
use rvsim.Types.{RegIdx, InstSize}
use rvsim.Signals.{ControlSignals}
use rvsim.RobTag.{next_after}
use rvsim.RobTag.Age.{age, age-next_after_self, next_after-IsTag}
use rvsim.RobEntry.{RobEntry, default_entry, fresh_entry}
use rvsim.Rob.{Rob, capacity, step_index, insert_tag, allocate}
use rvsim.Rob.Inv.{
  contents, IsValid, IsLive, Aged, Aged-mono, Aged-snoc, position_snoc, position_next,
}

-- The oldest entry is so young that one more tag keeps all ages below 2 ^ 31.
abbrev pub HasTagRoom : Rob → Type 0
HasTagRoom r = Aged r.next_tag (2 ^ 31 - 2) (contents r)

-- A buffer with an entry written at the tail.
abbrev pub pushed : Rob → RobEntry → Rob
pushed r e = record r {
  next_tag = next_after r.next_tag;
  entries = set r.entries r.tail e;
  tag_index = insert_tag r.tag_index r.next_tag r.tail;
  tail = step_index r r.tail;
  count = r.count + 1;
}

module _ {r : Rob} (e : RobEntry) (v : IsValid r) (fits : r.count < capacity r) where
  pub contents-pushed : contents (pushed r e) ≡ contents r ++ e ∷ []
  contents-pushed =
      ap (λ c. scan default_entry (set r.entries r.tail e) c r.head (r.count + 1))
        (length-set r.entries r.tail e)
      ∙ ap (scan default_entry (set r.entries r.tail e) (capacity r) r.head) {x = r.count + 1}
          {y = suc r.count} (omega arith)
      ∙ ap (λ i. scan default_entry (set r.entries i e) (capacity r) r.head (suc r.count)) v.tail_eq
      ∙ scan_push default_entry (capacity r) r.head v.head_lt r.entries r.count e fits (omega arith)

  pub pushed-IsValid : HasTagRoom r → e.tag ≡ r.next_tag → e.valid ≡ true → IsValid (pushed r e)
  pushed-IsValid room tagged live = record {
    head_lt = rw (length-set r.entries r.tail e) v.head_lt;
    count_le = rw (length-set r.entries r.tail e) (omega arith);
    tail_eq =
        rw (length-set r.entries r.tail e, v.tail_eq) (slot-slot (capacity r) r.head r.count 1);
    next_IsTag = next_after-IsTag r.next_tag v.next_IsTag;
    live = rw contents-pushed (All-append IsLive (contents r) (e ∷ []) v.live (live, tt));
    aged = rw contents-pushed (
        Aged-mono (next_after r.next_tag) (2 ^ 31 - 2 + age (next_after r.next_tag) r.next_tag)
          (2 ^ 31) (contents r ++ e ∷ [])
          (omega (arith, age-next_after_self r.next_tag v.next_IsTag))
          (Aged-snoc r.next_tag (2 ^ 31 - 2) (contents r) e v.next_IsTag (omega arith) (omega arith)
            tagged room));
    indexed = λ t.
        rw
          (
            contents-pushed,
            length-set r.entries r.tail e,
            position_snoc t (contents r) e
                (rw tagged (position_next r.next_tag _ (contents r) v.aged)),
          )
          (ground (
            arith,
            v.indexed t,
            v.tail_eq,
            length-scan default_entry r.entries (capacity r) r.head r.count,
          ));
  }

-- `allocate` refuses exactly when the buffer is full, and then changes nothing. Otherwise, while the
-- tags in flight span less than 2 ^ 31 - 2, it hands out the next tag, appends the fresh entry to
-- the entries in flight and keeps the invariant.
pub allocate_refines :
    (r : Rob) (pc inst : ℕ) (size : InstSize) (rd : RegIdx) (rd_fp : Bool) (ctrl : ControlSignals)
    (dst old : ℕ)
    → IsValid r
    → HasTagRoom r
    → let (t, r') = allocate r pc inst size rd rd_fp ctrl dst old in
      ((r.count ≡ capacity r) × (t ≡ none) × (r' ≡ r))
      ⊎ ((r.count < capacity r)
          × (t ≡ some r.next_tag)
          × (contents r'
              ≡ contents r ++ fresh_entry r.next_tag pc inst size rd rd_fp ctrl dst old ∷ [])
          × IsValid r')
unfolding allocate
allocate_refines r pc inst size rd rd_fp ctrl dst old v room =
    elim (Bool-cases (r.count == capacity r)) [
      | inl full ↦ rw (full, if◌then◌else◌) (inl ((==_iff r.count (capacity r)).0 full, refl, refl))
      | inr more ↦
          let fits : r.count < capacity r = ground (arith, v.count_le) in
          let e = fresh_entry r.next_tag pc inst size rd rd_fp ctrl dst old in
          rw (more, if◌then◌else◌)
            (inr (fits, refl, contents-pushed e v fits, pushed-IsValid e v fits room refl refl))
    ]
