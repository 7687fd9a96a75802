-- ===== src/Rob/Commit.antt =====
-- `commit_head` and `peek_head` as the front of a queue.
use mathlib.Core.Option
use rvsim.Base.{
  ℕ, zero, suc, ◌+◌, ◌-◌, ◌%◌, ◌^◌, ◌≡◌, ◌≢◌, refl, sym, ap, ◌∙◌, inl, inr, true, false, List, [],
  ◌∷◌, Option, none, some, arith, length, length-set, set, All, if◌then◌else◌, Bool-cases, subst,
}
use rvsim.Circular.{slot, scan}
use rvsim.Circular.Window.{scan_pop, slot-slot, slot-lt}
use rvsim.RobTag.Age.{age}
use rvsim.RobEntry.{RobEntry, default_entry, is_issued}
use rvsim.Rob.{Rob, capacity, entry_at, step_index, remove_tag, commit_head, peek_head}
use rvsim.Rob.Inv.{
  indexed_popped, contents, IsValid, IsLive, Aged, Aged-mono, position, position_old,
}

-- The front of a queue of instructions leaves when it is no longer executing.
abbrev pub retire : List RobEntry → Option RobEntry × List RobEntry
retire [] = (none, [])
retire (e ∷ es) = if is_issued e.state then (none, e ∷ es) else (some e, es)

retire_waits :
    (e : RobEntry) (es : List RobEntry)
    → is_issued e.state ≡ true
    → retire (e ∷ es) ≡ (none, e ∷ es)
retire_waits e es w = rw w

retire_done :
    (e : RobEntry) (es : List RobEntry) → is_issued e.state ≡ false → retire (e ∷ es) ≡ (some e, es)
retire_done e es w = rw w

abbrev pub front : List RobEntry → Option RobEntry
front [] = none
front (e ∷ es) = some e

abbrev pub popped : Rob → Rob
popped r = record r {
  tag_index = remove_tag r.tag_index (entry_at r r.head).tag;
  entries = set r.entries r.head (record (entry_at r r.head) { valid = false });
  head = step_index r r.head;
  count = r.count - 1;
}

module _ {r : Rob} (v : IsValid r) (n : ℕ) (size : r.count ≡ suc n) where
  pub contents_nonempty : contents r ≡ entry_at r r.head ∷ contents (popped r)
  contents_nonempty =
      let e = record (entry_at r r.head) { valid = false } in
      let xs = set r.entries r.head e in
      ap (scan default_entry r.entries (capacity r) r.head) size
      ∙ scan_pop default_entry (capacity r) r.head v.head_lt r.entries n e
          (omega (arith, v.count_le))
      ∙ ap (λ c. entry_at r r.head ∷ scan default_entry xs c (step_index r r.head) n)
          (sym (length-set r.entries r.head e))
      ∙ ap
          (λ m. entry_at r r.head ∷ scan default_entry xs (length xs) ((r.head + 1) % capacity r) m)
          {x = n} {y = r.count - 1} (omega arith)

  popped-capacity : capacity (popped r) ≡ capacity r
  popped-capacity = length-set r.entries r.head (record (entry_at r r.head) { valid = false })

  pub popped-IsValid : IsValid (popped r)
  popped-IsValid =
      let live = subst (All IsLive) contents_nonempty v.live in
      let aged = subst (Aged r.next_tag (2 ^ 31)) contents_nonempty v.aged in
      let h = entry_at r r.head in
      record {
        head_lt = rw popped-capacity (slot-lt (capacity r) r.head 1 (omega (arith, v.head_lt)));
        count_le = rw popped-capacity (omega (arith, v.count_le));
        tail_eq =
            rw (popped-capacity, v.tail_eq, slot-slot (capacity r) r.head 1 (r.count - 1))
              (ap (slot (capacity r) r.head) {x = r.count} (omega arith));
        next_IsTag = v.next_IsTag;
        live = live.1;
        aged =
            Aged-mono r.next_tag (age r.next_tag h.tag) (2 ^ 31) (contents (popped r)) (omega arith)
              aged.3;
        indexed = λ t.
            subst
              (λ c.
                remove_tag r.tag_index h.tag t
                ≡ Option.map (slot c (step_index r r.head)) (position t (contents (popped r))))
              (sym popped-capacity)
              (indexed_popped (capacity r) r.head r.tag_index h (contents (popped r))
                (position_old r.next_tag h.tag (contents (popped r)) aged.3)
                (λ s.
                  v.indexed s
                  ∙ ap (λ l. Option.map (slot (capacity r) r.head) (position s l))
                      contents_nonempty)
                t);
      }

contents_empty : (r : Rob) → r.count ≡ 0 → contents r ≡ []
contents_empty r e = ap (scan default_entry r.entries (capacity r) r.head) e

commit_empty : (r : Rob) → r.count ≡ 0 → commit_head r ≡ (none, r)
unfolding commit_head
commit_empty r e = ground arith

commit_waits : (r : Rob) → is_issued (entry_at r r.head).state ≡ true → commit_head r ≡ (none, r)
unfolding commit_head
commit_waits r w = ground arith

commit_pops :
    (r : Rob)
    → r.count ≢ 0
    → is_issued (entry_at r r.head).state ≡ false
    → commit_head r ≡ (some (entry_at r r.head), popped r)
unfolding commit_head
commit_pops r n w = ground arith

some_not_none : (e : RobEntry) → some e ≢ none
some_not_none e h = cc

-- What a commit leaves; without an entry to return, the buffer itself.
abbrev pub Retires : Rob → Option RobEntry × Rob → Type 0
Retires r (o, r') =
    ((o, contents r') ≡ retire (contents r))
    × IsValid r'
    × (o ≡ none → r' ≡ r)
    × (r'.next_tag ≡ r.next_tag)
    × (capacity r' ≡ capacity r)

-- `commit_head` returns the front of the queue of entries in flight and leaves the rest, or returns
-- none when the queue is empty or its front is still executing, and then the buffer is the same in
-- every field. It keeps the invariant, the next tag and the capacity.
pub commit_head_refines : (r : Rob) → IsValid r → Retires r (commit_head r)
commit_head_refines r v = go r.count refl
  where
    go : (n : ℕ) → r.count ≡ n → Retires r (commit_head r)
    go zero e = subst (Retires r) (sym (commit_empty r e)) (
      ap (λ l. (none, l)) (contents_empty r e) ∙ sym (ap retire (contents_empty r e)),
      v,
      (λ h. refl),
      refl,
      refl,
    )
    go (suc n) e = elim (Bool-cases (is_issued (entry_at r r.head).state)) [
      | inl waits ↦ subst (Retires r) (sym (commit_waits r waits)) (
        ap (λ l. (none, l)) (contents_nonempty v n e)
            ∙ sym (ap retire (contents_nonempty v n e) ∙ retire_waits _ _ waits),
        v,
        (λ h. refl),
        refl,
        refl,
      )
      | inr done ↦ subst (Retires r) (sym (commit_pops r (omega arith) done)) (
        sym (ap retire (contents_nonempty v n e) ∙ retire_done _ _ done),
        popped-IsValid v n e,
        (λ h. absurd (some_not_none _ h)),
        refl,
        popped-capacity v n e,
      )
    ]

-- `peek_head` shows that front.
pub peek_head-front : (r : Rob) → IsValid r → peek_head r ≡ front (contents r)
unfolding peek_head
peek_head-front r v = go r.count refl
  where
    go : (n : ℕ) → r.count ≡ n → peek_head r ≡ front (contents r)
    go zero e = ground arith
    go (suc n) e =
        let shown : peek_head r ≡ some (entry_at r r.head) = ground arith in
        shown ∙ sym (ap front (contents_nonempty v n e))
