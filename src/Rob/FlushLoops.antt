-- ===== src/Rob/FlushLoops.antt =====
-- The loops of `flush_after`: the search for the tag, the removal behind it, and the recount.
use mathlib.Core.Option
use rvsim.Base.{
  ℕ, zero, suc, ◌+◌, ◌%◌, ◌≤◌, ◌<◌, ◌≡◌, ◌≢◌, refl, sym, ap, ap₂, ◌∙◌, inl, inr, true, false, List,
  [], ◌∷◌, Option, none, some, arith, length-set, set, get_or, take, All, ◌==◌, ==_iff,
  if◌then◌else◌, ◌⊎◌, Option-cases, subst,
}
use rvsim.Circular.{slot}
use rvsim.Circular.Window.{part, part-suc, part-set_out, slot-ne, slot-slot}
use rvsim.RobTag.{RobTag}
use rvsim.RobEntry.{RobEntry, default_entry}
use rvsim.Rob.{
  Rob, capacity, entry_at, step_index, remove_tag, find_index, remove_until_tail, recount,
}
use rvsim.Rob.Inv.{IsLive, position}
use rvsim.Rob.Forget.{forget}

-- The queue up to the entry with a tag, that entry included; all of it, if there is none.
abbrev pub keep_through : RobTag → List RobEntry → List RobEntry
keep_through t [] = []
keep_through t (e ∷ es) = if e.tag == t then e ∷ [] else e ∷ keep_through t es

abbrev removed : Rob → ℕ → Rob
removed r i = record r {
  tag_index = remove_tag r.tag_index (entry_at r i).tag;
  entries = set r.entries i (record (entry_at r i) { valid = false });
}

-- What the removal loop does from place `a`, `n` places before the tail.
pub record Removed (cap : ℕ) (r : Rob) (a n : ℕ) (q : Rob) : Type 0 where
  pub same_head : q.head ≡ r.head
  pub same_next : q.next_tag ≡ r.next_tag
  pub same_capacity : capacity q ≡ cap
  pub kept :
      (b : ℕ)
      → b ≤ a
      → part default_entry cap r.head q.entries 0 b ≡ part default_entry cap r.head r.entries 0 b
  pub forgot : q.tag_index ≡ forget (part default_entry cap r.head r.entries a n) r.tag_index

remove_stops : (fuel : ℕ) (r : Rob) (i : ℕ) → i ≡ r.tail → remove_until_tail fuel r i ≡ r
unfolding remove_until_tail
remove_stops zero r i e = refl
remove_stops (suc fuel) r i e = rw ((==_iff i r.tail).1 e, if◌then◌else◌)

remove_steps :
    (fuel : ℕ) (r : Rob) (i : ℕ)
    → i ≢ r.tail
    → remove_until_tail (suc fuel) r i ≡ remove_until_tail fuel (removed r i) (step_index r i)
unfolding remove_until_tail
remove_steps fuel r i ne = ground (arith, ==_iff i r.tail)

-- One round of the loop, before a loop from the next place on.
Removed-step :
    (fuel n a i cap : ℕ) (r : Rob)
    → r.head < cap
    → a + suc n ≤ cap
    → 1 ≤ a
    → i ≡ slot cap r.head a
    → r.tail ≡ slot cap r.head (a + suc n)
    → Removed cap (removed r i) (a + 1) n (remove_until_tail fuel (removed r i) (step_index r i))
    → Removed cap r a (suc n) (remove_until_tail (suc fuel) r i)
Removed-step fuel n a i cap r hh hn ha e et ih =
    rw
      (remove_steps fuel r i
        (λ stop. slot-ne cap r.head a (a + suc n) hh (omega arith) hn (inl ha) (sym e ∙ stop ∙ et)))
      (record {
        same_head = ih.same_head;
        same_next = ih.same_next;
        same_capacity = ih.same_capacity;
        kept = λ b hb. ih.kept b (omega arith) ∙ untouched 0 b (omega arith) (inr (omega arith));
        forgot =
            ih.forgot
            ∙ ap₂ (λ l x. forget l (remove_tag r.tag_index x.tag))
                (untouched (a + 1) n (omega arith) (inl (omega arith)))
                (ap (λ k. get_or r.entries k default_entry) e)
            ∙ sym
                (ap (λ l. forget l r.tag_index) (part-suc default_entry cap r.head r.entries a n));
      })
  where
    x : RobEntry
    x = record (entry_at r i) { valid = false }

    untouched :
        (b m : ℕ)
        → b + m ≤ cap
        → (a < b) ⊎ (b + m ≤ a)
        → part default_entry cap r.head (set r.entries i x) b m
          ≡ part default_entry cap r.head r.entries b m
    untouched b m hb out =
        ap (λ k. part default_entry cap r.head (set r.entries k x) b m) e
        ∙ part-set_out default_entry cap r.head r.entries b m a x hh hb (omega arith) out

pub remove-Removed :
    (fuel n a i cap : ℕ) (r : Rob)
    → capacity r ≡ cap
    → r.head < cap
    → a + n ≤ cap
    → 1 ≤ a
    → n ≤ fuel
    → i ≡ slot cap r.head a
    → r.tail ≡ slot cap r.head (a + n)
    → Removed cap r a n (remove_until_tail fuel r i)
remove-Removed fuel zero a i cap r ec hh hn ha hf e et =
    rw (remove_stops fuel r i (e ∙ ap (slot cap r.head) {x = a} {y = a + 0} (omega arith) ∙ sym et))
      (record {
        same_head = refl;
        same_next = refl;
        same_capacity = ec;
        kept = λ b _. refl;
        forgot = refl;
      })
remove-Removed zero (suc n) a i cap r ec hh hn ha hf e et = elim hf [ ]
remove-Removed (suc fuel) (suc n) a i cap r ec hh hn ha hf e et =
    let x = record (entry_at r i) { valid = false } in
    Removed-step fuel n a i cap r hh hn ha e et (
      remove-Removed fuel n (a + 1) (step_index r i) cap (removed r i)
        (length-set r.entries i x ∙ ec) hh (omega arith) (omega arith) (omega arith)
        (ap₂ (λ j c. (j + 1) % c) e ec ∙ slot-slot cap r.head a 1)
        (et ∙ ap (slot cap r.head) {x = a + suc n} {y = a + 1 + n} (omega arith)))

-- The recount sees the live entries between `i` and the tail.
pub recount-live :
    (fuel n a i acc cap : ℕ) (r : Rob)
    → capacity r ≡ cap
    → r.head < cap
    → a + n < cap
    → n ≤ fuel
    → i ≡ slot cap r.head a
    → r.tail ≡ slot cap r.head (a + n)
    → All IsLive (part default_entry cap r.head r.entries a n)
    → recount fuel r i acc ≡ acc + n
unfolding recount
recount-live zero zero a i acc cap r ec hh hn hf e et live = omega arith
recount-live zero (suc n) a i acc cap r ec hh hn hf e et live = elim hf [ ]
recount-live (suc fuel) zero a i acc cap r ec hh hn hf e et live =
    let stop : i ≡ r.tail = e ∙ ap (slot cap r.head) {x = a} {y = a + 0} (omega arith) ∙ sym et in
    rw ((==_iff i r.tail).1 stop, if◌then◌else◌) (omega arith)
recount-live (suc fuel) (suc n) a i acc cap r ec hh hn hf e et live =
    let here = subst (All IsLive) (part-suc default_entry cap r.head r.entries a n) live in
    let valid : (entry_at r i).valid ≡ true =
      ap (λ k. (get_or r.entries k default_entry).valid) e ∙ here.0 in
    let go_on : i ≢ r.tail = λ stop.
      slot-ne cap r.head a (a + suc n) hh (omega arith) (omega arith) (inr hn)
        (sym e ∙ stop ∙ et) in
    let later : recount fuel r (step_index r i) (acc + 1) ≡ acc + 1 + n =
      recount-live fuel n (a + 1) (step_index r i) (acc + 1) cap r ec hh (omega arith) (omega arith)
        (ap₂ (λ j c. (j + 1) % c) e ec ∙ slot-slot cap r.head a 1)
        (et ∙ ap (slot cap r.head) {x = a + suc n} {y = a + 1 + n} (omega arith)) here.1 in
    ground (arith, valid, later, ==_iff i r.tail, go_on)

-- The search finds the place of the first entry with the tag.
find_step :
    (x : RobEntry) (es : List RobEntry) (rest : Option ℕ) (t : RobTag) (i cap h a : ℕ)
    → i ≡ slot cap h a
    → rest ≡ Option.map (λ k. slot cap h (a + 1 + k)) (position t es)
    → (if x.tag == t then some i else rest)
      ≡ Option.map (λ k. slot cap h (a + k)) (position t (x ∷ es))
find_step x es rest t i cap h a e ih = elim (Option-cases (position t es)) [
  | inl gone ↦ ground (arith, gone, ap (slot cap h) {x = a} {y = a + 0})
  | inr (k, there) ↦ ground (
    arith,
    there,
    ap (slot cap h) {x = a} {y = a + 0},
    ap (slot cap h) {x = a + 1 + k} {y = a + suc k},
  )
]

pub find_index-position :
    (n a i cap : ℕ) (r : Rob) (t : RobTag)
    → capacity r ≡ cap
    → i ≡ slot cap r.head a
    → find_index n r t i
      ≡ Option.map
          (λ k. slot cap r.head (a + k))
          (position t (part default_entry cap r.head r.entries a n))
unfolding find_index
find_index-position zero a i cap r t ec e = refl
find_index-position (suc n) a i cap r t ec e =
    let rest = part default_entry cap r.head r.entries (a + 1) n in
    find_step (entry_at r i) rest (find_index n r t (step_index r i)) t i cap r.head a e (
      find_index-position n (a + 1) (step_index r i) cap r t ec
        (ap₂ (λ j c. (j + 1) % c) e ec ∙ slot-slot cap r.head a 1))
    ∙ ap
        (λ k.
          Option.map (λ k. slot cap r.head (a + k))
            (position t (get_or r.entries k default_entry ∷ rest)))
        e
    ∙ ap (λ l. Option.map (λ k. slot cap r.head (a + k)) (position t l))
        (sym (part-suc default_entry cap r.head r.entries a n))

pub keep_through-none :
    (t : RobTag) (es : List RobEntry) → position t es ≡ none → keep_through t es ≡ es
keep_through-none t [] h = refl
keep_through-none t (e ∷ es) h = elim (Option-cases (position t es)) [
  | inl gone ↦ ground (arith, gone, keep_through-none t es gone)
  | inr (k, there) ↦ ground (arith, there)
]

pub keep_through-take :
    (t : RobTag) (es : List RobEntry) (k : ℕ)
    → position t es ≡ some k
    → keep_through t es ≡ take (suc k) es
keep_through-take t [] k h = cc
keep_through-take t (e ∷ es) k h = elim (Option-cases (position t es)) [
  | inl gone ↦ ground (arith, gone)
  | inr (j, there) ↦ ground (arith, there, keep_through-take t es j there)
]
