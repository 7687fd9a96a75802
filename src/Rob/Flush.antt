-- ===== src/Rob/Flush.antt =====
-- `flush_after` cuts the queue of entries in flight behind a tag, and `flush_all` empties it.
use mathlib.Core.Option
use native.Mathlib.Decide.{dec_lt}
use rvsim.Base.{
  ℕ, zero, suc, ◌+◌, ◌-◌, ◌%◌, ◌^◌, ◌≤◌, ◌<◌, ◌≡◌, ◌≢◌, refl, sym, ap, ap₂, ◌∙◌, inl, inr, false,
  List, [], ◌∷◌, ◌++◌, none, some, arith, length, length-replicate, get_or, take, All, Option-cases,
  subst, map,
}
use rvsim.Circular.{slot, scan}
use rvsim.Circular.Window.{length-scan, scan-append, part, scan-part, slot-ne, slot-slot, slot-zero}
use rvsim.RobTag.{RobTag}
use rvsim.RobEntry.{RobEntry, default_entry}
use rvsim.Rob.{
  Rob, capacity, step_index, find_index, remove_until_tail, recount, cut, flush_after, flush_all,
  new,
}
use rvsim.Rob.Inv.{contents, IsValid, IsLive, Aged, position, position-lt}
use rvsim.Rob.Forget.{indexed_cut, Aged-append_left, IsLive-append_left}
use rvsim.Rob.FlushLoops.{
  Removed, remove-Removed, recount-live, find_index-position, keep_through, keep_through-none,
  keep_through-take,
}

take-scan :
    (d : RobEntry) (xs : List RobEntry) (cap i m n : ℕ) (rest : List RobEntry)
    → take m (scan d xs cap i m ++ rest) ≡ scan d xs cap i m
take-scan d xs cap i zero n rest = refl
take-scan d xs cap i (suc m) n rest =
    ap (◌∷◌ (get_or xs i d)) (take-scan d xs cap ((i + 1) % cap) m n rest)

module _ {r : Rob} (v : IsValid r) (m : ℕ) (lo : 1 ≤ m) (hi : m < r.count) where
  abbrev keep : ℕ
  keep = slot (capacity r) r.head m

  abbrev n : ℕ
  n = r.count - m

  abbrev front_part : List RobEntry
  front_part = scan default_entry r.entries (capacity r) r.head m

  abbrev back_part : List RobEntry
  back_part = scan default_entry r.entries (capacity r) keep n

  in_two : contents r ≡ front_part ++ back_part
  in_two =
      ap (scan default_entry r.entries (capacity r) r.head) {y = m + n} (omega arith)
      ∙ scan-append default_entry (capacity r) r.head v.head_lt r.entries m n

  pub take-contents : take m (contents r) ≡ front_part
  take-contents =
      ap (take m) in_two ∙ take-scan default_entry r.entries (capacity r) r.head m n back_part

  q : Rob
  q = remove_until_tail (capacity r) r keep

  q-Removed : Removed (capacity r) r m n q
  unfolding q
  q-Removed =
      remove-Removed (capacity r) n m keep (capacity r) r refl v.head_lt (omega (arith, v.count_le))
        lo (omega (arith, v.count_le)) refl
        (v.tail_eq ∙ ap (slot (capacity r) r.head) {y = m + n} (omega arith))

  front-kept : part default_entry (capacity r) r.head q.entries 0 m ≡ front_part
  front-kept =
      q-Removed.kept m (omega arith)
      ∙ sym (scan-part default_entry (capacity r) r.head v.head_lt r.entries m)

  counted : recount (capacity r) (record q { tail = keep }) r.head 0 ≡ m
  counted =
      recount-live (capacity r) m 0 r.head 0 (capacity r) (record q { tail = keep })
        q-Removed.same_capacity (rw q-Removed.same_head v.head_lt) (omega (arith, v.count_le))
        (omega (arith, v.count_le))
        (rw q-Removed.same_head (sym (slot-zero (capacity r) r.head v.head_lt)))
        (ap (λ h. slot (capacity r) h m) (sym q-Removed.same_head)
          ∙ ap (slot (capacity r) q.head) {x = m} {y = 0 + m} (omega arith))
        (subst (λ h. All IsLive (part default_entry (capacity r) h q.entries 0 m))
          (sym q-Removed.same_head)
          (subst (All IsLive) (sym front-kept)
            (IsLive-append_left front_part back_part (subst (All IsLive) in_two v.live))))
      ∙ omega arith

  contents-cut : contents (cut r keep) ≡ take m (contents r)
  unfolding q cut
  contents-cut =
      ap (scan default_entry q.entries (capacity q) q.head) counted
      ∙ ap₂ (λ c h. scan default_entry q.entries c h m) q-Removed.same_capacity q-Removed.same_head
      ∙ scan-part default_entry (capacity r) r.head v.head_lt q.entries m
      ∙ front-kept
      ∙ sym take-contents

  cut-IsValid : IsValid (cut r keep)
  unfolding q cut
  cut-IsValid =
      let aged = subst (Aged r.next_tag (2 ^ 31)) in_two v.aged in
      let same : contents (cut r keep) ≡ front_part = contents-cut ∙ take-contents in
      record {
        head_lt = rw (q-Removed.same_head, q-Removed.same_capacity) v.head_lt;
        count_le = rw (counted, q-Removed.same_capacity) (omega (arith, v.count_le));
        tail_eq = rw (counted, q-Removed.same_capacity, q-Removed.same_head);
        next_IsTag = rw q-Removed.same_next v.next_IsTag;
        live =
            subst (All IsLive) (sym same)
              (IsLive-append_left front_part back_part (subst (All IsLive) in_two v.live));
        aged =
            subst (λ t. Aged t (2 ^ 31) (contents (cut r keep))) (sym q-Removed.same_next)
              (subst (Aged r.next_tag (2 ^ 31)) (sym same)
                (Aged-append_left r.next_tag (2 ^ 31) front_part back_part aged));
        indexed = λ t.
            ap (λ f. f t) q-Removed.forgot
            ∙ indexed_cut r.next_tag (2 ^ 31) (slot (capacity r) r.head) r.tag_index front_part
                back_part aged
                (λ u.
                  v.indexed u
                  ∙ ap (λ l. Option.map (slot (capacity r) r.head) (position u l)) in_two)
                t
            ∙ ap₂ (λ c h. Option.map (slot c h) (position t front_part))
                (sym q-Removed.same_capacity) (sym q-Removed.same_head)
            ∙ ap (λ l. Option.map (slot (capacity q) q.head) (position t l)) (sym same);
      }

take_all : (es : List RobEntry) → take (length es) es ≡ es
take_all [] = refl
take_all (e ∷ es) = ap (◌∷◌ e) (take_all es)

flush_after-absent :
    (r : Rob) (t : RobTag) → find_index r.count r t r.head ≡ none → flush_after r t ≡ r
unfolding flush_after
flush_after-absent r t h = ground (arith, h)

flush_after-last :
    (r : Rob) (t : RobTag) (i : ℕ)
    → find_index r.count r t r.head ≡ some i
    → step_index r i ≡ r.tail
    → flush_after r t ≡ r
unfolding flush_after
flush_after-last r t i h e = ground (arith, h)

flush_after-cut :
    (r : Rob) (t : RobTag) (i : ℕ)
    → r.count ≢ 0
    → find_index r.count r t r.head ≡ some i
    → step_index r i ≢ r.tail
    → flush_after r t ≡ cut r (step_index r i)
unfolding flush_after
flush_after-cut r t i n h e = ground (arith, h)

abbrev spot_from : Rob → ℕ → ℕ
spot_from r k = slot (capacity r) r.head (0 + k)

-- What a flush behind a tag leaves.
abbrev pub Cuts : RobTag → Rob → Rob → Type 0
Cuts t r r' = (contents r' ≡ keep_through t (contents r)) × IsValid r'

-- `flush_after` keeps exactly the entries in flight up to the one with the tag, and all of them if
-- none has it; and it keeps the invariant. Its loops stop within their fuel.
pub flush_after_refines : (r : Rob) (t : RobTag) → IsValid r → Cuts t r (flush_after r t)
flush_after_refines r t v = elim (Option-cases (position t (contents r))) [
  | inl gone ↦
      subst (Cuts t r) (sym (flush_after-absent r t (found ∙ ap (Option.map (spot_from r)) gone)))
        (sym (keep_through-none t (contents r) gone), v)
  | inr (k, there) ↦
      let k_lt : k < r.count =
        subst (λ n. k < n) (length-scan default_entry r.entries (capacity r) r.head r.count)
          (position-lt t (contents r) k there) in
      let at_k : find_index r.count r t r.head ≡ some (spot_from r k) =
        found ∙ ap (Option.map (spot_from r)) there in
      elim (dec_lt (suc k) r.count) [
        | yes more ↦
            let differs : step_index r (spot_from r k) ≢ r.tail = λ e.
              slot-ne (capacity r) r.head (suc k) r.count v.head_lt more v.count_le
                (inl (omega arith)) (sym (next k) ∙ e ∙ v.tail_eq) in
            subst (Cuts t r)
              (sym (
                flush_after-cut r t (spot_from r k) (omega arith) at_k differs
                ∙ ap (cut r) (next k)))
              (
                contents-cut v (suc k) (omega arith) more
                    ∙ sym (keep_through-take t (contents r) k there),
                cut-IsValid v (suc k) (omega arith) more,
              )
        | no last ↦
            subst (Cuts t r)
              (sym (
                flush_after-last r t (spot_from r k) at_k (
                  next k
                  ∙ ap (slot (capacity r) r.head) {x = suc k} {y = r.count} (omega arith)
                  ∙ sym v.tail_eq)))
              (
                sym (
                    keep_through-take t (contents r) k there
                    ∙ ap (λ n. take n (contents r)) {x = suc k} {y = length (contents r)}
                        (omega
                          (arith, length-scan default_entry r.entries (capacity r) r.head r.count))
                    ∙ take_all (contents r)),
                v,
              )
      ]
]
  where
    next : (k : ℕ) → step_index r (spot_from r k) ≡ slot (capacity r) r.head (suc k)
    next k =
        slot-slot (capacity r) r.head (0 + k) 1
        ∙ ap (slot (capacity r) r.head) {x = 0 + k + 1} {y = suc k} (omega arith)

    found : find_index r.count r t r.head ≡ Option.map (spot_from r) (position t (contents r))
    found =
        find_index-position r.count 0 r.head (capacity r) r t refl
          (sym (slot-zero (capacity r) r.head v.head_lt))
        ∙ ap (λ l. Option.map (spot_from r) (position t l))
            (sym (scan-part default_entry (capacity r) r.head v.head_lt r.entries r.count))

All-invalid :
    (es : List RobEntry)
    → length (map {A = RobEntry} (λ e. record e { valid = false }) es) ≡ length es
All-invalid [] = refl
All-invalid (e ∷ es) = ap suc (All-invalid es)

-- `flush_all` leaves no entry in flight and an index that knows no tag, and keeps the invariant and
-- the tag that comes next.
pub flush_all_refines :
    (r : Rob)
    → IsValid r
    → (contents (flush_all r) ≡ [])
      × ((t : RobTag) → (flush_all r).tag_index t ≡ none)
      × ((flush_all r).next_tag ≡ r.next_tag)
      × IsValid (flush_all r)
unfolding flush_all
flush_all_refines r v = (
  refl,
  λ t. refl,
  refl,
  record {
    head_lt = omega (arith, v.head_lt, All-invalid r.entries);
    count_le = omega arith;
    tail_eq =
        sym
          (slot-zero (capacity (flush_all r)) 0 (omega (arith, v.head_lt, All-invalid r.entries)));
    next_IsTag = v.next_IsTag;
    live = tt;
    aged = tt;
    indexed = λ t. refl;
  },
)

-- A new buffer of positive capacity is empty and satisfies the invariant.
pub new-IsValid : (n : ℕ) → 0 < n → (contents (new n) ≡ []) × IsValid (new n)
unfolding new
new-IsValid n h = (
  refl,
  record {
    head_lt = omega (arith, length-replicate n default_entry);
    count_le = omega arith;
    tail_eq =
        sym (slot-zero (capacity (new n)) 0 (omega (arith, length-replicate n default_entry)));
    next_IsTag = omega arith;
    live = tt;
    aged = tt;
    indexed = λ t. refl;
  },
)
