-- ===== src/LoadQueue/Fill.antt =====
-- The changes to the load with a tag: its address and its data.
use rvsim.Base.{
  ℕ, ◌+◌, ◌<◌, ◌≡◌, refl, sym, ap, ◌∙◌, inl, inr, List, [], ◌∷◌, none, some, arith, length-set, set,
  filter, Option-cases,
}
use rvsim.Circular.{slot, scan}
use rvsim.Circular.Window.{scan-set_in, get_or-scan, length-scan}
use rvsim.Circular.Find.{
  position, amend_first, position-lt, position_absent, position_present, find_loop-position,
  as_slot,
}
use rvsim.RobTag.{RobTag}
use rvsim.LoadQueue.{
  LoadQueue, LoadQueueEntry, lq_capacity, slots, loads, is_valid, load_at, default_load, has_tag,
  find_by_tag, written, update_load, with_address, fill_address, with_data, fill_data,
}
use rvsim.LoadQueue.Inv.{IsSound}

module _ (lq : LoadQueue) (t : RobTag) (v : IsSound lq) where
  find_by_tag-position :
      find_by_tag lq t
      ≡ as_slot default_load
          (has_tag t)
          lq.entries
          (lq_capacity lq)
          lq.head
          0
          (position (has_tag t) (slots lq))
  unfolding find_by_tag
  find_by_tag-position =
      find_loop-position default_load (has_tag t) lq.entries (lq_capacity lq) lq.head lq.count
        v.head_lt

  abbrev pub index : ℕ → ℕ
  index k = slot (lq_capacity lq) lq.head (0 + k)

  pub unknown : position (has_tag t) (slots lq) ≡ none → find_by_tag lq t ≡ none
  unknown e =
      find_by_tag-position
      ∙ ap (as_slot default_load (has_tag t) lq.entries (lq_capacity lq) lq.head 0) e

  pub known : (k : ℕ) → position (has_tag t) (slots lq) ≡ some k → find_by_tag lq t ≡ some (index k)
  known k e =
      find_by_tag-position
      ∙ ap (as_slot default_load (has_tag t) lq.entries (lq_capacity lq) lq.head 0) e

  -- The entry found, changed in place.
  pub written-slots :
      (f : LoadQueueEntry → LoadQueueEntry) (k : ℕ)
      → position (has_tag t) (slots lq) ≡ some k
      → (slots (written lq (index k) f) ≡ amend_first (has_tag t) f (slots lq))
        × IsSound (written lq (index k) f)
  written-slots f k there =
      let i = index k in
      let size : lq_capacity (written lq i f) ≡ lq_capacity lq =
        length-set lq.entries i (f (load_at lq i)) in
      let within : k < lq.count = omega (
        arith,
        position-lt (has_tag t) (slots lq) k there,
        length-scan default_load lq.entries (lq_capacity lq) lq.head lq.count,
      ) in
      let here : i ≡ slot (lq_capacity lq) lq.head k =
        ap (slot (lq_capacity lq) lq.head) {x = 0 + k} {y = k} (omega arith) in
      (
        ap (λ c. scan default_load (written lq i f).entries c lq.head lq.count) size
            ∙ ap
                (λ j.
                  scan default_load (set lq.entries j (f (load_at lq j))) (lq_capacity lq) lq.head
                    lq.count)
                here
            ∙ scan-set_in default_load (lq_capacity lq) lq.head v.head_lt lq.entries lq.count k
                (f (load_at lq (slot (lq_capacity lq) lq.head k))) (omega arith) v.count_le within
            ∙ ap (λ e. set (slots lq) k (f e))
                (sym (
                  get_or-scan default_load (lq_capacity lq) lq.head v.head_lt lq.entries lq.count k
                    within))
            ∙ sym (position_present (has_tag t) f default_load (slots lq) k there),
        record {
          head_lt = rw size v.head_lt;
          count_le = rw size v.count_le;
          tail_eq = rw size v.tail_eq;
        },
      )

  update_load-slots :
      (f : LoadQueueEntry → LoadQueueEntry)
      → (slots (update_load lq t f) ≡ amend_first (has_tag t) f (slots lq))
        × IsSound (update_load lq t f)
  unfolding update_load
  update_load-slots f = elim (Option-cases (position (has_tag t) (slots lq))) [
    | inl gone ↦
        rw (unknown gone, update_load) (sym (position_absent (has_tag t) f (slots lq) gone), v)
    | inr (k, there) ↦ rw (known k there, update_load) (written-slots f k there)
  ]

-- A change that keeps a load live, among the live ones.
filter-amend_first :
    (t : RobTag) (f : LoadQueueEntry → LoadQueueEntry) (es : List LoadQueueEntry)
    → ((e : LoadQueueEntry) → (f e).valid ≡ e.valid)
    → filter is_valid (amend_first (has_tag t) f es)
      ≡ amend_first (has_tag t) f (filter is_valid es)
filter-amend_first t f [] keeps = refl
filter-amend_first t f (e ∷ es) keeps = ground (arith, keeps e, filter-amend_first t f es keeps)

-- The oldest load with the tag is changed, and no other one.
abbrev pub Amends : RobTag → (LoadQueueEntry → LoadQueueEntry) → LoadQueue → LoadQueue → Type 0
Amends t f lq lq' = (loads lq' ≡ amend_first (has_tag t) f (loads lq)) × IsSound lq'

-- `fill_address` and `fill_data` change the oldest live load that has the tag, in its place, and no
-- other load; both keep the invariant.
pub fill-Amends :
    (lq : LoadQueue) (t : RobTag) (vaddr paddr data' : ℕ)
    → IsSound lq
    → Amends t (with_address vaddr paddr) lq (fill_address lq t vaddr paddr)
      × Amends t (with_data data') lq (fill_data lq t data')
unfolding fill_address fill_data
fill-Amends lq t vaddr paddr data' v =
    let a = update_load-slots lq t v (with_address vaddr paddr) in
    let d = update_load-slots lq t v (with_data data') in
    (
      (
        ap (filter is_valid) a.0
            ∙ filter-amend_first t (with_address vaddr paddr) (slots lq) (λ e. refl),
        a.1,
      ),
      (
        ap (filter is_valid) d.0 ∙ filter-amend_first t (with_data data') (slots lq) (λ e. refl),
        d.1,
      ),
    )
