-- ===== src/Rob/Queries/Older.antt =====
-- The searches that look at the entries older than a tag.
use rvsim.Base.{
  ℕ, ◌≡◌, refl, sym, ap, inl, inr, Bool, true, false, not, ◌&&◌, ◌||◌, List, [], ◌∷◌, Option, none,
  some, arith, All, if◌then◌else◌, ◌==◌, ==_iff, Bool-cases,
}
use rvsim.Circular.{scan}
use rvsim.RobTag.{RobTag}
use rvsim.RobEntry.{RobEntry, is_issued, default_entry}
use rvsim.Rob.{Rob, capacity}
use rvsim.Rob.Inv.{contents, IsValid, IsLive, position}
use rvsim.Rob.Queries.{
  visited, all_before_loop, all_before_completed, fence_dominates, fence_pred_loop,
  fence_pred_satisfied, fence_blocks, fence_blocking_loop, has_fence_blocking, prev_tag_loop,
  prev_tag_of,
}

-- The entries before the one with a tag; all, if none has it.
abbrev pub before : RobTag → List RobEntry → List RobEntry
before t [] = []
before t (e ∷ es) = if e.tag == t then [] else e ∷ before t es

abbrev pub every : (RobEntry → Bool) → List RobEntry → Bool
every p [] = true
every p (e ∷ es) = p e && every p es

abbrev pub some_one : (RobEntry → Bool) → List RobEntry → Bool
some_one p [] = false
some_one p (e ∷ es) = p e || some_one p es

abbrev pub last_tag : Option RobTag → List RobEntry → Option RobTag
last_tag prev [] = prev
last_tag prev (e ∷ es) = last_tag (some e.tag) es

abbrev pub if_there : Option ℕ → Option RobTag → Option RobTag
if_there none o = none
if_there (some n) o = o

all_before_loop-every :
    (t : RobTag) (es : List RobEntry)
    → All IsLive es
    → all_before_loop t es ≡ every (λ e. not (is_issued e.state)) (before t es)
unfolding all_before_loop
all_before_loop-every t [] live = refl
all_before_loop-every t (e ∷ es) live = ground (arith, all_before_loop-every t es live.1)

fence_pred_loop-every :
    (t : RobTag) (pred_r pred_w : Bool) (es : List RobEntry)
    → All IsLive es
    → fence_pred_loop t pred_r pred_w es
      ≡ every (λ e. not (is_issued e.state && fence_dominates pred_r pred_w e)) (before t es)
unfolding fence_pred_loop
fence_pred_loop-every t pred_r pred_w [] live = refl
fence_pred_loop-every t pred_r pred_w (e ∷ es) live =
    ground (arith, fence_pred_loop-every t pred_r pred_w es live.1)

fence_blocking_loop-some_one :
    (t : RobTag) (is_load is_store : Bool) (es : List RobEntry)
    → All IsLive es
    → fence_blocking_loop t is_load is_store es
      ≡ some_one (fence_blocks is_load is_store) (before t es)
unfolding fence_blocking_loop
fence_blocking_loop-some_one t is_load is_store [] live = refl
fence_blocking_loop-some_one t is_load is_store (e ∷ es) live =
    ground (arith, fence_blocking_loop-some_one t is_load is_store es live.1)

prev_tag_loop-last_tag :
    (t : RobTag) (prev : Option RobTag) (es : List RobEntry)
    → All IsLive es
    → prev_tag_loop t prev es ≡ if_there (position t es) (last_tag prev (before t es))
unfolding prev_tag_loop
prev_tag_loop-last_tag t prev [] live = refl
prev_tag_loop-last_tag t prev (e ∷ es) live =
    ground (arith, prev_tag_loop-last_tag t (some e.tag) es live.1)

-- The empty sets of a fence hold everywhere.
every-true :
    (es : List RobEntry)
    → every (λ e. not (is_issued e.state && fence_dominates false false e)) es ≡ true
every-true [] = refl
every-true (e ∷ es) = ground (arith, every-true es)

some_one-false : (es : List RobEntry) → some_one (fence_blocks false false) es ≡ false
some_one-false [] = refl
some_one-false (e ∷ es) = ground (arith, some_one-false es)

no_entries : (r : Rob) → (r.count == 0) ≡ true → contents r ≡ []
no_entries r h = ap (scan default_entry r.entries (capacity r) r.head) ((==_iff r.count 0).0 h)

all_before-every :
    (r : Rob) (t : RobTag)
    → IsValid r
    → all_before_completed r t ≡ every (λ e. not (is_issued e.state)) (before t (contents r))
unfolding all_before_completed
all_before-every r t v = elim (Bool-cases (r.count == 0)) [
  | inl empty ↦
      rw (empty, if◌then◌else◌)
        (sym (ap (λ l. every (λ e. not (is_issued e.state)) (before t l)) (no_entries r empty)))
  | inr more ↦ rw (more, if◌then◌else◌) (all_before_loop-every t (contents r) v.live)
]

guarded_fence :
    (r : Rob) (t : RobTag) (pred_r pred_w : Bool)
    → IsValid r
    → (if r.count == 0 then true else fence_pred_loop t pred_r pred_w (visited r))
      ≡ every
          (λ e. not (is_issued e.state && fence_dominates pred_r pred_w e))
          (before t (contents r))
guarded_fence r t pred_r pred_w v = elim (Bool-cases (r.count == 0)) [
  | inl empty ↦
      rw (empty, if◌then◌else◌)
        (sym (
          ap
            (λ l.
              every (λ e. not (is_issued e.state && fence_dominates pred_r pred_w e)) (before t l))
            (no_entries r empty)))
  | inr more ↦ rw (more, if◌then◌else◌) (fence_pred_loop-every t pred_r pred_w (contents r) v.live)
]

fence_pred-every :
    (r : Rob) (t : RobTag) (pred_r pred_w : Bool)
    → IsValid r
    → fence_pred_satisfied r t pred_r pred_w
      ≡ every
          (λ e. not (is_issued e.state && fence_dominates pred_r pred_w e))
          (before t (contents r))
unfolding fence_pred_satisfied
fence_pred-every r t false false v = sym (every-true (before t (contents r)))
fence_pred-every r t false true v = guarded_fence r t false true v
fence_pred-every r t true false v = guarded_fence r t true false v
fence_pred-every r t true true v = guarded_fence r t true true v

fence_blocking-some_one :
    (r : Rob) (t : RobTag) (is_load is_store : Bool)
    → IsValid r
    → has_fence_blocking r t is_load is_store
      ≡ some_one (fence_blocks is_load is_store) (before t (contents r))
unfolding has_fence_blocking
fence_blocking-some_one r t is_load is_store v = elim (Bool-cases (r.count == 0)) [
  | inl empty ↦
      rw (empty, if◌then◌else◌)
        (sym (ap (λ l. some_one (fence_blocks is_load is_store) (before t l)) (no_entries r empty)))
  | inr more ↦ rw more (go is_load is_store)
]
  where
    go :
        (l s : Bool)
        → (if not l && not s then false else fence_blocking_loop t l s (visited r))
          ≡ some_one (fence_blocks l s) (before t (contents r))
    go false false = sym (some_one-false (before t (contents r)))
    go false true = fence_blocking_loop-some_one t false true (contents r) v.live
    go true false = fence_blocking_loop-some_one t true false (contents r) v.live
    go true true = fence_blocking_loop-some_one t true true (contents r) v.live

-- The three conditions of issue look at the entries older than the tag and no others:
-- `all_before_completed` asks that none is still executing; `fence_pred_satisfied` that none of the
-- loads and stores which the predecessor set names is; `has_fence_blocking` whether one is a fence
-- whose successor set names the access.
pub all_before_completed-every :
    (r : Rob) (t : RobTag) (pred_r pred_w is_load is_store : Bool)
    → IsValid r
    → (all_before_completed r t ≡ every (λ e. not (is_issued e.state)) (before t (contents r)))
      × (fence_pred_satisfied r t pred_r pred_w
          ≡ every
              (λ e. not (is_issued e.state && fence_dominates pred_r pred_w e))
              (before t (contents r)))
      × (has_fence_blocking r t is_load is_store
          ≡ some_one (fence_blocks is_load is_store) (before t (contents r)))
all_before_completed-every r t pred_r pred_w is_load is_store v = (
  all_before-every r t v,
  fence_pred-every r t pred_r pred_w v,
  fence_blocking-some_one r t is_load is_store v,
)

-- `prev_tag_of` gives the tag of the entry right before the one with the tag, and `none` when the tag
-- is not in flight or is the oldest.
pub prev_tag_of-last_tag :
    (r : Rob) (t : RobTag)
    → IsValid r
    → prev_tag_of r t ≡ if_there (position t (contents r)) (last_tag none (before t (contents r)))
unfolding prev_tag_of
prev_tag_of-last_tag r t v = elim (Bool-cases (r.count == 0)) [
  | inl empty ↦
      rw (empty, if◌then◌else◌)
        (sym (ap (λ l. if_there (position t l) (last_tag none (before t l))) (no_entries r empty)))
  | inr more ↦ rw (more, if◌then◌else◌) (prev_tag_loop-last_tag t none (contents r) v.live)
]
