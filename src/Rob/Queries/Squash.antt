-- ===== src/Rob/Queries/Squash.antt =====
-- What a partial flush squashes: `iter_after` lists exactly the entries that `flush_after` removes,
-- so the physical registers that the engine reclaims are those of the squashed instructions.
use rvsim.Base.{
  ℕ, ◌^◌, ◌≤◌, ◌<◌, ◌≡◌, refl, sym, ap, ◌∙◌, inl, inr, Bool, ◌&&◌, List, [], ◌∷◌, ◌++◌, some, arith,
  All, filter, ◌==◌, ==_iff, Bool-cases, Option-cases, subst,
}
use rvsim.RobTag.{RobTag, is_newer_than}
use rvsim.RobTag.Age.{IsTag, age, is_newer_than-age}
use rvsim.RobEntry.{RobEntry}
use rvsim.Rob.{Rob, flush_after}
use rvsim.Rob.Inv.{contents, IsValid, IsLive, Aged, Aged-mono, position}
use rvsim.Rob.FlushLoops.{keep_through}
use rvsim.Rob.Flush.{flush_after_refines}
use rvsim.Rob.Queries.{iter_after, iter_in_order}

abbrev behind : RobTag → RobEntry → Bool
behind t e = e.valid && is_newer_than e.tag t

-- Entries younger than a tag are all behind it.
behind-filter :
    (next : ℕ) (t : RobTag) (es : List RobEntry)
    → IsTag next
    → IsTag t
    → age next t < 2 ^ 31
    → Aged next (age next t) es
    → All IsLive es
    → filter (behind t) es ≡ es
behind-filter next t [] hn ht lim a live = refl
behind-filter next t (e ∷ es) hn ht lim a live = ground (
  arith,
  is_newer_than-age next e.tag t hn a.0 ht,
  behind-filter next t es hn ht lim
      (Aged-mono next (age next e.tag) (age next t) es (omega arith) a.3) live.1,
)

-- A tag among the entries is one in use, with an age below the bound.
position-age :
    (next bound k : ℕ) (t : RobTag) (es : List RobEntry)
    → Aged next bound es
    → position t es ≡ some k
    → IsTag t × (age next t < bound)
position-age next bound k t [] a h = cc
position-age next bound k t (e ∷ es) a h = elim (Bool-cases (e.tag == t)) [
  | inl same ↦ rw (sym ((==_iff e.tag t).0 same)) (a.0, a.1)
  | inr other ↦ elim (Option-cases (position t es)) [
    | inl gone ↦ ground (arith, gone)
    | inr (j, there) ↦
        let below = position-age next (age next e.tag) j t es a.3 there in (below.0, omega arith)
  ]
]

-- The queue is the part that stays, followed by what is behind the tag.
split_behind :
    (next bound k : ℕ) (t : RobTag) (es : List RobEntry)
    → IsTag next
    → bound ≤ 2 ^ 31
    → Aged next bound es
    → All IsLive es
    → position t es ≡ some k
    → es ≡ keep_through t es ++ filter (behind t) es
split_behind next bound k t [] hn hb a live h = cc
split_behind next bound k t (e ∷ es) hn hb a live h = elim (Bool-cases (e.tag == t)) [
  | inl same ↦
      let tag : e.tag ≡ t = (==_iff e.tag t).0 same in
      let rest =
        behind-filter next t es hn (subst IsTag tag a.0)
          (subst (λ s. age next s < 2 ^ 31) tag (omega (arith, a.1)))
          (subst (λ s. Aged next (age next s) es) tag a.3) live.1 in
      let apart =
        is_newer_than-age next e.tag t hn a.0 (subst IsTag tag a.0) (omega (arith, a.1))
          (subst (λ s. age next s < 2 ^ 31) tag (omega (arith, a.1))) in
      ground (arith, rest, apart, tag)
  | inr other ↦ elim (Option-cases (position t es)) [
    | inl gone ↦ ground (arith, gone)
    | inr (j, there) ↦
        let below = position-age next (age next e.tag) j t es a.3 there in
        let rest = split_behind next (age next e.tag) j t es hn (omega arith) a.3 live.1 there in
        let apart =
          is_newer_than-age next e.tag t hn a.0 below.0 (omega (arith, a.1))
            (omega (arith, below.1, a.1)) in
        ground (arith, rest, apart, below.1)
  ]
]

-- While the tag is in flight, the entries listed by `iter_after` are those that `flush_after`
-- removes, in order: what is left and what is listed make up the queue.
pub iter_after-flush_after :
    (r : Rob) (t : RobTag) (k : ℕ)
    → IsValid r
    → position t (contents r) ≡ some k
    → contents r ≡ contents (flush_after r t) ++ iter_after r t
unfolding iter_after
iter_after-flush_after r t k v there =
    split_behind r.next_tag (2 ^ 31) k t (contents r) v.next_IsTag (omega arith) v.aged v.live there
    ∙ ap (λ l. l ++ filter (behind t) (contents r)) (sym (flush_after_refines r t v).0)

filter_live : (es : List RobEntry) → All IsLive es → filter (λ e. e.valid) es ≡ es
filter_live [] h = refl
filter_live (e ∷ es) h = ground (arith, filter_live es h.1)

-- `iter_in_order` and `iter_all` list the entries in flight, oldest first.
pub iter_in_order-contents : (r : Rob) → IsValid r → iter_in_order r ≡ contents r
unfolding iter_in_order
iter_in_order-contents r v = filter_live (contents r) v.live
