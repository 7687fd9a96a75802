-- ===== src/Cache/Install.antt =====
-- What is in the cache after a line is installed.
use native.Mathlib.Decide.{dec_lt}
use mathlib.Core.Bool.{false≢true}
use native.Mathlib.Nat.{mul-le-mul_right, mod-lt}
use rvsim.Base.{
  ℕ, suc, ◌+◌, ◌/◌, ◌<◌, ◌≡◌, ◌≢◌, refl, sym, ap, ap₂, ◌∙◌, Bool, true, false, not, ◌&&◌, ◌||◌,
  Option, none, some, arith, length, length-set, get_or-set_self, get_or-set_ne, if◌then◌else◌,
  ◌==◌, ==_iff, Bool-cases, ◌⊎◌, inl, inr,
}
use rvsim.Ways.{is_some}
use rvsim.Ways.Search.{Finds, searched-Finds, is_some-find_way, is_some-find_way_none}
use rvsim.Cache.Policy.{ReplacementPolicy, Lawful}
use rvsim.Cache.{
  CacheSim, CacheLine, EvictedLine, default_line, line_at, base_of, set_index, tag_of, holds,
  find_line, contains, evicted_line, write_line, install_line_tracked,
}
use rvsim.Cache.Inv.{IsCache, set_index-reconstruct_addr, tag_of-reconstruct_addr}

-- The cycles that an eviction costs.
abbrev pub write_back : ℕ → Option EvictedLine → ℕ
write_back latency none = 0
write_back latency (some e) = if e.dirty then latency else 0

elsewhere : (x v c : Bool) → x ≡ (x && not (v && false && c))
elsewhere x v c = ground arith

hereabouts : (x v c : Bool) → (x && not (v && c)) ≡ (x && not (v && true && c))
hereabouts x v c = ground arith

==_comm : (a b : ℕ) → (a == b) ≡ (b == a)
==_comm a b = ground arith

module _ {P F : Type 0} where
  -- Two addresses of one line.
  abbrev pub same_line : CacheSim P F → ℕ → ℕ → Bool
  same_line c a b = (set_index c a == set_index c b) && (tag_of c a == tag_of c b)

  abbrev pub is_evicted : CacheSim P F → ℕ → Option EvictedLine → Bool
  is_evicted c a none = false
  is_evicted c a (some e) = same_line c a e.addr

  -- Some way of the set holds the tag.
  abbrev pub present : CacheSim P F → ℕ → ℕ → Bool
  present d s' tag' = is_some (find_line d s' tag')

  present_way :
      (d : CacheSim P F) (s' tag' k : ℕ)
      → k < d.ways
      → holds tag' (line_at d s' k) ≡ true
      → present d s' tag' ≡ true
  present_way d s' tag' k lt h =
      is_some-find_way default_line (holds tag') (base_of d s') d.lines d.ways k lt h

  absent_ways :
      (d : CacheSim P F) (s' tag' : ℕ)
      → ((j : ℕ) → j < d.ways → holds tag' (line_at d s' j) ≡ false)
      → present d s' tag' ≡ false
  absent_ways d s' tag' f =
      is_some-find_way_none default_line (holds tag') (base_of d s') d.lines d.ways
        (λ j lo lt. f j lt)

  -- A set in which the tag is found at a way, or at none.
  abbrev Located : CacheSim P F → ℕ → ℕ → Type 0
  Located d s' tag' =
      ((k : ℕ) × (k < d.ways) × (holds tag' (line_at d s' k) ≡ true))
      ⊎ ((j : ℕ) → j < d.ways → holds tag' (line_at d s' j) ≡ false)

  locate : (d : CacheSim P F) (s' tag' : ℕ) → Located d s' tag'
  locate d s' tag' =
      go (find_line d s' tag')
        (searched-Finds default_line (holds tag') (base_of d s') d.lines d.ways)
    where
      go :
          (o : Option ℕ)
          → Finds default_line (holds tag') (base_of d s') d.lines 0 d.ways o
          → Located d s' tag'
      go none f = inr (λ j lt. f j (omega arith) lt)
      go (some k) (lt, here, f) = inl (k, lt, here)

  module _ (c : CacheSim P F) (v : IsCache c) (s w : ℕ) (ls : s < c.num_sets)
      (lw : w < c.ways) where
    abbrev i : ℕ
    i = base_of c s + w

    in_range : i < length c.lines
    in_range = omega (arith, v.sized, mul-le-mul_right c.ways ls)

    abbrev old : CacheLine
    old = line_at c s w

    module _ (tag : ℕ) (dirty : Bool) where
      abbrev new_line : CacheLine
      new_line = record { tag = tag; valid = true; dirty = dirty }

      abbrev after : CacheSim P F
      after = write_line c s w new_line

      at_way : line_at after s w ≡ new_line
      at_way = get_or-set_self c.lines i new_line default_line in_range

      other_way : (j : ℕ) → j ≢ w → line_at after s j ≡ line_at c s j
      other_way j ne =
          get_or-set_ne c.lines i (base_of c s + j) new_line default_line
            (λ e. ne (omega (arith, e)))

      other_set : (s' j : ℕ) → s' ≢ s → j < c.ways → line_at after s' j ≡ line_at c s' j
      other_set s' j ne lt = get_or-set_ne c.lines i (base_of c s' + j) new_line default_line (λ e.
          elim (dec_lt s s') [
            | yes l ↦ omega (arith, e, mul-le-mul_right c.ways l)
            | no g ↦
                omega (arith, e, mul-le-mul_right {m = suc s'} {n = s} c.ways (omega (arith, ne)))
          ])

      present-other_set : (s' tag' : ℕ) → s' ≢ s → present after s' tag' ≡ present c s' tag'
      present-other_set s' tag' ne = elim (locate c s' tag') [
        | inl (k, lt, here) ↦
            present_way after s' tag' k lt (ap (holds tag') (other_set s' k ne lt) ∙ here)
            ∙ sym (present_way c s' tag' k lt here)
        | inr f ↦
            absent_ways after s' tag' (λ j lt. ap (holds tag') (other_set s' j ne lt) ∙ f j lt)
            ∙ sym (absent_ways c s' tag' f)
      ]

      present-same_tag : present after s tag ≡ true
      present-same_tag = present_way after s tag w lw (ap (holds tag) at_way ∙ ground arith)

      -- Another tag stays, unless it was that of the way written.
      present-other_tag :
          (tag' : ℕ)
          → tag' ≢ tag
          → present after s tag' ≡ (present c s tag' && not (holds tag' old))
      present-other_tag tag' ne =
          let at_w : holds tag' (line_at after s w) ≡ false =
            ap (holds tag') at_way ∙ ground arith in
          elim (locate c s tag') [
            | inr f ↦
                absent_ways after s tag' (λ j lt. elim (Bool-cases (j == w)) [
                  | inl e ↦ ap (λ k. holds tag' (line_at after s k)) ((==_iff j w).0 e) ∙ at_w
                  | inr n ↦ ap (holds tag') (other_way j (ground arith)) ∙ f j lt
                ])
                ∙ sym (ap (λ b. b && not (holds tag' old)) (absent_ways c s tag' f))
            | inl (k, lt, here) ↦ elim (Bool-cases (k == w)) [
              | inl e ↦
                  let in_old : holds tag' old ≡ true =
                    ap (λ m. holds tag' (line_at c s m)) (sym ((==_iff k w).0 e)) ∙ here in
                  absent_ways after s tag' (λ j lj. elim (Bool-cases (j == w)) [
                    | inl e' ↦ ap (λ m. holds tag' (line_at after s m)) ((==_iff j w).0 e') ∙ at_w
                    | inr n ↦
                        ap (holds tag') (other_way j (ground arith))
                        ∙ alone j w tag' lj lw (ground arith) in_old
                  ])
                  ∙ sym (ap₂ (λ a b. a && not b) (present_way c s tag' k lt here) in_old)
              | inr n ↦
                  let gone : holds tag' old ≡ false = alone w k tag' lw lt (ground arith) here in
                  present_way after s tag' k lt
                    (ap (holds tag') (other_way k (ground arith)) ∙ here)
                  ∙ sym (ap₂ (λ a b. a && not b) (present_way c s tag' k lt here) gone)
            ]
          ]
        where
          alone :
              (a b t : ℕ)
              → a < c.ways
              → b < c.ways
              → a ≢ b
              → holds t (line_at c s b) ≡ true
              → holds t (line_at c s a) ≡ false
          alone a b t la lb ne' h = elim (Bool-cases (holds t (line_at c s a))) [
            | inr miss ↦ miss
            | inl hit ↦ absurd (
                ne' (
                  v.distinct s a b ls la lb (ground (arith, hit)) (ground (arith, h))
                    (ground (arith, hit, h))))
          ]

      present-after :
          (s' tag' : ℕ)
          → present after s' tag' ≡ (
              ((s' == s) && (tag' == tag))
              || (present c s' tag' && not (old.valid && (s' == s) && (tag' == old.tag))))
      present-after s' tag' =
          let made = λ (here there : Bool).
            (here && there)
            || (present c s' tag' && not (old.valid && here && (tag' == old.tag))) in
          elim (Bool-cases (s' == s)) [
            | inr other ↦
                present-other_set s' tag' (ground arith)
                ∙ elsewhere (present c s' tag') old.valid (tag' == old.tag)
                ∙ ap (λ h. made h (tag' == tag)) (sym other)
            | inl here ↦
                let e : s' ≡ s = (==_iff s' s).0 here in
                ap (λ x. present after x tag') e ∙ elim (Bool-cases (tag' == tag)) [
                  | inl same ↦
                      ap (present after s) ((==_iff tag' tag).0 same)
                      ∙ present-same_tag
                      ∙ ap₂ made (sym here) (sym same)
                  | inr apart ↦
                      present-other_tag tag' (ground arith)
                      ∙ ap₂ (λ x h. present c x tag' && not (old.valid && h)) (sym e)
                          (==_comm old.tag tag')
                      ∙ hereabouts (present c s' tag') old.valid (tag' == old.tag)
                      ∙ ap₂ made (sym here) (sym apart)
                ]
          ]

      -- In the set written, where no way held the tag before.
      own_set :
          (i' j : ℕ)
          → i' < c.ways
          → j < c.ways
          → ((k : ℕ) → k < c.ways → holds tag (line_at c s k) ≡ false)
          → (line_at after s i').valid ≡ true
          → (line_at after s j).valid ≡ true
          → (line_at after s i').tag ≡ (line_at after s j).tag
          → i' ≡ j
      own_set i' j li lj untagged vi vj same = elim (Bool-cases (i' == w)) [
        | inl p ↦ elim (Bool-cases (j == w)) [
          | inl q ↦ ground arith
          | inr q ↦
              let ne : j ≢ w = ground arith in
              let e : i' ≡ w = ground arith in
              let ti : (line_at after s i').tag ≡ tag =
                ap (λ k. (line_at after s k).tag) e ∙ ap (λ l. l.tag) at_way in
              let ej = other_way j ne in
              absurd (
                false≢true (
                  sym (untagged j lj)
                  ∙ tagged (line_at c s j) (ap (λ l. l.valid) (sym ej) ∙ vj)
                      (ap (λ l. l.tag) (sym ej) ∙ sym same ∙ ti)))
        ]
        | inr p ↦
            let ne : i' ≢ w = ground arith in
            let ei = other_way i' ne in
            elim (Bool-cases (j == w)) [
              | inl q ↦
                  let e : j ≡ w = ground arith in
                  let tj : (line_at after s j).tag ≡ tag =
                    ap (λ k. (line_at after s k).tag) e ∙ ap (λ l. l.tag) at_way in
                  absurd (
                    false≢true (
                      sym (untagged i' li)
                      ∙ tagged (line_at c s i') (ap (λ l. l.valid) (sym ei) ∙ vi)
                          (ap (λ l. l.tag) (sym ei) ∙ same ∙ tj)))
              | inr q ↦
                  let ej = other_way j (ground arith) in
                  v.distinct s i' j ls li lj (ap (λ l. l.valid) (sym ei) ∙ vi)
                    (ap (λ l. l.valid) (sym ej) ∙ vj)
                    (ap (λ l. l.tag) (sym ei) ∙ same ∙ ap (λ l. l.tag) ej)
            ]
      ]
        where
          tagged : (l : CacheLine) → l.valid ≡ true → l.tag ≡ tag → holds tag l ≡ true
          tagged l p q = ground arith

      -- Where no way held the tag before, no two hold the same one.
      after-IsCache : present c s tag ≡ false → IsCache after
      after-IsCache absent =
          let untagged : (j : ℕ) → j < c.ways → holds tag (line_at c s j) ≡ false = λ j lj.
            elim (Bool-cases (holds tag (line_at c s j))) [
              | inr miss ↦ miss
              | inl hit ↦ absurd (false≢true (sym absent ∙ present_way c s tag j lj hit))
            ] in
          record {
            on = v.on;
            some_set = v.some_set;
            some_byte = v.some_byte;
            sized = length-set c.lines i new_line ∙ v.sized;
            distinct = λ s' i' j ls' li' lj vi vj same. elim (Bool-cases (s' == s)) [
              | inr other ↦
                  let ne : s' ≢ s = ground arith in
                  let ei = other_set s' i' ne li' in
                  let ej = other_set s' j ne lj in
                  v.distinct s' i' j ls' li' lj (ap (λ l. l.valid) (sym ei) ∙ vi)
                    (ap (λ l. l.valid) (sym ej) ∙ vj)
                    (ap (λ l. l.tag) (sym ei) ∙ same ∙ ap (λ l. l.tag) ej)
              | inl here ↦
                  let e : s' ≡ s = (==_iff s' s).0 here in
                  own_set i' j li' lj untagged (ap (λ x. (line_at after x i').valid) (sym e) ∙ vi)
                    (ap (λ x. (line_at after x j).valid) (sym e) ∙ vj)
                    (ap (λ x. (line_at after x i').tag) (sym e)
                      ∙ same
                      ∙ ap (λ x. (line_at after x j).tag) e)
            ];
          }

  -- The line that a victim leaves, by its set and its tag.
  is_evicted-line :
      (c : CacheSim P F) (s a : ℕ) (l : CacheLine)
      → IsCache c
      → s < c.num_sets
      → is_evicted c a (evicted_line c s l)
        ≡ (l.valid && (set_index c a == s) && (tag_of c a == l.tag))
  is_evicted-line c s a l v ls = elim (Bool-cases l.valid) [
    | inr n ↦ rw n refl
    | inl y ↦ rw y (
        ap₂ (λ x z. (set_index c a == x) && (tag_of c a == z))
          (set_index-reconstruct_addr c s l.tag ls v.some_byte)
          (tag_of-reconstruct_addr c s l.tag ls v.some_byte))
  ]

  write_back-line :
      (c : CacheSim P F) (s : ℕ) (l : CacheLine) (latency : ℕ)
      → (if l.valid && l.dirty then latency else 0) ≡ write_back latency (evicted_line c s l)
  write_back-line c s l latency = elim (Bool-cases l.valid) [
    | inl y ↦ rw y refl
    | inr n ↦ rw n refl
  ]

  module _ {policy : ReplacementPolicy P} {IsState : P → Type 0} (c : CacheSim P F) (v : IsCache c)
      (lawful : Lawful policy c.num_sets c.ways IsState) (state : IsState c.policy) where
    policy-IsCache : (p : P) → IsCache (record c { policy = p })
    policy-IsCache p = record {
      on = v.on;
      some_set = v.some_set;
      some_byte = v.some_byte;
      sized = v.sized;
      distinct = v.distinct;
    }

    -- Installing a line that is not in the cache: afterwards the cache contains that line and all
    -- that it contained before, except the line reported as evicted; the penalty is that of writing
    -- the evicted line back where it is dirty; no two ways of a set hold the same tag, and the policy
    -- is in a state of its own. The policy is any that chooses its victims among the ways.
    pub install_line_tracked-contains :
        (addr a latency : ℕ) (is_write : Bool)
        → contains c addr ≡ false
        → let ((penalty, evicted), c') = install_line_tracked policy c addr is_write latency in
          (contains c' a ≡ (same_line c a addr || (contains c a && not (is_evicted c a evicted))))
          × (penalty ≡ write_back latency evicted)
          × IsCache c'
          × IsState c'.policy
    unfolding contains install_line_tracked
    install_line_tracked-contains addr a latency is_write absent =
        let s = set_index c addr in
        let t = tag_of c addr in
        let sa = set_index c a in
        let ta = tag_of c a in
        let ls : s < c.num_sets = mod-lt (addr / c.line_bytes) v.some_set in
        let w = (policy.get_victim c.policy s).0 in
        let lw = lawful.victim_lt c.policy s ls state in
        let p = (policy.get_victim c.policy s).1 in
        let q = policy.update p s w in
        let d : CacheSim P F = record c { policy = q } in
        let o = line_at c s w in
        let missing : present c s t ≡ false = ap (λ b. b && present c s t) (sym v.on) ∙ absent in
        (
          ap₂ (λ b x. b && x) v.on (present-after d (policy-IsCache q) s w ls lw t is_write sa ta)
              ∙ sym (
                  ap₂ (λ b e. same_line c a addr || ((b && present c sa ta) && not e)) v.on
                    (is_evicted-line c s a o v ls)),
          write_back-line c s o latency,
          after-IsCache d (policy-IsCache q) s w ls lw t is_write missing,
          lawful.update_state p s w ls lw (lawful.victim_state c.policy s ls state),
        )
