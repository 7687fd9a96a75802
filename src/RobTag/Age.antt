-- ===== src/RobTag/Age.antt =====
-- Tags by their age, the distance to the tag that comes next. The comparisons of `RobTag` agree
-- with the order of allocation while all ages stay below 2 ^ 31.
use rvsim.Base.{ℕ, zero, suc, ◌+◌, ◌-◌, ◌^◌, ◌≤◌, ◌<◌, ◌≡◌, true, false, arith, ltb, if◌then◌else◌}
use rvsim.RobTag.{RobTag, wrapping_sub, is_older_than, is_newer_than, is_older_or_eq, next_after}

-- A tag in use: `u32`, and not 0.
abbrev pub IsTag : RobTag → Type 0
IsTag t = (1 ≤ t) × (t < 2 ^ 32)

abbrev pub age : RobTag → RobTag → ℕ
age next t = wrapping_sub next t

pub next_after-IsTag : (t : RobTag) → IsTag t → IsTag (next_after t)
unfolding next_after
next_after-IsTag t h = ground arith

-- A new tag makes all others older by the same distance, by 2 where 0 is left out and else by 1.
pub age-next_after :
    (next t : RobTag)
    → IsTag next
    → IsTag t
    → age next t < 2 ^ 31
    → age (next_after next) t ≡ age next t + age (next_after next) next
unfolding next_after
age-next_after next t hn ht ha = ground arith

pub age-next_after_self :
    (next : RobTag)
    → IsTag next
    → (1 ≤ age (next_after next) next) × (age (next_after next) next ≤ 2)
unfolding next_after
age-next_after_self next h = ground arith

-- The comparison by signed distance is the comparison of ages.
pub is_older_than-age :
    (next s t : RobTag)
    → IsTag next
    → IsTag s
    → IsTag t
    → age next s < 2 ^ 31
    → age next t < 2 ^ 31
    → (is_older_than s t ≡ true → age next t < age next s)
      × (age next t < age next s → is_older_than s t ≡ true)
unfolding is_older_than
is_older_than-age next s t hn hs ht hs_age ht_age = ground arith

pub is_newer_than-age :
    (next s t : RobTag)
    → IsTag next
    → IsTag s
    → IsTag t
    → age next s < 2 ^ 31
    → age next t < 2 ^ 31
    → (is_newer_than s t ≡ true → age next s < age next t)
      × (age next s < age next t → is_newer_than s t ≡ true)
unfolding is_newer_than
is_newer_than-age next s t hn hs ht hs_age ht_age =
    is_older_than-age next t s hn ht hs ht_age hs_age

pub age-injective :
    (next s t : RobTag) → IsTag next → IsTag s → IsTag t → age next s ≡ age next t → s ≡ t
age-injective next s t hn hs ht e = omega arith

-- The `n`-th tag after `t`.
pub nth_after : ℕ → RobTag → RobTag
nth_after zero t = t
nth_after (suc n) t = next_after (nth_after n t)

pub nth_after-IsTag : (n : ℕ) (t : RobTag) → IsTag t → IsTag (nth_after n t)
unfolding nth_after
nth_after-IsTag zero t h = h
nth_after-IsTag (suc n) t h = next_after-IsTag (nth_after n t) (nth_after-IsTag n t h)

-- In one half of the range the tags count up, and go round at most once.
nth_after_closed :
    (n : ℕ) (t : RobTag)
    → IsTag t
    → n < 2 ^ 31
    → nth_after n t ≡ (if ltb (t + n) (2 ^ 32) then t + n else t + n + 1 - 2 ^ 32)
unfolding nth_after next_after
nth_after_closed zero t h b = ground arith
nth_after_closed (suc n) t h b = ground (arith, nth_after_closed n t h (omega arith))

-- Of two tags handed out `n` allocations apart, with 1 ≤ n < 2 ^ 31 - 1, the earlier is the older
-- one in all three comparisons, and the later is not, the wrap to 1 and the skipped 0 included.
pub is_older_than-nth_after :
    (n : ℕ) (t : RobTag)
    → IsTag t
    → 1 ≤ n
    → n < 2 ^ 31 - 1
    → (is_older_than t (nth_after n t) ≡ true)
      × (is_older_or_eq t (nth_after n t) ≡ true)
      × (is_newer_than t (nth_after n t) ≡ false)
      × (is_older_than (nth_after n t) t ≡ false)
      × (is_older_or_eq (nth_after n t) t ≡ false)
      × (is_newer_than (nth_after n t) t ≡ true)
unfolding is_older_than is_older_or_eq is_newer_than
is_older_than-nth_after n t h lo hi = ground (arith, nth_after_closed n t h (omega arith))
