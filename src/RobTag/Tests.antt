-- ===== src/RobTag/Tests.antt =====
-- The theorem on the comparisons of tags at the wrap-around.
use rvsim.Base.{◌≡◌, true, false, arith}
use rvsim.RobTag.{is_older_than, is_older_or_eq, is_newer_than}
use rvsim.RobTag.Age.{nth_after, is_older_than-nth_after}

is_older_than-nth_after_example :
    (is_older_than 4294967294 (nth_after 3 4294967294) ≡ true)
    × (is_older_or_eq 4294967294 (nth_after 3 4294967294) ≡ true)
    × (is_newer_than 4294967294 (nth_after 3 4294967294) ≡ false)
    × (is_older_than (nth_after 3 4294967294) 4294967294 ≡ false)
    × (is_older_or_eq (nth_after 3 4294967294) 4294967294 ≡ false)
    × (is_newer_than (nth_after 3 4294967294) 4294967294 ≡ true)
is_older_than-nth_after_example =
    is_older_than-nth_after 3 4294967294 (omega arith, omega arith) (omega arith) (omega arith)
