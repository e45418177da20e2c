-- ===== src/Backoff/Ladder.antt =====
-- The deadlines that the upsert of app/backoff.py stores.
use frostvault.Prelude.{
  ℕ, ◌+◌, ◌-◌, ◌^◌, ◌≤◌, ◌<◌, ◌≡◌, none, some, arith, ltb, if◌then◌else◌, two_pow-le-add,
}
use frostvault.Backoff.{
  Row, threshold, cap_seconds, seconds, backoff_seconds, ladder, count_failure,
}

backoff_seconds_capped : (n : ℕ) → 10 ≤ n → backoff_seconds n ≡ cap_seconds
unfolding backoff_seconds
backoff_seconds_capped n h =
    let e : n - 5 ≡ (n - 10) + 5 = omega arith in
    let big : 2 ^ 5 ≤ 2 ^ (n - 10 + 5) = two_pow-le-add (n - 10) 5 in rw e (ground arith)

-- The delay is at most fifteen minutes, and there is none below five failures.
pub backoff_seconds_bounds :
    (n : ℕ) → (backoff_seconds n ≤ cap_seconds) × (n < threshold → backoff_seconds n ≡ 0)
unfolding backoff_seconds
backoff_seconds_bounds n = ground arith

ladder-backoff_seconds :
    (now n : ℕ) → threshold ≤ n + 1 → ladder now n ≡ now + seconds (backoff_seconds (n + 1))
unfolding ladder
ladder-backoff_seconds now n h =
    ground (arith, backoff_seconds_capped 11 (omega arith), backoff_seconds_capped (n + 1))

-- What a failure stores agrees with the formula for the delay: the deadline is there exactly when
-- the new count reaches the threshold, and it is the delay of the new count away.
pub count_failure-backoff_seconds :
    (now : ℕ) (r : Row)
    → let new = count_failure now r in
      new.next_allowed_at ≡ (
        if ltb new.failure_count threshold
        then none
        else some (now + seconds (backoff_seconds new.failure_count)))
unfolding count_failure
count_failure-backoff_seconds now r = ground (arith, ladder-backoff_seconds now r.failure_count)
