-- ===== src/Backoff/Guard.antt =====
-- What `guard` of app/backoff.py answers after failures and successes have been recorded.
use frostvault.Prelude.{
  ℕ, ◌+◌, ◌≤◌, ◌≡◌, ◌≢◌, refl, true, false, ◌⊎◌, inl, inr, none, some, List, arith, ltb,
  if◌then◌else◌, String, str_eq_iff, Option-cases, opt_map, ◌∙◌, ap,
}
use frostvault.Prelude.Table.{fetch_one}
use frostvault.Prelude.Table.Reads.{
  fetch_one-append_missing, fetch_one-append_other, fetch_one-delete_self, fetch_one-delete_other,
  fetch_one-update_self, fetch_one-update_other,
}
use frostvault.Backoff.{
  Row, threshold, seconds, is_row, load, is_decayed, backoff_seconds, next_allowed, ceil_seconds,
  guard_row, guard, count_failure, first_failure, record_failure, record_success,
}
use frostvault.Backoff.Ladder.{backoff_seconds_bounds, count_failure-backoff_seconds}

is_row-first_failure :
    (scope key : String) (now : ℕ) → is_row scope key (first_failure scope key now) ≡ true
unfolding is_row first_failure
is_row-first_failure scope key now = ground (arith, str_eq_iff scope scope, str_eq_iff key key)

is_row_self : (r : Row) → is_row r.scope r.key r ≡ true
unfolding is_row
is_row_self r = ground (arith, str_eq_iff r.scope r.scope, str_eq_iff r.key r.key)

is_row-count_failure :
    (scope key : String) (now : ℕ) (r : Row)
    → is_row scope key (count_failure now r) ≡ is_row scope key r
unfolding is_row count_failure
is_row-count_failure scope key now r = refl

-- Distinct `(scope, key)` name distinct rows.
is_row_other :
    (s k s' k' : String) (r : Row)
    → (s ≢ s') ⊎ (k ≢ k')
    → is_row s k r ≡ true
    → is_row s' k' r ≡ false
unfolding is_row
is_row_other s k s' k' r h e =
    ground
      (arith, str_eq_iff r.scope s, str_eq_iff r.key k, str_eq_iff r.scope s', str_eq_iff r.key k')

load-record_failure :
    (t : List Row) (scope key : String) (now : ℕ)
    → load (record_failure t scope key now).0 scope key ≡ some (record_failure t scope key now).1
unfolding record_failure load
load-record_failure t scope key now = elim (Option-cases (fetch_one (is_row scope key) t)) [
  | inl e ↦
      rw (e, record_failure)
        (fetch_one-append_missing (is_row scope key) t _ e (is_row-first_failure scope key now))
  | inr (r, e) ↦
      rw (e, record_failure)
        (fetch_one-update_self (is_row scope key) (count_failure now)
            (λ r h. is_row-count_failure scope key now r ∙ h) t
          ∙ ap (opt_map (count_failure now)) e)
]

load_other :
    (t : List Row) (s k s' k' : String) (now : ℕ)
    → (s ≢ s') ⊎ (k ≢ k')
    → load (record_failure t s k now).0 s' k' ≡ load t s' k'
unfolding record_failure load
load_other t s k s' k' now h = elim (Option-cases (fetch_one (is_row s k) t)) [
  | inl e ↦
      rw (e, record_failure)
        (fetch_one-append_other (is_row s' k') t _
          (is_row_other s k s' k' _ h (is_row-first_failure s k now)))
  | inr (r, e) ↦
      rw (e, record_failure)
        (fetch_one-update_other (is_row s' k') (is_row s k) (count_failure now)
          (λ r m. is_row-count_failure s' k' now r ∙ is_row_other s k s' k' r h m)
          (λ r m. is_row_other s k s' k' r h m) t)
]

load-record_success_other :
    (t : List Row) (s k s' k' : String)
    → (s ≢ s') ⊎ (k ≢ k')
    → load (record_success t s k) s' k' ≡ load t s' k'
unfolding load record_success
load-record_success_other t s k s' k' h =
    fetch_one-delete_other (is_row s' k') (is_row s k) (λ r m. is_row_other s k s' k' r h m) t

load-record_success : (t : List Row) (s k : String) → load (record_success t s k) s k ≡ none
unfolding load record_success
load-record_success t s k = fetch_one-delete_self (is_row s k) t

-- A failure or a success recorded for one `(scope, key)` leaves every other one's `guard` as it was.
guard_isolated :
    (t : List Row) (s k s' k' : String) (now at : ℕ)
    → (s ≢ s') ⊎ (k ≢ k')
    → (guard (record_failure t s k now).0 s' k' at ≡ guard t s' k' at)
      × (guard (record_success t s k) s' k' at ≡ guard t s' k' at)
unfolding guard
guard_isolated t s k s' k' now at h = (
  ap (λ o. guard_row o at) (load_other t s k s' k' now h),
  ap (λ o. guard_row o at) (load-record_success_other t s k s' k' h),
)

-- A success lets the key pass at any time.
pub guard-record_success :
    (t : List Row) (s k : String) (at : ℕ) → guard (record_success t s k) s k at ≡ none
unfolding guard
guard-record_success t s k at = ap (λ o. guard_row o at) (load-record_success t s k)

-- The fields of the row that a failure returns.
returned_row :
    (t : List Row) (s k : String) (now : ℕ)
    → let new = (record_failure t s k now).1 in
      (new.updated_at ≡ now)
      × (new.next_allowed_at ≡ (
          if ltb new.failure_count threshold
          then none
          else some (now + seconds (backoff_seconds new.failure_count))))
unfolding record_failure
returned_row t s k now = elim (Option-cases (load t s k)) [
  | inl e ↦ rw (e, record_failure) (unfold first_failure in (refl, refl))
  | inr (r, e) ↦
      rw (e, record_failure) (unfold count_failure in refl, count_failure-backoff_seconds now r)
]

-- A row's hour of decay is over later than the longest delay.
guard_row-deadline :
    (r : Row) (now at : ℕ)
    → r.updated_at ≡ now
    → r.next_allowed_at ≡ (
        if ltb r.failure_count threshold
        then none
        else some (now + seconds (backoff_seconds r.failure_count)))
    → let deadline = now + seconds (backoff_seconds r.failure_count) in
      guard_row (some r) at ≡ (
        if ltb r.failure_count threshold
        then none
        else if ltb at deadline
        then some (ceil_seconds deadline at)
        else none)
unfolding guard_row is_decayed next_allowed
guard_row-deadline r now at e d = ground (arith, backoff_seconds_bounds r.failure_count)

-- After a failure the key is refused exactly while its count has reached the threshold and the
-- count's delay has not passed, whatever the table held and however much later the call comes.
pub guard-record_failure :
    (t : List Row) (s k : String) (now at : ℕ)
    → let count = (record_failure t s k now).1.failure_count in
      let deadline = now + seconds (backoff_seconds count) in
      guard (record_failure t s k now).0 s k at ≡ (
        if ltb count threshold
        then none
        else if ltb at deadline
        then some (ceil_seconds deadline at)
        else none)
unfolding guard
guard-record_failure t s k now at =
    ap (λ o. guard_row o at) (load-record_failure t s k now)
    ∙ guard_row-deadline _ now at (returned_row t s k now).0 (returned_row t s k now).1

-- Whoever is refused is told to wait for at least one second, and is let in by the same table once
-- that wait is over.
guard_wait :
    (t : List Row) (s k : String) (now wait : ℕ)
    → guard t s k now ≡ some wait
    → (1 ≤ wait) × (guard t s k (now + seconds wait) ≡ none)
unfolding guard is_decayed ceil_seconds
guard_wait t s k now wait h = ground arith
