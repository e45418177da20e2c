-- ===== src/Backoff/Tests.antt =====
-- Examples of app/backoff.py's throttle: an address with four failed sign-ins fails once more.
use frostvault.Prelude.{
  ◌+◌, ◌≡◌, ◌≢◌, refl, ap, String, none, some, List, [], ◌∷◌, ltb, str_eq, if◌then◌else◌, arith,
}
use frostvault.Prelude.Table.{fetch_one}
use frostvault.Backoff.{
  Row, threshold, seconds, guard, guard_row, load, is_row, is_decayed, next_allowed,
  backoff_seconds, ceil_seconds, record_failure,
}
use frostvault.Backoff.Guard.{guard-record_failure}

abbrev address : Row
address = record {
  scope = "ip";
  key = "10.0.0.1";
  failure_count = 4;
  next_allowed_at = none;
  updated_at = 1000;
}

abbrev refused : Row
refused = record {
  scope = "ip";
  key = "10.0.0.1";
  failure_count = 5;
  next_allowed_at = some 30002000;
  updated_at = 2000;
}

abbrev rows : List Row
rows = address ∷ []

abbrev refused_rows : List Row
refused_rows = refused ∷ []

guard-record_failure_example :
    guard (record_failure rows "ip" "10.0.0.1" 2000).0 "ip" "10.0.0.1" 3000 ≡ (
      if ltb (record_failure rows "ip" "10.0.0.1" 2000).1.failure_count threshold
      then none
      else if ltb 3000 (
          2000
          + seconds (backoff_seconds (record_failure rows "ip" "10.0.0.1" 2000).1.failure_count))
      then some (
          ceil_seconds
            (2000
              + seconds
                  (backoff_seconds (record_failure rows "ip" "10.0.0.1" 2000).1.failure_count))
            3000)
      else none)
guard-record_failure_example = guard-record_failure rows "ip" "10.0.0.1" 2000 3000

is_refused : guard refused_rows "ip" "10.0.0.1" 2000 ≡ some 30
unfolding guard guard_row load is_row fetch_one is_decayed next_allowed ceil_seconds
is_refused = refl

abbrev ip_scope : String
ip_scope = "ip"

abbrev account_scope : String
account_scope = "account"

other_scope : ip_scope ≢ account_scope
other_scope e = ground (arith, ap (λ s. str_eq s "ip") e)
