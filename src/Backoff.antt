-- ===== src/Backoff.antt =====
-- app/backoff.py: the counters that throttle sign-in and reauthentication by `(scope, key)`.
-- Times are whole microseconds; `now` is the clock's reading at the call. A row is the table's.
pub mod Ladder
pub mod Guard
mod Tests
use frostvault.Prelude.{
  ℕ, ◌+◌, ◌-◌, ◌*◌, ◌/◌, ◌^◌, min, ◌≡◌, String, str_eq, Bool, ◌&&◌, Option, none, some, List, [],
  ◌∷◌, ◌++◌, ltb, leb, ◌==◌, if◌then◌else◌,
}
use frostvault.Prelude.Table.{fetch_one, update, delete}

abbrev pub threshold : ℕ
threshold = 5

abbrev pub base_seconds : ℕ
base_seconds = 30

abbrev pub cap_seconds : ℕ
cap_seconds = 15 * 60

abbrev pub decay_seconds : ℕ
decay_seconds = 60 * 60

-- `timedelta(seconds=n)`.
abbrev pub seconds : ℕ → ℕ
seconds n = n * 1000000

pub record Row : Type 0 where
  pub scope : String
  pub key : String
  pub failure_count : ℕ
  pub next_allowed_at : Option ℕ
  pub updated_at : ℕ

-- `WHERE scope=%s AND key=%s`, the table's key.
unfoldable pub is_row : String → String → Row → Bool
is_row scope key r = str_eq r.scope scope && str_eq r.key key

unfoldable pub load : List Row → String → String → Option Row
load t scope key = fetch_one (is_row scope key) t

unfoldable pub is_decayed : Row → ℕ → Bool
is_decayed row now = leb (row.updated_at + seconds decay_seconds) now

unfoldable pub backoff_seconds : ℕ → ℕ
backoff_seconds failure_count =
    if ltb failure_count threshold
    then 0
    else min (base_seconds * 2 ^ (failure_count - threshold)) cap_seconds

unfoldable pub next_allowed : Row → Option ℕ
next_allowed row = elim row.next_allowed_at [
  | some at ↦ some at
  | none ↦
      let delay = backoff_seconds row.failure_count in
      if delay == 0 then none else some (row.updated_at + seconds delay)
]

-- `math.ceil((later - earlier).total_seconds())`, for `earlier < later`.
unfoldable pub ceil_seconds : ℕ → ℕ → ℕ
ceil_seconds later earlier = (later - earlier + 999999) / 1000000

-- `guard` on the row that was read.
unfoldable pub guard_row : Option Row → ℕ → Option ℕ
guard_row none now = none
guard_row (some row) now = if is_decayed row now then none else elim (next_allowed row) [
  | none ↦ none
  | some at ↦ if ltb now at then some (ceil_seconds at now) else none
]

-- The `retry_after` of the `BackoffError` that is raised, or `none` where `guard` returns.
unfoldable pub guard : List Row → String → String → ℕ → Option ℕ
unfolding guard_row
guard t scope key now = guard_row (load t scope key) now

-- The `CASE auth_backoff.failure_count WHEN …` of the upsert, over its seven deadlines.
unfoldable pub ladder : ℕ → ℕ → ℕ
ladder now count =
    if count == threshold - 1
    then now + seconds (backoff_seconds threshold)
    else if count == threshold
    then now + seconds (backoff_seconds (threshold + 1))
    else if count == threshold + 1
    then now + seconds (backoff_seconds (threshold + 2))
    else if count == threshold + 2
    then now + seconds (backoff_seconds (threshold + 3))
    else if count == threshold + 3
    then now + seconds (backoff_seconds (threshold + 4))
    else if count == threshold + 4
    then now + seconds (backoff_seconds (threshold + 5))
    else now + seconds (backoff_seconds (threshold + 6))

-- The `DO UPDATE SET` of the upsert.
unfoldable pub count_failure : ℕ → Row → Row
count_failure now r =
    let decayed = leb (r.updated_at + seconds decay_seconds) now in
    record r {
      failure_count = if decayed then 1 else r.failure_count + 1;
      next_allowed_at =
          if decayed
          then none
          else if ltb r.failure_count (threshold - 1)
          then none
          else some (ladder now r.failure_count);
      updated_at = now;
    }

unfoldable pub first_failure : String → String → ℕ → Row
first_failure scope key now = record {
  scope = scope;
  key = key;
  failure_count = 1;
  next_allowed_at = none;
  updated_at = now;
}

-- The new table, and the row that `RETURNING` gives.
unfoldable pub record_failure : List Row → String → String → ℕ → List Row × Row
record_failure t scope key now = elim (load t scope key) [
  | none ↦ (t ++ (first_failure scope key now ∷ []), first_failure scope key now)
  | some r ↦ (update (is_row scope key) (count_failure now) t, count_failure now r)
]

unfoldable pub record_success : List Row → String → String → List Row
record_success t scope key = delete (is_row scope key) t
