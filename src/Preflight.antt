-- ===== src/Preflight.antt =====
-- app/services/cloud_preflight_gate.py: the installation's readiness for S3, one database row that all
-- processes share, and `_ready_pid`, which is kept per process. Times are in microseconds.
pub mod Process
pub mod Authority
mod Tests
use frostvault.Prelude.{
  ℕ, suc, ◌+◌, ◌-◌, ◌*◌, ◌^◌, ◌≤◌, min, String, str_eq, Bool, true, false, not, ◌&&◌, ◌≡◌, refl,
  Option, none, some, List, [], ◌∷◌, ltb, leb, if◌then◌else◌, is_some, is_none, coalesce,
}

pub data Status : Type 0 where
  unknown ready blocked : Status

-- `next_probe_at` is `none` for what is no time.
pub record Gate : Type 0 where
  pub status : Status
  pub remediation : Option String
  pub failure_count : ℕ
  pub next_probe_at : Option ℕ

abbrev pub max_reprobe_seconds : ℕ
max_reprobe_seconds = 60

abbrev pub seconds : ℕ → ℕ
seconds n = n * 1000000

unfoldable pub reprobe_seconds : ℕ → ℕ
reprobe_seconds failures = min max_reprobe_seconds (5 * 2 ^ (min (failures - 1) 4))

unfoldable pub snapshot : Option Gate → Gate
snapshot none = record {
  status = unknown;
  remediation = none;
  failure_count = 0;
  next_probe_at = none;
}
snapshot (some row) = row

abbrev pub is_ready : Status → Bool
is_ready ready = true
is_ready _ = false

abbrev pub is_blocked : Status → Bool
is_blocked blocked = true
is_blocked _ = false

-- `not 0 < next_probe_at - now <= MAX_REPROBE_SECONDS`.
unfoldable pub probe_due : Gate → ℕ → Bool
probe_due state now = elim state.next_probe_at [
  | none ↦ true
  | some next ↦ not (ltb now next && leb next (now + seconds max_reprobe_seconds))
]

-- `is_ready_pid` says whether `_ready_pid` is this process.
unfoldable pub dispatch_ready : Bool → Gate → ℕ → Bool
dispatch_ready is_ready_pid state now =
    is_ready_pid && is_ready state.status && not (probe_due state now)

-- What the probe does: returns, raises a ReadinessFailure with its text, or raises anything else.
pub data Probe : Type 0 where
  passed : Probe
  refused : String → Probe
  failed : Probe

abbrev pub unconfirmed_text : String
unconfirmed_text =
    "S3 readiness could not be confirmed. Check AWS credentials, bucket configuration and connectivity"

abbrev pub in_progress_text : String
in_progress_text = "S3 readiness check in progress; Jobs remain queued"

abbrev pub auth_remediation : String
auth_remediation =
    "S3 access was refused. Check AWS credentials and required bucket permissions; Jobs remain queued"

unfoldable pub remediation_of : Probe → Option String
remediation_of passed = none
remediation_of (refused text) = some text
remediation_of failed = some unconfirmed_text

-- Python's truth of an optional text.
unfoldable pub holds : Option String → Bool
holds none = false
holds (some text) = not (str_eq text "")

-- The row that `_publish` upserts.
unfoldable pub publish : Option String → ℕ → ℕ → Gate
publish remediation failures due = record {
  status = if holds remediation then blocked else ready;
  remediation = remediation;
  failure_count = failures;
  next_probe_at = some due;
}

-- The shared row and this process's `_ready_pid`.
pub record World : Type 0 where
  pub row : Option Gate
  pub is_ready_pid : Bool

-- `needs_startup or probe_due(...)`.
unfoldable pub must_probe : World → ℕ → Bool
must_probe w now =
    let state = snapshot w.row in
    if not w.is_ready_pid && is_ready state.status then true else probe_due state now

-- What `check` leaves when its `with` block has ended: the row, the answer, which is `none` where it
-- raised, and what its last lines will set `_ready_pid` to, `none` where they are not reached.
pub record Outcome : Type 0 where
  pub row : Option Gate
  pub answer : Option Gate
  pub verdict : Option Bool

-- The part of `check` under the probe lock, whose time after the probe is `completed`. The commit may
-- fail, and then `check` raises and changes nothing.
unfoldable pub probe_and_publish : World → Probe → ℕ → Bool → Outcome
probe_and_publish w probe completed false = record { row = w.row; answer = none; verdict = none }
probe_and_publish w probe completed true =
    let remediation = remediation_of probe in
    let failures = if holds remediation then (snapshot w.row).failure_count + 1 else 0 in
    let delay = if holds remediation then reprobe_seconds failures else max_reprobe_seconds in
    let row = publish remediation failures (completed + seconds delay) in
    record { row = some row; answer = some row; verdict = some (not (holds remediation)) }

-- The `with` block of `check`: `seen` is the world of the first snapshot, compared at `now`, and `w` the
-- world once the lock has been tried, which `acquired` says, compared at `locked_at`.
unfoldable pub check_locked : World → Bool → World → ℕ → ℕ → Probe → ℕ → Bool → Outcome
check_locked seen acquired w now locked_at probe completed commits =
    if not (must_probe seen now)
    then record { row = w.row; answer = some (snapshot seen.row); verdict = none }
    else if not acquired
    then record {
      row = w.row;
      answer = some (record (snapshot seen.row) {
        status = blocked;
        remediation =
            if holds (snapshot seen.row).remediation
            then (snapshot seen.row).remediation
            else some in_progress_text;
      });
      verdict = none;
    }
    else if not (must_probe w locked_at)
    then record { row = w.row; answer = some (snapshot w.row); verdict = none }
    else probe_and_publish w probe completed commits

-- The last lines of `check`, after the lock is released.
unfoldable pub set_ready_pid : World → Option Bool → World
set_ready_pid w verdict = record w { is_ready_pid = coalesce verdict w.is_ready_pid }

-- `check` where no other thread of the process comes between its parts; `seen` is the row that it saw
-- first.
unfoldable pub check : Option Gate → Bool → World → ℕ → ℕ → Probe → ℕ → Bool → World × Option Gate
check seen acquired w now locked_at probe completed commits =
    let end =
      check_locked (record w { row = seen }) acquired w now locked_at probe completed commits in
    (set_ready_pid (record w { row = end.row }) end.verdict, end.answer)

-- The row that `invalidate` upserts at `stamp`.
unfoldable pub invalidate_row : Option Gate → ℕ → Gate
invalidate_row none stamp = record {
  status = blocked;
  remediation = some auth_remediation;
  failure_count = 0;
  next_probe_at = some stamp;
}
invalidate_row (some row) stamp = if is_blocked row.status then row else record row {
  status = blocked;
  remediation = some auth_remediation;
  next_probe_at = some stamp;
}

-- The first line of `invalidate`: `_ready_pid` is cleared even where the commit fails.
unfoldable pub clear_ready_pid : World → World
clear_ready_pid w = record w { is_ready_pid = false }

-- The rest of `invalidate`, under the lock.
unfoldable pub block_row : World → ℕ → Bool → World
block_row w stamp commits = record w {
  row = if commits then some (invalidate_row w.row stamp) else w.row;
}

-- `invalidate` by this process.
unfoldable pub invalidate : World → ℕ → Bool → World
invalidate w stamp commits = block_row (clear_ready_pid w) stamp commits
