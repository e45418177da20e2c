-- ===== src/Jobs/Transitions.antt =====
-- The writes of app/storage.py that move a Job: a worker's, fenced by its lease, and those of the
-- reconciliation after a restart. `Worker` is the thread's claim context for the Job at hand.
-- Messages and the records of other tables that follow a write are left out.
use frostvault.Prelude.{
  ℕ, ◌+◌, ◌*◌, String, str_eq, Bool, true, false, not, ◌&&◌, ◌||◌, Option, none, some, List, ltb,
  leb, ◌==◌, if◌then◌else◌, any, is_none, opt_map, opt_all, coalesce, min, ◌^◌, ◌-◌, ◌%◌,
}
use frostvault.Prelude.Table.{fetch_one, update}
use frostvault.Jobs.{
  Job, Status, queued, retrying, is_terminal, is_lease_held, is_reported, is_cleaning,
}
use frostvault.Jobs.Claims.{is_fenced, owns, renew_job_claim, is_member}

-- `JOB_CLAIM_LEASE_SECONDS`, in microseconds, as `_claim_expiry_at` adds it.
unfoldable pub claim_expiry_at : ℕ → ℕ
claim_expiry_at timestamp = timestamp + 5 * 60 * 1000000

-- `token` is what `_claim_token_for` answers, which is not empty, or the token that the call names;
-- `lost` is what `_claim_is_lost` answers.
pub record Worker : Type 0 where
  pub token : Option String
  pub lost : Bool

-- The rows that a worker's write reaches: with a token, the fenced Job; without, the Job named.
unfoldable pub writes_to : Option String → ℕ → ℕ → Job → Bool
writes_to none job_id now j = j.id == job_id
writes_to (some token) job_id now j = is_fenced job_id token now j

-- `lease_set` of `set_job`.
unfoldable pub keep_or_drop_lease : Bool → ℕ → Job → Job
keep_or_drop_lease held timestamp j =
    if held
    then record j { claim_expires_at = some (claim_expiry_at timestamp) }
    else record j { claim_token = none; claimed_at = none; claim_expires_at = none }

unfoldable pub set_status : Status → ℕ → Job → Job
set_status status timestamp j = record j {
  status = status;
  updated_at = timestamp;
  notify_pending = is_reported status || j.notify_pending;
}

unfoldable pub apply_set_job : Option String → Status → ℕ → Job → Job
unfolding keep_or_drop_lease set_status
apply_set_job none status timestamp j = set_status status timestamp j
apply_set_job (some token) status timestamp j =
    keep_or_drop_lease (is_lease_held status) timestamp (set_status status timestamp j)

-- What a call of `set_job` leaves: the table, its result, and whether it counts the Job's end.
pub record Outcome : Type 0 where
  pub jobs : List Job
  pub updated : Bool
  pub counted : Bool

unfoldable pub set_job : Worker → List Job → ℕ → Status → ℕ → Outcome
set_job w jobs job_id status timestamp =
    if w.lost
    then record { jobs = jobs; updated = false; counted = false }
    else let previous = opt_map (λ j. j.status) (fetch_one (λ j. j.id == job_id) jobs) in
      let updated = any (writes_to w.token job_id timestamp) jobs in
      record {
        jobs =
            update (writes_to w.token job_id timestamp) (apply_set_job w.token status timestamp)
              jobs;
        updated = updated;
        counted = updated && is_reported status && opt_all (λ s. not (is_terminal s)) previous;
      }

unfoldable pub upload_retry_delay_seconds : ℕ → ℕ
upload_retry_delay_seconds attempt =
    let n = if ltb attempt 1 then 1 else attempt in min (2 * 2 ^ (n - 1)) 300

-- `retry_after` is the time that the delay and its jitter give.
unfoldable pub apply_retry : Option String → ℕ → ℕ → ℕ → Job → Job
apply_retry none retry_count retry_after timestamp j = record j {
  status = retrying;
  retry_count = retry_count;
  retry_after = some retry_after;
  updated_at = timestamp;
}
apply_retry (some token) retry_count retry_after timestamp j = record j {
  status = retrying;
  retry_count = retry_count;
  retry_after = some retry_after;
  updated_at = timestamp;
  claim_token = none;
  claimed_at = none;
  claim_expires_at = none;
}

-- `delay_seconds` overrides the policy's delay; `draw` is the random number of the jitter, which is
-- a fifth of the delay times a share in thousandths.
unfoldable pub retry_after_at : ℕ → Option ℕ → ℕ → ℕ → ℕ
retry_after_at now delay_seconds retry_count draw =
    let delay = coalesce delay_seconds (upload_retry_delay_seconds retry_count) in
    now + delay * 1000000 + delay * 200 * (draw % 1000)

-- The two readings of the clock, for the time of the retry and for `updated_at`, are one.
unfoldable pub schedule_upload_retry :
    Worker → List Job → ℕ → ℕ → Option ℕ → ℕ → ℕ → List Job × Bool
schedule_upload_retry w jobs job_id retry_count delay_seconds draw timestamp =
    if w.lost
    then (jobs, false)
    else let retry_after = retry_after_at timestamp delay_seconds retry_count draw in
      (
        update (writes_to w.token job_id timestamp)
            (apply_retry w.token retry_count retry_after timestamp) jobs,
        any (writes_to w.token job_id timestamp) jobs,
      )

unfoldable pub apply_progress : Option String → ℕ → ℕ → Job → Job
apply_progress none transferred timestamp j = record j {
  transferred_bytes = transferred;
  updated_at = timestamp;
}
apply_progress (some token) transferred timestamp j = record j {
  transferred_bytes = transferred;
  updated_at = timestamp;
  claim_expires_at = some (claim_expiry_at timestamp);
}

-- The count of bytes is not negative, so `max(0, …)` is the count itself.
unfoldable pub set_job_progress : Worker → List Job → ℕ → ℕ → ℕ → List Job × Bool
set_job_progress w jobs job_id transferred timestamp = if w.lost then (jobs, false) else (
  update (writes_to w.token job_id timestamp) (apply_progress w.token transferred timestamp) jobs,
  any (writes_to w.token job_id timestamp) jobs,
)

-- `_reconcile_claim_is_stale_sql`.
unfoldable pub claim_is_stale : ℕ → Job → Bool
claim_is_stale now j = is_none j.claim_token || opt_all (λ at. leb at now) j.claim_expires_at

pub data Progress : Type 0 where
  keep reset complete : Progress

abbrev pub progress_bytes : Progress → Job → ℕ
progress_bytes keep j = j.transferred_bytes
progress_bytes reset j = 0
progress_bytes complete j = j.total_bytes

unfoldable pub apply_reconcile : Status → Progress → ℕ → Job → Job
apply_reconcile status progress timestamp j = record j {
  status = status;
  transferred_bytes = progress_bytes progress j;
  notify_pending = is_reported status || j.notify_pending;
  updated_at = timestamp;
  claim_token = none;
  claimed_at = none;
  claim_expires_at = none;
}

unfoldable pub reconciles : ℕ → ℕ → Job → Bool
reconciles job_id timestamp j =
    claim_is_stale timestamp j && j.id == job_id && not (is_terminal j.status)

unfoldable pub reconcile_job_transition : List Job → ℕ → Status → Progress → ℕ → List Job × Bool
reconcile_job_transition jobs job_id status progress timestamp = (
  update (reconciles job_id timestamp) (apply_reconcile status progress timestamp) jobs,
  any (reconciles job_id timestamp) jobs,
)

unfoldable pub releases : Job → String → ℕ → Job → Bool
releases lead token now j = is_member lead j && is_cleaning j.status && owns token now j

-- `_release_preflight_purge_claim`; `lead` carries the vault and the group of the Job.
unfoldable pub release_preflight_purge_claim : List Job → Job → String → ℕ → List Job
release_preflight_purge_claim jobs lead token now =
    update (releases lead token now)
      (λ j. record j {
        status = queued;
        claim_token = none;
        claimed_at = none;
        claim_expires_at = none;
      })
      jobs

pub data Verdict : Type 0 where
  continue operation_cancelled lease_lost : Verdict

-- `ensure_job_active` after the shutdown checkpoint: the table, whether the claim is marked lost,
-- and what is raised. `is_cancelled` is `job_cancelled`.
unfoldable pub ensure_job_active : Worker → Bool → List Job → ℕ → ℕ → List Job × Bool × Verdict
ensure_job_active w is_cancelled jobs job_id now =
    if is_cancelled
    then (jobs, w.lost, operation_cancelled)
    else if w.lost
    then (jobs, w.lost, lease_lost)
    else elim w.token [
      | none ↦ (jobs, w.lost, continue)
      | some token ↦
          let renewed = renew_job_claim jobs job_id token now (claim_expiry_at now) in
          if is_none renewed.1 then (renewed.0, true, lease_lost) else (renewed.0, w.lost, continue)
    ]

-- The same for a catalog transaction, which renews the lease by the Job's own `claim_token`.
unfoldable pub ensure_job_claim_owned_in_transaction :
    Worker → Bool → List Job → ℕ → Option String → ℕ → List Job × Bool × Verdict
ensure_job_claim_owned_in_transaction w is_cancelled jobs job_id claim_token timestamp =
    if is_cancelled
    then (jobs, w.lost, operation_cancelled)
    else if w.lost
    then (jobs, w.lost, lease_lost)
    else elim claim_token [
      | none ↦ (jobs, w.lost, continue)
      | some token ↦
          let renewed = renew_job_claim jobs job_id token timestamp (claim_expiry_at timestamp) in
          if str_eq token ""
          then (jobs, w.lost, continue)
          else if is_none renewed.1
          then (renewed.0, true, lease_lost)
          else (renewed.0, w.lost, continue)
    ]
