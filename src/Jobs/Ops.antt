-- ===== src/Jobs/Ops.antt =====
-- The writes of the workers as one kind of step: what a step does to the table, and the rows that it
-- reaches.
use frostvault.Prelude.{
  ℕ, String, str_eq, Bool, not, ◌&&◌, Option, none, some, List, [], ◌∷◌, opt_any,
}
use frostvault.Jobs.{Job, Status, queued}
use frostvault.Jobs.Claims.{
  Lease, Result, ok, raise, claims, take_lease, claim_job, is_active_member, find_lead,
  group_is_free, take_group_lease, claim_purge_group, is_fenced, renew_job_claim, renews_member,
  renew_purge_group_claim,
}
use frostvault.Jobs.Transitions.{
  Worker, writes_to, apply_set_job, set_job, apply_retry, retry_after_at, schedule_upload_retry,
  apply_progress, set_job_progress, Progress, apply_reconcile, reconciles, reconcile_job_transition,
  releases, release_preflight_purge_claim,
}

pub data Op : Type 0 where
  claim : ℕ → Lease → ℕ → ℕ → Op
  claim_group : Bool → ℕ → Lease → ℕ → Op
  renew : ℕ → String → ℕ → ℕ → Op
  renew_group : Job → String → List ℕ → ℕ → ℕ → Op
  set_to : Worker → ℕ → Status → ℕ → Op
  retry : Worker → ℕ → ℕ → Option ℕ → ℕ → ℕ → Op
  progress : Worker → ℕ → ℕ → ℕ → Op
  reconcile : ℕ → Status → Progress → ℕ → Op
  release_group : Job → String → ℕ → Op

-- A refused call leaves the table as it was.
abbrev pub table_after {ℓ} : {A : Type ℓ} → List Job → Result (List Job × A) → List Job
table_after jobs (ok (jobs', a)) = jobs'
table_after jobs (raise e) = jobs

unfoldable pub run_op : (ℕ → Option Bool) → List Job → Op → List Job
run_op p jobs (claim id lease now due) = table_after jobs (claim_job p jobs id lease now due)
run_op p jobs (claim_group acquired id lease now) =
    table_after jobs (claim_purge_group acquired jobs id lease now)
run_op p jobs (renew id token now expires) = (renew_job_claim jobs id token now expires).0
run_op p jobs (renew_group lead token ids now expires) =
    (renew_purge_group_claim jobs lead token ids now expires).0
run_op p jobs (set_to w id status at) = (set_job w jobs id status at).jobs
run_op p jobs (retry w id count delay draw at) =
    (schedule_upload_retry w jobs id count delay draw at).0
run_op p jobs (progress w id bytes at) = (set_job_progress w jobs id bytes at).0
run_op p jobs (reconcile id status how at) = (reconcile_job_transition jobs id status how at).0
run_op p jobs (release_group lead token now) = release_preflight_purge_claim jobs lead token now

unfoldable pub run_ops : (ℕ → Option Bool) → List Job → List Op → List Job
run_ops p jobs [] = jobs
run_ops p jobs (o ∷ os) = run_ops p (run_op p jobs o) os

-- The rows that a step reaches.
unfoldable pub reaches : (ℕ → Option Bool) → List Job → Op → Job → Bool
reaches p jobs (claim id lease now due) j =
    not (str_eq lease.token "") && claims p now due jobs id j
reaches p jobs (claim_group acquired id lease now) j =
    not (str_eq lease.token "")
    && opt_any (λ lead. acquired && group_is_free now jobs lead && is_active_member lead j)
        (find_lead jobs id)
reaches p jobs (renew id token now expires) j = is_fenced id token now j
reaches p jobs (renew_group lead token ids now expires) j = renews_member lead token now j
reaches p jobs (set_to w id status at) j = not w.lost && writes_to w.token id at j
reaches p jobs (retry w id count delay draw at) j = not w.lost && writes_to w.token id at j
reaches p jobs (progress w id bytes at) j = not w.lost && writes_to w.token id at j
reaches p jobs (reconcile id status how at) j = reconciles id at j
reaches p jobs (release_group lead token now) j = releases lead token now j

-- What a step writes into a row.
unfoldable pub writes : Op → Job → Job
writes (claim id lease now due) j = take_lease lease j
writes (claim_group acquired id lease now) j = take_group_lease lease j
writes (renew id token now expires) j = record j { claim_expires_at = some expires }
writes (renew_group lead token ids now expires) j = record j { claim_expires_at = some expires }
writes (set_to w id status at) j = apply_set_job w.token status at j
writes (retry w id count delay draw at) j =
    apply_retry w.token count (retry_after_at at delay count draw) at j
writes (progress w id bytes at) j = apply_progress w.token bytes at j
writes (reconcile id status how at) j = apply_reconcile status how at j
writes (release_group lead token now) j = record j {
  status = queued;
  claim_token = none;
  claimed_at = none;
  claim_expires_at = none;
}
