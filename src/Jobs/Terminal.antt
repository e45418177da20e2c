-- ===== src/Jobs/Terminal.antt =====
-- A Job that has ended stays as it ended.
use frostvault.Prelude.{
  ℕ, String, Bool, true, false, ◌≡◌, Option, some, List, [], ◌∷◌, arith, Option-cases, inl, inr,
  All,
}
use frostvault.Jobs.{
  Job, is_terminal, is_queued, is_retrying, is_pending_delay, is_restoring, is_cleaning,
}
use frostvault.Jobs.Claims.{claims, is_active_member, find_lead, is_fenced, renews_member}
use frostvault.Jobs.Claimable.{is_claimable, has_claimable_status}
use frostvault.Jobs.Transitions.{Worker, writes_to, reconciles, releases}
use frostvault.Jobs.Ops.{
  Op, claim, claim_group, renew, renew_group, set_to, retry, progress, reconcile, release_group,
  run_op, run_ops, reaches,
}
use frostvault.Jobs.Lease.{find_job, unreached}

-- A write under a claim context, or a step that takes no context.
abbrev pub HasToken : Worker → Type 0
HasToken w = (token : String) × (w.token ≡ some token)

abbrev pub IsWorkerStep : Op → Type 0
IsWorkerStep (set_to w id status at) = HasToken w
IsWorkerStep (retry w id count delay draw at) = HasToken w
IsWorkerStep (progress w id bytes at) = HasToken w
IsWorkerStep _ = Unit {0}

module _ (j : Job) (ended : is_terminal j.status ≡ true) where
  not_claimable : (now due : ℕ) → has_claimable_status now due j ≡ false
  unfolding has_claimable_status is_terminal is_queued is_retrying is_pending_delay is_restoring
  not_claimable now due = ground arith

  not_cleaning : is_cleaning j.status ≡ false
  unfolding is_terminal is_cleaning
  not_cleaning = ground arith

  not_written : (w : Worker) (id at : ℕ) → HasToken w → writes_to w.token id at j ≡ false
  unfolding writes_to is_fenced
  not_written w id at (token, e) = rw e (ground arith)

  pub ended_unreached :
      (p : ℕ → Option Bool) (jobs : List Job) (o : Op) → IsWorkerStep o → reaches p jobs o j ≡ false
  unfolding reaches claims is_claimable reconciles renews_member releases is_fenced is_active_member
  ended_unreached p jobs (claim id lease now due) h = ground (arith, not_claimable now due)
  ended_unreached p jobs (claim_group acquired id lease now) h =
      elim (Option-cases (find_lead jobs id)) [
        | inl e ↦ rw e (ground arith)
        | inr (lead, e) ↦ rw e (ground arith)
      ]
  ended_unreached p jobs (renew id other now expires) h = ground arith
  ended_unreached p jobs (renew_group lead other ids now expires) h = ground (arith, not_cleaning)
  ended_unreached p jobs (set_to w id status at) h = ground (arith, not_written w id at h)
  ended_unreached p jobs (retry w id count delay draw at) h = ground (arith, not_written w id at h)
  ended_unreached p jobs (progress w id bytes at) h = ground (arith, not_written w id at h)
  ended_unreached p jobs (reconcile id status how at) h = ground arith
  ended_unreached p jobs (release_group lead other now) h = ground (arith, not_cleaning)

-- No sequence of claims, renewals, releases, restart decisions and writes of workers that carry a
-- token changes the row of a Job that is completed, failed or cancelled.
pub terminal_final :
    (p : ℕ → Option Bool) (jobs : List Job) (os : List Op) (k : ℕ) (j : Job)
    → find_job k jobs ≡ some j
    → is_terminal j.status ≡ true
    → All IsWorkerStep os
    → find_job k (run_ops p jobs os) ≡ some j
unfolding run_ops
terminal_final p jobs [] k j f e h = f
terminal_final p jobs (o ∷ os) k j f e h =
    terminal_final p (run_op p jobs o) os k j
      (unreached p jobs o k j f (ended_unreached j e p jobs o h.0)) e h.1
