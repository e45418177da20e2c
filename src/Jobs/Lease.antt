-- ===== src/Jobs/Lease.antt =====
-- A live lease keeps every other worker's step away from its Job.
use frostvault.Prelude.{
  ℕ, String, str_eq, str_eq_iff, Bool, false, ◌&&◌, ◌≡◌, ◌≢◌, ◌<◌, refl, sym, ◌∙◌, Option, some,
  List, [], ◌∷◌, ◌==◌, if◌then◌else◌, arith, Bool-cases, Option-cases, inl, inr, opt_map, All,
}
use frostvault.Prelude.Table.{fetch_one, update}
use frostvault.Prelude.Table.Reads.{
  update_never, update_ext, fetch_one-update, all-select-fetch_one,
}
use frostvault.Jobs.{Job, truthy, text_is}
use frostvault.Jobs.Claims.{
  Lease, claims, claim_job, is_active_member, find_lead, group_is_free, claim_members,
  claim_is_available, purge_job_is_runnable, claim_purge_group, is_fenced, owns, renew_job_claim,
  renews_member, renew_purge_group_claim, take_lease, take_group_lease,
}
use frostvault.Jobs.Claimable.{is_claimable, is_unleased}
use frostvault.Jobs.Transitions.{
  writes_to, set_job, schedule_upload_retry, set_job_progress, claim_is_stale, reconciles,
  reconcile_job_transition, releases, release_preflight_purge_claim, apply_set_job, apply_retry,
  apply_progress, apply_reconcile,
}
use frostvault.Jobs.Ops.{
  Op, claim, claim_group, renew, renew_group, set_to, retry, progress, reconcile, release_group,
  run_op, run_ops, reaches, writes,
}

claim_members-update :
    (p : ℕ → Option Bool) (acquired : Bool) (jobs : List Job) (id : ℕ) (lease : Lease) (now : ℕ)
    (lead : Job)
    → str_eq lease.token "" ≡ false
    → find_lead jobs id ≡ some lead
    → (claim_members acquired jobs lead lease now).0
      ≡ update (reaches p jobs (claim_group acquired id lease now)) (take_group_lease lease) jobs
unfolding reaches claim_members
claim_members-update p acquired jobs id lease now lead e f =
    elim (Bool-cases (acquired && group_is_free now jobs lead)) [
      | inl h ↦ rw h (update_ext _ _ _ (λ r. ground arith) jobs)
      | inr h ↦ rw h (sym (update_never _ _ jobs (λ r. ground arith)))
    ]

claim_group-update :
    (p : ℕ → Option Bool) (acquired : Bool) (jobs : List Job) (id : ℕ) (lease : Lease) (now : ℕ)
    → str_eq lease.token "" ≡ false
    → run_op p jobs (claim_group acquired id lease now)
      ≡ update (reaches p jobs (claim_group acquired id lease now)) (take_group_lease lease) jobs
unfolding run_op claim_purge_group reaches
claim_group-update p acquired jobs id lease now e = elim (Option-cases (find_lead jobs id)) [
  | inl f ↦ rw e (rw f (sym (update_never _ _ jobs (λ r. rw f (ground arith)))))
  | inr (lead, f) ↦ rw e (rw f (claim_members-update p acquired jobs id lease now lead e f))
]

-- A step is one update of the rows that it reaches.
pub run_op-update :
    (p : ℕ → Option Bool) (jobs : List Job) (o : Op)
    → run_op p jobs o ≡ update (reaches p jobs o) (writes o) jobs
unfolding run_op reaches writes claim_job claim_purge_group claim_members set_job
    schedule_upload_retry set_job_progress renew_job_claim renew_purge_group_claim
    reconcile_job_transition release_preflight_purge_claim
run_op-update p jobs (claim id lease now due) = elim (Bool-cases (str_eq lease.token "")) [
  | inl e ↦ rw e (sym (update_never _ _ jobs (λ r. rw e)))
  | inr e ↦ rw e (update_ext _ _ _ (λ r. rw e) jobs)
]
run_op-update p jobs (claim_group acquired id lease now) =
    elim (Bool-cases (str_eq lease.token "")) [
      | inl e ↦ rw e (sym (update_never _ _ jobs (λ r. rw e)))
      | inr e ↦ claim_group-update p acquired jobs id lease now e
    ]
run_op-update p jobs (renew id token now expires) = update_ext _ _ _ (λ r. refl) jobs
run_op-update p jobs (renew_group lead token ids now expires) = update_ext _ _ _ (λ r. refl) jobs
run_op-update p jobs (set_to w id status at) = elim (Bool-cases w.lost) [
  | inl e ↦ rw e (sym (update_never _ _ jobs (λ r. refl)))
  | inr e ↦ rw e (update_ext _ _ _ (λ r. refl) jobs)
]
run_op-update p jobs (retry w id count delay draw at) = elim (Bool-cases w.lost) [
  | inl e ↦ rw e (sym (update_never _ _ jobs (λ r. refl)))
  | inr e ↦ rw e (update_ext _ _ _ (λ r. refl) jobs)
]
run_op-update p jobs (progress w id bytes at) = elim (Bool-cases w.lost) [
  | inl e ↦ rw e (sym (update_never _ _ jobs (λ r. refl)))
  | inr e ↦ rw e (update_ext _ _ _ (λ r. refl) jobs)
]
run_op-update p jobs (reconcile id status how at) = refl
run_op-update p jobs (release_group lead token now) = refl

writes-id : (o : Op) (j : Job) → (writes o j).id ≡ j.id
unfolding writes take_lease take_group_lease apply_set_job apply_retry apply_progress
    apply_reconcile
writes-id (claim id lease now due) j = refl
writes-id (claim_group acquired id lease now) j = refl
writes-id (renew id token now expires) j = refl
writes-id (renew_group lead token ids now expires) j = refl
writes-id (set_to w id status at) j = ground arith
writes-id (retry w id count delay draw at) j = ground arith
writes-id (progress w id bytes at) j = ground arith
writes-id (reconcile id status how at) j = refl
writes-id (release_group lead token now) j = refl

pub writes-file : (o : Op) (j : Job) → (writes o j).vault_file_id ≡ j.vault_file_id
unfolding writes take_lease take_group_lease apply_set_job apply_retry apply_progress
    apply_reconcile
writes-file (claim id lease now due) j = refl
writes-file (claim_group acquired id lease now) j = refl
writes-file (renew id token now expires) j = refl
writes-file (renew_group lead token ids now expires) j = refl
writes-file (set_to w id status at) j = ground arith
writes-file (retry w id count delay draw at) j = ground arith
writes-file (progress w id bytes at) j = ground arith
writes-file (reconcile id status how at) j = refl
writes-file (release_group lead token now) j = refl

-- The row of a Job, by its key.
unfoldable pub find_job : ℕ → List Job → Option Job
find_job id jobs = fetch_one (λ j. j.id == id) jobs

-- The row of a Job after a step is what the step writes into it, if it reaches it.
pub find_job-run_op :
    (p : ℕ → Option Bool) (jobs : List Job) (o : Op) (k : ℕ)
    → find_job k (run_op p jobs o)
      ≡ opt_map (λ r. if reaches p jobs o r then writes o r else r) (find_job k jobs)
unfolding find_job
find_job-run_op p jobs o k = rw (run_op-update p jobs o) (
    fetch_one-update (λ j. j.id == k) (reaches p jobs o) (writes o) (λ r h. rw (writes-id o r))
      jobs)

pub unreached :
    (p : ℕ → Option Bool) (jobs : List Job) (o : Op) (k : ℕ) (j : Job)
    → find_job k jobs ≡ some j
    → reaches p jobs o j ≡ false
    → find_job k (run_op p jobs o) ≡ some j
unreached p jobs o k j f e = find_job-run_op p jobs o k ∙ rw f (rw e)

-- A worker's lease on a row, which lasts until `expiry`.
pub record IsHeld (token : String) (expiry : ℕ) (j : Job) : Type 0 where
  pub named : token ≢ ""
  pub by_token : j.claim_token ≡ some token
  pub expires : j.claim_expires_at ≡ some expiry

-- A step of another worker, or one that looks for free work, before `expiry`.
abbrev pub Rival : String → ℕ → Op → Type 0
Rival token expiry (claim id lease now due) = now < expiry
Rival token expiry (claim_group acquired id lease now) = now < expiry
Rival token expiry (renew id other now expires) = other ≢ token
Rival token expiry (renew_group lead other ids now expires) = other ≢ token
Rival token expiry (set_to w id status at) =
    (other : String) × (w.token ≡ some other) × (other ≢ token)
Rival token expiry (retry w id count delay draw at) =
    (other : String) × (w.token ≡ some other) × (other ≢ token)
Rival token expiry (progress w id bytes at) =
    (other : String) × (w.token ≡ some other) × (other ≢ token)
Rival token expiry (reconcile id status how at) = at < expiry
Rival token expiry (release_group lead other now) = other ≢ token

module _ (token : String) (expiry : ℕ) (j : Job) (held : IsHeld token expiry j) where
  not_owned : (other : String) (now : ℕ) → other ≢ token → owns other now j ≡ false
  unfolding owns text_is
  not_owned other now ne = ground (arith, held.by_token, str_eq_iff token other)

  not_written :
      (w : Option String) (id at : ℕ)
      → (other : String) × (w ≡ some other) × (other ≢ token)
      → writes_to w id at j ≡ false
  unfolding writes_to is_fenced
  not_written w id at (other, e, ne) = rw e (ground (arith, not_owned other at ne))

  not_available : (now : ℕ) → now < expiry → claim_is_available now j ≡ false
  unfolding claim_is_available truthy
  not_available now lt =
      ground (arith, held.by_token, held.expires, held.named, str_eq_iff token "")

  not_unleased : (now : ℕ) → now < expiry → is_unleased now j ≡ false
  unfolding is_unleased
  not_unleased now lt = ground (arith, held.by_token, held.expires)

  not_free :
      (now : ℕ) (jobs : List Job) (lead : Job) (k : ℕ)
      → find_job k jobs ≡ some j
      → now < expiry
      → group_is_free now jobs lead && is_active_member lead j ≡ false
  unfolding group_is_free find_job
  not_free now jobs lead k f lt = ground (
    arith,
    all-select-fetch_one (is_active_member lead)
        (λ (m : Job). claim_is_available now m && purge_job_is_runnable now m)
        (λ (m : Job). m.id == k) jobs j,
    not_available now lt,
  )

  -- No rival step reaches a held row.
  Rival-unreached :
      (p : ℕ → Option Bool) (jobs : List Job) (o : Op) (k : ℕ)
      → find_job k jobs ≡ some j
      → Rival token expiry o
      → reaches p jobs o j ≡ false
  unfolding reaches claims is_claimable reconciles renews_member releases is_fenced claim_is_stale
  Rival-unreached p jobs (claim id lease now due) k f r = ground (arith, not_unleased now r)
  Rival-unreached p jobs (claim_group acquired id lease now) k f r =
      elim (Option-cases (find_lead jobs id)) [
        | inl e ↦ rw e (ground arith)
        | inr (lead, e) ↦ rw e (ground (arith, not_free now jobs lead k f r))
      ]
  Rival-unreached p jobs (renew id other now expires) k f r = ground (arith, not_owned other now r)
  Rival-unreached p jobs (renew_group lead other ids now expires) k f r =
      ground (arith, not_owned other now r)
  Rival-unreached p jobs (set_to w id status at) k f r = ground (arith, not_written w.token id at r)
  Rival-unreached p jobs (retry w id count delay draw at) k f r =
      ground (arith, not_written w.token id at r)
  Rival-unreached p jobs (progress w id bytes at) k f r =
      ground (arith, not_written w.token id at r)
  Rival-unreached p jobs (reconcile id status how at) k f r =
      ground (arith, held.by_token, held.expires)
  Rival-unreached p jobs (release_group lead other now) k f r =
      ground (arith, not_owned other now r)

-- While a nonempty token's lease on a Job lasts, no sequence of rivals' steps changes the Job's
-- row: claims and restart decisions before the lease expires, and renewals, releases and fenced
-- writes under other tokens at any time.
pub lease_exclusive :
    (p : ℕ → Option Bool) (jobs : List Job) (os : List Op) (k : ℕ) (j : Job) (token : String)
    (expiry : ℕ)
    → find_job k jobs ≡ some j
    → IsHeld token expiry j
    → All (Rival token expiry) os
    → find_job k (run_ops p jobs os) ≡ some j
unfolding run_ops
lease_exclusive p jobs [] k j token expiry f h rs = f
lease_exclusive p jobs (o ∷ os) k j token expiry f h rs =
    lease_exclusive p (run_op p jobs o) os k j token expiry
      (unreached p jobs o k j f (Rival-unreached token expiry j h p jobs o k f rs.0)) h rs.1
