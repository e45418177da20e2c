-- ===== src/Jobs/Claiming.antt =====
-- `claim_job` of app/catalog.py: when it grants a lease, and what the lease is worth.
use frostvault.Prelude.{
  ℕ, str_eq, Bool, true, false, ◌≡◌, ◌≢◌, refl, sym, ◌∙◌, Option, none, some, List, [], ◌∷◌, ◌==◌,
  if◌then◌else◌, any, arith, Bool-cases, inl, inr, opt_map, All, str_eq_iff, ap, ==_iff,
}
use frostvault.Prelude.Table.{fetch_one, update}
use frostvault.Prelude.Table.Reads.{fetch_one-update, fetch_one-holds}
use frostvault.Jobs.{Job}
use frostvault.Jobs.Claims.{Lease, ok, claims, claim_job, take_lease}
use frostvault.Jobs.Claimable.{is_claimable}
use frostvault.Jobs.Ops.{Op, run_ops}
use frostvault.Jobs.Lease.{find_job, IsHeld, Rival, lease_exclusive}

-- The ids of the rows differ, as the table's primary key has it.
abbrev pub DistinctIds : List Job → Type 0
DistinctIds [] = Unit {0}
DistinctIds (j ∷ js) = (find_job j.id js ≡ none) × DistinctIds js

module _ (p : ℕ → Option Bool) (now due k : ℕ) where
  no_claims :
      (all_jobs jobs : List Job)
      → find_job k jobs ≡ none
      → any (claims p now due all_jobs k) jobs ≡ false
  unfolding find_job fetch_one claims
  no_claims all_jobs [] f = refl
  no_claims all_jobs (x ∷ t) f = ground (arith, no_claims all_jobs t)

  -- Some row is claimed exactly when the row with the id is.
  any-claims :
      (all_jobs jobs : List Job) (j : Job)
      → DistinctIds jobs
      → find_job k jobs ≡ some j
      → any (claims p now due all_jobs k) jobs ≡ claims p now due all_jobs k j
  unfolding find_job fetch_one claims
  any-claims all_jobs [] j d f = ground arith
  any-claims all_jobs (x ∷ t) j d f = elim (Bool-cases (x.id == k)) [
    | inl e ↦
        let same : x ≡ j = ground arith in
        let rest : find_job k t ≡ none = ap (λ i. find_job i t) (sym ((==_iff x.id k).0 e)) ∙ d.0 in
        ground (arith, no_claims all_jobs t rest)
    | inr e ↦ ground (arith, any-claims all_jobs t j d.1)
  ]

  find_job-id : (jobs : List Job) (j : Job) → find_job k jobs ≡ some j → j.id ≡ k
  unfolding find_job
  find_job-id jobs j f = (==_iff j.id k).0 (fetch_one-holds (λ j. j.id == k) jobs j f)

  granted_row :
      (jobs : List Job) (lease : Lease) (j : Job)
      → find_job k jobs ≡ some j
      → find_job k (update (claims p now due jobs k) (take_lease lease) jobs)
        ≡ some (if claims p now due jobs k j then take_lease lease j else j)
  unfolding find_job take_lease
  granted_row jobs lease j f =
      fetch_one-update (λ j. j.id == k) (claims p now due jobs k) (take_lease lease) (λ r h. refl)
        jobs
      ∙ ap (opt_map (λ r. if claims p now due jobs k r then take_lease lease r else r)) f

  -- What `claim_job` answers for the Job of its id: the leased row if the Job is claimable, and no
  -- row otherwise.
  claim_job_answer :
      (jobs : List Job) (lease : Lease) (j : Job)
      → lease.token ≢ ""
      → DistinctIds jobs
      → find_job k jobs ≡ some j
      → claim_job p jobs k lease now due
        ≡ ok (
          update (claims p now due jobs k) (take_lease lease) jobs,
          if claims p now due jobs k j then some (take_lease lease j) else none,
        )
  unfolding claim_job find_job
  claim_job_answer jobs lease j n d f =
      let e : str_eq lease.token "" ≡ false = ground (arith, str_eq_iff lease.token "") in
      rw e (rw (any-claims jobs jobs j d f) (ground (arith, granted_row jobs lease j f)))

  granted :
      (jobs : List Job) (lease : Lease) (j : Job) {t : List Job} {r : Job}
      → lease.token ≢ ""
      → DistinctIds jobs
      → find_job k jobs ≡ some j
      → claim_job p jobs k lease now due ≡ ok (t, some r)
      → (claims p now due jobs k j ≡ true) × (r ≡ take_lease lease j) × (find_job k t ≡ some r)
  granted jobs lease j n d f c =
      ground (arith, claim_job_answer jobs lease j n d f, granted_row jobs lease j f)

leased-IsHeld :
    (lease : Lease) (j r : Job)
    → lease.token ≢ ""
    → r ≡ take_lease lease j
    → IsHeld lease.token lease.expires_at r
unfolding take_lease
leased-IsHeld lease j r n e = record {
  named = n;
  by_token = ap (λ (j : Job). j.claim_token) e;
  expires = ap (λ (j : Job). j.claim_expires_at) e;
}

-- Where Job ids are distinct, a lease that claim_job grants under a nonempty token goes to a Job
-- that was claimable, and writes only the lease into its row. No sequence of rivals' steps then
-- changes the row: claims and restart decisions before the lease expires, and writes under other
-- tokens.
pub claim_job_exclusive :
    (p : ℕ → Option Bool) (jobs : List Job) (k : ℕ) (lease : Lease) (now due : ℕ) (j : Job)
    {t : List Job} {r : Job} (os : List Op)
    → lease.token ≢ ""
    → DistinctIds jobs
    → find_job k jobs ≡ some j
    → claim_job p jobs k lease now due ≡ ok (t, some r)
    → All (Rival lease.token lease.expires_at) os
    → (is_claimable p now due jobs j ≡ true)
      × (r ≡ take_lease lease j)
      × (find_job k (run_ops p t os) ≡ some r)
unfolding claims
claim_job_exclusive p jobs k lease now due j {t} {r} os n d f c rivals =
    let (claimed, same, found) = granted p now due k jobs lease j n d f c in
    (
      ground (arith, claimed),
      same,
      lease_exclusive p t os k r lease.token lease.expires_at found (leased-IsHeld lease j r n same)
          rivals,
    )
