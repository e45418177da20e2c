-- ===== src/Admission/Effects.antt =====
-- What `admit`, `intercept_upload` (app/services/upload_remediation.py) and `queue_jobs`
-- (app/catalog.py) do to the table of Jobs: nothing, or an insert.
use frostvault.Prelude.{
  ℕ, String, Bool, false, ◌≡◌, subst, Option, none, some, List, Bool-cases, Option-cases, inl, inr,
  ◌==◌,
}
use frostvault.Prelude.Table.{fetch_one}
use frostvault.Jobs.{Job, Vault, is_automatic}
use frostvault.Admission.{Tables, Episode, insert_job}
use frostvault.Admission.Remediation.{
  Facts, admit, admit_job, intercept_upload, taking_episode, is_refused, suspension, target_reason,
  resuming_job,
}
use frostvault.Admission.Candidates.{Request, Candidate, local_copy_is_upload_eligible}
use frostvault.Admission.Queueing.{Sorted, sort_upload, insert_candidate, queued_job}

module _ {ℓ} (P : List Job → Option ℕ → Type ℓ) where
  admit_job-jobs :
      (t : Tables) (vault : Vault) (e : Episode) (stamp : ℕ) (is_automatic : Bool)
      (group_id : String)
      → P
          (insert_job t (resuming_job vault e stamp is_automatic group_id)).0.jobs
          (insert_job t (resuming_job vault e stamp is_automatic group_id)).1
      → P
          (admit_job t vault e stamp is_automatic group_id).0.jobs
          (admit_job t vault e stamp is_automatic group_id).1
  unfolding admit_job
  admit_job-jobs t vault e stamp is_automatic group_id new =
      elim (Option-cases (insert_job t (resuming_job vault e stamp is_automatic group_id)).1) [
        | inl n ↦ rw (admit_job, n) (subst (P _) n new)
        | inr (job_id, n) ↦ rw (admit_job, n) (subst (P _) n new)
      ]

  -- The tables of Jobs that `admit` can leave.
  pub admit-jobs :
      (facts : Facts) (t : Tables) (vault : Vault) (e : Episode) (stamp : ℕ)
      (is_automatic explicit : Bool) (group_id : String)
      → P t.jobs none
      → P
          (insert_job t (resuming_job vault e stamp is_automatic group_id)).0.jobs
          (insert_job t (resuming_job vault e stamp is_automatic group_id)).1
      → P
          (admit facts t vault e stamp is_automatic explicit group_id).0.jobs
          (admit facts t vault e stamp is_automatic explicit group_id).1
  unfolding admit
  admit-jobs facts t vault e stamp is_automatic explicit group_id old new =
      elim (Bool-cases (is_refused facts t explicit e)) [
        | inl r ↦ rw r old
        | inr r ↦ rw r (elim (Bool-cases (facts.original_was_cancelled e)) [
          | inl c ↦ rw c old
          | inr c ↦ rw c (elim (Option-cases (suspension facts t vault is_automatic e)) [
            | inr (why, s) ↦ rw s old
            | inl s ↦ rw s (elim (Option-cases (target_reason t.versions e.archive_version_id)) [
              | inr (why, u) ↦ rw u old
              | inl u ↦ rw u (admit_job-jobs t vault e stamp is_automatic group_id new)
            ])
          ])
        ])
      ]

  pub intercept-jobs :
      (facts : Facts) (t : Tables) (vault_id file_id stamp : ℕ) (is_automatic : Bool)
      (group_id : String)
      → P t.jobs none
      → ((vault : Vault) (e : Episode)
          → taking_episode facts t file_id ≡ some e
          → P
              (insert_job t (resuming_job vault e stamp is_automatic group_id)).0.jobs
              (insert_job t (resuming_job vault e stamp is_automatic group_id)).1)
      → P
          (intercept_upload facts t vault_id file_id stamp is_automatic group_id).0.jobs
          (intercept_upload facts t vault_id file_id stamp is_automatic group_id).2
  unfolding intercept_upload
  intercept-jobs facts t vault_id file_id stamp is_automatic group_id old new =
      elim (Option-cases (taking_episode facts t file_id)) [
        | inl f ↦ rw (intercept_upload, f) old
        | inr (e, f) ↦
            rw (intercept_upload, f)
              (elim (Option-cases (fetch_one (λ v. v.id == vault_id) t.vaults)) [
                | inl g ↦ rw g old
                | inr (vault, g) ↦ rw g (
                    admit-jobs facts t vault e stamp is_automatic false group_id old
                      (new vault e f))
              ])
      ]

module _ {ℓ} (P : List Job → Type ℓ) where
  -- One turn of the loop over the candidates of an upload.
  pub sort_upload-jobs :
      (facts : Facts) (q : Request) (c : Candidate) (t : Tables) (r : Sorted)
      → P t.jobs
      → ((vault : Vault) (e : Episode)
          → taking_episode facts t c.vault_file_id ≡ some e
          → P
              (insert_job t
                (resuming_job vault e q.requested_at (is_automatic q.origin) q.group_id)).0.jobs)
      → P (sort_upload facts q c (t, r)).0.jobs
  unfolding sort_upload
  sort_upload-jobs facts q c t r old new =
      elim (Bool-cases (local_copy_is_upload_eligible c.lc c.av)) [
        | inl e ↦ rw e (
            intercept-jobs (λ jobs id. P jobs) facts t q.vault_id c.vault_file_id q.requested_at
              (is_automatic q.origin) q.group_id old new)
        | inr e ↦ rw e old
      ]

  pub insert_candidate-jobs :
      (q : Request) (c : Candidate) (t : Tables) (ids : List ℕ) (bytes : ℕ)
      → P (insert_job t (queued_job q c)).0.jobs
      → P (insert_candidate q c t (ids, bytes)).0.jobs
  unfolding insert_candidate
  insert_candidate-jobs q c t ids bytes new =
      elim (Option-cases (insert_job t (queued_job q c)).1) [
        | inl e ↦ rw (insert_candidate, e) new
        | inr (id, e) ↦ rw (insert_candidate, e) new
      ]
