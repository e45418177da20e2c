-- ===== src/Admission/FreeSpace.antt =====
-- `queue_jobs` (app/catalog.py) queues the removal of a Local Copy only where an Archive Version
-- protects it, as app/services/protection_states.py defines protection.
use frostvault.Prelude.{
  ℕ, suc, true, ◌≡◌, refl, sym, ap, subst, ◌∙◌, some, List, [], ◌∷◌, ◌==◌, any, arith, Bool-cases,
  Option-cases, inl, inr, ◌⊎◌, All,
}
use frostvault.Prelude.Result.{OnOk, OnOk-bind, OnOk-returned, require, ◌>>◌}
use frostvault.Prelude.Table.{fetch_one}
use frostvault.Prelude.Table.Sort.{All-sorted}
use frostvault.Prelude.Table.Pairwise.{All-weaken, All-select_kept, All-append}
use frostvault.Protection.{vouches}
use frostvault.Jobs.{Job, is_upload, is_restorable, free_space}
use frostvault.Admission.{
  Tables, VaultFile, LocalRow, VersionRow, conflicts, insert_job, lock_vault, unsupported_origin,
}
use frostvault.Admission.Remediation.{Facts}
use frostvault.Admission.Candidates.{
  Texts, Request, Candidate, candidates, candidate, candidate_version, is_exact, join, current_path,
  is_queueable, latest, joins_version, may_free_space,
}
use frostvault.Admission.Queueing.{
  Sorted, nothing_sorted, sort_candidate, sort_candidates, insert_candidates, queue_sorted, Queued,
  queue_jobs, queued_job, is_supported_origin,
}
use frostvault.Admission.Effects.{insert_candidate-jobs}

-- The Job names the latest Archive Version of its file that is there, and this version protects the
-- file's Local Copy.
pub record IsBacked (t : Tables) (j : Job) : Type 0 where
  pub local_row : LocalRow
  pub version_row : VersionRow
  pub is_local : fetch_one (λ l. l.vault_file_id == j.vault_file_id) t.local_copies ≡ some local_row
  pub is_latest : latest (joins_version free_space) t.versions j.vault_file_id ≡ some version_row
  pub names : j.archive_version_id ≡ some version_row.version.id
  pub protects : vouches local_row.copy version_row.version ≡ true

-- A row of the table at the start, by its id.
abbrev pub IsOld : Tables → Job → Type 0
IsOld t j = any (λ o. o.id == j.id) t.jobs ≡ true

abbrev pub IsOldOrBacked : Tables → Job → Type 0
IsOldOrBacked t j = IsOld t j ⊎ IsBacked t j

All-IsOld : (jobs : List Job) → All (λ j. any (λ o. o.id == j.id) jobs ≡ true) jobs
All-IsOld [] = tt
All-IsOld (j ∷ jobs) = (
  ground arith,
  All-weaken (λ k. any (λ o. o.id == k.id) jobs ≡ true)
      (λ k. any (λ o. o.id == k.id) (j ∷ jobs) ≡ true) (λ k h. ground (arith, h)) jobs
      (All-IsOld jobs),
)

All-IsOldOrBacked : (t t' : Tables) → t' ≡ t → All (IsOldOrBacked t) t'.jobs
All-IsOldOrBacked t t' e =
    subst (λ u. All (IsOldOrBacked t) u.jobs) (sym e)
      (All-weaken (IsOld t) (IsOldOrBacked t) (λ j o. inl o) t.jobs (All-IsOld t.jobs))

module _ (t : Tables) (q : Request) (h : q.action ≡ free_space) where
  -- An eligible row of the join.
  record Eligible (c : Candidate) : Type 0 where
    is_row : c ≡ candidate t q c.vault_file_id c.path
    allowed : may_free_space c ≡ true

  candidate_version-latest :
      (file_id : ℕ)
      → candidate_version t q file_id ≡ latest (joins_version free_space) t.versions file_id
  unfolding candidate_version is_exact is_restorable
  candidate_version-latest file_id = rw h refl

  queued_job-version :
      (c : Candidate) (id : ℕ) (v : VersionRow)
      → c.av ≡ some v
      → (queued_job q c id).archive_version_id ≡ some v.version.id
  unfolding queued_job is_upload
  queued_job-version c id v e = rw h (rw e refl)

  allowed-vouches :
      (c : Candidate) (l : LocalRow) (v : VersionRow)
      → c.lc ≡ some l
      → c.av ≡ some v
      → may_free_space c ≡ true
      → vouches l.copy v.version ≡ true
  unfolding may_free_space vouches
  allowed-vouches c l v e f a = let both : may_free_space c ≡ true = a in ground (arith, e, f, a)

  has_both :
      (c : Candidate)
      → may_free_space c ≡ true
      → (l : LocalRow) × (v : VersionRow) × (c.lc ≡ some l) × (c.av ≡ some v)
  unfolding may_free_space
  has_both c a = elim (Option-cases c.lc) [
    | inl e ↦ absurd (ground (arith, a, e))
    | inr (l, e) ↦ elim (Option-cases c.av) [
      | inl f ↦ absurd (ground (arith, a, f))
      | inr (v, f) ↦ (l, v, e, f)
    ]
  ]

  Eligible-IsBacked : (c : Candidate) (id : ℕ) → Eligible c → IsBacked t (queued_job q c id)
  unfolding queued_job
  Eligible-IsBacked c id e =
      let both = has_both c e.allowed in
      record {
        local_row = both.0;
        version_row = both.1;
        is_local = sym (ap (λ (d : Candidate). d.lc) e.is_row) ∙ both.2;
        is_latest =
            sym (candidate_version-latest c.vault_file_id)
            ∙ sym (ap (λ (d : Candidate). d.av) e.is_row)
            ∙ both.3;
        names = queued_job-version c id both.1 both.3;
        protects = allowed-vouches c both.0 both.1 both.2 both.3 e.allowed;
      }

  -- The rows of the join, of which the loop allows some.
  join-rows :
      (fs : List VaultFile) → All (λ c. c ≡ candidate t q c.vault_file_id c.path) (join t q fs)
  unfolding join
  join-rows [] = tt
  join-rows (f ∷ fs) = elim (Option-cases (current_path t q f.id)) [
    | inl e ↦ rw (join, e) (join-rows fs)
    | inr (path, e) ↦ rw (join, e) (refl, join-rows fs)
  ]

  abbrev IsRow : Candidate → Type 0
  IsRow c = c ≡ candidate t q c.vault_file_id c.path

  abbrev SortedBacked : Tables × Sorted → Type 0
  SortedBacked (t', r) = (t' ≡ t) × All Eligible r.eligible

  sort_candidate-Backed :
      (texts : Texts) (facts : Facts) (c : Candidate) (t' : Tables) (r : Sorted)
      → IsRow c
      → SortedBacked (t', r)
      → OnOk SortedBacked (sort_candidate texts facts q free_space c (t', r))
  unfolding sort_candidate
  sort_candidate-Backed texts facts c t' r row s = elim (Bool-cases (may_free_space c)) [
    | inl e ↦ rw e (
      s.0,
      All-append Eligible r.eligible (c ∷ []) s.1 (record { is_row = row; allowed = e }, tt),
    )
    | inr e ↦ rw e s
  ]

  sort_candidates-Backed :
      (texts : Texts) (facts : Facts) (cs : List Candidate) (t' : Tables) (r : Sorted)
      → All IsRow cs
      → SortedBacked (t', r)
      → OnOk SortedBacked (sort_candidates texts facts q cs (t', r))
  unfolding sort_candidates
  sort_candidates-Backed texts facts [] t' r rows s = s
  sort_candidates-Backed texts facts (c ∷ cs) t' r rows s =
      OnOk-bind SortedBacked (sort_candidate texts facts q q.action c (t', r)) _ (λ s' e.
        sort_candidates-Backed texts facts cs s'.0 s'.1 rows.1 (
          OnOk-returned SortedBacked (sort_candidate texts facts q free_space c (t', r)) s'
            (sort_candidate-Backed texts facts c t' r rows.0 s)
            (ap (λ a. sort_candidate texts facts q a c (t', r)) (sym h) ∙ e)))

  abbrev Backed : List Job → Type 0
  Backed jobs = All (IsOldOrBacked t) jobs

  insert_job-Backed :
      (t' : Tables) (c : Candidate)
      → Eligible c
      → Backed t'.jobs
      → Backed (insert_job t' (queued_job q c)).0.jobs
  unfolding insert_job
  insert_job-Backed t' c e b =
      elim (Bool-cases (conflicts t'.jobs (queued_job q c (suc t'.last_job_id)))) [
        | inl k ↦ rw k b
        | inr k ↦ rw k (
            All-append (IsOldOrBacked t) t'.jobs (queued_job q c (suc t'.last_job_id) ∷ []) b
              (inr (Eligible-IsBacked c (suc t'.last_job_id) e), tt))
      ]

  insert_candidates-Backed :
      (cs : List Candidate) (t' : Tables) (ids : List ℕ) (bytes : ℕ)
      → All Eligible cs
      → Backed t'.jobs
      → Backed (insert_candidates q cs t' (ids, bytes)).0.jobs
  unfolding insert_candidates
  insert_candidates-Backed [] t' ids bytes es b = b
  insert_candidates-Backed (c ∷ cs) t' ids bytes es b =
      insert_candidates-Backed cs _ _ _ es.1
        (insert_candidate-jobs Backed q c t' ids bytes (insert_job-Backed t' c es.0 b))

  candidates-rows : (texts : Texts) → All IsRow (candidates texts t q)
  unfolding candidates
  candidates-rows texts =
      All-sorted _ IsRow _ (All-select_kept IsRow (is_queueable t q) _ (join-rows _))

abbrev pub QueuedBacked : Tables → Tables × Queued → Type 0
QueuedBacked t (t', r) = All (IsOldOrBacked t) t'.jobs

-- After a `free-space` call of `queue_jobs` that returns, every Job whose id no Job of the table had
-- before names the latest Archive Version of its file that is neither missing nor purged, and at the
-- moment of the call this version protects the file's present, regular Local Copy: it is verified
-- and available, and it matches the copy by its id and by its digest.
pub free_space_is_backed :
    (texts : Texts) (facts : Facts) (t : Tables) (q : Request)
    → q.action ≡ free_space
    → OnOk (QueuedBacked t) (queue_jobs texts facts t q)
unfolding queue_jobs queue_sorted
free_space_is_backed texts facts t q h =
    OnOk-bind (QueuedBacked t)
      (lock_vault t q.vault_id >> require (is_supported_origin q.origin) unsupported_origin) _
      (λ u e.
        OnOk-bind (QueuedBacked t)
          (sort_candidates texts facts q (candidates texts t q) (t, nothing_sorted)) _
          (λ s f.
            let loop =
              OnOk-returned (SortedBacked t q h) _ s
                (sort_candidates-Backed t q h texts facts (candidates texts t q) t nothing_sorted
                  (candidates-rows t q h texts) (refl, tt))
                f in
            insert_candidates-Backed t q h s.1.eligible s.0 _ _ loop.1
              (All-IsOldOrBacked t s.0 loop.0)))
