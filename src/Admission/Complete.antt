-- ===== src/Admission/Complete.antt =====
-- `queue_jobs` (app/catalog.py) queues a Job for every row that it counts: under the Vault's lock the
-- conflict of the insert, which would drop a row, does not occur.
use frostvault.Prelude.{
  ℕ, suc, ◌+◌, false, not, ◌&&◌, ◌≡◌, ◌≢◌, refl, ◌∙◌, some, List, [], ◌∷◌, ◌++◌, any, arith,
  Option-cases, inl, inr, All, length, length-append,
}
use frostvault.Prelude.Result.{OnOk, OnOk-bind, OnOk-returned, require, ◌>>◌}
use frostvault.Prelude.Table.Sort.{All-sorted}
use frostvault.Prelude.Table.Pairwise.{
  Pairwise, All-zip, All-left, All-select_kept, Pairwise-left, Pairwise-select, Pairwise-sorted,
}
use frostvault.Prelude.Table.Reads.{All-select}
use frostvault.Jobs.{Job, is_terminal}
use frostvault.Admission.{
  Tables, VaultFile, is_active_job, conflicts, insert_job, lock_vault, unsupported_origin,
}
use frostvault.Admission.Remediation.{Facts}
use frostvault.Admission.Candidates.{
  Texts, Request, Candidate, candidates, join, current_path, is_candidate_file, is_queueable,
}
use frostvault.Admission.Queueing.{
  nothing_sorted, sort_candidates, insert_candidate, insert_candidates, queue_sorted, Queued,
  queue_jobs, queued_job, is_supported_origin, size_of, total_bytes_of,
}
use frostvault.Admission.Turns.{
  IsFree, Apart, Apart-symmetric, FreeIn, append-IsFree, LoopOn, sort_candidates-Loop,
}

-- The tables after a Job is queued.
abbrev with_job : Request → Candidate → Tables → Tables
with_job q c t = record t {
  jobs = t.jobs ++ (queued_job q c (suc t.last_job_id) ∷ []);
  last_job_id = suc t.last_job_id;
}

insert_job-free :
    (q : Request) (c : Candidate) (t : Tables)
    → FreeIn t.jobs c
    → insert_job t (queued_job q c) ≡ (with_job q c t, some (suc t.last_job_id))
unfolding insert_job conflicts queued_job
insert_job-free q c t free =
    let none_active : not (is_terminal q.initial_status)
          && any (is_active_job c.vault_file_id) t.jobs
        ≡ false =
      ground arith in
    rw none_active refl

insert_candidate-free :
    (q : Request) (c : Candidate) (t : Tables) (ids : List ℕ) (bytes : ℕ)
    → FreeIn t.jobs c
    → insert_candidate q c t (ids, bytes)
      ≡ (with_job q c t, ids ++ (suc t.last_job_id ∷ []), bytes + size_of q.action c)
unfolding insert_candidate
insert_candidate-free q c t ids bytes free =
    let inserted = insert_job-free q c t free in rw (insert_candidate, inserted) (rw inserted refl)

queued_job-file :
    (q : Request) (c : Candidate) (id : ℕ) → c.vault_file_id ≡ (queued_job q c id).vault_file_id
unfolding queued_job
queued_job-file q c id = refl

insert_candidates-count :
    (q : Request) (cs : List Candidate) (t : Tables) (ids : List ℕ) (bytes : ℕ)
    → All (FreeIn t.jobs) cs
    → Pairwise Apart cs
    → (length (insert_candidates q cs t (ids, bytes)).1 ≡ length ids + length cs)
      × (length (insert_candidates q cs t (ids, bytes)).0.jobs ≡ length t.jobs + length cs)
unfolding insert_candidates
insert_candidates-count q [] t ids bytes f a = (omega arith, omega arith)
insert_candidates-count q (c ∷ cs) t ids bytes f a =
    let new : Job = queued_job q c (suc t.last_job_id) in
    let rest =
      insert_candidates-count q cs (with_job q c t) (ids ++ (suc t.last_job_id ∷ []))
        (bytes + size_of q.action c)
        (All-zip (Apart c) (FreeIn t.jobs) (FreeIn (t.jobs ++ (new ∷ [])))
          (λ d apart free.
            append-IsFree t.jobs new d.vault_file_id
              (λ same. apart (queued_job-file q c (suc t.last_job_id) ∙ same)) free)
          cs a.0 f.1)
        a.1 in
    rw (insert_candidates, insert_candidate-free q c t ids bytes f.0)
      (
        omega (arith, rest.0, length-append ids (suc t.last_job_id ∷ [])),
        omega (arith, rest.1, length-append t.jobs (new ∷ [])),
      )

module _ (t : Tables) (q : Request) where
  -- What holds of every file's id holds of its row of the join.
  All-join {ℓ} :
      (P : ℕ → Type ℓ) (fs : List VaultFile)
      → All (λ (f : VaultFile). P f.id) fs
      → All (λ (c : Candidate). P c.vault_file_id) (join t q fs)
  unfolding join
  All-join P [] a = tt
  All-join P (f ∷ fs) a = elim (Option-cases (current_path t q f.id)) [
    | inl e ↦ rw (join, e) (All-join P fs a.1)
    | inr (path, e) ↦ rw (join, e) (a.0, All-join P fs a.1)
  ]

  join-Apart :
      (fs : List VaultFile)
      → Pairwise (λ (f g : VaultFile). f.id ≢ g.id) fs
      → Pairwise Apart (join t q fs)
  unfolding join
  join-Apart [] p = tt
  join-Apart (f ∷ fs) p = elim (Option-cases (current_path t q f.id)) [
    | inl e ↦ rw (join, e) (join-Apart fs p.1)
    | inr (path, e) ↦ rw (join, e) (All-join (λ k. f.id ≢ k) fs p.0, join-Apart fs p.1)
  ]

  candidates-Apart :
      (texts : Texts)
      → Pairwise (λ (f g : VaultFile). f.id ≢ g.id) t.files
      → Pairwise Apart (candidates texts t q)
  unfolding candidates
  candidates-Apart texts p = Pairwise-sorted Apart Apart-symmetric _ _ (
      Pairwise-select Apart (is_queueable t q) _
        (join-Apart _ (Pairwise-select _ (is_candidate_file t q) t.files p)))

  candidates-Free : (texts : Texts) → All (FreeIn t.jobs) (candidates texts t q)
  unfolding candidates is_candidate_file
  candidates-Free texts = All-sorted _ (FreeIn t.jobs) _ (
      All-select_kept (FreeIn t.jobs) (is_queueable t q) _ (
        All-join (IsFree t.jobs) _ (
          All-select (λ (f : VaultFile). IsFree t.jobs f.id) (is_candidate_file t q)
            (λ f h. ground arith) t.files)))

-- The Jobs and the ids that a call adds are as many as the rows that it counts.
abbrev pub AddsMatched : Tables → Tables × Queued → Type 0
AddsMatched t (t', r) =
    (length r.job_ids ≡ r.matched) × (length t'.jobs ≡ length t.jobs + r.matched)

-- Where the ids of the files differ, a call of `queue_jobs` that returns has added exactly as many
-- Jobs as it counts rows, those of resumed uploads included, and returns as many ids: no row that it
-- found eligible is dropped by a conflict.
pub queue_jobs_complete :
    (texts : Texts) (facts : Facts) (t : Tables) (q : Request)
    → Pairwise (λ (f g : VaultFile). f.id ≢ g.id) t.files
    → OnOk (AddsMatched t) (queue_jobs texts facts t q)
unfolding queue_jobs queue_sorted
queue_jobs_complete texts facts t q p =
    OnOk-bind (AddsMatched t)
      (lock_vault t q.vault_id >> require (is_supported_origin q.origin) unsupported_origin) _
      (λ u e.
        OnOk-bind (AddsMatched t)
          (sort_candidates texts facts q (candidates texts t q) (t, nothing_sorted)) _
          (λ s f.
            let loop : LoopOn t.jobs [] s =
              OnOk-returned (LoopOn t.jobs []) _ s
                (sort_candidates-Loop texts facts q t.jobs (candidates texts t q) t nothing_sorted
                  (record {
                    counted = omega arith;
                    free = candidates-Free t q texts;
                    apart = candidates-Apart t q texts p;
                  }))
                f in
            let all =
              insert_candidates-count q s.1.eligible s.0 s.1.remediation_job_ids
                (total_bytes_of s.0.jobs s.1.remediation_job_ids)
                (All-left (FreeIn s.0.jobs) s.1.eligible [] loop.free)
                (Pairwise-left Apart s.1.eligible [] loop.apart) in
            (omega (arith, all.0), omega (arith, all.1, loop.counted))))
