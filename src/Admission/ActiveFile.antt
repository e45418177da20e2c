-- ===== src/Admission/ActiveFile.antt =====
-- A Vault File has one Job at most that has not ended: what `queue_jobs` (app/catalog.py) inserts and
-- what the workers write keep the index `jobs_one_active_file_uq`.
use frostvault.Prelude.{
  ℕ, suc, ◌≤◌, Bool, true, false, ◌&&◌, ◌≡◌, Option, List, [], ◌∷◌, any, subst, arith, Bool-cases,
  inl, inr, All,
}
use frostvault.Prelude.Result.{Result, ok, raise, OnOk, OnOk-bind, OnOk-returned, require, ◌>>◌}
use frostvault.Prelude.Table.Count.{count, count-update, count-any, count-append}
use frostvault.Jobs.{
  Job, is_terminal, upload, recover, free_space, rename, cloud_purge, storage_class, Action,
}
use frostvault.Jobs.Ops.{Op, run_op, reaches, writes}
use frostvault.Jobs.Lease.{run_op-update, writes-file}
use frostvault.Jobs.Terminal.{IsWorkerStep, ended_unreached}
use frostvault.Admission.{
  Tables, Error, is_active_job, conflicts, insert_job, lock_vault, unsupported_origin,
}
use frostvault.Admission.Remediation.{Facts}
use frostvault.Admission.Effects.{sort_upload-jobs, insert_candidate-jobs}
use frostvault.Admission.Candidates.{
  Texts, Request, Candidate, candidates, may_change_class, has_target_class,
}
use frostvault.Admission.Queueing.{
  Sorted, sort_class, sort_candidate, sort_candidates, insert_candidates, queue_sorted,
  nothing_sorted, is_supported_origin, Queued, queue_jobs,
}

-- The Jobs of a file that have not ended.
abbrev pub active_jobs : ℕ → List Job → ℕ
active_jobs file_id jobs = count (is_active_job file_id) jobs

-- `jobs_one_active_file_uq` holds.
abbrev pub OneActive : List Job → Type 0
OneActive jobs = (file_id : ℕ) → active_jobs file_id jobs ≤ 1

-- A row that a worker's step reaches has not ended.
reached-live :
    (p : ℕ → Option Bool) (jobs : List Job) (o : Op) (j : Job)
    → IsWorkerStep o
    → reaches p jobs o j ≡ true
    → is_terminal j.status ≡ false
reached-live p jobs o j w r = elim (Bool-cases (is_terminal j.status)) [
  | inr e ↦ e
  | inl e ↦ absurd (let never = ended_unreached j e p jobs o w in ground arith)
]

-- A worker's step.
work-OneActive :
    (p : ℕ → Option Bool) (jobs : List Job) (o : Op)
    → IsWorkerStep o
    → OneActive jobs
    → OneActive (run_op p jobs o)
unfolding is_active_job
work-OneActive p jobs o w h file_id =
    let shrinks =
      count-update (is_active_job file_id) (reaches p jobs o) (writes o)
        (λ j r a. ground (arith, writes-file o j, reached-live p jobs o j w r)) jobs in
    rw (run_op-update p jobs o) (omega (arith, shrinks, h file_id))

insert_job-OneActive :
    (t : Tables) (make : ℕ → Job) → OneActive t.jobs → OneActive (insert_job t make).0.jobs
unfolding insert_job conflicts is_active_job
insert_job-OneActive t make h file_id =
    let j : Job = make (suc t.last_job_id) in
    elim (Bool-cases (conflicts t.jobs j)) [
      | inl e ↦ rw e (h file_id)
      | inr e ↦ rw e (
          rw (count-append (is_active_job file_id) t.jobs j)
            (elim (Bool-cases (is_active_job file_id j)) [
              | inr a ↦ rw a (omega (arith, h file_id))
              | inl a ↦
                  let same : j.vault_file_id ≡ file_id = ground arith in
                  let free : any (is_active_job file_id) t.jobs ≡ false =
                    subst (λ k. any (is_active_job k) t.jobs ≡ false) same (ground arith) in
                  rw a (omega (arith, count-any (is_active_job file_id) t.jobs free))
            ]))
    ]

-- The loop over the candidates.
abbrev SortedOne : Tables × Sorted → Type 0
SortedOne (t, r) = OneActive t.jobs

sort_candidate-OneActive :
    (texts : Texts) (facts : Facts) (q : Request) (action : Action) (c : Candidate) (t : Tables)
    (r : Sorted)
    → OneActive t.jobs
    → OnOk SortedOne (sort_candidate texts facts q action c (t, r))
unfolding sort_candidate sort_class
sort_candidate-OneActive texts facts q upload c t r h =
    sort_upload-jobs OneActive facts q c t r h (λ vault e f. insert_job-OneActive t _ h)
sort_candidate-OneActive texts facts q recover c t r h = h
sort_candidate-OneActive texts facts q free_space c t r h = h
sort_candidate-OneActive texts facts q rename c t r h = h
sort_candidate-OneActive texts facts q storage_class c t r h =
    elim (Bool-cases (may_change_class c && has_target_class texts q c)) [
      | inl e ↦ rw e h
      | inr e ↦ rw e h
    ]
sort_candidate-OneActive texts facts q cloud_purge c t r h = tt

sort_candidates-OneActive :
    (texts : Texts) (facts : Facts) (q : Request) (cs : List Candidate) (t : Tables) (r : Sorted)
    → OneActive t.jobs
    → OnOk SortedOne (sort_candidates texts facts q cs (t, r))
unfolding sort_candidates
sort_candidates-OneActive texts facts q [] t r h = h
sort_candidates-OneActive texts facts q (c ∷ cs) t r h =
    OnOk-bind SortedOne (sort_candidate texts facts q q.action c (t, r)) _ (λ s e.
      sort_candidates-OneActive texts facts q cs s.0 s.1 (
        OnOk-returned SortedOne (sort_candidate texts facts q q.action c (t, r)) s
          (sort_candidate-OneActive texts facts q q.action c t r h) e))

-- The loop over the eligible rows.
insert_candidates-OneActive :
    (q : Request) (cs : List Candidate) (t : Tables) (ids : List ℕ) (bytes : ℕ)
    → OneActive t.jobs
    → OneActive (insert_candidates q cs t (ids, bytes)).0.jobs
unfolding insert_candidates
insert_candidates-OneActive q [] t ids bytes h = h
insert_candidates-OneActive q (c ∷ cs) t ids bytes h =
    insert_candidates-OneActive q cs _ _ _
      (insert_candidate-jobs OneActive q c t ids bytes (insert_job-OneActive t _ h))

abbrev QueuedOne : Tables × Queued → Type 0
QueuedOne (t, r) = OneActive t.jobs

queue_jobs-OneActive :
    (texts : Texts) (facts : Facts) (t : Tables) (q : Request)
    → OneActive t.jobs
    → OnOk QueuedOne (queue_jobs texts facts t q)
unfolding queue_jobs queue_sorted
queue_jobs-OneActive texts facts t q h =
    OnOk-bind QueuedOne
      (lock_vault t q.vault_id >> require (is_supported_origin q.origin) unsupported_origin) _
      (λ u e.
        OnOk-bind QueuedOne
          (sort_candidates texts facts q (candidates texts t q) (t, nothing_sorted)) _
          (λ s f. insert_candidates-OneActive q s.1.eligible s.0 _ _ (
            OnOk-returned SortedOne _ s
              (sort_candidates-OneActive texts facts q (candidates texts t q) t nothing_sorted h)
              f)))

-- Requests for work, each with what it reads of the other tables, and the steps of workers.
pub data Step : Type 0 where
  request : Facts → Request → Step
  work : Op → Step

-- A request that raises is rolled back.
abbrev pub tables_after : Tables → Result Error (Tables × Queued) → Tables
tables_after t (ok (t', r)) = t'
tables_after t (raise e) = t

unfoldable pub run_step : Texts → (ℕ → Option Bool) → Tables → Step → Tables
run_step texts p t (request facts q) = tables_after t (queue_jobs texts facts t q)
run_step texts p t (work o) = record t { jobs = run_op p t.jobs o }

unfoldable pub run_steps : Texts → (ℕ → Option Bool) → Tables → List Step → Tables
run_steps texts p t [] = t
run_steps texts p t (s ∷ ss) = run_steps texts p (run_step texts p t s) ss

abbrev pub IsTokenStep : Step → Type 0
IsTokenStep (request facts q) = Unit {0}
IsTokenStep (work o) = IsWorkerStep o

tables_after-OneActive :
    (t : Tables) (m : Result Error (Tables × Queued))
    → OneActive t.jobs
    → OnOk QueuedOne m
    → OneActive (tables_after t m).jobs
tables_after-OneActive t (ok (t', r)) h g = g
tables_after-OneActive t (raise e) h g = h

run_step-OneActive :
    (texts : Texts) (p : ℕ → Option Bool) (t : Tables) (s : Step)
    → IsTokenStep s
    → OneActive t.jobs
    → OneActive (run_step texts p t s).jobs
unfolding run_step
run_step-OneActive texts p t (request facts q) w h =
    tables_after-OneActive t (queue_jobs texts facts t q) h (queue_jobs-OneActive texts facts t q h)
run_step-OneActive texts p t (work o) w h = work-OneActive p t.jobs o w h

-- Where every Vault File has one Job at most that has not ended, this stays so after any sequence of
-- calls of `queue_jobs`, those included that resume failed uploads or raise, and of steps of workers
-- that carry a token: no write of theirs breaks the unique index.
pub run_steps-OneActive :
    (texts : Texts) (p : ℕ → Option Bool) (t : Tables) (ss : List Step)
    → OneActive t.jobs
    → All IsTokenStep ss
    → OneActive (run_steps texts p t ss).jobs
unfolding run_steps
run_steps-OneActive texts p t [] h w = h
run_steps-OneActive texts p t (s ∷ ss) h w =
    run_steps-OneActive texts p (run_step texts p t s) ss (run_step-OneActive texts p t s w.0 h) w.1
