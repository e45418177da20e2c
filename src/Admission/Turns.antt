-- ===== src/Admission/Turns.antt =====
-- The loop of `queue_jobs` (app/catalog.py) over its candidates keeps the eligible rows free of Jobs
-- that have not ended.
use frostvault.Prelude.{
  ℕ, suc, ◌+◌, String, Bool, true, false, not, ◌&&◌, ◌≡◌, ◌≢◌, refl, sym, subst, ◌∙◌, Option, none,
  some, List, [], ◌∷◌, ◌++◌, ◌==◌, any, any-append, arith, Bool-cases, Option-cases, inl, inr, All,
  length, length-append,
}
use mathlib.Core.List.{append_assoc}
use frostvault.Prelude.Result.{OnOk, OnOk-bind, OnOk-returned}
use frostvault.Prelude.Table.{fetch_one}
use frostvault.Prelude.Table.Sort.{All-sorted}
use frostvault.Prelude.Table.Pairwise.{
  Pairwise, All-zip, All-without, Pairwise-without, Pairwise-middle,
}
use frostvault.Prelude.Table.Reads.{All-select, All-fetch_one, All-take}
use frostvault.Jobs.{
  Job, is_automatic, upload, recover, free_space, rename, cloud_purge, storage_class, Action,
}
use frostvault.Admission.{Tables, Episode, is_active_job, conflicts, insert_job}
use frostvault.Admission.Remediation.{
  Facts, intercept_upload, taking_episode, open_episodes, resuming_job, created_before,
}
use frostvault.Admission.Effects.{intercept-jobs}
use frostvault.Admission.Candidates.{
  Texts, Request, Candidate, may_change_class, has_target_class, local_copy_is_upload_eligible,
}
use frostvault.Admission.Queueing.{
  Sorted, add_eligible, add_taken, sort_upload, sort_class, sort_candidate, sort_candidates,
}

-- No Job of the file has not ended.
abbrev pub IsFree : List Job → ℕ → Type 0
IsFree jobs file_id = any (is_active_job file_id) jobs ≡ false

-- The table has one Job more, of the file, if there is an id, and is the same otherwise.
abbrev Added : List Job → ℕ → List Job → Option ℕ → Type 0
Added jobs file_id jobs' none = jobs' ≡ jobs
Added jobs file_id jobs' (some id) =
    (j : Job) × (jobs' ≡ jobs ++ (j ∷ [])) × (j.vault_file_id ≡ file_id)

insert_job-Added :
    (t : Tables) (make : ℕ → Job) (file_id : ℕ)
    → ((id : ℕ) → (make id).vault_file_id ≡ file_id)
    → Added t.jobs file_id (insert_job t make).0.jobs (insert_job t make).1
unfolding insert_job
insert_job-Added t make file_id h =
    elim (Bool-cases (conflicts t.jobs (make (suc t.last_job_id)))) [
      | inl e ↦ rw e refl
      | inr e ↦ rw e (make (suc t.last_job_id), refl, h (suc t.last_job_id))
    ]

-- The episode that takes a request is one of the file.
taking_episode-file :
    (facts : Facts) (t : Tables) (file_id : ℕ) (e : Episode)
    → taking_episode facts t file_id ≡ some e
    → e.vault_file_id ≡ file_id
unfolding taking_episode open_episodes
taking_episode-file facts t file_id e f =
    All-fetch_one (λ e. e.vault_file_id ≡ file_id) (λ e. not (facts.is_void e)) _ e
      (All-take _ 8 _ (
        All-sorted created_before (λ e. e.vault_file_id ≡ file_id) _
          (All-select (λ e. e.vault_file_id ≡ file_id) _ (λ r h. ground arith) t.episodes)))
      f

intercept-Added :
    (facts : Facts) (t : Tables) (vault_id file_id stamp : ℕ) (auto : Bool) (group_id : String)
    → Added t.jobs file_id
        (intercept_upload facts t vault_id file_id stamp auto group_id).0.jobs
        (intercept_upload facts t vault_id file_id stamp auto group_id).2
unfolding resuming_job
intercept-Added facts t vault_id file_id stamp auto group_id =
    intercept-jobs (Added t.jobs file_id) facts t vault_id file_id stamp auto group_id refl
      (λ vault e f.
        insert_job-Added t (resuming_job vault e stamp auto group_id) file_id
          (λ id. taking_episode-file facts t file_id e f))

intercept_not_taken :
    (facts : Facts) (t : Tables) (vault_id file_id stamp : ℕ) (auto : Bool) (group_id : String)
    → (intercept_upload facts t vault_id file_id stamp auto group_id).1 ≡ false
    → (intercept_upload facts t vault_id file_id stamp auto group_id).2 ≡ none
unfolding intercept_upload
intercept_not_taken facts t vault_id file_id stamp auto group_id h =
    elim (Option-cases (taking_episode facts t file_id)) [
      | inl f ↦ rw (intercept_upload, f) refl
      | inr (e, f) ↦ elim (Option-cases (fetch_one (λ v. v.id == vault_id) t.vaults)) [
        | inl g ↦ absurd (
            let taken : true ≡ false =
              subst (λ x. x ≡ false) (rw (intercept_upload, f) (rw g refl)) h in
            ground arith)
        | inr (vault, g) ↦ absurd (
            let taken : true ≡ false =
              subst (λ x. x ≡ false) (rw (intercept_upload, f) (rw g refl)) h in
            ground arith)
      ]
    ]

abbrev pub Apart : Candidate → Candidate → Type 0
Apart a b = a.vault_file_id ≢ b.vault_file_id

pub Apart-symmetric : (a b : Candidate) → Apart a b → Apart b a
Apart-symmetric a b h e = h (sym e)

abbrev pub FreeIn : List Job → Candidate → Type 0
FreeIn jobs c = IsFree jobs c.vault_file_id

-- What holds of the loop over the candidates, of which `cs` are left: `start` is the table at its
-- start.
pub record Loop (start jobs : List Job) (eligible : List Candidate) (ids : List ℕ)
    (cs : List Candidate) : Type 0 where
  pub counted : length jobs ≡ length start + length ids
  pub free : All (FreeIn jobs) (eligible ++ cs)
  pub apart : Pairwise Apart (eligible ++ cs)

-- A Job of one file leaves another file free.
pub append-IsFree :
    (jobs : List Job) (j : Job) (file_id : ℕ)
    → j.vault_file_id ≢ file_id
    → IsFree jobs file_id
    → IsFree (jobs ++ (j ∷ [])) file_id
unfolding is_active_job
append-IsFree jobs j file_id ne h = ground (arith, any-append (is_active_job file_id) jobs (j ∷ []))

module _ (start jobs : List Job) (eligible : List Candidate) (ids : List ℕ) (c : Candidate)
    (cs : List Candidate) (h : Loop start jobs eligible ids (c ∷ cs)) where
  Loop-skip : Loop start jobs eligible ids cs
  Loop-skip = record {
    counted = h.counted;
    free = All-without (FreeIn jobs) eligible c cs h.free;
    apart = Pairwise-without Apart eligible c cs h.apart;
  }

  Loop-keep : Loop start jobs (eligible ++ (c ∷ [])) ids cs
  Loop-keep =
      let same : eligible ++ (c ∷ cs) ≡ (eligible ++ (c ∷ [])) ++ cs =
        sym (append_assoc eligible (c ∷ []) cs) in
      record {
        counted = h.counted;
        free = subst (All (FreeIn jobs)) same h.free;
        apart = subst (Pairwise Apart) same h.apart;
      }

  Loop-resumed :
      (id : ℕ) (jobs' : List Job)
      → Added jobs c.vault_file_id jobs' (some id)
      → Loop start jobs' eligible (ids ++ (id ∷ [])) cs
  Loop-resumed id jobs' (j, e, f) = record {
    counted =
        rw e (omega (arith, h.counted, length-append jobs (j ∷ []), length-append ids (id ∷ [])));
    free = rw e (
        All-zip (Apart c) (FreeIn jobs) (FreeIn (jobs ++ (j ∷ [])))
          (λ d a free. append-IsFree jobs j d.vault_file_id (λ same. a (sym f ∙ same)) free)
          (eligible ++ cs) (Pairwise-middle Apart Apart-symmetric eligible c cs h.apart)
          (All-without (FreeIn jobs) eligible c cs h.free));
    apart = Pairwise-without Apart eligible c cs h.apart;
  }

  Loop-same : (jobs' : List Job) → jobs' ≡ jobs → Loop start jobs' eligible ids (c ∷ cs)
  Loop-same jobs' e = subst (λ js. Loop start js eligible ids (c ∷ cs)) (sym e) h

-- The loop's state, with the candidates that are left.
abbrev pub LoopOn : List Job → List Candidate → Tables × Sorted → Type 0
LoopOn start cs (t, r) = Loop start t.jobs r.eligible r.remediation_job_ids cs

allowed-Loop :
    (start : List Job) (t : Tables) (r : Sorted) (c : Candidate) (cs : List Candidate)
    (allowed : Bool)
    → LoopOn start (c ∷ cs) (t, r)
    → LoopOn start cs (t, add_eligible allowed c r)
allowed-Loop start t r c cs true h = Loop-keep start t.jobs r.eligible r.remediation_job_ids c cs h
allowed-Loop start t r c cs false h = Loop-skip start t.jobs r.eligible r.remediation_job_ids c cs h

taken-Loop :
    (start : List Job) (t t' : Tables) (r : Sorted) (c : Candidate) (cs : List Candidate)
    (taken : Bool) (resumed : Option ℕ)
    → Added t.jobs c.vault_file_id t'.jobs resumed
    → (taken ≡ false → resumed ≡ none)
    → LoopOn start (c ∷ cs) (t, r)
    → LoopOn start cs (t', add_taken (taken, resumed) c r)
taken-Loop start t t' r c cs true (some id) a n h =
    Loop-resumed start t.jobs r.eligible r.remediation_job_ids c cs h id t'.jobs a
taken-Loop start t t' r c cs true none a n h =
    Loop-skip start t'.jobs r.eligible r.remediation_job_ids c cs
      (Loop-same start t.jobs r.eligible r.remediation_job_ids c cs h t'.jobs a)
taken-Loop start t t' r c cs false none a n h =
    Loop-keep start t'.jobs r.eligible r.remediation_job_ids c cs
      (Loop-same start t.jobs r.eligible r.remediation_job_ids c cs h t'.jobs a)
taken-Loop start t t' r c cs false (some id) a n h = absurd (let e = n refl in ground arith)

upload-Loop :
    (facts : Facts) (q : Request) (start : List Job) (t : Tables) (r : Sorted) (c : Candidate)
    (cs : List Candidate)
    → LoopOn start (c ∷ cs) (t, r)
    → LoopOn start cs (sort_upload facts q c (t, r))
unfolding sort_upload
upload-Loop facts q start t r c cs h = elim (Bool-cases (local_copy_is_upload_eligible c.lc c.av)) [
  | inr e ↦ rw e (Loop-skip start t.jobs r.eligible r.remediation_job_ids c cs h)
  | inl e ↦
      let taken =
        intercept_upload facts t q.vault_id c.vault_file_id q.requested_at (is_automatic q.origin)
          q.group_id in
      rw e (
        taken-Loop start t taken.0 r c cs taken.1 taken.2
          (intercept-Added facts t q.vault_id c.vault_file_id q.requested_at (is_automatic q.origin)
            q.group_id)
          (intercept_not_taken facts t q.vault_id c.vault_file_id q.requested_at
            (is_automatic q.origin) q.group_id)
          h)
]

sort_candidate-Loop :
    (texts : Texts) (facts : Facts) (q : Request) (action : Action) (start : List Job) (t : Tables)
    (r : Sorted) (c : Candidate) (cs : List Candidate)
    → LoopOn start (c ∷ cs) (t, r)
    → OnOk (LoopOn start cs) (sort_candidate texts facts q action c (t, r))
unfolding sort_candidate sort_class
sort_candidate-Loop texts facts q upload start t r c cs h = upload-Loop facts q start t r c cs h
sort_candidate-Loop texts facts q recover start t r c cs h = allowed-Loop start t r c cs _ h
sort_candidate-Loop texts facts q free_space start t r c cs h = allowed-Loop start t r c cs _ h
sort_candidate-Loop texts facts q rename start t r c cs h = allowed-Loop start t r c cs _ h
sort_candidate-Loop texts facts q storage_class start t r c cs h =
    elim (Bool-cases (may_change_class c && has_target_class texts q c)) [
      | inl e ↦ rw e (Loop-skip start t.jobs r.eligible r.remediation_job_ids c cs h)
      | inr e ↦ rw e (allowed-Loop start t r c cs _ h)
    ]
sort_candidate-Loop texts facts q cloud_purge start t r c cs h = tt

pub sort_candidates-Loop :
    (texts : Texts) (facts : Facts) (q : Request) (start : List Job) (cs : List Candidate)
    (t : Tables) (r : Sorted)
    → LoopOn start cs (t, r)
    → OnOk (LoopOn start []) (sort_candidates texts facts q cs (t, r))
unfolding sort_candidates
sort_candidates-Loop texts facts q start [] t r h = h
sort_candidates-Loop texts facts q start (c ∷ cs) t r h =
    OnOk-bind (LoopOn start []) (sort_candidate texts facts q q.action c (t, r)) _ (λ s e.
      sort_candidates-Loop texts facts q start cs s.0 s.1 (
        OnOk-returned (LoopOn start cs) (sort_candidate texts facts q q.action c (t, r)) s
          (sort_candidate-Loop texts facts q q.action start t r c cs h) e))
