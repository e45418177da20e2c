-- ===== src/Admission/Queueing.antt =====
-- `queue_jobs` (app/catalog.py): the candidates that are allowed, and the Jobs that are inserted for
-- them. The columns of estimates and restore options, and the marks on aggregates, are left out.
use frostvault.Prelude.{
  ℕ, suc, ◌+◌, Bool, true, false, ◌&&◌, ◌==◌, Option, none, some, List, [], ◌∷◌, ◌++◌,
  if◌then◌else◌, any, opt_map, coalesce, length,
}
use frostvault.Prelude.Result.{Result, ok, raise, require, ◌>>=◌, ◌>>◌}
use frostvault.Jobs.{
  Job, Action, upload, recover, free_space, rename, cloud_purge, storage_class, Origin,
  stop_protection, is_upload, is_restorable, is_automatic,
}
use frostvault.Admission.{
  VersionRow, Tables, Error, unsupported_origin, unsupported_action, lock_vault, insert_job,
}
use frostvault.Admission.Remediation.{Facts, intercept_upload}
use frostvault.Admission.Candidates.{
  Texts, Request, Candidate, candidates, local_copy_is_upload_eligible, may_recover, may_free_space,
  may_rename, may_change_class, has_target_class, is_recover,
}

abbrev pub is_supported_origin : Origin → Bool
is_supported_origin stop_protection = false
is_supported_origin _ = true

-- What the loop over the candidates gathers.
pub record Sorted : Type 0 where
  pub eligible : List Candidate
  pub remediation_job_ids : List ℕ
  pub skipped_same : ℕ

abbrev pub nothing_sorted : Sorted
nothing_sorted = record { eligible = []; remediation_job_ids = []; skipped_same = 0 }

abbrev pub add_eligible : Bool → Candidate → Sorted → Sorted
add_eligible allowed c r = if allowed then record r { eligible = r.eligible ++ (c ∷ []) } else r

abbrev pub add_resumed : Option ℕ → Sorted → Sorted
add_resumed none r = r
add_resumed (some job_id) r = record r {
  remediation_job_ids = r.remediation_job_ids ++ (job_id ∷ []);
}

-- What an intercepted request adds: nothing but the Job that resumes its episode.
abbrev pub add_taken : Bool × Option ℕ → Candidate → Sorted → Sorted
add_taken (true, resumed) c r = add_resumed resumed r
add_taken (false, resumed) c r = add_eligible true c r

unfoldable pub sort_upload : Facts → Request → Candidate → Tables × Sorted → Tables × Sorted
sort_upload facts q c (t, r) =
    let taken =
      intercept_upload facts t q.vault_id c.vault_file_id q.requested_at (is_automatic q.origin)
        q.group_id in
    if local_copy_is_upload_eligible c.lc c.av
    then (taken.0, add_taken (taken.1, taken.2) c r)
    else (t, r)

unfoldable pub sort_class : Texts → Request → Candidate → Tables × Sorted → Tables × Sorted
sort_class texts q c (t, r) =
    if may_change_class c && has_target_class texts q c
    then (t, record r { skipped_same = suc r.skipped_same })
    else (t, add_eligible (may_change_class c) c r)

-- The branches of one turn of the loop.
unfoldable pub sort_candidate :
    Texts → Facts → Request → Action → Candidate → Tables × Sorted → Result Error (Tables × Sorted)
sort_candidate texts facts q upload c s = ok (sort_upload facts q c s)
sort_candidate texts facts q recover c (t, r) = ok (t, add_eligible (may_recover c) c r)
sort_candidate texts facts q free_space c (t, r) = ok (t, add_eligible (may_free_space c) c r)
sort_candidate texts facts q rename c (t, r) = ok (t, add_eligible (may_rename c) c r)
sort_candidate texts facts q storage_class c s = ok (sort_class texts q c s)
sort_candidate texts facts q cloud_purge c s = raise unsupported_action

unfoldable pub sort_candidates :
    Texts → Facts → Request → List Candidate → Tables × Sorted → Result Error (Tables × Sorted)
sort_candidates texts facts q [] s = ok s
sort_candidates texts facts q (c ∷ cs) s =
    sort_candidate texts facts q q.action c s >>= λ s'. sort_candidates texts facts q cs s'

abbrev pub id_of_version : Option VersionRow → Option ℕ
id_of_version av = opt_map (λ v. v.version.id) av

-- `int(cloud_size if … else local_size or 0)`; an action on the cloud's size has a version.
unfoldable pub size_of : Action → Candidate → ℕ
size_of action c =
    if is_restorable action
    then coalesce (opt_map (λ v. v.size) c.av) 0
    else elim c.lc [ none ↦ 0 | some l ↦ coalesce l.size 0 ]

unfoldable pub queued_job : Request → Candidate → ℕ → Job
queued_job q c id = record {
  id = id;
  vault_id = q.vault_id;
  vault_file_id = c.vault_file_id;
  archive_version_id = if is_upload q.action then none else id_of_version c.av;
  path = c.path;
  action = q.action;
  status = q.initial_status;
  origin = q.origin;
  group_id = some q.group_id;
  requested_at = q.requested_at;
  updated_at = q.requested_at;
  retry_count = 0;
  retry_after = none;
  pending_until = if is_recover q.action then q.pending_until else none;
  claim_token = none;
  claimed_at = none;
  claim_expires_at = none;
  total_bytes = size_of q.action c;
  transferred_bytes = 0;
  notify_pending = false;
}

-- What `queue_jobs` returns, and `last_skipped_same_class`.
pub record Queued : Type 0 where
  pub job_ids : List ℕ
  pub total_bytes : ℕ
  pub matched : ℕ
  pub last_skipped_same_class : ℕ

-- One turn of the loop over the eligible rows: the ids and the bytes so far.
unfoldable pub insert_candidate : Request → Candidate → Tables → List ℕ × ℕ → Tables × List ℕ × ℕ
insert_candidate q c t (ids, bytes) =
    let inserted = insert_job t (queued_job q c) in
    elim inserted.1 [
      | none ↦ (inserted.0, ids, bytes)
      | some id ↦ (inserted.0, ids ++ (id ∷ []), bytes + size_of q.action c)
    ]

unfoldable pub insert_candidates :
    Request → List Candidate → Tables → List ℕ × ℕ → Tables × List ℕ × ℕ
insert_candidates q [] t (ids, bytes) = (t, ids, bytes)
insert_candidates q (c ∷ cs) t acc =
    let next = insert_candidate q c t acc in insert_candidates q cs next.0 (next.1, next.2)

-- `sum(total_bytes)` of the Jobs with these ids.
unfoldable pub total_bytes_of : List Job → List ℕ → ℕ
total_bytes_of [] ids = 0
total_bytes_of (j ∷ js) ids =
    let rest = total_bytes_of js ids in
    if any (λ id. id == j.id) ids then j.total_bytes + rest else rest

unfoldable pub queue_sorted : Request → Tables → Sorted → Tables × Queued
queue_sorted q t r =
    let done =
      insert_candidates q r.eligible t
        (r.remediation_job_ids, total_bytes_of t.jobs r.remediation_job_ids) in
    (
      done.0,
      record {
        job_ids = done.1;
        total_bytes = done.2;
        matched = length r.eligible + length r.remediation_job_ids;
        last_skipped_same_class = r.skipped_same;
      },
    )

unfoldable pub queue_jobs : Texts → Facts → Tables → Request → Result Error (Tables × Queued)
queue_jobs texts facts t q =
    lock_vault t q.vault_id
    >> require (is_supported_origin q.origin) unsupported_origin
    >> (sort_candidates texts facts q (candidates texts t q) (t, nothing_sorted) >>= λ (t', r).
        ok (queue_sorted q t' r))
