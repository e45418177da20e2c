-- ===== src/Admission/Remediation.antt =====
-- `admit` and `intercept_upload` of app/services/upload_remediation.py: the episode of a failed upload
-- that takes a request for the file, and the Job that resumes it. The episodes are those after
-- `discover_file`; the rows that bind the resumed Job are left out.
use frostvault.Prelude.{
  ℕ, ◌+◌, ◌*◌, String, Bool, true, false, not, ◌&&◌, ◌||◌, ◌==◌, Option, none, some, List, ltb, leb,
  if◌then◌else◌, any, opt_any, is_some, FilePath, path_eq, take,
}
use frostvault.Prelude.Table.{select, fetch_one, update}
use frostvault.Prelude.Table.Sort.{sorted}
use frostvault.Protection
use frostvault.Jobs.{Job, Vault, queued, upload, manual, automatic, is_terminal}
use frostvault.Jobs.Claimable.{is_active}
use frostvault.Admission
use frostvault.Admission.{
  PathRow, LocalRow, VersionRow, Episode, EpisodeState, Reason, Tables, is_active_job, insert_job,
  pending, retrying, blocked, suspended, cancelled, resolved, vault_suspended, identity_changed,
  cloud_only_conflict, active_operation, pending_deletion, source_volume_unavailable,
  protection_paused, proof_mismatch, target_superseded, target_unavailable,
  expected_evidence_missing,
}

-- What the remediation reads of the other tables.
pub record Facts : Type 0 where
  -- `root_released_at` of the vault, and the pinned columns of its root.
  pub root_released : Bool
  pub same_root : Episode → Bool
  -- An unsettled send of another intent of the file.
  pub other_send : Episode → Bool
  pub has_pending_deletion : ℕ → Bool
  pub source_has_error : Bool
  -- `policy.auto_upload` and `auto_upload_path_is_included`.
  pub auto_upload_includes : FilePath → Bool
  -- `_void`.
  pub is_void : Episode → Bool
  pub original_was_cancelled : Episode → Bool

-- `_later`, in microseconds.
abbrev pub later : ℕ → ℕ
later stamp = stamp + 10 * 1000000

abbrev pub has_active_job : List Job → ℕ → Bool
has_active_job jobs file_id = any (is_active_job file_id) jobs

unfoldable pub pins_path : Tables → ℕ → Episode → Bool
pins_path t vault_id e =
    any (λ f. f.id == e.vault_file_id && f.vault_id == vault_id && f.is_active) t.files
    && opt_any (λ p. path_eq p.path e.path && p.valid_from == e.path_since)
        (fetch_one (λ p. p.vault_file_id == e.vault_file_id && p.is_current) t.paths)

unfoldable pub is_held_back : Tables → ℕ → Bool
is_held_back t file_id =
    opt_any (λ c. is_some c.copy.cloud_only_version_id)
      (fetch_one (λ c. c.vault_file_id == file_id) t.local_copies)

-- `_suspension`.
unfoldable pub suspension : Facts → Tables → Vault → Bool → Episode → Option Reason
suspension facts t vault is_automatic e =
    if not vault.enabled
      || not (is_active vault.decommission_state)
      || facts.root_released
      || not vault.relocation_ready
    then some vault_suspended
    else if not (facts.same_root e)
    then some identity_changed
    else if not (pins_path t vault.id e)
    then some identity_changed
    else if is_held_back t e.vault_file_id
    then some cloud_only_conflict
    else if facts.other_send e || has_active_job t.jobs e.vault_file_id
    then some active_operation
    else if facts.has_pending_deletion e.vault_file_id
    then some pending_deletion
    else if facts.source_has_error
    then some source_volume_unavailable
    else if is_automatic && not (facts.auto_upload_includes e.path)
    then some protection_paused
    else none

abbrev pub is_settled_state : EpisodeState → Bool
is_settled_state cancelled = true
is_settled_state resolved = true
is_settled_state Admission.queued = true
is_settled_state retrying = true
is_settled_state _ = false

abbrev pub is_blocked : EpisodeState → Bool
is_blocked blocked = true
is_blocked _ = false

abbrev pub is_resolved : EpisodeState → Bool
is_resolved resolved = true
is_resolved _ = false

-- `reason in {"proof_mismatch", "expected_evidence_missing", "target_superseded"}`.
abbrev pub is_final : Reason → Bool
is_final proof_mismatch = true
is_final expected_evidence_missing = true
is_final target_superseded = true
is_final _ = false

abbrev pub is_purged : Protection.Availability → Bool
is_purged Protection.purged = true
is_purged _ = false

-- Why the episode's Archive Version cannot be resumed.
unfoldable pub target_reason : List VersionRow → Option ℕ → Option Reason
target_reason versions none = none
target_reason versions (some id) = elim (fetch_one (λ v. v.version.id == id) versions) [
  | none ↦ none
  | some v ↦
      if Protection.is_available v.version.availability
        && not (Protection.is_mismatch v.version.integrity)
      then none
      else some (
          if Protection.is_mismatch v.version.integrity
          then proof_mismatch
          else if is_purged v.version.availability
          then target_superseded
          else target_unavailable)
]

abbrev pub set_episode : Tables → ℕ → (Episode → Episode) → Tables
set_episode t id f = record t { episodes = update (λ e. e.id == id) f t.episodes }

unfoldable pub cancel : ℕ → Episode → Episode
cancel stamp e = record e { state = cancelled; updated_at = stamp }

unfoldable pub suspend : Reason → ℕ → Episode → Episode
suspend why stamp e = record e {
  state = suspended;
  reason = some why;
  due_at = later stamp;
  updated_at = stamp;
}

unfoldable pub block : Reason → ℕ → Episode → Episode
block why stamp e = record e { state = blocked; reason = some why; updated_at = stamp }

unfoldable pub resume : ℕ → ℕ → Episode → Episode
resume job_id stamp e = record e {
  state = Admission.queued;
  reason = none;
  current_job_id = some job_id;
  updated_at = stamp;
}

-- The Job that resumes an episode.
unfoldable pub resuming_job : Vault → Episode → ℕ → Bool → String → ℕ → Job
resuming_job vault e stamp is_automatic group_id id = record {
  id = id;
  vault_id = vault.id;
  vault_file_id = e.vault_file_id;
  archive_version_id = e.archive_version_id;
  path = e.path;
  action = upload;
  status = queued;
  origin = if is_automatic then automatic else manual;
  group_id = some group_id;
  requested_at = stamp;
  updated_at = stamp;
  retry_count = e.retry_count;
  retry_after = none;
  pending_until = none;
  claim_token = none;
  claimed_at = none;
  claim_expires_at = none;
  total_bytes = e.size;
  transferred_bytes = 0;
  notify_pending = false;
}

-- The early returns of `admit` that write nothing.
unfoldable pub is_refused : Facts → Tables → Bool → Episode → Bool
is_refused facts t explicit e =
    is_settled_state e.state
    || (is_blocked e.state && not explicit)
    || facts.is_void e
    || (explicit && opt_any is_final e.reason)
    || opt_any (λ id. any (λ j. j.id == id && not (is_terminal j.status)) t.jobs) e.current_job_id

unfoldable pub admit_job : Tables → Vault → Episode → ℕ → Bool → String → Tables × Option ℕ
admit_job t vault e stamp is_automatic group_id =
    let inserted = insert_job t (resuming_job vault e stamp is_automatic group_id) in
    elim inserted.1 [
      | none ↦ (inserted.0, none)
      | some job_id ↦ (set_episode inserted.0 e.id (resume job_id stamp), some job_id)
    ]

-- `admit`; the second component is the id of the Job that it queued. `bind_for_resume` binds the Job to
-- the episode's intent. Where it raises, since the intent's first Job is gone or a Job of the intent is
-- cancelled, the caller's transaction is rolled back: such calls are left out here.
unfoldable pub admit :
    Facts → Tables → Vault → Episode → ℕ → Bool → Bool → String → Tables × Option ℕ
admit facts t vault e stamp is_automatic explicit group_id =
    if is_refused facts t explicit e
    then (t, none)
    else if facts.original_was_cancelled e
    then (set_episode t e.id (cancel stamp), none)
    else elim (suspension facts t vault is_automatic e) [
      | some why ↦ (set_episode t e.id (suspend why stamp), none)
      | none ↦ elim (target_reason t.versions e.archive_version_id) [
        | some why ↦ (set_episode t e.id (block why stamp), none)
        | none ↦ admit_job t vault e stamp is_automatic group_id
      ]
    ]

-- `ORDER BY created_at,id LIMIT 8`.
unfoldable pub created_before : Episode → Episode → Bool
created_before a b =
    ltb a.created_at b.created_at || (a.created_at == b.created_at && leb a.id b.id)

unfoldable pub open_episodes : List Episode → ℕ → List Episode
open_episodes episodes file_id = take 8 (
    sorted created_before
      (select (λ e. e.vault_file_id == file_id && not (is_resolved e.state)) episodes))

-- The choice of the episode in `intercept_upload`.
unfoldable pub taking_episode : Facts → Tables → ℕ → Option Episode
taking_episode facts t file_id =
    fetch_one (λ e. not (facts.is_void e)) (open_episodes t.episodes file_id)

-- `intercept_upload`: whether an episode takes the request, and its Job. The vault is there, since
-- its row is locked.
unfoldable pub intercept_upload :
    Facts → Tables → ℕ → ℕ → ℕ → Bool → String → Tables × Bool × Option ℕ
intercept_upload facts t vault_id file_id stamp is_automatic group_id =
    elim (taking_episode facts t file_id) [
      | none ↦ (t, false, none)
      | some e ↦ elim (fetch_one (λ v. v.id == vault_id) t.vaults) [
        | none ↦ (t, true, none)
        | some vault ↦
            let admitted = admit facts t vault e stamp is_automatic false group_id in
            (admitted.0, true, admitted.1)
      ]
    ]
