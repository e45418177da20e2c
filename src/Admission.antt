-- ===== src/Admission.antt =====
-- The rows on which a request for work is admitted: `lock_vault` of app/services/job_admission.py and
-- the insert into `jobs` that `queue_jobs` of app/catalog.py and `admit` of
-- app/services/upload_remediation.py share, whose conflict is the unique index of
-- migrations/versions/0002_versioned_archive.py on the file of a Job that has not ended.
pub mod Remediation
pub mod Candidates
pub mod Queueing
pub mod Effects
pub mod ActiveFile
pub mod Turns
pub mod Complete
pub mod FreeSpace
mod Tests
use frostvault.Prelude.{
  ℕ, suc, ◌+◌, String, Bool, true, false, not, ◌&&◌, ◌||◌, ◌==◌, Option, none, some, List, [], ◌∷◌,
  ◌++◌, if◌then◌else◌, any, FilePath,
}
use frostvault.Prelude.Result.{Result, ok, raise, require, ◌>>=◌, ◌>>◌}
use frostvault.Prelude.Table.{fetch_one}
use frostvault.Protection
use frostvault.Jobs.{Job, Vault, is_terminal}
use frostvault.Jobs.Claimable.{is_active}

pub data Error : Type 0 where
  vault_not_found vault_quiesced unsupported_origin unsupported_action : Error

-- A row of `vault_files`.
pub record VaultFile : Type 0 where
  pub id : ℕ
  pub vault_id : ℕ
  pub is_active : Bool

-- A row of `file_paths`; `is_current` is `valid_to IS NULL`.
pub record PathRow : Type 0 where
  pub vault_file_id : ℕ
  pub vault_id : ℕ
  pub path : FilePath
  pub valid_from : ℕ
  pub is_current : Bool

-- A row of `local_copies`.
pub record LocalRow : Type 0 where
  pub vault_file_id : ℕ
  pub size : Option ℕ
  pub copy : Protection.LocalCopy

-- A row of `archive_versions`.
pub record VersionRow : Type 0 where
  pub vault_file_id : ℕ
  pub version_number : ℕ
  pub size : ℕ
  pub storage_class : Option String
  pub is_restoring : Bool
  pub version : Protection.Version

-- `state` and `reason` of an upload remediation.
pub data EpisodeState : Type 0 where
  pending queued retrying blocked suspended cancelled resolved : EpisodeState

pub data Reason : Type 0 where
  vault_suspended identity_changed cloud_only_conflict active_operation pending_deletion : Reason
  source_volume_unavailable protection_paused proof_mismatch target_superseded : Reason
  target_unavailable expected_evidence_missing : Reason

-- A row of `upload_remediations`; `path` and `path_since` are of `target_json`.
pub record Episode : Type 0 where
  pub id : ℕ
  pub vault_file_id : ℕ
  pub created_at : ℕ
  pub state : EpisodeState
  pub reason : Option Reason
  pub archive_version_id : Option ℕ
  pub current_job_id : Option ℕ
  pub due_at : ℕ
  pub updated_at : ℕ
  pub path : FilePath
  pub path_since : ℕ
  pub size : ℕ
  pub retry_count : ℕ

pub record Tables : Type 0 where
  pub vaults : List Vault
  pub files : List VaultFile
  pub paths : List PathRow
  pub local_copies : List LocalRow
  pub versions : List VersionRow
  pub episodes : List Episode
  pub jobs : List Job
  pub last_job_id : ℕ

-- `UPDATE vaults SET name=name … RETURNING`, which takes the row's lock and changes no value.
unfoldable pub lock_vault : Tables → ℕ → Result Error (Unit {0})
lock_vault t vault_id = elim (fetch_one (λ v. v.id == vault_id) t.vaults) [
  | none ↦ raise vault_not_found
  | some v ↦ require (is_active v.decommission_state) vault_quiesced
]

-- A Job of the file that has not ended, which `jobs_one_active_file_uq` allows once.
unfoldable pub is_active_job : ℕ → Job → Bool
is_active_job file_id j = j.vault_file_id == file_id && not (is_terminal j.status)

unfoldable pub conflicts : List Job → Job → Bool
conflicts jobs j = not (is_terminal j.status) && any (is_active_job j.vault_file_id) jobs

-- `INSERT … ON CONFLICT DO NOTHING RETURNING id`; `make` is the row at its id, and a conflict spends
-- an id of the sequence too.
unfoldable pub insert_job : Tables → (ℕ → Job) → Tables × Option ℕ
insert_job t make =
    let j = make (suc t.last_job_id) in
    if conflicts t.jobs j
    then (record t { last_job_id = suc t.last_job_id }, none)
    else (record t { jobs = t.jobs ++ (j ∷ []); last_job_id = suc t.last_job_id }, some j.id)
