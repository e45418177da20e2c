-- ===== src/Deletion.antt =====
-- app/services/cloud_deletion.py: the seven-day deletion of cloud copies. The store is one Vault's: its
-- row, its files with their Local Copies, the Archive Versions and delete markers in the order of their
-- version numbers and ids, the deletion items, and the table of Jobs, which may hold others' Jobs.
-- A missing text is the empty text; times are in microseconds; ids are drawn from counters.
pub mod Schedule
pub mod Purge
pub mod Stops
pub mod Batches
pub mod Delay
pub mod Expected
pub mod Execution
pub mod Revocation
pub mod Targets
pub mod Consent
pub mod Release
pub mod Completion
mod Samples
mod Tests
use frostvault.Prelude.{
  ℕ, ◌+◌, ◌*◌, String, str_eq, Bool, true, false, not, ◌&&◌, ◌||◌, Option, none, some, List, [],
  ◌∷◌, ◌++◌, ◌==◌, if◌then◌else◌, any, all, map, length, is_none, is_some, opt_all, opt_any,
  FilePath, path_eq, is_below, is_relative,
}
use frostvault.Prelude.Result.{Result, ok, raise, ◌>>=◌, ◌>>◌, require}
use frostvault.Prelude.Table.{select}
use frostvault.Jobs.{Job, Decommission, is_terminal, is_purge}
use frostvault.Protection.{
  Presence, Availability, Integrity, purged, is_verified, is_available, is_present, is_unsupported,
  observation_is_unconfirmed,
}
use text.Mathlib.Text.{starts_with}

-- `DELETION_DELAY_SECONDS`.
abbrev pub deletion_delay : ℕ
deletion_delay = 7 * 24 * 60 * 60 * 1000000

-- `CloudDeletionError`, by its message, and `ConfirmationRequired`.
pub data Error : Type 0 where
  already_stopped unsupported_origin confirmation_required reason_required : Error
  nothing_selected invalid_selection observations_unconfirmed not_cloud_only pending_work : Error
  inexact_version not_absent not_cancellable : Error
  authority_inactive stop_authority_changed delay_not_elapsed identity_changed : Error
  absence_unreconciled content_changed version_missing target_changed : Error
  bad_choice relocation_unfinished active_jobs no_pending_deletion : Error

-- `s3_prefix` ends in one slash.
pub record VaultRow : Type 0 where
  pub id : ℕ
  pub name : String
  pub enabled : Bool
  pub decommission_state : Decommission
  pub relocation_ready : Bool
  pub root_released_at : Option ℕ
  pub s3_prefix : String

-- A row of `vault_files` with its current path and its Local Copy.
pub record File : Type 0 where
  pub id : ℕ
  pub path : Option FilePath
  pub presence : Option Presence
  pub cloud_only_version_id : Option ℕ
  pub retired_at : Option ℕ
  pub is_purged : Bool

pub record Version : Type 0 where
  pub id : ℕ
  pub vault_file_id : ℕ
  pub object_key : String
  pub provider_version_id : String
  pub size : ℕ
  pub integrity : Integrity
  pub availability : Availability

pub record Marker : Type 0 where
  pub id : ℕ
  pub vault_file_id : ℕ
  pub object_key : String
  pub provider_version_id : String

pub data ItemStatus : Type 0 where
  pending failed deleted skipped : ItemStatus

-- `kind`, with the id of the row that it names.
pub data Kind : Type 0 where
  version delete_marker : ℕ → Kind

pub record Item : Type 0 where
  pub id : ℕ
  pub job_id : ℕ
  pub vault_file_id : ℕ
  pub kind : Kind
  pub object_key : String
  pub provider_version_id : String
  pub size_bytes : ℕ
  pub status : ItemStatus

pub data Disposition : Type 0 where
  keep delete : Disposition

-- A row of `protection_stops`.
pub record Stop : Type 0 where
  pub cloud_disposition : Disposition
  pub group_id : Option String

pub record Store : Type 0 where
  pub vault : VaultRow
  pub files : List File
  pub versions : List Version
  pub markers : List Marker
  pub items : List Item
  pub jobs : List Job
  pub stop : Option Stop
  pub next_job_id : ℕ
  pub next_item_id : ℕ

abbrev pub is_deleted : ItemStatus → Bool
is_deleted deleted = true
is_deleted _ = false

-- `status IN ('pending','failed')`.
abbrev pub is_open : ItemStatus → Bool
is_open pending = true
is_open failed = true
is_open _ = false

abbrev pub is_purged_version : Availability → Bool
is_purged_version purged = true
is_purged_version _ = false

-- `_versions`.
unfoldable pub versions_of : Store → ℕ → List Version
versions_of s file_id =
    select (λ v. v.vault_file_id == file_id && not (is_purged_version v.availability)) s.versions

abbrev pub marks : ℕ → Kind → Bool
marks marker_id (version id) = false
marks marker_id (delete_marker id) = id == marker_id

-- `_markers`: the file's delete markers that no item has deleted.
unfoldable pub markers_of : Store → ℕ → List Marker
markers_of s file_id =
    select
      (λ m.
        m.vault_file_id == file_id
        && not (any (λ i. marks m.id i.kind && is_deleted i.status) s.items))
      s.markers

abbrev pub last {ℓ} : {A : Type ℓ} → List A → Option A
last [] = none
last (x ∷ xs) = elim (last xs) [ none ↦ some x | some y ↦ some y ]

-- The Archive Version that the selection joins: the file's latest that is not purged.
unfoldable pub latest : Store → File → Option Version
latest s f = last (versions_of s f.id)

pub data Selection : Type 0 where
  whole_vault : Selection
  the_files : List FilePath → Selection
  the_directories : List FilePath → Selection

-- The `WHERE` of `_selected_files`.
unfoldable pub is_selected : Store → Selection → File → Bool
is_selected s whole_vault f = is_some (latest s f)
is_selected s (the_files paths) f = opt_any (λ p. any (λ q. path_eq q p) paths) f.path
is_selected s (the_directories paths) f =
    opt_any (λ p. any (λ q. path_eq q p || is_below q p) paths) f.path

abbrev pub is_nonempty {ℓ} : {A : Type ℓ} → List A → Bool
is_nonempty [] = false
is_nonempty (x ∷ xs) = true

unfoldable pub is_valid_selection : Selection → Bool
is_valid_selection whole_vault = true
is_valid_selection (the_files paths) = is_nonempty paths && all is_relative paths
is_valid_selection (the_directories paths) = is_nonempty paths && all is_relative paths

-- `_selected_files`; the files are kept in the order of their paths and ids.
unfoldable pub selected_files : Store → Selection → Result Error (List File)
selected_files s selection = do
  require (is_valid_selection selection) invalid_selection
  ok (select (is_selected s selection) s.files)

-- `presence in {None, "missing"}`.
unfoldable pub is_away : Option Presence → Bool
is_away presence = opt_all (λ p. not (is_present p) && not (is_unsupported p)) presence

unfoldable pub is_cloud_only : Store → File → Bool
is_cloud_only s f =
    is_away f.presence
    && is_none f.cloud_only_version_id
    && opt_any (λ v. is_verified v.integrity && is_available v.availability) (latest s f)
    && is_some f.path

-- A Job of the file that has not ended, apart from those of `own_group`.
unfoldable pub is_pending_work : ℕ → Option String → Job → Bool
is_pending_work file_id own_group j =
    j.vault_file_id == file_id
    && not (is_terminal j.status)
    && opt_all (λ g. not (opt_any (λ h. str_eq h g) j.group_id)) own_group

-- An exact version of an object of this Vault.
unfoldable pub is_exact : VaultRow → String → String → Bool
is_exact v object_key provider_version_id =
    not (str_eq object_key "")
    && not (str_eq provider_version_id "")
    && not (str_eq provider_version_id "null")
    && starts_with object_key v.s3_prefix

-- The loop of `_validate_files` over the rows.
unfoldable pub validate_rows : Store → Option String → List File → Result Error (Unit {0})
validate_rows s own_group [] = ok tt
validate_rows s own_group (f ∷ fs) = do
  require (is_cloud_only s f) not_cloud_only
  require (not (any (is_pending_work f.id own_group) s.jobs)) pending_work
  require
      (all (λ v. is_exact s.vault v.object_key v.provider_version_id) (versions_of s f.id)
        && all (λ m. is_exact s.vault m.object_key m.provider_version_id) (markers_of s f.id))
      inexact_version
  validate_rows s own_group fs

-- What a call reads outside the tables: the last errors of the components, and whether the disk
-- confirms that files are absent (`require_local_absence`).
pub record World : Type 0 where
  pub last_error : String → Option String
  pub are_absent : List (Option FilePath) → Bool

unfoldable pub validate_files : World → Store → Option String → List File → Result Error (Unit {0})
validate_files w s own_group files = do
  require (not (observation_is_unconfirmed w.last_error)) observations_unconfirmed
  validate_rows s own_group files
  require (w.are_absent (map (λ f. f.path) files)) not_absent

pub record DeletionPreview : Type 0 where
  pub object_count : ℕ
  pub version_count : ℕ
  pub delete_marker_count : ℕ
  pub byte_count : ℕ

abbrev pub sum {ℓ} : {A : Type ℓ} → (A → ℕ) → List A → ℕ
sum f [] = 0
sum f (x ∷ xs) = f x + sum f xs

unfoldable pub preview_selection : World → Store → Selection → Result Error DeletionPreview
preview_selection w s selection = do
  files ← selected_files s selection
  require (is_nonempty files) nothing_selected
  validate_files w s none files
  ok (record {
    object_count = length files;
    version_count = sum (λ f. length (versions_of s f.id)) files;
    delete_marker_count = sum (λ f. length (markers_of s f.id)) files;
    byte_count = sum (λ f. sum (λ v. v.size) (versions_of s f.id)) files;
  })
