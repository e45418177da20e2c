-- ===== src/Admission/Candidates.antt =====
-- The candidates of `queue_jobs` (app/catalog.py) and the test of each action, with
-- `local_copy_is_protected` and `local_copy_is_upload_eligible` of
-- app/services/directory_aggregates.py.
use frostvault.Prelude.{
  ℕ, String, str_eq, Bool, true, false, not, ◌&&◌, ◌||◌, ◌==◌, Option, none, some, List, [], ◌∷◌,
  leb, if◌then◌else◌, opt_any, is_some, coalesce, FilePath, path_eq, is_below, opt_map,
}
use frostvault.Prelude.Table.{select, fetch_one}
use frostvault.Prelude.Table.Sort.{sorted}
use frostvault.Protection.{is_present, is_verified, is_available, is_missing, same_sha256}
use frostvault.Jobs.{Action, recover, Origin, Status, is_restorable}
use frostvault.Admission.{VaultFile, LocalRow, VersionRow, Tables}
use frostvault.Admission.Remediation.{is_purged, has_active_job}

-- `str.upper`, and the database's order of `lower(path)`.
pub record Texts : Type 0 where
  pub upper : String → String
  pub lower_before : FilePath → FilePath → Bool

-- The arguments of `queue_jobs`; those that it only writes into columns left out are left out.
pub record Request : Type 0 where
  pub vault_id : ℕ
  pub path : FilePath
  pub action : Action
  pub requested_at : ℕ
  pub group_id : String
  pub is_directory : Bool
  pub archive_version_id : Option ℕ
  pub initial_status : Status
  pub pending_until : Option ℕ
  pub origin : Origin
  pub target_storage_class : Option String
  pub whole_vault : Bool

-- One row of the join.
pub record Candidate : Type 0 where
  pub vault_file_id : ℕ
  pub path : FilePath
  pub lc : Option LocalRow
  pub av : Option VersionRow

abbrev pub is_recover : Action → Bool
is_recover recover = true
is_recover _ = false

-- `ORDER BY version_number DESC LIMIT 1` of the versions that pass.
unfoldable pub latest : (VersionRow → Bool) → List VersionRow → ℕ → Option VersionRow
latest p versions file_id =
    fetch_one (λ v. true)
      (sorted (λ a b. leb b.version_number a.version_number)
        (select (λ v. v.vault_file_id == file_id && p v) versions))

abbrev pub is_recoverable : VersionRow → Bool
is_recoverable v = is_verified v.version.integrity && is_available v.version.availability

-- The condition of the join with the latest Archive Version.
unfoldable pub joins_version : Action → VersionRow → Bool
joins_version action v =
    not (is_missing v.version.availability)
    && not (is_purged v.version.availability)
    && (not (is_restorable action)
        || (is_available v.version.availability
            && (not (is_recover action) || is_verified v.version.integrity)))

-- `action == "recover" and archive_version_id`: the version is the current snapshot.
unfoldable pub is_current_snapshot : List VersionRow → ℕ → Option VersionRow → Bool
is_current_snapshot versions file_id av =
    opt_any
      (λ v.
        opt_any (λ current. v.version.id == current.version.id)
          (latest is_recoverable versions file_id))
      av

unfoldable pub is_exact : Request → Bool
is_exact q =
    is_restorable q.action
    && is_some q.archive_version_id
    && not q.is_directory
    && not q.whole_vault

unfoldable pub candidate_version : Tables → Request → ℕ → Option VersionRow
candidate_version t q file_id =
    if is_exact q
    then fetch_one
        (λ v. v.vault_file_id == file_id && opt_any (λ id. v.version.id == id) q.archive_version_id)
        t.versions
    else latest (joins_version q.action) t.versions file_id

-- The clauses on the path.
unfoldable pub is_under : Request → FilePath → Bool
is_under q path =
    q.whole_vault || (if q.is_directory then is_below q.path path else path_eq path q.path)

unfoldable pub is_queueable : Tables → Request → Candidate → Bool
is_queueable t q c =
    (not (is_recover q.action && is_some q.archive_version_id)
      || is_current_snapshot t.versions c.vault_file_id c.av)
    && (not (is_exact q) || is_some c.av)

abbrev pub candidate : Tables → Request → ℕ → FilePath → Candidate
candidate t q file_id path = record {
  vault_file_id = file_id;
  path = path;
  lc = fetch_one (λ c. c.vault_file_id == file_id) t.local_copies;
  av = candidate_version t q file_id;
}

unfoldable pub is_candidate_file : Tables → Request → VaultFile → Bool
is_candidate_file t q f =
    f.vault_id == q.vault_id && f.is_active && not (has_active_job t.jobs f.id)

-- The current path of a file, which `file_paths_one_current_file_uq` allows once.
unfoldable pub current_path : Tables → Request → ℕ → Option FilePath
current_path t q file_id =
    opt_map (λ p. p.path)
      (fetch_one
        (λ p.
          p.vault_file_id == file_id
          && p.is_current
          && p.vault_id == q.vault_id
          && is_under q p.path)
        t.paths)

-- The rows of the join, file by file.
unfoldable pub join : Tables → Request → List VaultFile → List Candidate
join t q [] = []
join t q (f ∷ fs) = elim (current_path t q f.id) [
  | none ↦ join t q fs
  | some path ↦ candidate t q f.id path ∷ join t q fs
]

unfoldable pub candidates : Texts → Tables → Request → List Candidate
candidates texts t q =
    sorted (λ a b. texts.lower_before a.path b.path)
      (select (is_queueable t q) (join t q (select (is_candidate_file t q) t.files)))

-- `row["presence"] == "present" and row["file_type"] == "regular"`.
abbrev pub is_regular_copy : Option LocalRow → Bool
is_regular_copy lc = opt_any (λ c. is_present c.copy.presence && c.copy.is_regular) lc

-- A NULL that is compared with a value; the version's id is never NULL.
abbrev pub is_matched : LocalRow → VersionRow → Bool
is_matched c v =
    opt_any (λ id. id == v.version.id) c.copy.matched_archive_version_id
    && same_sha256 c.copy.plaintext_sha256 v.version.plaintext_sha256

-- Without a Local Copy the two columns are NULL.
unfoldable pub local_copy_is_protected : Option LocalRow → Option VersionRow → Bool
local_copy_is_protected lc none = false
local_copy_is_protected lc (some v) = is_recoverable v && opt_any (λ c. is_matched c v) lc

unfoldable pub local_copy_is_upload_eligible : Option LocalRow → Option VersionRow → Bool
local_copy_is_upload_eligible lc av =
    is_regular_copy lc
    && not (opt_any (λ v. v.is_restoring) av)
    && not (opt_any (λ c. is_some c.copy.cloud_only_version_id) lc)
    && not (local_copy_is_protected lc av)

unfoldable pub may_recover : Candidate → Bool
may_recover c = not (opt_any (λ l. is_present l.copy.presence) c.lc) && opt_any is_recoverable c.av

unfoldable pub may_free_space : Candidate → Bool
may_free_space c =
    is_regular_copy c.lc
    && opt_any (λ v. is_recoverable v && opt_any (λ l. is_matched l v) c.lc) c.av

unfoldable pub may_rename : Candidate → Bool
may_rename c = is_regular_copy c.lc && opt_any is_recoverable c.av

unfoldable pub may_change_class : Candidate → Bool
may_change_class c = opt_any (λ v. is_available v.version.availability && not v.is_restoring) c.av

-- `(target_storage_class or "").upper() or None`.
unfoldable pub target_class : Texts → Request → Option String
target_class texts q =
    let target = texts.upper (coalesce q.target_storage_class "") in
    if str_eq target "" then none else some target

abbrev pub or_standard : Option String → String
or_standard none = "STANDARD"
or_standard (some s) = if str_eq s "" then "STANDARD" else s

abbrev pub class_of : Option VersionRow → Option String
class_of none = none
class_of (some v) = v.storage_class

-- `current == target_class`, where there is a target.
unfoldable pub has_target_class : Texts → Request → Candidate → Bool
has_target_class texts q c =
    opt_any (λ target. str_eq (texts.upper (or_standard (class_of c.av))) target)
      (target_class texts q)
