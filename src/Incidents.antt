-- ===== src/Incidents.antt =====
-- app/services/catalog_incidents.py: the incidents that need the owner of a Vault, in the order of their
-- ids, with the Local Copies and Archive Versions that they are about. The reason of an incident, its
-- object and provider version, notifications and audit rows are left out.
pub mod Open
pub mod Calls
mod Tests
use frostvault.Prelude.{
  ℕ, ◌+◌, String, str_eq, Bool, true, false, not, ◌&&◌, ◌||◌, Option, none, some, List, [], ◌∷◌,
  ◌++◌, ◌==◌, if◌then◌else◌, any, length, is_some, is_none, coalesce, opt_all, opt_any, FilePath,
  path_eq,
}
use frostvault.Prelude.Result.{Result, ok, raise, ◌>>=◌, ◌>>◌, require}
use frostvault.Prelude.Table.{select, update, fetch_one}
use frostvault.Protection.{Presence, Availability, Integrity, is_present, is_verified, is_available}
use frostvault.Jobs.{truthy}

pub data Kind : Type 0 where
  archive_version_missing cloud_only_conflict : Kind

pub data Status : Type 0 where
  opened resolved : Status

pub record Incident : Type 0 where
  pub id : ℕ
  pub vault_id : ℕ
  pub vault_file_id : ℕ
  pub archive_version_id : ℕ
  pub kind : Kind
  pub status : Status
  pub path : FilePath
  pub opened_at : ℕ
  pub last_seen_at : ℕ
  pub resolved_at : Option ℕ

-- A row of `local_copies`, with the Vault of its file and the file's current path.
pub record LocalCopy : Type 0 where
  pub vault_id : ℕ
  pub vault_file_id : ℕ
  pub path : Option FilePath
  pub presence : Presence
  pub is_regular : Bool
  pub plaintext_sha256 : Option String
  pub cloud_only_version_id : Option ℕ
  pub matched_archive_version_id : Option ℕ

pub record Version : Type 0 where
  pub id : ℕ
  pub plaintext_sha256 : Option String
  pub integrity : Integrity
  pub availability : Availability

pub record Store : Type 0 where
  pub incidents : List Incident
  pub copies : List LocalCopy
  pub versions : List Version
  pub next_id : ℕ

-- What an incident is about.
pub record Subject : Type 0 where
  pub vault_id : ℕ
  pub vault_file_id : ℕ
  pub archive_version_id : ℕ
  pub path : FilePath

abbrev pub same_kind : Kind → Kind → Bool
same_kind archive_version_missing archive_version_missing = true
same_kind cloud_only_conflict cloud_only_conflict = true
same_kind _ _ = false

abbrev pub is_open : Status → Bool
is_open opened = true
is_open resolved = false

-- `archive_version_id=… AND kind=… AND status='open'`.
abbrev pub is_open_for : Kind → ℕ → Incident → Bool
is_open_for kind version_id i =
    i.archive_version_id == version_id && same_kind i.kind kind && is_open i.status

abbrev pub seen : ℕ → Incident → Incident
seen at i = record i { last_seen_at = at }

abbrev pub resolve : ℕ → Incident → Incident
resolve at i = record i { status = resolved; resolved_at = some at; last_seen_at = at }

-- The row that is inserted.
unfoldable pub new_incident : Store → Kind → Subject → ℕ → Incident
new_incident s kind subject at = record {
  id = s.next_id;
  vault_id = subject.vault_id;
  vault_file_id = subject.vault_file_id;
  archive_version_id = subject.archive_version_id;
  kind = kind;
  status = opened;
  path = subject.path;
  opened_at = at;
  last_seen_at = at;
  resolved_at = none;
}

-- The turn of `remember_missing_archives` and `_open_cloud_only_conflict`: an open incident is refreshed,
-- or one is opened; the result says whether it was opened.
unfoldable pub open_or_refresh : Store → Kind → Subject → ℕ → Store × Bool
open_or_refresh s kind subject at =
    elim (fetch_one (is_open_for kind subject.archive_version_id) s.incidents) [
      | some existing ↦
          (record s { incidents = update (λ i. i.id == existing.id) (seen at) s.incidents }, false)
      | none ↦ (
        record s {
          incidents = s.incidents ++ (new_incident s kind subject at ∷ []);
          next_id = s.next_id + 1;
        },
        true,
      )
    ]

-- With the number of incidents opened.
unfoldable pub remember_missing_archives : Store → List Subject → ℕ → Store × ℕ
remember_missing_archives s [] at = (s, 0)
remember_missing_archives s (row ∷ rows) at =
    let step = open_or_refresh s archive_version_missing row at in
    let rest = remember_missing_archives step.0 rows at in
    (rest.0, if step.1 then rest.1 + 1 else rest.1)

unfoldable pub resolve_archive_version_incidents : Store → List ℕ → ℕ → Store × ℕ
resolve_archive_version_incidents s [] at = (s, 0)
resolve_archive_version_incidents s (version_id ∷ ids) at =
    let p = is_open_for archive_version_missing version_id in
    let rest =
      resolve_archive_version_incidents (record s { incidents = update p (resolve at) s.incidents })
        ids at in
    (rest.0, length (select p s.incidents) + rest.1)

-- `(path is None or row.path = path)`.
abbrev pub at_path : Option FilePath → FilePath → Bool
at_path none p = true
at_path (some q) p = path_eq p q

-- The copies that `settle_cloud_only_copies` reads.
unfoldable pub is_held_in : ℕ → Option FilePath → LocalCopy → Bool
is_held_in vault_id path c =
    c.vault_id == vault_id && is_some c.cloud_only_version_id && opt_any (at_path path) c.path

-- `vault_file_id=… AND cloud_only_version_id=…`.
abbrev pub holds : ℕ → ℕ → LocalCopy → Bool
holds file_id version_id c =
    c.vault_file_id == file_id && opt_any (λ v. v == version_id) c.cloud_only_version_id

abbrev pub release : LocalCopy → LocalCopy
release c = record c { cloud_only_version_id = none }

abbrev pub match_version : LocalCopy → LocalCopy
match_version c = record c {
  matched_archive_version_id = c.cloud_only_version_id;
  cloud_only_version_id = none;
}

pub record Summary : Type 0 where
  pub identical : ℕ
  pub conflicts : ℕ
  pub released : ℕ
  pub resolved : ℕ

abbrev pub no_summary : Summary
no_summary = record { identical = 0; conflicts = 0; released = 0; resolved = 0 }

abbrev pub is_recoverable : Option Version → Bool
is_recoverable v = opt_any (λ x. is_verified x.integrity && is_available x.availability) v

-- The digests without regard to case, as `lower` makes them.
abbrev pub same_content : (String → String) → LocalCopy → Option Version → Bool
same_content lower c none = str_eq (lower (coalesce c.plaintext_sha256 "")) (lower "")
same_content lower c (some v) =
    str_eq (lower (coalesce c.plaintext_sha256 "")) (lower (coalesce v.plaintext_sha256 ""))

-- One turn of the loop of `settle_cloud_only_copies`, for a copy that is held for `version_id`.
unfoldable pub settle_copy :
    (String → String) → Store × Summary → LocalCopy → ℕ → FilePath → ℕ → Store × Summary
settle_copy lower (s, summary) c version_id path at =
    let version = fetch_one (λ (v : Version). v.id == version_id) s.versions in
    if not (is_recoverable version)
    then (
      record s { copies = update (holds c.vault_file_id version_id) release s.copies },
      record summary { released = summary.released + 1 },
    )
    else if not (is_present c.presence) || not c.is_regular || not (truthy c.plaintext_sha256)
    then (s, summary)
    else if same_content lower c version
    then (
      record s { copies = update (holds c.vault_file_id version_id) match_version s.copies },
      record summary { identical = summary.identical + 1 },
    )
    else let entry =
        open_or_refresh s cloud_only_conflict
          (record {
            vault_id = c.vault_id;
            vault_file_id = c.vault_file_id;
            archive_version_id = version_id;
            path = path;
          })
          at in
      (entry.0, if entry.1 then record summary { conflicts = summary.conflicts + 1 } else summary)

unfoldable pub settle_copies :
    (String → String) → Store × Summary → List LocalCopy → ℕ → Store × Summary
settle_copies lower x [] at = x
settle_copies lower x (c ∷ cs) at =
    settle_copies lower
      (settle_copy lower x c (coalesce c.cloud_only_version_id 0) (coalesce c.path []) at) cs at

-- A copy that is present is still held for the incident's version.
unfoldable pub is_still_held : List LocalCopy → Incident → Bool
is_still_held copies i =
    any (λ c. holds i.vault_file_id i.archive_version_id c && is_present c.presence) copies

-- The conflicts that the last statement of `settle_cloud_only_copies` resolves.
unfoldable pub is_over : List LocalCopy → ℕ → Option FilePath → Incident → Bool
is_over copies vault_id path i =
    i.vault_id == vault_id
    && same_kind i.kind cloud_only_conflict
    && is_open i.status
    && at_path path i.path
    && not (is_still_held copies i)

unfoldable pub settle_cloud_only_copies :
    (String → String) → Store → ℕ → Option FilePath → ℕ → Store × Summary
settle_cloud_only_copies lower s vault_id path at =
    let x = settle_copies lower (s, no_summary) (select (is_held_in vault_id path) s.copies) at in
    let over = is_over x.0.copies vault_id path in
    (
      record x.0 { incidents = update over (resolve at) x.0.incidents },
      record x.1 { resolved = length (select over x.0.incidents) },
    )

-- `NoCloudOnlyConflict`.
pub data Error : Type 0 where
  no_conflict : Error

-- The last one that `p` selects.
abbrev pub last_of {ℓ} : {A : Type ℓ} → List A → Option A
last_of [] = none
last_of (x ∷ xs) = some (coalesce (last_of xs) x)

abbrev pub is_conflict_at : ℕ → FilePath → Incident → Bool
is_conflict_at vault_id path i =
    i.vault_id == vault_id
    && path_eq i.path path
    && same_kind i.kind cloud_only_conflict
    && is_open i.status

-- What follows the settlement where an incident is found.
unfoldable pub replace_held : Store → Incident → ℕ → Result Error Store
replace_held s i at =
    let p =
      λ (c : LocalCopy). holds i.vault_file_id i.archive_version_id c && is_present c.presence in
    do
      require (any p s.copies) no_conflict
      ok (record s {
        copies = update p release s.copies;
        incidents = update (λ (x : Incident). x.id == i.id) (resolve at) s.incidents;
      })

unfoldable pub confirm_cloud_only_replacement :
    (String → String) → Store → ℕ → FilePath → ℕ → Result Error Store
confirm_cloud_only_replacement lower s vault_id path at =
    let settled = (settle_cloud_only_copies lower s vault_id (some path) at).0 in
    elim (last_of (select (is_conflict_at vault_id path) settled.incidents)) [
      | none ↦ raise no_conflict
      | some i ↦ replace_held settled i at
    ]
