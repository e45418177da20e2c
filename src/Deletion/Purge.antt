-- ===== src/Deletion/Purge.antt =====
-- app/services/cloud_deletion.py: the last check before anything is deleted, what the provider's answers
-- write, and the end of a purge Job. Error texts and audit rows are left out.
use frostvault.Prelude.{
  ℕ, zero, suc, ◌+◌, String, str_eq, Bool, true, false, not, ◌&&◌, ◌||◌, Option, none, some, List,
  [], ◌∷◌, ◌==◌, if◌then◌else◌, any, all, map, length, leb, take, is_none, is_some, coalesce,
  opt_any,
}
use frostvault.Prelude.Result.{Result, ok, raise, ◌>>=◌, ◌>>◌, require}
use frostvault.Prelude.Table.{select, update, fetch_one}
use frostvault.Jobs.{
  Job, Status, completed, failed as job_failed, is_terminal, is_stop_protection, is_manual, text_is,
}
use frostvault.Jobs.Claimable.{is_active, is_decommissioning}
use frostvault.Protection.{purged}
use frostvault.Deletion.{
  deletion_delay, Error, authority_inactive, stop_authority_changed, delay_not_elapsed,
  identity_changed, not_absent, absence_unreconciled, content_changed, version_missing,
  target_changed, File, Version, Marker, deleted, failed, Kind, version, delete_marker, Item,
  Disposition, keep, delete, Store, versions_of, markers_of, latest, the_files, selected_files,
  is_nonempty, is_deleted, World, validate_files,
}
use frostvault.Deletion.Schedule.{is_group_job, cancel_rows}

abbrev pub is_delete : Disposition → Bool
is_delete delete = true
is_delete keep = false

-- The rows of the deletion that have not ended.
unfoldable pub active_rows : Store → String → List Job
active_rows s group_id =
    select (λ j. is_group_job s group_id j && not (is_terminal j.status)) s.jobs

-- Who the deletion's authority rests on: the owner's request, or the stop of the folder's protection.
unfoldable pub check_authority : Store → String → List Job → Result Error (Unit {0})
check_authority s group_id active =
    if is_active s.vault.decommission_state
    then require (s.vault.enabled && all (λ r. is_manual r.origin) active) authority_inactive
    else require
        (is_decommissioning s.vault.decommission_state
          && opt_any (λ p. is_delete p.cloud_disposition && text_is p.group_id group_id) s.stop
          && all (λ r. is_stop_protection r.origin) active)
        stop_authority_changed

unfoldable pub delay_elapsed : ℕ → Job → Bool
delay_elapsed at r =
    leb (r.requested_at + deletion_delay) at && opt_any (λ until. leb until at) r.pending_until

-- The two sets of file ids are equal.
unfoldable pub same_files : List File → List Job → Bool
same_files files rows =
    all (λ f. any (λ r. r.vault_file_id == f.id) rows) files
    && all (λ r. any (λ f. f.id == r.vault_file_id) files) rows

unfoldable pub names : String → String → Item → Bool
names object_key provider_version_id i =
    str_eq i.object_key object_key && str_eq i.provider_version_id provider_version_id

-- Every cloud version and marker of the file is one that an item names.
unfoldable pub is_authorized : List Item → List Version → List Marker → Bool
is_authorized items versions markers =
    all (λ v. any (names v.object_key v.provider_version_id) items) versions
    && all (λ m. any (names m.object_key m.provider_version_id) items) markers

-- The row that the item names is still the same version of the same file.
unfoldable pub has_target : Store → ℕ → Item → Bool
has_target s file_id i = elim i.kind [
  | version id ↦
      opt_any (λ v. v.vault_file_id == file_id && names v.object_key v.provider_version_id i)
        (fetch_one (λ v. v.id == id) s.versions)
  | delete_marker id ↦
      opt_any (λ m. m.vault_file_id == file_id && names m.object_key m.provider_version_id i)
        (fetch_one (λ m. m.id == id) s.markers)
]

unfoldable pub check_items : Store → ℕ → List Item → Result Error (Unit {0})
check_items s file_id [] = ok tt
check_items s file_id (i ∷ is) = do
  require (not (str_eq i.provider_version_id "") && not (str_eq i.provider_version_id "null"))
      version_missing
  require (has_target s file_id i) target_changed
  check_items s file_id is

unfoldable pub items_of : Store → ℕ → List Item
items_of s job_id = select (λ i. i.job_id == job_id) s.items

unfoldable pub check_row : Store → Job → Result Error (Unit {0})
check_row s row =
    let items = items_of s row.id in
    let versions = versions_of s row.vault_file_id in
    let markers = markers_of s row.vault_file_id in
    do
      require (is_nonempty versions || is_nonempty markers || all (λ i. is_deleted i.status) items)
          absence_unreconciled
      require (is_nonempty items && is_authorized items versions markers) content_changed
      check_items s row.vault_file_id items

unfoldable pub check_rows : Store → List Job → Result Error (Unit {0})
check_rows s [] = ok tt
check_rows s (row ∷ rows) = do check_row s row; check_rows s rows

-- The body of the `try` of `validate_execution`.
unfoldable pub check_execution : World → Store → String → List Job → ℕ → Result Error (Unit {0})
check_execution w s group_id active at = do
  require (is_nonempty active && is_none s.vault.root_released_at) authority_inactive
  check_authority s group_id active
  require (all (delay_elapsed at) active) delay_not_elapsed
  files ← selected_files s (the_files (map (λ r. r.path) active))
  require (same_files files active) identity_changed
  require (w.are_absent (map (λ f. f.path) files)) not_absent
  validate_files w s (some group_id) (select (λ f. is_some (latest s f)) files)
  check_rows s active

-- Under the Vault's lock: consent that has become stale is revoked.
unfoldable pub validate_execution : World → Store → String → ℕ → Store × Bool
validate_execution w s group_id at =
    let active = active_rows s group_id in
    elim (check_execution w s group_id active at) [
      | ok done ↦ (s, true)
      | raise error ↦ (cancel_rows s active at, false)
    ]

-- `id IN (…)`.
unfoldable pub is_in : List ℕ → ℕ → Bool
is_in ids id = any (λ k. k == id) ids

abbrev pub targets : Kind → ℕ → Bool
targets (version id) version_id = id == version_id
targets (delete_marker id) version_id = false

-- One batch: the versions that its items name are purged, and its items are deleted.
unfoldable pub mark_batch_deleted : Store → List ℕ → Store
mark_batch_deleted s ids = record s {
  versions =
      update (λ v. any (λ i. is_in ids i.id && targets i.kind v.id) s.items)
        (λ v. record v { availability = purged }) s.versions;
  items = update (λ i. is_in ids i.id) (λ i. record i { status = deleted }) s.items;
}

abbrev pub drop {ℓ} : {A : Type ℓ} → ℕ → List A → List A
drop zero xs = xs
drop (suc n) [] = []
drop (suc n) (x ∷ xs) = drop n xs

-- `for offset in range(0, len(ids), size)`, on fuel.
unfoldable pub in_batches : ℕ → ℕ → (Store → List ℕ → Store) → Store → List ℕ → Option Store
in_batches zero size mark s [] = some s
in_batches zero size mark s (i ∷ is) = none
in_batches (suc fuel) size mark s [] = some s
in_batches (suc fuel) size mark s (i ∷ is) =
    in_batches fuel size mark (mark s (take size (i ∷ is))) (drop size (i ∷ is))

-- Every batch takes at least one id, so the number of ids is enough fuel.
unfoldable pub mark_items_deleted : Store → List ℕ → Option Store
mark_items_deleted s item_ids = in_batches (length item_ids) 500 mark_batch_deleted s item_ids

unfoldable pub mark_batch_failed : Store → List ℕ → Store
mark_batch_failed s ids = record s {
  items = update (λ i. is_in ids i.id) (λ i. record i { status = failed }) s.items;
}

-- The ids of the failures.
unfoldable pub mark_items_failed : Store → List ℕ → Option Store
mark_items_failed s item_ids = in_batches (length item_ids) 250 mark_batch_failed s item_ids

unfoldable pub finish_job : Status → Bool → ℕ → Job → Job
finish_job status is_completed at j = record j {
  status = status;
  updated_at = at;
  transferred_bytes = if is_completed then j.total_bytes else j.transferred_bytes;
}

unfoldable pub retire : ℕ → File → File
retire at f = record f { is_purged = true; retired_at = some (coalesce f.retired_at at) }

unfoldable pub finalize_purge_job : Store → ℕ → ℕ → ℕ → Store × Status
finalize_purge_job s job_id vault_file_id at =
    let items = items_of s job_id in
    let is_completed = is_nonempty items && all (λ i. is_deleted i.status) items in
    let status : Status = if is_completed then completed else job_failed in
    let is_gone = is_completed && not (is_nonempty (versions_of s vault_file_id)) in
    (
      record s {
        jobs = update (λ j. j.id == job_id) (finish_job status is_completed at) s.jobs;
        files =
            if is_gone then update (λ f. f.id == vault_file_id) (retire at) s.files else s.files;
      },
      status,
    )
