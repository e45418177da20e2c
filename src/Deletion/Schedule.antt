-- ===== src/Deletion/Schedule.antt =====
-- app/services/cloud_deletion.py: admitting a deletion, and cancelling it before it starts.
use frostvault.Prelude.{
  ℕ, ◌+◌, String, str_eq, Bool, true, false, not, ◌&&◌, none, some, List, [], ◌∷◌, ◌++◌, ◌==◌, any,
  all, length, leb, is_none, coalesce,
}
use frostvault.Prelude.Result.{Result, ok, ◌>>=◌, ◌>>◌, require}
use frostvault.Prelude.Table.{select, update}
use frostvault.Jobs.{
  Job, Origin, automatic, cloud_purge, pending_delay, cancelled, is_purge, is_pending_delay, truthy,
  text_is,
}
use frostvault.Jobs.Claimable.{is_active}
use frostvault.Deletion.{
  deletion_delay, Error, already_stopped, unsupported_origin, confirmation_required,
  reason_required, not_cancellable, File, Version, Marker, pending, skipped, version, delete_marker,
  Item, Store, versions_of, markers_of, Selection, selected_files, is_nonempty, is_open, World,
  DeletionPreview, sum, preview_selection,
}

-- The arguments of `schedule_cloud_purge`: `reason` without the blanks around it, and the length of the
-- reason as given.
pub record Request : Type 0 where
  pub requested_at : ℕ
  pub confirmation : String
  pub reason : String
  pub reason_length : ℕ
  pub origin : Origin

-- `origin in {"manual", "stop-protection"}`.
abbrev pub is_deletion_origin : Origin → Bool
is_deletion_origin automatic = false
is_deletion_origin _ = true

-- The row that is inserted for one file; `total_bytes` is set once its items are in.
unfoldable pub purge_job : Store → String → Request → File → ℕ → Job
purge_job s group_id r f total = record {
  id = s.next_job_id;
  vault_id = s.vault.id;
  vault_file_id = f.id;
  archive_version_id = none;
  path = coalesce f.path [];
  action = cloud_purge;
  status = pending_delay;
  origin = r.origin;
  group_id = some group_id;
  requested_at = r.requested_at;
  updated_at = r.requested_at;
  retry_count = 0;
  retry_after = none;
  pending_until = some (r.requested_at + deletion_delay);
  claim_token = none;
  claimed_at = none;
  claim_expires_at = none;
  total_bytes = total;
  transferred_bytes = 0;
  notify_pending = false;
}

-- An item for each version, then one for each marker, which has no size.
unfoldable pub version_items : ℕ → ℕ → List Version → List Item
version_items job_id next [] = []
version_items job_id next (v ∷ vs) =
    (record {
      id = next;
      job_id = job_id;
      vault_file_id = v.vault_file_id;
      kind = version v.id;
      object_key = v.object_key;
      provider_version_id = v.provider_version_id;
      size_bytes = v.size;
      status = pending;
    })
    ∷ version_items job_id (next + 1) vs

unfoldable pub marker_items : ℕ → ℕ → List Marker → List Item
marker_items job_id next [] = []
marker_items job_id next (m ∷ ms) =
    (record {
      id = next;
      job_id = job_id;
      vault_file_id = m.vault_file_id;
      kind = delete_marker m.id;
      object_key = m.object_key;
      provider_version_id = m.provider_version_id;
      size_bytes = 0;
      status = pending;
    })
    ∷ marker_items job_id (next + 1) ms

unfoldable pub file_items : Store → File → List Item
file_items s f =
    let versions = versions_of s f.id in
    version_items s.next_job_id s.next_item_id versions
    ++ marker_items s.next_job_id (s.next_item_id + length versions) (markers_of s f.id)

unfoldable pub schedule_file : Store → String → Request → File → Store
schedule_file s group_id r f =
    let items = file_items s f in
    record s {
      jobs = s.jobs ++ (purge_job s group_id r f (sum (λ i. i.size_bytes) items) ∷ []);
      items = s.items ++ items;
      next_job_id = s.next_job_id + 1;
      next_item_id = s.next_item_id + length items;
    }

unfoldable pub schedule_files : Store → String → Request → List File → Store
schedule_files s group_id r [] = s
schedule_files s group_id r (f ∷ fs) = schedule_files (schedule_file s group_id r f) group_id r fs

pub record ScheduledDeletion : Type 0 where
  pub group_id : String
  pub preview : DeletionPreview
  pub pending_until : ℕ

-- `group_id` is the fresh id that the call draws.
unfoldable pub schedule_cloud_purge :
    World → Store → String → Selection → Request → Result Error (Store × ScheduledDeletion)
schedule_cloud_purge w s group_id selection r = do
  require (is_active s.vault.decommission_state && is_none s.vault.root_released_at) already_stopped
  require (is_deletion_origin r.origin) unsupported_origin
  require (str_eq r.confirmation s.vault.name) confirmation_required
  require (not (str_eq r.reason "") && leb r.reason_length 500) reason_required
  preview ← preview_selection w s selection
  files ← selected_files s selection
  ok (
    schedule_files s group_id r files,
    record {
      group_id = group_id;
      preview = preview;
      pending_until = r.requested_at + deletion_delay;
    },
  )

-- The Jobs of a deletion: `vault_id=… AND group_id=… AND action='cloud-purge'`.
unfoldable pub is_group_job : Store → String → Job → Bool
is_group_job s group_id j =
    j.vault_id == s.vault.id && text_is j.group_id group_id && is_purge j.action

-- `WHERE id=…` for one of the rows.
unfoldable pub is_row_of : List Job → ℕ → Bool
is_row_of rows id = any (λ r. r.id == id) rows

unfoldable pub cancel_job : ℕ → Job → Job
cancel_job at j = record j {
  status = cancelled;
  updated_at = at;
  claim_token = none;
  claimed_at = none;
  claim_expires_at = none;
}

-- `_cancel_rows`, whose loop writes each row and the row's items.
unfoldable pub cancel_rows : Store → List Job → ℕ → Store
cancel_rows s [] at = s
cancel_rows s (row ∷ rows) at =
    cancel_rows
      (record s {
        jobs = update (λ j. j.id == row.id) (cancel_job at) s.jobs;
        items =
            update (λ i. i.job_id == row.id && is_open i.status)
              (λ i. record i { status = skipped }) s.items;
      })
      rows at

unfoldable pub cancel_cloud_deletion : Store → String → ℕ → Result Error (Store × ℕ)
cancel_cloud_deletion s group_id at =
    let rows = select (is_group_job s group_id) s.jobs in
    do
      require
          (is_nonempty rows
            && all (λ j. is_pending_delay j.status && not (truthy j.claim_token)) rows)
          not_cancellable
      ok (cancel_rows s rows at, length rows)
