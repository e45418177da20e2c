-- ===== src/Deletion/Samples.antt =====
-- A Vault with one archived file that is gone from the disk, before and after its deletion is scheduled.
use frostvault.Prelude.{
  ℕ, ◌+◌, String, Bool, true, false, Option, none, some, List, [], ◌∷◌, FilePath,
}
use frostvault.Jobs.{Job, active, cloud_purge, pending_delay, manual}
use frostvault.Protection.{verified, available}
use frostvault.Deletion.{
  deletion_delay, skipped, VaultRow, File, Version, Marker, Item, Stop, delete, Store, World,
  Selection, the_files, selected_files, versions_of, markers_of, latest, is_selected,
  is_valid_selection, is_nonempty, is_away, is_cloud_only, is_pending_work, is_exact, validate_rows,
  validate_files, preview_selection,
}
use frostvault.Deletion.Schedule.{Request, ScheduledDeletion}

abbrev pub no_error : String → Option String
no_error component = none

abbrev pub on_disk : List (Option FilePath) → Bool
on_disk paths = true

abbrev pub calm : World
calm = record { last_error = no_error; are_absent = on_disk }

abbrev pub any_vault : ℕ → Option Bool
any_vault vault_id = none

abbrev pub file : File
file = record {
  id = 1;
  path = some ("a" ∷ []);
  presence = none;
  cloud_only_version_id = none;
  retired_at = none;
  is_purged = false;
}

abbrev pub archived : Version
archived = record {
  id = 5;
  vault_file_id = 1;
  object_key = "v/a";
  provider_version_id = "x";
  size = 7;
  integrity = verified;
  availability = available;
}

abbrev pub hidden : Marker
hidden = record { id = 6; vault_file_id = 1; object_key = "v/a"; provider_version_id = "y" }

abbrev pub before : Store
before = record {
  vault = record {
    id = 1;
    name = "v";
    enabled = true;
    decommission_state = active;
    relocation_ready = true;
    root_released_at = none;
    s3_prefix = "v/";
  };
  files = file ∷ [];
  versions = archived ∷ [];
  markers = hidden ∷ [];
  items = [];
  jobs = [];
  stop = none;
  next_job_id = 3;
  next_item_id = 8;
}

abbrev pub group : String
group = "g"

abbrev pub the_file : Selection
the_file = the_files (("a" ∷ []) ∷ [])

abbrev pub request : Request
request = record {
  requested_at = 1000;
  confirmation = "v";
  reason = "r";
  reason_length = 1;
  origin = manual;
}

abbrev pub job : Job
job = record {
  id = 3;
  vault_id = 1;
  vault_file_id = 1;
  archive_version_id = none;
  path = "a" ∷ [];
  action = cloud_purge;
  status = pending_delay;
  origin = manual;
  group_id = some group;
  requested_at = 1000;
  updated_at = 1000;
  retry_count = 0;
  retry_after = none;
  pending_until = some (1000 + deletion_delay);
  claim_token = none;
  claimed_at = none;
  claim_expires_at = none;
  total_bytes = 7;
  transferred_bytes = 0;
  notify_pending = false;
}

abbrev pub after : Store
after = record before {
  items =
      (record {
        id = 8;
        job_id = 3;
        vault_file_id = 1;
        kind = frostvault.Deletion.version 5;
        object_key = "v/a";
        provider_version_id = "x";
        size_bytes = 7;
        status = frostvault.Deletion.pending;
      })
      ∷ (record {
        id = 9;
        job_id = 3;
        vault_file_id = 1;
        kind = frostvault.Deletion.delete_marker 6;
        object_key = "v/a";
        provider_version_id = "y";
        size_bytes = 0;
        status = frostvault.Deletion.pending;
      })
      ∷ [];
  jobs = job ∷ [];
  next_job_id = 4;
  next_item_id = 10;
}

abbrev pub shown : ScheduledDeletion
shown = record {
  group_id = group;
  preview = record { object_count = 1; version_count = 1; delete_marker_count = 1; byte_count = 7 };
  pending_until = 1000 + deletion_delay;
}
