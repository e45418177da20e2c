-- ===== src/Admission/Tests.antt =====
-- Examples of requests on a Vault of two files, of which one is protected.
use frostvault.Prelude.{ℕ, true, false, ◌≢◌, refl, Option, none, some, List, [], ◌∷◌, arith}
use frostvault.Prelude.Result.{OnOk}
use frostvault.Prelude.Table.Pairwise.{Pairwise}
use frostvault.Prelude.Table.Count.{count}
use frostvault.Protection
use frostvault.Jobs.{Vault, active, free_space, upload, Action, queued, manual, completed}
use frostvault.Jobs.Claims.{Lease}
use frostvault.Jobs.Ops.{claim, set_to}
use frostvault.Admission.{Tables, VaultFile, LocalRow, VersionRow}
use frostvault.Admission.Remediation.{Facts}
use frostvault.Admission.Candidates.{Texts, Request}
use frostvault.Admission.Queueing.{queue_jobs}
use frostvault.Admission.ActiveFile.{OneActive, Step, request, work, run_steps, run_steps-OneActive}
use frostvault.Admission.Complete.{AddsMatched, queue_jobs_complete}
use frostvault.Admission.FreeSpace.{QueuedBacked, free_space_is_backed}

abbrev texts : Texts
texts = record { upper = λ t. t; lower_before = λ a b. true }

abbrev calm : Facts
calm = record {
  root_released = false;
  same_root = λ e. true;
  other_send = λ e. false;
  has_pending_deletion = λ file_id. false;
  source_has_error = false;
  auto_upload_includes = λ path. true;
  is_void = λ e. false;
  original_was_cancelled = λ e. false;
}

abbrev vault : Vault
vault = record { id = 1; enabled = true; decommission_state = active; relocation_ready = true }

abbrev copy : ℕ → Option ℕ → LocalRow
copy file_id matched = record {
  vault_file_id = file_id;
  size = some 7;
  copy = record {
    presence = Protection.present;
    is_regular = true;
    matched_archive_version_id = matched;
    plaintext_sha256 = some "x";
    cloud_only_version_id = none;
  };
}

abbrev version : VersionRow
version = record {
  vault_file_id = 2;
  version_number = 1;
  size = 9;
  storage_class = none;
  is_restoring = false;
  version = record {
    id = 5;
    integrity = Protection.verified;
    availability = Protection.available;
    plaintext_sha256 = some "x";
  };
}

abbrev start : Tables
start = record {
  vaults = vault ∷ [];
  files =
      record { id = 2; vault_id = 1; is_active = true }
      ∷ record { id = 3; vault_id = 1; is_active = true }
      ∷ [];
  paths =
      record { vault_file_id = 2; vault_id = 1; path = "a" ∷ []; valid_from = 0; is_current = true }
      ∷ record {
        vault_file_id = 3;
        vault_id = 1;
        path = "b" ∷ [];
        valid_from = 0;
        is_current = true;
      }
      ∷ [];
  local_copies = copy 2 (some 5) ∷ copy 3 none ∷ [];
  versions = version ∷ [];
  episodes = [];
  jobs = [];
  last_job_id = 0;
}

abbrev asks : Action → Request
asks action = record {
  vault_id = 1;
  path = "" ∷ [];
  action = action;
  requested_at = 100;
  group_id = "g";
  is_directory = false;
  archive_version_id = none;
  initial_status = queued;
  pending_until = none;
  origin = manual;
  target_storage_class = none;
  whole_vault = true;
}

abbrev lease : Lease
lease = record { token = "t"; claimed_at = 110; expires_at = 410 }

abbrev steps : List Step
steps =
    request calm (asks free_space)
    ∷ request calm (asks upload)
    ∷ work (claim 1 lease 110 0)
    ∷ work (set_to (record { token = some "t"; lost = false }) 1 completed 120)
    ∷ request calm (asks free_space)
    ∷ []

none_active : OneActive start.jobs
unfolding count
none_active file_id = omega arith

files_differ : Pairwise (λ (f g : VaultFile). f.id ≢ g.id) start.files
files_differ = ((λ e. ground (arith, e), tt), (tt, tt))

run_steps-OneActive_example : OneActive (run_steps texts (λ v. none) start steps).jobs
run_steps-OneActive_example =
    run_steps-OneActive texts (λ v. none) start steps none_active
      (tt, (tt, (tt, (("t", refl), (tt, tt)))))

queue_jobs_complete_example : OnOk (AddsMatched start) (queue_jobs texts calm start (asks upload))
queue_jobs_complete_example = queue_jobs_complete texts calm start (asks upload) files_differ

free_space_is_backed_example :
    OnOk (QueuedBacked start) (queue_jobs texts calm start (asks free_space))
free_space_is_backed_example = free_space_is_backed texts calm start (asks free_space) refl
