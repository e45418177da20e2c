-- ===== src/Jobs.antt =====
-- The rows of the tables `jobs` and `vaults` on which app/catalog.py and app/storage.py schedule
-- work. Ids are numbers, claim tokens and group ids are texts, and times are numbers in the order of
-- the ISO texts that the program compares. The message columns are left out.
pub mod Claimable
pub mod Claims
pub mod Transitions
pub mod Ops
pub mod Lease
pub mod Claiming
pub mod Terminal
pub mod PurgeGroup
pub mod Queue
mod Tests
use frostvault.Prelude.{
  FilePath, ℕ, String, str_eq, Bool, true, false, not, Option, none, some, List,
}

pub data Status : Type 0 where
  queued retrying pending_delay pending_approval restoring : Status
  downloading uploading verifying cleaning : Status
  completed failed cancelled : Status

pub data Action : Type 0 where
  upload recover free_space rename cloud_purge storage_class : Action

pub data Origin : Type 0 where
  manual automatic stop_protection : Origin

pub data Decommission : Type 0 where
  active decommissioning decommissioned : Decommission

pub record Job : Type 0 where
  pub id : ℕ
  pub vault_id : ℕ
  pub vault_file_id : ℕ
  pub archive_version_id : Option ℕ
  pub path : FilePath
  pub action : Action
  pub status : Status
  pub origin : Origin
  pub group_id : Option String
  pub requested_at : ℕ
  pub updated_at : ℕ
  pub retry_count : ℕ
  pub retry_after : Option ℕ
  pub pending_until : Option ℕ
  pub claim_token : Option String
  pub claimed_at : Option ℕ
  pub claim_expires_at : Option ℕ
  pub total_bytes : ℕ
  pub transferred_bytes : ℕ
  pub notify_pending : Bool

pub record Vault : Type 0 where
  pub id : ℕ
  pub enabled : Bool
  pub decommission_state : Decommission
  pub relocation_ready : Bool

-- `TERMINAL_JOB_STATUSES`, `JOB_TERMINAL_STATUSES`.
unfoldable pub is_terminal : Status → Bool
is_terminal completed = true
is_terminal failed = true
is_terminal cancelled = true
is_terminal _ = false

-- `JOB_LEASE_HELD_STATUSES`.
unfoldable pub is_lease_held : Status → Bool
is_lease_held downloading = true
is_lease_held uploading = true
is_lease_held verifying = true
is_lease_held cleaning = true
is_lease_held _ = false

-- `status in {'completed', 'failed'}`.
unfoldable pub is_reported : Status → Bool
is_reported completed = true
is_reported failed = true
is_reported _ = false

unfoldable pub is_queued : Status → Bool
is_queued queued = true
is_queued _ = false

unfoldable pub is_retrying : Status → Bool
is_retrying retrying = true
is_retrying _ = false

unfoldable pub is_pending_delay : Status → Bool
is_pending_delay pending_delay = true
is_pending_delay _ = false

unfoldable pub is_restoring : Status → Bool
is_restoring restoring = true
is_restoring _ = false

unfoldable pub is_cleaning : Status → Bool
is_cleaning cleaning = true
is_cleaning _ = false

unfoldable pub is_purge : Action → Bool
is_purge cloud_purge = true
is_purge _ = false

unfoldable pub is_upload : Action → Bool
is_upload upload = true
is_upload _ = false

-- `action IN ('recover', 'storage-class')`.
unfoldable pub is_restorable : Action → Bool
is_restorable recover = true
is_restorable storage_class = true
is_restorable _ = false

abbrev pub is_manual : Origin → Bool
is_manual manual = true
is_manual _ = false

unfoldable pub is_automatic : Origin → Bool
is_automatic automatic = true
is_automatic _ = false

unfoldable pub is_stop_protection : Origin → Bool
is_stop_protection stop_protection = true
is_stop_protection _ = false

-- Python's truth of an optional text.
unfoldable pub truthy : Option String → Bool
truthy none = false
truthy (some s) = not (str_eq s "")

-- SQL's `column = value`, which no NULL satisfies.
unfoldable pub text_is : Option String → String → Bool
text_is none s = false
text_is (some r) s = str_eq r s
