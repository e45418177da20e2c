-- ===== src/Protection/Tests.antt =====
-- Examples of protection states: a file that is protected, one that is cloud only, and a directory.
use frostvault.Prelude.{ℕ, ◌<◌, ◌+◌, ◌↔◌, ◌≡◌, true, false, none, some}
use frostvault.Protection.{
  State, pending, protected, cloud_only, LocalCopy, Version, Row, present, verified, available,
  state, aggregate_state,
}
use frostvault.Protection.States.{
  IsProtected, IsCloudOnly, more_urgent, protected-Evidence, cloud_only-evidence,
  aggregate_state-worst,
}

abbrev version : Version
version = record {
  id = 4;
  integrity = verified;
  availability = available;
  plaintext_sha256 = some "ab";
}

abbrev local : LocalCopy
local = record {
  presence = present;
  is_regular = true;
  matched_archive_version_id = some 4;
  plaintext_sha256 = some "ab";
  cloud_only_version_id = none;
}

abbrev safe : Row
safe = record { lc = some local; av = some version; failed_upload = true }

abbrev remote : Row
remote = record { lc = none; av = some version; failed_upload = false }

protected-Evidence_example : (state safe ≡ protected) ↔ IsProtected safe
protected-Evidence_example = protected-Evidence safe

cloud_only-evidence_example : (state remote ≡ cloud_only) ↔ IsCloudOnly remote
cloud_only-evidence_example = cloud_only-evidence remote

abbrev counts : State → ℕ
counts pending = 2
counts protected = 5
counts _ = 0

aggregate_state-worst_example :
    ((aggregate_state counts ≡ some pending)
      ↔ ((0 < counts pending) × (more_urgent counts pending ≡ 0)))
    × ((aggregate_state counts ≡ none) ↔ (more_urgent counts cloud_only + counts cloud_only ≡ 0))
aggregate_state-worst_example = aggregate_state-worst counts pending
