-- ===== src/Incidents/Tests.antt =====
-- Examples of incidents: a version that two scans miss, and a copy that two settlements hold back.
use frostvault.Prelude.{◌≤◌, String, true, none, some, List, [], ◌∷◌, arith}
use frostvault.Protection.{present, verified, available}
use frostvault.Incidents.{cloud_only_conflict, LocalCopy, Version, Store, Subject, is_open_for}
use frostvault.Prelude.Table.Count.{count}
use frostvault.Incidents.Calls.{
  Call, remembers, resolves, settles_vault, confirms, run_calls, one_open_incident,
}

abbrev same : String → String
same t = t

abbrev missed : Subject
missed = record { vault_id = 1; vault_file_id = 2; archive_version_id = 3; path = "a" ∷ [] }

abbrev copy : LocalCopy
copy = record {
  vault_id = 1;
  vault_file_id = 2;
  path = some ("a" ∷ []);
  presence = present;
  is_regular = true;
  plaintext_sha256 = some "x";
  cloud_only_version_id = some 3;
  matched_archive_version_id = none;
}

abbrev archived : Version
archived = record {
  id = 3;
  plaintext_sha256 = some "y";
  integrity = verified;
  availability = available;
}

abbrev start : Store
start = record { incidents = []; copies = copy ∷ []; versions = archived ∷ []; next_id = 1 }

abbrev calls : List Call
calls =
    remembers (missed ∷ missed ∷ []) 10
    ∷ settles_vault 1 20
    ∷ settles_vault 1 30
    ∷ confirms 1 ("a" ∷ []) 40
    ∷ resolves (3 ∷ []) 50
    ∷ []

none_open : count (is_open_for cloud_only_conflict 3) start.incidents ≤ 1
unfolding count
none_open = omega arith

one_open_incident_example :
    count (is_open_for cloud_only_conflict 3) (run_calls same start calls).incidents ≤ 1
one_open_incident_example = one_open_incident same cloud_only_conflict 3 start calls none_open
