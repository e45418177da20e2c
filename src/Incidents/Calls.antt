-- ===== src/Incidents/Calls.antt =====
-- Sequences of calls of app/services/catalog_incidents.py.
use frostvault.Prelude.{ℕ, ◌≤◌, String, none, some, List, [], ◌∷◌, FilePath}
use frostvault.Prelude.Result.{Result, ok, raise, OnOk}
use frostvault.Incidents.{
  Kind, Store, Subject, Error, is_open_for, remember_missing_archives,
  resolve_archive_version_incidents, settle_cloud_only_copies, confirm_cloud_only_replacement,
}
use frostvault.Prelude.Table.Count.{count}
use frostvault.Incidents.Open.{remember-count, resolve-count, settle-count, confirm-count}

-- A call of this module; one that raises is rolled back.
pub data Call : Type 0 where
  remembers : List Subject → ℕ → Call
  resolves : List ℕ → ℕ → Call
  settles confirms : ℕ → FilePath → ℕ → Call
  settles_vault : ℕ → ℕ → Call

abbrev pub or_before : Store → Result Error Store → Store
or_before s (ok t) = t
or_before s (raise error) = s

abbrev pub run_call : (String → String) → Store → Call → Store
run_call lower s (remembers rows at) = (remember_missing_archives s rows at).0
run_call lower s (resolves ids at) = (resolve_archive_version_incidents s ids at).0
run_call lower s (settles vault_id path at) =
    (settle_cloud_only_copies lower s vault_id (some path) at).0
run_call lower s (settles_vault vault_id at) = (settle_cloud_only_copies lower s vault_id none at).0
run_call lower s (confirms vault_id path at) =
    or_before s (confirm_cloud_only_replacement lower s vault_id path at)

abbrev pub run_calls : (String → String) → Store → List Call → Store
run_calls lower s [] = s
run_calls lower s (c ∷ cs) = run_calls lower (run_call lower s c) cs

or_before-holds :
    (P : Store → Type 0) (s : Store) (r : Result Error Store) → P s → OnOk P r → P (or_before s r)
or_before-holds P s (ok t) h k = k
or_before-holds P s (raise error) h k = h

run_call-count :
    (lower : String → String) (kind : Kind) (version_id : ℕ) (s : Store) (c : Call)
    → count (is_open_for kind version_id) s.incidents ≤ 1
    → count (is_open_for kind version_id) (run_call lower s c).incidents ≤ 1
run_call-count lower kind version_id s (remembers rows at) h =
    remember-count kind version_id rows s at h
run_call-count lower kind version_id s (resolves ids at) h =
    resolve-count kind version_id ids s at h
run_call-count lower kind version_id s (settles vault_id path at) h =
    settle-count kind version_id lower s vault_id (some path) at h
run_call-count lower kind version_id s (settles_vault vault_id at) h =
    settle-count kind version_id lower s vault_id none at h
run_call-count lower kind version_id s (confirms vault_id path at) h =
    or_before-holds (λ t. count (is_open_for kind version_id) t.incidents ≤ 1) s _ h
      (confirm-count kind version_id lower s vault_id path at h)

-- However missing Archive Versions are remembered and resolved, and cloud-only copies settled and
-- replaced, an Archive Version that has at most one open incident of a kind never has two.
pub one_open_incident :
    (lower : String → String) (kind : Kind) (version_id : ℕ) (s : Store) (calls : List Call)
    → count (is_open_for kind version_id) s.incidents ≤ 1
    → count (is_open_for kind version_id) (run_calls lower s calls).incidents ≤ 1
one_open_incident lower kind version_id s [] h = h
one_open_incident lower kind version_id s (c ∷ calls) h =
    one_open_incident lower kind version_id (run_call lower s c) calls
      (run_call-count lower kind version_id s c h)
