-- ===== src/Policies/Store.antt =====
-- app/services/operation_policies.py: reading and writing the row of a Vault.
use frostvault.Prelude.{
  ℕ, String, Bool, true, false, not, Option, none, some, List, [], ◌∷◌, ◌++◌, ◌==◌, if◌then◌else◌,
  any, coalesce,
}
use frostvault.Prelude.Result.{Result, ok, ◌>>=◌, ◌>>◌, require}
use frostvault.Prelude.Table.{update, fetch_one}
use frostvault.Jobs.{Vault}
use frostvault.Jobs.Claimable.{is_active}
use frostvault.Policies.{
  Text, ℤ, Error, vault_not_found, vault_quiesced, Runtime, OperationPolicy, default_policy,
  is_empty, normalize_globs, validate_policy,
}

-- A row of `vault_operation_policies`; `suspended_at` is when automatic uploads were switched off.
pub record Row : Type 0 where
  pub vault_id : ℕ
  pub auto_upload : Bool
  pub local_release_after_days : Option ℕ
  pub stability_seconds : ℤ
  pub include_globs_json : Option Text
  pub exclude_globs_json : Option Text
  pub upload_verification : Option String
  pub suspended_at : Option ℕ

-- `WHERE vault_id=…`.
abbrev pub is_row : ℕ → Row → Bool
is_row vault_id r = r.vault_id == vault_id

unfoldable pub load_json_list : Runtime → Option Text → Result Error (List Text)
load_json_list runtime none = ok []
load_json_list runtime (some raw) = if is_empty raw then ok [] else runtime.loads raw

unfoldable pub policy_of : Runtime → Row → Result Error OperationPolicy
policy_of runtime r = do
  include_globs ← load_json_list runtime r.include_globs_json
  exclude_globs ← load_json_list runtime r.exclude_globs_json
  ok (record {
    auto_upload = r.auto_upload;
    local_release_after_days = r.local_release_after_days;
    stability_seconds = r.stability_seconds;
    include_globs = include_globs;
    exclude_globs = exclude_globs;
    upload_verification = r.upload_verification;
  })

unfoldable pub get_policy : Runtime → List Row → ℕ → Result Error OperationPolicy
get_policy runtime rows vault_id = elim (fetch_one (is_row vault_id) rows) [
  | none ↦ ok default_policy
  | some r ↦ policy_of runtime r
]

-- The row that is inserted; its `suspended_at` is NULL.
unfoldable pub new_row : Runtime → ℕ → OperationPolicy → Row
new_row runtime vault_id policy = record {
  vault_id = vault_id;
  auto_upload = policy.auto_upload;
  local_release_after_days = policy.local_release_after_days;
  stability_seconds = policy.stability_seconds;
  include_globs_json = some (runtime.dumps policy.include_globs);
  exclude_globs_json = some (runtime.dumps policy.exclude_globs);
  upload_verification = policy.upload_verification;
  suspended_at = none;
}

-- `ON CONFLICT(vault_id) DO UPDATE`, which leaves `suspended_at`.
unfoldable pub upsert : Row → List Row → List Row
upsert row rows =
    if any (is_row row.vault_id) rows
    then update (is_row row.vault_id) (λ r. record row { suspended_at = r.suspended_at }) rows
    else rows ++ (row ∷ [])

-- The start of one continuous suspension.
unfoldable pub mark_suspension : ℕ → Row → Row
mark_suspension at r = record r {
  suspended_at = if r.auto_upload then none else some (coalesce r.suspended_at at);
}

unfoldable pub canonical : Runtime → OperationPolicy → Result Error OperationPolicy
canonical runtime policy = do
  include_globs ← normalize_globs runtime.is_blank policy.include_globs
  exclude_globs ← normalize_globs runtime.is_blank policy.exclude_globs
  ok (record policy { include_globs = include_globs; exclude_globs = exclude_globs })

unfoldable pub is_quiesced : Option Vault → Bool
is_quiesced none = false
is_quiesced (some v) = not (is_active v.decommission_state)

unfoldable pub is_missing : Option Vault → Bool
is_missing none = true
is_missing (some v) = false

-- `at` is the clock's time.
unfoldable pub set_policy :
    Runtime
    → List Vault
    → List Row
    → ℕ
    → OperationPolicy
    → ℕ
    → Result Error (List Row × OperationPolicy)
set_policy runtime vaults rows vault_id policy at =
    let locked = fetch_one (λ (v : Vault). v.id == vault_id) vaults in
    do
      validate_policy runtime.is_blank policy
      require (not (is_missing locked)) vault_not_found
      require (not (is_quiesced locked)) vault_quiesced
      written ← canonical runtime policy
      ok (
        update (is_row vault_id) (mark_suspension at)
            (upsert (new_row runtime vault_id written) rows),
        written,
      )
