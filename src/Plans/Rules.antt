-- ===== src/Plans/Rules.antt =====
-- app/services/s3_lifecycle_rules.py: the lifecycle rules of one bucket. The application replaces the
-- rules whose IDs are its own and keeps all others. A Vault's prefix comes in as `vault_object_prefix`
-- leaves it; the rules that others own are opaque texts.
use frostvault.Prelude.{
  ℕ, String, str_eq, Bool, not, ◌||◌, Option, none, some, List, [], ◌∷◌, ◌++◌, ltb, if◌then◌else◌,
  length,
}
use frostvault.Prelude.Table.{select}
use frostvault.Plans.{LifecycleTransition, validate_lifecycle_profile}
use text.Mathlib.Text.{starts_with}
use Prim.Native.String.{◌++◌ as str_append}

pub data Body : Type 0 where
  plan_body : String → List LifecycleTransition → Body
  abort_body : String → ℕ → Body
  foreign_body : String → Body

pub record Rule : Type 0 where
  pub id : String
  pub body : Body

pub data Error : Type 0 where
  invalid_plan rule_limit_exceeded not_loaded : Error

pub data Result {ℓ} (A : Type ℓ) : Type ℓ where
  ok : A → Result A
  raise : Error → Result A

abbrev pub rule_id_prefix : String
rule_id_prefix = "frostvault-plan-"

abbrev pub legacy_rule_id_prefix : String
legacy_rule_id_prefix = "psa-policy-"

abbrev pub max_bucket_lifecycle_rules : ℕ
max_bucket_lifecycle_rules = 1000

abbrev pub abort_rule_id : String
abort_rule_id = "frostvault-abort-incomplete-multipart"

unfoldable pub incomplete_upload_rule : Rule
incomplete_upload_rule = record { id = abort_rule_id; body = abort_body "vaults/" 7 }

unfoldable pub is_application_lifecycle_rule : Rule → Bool
is_application_lifecycle_rule rule =
    starts_with rule.id rule_id_prefix
    || starts_with rule.id legacy_rule_id_prefix
    || str_eq rule.id abort_rule_id

unfoldable pub build_vault_lifecycle_rule : String → String → List LifecycleTransition → Result Rule
build_vault_lifecycle_rule vault_uuid prefix transitions =
    if (validate_lifecycle_profile transitions).ok
    then ok
        (record { id = str_append rule_id_prefix vault_uuid; body = plan_body prefix transitions })
    else raise invalid_plan

unfoldable pub merge_lifecycle_rules : List Rule → List Rule → List Rule
merge_lifecycle_rules existing_rules app_rules =
    select (λ r. not (is_application_lifecycle_rule r)) existing_rules ++ app_rules

unfoldable pub enforce_rule_limit : List Rule → ℕ → Result (List Rule)
enforce_rule_limit rules max_rules =
    if ltb max_rules (length rules) then raise rule_limit_exceeded else ok rules

-- `existing_rules` is what the bucket answers: `some []` when it has no configuration, `none` for any
-- other refusal. The result is the configuration that is put.
unfoldable pub sync_bucket_lifecycle_rules : Option (List Rule) → List Rule → Result (List Rule)
sync_bucket_lifecycle_rules none app_rules = raise not_loaded
sync_bucket_lifecycle_rules (some existing_rules) app_rules =
    enforce_rule_limit
      (merge_lifecycle_rules existing_rules (app_rules ++ (incomplete_upload_rule ∷ [])))
      max_bucket_lifecycle_rules
