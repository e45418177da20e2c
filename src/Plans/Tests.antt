-- ===== src/Plans/Tests.antt =====
-- Examples of storage plans: the guided plan `archive_tiered`, and a bucket with two foreign rules.
use frostvault.Prelude.{◌≤◌, ◌≡◌, ◌↔◌, refl, true, some, List, [], ◌∷◌, all, length}
use frostvault.Prelude.Table.{select}
use frostvault.Plans.{
  standard, archive_tiered, validate_lifecycle_profile, check_steps, check_step, is_supported,
  min_source_residence, is_allowed_target, is_ia, warning_of, from_keys,
}
use frostvault.Plans.Chain.{IsChain, validate-IsChain}
use frostvault.Plans.Rules.{
  Rule, plan_body, abort_body, foreign_body, ok, max_bucket_lifecycle_rules, incomplete_upload_rule,
  is_application_lifecycle_rule, merge_lifecycle_rules, enforce_rule_limit,
  sync_bucket_lifecycle_rules,
}
use frostvault.Plans.Sync.{is_foreign, sync_again}

validate-IsChain_example :
    ((validate_lifecycle_profile archive_tiered).ok ≡ true) ↔ IsChain 0 standard archive_tiered
validate-IsChain_example = validate-IsChain archive_tiered

is_accepted : (validate_lifecycle_profile archive_tiered).ok ≡ true
unfolding validate_lifecycle_profile check_steps check_step is_supported min_source_residence
    is_allowed_target is_ia warning_of from_keys
is_accepted = refl

abbrev logs_rule : Rule
logs_rule = record { id = "expire-logs"; body = foreign_body "logs" }

abbrev old_rule : Rule
old_rule = record { id = "psa-policy-1"; body = foreign_body "old" }

abbrev plan_rule : Rule
plan_rule = record { id = "frostvault-plan-a"; body = plan_body "vaults/a/" archive_tiered }

abbrev abort_rule : Rule
abort_rule = record { id = "frostvault-abort-incomplete-multipart"; body = abort_body "vaults/" 7 }

abbrev bucket : List Rule
bucket = logs_rule ∷ old_rule ∷ []

abbrev synced : List Rule
synced = logs_rule ∷ plan_rule ∷ abort_rule ∷ []

own : all is_application_lifecycle_rule (plan_rule ∷ []) ≡ true
unfolding is_application_lifecycle_rule
own = refl

is_synced : sync_bucket_lifecycle_rules (some bucket) (plan_rule ∷ []) ≡ ok synced
unfolding sync_bucket_lifecycle_rules merge_lifecycle_rules enforce_rule_limit
    is_application_lifecycle_rule incomplete_upload_rule select
is_synced = refl

sync_again_example :
    (length synced ≤ max_bucket_lifecycle_rules)
    × (select is_foreign synced ≡ select is_foreign bucket)
    × (sync_bucket_lifecycle_rules (some synced) (plan_rule ∷ []) ≡ ok synced)
sync_again_example = sync_again bucket (plan_rule ∷ []) synced own is_synced
