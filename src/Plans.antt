-- ===== src/Plans.antt =====
-- app/services/lifecycle_profiles.py: a Vault's chain of current-version storage transitions and its
-- validation. The source's `previous_days` is held one higher, since it starts at -1.
pub mod Chain
pub mod Rules
pub mod Sync
mod Tests
use frostvault.Prelude.{
  ℕ, suc, ◌+◌, String, str_eq, Bool, true, false, not, Option, none, some, List, [], ◌∷◌, ◌++◌, ltb,
  leb, if◌then◌else◌, any,
}

-- `STANDARD` and `SUPPORTED_STORAGE_CLASSES`; any other text is `other`.
pub data StorageClass : Type 0 where
  standard standard_ia onezone_ia glacier_ir glacier deep_archive : StorageClass
  other : String → StorageClass

-- `days` is `none` for what is no nonnegative integer.
pub record LifecycleTransition : Type 0 where
  pub days : Option ℕ
  pub storage_class : StorageClass

pub data Problem : Type 0 where
  bad_days not_increasing ia_too_early : Problem
  unsupported_class : StorageClass → Problem
  unsupported_transition : StorageClass → StorageClass → Problem
  residence_too_short : StorageClass → ℕ → Problem

pub data Warning : Type 0 where
  transition_fees deep_archive_bill : Warning

pub record ProfileValidation : Type 0 where
  pub ok : Bool
  pub errors : List Problem
  pub warnings : List Warning

-- `c in SUPPORTED_STORAGE_CLASSES`.
unfoldable pub is_supported : StorageClass → Bool
is_supported standard = false
is_supported standard_ia = true
is_supported onezone_ia = true
is_supported glacier_ir = true
is_supported glacier = true
is_supported deep_archive = true
is_supported (other name) = false

-- `MIN_SOURCE_RESIDENCE.get(c, 0)`.
unfoldable pub min_source_residence : StorageClass → ℕ
min_source_residence standard = 0
min_source_residence standard_ia = 30
min_source_residence onezone_ia = 30
min_source_residence glacier_ir = 90
min_source_residence glacier = 90
min_source_residence deep_archive = 0
min_source_residence (other name) = 0

-- `target in ALLOWED_TARGETS[source]`.
unfoldable pub is_allowed_target : StorageClass → StorageClass → Bool
is_allowed_target standard target = is_supported target
is_allowed_target standard_ia onezone_ia = true
is_allowed_target standard_ia glacier_ir = true
is_allowed_target standard_ia glacier = true
is_allowed_target standard_ia deep_archive = true
is_allowed_target onezone_ia glacier = true
is_allowed_target onezone_ia deep_archive = true
is_allowed_target glacier_ir glacier = true
is_allowed_target glacier_ir deep_archive = true
is_allowed_target glacier deep_archive = true
is_allowed_target _ _ = false

unfoldable pub is_ia : StorageClass → Bool
is_ia standard_ia = true
is_ia onezone_ia = true
is_ia _ = false

unfoldable pub warning_of : StorageClass → Warning
warning_of deep_archive = deep_archive_bill
warning_of _ = transition_fees

-- `if test: errors.append(error)`.
abbrev pub append_if : Bool → Problem → List Problem → List Problem
append_if test error errors = if test then errors ++ (error ∷ []) else errors

-- The checks of one supported step; `above` is `previous_days + 1`.
unfoldable pub check_step : ℕ → StorageClass → ℕ → StorageClass → List Problem → List Problem
check_step above previous days target errors =
    append_if (ltb (days + 1) (above + min_source_residence previous))
      (residence_too_short previous (min_source_residence previous))
      (append_if (if is_ia target then ltb days 30 else false) ia_too_early (
        append_if (not (is_allowed_target previous target)) (unsupported_transition previous target)
          (append_if (leb (days + 1) above) not_increasing errors)))

-- The loop over the transitions, with its errors and warnings so far.
unfoldable pub check_steps :
    ℕ
    → StorageClass
    → List LifecycleTransition
    → List Problem
    → List Warning
    → List Problem × List Warning
check_steps above previous [] errors warnings = (errors, warnings)
check_steps above previous (step ∷ steps) errors warnings = elim step.days [
  | none ↦ check_steps above previous steps (errors ++ (bad_days ∷ [])) warnings
  | some days ↦ elim (is_supported step.storage_class) [
    | false ↦
        check_steps above previous steps (errors ++ (unsupported_class step.storage_class ∷ []))
          warnings
    | true ↦
        check_steps (days + 1) step.storage_class steps
          (check_step above previous days step.storage_class errors)
          (warnings ++ (warning_of step.storage_class ∷ []))
  ]
]

abbrev pub same_warning : Warning → Warning → Bool
same_warning transition_fees transition_fees = true
same_warning deep_archive_bill deep_archive_bill = true
same_warning _ _ = false

-- `tuple(dict.fromkeys(warnings))`, after those that are kept.
unfoldable pub from_keys : List Warning → List Warning → List Warning
from_keys kept [] = kept
from_keys kept (w ∷ ws) =
    from_keys (if any (same_warning w) kept then kept else kept ++ (w ∷ [])) ws

abbrev pub is_empty {ℓ} : {A : Type ℓ} → List A → Bool
is_empty [] = true
is_empty (x ∷ xs) = false

unfoldable pub validate_lifecycle_profile : List LifecycleTransition → ProfileValidation
validate_lifecycle_profile transitions =
    let r = check_steps 0 standard transitions [] [] in
    record { ok = is_empty r.0; errors = r.0; warnings = from_keys [] r.1 }

-- `GUIDED_PROFILES`.
abbrev pub transition : ℕ → StorageClass → LifecycleTransition
transition days target = record { days = some days; storage_class = target }

abbrev pub economical : List LifecycleTransition
economical = transition 30 standard_ia ∷ transition 90 glacier_ir ∷ []

abbrev pub archive_tiered : List LifecycleTransition
archive_tiered =
    transition 30 standard_ia ∷ transition 90 glacier_ir ∷ transition 365 deep_archive ∷ []

abbrev pub deep_archive_early : List LifecycleTransition
deep_archive_early = transition 0 deep_archive ∷ []

unfoldable pub guided_profile : String → Option (List LifecycleTransition)
guided_profile name =
    if str_eq name "standard_only"
    then some []
    else if str_eq name "economical"
    then some economical
    else if str_eq name "archive_tiered"
    then some archive_tiered
    else if str_eq name "deep_archive_early"
    then some deep_archive_early
    else none
