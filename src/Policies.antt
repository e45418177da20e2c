-- ===== src/Policies.antt =====
-- app/services/operation_policies.py: the operation policy of each Vault in the table
-- `vault_operation_policies`, and the clocks of automatic uploads and local releases. A text that the
-- program walks is the list of its character codes; times are in microseconds.
pub mod Store
pub mod Kept
pub mod RoundTrip
pub mod Suspension
pub mod Clocks
mod Tests
use frostvault.Prelude.{
  ℕ, ◌+◌, ◌*◌, String, str_eq, Bool, true, false, not, ◌&&◌, ◌||◌, Option, none, some, List, [],
  ◌∷◌, ◌==◌, if◌then◌else◌, any, all, map, leb, max, coalesce, opt_all, opt_map,
}
use frostvault.Prelude.Result.{Result, ok, raise, ◌>>=◌, ◌>>◌, require}

abbrev pub Text : Type 0
Text = List ℕ

-- Python's `int`.
pub data ℤ : Type 0 where
  pos negsuc : ℕ → ℤ

-- `ValueError`s by their message, and `LookupError`s.
pub data Error : Type 0 where
  bad_verification negative_stability bad_release_period absolute_glob bad_json : Error
  vault_not_found vault_quiesced : Error

-- What the calls use of Python: the blanks that `str.strip` removes, and the JSON texts of lists of
-- texts.
pub record Runtime : Type 0 where
  pub is_blank : ℕ → Bool
  pub dumps : List Text → Text
  pub loads : Text → Result Error (List Text)

pub record OperationPolicy : Type 0 where
  pub auto_upload : Bool
  pub local_release_after_days : Option ℕ
  pub stability_seconds : ℤ
  pub include_globs : List Text
  pub exclude_globs : List Text
  pub upload_verification : Option String

-- `OperationPolicy()`.
abbrev pub default_policy : OperationPolicy
default_policy = record {
  auto_upload = true;
  local_release_after_days = none;
  stability_seconds = pos 300;
  include_globs = [];
  exclude_globs = [];
  upload_verification = none;
}

abbrev pub backslash : ℕ
backslash = 92

abbrev pub slash : ℕ
slash = 47

-- `str.lstrip`.
unfoldable pub lstrip : (ℕ → Bool) → Text → Text
lstrip is_blank [] = []
lstrip is_blank (c ∷ cs) = let rest = lstrip is_blank cs in if is_blank c then rest else c ∷ cs

-- `str.rstrip`.
unfoldable pub rstrip : (ℕ → Bool) → Text → Text
rstrip is_blank [] = []
rstrip is_blank (c ∷ cs) = elim (rstrip is_blank cs) [
  | [] ↦ if is_blank c then [] else c ∷ []
  | d ∷ ds ↦ c ∷ d ∷ ds
]

-- `str(value).strip().replace("\\", "/")`.
unfoldable pub normal_glob : (ℕ → Bool) → Text → Text
normal_glob is_blank value =
    map (λ c. if c == backslash then slash else c) (rstrip is_blank (lstrip is_blank value))

-- `text.startswith("/")`.
abbrev pub starts_with_slash : Text → Bool
starts_with_slash [] = false
starts_with_slash (c ∷ cs) = c == slash

abbrev pub is_empty : Text → Bool
is_empty [] = true
is_empty (c ∷ cs) = false

-- `_normalize_globs`.
unfoldable pub normalize_globs : (ℕ → Bool) → List Text → Result Error (List Text)
normalize_globs is_blank [] = ok []
normalize_globs is_blank (value ∷ values) =
    let text = normal_glob is_blank value in
    let rest = normalize_globs is_blank values in
    if is_empty text
    then rest
    else do require (not (starts_with_slash text)) absolute_glob; globs ← rest; ok (text ∷ globs)

-- `LOCAL_RELEASE_PERIODS`.
abbrev pub is_release_period : ℕ → Bool
is_release_period days = days == 90 || days == 180 || days == 365 || days == 730

abbrev pub is_verification : String → Bool
is_verification mode = str_eq mode "s3_checksum" || str_eq mode "read_back"

abbrev pub is_nonnegative : ℤ → Bool
is_nonnegative (pos n) = true
is_nonnegative (negsuc n) = false

unfoldable pub validate_policy : (ℕ → Bool) → OperationPolicy → Result Error (Unit {0})
validate_policy is_blank policy = do
  require (opt_all is_verification policy.upload_verification) bad_verification
  require (is_nonnegative policy.stability_seconds) negative_stability
  require (opt_all is_release_period policy.local_release_after_days) bad_release_period
  include ← normalize_globs is_blank policy.include_globs
  exclude ← normalize_globs is_blank policy.exclude_globs
  ok tt

abbrev pub microseconds : ℕ
microseconds = 1000000

-- `age >= stability_seconds`, where the age may be negative.
unfoldable pub has_aged : ℕ → ℕ → ℤ → Bool
has_aged now since (pos seconds) = leb (since + seconds * microseconds) now
has_aged now since (negsuc n) = leb since (now + (n + 1) * microseconds)

-- `mtime` and the observation are already times.
unfoldable pub file_is_stable : ℕ → ℕ → ℤ → Option ℕ → Bool
file_is_stable mtime now stability_seconds content_observed_at =
    has_aged now (coalesce (opt_map (max mtime) content_observed_at) mtime) stability_seconds

abbrev pub day : ℕ
day = 24 * 60 * 60 * microseconds

-- `reference = max(reference, observed)`, where the time is known.
abbrev pub later : ℕ → Option ℕ → ℕ
later reference none = reference
later reference (some observed) = max reference observed

-- The arguments that are times, in the order of the source.
unfoldable pub local_cleanup_is_due : ℕ → ℕ → ℕ → Option ℕ → Option ℕ → Option ℕ → Bool
local_cleanup_is_due verified_at retention_days now local_mtime recovered_at content_observed_at =
    let reference = later (later verified_at recovered_at) content_observed_at in
    let latest : ℕ = elim local_mtime [
      | none ↦ reference
      | some modified ↦ if leb modified reference then reference else modified
    ] in
    leb (latest + retention_days * day) now
