-- ===== src/Protection.antt =====
-- app/services/protection_states.py: the protection state of a Vault File, read from its row, its Local
-- Copy (lc) and its latest Archive Version (av, absent when every version is purged). A column that
-- may be NULL is an option, and a comparison with NULL is not true.
pub mod States
mod Tests
use frostvault.Prelude.{
  ℕ, String, str_eq, Bool, true, false, not, ◌&&◌, ◌||◌, ◌≡◌, refl, Option, none, some, List, [],
  ◌∷◌, ltb, if◌then◌else◌, is_some, any, ◌==◌, opt_any,
}

pub data Availability : Type 0 where
  available missing unknown purged : Availability

pub data Integrity : Type 0 where
  verified mismatch unverified : Integrity

pub data Presence : Type 0 where
  present unsupported absent : Presence

-- `STATES`.
pub data State : Type 0 where
  pending protected problem unconfirmed cloud_only : State

pub record LocalCopy : Type 0 where
  pub presence : Presence
  pub is_regular : Bool
  pub matched_archive_version_id : Option ℕ
  pub plaintext_sha256 : Option String
  pub cloud_only_version_id : Option ℕ

pub record Version : Type 0 where
  pub id : ℕ
  pub integrity : Integrity
  pub availability : Availability
  pub plaintext_sha256 : Option String

-- One row of the join, with whether the last upload Job of the file failed (`FAILED_UPLOAD_SQL`).
pub record Row : Type 0 where
  pub lc : Option LocalCopy
  pub av : Option Version
  pub failed_upload : Bool

abbrev pub is_present : Presence → Bool
is_present present = true
is_present _ = false

abbrev pub is_unsupported : Presence → Bool
is_unsupported unsupported = true
is_unsupported _ = false

abbrev pub is_verified : Integrity → Bool
is_verified verified = true
is_verified _ = false

abbrev pub is_mismatch : Integrity → Bool
is_mismatch mismatch = true
is_mismatch _ = false

abbrev pub is_available : Availability → Bool
is_available available = true
is_available _ = false

abbrev pub is_missing : Availability → Bool
is_missing missing = true
is_missing _ = false

abbrev pub is_unknown : Availability → Bool
is_unknown unknown = true
is_unknown _ = false

-- `LOCAL_EXISTS_SQL`.
unfoldable pub local_exists : Row → Bool
local_exists r = opt_any (λ c. is_present c.presence || is_unsupported c.presence) r.lc

abbrev pub same_sha256 : Option String → Option String → Bool
same_sha256 (some a) (some b) = str_eq a b
same_sha256 _ _ = false

-- `PROTECTED_SQL`, on the two rows that it compares.
unfoldable pub vouches : LocalCopy → Version → Bool
vouches c v =
    is_present c.presence
    && c.is_regular
    && is_verified v.integrity
    && is_available v.availability
    && opt_any (λ id. id == v.id) c.matched_archive_version_id
    && same_sha256 c.plaintext_sha256 v.plaintext_sha256

unfoldable pub is_protected : Row → Bool
is_protected r = opt_any (λ c. opt_any (λ v. vouches c v) r.av) r.lc

-- `PROBLEM_SQL`.
unfoldable pub is_problem : Row → Bool
is_problem r =
    opt_any (λ v. is_missing v.availability || is_mismatch v.integrity) r.av
    || opt_any (λ c. is_some c.cloud_only_version_id || is_unsupported c.presence) r.lc
    || (not (is_protected r) && r.failed_upload)

-- `STATE_SQL`.
unfoldable pub state : Row → State
state r =
    if is_problem r
    then problem
    else if opt_any (λ v. is_unknown v.availability) r.av
    then unconfirmed
    else if not (local_exists r) && is_some r.av
    then if opt_any (λ v. is_verified v.integrity && is_available v.availability) r.av
      then cloud_only
      else unconfirmed
    else if is_protected r
    then protected
    else pending

-- `VISIBLE_SQL`.
unfoldable pub is_visible : Row → Bool
is_visible r = local_exists r || is_some r.av

-- The order in which `aggregate_state` looks.
abbrev pub by_urgency : List State
by_urgency = problem ∷ unconfirmed ∷ pending ∷ protected ∷ cloud_only ∷ []

unfoldable pub first_counted : (State → ℕ) → List State → Option State
first_counted counts [] = none
first_counted counts (s ∷ ss) =
    let rest = first_counted counts ss in if ltb 0 (counts s) then some s else rest

-- `counts.get(state, 0)` is `counts state`.
unfoldable pub aggregate_state : (State → ℕ) → Option State
aggregate_state counts = first_counted counts by_urgency

pub record Projection : Type 0 where
  pub shown : State
  pub last_known_state : State
  pub previous_snapshot_protected : Bool

-- `last_known_state` of `project_file`, from the row whose `protection_state` is `known`.
unfoldable pub last_known : State → Row → State
last_known unconfirmed r =
    if opt_any (λ v. is_verified v.integrity) r.av
    then if opt_any
        (λ c.
          is_present c.presence
          && opt_any
              (λ v.
                opt_any (λ id. id == v.id) c.matched_archive_version_id
                && same_sha256 c.plaintext_sha256 v.plaintext_sha256)
              r.av)
        r.lc
      then protected
      else if not (local_exists r)
      then cloud_only
      else pending
    else unconfirmed
last_known known r = known

abbrev pub is_pending : State → Bool
is_pending pending = true
is_pending _ = false

unfoldable pub project_file : Row → ℕ → Bool → Projection
project_file r recoverable_version_count is_unconfirmed =
    let known = state r in
    record {
      shown = if is_unconfirmed then unconfirmed else known;
      last_known_state = last_known known r;
      previous_snapshot_protected =
          is_pending known
          && (ltb 0 recoverable_version_count
              || opt_any (λ v. is_verified v.integrity && is_available v.availability) r.av);
    }

-- `last_error` of one component of the health report: there, and not empty.
unfoldable pub observation_is_unconfirmed : (String → Option String) → Bool
observation_is_unconfirmed last_error =
    any (λ component. opt_any (λ e. not (str_eq e "")) (last_error component))
      ("source" ∷ "cloud" ∷ "audit" ∷ [])
