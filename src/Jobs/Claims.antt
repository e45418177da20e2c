-- ===== src/Jobs/Claims.antt =====
-- The leases of `ArchiveCatalog` (app/catalog.py): acquiring, renewing and loading them. Each write
-- returns the new table of Jobs beside the rows that its statement returns.
use frostvault.Prelude.{
  ℕ, String, str_eq, Bool, true, not, ◌&&◌, ◌||◌, Option, none, some, List, [], ltb, leb, ◌==◌,
  if◌then◌else◌, any, all, map, opt_any, opt_all,
}
use frostvault.Prelude.Table.{select, fetch_one, update}
use frostvault.Prelude.Table.Sort.{sorted}
use frostvault.Jobs.{
  Job, cleaning, is_terminal, is_queued, is_pending_delay, is_cleaning, is_purge, truthy, text_is,
}
use frostvault.Jobs.Claimable.{is_claimable, requested_before, same_group}

pub data Error : Type 0 where
  value_error : Error

pub data Result {ℓ} (A : Type ℓ) : Type ℓ where
  ok : A → Result A
  raise : Error → Result A

pub record Lease : Type 0 where
  pub token : String
  pub claimed_at : ℕ
  pub expires_at : ℕ

-- `SET claim_token=…, claimed_at=…, claim_expires_at=…`.
unfoldable pub take_lease : Lease → Job → Job
take_lease l j = record j {
  claim_token = some l.token;
  claimed_at = some l.claimed_at;
  claim_expires_at = some l.expires_at;
}

unfoldable pub claims : (ℕ → Option Bool) → ℕ → ℕ → List Job → ℕ → Job → Bool
claims auto_upload now restore_due_before jobs job_id j =
    j.id == job_id
    && not (is_purge j.action)
    && is_claimable auto_upload now restore_due_before jobs j

unfoldable pub claim_job :
    (ℕ → Option Bool) → List Job → ℕ → Lease → ℕ → ℕ → Result (List Job × Option Job)
claim_job auto_upload jobs job_id lease now restore_due_before =
    if str_eq lease.token ""
    then raise value_error
    else let p = claims auto_upload now restore_due_before jobs job_id in
      let table = update p (take_lease lease) jobs in
      ok (table, if any p jobs then fetch_one (λ j. j.id == job_id) table else none)

-- `_claim_is_available`.
unfoldable pub claim_is_available : ℕ → Job → Bool
claim_is_available now j =
    not (truthy j.claim_token) || opt_all (λ at. leb at now) j.claim_expires_at

-- `_purge_job_is_runnable`.
unfoldable pub purge_job_is_runnable : ℕ → Job → Bool
purge_job_is_runnable now j =
    is_queued j.status || (is_pending_delay j.status && opt_any (λ at. leb at now) j.pending_until)

-- `vault_id=… AND group_id=… AND action='cloud-purge'`, with the lead's columns.
unfoldable pub is_member : Job → Job → Bool
is_member lead j =
    j.vault_id == lead.vault_id && same_group j.group_id lead.group_id && is_purge j.action

unfoldable pub is_active_member : Job → Job → Bool
is_active_member lead j = is_member lead j && not (is_terminal j.status)

-- `WHERE id=… AND action='cloud-purge'`, and the test of its group.
unfoldable pub find_lead : List Job → ℕ → Option Job
find_lead jobs lead_job_id = elim (fetch_one (λ j. j.id == lead_job_id && is_purge j.action) jobs) [
  | none ↦ none
  | some lead ↦ if truthy lead.group_id then some lead else none
]

unfoldable pub group_is_free : ℕ → List Job → Job → Bool
group_is_free now jobs lead =
    let members = select (is_active_member lead) jobs in
    any (λ j. true) members
    && all (λ j. claim_is_available now j && purge_job_is_runnable now j) members

unfoldable pub take_group_lease : Lease → Job → Job
take_group_lease l j = record j {
  status = cleaning;
  claim_token = some l.token;
  claimed_at = some l.claimed_at;
  claim_expires_at = some l.expires_at;
  updated_at = l.claimed_at;
}

-- The claim once the lead is known. `acquired` is what the advisory lock answers; the ids that the
-- statement names are those of the active members.
unfoldable pub claim_members : Bool → List Job → Job → Lease → ℕ → List Job × List Job
claim_members acquired jobs lead lease now =
    let p = is_active_member lead in
    if acquired && group_is_free now jobs lead
    then (
      update p (take_group_lease lease) jobs,
      sorted requested_before (map (take_group_lease lease) (select p jobs)),
    )
    else (jobs, [])

unfoldable pub claim_purge_group : Bool → List Job → ℕ → Lease → ℕ → Result (List Job × List Job)
claim_purge_group acquired jobs lead_job_id lease now =
    if str_eq lease.token "" then raise value_error else elim (find_lead jobs lead_job_id) [
      | none ↦ ok (jobs, [])
      | some lead ↦ ok (claim_members acquired jobs lead lease now)
    ]

-- `claim_token=… AND claim_expires_at IS NOT NULL AND claim_expires_at > now`.
unfoldable pub owns : String → ℕ → Job → Bool
owns token now j = text_is j.claim_token token && opt_any (λ at. ltb now at) j.claim_expires_at

-- A worker's fence: its live lease on a Job that is not terminal.
unfoldable pub is_fenced : ℕ → String → ℕ → Job → Bool
is_fenced job_id token now j = j.id == job_id && owns token now j && not (is_terminal j.status)

unfoldable pub renew_job_claim : List Job → ℕ → String → ℕ → ℕ → List Job × Option Job
renew_job_claim jobs job_id token now expires_at =
    let table =
      update (is_fenced job_id token now) (λ j. record j { claim_expires_at = some expires_at })
        jobs in
    (
      table,
      if any (is_fenced job_id token now) jobs then fetch_one (λ j. j.id == job_id) table else none,
    )

unfoldable pub renews_member : Job → String → ℕ → Job → Bool
renews_member lead token now j = is_member lead j && is_cleaning j.status && owns token now j

-- Two sets of ids are equal.
unfoldable pub same_ids : List ℕ → List ℕ → Bool
same_ids xs ys = all (λ x. any (λ y. x == y) ys) xs && all (λ y. any (λ x. x == y) xs) ys

-- `lead` carries the vault and the group that the call names.
unfoldable pub renew_purge_group_claim : List Job → Job → String → List ℕ → ℕ → ℕ → List Job × Bool
renew_purge_group_claim jobs lead token expected_job_ids now expires_at = (
  update (renews_member lead token now) (λ j. record j { claim_expires_at = some expires_at }) jobs,
  same_ids (map (λ j. j.id) (select (renews_member lead token now) jobs)) expected_job_ids,
)

-- The Jobs that `load_claimed_purge_group` returns; the deletion items are those of these Jobs.
unfoldable pub load_claimed_purge_group : List Job → ℕ → String → ℕ → List Job
load_claimed_purge_group jobs lead_job_id token now = elim (find_lead jobs lead_job_id) [
  | none ↦ []
  | some lead ↦
      let members = select (is_active_member lead) jobs in
      if all (λ j. is_cleaning j.status && owns token now j) members
      then sorted requested_before members
      else []
]
