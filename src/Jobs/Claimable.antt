-- ===== src/Jobs/Claimable.antt =====
-- The claimability predicate of `ArchiveCatalog` (app/catalog.py), and the reads that share it.
use frostvault.Prelude.{
  ℕ, String, str_eq, Bool, true, false, not, ◌&&◌, ◌||◌, Option, none, some, List, ltb, leb, ◌==◌,
  coalesce, is_none, opt_all, opt_any, any, length, take,
}
use frostvault.Prelude.Table.{select, fetch_one}
use frostvault.Prelude.Table.Sort.{sorted}
use frostvault.Jobs.{
  Job, Vault, Decommission, active, decommissioning, is_terminal, is_queued, is_retrying,
  is_pending_delay, is_restoring, is_purge, is_upload, is_restorable, is_automatic, is_manual,
  is_stop_protection,
}

-- `_claimable_job_status_sql` with `include_restoring`.
unfoldable pub has_claimable_status : ℕ → ℕ → Job → Bool
has_claimable_status now restore_due_before j =
    is_queued j.status
    || (is_retrying j.status && opt_all (λ at. leb at now) j.retry_after)
    || (is_purge j.action
        && is_pending_delay j.status
        && opt_any (λ at. leb at now) j.pending_until)
    || (is_restorable j.action && is_restoring j.status && leb j.updated_at restore_due_before)

-- `claim_token IS NULL OR claim_expires_at IS NULL OR claim_expires_at <= now`.
unfoldable pub is_unleased : ℕ → Job → Bool
is_unleased now j = is_none j.claim_token || opt_all (λ at. leb at now) j.claim_expires_at

-- The upload policy's clause; `auto_upload` is the vault's policy row, if there is one.
unfoldable pub upload_allowed : (ℕ → Option Bool) → Job → Bool
upload_allowed auto_upload j =
    not (is_upload j.action)
    || not (is_automatic j.origin)
    || not (is_none j.archive_version_id)
    || coalesce (auto_upload j.vault_id) true

-- `p.group_id = g` where both are columns.
unfoldable pub same_group : Option String → Option String → Bool
same_group none b = false
same_group (some g) none = false
same_group (some g) (some h) = str_eq g h

-- A live member of `j`'s purge group that is not due, or that a worker holds.
unfoldable pub blocks_group : ℕ → Job → Job → Bool
blocks_group now j p =
    p.vault_id == j.vault_id
    && same_group p.group_id j.group_id
    && is_purge p.action
    && not (is_terminal p.status)
    && ((not (is_queued p.status)
          && not (is_pending_delay p.status && opt_any (λ at. leb at now) p.pending_until))
        || (not (is_none p.claim_token) && opt_any (λ at. ltb now at) p.claim_expires_at))

unfoldable pub group_allowed : ℕ → List Job → Job → Bool
group_allowed now jobs j =
    not (is_purge j.action) || (not (is_none j.group_id) && not (any (blocks_group now j) jobs))

-- `_claimable_job_predicate_sql`.
unfoldable pub is_claimable : (ℕ → Option Bool) → ℕ → ℕ → List Job → Job → Bool
is_claimable auto_upload now restore_due_before jobs j =
    has_claimable_status now restore_due_before j
    && upload_allowed auto_upload j
    && is_unleased now j
    && group_allowed now jobs j

unfoldable pub is_active : Decommission → Bool
is_active active = true
is_active _ = false

unfoldable pub is_decommissioning : Decommission → Bool
is_decommissioning decommissioning = true
is_decommissioning _ = false

-- The vault's clauses of `list_claimable_jobs`.
unfoldable pub vault_admits : Vault → Job → Bool
vault_admits v j =
    v.relocation_ready
    && ((v.enabled
          && is_active v.decommission_state
          && (is_manual j.origin || is_automatic j.origin))
        || (is_decommissioning v.decommission_state
            && is_stop_protection j.origin
            && is_purge j.action))

-- The inner join of a Job with its vault, under the vault's clauses.
unfoldable pub joins_vault : List Vault → Job → Bool
joins_vault vaults j = opt_any (λ v. vault_admits v j) (fetch_one (λ v. v.id == j.vault_id) vaults)

-- `ORDER BY requested_at ASC, id ASC`.
unfoldable pub requested_before : Job → Job → Bool
requested_before a b =
    ltb a.requested_at b.requested_at || (a.requested_at == b.requested_at && leb a.id b.id)

-- The rows that `list_claimable_jobs` orders.
unfoldable pub runnable_jobs : (ℕ → Option Bool) → List Vault → List Job → ℕ → ℕ → List Job
runnable_jobs auto_upload vaults jobs now restore_due_before =
    select (λ j. joins_vault vaults j && is_claimable auto_upload now restore_due_before jobs j)
      jobs

unfoldable pub list_claimable_jobs :
    (ℕ → Option Bool) → List Vault → List Job → ℕ → ℕ → ℕ → List Job
list_claimable_jobs auto_upload vaults jobs now restore_due_before limit =
    take limit
      (sorted requested_before (runnable_jobs auto_upload vaults jobs now restore_due_before))

-- The vault's clauses of `claimable_queue_depth`, which writes them again.
unfoldable pub counts_in : Vault → Job → Bool
counts_in v j =
    v.relocation_ready
    && ((v.enabled
          && is_active v.decommission_state
          && (is_manual j.origin || is_automatic j.origin))
        || (is_decommissioning v.decommission_state
            && is_stop_protection j.origin
            && is_purge j.action))

-- The join of `claimable_queue_depth` with the vault.
unfoldable pub is_counted : List Vault → Job → Bool
is_counted vaults j = opt_any (λ v. counts_in v j) (fetch_one (λ v. v.id == j.vault_id) vaults)

-- `SELECT COUNT(*)` over its own join.
unfoldable pub claimable_queue_depth : (ℕ → Option Bool) → List Vault → List Job → ℕ → ℕ → ℕ
claimable_queue_depth auto_upload vaults jobs now restore_due_before = length (
    select (λ j. is_counted vaults j && is_claimable auto_upload now restore_due_before jobs j)
      jobs)
