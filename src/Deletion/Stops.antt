-- ===== src/Deletion/Stops.antt =====
-- app/services/protection_stop.py: the end of a folder's protection. Its root is released for other
-- Vaults once no deletion can touch it any more. Audit rows are left out.
use frostvault.Prelude.{
  ℕ, String, str_eq, Bool, true, false, not, ◌&&◌, ◌||◌, Option, none, some, ◌==◌, if◌then◌else◌,
  any, all, is_none, is_some,
}
use frostvault.Prelude.Result.{Result, ok, raise, ◌>>=◌, ◌>>◌, require}
use frostvault.Prelude.Table.{select}
use frostvault.Jobs.{
  Job, Status, completed, cancelled, decommissioning, decommissioned, stop_protection as from_stop,
  is_terminal, is_pending_delay, text_is,
}
use frostvault.Jobs.Claimable.{is_active}
use frostvault.Deletion.{
  Error, confirmation_required, bad_choice, already_stopped, relocation_unfinished, active_jobs,
  no_pending_deletion, Disposition, keep, delete, Stop, Store, whole_vault, selected_files,
  is_nonempty, World,
}
use frostvault.Deletion.Schedule.{Request, schedule_cloud_purge, cancel_cloud_deletion}
use frostvault.Deletion.Purge.{is_delete}

-- `status in {"completed", "cancelled"}`.
unfoldable pub is_settled : Status → Bool
is_settled completed = true
is_settled cancelled = true
is_settled _ = false

unfoldable pub is_cancelled : Status → Bool
is_cancelled cancelled = true
is_cancelled _ = false

-- `vault_id=… AND group_id=…`.
unfoldable pub in_stop_group : Store → String → Job → Bool
in_stop_group s group_id j = j.vault_id == s.vault.id && text_is j.group_id group_id

unfoldable pub release_root : Store → ℕ → Store
release_root s at = record s {
  vault = record s.vault { decommission_state = decommissioned; root_released_at = some at };
}

unfoldable pub with_disposition : Disposition → Stop → Stop
with_disposition d p = record p { cloud_disposition = d }

-- `reconcile_one` where the stop deletes the cloud copies of a group.
unfoldable pub reconcile_group : Store → Stop → String → ℕ → Store
reconcile_group s p group_id at =
    let jobs = select (in_stop_group s group_id) s.jobs in
    if is_nonempty jobs && all (λ j. is_settled j.status) jobs
    then release_root
        (if any (λ j. is_cancelled j.status) jobs
          then record s { stop = some (with_disposition keep p) }
          else s)
        at
    else s

unfoldable pub reconcile_stop : Store → Stop → ℕ → Store
reconcile_stop s p at = elim p.group_id [
  | none ↦ release_root s at
  | some group_id ↦
      if not (str_eq group_id "") && is_delete p.cloud_disposition
      then reconcile_group s p group_id at
      else release_root s at
]

unfoldable pub reconcile_one : Store → ℕ → Store
reconcile_one s at = elim s.stop [
  | none ↦ s
  | some p ↦ if is_some s.vault.root_released_at then s else reconcile_stop s p at
]

-- A Job of the Vault that has not ended.
unfoldable pub has_active_jobs : Store → Bool
has_active_jobs s = any (λ j. j.vault_id == s.vault.id && not (is_terminal j.status)) s.jobs

abbrev pub same_disposition : Disposition → Disposition → Bool
same_disposition keep keep = true
same_disposition delete delete = true
same_disposition _ _ = false

-- `stop_protection` of a folder whose protection has stopped.
unfoldable pub stop_again : Store → Disposition → ℕ → Result Error Store
stop_again s disposition at = elim s.stop [
  | none ↦ raise already_stopped
  | some p ↦
      if same_disposition p.cloud_disposition disposition
      then ok s
      else if not (is_delete disposition)
          && is_none s.vault.root_released_at
          && not (has_active_jobs s)
      then ok (reconcile_one (record s { stop = some (with_disposition keep p) }) at)
      else raise already_stopped
]

-- The deletion that a stop schedules: the group, where any file is selected. The schedule's `now_iso` is
-- `at`, whole seconds of the clock.
unfoldable pub schedule_stop :
    World → Store → String → Request → Disposition → Result Error (Store × Option String)
schedule_stop w s group_id r keep = ok (s, none)
schedule_stop w s group_id r delete = do
  files ← selected_files s whole_vault
  (if is_nonempty files
      then (do
        scheduled ← schedule_cloud_purge w s group_id whole_vault r
        ok (scheduled.0, some group_id))
      else ok (s, none))

-- `None` for `cloud_disposition` is any other text. The request carries the time, the confirmation and
-- the reason; its origin is `stop-protection`.
unfoldable pub stop_protection :
    World → Store → String → Request → Option Disposition → Result Error Store
stop_protection w s group_id r choice = do
  require (str_eq r.confirmation s.vault.name) confirmation_required
  elim choice [
    | none ↦ raise bad_choice
    | some disposition ↦ do
      require (not (str_eq r.reason "")) bad_choice
      if not (is_active s.vault.decommission_state)
          then stop_again s disposition r.requested_at
          else do
            require (not (is_delete disposition) || s.vault.relocation_ready) relocation_unfinished
            require (not (has_active_jobs s)) active_jobs
            scheduled ← schedule_stop w s group_id (record r { origin = from_stop }) disposition
            ok (
                reconcile_one
                  (record scheduled.0 {
                    stop =
                        some (record { cloud_disposition = disposition; group_id = scheduled.1 });
                    vault = record scheduled.0.vault { decommission_state = decommissioning };
                  })
                  r.requested_at)
  ]

-- `cancel_deletion` of app/services/protection_stop.py.
unfoldable pub cancel_deletion : Store → ℕ → Result Error Store
cancel_deletion s at = elim s.stop [
  | none ↦ raise no_pending_deletion
  | some p ↦ elim p.group_id [
    | none ↦ raise no_pending_deletion
    | some group_id ↦ if str_eq group_id "" then raise no_pending_deletion else do
      result ← cancel_cloud_deletion s group_id at
      ok (reconcile_one (record result.0 { stop = some (with_disposition keep p) }) at)
  ]
]

-- `cancellable` of `status`.
unfoldable pub is_cancellable : Store → Bool
is_cancellable s = elim s.stop [
  | none ↦ false
  | some p ↦ elim p.group_id [
    | none ↦ false
    | some group_id ↦
        let jobs = select (in_stop_group s group_id) s.jobs in
        not (str_eq group_id "") && is_nonempty jobs && all (λ j. is_pending_delay j.status) jobs
  ]
]
