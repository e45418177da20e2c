-- ===== src/Deletion/Tests.antt =====
-- Examples of deletions of the sample Vault.
use frostvault.Prelude.{
  ℕ, ◌+◌, ◌≤◌, ◌≡◌, ◌⊎◌, not, none, refl, String, true, false, ◌&&◌, some, is_none, List, [], ◌∷◌,
  ◌++◌, All, all, any, map, arith,
}
use frostvault.Prelude.Result.{ok}
use frostvault.Prelude.Table.{fetch_one, update, select}
use frostvault.Jobs.{
  Job, decommissioning, completed, cancelled, uploading, is_purge, is_pending_delay, is_terminal,
  text_is,
}
use frostvault.Jobs.Claimable.{is_active}
use frostvault.Jobs.Claims.{Lease}
use frostvault.Jobs.Transitions.{Worker}
use frostvault.Jobs.Ops.{Op, claim, claim_group, set_to, run_ops}
use frostvault.Jobs.Lease.{find_job}
use frostvault.Jobs.Terminal.{IsWorkerStep}
use frostvault.Protection.{observation_is_unconfirmed}
use frostvault.Deletion.{
  deletion_delay, skipped, File, Item, Stop, delete, Store, selected_files, versions_of, markers_of,
  latest, is_selected, is_valid_selection, is_nonempty, is_away, is_cloud_only, is_pending_work,
  is_exact, validate_rows, validate_files, preview_selection,
}
use frostvault.Deletion.Schedule.{
  purge_job, version_items, marker_items, file_items, schedule_file, schedule_files,
  schedule_cloud_purge, is_group_job, cancel_job, cancel_rows,
}
use frostvault.Deletion.Purge.{
  mark_items_deleted, mark_batch_deleted, mark_items_failed, mark_batch_failed, finalize_purge_job,
  validate_execution, check_execution, active_rows, check_authority, delay_elapsed, same_files,
  names, is_authorized, has_target, check_items, items_of, check_row, check_rows,
}
use frostvault.Deletion.Stops.{reconcile_one, in_stop_group, is_settled}
use frostvault.Deletion.Batches.{batches_are_one}
use frostvault.Deletion.Delay.{IsEarly, deletion_waits}
use frostvault.Deletion.Revocation.{is_left, execution_revoked}
use frostvault.Deletion.Targets.{of_item, cloud_copies}
use frostvault.Deletion.Expected.{is_expected_version, is_expected_marker, is_expected_item}
use frostvault.Deletion.Execution.{execution_granted}
use frostvault.Deletion.Consent.{Counts, consent_is_exact}
use frostvault.Deletion.Completion.{deletion_completes}
use frostvault.Deletion.Release.{released_after_deletion}
use frostvault.Deletion.Samples.{
  calm, any_vault, before, group, the_file, request, job, after, shown,
}

is_scheduled : schedule_cloud_purge calm before group the_file request ≡ ok (after, shown)
unfolding schedule_cloud_purge preview_selection selected_files validate_files validate_rows
    schedule_files schedule_file file_items version_items marker_items versions_of markers_of latest
    is_selected is_valid_selection is_away is_cloud_only is_pending_work is_exact is_active select
    purge_job is_terminal observation_is_unconfirmed
is_scheduled = refl

batches_are_one_example :
    (mark_items_deleted after (8 ∷ 9 ∷ []) ≡ some (mark_batch_deleted after (8 ∷ 9 ∷ [])))
    × (mark_items_failed after (8 ∷ 9 ∷ []) ≡ some (mark_batch_failed after (8 ∷ 9 ∷ [])))
batches_are_one_example = batches_are_one after (8 ∷ 9 ∷ [])

consent_is_exact_example :
    (fs : List File) × (selected_files before the_file ≡ ok fs)
    × (map of_item after.items ≡ map of_item before.items ++ cloud_copies before fs)
    × Counts before fs shown.preview
consent_is_exact_example = consent_is_exact calm before group the_file request is_scheduled

abbrev lease : Lease
lease = record { token = "t"; claimed_at = 2000; expires_at = 2300 }

abbrev worker : Worker
worker = record { token = some "t"; lost = false }

-- A worker tries to claim the Job and its group on the first day, and writes it as uploading.
abbrev early_steps : List Op
early_steps =
    claim 3 lease 2000 0 ∷ claim_group true 3 lease 2000 ∷ set_to worker 3 uploading 2100 ∷ []

abbrev token : String
token = "t"

early_steps-IsEarly : All (IsEarly (1000 + deletion_delay)) early_steps
early_steps-IsEarly = (tt, (omega arith, ((token, refl), tt)))

is_found : find_job 3 after.jobs ≡ some job
unfolding find_job fetch_one
is_found = refl

deletion_waits_example :
    (find_job 3 (run_ops any_vault after.jobs early_steps) ≡ some job)
    × (is_pending_delay job.status ≡ true)
    × (is_none job.claim_token ≡ true)
deletion_waits_example =
    deletion_waits calm before group the_file request any_vault early_steps 3 job refl is_scheduled
      is_found (unfold text_is in refl) early_steps-IsEarly

abbrev week_after : ℕ
week_after = 1000 + deletion_delay

is_valid : validate_execution calm after group week_after ≡ (after, true)
unfolding validate_execution check_execution active_rows check_authority delay_elapsed same_files
    names is_authorized has_target check_items items_of check_row check_rows is_group_job select
    selected_files validate_files validate_rows versions_of markers_of latest is_selected
    is_valid_selection is_away is_cloud_only is_pending_work is_exact is_active fetch_one is_purge
    is_terminal text_is observation_is_unconfirmed
is_valid = refl

execution_granted_example :
    (after ≡ after)
    × (job.requested_at + 604800000000 ≤ week_after)
    × (all (is_expected_version after job) after.versions ≡ true)
    × (all (is_expected_marker after job) after.markers ≡ true)
    × (all (is_expected_item after job) after.items ≡ true)
execution_granted_example =
    execution_granted calm after group week_after 3 job is_valid is_found
      (unfold is_group_job in unfold text_is in unfold is_purge in refl)
      (unfold is_terminal in refl)

-- The same Store once the deletion is revoked.
abbrev revoked : Store
revoked = record after {
  items = map (λ (i : Item). record i { status = skipped }) after.items;
  jobs = record job { status = cancelled; updated_at = 2000 } ∷ [];
}

is_too_early : validate_execution calm after group 2000 ≡ (revoked, false)
unfolding validate_execution check_execution active_rows check_authority delay_elapsed is_group_job
    select is_active is_purge is_terminal text_is cancel_rows cancel_job update
is_too_early = refl

execution_revoked_example :
    (active_rows revoked group ≡ [])
    × (any (is_left (active_rows after group)) revoked.items ≡ false)
    × (revoked.versions ≡ after.versions)
    × (revoked.files ≡ after.files)
execution_revoked_example = execution_revoked calm after group 2000 is_too_early

abbrev stop : Stop
stop = record { cloud_disposition = delete; group_id = some group }

abbrev done : Job
done = record job { status = completed }

abbrev stopped : Store
stopped = record after {
  vault = record before.vault { decommission_state = decommissioning };
  jobs = done ∷ [];
  stop = some stop;
}

done_is_found : find_job 3 stopped.jobs ≡ some done
unfolding find_job fetch_one
done_is_found = refl

is_in_group : in_stop_group stopped group done ≡ true
unfolding in_stop_group text_is
is_in_group = refl

are_steps : All IsWorkerStep early_steps
are_steps = (tt, (tt, ((token, refl), tt)))

released_after_deletion_example :
    ((reconcile_one stopped 5000).jobs ≡ stopped.jobs)
    × ((((reconcile_one stopped 5000).vault.root_released_at ≡ none)
          × (any (λ j. in_stop_group stopped group j && not (is_settled j.status)) stopped.jobs
              ≡ true))
        ⊎ (((reconcile_one stopped 5000).vault.root_released_at ≡ some 5000)
            × (is_settled done.status ≡ true)
            × (find_job 3 (run_ops any_vault (reconcile_one stopped 5000).jobs early_steps)
                ≡ some done)))
released_after_deletion_example =
    released_after_deletion stopped stop group 5000 any_vault early_steps 3 done refl refl refl refl
      refl done_is_found is_in_group are_steps

has_items : is_nonempty (items_of after 3) ≡ true
unfolding items_of select
has_items = refl

deletion_completes_example :
    (t : Store) × (mark_items_deleted after (map (λ i. i.id) (items_of after 3)) ≡ some t)
    × ((finalize_purge_job t 3 1 6000).1 ≡ completed)
    × (find_job 3 (finalize_purge_job t 3 1 6000).0.jobs
        ≡ some (record job {
          status = completed;
          updated_at = 6000;
          transferred_bytes = job.total_bytes;
        }))
deletion_completes_example = deletion_completes after 3 1 6000 job has_items is_found
