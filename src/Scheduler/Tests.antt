-- ===== src/Scheduler/Tests.antt =====
-- Examples of a selection: a busy Vault and one with a single Job.
use frostvault.Prelude.{ℕ, suc, ◌≤◌, ◌≡◌, ◌⊎◌, refl, false, none, List, [], ◌∷◌, ◌++◌, length, map}
use frostvault.Prelude.Table.{delete}
use frostvault.Prelude.Table.Sort.{sorted, insert}
use frostvault.Jobs.{Job, upload, queued, manual}
use frostvault.Jobs.Claimable.{requested_before}
use frostvault.Scheduler.{
  select_fair_jobs, push, push_all, vault_order, heads_before, rounds, one_round, take_turn,
  set_queue,
}
use frostvault.Scheduler.Turns.{of_vault, turns}
use frostvault.Scheduler.Fair.{AllSelected, select_fair_jobs-turns, select_fair_jobs-length}

abbrev job : ℕ → ℕ → ℕ → Job
job id vault_id requested_at = record {
  id = id;
  vault_id = vault_id;
  vault_file_id = id;
  archive_version_id = none;
  path = [];
  action = upload;
  status = queued;
  origin = manual;
  group_id = none;
  requested_at = requested_at;
  updated_at = requested_at;
  retry_count = 0;
  retry_after = none;
  pending_until = none;
  claim_token = none;
  claimed_at = none;
  claim_expires_at = none;
  total_bytes = 0;
  transferred_bytes = 0;
  notify_pending = false;
}

abbrev waiting : List Job
waiting = job 1 7 10 ∷ job 2 7 10 ∷ job 3 7 12 ∷ job 4 8 15 ∷ []

-- The second Vault's Job overtakes the first Vault's second one.
select_three : map (λ j. j.id) (select_fair_jobs waiting 3) ≡ 1 ∷ 4 ∷ 2 ∷ []
unfolding select_fair_jobs push push_all vault_order heads_before rounds one_round take_turn
    set_queue sorted insert requested_before delete
select_three = refl

-- In the second round the Vaults keep the order of the first, though the second Vault's next Job is
-- older than the first Vault's.
second_round :
    map (λ j. j.id) (select_fair_jobs (job 1 7 10 ∷ job 2 7 30 ∷ job 3 8 15 ∷ job 4 8 20 ∷ []) 3)
    ≡ 1 ∷ 3 ∷ 2 ∷ []
unfolding select_fair_jobs push push_all vault_order heads_before rounds one_round take_turn
    set_queue sorted insert requested_before delete
second_round = refl

select_fair_jobs-turns_example :
    (turns 7 (select_fair_jobs waiting 3) ≤ suc (turns 8 (select_fair_jobs waiting 3)))
    ⊎ (of_vault 8 (select_fair_jobs waiting 3) ≡ of_vault 8 (sorted requested_before waiting))
select_fair_jobs-turns_example = select_fair_jobs-turns waiting 3 7 8

select_fair_jobs-length_example :
    (length (select_fair_jobs waiting 3) ≤ 3)
    × ((length (select_fair_jobs waiting 3) ≡ 3)
        ⊎ AllSelected (sorted requested_before waiting) (select_fair_jobs waiting 3))
    × ((w : ℕ)
        → (left : List Job) × (of_vault w (select_fair_jobs waiting 3) ++ left
            ≡ of_vault w (sorted requested_before waiting)))
select_fair_jobs-length_example = select_fair_jobs-length waiting 3
