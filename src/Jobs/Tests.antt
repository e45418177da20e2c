-- ===== src/Jobs/Tests.antt =====
-- Examples of Jobs: an upload that a worker claims, a purge group of two, and a finished Job.
use frostvault.Prelude.{
  ℕ, ◌+◌, ◌*◌, ◌≤◌, min, ◌≡◌, ◌≢◌, refl, ap, String, str_eq, Bool, true, false, Option, none, some,
  coalesce, List, [], ◌∷◌, All, length, arith,
}
use frostvault.Prelude.Table.{fetch_one, update, select}
use frostvault.Prelude.Table.Sort.{insert, sorted}
use frostvault.Jobs.{
  Job, Vault, upload, cloud_purge, queued, completed, uploading, cleaning, manual, active,
  is_terminal, is_queued, is_retrying, is_pending_delay, is_restoring, is_purge, is_upload,
  is_restorable, is_automatic, truthy,
}
use frostvault.Jobs.Claimable.{
  has_claimable_status, is_unleased, upload_allowed, same_group, group_allowed, is_claimable,
  is_counted, requested_before, list_claimable_jobs, claimable_queue_depth,
}
use frostvault.Jobs.Claims.{
  Lease, ok, take_lease, claims, claim_job, claim_is_available, purge_job_is_runnable, is_member,
  is_active_member, find_lead, group_is_free, take_group_lease, claim_members, claim_purge_group,
  load_claimed_purge_group,
}
use frostvault.Jobs.Transitions.{Worker, keep, upload_retry_delay_seconds, retry_after_at}
use frostvault.Jobs.Ops.{Op, claim, set_to, reconcile, run_ops}
use frostvault.Jobs.Lease.{find_job, Rival, lease_exclusive}
use frostvault.Jobs.Claiming.{DistinctIds, claim_job_exclusive}
use frostvault.Jobs.Terminal.{IsWorkerStep, terminal_final}
use frostvault.Jobs.PurgeGroup.{purge_group_exclusive}
use frostvault.Jobs.Queue.{list_claimable-queue_depth, retry_after_bounds}

abbrev waiting : Job
waiting = record {
  id = 1;
  vault_id = 1;
  vault_file_id = 1;
  archive_version_id = none;
  path = "a" ∷ [];
  action = upload;
  status = queued;
  origin = manual;
  group_id = none;
  requested_at = 10;
  updated_at = 10;
  retry_count = 0;
  retry_after = none;
  pending_until = none;
  claim_token = none;
  claimed_at = none;
  claim_expires_at = none;
  total_bytes = 5;
  transferred_bytes = 0;
  notify_pending = false;
}

abbrev finished : Job
finished = record waiting { id = 2; status = completed }

abbrev purge : Job
purge = record waiting { id = 3; action = cloud_purge; group_id = some "g" }

abbrev purge_next : Job
purge_next = record purge { id = 4; requested_at = 11 }

abbrev lease : Lease
lease = record { token = "a"; claimed_at = 100; expires_at = 400 }

abbrev rival : Lease
rival = record { token = "b"; claimed_at = 200; expires_at = 500 }

abbrev held : Job
held = record waiting { claim_token = some "a"; claimed_at = some 100; claim_expires_at = some 400 }

abbrev jobs : List Job
jobs = waiting ∷ finished ∷ []

abbrev held_jobs : List Job
held_jobs = held ∷ finished ∷ []

abbrev purges : List Job
purges = purge ∷ purge_next ∷ []

abbrev any_upload : ℕ → Option Bool
any_upload vault_id = none

abbrev vaults : List Vault
vaults =
    record { id = 1; enabled = true; decommission_state = active; relocation_ready = true } ∷ []

abbrev other_worker : Worker
other_worker = record { token = some "b"; lost = false }

-- Another worker claims, publishes an end, and the restart decides, all while the lease lasts.
abbrev rivals : List Op
rivals =
    claim 1 rival 200 0 ∷ set_to other_worker 1 completed 210 ∷ reconcile 1 queued keep 220 ∷ []

abbrev token_a : String
token_a = "a"

abbrev token_b : String
token_b = "b"

abbrev no_token : String
no_token = ""

named_a : token_a ≢ no_token
named_a e = ground (arith, ap (λ s. str_eq s "a") e)

named_b : token_b ≢ no_token
named_b e = ground (arith, ap (λ s. str_eq s "b") e)

held_is_found : find_job 1 held_jobs ≡ some held
unfolding find_job fetch_one
held_is_found = refl

not_same : token_b ≢ token_a
not_same e = ground (arith, ap (λ s. str_eq s "b") e)

are_rivals : All (Rival "a" 400) rivals
are_rivals = (omega arith, ((token_b, refl, not_same), (omega arith, tt)))

lease_exclusive_example : find_job 1 (run_ops any_upload held_jobs rivals) ≡ some held
lease_exclusive_example =
    lease_exclusive any_upload held_jobs rivals 1 held "a" 400 held_is_found
      (record { named = named_a; by_token = refl; expires = refl }) are_rivals

distinct : DistinctIds jobs
unfolding find_job fetch_one
distinct = (refl, (refl, tt))

waiting_is_found : find_job 1 jobs ≡ some waiting
unfolding find_job fetch_one
waiting_is_found = refl

is_claimed : claim_job any_upload jobs 1 lease 100 0 ≡ ok (held_jobs, some held)
unfolding claim_job claims is_claimable has_claimable_status is_unleased upload_allowed
    group_allowed take_lease update fetch_one is_queued is_retrying is_pending_delay is_restoring
    is_purge is_upload is_restorable is_automatic
is_claimed = refl

claim_job_exclusive_example :
    (is_claimable any_upload 100 0 jobs waiting ≡ true)
    × (held ≡ take_lease lease waiting)
    × (find_job 1 (run_ops any_upload held_jobs rivals) ≡ some held)
claim_job_exclusive_example =
    claim_job_exclusive any_upload jobs 1 lease 100 0 waiting rivals named_a distinct
      waiting_is_found is_claimed are_rivals

finished_is_found : find_job 2 jobs ≡ some finished
unfolding find_job fetch_one
finished_is_found = refl

has_ended : is_terminal finished.status ≡ true
unfolding is_terminal
has_ended = refl

abbrev late_steps : List Op
late_steps =
    claim 2 rival 200 0 ∷ set_to other_worker 2 uploading 210 ∷ reconcile 2 queued keep 220 ∷ []

are_steps : All IsWorkerStep late_steps
are_steps = (tt, ((token_b, refl), (tt, tt)))

terminal_final_example : find_job 2 (run_ops any_upload jobs late_steps) ≡ some finished
terminal_final_example =
    terminal_final any_upload jobs late_steps 2 finished finished_is_found has_ended are_steps

abbrev purge_held : Job
purge_held = record purge {
  status = cleaning;
  claim_token = some "a";
  claimed_at = some 100;
  claim_expires_at = some 400;
  updated_at = 100;
}

abbrev next_held : Job
next_held = record purge_next {
  status = cleaning;
  claim_token = some "a";
  claimed_at = some 100;
  claim_expires_at = some 400;
  updated_at = 100;
}

abbrev purges_held : List Job
purges_held = purge_held ∷ next_held ∷ []

lead_is_found : find_lead purges 3 ≡ some purge
unfolding find_lead fetch_one is_purge truthy
lead_is_found = refl

next_is_found : find_lead purges_held 4 ≡ some next_held
unfolding find_lead fetch_one is_purge truthy
next_is_found = refl

next_is_member : is_member purge next_held ≡ true
unfolding is_member same_group is_purge
next_is_member = refl

group_is_claimed : claim_purge_group true purges 3 lease 100 ≡ ok (purges_held, purges_held)
unfolding claim_purge_group find_lead claim_members group_is_free claim_is_available
    purge_job_is_runnable is_active_member is_member take_group_lease same_group fetch_one update
    select sorted insert requested_before is_purge is_terminal is_queued is_pending_delay truthy
group_is_claimed = refl

purge_group_exclusive_example :
    (load_claimed_purge_group purges_held 3 "a" 300 ≡ purges_held)
    × (claim_purge_group true purges_held 4 rival 300 ≡ ok (purges_held, []))
purge_group_exclusive_example =
    purge_group_exclusive purges 3 purge lease 100 300 true true 4 next_held rival lead_is_found
      group_is_claimed (omega arith) next_is_found next_is_member named_b

list_claimable-queue_depth_example :
    (All
      (λ j. (is_counted vaults j ≡ true) × (is_claimable any_upload 100 0 jobs j ≡ true))
      (list_claimable_jobs any_upload vaults jobs 100 0 10))
    × (length (list_claimable_jobs any_upload vaults jobs 100 0 10)
        ≡ min 10 (claimable_queue_depth any_upload vaults jobs 100 0))
list_claimable-queue_depth_example = list_claimable-queue_depth any_upload vaults jobs 100 0 10

retry_after_bounds_example :
    (1000 + coalesce none (upload_retry_delay_seconds 3) * 1000000 ≤ retry_after_at 1000 none 3 77)
    × (5 * retry_after_at 1000 none 3 77
        ≤ 5 * 1000 + 6 * (coalesce none (upload_retry_delay_seconds 3) * 1000000))
retry_after_bounds_example = retry_after_bounds 1000 none 3 77
