-- ===== src/Lib.antt =====
-- Frostvault keeps the files of Vaults in S3 as immutable Archive Versions. A web process queues Jobs in
-- PostgreSQL; workers, in this or another process, lease a Job, transfer its file, and publish what they
-- found; the catalog records which version is proved to be in the cloud. What two processes may do to one
-- row is decided by guarded statements, so most of the models here are tables, as lists of rows, on which
-- the program's statements run one after the other, in any order.
--
-- The parts and the files:
--   Prelude: names of the libraries, Boolean tests, lists over native numbers, tables (select, fetch_one,
--     update, delete) and the lemmas about them, and sorting as ORDER BY does it.
--   Jobs, Jobs/Claimable, Jobs/Claims: app/catalog.py. The rows of `jobs` and `vaults`, the shared
--     predicate of claimability (_claimable_job_status_sql, _claimable_job_predicate_sql), the scheduler's
--     reads (list_claimable_jobs, claimable_queue_depth), and the leases (claim_job, claim_purge_group,
--     renew_job_claim, renew_purge_group_claim, load_claimed_purge_group).
--   Jobs/Transitions: app/storage.py. The worker's fenced writes (set_job, schedule_upload_retry,
--     set_job_progress), the fences themselves (ensure_job_active, ensure_job_claim_owned_in_transaction),
--     the restart's _reconcile_job_transition and _release_preflight_purge_claim; the delay of
--     app/services/upload_retry.py.
--   Jobs/Ops: the writes above as one kind of step; Jobs/Lease, Jobs/Claiming, Jobs/Terminal,
--     Jobs/PurgeGroup and Jobs/Queue prove what sequences of steps keep.
--   Admission, Admission/Candidates, Admission/Queueing: queue_jobs of app/catalog.py, with lock_vault of
--     app/services/job_admission.py and local_copy_is_protected and local_copy_is_upload_eligible of
--     app/services/directory_aggregates.py. Admission/Remediation: the admission of a failed upload's
--     episode (admit, intercept_upload) in app/services/upload_remediation.py, which queue_jobs calls for
--     uploads. Admission/Effects says what these calls do to the table of Jobs, Admission/Turns what the
--     loop over the candidates keeps; Admission/ActiveFile joins them with the workers' steps of Jobs/Ops;
--     Admission/Complete and Admission/FreeSpace are about queue_jobs alone.
--   Scheduler: select_fair_jobs of app/services/job_scheduler.py. Scheduler/Filing, Scheduler/Turns and
--     Scheduler/Rounds follow its grouping, a turn and a round; Scheduler/Fair is about the selection.
--   Revisions: app/services/catalog_events.py. The event store of the Vaults (append_event,
--     current_revision, read_events, prune_events). Revisions/Spec is the log of one Vault that it
--     promises; Revisions/Numbered, Revisions/Append, Revisions/Prune, Revisions/Refine and
--     Revisions/Pages lead from the tables to it.
--   Stream: the catch-up of app/services/catalog_event_stream.py (coalesced_catchup_from_connection), which
--     reads the events of Revisions and merges their signals as Events does; Stream/Told and Stream/Catchup
--     are about both together.
--   Intents: app/services/upload_provenance.py. The journal that an upload writes before and after it
--     sends (prepare, mark_send_started, append_receipt, record_no_write, receipt, outstanding, unsent);
--     Intents/Steps runs sequences of these calls; Intents/Armed, Intents/Sends and Intents/Receipts are
--     about them.
--   Sessions: app/sessions.py, with Sessions/Steps and Sessions/Resolve.
--   Backoff: app/backoff.py, with Backoff/Ladder and Backoff/Guard.
--   Preflight: app/services/cloud_preflight_gate.py, with Preflight/Process (the threads of one
--     process) and Preflight/Authority.
--   Plans, Plans/Rules: app/services/lifecycle_profiles.py and app/services/s3_lifecycle_rules.py, with
--     Plans/Chain and Plans/Sync.
--   Protection: app/services/protection_states.py, with Protection/States.
--   Deletion, Deletion/Schedule, Deletion/Purge: app/services/cloud_deletion.py. The preview and admission
--     of a deletion (preview_selection, schedule_cloud_purge), its cancellation, the last check before
--     execution (validate_execution), the batches that write the provider's answers (mark_items_deleted,
--     mark_items_failed) and the end of a Job (finalize_purge_job). Deletion/Stops:
--     app/services/protection_stop.py (stop_protection, cancel_deletion, reconcile_one). Its Jobs are rows
--     of the table of Jobs, so that Deletion/Delay and Deletion/Release reason about the workers' steps;
--     Deletion/Targets, Deletion/Consent, Deletion/Expected, Deletion/Execution, Deletion/Revocation, Deletion/Batches and
--     Deletion/Completion are about the deletion alone.
--   Policies, Policies/Store: app/services/operation_policies.py. The policy of a Vault (validate_policy,
--     get_policy, set_policy) and the clocks (file_is_stable, local_cleanup_is_due), with
--     Policies/Kept, Policies/RoundTrip, Policies/Suspension and Policies/Clocks.
--   Events: app/services/catalog_event_hub.py. The domains of a signal, its merging with others and the
--     mailbox of a subscriber, with Events/Domains, Events/Merge and Events/Mailbox.
--   Incidents: app/services/catalog_incidents.py. Missing Archive Versions and conflicts with cloud-only
--     copies (remember_missing_archives, resolve_archive_version_incidents, settle_cloud_only_copies,
--     confirm_cloud_only_replacement), with Incidents/Open and Incidents/Calls.
-- The modules called Tests apply the theorems at concrete rows; Deletion/Samples holds those of a deletion.
--
-- How the state corresponds. A table is the list of its rows, a column that may be NULL is an option, and
-- a comparison with NULL is not true. Each function takes the table and returns the new one beside its
-- result; a Python exception is a value. A statement is atomic, as in the database; where a call reads
-- before it writes, the model takes the table it read and the table it finds (app/sessions.py, the gate's
-- check, whose last line, after its lock, is a step of its own), or reads and writes the one table where a row lock or an advisory lock joins them. Times are
-- numbers in the order of the ISO texts that the program compares, in microseconds where it adds to them.
-- Random values, ids, hashes and the clock are arguments, as is what an advisory lock or the provider
-- answers. `target` of upload_provenance enters as its verdict, since it reads tables of other parts.
-- A path is the list of its segments. Whether the disk confirms that files are absent, and the last errors
-- of the components, are a parameter of a deletion (World), as are Python's strip, split and JSON texts
-- (Runtime, Texts), the decoding of a stored payload, str.upper and the database's order of lower(path). What
-- the admission of an upload's episode reads of intents, receipts, deletions, health and policies is a
-- parameter too (Facts), and the episodes are those after their discovery. Every
-- loop follows a list, apart from two: the batches of a deletion, whose fuel is the number of ids, since
-- each batch takes at least one, and the rounds of the selection of Jobs, whose fuel is the limit, since
-- each round but the last selects at least one Job.
--
-- What is not modelled: the columns for messages, notifications, audit rows and marks for aggregates, which
-- no guard reads, and those of estimates and restore options; transfers and other calls of the provider;
-- the JSON and the bounds of an event's payload; the queues of automatic Jobs; the origin of Jobs that older installations
-- called decommission; calls of queue_jobs that bind_for_resume makes fail; the path globs of a policy;
-- the registry of subscribers; vault moves; the HTTP routes; the frontend. The two reads of the stream's catch-up (revisions,
-- then events) see one state of the tables. Receipts are compared by their texts in place of hashes. The 0.2
-- share of a retry's jitter is computed in whole microseconds. In claim_job the clause on purge groups is
-- vacuous, since the statement excludes purges.
pub mod Prelude
pub mod Backoff
pub mod Jobs
pub mod Sessions
pub mod Intents
pub mod Plans
pub mod Preflight
pub mod Revisions
pub mod Admission
pub mod Scheduler
pub mod Stream
pub mod Protection
pub mod Deletion
pub mod Policies
pub mod Events
pub mod Incidents
