-- ===== src/Deletion/Delay.antt =====
-- A scheduled deletion (app/services/cloud_deletion.py) waits out its delay, whatever the workers of
-- app/catalog.py and app/storage.py do.
use frostvault.Prelude.{
  ℕ, ◌+◌, ◌<◌, String, str_eq, Bool, true, false, not, ◌&&◌, ◌||◌, ◌≡◌, refl, sym, subst, Option,
  some, List, [], ◌∷◌, ◌==◌, all, any, All, opt_any, is_none, leb, all-append, arith, Option-cases,
  inl, inr,
}
use frostvault.Prelude.Result.{ok, require, OnOk, OnOk-bind, OnOk-returned}
use frostvault.Prelude.Table.{fetch_one}
use frostvault.Prelude.Table.Reads.{all-select-fetch_one}
use frostvault.Jobs.{Job, is_pending_delay, is_purge, text_is, is_queued, is_cleaning}
use frostvault.Jobs.Claimable.{is_active}
use frostvault.Jobs.Claims.{
  claims, is_active_member, find_lead, group_is_free, claim_is_available, purge_job_is_runnable,
  is_fenced, owns, renews_member,
}
use frostvault.Jobs.Transitions.{Worker, writes_to, releases}
use frostvault.Jobs.Ops.{
  Op, claim, claim_group, renew, renew_group, set_to, retry, progress, reconcile, release_group,
  run_op, run_ops, reaches,
}
use frostvault.Jobs.Lease.{find_job, unreached}
use frostvault.Jobs.Terminal.{HasToken}
use frostvault.Deletion.{
  deletion_delay, already_stopped, unsupported_origin, confirmation_required, reason_required, File,
  Store, Selection, World, selected_files, preview_selection,
}
use frostvault.Deletion.Schedule.{
  is_deletion_origin, Request, purge_job, schedule_file, schedule_files, ScheduledDeletion,
  schedule_cloud_purge,
}

-- The Job waits for `due`, without a lease.
abbrev waits : ℕ → Job → Bool
waits due j =
    is_purge j.action
    && is_pending_delay j.status
    && opt_any (λ at. at == due) j.pending_until
    && is_none j.claim_token

-- A Job of the group waits for `due`.
abbrev waits_in : String → ℕ → Job → Bool
waits_in group_id due j = not (text_is j.group_id group_id) || waits due j

schedule_files-waits :
    (s : Store) (group_id : String) (r : Request) (fs : List File)
    → all (waits_in group_id (r.requested_at + deletion_delay)) s.jobs ≡ true
    → all
        (waits_in group_id (r.requested_at + deletion_delay))
        (schedule_files s group_id r fs).jobs
      ≡ true
unfolding schedule_files schedule_file
schedule_files-waits s group_id r [] h = h
schedule_files-waits s group_id r (f ∷ fs) h =
    schedule_files-waits (schedule_file s group_id r f) group_id r fs (
      all-append (waits_in group_id (r.requested_at + deletion_delay)) s.jobs _ h
        (unfold purge_job in unfold is_purge in unfold is_pending_delay in ground arith))

no_group-waits :
    (group_id : String) (due : ℕ) (jobs : List Job)
    → any (λ j. text_is j.group_id group_id) jobs ≡ false
    → all (waits_in group_id due) jobs ≡ true
no_group-waits group_id due [] h = refl
no_group-waits group_id due (j ∷ jobs) h = ground (arith, no_group-waits group_id due jobs)

-- What a schedule that is admitted writes.
abbrev pub Scheduled :
    World → Store → String → Selection → Request → Store × ScheduledDeletion → Type 0
Scheduled w s group_id selection r x =
    (fs : List File) × (selected_files s selection ≡ ok fs)
    × (x.0 ≡ schedule_files s group_id r fs)
    × (preview_selection w s selection ≡ ok x.1.preview)

pub schedule-Scheduled :
    (w : World) (s : Store) (group_id : String) (selection : Selection) (r : Request)
    → OnOk (Scheduled w s group_id selection r) (schedule_cloud_purge w s group_id selection r)
unfolding schedule_cloud_purge
schedule-Scheduled w s group_id selection r =
    let P = Scheduled w s group_id selection r in
    OnOk-bind P
      (require (is_active s.vault.decommission_state && is_none s.vault.root_released_at)
        already_stopped)
      _
      (λ _ a. OnOk-bind P (require (is_deletion_origin r.origin) unsupported_origin) _ (λ _ b.
        OnOk-bind P (require (str_eq r.confirmation s.vault.name) confirmation_required) _ (λ _ c.
          OnOk-bind P
            (require (not (str_eq r.reason "") && leb r.reason_length 500) reason_required) _
            (λ _ d. OnOk-bind P (preview_selection w s selection) _ (λ preview e.
              OnOk-bind P (selected_files s selection)
                (λ files. ok (
                  schedule_files s group_id r files,
                  record {
                    group_id = group_id;
                    preview = preview;
                    pending_until = r.requested_at + deletion_delay;
                  },
                ))
                (λ fs f. (fs, f, refl, e)))))))

-- A step before `due` that is no restart decision about a Job.
abbrev pub IsEarly : ℕ → Op → Type 0
IsEarly due (claim id lease now restore_due) = Unit {0}
IsEarly due (claim_group acquired id lease now) = now < due
IsEarly due (set_to w id status at) = HasToken w
IsEarly due (retry w id count delay draw at) = HasToken w
IsEarly due (progress w id bytes at) = HasToken w
IsEarly due (reconcile id status how at) = ⊥
IsEarly due _ = Unit {0}

module _ (due : ℕ) (j : Job) (waiting : waits due j ≡ true) where
  not_active :
      (now : ℕ) (jobs : List Job) (lead : Job) (k : ℕ)
      → find_job k jobs ≡ some j
      → now < due
      → group_is_free now jobs lead && is_active_member lead j ≡ false
  unfolding group_is_free find_job purge_job_is_runnable is_pending_delay is_queued
  not_active now jobs lead k f lt = ground (
    arith,
    all-select-fetch_one (is_active_member lead)
        (λ (m : Job). claim_is_available now m && purge_job_is_runnable now m)
        (λ (m : Job). m.id == k) jobs j,
  )

  not_fenced : (w : Worker) (id at : ℕ) → HasToken w → writes_to w.token id at j ≡ false
  unfolding writes_to is_fenced owns text_is
  not_fenced w id at (token, e) = rw e (ground arith)

  not_cleaning : is_cleaning j.status ≡ false
  unfolding is_cleaning is_pending_delay
  not_cleaning = ground arith

  early_unreached :
      (p : ℕ → Option Bool) (jobs : List Job) (o : Op) (k : ℕ)
      → find_job k jobs ≡ some j
      → IsEarly due o
      → reaches p jobs o j ≡ false
  unfolding reaches claims renews_member releases is_fenced owns text_is
  early_unreached p jobs (claim id lease now restore_due) k f e = ground arith
  early_unreached p jobs (claim_group acquired id lease now) k f e =
      elim (Option-cases (find_lead jobs id)) [
        | inl n ↦ rw n (ground arith)
        | inr (lead, n) ↦ rw n (ground (arith, not_active now jobs lead k f e))
      ]
  early_unreached p jobs (renew id other now expires) k f e = ground arith
  early_unreached p jobs (renew_group lead other ids now expires) k f e =
      ground (arith, not_cleaning)
  early_unreached p jobs (set_to w id status at) k f e = ground (arith, not_fenced w id at e)
  early_unreached p jobs (retry w id count delay draw at) k f e =
      ground (arith, not_fenced w id at e)
  early_unreached p jobs (progress w id bytes at) k f e = ground (arith, not_fenced w id at e)
  early_unreached p jobs (reconcile id status how at) k f e = absurd e
  early_unreached p jobs (release_group lead other now) k f e = ground (arith, not_cleaning)

waiting_stays :
    (p : ℕ → Option Bool) (due : ℕ) (jobs : List Job) (os : List Op) (k : ℕ) (j : Job)
    → waits due j ≡ true
    → find_job k jobs ≡ some j
    → All (IsEarly due) os
    → find_job k (run_ops p jobs os) ≡ some j
unfolding run_ops
waiting_stays p due jobs [] k j h f es = f
waiting_stays p due jobs (o ∷ os) k j h f es =
    waiting_stays p due (run_op p jobs o) os k j h
      (unreached p jobs o k j f (early_unreached due j h p jobs o k f es.0)) es.1

all-find_job :
    (p : Job → Bool) (k : ℕ) (jobs : List Job) (j : Job)
    → all p jobs ≡ true
    → find_job k jobs ≡ some j
    → p j ≡ true
unfolding find_job fetch_one
all-find_job p k [] j h f = ground arith
all-find_job p k (x ∷ jobs) j h f = ground (arith, all-find_job p k jobs j)

-- Once a deletion is scheduled under a fresh group id, each of its Jobs stays as it was scheduled, without
-- a lease, for seven days from the request: no sequence of claims of single Jobs, of claims of purge groups
-- before that time, of renewals, releases and writes of workers that carry a token changes its row.
pub deletion_waits :
    (w : World) (s : Store) (group_id : String) (selection : Selection) (r : Request) {s' : Store}
    {d : ScheduledDeletion} (p : ℕ → Option Bool) (os : List Op) (k : ℕ) (j : Job)
    → any (λ (x : Job). text_is x.group_id group_id) s.jobs ≡ false
    → schedule_cloud_purge w s group_id selection r ≡ ok (s', d)
    → find_job k s'.jobs ≡ some j
    → text_is j.group_id group_id ≡ true
    → All (IsEarly (r.requested_at + deletion_delay)) os
    → (find_job k (run_ops p s'.jobs os) ≡ some j)
      × (is_pending_delay j.status ≡ true)
      × (is_none j.claim_token ≡ true)
deletion_waits w s group_id selection r {s'} {d} p os k j fresh e f g es =
    let due = r.requested_at + deletion_delay in
    let (fs, chosen, same, shown) =
      OnOk-returned (Scheduled w s group_id selection r) _ (s', d)
        (schedule-Scheduled w s group_id selection r) e in
    let waiting = schedule_files-waits s group_id r fs (no_group-waits group_id due s.jobs fresh) in
    let j_waits : waits_in group_id due j ≡ true =
      all-find_job (waits_in group_id due) k s'.jobs j
        (subst (λ x. all (waits_in group_id due) x.jobs ≡ true) (sym same) waiting) f in
    let now_waits : waits due j ≡ true = ground arith in
    (waiting_stays p due s'.jobs os k j now_waits f es, ground arith, ground arith)
