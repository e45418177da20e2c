-- ===== src/Deletion/Completion.antt =====
-- The end of a deletion (app/services/cloud_deletion.py): a Job whose items are all confirmed ends completed.
use frostvault.Prelude.{
  ℕ, true, ◌&&◌, ◌≡◌, refl, ap, ◌∙◌, some, List, [], ◌∷◌, ◌==◌, all, map, opt_map, arith,
}
use frostvault.Prelude.Table.{select, update}
use frostvault.Prelude.Table.Reads.{fetch_one-update_self}
use frostvault.Jobs.{Job, completed}
use frostvault.Jobs.Lease.{find_job}
use frostvault.Deletion.{Item, Store, deleted, is_deleted, is_nonempty}
use frostvault.Deletion.Purge.{
  is_in, items_of, mark_batch_deleted, mark_items_deleted, finish_job, finalize_purge_job,
}
use frostvault.Deletion.Batches.{batches_are_one}

abbrev ids_of : List Item → List ℕ
ids_of items = map (λ i. i.id) items

more_ids :
    (ids : List ℕ) (n : ℕ) (items : List Item)
    → all (λ i. is_in ids i.id) items ≡ true
    → all (λ i. is_in (n ∷ ids) i.id) items ≡ true
unfolding is_in
more_ids ids n [] h = refl
more_ids ids n (i ∷ items) h = ground (arith, more_ids ids n items)

own_ids : (items : List Item) → all (λ i. is_in (ids_of items) i.id) items ≡ true
unfolding is_in
own_ids [] = refl
own_ids (i ∷ items) = ground (arith, more_ids (ids_of items) i.id items (own_ids items))

module _ (job_id : ℕ) (ids : List ℕ) where
  all_deleted :
      (items : List Item)
      → all (λ i. is_in ids i.id) (select (λ i. i.job_id == job_id) items) ≡ true
      → all
          (λ i. is_deleted i.status)
          (select
            (λ i. i.job_id == job_id)
            (update (λ i. is_in ids i.id) (λ i. record i { status = deleted }) items))
        ≡ true
  unfolding select update
  all_deleted [] h = refl
  all_deleted (i ∷ items) h = ground (arith, all_deleted items)

  still_some :
      (items : List Item)
      → is_nonempty (
          select
            (λ i. i.job_id == job_id)
            (update (λ i. is_in ids i.id) (λ i. record i { status = deleted }) items))
        ≡ is_nonempty (select (λ i. i.job_id == job_id) items)
  unfolding select update
  still_some [] = refl
  still_some (i ∷ items) = ground (arith, still_some items)

is_done :
    (s : Store) (job_id : ℕ)
    → is_nonempty (items_of s job_id) ≡ true
    → let t = mark_batch_deleted s (ids_of (items_of s job_id)) in
      is_nonempty (items_of t job_id) && all (λ i. is_deleted i.status) (items_of t job_id) ≡ true
unfolding mark_batch_deleted items_of
is_done s job_id h =
    let ids = ids_of (items_of s job_id) in
    let some_left = still_some job_id ids s.items in
    let done = all_deleted job_id ids s.items (own_ids (items_of s job_id)) in
    rw (some_left, h, done) refl

finished_row :
    (jobs : List Job) (job_id at : ℕ) (j : Job)
    → find_job job_id jobs ≡ some j
    → find_job job_id (update (λ x. x.id == job_id) (finish_job completed true at) jobs)
      ≡ some (record j { status = completed; updated_at = at; transferred_bytes = j.total_bytes })
unfolding find_job finish_job
finished_row jobs job_id at j h =
    fetch_one-update_self (λ (x : Job). x.id == job_id) (finish_job completed true at) (λ r q. q)
      jobs
    ∙ ap (opt_map (finish_job completed true at)) h

-- Once the provider confirms each item of a Job, of which there is some, as deleted, all batches of these
-- items are written, and the end of the Job then makes it completed, with all of its bytes counted as
-- transferred.
pub deletion_completes :
    (s : Store) (job_id vault_file_id at : ℕ) (j : Job)
    → is_nonempty (items_of s job_id) ≡ true
    → find_job job_id s.jobs ≡ some j
    → (t : Store) × (mark_items_deleted s (map (λ i. i.id) (items_of s job_id)) ≡ some t)
      × ((finalize_purge_job t job_id vault_file_id at).1 ≡ completed)
      × (find_job job_id (finalize_purge_job t job_id vault_file_id at).0.jobs
          ≡ some
              (record j { status = completed; updated_at = at; transferred_bytes = j.total_bytes }))
unfolding finalize_purge_job
deletion_completes s job_id vault_file_id at j some_items found =
    let ids = ids_of (items_of s job_id) in
    let kept : (mark_batch_deleted s ids).jobs ≡ s.jobs = unfold mark_batch_deleted in refl in
    (
      mark_batch_deleted s ids,
      (batches_are_one s ids).0,
      rw (is_done s job_id some_items) refl,
      rw (is_done s job_id some_items, kept) (finished_row s.jobs job_id at j found),
    )
