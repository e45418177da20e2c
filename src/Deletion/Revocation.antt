-- ===== src/Deletion/Revocation.antt =====
-- A deletion that the last check revokes (app/services/cloud_deletion.py): nothing of it is left to do.
use frostvault.Prelude.{
  ℕ, String, Bool, true, false, not, ◌&&◌, ◌||◌, ◌≡◌, refl, sym, subst, ◌∙◌, List, [], ◌∷◌, ◌==◌,
  all, any, arith,
}
use frostvault.Prelude.Table.{select, update}
use frostvault.Prelude.Table.Reads.{
  update-update, update-update_done, update_never, update_ext, select-update_none, any-update_none,
}
use frostvault.Jobs.{Job, is_terminal}
use frostvault.Deletion.{skipped, Item, Store, is_open, World}
use frostvault.Deletion.Schedule.{is_group_job, is_row_of, cancel_job, cancel_rows}
use frostvault.Deletion.Purge.{active_rows, validate_execution}
use frostvault.Deletion.Execution.{Outcome, validate_execution-Outcome}

-- `_cancel_rows`, as one update of the Jobs and one of their items.
cancel_rows_at_once :
    (rows : List Job) (s : Store) (at : ℕ)
    → cancel_rows s rows at ≡ record s {
      jobs = update (λ j. is_row_of rows j.id) (cancel_job at) s.jobs;
      items =
          update
            (λ i. is_row_of rows i.job_id && is_open i.status)
            (λ i. record i { status = skipped })
            s.items;
    }
unfolding cancel_rows is_row_of
cancel_rows_at_once [] s at = λ k. record s {
  jobs = sym (update_never (λ (j : Job). false) (cancel_job at) s.jobs (λ r. refl)) k;
  items =
      sym
        (update_never (λ (i : Item). false) (λ i. record i { status = skipped }) s.items
          (λ r. refl))
        k;
}
cancel_rows_at_once (row ∷ rows) s at =
    let cancelled : update (λ j. is_row_of rows j.id) (cancel_job at)
          (update (λ j. j.id == row.id) (cancel_job at) s.jobs)
        ≡ update (λ j. is_row_of (row ∷ rows) j.id) (cancel_job at) s.jobs =
      update-update (λ (j : Job). j.id == row.id) (λ j. is_row_of rows j.id) (cancel_job at)
        (λ r. unfold cancel_job in refl) (λ r. unfold cancel_job in refl) s.jobs
      ∙ update_ext _ _ _ (λ (j : Job). ground arith) s.jobs in
    let skips : update (λ i. is_row_of rows i.job_id && is_open i.status)
          (λ i. record i { status = skipped })
          (update (λ i. i.job_id == row.id && is_open i.status) (λ i. record i { status = skipped })
            s.items)
        ≡ update (λ i. is_row_of (row ∷ rows) i.job_id && is_open i.status)
            (λ i. record i { status = skipped }) s.items =
      update-update_done (λ (i : Item). i.job_id == row.id && is_open i.status)
        (λ i. is_row_of rows i.job_id && is_open i.status) (λ i. record i { status = skipped })
        (λ r h. ground arith) s.items
      ∙ update_ext _ _ _ (λ (i : Item). ground arith) s.items in
    cancel_rows_at_once rows _ at ∙ (λ k. record s { jobs = cancelled k; items = skips k })

-- Every Job of the deletion that has not ended is one of the rows.
select-covers :
    (q : Job → Bool) (jobs rows : List Job)
    → all (λ r. is_row_of rows r.id) (select q jobs) ≡ true
    → all (λ j. not (q j) || is_row_of rows j.id) jobs ≡ true
unfolding select
select-covers q [] rows h = refl
select-covers q (j ∷ jobs) rows h = ground (arith, select-covers q jobs rows)

is_row_of-more :
    (xs ys : List Job) (y : Job)
    → all (λ r. is_row_of xs r.id) ys ≡ true
    → all (λ r. is_row_of (y ∷ xs) r.id) ys ≡ true
unfolding is_row_of
is_row_of-more xs [] y h = refl
is_row_of-more xs (r ∷ ys) y h = ground (arith, is_row_of-more xs ys y)

is_row_of_self : (rows : List Job) → all (λ r. is_row_of rows r.id) rows ≡ true
unfolding is_row_of
is_row_of_self [] = refl
is_row_of_self (r ∷ rows) = ground (arith, is_row_of-more rows rows r (is_row_of_self rows))

-- An item of one of the Jobs that is still to be deleted.
abbrev pub is_left : List Job → Item → Bool
is_left rows i = is_row_of rows i.job_id && is_open i.status

revoked_at_once :
    (s : Store) (group_id : String) (at : ℕ)
    → let t = cancel_rows s (active_rows s group_id) at in
      (active_rows t group_id ≡ [])
      × (any (is_left (active_rows s group_id)) t.items ≡ false)
      × (t.versions ≡ s.versions)
      × (t.files ≡ s.files)
unfolding active_rows is_group_job
revoked_at_once s group_id at =
    let rows = active_rows s group_id in
    let active : Job → Bool = λ j. is_group_job s group_id j && not (is_terminal j.status) in
    let covered = select-covers active s.jobs rows (is_row_of_self rows) in
    rw (cancel_rows_at_once rows s at) (
      select-update_none (λ (j : Job). is_row_of rows j.id) active (cancel_job at)
          (λ r h. unfold cancel_job in unfold is_terminal in ground arith) s.jobs covered,
      any-update_none (is_left rows) (is_left rows) (λ i. record i { status = skipped })
          (λ r h. ground arith) (λ r h. h) s.items,
      refl,
      refl,
    )

-- A deletion that may not start is revoked: no Job of it is left that has not ended, no item of the Jobs
-- that had not ended is left to be deleted, and no cloud version or file is touched.
pub execution_revoked :
    (w : World) (s : Store) (group_id : String) (at : ℕ) {t : Store}
    → validate_execution w s group_id at ≡ (t, false)
    → (active_rows t group_id ≡ [])
      × (any (is_left (active_rows s group_id)) t.items ≡ false)
      × (t.versions ≡ s.versions)
      × (t.files ≡ s.files)
execution_revoked w s group_id at {t} e =
    let same = subst (Outcome w s group_id at) e (validate_execution-Outcome w s group_id at) in
    rw same (revoked_at_once s group_id at)
