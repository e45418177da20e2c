-- ===== src/Deletion/Execution.antt =====
-- The last check before cloud copies are deleted (app/services/cloud_deletion.py): what it grants.
use frostvault.Prelude.{
  ℕ, ◌+◌, ◌≤◌, ◌==◌, String, str_eq, Bool, true, false, not, ◌&&◌, ◌||◌, ◌≡◌, refl, sym, subst,
  some, List, [], ◌∷◌, all, map, leb, is_none, is_some, arith, inl, inr,
}
use frostvault.Prelude.Result.{
  ok, OnOk, OnOk-bind, OnOk-require, OnOk-map, OnOk-returned, Result-cases,
}
use frostvault.Prelude.Table.{select}
use frostvault.Prelude.Table.Reads.{all-select-fetch_one}
use frostvault.Jobs.Lease.{find_job}
use frostvault.Jobs.{Job, is_terminal}
use frostvault.Deletion.{
  deletion_delay, authority_inactive, delay_not_elapsed, identity_changed, not_absent,
  absence_unreconciled, content_changed, version_missing, target_changed, Item, Store, versions_of,
  markers_of, latest, the_files, selected_files, is_nonempty, is_deleted, World, validate_files,
}
use frostvault.Deletion.Expected.{
  is_expected_version, is_expected_marker, is_expected_item, versions-is_expected,
  markers-is_expected, items-is_expected,
}
use frostvault.Deletion.Schedule.{cancel_rows, is_group_job}
use frostvault.Deletion.Purge.{
  active_rows, check_authority, delay_elapsed, same_files, is_authorized, has_target, check_items,
  items_of, check_row, check_rows, check_execution, validate_execution,
}

-- Every cloud version and marker of the Job's file is one that an item of the Job names, and every item
-- names a row that is still that version or marker of the file.
abbrev is_consented : Store → Job → Bool
is_consented s j =
    is_authorized (items_of s j.id) (versions_of s j.vault_file_id) (markers_of s j.vault_file_id)
    && all (has_target s j.vault_file_id) (items_of s j.id)

-- The Job's seven days are over, and its items are what was consented to.
abbrev is_granted : Store → ℕ → Job → Bool
is_granted s at j = leb (j.requested_at + deletion_delay) at && is_consented s j

check_items-has_target :
    (s : Store) (file_id : ℕ) (items : List Item)
    → OnOk (λ _. all (has_target s file_id) items ≡ true) (check_items s file_id items)
unfolding check_items
check_items-has_target s file_id [] = refl
check_items-has_target s file_id (i ∷ items) =
    let P = λ (_ : Unit {0}). all (has_target s file_id) (i ∷ items) ≡ true in
    OnOk-require P
      (not (str_eq i.provider_version_id "") && not (str_eq i.provider_version_id "null"))
      version_missing _
      (λ a. OnOk-require P (has_target s file_id i) target_changed _ (λ b.
        OnOk-map P _ (check_items-has_target s file_id items)
          (λ _ (c : all (has_target s file_id) items ≡ true). ground arith)))

check_row-is_consented : (s : Store) (j : Job) → OnOk (λ _. is_consented s j ≡ true) (check_row s j)
unfolding check_row
check_row-is_consented s j =
    let P = λ (_ : Unit {0}). is_consented s j ≡ true in
    OnOk-require P
      (is_nonempty (versions_of s j.vault_file_id)
        || is_nonempty (markers_of s j.vault_file_id)
        || all (λ i. is_deleted i.status) (items_of s j.id))
      absence_unreconciled _
      (λ a.
        OnOk-require P
          (is_nonempty (items_of s j.id)
            && is_authorized (items_of s j.id) (versions_of s j.vault_file_id)
                (markers_of s j.vault_file_id))
          content_changed _
          (λ b.
            OnOk-map P _ (check_items-has_target s j.vault_file_id (items_of s j.id))
              (λ _ (c : all (has_target s j.vault_file_id) (items_of s j.id) ≡ true).
                ground arith)))

check_rows-is_consented :
    (s : Store) (rows : List Job) → OnOk (λ _. all (is_consented s) rows ≡ true) (check_rows s rows)
unfolding check_rows
check_rows-is_consented s [] = refl
check_rows-is_consented s (j ∷ rows) =
    let P = λ (_ : Unit {0}). all (is_consented s) (j ∷ rows) ≡ true in
    OnOk-bind P (check_row s j) _ (λ _ a.
      let b =
        OnOk-returned (λ (_ : Unit {0}). is_consented s j ≡ true) (check_row s j) tt
          (check_row-is_consented s j) a in
      OnOk-map P _ (check_rows-is_consented s rows) (λ _ c. ground arith))

all-is_granted :
    (s : Store) (at : ℕ) (rows : List Job)
    → all (delay_elapsed at) rows ≡ true
    → all (is_consented s) rows ≡ true
    → all (is_granted s at) rows ≡ true
unfolding delay_elapsed
all-is_granted s at [] h k = refl
all-is_granted s at (j ∷ rows) h k = ground (arith, all-is_granted s at rows)

check_execution-is_granted :
    (w : World) (s : Store) (group_id : String) (rows : List Job) (at : ℕ)
    → OnOk
        (λ _. is_nonempty rows && all (is_granted s at) rows ≡ true)
        (check_execution w s group_id rows at)
unfolding check_execution
check_execution-is_granted w s group_id rows at =
    let P = λ (_ : Unit {0}). is_nonempty rows && all (is_granted s at) rows ≡ true in
    OnOk-require P (is_nonempty rows && is_none s.vault.root_released_at) authority_inactive _ (λ a.
      OnOk-bind P (check_authority s group_id rows) _ (λ _ b.
        OnOk-require P _ delay_not_elapsed _ (λ c.
          OnOk-bind P (selected_files s (the_files (map (λ r. r.path) rows))) _ (λ files d.
            OnOk-require P (same_files files rows) identity_changed _ (λ e.
              OnOk-require P (w.are_absent (map (λ f. f.path) files)) not_absent _ (λ f.
                OnOk-bind P
                  (validate_files w s (some group_id) (select (λ f. is_some (latest s f)) files)) _
                  (λ _ g.
                    OnOk-map P _ (check_rows-is_consented s rows)
                      (λ _ h. let k = all-is_granted s at rows c h in ground arith))))))))

-- The outcome of the check, by cases.
abbrev pub Outcome : World → Store → String → ℕ → Store × Bool → Type 0
Outcome w s group_id at (t, true) =
    (t ≡ s) × (check_execution w s group_id (active_rows s group_id) at ≡ ok tt)
Outcome w s group_id at (t, false) = t ≡ cancel_rows s (active_rows s group_id) at

pub validate_execution-Outcome :
    (w : World) (s : Store) (group_id : String) (at : ℕ)
    → Outcome w s group_id at (validate_execution w s group_id at)
unfolding validate_execution
validate_execution-Outcome w s group_id at =
    elim (Result-cases (check_execution w s group_id (active_rows s group_id) at)) [
      | inl (_, e) ↦
          let end : validate_execution w s group_id at ≡ (s, true) =
            rw (validate_execution, e) refl in
          subst (Outcome w s group_id at) (sym end) (refl, e)
      | inr (_, e) ↦
          let end : validate_execution w s group_id at
              ≡ (cancel_rows s (active_rows s group_id) at, false) =
            rw (validate_execution, e) refl in
          subst (Outcome w s group_id at) (sym end) refl
    ]

active_rows-is_granted :
    (w : World) (s : Store) (group_id : String) (at : ℕ) {t : Store}
    → validate_execution w s group_id at ≡ (t, true)
    → (t ≡ s)
      × (is_nonempty (active_rows s group_id) && all (is_granted s at) (active_rows s group_id)
          ≡ true)
active_rows-is_granted w s group_id at {t} e =
    let (same, passed) =
      subst (Outcome w s group_id at) e (validate_execution-Outcome w s group_id at) in
    (
      same,
      OnOk-returned _ _ tt (check_execution-is_granted w s group_id (active_rows s group_id) at)
          passed,
    )

-- Where a deletion may start, nothing is written, and for every Job of it that has not ended: seven days
-- have passed since its request; every version of its file is purged or one of its items is to delete
-- exactly that version, and so for every delete marker that is not deleted; and each of its items
-- names a row that is still that version or marker of its file.
pub execution_granted :
    (w : World) (s : Store) (group_id : String) (at k : ℕ) (j : Job) {t : Store}
    → validate_execution w s group_id at ≡ (t, true)
    → find_job k s.jobs ≡ some j
    → is_group_job s group_id j ≡ true
    → is_terminal j.status ≡ false
    → (t ≡ s)
      × (j.requested_at + 604800000000 ≤ at)
      × (all (is_expected_version s j) s.versions ≡ true)
      × (all (is_expected_marker s j) s.markers ≡ true)
      × (all (is_expected_item s j) s.items ≡ true)
unfolding find_job
execution_granted w s group_id at k j e f g live =
    let (same, passed) = active_rows-is_granted w s group_id at e in
    let granted =
      all-select-fetch_one (λ j. is_group_job s group_id j && not (is_terminal j.status))
        (is_granted s at) (λ j. j.id == k) s.jobs j (unfold active_rows in ground arith) f
        (ground arith) in
    (
      same,
      ground arith,
      versions-is_expected s j (unfold is_authorized in ground arith),
      markers-is_expected s j (unfold is_authorized in ground arith),
      items-is_expected s j (ground arith),
    )
