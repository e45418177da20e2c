-- ===== src/Deletion/Release.antt =====
-- The release of a folder whose stop deletes its cloud copies (app/services/protection_stop.py): it comes
-- after the last of the deletion's Jobs, which no worker (app/catalog.py, app/storage.py) takes up again.
use frostvault.Prelude.{
  ℕ, String, str_eq, ◌==◌, Bool, true, false, ◌≡◌, ◌⊎◌, ◌&&◌, not, [], ◌∷◌, refl, Option, none,
  some, List, if◌then◌else◌, all, any, All, arith, Bool-cases, inl, inr,
}
use frostvault.Prelude.Table.{select, fetch_one}
use frostvault.Prelude.Table.Reads.{all-select-fetch_one}
use frostvault.Jobs.{Job, Status, is_terminal}
use frostvault.Jobs.Ops.{Op, run_ops}
use frostvault.Jobs.Lease.{find_job}
use frostvault.Jobs.Terminal.{IsWorkerStep, terminal_final}
use frostvault.Deletion.{Stop, Store, is_nonempty}
use frostvault.Deletion.Purge.{is_delete}
use frostvault.Deletion.Stops.{
  is_settled, is_cancelled, in_stop_group, release_root, reconcile_group, reconcile_stop,
  reconcile_one,
}

settled-is_terminal : (status : Status) → is_settled status ≡ true → is_terminal status ≡ true
unfolding is_settled is_terminal
settled-is_terminal status h = ground arith

-- Whether the Jobs of the group are all settled.
all_settled : Store → String → Bool
all_settled s group_id =
    is_nonempty (select (in_stop_group s group_id) s.jobs)
    && all (λ j. is_settled j.status) (select (in_stop_group s group_id) s.jobs)

-- What a reconciliation leaves of the Jobs and of the root.
reconcile_group-released :
    (s : Store) (p : Stop) (group_id : String) (at : ℕ)
    → ((reconcile_group s p group_id at).jobs ≡ s.jobs)
      × ((reconcile_group s p group_id at).vault.root_released_at
          ≡ (if all_settled s group_id then some at else s.vault.root_released_at))
unfolding reconcile_group all_settled release_root
reconcile_group-released s p group_id at = elim (Bool-cases (all_settled s group_id)) [
  | inl e ↦
      elim (Bool-cases
        (any (λ j. is_cancelled j.status) (select (in_stop_group s group_id) s.jobs))) [
          | inl c ↦ rw (e, c) (refl, refl)
          | inr c ↦ rw (e, c) (refl, refl)
        ]
  | inr e ↦ rw e (refl, refl)
]

all_settled-all :
    (s : Store) (group_id : String)
    → all_settled s group_id ≡ true
    → all (λ j. is_settled j.status) (select (in_stop_group s group_id) s.jobs) ≡ true
unfolding all_settled
all_settled-all s group_id h = ground arith

any-unsettled :
    (p q : Job → Bool) (t : List Job)
    → all q (select p t) ≡ false
    → any (λ j. p j && not (q j)) t ≡ true
unfolding select
any-unsettled p q [] h = ground arith
any-unsettled p q (j ∷ t) h = ground (arith, any-unsettled p q t)

is_nonempty-select :
    (p find : Job → Bool) (t : List Job) (j : Job)
    → fetch_one find t ≡ some j
    → p j ≡ true
    → is_nonempty (select p t) ≡ true
unfolding select fetch_one
is_nonempty-select p find [] j f g = ground arith
is_nonempty-select p find (x ∷ t) j f g = ground (arith, is_nonempty-select p find t j)

-- A group that has a Job and is not all settled has a Job that is not.
unsettled :
    (s : Store) (group_id : String) (k : ℕ) (j : Job)
    → find_job k s.jobs ≡ some j
    → in_stop_group s group_id j ≡ true
    → all_settled s group_id ≡ false
    → any (λ j. in_stop_group s group_id j && not (is_settled j.status)) s.jobs ≡ true
unfolding all_settled find_job
unsettled s group_id k j f g e =
    let here = is_nonempty-select (in_stop_group s group_id) (λ j. j.id == k) s.jobs j f g in
    any-unsettled (in_stop_group s group_id) (λ j. is_settled j.status) s.jobs (ground arith)

module _ (s : Store) (p : Stop) (group_id : String) (at : ℕ) (stopped : s.stop ≡ some p)
    (group : p.group_id ≡ some group_id) (named : str_eq group_id "" ≡ false)
    (deletes : is_delete p.cloud_disposition ≡ true) (held : s.vault.root_released_at ≡ none) where
  reconcile_one-group : reconcile_one s at ≡ reconcile_group s p group_id at
  unfolding reconcile_one reconcile_stop
  reconcile_one-group = rw (stopped, held, group, named, deletes) refl

-- Where a stop deletes the cloud copies of a group, a reconciliation changes no Job. Either it leaves the
-- root unreleased, and then some Job of the group is not settled; or it releases the root now,
-- and then each Job of the group is completed or cancelled, and no sequence of claims, renewals, releases,
-- restart decisions and writes of workers that carry a token changes its row again.
pub released_after_deletion :
    (s : Store) (p : Stop) (group_id : String) (at : ℕ) (vaults : ℕ → Option Bool) (os : List Op)
    (k : ℕ) (j : Job)
    → s.stop ≡ some p
    → p.group_id ≡ some group_id
    → str_eq group_id "" ≡ false
    → is_delete p.cloud_disposition ≡ true
    → s.vault.root_released_at ≡ none
    → find_job k s.jobs ≡ some j
    → in_stop_group s group_id j ≡ true
    → All IsWorkerStep os
    → let end = reconcile_one s at in
      (end.jobs ≡ s.jobs)
      × (((end.vault.root_released_at ≡ none)
            × (any (λ j. in_stop_group s group_id j && not (is_settled j.status)) s.jobs ≡ true))
          ⊎ ((end.vault.root_released_at ≡ some at)
              × (is_settled j.status ≡ true)
              × (find_job k (run_ops vaults end.jobs os) ≡ some j)))
unfolding find_job
released_after_deletion s p group_id at vaults os k j stopped group named deletes held f g es =
    let same = reconcile_one-group s p group_id at stopped group named deletes held in
    let (jobs, root) = reconcile_group-released s p group_id at in
    let kept : (reconcile_one s at).jobs ≡ s.jobs = rw same jobs in
    let root' : (reconcile_one s at).vault.root_released_at
        ≡ (if all_settled s group_id then some at else none) =
      rw (same, root, held) refl in
    elim (Bool-cases (all_settled s group_id)) [
      | inl e ↦
          let settled = all_settled-all s group_id e in
          let ended =
            all-select-fetch_one (in_stop_group s group_id) (λ (j : Job). is_settled j.status)
              (λ (j : Job). j.id == k) s.jobs j settled f g in
          (
            kept,
            inr (
              rw e at root',
              ended,
              rw kept
                  (terminal_final vaults s.jobs os k j f (settled-is_terminal j.status ended) es),
            ),
          )
      | inr e ↦ (kept, inl (rw e at root', unsettled s group_id k j f g e))
    ]
