-- ===== src/Policies/Suspension.antt =====
-- A suspension of automatic uploads keeps its start across calls (app/services/operation_policies.py).
use frostvault.Prelude.{
  ℕ, false, ◌&&◌, ◌≡◌, refl, subst, some, List, [], ◌∷◌, ◌==◌, All, arith, Bool-cases, inl, inr,
  Bool-cases,
}
use frostvault.Prelude.Result.{ok, raise, OnOk, OnOk-bind, OnOk-returned, Result-cases}
use frostvault.Prelude.Table.{update, fetch_one}
use frostvault.Jobs.{Vault}
use frostvault.Policies.{Runtime, OperationPolicy, normalize_globs}
use frostvault.Policies.Store.{Row, is_row, new_row, upsert, mark_suspension, canonical, set_policy}
use frostvault.Policies.RoundTrip.{
  suspended_since, Written, set_policy-Written, fetch_one-Written, fetch_one-Written_other,
}

-- A call of `set_policy`; one that is refused leaves the table.
pub record Call : Type 0 where
  pub vault_id : ℕ
  pub policy : OperationPolicy
  pub at : ℕ

abbrev pub run_call : Runtime → List Vault → List Row → Call → List Row
run_call runtime vaults rows c = elim (set_policy runtime vaults rows c.vault_id c.policy c.at) [
  | ok x ↦ x.0
  | raise error ↦ rows
]

abbrev pub run_calls : Runtime → List Vault → List Row → List Call → List Row
run_calls runtime vaults rows [] = rows
run_calls runtime vaults rows (c ∷ cs) =
    run_calls runtime vaults (run_call runtime vaults rows c) cs

canonical-auto_upload :
    (runtime : Runtime) (policy : OperationPolicy)
    → OnOk
        (λ (written : OperationPolicy). written.auto_upload ≡ policy.auto_upload)
        (canonical runtime policy)
unfolding canonical
canonical-auto_upload runtime policy =
    let P = λ (written : OperationPolicy). written.auto_upload ≡ policy.auto_upload in
    OnOk-bind P (normalize_globs runtime.is_blank policy.include_globs) _ (λ include a.
      OnOk-bind P (normalize_globs runtime.is_blank policy.exclude_globs)
        (λ exclude. ok (record policy { include_globs = include; exclude_globs = exclude }))
        (λ exclude b. refl))

-- The Vault's own call, which leaves automatic uploads off.
off-suspended :
    (runtime : Runtime) (rows : List Row) (vault_id : ℕ) (policy written : OperationPolicy)
    (at since : ℕ)
    → canonical runtime policy ≡ ok written
    → policy.auto_upload ≡ false
    → suspended_since (fetch_one (is_row vault_id) rows) ≡ some since
    → suspended_since (
        fetch_one (is_row vault_id) (
          update
            (is_row vault_id)
            (mark_suspension at)
            (upsert (new_row runtime vault_id written) rows)))
      ≡ some since
off-suspended runtime rows vault_id policy written at since e off h =
    let same =
      OnOk-returned (λ (w : OperationPolicy). w.auto_upload ≡ policy.auto_upload) _ written
        (canonical-auto_upload runtime policy) e in
    rw (fetch_one-Written runtime rows vault_id written at)
      (unfold mark_suspension in unfold new_row in rw (same, off, h) refl)

call-suspended :
    (runtime : Runtime) (vaults : List Vault) (rows : List Row) (c : Call) (k since : ℕ)
    → suspended_since (fetch_one (is_row k) rows) ≡ some since
    → c.policy.auto_upload && (c.vault_id == k) ≡ false
    → suspended_since (fetch_one (is_row k) (run_call runtime vaults rows c)) ≡ some since
call-suspended runtime vaults rows c k since h off =
    elim (Result-cases (set_policy runtime vaults rows c.vault_id c.policy c.at)) [
      | inl ((rows', written), e) ↦
          let (same, stored) =
            OnOk-returned (Written runtime rows c.vault_id c.policy c.at) _ (rows', written)
              (set_policy-Written runtime vaults rows c.vault_id c.policy c.at) e in
          let end : run_call runtime vaults rows c
              ≡ update (is_row c.vault_id) (mark_suspension c.at)
                  (upsert (new_row runtime c.vault_id written) rows) =
            rw (run_call, e) stored in
          rw end (elim (Bool-cases (c.vault_id == k)) [
            | inl q ↦
                let here : c.vault_id ≡ k = ground arith in
                let is_off : c.policy.auto_upload ≡ false = ground arith in
                subst
                  (λ z.
                    suspended_since (fetch_one (is_row z) rows) ≡ some since
                    → suspended_since (
                        fetch_one (is_row z) (
                          update (is_row c.vault_id) (mark_suspension c.at)
                            (upsert (new_row runtime c.vault_id written) rows)))
                      ≡ some since)
                  here
                  (off-suspended runtime rows c.vault_id c.policy written c.at since same is_off) h
            | inr q ↦ rw (fetch_one-Written_other runtime rows c.vault_id written c.at k q) h
          ])
      | inr (error, e) ↦
          let end : run_call runtime vaults rows c ≡ rows = rw (run_call, e) refl in rw end h
    ]

-- While no call switches a Vault's automatic uploads on, whatever else calls of `set_policy` for it and for
-- other Vaults write, and whether they are accepted or refused, its suspension keeps the time it began.
pub suspension_kept :
    (runtime : Runtime) (vaults : List Vault) (rows : List Row) (calls : List Call) (k since : ℕ)
    → suspended_since (fetch_one (is_row k) rows) ≡ some since
    → All (λ c. c.policy.auto_upload && (c.vault_id == k) ≡ false) calls
    → suspended_since (fetch_one (is_row k) (run_calls runtime vaults rows calls)) ≡ some since
suspension_kept runtime vaults rows [] k since h offs = h
suspension_kept runtime vaults rows (c ∷ calls) k since h offs =
    suspension_kept runtime vaults (run_call runtime vaults rows c) calls k since
      (call-suspended runtime vaults rows c k since h offs.0) offs.1
