-- ===== src/Policies/RoundTrip.antt =====
-- What is set is what is read, and a suspension keeps its start (app/services/operation_policies.py).
use frostvault.Prelude.{
  ℕ, Bool, true, false, not, ◌≡◌, refl, ap, ◌∙◌, Option, none, some, List, [], ◌∷◌, ◌==◌,
  if◌then◌else◌, any, coalesce, opt_map, arith, Bool-cases, Option-cases, inl, inr, Bool-cases,
}
use frostvault.Prelude.Result.{ok, require, OnOk, OnOk-bind, OnOk-returned}
use frostvault.Prelude.Table.{update, fetch_one}
use frostvault.Prelude.Table.Reads.{
  fetch_one-update_self, fetch_one-update_other, fetch_one-append_missing, fetch_one-append_other,
}
use frostvault.Jobs.{Vault}
use frostvault.Policies.{
  Text, vault_not_found, vault_quiesced, Runtime, OperationPolicy, is_empty, validate_policy,
}
use frostvault.Policies.Store.{
  Row, is_row, load_json_list, policy_of, get_policy, new_row, upsert, mark_suspension, canonical,
  is_quiesced, is_missing, set_policy,
}
use frostvault.Policies.Kept.{kept, canonical-kept}

-- The start of the suspension that a row records.
abbrev pub suspended_since : Option Row → Option ℕ
suspended_since none = none
suspended_since (some r) = r.suspended_at

fetch_one-missing :
    (p : Row → Bool) (rows : List Row) → any p rows ≡ false → fetch_one p rows ≡ none
unfolding fetch_one
fetch_one-missing p [] h = refl
fetch_one-missing p (r ∷ rows) h = ground (arith, fetch_one-missing p rows)

fetch_one-none : (p : Row → Bool) (rows : List Row) → fetch_one p rows ≡ none → any p rows ≡ false
unfolding fetch_one
fetch_one-none p [] h = refl
fetch_one-none p (r ∷ rows) h = ground (arith, fetch_one-none p rows)

fetch_one-exists :
    (p : Row → Bool) (rows : List Row) → any p rows ≡ true → (r : Row) × (fetch_one p rows ≡ some r)
fetch_one-exists p rows h = elim (Option-cases (fetch_one p rows)) [
  | inl e ↦ absurd (ground (arith, fetch_one-none p rows e))
  | inr found ↦ found
]

is_row_self : (n : ℕ) → (n == n) ≡ true
is_row_self n = ground arith

fetch_one-upsert :
    (row : Row) (rows : List Row)
    → row.suspended_at ≡ none
    → fetch_one (is_row row.vault_id) (upsert row rows)
      ≡ some (record row { suspended_at = suspended_since (fetch_one (is_row row.vault_id) rows) })
unfolding upsert
fetch_one-upsert row rows h = elim (Bool-cases (any (is_row row.vault_id) rows)) [
  | inl e ↦
      let (r, found) = fetch_one-exists (is_row row.vault_id) rows e in
      rw (e, found)
        (fetch_one-update_self (is_row row.vault_id)
            (λ r. record row { suspended_at = r.suspended_at }) (λ r _. is_row_self row.vault_id)
            rows
          ∙ ap (opt_map (λ r. record row { suspended_at = r.suspended_at })) found)
  | inr e ↦
      rw (e, fetch_one-missing (is_row row.vault_id) rows e)
        (fetch_one-append_missing (is_row row.vault_id) rows row
            (fetch_one-missing (is_row row.vault_id) rows e) (is_row_self row.vault_id)
          ∙ (λ k. some (record row { suspended_at = h k })))
]

fetch_one-upsert_other :
    (k : ℕ) (row : Row) (rows : List Row)
    → (row.vault_id == k) ≡ false
    → fetch_one (is_row k) (upsert row rows) ≡ fetch_one (is_row k) rows
unfolding upsert
fetch_one-upsert_other k row rows h = elim (Bool-cases (any (is_row row.vault_id) rows)) [
  | inl e ↦ rw e (
      fetch_one-update_other (is_row k) (is_row row.vault_id)
        (λ r. record row { suspended_at = r.suspended_at }) (λ r _. h) (λ r q. ground arith) rows)
  | inr e ↦ rw e (fetch_one-append_other (is_row k) rows row h)
]

-- What a call of `set_policy` that returns has written.
abbrev pub Written :
    Runtime → List Row → ℕ → OperationPolicy → ℕ → List Row × OperationPolicy → Type 0
Written runtime rows vault_id policy at x =
    (canonical runtime policy ≡ ok x.1)
    × (x.0
        ≡ update (is_row vault_id) (mark_suspension at)
            (upsert (new_row runtime vault_id x.1) rows))

pub set_policy-Written :
    (runtime : Runtime) (vaults : List Vault) (rows : List Row) (vault_id : ℕ)
    (policy : OperationPolicy) (at : ℕ)
    → OnOk
        (Written runtime rows vault_id policy at)
        (set_policy runtime vaults rows vault_id policy at)
unfolding set_policy
set_policy-Written runtime vaults rows vault_id policy at =
    let P = Written runtime rows vault_id policy at in
    let locked = fetch_one (λ (v : Vault). v.id == vault_id) vaults in
    OnOk-bind P (validate_policy runtime.is_blank policy) _ (λ _ a.
      OnOk-bind P (require (not (is_missing locked)) vault_not_found) _ (λ _ b.
        OnOk-bind P (require (not (is_quiesced locked)) vault_quiesced) _ (λ _ c.
          OnOk-bind P (canonical runtime policy)
            (λ written. ok (
              update (is_row vault_id) (mark_suspension at)
                  (upsert (new_row runtime vault_id written) rows),
              written,
            ))
            (λ written d. (d, refl)))))

-- The row of the Vault after the call.
abbrev pub written_row : Runtime → ℕ → OperationPolicy → ℕ → Option ℕ → Row
written_row runtime vault_id policy at since =
    mark_suspension at (record (new_row runtime vault_id policy) { suspended_at = since })

pub fetch_one-Written :
    (runtime : Runtime) (rows : List Row) (vault_id : ℕ) (policy : OperationPolicy) (at : ℕ)
    → fetch_one (is_row vault_id) (
        update
          (is_row vault_id)
          (mark_suspension at)
          (upsert (new_row runtime vault_id policy) rows))
      ≡ some (
          written_row runtime vault_id policy at
            (suspended_since (fetch_one (is_row vault_id) rows)))
unfolding new_row
fetch_one-Written runtime rows vault_id policy at =
    fetch_one-update_self (is_row vault_id) (mark_suspension at)
      (λ r h. unfold mark_suspension in h) (upsert (new_row runtime vault_id policy) rows)
    ∙ ap (opt_map (mark_suspension at))
        (fetch_one-upsert (new_row runtime vault_id policy) rows refl)

pub fetch_one-Written_other :
    (runtime : Runtime) (rows : List Row) (vault_id : ℕ) (policy : OperationPolicy) (at k : ℕ)
    → (vault_id == k) ≡ false
    → fetch_one (is_row k) (
        update
          (is_row vault_id)
          (mark_suspension at)
          (upsert (new_row runtime vault_id policy) rows))
      ≡ fetch_one (is_row k) rows
unfolding new_row
fetch_one-Written_other runtime rows vault_id policy at k h =
    fetch_one-update_other (is_row k) (is_row vault_id) (mark_suspension at)
      (λ r q. unfold mark_suspension in ground arith) (λ r q. ground arith)
      (upsert (new_row runtime vault_id policy) rows)
    ∙ fetch_one-upsert_other k (new_row runtime vault_id policy) rows h

-- JSON texts that are not empty and read back as what was dumped.
module _ (runtime : Runtime)
    (reads_back : (xs : List Text) → runtime.loads (runtime.dumps xs) ≡ ok xs)
    (not_empty : (xs : List Text) → is_empty (runtime.dumps xs) ≡ false) where
  load-dumps : (xs : List Text) → load_json_list runtime (some (runtime.dumps xs)) ≡ ok xs
  unfolding load_json_list
  load-dumps xs = rw (not_empty xs, reads_back xs) refl

  policy_of-written_row :
      (vault_id : ℕ) (policy : OperationPolicy) (at : ℕ) (since : Option ℕ)
      → policy_of runtime (written_row runtime vault_id policy at since) ≡ ok policy
  unfolding policy_of mark_suspension new_row
  policy_of-written_row vault_id policy at since =
      rw (load-dumps policy.include_globs, load-dumps policy.exclude_globs) refl

  get_policy-Written :
      (rows : List Row) (vault_id : ℕ) (policy : OperationPolicy) (at : ℕ)
      → get_policy runtime
          (update
            (is_row vault_id)
            (mark_suspension at)
            (upsert (new_row runtime vault_id policy) rows))
          vault_id
        ≡ ok policy
  unfolding get_policy
  get_policy-Written rows vault_id policy at =
      rw (get_policy, fetch_one-Written runtime rows vault_id policy at)
        (policy_of-written_row vault_id policy at
          (suspended_since (fetch_one (is_row vault_id) rows)))

-- Where `set_policy` accepts a policy, `get_policy` then reads that policy, with its globs stripped, their
-- backslashes turned into slashes and the empty ones left out; the policy of any other Vault reads as
-- before, and the Vault's automatic uploads are suspended from the call, or from when they were already
-- suspended, exactly if the policy switches them off; the JSON texts are not empty and read back.
pub set_policy-get_policy :
    (runtime : Runtime) (vaults : List Vault) (rows : List Row) (vault_id : ℕ)
    (policy : OperationPolicy) (at k : ℕ) {rows' : List Row} {written : OperationPolicy}
    → ((xs : List Text) → runtime.loads (runtime.dumps xs) ≡ ok xs)
    → ((xs : List Text) → is_empty (runtime.dumps xs) ≡ false)
    → set_policy runtime vaults rows vault_id policy at ≡ ok (rows', written)
    → (vault_id == k) ≡ false
    → (get_policy runtime rows' vault_id ≡ ok (kept runtime policy))
      × (written ≡ kept runtime policy)
      × (get_policy runtime rows' k ≡ get_policy runtime rows k)
      × (suspended_since (fetch_one (is_row vault_id) rows') ≡ (
          if policy.auto_upload
          then none
          else some (coalesce (suspended_since (fetch_one (is_row vault_id) rows)) at)))
unfolding get_policy
set_policy-get_policy runtime vaults rows vault_id policy at k {rows'} {written} reads_back
      not_empty e other =
    let (accepted, stored) =
      OnOk-returned (Written runtime rows vault_id policy at) _ (rows', written)
        (set_policy-Written runtime vaults rows vault_id policy at) e in
    let same : written ≡ kept runtime policy =
      OnOk-returned (λ w. w ≡ kept runtime policy) _ written (canonical-kept runtime policy)
        accepted in
    let since = suspended_since (fetch_one (is_row vault_id) rows) in
    rw (stored, same)
      (
        get_policy-Written runtime reads_back not_empty rows vault_id (kept runtime policy) at,
        refl,
        rw
            (
              get_policy,
              fetch_one-Written_other runtime rows vault_id (kept runtime policy) at k other,
            )
            refl,
        rw (fetch_one-Written runtime rows vault_id (kept runtime policy) at)
            (unfold mark_suspension in unfold new_row in refl),
      )
