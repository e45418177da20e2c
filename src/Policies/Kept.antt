-- ===== src/Policies/Kept.antt =====
-- The policy that a call of `set_policy` keeps (app/services/operation_policies.py): its globs trimmed.
use frostvault.Prelude.{not, ◌≡◌, refl, ap, List, [], ◌∷◌, map, Bool-cases, inl, inr}
use frostvault.Prelude.Result.{OnOk, OnOk-bind, OnOk-require, OnOk-returned}
use frostvault.Prelude.Table.{select}
use frostvault.Policies.{
  Text, absolute_glob, Runtime, OperationPolicy, normal_glob, starts_with_slash, is_empty,
  normalize_globs,
}
use frostvault.Policies.Store.{canonical}

-- The globs that are kept: each stripped, with slashes for backslashes, and those that are empty left out.
abbrev pub kept_globs : Runtime → List Text → List Text
kept_globs runtime globs =
    select (λ text. not (is_empty text)) (map (normal_glob runtime.is_blank) globs)

-- The policy as it is kept.
abbrev pub kept : Runtime → OperationPolicy → OperationPolicy
kept runtime policy = record policy {
  include_globs = kept_globs runtime policy.include_globs;
  exclude_globs = kept_globs runtime policy.exclude_globs;
}

normalize_globs-kept_globs :
    (runtime : Runtime) (globs : List Text)
    → OnOk (λ kept. kept ≡ kept_globs runtime globs) (normalize_globs runtime.is_blank globs)
unfolding normalize_globs select
normalize_globs-kept_globs runtime [] = refl
normalize_globs-kept_globs runtime (value ∷ values) =
    let text = normal_glob runtime.is_blank value in
    let P = λ (kept : List Text). kept ≡ text ∷ kept_globs runtime values in
    let rest = normalize_globs-kept_globs runtime values in
    elim (Bool-cases (is_empty text)) [
      | inl e ↦ rw (normalize_globs, e) rest
      | inr e ↦
          rw (normalize_globs, e)
            (OnOk-require P (not (starts_with_slash text)) absolute_glob _ (λ a.
              OnOk-bind P (normalize_globs runtime.is_blank values) _ (λ globs b.
                let same : globs ≡ kept_globs runtime values =
                  OnOk-returned (λ globs. globs ≡ kept_globs runtime values) _ globs rest b in
                ap (λ l. text ∷ l) same)))
    ]

pub canonical-kept :
    (runtime : Runtime) (policy : OperationPolicy)
    → OnOk (λ written. written ≡ kept runtime policy) (canonical runtime policy)
unfolding canonical
canonical-kept runtime policy =
    let P = λ (written : OperationPolicy). written ≡ kept runtime policy in
    OnOk-bind P (normalize_globs runtime.is_blank policy.include_globs) _ (λ include a.
      let same =
        OnOk-returned (λ globs. globs ≡ kept_globs runtime policy.include_globs) _ include
          (normalize_globs-kept_globs runtime policy.include_globs) a in
      OnOk-bind P (normalize_globs runtime.is_blank policy.exclude_globs) _ (λ exclude b.
        let same' =
          OnOk-returned (λ globs. globs ≡ kept_globs runtime policy.exclude_globs) _ exclude
            (normalize_globs-kept_globs runtime policy.exclude_globs) b in
        rw (same, same') refl))
