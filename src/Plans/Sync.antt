-- ===== src/Plans/Sync.antt =====
-- Synchronizing a bucket's lifecycle rules (app/services/s3_lifecycle_rules.py) touches only the
-- application's own rules, and doing it again changes nothing.
use frostvault.Prelude.{
  all-append, ℕ, Bool, true, not, ◌≤◌, ◌≡◌, refl, sym, ap, ◌∙◌, some, List, [], ◌∷◌, ◌++◌, length,
  all, Bool-cases, inl, inr, arith,
}
use frostvault.Prelude.Table.{select}
use frostvault.Plans.Rules.{
  Rule, ok, max_bucket_lifecycle_rules, incomplete_upload_rule, is_application_lifecycle_rule,
  merge_lifecycle_rules, enforce_rule_limit, sync_bucket_lifecycle_rules,
}

select-append {ℓ} :
    {A : Type ℓ} (p : A → Bool) (xs ys : List A) → select p (xs ++ ys) ≡ select p xs ++ select p ys
unfolding select
select-append p [] ys = refl
select-append p (x ∷ xs) ys = elim (Bool-cases (p x)) [
  | inl m ↦ rw (m, select-append p xs ys)
  | inr m ↦ rw (m, select-append p xs ys)
]

select_again {ℓ} : {A : Type ℓ} (p : A → Bool) (xs : List A) → select p (select p xs) ≡ select p xs
unfolding select
select_again p [] = refl
select_again p (x ∷ xs) = elim (Bool-cases (p x)) [
  | inl m ↦ rw (m, m, select_again p xs)
  | inr m ↦ rw (m, select_again p xs)
]

select_none {ℓ} :
    {A : Type ℓ} (p : A → Bool) (xs : List A) → all p xs ≡ true → select (λ x. not (p x)) xs ≡ []
unfolding select
select_none p [] h = refl
select_none p (x ∷ xs) h = ground (arith, select_none p xs)

append-nil {ℓ} : {A : Type ℓ} (xs : List A) → xs ++ [] ≡ xs
append-nil [] = refl
append-nil (x ∷ xs) = ap (λ ys. x ∷ ys) (append-nil xs)

abbrev pub is_foreign : Rule → Bool
is_foreign r = not (is_application_lifecycle_rule r)

own_rules :
    (app_rules : List Rule)
    → all is_application_lifecycle_rule app_rules ≡ true
    → all is_application_lifecycle_rule (app_rules ++ (incomplete_upload_rule ∷ [])) ≡ true
unfolding is_application_lifecycle_rule incomplete_upload_rule
own_rules app_rules h =
    all-append is_application_lifecycle_rule app_rules (incomplete_upload_rule ∷ []) h refl

merge-foreign :
    (existing own : List Rule)
    → all is_application_lifecycle_rule own ≡ true
    → select is_foreign (merge_lifecycle_rules existing own) ≡ select is_foreign existing
unfolding merge_lifecycle_rules
merge-foreign existing own h = rw (
  select-append is_foreign (select is_foreign existing) own,
  select_again is_foreign existing,
  select_none is_application_lifecycle_rule own h,
  append-nil (select is_foreign existing),
)

merge_split :
    (existing own : List Rule)
    → merge_lifecycle_rules existing own ≡ select is_foreign existing ++ own
unfolding merge_lifecycle_rules
merge_split existing own = refl

merge-again :
    (existing own : List Rule)
    → all is_application_lifecycle_rule own ≡ true
    → merge_lifecycle_rules (merge_lifecycle_rules existing own) own
      ≡ merge_lifecycle_rules existing own
merge-again existing own h =
    merge_split (merge_lifecycle_rules existing own) own
    ∙ ap (λ rules. rules ++ own) (merge-foreign existing own h)
    ∙ sym (merge_split existing own)

enforced :
    (rules rules' : List Rule) (n : ℕ)
    → enforce_rule_limit rules n ≡ ok rules'
    → (rules ≡ rules') × (length rules' ≤ n)
unfolding enforce_rule_limit
enforced rules rules' n h = ground arith

sync_merged :
    (existing app_rules : List Rule)
    → sync_bucket_lifecycle_rules (some existing) app_rules
      ≡ enforce_rule_limit
          (merge_lifecycle_rules existing (app_rules ++ (incomplete_upload_rule ∷ [])))
          max_bucket_lifecycle_rules
unfolding sync_bucket_lifecycle_rules
sync_merged existing app_rules = refl

-- Where all rules of the plans are recognized as the application's, a synchronization that
-- succeeds puts at most 1000 rules, keeps the rules that are not the application's as they are and
-- in their order, and puts the same rules when it is run again.
pub sync_again :
    (existing app_rules rules : List Rule)
    → all is_application_lifecycle_rule app_rules ≡ true
    → sync_bucket_lifecycle_rules (some existing) app_rules ≡ ok rules
    → (length rules ≤ max_bucket_lifecycle_rules)
      × (select is_foreign rules ≡ select is_foreign existing)
      × (sync_bucket_lifecycle_rules (some rules) app_rules ≡ ok rules)
sync_again existing app_rules rules h e =
    let own = app_rules ++ (incomplete_upload_rule ∷ []) in
    let all_own = own_rules app_rules h in
    let (same, bound) =
      enforced (merge_lifecycle_rules existing own) rules max_bucket_lifecycle_rules
        (sym (sync_merged existing app_rules) ∙ e) in
    let again : merge_lifecycle_rules rules own ≡ merge_lifecycle_rules existing own =
      ap (λ x. merge_lifecycle_rules x own) (sym same) ∙ merge-again existing own all_own in
    (
      bound,
      ap (select is_foreign) (sym same) ∙ merge-foreign existing own all_own,
      sync_merged rules app_rules
          ∙ ap (λ x. enforce_rule_limit x max_bucket_lifecycle_rules) again
          ∙ sym (sync_merged existing app_rules)
          ∙ e,
    )
