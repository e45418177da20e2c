-- ===== src/Scheduler/Filing.antt =====
-- What the grouping of `select_fair_jobs` (app/services/job_scheduler.py) makes of the sorted Jobs.
use frostvault.Prelude.{
  ℕ, Bool, true, false, ◌||◌, ◌≡◌, ◌≢◌, refl, sym, ap, subst, ◌∙◌, ◌==◌, List, [], ◌∷◌, ◌++◌,
  any-append, All, arith, Bool-cases, inl, inr,
}
use mathlib.Core.List.{append_assoc, append-nil}
use frostvault.Prelude.Table.{select}
use frostvault.Prelude.Table.Sort.{insert, sorted}
use frostvault.Prelude.Table.Reads.{select-append, All-select}
use frostvault.Prelude.Table.Pairwise.{Pairwise, Pairwise-sorted, All-append, All-weaken}
use frostvault.Jobs.{Job}
use frostvault.Scheduler.{
  ByVault, no_vaults, is_empty, contains, push, push_all, heads_before, vault_order,
}
use frostvault.Scheduler.Turns.{of_vault, Turn, Pairwise-snoc}

-- The queues hold the Jobs of `filed`.
record Filed (filed : List Job) (b : ByVault) : Type 0 where
  queues : (w : ℕ) → b.queue w ≡ of_vault w filed
  keyed : (w : ℕ) → (contains w b.keys || is_empty (b.queue w)) ≡ true
  live : All (λ w. is_empty (b.queue w) ≡ false) b.keys
  apart : Pairwise (λ (v w : ℕ). v ≢ w) b.keys

is_empty-snoc {ℓ} : {A : Type ℓ} (xs : List A) (x : A) → is_empty (xs ++ (x ∷ [])) ≡ false
is_empty-snoc [] x = refl
is_empty-snoc (y ∷ xs) x = refl

missing-apart : (vs : List ℕ) (v : ℕ) → contains v vs ≡ false → All (λ w. w ≢ v) vs
missing-apart [] v h = tt
missing-apart (w ∷ vs) v h = (λ e. ground (arith, e, h), missing-apart vs v (ground (arith, h)))

module _ (filed : List Job) (b : ByVault) (j : Job) (h : Filed filed b) where
  push-queues : (w : ℕ) → (push b j).queue w ≡ of_vault w (filed ++ (j ∷ []))
  unfolding push select
  push-queues w = sym (
      select-append (λ j. j.vault_id == w) filed (j ∷ []) ∙ elim (Bool-cases (w == j.vault_id)) [
        | inl s ↦
            let own : j.vault_id == w ≡ true = ground (arith, s) in
            rw s (rw own (ap (λ q. q ++ (j ∷ [])) (sym (h.queues w))))
        | inr s ↦
            let other : j.vault_id == w ≡ false = ground (arith, s) in
            rw s (rw other (append-nil (of_vault w filed) ∙ sym (h.queues w)))
      ])

  push-grows : (w : ℕ) → is_empty (b.queue w) ≡ false → is_empty ((push b j).queue w) ≡ false
  unfolding push
  push-grows w e = elim (Bool-cases (w == j.vault_id)) [
    | inl s ↦ rw s (is_empty-snoc (b.queue w) j)
    | inr s ↦ rw s e
  ]

  push-own : is_empty ((push b j).queue j.vault_id) ≡ false
  unfolding push
  push-own =
      let same : j.vault_id == j.vault_id ≡ true = ground arith in
      rw same (is_empty-snoc (b.queue j.vault_id) j)

  push-live : All (λ w. is_empty ((push b j).queue w) ≡ false) (push b j).keys
  unfolding push
  push-live =
      let grown =
        All-weaken (λ w. is_empty (b.queue w) ≡ false) (λ w. is_empty ((push b j).queue w) ≡ false)
          push-grows b.keys h.live in
      elim (Bool-cases (contains j.vault_id b.keys)) [
        | inl c ↦ rw c grown
        | inr c ↦ rw c (
            All-append (λ w. is_empty ((push b j).queue w) ≡ false) b.keys (j.vault_id ∷ []) grown
              (push-own, tt))
      ]

  push-apart : Pairwise (λ (v w : ℕ). v ≢ w) (push b j).keys
  unfolding push
  push-apart = elim (Bool-cases (contains j.vault_id b.keys)) [
    | inl c ↦ rw c h.apart
    | inr c ↦ rw c (Pairwise-snoc b.keys j.vault_id (missing-apart b.keys j.vault_id c) h.apart)
  ]

  push-keyed : (w : ℕ) → (contains w (push b j).keys || is_empty ((push b j).queue w)) ≡ true
  unfolding push
  push-keyed w = elim (Bool-cases (contains j.vault_id b.keys)) [
    | inl c ↦ rw c (elim (Bool-cases (w == j.vault_id)) [
      | inl s ↦
          let same : j.vault_id ≡ w = ground arith in
          let own = subst (λ u. contains u b.keys ≡ true) same c in ground (arith, own)
      | inr s ↦ rw s (h.keyed w)
    ])
    | inr c ↦
        let grown = any-append (λ u. u == w) b.keys (j.vault_id ∷ []) in
        rw c (elim (Bool-cases (w == j.vault_id)) [
          | inl s ↦ ground (arith, grown, s)
          | inr s ↦ rw s (ground (arith, grown, h.keyed w))
        ])
  ]

  push-Filed : Filed (filed ++ (j ∷ [])) (push b j)
  push-Filed = record {
    queues = push-queues;
    keyed = push-keyed;
    live = push-live;
    apart = push-apart;
  }

push_all-Filed :
    (jobs filed : List Job) (b : ByVault) → Filed filed b → Filed (filed ++ jobs) (push_all b jobs)
unfolding push_all
push_all-Filed [] filed b h = subst (λ f. Filed f b) (sym (append-nil filed)) h
push_all-Filed (j ∷ jobs) filed b h =
    subst (λ f. Filed f (push_all (push b j) jobs)) (append_assoc filed (j ∷ []) jobs)
      (push_all-Filed jobs (filed ++ (j ∷ [])) (push b j) (push-Filed filed b j h))

contains-insert :
    (before : ℕ → ℕ → Bool) (w v : ℕ) (vs : List ℕ)
    → contains w (insert before v vs) ≡ contains w (v ∷ vs)
unfolding insert
contains-insert before w v [] = refl
contains-insert before w v (u ∷ vs) = ground (arith, contains-insert before w v vs)

contains-sorted :
    (before : ℕ → ℕ → Bool) (w : ℕ) (vs : List ℕ) → contains w (sorted before vs) ≡ contains w vs
unfolding sorted
contains-sorted before w [] = refl
contains-sorted before w (v ∷ vs) =
    ground (arith, contains-insert before w v (sorted before vs), contains-sorted before w vs)

All-always {ℓ} : (P : ℕ → Type ℓ) → ((w : ℕ) → P w) → (vs : List ℕ) → All P vs
All-always P h [] = tt
All-always P h (v ∷ vs) = (h v, All-always P h vs)

-- The first round starts with the sorted Vaults, of which none has had a turn.
pub first-Turn :
    (jobs : List Job)
    → Turn jobs 0 (vault_order (push_all no_vaults jobs)) [] [] (push_all no_vaults jobs)
unfolding select vault_order
first-Turn jobs =
    let b : ByVault = push_all no_vaults jobs in
    let filed : Filed jobs b =
      push_all-Filed jobs [] no_vaults
        (record { queues = λ w. refl; keyed = λ w. refl; live = tt; apart = tt }) in
    record {
      kept = filed.queues;
      upper = λ w. omega arith;
      waiting = All-always _ (λ w. refl) (vault_order b);
      served = tt;
      covered = λ w. ground (
        arith,
        filed.keyed w,
        contains-sorted (λ v w. heads_before (b.queue v) (b.queue w) v w) w b.keys,
      );
      apart = Pairwise-sorted (λ (v w : ℕ). v ≢ w) (λ v w n e. n (sym e)) _ b.keys filed.apart;
      again = tt;
      is_own = λ w.
          subst (All (λ (j : Job). j.vault_id ≡ w)) (sym (filed.queues w))
            (All-select _ _ (λ r h. ground arith) jobs);
      live = filed.live;
      keyed = filed.keyed;
    }
