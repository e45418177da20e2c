-- ===== src/Scheduler/Fair.antt =====
-- `select_fair_jobs` (app/services/job_scheduler.py) is fair and fills its limit.
use frostvault.Prelude.{
  ℕ, zero, suc, ◌+◌, ◌≤◌, ◌<◌, Bool, true, false, ◌||◌, ◌≡◌, ◌≢◌, refl, sym, ap, subst, ◌∙◌, ◌⊎◌,
  inl, inr, List, [], ◌∷◌, ◌++◌, ltb, leb, length, All, arith, Bool-cases,
}
use mathlib.Core.List.{append-nil}
use frostvault.Prelude.Table.Sort.{sorted}
use frostvault.Jobs.{Job}
use frostvault.Jobs.Claimable.{requested_before}
use frostvault.Scheduler.{
  ByVault, no_vaults, is_empty, contains, push_all, vault_order, Pass, one_round, new_pass,
  or_sorted, rounds, select_fair_jobs, heads_before,
}
use frostvault.Prelude.Table.Pairwise.{Pairwise}
use frostvault.Scheduler.Turns.{of_vault, turns, Turn, All-contains}
use frostvault.Scheduler.Filing.{first-Turn}
use frostvault.Scheduler.Rounds.{Round, one_round-Round}

-- Every Job of every Vault is selected.
abbrev pub AllSelected : List Job → List Job → Type 0
AllSelected jobs selected = (w : ℕ) → of_vault w selected ≡ of_vault w jobs

-- What a selection from the sorted `jobs` keeps.
record Selection (limit : ℕ) (jobs selected : List Job) : Type 0 where
  oldest : (w : ℕ) → (left : List Job) × (of_vault w selected ++ left ≡ of_vault w jobs)
  fair :
      (v w : ℕ)
      → (turns v selected ≤ suc (turns w selected)) ⊎ (of_vault w selected ≡ of_vault w jobs)
  bounded : length selected ≤ limit
  full : (length selected ≡ limit) ⊎ AllSelected jobs selected

empty-is {ℓ} : {A : Type ℓ} (xs : List A) → is_empty xs ≡ true → xs ≡ []
empty-is [] h = refl
empty-is (x ∷ xs) h = absurd (ground arith)

module _ (jobs : List Job) (k : ℕ) (rest next : List ℕ) (selected : List Job) (b : ByVault)
    (h : Turn jobs k rest next selected b) where
  -- A Vault whose queue is empty has had all its Jobs selected.
  finished : (w : ℕ) → is_empty (b.queue w) ≡ true → of_vault w selected ≡ of_vault w jobs
  finished w e =
      sym (append-nil (of_vault w selected))
      ∙ ap (λ q. of_vault w selected ++ q) (sym (empty-is (b.queue w) e))
      ∙ h.kept w

  Turn-fair :
      (v w : ℕ)
      → (turns v selected ≤ suc (turns w selected)) ⊎ (of_vault w selected ≡ of_vault w jobs)
  Turn-fair v w = elim (Bool-cases (contains w rest)) [
    | inl c ↦
        let own = All-contains (λ w. turns w selected ≡ k) rest w h.waiting c in
        inl (omega (arith, own, h.upper v))
    | inr c ↦ elim (Bool-cases (contains w next)) [
      | inl d ↦
          let own = All-contains (λ w. turns w selected ≡ suc k) next w h.served d in
          inl (omega (arith, own, h.upper v))
      | inr d ↦ inr (finished w (ground (arith, h.covered w, c, d)))
    ]
  ]

  Turn-Selection :
      (limit : ℕ)
      → length selected ≤ limit
      → (length selected ≡ limit) ⊎ AllSelected jobs selected
      → Selection limit jobs selected
  Turn-Selection limit le full = record {
    oldest = λ w. (b.queue w, h.kept w);
    fair = Turn-fair;
    bounded = le;
    full = full;
  }

keys-none :
    (queue : ℕ → List Job) (keys : List ℕ)
    → All (λ w. is_empty (queue w) ≡ false) keys
    → ((w : ℕ) → is_empty (queue w) ≡ true)
    → keys ≡ []
keys-none queue [] a h = refl
keys-none queue (v ∷ keys) a h = absurd (ground (arith, a.0, h v))

-- A whole round is over: those that are served wait for the next one.
Turn-next :
    (jobs : List Job) (k : ℕ) (next : List ℕ) (selected : List Job) (b : ByVault)
    → Turn jobs k [] next selected b
    → Turn jobs (suc k) (or_sorted next b) [] selected b
unfolding vault_order sorted
Turn-next jobs k (v ∷ next) selected b h = record {
  kept = h.kept;
  upper = λ w. omega (arith, h.upper w);
  waiting = h.served;
  served = tt;
  covered = λ w. ground (arith, h.covered w);
  apart = h.again;
  again = tt;
  is_own = h.is_own;
  live = h.live;
  keyed = h.keyed;
}
Turn-next jobs k [] selected b h =
    let no_keys : vault_order b ≡ [] =
      ap (sorted (λ v w. heads_before (b.queue v) (b.queue w) v w))
        (keys-none b.queue b.keys h.live h.covered) in
    record {
      kept = h.kept;
      upper = λ w. omega (arith, h.upper w);
      waiting = subst (All (λ w. turns w selected ≡ suc k)) (sym no_keys) tt;
      served = tt;
      covered = λ w. ground (arith, h.covered w);
      apart = subst (Pairwise (λ (v w : ℕ). v ≢ w)) (sym no_keys) tt;
      again = tt;
      is_own = h.is_own;
      live = h.live;
      keyed = h.keyed;
    }

rounds-full :
    (n limit : ℕ) (order : List ℕ) (selected : List Job) (b : ByVault)
    → limit ≤ length selected
    → rounds n limit order selected b ≡ selected
unfolding rounds
rounds-full zero limit order selected b h = refl
rounds-full (suc n) limit order selected b h =
    let full : ltb (length selected) limit ≡ false = ground arith in rw full refl

module _ (limit : ℕ) (jobs : List Job) (k : ℕ) (before : List Job) (order : List ℕ) (had : Bool)
    (t : Pass) (r : Round limit jobs k before order had t) where
  -- A pass that reached the limit, or that gave no turn to a first Vault, ends the selection.
  Round-full : limit ≤ length t.selected → Selection limit jobs t.selected
  Round-full h =
      Turn-Selection jobs k r.left t.next_order t.selected t.by_vault r.turn limit r.bounded
        (inl (omega (arith, h, r.bounded)))

  Round-idle : t.next_order ≡ [] → Selection limit jobs t.selected
  Round-idle e = elim r.ended [
    | inr h ↦ Round-full h
    | inl l ↦
        let last : Turn jobs k [] [] t.selected t.by_vault =
          subst (λ next. Turn jobs k [] next t.selected t.by_vault) e
            (subst (λ left. Turn jobs k left t.next_order t.selected t.by_vault) l r.turn) in
        Turn-Selection jobs k [] [] t.selected t.by_vault last limit r.bounded
          (inr (λ w. finished jobs k [] [] t.selected t.by_vault last w (last.covered w)))
  ]

longer :
    (before after : List Job) (n limit : ℕ)
    → limit ≤ length before + suc n
    → (false ≡ true) ⊎ (length before < length after)
    → limit ≤ length after + n
longer before after n limit h (inl e) = absurd (ground arith)
longer before after n limit h (inr lt) = omega (arith, h, lt)

rounds-Selection :
    (n limit : ℕ) (jobs : List Job) (k : ℕ) (order : List ℕ) (selected : List Job) (b : ByVault)
    → Turn jobs k order [] selected b
    → length selected ≤ limit
    → limit ≤ length selected + n
    → Selection limit jobs (rounds n limit order selected b)
unfolding rounds
rounds-Selection zero limit jobs k order selected b h le fuel =
    Turn-Selection jobs k order [] selected b h limit le (inl (omega (arith, le, fuel)))
rounds-Selection (suc n) limit jobs k order selected b h le fuel =
    elim (Bool-cases (ltb (length selected) limit)) [
      | inr f ↦
          rw f (Turn-Selection jobs k order [] selected b h limit le (inl (ground (arith, f, le))))
      | inl f ↦ rw f (elim (Bool-cases (is_empty b.keys)) [
        | inl g ↦
            let no_keys = empty-is b.keys g in
            let idle =
              subst (λ ks. (w : ℕ) → (contains w ks || is_empty (b.queue w)) ≡ true) no_keys
                h.keyed in
            rw g (
              Turn-Selection jobs k order [] selected b h limit le
                (inr (λ w. finished jobs k order [] selected b h w (idle w))))
        | inr g ↦
            let t = one_round limit order (new_pass selected b) in
            let r : Round limit jobs k selected [] false t =
              one_round-Round limit jobs k order (new_pass selected b) (ground (arith, f)) h in
            rw g (elim (Bool-cases t.progressed) [
              | inr p ↦ rw p (Round-idle limit jobs k selected [] false t r (r.idle p))
              | inl p ↦ rw p (elim r.ended [
                | inr full ↦
                    rw
                      (rounds-full n limit (or_sorted t.next_order t.by_vault) t.selected t.by_vault
                        full)
                      (Round-full limit jobs k selected [] false t r full)
                | inl l ↦
                    rounds-Selection n limit jobs (suc k) _ t.selected t.by_vault
                      (Turn-next jobs k t.next_order t.selected t.by_vault (
                        subst (λ left. Turn jobs k left t.next_order t.selected t.by_vault) l
                          r.turn))
                      r.bounded (longer selected t.selected n limit fuel (r.grown p))
              ])
            ])
      ])
    ]

select_fair_jobs-Selection :
    (jobs : List Job) (limit : ℕ)
    → Selection limit (sorted requested_before jobs) (select_fair_jobs jobs limit)
unfolding select_fair_jobs sorted
select_fair_jobs-Selection jobs limit =
    let ordered : List Job = sorted requested_before jobs in
    let b : ByVault = push_all no_vaults ordered in
    let first : Turn ordered 0 (vault_order b) [] [] b = first-Turn ordered in
    elim (Bool-cases (leb limit 0 || is_empty jobs)) [
      | inr e ↦ rw e (
          rounds-Selection limit limit ordered 0 (vault_order b) [] b first (omega arith)
            (omega arith))
      | inl e ↦ rw e (
          Turn-Selection ordered 0 (vault_order b) [] [] b first limit (omega arith)
            (elim (Bool-cases (is_empty jobs)) [
              | inr f ↦ inl (ground (arith, e, f))
              | inl f ↦
                  inr (λ w.
                    ap (λ js. of_vault w (sorted requested_before js)) (sym (empty-is jobs f)))
            ]))
    ]

-- Of two Vaults, the first gets at most one turn more than the second in the selection, unless every
-- Job of the second is selected; this holds for any Jobs and any limit.
pub select_fair_jobs-turns :
    (jobs : List Job) (limit v w : ℕ)
    → (turns v (select_fair_jobs jobs limit) ≤ suc (turns w (select_fair_jobs jobs limit)))
      ⊎ (of_vault w (select_fair_jobs jobs limit) ≡ of_vault w (sorted requested_before jobs))
select_fair_jobs-turns jobs limit v w = (select_fair_jobs-Selection jobs limit).fair v w

-- The selection ends with as many Jobs as the limit allows, or with every Job of every Vault, and
-- never with more than the limit; of each Vault it holds the Jobs that were requested first, in that
-- order. As many rounds as the limit are enough.
pub select_fair_jobs-length :
    (jobs : List Job) (limit : ℕ)
    → (length (select_fair_jobs jobs limit) ≤ limit)
      × ((length (select_fair_jobs jobs limit) ≡ limit)
          ⊎ AllSelected (sorted requested_before jobs) (select_fair_jobs jobs limit))
      × ((w : ℕ)
          → (left : List Job) × (of_vault w (select_fair_jobs jobs limit) ++ left
              ≡ of_vault w (sorted requested_before jobs)))
select_fair_jobs-length jobs limit =
    let chosen = select_fair_jobs-Selection jobs limit in
    (chosen.bounded, chosen.full, chosen.oldest)
