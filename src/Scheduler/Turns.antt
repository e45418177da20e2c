-- ===== src/Scheduler/Turns.antt =====
-- What a round of `select_fair_jobs` (app/services/job_scheduler.py) keeps: no Vault is two turns ahead
-- of one that waits.
use frostvault.Prelude.{
  ℕ, suc, ◌+◌, ◌≤◌, Bool, true, false, ◌||◌, ◌≡◌, ◌≢◌, refl, sym, ap, subst, ◌∙◌, ◌==◌, List, [],
  ◌∷◌, ◌++◌, if◌then◌else◌, any-append, length, length-append, All, arith, Bool-cases, inl, inr,
}
use mathlib.Core.List.{append_assoc, append-nil}
use frostvault.Prelude.Table.{select, delete}
use frostvault.Prelude.Table.Reads.{select-append}
use frostvault.Prelude.Table.Pairwise.{Pairwise, All-weaken, All-zip, All-append}
use frostvault.Jobs.{Job}
use frostvault.Scheduler.{ByVault, is_empty, contains, set_queue}

-- The Jobs of the Vault, in the order of the list.
abbrev pub of_vault : ℕ → List Job → List Job
of_vault v jobs = select (λ j. j.vault_id == v) jobs

-- The turns that the Vault has had.
abbrev pub turns : ℕ → List Job → ℕ
turns v selected = length (of_vault v selected)

pub All-contains {ℓ} :
    (P : ℕ → Type ℓ) (vs : List ℕ) (w : ℕ) → All P vs → contains w vs ≡ true → P w
All-contains P [] w a h = absurd (ground arith)
All-contains P (v ∷ vs) w a h = elim (Bool-cases (v == w)) [
  | inl e ↦ let same : v ≡ w = ground arith in subst P same a.0
  | inr e ↦ All-contains P vs w a.1 (ground arith)
]

-- In the round after `k` whole rounds: `rest` waits for its turn, `next` has had it and has Jobs
-- left. `jobs` are the Jobs in the order of their requests.
pub record Turn (jobs : List Job) (k : ℕ) (rest next : List ℕ) (selected : List Job) (b : ByVault)
    : Type 0 where
  pub kept : (w : ℕ) → of_vault w selected ++ b.queue w ≡ of_vault w jobs
  pub upper : (w : ℕ) → turns w selected ≤ suc k
  pub waiting : All (λ w. turns w selected ≡ k) rest
  pub served : All (λ w. turns w selected ≡ suc k) next
  pub covered : (w : ℕ) → (contains w rest || contains w next || is_empty (b.queue w)) ≡ true
  pub apart : Pairwise (λ (v w : ℕ). v ≢ w) rest
  pub again : Pairwise (λ (v w : ℕ). v ≢ w) next
  pub is_own : (w : ℕ) → All (λ (j : Job). j.vault_id ≡ w) (b.queue w)
  pub live : All (λ w. is_empty (b.queue w) ≡ false) b.keys
  pub keyed : (w : ℕ) → (contains w b.keys || is_empty (b.queue w)) ≡ true

All-delete {ℓ κ} :
    {A : Type κ} (P Q : A → Type ℓ) (q : A → Bool)
    → ((x : A) → q x ≡ false → P x → Q x)
    → (xs : List A) → All P xs
    → All Q (delete q xs)
unfolding delete
All-delete P Q q h [] a = tt
All-delete P Q q h (x ∷ xs) a = elim (Bool-cases (q x)) [
  | inl e ↦ rw e (All-delete P Q q h xs a.1)
  | inr e ↦ rw e (h x e a.0, All-delete P Q q h xs a.1)
]

contains-delete :
    (v w : ℕ) (vs : List ℕ) → w == v ≡ false → contains w (delete (λ u. u == v) vs) ≡ contains w vs
unfolding delete
contains-delete v w [] h = refl
contains-delete v w (u ∷ vs) h = ground (arith, contains-delete v w vs h)

pub Pairwise-snoc :
    (vs : List ℕ) (v : ℕ)
    → All (λ w. w ≢ v) vs
    → Pairwise (λ (v w : ℕ). v ≢ w) vs
    → Pairwise (λ (v w : ℕ). v ≢ w) (vs ++ (v ∷ []))
Pairwise-snoc [] v a p = (tt, tt)
Pairwise-snoc (w ∷ vs) v a p =
    (All-append (λ u. w ≢ u) vs (v ∷ []) p.0 (a.0, tt), Pairwise-snoc vs v a.1 p.1)

module _ (v : ℕ) (rest : List Job) (b : ByVault) where
  queue_self : (w : ℕ) → w == v ≡ true → (set_queue v rest b).queue w ≡ rest
  unfolding set_queue
  queue_self w e = rw e refl

  queue_other : (w : ℕ) → w == v ≡ false → (set_queue v rest b).queue w ≡ b.queue w
  unfolding set_queue
  queue_other w e = rw e refl

  set_queue-live :
      All (λ w. is_empty (b.queue w) ≡ false) b.keys
      → All (λ w. is_empty ((set_queue v rest b).queue w) ≡ false) (set_queue v rest b).keys
  unfolding set_queue
  set_queue-live a = elim (Bool-cases (is_empty rest)) [
    | inl e ↦ rw e (
        All-delete (λ w. is_empty (b.queue w) ≡ false)
          (λ w. is_empty ((set_queue v rest b).queue w) ≡ false) (λ u. u == v) (λ w n l. rw n l)
          b.keys a)
    | inr e ↦ rw e (
        All-weaken (λ w. is_empty (b.queue w) ≡ false)
          (λ w. is_empty ((set_queue v rest b).queue w) ≡ false) (λ w l. ground (arith, l, e))
          b.keys a)
  ]

  set_queue-keyed :
      (is_empty rest || contains v b.keys) ≡ true
      → ((w : ℕ) → (contains w b.keys || is_empty (b.queue w)) ≡ true)
      → (w : ℕ)
      → (contains w (set_queue v rest b).keys || is_empty ((set_queue v rest b).queue w)) ≡ true
  unfolding set_queue
  set_queue-keyed own k w = elim (Bool-cases (w == v)) [
    | inl e ↦
        let same : v ≡ w = ground arith in
        let own_w = subst (λ u. (is_empty rest || contains u b.keys) ≡ true) same own in
        rw e (elim (Bool-cases (is_empty rest)) [
          | inl f ↦ ground (arith, f)
          | inr f ↦ rw f (ground (arith, own_w, f))
        ])
    | inr e ↦ rw e (ground (arith, k w, contains-delete v w b.keys e))
  ]

module _ (jobs : List Job) (k v : ℕ) (rest next : List ℕ) (selected : List Job) (b : ByVault)
    (h : Turn jobs k (v ∷ rest) next selected b) where
  -- A Vault without a queue is passed over.
  pub Turn-drop : b.queue v ≡ [] → Turn jobs k rest next selected (set_queue v [] b)
  Turn-drop e =
      let own : (w : ℕ) → w == v ≡ true → b.queue w ≡ [] =
        λ w s. subst (λ u. b.queue u ≡ []) (let same : v ≡ w = ground arith in same) e in
      let same : (w : ℕ) → (set_queue v [] b).queue w ≡ b.queue w = λ w.
        elim (Bool-cases (w == v)) [
          | inl s ↦ queue_self v [] b w s ∙ sym (own w s)
          | inr n ↦ queue_other v [] b w n
        ] in
      record {
        kept = λ w. ap (λ q. of_vault w selected ++ q) (same w) ∙ h.kept w;
        upper = h.upper;
        waiting = h.waiting.1;
        served = h.served;
        covered = λ w. rw (same w) (ground (arith, h.covered w, own w));
        apart = h.apart.1;
        again = h.again;
        is_own = λ w. subst (All (λ (j : Job). j.vault_id ≡ w)) (sym (same w)) (h.is_own w);
        live = set_queue-live v [] b h.live;
        keyed = set_queue-keyed v [] b refl h.keyed;
      }

  -- The Vault whose turn it is gets its oldest Job.
  module _ (j : Job) (js : List Job) (e : b.queue v ≡ j ∷ js) where
    abbrev pub after : ByVault
    after = set_queue v js b

    abbrev pub next_after : List ℕ
    next_after = if is_empty js then next else next ++ (v ∷ [])

    own_job : j.vault_id ≡ v
    own_job = (subst (All (λ (j : Job). j.vault_id ≡ v)) e (h.is_own v)).0

    of_vault-take :
        (w : ℕ)
        → of_vault w (selected ++ (j ∷ [])) ≡ of_vault w selected ++ (if w == v then j ∷ [] else [])
    unfolding select
    of_vault-take w =
        let same : (j.vault_id == w) ≡ (w == v) = ground (arith, own_job) in
        select-append (λ j. j.vault_id == w) selected (j ∷ []) ∙ rw same refl

    turns-take :
        (w : ℕ) → turns w (selected ++ (j ∷ [])) ≡ turns w selected + (if w == v then 1 else 0)
    turns-take w =
        ap length (of_vault-take w)
        ∙ length-append (of_vault w selected) (if w == v then j ∷ [] else [])
        ∙ elim (Bool-cases (w == v)) [ inl s ↦ rw s refl | inr s ↦ rw s refl ]

    kept-take : (w : ℕ) → of_vault w (selected ++ (j ∷ [])) ++ after.queue w ≡ of_vault w jobs
    kept-take w = rw (of_vault-take w) (elim (Bool-cases (w == v)) [
      | inl s ↦
          let same : v ≡ w = ground arith in
          rw s (
            rw (queue_self v js b w s) (
              append_assoc (of_vault w selected) (j ∷ []) js
              ∙ ap (λ q. of_vault w selected ++ q) (sym (subst (λ u. b.queue u ≡ j ∷ js) same e))
              ∙ h.kept w))
      | inr n ↦ rw n (
          rw (queue_other v js b w n)
            (ap (λ x. x ++ b.queue w) (append-nil (of_vault w selected)) ∙ h.kept w))
    ])

    -- A Vault that has had its turn in this round is another one.
    has_served : (w : ℕ) → turns w selected ≡ suc k → turns w (selected ++ (j ∷ [])) ≡ suc k
    has_served w t = elim (Bool-cases (w == v)) [
      | inr n ↦ ground (arith, turns-take w, n, t)
      | inl s ↦ absurd (
          let same : v ≡ w = ground arith in
          let twice : turns w selected ≡ k = subst (λ u. turns u selected ≡ k) same h.waiting.0 in
          omega (arith, twice, t))
    ]

    served-take : All (λ w. turns w (selected ++ (j ∷ [])) ≡ suc k) next_after
    served-take =
        let before : All (λ w. turns w (selected ++ (j ∷ [])) ≡ suc k) next =
          All-weaken (λ w. turns w selected ≡ suc k) (λ w. turns w (selected ++ (j ∷ [])) ≡ suc k)
            has_served next h.served in
        let own : turns v (selected ++ (j ∷ [])) ≡ suc k =
          ground (arith, turns-take v, h.waiting.0) in
        elim (Bool-cases (is_empty js)) [
          | inl f ↦ rw f before
          | inr f ↦ rw f (
              All-append (λ w. turns w (selected ++ (j ∷ [])) ≡ suc k) next (v ∷ []) before
                (own, tt))
        ]

    again-take : Pairwise (λ (v w : ℕ). v ≢ w) next_after
    again-take = elim (Bool-cases (is_empty js)) [
      | inl f ↦ rw f h.again
      | inr f ↦ rw f (
          Pairwise-snoc next v
            (All-weaken (λ w. turns w selected ≡ suc k) (λ w. w ≢ v)
              (λ w t same.
                let one = subst (λ u. turns u selected ≡ suc k) same t in
                omega (arith, one, h.waiting.0))
              next h.served)
            h.again)
    ]

    contains-next : (w : ℕ) → contains w next ≡ true → contains w next_after ≡ true
    contains-next w c = elim (Bool-cases (is_empty js)) [
      | inl f ↦ rw f c
      | inr f ↦ rw f (ground (arith, any-append (λ u. u == w) next (v ∷ []), c))
    ]

    covered-take :
        (w : ℕ) → (contains w rest || contains w next_after || is_empty (after.queue w)) ≡ true
    covered-take w = elim (Bool-cases (w == v)) [
      | inr n ↦ rw (queue_other v js b w n) (ground (arith, h.covered w, n, contains-next w))
      | inl s ↦ rw (queue_self v js b w s) (elim (Bool-cases (is_empty js)) [
        | inl f ↦ ground (arith, f)
        | inr f ↦ rw f (ground (arith, any-append (λ u. u == w) next (v ∷ []), s))
      ])
    ]

    own-take : (w : ℕ) → All (λ (j : Job). j.vault_id ≡ w) (after.queue w)
    own-take w = elim (Bool-cases (w == v)) [
      | inr n ↦ rw (queue_other v js b w n) (h.is_own w)
      | inl s ↦
          let same : v ≡ w = ground arith in
          rw (queue_self v js b w s)
            (subst (All (λ (j : Job). j.vault_id ≡ w)) (subst (λ u. b.queue u ≡ j ∷ js) same e)
              (h.is_own w)).1
    ]

    pub Turn-take : Turn jobs k rest next_after (selected ++ (j ∷ [])) after
    Turn-take = record {
      kept = kept-take;
      upper = λ w. ground (arith, turns-take w, h.upper w, h.waiting.0);
      waiting =
          All-zip (λ w. v ≢ w) (λ w. turns w selected ≡ k) (λ w. turns w (selected ++ (j ∷ [])) ≡ k)
            (λ w n t. ground (arith, turns-take w, n, t)) rest h.apart.0 h.waiting.1;
      served = served-take;
      covered = covered-take;
      apart = h.apart.1;
      again = again-take;
      is_own = own-take;
      live = set_queue-live v js b h.live;
      keyed = set_queue-keyed v js b (ground (arith, h.keyed v, e)) h.keyed;
    }
