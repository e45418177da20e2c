-- ===== src/Events/Mailbox.antt =====
-- A subscriber's mailbox (app/services/catalog_event_hub.py) refines the list of the signals that were
-- offered: what its reader takes and what it holds tell the same as all of them.
use frostvault.Prelude.{
  ℕ, String, Bool, true, false, ◌&&◌, ◌||◌, ◌≡◌, refl, ap, ◌∙◌, Option, none, some, List, [], ◌∷◌,
  ◌++◌, ◌==◌, all, max, opt_all, arith,
}
use frostvault.Prelude.Result.{Result, ok, ◌>>=◌}
use frostvault.Events.{
  Texts, Error, Signal, contains, Subscriber, new_subscriber, offer_pending, offer, take_next,
}
use frostvault.Events.Domains.{is_normal}
use frostvault.Events.Merge.{holding, both, both-is_normal, contains-both, offer-holding}

-- What happens to a mailbox: a signal is offered, or its reader takes what it holds.
pub data Step : Type 0 where
  offers : Signal → Step
  takes : Step

-- The signals that the reader has taken, the last one first.
abbrev pub run_step :
    Texts → Subscriber × List Signal → Step → Result Error (Subscriber × List Signal)
run_step texts (mailbox, taken) (offers s) = do next ← offer texts mailbox s; ok (next, taken)
run_step texts (mailbox, taken) takes = elim (take_next mailbox) [
  | none ↦ ok (mailbox, taken)
  | some (none, rest) ↦ ok (rest, taken)
  | some (some s, rest) ↦ ok (rest, s ∷ taken)
]

abbrev pub run_steps :
    Texts → Subscriber × List Signal → List Step → Result Error (Subscriber × List Signal)
run_steps texts x [] = ok x
run_steps texts x (o ∷ os) = run_step texts x o >>= λ y. run_steps texts y os

-- Signals before which those that are offered are put, the last one first.
abbrev pub with_offered : List Step → List Signal → List Signal
with_offered [] ss = ss
with_offered (offers s ∷ os) ss = with_offered os (s ∷ ss)
with_offered (takes ∷ os) ss = with_offered os ss

abbrev pub unread : Option Signal → List Signal
unread none = []
unread (some p) = p ∷ []

-- What signals tell together: whether to reload a domain, the newest revision, and whether there is a gap.
abbrev pub tells : String → List Signal → Bool × ℕ × Bool
tells d [] = (false, 0, false)
tells d (s ∷ ss) = (
  contains d s.domains || (tells d ss).0,
  max s.revision (tells d ss).1,
  s.has_gap || (tells d ss).2,
)

-- A signal of the Vault, as `signal_from_event` makes it.
abbrev pub is_of_vault : Texts → ℕ → Signal → Bool
is_of_vault texts vault_id s = (s.vault_id == vault_id) && is_normal texts s

-- Every signal that the step offers is one of the Vault.
abbrev pub offers_of_vault : Texts → ℕ → Step → Bool
offers_of_vault texts vault_id (offers s) = is_of_vault texts vault_id s
offers_of_vault texts vault_id takes = true

tells-with_offered :
    (d : String) (os : List Step) (xs ys : List Signal)
    → tells d xs ≡ tells d ys
    → tells d (with_offered os xs) ≡ tells d (with_offered os ys)
tells-with_offered d [] xs ys h = h
tells-with_offered d (offers s ∷ os) xs ys h =
    tells-with_offered d os (s ∷ xs) (s ∷ ys)
      (λ i. (contains d s.domains || (h i).0, max s.revision (h i).1, s.has_gap || (h i).2))
tells-with_offered d (takes ∷ os) xs ys h = tells-with_offered d os xs ys h

or_swap : (a b c : Bool) → ((a || b) || c) ≡ (b || (a || c))
or_swap a b c = ground arith

max_swap : (a b c : ℕ) → max (max a b) c ≡ max b (max a c)
max_swap a b c = ground arith

tells-both :
    (texts : Texts) (d : String) (p s : Signal) (ss : List Signal)
    → is_normal texts p ≡ true
    → is_normal texts s ≡ true
    → tells d (both texts p s ∷ ss) ≡ tells d (s ∷ p ∷ ss)
unfolding both
tells-both texts d p s ss h k = λ i. (
  (ap (λ b. b || (tells d ss).0) (contains-both texts p s h k d)
        ∙ or_swap (contains d p.domains) (contains d s.domains) (tells d ss).0)
      i,
  max_swap p.revision s.revision (tells d ss).1 i,
  or_swap p.has_gap s.has_gap (tells d ss).2 i,
)

-- Where the mailbox stands after the steps.
abbrev Delivers : Texts → ℕ → String → Option Signal → List Signal → List Step → Type 0
Delivers texts vault_id d held taken os =
    (held' : Option Signal) × (taken' : List Signal) × (run_steps texts (holding held, taken) os
      ≡ ok (holding held', taken'))
    × (tells d (unread held' ++ taken') ≡ tells d (with_offered os (unread held ++ taken)))

first_step :
    (texts : Texts) (x : Subscriber × List Signal) (o : Step) (os : List Step)
    {y z : Subscriber × List Signal}
    → run_step texts x o ≡ ok y
    → run_steps texts y os ≡ ok z
    → run_steps texts x (o ∷ os) ≡ ok z
first_step texts x o os h k = ap (λ m. m >>= λ y. run_steps texts y os) h ∙ k

take-nothing :
    (texts : Texts) (taken : List Signal)
    → run_step texts (holding none, taken) takes ≡ ok (holding none, taken)
unfolding take_next
take-nothing texts taken = refl

take-held :
    (texts : Texts) (p : Signal) (taken : List Signal)
    → run_step texts (holding (some p), taken) takes ≡ ok (holding none, p ∷ taken)
unfolding take_next
take-held texts p taken = refl

offer-first :
    (texts : Texts) (s : Signal) (taken : List Signal)
    → run_step texts (holding none, taken) (offers s) ≡ ok (holding (some s), taken)
unfolding offer offer_pending
offer-first texts s taken = refl

offer-next :
    (texts : Texts) (p s : Signal) (taken : List Signal)
    → is_normal texts p ≡ true
    → is_normal texts s ≡ true
    → (s.vault_id == p.vault_id) ≡ true
    → run_step texts (holding (some p), taken) (offers s)
      ≡ ok (holding (some (both texts p s)), taken)
offer-next texts p s taken h k e =
    ap (λ m. m >>= λ next. ok (next, taken)) (offer-holding texts p s h k e)

both-is_of_vault :
    (texts : Texts) (vault_id : ℕ) (p s : Signal)
    → is_of_vault texts vault_id p ≡ true
    → is_normal texts s ≡ true
    → is_of_vault texts vault_id (both texts p s) ≡ true
unfolding both
both-is_of_vault texts vault_id p s h k =
    let n = both-is_normal texts p s (ground arith) k in ground arith

deliver :
    (texts : Texts) (vault_id : ℕ) (d : String) (os : List Step) (held : Option Signal)
    (taken : List Signal)
    → opt_all (is_of_vault texts vault_id) held ≡ true
    → all (offers_of_vault texts vault_id) os ≡ true
    → Delivers texts vault_id d held taken os
deliver texts vault_id d [] held taken h k = (held, taken, refl, refl)
deliver texts vault_id d (takes ∷ os) none taken h k =
    let (held', taken', run, same) = deliver texts vault_id d os none taken refl (ground arith) in
    (
      held',
      taken',
      first_step texts (holding none, taken) takes os (take-nothing texts taken) run,
      same,
    )
deliver texts vault_id d (takes ∷ os) (some p) taken h k =
    let (held', taken', run, same) =
      deliver texts vault_id d os none (p ∷ taken) refl (ground arith) in
    (
      held',
      taken',
      first_step texts (holding (some p), taken) takes os (take-held texts p taken) run,
      same,
    )
deliver texts vault_id d (offers s ∷ os) none taken h k =
    let (held', taken', run, same) =
      deliver texts vault_id d os (some s) taken (ground arith) (ground arith) in
    (
      held',
      taken',
      first_step texts (holding none, taken) (offers s) os (offer-first texts s taken) run,
      same,
    )
deliver texts vault_id d (offers s ∷ os) (some p) taken h k =
    let p_normal : is_normal texts p ≡ true = ground arith in
    let s_normal : is_normal texts s ≡ true = ground arith in
    let same_vault : (s.vault_id == p.vault_id) ≡ true = ground arith in
    let (held', taken', run, same) =
      deliver texts vault_id d os (some (both texts p s)) taken
        (both-is_of_vault texts vault_id p s h s_normal) (ground arith) in
    (
      held',
      taken',
      first_step texts (holding (some p), taken) (offers s) os
          (offer-next texts p s taken p_normal s_normal same_vault) run,
      same
          ∙ tells-with_offered d os (both texts p s ∷ taken) (s ∷ p ∷ taken)
              (tells-both texts d p s taken p_normal s_normal),
    )

-- However offers of one Vault's signals, each with some domains that are all normalized, and takes of the
-- reader alternate, no offer fails, the mailbox stays open and holds at most one signal, and what has been
-- taken and is held tells the same as all signals that were offered: which domains to reload, which
-- revision is the newest, and whether there is a gap.
pub mailbox_refines :
    (texts : Texts) (vault_id : ℕ) (d : String) (os : List Step)
    → all (offers_of_vault texts vault_id) os ≡ true
    → (held : Option Signal) × (taken : List Signal) × (run_steps texts (new_subscriber, []) os
        ≡ ok (holding held, taken))
      × (tells d (unread held ++ taken) ≡ tells d (with_offered os []))
mailbox_refines texts vault_id d os h = deliver texts vault_id d os none [] refl h
