-- ===== src/Plans/Chain.antt =====
-- What validate_lifecycle_profile (app/services/lifecycle_profiles.py) accepts: exactly the chains
-- of ever colder classes in which each object stays long enough.
use frostvault.Prelude.{
  ℕ, ◌+◌, ◌≤◌, ◌<◌, Bool, true, false, not, ◌&&◌, ◌≡◌, ◌≢◌, ◌↔◌, ◌⊎◌, refl, subst, Option, none,
  some, List, [], ◌∷◌, ◌++◌, length, All, Bool-cases, inl, inr, arith,
}
use frostvault.Plans.{
  StorageClass, standard, standard_ia, onezone_ia, glacier_ir, glacier, deep_archive, other,
  LifecycleTransition, Problem, Warning, bad_days, unsupported_class, is_supported,
  min_source_residence, is_allowed_target, is_ia, append_if, check_step, check_steps, is_empty,
  validate_lifecycle_profile, warning_of,
}

-- How cold a class is.
abbrev pub rank : StorageClass → ℕ
rank standard = 0
rank standard_ia = 1
rank onezone_ia = 2
rank glacier_ir = 3
rank glacier = 4
rank deep_archive = 5
rank (other name) = 6

-- A transition after `days` days from the class `previous`, which objects entered at `above - 1` days:
-- to a colder class, not from ONEZONE_IA to GLACIER_IR, later than the previous transition, after the
-- residence that the class requires, and to an infrequent access class after 30 days or more.
abbrev pub IsNext : ℕ → StorageClass → ℕ → StorageClass → Type 0
IsNext above previous days target =
    (rank previous < rank target)
    × (rank target < 6)
    × ((rank previous ≢ 2) ⊎ (rank target ≢ 3))
    × (above ≤ days)
    × (above + min_source_residence previous ≤ days + 1)
    × ((3 ≤ rank target) ⊎ (30 ≤ days))

abbrev pub IsChain : ℕ → StorageClass → List LifecycleTransition → Type 0
IsChain above previous [] = Unit
IsChain above previous (step ∷ steps) =
    (days : ℕ) × (step.days ≡ some days)
    × IsNext above previous days step.storage_class
    × IsChain (days + 1) step.storage_class steps

supported_iff : (c : StorageClass) → (is_supported c ≡ true) ↔ ((1 ≤ rank c) × (rank c < 6))
unfolding is_supported
supported_iff c = ground arith

allowed_iff :
    (p t : StorageClass)
    → is_supported t ≡ true
    → (is_allowed_target p t ≡ true) ↔ ((rank p < rank t) × ((rank p ≢ 2) ⊎ (rank t ≢ 3)))
unfolding is_allowed_target is_supported
allowed_iff p t h = ground arith

ia_iff : (c : StorageClass) → is_supported c ≡ true → (is_ia c ≡ true) ↔ (rank c ≤ 2)
unfolding is_ia is_supported
ia_iff c h = ground arith

append_if-empty :
    (b : Bool) (e : Problem) (errors : List Problem)
    → is_empty (append_if b e errors) ≡ not b && is_empty errors
append_if-empty b e errors = ground arith

check_step-empty :
    (above : ℕ) (p : StorageClass) (days : ℕ) (t : StorageClass) (errors : List Problem)
    → is_supported t ≡ true
    → (is_empty (check_step above p days t errors) ≡ true)
      ↔ ((is_empty errors ≡ true) × IsNext above p days t)
unfolding check_step
check_step-empty above p days t errors h =
    rw (append_if-empty, append_if-empty, append_if-empty, append_if-empty)
      (ground (arith, allowed_iff p t h, ia_iff t h, supported_iff t))

empty-snoc : (errors : List Problem) (e : Problem) → is_empty (errors ++ (e ∷ [])) ≡ false
empty-snoc [] e = refl
empty-snoc (x ∷ xs) e = refl

-- The loop accepts just the chains, whatever it has collected.
abbrev Decides : List LifecycleTransition → Type 0
Decides steps =
    (above : ℕ) (p : StorageClass) (errors : List Problem) (warnings : List Warning)
    → (is_empty (check_steps above p steps errors warnings).0 ≡ true)
      ↔ ((is_empty errors ≡ true) × IsChain above p steps)

step-Decides :
    (days : Option ℕ) (t : StorageClass) (steps : List LifecycleTransition)
    → Decides steps
    → Decides (record { days = days; storage_class = t } ∷ steps)
unfolding check_steps
step-Decides none t steps ih above p errors warnings =
    let none_left = empty-snoc errors bad_days in
    (
      λ h. ground (arith, (ih above p (errors ++ (bad_days ∷ [])) warnings).0 h),
      λ (h, (x, q, n, c)). ground arith,
    )
step-Decides (some days) t steps ih above p errors warnings = elim (Bool-cases (is_supported t)) [
  | inl m ↦
      let rest =
        ih (days + 1) t (check_step above p days t errors) (warnings ++ (warning_of t ∷ [])) in
      let here = check_step-empty above p days t errors m in
      rw (is_empty, m)
        (
          λ h. let r = rest.0 h in ((here.0 r.0).0, (days, refl, (here.0 r.0).1, r.1)),
          λ (h, (x, q, n, c)).
              let same : x ≡ days = ground arith in
              rest.1 (
                here.1 (h, subst (λ d. IsNext above p d t) same n),
                subst (λ d. IsChain (d + 1) t steps) same c,
              ),
        )
  | inr m ↦
      let none_left = empty-snoc errors (unsupported_class t) in
      let rest = ih above p (errors ++ (unsupported_class t ∷ [])) warnings in
      rw (is_empty, m)
        (λ h. ground (arith, rest.0 h), λ (h, (x, q, n, c)). ground (arith, supported_iff t))
]

steps-Decides : (steps : List LifecycleTransition) → Decides steps
unfolding check_steps
steps-Decides [] above p errors warnings = ground arith
steps-Decides (step ∷ steps) above p errors warnings =
    step-Decides step.days step.storage_class steps (steps-Decides steps) above p errors warnings

-- A profile is accepted exactly when its transitions form a chain that starts in STANDARD.
pub validate-IsChain :
    (transitions : List LifecycleTransition)
    → ((validate_lifecycle_profile transitions).ok ≡ true) ↔ IsChain 0 standard transitions
unfolding validate_lifecycle_profile
validate-IsChain transitions = ground (arith, steps-Decides transitions 0 standard [] [])

chain_length :
    (above : ℕ) (p : StorageClass) (steps : List LifecycleTransition)
    → rank p ≤ 5
    → IsChain above p steps
    → rank p + length steps ≤ 5
chain_length above p [] r c = ground arith
chain_length above p (step ∷ steps) r (days, e, n, c) =
    omega (arith, n.0, chain_length (days + 1) step.storage_class steps (omega (arith, n.1)) c)

-- All later transitions are later in days and to a colder class.
abbrev IsBelow : ℕ → StorageClass → LifecycleTransition → Type 0
IsBelow days t step =
    (rank t < rank step.storage_class) × ((d : ℕ) × (step.days ≡ some d) × (days < d))

abbrev pub Descends : List LifecycleTransition → Type 0
Descends [] = Unit
Descends (step ∷ steps) =
    ((days : ℕ) × (step.days ≡ some days) × All (IsBelow days step.storage_class) steps)
    × Descends steps

chain-IsBelow :
    (above above' : ℕ) (p p' : StorageClass) (steps : List LifecycleTransition)
    → above ≤ above'
    → rank p ≤ rank p'
    → IsChain (above' + 1) p' steps
    → All (IsBelow above p) steps
chain-IsBelow above above' p p' [] h r c = tt
chain-IsBelow above above' p p' (step ∷ steps) h r (days, e, n, c) = (
  (omega (arith, n.0), (days, e, omega (arith, n.3))),
  chain-IsBelow above days p step.storage_class steps (omega (arith, n.3)) (omega (arith, n.0)) c,
)

chain-Descends :
    (above : ℕ) (p : StorageClass) (steps : List LifecycleTransition)
    → IsChain above p steps
    → Descends steps
chain-Descends above p [] c = tt
chain-Descends above p (step ∷ steps) (days, e, n, c) = (
  (
    days,
    e,
    chain-IsBelow days days step.storage_class step.storage_class steps (omega arith) (omega arith)
        c,
  ),
  chain-Descends (days + 1) step.storage_class steps c,
)

-- An accepted profile has at most five transitions, and each is to a colder class and after more days
-- than every transition before it.
validate-Descends :
    (transitions : List LifecycleTransition)
    → (validate_lifecycle_profile transitions).ok ≡ true
    → (length transitions ≤ 5) × Descends transitions
validate-Descends transitions h =
    let c = (validate-IsChain transitions).0 h in
    (
      omega (arith, chain_length 0 standard transitions (ground arith) c),
      chain-Descends 0 standard transitions c,
    )
