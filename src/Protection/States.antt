-- ===== src/Protection/States.antt =====
-- What a protection state promises (app/services/protection_states.py).
use frostvault.Prelude.{
  ℕ, ◌+◌, ◌↔◌, ◌⊎◌, inl, inr, is_none, opt_all, String, str_eq_iff, Bool, true, false, not, ◌&&◌,
  ◌||◌, ◌≡◌, ◌<◌, refl, sym, ap, Option, none, some, opt_any, arith,
}
use frostvault.Protection.{
  State, pending, protected, problem, unconfirmed, cloud_only, LocalCopy, Version, Row, present,
  absent, verified, available, local_exists, is_protected, is_problem, vouches, is_verified,
  is_available, is_present, is_unsupported, state, first_counted, aggregate_state, same_sha256,
}

abbrev pub Evidence : LocalCopy → Version → Type 0
Evidence c v =
    (c.presence ≡ present)
    × (c.is_regular ≡ true)
    × (c.matched_archive_version_id ≡ some v.id)
    × (v.integrity ≡ verified)
    × (v.availability ≡ available)
    × ((digest : String) × (c.plaintext_sha256 ≡ some digest) × (v.plaintext_sha256 ≡ some digest))

same_digest :
    (a b : Option String)
    → same_sha256 a b ≡ true
    → (digest : String) × (a ≡ some digest) × (b ≡ some digest)
same_digest none none h = ground arith
same_digest none (some y) h = ground arith
same_digest (some x) none h = ground arith
same_digest (some x) (some y) h = (x, refl, ap some (sym ((str_eq_iff x y).0 h)))

vouches-Evidence : (c : LocalCopy) (v : Version) → vouches c v ≡ true → Evidence c v
unfolding vouches
vouches-Evidence c v h = (
  ground arith,
  ground arith,
  ground arith,
  ground arith,
  ground arith,
  same_digest c.plaintext_sha256 v.plaintext_sha256 (ground arith),
)

opt_any-found {ℓ} :
    {A : Type ℓ} (p : A → Bool) (o : Option A)
    → opt_any p o ≡ true
    → (a : A) × (o ≡ some a) × (p a ≡ true)
opt_any-found p none h = ground arith
opt_any-found p (some a) h = (a, refl, h)

-- What a file that is shown as protected is.
abbrev pub IsProtected : Row → Type 0
IsProtected r =
    (c : LocalCopy) × (v : Version) × (r.lc ≡ some c)
    × (r.av ≡ some v)
    × Evidence c v
    × (c.cloud_only_version_id ≡ none)

-- There is no local file, and no conflict with a copy that is only in the cloud.
abbrev pub IsGone : Option LocalCopy → Type 0
IsGone lc =
    (lc ≡ none)
    ⊎ ((c : LocalCopy) × (lc ≡ some c) × (c.presence ≡ absent) × (c.cloud_only_version_id ≡ none))

-- What a file that is shown as being in the cloud only is.
abbrev pub IsCloudOnly : Row → Type 0
IsCloudOnly r =
    (v : Version) × (r.av ≡ some v)
    × (v.integrity ≡ verified)
    × (v.availability ≡ available)
    × (r.failed_upload ≡ false)
    × IsGone r.lc

Evidence-vouches : (c : LocalCopy) (v : Version) → Evidence c v → vouches c v ≡ true
unfolding vouches
Evidence-vouches c v (here, regular, matched, whole, there, (digest, left, right)) =
    rw (here, regular, matched, whole, there, left, right)
      (ground (arith, str_eq_iff digest digest))

is_none-none {ℓ} : {A : Type ℓ} (o : Option A) → is_none o ≡ true → o ≡ none
is_none-none none h = refl
is_none-none (some a) h = ground arith

protected-tests :
    (r : Row)
    → (state r ≡ protected)
      ↔ (is_protected r && opt_all (λ c. is_none c.cloud_only_version_id) r.lc ≡ true)
unfolding state is_problem is_protected local_exists vouches
protected-tests r = ground arith

cloud_only-tests :
    (r : Row)
    → (state r ≡ cloud_only) ↔ (
        opt_any (λ v. is_verified v.integrity && is_available v.availability) r.av
          && not r.failed_upload
          && not (local_exists r)
          && opt_all (λ c. is_none c.cloud_only_version_id) r.lc
        ≡ true)
unfolding state is_problem is_protected local_exists vouches
cloud_only-tests r = ground arith

-- A file is shown as protected just if a regular local file is present whose last known digest is the
-- digest of an available and verified version, which is the version that it was matched with, and no
-- conflict with a copy that is only in the cloud is open; whether its last upload failed does not count.
pub protected-Evidence : (r : Row) → (state r ≡ protected) ↔ IsProtected r
protected-Evidence r = (
  λ h.
      let tests = (protected-tests r).0 h in
      let safe : is_protected r ≡ true = ground arith in
      let calm : opt_all (λ c. is_none c.cloud_only_version_id) r.lc ≡ true = ground arith in
      let (c, e, h') =
        opt_any-found (λ c. opt_any (λ v. vouches c v) r.av) r.lc (unfold is_protected in safe) in
      let (v, e', h'') = opt_any-found (λ v. vouches c v) r.av h' in
      (c, v, e, e', vouches-Evidence c v h'', is_none-none _ (rw e at calm)),
  λ (c, v, e, e', evidence, calm).
      (protected-tests r).1
        (unfold is_protected in rw (e, e', Evidence-vouches c v evidence, calm) refl),
)

absent-IsGone :
    (lc : Option LocalCopy)
    → opt_any (λ c. is_present c.presence || is_unsupported c.presence) lc ≡ false
    → opt_all (λ c. is_none c.cloud_only_version_id) lc ≡ true
    → IsGone lc
absent-IsGone none h k = inl refl
absent-IsGone (some c) h k =
    let none_present : c.presence ≡ absent = ground arith in
    inr (c, refl, none_present, is_none-none c.cloud_only_version_id k)

IsGone-tests :
    (lc : Option LocalCopy)
    → IsGone lc
    → not (opt_any (λ c. is_present c.presence || is_unsupported c.presence) lc)
        && opt_all (λ c. is_none c.cloud_only_version_id) lc
      ≡ true
IsGone-tests lc (inl e) = rw e refl
IsGone-tests lc (inr (c, e, away, calm)) = rw (e, away, calm) refl

and_available :
    (v : Version)
    → (is_verified v.integrity && is_available v.availability) ≡ true
    → (v.integrity ≡ verified) × (v.availability ≡ available)
and_available v h = ground arith

four_tests :
    (a b c d : Bool)
    → a && not b && not c && d ≡ true
    → (a ≡ true) × (b ≡ false) × (c ≡ false) × (d ≡ true)
four_tests a b c d h = ground arith

-- A file is shown as being in the cloud only just if its latest version is verified and available, its
-- last upload did not fail, and it has no local file nor an open conflict with a copy in the cloud.
pub cloud_only-evidence : (r : Row) → (state r ≡ cloud_only) ↔ IsCloudOnly r
cloud_only-evidence r = (
  λ h.
      let (kept, fine, gone, calm) = four_tests _ _ _ _ ((cloud_only-tests r).0 h) in
      let (v, e, good) =
        opt_any-found (λ v. is_verified v.integrity && is_available v.availability) r.av kept in
      let (whole, here) = and_available v good in
      (v, e, whole, here, fine, absent-IsGone r.lc (unfold local_exists in gone) calm),
  λ (v, e, whole, here, fine, gone).
      let tests = IsGone-tests r.lc gone in
      (cloud_only-tests r).1 (unfold local_exists in rw (e, whole, here, fine) tests),
)

-- The files of the states that are more urgent.
abbrev pub more_urgent : (State → ℕ) → State → ℕ
more_urgent counts problem = 0
more_urgent counts unconfirmed = counts problem
more_urgent counts pending = counts problem + counts unconfirmed
more_urgent counts protected = counts problem + counts unconfirmed + counts pending
more_urgent counts cloud_only =
    counts problem + counts unconfirmed + counts pending + counts protected

-- A state is the aggregate just if files of it are counted and none of any state that is more urgent, in
-- the order problem, unconfirmed, pending, protected, cloud_only; and there is no aggregate just if no
-- file is counted.
pub aggregate_state-worst :
    (counts : State → ℕ) (s : State)
    → ((aggregate_state counts ≡ some s) ↔ ((0 < counts s) × (more_urgent counts s ≡ 0)))
      × ((aggregate_state counts ≡ none) ↔ (more_urgent counts cloud_only + counts cloud_only ≡ 0))
unfolding aggregate_state first_counted
aggregate_state-worst counts pending = ground arith
aggregate_state-worst counts protected = ground arith
aggregate_state-worst counts problem = ground arith
aggregate_state-worst counts unconfirmed = ground arith
aggregate_state-worst counts cloud_only = ground arith
