-- ===== src/Incidents/Open.antt =====
-- What each call of app/services/catalog_incidents.py does to the number of open incidents of an Archive
-- Version.
use frostvault.Prelude.{
  ℕ, ◌≤◌, String, Bool, true, not, ◌&&◌, ◌||◌, ◌≡◌, refl, subst, Option, none, some, List, [], ◌∷◌,
  ◌++◌, ◌==◌, any, coalesce, FilePath, arith, Bool-cases, Option-cases, inl, inr,
}
use frostvault.Prelude.Result.{require, OnOk, OnOk-bind}
use frostvault.Prelude.Table.Count.{count, count-update, count-none, count-append}
use frostvault.Prelude.Table.{select, update, fetch_one}
use frostvault.Protection.{is_present}
use frostvault.Jobs.{truthy}
use frostvault.Incidents.{
  Kind, archive_version_missing, cloud_only_conflict, Incident, LocalCopy, Version, Store, Subject,
  no_conflict, Summary, no_summary, same_kind, is_open_for, seen, resolve, new_incident,
  open_or_refresh, remember_missing_archives, resolve_archive_version_incidents, holds,
  is_recoverable, same_content, settle_copy, settle_copies, is_held_in, is_over,
  settle_cloud_only_copies, last_of, is_conflict_at, replace_held, confirm_cloud_only_replacement,
}

same_kind_sound : (k l : Kind) → same_kind k l ≡ true → k ≡ l
same_kind_sound archive_version_missing archive_version_missing h = refl
same_kind_sound archive_version_missing cloud_only_conflict h = ground arith
same_kind_sound cloud_only_conflict archive_version_missing h = ground arith
same_kind_sound cloud_only_conflict cloud_only_conflict h = refl

module _ (kind : Kind) (version_id : ℕ) where
  -- The open incidents of the kind for the version.
  abbrev open_count : List Incident → ℕ
  open_count is = count (is_open_for kind version_id) is

  update-resolve :
      (q : Incident → Bool) (at : ℕ) (t : List Incident)
      → open_count (update q (resolve at) t) ≤ open_count t
  update-resolve q at t =
      count-update (is_open_for kind version_id) q (resolve at) (λ i e h. ground arith) t

  update-seen :
      (q : Incident → Bool) (at : ℕ) (t : List Incident)
      → open_count (update q (seen at) t) ≤ open_count t
  update-seen q at t = count-update (is_open_for kind version_id) q (seen at) (λ i e h. h) t

  opened-count :
      (s : Store) (k : Kind) (subject : Subject) (at : ℕ)
      → open_count s.incidents ≤ 1
      → fetch_one (is_open_for k subject.archive_version_id) s.incidents ≡ none
      → open_count (s.incidents ++ (new_incident s k subject at ∷ [])) ≤ 1
  unfolding new_incident
  opened-count s k subject at h e =
      let n =
        count-append (is_open_for kind version_id) s.incidents (new_incident s k subject at) in
      elim (Bool-cases ((subject.archive_version_id == version_id) && same_kind k kind)) [
        | inl m ↦
            let same_version : subject.archive_version_id ≡ version_id = ground arith in
            let same_kind : k ≡ kind = same_kind_sound k kind (ground arith) in
            let missing : open_count s.incidents ≡ 0 =
              count-none (is_open_for kind version_id) s.incidents (
                subst (λ v. fetch_one (is_open_for kind v) s.incidents ≡ none) same_version
                  (subst
                    (λ l. fetch_one (is_open_for l subject.archive_version_id) s.incidents ≡ none)
                    same_kind e)) in
            ground arith
        | inr m ↦ ground arith
      ]

  open_or_refresh-count :
      (s : Store) (k : Kind) (subject : Subject) (at : ℕ)
      → open_count s.incidents ≤ 1
      → open_count (open_or_refresh s k subject at).0.incidents ≤ 1
  unfolding open_or_refresh
  open_or_refresh-count s k subject at h =
      elim (Option-cases (fetch_one (is_open_for k subject.archive_version_id) s.incidents)) [
        | inr (existing, e) ↦
            rw (open_or_refresh, e)
              (omega (arith, update-seen (λ i. i.id == existing.id) at s.incidents))
        | inl e ↦ rw (open_or_refresh, e) (opened-count s k subject at h e)
      ]

  pub remember-count :
      (rows : List Subject) (s : Store) (at : ℕ)
      → open_count s.incidents ≤ 1
      → open_count (remember_missing_archives s rows at).0.incidents ≤ 1
  unfolding remember_missing_archives
  remember-count [] s at h = h
  remember-count (row ∷ rows) s at h =
      remember-count rows (open_or_refresh s archive_version_missing row at).0 at
        (open_or_refresh-count s archive_version_missing row at h)

  pub resolve-count :
      (ids : List ℕ) (s : Store) (at : ℕ)
      → open_count s.incidents ≤ 1
      → open_count (resolve_archive_version_incidents s ids at).0.incidents ≤ 1
  unfolding resolve_archive_version_incidents
  resolve-count [] s at h = h
  resolve-count (id ∷ ids) s at h =
      resolve-count ids _ at
        (omega (arith, update-resolve (is_open_for archive_version_missing id) at s.incidents))

  settle_copy-count :
      (lower : String → String) (s : Store) (summary : Summary) (c : LocalCopy) (id : ℕ)
      (path : FilePath) (at : ℕ)
      → open_count s.incidents ≤ 1
      → open_count (settle_copy lower (s, summary) c id path at).0.incidents ≤ 1
  unfolding settle_copy
  settle_copy-count lower s summary c id path at h =
      let version = fetch_one (λ (v : Version). v.id == id) s.versions in
      elim (Bool-cases (not (is_recoverable version))) [
        | inl e ↦ rw e h
        | inr e ↦
            elim (Bool-cases (
              not (is_present c.presence) || not c.is_regular || not (truthy c.plaintext_sha256))) [
                | inl f ↦ rw (e, f) h
                | inr f ↦ elim (Bool-cases (same_content lower c version)) [
                  | inl g ↦ rw (e, f, g) h
                  | inr g ↦ rw (e, f, g) (open_or_refresh-count s cloud_only_conflict _ at h)
                ]
              ]
      ]

  settle_copies-count :
      (lower : String → String) (cs : List LocalCopy) (s : Store) (summary : Summary) (at : ℕ)
      → open_count s.incidents ≤ 1
      → open_count (settle_copies lower (s, summary) cs at).0.incidents ≤ 1
  unfolding settle_copies
  settle_copies-count lower [] s summary at h = h
  settle_copies-count lower (c ∷ cs) s summary at h =
      let x =
        settle_copy lower (s, summary) c (coalesce c.cloud_only_version_id 0) (coalesce c.path [])
          at in
      settle_copies-count lower cs x.0 x.1 at (
        settle_copy-count lower s summary c (coalesce c.cloud_only_version_id 0)
          (coalesce c.path []) at h)

  pub settle-count :
      (lower : String → String) (s : Store) (vault_id : ℕ) (path : Option FilePath) (at : ℕ)
      → open_count s.incidents ≤ 1
      → open_count (settle_cloud_only_copies lower s vault_id path at).0.incidents ≤ 1
  unfolding settle_cloud_only_copies
  settle-count lower s vault_id path at h =
      let held = select (is_held_in vault_id path) s.copies in
      let x = settle_copies lower (s, no_summary) held at in
      omega (
        arith,
        update-resolve (is_over x.0.copies vault_id path) at x.0.incidents,
        settle_copies-count lower held s no_summary at h,
      )

  replace-count :
      (s : Store) (i : Incident) (at : ℕ)
      → open_count s.incidents ≤ 1
      → OnOk (λ (t : Store). open_count t.incidents ≤ 1) (replace_held s i at)
  unfolding replace_held
  replace-count s i at h =
      OnOk-bind (λ (t : Store). open_count t.incidents ≤ 1)
        (require
          (any
            (λ (c : LocalCopy).
              holds i.vault_file_id i.archive_version_id c && is_present c.presence)
            s.copies)
          no_conflict)
        _ (λ _ _. omega (arith, update-resolve (λ x. x.id == i.id) at s.incidents))

  pub confirm-count :
      (lower : String → String) (s : Store) (vault_id : ℕ) (path : FilePath) (at : ℕ)
      → open_count s.incidents ≤ 1
      → OnOk
          (λ (t : Store). open_count t.incidents ≤ 1)
          (confirm_cloud_only_replacement lower s vault_id path at)
  unfolding confirm_cloud_only_replacement
  confirm-count lower s vault_id path at h =
      let settled = (settle_cloud_only_copies lower s vault_id (some path) at).0 in
      elim (Option-cases (last_of (select (is_conflict_at vault_id path) settled.incidents))) [
        | inl e ↦ rw (confirm_cloud_only_replacement, e) tt
        | inr (i, e) ↦
            rw (confirm_cloud_only_replacement, e)
              (replace-count settled i at (settle-count lower s vault_id (some path) at h))
      ]
