-- ===== src/Deletion/Expected.antt =====
-- What a deletion may still find when it starts (app/services/cloud_deletion.py): versions, markers and
-- items that are as they were consented to, said of the rows of the tables.
use frostvault.Prelude.{
  ℕ, String, str_eq, Bool, true, not, ◌&&◌, ◌||◌, ◌≡◌, refl, sym, ◌∙◌, List, [], ◌∷◌, ◌==◌, any,
  all, opt_any, arith,
}
use frostvault.Prelude.Table.{select, fetch_one}
use frostvault.Jobs.{Job}
use frostvault.Deletion.{
  Version, Marker, Kind, version, delete_marker, Item, Store, versions_of, markers_of, marks,
  is_purged_version, is_deleted,
}
use frostvault.Deletion.Purge.{names, has_target, items_of}

-- An item of the Job that is to delete exactly this version of this object.
abbrev pub deletes_exactly : Job → String → String → Item → Bool
deletes_exactly j object_key provider_version_id i =
    i.job_id == j.id
    && str_eq i.object_key object_key
    && str_eq i.provider_version_id provider_version_id

-- A version of another file, one that is purged, or one that an item of the Job is to delete.
abbrev pub is_expected_version : Store → Job → Version → Bool
is_expected_version s j v =
    not (v.vault_file_id == j.vault_file_id)
    || is_purged_version v.availability
    || any (deletes_exactly j v.object_key v.provider_version_id) s.items

-- A delete marker of another file, one that an item has deleted, or one that an item of the Job is to
-- delete.
abbrev pub is_expected_marker : Store → Job → Marker → Bool
is_expected_marker s j m =
    not (m.vault_file_id == j.vault_file_id)
    || any (λ i. marks m.id i.kind && is_deleted i.status) s.items
    || any (deletes_exactly j m.object_key m.provider_version_id) s.items

-- The item's row is in the table with the item's id, the file, and the item's object and version.
abbrev pub is_of_kind : Store → ℕ → Item → Kind → Bool
is_of_kind s file_id i (version id) =
    any
      (λ v.
        v.id == id
        && v.vault_file_id == file_id
        && str_eq i.object_key v.object_key
        && str_eq i.provider_version_id v.provider_version_id)
      s.versions
is_of_kind s file_id i (delete_marker id) =
    any
      (λ m.
        m.id == id
        && m.vault_file_id == file_id
        && str_eq i.object_key m.object_key
        && str_eq i.provider_version_id m.provider_version_id)
      s.markers

-- An item of another Job, or one whose row is still that version or marker of the Job's file.
abbrev pub is_expected_item : Store → Job → Item → Bool
is_expected_item s j i = not (i.job_id == j.id) || is_of_kind s j.vault_file_id i i.kind

module _ {ℓ} {A : Type ℓ} where
  all_implies :
      (p q : A → Bool)
      → ((r : A) → p r ≡ true → q r ≡ true)
      → (t : List A) → all p t ≡ true
      → all q t ≡ true
  all_implies p q h [] e = refl
  all_implies p q h (x ∷ t) e = ground (arith, h x, all_implies p q h t)

  any_implies :
      (p q : A → Bool)
      → ((r : A) → p r ≡ true → q r ≡ true)
      → (t : List A) → any p t ≡ true
      → any q t ≡ true
  any_implies p q h [] e = ground arith
  any_implies p q h (x ∷ t) e = ground (arith, h x, any_implies p q h t)

  all-select : (p q : A → Bool) (t : List A) → all p (select q t) ≡ all (λ r. not (q r) || p r) t
  unfolding select
  all-select p q [] = refl
  all-select p q (x ∷ t) = ground (arith, all-select p q t)

  any-select : (p q : A → Bool) (t : List A) → any p (select q t) ≡ any (λ r. q r && p r) t
  unfolding select
  any-select p q [] = refl
  any-select p q (x ∷ t) = ground (arith, any-select p q t)

  opt_any-fetch_one :
      (p q : A → Bool) (t : List A)
      → opt_any q (fetch_one p t) ≡ true
      → any (λ r. p r && q r) t ≡ true
  unfolding fetch_one
  opt_any-fetch_one p q [] e = ground arith
  opt_any-fetch_one p q (x ∷ t) e = ground (arith, opt_any-fetch_one p q t)

module _ (s : Store) (j : Job) where
  any-deletes_exactly :
      (object_key provider_version_id : String)
      → any (names object_key provider_version_id) (items_of s j.id) ≡ true
      → any (deletes_exactly j object_key provider_version_id) s.items ≡ true
  unfolding items_of names
  any-deletes_exactly object_key provider_version_id h =
      any_implies _ _ (λ i e. ground arith) s.items
        (sym (any-select (names object_key provider_version_id) (λ i. i.job_id == j.id) s.items)
          ∙ h)

  pub versions-is_expected :
      all
          (λ v. any (names v.object_key v.provider_version_id) (items_of s j.id))
          (versions_of s j.vault_file_id)
        ≡ true
      → all (is_expected_version s j) s.versions ≡ true
  unfolding versions_of
  versions-is_expected h =
      all_implies _ (is_expected_version s j)
        (λ v e.
          let covered = any-deletes_exactly v.object_key v.provider_version_id in
          ground (arith, covered))
        s.versions (sym (all-select _ _ s.versions) ∙ h)

  pub markers-is_expected :
      all
          (λ m. any (names m.object_key m.provider_version_id) (items_of s j.id))
          (markers_of s j.vault_file_id)
        ≡ true
      → all (is_expected_marker s j) s.markers ≡ true
  unfolding markers_of
  markers-is_expected h =
      all_implies _ (is_expected_marker s j)
        (λ m e.
          let covered = any-deletes_exactly m.object_key m.provider_version_id in
          ground (arith, covered))
        s.markers (sym (all-select _ _ s.markers) ∙ h)

  target_is_of_kind :
      (i : Item)
      → has_target s j.vault_file_id i ≡ true
      → is_of_kind s j.vault_file_id i i.kind ≡ true
  unfolding has_target names
  target_is_of_kind i h = by_kind i.kind h
    where
      by_kind :
          (kind : Kind)
          → (elim kind [
            | version id ↦
                opt_any
                  (λ v.
                    v.vault_file_id == j.vault_file_id
                    && names v.object_key v.provider_version_id i)
                  (fetch_one (λ v. v.id == id) s.versions)
            | delete_marker id ↦
                opt_any
                  (λ m.
                    m.vault_file_id == j.vault_file_id
                    && names m.object_key m.provider_version_id i)
                  (fetch_one (λ m. m.id == id) s.markers)
          ])
            ≡ true
          → is_of_kind s j.vault_file_id i kind ≡ true
      by_kind (version id) e =
          any_implies _ _ (λ v a. ground arith) s.versions (opt_any-fetch_one _ _ s.versions e)
      by_kind (delete_marker id) e =
          any_implies _ _ (λ m a. ground arith) s.markers (opt_any-fetch_one _ _ s.markers e)

  pub items-is_expected :
      all (has_target s j.vault_file_id) (items_of s j.id) ≡ true
      → all (is_expected_item s j) s.items ≡ true
  unfolding items_of
  items-is_expected h =
      all_implies _ (is_expected_item s j) (λ i e. ground (arith, target_is_of_kind i)) s.items
        (sym (all-select _ _ s.items) ∙ h)
