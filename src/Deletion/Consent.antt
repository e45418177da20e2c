-- ===== src/Deletion/Consent.antt =====
-- What the owner of a Vault consents to (app/services/cloud_deletion.py): a deletion names exactly the
-- cloud versions and markers of the selected files, and its preview counts them.
use frostvault.Prelude.{
  ℕ, suc, ◌+◌, String, ◌≡◌, refl, sym, subst, ap, ◌∙◌, none, List, [], ◌∷◌, ◌++◌, map, length,
  length-append, arith,
}
use frostvault.Prelude.Result.{Result, ok, require, OnOk, OnOk-bind, OnOk-returned}
use frostvault.Deletion.{
  Error, nothing_selected, File, Version, Marker, Store, versions_of, markers_of, is_nonempty,
  Selection, selected_files, World, validate_files, DeletionPreview, sum, preview_selection,
}
use frostvault.Deletion.Schedule.{Request, ScheduledDeletion, schedule_cloud_purge}
use frostvault.Deletion.Delay.{Scheduled, schedule-Scheduled}
use frostvault.Deletion.Targets.{
  Target, of_item, of_version, of_marker, cloud_copies, schedule_files-targets,
}

length-map {ℓ κ} :
    {A : Type ℓ} {B : Type κ} (f : A → B) (xs : List A) → length (map f xs) ≡ length xs
length-map f [] = refl
length-map f (x ∷ xs) = ap suc (length-map f xs)

length-copies :
    (s : Store) (fs : List File)
    → length (cloud_copies s fs)
      ≡ sum (λ f. length (versions_of s f.id)) fs + sum (λ f. length (markers_of s f.id)) fs
unfolding cloud_copies
length-copies s [] = omega arith
length-copies s (f ∷ fs) = omega (
  arith,
  length-append (map of_version (versions_of s f.id) ++ map of_marker (markers_of s f.id))
      (cloud_copies s fs),
  length-append (map of_version (versions_of s f.id)) (map of_marker (markers_of s f.id)),
  length-map of_version (versions_of s f.id),
  length-map of_marker (markers_of s f.id),
  length-copies s fs,
)

-- The bytes of targets.
abbrev pub target_bytes : List Target → ℕ
target_bytes ts = sum (λ t. t.2) ts

bytes-append : (xs ys : List Target) → target_bytes (xs ++ ys) ≡ target_bytes xs + target_bytes ys
bytes-append [] ys = omega arith
bytes-append (x ∷ xs) ys = omega (arith, bytes-append xs ys)

bytes-versions : (vs : List Version) → target_bytes (map of_version vs) ≡ sum (λ v. v.size) vs
bytes-versions [] = refl
bytes-versions (v ∷ vs) = ap (λ n. v.size + n) (bytes-versions vs)

bytes-markers : (ms : List Marker) → target_bytes (map of_marker ms) ≡ 0
bytes-markers [] = refl
bytes-markers (m ∷ ms) = omega (arith, bytes-markers ms)

bytes-copies :
    (s : Store) (fs : List File)
    → target_bytes (cloud_copies s fs) ≡ sum (λ f. sum (λ v. v.size) (versions_of s f.id)) fs
unfolding cloud_copies
bytes-copies s [] = refl
bytes-copies s (f ∷ fs) = omega (
  arith,
  bytes-append (map of_version (versions_of s f.id) ++ map of_marker (markers_of s f.id))
      (cloud_copies s fs),
  bytes-append (map of_version (versions_of s f.id)) (map of_marker (markers_of s f.id)),
  bytes-versions (versions_of s f.id),
  bytes-markers (markers_of s f.id),
  bytes-copies s fs,
)

-- A preview counts the cloud copies of the files that it is about.
abbrev pub Counts : Store → List File → DeletionPreview → Type 0
Counts s fs preview =
    (preview.object_count ≡ length fs)
    × (preview.version_count + preview.delete_marker_count ≡ length (cloud_copies s fs))
    × (preview.byte_count ≡ target_bytes (cloud_copies s fs))

abbrev Previewed : Store → Selection → DeletionPreview → Type 0
Previewed s selection preview =
    (fs : List File) × (selected_files s selection ≡ ok fs) × Counts s fs preview

preview-Previewed :
    (w : World) (s : Store) (selection : Selection)
    → OnOk (Previewed s selection) (preview_selection w s selection)
unfolding preview_selection
preview-Previewed w s selection =
    let P = Previewed s selection in
    OnOk-bind P (selected_files s selection) _ (λ fs a.
      OnOk-bind P (require (is_nonempty fs) nothing_selected) _ (λ _ b.
        OnOk-bind P (validate_files w s none fs) _
          (λ _ c. (fs, a, (refl, sym (length-copies s fs), sym (bytes-copies s fs))))))

same_files : {x : Result Error (List File)} {fs gs : List File} → x ≡ ok fs → x ≡ ok gs → fs ≡ gs
same_files {x} {fs} {gs} a b = subst (λ r. OnOk (λ zs. fs ≡ zs) r) (sym a ∙ b) refl

-- A deletion that is admitted adds one item for each version that the cloud holds of the selected files
-- that is not purged, and for each of their markers that no item has deleted, with the exact version and
-- its size, after the items that there were; and the preview that was shown counts these files, versions
-- with markers, and bytes.
pub consent_is_exact :
    (w : World) (s : Store) (group_id : String) (selection : Selection) (r : Request) {s' : Store}
    {d : ScheduledDeletion}
    → schedule_cloud_purge w s group_id selection r ≡ ok (s', d)
    → (fs : List File) × (selected_files s selection ≡ ok fs)
      × (map of_item s'.items ≡ map of_item s.items ++ cloud_copies s fs)
      × Counts s fs d.preview
consent_is_exact w s group_id selection r {s'} {d} e =
    let (fs, chosen, same, shown) =
      OnOk-returned (Scheduled w s group_id selection r) _ (s', d)
        (schedule-Scheduled w s group_id selection r) e in
    let (gs, previewed, counts) =
      OnOk-returned (Previewed s selection) _ d.preview (preview-Previewed w s selection) shown in
    (
      fs,
      chosen,
      subst (λ x. map of_item x.items ≡ map of_item s.items ++ cloud_copies s fs) (sym same)
          (schedule_files-targets fs s group_id r),
      subst (λ zs. Counts s zs d.preview) (same_files previewed chosen) counts,
    )
