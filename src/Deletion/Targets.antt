-- ===== src/Deletion/Targets.antt =====
-- The items of a deletion (app/services/cloud_deletion.py) name the cloud versions and markers of its files.
use frostvault.Prelude.{
  ℕ, ◌+◌, String, Bool, false, not, ◌&&◌, ◌||◌, ◌≡◌, refl, sym, ap, ◌∙◌, List, [], ◌∷◌, ◌++◌, ◌==◌,
  any, map, length, any-append, arith,
}
use mathlib.Core.List.{append-nil, append_assoc}
use frostvault.Prelude.Table.Reads.{select_ext}
use frostvault.Deletion.{
  File, Version, Marker, Item, Store, versions_of, markers_of, marks, is_deleted,
}
use frostvault.Deletion.Schedule.{
  Request, version_items, marker_items, file_items, schedule_file, schedule_files,
}

-- An exact version of an object, with its size.
abbrev pub Target : Type 0
Target = String × String × ℕ

abbrev pub of_item : Item → Target
of_item i = (i.object_key, i.provider_version_id, i.size_bytes)

abbrev pub of_version : Version → Target
of_version v = (v.object_key, v.provider_version_id, v.size)

-- A marker has no size.
abbrev pub of_marker : Marker → Target
of_marker m = (m.object_key, m.provider_version_id, 0)

-- Everything that the cloud holds of the files.
unfoldable pub cloud_copies : Store → List File → List Target
cloud_copies s [] = []
cloud_copies s (f ∷ fs) =
    (map of_version (versions_of s f.id) ++ map of_marker (markers_of s f.id)) ++ cloud_copies s fs

version_items-targets :
    (job_id next : ℕ) (vs : List Version)
    → map of_item (version_items job_id next vs) ≡ map of_version vs
unfolding version_items
version_items-targets job_id next [] = refl
version_items-targets job_id next (v ∷ vs) =
    ap (λ ts. of_version v ∷ ts) (version_items-targets job_id (next + 1) vs)

marker_items-targets :
    (job_id next : ℕ) (ms : List Marker)
    → map of_item (marker_items job_id next ms) ≡ map of_marker ms
unfolding marker_items
marker_items-targets job_id next [] = refl
marker_items-targets job_id next (m ∷ ms) =
    ap (λ ts. of_marker m ∷ ts) (marker_items-targets job_id (next + 1) ms)

map-append {ℓ κ} :
    {A : Type ℓ} {B : Type κ} (f : A → B) (xs ys : List A) → map f (xs ++ ys) ≡ map f xs ++ map f ys
map-append f [] ys = refl
map-append f (x ∷ xs) ys = ap (λ zs. f x ∷ zs) (map-append f xs ys)

file_items-targets :
    (s : Store) (f : File)
    → map of_item (file_items s f)
      ≡ map of_version (versions_of s f.id) ++ map of_marker (markers_of s f.id)
unfolding file_items
file_items-targets s f =
    rw
      (
        map-append of_item (version_items s.next_job_id s.next_item_id (versions_of s f.id)) (
            marker_items s.next_job_id (s.next_item_id + length (versions_of s f.id))
              (markers_of s f.id)),
        version_items-targets s.next_job_id s.next_item_id (versions_of s f.id),
        marker_items-targets s.next_job_id (s.next_item_id + length (versions_of s f.id))
            (markers_of s f.id),
      )
      refl

-- New items have deleted nothing.
abbrev erases : Marker → Item → Bool
erases m i = marks m.id i.kind && is_deleted i.status

version_items-erases :
    (m : Marker) (job_id next : ℕ) (vs : List Version)
    → any (erases m) (version_items job_id next vs) ≡ false
unfolding version_items
version_items-erases m job_id next [] = refl
version_items-erases m job_id next (v ∷ vs) = version_items-erases m job_id (next + 1) vs

marker_items-erases :
    (m : Marker) (job_id next : ℕ) (ms : List Marker)
    → any (erases m) (marker_items job_id next ms) ≡ false
unfolding marker_items
marker_items-erases m job_id next [] = refl
marker_items-erases m job_id next (x ∷ ms) =
    ground (arith, marker_items-erases m job_id (next + 1) ms)

file_items-erases : (s : Store) (f : File) (m : Marker) → any (erases m) (file_items s f) ≡ false
unfolding file_items
file_items-erases s f m =
    rw
      (
        any-append (erases m) (version_items s.next_job_id s.next_item_id (versions_of s f.id)) (
            marker_items s.next_job_id (s.next_item_id + length (versions_of s f.id))
              (markers_of s f.id)),
        version_items-erases m s.next_job_id s.next_item_id (versions_of s f.id),
        marker_items-erases m s.next_job_id (s.next_item_id + length (versions_of s f.id))
            (markers_of s f.id),
      )
      refl

or_false : (b c : Bool) → c ≡ false → (b || c) ≡ b
or_false b c h = ground arith

markers-schedule_file :
    (s : Store) (group_id : String) (r : Request) (f : File) (file_id : ℕ)
    → markers_of (schedule_file s group_id r f) file_id ≡ markers_of s file_id
unfolding markers_of schedule_file
markers-schedule_file s group_id r f file_id =
    select_ext _ _
      (λ (m : Marker).
        ap (λ b. m.vault_file_id == file_id && not b)
          (any-append (erases m) s.items (file_items s f)
            ∙ or_false (any (erases m) s.items) _ (file_items-erases s f m)))
      s.markers

copies-schedule_file :
    (s : Store) (group_id : String) (r : Request) (f : File) (fs : List File)
    → cloud_copies (schedule_file s group_id r f) fs ≡ cloud_copies s fs
unfolding cloud_copies versions_of
copies-schedule_file s group_id r f [] = refl
copies-schedule_file s group_id r f (x ∷ fs) =
    rw (markers-schedule_file s group_id r f x.id, copies-schedule_file s group_id r f fs)
      (unfold schedule_file in refl)

schedule_file-targets :
    (s : Store) (group_id : String) (r : Request) (f : File)
    → map of_item (schedule_file s group_id r f).items
      ≡ map of_item s.items
        ++ (map of_version (versions_of s f.id) ++ map of_marker (markers_of s f.id))
unfolding schedule_file
schedule_file-targets s group_id r f =
    map-append of_item s.items (file_items s f)
    ∙ ap (λ ts. map of_item s.items ++ ts) (file_items-targets s f)

pub schedule_files-targets :
    (fs : List File) (s : Store) (group_id : String) (r : Request)
    → map of_item (schedule_files s group_id r fs).items ≡ map of_item s.items ++ cloud_copies s fs
unfolding schedule_files cloud_copies
schedule_files-targets [] s group_id r = sym (append-nil (map of_item s.items))
schedule_files-targets (f ∷ fs) s group_id r =
    schedule_files-targets fs (schedule_file s group_id r f) group_id r
    ∙ ap (λ ts. map of_item (schedule_file s group_id r f).items ++ ts)
        (copies-schedule_file s group_id r f fs)
    ∙ ap (λ ts. ts ++ cloud_copies s fs) (schedule_file-targets s group_id r f)
    ∙ append_assoc (map of_item s.items) _ (cloud_copies s fs)
