-- ===== src/Deletion/Batches.antt =====
-- Writing the provider's answers in bounded batches (app/services/cloud_deletion.py) is writing them all
-- in one statement.
use frostvault.Prelude.{
  ℕ, zero, suc, ◌≤◌, Bool, false, ◌&&◌, ◌||◌, ◌≡◌, refl, sym, ap, ◌∙◌, some, List, [], ◌∷◌, ◌++◌,
  ◌==◌, any, length, take, any-append, arith,
}
use frostvault.Prelude.Table.{update}
use frostvault.Prelude.Table.Reads.{update-update, update_ext, update_never, any-update_same}
use frostvault.Protection.{purged}
use frostvault.Deletion.{Store, Item, Version, ItemStatus, deleted, failed}
use frostvault.Deletion.Purge.{
  is_in, targets, mark_batch_deleted, mark_batch_failed, drop, in_batches, mark_items_deleted,
  mark_items_failed,
}

take-drop {ℓ} : {A : Type ℓ} (n : ℕ) (xs : List A) → take n xs ++ drop n xs ≡ xs
take-drop zero xs = refl
take-drop (suc n) [] = refl
take-drop (suc n) (x ∷ xs) = ap (λ ys. x ∷ ys) (take-drop n xs)

length-drop {ℓ} :
    {A : Type ℓ} (n : ℕ) (x : A) (xs : List A) → length (drop (suc n) (x ∷ xs)) ≤ length xs
length-drop zero x xs = omega arith
length-drop (suc n) x [] = omega arith
length-drop (suc n) x (y ∷ xs) = omega (arith, length-drop n y xs)

-- A mark that may be applied piece by piece.
module _ (mark : Store → List ℕ → Store) (nothing : (s : Store) → mark s [] ≡ s)
    (apart : (s : Store) (xs ys : List ℕ) → mark (mark s xs) ys ≡ mark s (xs ++ ys)) where
  batches_whole :
      (fuel n : ℕ) (s : Store) (ids : List ℕ)
      → length ids ≤ fuel
      → in_batches fuel (suc n) mark s ids ≡ some (mark s ids)
  unfolding in_batches
  batches_whole zero n s [] h = ap some (sym (nothing s))
  batches_whole zero n s (i ∷ is) h = ground arith
  batches_whole (suc fuel) n s [] h = ap some (sym (nothing s))
  batches_whole (suc fuel) n s (i ∷ is) h =
      batches_whole fuel n (mark s (take (suc n) (i ∷ is))) (drop (suc n) (i ∷ is))
        (omega (arith, length-drop n i is))
      ∙ ap some (apart s (take (suc n) (i ∷ is)) (drop (suc n) (i ∷ is)))
      ∙ ap (λ ids. some (mark s ids)) (take-drop (suc n) (i ∷ is))

is_in-append : (xs ys : List ℕ) (id : ℕ) → is_in (xs ++ ys) id ≡ (is_in xs id || is_in ys id)
unfolding is_in
is_in-append xs ys id = any-append (λ k. k == id) xs ys

items_apart :
    (status : ItemStatus) (xs ys : List ℕ) (items : List Item)
    → update
        (λ i. is_in ys i.id)
        (λ i. record i { status = status })
        (update (λ i. is_in xs i.id) (λ i. record i { status = status }) items)
      ≡ update (λ i. is_in (xs ++ ys) i.id) (λ i. record i { status = status }) items
items_apart status xs ys items =
    update-update (λ (i : Item). is_in xs i.id) (λ i. is_in ys i.id)
      (λ i. record i { status = status }) (λ r. refl) (λ r. refl) items
    ∙ update_ext _ _ _ (λ (r : Item). sym (is_in-append xs ys r.id)) items

any_never : (items : List Item) → any (λ i. false) items ≡ false
any_never [] = refl
any_never (i ∷ items) = any_never items

purges : List Item → List ℕ → Version → Bool
purges items ids v = any (λ i. is_in ids i.id && targets i.kind v.id) items

purges-append :
    (items : List Item) (xs ys : List ℕ) (v : Version)
    → purges items (xs ++ ys) v ≡ (purges items xs v || purges items ys v)
unfolding purges
purges-append [] xs ys v = refl
purges-append (i ∷ items) xs ys v =
    ground (arith, is_in-append xs ys i.id, purges-append items xs ys v)

versions_apart :
    (items : List Item) (xs ys : List ℕ) (versions : List Version)
    → update
        (purges (update (λ i. is_in xs i.id) (λ i. record i { status = deleted }) items) ys)
        (λ v. record v { availability = purged })
        (update (purges items xs) (λ v. record v { availability = purged }) versions)
      ≡ update (purges items (xs ++ ys)) (λ v. record v { availability = purged }) versions
unfolding purges
versions_apart items xs ys versions =
    update_ext _ _ _
      (λ (v : Version).
        any-update_same (λ (i : Item). is_in ys i.id && targets i.kind v.id) (λ i. is_in xs i.id)
          (λ i. record i { status = deleted }) (λ r. refl) items)
      _
    ∙ update-update (purges items xs) (purges items ys) (λ v. record v { availability = purged })
        (λ r. refl) (λ r. refl) versions
    ∙ update_ext _ _ _ (λ (v : Version). sym (purges-append items xs ys v)) versions

no_ids-deleted : (s : Store) → mark_batch_deleted s [] ≡ s
unfolding mark_batch_deleted is_in
no_ids-deleted s = rw (
  update_never (λ (v : Version). any (λ (i : Item). false && targets i.kind v.id) s.items)
      (λ v. record v { availability = purged }) s.versions (λ v. any_never s.items),
  update_never (λ (i : Item). false) (λ i. record i { status = deleted }) s.items (λ r. refl),
)

no_ids-failed : (s : Store) → mark_batch_failed s [] ≡ s
unfolding mark_batch_failed is_in
no_ids-failed s =
    rw (update_never (λ (i : Item). false) (λ i. record i { status = failed }) s.items (λ r. refl))

deleted_apart :
    (s : Store) (xs ys : List ℕ)
    → mark_batch_deleted (mark_batch_deleted s xs) ys ≡ mark_batch_deleted s (xs ++ ys)
unfolding mark_batch_deleted purges
deleted_apart s xs ys = λ i. record s {
  versions = versions_apart s.items xs ys s.versions i;
  items = items_apart deleted xs ys s.items i;
}

failed_apart :
    (s : Store) (xs ys : List ℕ)
    → mark_batch_failed (mark_batch_failed s xs) ys ≡ mark_batch_failed s (xs ++ ys)
unfolding mark_batch_failed
failed_apart s xs ys = ap (λ items. record s { items = items }) (items_apart failed xs ys s.items)

-- Marking items as deleted in batches of 500, and as failed in batches of 250, ends, and writes what
-- marking them all at once writes.
pub batches_are_one :
    (s : Store) (ids : List ℕ)
    → (mark_items_deleted s ids ≡ some (mark_batch_deleted s ids))
      × (mark_items_failed s ids ≡ some (mark_batch_failed s ids))
unfolding mark_items_deleted mark_items_failed
batches_are_one s ids = (
  batches_whole mark_batch_deleted no_ids-deleted deleted_apart (length ids) 499 s ids
      (omega arith),
  batches_whole mark_batch_failed no_ids-failed failed_apart (length ids) 249 s ids (omega arith),
)
