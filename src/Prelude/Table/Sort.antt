-- ===== src/Prelude/Table/Sort.antt =====
-- Python's stable `sorted` and SQL's `ORDER BY`, as insertion by a Boolean order.
use mathlib.Core.Path.{◌≡◌, refl, ap, ◌∙◌}
use mathlib.Core.Bool.{Bool}
use mathlib.Core.List.{List, [], ◌∷◌, Perm, map}
use mathlib.Core.List.Perm
use mathlib.Core.Logic.{inl, inr}
use native.Mathlib.Omega.{arith}
use frostvault.Prelude.Tests.{if◌then◌else◌, Bool-cases}
use frostvault.Prelude.Lists.{All, length}
use Prim.Native.Nat.{suc}

module _ {ℓ} {A : Type ℓ} (before : A → A → Bool) where
  -- `x` goes in front of the first item that is strictly after it, so that equal items keep their
  -- order where `insert` is fed from the end of the list.
  unfoldable pub insert : A → List A → List A
  insert x [] = x ∷ []
  insert x (y ∷ ys) = let rest = insert x ys in if before x y then x ∷ y ∷ ys else y ∷ rest

  unfoldable pub sorted : List A → List A
  unfolding insert
  sorted [] = []
  sorted (x ∷ xs) = insert x (sorted xs)

  insert-perm : (x : A) (ys : List A) → Perm (insert x ys) (x ∷ ys)
  unfolding insert
  insert-perm x [] = Perm.refl _
  insert-perm x (y ∷ ys) = elim (Bool-cases (before x y)) [
    | inl e ↦ rw e (Perm.refl _)
    | inr e ↦ rw e (Perm.trans (Perm.cons y (insert-perm x ys)) (Perm.swap x y ys))
  ]

  pub sorted-perm : (xs : List A) → Perm (sorted xs) xs
  unfolding sorted
  sorted-perm [] = Perm.refl _
  sorted-perm (x ∷ xs) = Perm.trans (insert-perm x (sorted xs)) (Perm.cons x (sorted-perm xs))

  pub All-insert {κ} : (P : A → Type κ) (x : A) (ys : List A) → P x → All P ys → All P (insert x ys)
  unfolding insert
  All-insert P x [] h hs = (h, tt)
  All-insert P x (y ∷ ys) h hs = elim (Bool-cases (before x y)) [
    | inl e ↦ rw e (h, hs)
    | inr e ↦ rw e (hs.0, All-insert P x ys h hs.1)
  ]

  pub All-sorted {κ} : (P : A → Type κ) (xs : List A) → All P xs → All P (sorted xs)
  unfolding sorted
  All-sorted P [] hs = hs
  All-sorted P (x ∷ xs) hs = All-insert P x (sorted xs) hs.0 (All-sorted P xs hs.1)

  length-insert : (x : A) (ys : List A) → length (insert x ys) ≡ suc (length ys)
  unfolding insert
  length-insert x [] = refl
  length-insert x (y ∷ ys) = ground (arith, length-insert x ys)

  pub length-sorted : (xs : List A) → length (sorted xs) ≡ length xs
  unfolding sorted
  length-sorted [] = refl
  length-sorted (x ∷ xs) = length-insert x (sorted xs) ∙ ap suc (length-sorted xs)

module _ {ℓ κ} {A : Type ℓ} {B : Type κ} (f : A → B) (before : A → A → Bool)
    (below : B → B → Bool) where
  module _ (same : (x y : A) → below (f x) (f y) ≡ before x y) where
    map-insert : (x : A) (ys : List A) → map f (insert before x ys) ≡ insert below (f x) (map f ys)
    unfolding insert
    map-insert x [] = refl
    map-insert x (y ∷ ys) = ground (arith, same x y, map-insert x ys)

    -- Sorting commutes with reading the columns that it looks at.
    pub map-sorted : (xs : List A) → map f (sorted before xs) ≡ sorted below (map f xs)
    unfolding sorted
    map-sorted [] = refl
    map-sorted (x ∷ xs) = map-insert x (sorted before xs) ∙ ap (insert below (f x)) (map-sorted xs)
