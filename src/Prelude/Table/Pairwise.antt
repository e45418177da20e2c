-- ===== src/Prelude/Table/Pairwise.antt =====
-- Lists whose items are pairwise related, and what keeps them so.
use mathlib.Core.Bool.{Bool}
use mathlib.Core.List.{List, [], ◌∷◌, ◌++◌}
use mathlib.Core.Logic.{inl, inr}
use frostvault.Prelude.Tests.{Bool-cases}
use frostvault.Prelude.Lists.{All}
use frostvault.Prelude.Table.{select}
use frostvault.Prelude.Table.Sort.{insert, sorted, All-sorted, All-insert}

module _ {ℓ} {A : Type ℓ} where
  abbrev pub Pairwise {κ} : (A → A → Type κ) → List A → Type κ
  Pairwise R [] = Unit
  Pairwise R (x ∷ xs) = All (R x) xs × Pairwise R xs

  pub All-weaken {κ μ} :
      (P : A → Type κ) (Q : A → Type μ)
      → ((x : A) → P x → Q x)
      → (xs : List A) → All P xs
      → All Q xs
  All-weaken P Q h [] a = tt
  All-weaken P Q h (x ∷ xs) a = (h x a.0, All-weaken P Q h xs a.1)

  pub All-zip {κ μ ν} :
      (P : A → Type κ) (Q : A → Type μ) (R : A → Type ν)
      → ((x : A) → P x → Q x → R x)
      → (xs : List A) → All P xs
      → All Q xs
      → All R xs
  All-zip P Q R h [] a b = tt
  All-zip P Q R h (x ∷ xs) a b = (h x a.0 b.0, All-zip P Q R h xs a.1 b.1)

  pub All-append {κ} : (P : A → Type κ) (xs ys : List A) → All P xs → All P ys → All P (xs ++ ys)
  All-append P [] ys a b = b
  All-append P (x ∷ xs) ys a b = (a.0, All-append P xs ys a.1 b)

  pub All-left {κ} : (P : A → Type κ) (xs ys : List A) → All P (xs ++ ys) → All P xs
  All-left P [] ys a = tt
  All-left P (x ∷ xs) ys a = (a.0, All-left P xs ys a.1)

  pub All-without {κ} :
      (P : A → Type κ) (xs : List A) (x : A) (ys : List A)
      → All P (xs ++ (x ∷ ys))
      → All P (xs ++ ys)
  All-without P [] x ys a = a.1
  All-without P (z ∷ xs) x ys a = (a.0, All-without P xs x ys a.1)

  All-middle {κ} :
      (P : A → Type κ) (xs : List A) (x : A) (ys : List A) → All P (xs ++ (x ∷ ys)) → P x
  All-middle P [] x ys a = a.0
  All-middle P (z ∷ xs) x ys a = All-middle P xs x ys a.1

  pub All-select_kept {κ} :
      (P : A → Type κ) (q : A → Bool) (xs : List A) → All P xs → All P (select q xs)
  unfolding select
  All-select_kept P q [] a = tt
  All-select_kept P q (x ∷ xs) a = elim (Bool-cases (q x)) [
    | inl e ↦ rw e (a.0, All-select_kept P q xs a.1)
    | inr e ↦ rw e (All-select_kept P q xs a.1)
  ]

  module _ {κ} (R : A → A → Type κ) where
    pub Pairwise-left : (xs ys : List A) → Pairwise R (xs ++ ys) → Pairwise R xs
    Pairwise-left [] ys p = tt
    Pairwise-left (x ∷ xs) ys p = (All-left (R x) xs ys p.0, Pairwise-left xs ys p.1)

    pub Pairwise-without :
        (xs : List A) (x : A) (ys : List A) → Pairwise R (xs ++ (x ∷ ys)) → Pairwise R (xs ++ ys)
    Pairwise-without [] x ys p = p.1
    Pairwise-without (z ∷ xs) x ys p = (All-without (R z) xs x ys p.0, Pairwise-without xs x ys p.1)

    pub Pairwise-select : (q : A → Bool) (xs : List A) → Pairwise R xs → Pairwise R (select q xs)
    unfolding select
    Pairwise-select q [] p = tt
    Pairwise-select q (x ∷ xs) p = elim (Bool-cases (q x)) [
      | inl e ↦ rw e (All-select_kept (R x) q xs p.0, Pairwise-select q xs p.1)
      | inr e ↦ rw e (Pairwise-select q xs p.1)
    ]

    module _ (symmetric : (x y : A) → R x y → R y x) where
      -- An item is related to those before it and those after it.
      pub Pairwise-middle :
          (xs : List A) (x : A) (ys : List A) → Pairwise R (xs ++ (x ∷ ys)) → All (R x) (xs ++ ys)
      Pairwise-middle [] x ys p = p.0
      Pairwise-middle (z ∷ xs) x ys p =
          (symmetric z x (All-middle (R z) xs x ys p.0), Pairwise-middle xs x ys p.1)

      Pairwise-insert :
          (before : A → A → Bool) (x : A) (ys : List A)
          → All (R x) ys
          → Pairwise R ys
          → Pairwise R (insert before x ys)
      unfolding insert
      Pairwise-insert before x [] a p = (tt, tt)
      Pairwise-insert before x (y ∷ ys) a p = elim (Bool-cases (before x y)) [
        | inl e ↦ rw e (a, p)
        | inr e ↦ rw e (
          All-insert before (R y) x ys (symmetric x y a.0) p.0,
          Pairwise-insert before x ys a.1 p.1,
        )
      ]

      pub Pairwise-sorted :
          (before : A → A → Bool) (xs : List A) → Pairwise R xs → Pairwise R (sorted before xs)
      unfolding sorted
      Pairwise-sorted before [] p = tt
      Pairwise-sorted before (x ∷ xs) p =
          Pairwise-insert before x (sorted before xs) (All-sorted before (R x) xs p.0)
            (Pairwise-sorted before xs p.1)
