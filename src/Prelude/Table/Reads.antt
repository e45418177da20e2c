-- ===== src/Prelude/Table/Reads.antt =====
-- What a read finds after a write of the table.
use mathlib.Core.Path.{◌≡◌, refl, ap, subst}
use mathlib.Core.Bool.{Bool, true, false, not, ◌&&◌, ◌||◌}
use mathlib.Core.List.{List, [], ◌∷◌, ◌++◌, map}
use mathlib.Core.Logic.{inl, inr}
use mathlib.Core.Option.{none, some}
use Prim.Native.Nat.{ℕ, zero, suc, min}
use native.Mathlib.Omega.{arith}
use frostvault.Prelude.Tests.{if◌then◌else◌, Bool-cases, opt_map, is_some}
use frostvault.Prelude.Lists.{length, All, any, all, take}
use frostvault.Prelude.Table.{select, fetch_one, update, delete}

module _ {ℓ} {A : Type ℓ} (p : A → Bool) where
  pub fetch_one-holds : (t : List A) (r : A) → fetch_one p t ≡ some r → p r ≡ true
  unfolding fetch_one
  fetch_one-holds [] r h = ground arith
  fetch_one-holds (x ∷ t) r h = ground (arith, fetch_one-holds t r)

  pub any-fetch_one : (t : List A) (r : A) → fetch_one p t ≡ some r → any p t ≡ true
  unfolding fetch_one
  any-fetch_one [] r h = ground arith
  any-fetch_one (x ∷ t) r h = ground (arith, any-fetch_one t r)

  pub fetch_one-append_missing :
      (t : List A) (r : A)
      → fetch_one p t ≡ none
      → p r ≡ true
      → fetch_one p (t ++ (r ∷ [])) ≡ some r
  unfolding fetch_one
  fetch_one-append_missing [] r h e = ground arith
  fetch_one-append_missing (x ∷ t) r h e = ground (arith, fetch_one-append_missing t r)

  pub fetch_one-append_exists :
      (t : List A) (r : A) → p r ≡ true → is_some (fetch_one p (t ++ (r ∷ []))) ≡ true
  unfolding fetch_one
  fetch_one-append_exists [] r e = ground arith
  fetch_one-append_exists (x ∷ t) r e = ground (arith, fetch_one-append_exists t r e)

  pub fetch_one-append_other :
      (t : List A) (r : A) → p r ≡ false → fetch_one p (t ++ (r ∷ [])) ≡ fetch_one p t
  unfolding fetch_one
  fetch_one-append_other [] r e = ground arith
  fetch_one-append_other (x ∷ t) r e = ground (arith, fetch_one-append_other t r e)

  pub fetch_one-delete_self : (t : List A) → fetch_one p (delete p t) ≡ none
  unfolding fetch_one delete
  fetch_one-delete_self [] = refl
  fetch_one-delete_self (x ∷ t) = ground (arith, fetch_one-delete_self t)

  pub fetch_one-delete_other :
      (q : A → Bool)
      → ((r : A) → q r ≡ true → p r ≡ false)
      → (t : List A) → fetch_one p (delete q t) ≡ fetch_one p t
  unfolding fetch_one delete
  fetch_one-delete_other q h [] = refl
  fetch_one-delete_other q h (x ∷ t) = ground (arith, h x, fetch_one-delete_other q h t)

  pub fetch_one-update_self :
      (f : A → A)
      → ((r : A) → p r ≡ true → p (f r) ≡ true)
      → (t : List A) → fetch_one p (update p f t) ≡ opt_map f (fetch_one p t)
  unfolding fetch_one update
  fetch_one-update_self f h [] = refl
  fetch_one-update_self f h (x ∷ t) = ground (arith, h x, fetch_one-update_self f h t)

  pub fetch_one-update_other :
      (q : A → Bool) (f : A → A)
      → ((r : A) → q r ≡ true → p (f r) ≡ false)
      → ((r : A) → q r ≡ true → p r ≡ false)
      → (t : List A) → fetch_one p (update q f t) ≡ fetch_one p t
  unfolding fetch_one update
  fetch_one-update_other q f h k [] = refl
  fetch_one-update_other q f h k (x ∷ t) =
      ground (arith, h x, k x, fetch_one-update_other q f h k t)

  -- An update that leaves the answer of `p` alone shows as one in what is read.
  pub fetch_one-update :
      (q : A → Bool) (f : A → A)
      → ((r : A) → q r ≡ true → p (f r) ≡ p r)
      → (t : List A)
      → fetch_one p (update q f t) ≡ opt_map (λ r. if q r then f r else r) (fetch_one p t)
  unfolding fetch_one update
  fetch_one-update q f h [] = refl
  fetch_one-update q f h (x ∷ t) = ground (arith, h x, fetch_one-update q f h t)

module _ {ℓ} {A : Type ℓ} where
  pub length-update : (p : A → Bool) (f : A → A) (t : List A) → length (update p f t) ≡ length t
  unfolding update
  length-update p f [] = refl
  length-update p f (x ∷ t) = ap suc (length-update p f t)

  pub All-update {κ} :
      (P : A → Type κ) (p : A → Bool) (f : A → A)
      → ((r : A) → P r → p r ≡ true → P (f r))
      → (t : List A) → All P t
      → All P (update p f t)
  unfolding update
  All-update P p f h [] a = a
  All-update P p f h (x ∷ t) a = elim (Bool-cases (p x)) [
    | inl e ↦ (rw e (h x a.0 e), All-update P p f h t a.1)
    | inr e ↦ (rw e a.0, All-update P p f h t a.1)
  ]

  pub All-fetch_one {κ} :
      (P : A → Type κ) (p : A → Bool) (t : List A) (r : A) → All P t → fetch_one p t ≡ some r → P r
  unfolding fetch_one
  All-fetch_one P p [] r a h = absurd (ground arith)
  All-fetch_one P p (x ∷ t) r a h = elim (Bool-cases (p x)) [
    | inl e ↦ let same : x ≡ r = ground arith in subst P same a.0
    | inr e ↦ All-fetch_one P p t r a.1 (ground arith)
  ]

  pub update_nothing : (p : A → Bool) (f : A → A) (t : List A) → any p t ≡ false → update p f t ≡ t
  unfolding update
  update_nothing p f [] h = refl
  update_nothing p f (x ∷ t) h = ground (arith, update_nothing p f t)

  pub update_never :
      (p : A → Bool) (f : A → A) (t : List A) → ((r : A) → p r ≡ false) → update p f t ≡ t
  unfolding update
  update_never p f [] h = refl
  update_never p f (x ∷ t) h = ground (arith, h x, update_never p f t h)

  -- A test that all selected rows pass is passed by a selected row that can be fetched.
  pub all-select-fetch_one :
      (p q find : A → Bool) (t : List A) (r : A)
      → all q (select p t) ≡ true
      → fetch_one find t ≡ some r
      → p r ≡ true
      → q r ≡ true
  unfolding select fetch_one
  all-select-fetch_one p q find [] r h f e = ground arith
  all-select-fetch_one p q find (x ∷ t) r h f e = ground (arith, all-select-fetch_one p q find t r)

  pub update_ext :
      (p q : A → Bool) (f : A → A)
      → ((r : A) → p r ≡ q r)
      → (t : List A) → update p f t ≡ update q f t
  unfolding update
  update_ext p q f h [] = refl
  update_ext p q f h (x ∷ t) = ground (arith, h x, update_ext p q f h t)

  -- An update that turns the selected rows into the rows that `q` selects.
  pub select-update :
      (p q : A → Bool) (f : A → A)
      → ((r : A) → p r ≡ true → q (f r) ≡ true)
      → ((r : A) → p r ≡ false → q r ≡ false)
      → (t : List A) → select q (update p f t) ≡ map f (select p t)
  unfolding select update
  select-update p q f h k [] = refl
  select-update p q f h k (x ∷ t) = ground (arith, h x, k x, select-update p q f h k t)

  pub select_ext : (p q : A → Bool) → ((r : A) → p r ≡ q r) → (t : List A) → select p t ≡ select q t
  unfolding select
  select_ext p q h [] = refl
  select_ext p q h (x ∷ t) = ground (arith, h x, select_ext p q h t)

  pub all-map :
      (f : A → A) (q : A → Bool)
      → ((r : A) → q (f r) ≡ true)
      → (t : List A) → all q (map f t) ≡ true
  all-map f q h [] = refl
  all-map f q h (x ∷ t) = ground (arith, h x, all-map f q h t)

  pub all-map_fails :
      (f : A → A) (q : A → Bool)
      → ((r : A) → q (f r) ≡ false)
      → (t : List A) → any (λ r. true) t ≡ true
      → all q (map f t) ≡ false
  all-map_fails f q h [] e = ground arith
  all-map_fails f q h (x ∷ t) e = ground (arith, h x)

  pub All-select {κ} :
      (P : A → Type κ) (q : A → Bool)
      → ((r : A) → q r ≡ true → P r)
      → (t : List A) → All P (select q t)
  unfolding select
  All-select P q h [] = tt
  All-select P q h (x ∷ t) = elim (Bool-cases (q x)) [
    | inl e ↦ rw e (h x e, All-select P q h t)
    | inr e ↦ rw e (All-select P q h t)
  ]

  -- What is read after a row was inserted.
  pub map-select-append {κ} :
      {B : Type κ} (f : A → B) (p : A → Bool) (t : List A) (x : A)
      → map f (select p (t ++ (x ∷ []))) ≡ map f (select p t) ++ (if p x then f x ∷ [] else [])
  unfolding select
  map-select-append f p [] x = ground arith
  map-select-append f p (y ∷ t) x = ground (arith, map-select-append f p t x)

  pub select-append : (p : A → Bool) (t u : List A) → select p (t ++ u) ≡ select p t ++ select p u
  unfolding select
  select-append p [] u = refl
  select-append p (x ∷ t) u = ground (arith, select-append p t u)

  -- Rows that were read before a delete and pass the test that the delete leaves standing.
  pub map-select-delete {κ} :
      {B : Type κ} (f : A → B) (p q : A → Bool) (g : B → Bool)
      → ((r : A) → p r ≡ true → g (f r) ≡ not (q r))
      → (t : List A) → map f (select p (delete q t)) ≡ select g (map f (select p t))
  unfolding select delete
  map-select-delete f p q g h [] = refl
  map-select-delete f p q g h (x ∷ t) = ground (arith, h x, map-select-delete f p q g h t)

  pub select-delete_other :
      (p q : A → Bool)
      → ((r : A) → q r ≡ true → p r ≡ false)
      → (t : List A) → select p (delete q t) ≡ select p t
  unfolding select delete
  select-delete_other p q h [] = refl
  select-delete_other p q h (x ∷ t) = ground (arith, h x, select-delete_other p q h t)

  -- A test of what is read of the rows, moved behind the reading.
  pub map-select_and {κ} :
      {B : Type κ} (f : A → B) (p q : A → Bool) (g : B → Bool)
      → ((r : A) → g (f r) ≡ q r)
      → (t : List A) → map f (select (λ r. p r && q r) t) ≡ select g (map f (select p t))
  unfolding select
  map-select_and f p q g h [] = refl
  map-select_and f p q g h (x ∷ t) = ground (arith, h x, map-select_and f p q g h t)

  pub select-select :
      (p q r : A → Bool)
      → ((x : A) → r x ≡ (q x && p x))
      → (t : List A) → select p (select q t) ≡ select r t
  unfolding select
  select-select p q r h [] = refl
  select-select p q r h (x ∷ t) = ground (arith, h x, select-select p q r h t)

  pub All-take {κ} : (P : A → Type κ) (n : ℕ) (t : List A) → All P t → All P (take n t)
  All-take P zero t h = tt
  All-take P (suc n) [] h = tt
  All-take P (suc n) (x ∷ t) h = (h.0, All-take P n t h.1)

  pub length-take : (n : ℕ) (t : List A) → length (take n t) ≡ min n (length t)
  length-take zero t = omega arith
  length-take (suc n) [] = omega arith
  length-take (suc n) (x ∷ t) = omega (arith, length-take n t)

  -- A row that is found stays found when another is appended.
  pub fetch_one-append_found :
      (p : A → Bool) (t : List A) (r new : A)
      → fetch_one p t ≡ some r
      → fetch_one p (t ++ (new ∷ [])) ≡ some r
  unfolding fetch_one
  fetch_one-append_found p [] r new h = ground arith
  fetch_one-append_found p (x ∷ t) r new h = ground (arith, fetch_one-append_found p t r new)

  pub any-of-fetch_one :
      (find p : A → Bool) (t : List A) (r : A)
      → fetch_one find t ≡ some r
      → p r ≡ true
      → any p t ≡ true
  unfolding fetch_one
  any-of-fetch_one find p [] r h e = ground arith
  any-of-fetch_one find p (x ∷ t) r h e = ground (arith, any-of-fetch_one find p t r)

  pub any-update_none :
      (p q : A → Bool) (f : A → A)
      → ((r : A) → p r ≡ true → q (f r) ≡ false)
      → ((r : A) → p r ≡ false → q r ≡ false)
      → (t : List A) → any q (update p f t) ≡ false
  unfolding update
  any-update_none p q f h k [] = refl
  any-update_none p q f h k (x ∷ t) = ground (arith, h x, k x, any-update_none p q f h k t)

  -- Two updates that write the same are one.
  pub update-update :
      (p q : A → Bool) (f : A → A)
      → ((r : A) → f (f r) ≡ f r)
      → ((r : A) → q (f r) ≡ q r)
      → (t : List A) → update q f (update p f t) ≡ update (λ r. p r || q r) f t
  unfolding update
  update-update p q f h k [] = refl
  update-update p q f h k (x ∷ t) = ground (arith, h x, k x, update-update p q f h k t)

  -- Two updates of which the second leaves out what the first has written.
  pub update-update_done :
      (p q : A → Bool) (f : A → A)
      → ((r : A) → p r ≡ true → q (f r) ≡ false)
      → (t : List A) → update q f (update p f t) ≡ update (λ r. p r || q r) f t
  unfolding update
  update-update_done p q f h [] = refl
  update-update_done p q f h (x ∷ t) = ground (arith, h x, update-update_done p q f h t)

  -- An update that writes all of the rows that `q` selects, and makes none of them.
  pub select-update_none :
      (p q : A → Bool) (f : A → A)
      → ((r : A) → p r ≡ true → q (f r) ≡ false)
      → (t : List A) → all (λ r. not (q r) || p r) t ≡ true
      → select q (update p f t) ≡ []
  unfolding select update
  select-update_none p q f h [] e = refl
  select-update_none p q f h (x ∷ t) e = ground (arith, h x, select-update_none p q f h t)

  pub any-update_same :
      (p q : A → Bool) (f : A → A)
      → ((r : A) → p (f r) ≡ p r)
      → (t : List A) → any p (update q f t) ≡ any p t
  unfolding update
  any-update_same p q f h [] = refl
  any-update_same p q f h (x ∷ t) = ground (arith, h x, any-update_same p q f h t)

  pub any_ext : (p q : A → Bool) → ((r : A) → p r ≡ q r) → (t : List A) → any p t ≡ any q t
  any_ext p q h [] = refl
  any_ext p q h (x ∷ t) = ground (arith, h x, any_ext p q h t)
