-- ===== src/Prelude/Table/Count.antt =====
-- How many rows of a table pass a test, before and after a write.
use Prim.Native.Nat.{ℕ, suc, ◌+◌, ◌≤◌}
use mathlib.Core.Path.{◌≡◌, refl}
use mathlib.Core.Bool.{Bool, true, false}
use mathlib.Core.List.{List, [], ◌∷◌, ◌++◌}
use mathlib.Core.Option.{none}
use native.Mathlib.Omega.{arith}
use frostvault.Prelude.Tests.{if◌then◌else◌}
use frostvault.Prelude.Lists.{any}
use frostvault.Prelude.Table.{fetch_one, update}

module _ {ℓ} {A : Type ℓ} where
  -- `SELECT count(*) FROM t WHERE p`.
  unfoldable pub count : (A → Bool) → List A → ℕ
  count p [] = 0
  count p (r ∷ rs) = let rest = count p rs in if p r then suc rest else rest

  -- An update after which no row passes that did not pass before.
  pub count-update :
      (p q : A → Bool) (f : A → A)
      → ((r : A) → q r ≡ true → p (f r) ≡ true → p r ≡ true)
      → (t : List A) → count p (update q f t) ≤ count p t
  unfolding count update
  count-update p q f h [] = omega arith
  count-update p q f h (r ∷ t) = ground (arith, h r, count-update p q f h t)

  pub count-none : (p : A → Bool) (t : List A) → fetch_one p t ≡ none → count p t ≡ 0
  unfolding count fetch_one
  count-none p [] h = refl
  count-none p (r ∷ t) h = ground (arith, count-none p t)

  pub count-any : (p : A → Bool) (t : List A) → any p t ≡ false → count p t ≡ 0
  unfolding count
  count-any p [] h = refl
  count-any p (r ∷ t) h = ground (arith, count-any p t)

  pub count-append :
      (p : A → Bool) (t : List A) (r : A)
      → count p (t ++ (r ∷ [])) ≡ count p t + (if p r then 1 else 0)
  unfolding count
  count-append p [] r = ground arith
  count-append p (x ∷ t) r = ground (arith, count-append p t r)
