-- ===== src/Prelude/Table.antt =====
-- A database table as the list of its rows, and the statements that the program runs on it.
pub mod Reads
pub mod Sort
pub mod Count
pub mod Pairwise
use mathlib.Core.Path.{◌≡◌, refl}
use mathlib.Core.Bool.{Bool, true, false, ◌&&◌}
use mathlib.Core.List.{List, [], ◌∷◌, map}
use mathlib.Core.Option.{Option, none, some}
use Prim.Native.Nat.{ℕ, suc, ◌+◌, ◌≤◌}
use native.Mathlib.Omega.{arith}
use frostvault.Prelude.Tests.{if◌then◌else◌, Bool-cases}
use frostvault.Prelude.Lists.{length, All, any}

module _ {ℓ} {A : Type ℓ} where
  -- `SELECT * FROM t WHERE p`.
  unfoldable pub select : (A → Bool) → List A → List A
  select p [] = []
  select p (r ∷ rs) = let rest = select p rs in if p r then r ∷ rest else rest

  -- `SELECT * FROM t WHERE p`, then `fetchone()`.
  unfoldable pub fetch_one : (A → Bool) → List A → Option A
  fetch_one p [] = none
  fetch_one p (r ∷ rs) = let rest = fetch_one p rs in if p r then some r else rest

  -- `UPDATE t SET f WHERE p`.
  unfoldable pub update : (A → Bool) → (A → A) → List A → List A
  update p f [] = []
  update p f (r ∷ rs) = (if p r then f r else r) ∷ update p f rs

  -- `DELETE FROM t WHERE p`.
  unfoldable pub delete : (A → Bool) → List A → List A
  delete p [] = []
  delete p (r ∷ rs) = let rest = delete p rs in if p r then rest else r ∷ rest
