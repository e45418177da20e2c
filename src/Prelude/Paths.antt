-- ===== src/Prelude/Paths.antt =====
-- A relative path as the list of its segments, which is its text split at the slashes.
use mathlib.Core.Path.{◌≡◌, refl, ap, ◌∙◌}
use mathlib.Core.Bool.{Bool, true, false, not, ◌&&◌, ◌||◌}
use mathlib.Core.List.{List, [], ◌∷◌}
use native.Mathlib.Omega.{arith}
use Prim.Native.String.{String}
use text.Mathlib.Text.{◌==◌ as str_eq}
use text.Mathlib.TextEquality.{eq_iff as str_eq_iff}
use frostvault.Prelude.Lists.{all}

abbrev pub FilePath : Type 0
FilePath = List String

abbrev pub path_eq : FilePath → FilePath → Bool
path_eq [] [] = true
path_eq [] (b ∷ q) = false
path_eq (a ∷ p) [] = false
path_eq (a ∷ p) (b ∷ q) = str_eq a b && path_eq p q

-- The path starts with the directory's text and a slash.
abbrev pub is_below : FilePath → FilePath → Bool
is_below [] [] = false
is_below [] (b ∷ q) = true
is_below (a ∷ p) [] = false
is_below (a ∷ p) (b ∷ q) = str_eq a b && is_below p q

abbrev pub is_plain : String → Bool
is_plain s = not (str_eq s "") && not (str_eq s ".") && not (str_eq s "..")

-- A text that is not empty, not absolute, without `..`, and as `PurePosixPath` writes it.
abbrev pub is_relative : FilePath → Bool
is_relative [] = false
is_relative (s ∷ p) = (is_plain s && all is_plain p) || path_eq (s ∷ p) ("." ∷ [])

pub path_eq_sound : (p q : FilePath) → path_eq p q ≡ true → p ≡ q
path_eq_sound [] [] h = refl
path_eq_sound [] (b ∷ q) h = ground arith
path_eq_sound (a ∷ p) [] h = ground arith
path_eq_sound (a ∷ p) (b ∷ q) h =
    ap (λ x. x ∷ p) ((str_eq_iff a b).0 (ground arith))
    ∙ ap (λ y. b ∷ y) (path_eq_sound p q (ground arith))
