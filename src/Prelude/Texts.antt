-- ===== src/Prelude/Texts.antt =====
-- Texts of the source as lists of character codes: the comparisons that it makes.
use Prim.Native.Nat.{ℕ}
use mathlib.Core.Path.{◌≡◌, refl}
use mathlib.Core.Bool.{Bool, true, false, ◌&&◌}
use mathlib.Core.List.{List, [], ◌∷◌, ◌++◌}
use native.Mathlib.Omega.{arith}
use react_fs.Prelude.Tests.{◌==◌}

-- A text has no character 0, since that ends it in C; nothing below depends on it.
abbrev pub Text : Type 0
Text = List ℕ

abbrev pub is_empty : Text → Bool
is_empty [] = true
is_empty (c ∷ s) = false

-- `strlen(a) == b.length() && strncmp(a, b, b.length()) == 0`
unfoldable pub same_text : Text → Text → Bool
same_text [] [] = true
same_text [] (d ∷ t) = false
same_text (c ∷ s) [] = false
same_text (c ∷ s) (d ∷ t) = c == d && same_text s t

-- `strncmp(a, b, b.length()) == 0`: b is a prefix of a.
unfoldable pub has_prefix : Text → Text → Bool
has_prefix s [] = true
has_prefix [] (d ∷ t) = false
has_prefix (c ∷ s) (d ∷ t) = c == d && has_prefix s t

pub same_text_refl : (s : Text) → same_text s s ≡ true
unfolding same_text
same_text_refl [] = refl
same_text_refl (c ∷ s) = ground (arith, same_text_refl s)

pub eq-of_same_text : (s t : Text) → same_text s t ≡ true → s ≡ t
unfolding same_text
eq-of_same_text [] [] h = refl
eq-of_same_text [] (d ∷ t) h = cc
eq-of_same_text (c ∷ s) [] h = cc
eq-of_same_text (c ∷ s) (d ∷ t) h = ground (arith, eq-of_same_text s t)

-- A text starts with itself, and with any part at its front.
pub has_prefix_refl : (s : Text) → has_prefix s s ≡ true
unfolding has_prefix
has_prefix_refl [] = refl
has_prefix_refl (c ∷ s) = ground (arith, has_prefix_refl s)

pub has_prefix-append : (s t : Text) → has_prefix (s ++ t) s ≡ true
unfolding has_prefix
has_prefix-append [] t = refl
has_prefix-append (c ∷ s) t = ground (arith, has_prefix-append s t)
