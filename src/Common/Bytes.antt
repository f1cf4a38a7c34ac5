-- ===== src/Common/Bytes.antt =====
-- C strings as lists of bytes, without the terminating zero, and the tests that the sources make
-- on them: `g_strcmp0 (a, b) == 0`, `g_str_has_prefix` and `g_str_has_suffix`.
use Prim.Native.Nat.{ℕ}
use Prim.Native.Char.{code}
use Prim.Native.String.{String}
use mathlib.Core.Path.{◌≡◌, refl}
use mathlib.Core.Logic.{◌↔◌}
use mathlib.Core.Bool.{Bool, true, false, ◌&&◌}
use mathlib.Core.List.{List, [], ◌∷◌, ◌++◌, reverse}
use mathlib.Core.Option.{Option, none, some}
use native.Mathlib.Omega.{arith}
use spacedbazaar.Common.Tests.{◌==◌}

abbrev pub Text : Type 0
Text = List ℕ

-- The bytes of a literal of the sources, which are ASCII.
abbrev pub codes : String → Text
codes String.[] = []
codes (String.◌∷◌ c s) = code c ∷ codes s

unfoldable pub text_eq : Text → Text → Bool
text_eq [] [] = true
text_eq [] (_ ∷ _) = false
text_eq (_ ∷ _) [] = false
text_eq (a ∷ s) (b ∷ t) = (a == b) && text_eq s t

pub text_eq_iff : (s t : Text) → (text_eq s t ≡ true) ↔ (s ≡ t)
unfolding text_eq
text_eq_iff [] [] = ground arith
text_eq_iff [] (b ∷ t) = ground arith
text_eq_iff (a ∷ s) [] = ground arith
text_eq_iff (a ∷ s) (b ∷ t) = ground (arith, text_eq_iff s t)

pub text_eq_refl : (s : Text) → text_eq s s ≡ true
text_eq_refl s = (text_eq_iff s s).1 refl

-- `g_strcmp0` takes NULL, which equals itself alone.
unfoldable pub strcmp0_eq : Option Text → Option Text → Bool
strcmp0_eq none none = true
strcmp0_eq none (some _) = false
strcmp0_eq (some _) none = false
strcmp0_eq (some s) (some t) = text_eq s t

pub strcmp0_eq_iff : (s t : Option Text) → (strcmp0_eq s t ≡ true) ↔ (s ≡ t)
unfolding strcmp0_eq
strcmp0_eq_iff none none = ground arith
strcmp0_eq_iff none (some t) = ground arith
strcmp0_eq_iff (some s) none = ground arith
strcmp0_eq_iff (some s) (some t) = ground (arith, text_eq_iff s t)

unfoldable pub has_prefix : Text → Text → Bool
has_prefix s [] = true
has_prefix [] (_ ∷ _) = false
has_prefix (a ∷ s) (b ∷ p) = (a == b) && has_prefix s p

pub has_prefix-append : (p s : Text) → has_prefix (p ++ s) p ≡ true
unfolding has_prefix
has_prefix-append [] [] = refl
has_prefix-append [] (_ ∷ _) = refl
has_prefix-append (a ∷ p) s = ground (arith, has_prefix-append p s)

unfoldable pub has_suffix : Text → Text → Bool
unfolding has_prefix
has_suffix s p = has_prefix (reverse s) (reverse p)
