-- ===== src/Prelude/Chars.antt =====
-- Text as its code points, where the program walks it, and the character classes of Python's `str`.
use Prim.Native.Nat.{ℕ}
use Prim.Native.Char.{code}
use Prim.Native.String.{String}
use mathlib.Core.Path.{◌≡◌, refl}
use mathlib.Core.Bool.{Bool, true, false, ◌&&◌, ◌||◌}
use mathlib.Core.Option.{Option, none, some}
use mathlib.Core.List.{List, [], ◌∷◌, reverse}
use native.Mathlib.Omega.{arith}
use borealis_coder.Prelude.Tests.{leb, ◌==◌, if◌then◌else◌}

abbrev pub Text : Type 0
Text = List ℕ

abbrev pub codes : String → Text
codes String.[] = []
codes (String.◌∷◌ c s) = code c ∷ codes s

-- str.isspace
unfoldable pub is_space : ℕ → Bool
is_space c =
    (leb 9 c && leb c 13)
    || (leb 28 c && leb c 32)
    || c == 0x85
    || c == 0xa0
    || c == 0x1680
    || (leb 0x2000 c && leb c 0x200a)
    || c == 0x2028
    || c == 0x2029
    || c == 0x202f
    || c == 0x205f
    || c == 0x3000

-- The characters at which str.splitlines ends a line.
unfoldable pub is_line_end : ℕ → Bool
is_line_end c =
    (leb 10 c && leb c 13) || (leb 28 c && leb c 30) || c == 0x85 || c == 0x2028 || c == 0x2029

abbrev pub text_eq : Text → Text → Bool
text_eq [] [] = true
text_eq [] (d ∷ t) = false
text_eq (c ∷ s) [] = false
text_eq (c ∷ s) (d ∷ t) = c == d && text_eq s t

-- s.startswith(p)
abbrev pub has_prefix : Text → Text → Bool
has_prefix [] s = true
has_prefix (d ∷ p) [] = false
has_prefix (d ∷ p) (c ∷ s) = d == c && has_prefix p s

pub text_eq_refl : (s : Text) → text_eq s s ≡ true
text_eq_refl [] = refl
text_eq_refl (c ∷ s) = ground (arith, text_eq_refl s)

pub text_eq-eq : (s t : Text) → text_eq s t ≡ true → s ≡ t
text_eq-eq [] [] h = refl
text_eq-eq [] (d ∷ t) h = cc
text_eq-eq (c ∷ s) [] h = cc
text_eq-eq (c ∷ s) (d ∷ t) h = ground (arith, text_eq-eq s t)

-- s.lstrip()
unfoldable pub lstrip : Text → Text
unfolding is_space
lstrip [] = []
lstrip (c ∷ s) = let rest = lstrip s in if is_space c then rest else c ∷ s

-- s.rstrip(): drops the trailing characters that satisfy the test.
unfoldable pub rstrip_by : (ℕ → Bool) → Text → Text
rstrip_by p [] = []
rstrip_by p (c ∷ s) = elim (rstrip_by p s) [ [] ↦ if p c then [] else c ∷ [] | d ∷ r ↦ c ∷ d ∷ r ]

unfoldable pub strip : Text → Text
unfolding lstrip rstrip_by is_space
strip s = rstrip_by is_space (lstrip s)

-- `not s.strip()`
unfoldable pub is_blank : String → Bool
unfolding is_space
is_blank String.[] = true
is_blank (String.◌∷◌ c s) = is_space (code c) && is_blank s

-- s.endswith(p)
abbrev pub has_suffix : Text → Text → Bool
has_suffix p s = has_prefix (reverse p) (reverse s)

-- `p in s`
abbrev pub contains : Text → Text → Bool
contains p [] = has_prefix p []
contains p (c ∷ s) = has_prefix p (c ∷ s) || contains p s

-- `s in {…}`
unfoldable pub elem_text : Text → List Text → Bool
elem_text s [] = false
elem_text s (t ∷ ts) = text_eq t s || elem_text s ts

abbrev pub elem_char : ℕ → List ℕ → Bool
elem_char c [] = false
elem_char c (d ∷ ds) = d == c || elem_char c ds

-- What stands behind the last separator; the first text if there is none.
abbrev from_last : ℕ → Text → Text → Text
from_last sep best [] = best
from_last sep best (c ∷ s) = from_last sep (if c == sep then s else best) s

-- s.rsplit(sep, 1)[-1]
abbrev pub after_last : ℕ → Text → Text
after_last sep s = from_last sep s s

-- s[len(p):] if s.startswith(p)
abbrev pub after_prefix : Text → Text → Option Text
after_prefix [] s = some s
after_prefix (d ∷ p) [] = none
after_prefix (d ∷ p) (c ∷ s) = if d == c then after_prefix p s else none

-- s.split(sep, 1)[0]
abbrev pub before_first : ℕ → Text → Text
before_first sep [] = []
before_first sep (c ∷ s) = if c == sep then [] else c ∷ before_first sep s

-- `s.startswith(ps)` for a tuple `ps`
abbrev pub has_any_prefix : List Text → Text → Bool
has_any_prefix [] s = false
has_any_prefix (p ∷ ps) s = has_prefix p s || has_any_prefix ps s
