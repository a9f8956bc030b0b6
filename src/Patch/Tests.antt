-- ===== src/Patch/Tests.antt =====
-- Runs of the patch functions on small inputs, and instances of their theorems.
use borealis_coder.Prelude.{◌≡◌, refl, ◌↔◌, none, some, List, [], ◌∷◌, ok, err}
use borealis_coder.Prelude.Chars.{Text}
use borealis_coder.Patch.{
  LineKind, context, removal, addition, HunkLine, Hunk, overlapping, bare_ambiguous,
}
use borealis_coder.Patch.Lines.{splitlines, join}
use borealis_coder.Patch.Hunks.{apply_hunks, locate_bare}
use borealis_coder.Patch.Hunks.Edited.{Edited, apply_hunks_iff}
use borealis_coder.Patch.Hunks.Spliced.{IsSpliced, apply_hunks-IsSpliced}
use borealis_coder.Patch.Hunks.Located.{IsOnlyPlace, locate_bare_iff}

abbrev line : LineKind → Text → HunkLine
line k t = record { kind = k; text = t }

abbrev a : Text
a = b'a' ∷ 10 ∷ []

abbrev b : Text
b = b'b' ∷ 10 ∷ []

abbrev c : Text
c = b'c' ∷ 10 ∷ []

abbrev original : Text
original = join (a ∷ b ∷ a ∷ [])

abbrev edited : Text
edited = join (a ∷ c ∷ a ∷ [])

-- @@ -2,1 +2,1 @@
abbrev change : Hunk
change = record {
  old_start = some 2;
  old_count = 1;
  new_start = 2;
  new_count = 1;
  lines = line removal b ∷ line addition c ∷ [];
}

abbrev bare : Hunk
bare = record {
  old_start = none;
  old_count = 1;
  new_start = 0;
  new_count = 1;
  lines = line context a ∷ [];
}

change-original : apply_hunks original (change ∷ []) ≡ ok edited
unfolding apply_hunks
change-original = refl

bare-original : apply_hunks original (bare ∷ []) ≡ err (bare_ambiguous 2)
unfolding apply_hunks
bare-original = refl

twice-original : apply_hunks original (change ∷ change ∷ []) ≡ err overlapping
unfolding apply_hunks
twice-original = refl

apply_hunks_iff_example :
    (apply_hunks original (change ∷ []) ≡ ok edited)
    ↔ ((out : List Text) × Edited (splitlines original) 0 (change ∷ []) out × (edited ≡ join out))
apply_hunks_iff_example = apply_hunks_iff original (change ∷ []) edited

apply_hunks-IsSpliced_example :
    (before after : List Text) × (original ≡ join before)
    × (edited ≡ join after)
    × IsSpliced (change ∷ []) before after
apply_hunks-IsSpliced_example = apply_hunks-IsSpliced original (change ∷ []) edited change-original

locate_bare_iff_example :
    (locate_bare (a ∷ b ∷ a ∷ []) 0 (b ∷ []) ≡ ok 1) ↔ IsOnlyPlace (a ∷ b ∷ a ∷ []) 0 (b ∷ []) 1
locate_bare_iff_example = locate_bare_iff (a ∷ b ∷ a ∷ []) 0 (b ∷ []) 1
