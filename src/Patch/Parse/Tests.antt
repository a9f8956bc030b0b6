-- ===== src/Patch/Parse/Tests.antt =====
-- Runs of the parsers on small patches, and instances of their theorems.
use borealis_coder.Prelude.{
  ℕ, ◌-◌, ◌≡◌, ◌≢◌, refl, false, ◌&&◌, Option, none, some, List, [], ◌∷◌, map, ok, err, All, leb,
  if◌then◌else◌, arith,
}
use borealis_coder.Prelude.Chars.{Text, codes}
use borealis_coder.Patch.{
  LineKind, context, removal, addition, HunkLine, Hunk, FilePatch, IsCounted, too_short, no_end,
  hunk_counts, renames,
}
use borealis_coder.Patch.Ends.{Ends}
use borealis_coder.Patch.Hunks.{apply_hunks}
use borealis_coder.Patch.Parse.{parse_update_hunks}
use borealis_coder.Patch.Parse.Unified.{parse_unified, parse_patch}
use borealis_coder.Patch.Parse.Unified.Counted.{AllCounted, parse_unified-counts}
use borealis_coder.Patch.Parse.Unified.Total.{parse_patch-Ends}
use borealis_coder.Patch.Parse.Printed.{bare, print_bodies, parse_update_hunks-print_bodies}

abbrev digit : ℕ → Option ℕ
digit c = if leb b'0' c && leb c b'9' then some (c - b'0') else none

abbrev change : List HunkLine
change =
    record { kind = removal; text = codes "b\n" }
    ∷ record { kind = addition; text = codes "c\n" }
    ∷ []

abbrev diff : Text
diff = codes "--- a/x\n+++ b/x\n@@ -2 +2,1 @@\n-b\n+c\n"

abbrev change_of_x : FilePatch
change_of_x = record {
  old_path = some (codes "x");
  new_path = some (codes "x");
  hunks =
      record { old_start = some 2; old_count = 1; new_start = 2; new_count = 1; lines = change }
      ∷ [];
  add_content = none;
  delete = false;
}

diff-parsed : parse_patch digit diff ≡ ok (change_of_x ∷ [])
unfolding parse_patch parse_unified
diff-parsed = refl

cut_diff : parse_patch digit (codes "--- a/x\n+++ b/x\n@@ -2 +2,1 @@\n-b\n") ≡ err too_short
unfolding parse_patch parse_unified
cut_diff = refl

renaming : parse_patch digit (codes "--- a/x\n+++ b/y\n@@ -2 +2,1 @@\n-b\n+c\n") ≡ err renames
unfolding parse_patch parse_unified
renaming = refl

envelope :
    parse_patch digit (codes "*** Begin Patch\n*** Update File: x\n@@\n-b\n+c\n*** End Patch\n")
    ≡ ok (record change_of_x { hunks = bare change ∷ [] } ∷ [])
unfolding parse_patch bare
envelope = refl

open_envelope : parse_patch digit (codes "*** Begin Patch\n*** Delete File: x\n") ≡ err no_end
unfolding parse_patch
open_envelope = refl

parse_patch-Ends_example : Ends (parse_patch digit diff)
parse_patch-Ends_example = parse_patch-Ends digit diff

parse_unified-counts_example :
    AllCounted digit (change_of_x ∷ [])
    × All
        (λ (p : FilePatch). apply_hunks (codes "a\nb\n") p.hunks ≢ err hunk_counts)
        (change_of_x ∷ [])
parse_unified-counts_example =
    parse_unified-counts digit diff (codes "a\nb\n") (change_of_x ∷ [])
      (unfold parse_unified in refl)

parse_update_hunks-print_bodies_example :
    parse_update_hunks digit (print_bodies (change ∷ change ∷ []))
    ≡ ok (map bare (change ∷ change ∷ []))
parse_update_hunks-print_bodies_example =
    parse_update_hunks-print_bodies digit change (change ∷ [])
      (unfold borealis_coder.Patch.old_lines in ((λ e. omega arith), ((λ e. omega arith), tt)))
