-- ===== src/Patch.antt =====
-- tools/patch.py: the patch data, the parsers of the two formats, the application of hunks, and the
-- commit of a patch.
pub mod Lines
pub mod Ends
pub mod Hunks
pub mod Header
pub mod Parse
pub mod Commit
mod Tests
use borealis_coder.Prelude.{ℕ, suc, Bool, Option, List, [], ◌∷◌, ◌≡◌}
use borealis_coder.Prelude.Chars.{Text}

-- The `kind` of a hunk line: " ", "-" and "+". The parsers build no other.
pub data LineKind : Type 0 where
  context removal addition : LineKind

-- What holds of the three cases of a kind holds of the case analysis.
pub kind-both {ℓ} :
    {Y : Type 0} (Q : Y → Type ℓ) (k : LineKind) {u v w : Y}
    → Q u
    → Q v
    → Q w
    → Q (elim k [ context ↦ u | removal ↦ v | addition ↦ w ])
kind-both Q context a b c = a
kind-both Q removal a b c = b
kind-both Q addition a b c = c

pub record HunkLine : Type 0 where
  pub kind : LineKind
  pub text : Text

-- sum(line.kind in " -" for line in lines)
unfoldable pub old_lines : List HunkLine → ℕ
old_lines [] = 0
old_lines (l ∷ ls) = elim l.kind [
  | addition ↦ old_lines ls
  | context ↦ suc (old_lines ls)
  | removal ↦ suc (old_lines ls)
]

-- sum(line.kind in " +" for line in lines)
unfoldable pub new_lines : List HunkLine → ℕ
new_lines [] = 0
new_lines (l ∷ ls) = elim l.kind [
  | removal ↦ new_lines ls
  | context ↦ suc (new_lines ls)
  | addition ↦ suc (new_lines ls)
]

-- `old_start` is absent in a bare `@@` hunk, which is located by its context.
pub record Hunk : Type 0 where
  pub old_start : Option ℕ
  pub old_count : ℕ
  pub new_start : ℕ
  pub new_count : ℕ
  pub lines : List HunkLine

-- The header of the hunk counts its lines.
abbrev pub IsCounted : Hunk → Type 0
IsCounted h = (h.old_count ≡ old_lines h.lines) × (h.new_count ≡ new_lines h.lines)

pub record FilePatch : Type 0 where
  pub old_path : Option Text
  pub new_path : Option Text
  pub hunks : List Hunk
  pub add_content : Option Text
  pub delete : Bool

-- PatchError, by the check that raises it. A number is a line of the file or a count of matches.
pub data PatchError : Type 0 where
  bare_not_found overlapping hunk_counts : PatchError
  bare_ambiguous context_mismatch removal_mismatch : ℕ → PatchError
  hunk_header bare_needs_context invalid_hunk_line no_newline_first no_hunks : PatchError
  add_line directive no_end : PatchError
  missing_new_header renames unified_header too_long too_short no_text_hunks : PatchError
  binary file_mode combined new_file_mode deleted_file_mode index_mode quoted_path : PatchError
  out_of_fuel : PatchError
