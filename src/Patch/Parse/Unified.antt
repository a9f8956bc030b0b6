-- ===== src/Patch/Parse/Unified.antt =====
-- `_parse_unified` of tools/patch.py.
pub mod Total
pub mod Counted
use borealis_coder.Prelude.{
  ℕ, zero, suc, ◌+◌, Bool, true, false, not, ◌||◌, ◌&&◌, Option, none, some, List, [], ◌∷◌, ltb,
  ◌++◌, ◌==◌, length, drop, Result, ok, err, guard, ◌>>=◌, ◌>>◌, if◌then◌else◌,
}
use borealis_coder.Prelude.Chars.{
  Text, codes, text_eq, has_prefix, has_any_prefix, strip, lstrip, rstrip_by, after_last,
  before_first, elem_text, is_space,
}
use borealis_coder.Patch.{
  LineKind, context, removal, addition, HunkLine, Hunk, FilePatch, PatchError, invalid_hunk_line,
  missing_new_header, renames, unified_header, too_long, too_short, no_text_hunks, no_hunks, binary,
  file_mode, combined, new_file_mode, deleted_file_mode, index_mode, quoted_path, out_of_fuel,
}
use borealis_coder.Patch.Lines.{splitlines}
use borealis_coder.Patch.Header.{header}
use borealis_coder.Patch.Hunks.{apply_hunks}
use borealis_coder.Patch.Parse.{
  hunk_line, mark_no_newline, is_no_newline, old_lines, new_lines, parse_apply_patch,
}

-- line.split()
pub words_from : Text → Text → List Text
unfolding is_space
words_from [] [] = []
words_from (d ∷ word) [] = (d ∷ word) ∷ []
words_from [] (c ∷ s) = if is_space c then words_from [] s else words_from (c ∷ []) s
words_from (d ∷ word) (c ∷ s) =
    if is_space c then (d ∷ word) ∷ words_from [] s else words_from ((d ∷ word) ++ c ∷ []) s

unfoldable is_regular : Text → Bool
is_regular mode = elem_text mode (codes "100644" ∷ codes "100755" ∷ [])

-- `len(fields) == 3 and fields[-1] not in {…}`
irregular_index : List Text → Bool
unfolding is_regular
irregular_index (a ∷ b ∷ mode ∷ []) = not (is_regular mode)
irregular_index _ = false

abbrev pub is_binary : Text → Bool
is_binary = has_any_prefix (codes "Binary files " ∷ codes "GIT binary patch" ∷ [])

abbrev pub is_mode_change : Text → Bool
is_mode_change = has_any_prefix (codes "old mode " ∷ codes "new mode " ∷ [])

abbrev pub is_move : Text → Bool
is_move =
    has_any_prefix
      (codes "rename from " ∷ codes "rename to " ∷ codes "copy from " ∷ codes "copy to " ∷ [])

abbrev pub is_combined : Text → Bool
is_combined = has_any_prefix (codes "diff --cc " ∷ codes "diff --combined " ∷ [])

-- A mode line that asks for a mode the program does not set.
unfoldable pub is_new_mode : Text → Bool
is_new_mode line =
    has_prefix (codes "new file mode ") line && not (text_eq line (codes "new file mode 100644"))

unfoldable pub is_deleted_mode : Text → Bool
unfolding is_regular
is_deleted_mode line =
    has_prefix (codes "deleted file mode ") line && not (is_regular (after_last b' ' line))

unfoldable pub is_index_mode : Text → Bool
unfolding words_from irregular_index is_regular
is_index_mode line = has_prefix (codes "index ") line && irregular_index (words_from [] line)

-- `_validate_unified_metadata`
pub validate_unified_metadata : Text → Result PatchError (Unit {0})
unfolding is_new_mode is_deleted_mode is_index_mode
validate_unified_metadata line = do
  guard (not (is_binary line)) binary
  guard (not (is_mode_change line)) file_mode
  guard (not (is_move line)) renames
  guard (not (is_combined line)) combined
  guard (not (is_new_mode line)) new_file_mode
  guard (not (is_deleted_mode line)) deleted_file_mode
  guard (not (is_index_mode line)) index_mode

-- `_clean_path`
pub clean_path : Text → Result PatchError Text
unfolding strip
clean_path path =
    let p = strip path in
    if has_prefix (codes "\"") p
    then err quoted_path
    else ok (if has_any_prefix (codes "a/" ∷ codes "b/" ∷ []) p then drop 2 p else p)

-- The path of a file header, behind its four characters.
pub header_path : Text → Text
unfolding strip
header_path line = before_first 9 (strip (drop 4 line))

abbrev pub is_null : Text → Bool
is_null path = text_eq path (codes "/dev/null")

-- `None if path == "/dev/null" else _clean_path(path)`
pub patch_path : Text → Result PatchError (Option Text)
unfolding clean_path
patch_path path = if is_null path then ok none else (do p ← clean_path path; ok (some p))

-- `patch.old_path and patch.new_path and patch.old_path != patch.new_path`
pub is_rename : Option Text → Option Text → Bool
is_rename (some (c ∷ s)) (some (d ∷ t)) = not (text_eq (c ∷ s) (d ∷ t))
is_rename _ _ = false

-- The two paths of a file, which are not a rename.
pub file_paths : Text → Text → Result PatchError (Option Text × Option Text)
unfolding patch_path is_rename
file_paths old_path new_path = do
  old ← patch_path old_path
  new ← patch_path new_path
  guard (not (is_rename old new)) renames
  ok (old, new)

-- `old_seen` and `new_seen` after a line.
abbrev pub seen_old : LineKind → ℕ → ℕ
seen_old addition n = n
seen_old _ n = n + 1

abbrev pub seen_new : LineKind → ℕ → ℕ
seen_new removal n = n
seen_new _ n = n + 1

-- The lines of a hunk, which end where its counts are reached; `h` has those read so far.
pub counted_body : Hunk → ℕ → ℕ → List Text → Result PatchError (Hunk × List Text)
unfolding hunk_line mark_no_newline
counted_body h old_seen new_seen [] =
    if old_seen == h.old_count && new_seen == h.new_count then ok (h, []) else err too_short
counted_body h old_seen new_seen (v ∷ vs) =
    if is_no_newline v
    then (do
      marked ← mark_no_newline h.lines
      counted_body (record h { lines = marked }) old_seen new_seen vs)
    else if old_seen == h.old_count && new_seen == h.new_count
    then ok (h, v ∷ vs)
    else (elim (hunk_line v) [
      | none ↦ err invalid_hunk_line
      | some l ↦
          if ltb h.old_count (seen_old l.kind old_seen)
            || ltb h.new_count (seen_new l.kind new_seen)
          then err too_long
          else counted_body (record h { lines = h.lines ++ l ∷ [] }) (seen_old l.kind old_seen)
              (seen_new l.kind new_seen) vs
    ])

abbrev pub is_file_start : Text → Bool
is_file_start = has_any_prefix (codes "--- " ∷ codes "diff --git " ∷ [])

module _ (digit : ℕ → Option ℕ) where
  -- The loop over the hunks of a file.
  pub file_hunks : ℕ → List Text → Result PatchError (List Hunk × List Text)
  unfolding header counted_body
  file_hunks zero lines = err out_of_fuel
  file_hunks (suc fuel) [] = ok ([], [])
  file_hunks (suc fuel) (v ∷ vs) =
      if is_file_start v then ok ([], v ∷ vs) else (elim (header digit v) [
        | none ↦ if text_eq (strip v) [] then file_hunks fuel vs else err unified_header
        | some h ↦ do
          (hunk, rest) ← counted_body (record h { lines = [] }) 0 0 vs
          (more, after) ← file_hunks fuel rest
          ok (hunk ∷ more, after)
      ])

  abbrev pub lacks_hunks : List Hunk → Bool
  lacks_hunks [] = true
  lacks_hunks (h ∷ hs) = false

  -- `if old_path == "/dev/null": patch.add_content = apply_hunks("", …)`
  pub added_by : Text → List Hunk → Result PatchError (Option Text)
  added_by old_path hunks =
      if is_null old_path then (do content ← apply_hunks [] hunks; ok (some content)) else ok none

  -- The hunks behind the two header lines, and the file.
  pub file_body :
      ℕ
      → Text
      → Text
      → Option Text
      → Option Text
      → List Text
      → Result PatchError (FilePatch × List Text)
  unfolding file_hunks added_by
  file_body fuel old_path new_path old new vs = do
    (hunks, rest) ← file_hunks fuel vs
    guard (not (lacks_hunks hunks)) no_hunks
    content ← added_by old_path hunks
    ok (
      record {
        old_path = old;
        new_path = new;
        hunks = hunks;
        add_content = content;
        delete = is_null new_path;
      },
      rest,
    )

  -- A file of the diff, from its two header lines on.
  pub file_patch : ℕ → Text → List Text → Result PatchError (FilePatch × List Text)
  unfolding header_path file_paths file_body
  file_patch fuel first [] = err missing_new_header
  file_patch fuel first (v ∷ vs) = do
    guard (has_prefix (codes "+++ ") v) missing_new_header
    (old, new) ← file_paths (header_path first) (header_path v)
    file_body fuel (header_path first) (header_path v) old new vs

  -- `git_section_has_patch is False`
  abbrev pub is_bare_section : Option Bool → Bool
  is_bare_section (some false) = true
  is_bare_section _ = false

  -- `if git_section_has_patch is not None: git_section_has_patch = True`
  abbrev pub section_filled : Option Bool → Option Bool
  section_filled none = none
  section_filled (some b) = some true

  pub files_from : ℕ → Option Bool → List Text → Result PatchError (List FilePatch)
  unfolding validate_unified_metadata file_patch
  files_from zero section lines = err out_of_fuel
  files_from (suc fuel) section [] = if is_bare_section section then err no_text_hunks else ok []
  files_from (suc fuel) section (v ∷ vs) =
      if not (has_prefix (codes "--- ") v)
      then (let line = rstrip_by (λ c. c == 13 || c == 10) v in
          if has_prefix (codes "diff --git ") line
          then (do
            guard (not (is_bare_section section)) no_text_hunks
            files_from fuel (some false) vs)
          else (do validate_unified_metadata line; files_from fuel section vs))
      else (do
        (patch, rest) ← file_patch fuel v vs
        more ← files_from fuel (section_filled section) rest
        ok (patch ∷ more))

  unfoldable pub parse_unified : Text → Result PatchError (List FilePatch)
  unfolding files_from splitlines
  parse_unified text = let lines = splitlines text in files_from (suc (length lines)) none lines

  unfoldable pub parse_patch : Text → Result PatchError (List FilePatch)
  unfolding parse_apply_patch parse_unified lstrip
  parse_patch text =
      if has_prefix (codes "*** Begin Patch") (lstrip text)
      then parse_apply_patch digit text
      else parse_unified text
