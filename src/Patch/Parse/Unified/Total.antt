-- ===== src/Patch/Parse/Unified/Total.antt =====
-- The fuel of `_parse_unified` and `parse_patch` of tools/patch.py.
use borealis_coder.Prelude.{
  ℕ, zero, suc, ◌<◌, refl, Bool, false, not, ◌||◌, ◌&&◌, Option, none, some, List, [], ◌∷◌, ltb,
  ◌++◌, ◌==◌, length, ok, guard, arith, if-both, option-both,
}
use borealis_coder.Prelude.Chars.{Text, codes, has_prefix, text_eq, strip, rstrip_by, lstrip}
use borealis_coder.Patch.{
  Hunk, old_lines, new_lines, binary, file_mode, combined, new_file_mode, deleted_file_mode,
  index_mode, renames, missing_new_header, no_hunks, no_text_hunks,
}
use borealis_coder.Patch.Ends.{
  is_fuel, Ends, Avoids, Avoids-bind, Avoids-guard, Avoids-guard_then, Avoids-ok, Yields-eq,
}
use borealis_coder.Patch.Hunks.{apply_hunks}
use borealis_coder.Patch.Hunks.Counted.{apply_hunks-Ends}
use borealis_coder.Patch.Header.{header}
use borealis_coder.Patch.Parse.{hunk_line, mark_no_newline, is_no_newline}
use borealis_coder.Patch.Parse.Total.{mark_no_newline-Ends, parse_apply_patch-Ends}
use borealis_coder.Patch.Lines.{splitlines}
use borealis_coder.Patch.Parse.Unified.{
  is_binary, is_mode_change, is_move, is_combined, is_new_mode, is_deleted_mode, is_index_mode,
  seen_old, seen_new, validate_unified_metadata, clean_path, patch_path, header_path, is_rename,
  is_null, lacks_hunks, added_by, counted_body, file_hunks, file_body, file_paths, file_patch,
  files_from, parse_unified, parse_patch, is_file_start, is_bare_section, section_filled,
}
use borealis_coder.Patch.Parse.Unified.Counted.{
  WellRead, counted_body-WellRead, FileRead, file_patch-FileRead,
}

validate_unified_metadata-Ends : (line : Text) → Ends (validate_unified_metadata line)
unfolding validate_unified_metadata is_fuel
validate_unified_metadata-Ends line =
    Avoids-guard_then is_fuel (not (is_binary line)) binary _ refl (
      Avoids-guard_then is_fuel (not (is_mode_change line)) file_mode _ refl (
        Avoids-guard_then is_fuel (not (is_move line)) renames _ refl (
          Avoids-guard_then is_fuel (not (is_combined line)) combined _ refl (
            Avoids-guard_then is_fuel (not (is_new_mode line)) new_file_mode _ refl (
              Avoids-guard_then is_fuel (not (is_deleted_mode line)) deleted_file_mode _ refl
                (Avoids-guard is_fuel (not (is_index_mode line)) index_mode refl))))))

patch_path-Ends : (path : Text) → Ends (patch_path path)
unfolding patch_path clean_path Avoids is_fuel
patch_path-Ends path = ground arith

counted_body-Ends : (vs : List Text) (h : Hunk) (o n : ℕ) → Ends (counted_body h o n vs)
unfolding counted_body Avoids is_fuel
counted_body-Ends [] h o n = ground arith
counted_body-Ends (v ∷ vs) h o n =
    if-both (Avoids is_fuel) (is_no_newline v)
      (Avoids-bind is_fuel (mark_no_newline h.lines) _ (mark_no_newline-Ends h.lines)
        (λ ms e. counted_body-Ends vs (record h { lines = ms }) o n))
      (if-both (Avoids is_fuel) (o == h.old_count && n == h.new_count) tt (
        option-both (Avoids is_fuel) (hunk_line v) refl (λ l.
          if-both (Avoids is_fuel)
            (ltb h.old_count (seen_old l.kind o) || ltb h.new_count (seen_new l.kind n)) refl
            (counted_body-Ends vs (record h { lines = h.lines ++ l ∷ [] }) (seen_old l.kind o)
              (seen_new l.kind n)))))

file_paths-Ends : (old_path new_path : Text) → Ends (file_paths old_path new_path)
unfolding file_paths is_fuel
file_paths-Ends old_path new_path =
    Avoids-bind is_fuel (patch_path old_path) _ (patch_path-Ends old_path) (λ old e.
      Avoids-bind is_fuel (patch_path new_path) _ (patch_path-Ends new_path) (λ new f.
        Avoids-guard_then is_fuel (not (is_rename old new)) renames (ok (old, new)) refl
          (Avoids-ok is_fuel (old, new))))

module _ (digit : ℕ → Option ℕ) where
  file_hunks-Ends : (fuel : ℕ) (vs : List Text) → length vs < fuel → Ends (file_hunks digit fuel vs)
  unfolding file_hunks Avoids is_fuel old_lines new_lines
  file_hunks-Ends zero vs h = absurd (omega arith)
  file_hunks-Ends (suc fuel) [] h = tt
  file_hunks-Ends (suc fuel) (v ∷ vs) h = if-both (Avoids is_fuel) (is_file_start v) tt (
      option-both (Avoids is_fuel) (header digit v)
        (if-both (Avoids is_fuel) (text_eq (strip v) []) (file_hunks-Ends fuel vs (omega arith))
          refl)
        (λ k.
          let fresh : Hunk = record k { lines = [] } in
          Avoids-bind is_fuel (counted_body fresh 0 0 vs) _ (counted_body-Ends vs fresh 0 0)
            (λ (hunk, rest) e.
              let short =
                (Yields-eq (WellRead (length vs)) (counted_body fresh 0 0 vs) (hunk, rest)
                  (counted_body-WellRead fresh 0 0 vs refl refl) e).1 in
              Avoids-bind is_fuel (file_hunks digit fuel rest) _
                (file_hunks-Ends fuel rest (omega arith)) (λ more f. tt))))

  added_by-Ends : (old_path : Text) (hunks : List Hunk) → Ends (added_by digit old_path hunks)
  unfolding added_by
  added_by-Ends old_path hunks =
      if-both (Avoids is_fuel) (is_null old_path)
        (Avoids-bind is_fuel (apply_hunks [] hunks) _ (apply_hunks-Ends [] hunks)
          (λ content e. Avoids-ok is_fuel (some content)))
        (Avoids-ok is_fuel none)

  file_body-Ends :
      (fuel : ℕ) (old_path new_path : Text) (old new : Option Text) (vs : List Text)
      → length vs < fuel
      → Ends (file_body digit fuel old_path new_path old new vs)
  unfolding file_body Avoids is_fuel
  file_body-Ends fuel old_path new_path old new vs h =
      Avoids-bind is_fuel (file_hunks digit fuel vs) _ (file_hunks-Ends fuel vs h)
        (λ (hunks, rest) e.
          Avoids-bind is_fuel (guard (not (lacks_hunks digit hunks)) no_hunks) _
            (Avoids-guard is_fuel (not (lacks_hunks digit hunks)) no_hunks refl)
            (λ u f.
              Avoids-bind is_fuel (added_by digit old_path hunks) _ (added_by-Ends old_path hunks)
                (λ content g. tt)))

  file_patch-Ends :
      (fuel : ℕ) (first : Text) (vs : List Text)
      → length vs < fuel
      → Ends (file_patch digit fuel first vs)
  unfolding file_patch Avoids is_fuel
  file_patch-Ends fuel first [] h = refl
  file_patch-Ends fuel first (v ∷ vs) h =
      Avoids-bind is_fuel (guard (has_prefix (codes "+++ ") v) missing_new_header) _
        (Avoids-guard is_fuel (has_prefix (codes "+++ ") v) missing_new_header refl)
        (λ u e.
          Avoids-bind is_fuel (file_paths (header_path first) (header_path v)) _
            (file_paths-Ends (header_path first) (header_path v))
            (λ (old, new) f.
              file_body-Ends fuel (header_path first) (header_path v) old new vs (omega arith)))

  files_from-Ends :
      (fuel : ℕ) (section : Option Bool) (vs : List Text)
      → length vs < fuel
      → Ends (files_from digit fuel section vs)
  unfolding files_from Avoids is_fuel
  files_from-Ends zero section vs h = absurd (omega arith)
  files_from-Ends (suc fuel) section [] h =
      if-both (Avoids is_fuel) (is_bare_section digit section) refl tt
  files_from-Ends (suc fuel) section (v ∷ vs) h =
      let line = rstrip_by (λ c. c == 13 || c == 10) v in
      if-both (Avoids is_fuel) (not (has_prefix (codes "--- ") v))
        (if-both (Avoids is_fuel) (has_prefix (codes "diff --git ") line)
          (Avoids-guard_then is_fuel (not (is_bare_section digit section)) no_text_hunks
            (files_from digit fuel (some false) vs) refl
            (files_from-Ends fuel (some false) vs (omega arith)))
          (Avoids-bind is_fuel (validate_unified_metadata line) _
            (validate_unified_metadata-Ends line)
            (λ u e. files_from-Ends fuel section vs (omega arith))))
        (Avoids-bind is_fuel (file_patch digit fuel v vs) _
          (file_patch-Ends fuel v vs (omega arith))
          (λ (patch, rest) e.
            let next = section_filled digit section in
            let short =
              (Yields-eq (FileRead digit (length vs)) (file_patch digit fuel v vs) (patch, rest)
                (file_patch-FileRead digit fuel v vs) e).1 in
            Avoids-bind is_fuel (files_from digit fuel next rest) _
              (files_from-Ends fuel next rest (omega arith)) (λ more f. tt)))

  parse_unified-Ends : (text : Text) → Ends (parse_unified digit text)
  unfolding parse_unified
  parse_unified-Ends text =
      files_from-Ends (suc (length (splitlines text))) none (splitlines text) (omega arith)

  -- Parsing ends on every text, in either format: with the number of lines for fuel, the loops never
  -- run out of it.
  pub parse_patch-Ends : (text : Text) → Ends (parse_patch digit text)
  unfolding parse_patch
  parse_patch-Ends text =
      if-both (Avoids is_fuel) (has_prefix (codes "*** Begin Patch") (lstrip text))
        (parse_apply_patch-Ends digit text) (parse_unified-Ends text)
