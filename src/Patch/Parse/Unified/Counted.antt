-- ===== src/Patch/Parse/Unified/Counted.antt =====
-- The counts of the hunks that `_parse_unified` of tools/patch.py reads.
use borealis_coder.Prelude.{
  ℕ, zero, suc, ◌≤◌, ◌≡◌, ◌≢◌, refl, Bool, true, false, not, ◌||◌, ◌&&◌, Option, none, some, List,
  [], ◌∷◌, ltb, ◌++◌, ◌==◌, length, Result, ok, err, guard, All, arith, Bool-cases, inl, inr,
  if-both, option-both, ap, ◌∙◌, sym, subst,
}
use borealis_coder.Prelude.Chars.{Text, codes, has_prefix, text_eq, strip, rstrip_by}
use borealis_coder.Patch.{
  HunkLine, Hunk, IsCounted, old_lines, new_lines, FilePatch, PatchError, hunk_counts, too_short,
  too_long, invalid_hunk_line, unified_header, missing_new_header, no_hunks, no_text_hunks,
  out_of_fuel,
}
use borealis_coder.Patch.Ends.{
  is_miscount, Avoids, Yields, Yields-bind, Yields-ok, Yields-err, Yields-weaken, Yields-then,
  Yields-eq,
}
use borealis_coder.Patch.Hunks.{apply_hunks}
use borealis_coder.Patch.Hunks.Counted.{apply_hunks-Avoids}
use borealis_coder.Patch.Header.{header}
use borealis_coder.Patch.Parse.{hunk_line, mark_no_newline, is_no_newline}
use borealis_coder.Patch.Parse.Total.{mark_no_newline-counts}
use borealis_coder.Patch.Lines.{splitlines}
use borealis_coder.Patch.Parse.Unified.{
  seen_old, seen_new, counted_body, file_hunks, file_patch, file_body, file_paths, header_path,
  lacks_hunks, added_by, files_from, parse_unified, is_file_start, is_bare_section, section_filled,
}

old_lines-append :
    (ls : List HunkLine) (l : HunkLine) → old_lines (ls ++ l ∷ []) ≡ seen_old l.kind (old_lines ls)
unfolding old_lines
old_lines-append [] l = ground arith
old_lines-append (k ∷ ls) l = ground (arith, old_lines-append ls l)

new_lines-append :
    (ls : List HunkLine) (l : HunkLine) → new_lines (ls ++ l ∷ []) ≡ seen_new l.kind (new_lines ls)
unfolding new_lines
new_lines-append [] l = ground arith
new_lines-append (k ∷ ls) l = ground (arith, new_lines-append ls l)

-- A body read to its end is counted, and leaves no more than it was given.
abbrev pub WellRead : ℕ → Hunk × List Text → Type 0
WellRead n r = IsCounted r.0 × (length r.1 ≤ n)

WellRead-weaken :
    (m n : ℕ) (r : Result PatchError (Hunk × List Text))
    → m ≤ n
    → Yields (WellRead m) r
    → Yields (WellRead n) r
WellRead-weaken m n r le =
    Yields-weaken (WellRead m) (WellRead n) r (λ x w. (w.0, omega (arith, w.1)))

pub counted_body-WellRead :
    (h : Hunk) (old_seen new_seen : ℕ) (vs : List Text)
    → old_seen ≡ old_lines h.lines
    → new_seen ≡ new_lines h.lines
    → Yields (WellRead (length vs)) (counted_body h old_seen new_seen vs)
unfolding counted_body
counted_body-WellRead h o n [] ho hn = elim (Bool-cases (o == h.old_count && n == h.new_count)) [
  | inl done ↦ rw done (Yields-ok (WellRead 0) (h, []) (ground arith))
  | inr more ↦ rw more (Yields-err (WellRead 0) too_short)
]
counted_body-WellRead h o n (v ∷ vs) ho hn =
    let P = WellRead (suc (length vs)) in
    if-both (Yields P) (is_no_newline v)
      (Yields-bind (λ ms. (old_lines ms ≡ old_lines h.lines) × (new_lines ms ≡ new_lines h.lines)) P
        (mark_no_newline h.lines) _ (mark_no_newline-counts h.lines)
        (λ ms e. WellRead-weaken (length vs) (suc (length vs)) _ (omega arith) (
          counted_body-WellRead (record h { lines = ms }) o n vs (omega (arith, e))
            (omega (arith, e)))))
      (elim (Bool-cases (o == h.old_count && n == h.new_count)) [
        | inl done ↦ rw done (Yields-ok P (h, v ∷ vs) (ground arith))
        | inr more ↦ rw more (
            option-both (Yields P) (hunk_line v) (Yields-err P invalid_hunk_line) (λ l.
              if-both (Yields P)
                (ltb h.old_count (seen_old l.kind o) || ltb h.new_count (seen_new l.kind n))
                (Yields-err P too_long)
                (WellRead-weaken (length vs) (suc (length vs)) _ (omega arith) (
                  counted_body-WellRead (record h { lines = h.lines ++ l ∷ [] }) (seen_old l.kind o)
                    (seen_new l.kind n) vs
                    (ap (seen_old l.kind) ho ∙ sym (old_lines-append h.lines l))
                    (ap (seen_new l.kind) hn ∙ sym (new_lines-append h.lines l))))))
      ])

-- The hunks of a file are counted, and what is left is no longer than what was given.
abbrev pub FilesRead : ℕ → List Hunk × List Text → Type 0
FilesRead n r = All IsCounted r.0 × (length r.1 ≤ n)

FilesRead-weaken :
    (m n : ℕ) (r : Result PatchError (List Hunk × List Text))
    → m ≤ n
    → Yields (FilesRead m) r
    → Yields (FilesRead n) r
FilesRead-weaken m n r le =
    Yields-weaken (FilesRead m) (FilesRead n) r (λ x w. (w.0, omega (arith, w.1)))

module _ (digit : ℕ → Option ℕ) where
  pub file_hunks-FilesRead :
      (fuel : ℕ) (vs : List Text) → Yields (FilesRead (length vs)) (file_hunks digit fuel vs)
  unfolding file_hunks old_lines new_lines
  file_hunks-FilesRead zero vs = Yields-err (FilesRead (length vs)) out_of_fuel
  file_hunks-FilesRead (suc fuel) [] = Yields-ok (FilesRead 0) ([], []) (tt, omega arith)
  file_hunks-FilesRead (suc fuel) (v ∷ vs) =
      let n = suc (length vs) in
      let P = FilesRead n in
      if-both (Yields P) (is_file_start v) (Yields-ok P ([], v ∷ vs) (tt, omega arith)) (
        option-both (Yields P) (header digit v)
          (if-both (Yields P) (text_eq (strip v) [])
            (FilesRead-weaken (length vs) n _ (omega arith) (file_hunks-FilesRead fuel vs))
            (Yields-err P unified_header))
          (λ h.
            Yields-bind (WellRead (length vs)) P (counted_body (record h { lines = [] }) 0 0 vs) _
              (counted_body-WellRead (record h { lines = [] }) 0 0 vs refl refl)
              (λ (hunk, rest) w.
                Yields-bind (FilesRead (length rest)) P (file_hunks digit fuel rest) _
                  (file_hunks-FilesRead fuel rest)
                  (λ (more, after) z.
                    Yields-ok P (hunk ∷ more, after) ((w.0, z.0), omega (arith, w.1, z.1))))))

  -- A file is read with counted hunks, and the rest of the diff is no longer.
  abbrev pub FileRead : ℕ → FilePatch × List Text → Type 0
  FileRead n r = All IsCounted r.0.hunks × (length r.1 ≤ n)

  file_body-FileRead :
      (fuel : ℕ) (old_path new_path : Text) (old new : Option Text) (vs : List Text)
      → Yields (FileRead (length vs)) (file_body digit fuel old_path new_path old new vs)
  unfolding file_body
  file_body-FileRead fuel old_path new_path old new vs =
      let P = FileRead (length vs) in
      Yields-bind (FilesRead (length vs)) P (file_hunks digit fuel vs) _
        (file_hunks-FilesRead fuel vs)
        (λ (hunks, rest) w.
          Yields-then P (guard (not (lacks_hunks digit hunks)) no_hunks) _
            (λ u. Yields-then P (added_by digit old_path hunks) _ (λ content. Yields-ok P _ w)))

  pub file_patch-FileRead :
      (fuel : ℕ) (first : Text) (vs : List Text)
      → Yields (FileRead (length vs)) (file_patch digit fuel first vs)
  unfolding file_patch
  file_patch-FileRead fuel first [] = Yields-err (FileRead 0) missing_new_header
  file_patch-FileRead fuel first (v ∷ vs) =
      let P = FileRead (suc (length vs)) in
      Yields-then P (guard (has_prefix (codes "+++ ") v) missing_new_header) _ (λ u.
        Yields-then P (file_paths (header_path first) (header_path v)) _ (λ (old, new).
          Yields-weaken (FileRead (length vs)) P _ (λ x w. (w.0, omega (arith, w.1)))
            (file_body-FileRead fuel (header_path first) (header_path v) old new vs)))

  -- Each file of the patches has counted hunks.
  abbrev pub AllCounted : List FilePatch → Type 0
  AllCounted ps = All (λ (p : FilePatch). All IsCounted p.hunks) ps

  files_from-AllCounted :
      (fuel : ℕ) (section : Option Bool) (vs : List Text)
      → Yields AllCounted (files_from digit fuel section vs)
  unfolding files_from
  files_from-AllCounted zero section vs = Yields-err AllCounted out_of_fuel
  files_from-AllCounted (suc fuel) section [] =
      if-both (Yields AllCounted) (is_bare_section digit section)
        (Yields-err AllCounted no_text_hunks) (Yields-ok AllCounted [] tt)
  files_from-AllCounted (suc fuel) section (v ∷ vs) =
      if-both (Yields AllCounted) (not (has_prefix (codes "--- ") v))
        (if-both (Yields AllCounted)
          (has_prefix (codes "diff --git ") (rstrip_by (λ c. c == 13 || c == 10) v))
          (Yields-then AllCounted _ _ (λ u. files_from-AllCounted fuel (some false) vs))
          (Yields-then AllCounted _ _ (λ u. files_from-AllCounted fuel section vs)))
        (Yields-bind (FileRead (length vs)) AllCounted (file_patch digit fuel v vs) _
          (file_patch-FileRead fuel v vs)
          (λ (patch, rest) w.
            Yields-bind AllCounted AllCounted
              (files_from digit fuel (section_filled digit section) rest) _
              (files_from-AllCounted fuel (section_filled digit section) rest)
              (λ more z. Yields-ok AllCounted (patch ∷ more) (w.0, z))))

  parse_unified-AllCounted : (text : Text) → Yields AllCounted (parse_unified digit text)
  unfolding parse_unified
  parse_unified-AllCounted text =
      files_from-AllCounted (suc (length (splitlines text))) none (splitlines text)

  counted-no_miscount :
      (original : Text) (hs : List Hunk)
      → All IsCounted hs
      → apply_hunks original hs ≢ err hunk_counts
  counted-no_miscount original hs c h =
      let avoided = subst (Avoids is_miscount) h (apply_hunks-Avoids original hs c) in
      let no_error : true ≡ false = unfold Avoids is_miscount in avoided in cc

  All-no_miscount :
      (original : Text) (ps : List FilePatch)
      → AllCounted ps
      → All (λ (p : FilePatch). apply_hunks original p.hunks ≢ err hunk_counts) ps
  All-no_miscount original [] c = tt
  All-no_miscount original (p ∷ ps) (c, cs) =
      (counted-no_miscount original p.hunks c, All-no_miscount original ps cs)

  -- The hunks of a parsed unified diff have the counts of their lines, so that applying them, to
  -- whatever text, never fails with a count mismatch.
  pub parse_unified-counts :
      (text original : Text) (ps : List FilePatch)
      → parse_unified digit text ≡ ok ps
      → AllCounted ps × All (λ (p : FilePatch). apply_hunks original p.hunks ≢ err hunk_counts) ps
  parse_unified-counts text original ps h =
      let counted =
        Yields-eq AllCounted (parse_unified digit text) ps (parse_unified-AllCounted text) h in
      (counted, All-no_miscount original ps counted)
