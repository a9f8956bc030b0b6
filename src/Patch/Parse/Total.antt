-- ===== src/Patch/Parse/Total.antt =====
-- The fuel of `_parse_apply_patch` of tools/patch.py.
use borealis_coder.Prelude.{
  ℕ, zero, suc, ◌≤◌, ◌<◌, ◌≡◌, refl, Option, none, some, List, [], ◌∷◌, ◌++◌, length, Result, ok,
  arith, Option-cases, Result-cases, inl, inr, if-both, option-both,
}
use borealis_coder.Prelude.Chars.{Text, codes, has_prefix, after_prefix}
use borealis_coder.Patch.Lines.{splitlines}
use borealis_coder.Patch.{
  HunkLine, Hunk, FilePatch, PatchError, no_newline_first, old_lines, new_lines,
}
use borealis_coder.Patch.Ends.{
  is_fuel, Ends, Avoids, Avoids-bind, Avoids-ok, Yields, Yields-bind, Yields-ok, Yields-err,
}
use borealis_coder.Patch.Parse.{
  hunk_line, without_newline, mark_no_newline, is_no_newline, hunk_body, bare_hunk, update_header,
  with_body, hunks_from, some_hunks, parse_update_hunks, until_directive, added_content, Directive,
  end_patch, blank, add_file, delete_file, update_file, unexpected, directive_of, obey,
  directives_from, after_begin, parse_apply_patch,
}

pub mark_no_newline-Ends : (ls : List HunkLine) → Ends (mark_no_newline ls)
unfolding mark_no_newline Avoids is_fuel
mark_no_newline-Ends [] = refl
mark_no_newline-Ends (l ∷ []) = tt
mark_no_newline-Ends (l ∷ k ∷ ls) =
    Avoids-bind is_fuel (mark_no_newline (k ∷ ls)) _ (mark_no_newline-Ends (k ∷ ls)) (λ a e. tt)

hunk_body-Ends : (read : List HunkLine) (vs : List Text) → Ends (hunk_body read vs)
unfolding hunk_body Avoids is_fuel
hunk_body-Ends read [] = tt
hunk_body-Ends read (v ∷ vs) = if-both Ends (has_prefix (codes "@@") v) tt (
    if-both Ends (is_no_newline v)
      (Avoids-bind is_fuel (mark_no_newline read) (λ marked. hunk_body marked vs)
        (mark_no_newline-Ends read) (λ marked e. hunk_body-Ends marked vs))
      (option-both Ends (hunk_line v) refl (λ l. hunk_body-Ends (read ++ l ∷ []) vs)))

-- What a body leaves is no longer than what it was given.
hunk_body-le :
    (read : List HunkLine) (vs : List Text) (body : List HunkLine) (rest : List Text)
    → hunk_body read vs ≡ ok (body, rest)
    → length rest ≤ length vs
unfolding hunk_body
hunk_body-le read [] body rest h = ground arith
hunk_body-le read (v ∷ vs) body rest h = elim (Result-cases (mark_no_newline read)) [
  | inl (marked, e) ↦ elim (Option-cases (hunk_line v)) [
    | inl bad ↦ ground (arith, hunk_body-le marked vs body rest)
    | inr (l, f) ↦
        ground (arith, hunk_body-le marked vs body rest, hunk_body-le (read ++ l ∷ []) vs body rest)
  ]
  | inr (x, e) ↦ elim (Option-cases (hunk_line v)) [
    | inl bad ↦ ground arith
    | inr (l, f) ↦ ground (arith, hunk_body-le (read ++ l ∷ []) vs body rest)
  ]
]

module _ (digit : ℕ → Option ℕ) where
  some_hunks-Ends : (hs : List Hunk) → Ends (some_hunks hs)
  unfolding some_hunks Avoids is_fuel
  some_hunks-Ends [] = refl
  some_hunks-Ends (h ∷ hs) = tt

  update_header-Ends : (line : Text) → Ends (update_header digit line)
  unfolding update_header Avoids is_fuel
  update_header-Ends line = ground arith

  with_body-Ends : (head : Option Hunk) (ls : List HunkLine) → Ends (with_body head ls)
  unfolding with_body bare_hunk Avoids is_fuel
  with_body-Ends (some h) ls = tt
  with_body-Ends none ls = ground arith

  hunks_from-Ends :
      (fuel : ℕ) (lines : List Text) → length lines < fuel → Ends (hunks_from digit fuel lines)
  unfolding hunks_from
  hunks_from-Ends zero lines h = absurd (omega arith)
  hunks_from-Ends (suc fuel) [] h = Avoids-ok is_fuel []
  hunks_from-Ends (suc fuel) (line ∷ lines) h =
      Avoids-bind is_fuel (update_header digit line) _ (update_header-Ends line) (λ head e.
        Avoids-bind is_fuel (hunk_body [] lines) _ (hunk_body-Ends [] lines) (λ (body, rest) f.
          Avoids-bind is_fuel (with_body head body) _ (with_body-Ends head body) (λ hunk g.
            let short = hunk_body-le [] lines body rest f in
            Avoids-bind is_fuel (hunks_from digit fuel rest) _
              (hunks_from-Ends fuel rest (omega arith))
              (λ more k. Avoids-ok is_fuel (hunk ∷ more)))))

  parse_update_hunks-Ends : (lines : List Text) → Ends (parse_update_hunks digit lines)
  unfolding parse_update_hunks
  parse_update_hunks-Ends lines =
      Avoids-bind is_fuel (hunks_from digit (suc (length lines)) lines) _
        (hunks_from-Ends (suc (length lines)) lines (omega arith))
        (λ hunks e. some_hunks-Ends hunks)

  added_content-Ends : (lines : List Text) → Ends (added_content lines)
  unfolding added_content Avoids is_fuel
  added_content-Ends [] = tt
  added_content-Ends (v ∷ vs) =
      option-both Ends (after_prefix (codes "+") v) refl
        (λ t. Avoids-bind is_fuel (added_content vs) _ (added_content-Ends vs) (λ rest e. tt))

  until_directive-le : (lines : List Text) → length (until_directive lines).1 ≤ length lines
  unfolding until_directive
  until_directive-le [] = omega arith
  until_directive-le (v ∷ vs) = ground (arith, until_directive-le vs)

  obey-Ends :
      (next : List Text → Result PatchError (List FilePatch)) (d : Directive) (lines : List Text)
      → ((rest : List Text) → length rest ≤ length lines → Ends (next rest))
      → Ends (obey digit next d lines)
  unfolding obey
  obey-Ends next end_patch lines h = Avoids-ok is_fuel []
  obey-Ends next blank lines h = h lines (omega arith)
  obey-Ends next unexpected lines h = unfold Avoids is_fuel in refl
  obey-Ends next (delete_file path) lines h =
      Avoids-bind is_fuel (next lines) _ (h lines (omega arith))
        (λ more e. Avoids-ok is_fuel (_ ∷ more))
  obey-Ends next (add_file path) lines h =
      Avoids-bind is_fuel (added_content (until_directive lines).0) _
        (added_content-Ends (until_directive lines).0)
        (λ content e.
          Avoids-bind is_fuel (next (until_directive lines).1) _
            (h (until_directive lines).1 (until_directive-le lines))
            (λ more f. Avoids-ok is_fuel (_ ∷ more)))
  obey-Ends next (update_file path) lines h =
      Avoids-bind is_fuel (parse_update_hunks digit (until_directive lines).0) _
        (parse_update_hunks-Ends (until_directive lines).0)
        (λ hunks e.
          Avoids-bind is_fuel (next (until_directive lines).1) _
            (h (until_directive lines).1 (until_directive-le lines))
            (λ more f. Avoids-ok is_fuel (_ ∷ more)))

  directives_from-Ends :
      (fuel : ℕ) (lines : List Text) → length lines < fuel → Ends (directives_from digit fuel lines)
  unfolding directives_from
  directives_from-Ends zero lines h = absurd (omega arith)
  directives_from-Ends (suc fuel) [] h = unfold Avoids is_fuel in refl
  directives_from-Ends (suc fuel) (v ∷ vs) h =
      obey-Ends (directives_from digit fuel) (directive_of v) vs
        (λ rest le. directives_from-Ends fuel rest (omega arith))

  after_begin-le : (lines : List Text) → length (after_begin lines) ≤ length lines
  unfolding after_begin
  after_begin-le [] = omega arith
  after_begin-le (v ∷ vs) = ground (arith, after_begin-le vs)

  -- The parser of envelopes ends.
  pub parse_apply_patch-Ends : (text : Text) → Ends (parse_apply_patch digit text)
  unfolding parse_apply_patch
  parse_apply_patch-Ends text =
      let short = after_begin-le (splitlines text) in
      directives_from-Ends (suc (length (splitlines text))) (after_begin (splitlines text))
        (omega arith)

-- The marker changes no kind.
pub mark_no_newline-counts :
    (ls : List HunkLine)
    → Yields
        (λ ms. (old_lines ms ≡ old_lines ls) × (new_lines ms ≡ new_lines ls))
        (mark_no_newline ls)
unfolding mark_no_newline old_lines new_lines
mark_no_newline-counts [] = Yields-err _ no_newline_first
mark_no_newline-counts (l ∷ []) =
    Yields-ok (λ ms. (old_lines ms ≡ old_lines (l ∷ [])) × (new_lines ms ≡ new_lines (l ∷ [])))
      (record l { text = without_newline l.text } ∷ []) (refl, refl)
mark_no_newline-counts (l ∷ k ∷ ls) =
    Yields-bind (λ ms. (old_lines ms ≡ old_lines (k ∷ ls)) × (new_lines ms ≡ new_lines (k ∷ ls)))
      (λ ms. (old_lines ms ≡ old_lines (l ∷ k ∷ ls)) × (new_lines ms ≡ new_lines (l ∷ k ∷ ls)))
      (mark_no_newline (k ∷ ls)) _ (mark_no_newline-counts (k ∷ ls))
      (λ ms e.
        Yields-ok
          (λ ms. (old_lines ms ≡ old_lines (l ∷ k ∷ ls)) × (new_lines ms ≡ new_lines (l ∷ k ∷ ls)))
          (l ∷ ms) (ground arith, ground arith))
