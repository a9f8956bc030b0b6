-- ===== src/Patch/Parse.antt =====
-- `parse_patch` of tools/patch.py. The lines that a loop has not read yet are its argument; where a
-- round reads an unknown number of them, the loop has their count for fuel.
pub mod Unified
pub mod Total
pub mod Printed
mod Tests
use borealis_coder.Prelude.{
  ℕ, zero, suc, ◌+◌, Bool, true, false, not, ◌||◌, ◌&&◌, Option, none, some, List, [], ◌∷◌, ◌++◌,
  ◌==◌, length, drop, Result, ok, err, guard, ◌>>=◌, ◌>>◌, if◌then◌else◌,
}
use borealis_coder.Prelude.Chars.{
  Text, codes, text_eq, has_prefix, has_suffix, strip, lstrip, rstrip_by, after_prefix,
}
use borealis_coder.Patch.{
  LineKind, context, removal, addition, old_lines, new_lines, HunkLine, Hunk, FilePatch, PatchError,
  hunk_header, bare_needs_context, invalid_hunk_line, no_newline_first, no_hunks, add_line,
  directive, no_end, out_of_fuel,
}
use borealis_coder.Patch.Lines.{splitlines, join}
use borealis_coder.Patch.Header.{header}

-- `value[0] in " +-"`, with `value[1:]`
pub hunk_line : Text → Option HunkLine
hunk_line [] = none
hunk_line (c ∷ s) =
    if c == b' '
    then some (record { kind = context; text = s })
    else if c == b'-'
    then some (record { kind = removal; text = s })
    else if c == b'+'
    then some (record { kind = addition; text = s })
    else none

-- text.removesuffix("\n")
pub without_newline : Text → Text
without_newline [] = []
without_newline (c ∷ []) = if c == 10 then [] else c ∷ []
without_newline (c ∷ d ∷ s) = c ∷ without_newline (d ∷ s)

-- The marker `\ No newline`: it cuts the newline of the last hunk line.
pub mark_no_newline : List HunkLine → Result PatchError (List HunkLine)
unfolding without_newline
mark_no_newline [] = err no_newline_first
mark_no_newline (l ∷ []) = ok (record l { text = without_newline l.text } ∷ [])
mark_no_newline (l ∷ k ∷ ls) = do rest ← mark_no_newline (k ∷ ls); ok (l ∷ rest)

abbrev pub is_no_newline : Text → Bool
is_no_newline = has_prefix (codes "\\ No newline")

-- The inner loop of `_parse_update_hunks`: the lines of a hunk behind `read`, and what is left.
pub hunk_body : List HunkLine → List Text → Result PatchError (List HunkLine × List Text)
unfolding hunk_line mark_no_newline
hunk_body read [] = ok (read, [])
hunk_body read (v ∷ vs) =
    if has_prefix (codes "@@") v
    then ok (read, v ∷ vs)
    else if is_no_newline v
    then (do marked ← mark_no_newline read; hunk_body marked vs)
    else (elim (hunk_line v) [
      | none ↦ err invalid_hunk_line
      | some l ↦ hunk_body (read ++ l ∷ []) vs
    ])

-- `header == "@@" or (header.startswith("@@ ") and header.endswith(" @@"))`, of the line without
-- its end.
pub is_bare_header : Text → Bool
is_bare_header line =
    let h = rstrip_by (λ c. c == 13 || c == 10) line in
    text_eq h (codes "@@") || has_prefix (codes "@@ ") h && has_suffix (codes " @@") h

-- The hunk of a bare header: it counts its lines itself.
pub bare_hunk : List HunkLine → Result PatchError Hunk
unfolding old_lines new_lines
bare_hunk ls = do
  guard (not (old_lines ls == 0)) bare_needs_context
  ok (record {
    old_start = none;
    old_count = old_lines ls;
    new_start = 0;
    new_count = new_lines ls;
    lines = ls;
  })

-- The lines before the next directive, and the rest.
pub until_directive : List Text → List Text × List Text
until_directive [] = ([], [])
until_directive (v ∷ vs) =
    let (body, rest) = until_directive vs in
    if has_prefix (codes "*** ") v then ([], v ∷ vs) else (v ∷ body, rest)

-- The content of an added file: each line without its `+`.
pub added_content : List Text → Result PatchError Text
added_content [] = ok []
added_content (v ∷ vs) = elim (after_prefix (codes "+") v) [
  | none ↦ err add_line
  | some t ↦ do rest ← added_content vs; ok (t ++ rest)
]

-- What a line of an envelope says.
pub data Directive : Type 0 where
  end_patch blank : Directive
  add_file delete_file update_file : Text → Directive
  unexpected : Directive

pub directive_of : Text → Directive
directive_of v =
    let line = rstrip_by (λ c. c == 13 || c == 10) v in
    if text_eq line (codes "*** End Patch")
    then end_patch
    else (elim (after_prefix (codes "*** Add File: ") line) [
      | some p ↦ add_file (strip p)
      | none ↦ elim (after_prefix (codes "*** Delete File: ") line) [
        | some p ↦ delete_file (strip p)
        | none ↦ elim (after_prefix (codes "*** Update File: ") line) [
          | some p ↦ update_file (strip p)
          | none ↦ if text_eq (strip line) [] then blank else unexpected
        ]
      ]
    ])

-- The lines behind the first `*** Begin Patch`.
pub after_begin : List Text → List Text
after_begin [] = []
after_begin (v ∷ vs) =
    let later = after_begin vs in if has_prefix (codes "*** Begin Patch") v then vs else later

-- `if not hunks: raise`
pub some_hunks : List Hunk → Result PatchError (List Hunk)
some_hunks [] = err no_hunks
some_hunks (h ∷ hs) = ok (h ∷ hs)

pub with_body : Option Hunk → List HunkLine → Result PatchError Hunk
unfolding bare_hunk
with_body (some h) ls = ok (record h { lines = ls })
with_body none ls = bare_hunk ls

module _ (digit : ℕ → Option ℕ) where
  -- The header of a hunk: numbered (`some`, with the hunk) or bare (`none`).
  pub update_header : Text → Result PatchError (Option Hunk)
  unfolding header is_bare_header
  update_header line = elim (header digit line) [
    | some h ↦ ok (some h)
    | none ↦ if is_bare_header line then ok none else err hunk_header
  ]

  -- The outer loop of `_parse_update_hunks`.
  pub hunks_from : ℕ → List Text → Result PatchError (List Hunk)
  unfolding update_header hunk_body with_body
  hunks_from zero lines = err out_of_fuel
  hunks_from (suc fuel) [] = ok []
  hunks_from (suc fuel) (line ∷ lines) = do
    head ← update_header line
    (body, rest) ← hunk_body [] lines
    hunk ← with_body head body
    more ← hunks_from fuel rest
    ok (hunk ∷ more)

  pub parse_update_hunks : List Text → Result PatchError (List Hunk)
  unfolding hunks_from some_hunks
  parse_update_hunks lines = do hunks ← hunks_from (suc (length lines)) lines; some_hunks hunks

  -- One directive and the lines behind it; `next` reads the directives that follow.
  pub obey :
      (List Text → Result PatchError (List FilePatch))
      → Directive
      → List Text
      → Result PatchError (List FilePatch)
  unfolding until_directive added_content parse_update_hunks
  obey next end_patch lines = ok []
  obey next blank lines = next lines
  obey next unexpected lines = err directive
  obey next (delete_file path) lines = do
    more ← next lines
    ok (
        record {
          old_path = some path;
          new_path = none;
          hunks = [];
          add_content = none;
          delete = true;
        }
        ∷ more)
  obey next (add_file path) lines = do
    let (body, rest) = until_directive lines
    content ← added_content body
    more ← next rest
    ok (
        record {
          old_path = none;
          new_path = some path;
          hunks = [];
          add_content = some content;
          delete = false;
        }
        ∷ more)
  obey next (update_file path) lines = do
    let (body, rest) = until_directive lines
    hunks ← parse_update_hunks body
    more ← next rest
    ok (
        record {
          old_path = some path;
          new_path = some path;
          hunks = hunks;
          add_content = none;
          delete = false;
        }
        ∷ more)

  -- The loop of `_parse_apply_patch` behind the line `*** Begin Patch`.
  pub directives_from : ℕ → List Text → Result PatchError (List FilePatch)
  unfolding obey directive_of
  directives_from zero lines = err out_of_fuel
  directives_from (suc fuel) [] = err no_end
  directives_from (suc fuel) (v ∷ vs) = obey (directives_from fuel) (directive_of v) vs

  pub parse_apply_patch : Text → Result PatchError (List FilePatch)
  unfolding directives_from after_begin splitlines
  parse_apply_patch text =
      let lines = splitlines text in directives_from (suc (length lines)) (after_begin lines)
