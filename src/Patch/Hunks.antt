-- ===== src/Patch/Hunks.antt =====
-- `apply_hunks` of tools/patch.py. A source index is a position in the list of lines.
pub mod Edited
pub mod Spliced
pub mod Located
pub mod Counted
use borealis_coder.Prelude.{
  ℕ, zero, suc, ◌+◌, ◌-◌, Bool, true, false, not, ◌||◌, ◌&&◌, Option, none, some, List, [], ◌∷◌,
  ◌++◌, ◌==◌, ltb, length, get_elem?, slice, drop, Result, ok, err, guard, ◌>>=◌, ◌>>◌,
  if◌then◌else◌,
}
use borealis_coder.Prelude.Chars.{Text, text_eq}
use borealis_coder.Patch.{
  LineKind, context, removal, addition, HunkLine, Hunk, PatchError, bare_not_found, overlapping,
  hunk_counts, bare_ambiguous, context_mismatch, removal_mismatch,
}
use borealis_coder.Patch.Lines.{splitlines, join, lines_eq}

-- [line.text for line in lines if line.kind in " -"]
pub old_side : List HunkLine → List Text
old_side [] = []
old_side (l ∷ ls) =
    let rest = old_side ls in
    elim l.kind [ context ↦ l.text ∷ rest | removal ↦ l.text ∷ rest | addition ↦ rest ]

-- The indices among the `n` from `i` on at which `expected` stands in `source`.
matches : List Text → List Text → ℕ → ℕ → List ℕ
matches source expected zero i = []
matches source expected (suc n) i =
    let rest = matches source expected n (i + 1) in
    if lines_eq (slice source i (i + length expected)) expected then i ∷ rest else rest

-- `if not matches`, `if len(matches) != 1`, `start = matches[0]`
only_match : List ℕ → Result PatchError ℕ
only_match [] = err bare_not_found
only_match (start ∷ []) = ok start
only_match (a ∷ b ∷ more) = err (bare_ambiguous (length more + 2))

-- Where a bare hunk applies: its context must stand at exactly one place from `cursor` on.
pub locate_bare : List Text → ℕ → List Text → Result PatchError ℕ
unfolding matches only_match
locate_bare source cursor expected =
    let last = length source + 1 - length expected in
    only_match (matches source expected (last - cursor) cursor)

-- An empty old range names the line before the insertion point.
pub locate : List Text → ℕ → Hunk → Result PatchError ℕ
unfolding locate_bare old_side
locate source cursor h = elim h.old_start [
  | none ↦ locate_bare source cursor (old_side h.lines)
  | some n ↦ ok (if h.old_count == 0 then n else n - 1)
]

-- What the loop over a hunk's lines has made of them.
pub record Progress : Type 0 where
  pub emitted : List Text
  pub source_index : ℕ
  pub old_seen : ℕ
  pub new_seen : ℕ

-- `source_index >= len(source) or source[source_index] != text`
differs : List Text → ℕ → Text → Bool
differs source i t = elim (get_elem? source i) [ none ↦ true | some s ↦ not (text_eq s t) ]

apply_lines : List Text → Progress → List HunkLine → Result PatchError Progress
apply_lines source p [] = ok p
apply_lines source p (l ∷ ls) = elim l.kind [
  | context ↦
      if differs source p.source_index l.text
      then err (context_mismatch (p.source_index + 1))
      else apply_lines source
          (record {
            emitted = p.emitted ++ l.text ∷ [];
            source_index = p.source_index + 1;
            old_seen = p.old_seen + 1;
            new_seen = p.new_seen + 1;
          })
          ls
  | removal ↦
      if differs source p.source_index l.text
      then err (removal_mismatch (p.source_index + 1))
      else apply_lines source
          (record p { source_index = p.source_index + 1; old_seen = p.old_seen + 1 }) ls
  | addition ↦
      apply_lines source
        (record p { emitted = p.emitted ++ l.text ∷ []; new_seen = p.new_seen + 1 }) ls
]

-- The loop over the hunks, from `cursor` on: what it adds to the output.
pub apply_from : List Text → ℕ → List Hunk → Result PatchError (List Text)
unfolding locate apply_lines differs
apply_from source cursor [] = ok (drop cursor source)
apply_from source cursor (h ∷ hs) = do
  start ← locate source cursor h
  guard (not (ltb start cursor || ltb (length source) start)) overlapping
  p ←
      apply_lines source (record { emitted = []; source_index = start; old_seen = 0; new_seen = 0 })
        h.lines
  guard (p.old_seen == h.old_count && p.new_seen == h.new_count) hunk_counts
  rest ← apply_from source p.source_index hs
  ok (slice source cursor start ++ (p.emitted ++ rest))

unfoldable pub apply_hunks : Text → List Hunk → Result PatchError Text
unfolding apply_from splitlines
apply_hunks original hunks = do output ← apply_from (splitlines original) 0 hunks; ok (join output)
