-- ===== src/Patch/Parse/Printed.antt =====
-- The bare hunks of an update, printed, and `_parse_update_hunks` of tools/patch.py.
use borealis_coder.Prelude.{
  ℕ, zero, suc, ◌≤◌, ◌<◌, ◌≡◌, ◌≢◌, refl, ap, false, Option, none, some, List, [], ◌∷◌, ◌++◌, ◌==◌,
  length, map, ok, All, arith, append-nil, append_assoc, length-append, sym,
}
use borealis_coder.Prelude.Chars.{Text, codes, has_prefix, rstrip_by}
use borealis_coder.Patch.Header.{header}
use borealis_coder.Patch.{
  LineKind, context, removal, addition, HunkLine, Hunk, old_lines, new_lines,
}
use borealis_coder.Patch.Parse.{
  hunk_line, is_no_newline, hunk_body, update_header, is_bare_header, with_body, bare_hunk,
  hunks_from, some_hunks, parse_update_hunks,
}

unfoldable pub kind_char : LineKind → ℕ
kind_char context = b' '
kind_char removal = b'-'
kind_char addition = b'+'

unfoldable pub print_line : HunkLine → Text
unfolding kind_char
print_line l = kind_char l.kind ∷ l.text

unfoldable pub print_lines : List HunkLine → List Text
unfolding print_line
print_lines [] = []
print_lines (l ∷ ls) = print_line l ∷ print_lines ls

-- Each body behind a bare header.
unfoldable pub print_bodies : List (List HunkLine) → List Text
unfolding print_lines
print_bodies [] = []
print_bodies (ls ∷ more) = codes "@@\n" ∷ (print_lines ls ++ print_bodies more)

-- The hunk of a body, located by its context.
unfoldable pub bare : List HunkLine → Hunk
bare ls = record {
  old_start = none;
  old_count = old_lines ls;
  new_start = 0;
  new_count = new_lines ls;
  lines = ls;
}

hunk_line-kind_char :
    (k : LineKind) (t : Text) → hunk_line (kind_char k ∷ t) ≡ some (record { kind = k; text = t })
unfolding hunk_line kind_char
hunk_line-kind_char context t = refl
hunk_line-kind_char removal t = refl
hunk_line-kind_char addition t = refl

-- A printed line is neither a header nor the marker of a missing newline.
no_header : (k : LineKind) (t : Text) → has_prefix (codes "@@") (kind_char k ∷ t) ≡ false
unfolding kind_char
no_header context t = refl
no_header removal t = refl
no_header addition t = refl

no_marker : (k : LineKind) (t : Text) → is_no_newline (kind_char k ∷ t) ≡ false
unfolding kind_char
no_marker context t = refl
no_marker removal t = refl
no_marker addition t = refl

-- A body is read up to the next header.
hunk_body-print_bodies :
    (read ls : List HunkLine) (bodies : List (List HunkLine))
    → hunk_body read (print_lines ls ++ print_bodies bodies) ≡ ok (read ++ ls, print_bodies bodies)
unfolding hunk_body print_lines print_bodies print_line
hunk_body-print_bodies read [] [] = ap (λ r. ok (r, [])) (sym (append-nil read))
hunk_body-print_bodies read [] (b ∷ bs) =
    ap (λ r. ok (r, codes "@@\n" ∷ (print_lines b ++ print_bodies bs))) (sym (append-nil read))
hunk_body-print_bodies read (l ∷ ls) bodies =
    rw
      (
        no_header l.kind l.text,
        no_marker l.kind l.text,
        hunk_line-kind_char l.kind l.text,
        hunk_body-print_bodies (read ++ l ∷ []) ls bodies,
        append_assoc read (l ∷ []) ls,
      )
      refl

module _ (digit : ℕ → Option ℕ) where
  update_header-bare : update_header digit (codes "@@\n") ≡ ok none
  unfolding update_header header is_bare_header rstrip_by
  update_header-bare = refl

  hunks_from-print_bodies :
      (fuel : ℕ) (bodies : List (List HunkLine))
      → length bodies < fuel
      → All (λ ls. old_lines ls ≢ 0) bodies
      → hunks_from digit fuel (print_bodies bodies) ≡ ok (map bare bodies)
  unfolding hunks_from print_bodies with_body bare_hunk bare
  hunks_from-print_bodies zero bodies h a = absurd (omega arith)
  hunks_from-print_bodies (suc fuel) [] h a = refl
  hunks_from-print_bodies (suc fuel) (ls ∷ bodies) h (some_old, a) =
      let counted : (old_lines ls == 0) ≡ false = ground arith in
      rw
        (
          update_header-bare,
          hunk_body-print_bodies [] ls bodies,
          counted,
          hunks_from-print_bodies fuel bodies (omega arith) a,
        )
        refl

  length-print_bodies :
      (bodies : List (List HunkLine)) → length bodies ≤ length (print_bodies bodies)
  unfolding print_bodies
  length-print_bodies [] = omega arith
  length-print_bodies (ls ∷ bodies) =
      omega
        (arith, length-print_bodies bodies, length-append (print_lines ls) (print_bodies bodies))

  -- Bare hunks that are printed are parsed to themselves, however many there are, if there is one and
  -- each has a context line or a removal.
  pub parse_update_hunks-print_bodies :
      (ls : List HunkLine) (bodies : List (List HunkLine))
      → All (λ ks. old_lines ks ≢ 0) (ls ∷ bodies)
      → parse_update_hunks digit (print_bodies (ls ∷ bodies)) ≡ ok (map bare (ls ∷ bodies))
  unfolding parse_update_hunks some_hunks
  parse_update_hunks-print_bodies ls bodies a =
      let lines = print_bodies (ls ∷ bodies) in
      let enough = length-print_bodies (ls ∷ bodies) in
      rw (hunks_from-print_bodies (suc (length lines)) (ls ∷ bodies) (omega arith) a) refl
