-- ===== src/Paths/Tests.antt =====
-- Runs of the resolution of paths, and an instance of its theorem.
use borealis_coder.Prelude.{◌≡◌, refl, true, false, [], ◌∷◌, ok, err}
use borealis_coder.Prelude.Chars.{codes, text_eq}
use borealis_coder.Paths.{
  FileSystem, anything, relative, absolute, WorkspaceRoots, ResolvedPath, escapes_roots, resolve,
  candidate_of, resolve_candidate, containing_root, matching, longest, longest_of, is_inside,
}
use borealis_coder.Paths.Containment.{IsInnermost, resolve-IsInnermost}

-- A file system without links, in which everything is a file.
abbrev plain : FileSystem
plain = record { exists = λ p. true; is_file = λ p. true; is_dir = λ p. false; resolve = λ p. p }

abbrev work : WorkspaceRoots
work = record {
  primary = codes "w" ∷ [];
  roots = (codes "w" ∷ []) ∷ (codes "w" ∷ codes "lib" ∷ []) ∷ [];
  allow_outside = false;
}

abbrev source : ResolvedPath
source = record {
  path = codes "w" ∷ codes "lib" ∷ codes "a" ∷ [];
  root = codes "w" ∷ codes "lib" ∷ [];
}

source_resolves :
    resolve plain text_eq work true anything (relative (codes "lib" ∷ codes "a" ∷ [])) ≡ ok source
unfolding resolve resolve_candidate containing_root candidate_of matching longest longest_of
    is_inside
source_resolves = refl

outside_is_refused :
    resolve plain text_eq work false anything (absolute (codes "etc" ∷ codes "passwd" ∷ []))
    ≡ err escapes_roots
unfolding resolve resolve_candidate containing_root candidate_of matching longest longest_of
    is_inside
outside_is_refused = refl

resolve-IsInnermost_example :
    (source.path ≡ candidate_of plain text_eq work (relative (codes "lib" ∷ codes "a" ∷ [])))
    × IsInnermost source.path work.roots source.root
resolve-IsInnermost_example =
    resolve-IsInnermost plain text_eq work true anything (relative (codes "lib" ∷ codes "a" ∷ []))
      source refl source_resolves
