-- ===== src/Paths.antt =====
-- safety/paths.py: the confinement of paths to the roots of the workspace. An absolute path is the
-- list of its parts. What the file system says, and `fnmatch`, are parameters.
pub mod Containment
mod Tests
use borealis_coder.Prelude.{
  ℕ, Bool, true, false, not, ◌&&◌, ◌||◌, Option, none, some, List, [], ◌∷◌, ◌++◌, any, length, ltb,
  Result, ok, err, guard, ◌>>=◌, ◌>>◌, if◌then◌else◌,
}
use borealis_coder.Prelude.Chars.{Text, codes, text_eq, strip}

abbrev pub Parts : Type 0
Parts = List Text

-- PathViolation, by the check that raises it.
pub data PathViolation : Type 0 where
  not_a_directory escapes_roots missing expected_file expected_directory protected : PathViolation

-- What the program asks the file system; `resolve` follows symbolic links and `..`.
pub record FileSystem : Type 0 where
  pub exists : Parts → Bool
  pub is_file : Parts → Bool
  pub is_dir : Parts → Bool
  pub resolve : Parts → Parts

pub data Kind : Type 0 where
  anything file dir : Kind

-- A path as it is given, with variables and `~` expanded.
pub data Raw : Type 0 where
  absolute relative : Parts → Raw

pub record WorkspaceRoots : Type 0 where
  pub primary : Parts
  pub roots : List Parts
  pub allow_outside : Bool

pub record ResolvedPath : Type 0 where
  pub path : Parts
  pub root : Parts

-- path.relative_to(root); `none` is its ValueError.
pub relative_to : Parts → Parts → Option Parts
relative_to path [] = some path
relative_to [] (r ∷ root) = none
relative_to (p ∷ path) (r ∷ root) = if text_eq p r then relative_to path root else none

pub is_inside : Parts → Parts → Bool
unfolding relative_to
is_inside path root = elim (relative_to path root) [ none ↦ false | some rest ↦ true ]

-- `matches`, the roots that contain the candidate.
pub matching : Parts → List Parts → List Parts
unfolding is_inside
matching c [] = []
matching c (r ∷ rs) = let rest = matching c rs in if is_inside c r then r ∷ rest else rest

-- `max(matches, key=…)`: the first of the longest.
pub longest : Parts → List Parts → Parts
longest best [] = best
longest best (r ∷ rs) = longest (if ltb (length best) (length r) then r else best) rs

-- `max(matches, key=…, default=None)`
pub longest_of : List Parts → Option Parts
unfolding longest
longest_of [] = none
longest_of (r ∷ rs) = some (longest r rs)

-- `_containing_root`
pub containing_root : WorkspaceRoots → Parts → Option Parts
unfolding longest_of matching
containing_root w c = longest_of (matching c w.roots)

abbrev join_parts : Text → List Text → Text
join_parts p [] = p
join_parts p (q ∷ qs) = p ++ codes "/" ++ join_parts q qs

-- relative.as_posix()
pub as_posix : Parts → Text
as_posix [] = codes "."
as_posix (p ∷ ps) = join_parts p ps

-- s.lstrip("/")
pub lstrip_slash : Text → Text
lstrip_slash [] = []
lstrip_slash (c ∷ s) =
    let rest = lstrip_slash s in if text_eq (c ∷ []) (codes "/") then rest else c ∷ s

module _ (fs : FileSystem) (fnmatch : Text → Text → Bool) where
  -- `__init__` once the roots are resolved: each is a directory, and none stands twice.
  pub add_roots : List Parts → List Parts → Result PathViolation (List Parts)
  add_roots roots [] = ok roots
  add_roots roots (r ∷ rs) =
      let again = add_roots roots rs in
      let added = add_roots (roots ++ r ∷ []) rs in
      if not (fs.is_dir r)
      then err not_a_directory
      else if any (λ q. is_inside q r && is_inside r q) roots
      then again
      else added

  pub workspace_roots : Parts → List Parts → Bool → Result PathViolation WorkspaceRoots
  unfolding add_roots
  workspace_roots primary additional outside = do
    guard (fs.is_dir primary) not_a_directory
    roots ← add_roots (primary ∷ []) additional
    ok (record { primary = primary; roots = roots; allow_outside = outside })

  -- `resolve` once the candidate is resolved; `/` is the root of a path outside of all roots.
  pub resolve_candidate :
      WorkspaceRoots → Bool → Kind → Parts → Option Parts → Result PathViolation ResolvedPath
  resolve_candidate w must_exist kind c root = do
    guard (w.allow_outside || elim root [ none ↦ false | some r ↦ true ]) escapes_roots
    guard (not must_exist || fs.exists c) missing
    guard (elim kind [ file ↦ not (fs.exists c) || fs.is_file c | _ ↦ true ]) expected_file
    guard (elim kind [ dir ↦ not (fs.exists c) || fs.is_dir c | _ ↦ true ]) expected_directory
    ok (record { path = c; root = elim root [ none ↦ [] | some r ↦ r ] })

  pub candidate_of : WorkspaceRoots → Raw → Parts
  candidate_of w (absolute p) = fs.resolve p
  candidate_of w (relative p) = fs.resolve (w.primary ++ p)

  pub resolve : WorkspaceRoots → Bool → Kind → Raw → Result PathViolation ResolvedPath
  unfolding containing_root candidate_of resolve_candidate
  resolve w must_exist kind raw =
      let c = candidate_of w raw in resolve_candidate w must_exist kind c (containing_root w c)

  pub contains : WorkspaceRoots → Parts → Bool
  unfolding containing_root
  contains w p = elim (containing_root w (fs.resolve p)) [ none ↦ false | some r ↦ true ]

  -- One protected pattern against the path below its root.
  pub is_protected_by : Text → Text → Bool
  unfolding lstrip_slash
  is_protected_by below pattern =
      let normalized = lstrip_slash (strip pattern) in
      not (text_eq normalized [])
      && (fnmatch below normalized || fnmatch below (codes "**/" ++ normalized))

  pub assert_writable : WorkspaceRoots → Parts → List Text → Result PathViolation (Unit {0})
  unfolding containing_root is_protected_by as_posix
  assert_writable w p patterns =
      let resolved = fs.resolve p in
      elim (containing_root w resolved) [
        | none ↦ guard w.allow_outside escapes_roots
        | some root ↦ elim (relative_to resolved root) [
          | none ↦ err escapes_roots
          | some below ↦ guard (not (any (is_protected_by (as_posix below)) patterns)) protected
        ]
      ]
