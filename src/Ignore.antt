-- ===== src/Ignore.antt =====
-- context/ignore.py: the rules of ignore files, and which paths of the workspace they leave out. A
-- path is the list of its parts below the root, which are not empty and have no `/`, so that
-- splitting the joined text gives the parts again. `fnmatch` is a parameter.
pub mod Matched
pub mod Rules
mod Tests
use borealis_coder.Prelude.{
  ℕ, ◌≡◌, Bool, true, false, not, ◌||◌, ◌&&◌, Option, none, some, List, [], ◌∷◌, ◌++◌, ◌==◌, any,
  map, if◌then◌else◌,
}
use borealis_coder.Prelude.Chars.{
  Text, codes, strip, rstrip_by, has_prefix, has_suffix, contains, elem_text,
}
use borealis_coder.Patch.Lines.{splitlines}

pub record IgnoreRule : Type 0 where
  pub pattern : Text
  pub negate : Bool
  pub directory_only : Bool
  pub anchored : Bool

abbrev pub is_slash : ℕ → Bool
is_slash c = c == b'/'

-- line[1:] if the test holds
abbrev pub without_first : Bool → Text → Text
without_first b [] = []
without_first b (c ∷ s) = if b then s else c ∷ s

-- The rule, if a pattern is left.
unfoldable pub rule_of : Text → Bool → Bool → Bool → Option IgnoreRule
rule_of [] negate directory_only anchored = none
rule_of (c ∷ s) negate directory_only anchored = some (record {
  pattern = c ∷ s;
  negate = negate;
  directory_only = directory_only;
  anchored = anchored;
})

-- A line of an ignore file, stripped; it may have no rule.
unfoldable pub parse_rule : Text → Option IgnoreRule
unfolding rstrip_by rule_of
parse_rule line =
    let negate = has_prefix (codes "!") line in
    let behind = without_first negate line in
    let anchored = has_prefix (codes "/") behind in
    let rest = without_first anchored behind in
    if has_prefix (codes "#") line
    then none
    else rule_of (rstrip_by is_slash rest) negate (has_suffix (codes "/") rest) anchored

unfoldable pub rules_of : List Text → List IgnoreRule
unfolding parse_rule strip
rules_of [] = []
rules_of (v ∷ vs) = elim (parse_rule (strip v)) [ none ↦ rules_of vs | some r ↦ r ∷ rules_of vs ]

-- `_parse_rules`: the ends of the lines are white space, which is stripped.
unfoldable pub parse_rules : Text → List IgnoreRule
unfolding rules_of splitlines
parse_rules text = rules_of (splitlines text)

-- "/".join(parts)
unfoldable pub joined : List Text → Text
joined [] = []
joined (p ∷ []) = p
joined (p ∷ q ∷ ps) = p ++ b'/' ∷ joined (q ∷ ps)

-- `parts[:index]` for each index from 1 on
abbrev pub prefixes : List Text → List (List Text)
prefixes [] = []
prefixes (p ∷ ps) = (p ∷ []) ∷ map (λ qs. p ∷ qs) (prefixes ps)

abbrev pub but_last : List Text → List Text
but_last [] = []
but_last (p ∷ []) = []
but_last (p ∷ q ∷ ps) = p ∷ but_last (q ∷ ps)

-- The parts of the directories on a path, which itself is one but where it is said not to be.
abbrev pub directories : Option Bool → List Text → List Text
directories none parts = parts
directories (some true) parts = parts
directories (some false) parts = but_last parts

-- The paths that a rule is compared with.
abbrev pub candidates : IgnoreRule → List Text → Option Bool → List (List Text)
candidates rule parts is_dir =
    if rule.directory_only then prefixes (directories is_dir parts) else parts ∷ []

module _ (fnmatch : Text → Text → Bool) where
  unfoldable pub matches_candidate : IgnoreRule → List Text → Bool
  unfolding joined
  matches_candidate rule parts =
      if rule.anchored && fnmatch (joined parts) rule.pattern
      then true
      else if contains (codes "/") rule.pattern && not rule.anchored
      then fnmatch (joined parts) rule.pattern
        || fnmatch (joined parts) (codes "**/" ++ rule.pattern)
      else not rule.anchored && any (λ part. fnmatch part rule.pattern) parts

  -- `_matches_rule`
  unfoldable pub matches_rule : List Text → Option Bool → IgnoreRule → Bool
  unfolding matches_candidate
  matches_rule parts is_dir rule = any (matches_candidate rule) (candidates rule parts is_dir)

  -- The loop over the rules, with the state before it.
  unfoldable pub state_after : List Text → Option Bool → Bool → List IgnoreRule → Bool
  unfolding matches_rule
  state_after parts is_dir state [] = state
  state_after parts is_dir state (r ∷ rs) =
      state_after parts is_dir (if matches_rule parts is_dir r then not r.negate else state) rs

  -- `ignored`; a path that is not below the root is `none`.
  unfoldable pub ignored : List Text → List IgnoreRule → Option Bool → Option (List Text) → Bool
  unfolding state_after elem_text
  ignored ignored_dirs rules is_dir none = true
  ignored ignored_dirs rules is_dir (some []) = false
  ignored ignored_dirs rules is_dir (some (p ∷ ps)) =
      if any (λ part. elem_text part ignored_dirs) (p ∷ ps)
      then true
      else state_after (p ∷ ps) is_dir false rules
