-- ===== src/Ignore/Tests.antt =====
-- Runs of the ignore rules on small files, and instances of their theorems.
use borealis_coder.Prelude.{
  ◌≡◌, refl, ◌↔◌, ◌⊎◌, Bool, true, false, none, some, List, [], ◌∷◌, any, All,
}
use borealis_coder.Prelude.Chars.{Text, codes, text_eq, elem_text}
use borealis_coder.Ignore.{IgnoreRule, parse_rules, matches_rule, ignored}
use borealis_coder.Ignore.Matched.{LastIgnores, ignored_iff, matches_rule-below}
use borealis_coder.Ignore.Rules.{IsTrimmed, parse_rules-IsTrimmed}

-- Without wildcards, a pattern matches itself.
abbrev fnmatch : Text → Text → Bool
fnmatch name pattern = text_eq name pattern

abbrev ignore_file : Text
ignore_file = codes "# comment\n\n  build//\n!keep\n/top\n/\n"

abbrev build : IgnoreRule
build = record { pattern = codes "build"; negate = false; directory_only = true; anchored = false }

abbrev rules : List IgnoreRule
rules =
    build
    ∷ record { pattern = codes "keep"; negate = true; directory_only = false; anchored = false }
    ∷ record { pattern = codes "top"; negate = false; directory_only = false; anchored = true }
    ∷ []

ignore_file-parsed : parse_rules ignore_file ≡ rules
unfolding parse_rules
ignore_file-parsed = refl

below_build : ignored fnmatch [] rules (some false) (some (codes "build" ∷ codes "x" ∷ [])) ≡ true
unfolding ignored
below_build = refl

kept : ignored fnmatch [] rules (some false) (some (codes "build" ∷ codes "keep" ∷ [])) ≡ false
unfolding ignored
kept = refl

file_build : ignored fnmatch [] rules (some false) (some (codes "build" ∷ [])) ≡ false
unfolding ignored
file_build = refl

not_top : ignored fnmatch [] rules none (some (codes "a" ∷ codes "top" ∷ [])) ≡ false
unfolding ignored
not_top = refl

ignored_iff_example :
    (ignored fnmatch [] rules (some false) (some (codes "build" ∷ codes "x" ∷ [])) ≡ true) ↔ (
      (any (λ part. elem_text part []) (codes "build" ∷ codes "x" ∷ []) ≡ true)
      ⊎ LastIgnores fnmatch (codes "build" ∷ codes "x" ∷ []) (some false) rules)
ignored_iff_example = ignored_iff fnmatch [] rules (some false) (codes "build") (codes "x" ∷ [])

matches_rule-below_example :
    matches_rule fnmatch (codes "build" ∷ codes "x" ∷ []) (some false) build ≡ true
matches_rule-below_example =
    matches_rule-below fnmatch build (codes "build" ∷ []) (codes "x") [] (some false) refl
      (unfold matches_rule in refl)

parse_rules-IsTrimmed_example : All IsTrimmed (parse_rules ignore_file)
parse_rules-IsTrimmed_example = parse_rules-IsTrimmed ignore_file
