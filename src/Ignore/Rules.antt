-- ===== src/Ignore/Rules.antt =====
-- The rules that an ignore file is read to (context/ignore.py).
use borealis_coder.Prelude.{
  ℕ, ◌≡◌, ◌≢◌, refl, subst, Bool, none, some, List, [], ◌∷◌, if◌then◌else◌, All, arith, Bool-cases,
  inl, inr, Option-cases,
}
use borealis_coder.Prelude.Chars.{Text, codes, strip, rstrip_by, has_prefix, has_suffix}
use borealis_coder.Patch.Lines.{splitlines}
use borealis_coder.Ignore.{
  IgnoreRule, is_slash, without_first, rule_of, parse_rule, rules_of, parse_rules,
}

-- Stripped characters in front of a text that has none of them at its end.
in_front : (p : ℕ → Bool) (c : ℕ) (t : Text) → Text
in_front p c t = elim t [ [] ↦ if p c then [] else c ∷ [] | d ∷ r ↦ c ∷ d ∷ r ]

rstrip_by-in_front :
    (p : ℕ → Bool) (c : ℕ) (t : Text)
    → rstrip_by p t ≡ t
    → rstrip_by p (in_front p c t) ≡ in_front p c t
unfolding rstrip_by in_front
rstrip_by-in_front p c [] h = elim (Bool-cases (p c)) [
  | inl cut ↦ rw cut refl
  | inr kept ↦ rw kept (rw kept refl)
]
rstrip_by-in_front p c (d ∷ r) h = rw h refl

rstrip_by_twice : (p : ℕ → Bool) (s : Text) → rstrip_by p (rstrip_by p s) ≡ rstrip_by p s
unfolding rstrip_by in_front
rstrip_by_twice p [] = refl
rstrip_by_twice p (c ∷ s) = rstrip_by-in_front p c (rstrip_by p s) (rstrip_by_twice p s)

-- The pattern is not empty, and no slash is left at its end.
abbrev pub IsTrimmed : IgnoreRule → Type 0
IsTrimmed r = (r.pattern ≢ []) × (rstrip_by is_slash r.pattern ≡ r.pattern)

rule_of-IsTrimmed :
    (t : Text) (negate directory_only anchored : Bool) (r : IgnoreRule)
    → rstrip_by is_slash t ≡ t
    → rule_of t negate directory_only anchored ≡ some r
    → IsTrimmed r
unfolding rule_of
rule_of-IsTrimmed [] negate directory_only anchored r e h = absurd cc
rule_of-IsTrimmed (c ∷ s) negate directory_only anchored r e h =
    let same : (let t : Text = c ∷ s in t) ≡ r.pattern = cc in
    subst (λ t. (t ≢ []) × (rstrip_by is_slash t ≡ t)) same ((λ x. cc), e)

parse_rule-IsTrimmed : (line : Text) (r : IgnoreRule) → parse_rule line ≡ some r → IsTrimmed r
unfolding parse_rule
parse_rule-IsTrimmed line r h =
    let negate = has_prefix (codes "!") line in
    let behind = without_first negate line in
    let anchored = has_prefix (codes "/") behind in
    let rest = without_first anchored behind in
    let slash = has_suffix (codes "/") rest in
    let pattern = rstrip_by is_slash rest in
    elim (Bool-cases (has_prefix (codes "#") line)) [
      | inl comment ↦ absurd (ground arith)
      | inr other ↦
          rule_of-IsTrimmed pattern negate slash anchored r (rstrip_by_twice is_slash rest) (
            subst (λ b. (if b then none else rule_of pattern negate slash anchored) ≡ some r) other
              h)
    ]

rules_of-IsTrimmed : (vs : List Text) → All IsTrimmed (rules_of vs)
unfolding rules_of
rules_of-IsTrimmed [] = tt
rules_of-IsTrimmed (v ∷ vs) = elim (Option-cases (parse_rule (strip v))) [
  | inl e ↦ rw (rules_of, e) (rules_of-IsTrimmed vs)
  | inr (r, e) ↦ rw (rules_of, e) (parse_rule-IsTrimmed (strip v) r e, rules_of-IsTrimmed vs)
]

-- Each rule read from an ignore file has a pattern that is not empty and does not end in a slash.
pub parse_rules-IsTrimmed : (text : Text) → All IsTrimmed (parse_rules text)
unfolding parse_rules
parse_rules-IsTrimmed text = rules_of-IsTrimmed (splitlines text)
