-- ===== src/Ignore/Matched.antt =====
-- The rule that decides on a path (context/ignore.py).
use borealis_coder.Prelude.{
  ◌≡◌, refl, sym, ap, subst, ◌∙◌, ◌↔◌, ◌⊎◌, inl, inr, Bool, true, false, not, ◌||◌, Option, none,
  some, List, [], ◌∷◌, ◌++◌, any, map, if◌then◌else◌, All, Bool-cases, arith,
}
use borealis_coder.Prelude.Chars.{Text, elem_text}
use borealis_coder.Ignore.{
  IgnoreRule, prefixes, but_last, directories, matches_candidate, matches_rule, state_after,
  ignored,
}

module _ (fnmatch : Text → Text → Bool) where
  -- No rule of the list matches.
  abbrev pub NoMatch : List Text → Option Bool → List IgnoreRule → Type 0
  NoMatch parts is_dir rs = All (λ r. matches_rule fnmatch parts is_dir r ≡ false) rs

  -- A rule matches that does not negate, and no rule behind it does.
  abbrev pub LastIgnores : List Text → Option Bool → List IgnoreRule → Type 0
  LastIgnores parts is_dir [] = ⊥
  LastIgnores parts is_dir (r ∷ rs) =
      LastIgnores parts is_dir rs
      ⊎ ((matches_rule fnmatch parts is_dir r ≡ true)
          × (r.negate ≡ false)
          × NoMatch parts is_dir rs)

  state_after→ :
      (parts : List Text) (is_dir : Option Bool) (rs : List IgnoreRule) (state : Bool)
      → state_after fnmatch parts is_dir state rs ≡ true
      → LastIgnores parts is_dir rs ⊎ ((state ≡ true) × NoMatch parts is_dir rs)
  unfolding state_after
  state_after→ parts is_dir [] state h = inr (h, tt)
  state_after→ parts is_dir (r ∷ rs) state h =
      let rest =
        state_after→ parts is_dir rs
          (if matches_rule fnmatch parts is_dir r then not r.negate else state) h in
      elim rest [
        | inl later ↦ inl (inl later)
        | inr (on, silent) ↦ elim (Bool-cases (matches_rule fnmatch parts is_dir r)) [
          | inl m ↦ inl (inr (m, (ground arith), silent))
          | inr m ↦ inr ((ground arith), (m, silent))
        ]
      ]

  state_after← :
      (parts : List Text) (is_dir : Option Bool) (rs : List IgnoreRule) (state : Bool)
      → LastIgnores parts is_dir rs ⊎ ((state ≡ true) × NoMatch parts is_dir rs)
      → state_after fnmatch parts is_dir state rs ≡ true
  unfolding state_after
  state_after← parts is_dir [] state (inl never) = elim never [ ]
  state_after← parts is_dir [] state (inr (on, silent)) = on
  state_after← parts is_dir (r ∷ rs) state (inl (inl later)) =
      state_after← parts is_dir rs _ (inl later)
  state_after← parts is_dir (r ∷ rs) state (inl (inr (m, ignores, silent))) =
      state_after← parts is_dir rs _ (inr (rw (m, ignores) refl, silent))
  state_after← parts is_dir (r ∷ rs) state (inr (on, (m, silent))) =
      state_after← parts is_dir rs _ (inr (rw m on, silent))

  -- A path below the root is ignored exactly if one of its parts is an ignored directory, or if the
  -- last rule that matches it does not negate.
  pub ignored_iff :
      (ignored_dirs : List Text) (rules : List IgnoreRule) (is_dir : Option Bool) (p : Text)
      (ps : List Text)
      → (ignored fnmatch ignored_dirs rules is_dir (some (p ∷ ps)) ≡ true) ↔ (
          (any (λ part. elem_text part ignored_dirs) (p ∷ ps) ≡ true)
          ⊎ LastIgnores (p ∷ ps) is_dir rules)
  unfolding ignored
  ignored_iff ignored_dirs rules is_dir p ps =
      let parts = p ∷ ps in
      elim (Bool-cases (any (λ part. elem_text part ignored_dirs) parts)) [
        | inl hidden ↦ ((λ h. inl hidden), (λ h. rw hidden refl))
        | inr open_path ↦ (
          (λ h.
              elim (state_after→ parts is_dir rules false (
                subst
                  (λ b. (if b then true else state_after fnmatch parts is_dir false rules) ≡ true)
                  open_path h)) [ inl last ↦ inr last | inr (on, silent) ↦ absurd cc ]),
          (λ h. elim h [
            | inl hidden ↦ absurd cc
            | inr last ↦ rw open_path (state_after← parts is_dir rules false (inl last))
          ]),
        )
      ]

any-map :
    (Q : List Text → Bool) (f : List Text → List Text) (xs : List (List Text))
    → any Q (map f xs) ≡ any (λ x. Q (f x)) xs
any-map Q f [] = refl
any-map Q f (x ∷ xs) = ap (λ b. Q (f x) || b) (any-map Q f xs)

any-prefixes :
    (Q : List Text → Bool) (parts more : List Text)
    → any Q (prefixes parts) ≡ true
    → any Q (prefixes (parts ++ more)) ≡ true
any-prefixes Q [] more h = absurd cc
any-prefixes Q (p ∷ ps) more h =
    let shorter = any-map Q (λ qs. p ∷ qs) (prefixes ps) in
    let longer = any-map Q (λ qs. p ∷ qs) (prefixes (ps ++ more)) in
    let below = any-prefixes (λ qs. Q (p ∷ qs)) ps more in
    elim (Bool-cases (Q (p ∷ []))) [
      | inl here ↦ rw here refl
      | inr not_here ↦
          let later : any (λ qs. Q (p ∷ qs)) (prefixes ps) ≡ true =
            sym shorter
            ∙ subst (λ b. (b || any Q (map (λ qs. p ∷ qs) (prefixes ps))) ≡ true) not_here h in
          rw (not_here) (longer ∙ below later)
    ]

but_last-append :
    (parts : List Text) (p : Text) (more : List Text)
    → but_last (parts ++ p ∷ more) ≡ parts ++ but_last (p ∷ more)
but_last-append [] p more = refl
but_last-append (q ∷ []) p more = refl
but_last-append (q ∷ r ∷ parts) p more = ap (λ qs. q ∷ qs) (but_last-append (r ∷ parts) p more)

directories-append :
    (is_dir : Option Bool) (parts : List Text) (p : Text) (more : List Text)
    → directories is_dir (parts ++ p ∷ more) ≡ parts ++ directories is_dir (p ∷ more)
directories-append none parts p more = refl
directories-append (some true) parts p more = refl
directories-append (some false) parts p more = but_last-append parts p more

-- A rule for directories that matches a directory matches every path that lies in it, whatever
-- the path is said to be.
pub matches_rule-below :
    (fnmatch : Text → Text → Bool) (rule : IgnoreRule) (parts : List Text) (p : Text)
    (more : List Text) (is_dir : Option Bool)
    → rule.directory_only ≡ true
    → matches_rule fnmatch parts (some true) rule ≡ true
    → matches_rule fnmatch (parts ++ p ∷ more) is_dir rule ≡ true
unfolding matches_rule
matches_rule-below fnmatch rule parts p more is_dir d h =
    let Q = matches_candidate fnmatch rule in
    let above : any Q (prefixes parts) ≡ true =
      subst (λ b. any Q (if b then prefixes parts else parts ∷ []) ≡ true) d h in
    let below = any-prefixes Q parts (directories is_dir (p ∷ more)) above in
    subst
      (λ b.
        any Q (
          if b then prefixes (directories is_dir (parts ++ p ∷ more)) else (parts ++ p ∷ more) ∷ [])
        ≡ true)
      (sym d)
      (subst (λ ds. any Q (prefixes ds) ≡ true) (sym (directories-append is_dir parts p more))
        below)
