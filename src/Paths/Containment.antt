-- ===== src/Paths/Containment.antt =====
-- Where the resolved paths lie.
use borealis_coder.Prelude.{
  ℕ, suc, ◌≡◌, refl, ap, ◌∙◌, ◌≤◌, ◌⊎◌, get_elem?, Bool, true, false, ◌&&◌, some, List, [], ◌∷◌,
  length, ltb, ok, arith, Bool-cases, Option-cases, subst, sym, inl, inr, All, if◌then◌else◌,
}
use borealis_coder.Prelude.Chars.{Text}
use borealis_coder.Paths.{
  Parts, FileSystem, Kind, Raw, WorkspaceRoots, ResolvedPath, is_inside, matching, longest,
  longest_of, containing_root, candidate_of, resolve, resolve_candidate,
}

-- No root of the list that contains the path is longer than `n`.
pub NoneLonger : Parts → ℕ → List Parts → Type 0
NoneLonger c n roots = All (λ q. (is_inside c q ≡ true) → length q ≤ n) roots

-- A root of the list.
abbrev pub IsAmong : Parts → List Parts → Type 0
IsAmong r roots = (i : ℕ) × (get_elem? roots i ≡ some r)

-- A root of the list that contains the path, and no other root that contains it is longer.
pub IsInnermost : Parts → List Parts → Parts → Type 0
IsInnermost c roots r = IsAmong r roots × (is_inside c r ≡ true) × NoneLonger c (length r) roots

NoneLonger-cons :
    (c r : Parts) (rs : List Parts) (n : ℕ)
    → ((is_inside c r ≡ true) → length r ≤ n)
    → NoneLonger c n rs
    → NoneLonger c n (r ∷ rs)
unfolding NoneLonger
NoneLonger-cons c r rs n h hs = (h, hs)

-- The length of the longest does not fall.
longest-le : (best : Parts) (rs : List Parts) → length best ≤ length (longest best rs)
unfolding longest
longest-le best [] = omega arith
longest-le best (r ∷ rs) = elim (Bool-cases (ltb (length best) (length r))) [
  | inl e ↦ let rest = longest-le r rs in ground arith
  | inr e ↦ let rest = longest-le best rs in ground arith
]

-- The best so far, after one more root.
pub better : Parts → Parts → Parts → Parts
better c best r = if is_inside c r && ltb (length best) (length r) then r else best

longest-matching :
    (c best r : Parts) (rs : List Parts)
    → longest best (matching c (r ∷ rs)) ≡ longest (better c best r) (matching c rs)
unfolding longest matching better
longest-matching c best r rs = ground arith

better-inside : (c best r : Parts) → is_inside c best ≡ true → is_inside c (better c best r) ≡ true
unfolding better
better-inside c best r h = ground arith

longest-inside :
    (c best : Parts) (rs : List Parts)
    → is_inside c best ≡ true
    → is_inside c (longest best (matching c rs)) ≡ true
longest-inside c best [] h = unfold longest matching in h
longest-inside c best (r ∷ rs) h =
    rw (longest-matching c best r rs)
      (longest-inside c (better c best r) rs (better-inside c best r h))

better-le : (c best r : Parts) → is_inside c r ≡ true → length r ≤ length (better c best r)
unfolding better
better-le c best r h = ground arith

longest-NoneLonger :
    (c best : Parts) (rs : List Parts) → NoneLonger c (length (longest best (matching c rs))) rs
longest-NoneLonger c best [] = unfold NoneLonger in tt
longest-NoneLonger c best (r ∷ rs) =
    subst (λ l. NoneLonger c (length l) (r ∷ rs)) (sym (longest-matching c best r rs))
      (NoneLonger-cons c r rs (length (longest (better c best r) (matching c rs)))
        (λ h. omega (arith, better-le c best r h, longest-le (better c best r) (matching c rs)))
        (longest-NoneLonger c (better c best r) rs))

IsAmong-cons : (q r : Parts) (rs : List Parts) → IsAmong r rs → IsAmong r (q ∷ rs)
IsAmong-cons q r rs (i, e) = (suc i, e)

better-cases : (c best r : Parts) → (better c best r ≡ best) ⊎ (better c best r ≡ r)
unfolding better
better-cases c best r = ground arith

-- The longest is the best so far, or one of those that follow.
longest-IsAmong :
    (c best : Parts) (rs : List Parts)
    → (longest best (matching c rs) ≡ best) ⊎ IsAmong (longest best (matching c rs)) rs
longest-IsAmong c best [] = inl (unfold longest matching in refl)
longest-IsAmong c best (r ∷ rs) =
    let step = longest-matching c best r rs in
    elim (longest-IsAmong c (better c best r) rs) [
      | inr (i, e) ↦ inr (suc i, e ∙ ap (λ (q : Parts). some q) (sym step))
      | inl same ↦ elim (better-cases c best r) [
        | inl old ↦ inl (step ∙ same ∙ old)
        | inr new ↦ inr (0, ap (λ (q : Parts). some q) (sym (step ∙ same ∙ new)))
      ]
    ]

longest-IsAmong_cons :
    (c r : Parts) (rs : List Parts) → IsAmong (longest r (matching c rs)) (r ∷ rs)
longest-IsAmong_cons c r rs = elim (longest-IsAmong c r rs) [
  | inl same ↦ (0, ap (λ (q : Parts). some q) (sym same))
  | inr (i, e) ↦ (suc i, e)
]

longest_of-IsInnermost :
    (c : Parts) (roots : List Parts) (root : Parts)
    → longest_of (matching c roots) ≡ some root
    → IsInnermost c roots root
unfolding IsInnermost longest_of
longest_of-IsInnermost c [] root h = unfold matching in cc
longest_of-IsInnermost c (r ∷ rs) root h = elim (Bool-cases (is_inside c r)) [
  | inl e ↦
      let same : longest r (matching c rs) ≡ root = unfold matching in ground arith in
      let n = length (longest r (matching c rs)) in
      (
        subst (λ l. IsAmong l (r ∷ rs)) same (longest-IsAmong_cons c r rs),
        subst (λ l. is_inside c l ≡ true) same (longest-inside c r rs e),
        subst (λ l. NoneLonger c (length l) (r ∷ rs)) same
            (NoneLonger-cons c r rs n (λ inside. longest-le r (matching c rs))
              (longest-NoneLonger c r rs)),
      )
  | inr e ↦
      let rest : longest_of (matching c rs) ≡ some root = unfold matching in ground arith in
      let inner = longest_of-IsInnermost c rs root rest in
      (
        IsAmong-cons r root rs inner.0,
        inner.1,
        NoneLonger-cons c r rs (length root) (λ h. ground arith) inner.2,
      )
]

module _ (fs : FileSystem) (fnmatch : Text → Text → Bool) where
  -- If a path resolves, in a workspace that allows none outside, the root returned with it is one of
  -- the workspace's roots, and the path returned, which is that of the request after all symbolic
  -- links are followed, lies in it; and that root is the innermost: no root of the workspace that
  -- contains the path is longer.
  pub resolve-IsInnermost :
      (w : WorkspaceRoots) (must_exist : Bool) (kind : Kind) (raw : Raw) (found : ResolvedPath)
      → w.allow_outside ≡ false
      → resolve fs fnmatch w must_exist kind raw ≡ ok found
      → (found.path ≡ candidate_of fs fnmatch w raw) × IsInnermost found.path w.roots found.root
  unfolding resolve resolve_candidate containing_root
  resolve-IsInnermost w must_exist kind raw found closed h =
      elim (Option-cases (longest_of (matching (candidate_of fs fnmatch w raw) w.roots))) [
        | inl absent ↦ ground arith
        | inr (root, e) ↦
            let inner = longest_of-IsInnermost (candidate_of fs fnmatch w raw) w.roots root e in
            let path : found.path ≡ candidate_of fs fnmatch w raw = ground arith in
            let same : found.root ≡ root = ground arith in
            (
              path,
              subst (λ r. IsInnermost found.path w.roots r) (sym same)
                  (subst (λ p. IsInnermost p w.roots root) (sym path) inner),
            )
      ]
