-- ===== src/Patch/Hunks/Located.antt =====
-- Where a bare hunk is applied.
use borealis_coder.Prelude.{
  ℕ, zero, suc, ◌+◌, ◌-◌, ◌≤◌, ◌<◌, ◌≡◌, refl, sym, ap, subst, ◌↔◌, ◌⊎◌, inl, inr, Bool, true,
  false, List, [], ◌∷◌, length, slice, ok, Bool-cases, arith, if◌then◌else◌,
}
use borealis_coder.Prelude.Chars.{Text}
use borealis_coder.Patch.Lines.{lines_eq, lines_eq-eq, lines_eq_refl}
use borealis_coder.Patch.Hunks.{matches, only_match, locate_bare}

-- `expected` stands in `source` at line `i`.
abbrev pub StandsAt : List Text → List Text → ℕ → Type 0
StandsAt source expected i =
    (i + length expected ≤ length source) × (slice source i (i + length expected) ≡ expected)

-- `i` is the one place at or behind `cursor` where `expected` stands.
pub record IsOnlyPlace (source : List Text) (cursor : ℕ) (expected : List Text) (i : ℕ)
    : Type 0 where
  pub behind : cursor ≤ i
  pub stands : StandsAt source expected i
  pub only : (j : ℕ) → cursor ≤ j → StandsAt source expected j → j ≡ i

heads-eq : {a b : ℕ} {l r : List ℕ} → a ∷ l ≡ b ∷ r → a ≡ b
heads-eq e = cc

module _ (source expected : List Text) where
  -- Membership in the list of matches.
  abbrev Listed : ℕ → List ℕ → Type 0
  Listed j [] = ⊥
  Listed j (i ∷ is) = (j ≡ i) ⊎ Listed j is

  if-Listed : (b : Bool) (i j : ℕ) (is : List ℕ) → Listed j is → Listed j (if b then i ∷ is else is)
  if-Listed true i j is h = inr h
  if-Listed false i j is h = h

  if-Listed-inv :
      (b : Bool) (i j : ℕ) (is : List ℕ)
      → Listed j (if b then i ∷ is else is)
      → (j ≡ i) × (b ≡ true) ⊎ Listed j is
  if-Listed-inv true i j is (inl e) = inl (e, refl)
  if-Listed-inv true i j is (inr h) = inr h
  if-Listed-inv false i j is h = inr h

  le-cases : (i j : ℕ) → i ≤ j → (i ≡ j) ⊎ (i + 1 ≤ j)
  le-cases i j h = ground arith

  lines_eq-here :
      {i j : ℕ}
      → i ≡ j
      → slice source j (j + length expected) ≡ expected
      → lines_eq (slice source i (i + length expected)) expected ≡ true
  lines_eq-here e h = rw (e, h) (lines_eq_refl expected)

  matches-Listed :
      (n i j : ℕ)
      → i ≤ j
      → j < i + n
      → slice source j (j + length expected) ≡ expected
      → Listed j (matches source expected n i)
  unfolding matches
  matches-Listed zero i j low high h = absurd (omega arith)
  matches-Listed (suc n) i j low high h = elim (le-cases i j low) [
    | inl here ↦ rw (lines_eq-here here h) (inl (sym here))
    | inr above ↦
        if-Listed (lines_eq (slice source i (i + length expected)) expected) i j
          (matches source expected n (i + 1))
          (matches-Listed n (i + 1) j (omega arith) (omega arith) h)
  ]

  Listed-matches :
      (n i j : ℕ)
      → Listed j (matches source expected n i)
      → (i ≤ j) × (j < i + n) × (slice source j (j + length expected) ≡ expected)
  unfolding matches
  Listed-matches zero i j h = absurd h
  Listed-matches (suc n) i j h =
      elim (if-Listed-inv (lines_eq (slice source i (i + length expected)) expected) i j
        (matches source expected n (i + 1)) h) [
          | inl (e, test) ↦ rw e (
            omega arith,
            omega arith,
            lines_eq-eq (slice source i (i + length expected)) expected test,
          )
          | inr more ↦
              let (low, high, same) = Listed-matches n (i + 1) j more in
              (omega arith, omega arith, same)
        ]

  -- The matches are listed from the first on.
  matches-lt :
      (n i a j : ℕ) (rest : List ℕ) → matches source expected n i ≡ a ∷ rest → Listed j rest → a < j
  unfolding matches
  matches-lt zero i a j rest e h = cc
  matches-lt (suc n) i a j rest e h =
      elim (Bool-cases (lines_eq (slice source i (i + length expected)) expected)) [
        | inl test ↦
            let first : i ∷ matches source expected n (i + 1) ≡ a ∷ rest = rw test at e in
            let later : Listed j (matches source expected n (i + 1)) = subst (Listed j) (cc) h in
            omega (arith, (Listed-matches n (i + 1) j later).0, heads-eq first)
        | inr test ↦ matches-lt n (i + 1) a j rest (rw test at e) h
      ]

  -- The places among which a bare hunk has to find its own.
  abbrev places : ℕ → List ℕ
  places cursor = matches source expected (length source + 1 - length expected - cursor) cursor

  places_iff :
      (cursor j : ℕ) → Listed j (places cursor) ↔ ((cursor ≤ j) × StandsAt source expected j)
  places_iff cursor j = (
    (λ h.
        let (low, high, same) =
          Listed-matches (length source + 1 - length expected - cursor) cursor j h in
        (low, (omega arith, same))),
    λ (low, (fits, same)).
        matches-Listed (length source + 1 - length expected - cursor) cursor j low (omega arith)
          same,
  )

  only_match_sound :
      (l : List ℕ) (i : ℕ) → only_match l ≡ ok i → Listed i l × ((j : ℕ) → Listed j l → j ≡ i)
  unfolding only_match
  only_match_sound [] i e = cc
  only_match_sound (a ∷ []) i e =
      (inl (ground arith), λ j h. elim h [ inl same ↦ ground arith | inr no_more ↦ absurd no_more ])
  only_match_sound (a ∷ b ∷ l) i e = cc

  only_match_complete :
      (l : List ℕ) (i : ℕ)
      → ((a j : ℕ) (rest : List ℕ) → l ≡ a ∷ rest → Listed j rest → a < j)
      → Listed i l
      → ((j : ℕ) → Listed j l → j ≡ i)
      → only_match l ≡ ok i
  unfolding only_match
  only_match_complete [] i up h only = absurd h
  only_match_complete (a ∷ []) i up h only = ap ok (only a (inl refl))
  only_match_complete (a ∷ b ∷ l) i up h only =
      absurd
        (omega (arith, up a b (b ∷ l) refl (inl refl), only a (inl refl), only b (inr (inl refl))))

-- A bare hunk is located at a line exactly when its old side stands there, at or behind the cursor,
-- and at no other such line.
pub locate_bare_iff :
    (source : List Text) (cursor : ℕ) (expected : List Text) (i : ℕ)
    → (locate_bare source cursor expected ≡ ok i) ↔ IsOnlyPlace source cursor expected i
unfolding locate_bare
locate_bare_iff source cursor expected i = (
  (λ e.
      let (listed, only) = only_match_sound source expected (places source expected cursor) i e in
      let (low, stands) = (places_iff source expected cursor i).0 listed in
      record {
        behind = low;
        stands = stands;
        only = λ j high other. only j ((places_iff source expected cursor j).1 (high, other));
      }),
  λ p.
      only_match_complete source expected (places source expected cursor) i
        (λ a j rest e. matches-lt source expected _ cursor a j rest e)
        ((places_iff source expected cursor i).1 (p.behind, p.stands))
        (λ j h.
          let (low, stands) = (places_iff source expected cursor j).0 h in p.only j low stands),
)
