-- ===== src/Patch/Header.antt =====
-- The hunk headers of tools/patch.py: `^@@ -(\d+)(?:,(\d+))? \+(\d+)(?:,(\d+))? @@`. The value of a
-- decimal digit goes by the tables of Unicode and is a parameter; no separator of the header is a
-- digit, so that the greedy match never goes back. (`int` refuses numbers of thousands of digits;
-- these do not occur.)
use borealis_coder.Prelude.{ℕ, ◌+◌, ◌*◌, Option, none, some, [], ◌∷◌}
use borealis_coder.Prelude.Chars.{Text, codes, after_prefix}
use borealis_coder.Patch.{Hunk}

infixl 5 ◌>>=◌
abbrev ◌>>=◌ : {A B : Type 0} → Option A → (A → Option B) → Option B
none >>= f = none
some a >>= f = f a

module _ (digit : ℕ → Option ℕ) where
  -- The digits in front, read on from the number `n`, and the rest.
  pub digits : ℕ → Text → ℕ × Text
  digits n [] = (n, [])
  digits n (c ∷ s) = elim (digit c) [ none ↦ (n, c ∷ s) | some d ↦ digits (10 * n + d) s ]

  -- `(\d+)`
  pub number : Text → Option (ℕ × Text)
  unfolding digits
  number [] = none
  number (c ∷ s) = elim (digit c) [ none ↦ none | some d ↦ some (digits d s) ]

  -- `(?:,(\d+))?`, 1 where it is absent.
  pub count : Text → ℕ × Text
  unfolding number
  count s = elim (after_prefix (codes ",") s) [
    | none ↦ (1, s)
    | some t ↦ elim (number t) [ none ↦ (1, s) | some r ↦ r ]
  ]

  -- A hunk without its lines, from the header that a line begins with.
  unfoldable pub header : Text → Option Hunk
  unfolding number count
  header line = do
    a ← after_prefix (codes "@@ -") line
    (old_start, b) ← number a
    let (old_count, c) = count b
    d ← after_prefix (codes " +") c
    (new_start, e) ← number d
    let (new_count, f) = count e
    rest ← after_prefix (codes " @@") f
    some (record {
      old_start = some old_start;
      old_count = old_count;
      new_start = new_start;
      new_count = new_count;
      lines = [];
    })
