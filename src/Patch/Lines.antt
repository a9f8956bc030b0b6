-- ===== src/Patch/Lines.antt =====
-- `str.splitlines(keepends=True)` and `"".join`, as tools/patch.py uses them.
use borealis_coder.Prelude.{
  ℕ, ◌≡◌, refl, Bool, true, false, not, ◌&&◌, List, [], ◌∷◌, ◌==◌, concat, arith, if◌then◌else◌,
}
use borealis_coder.Prelude.Chars.{Text, is_line_end, text_eq, text_eq-eq, text_eq_refl}

-- `c` in front of the first line.
abbrev push : ℕ → List Text → List Text
push c [] = (c ∷ []) ∷ []
push c (l ∷ ls) = (c ∷ l) ∷ ls

abbrev starts_newline : Text → Bool
starts_newline [] = false
starts_newline (c ∷ s) = c == 10

-- A carriage return before a line feed does not end its line.
unfoldable pub splitlines : Text → List Text
unfolding is_line_end
splitlines [] = []
splitlines (c ∷ s) =
    let rest = splitlines s in
    if is_line_end c && not (c == 13 && starts_newline s) then (c ∷ []) ∷ rest else push c rest

-- `"".join(lines)`
abbrev pub join : List Text → Text
join = concat

concat-push : (c : ℕ) (ls : List Text) → concat (push c ls) ≡ c ∷ concat ls
concat-push c [] = refl
concat-push c (l ∷ ls) = refl

-- Joining the lines of a text gives the text.
pub join-splitlines : (s : Text) → join (splitlines s) ≡ s
unfolding splitlines
join-splitlines [] = refl
join-splitlines (c ∷ s) = ground (arith, concat-push c (splitlines s), join-splitlines s)

abbrev pub lines_eq : List Text → List Text → Bool
lines_eq [] [] = true
lines_eq [] (t ∷ ts) = false
lines_eq (s ∷ ss) [] = false
lines_eq (s ∷ ss) (t ∷ ts) = text_eq s t && lines_eq ss ts

pub lines_eq-eq : (ss ts : List Text) → lines_eq ss ts ≡ true → ss ≡ ts
lines_eq-eq [] [] h = refl
lines_eq-eq [] (t ∷ ts) h = cc
lines_eq-eq (s ∷ ss) [] h = cc
lines_eq-eq (s ∷ ss) (t ∷ ts) h = ground (arith, text_eq-eq s t, lines_eq-eq ss ts)

pub lines_eq_refl : (ss : List Text) → lines_eq ss ss ≡ true
lines_eq_refl [] = refl
lines_eq_refl (s ∷ ss) = ground (arith, text_eq_refl s, lines_eq_refl ss)
