-- ===== src/Commands/Shlex.antt =====
-- `shlex.split(command, posix=True)`: the lexer's states, as the standard library has them for this
-- call (words end at blanks, no comments, no punctuation characters).
use borealis_coder.Prelude.{
  ℕ, Bool, true, false, ◌&&◌, ◌||◌, List, [], ◌∷◌, ◌++◌, ◌==◌, Result, ok, err, ◌>>=◌,
  if◌then◌else◌,
}
use borealis_coder.Prelude.Chars.{Text, elem_char}

pub data LexError : Type 0 where
  no_closing_quotation no_escaped_character : LexError

-- Between tokens; in a word; in quotes opened by `q`; behind a backslash, to go back to the word or
-- to the quotes.
pub data Mode : Type 0 where
  between in_word escaped_word : Mode
  in_quotes escaped_quotes : ℕ → Mode

-- The mode, the token so far, and whether it has had quotes.
pub record Lexer : Type 0 where
  pub mode : Mode
  pub token : Text
  pub quoted : Bool

abbrev lexer : Mode → Text → Bool → Lexer
lexer m t q = record { mode = m; token = t; quoted = q }

abbrev is_blank_char : ℕ → Bool
is_blank_char c = elem_char c (32 ∷ 9 ∷ 13 ∷ 10 ∷ [])

abbrev is_quote : ℕ → Bool
is_quote c = c == 34 || c == 39

abbrev backslash : ℕ
backslash = 92

-- A token is returned if it is not empty or has had quotes.
abbrev finish : Text → Bool → List Text
finish [] true = [] ∷ []
finish [] false = []
finish (c ∷ s) q = (c ∷ s) ∷ []

-- One character: the new state, and the token that it ends.
pub lex_step : Mode → Text → Bool → ℕ → Lexer × List Text
lex_step between t q c =
    if is_blank_char c
    then (lexer between [] false, finish t q)
    else if c == backslash
    then (lexer escaped_word t q, [])
    else if is_quote c
    then (lexer (in_quotes c) t q, [])
    else (lexer in_word (c ∷ []) q, [])
lex_step in_word t q c =
    if is_blank_char c
    then (lexer between [] false, finish t q)
    else if is_quote c
    then (lexer (in_quotes c) t q, [])
    else if c == backslash
    then (lexer escaped_word t q, [])
    else (lexer in_word (t ++ c ∷ []) q, [])
lex_step (in_quotes d) t q c =
    if c == d
    then (lexer in_word t true, [])
    else if c == backslash && d == 34
    then (lexer (escaped_quotes d) t true, [])
    else (lexer (in_quotes d) (t ++ c ∷ []) true, [])
lex_step escaped_word t q c = (lexer in_word (t ++ c ∷ []) q, [])
lex_step (escaped_quotes d) t q c =
    if c == backslash || c == d
    then (lexer (in_quotes d) (t ++ c ∷ []) q, [])
    else (lexer (in_quotes d) (t ++ backslash ∷ c ∷ []) q, [])

-- The end of the text.
pub lex_end : Mode → Text → Bool → Result LexError (List Text)
lex_end between t q = ok []
lex_end in_word t q = ok (finish t q)
lex_end (in_quotes d) t q = err no_closing_quotation
lex_end escaped_word t q = err no_escaped_character
lex_end (escaped_quotes d) t q = err no_escaped_character

pub lex : Lexer → Text → Result LexError (List Text)
unfolding lex_step lex_end
lex l [] = lex_end l.mode l.token l.quoted
lex l (c ∷ s) =
    let (next, out) = lex_step l.mode l.token l.quoted c in do rest ← lex next s; ok (out ++ rest)

unfoldable pub split : Text → Result LexError (List Text)
unfolding lex
split s = lex (lexer between [] false) s
