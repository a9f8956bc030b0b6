-- ===== src/Files.antt =====
-- The file system as the program's writes see it: util.py, `atomic_write_bytes` and
-- `read_bytes_up_to`. A path is resolved and has the text of its name; `parents` (the attribute of
-- pathlib) is a parameter.
pub mod Written
use borealis_coder.Prelude.{
  ℕ, suc, Bool, true, false, not, ◌||◌, ◌&&◌, Option, none, some, List, any, take, Result, ok, err,
  if◌then◌else◌,
}
use borealis_coder.Prelude.Chars.{Text, text_eq, elem_text}

-- What stands at a path; a file has its bytes and its mode.
pub data Node : Type 0 where
  absent directory : Node
  file : Text → ℕ → Node

abbrev pub Files : Type 0
Files = Text → Node

abbrev pub is_absent : Node → Bool
is_absent absent = true
is_absent _ = false

abbrev pub is_directory : Node → Bool
is_directory directory = true
is_directory _ = false

abbrev pub is_file : Node → Bool
is_file (file bytes mode) = true
is_file _ = false

unfoldable pub put : Text → Node → Files → Files
put p node files q = if text_eq p q then node else files q

-- mkdir(parents=True, exist_ok=True)
unfoldable pub make_directories : List Text → Files → Files
unfolding elem_text
make_directories ds files q = if elem_text q ds && is_absent (files q) then directory else files q

-- The mode of a replaced file; a new file keeps the one of the temporary file.
abbrev pub written_mode : Option ℕ → Node → ℕ
written_mode (some mode) node = mode
written_mode none (file bytes mode) = mode
written_mode none _ = 0o600

abbrev pub read_bytes_up_to : Text → ℕ → Text
read_bytes_up_to bytes limit = take limit bytes

module _ (parents : Text → List Text) where
  -- A write that raises leaves the files of the error behind. It raises where a parent is a file,
  -- where the target is a directory, and wherever the system fails (`fault`).
  unfoldable pub atomic_write_bytes : Bool → Files → Text → Text → Option ℕ → Result Files Files
  unfolding make_directories put
  atomic_write_bytes fault files p bytes mode =
      if any (λ d. is_file (files d)) (parents p)
      then err files
      else (let made = make_directories (parents p) files in
          if fault || is_directory (made p)
          then err made
          else ok (put p (file bytes (written_mode mode (files p))) made))

-- path.unlink()
unfoldable pub unlink : Bool → Files → Text → Result Files Files
unfolding put
unlink fault files p =
    if fault || not (is_file (files p)) then err files else ok (put p absent files)
