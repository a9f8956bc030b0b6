-- ===== src/Checkpoints.antt =====
-- safety/checkpoints.py, `CheckpointManager`: what is saved before a change and written back after
-- a failed one. A manifest stands for its record, and a blob stands in the entry that names it. The
-- answers of `WorkspaceRoots`, the resolution of links and SHA-256 are parameters.
pub mod Kept
pub mod Sorted
pub mod WriteBack
pub mod Restored
pub mod Retention
mod Tests
use borealis_coder.Prelude.{
  ℕ, zero, suc, ◌+◌, ◌-◌, Bool, true, false, not, ◌||◌, ◌&&◌, Option, none, some, List, [], ◌∷◌,
  length, map, ltb, leb, Result, ok, err, guard, ◌>>=◌, ◌>>◌, if◌then◌else◌, ◌==◌,
}
use borealis_coder.Prelude.Chars.{Text, text_eq}
use borealis_coder.Files.{
  Node, absent, directory, file, Files, is_absent, is_directory, is_file, read_bytes_up_to,
  atomic_write_bytes, unlink,
}

-- The questions that the manager asks: `path.resolve(strict=False)`, `roots.resolve(path).path` and
-- `_entry_path` (none where they raise), and `path.parents`.
pub record Places : Type 0 where
  pub canonical : Text → Text
  pub resolve : Text → Option Text
  pub entry_path : Text → Option Text
  pub parents : Text → List Text

pub data CheckpointError : Type 0 where
  outside not_a_file over_limit : CheckpointError
  replaces_directory invalid_mode invalid_parent blob_missing checksum write_failed :
      CheckpointError

-- The keys of an entry whose file existed; the blob may be lost later.
pub record Saved : Type 0 where
  pub blob : Option Text
  pub sha256 : Text
  pub mode : ℕ

pub record Entry : Type 0 where
  pub path : Text
  pub saved : Option Saved

-- Python's `<` on texts.
pub text_ltb : Text → Text → Bool
text_ltb [] [] = false
text_ltb [] (d ∷ t) = true
text_ltb (c ∷ s) [] = false
text_ltb (c ∷ s) (d ∷ t) = ltb c d || c == d && text_ltb s t

pub insert : Text → List Text → List Text
unfolding text_ltb
insert p [] = p ∷ []
insert p (q ∷ qs) =
    let later = insert p qs in
    if text_eq p q then q ∷ qs else if text_ltb p q then p ∷ q ∷ qs else q ∷ later

-- `sorted({…}, key=str)`
pub sorted_unique : List Text → List Text
unfolding insert
sorted_unique [] = []
sorted_unique (p ∷ ps) = insert p (sorted_unique ps)

-- `_valid_mode` of a mode that is a number
abbrev pub valid_mode : ℕ → Bool
valid_mode mode = leb mode 0o177777

-- The nearest parent that exists is a directory.
abbrev pub parents_valid : Files → List Text → Bool
parents_valid files [] = true
parents_valid files (d ∷ ds) = elim (files d) [
  | absent ↦ parents_valid files ds
  | directory ↦ true
  | file bytes mode ↦ false
]

-- What `restore` has validated of an entry: its path, and the bytes and the mode to write.
abbrev pub Validated : Type 0
Validated = Text × Option (Text × ℕ)

module _ (digest : Text → Text) (places : Places) where
  abbrev pub found : {A : Type 0} → CheckpointError → Option A → Result CheckpointError A
  found e none = err e
  found e (some a) = ok a

  -- One path of `create`, with the bytes that are saved before and after it.
  unfoldable pub save_entry : ℕ → ℕ → Text → Node → Result CheckpointError (Entry × ℕ)
  save_entry max_bytes total path absent = ok (record { path = path; saved = none }, total)
  save_entry max_bytes total path directory = err not_a_file
  save_entry max_bytes total path (file content mode) = do
    let read = read_bytes_up_to content (max_bytes - total + 1)
    guard (leb (total + length read) max_bytes) over_limit
    ok (
      record {
        path = path;
        saved = some (record { blob = some read; sha256 = digest read; mode = mode });
      },
      total + length read,
    )

  -- The loop of `create` over the paths.
  unfoldable pub save_entries : ℕ → Files → ℕ → List Text → Result CheckpointError (List Entry)
  unfolding save_entry
  save_entries max_bytes files total [] = ok []
  save_entries max_bytes files total (p ∷ ps) = do
    path ← found outside (places.resolve p)
    (entry, so_far) ← save_entry max_bytes total path (files path)
    entries ← save_entries max_bytes files so_far ps
    ok (entry ∷ entries)

  -- `create` of a manager that is enabled.
  unfoldable pub create : ℕ → Files → List Text → Result CheckpointError (List Entry)
  unfolding save_entries sorted_unique
  create max_bytes files paths =
      save_entries max_bytes files 0 (sorted_unique (map places.canonical paths))

  -- What is to be written at the path.
  unfoldable pub validate_saved :
      Files → Text → Option Saved → Result CheckpointError (Option (Text × ℕ))
  validate_saved files path none = ok none
  validate_saved files path (some s) = do
    guard (valid_mode s.mode) invalid_mode
    guard (parents_valid files (places.parents path)) invalid_parent
    blob ← found blob_missing s.blob
    guard (text_eq (digest blob) s.sha256) checksum
    ok (some (blob, s.mode))

  -- The first loop of `restore`: nothing is written.
  unfoldable pub validate_entries : Files → List Entry → Result CheckpointError (List Validated)
  unfolding validate_saved
  validate_entries files [] = ok []
  validate_entries files (e ∷ es) = do
    path ← found outside (places.entry_path e.path)
    guard (not (is_directory (files path))) replaces_directory
    content ← validate_saved files path e.saved
    rest ← validate_entries files es
    ok ((path, content) ∷ rest)

  -- One turn of the second loop of `restore`, with the failures of the system by path.
  unfoldable pub write_entry : (Text → Bool) → Files → Validated → Result Files Files
  unfolding atomic_write_bytes unlink
  write_entry faults files (path, none) =
      if is_file (files path) then unlink (faults path) files path else ok files
  write_entry faults files (path, some (blob, mode)) =
      atomic_write_bytes places.parents (faults path) files path blob (some mode)

  -- The second loop of `restore`. A write that raises leaves the files of the error behind.
  unfoldable pub write_back :
      (Text → Bool) → Files → List Validated → Result (CheckpointError × Files) Files
  unfolding write_entry
  write_back faults files [] = ok files
  write_back faults files (v ∷ rest) = elim (write_entry faults files v) [
    | err left ↦ err (write_failed, left)
    | ok written ↦ write_back faults written rest
  ]

  unfoldable pub restore :
      (Text → Bool) → Files → List Entry → Result (CheckpointError × Files) Files
  unfolding validate_entries write_back
  restore faults files entries = elim (validate_entries files entries) [
    | err e ↦ err (e, files)
    | ok validated ↦ write_back faults files validated
  ]
