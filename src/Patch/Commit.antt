-- ===== src/Patch/Commit.antt =====
-- `ApplyPatchTool` of tools/patch.py: the changes of all files are planned on the files as they are
-- read; then a checkpoint is created, the files are compared with the plan, and the changes are
-- written; a write that raises has the checkpoint restored. Another process may change the files
-- between the plan and the checkpoint, so that there are two states of the files. The release of the
-- checkpoint and the texts of the result are left out. UTF-8 (`encode`, `decode`, which may raise),
-- the checks of the roots (`writable`) and the failures of the system by path, of the writes of the
-- patch (`faults`) and of those of the restoration (`restore_faults`), are parameters.
pub mod Near
pub mod Targets
pub mod Rollback
pub mod Atomic
mod Tests
use borealis_coder.Prelude.{
  ℕ, zero, suc, ◌+◌, Bool, true, false, not, ◌||◌, ◌&&◌, Option, none, some, List, [], ◌∷◌, length,
  get_elem?, leb, ◌==◌, Result, ok, err, guard, ◌>>=◌, ◌>>◌, if◌then◌else◌,
}
use borealis_coder.Prelude.Chars.{Text, codes, text_eq, elem_text, contains}
use borealis_coder.Files.{
  Node, absent, directory, file, Files, is_absent, read_bytes_up_to, atomic_write_bytes, unlink,
}
use borealis_coder.Checkpoints.{Places, CheckpointError, Entry, create, restore}
use borealis_coder.Patch.{Hunk, FilePatch, PatchError}
use borealis_coder.Patch.Hunks.{apply_hunks}
use borealis_coder.Patch.Parse.Unified.{lacks_hunks, parse_patch}

-- What is raised on the way; a `PatchError` of the parsers and hunks, or an error of the checkpoint,
-- stands in its own constructor.
pub data CommitError : Type 0 where
  no_changes no_path outside_roots not_writable duplicate_target target_exists : CommitError
  added_too_large missing_file too_large not_utf8 not_emptied updated_too_large : CommitError
  index_error stale write_failed : CommitError
  patch_error : PatchError → CommitError
  checkpoint_error : CheckpointError → CommitError

-- The operation, with the content to write and the bytes that were read.
pub data Change : Type 0 where
  add : Text → Change
  delete : Text → Change
  update : Text → Text → Change

pub record Planned : Type 0 where
  pub target : Text
  pub change : Change

abbrev pub targets : List Planned → List Text
targets [] = []
targets (p ∷ ps) = p.target ∷ targets ps

abbrev pub found : {A : Type 0} → CommitError → Option A → Result CommitError A
found e none = err e
found e (some a) = ok a

-- A PatchError passes through.
abbrev pub raised : {A : Type 0} → Result PatchError A → Result CommitError A
raised (ok a) = ok a
raised (err e) = err (patch_error e)

-- text.replace("\r\n", "\n")
pub without_crlf : Text → Text
without_crlf [] = []
without_crlf (c ∷ []) = c ∷ []
without_crlf (c ∷ d ∷ s) =
    let rest = without_crlf (d ∷ s) in if c == 13 && d == 10 then rest else c ∷ rest

abbrev nonempty : Option Text → Option Text
nonempty (some (c ∷ s)) = some (c ∷ s)
nonempty _ = none

-- `item.new_path or item.old_path`, if it is not empty
pub item_path : FilePatch → Option Text
item_path item = elim (nonempty item.new_path) [ some p ↦ some p | none ↦ nonempty item.old_path ]

-- `target.is_file()`, and the file's bytes.
abbrev pub file_bytes : Node → Option Text
file_bytes (file bytes mode) = some bytes
file_bytes _ = none

-- `_require_preimage`
unfoldable pub require_preimage : Node → Change → Result CommitError (Unit {0})
require_preimage now (add content) = guard (is_absent now) stale
require_preimage now (delete original) = do
  actual ← found stale (file_bytes now)
  guard (text_eq (read_bytes_up_to actual (length original + 1)) original) stale
require_preimage now (update content original) = do
  actual ← found stale (file_bytes now)
  guard (text_eq (read_bytes_up_to actual (length original + 1)) original) stale

unfoldable pub require_preimages : Files → List Planned → Result CommitError (Unit {0})
unfolding require_preimage
require_preimages files [] = ok tt
require_preimages files (p ∷ ps) = do
  require_preimage (files p.target) p.change
  require_preimages files ps

-- The files that are left, and what is returned or raised.
pub record Applied : Type 0 where
  pub files : Files
  pub result : Result CommitError (List Planned)

module _ (digit : ℕ → Option ℕ) (encode : Text → Text) (decode : Text → Option Text)
    (digest : Text → Text) (places : Places) (writable : Text → Bool) (max_file_bytes : ℕ) where
  -- The hunks applied; if they do not apply, those of the patch with its line ends normalized.
  unfoldable pub updated_text : Text → ℕ → Text → List Hunk → Result CommitError Text
  unfolding without_crlf apply_hunks
  updated_text patch_text index original hunks = elim (apply_hunks original hunks) [
    | ok updated ↦ ok updated
    | err e ↦ if not (contains (codes "\r\n") patch_text) then err (patch_error e) else (do
      normalized ← raised (parse_patch digit (without_crlf patch_text))
      item ← found index_error (get_elem? normalized index)
      raised (apply_hunks original item.hunks))
  ]

  -- The change of a file that is there.
  unfoldable pub plan_change : Text → ℕ → FilePatch → Text → Result CommitError Change
  unfolding updated_text
  plan_change patch_text index item bytes = do
    let original_bytes = read_bytes_up_to bytes (max_file_bytes + 1)
    guard (leb (length original_bytes) max_file_bytes) too_large
    original ← found not_utf8 (decode original_bytes)
    if item.delete && lacks_hunks digit item.hunks then ok (delete original_bytes) else (do
      updated ← updated_text patch_text index original item.hunks
      if item.delete
          then (do guard (text_eq updated []) not_emptied; ok (delete original_bytes))
          else (do
            guard (leb (length (encode updated)) max_file_bytes) updated_too_large
            ok (update updated original_bytes)))

  unfoldable pub plan_item : Text → ℕ → FilePatch → Node → Result CommitError Change
  unfolding plan_change
  plan_item patch_text index item now = elim item.add_content [
    | some content ↦ do
      guard (is_absent now) target_exists
      guard (leb (length (encode content)) max_file_bytes) added_too_large
      ok (add content)
    | none ↦ do bytes ← found missing_file (file_bytes now); plan_change patch_text index item bytes
  ]

  -- The loop of `_apply` that plans; `seen` has the targets before.
  unfoldable pub plan_from :
      Text → Files → ℕ → List Text → List FilePatch → Result CommitError (List Planned)
  unfolding item_path plan_item elem_text
  plan_from patch_text files index seen [] = ok []
  plan_from patch_text files index seen (item ∷ items) = do
    path ← found no_path (item_path item)
    target ← found outside_roots (places.resolve path)
    guard (writable target) not_writable
    guard (not (elem_text target seen)) duplicate_target
    change ← plan_item patch_text index item (files target)
    rest ← plan_from patch_text files (suc index) (target ∷ seen) items
    ok (record { target = target; change = change } ∷ rest)

  module _ (faults : Text → Bool) where
    -- One write. Where it raises, the files of the error are left.
    unfoldable pub commit_change : Files → Text → Change → Result Files Files
    unfolding atomic_write_bytes unlink
    commit_change files target (add content) =
        atomic_write_bytes places.parents (faults target) files target (encode content) none
    commit_change files target (delete original) = unlink (faults target) files target
    commit_change files target (update content original) =
        atomic_write_bytes places.parents (faults target) files target (encode content) none

    unfoldable pub commit_all : Files → List Planned → Result Files Files
    unfolding commit_change
    commit_all files [] = ok files
    commit_all files (p ∷ ps) = elim (commit_change files p.target p.change) [
      | err left ↦ err left
      | ok written ↦ commit_all written ps
    ]

    module _ (restore_faults : Text → Bool) where
      -- The writes have raised.
      unfoldable pub roll_back : Option (List Entry) → Files → Applied
      unfolding restore
      roll_back none left = record { files = left; result = err write_failed }
      roll_back (some entries) left = elim (restore digest places restore_faults left entries) [
        | ok restored ↦ record { files = restored; result = err write_failed }
        | err raised ↦ record { files = raised.1; result = err (checkpoint_error raised.0) }
      ]

      -- From the creation of the checkpoint on.
      unfoldable pub commit : Option (List Entry) → Files → List Planned → Applied
      unfolding require_preimages commit_all roll_back
      commit checkpoint files planned = elim (require_preimages files planned) [
        | err e ↦ record { files = files; result = err e }
        | ok u ↦ elim (commit_all files planned) [
          | ok written ↦ record { files = written; result = ok planned }
          | err left ↦ roll_back checkpoint left
        ]
      ]

      -- `_apply`, with checkpoints of up to `max_bytes`, or without (`none`). The plan is made on the
      -- files `before`.
      unfoldable pub apply : Option ℕ → Files → Files → Text → List FilePatch → Applied
      unfolding plan_from create commit
      apply max_bytes before files patch_text patches =
          elim (plan_from patch_text before 0 [] patches) [
            | err e ↦ record { files = files; result = err e }
            | ok planned ↦ elim max_bytes [
              | none ↦ commit none files planned
              | some limit ↦ elim (create digest places limit files (targets planned)) [
                | err e ↦ record { files = files; result = err (checkpoint_error e) }
                | ok entries ↦ commit (some entries) files planned
              ]
            ]
          ]

      -- `execute`
      unfoldable pub execute : Option ℕ → Files → Files → Text → Applied
      unfolding parse_patch apply
      execute max_bytes before files patch_text = elim (parse_patch digit patch_text) [
        | err e ↦ record { files = files; result = err (patch_error e) }
        | ok [] ↦ record { files = files; result = err no_changes }
        | ok (item ∷ items) ↦ apply max_bytes before files patch_text (item ∷ items)
      ]
