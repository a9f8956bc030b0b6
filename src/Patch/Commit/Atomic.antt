-- ===== src/Patch/Commit/Atomic.antt =====
-- A patch that raises (tools/patch.py).
use borealis_coder.Prelude.{
  ℕ, ◌≡◌, refl, ◌⊎◌, inl, inr, Bool, false, Option, some, List, [], ok, err, All, Result-both,
}
use borealis_coder.Prelude.Chars.{Text}
use borealis_coder.Files.{Files, is_directory}
use borealis_coder.Checkpoints.{Places, Entry, create}
use borealis_coder.Checkpoints.Kept.{IsSound}
use borealis_coder.Patch.{FilePatch}
use borealis_coder.Patch.Commit.{
  CommitError, write_failed, Planned, targets, require_preimages, plan_from, Applied, commit_all,
  commit, apply,
}
use borealis_coder.Patch.Commit.Near.{IsApart}
use borealis_coder.Patch.Commit.Targets.{
  IsStable, IsFixed, All-elem, require_preimages-no_directory, plan_from-IsFixed, left-Near,
}
use borealis_coder.Patch.Commit.Rollback.{LeavesFiles, PartlyRestored, roll_back-outcome}

module _ (digit : ℕ → Option ℕ) (encode : Text → Text) (decode : Text → Option Text)
    (digest : Text → Text) (places : Places) (writable : Text → Bool) (max_file_bytes : ℕ)
    (faults restore_faults : Text → Bool) (files : Files) where
  -- `a` returns, or leaves the files, or was restored in part.
  abbrev OnError : List Text → Applied → Type 0
  OnError ts a =
      (e : CommitError)
      → a.result ≡ err e
      → LeavesFiles files a ⊎ PartlyRestored restore_faults files ts a

  same_files : LeavesFiles files (record { files = files; result = err write_failed })
  same_files q = inl refl

  commit-OnError :
      (limit : ℕ) (planned : List Planned) (es : List Entry)
      → IsSound places files
      → All (IsFixed places) (targets planned)
      → IsApart places.parents (targets planned)
      → create digest places limit files (targets planned) ≡ ok es
      → OnError (targets planned) (
          commit digit encode decode digest places writable max_file_bytes faults restore_faults
            (some es)
            files
            planned)
  unfolding commit
  commit-OnError limit planned es sound fixed apart created =
      Result-both (OnError (targets planned)) (require_preimages files planned)
        (λ u checked.
          Result-both (OnError (targets planned))
            (commit_all digit encode decode digest places writable max_file_bytes faults files
              planned)
            (λ written e x h. absurd cc)
            (λ left e x h.
              let free =
                All-elem places (λ t. is_directory (files t) ≡ false) (targets planned)
                  (require_preimages-no_directory files planned checked) in
              roll_back-outcome digit encode decode digest places writable max_file_bytes faults
                restore_faults files limit (targets planned) es left sound fixed free created
                (left-Near digit encode decode digest places writable max_file_bytes faults files
                  planned left apart checked e)))
        (λ x e y h. inl same_files)

  -- With checkpoints, a patch that raises, at whichever check it fails and whichever of its writes
  -- the system refuses, has one of two outcomes. Either it has changed no file: what stood at each
  -- path before it stands there again, but that directories may have been made where there was
  -- nothing. Or the patch was planned, and the system refused a write of the restoration, whose error
  -- is then the one raised: the targets before the refused one in the order of their names stand as
  -- they did, and so does all that is not a target, with the same exception of new directories.
  -- It is supposed that each file that is there has a mode in range and its directories, that
  -- resolved paths stay what they are, and that no target of the patch is a directory above another.
  pub apply-OnError :
      (limit : ℕ) (before : Files) (patch_text : Text) (items : List FilePatch) (e : CommitError)
      → IsSound places files
      → IsStable places
      → ((planned : List Planned)
          → plan_from digit encode decode digest places writable max_file_bytes patch_text before 0
              [] items
            ≡ ok planned
          → IsApart places.parents (targets planned))
      → (let a =
            apply digit encode decode digest places writable max_file_bytes faults restore_faults
              (some limit)
              before
              files
              patch_text
              items in
          a.result ≡ err e
          → LeavesFiles files a
            ⊎ ((planned : List Planned) × (plan_from digit encode decode digest places writable
                    max_file_bytes patch_text before 0 [] items
                  ≡ ok planned)
                × PartlyRestored restore_faults files (targets planned) a))
  unfolding apply
  apply-OnError limit before patch_text items x sound stable apart =
      let plan =
        plan_from digit encode decode digest places writable max_file_bytes patch_text before 0 []
          items in
      let Outcome : Applied → Type 0 = λ a.
        (y : CommitError)
        → a.result ≡ err y
        → LeavesFiles files a
          ⊎ ((planned : List Planned) × (plan ≡ ok planned)
              × PartlyRestored restore_faults files (targets planned) a) in
      let outcome : Outcome (
          apply digit encode decode digest places writable max_file_bytes faults restore_faults
            (some limit) before files patch_text items) =
        Result-both Outcome plan
          (λ planned e.
            Result-both Outcome (create digest places limit files (targets planned))
              (λ es created y h.
                elim (commit-OnError limit planned es sound
                  (plan_from-IsFixed digit encode decode digest places writable max_file_bytes
                    patch_text before items 0 [] planned stable e)
                  (apart planned e) created y h) [
                    | inl same ↦ inl same
                    | inr partly ↦ inr (planned, e, partly)
                  ])
              (λ raised f y h. inl same_files))
          (λ raised e y h. inl same_files) in
      outcome x
