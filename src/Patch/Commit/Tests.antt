-- ===== src/Patch/Commit/Tests.antt =====
-- Runs of `apply` on small file systems, and an instance of its theorem.
use borealis_coder.Prelude.{
  ℕ, ◌≡◌, refl, sym, subst, ◌∙◌, ◌⊎◌, Bool, true, false, Option, none, some, List, [], ◌∷◌, ok, err,
  Bool-cases, inl, inr, arith, length, ok_inj, if◌then◌else◌,
}
use borealis_coder.Prelude.Chars.{Text, codes, text_eq, text_eq-eq, elem_text}
use borealis_coder.Files.{absent, directory, file, Files, put}
use borealis_coder.Checkpoints
use borealis_coder.Checkpoints.{Places, replaces_directory}
use borealis_coder.Checkpoints.Kept.{IsSound}
use borealis_coder.Patch.{removal, addition, FilePatch}
use borealis_coder.Patch.Commit.{
  write_failed, checkpoint_error, stale, add, update, Planned, targets, plan_from, Applied, apply,
}
use borealis_coder.Patch.Commit.Near.{IsApart}
use borealis_coder.Patch.Commit.Targets.{IsStable}
use borealis_coder.Patch.Commit.Atomic.{apply-OnError}
use borealis_coder.Patch.Commit.Rollback.{LeavesFiles, PartlyRestored}

abbrev places : Places
places = record {
  canonical = λ p. p;
  resolve = some;
  entry_path = some;
  parents = λ p. codes "." ∷ [];
}

abbrev files : Files
files = put (codes ".") directory (put (codes "x") (file (codes "b\n") 0o644) (λ q. absent))

abbrev change : FilePatch
change = record {
  old_path = some (codes "x");
  new_path = some (codes "x");
  hunks =
      record {
        old_start = some 1;
        old_count = 1;
        new_start = 1;
        new_count = 1;
        lines =
            record { kind = removal; text = codes "b\n" }
            ∷ record { kind = addition; text = codes "c\n" }
            ∷ [];
      }
      ∷ [];
  add_content = none;
  delete = false;
}

abbrev addition_of_y : FilePatch
addition_of_y = record {
  old_path = none;
  new_path = some (codes "y");
  hunks = [];
  add_content = some (codes "d\n");
  delete = false;
}

abbrev items : List FilePatch
items = change ∷ addition_of_y ∷ []

abbrev planned : List Planned
planned =
    record { target = codes "x"; change = update (codes "c\n") (codes "b\n") }
    ∷ record { target = codes "y"; change = add (codes "d\n") }
    ∷ []

abbrev digit : ℕ → Option ℕ
digit c = none

abbrev digest : Text → Text
digest t = length t ∷ []

abbrev same : Text → Text
same t = t

abbrev writable : Text → Bool
writable p = true

-- The system refuses to write the second file.
abbrev faults : Text → Bool
faults p = text_eq p (codes "y")

abbrev applied : Option ℕ → Files → Applied
applied limit now =
    apply digit same some digest places writable 100 faults (λ p. false) limit files now [] items

plan : plan_from digit same some digest places writable 100 [] files 0 [] items ≡ ok planned
unfolding plan_from put
plan = refl

fails : (applied (some 100) files).result ≡ err write_failed
unfolding apply put
fails = refl

rolled_back : (applied (some 100) files).files (codes "x") ≡ file (codes "b\n") 0o644
unfolding apply put
rolled_back = refl

-- Without checkpoints the first write stays.
not_rolled_back : (applied none files).files (codes "x") ≡ file (codes "c\n") 0o644
unfolding apply put
not_rolled_back = refl

changed_since : (applied none (put (codes "x") (file [] 0o644) files)).result ≡ err stale
unfolding apply put
changed_since = refl

-- A directory that a write has made keeps the checkpoint from being restored.
abbrev nested_places : Places
nested_places = record places {
  parents = λ p. if text_eq p (codes "a/b") then codes "a" ∷ codes "." ∷ [] else codes "." ∷ [];
}

abbrev added : Text → FilePatch
added p = record addition_of_y { new_path = some p }

abbrev nested : Applied
nested =
    apply digit same some digest nested_places writable 100 (λ p. false) (λ p. false) (some 100)
      files files [] (added (codes "a/b") ∷ added (codes "a") ∷ [])

nested-raises : nested.result ≡ err (checkpoint_error replaces_directory)
unfolding apply put
nested-raises = refl

nested-stays : nested.files (codes "a/b") ≡ file (codes "d\n") 0o600
unfolding apply put
nested-stays = refl

files-IsSound : IsSound places files
unfolding put
files-IsSound p content mode h = elim (Bool-cases (text_eq (codes ".") p)) [
  | inl dot ↦ absurd cc
  | inr other ↦ elim (Bool-cases (text_eq (codes "x") p)) [
    | inl x ↦ (ground arith, (refl, tt))
    | inr neither ↦ absurd cc
  ]
]

places-IsStable : IsStable places
places-IsStable p q h = (refl, refl, refl)

planned-IsApart : IsApart places.parents (targets planned)
unfolding elem_text
planned-IsApart t q h k = elim (Bool-cases (text_eq (codes "x") q)) [
  | inl x ↦ subst (λ s. elem_text s (codes "." ∷ []) ≡ false) (text_eq-eq (codes "x") q x) refl
  | inr other ↦ elim (Bool-cases (text_eq (codes "y") q)) [
    | inl y ↦ subst (λ s. elem_text s (codes "." ∷ []) ≡ false) (text_eq-eq (codes "y") q y) refl
    | inr neither ↦ absurd cc
  ]
]

-- The system refuses the second file again, when the checkpoint is restored; its path comes first.
abbrev changed_b : FilePatch
changed_b = record change { old_path = some (codes "b/y"); new_path = some (codes "b/y") }

abbrev changed_z : FilePatch
changed_z = record change { old_path = some (codes "z/x"); new_path = some (codes "z/x") }

abbrev refuses_b : Text → Bool
refuses_b p = text_eq p (codes "b/y")

abbrev two_files : Files
two_files =
    put (codes "b/y") (file (codes "b\n") 0o644)
      (put (codes "z/x") (file (codes "b\n") 0o644) files)

abbrev refused_twice : Applied
refused_twice =
    apply digit same some digest places writable 100 refuses_b refuses_b (some 100) two_files
      two_files [] (changed_z ∷ changed_b ∷ [])

refused_twice-raises : refused_twice.result ≡ err (checkpoint_error Checkpoints.write_failed)
unfolding apply put
refused_twice-raises = refl

refused_twice-stays : refused_twice.files (codes "z/x") ≡ file (codes "c\n") 0o644
unfolding apply put
refused_twice-stays = refl

apply-OnError_example :
    LeavesFiles files (applied (some 100) files)
    ⊎ ((ps : List Planned) × (plan_from digit same some digest places writable 100 [] files 0 []
            items
          ≡ ok ps)
        × PartlyRestored (λ p. false) files (targets ps) (applied (some 100) files))
apply-OnError_example =
    apply-OnError digit same some digest places writable 100 faults (λ p. false) files 100 files []
      items write_failed files-IsSound places-IsStable
      (λ ps e.
        subst (λ (us : List Planned). IsApart places.parents (targets us)) (ok_inj (sym plan ∙ e))
          planned-IsApart)
      fails
