-- ===== src/Checkpoints/Tests.antt =====
-- Runs of the checkpoint functions on small file systems, and instances of their theorems.
use borealis_coder.Prelude.{
  ℕ, ◌≡◌, refl, ap, ◌∙◌, ◌⊎◌, Bool, false, none, some, List, [], ◌∷◌, map, Result, ok, err,
  Bool-cases, inl, inr, arith, length,
}
use borealis_coder.Prelude.Chars.{Text, codes, text_eq, text_eq-eq}
use borealis_coder.Files.{absent, directory, file, Files, put}
use borealis_coder.Files.Written.{put-other}
use borealis_coder.Checkpoints.{
  Places, Entry, CheckpointError, checksum, sorted_unique, create, restore,
}
use borealis_coder.Checkpoints.Kept.{IsSound}
use borealis_coder.Checkpoints.Restored.{Ended, Refused, restore-create}
use borealis_coder.Checkpoints.Retention.{Record, Limits, prune}
use borealis_coder.Checkpoints.Retention.Order.{IsPruned, prune-IsPruned}

abbrev digest : Text → Text
digest t = length t ∷ []

-- All files lie in one directory.
abbrev places : Places
places = record {
  canonical = λ p. p;
  resolve = some;
  entry_path = some;
  parents = λ p. codes "." ∷ [];
}

abbrev files : Files
files = put (codes ".") directory (put (codes "x") (file (codes "b\n") 0o644) (λ q. absent))

-- The file is rewritten, and another is made.
abbrev later : Files
later = put (codes "x") (file (codes "c\n") 0o600) (put (codes "y") (file [] 0o600) files)

abbrev targets : List Text
targets = codes "y" ∷ codes "x" ∷ codes "y" ∷ []

abbrev entries : List Entry
entries =
    record {
      path = codes "x";
      saved = some (record { blob = some (codes "b\n"); sha256 = 2 ∷ []; mode = 0o644 });
    }
    ∷ record { path = codes "y"; saved = none }
    ∷ []

created : create digest places 100 files targets ≡ ok entries
unfolding create put
created = refl

damaged :
    restore digest places
      (λ p. false)
      later
      (record {
        path = codes "x";
        saved = some (record { blob = some []; sha256 = 2 ∷ []; mode = 0o644 });
      }
        ∷ [])
    ≡ err (checksum, later)
unfolding restore put
damaged = refl

files-IsSound : IsSound places files
unfolding put
files-IsSound p content mode h = elim (Bool-cases (text_eq (codes ".") p)) [
  | inl dot ↦ absurd cc
  | inr other ↦ elim (Bool-cases (text_eq (codes "x") p)) [
    | inl x ↦ (ground arith, (refl, tt))
    | inr neither ↦ absurd cc
  ]
]

-- No directory is removed.
stays : (d : Text) → files d ≡ directory → later d ≡ directory
unfolding put
stays d h = elim (Bool-cases (text_eq (codes "x") d)) [
  | inl x ↦
      let clash : files (codes "x") ≡ directory = ap files (text_eq-eq (codes "x") d x) ∙ h in
      absurd cc
  | inr other ↦ elim (Bool-cases (text_eq (codes "y") d)) [
    | inl y ↦
        let clash : files (codes "y") ≡ directory = ap files (text_eq-eq (codes "y") d y) ∙ h in
        absurd cc
    | inr neither ↦
        put-other (codes "x") d (file (codes "c\n") 0o600) (put (codes "y") (file [] 0o600) files)
          other
        ∙ put-other (codes "y") d (file [] 0o600) files neither
        ∙ h
  ]
]

-- The system refuses to remove the file that was made.
abbrev faults : Text → Bool
faults p = text_eq p (codes "y")

abbrev left_by : Result (CheckpointError × Files) Files → Files
left_by (ok restored) = restored
left_by (err e) = e.1

abbrev left : Files
left = left_by (restore digest places faults later entries)

-- The entry before is restored, and the file stays.
left-x : left (codes "x") ≡ file (codes "b\n") 0o644
unfolding restore put
left-x = refl

left-y : left (codes "y") ≡ file [] 0o600
unfolding restore put
left-y = refl

restore-create_example :
    (map (λ (e : Entry). some e.path) entries
      ≡ map places.resolve (sorted_unique (map places.canonical targets)))
    × (Ended digest places files later faults entries
        ⊎ Refused digest places files later faults entries)
restore-create_example =
    restore-create digest places files later faults 100 targets entries created files-IsSound stays
      ((refl, unfold put in refl), ((refl, unfold put in refl), tt))

abbrev record_of : Text → ℕ → Record
record_of id size = record { id = id; size = size; too_old = false }

abbrev limits : Limits
limits = record { max_count = 2; max_bytes = 50 }

abbrev records : List Record
records = record_of (codes "b") 20 ∷ record_of (codes "a") 40 ∷ []

oldest-pruned :
    prune limits none (record_of (codes "c") 10 ∷ records)
    ≡ record { selected = record_of (codes "a") 40 ∷ []; remaining_count = 2; remaining_bytes = 30 }
unfolding prune
oldest-pruned = refl

-- The record that is named is spared, although it is the oldest and both limits are exceeded.
oldest-spared :
    prune limits (some (codes "a")) (record_of (codes "c") 10 ∷ records)
    ≡ record { selected = record_of (codes "b") 20 ∷ []; remaining_count = 2; remaining_bytes = 50 }
unfolding prune
oldest-spared = refl

prune-IsPruned_example :
    IsPruned limits
      (some (codes "a"))
      (record_of (codes "c") 10 ∷ records)
      (prune limits (some (codes "a")) (record_of (codes "c") 10 ∷ records))
prune-IsPruned_example = prune-IsPruned limits (some (codes "a")) (record_of (codes "c") 10) records
