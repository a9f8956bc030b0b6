-- ===== src/Checkpoints/WriteBack.antt =====
-- What `restore` of safety/checkpoints.py writes.
use borealis_coder.Prelude.{
  ℕ, ◌≤◌, ◌≡◌, refl, sym, ap, ◌∙◌, Bool, true, false, Option, none, some, List, [], ◌∷◌, Result, ok,
  err, arith, All, Bool-cases, ◌⊎◌, inl, inr, suc, get_elem?, take,
}
use borealis_coder.Prelude.Chars.{Text, text_eq, text_eq-eq, text_eq_refl}
use borealis_coder.Files.{Node, absent, directory, file, Files, is_directory, is_file, put, unlink}
use borealis_coder.Files.Written.{
  put-same, put-other, put_idle, atomic_write_bytes-restores, atomic_write_bytes-refused,
}
use borealis_coder.Checkpoints.{
  Places, Saved, Entry, parents_valid, valid_mode, Validated, write_failed, validate_saved,
  write_entry, write_back,
}
use borealis_coder.Checkpoints.Kept.{Holds}

-- The entry as `restore` validates it where nothing is damaged.
unfoldable pub content : Option Saved → Option (Text × ℕ)
content none = none
content (some s) = elim s.blob [ none ↦ none | some blob ↦ some (blob, s.mode) ]

unfoldable pub contents : List Entry → List Validated
contents [] = []
contents (e ∷ es) = (e.path, content e.saved) ∷ contents es

unfoldable pub node : Option (Text × ℕ) → Node
node none = absent
node (some (blob, mode)) = file blob mode

pub node-content :
    (digest : Text → Text) (x : Node) (s : Option Saved) → Holds digest x s → node (content s) ≡ x
unfolding node content Holds
node-content digest x none h = sym h
node-content digest x (some s) (blob, e, at, sha) = rw e (sym at)

pub node-no_directory : (c : Option (Text × ℕ)) → is_directory (node c) ≡ false
unfolding node
node-no_directory none = refl
node-no_directory (some (blob, mode)) = refl

-- The files once all is written back.
unfoldable pub write_all : List Validated → Files → Files
write_all [] files = files
write_all ((p, c) ∷ vs) files = write_all vs (put p (node c) files)

-- The path may be written: it is not a directory, and the parents of a file are there.
unfoldable pub CanWrite : Places → Files → Validated → Type 0
CanWrite places files (p, none) = is_directory (files p) ≡ false
CanWrite places files (p, some c) =
    (is_directory (files p) ≡ false) × All (λ d. files d ≡ directory) (places.parents p)

CanWrite-no_directory :
    (places : Places) (files : Files) (p : Text) (c : Option (Text × ℕ))
    → CanWrite places files (p, c)
    → is_directory (files p) ≡ false
unfolding CanWrite
CanWrite-no_directory places files p none h = h
CanWrite-no_directory places files p (some c) h = h.0

put-keeps_directory :
    (p d : Text) (x : Node) (files : Files)
    → is_directory (files p) ≡ false
    → files d ≡ directory
    → put p x files d ≡ directory
put-keeps_directory p d x files h there = elim (Bool-cases (text_eq p d)) [
  | inl e ↦
      let same : files p ≡ directory = ap files (text_eq-eq p d e) ∙ there in
      let clash : is_directory (files p) ≡ true = rw same refl in absurd (cc)
  | inr e ↦ put-other p d x files e ∙ there
]

put-keeps_directories :
    (p : Text) (x : Node) (files : Files) (ds : List Text)
    → is_directory (files p) ≡ false
    → All (λ d. files d ≡ directory) ds
    → All (λ d. put p x files d ≡ directory) ds
put-keeps_directories p x files [] h there = tt
put-keeps_directories p x files (d ∷ ds) h (there, rest) =
    (put-keeps_directory p d x files h there, put-keeps_directories p x files ds h rest)

put-no_directory :
    (p q : Text) (x : Node) (files : Files)
    → is_directory x ≡ false
    → is_directory (files q) ≡ false
    → is_directory (put p x files q) ≡ false
put-no_directory p q x files hx hq = elim (Bool-cases (text_eq p q)) [
  | inl e ↦ rw (put-same p q x files e) hx
  | inr e ↦ rw (put-other p q x files e) hq
]

put-CanWrite :
    (places : Places) (p : Text) (c : Option (Text × ℕ)) (files : Files) (v : Validated)
    → is_directory (files p) ≡ false
    → CanWrite places files v
    → CanWrite places (put p (node c) files) v
unfolding CanWrite
put-CanWrite places p c files (q, none) hp h =
    put-no_directory p q (node c) files (node-no_directory c) h
put-CanWrite places p c files (q, some k) hp (h, ds) = (
  put-no_directory p q (node c) files (node-no_directory c) h,
  put-keeps_directories p (node c) files (places.parents q) hp ds,
)

put-CanWrites :
    (places : Places) (p : Text) (c : Option (Text × ℕ)) (files : Files) (vs : List Validated)
    → is_directory (files p) ≡ false
    → All (CanWrite places files) vs
    → All (CanWrite places (put p (node c) files)) vs
put-CanWrites places p c files [] hp h = tt
put-CanWrites places p c files (v ∷ vs) hp (h, hs) =
    (put-CanWrite places p c files v hp h, put-CanWrites places p c files vs hp hs)

is_file-none : (x : Node) → is_directory x ≡ false → is_file x ≡ false → x ≡ absent
is_file-none absent d f = refl
is_file-none directory d f = cc
is_file-none (file bytes mode) d f = cc

-- An entry is written, or the system refuses it and nothing changes.
write_entry-outcome :
    (digest : Text → Text) (places : Places) (faults : Text → Bool) (files : Files) (p : Text)
    (c : Option (Text × ℕ))
    → CanWrite places files (p, c)
    → (write_entry digest places faults files (p, c) ≡ ok (put p (node c) files))
      ⊎ ((faults p ≡ true) × (write_entry digest places faults files (p, c) ≡ err files))
unfolding write_entry CanWrite node unlink
write_entry-outcome digest places faults files p none h = elim (Bool-cases (is_file (files p))) [
  | inr gone ↦
      let idle = put_idle p absent files (is_file-none (files p) h gone) in
      inl (rw gone (ap (λ (left : Files). let r : Result Files Files = ok left in r) (sym idle)))
  | inl there ↦ elim (Bool-cases (faults p)) [
    | inl refused ↦ inr (refused, rw (there, refused) refl)
    | inr granted ↦ inl (rw (there, granted) refl)
  ]
]
write_entry-outcome digest places faults files p (some (blob, mode)) (h, ds) =
    elim (Bool-cases (faults p)) [
      | inl refused ↦ inr (
        refused,
        rw refused (atomic_write_bytes-refused places.parents files p blob (some mode) ds),
      )
      | inr granted ↦
          inl (rw granted (atomic_write_bytes-restores places.parents files p blob mode h ds))
    ]

-- The writes all end, or the system refuses one, and those before it are made.
abbrev pub Outcome : (Text → Text) → Places → (Text → Bool) → Files → List Validated → Type 0
Outcome digest places faults files vs =
    (write_back digest places faults files vs ≡ ok (write_all vs files))
    ⊎ ((k : ℕ) × (v : Validated) × (get_elem? vs k ≡ some v)
        × (faults v.0 ≡ true)
        × (write_back digest places faults files vs
            ≡ err (write_failed, write_all (take k vs) files)))

pub write_back-Outcome :
    (digest : Text → Text) (places : Places) (faults : Text → Bool) (vs : List Validated)
    (files : Files)
    → All (CanWrite places files) vs
    → Outcome digest places faults files vs
unfolding write_back write_all
write_back-Outcome digest places faults [] files h = inl refl
write_back-Outcome digest places faults ((p, c) ∷ vs) files (h, hs) =
    let free = CanWrite-no_directory places files p c h in
    elim (write_entry-outcome digest places faults files p c h) [
      | inr (refused, e) ↦ inr (0, (p, c), refl, refused, rw (write_back, e) refl)
      | inl e ↦
          elim (write_back-Outcome digest places faults vs (put p (node c) files)
            (put-CanWrites places p c files vs free hs)) [
              | inl done ↦ inl (rw (write_back, e) done)
              | inr (k, v, at, refused, done) ↦ inr (suc k, v, at, refused, rw (write_back, e) done)
            ]
    ]

parents_valid-directories :
    (files : Files) (ds : List Text)
    → All (λ d. files d ≡ directory) ds
    → parents_valid files ds ≡ true
parents_valid-directories files [] h = refl
parents_valid-directories files (d ∷ ds) (h, hs) = rw (parents_valid, h) refl

module _ (digest : Text → Text) (places : Places) where
  pub validate_saved-content :
      (files : Files) (path : Text) (x : Node) (s : Option Saved)
      → Holds digest x s
      → ((content : Text) (mode : ℕ)
          → x ≡ file content mode
          → (mode ≤ 0o177777) × All (λ d. files d ≡ directory) (places.parents path))
      → validate_saved digest places files path s ≡ ok (content s)
  unfolding validate_saved content Holds
  validate_saved-content files path x none h sound = refl
  validate_saved-content files path x (some s) (blob, e, at, sha) sound =
      let (in_range, there) = sound blob s.mode at in
      let valid : valid_mode s.mode ≡ true = ground arith in
      rw
        (
          valid,
          parents_valid-directories files (places.parents path) there,
          e,
          sha,
          text_eq_refl (digest blob),
        )
        refl

  pub validate_entry-CanWrite :
      (files : Files) (path : Text) (x : Node) (s : Option Saved)
      → Holds digest x s
      → is_directory (files path) ≡ false
      → ((content : Text) (mode : ℕ)
          → x ≡ file content mode
          → (mode ≤ 0o177777) × All (λ d. files d ≡ directory) (places.parents path))
      → CanWrite places files (path, content s)
  unfolding CanWrite content Holds
  validate_entry-CanWrite files path x none h free sound = free
  validate_entry-CanWrite files path x (some s) (blob, e, at, sha) free sound =
      rw e (free, (sound blob s.mode at).1)
