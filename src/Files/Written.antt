-- ===== src/Files/Written.antt =====
-- The files behind a write.
use borealis_coder.Prelude.{
  ℕ, ◌≡◌, refl, sym, ap, subst, ◌∙◌, ◌⊎◌, inl, inr, Bool, true, false, ◌&&◌, Option, some, List, [],
  ◌∷◌, any, Result, ok, err, if◌then◌else◌, All, Bool-cases,
}
use borealis_coder.Prelude.Chars.{Text, text_eq, elem_text, text_eq-eq}
use borealis_coder.Files.{
  Node, absent, directory, file, Files, is_absent, is_directory, is_file, put, make_directories,
  atomic_write_bytes,
}

-- Nothing but a directory has come up where there was nothing.
abbrev pub Same : Node → Node → Type 0
Same x y = (y ≡ x) ⊎ ((x ≡ absent) × (y ≡ directory))

pub put-same :
    (p q : Text) (node : Node) (files : Files) → text_eq p q ≡ true → put p node files q ≡ node
unfolding put
put-same p q node files h = rw h refl

pub put-other :
    (p q : Text) (node : Node) (files : Files) → text_eq p q ≡ false → put p node files q ≡ files q
unfolding put
put-other p q node files h = rw h refl

put_idle_at :
    (p q : Text) (node : Node) (files : Files) → files p ≡ node → put p node files q ≡ files q
put_idle_at p q node files h = elim (Bool-cases (text_eq p q)) [
  | inl e ↦ put-same p q node files e ∙ sym h ∙ ap files (text_eq-eq p q e)
  | inr e ↦ put-other p q node files e
]

pub put_idle : (p : Text) (node : Node) (files : Files) → files p ≡ node → put p node files ≡ files
put_idle p node files h = λ i q. put_idle_at p q node files h i

node_at : (b : Bool) (x : Node) → Same x (if b && is_absent x then directory else x)
node_at true absent = inr (refl, refl)
node_at true directory = inl refl
node_at true (file bytes mode) = inl refl
node_at false x = inl refl

pub make_directories-Same :
    (ds : List Text) (files : Files) (q : Text) → Same (files q) (make_directories ds files q)
unfolding make_directories
make_directories-Same ds files q = node_at (elem_text q ds) (files q)

-- Where the parents are there, nothing is made.
make_directories_idle_at :
    (ds : List Text) (files : Files) (q : Text)
    → All (λ d. files d ≡ directory) ds
    → make_directories ds files q ≡ files q
unfolding make_directories elem_text
make_directories_idle_at [] files q h = refl
make_directories_idle_at (d ∷ ds) files q (h, hs) =
    let rest = make_directories_idle_at ds files q hs in
    let same = text_eq-eq d q in
    elim (Bool-cases (text_eq d q)) [
      | inl e ↦ let there : files q ≡ directory = ap files (sym (same e)) ∙ h in rw (e, there) refl
      | inr e ↦ rw e rest
    ]

pub make_directories_idle :
    (ds : List Text) (files : Files)
    → All (λ d. files d ≡ directory) ds
    → make_directories ds files ≡ files
make_directories_idle ds files h = λ i q. make_directories_idle_at ds files q h i

no_file :
    (ds : List Text) (files : Files)
    → All (λ d. files d ≡ directory) ds
    → any (λ d. is_file (files d)) ds ≡ false
no_file [] files h = refl
no_file (d ∷ ds) files (h, hs) = rw (h, no_file ds files hs) refl

module _ (parents : Text → List Text) where
  pub atomic_write_bytes-restores :
      (files : Files) (p bytes : Text) (mode : ℕ)
      → is_directory (files p) ≡ false
      → All (λ d. files d ≡ directory) (parents p)
      → atomic_write_bytes parents false files p bytes (some mode)
        ≡ ok (put p (file bytes mode) files)
  unfolding atomic_write_bytes
  atomic_write_bytes-restores files p bytes mode h ps = rw (no_file (parents p) files ps) (
      subst
        (λ (made : Files).
          (if is_directory (made p) then err made else ok (put p (file bytes mode) made))
          ≡ (let r : Result Files Files = ok (put p (file bytes mode) files) in r))
        (sym (make_directories_idle (parents p) files ps)) (rw h refl))

  -- A refused write leaves the files as they are, where there are all directories.
  pub atomic_write_bytes-refused :
      (files : Files) (p bytes : Text) (mode : Option ℕ)
      → All (λ d. files d ≡ directory) (parents p)
      → atomic_write_bytes parents true files p bytes mode ≡ err files
  unfolding atomic_write_bytes
  atomic_write_bytes-refused files p bytes mode ps =
      rw (no_file (parents p) files ps, make_directories_idle (parents p) files ps) refl
