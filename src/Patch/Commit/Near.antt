-- ===== src/Patch/Commit/Near.antt =====
-- The files during the writes of a patch (tools/patch.py).
use borealis_coder.Prelude.{
  ℕ, ◌≡◌, refl, sym, ap, subst, ◌∙◌, inl, inr, Bool, true, false, not, ◌||◌, Option, none, List, [],
  ◌∷◌, any, Result, ok, err, if-both, Bool-cases, All, Result-cases,
}
use borealis_coder.Prelude.Chars.{Text, text_eq, text_eq-eq, elem_text}
use borealis_coder.Files.{
  Node, absent, file, Files, is_directory, is_file, put, make_directories, atomic_write_bytes,
  unlink, written_mode,
}
use borealis_coder.Files.Written.{Same, make_directories-Same, put-same, put-other}
use borealis_coder.Checkpoints.{Places}
use borealis_coder.Patch.Commit.{Change, add, delete, update, Planned, commit_change, commit_all}

Same-trans : (x y z : Node) → Same x y → Same y z → Same x z
Same-trans x y z (inl e) (inl f) = inl (f ∙ e)
Same-trans x y z (inl e) (inr (f, g)) = inr (sym e ∙ f, g)
Same-trans x y z (inr (e, f)) (inl g) = inr (e, g ∙ f)
Same-trans x y z (inr (e, f)) (inr (g, h)) = absurd cc

-- No target is a directory in which another target lies.
abbrev pub IsApart : (Text → List Text) → List Text → Type 0
IsApart parents ts =
    (t q : Text) → elem_text t ts ≡ true → elem_text q ts ≡ true → elem_text q (parents t) ≡ false

-- Apart from the targets, nothing has changed but that directories were made; no target is a
-- directory.
abbrev pub Near : List Text → Files → Files → Type 0
Near ts before now =
    ((q : Text) → elem_text q ts ≡ false → Same (before q) (now q))
    × ((q : Text) → elem_text q ts ≡ true → is_directory (now q) ≡ false)

elem_text-other :
    (t q : Text) (ts : List Text)
    → elem_text t ts ≡ true
    → elem_text q ts ≡ false
    → text_eq t q ≡ false
elem_text-other t q ts h k = elim (Bool-cases (text_eq t q)) [
  | inl e ↦
      let same : elem_text t ts ≡ elem_text q ts = ap (λ s. elem_text s ts) (text_eq-eq t q e) in
      absurd cc
  | inr e ↦ e
]

put-Near :
    (ts : List Text) (before now : Files) (t : Text) (x : Node)
    → elem_text t ts ≡ true
    → is_directory x ≡ false
    → Near ts before now
    → Near ts before (put t x now)
put-Near ts before now t x h hx (others, free) = (
  (λ q k.
      subst (Same (before q)) (sym (put-other t q x now (elem_text-other t q ts h k)))
        (others q k)),
  (λ q k. elim (Bool-cases (text_eq t q)) [
    | inl e ↦ subst (λ y. is_directory y ≡ false) (sym (put-same t q x now e)) hx
    | inr e ↦ subst (λ y. is_directory y ≡ false) (sym (put-other t q x now e)) (free q k)
  ]),
)

make_directories-Near :
    (ts ds : List Text) (before now : Files)
    → ((q : Text) → elem_text q ts ≡ true → elem_text q ds ≡ false)
    → Near ts before now
    → Near ts before (make_directories ds now)
unfolding make_directories
make_directories-Near ts ds before now apart (others, free) = (
  (λ q k.
      Same-trans (before q) (now q) (make_directories ds now q) (others q k)
        (make_directories-Same ds now q)),
  (λ q k. rw (apart q k) (free q k)),
)

-- What a result leaves, returned or raised.
abbrev pub left_by : Result Files Files → Files
left_by (ok files) = files
left_by (err files) = files

module _ (places : Places) (ts : List Text) (before : Files)
    (apart : IsApart places.parents ts) where
  write-Near :
      (fault : Bool) (now : Files) (t bytes : Text) (mode : Option ℕ)
      → elem_text t ts ≡ true
      → Near ts before now
      → Near ts before (left_by (atomic_write_bytes places.parents fault now t bytes mode))
  unfolding atomic_write_bytes
  write-Near fault now t bytes mode h near =
      let made =
        make_directories-Near ts (places.parents t) before now (λ q k. apart t q h k) near in
      let Q : Result Files Files → Type 0 = λ r. Near ts before (left_by r) in
      if-both Q (any (λ d. is_file (now d)) (places.parents t)) near (
        if-both Q (fault || is_directory (make_directories (places.parents t) now t)) made (
          put-Near ts before (make_directories (places.parents t) now) t
            (file bytes (written_mode mode (now t))) h refl made))

  unlink-Near :
      (fault : Bool) (now : Files) (t : Text)
      → elem_text t ts ≡ true
      → Near ts before now
      → Near ts before (left_by (unlink fault now t))
  unfolding unlink
  unlink-Near fault now t h near =
      if-both (λ r. Near ts before (left_by r)) (fault || not (is_file (now t))) near
        (put-Near ts before now t absent h refl near)

module _ (digit : ℕ → Option ℕ) (encode : Text → Text) (decode : Text → Option Text)
    (digest : Text → Text) (places : Places) (writable : Text → Bool) (max_file_bytes : ℕ)
    (faults : Text → Bool) (ts : List Text) (before : Files)
    (apart : IsApart places.parents ts) where
  commit_change-Near :
      (now : Files) (t : Text) (c : Change)
      → elem_text t ts ≡ true
      → Near ts before now
      → Near ts before (
          left_by (
            commit_change digit encode decode digest places writable max_file_bytes faults now t c))
  unfolding commit_change
  commit_change-Near now t (add content) h near =
      write-Near places ts before apart (faults t) now t (encode content) none h near
  commit_change-Near now t (delete original) h near =
      unlink-Near places ts before apart (faults t) now t h near
  commit_change-Near now t (update content original) h near =
      write-Near places ts before apart (faults t) now t (encode content) none h near

  pub commit_all-Near :
      (planned : List Planned) (now : Files)
      → All (λ (p : Planned). elem_text p.target ts ≡ true) planned
      → Near ts before now
      → Near ts before (
          left_by (
            commit_all digit encode decode digest places writable max_file_bytes faults now
              planned))
  unfolding commit_all
  commit_all-Near [] now h near = near
  commit_all-Near (p ∷ ps) now (h, hs) near =
      let one = commit_change-Near now p.target p.change h near in
      elim (Result-cases (
        commit_change digit encode decode digest places writable max_file_bytes faults now p.target
          p.change)) [
            | inl (written, e) ↦
                let then_near : Near ts before written =
                  subst (λ r. Near ts before (left_by r)) e one in
                rw (commit_all, e) (commit_all-Near ps written hs then_near)
            | inr (left, e) ↦ rw (commit_all, e) (subst (λ r. Near ts before (left_by r)) e one)
          ]
