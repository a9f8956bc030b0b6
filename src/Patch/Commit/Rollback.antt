-- ===== src/Patch/Commit/Rollback.antt =====
-- The restoration of a patch's checkpoint (tools/patch.py, safety/checkpoints.py).
use borealis_coder.Prelude.{
  ℕ, zero, suc, ◌≡◌, refl, sym, ap, subst, ◌∙◌, ◌⊎◌, inl, inr, Bool, true, false, ◌||◌, Option,
  some, List, [], ◌∷◌, map, get_elem?, take, ok, err, Bool-cases, All, some_inj, arith,
}
use borealis_coder.Prelude.Chars.{Text, text_eq, elem_text}
use borealis_coder.Files.{directory, Files, is_directory}
use borealis_coder.Files.Written.{Same}
use borealis_coder.Checkpoints
use borealis_coder.Checkpoints.{Places, Entry, sorted_unique, create}
use borealis_coder.Checkpoints.Sorted.{elem_text-sorted_unique, All-sorted_unique}
use borealis_coder.Checkpoints.Kept.{IsSound}
use borealis_coder.Checkpoints.Restored.{CanRestore, paths, create-paths, restore-create}
use borealis_coder.Patch.Commit.{checkpoint_error, Applied, roll_back}
use borealis_coder.Patch.Commit.Near.{Near}
use borealis_coder.Patch.Commit.Targets.{
  IsFixed, elem-All, paths_of, canonical_idle, All-elem, All-paths,
}

-- A directory stays.
Near-stays :
    (ts : List Text) (files left : Files)
    → ((q : Text) → elem_text q ts ≡ true → is_directory (files q) ≡ false)
    → Near ts files left
    → (d : Text) → files d ≡ directory
    → left d ≡ directory
Near-stays ts files left free (others, free_left) d h = elim (Bool-cases (elem_text d ts)) [
  | inl target ↦
      let clash : is_directory (files d) ≡ true = ap is_directory h in
      let no : is_directory (files d) ≡ false = free d target in absurd cc
  | inr other ↦ elim (others d other) [ inl same ↦ same ∙ h | inr (nothing, made) ↦ made ]
]

paths-take : (k : ℕ) (es : List Entry) → paths (take k es) ≡ take k (paths es)
paths-take zero es = refl
paths-take (suc k) [] = refl
paths-take (suc k) (e ∷ es) = rw (paths-take k es) refl

paths-at :
    (es : List Entry) (k : ℕ) (e : Entry)
    → get_elem? es k ≡ some e
    → get_elem? (paths es) k ≡ some e.path
paths-at [] k e h = cc
paths-at (x ∷ es) zero e h = ap (λ (y : Entry). some y.path) (some_inj h)
paths-at (x ∷ es) (suc k) e h = paths-at es k e h

elem_text-take :
    (q : Text) (k : ℕ) (ts : List Text) → elem_text q ts ≡ false → elem_text q (take k ts) ≡ false
unfolding elem_text
elem_text-take q zero ts h = refl
elem_text-take q (suc k) [] h = refl
elem_text-take q (suc k) (t ∷ ts) h = elim (Bool-cases (text_eq t q)) [
  | inl e ↦ absurd (ground arith)
  | inr e ↦ rw e (elem_text-take q k ts (subst (λ b. (b || elem_text q ts) ≡ false) e h))
]

-- An error leaves the files as they were, but for directories that were made.
abbrev pub LeavesFiles : Files → Applied → Type 0
LeavesFiles files a = (q : Text) → Same (files q) (a.files q)

-- The restoration was refused at a target: the targets before it in the order of their names, and
-- whatever is not a target, are as they were.
abbrev pub PartlyRestored : (Text → Bool) → Files → List Text → Applied → Type 0
PartlyRestored restore_faults files ts a =
    (a.result ≡ err (checkpoint_error Checkpoints.write_failed))
    × (k : ℕ) × (t : Text) × (get_elem? (sorted_unique ts) k ≡ some t)
    × (restore_faults t ≡ true)
    × ((q : Text) → elem_text q (take k (sorted_unique ts)) ≡ true → Same (files q) (a.files q))
    × ((q : Text) → elem_text q ts ≡ false → Same (files q) (a.files q))

module _ (digit : ℕ → Option ℕ) (encode : Text → Text) (decode : Text → Option Text)
    (digest : Text → Text) (places : Places) (writable : Text → Bool) (max_file_bytes : ℕ)
    (faults restore_faults : Text → Bool) (files : Files) where
  -- The entries of the targets' checkpoint stand in the order of the targets' names.
  created-paths :
      (limit : ℕ) (ts : List Text) (es : List Entry)
      → All (IsFixed places) ts
      → create digest places limit files ts ≡ ok es
      → paths es ≡ sorted_unique ts
  created-paths limit ts es fixed created =
      paths_of places (sorted_unique ts) es (All-sorted_unique (IsFixed places) ts fixed) (
        create-paths digest places files limit ts es created
        ∙ ap (λ us. map places.resolve (sorted_unique us)) (canonical_idle places ts fixed))

  entries-CanRestore :
      (ts : List Text) (es : List Entry) (left : Files)
      → All (IsFixed places) ts
      → paths es ≡ sorted_unique ts
      → Near ts files left
      → All (CanRestore digest places files left) es
  entries-CanRestore ts es left fixed at near =
      let Q : Text → Type 0 =
        λ q. (places.entry_path q ≡ some q) × (is_directory (left q) ≡ false) in
      All-paths places Q es (
        subst (All Q) (sym at) (
          All-sorted_unique Q ts (
            elem-All Q ts
              (λ q k. ((All-elem places (IsFixed places) ts fixed q k).2, near.1 q k)))))

  pub roll_back-outcome :
      (limit : ℕ) (ts : List Text) (es : List Entry) (left : Files)
      → IsSound places files
      → All (IsFixed places) ts
      → ((q : Text) → elem_text q ts ≡ true → is_directory (files q) ≡ false)
      → create digest places limit files ts ≡ ok es
      → Near ts files left
      → (let a =
            roll_back digit encode decode digest places writable max_file_bytes faults
              restore_faults
              (some es)
              left in
          LeavesFiles files a ⊎ PartlyRestored restore_faults files ts a)
  unfolding roll_back
  roll_back-outcome limit ts es left sound fixed free created near =
      let at = created-paths limit ts es fixed created in
      let can = entries-CanRestore ts es left fixed at near in
      let member : (q : Text) → elem_text q (paths es) ≡ elem_text q ts =
        λ q. ap (elem_text q) at ∙ elem_text-sorted_unique q ts in
      elim (restore-create digest places files left restore_faults limit ts es created sound
        (Near-stays ts files left free near) can).1 [
          | inl (restored, e, back, kept) ↦
              rw (roll_back, e)
                (inl (λ q. elim (Bool-cases (elem_text q ts)) [
                  | inl target ↦ inl (back q (member q ∙ target))
                  | inr other ↦
                      subst (Same (files q)) (sym (kept q (member q ∙ other))) (near.0 q other)
                ]))
          | inr (k, x, partly, here, refused, e, back, kept) ↦
              let before : paths (take k es) ≡ take k (sorted_unique ts) =
                paths-take k es ∙ ap (take k) at in
              rw (roll_back, e)
                (inr (
                  refl,
                  k,
                  x.path,
                  ap (λ ps. get_elem? ps k) (sym at) ∙ paths-at es k x here,
                  refused,
                  (λ q h. inl (back q (ap (elem_text q) before ∙ h))),
                  (λ q h.
                      subst (Same (files q))
                        (sym (
                          kept q (
                            ap (elem_text q) (paths-take k es)
                            ∙ elem_text-take q k (paths es) (member q ∙ h))))
                        (near.0 q h)),
                ))
        ]
