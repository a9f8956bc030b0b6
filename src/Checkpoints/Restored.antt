-- ===== src/Checkpoints/Restored.antt =====
-- `restore` after `create` (safety/checkpoints.py).
use borealis_coder.Prelude.{
  ℕ, zero, suc, ◌≤◌, ◌≡◌, refl, sym, ap, subst, ◌∙◌, ◌⊎◌, Bool, true, false, ◌||◌, some, List, [],
  ◌∷◌, map, get_elem?, take, ok, err, All, Bool-cases, inl, inr, arith, some_inj,
}
use borealis_coder.Prelude.Chars.{Text, text_eq, text_eq-eq, elem_text}
use borealis_coder.Files.{directory, file, Files, is_directory, put}
use borealis_coder.Files.Written.{put-same, put-other}
use borealis_coder.Checkpoints.{
  Places, Entry, Validated, sorted_unique, create, validate_entries, write_failed, restore,
}
use borealis_coder.Checkpoints.Kept.{Holds, IsSound, save_entries-Holds}
use borealis_coder.Checkpoints.WriteBack.{
  content, contents, node, node-content, write_all, CanWrite, write_back-Outcome,
  validate_saved-content, validate_entry-CanWrite,
}

abbrev pub paths : List Entry → List Text
paths [] = []
paths (e ∷ es) = e.path ∷ paths es

write_all-at :
    (f : Files) (es : List Entry) (g : Files) (q : Text)
    → All (λ (e : Entry). node (content e.saved) ≡ f e.path) es
    → (g q ≡ f q) ⊎ (elem_text q (paths es) ≡ true)
    → write_all (contents es) g q ≡ f q
unfolding write_all contents elem_text
write_all-at f [] g q h (inl e) = e
write_all-at f [] g q h (inr e) = absurd cc
write_all-at f (e ∷ es) g q (h, hs) k =
    let g' = put e.path (node (content e.saved)) g in
    elim (Bool-cases (text_eq e.path q)) [
      | inl same ↦ write_all-at f es g' q hs (
          inl (
            put-same e.path q (node (content e.saved)) g same
            ∙ h
            ∙ ap f (text_eq-eq e.path q same)))
      | inr other ↦ write_all-at f es g' q hs (elim k [
        | inl here ↦ inl (put-other e.path q (node (content e.saved)) g other ∙ here)
        | inr later ↦ inr (subst (λ b. (b || elem_text q (paths es)) ≡ true) other later)
      ])
    ]

write_all-off :
    (es : List Entry) (g : Files) (q : Text)
    → elem_text q (paths es) ≡ false
    → write_all (contents es) g q ≡ g q
unfolding write_all contents elem_text
write_all-off [] g q h = refl
write_all-off (e ∷ es) g q h = elim (Bool-cases (text_eq e.path q)) [
  | inl same ↦ absurd (ground arith)
  | inr other ↦
      write_all-off es (put e.path (node (content e.saved)) g) q
        (subst (λ b. (b || elem_text q (paths es)) ≡ false) other h)
      ∙ put-other e.path q (node (content e.saved)) g other
]

take-contents : (k : ℕ) (es : List Entry) → take k (contents es) ≡ contents (take k es)
unfolding contents
take-contents zero es = refl
take-contents (suc k) [] = refl
take-contents (suc k) (e ∷ es) = rw (take-contents k es) refl

contents-at :
    (es : List Entry) (k : ℕ) (v : Validated)
    → get_elem? (contents es) k ≡ some v
    → (e : Entry) × (get_elem? es k ≡ some e) × (e.path ≡ v.0)
unfolding contents
contents-at [] k v h = cc
contents-at (e ∷ es) zero v h = (e, refl, ap (λ (u : Validated). u.0) (some_inj h))
contents-at (e ∷ es) (suc k) v h = contents-at es k v h

All-take : (P : Entry → Type 0) (k : ℕ) (es : List Entry) → All P es → All P (take k es)
All-take P zero es h = tt
All-take P (suc k) [] h = tt
All-take P (suc k) (e ∷ es) (h, hs) = (h, All-take P k es hs)

-- The entries of a checkpoint have the paths that the targets resolve to.
pub create-paths :
    (digest : Text → Text) (places : Places) (files : Files) (max_bytes : ℕ) (targets : List Text)
    (es : List Entry)
    → create digest places max_bytes files targets ≡ ok es
    → map (λ (e : Entry). some e.path) es
      ≡ map places.resolve (sorted_unique (map places.canonical targets))
unfolding create
create-paths digest places files max_bytes targets es created =
    (save_entries-Holds digest places max_bytes files (sorted_unique (map places.canonical targets))
      0 es created).1

module _ (digest : Text → Text) (places : Places) (files later : Files) where
  -- What keeps the entries from being restored is not there.
  abbrev pub CanRestore : Entry → Type 0
  CanRestore e = (places.entry_path e.path ≡ some e.path) × (is_directory (later e.path) ≡ false)

  sound_later :
      IsSound places files
      → ((d : Text) → files d ≡ directory → later d ≡ directory)
      → (p bytes : Text) (mode : ℕ) → files p ≡ file bytes mode
      → (mode ≤ 0o177777) × All (λ d. later d ≡ directory) (places.parents p)
  sound_later sound stay p bytes mode h =
      let (in_range, there) = sound p bytes mode h in
      (in_range, All-map_lem (places.parents p) there)
    where
      All-map_lem :
          (ds : List Text) → All (λ d. files d ≡ directory) ds → All (λ d. later d ≡ directory) ds
      All-map_lem [] h = tt
      All-map_lem (d ∷ ds) (h, hs) = (stay d h, All-map_lem ds hs)

  module _
      (sound : (p bytes : Text) (mode : ℕ)
        → files p ≡ file bytes mode
        → (mode ≤ 0o177777) × All (λ d. later d ≡ directory) (places.parents p)) where
    validate_entries-contents :
        (es : List Entry)
        → All (λ (e : Entry). Holds digest (files e.path) e.saved) es
        → All CanRestore es
        → validate_entries digest places later es ≡ ok (contents es)
    unfolding validate_entries contents
    validate_entries-contents [] h c = refl
    validate_entries-contents (e ∷ es) (h, hs) ((at, free), cs) =
        rw
          (
            at,
            free,
            validate_saved-content digest places later e.path (files e.path) e.saved h
                (sound e.path),
            validate_entries-contents es hs cs,
          )
          refl

    contents-CanWrite :
        (es : List Entry)
        → All (λ (e : Entry). Holds digest (files e.path) e.saved) es
        → All CanRestore es
        → All (CanWrite places later) (contents es)
    unfolding contents
    contents-CanWrite [] h c = tt
    contents-CanWrite (e ∷ es) (h, hs) ((at, free), cs) = (
      validate_entry-CanWrite digest places later e.path (files e.path) e.saved h free
          (sound e.path),
      contents-CanWrite es hs cs,
    )

  contents-node :
      (es : List Entry)
      → All (λ (e : Entry). Holds digest (files e.path) e.saved) es
      → All (λ (e : Entry). node (content e.saved) ≡ files e.path) es
  contents-node [] h = tt
  contents-node (e ∷ es) (h, hs) =
      (node-content digest (files e.path) e.saved h, contents-node es hs)

  module _ (faults : Text → Bool) (es : List Entry) where
    -- The restoration has ended: the saved paths are as before, and the others as they were left.
    abbrev pub Ended : Type 0
    Ended =
        (restored : Files) × (restore digest places faults later es ≡ ok restored)
        × ((q : Text) → elem_text q (paths es) ≡ true → restored q ≡ files q)
        × ((q : Text) → elem_text q (paths es) ≡ false → restored q ≡ later q)

    -- The system has refused an entry: this much holds of the entries before it only.
    abbrev pub Refused : Type 0
    Refused =
        (k : ℕ) × (e : Entry) × (left : Files) × (get_elem? es k ≡ some e)
        × (faults e.path ≡ true)
        × (restore digest places faults later es ≡ err (write_failed, left))
        × ((q : Text) → elem_text q (paths (take k es)) ≡ true → left q ≡ files q)
        × ((q : Text) → elem_text q (paths (take k es)) ≡ false → left q ≡ later q)

  -- A checkpoint was created of files that all have a mode in range and their directories, and the
  -- files changed in whatever way after it, but that no directory was removed, no saved path has
  -- become a directory and none resolves to another place. Then the saved paths are those that the
  -- targets resolve to, and restoring the checkpoint has one of two outcomes. Either it succeeds:
  -- there is at each saved path what stood there when the checkpoint was created, and at every other
  -- path what stood there before the restoration. Or the system refuses to write or remove the file
  -- of some entry: the restoration raises there, the paths of the entries before that one are
  -- restored, and every other path is as it was before the restoration.
  pub restore-create :
      (faults : Text → Bool) (max_bytes : ℕ) (targets : List Text) (es : List Entry)
      → create digest places max_bytes files targets ≡ ok es
      → IsSound places files
      → ((d : Text) → files d ≡ directory → later d ≡ directory)
      → All CanRestore es
      → (map (λ (e : Entry). some e.path) es
          ≡ map places.resolve (sorted_unique (map places.canonical targets)))
        × (Ended faults es ⊎ Refused faults es)
  unfolding restore create
  restore-create faults max_bytes targets es created sound stay can =
      let (held, same) =
        save_entries-Holds digest places max_bytes files
          (sorted_unique (map places.canonical targets)) 0 es created in
      let now = sound_later sound stay in
      let valid = validate_entries-contents now es held can in
      let nodes = contents-node es held in
      (
        same,
        elim (write_back-Outcome digest places faults (contents es) later
            (contents-CanWrite now es held can)) [
              | inl done ↦ inl (
                write_all (contents es) later,
                rw (restore, valid) done,
                (λ q h. write_all-at files es later q nodes (inr h)),
                (λ q h. write_all-off es later q h),
              )
              | inr (k, v, at, refused, done) ↦
                  let (e, here, same_path) = contents-at es k v at in
                  let first = take k es in
                  inr (
                    k,
                    e,
                    write_all (contents first) later,
                    here,
                    rw same_path refused,
                    rw (restore, valid, sym (take-contents k es)) done,
                    (λ q h. write_all-at files first later q (All-take _ k es nodes) (inr h)),
                    (λ q h. write_all-off first later q h),
                  )
            ],
      )
