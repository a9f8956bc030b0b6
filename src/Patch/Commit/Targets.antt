-- ===== src/Patch/Commit/Targets.antt =====
-- The targets of a planned patch (tools/patch.py).
use borealis_coder.Prelude.{
  some_inj, ℕ, suc, ◌≡◌, refl, subst, ◌∙◌, inl, inr, Bool, true, false, not, ◌||◌, Option, none,
  some, List, [], ◌∷◌, map, ok, err, guard, Bool-cases, arith, >>=-eq-ok, All, ok_inj,
}
use borealis_coder.Prelude.Chars.{Text, text_eq, text_eq-eq, text_eq_refl, elem_text}
use borealis_coder.Files.{Node, absent, directory, file, Files, is_directory}
use borealis_coder.Checkpoints.{Places, Entry}
use borealis_coder.Checkpoints.Restored.{paths}
use borealis_coder.Patch.{FilePatch}
use borealis_coder.Patch.Commit.{
  CommitError, no_path, outside_roots, not_writable, duplicate_target, Change, add, delete, update,
  Planned, targets, found, item_path, require_preimage, require_preimages, plan_item, plan_from,
  commit_all,
}
use borealis_coder.Patch.Commit.Near.{Near, IsApart, left_by, commit_all-Near}

found-some : {A : Type 0} (e : CommitError) (o : Option A) (a : A) → found e o ≡ ok a → o ≡ some a
found-some e none a h = cc
found-some e (some b) a h = cc

-- A resolved path resolves to itself, also as the path of an entry.
abbrev pub IsStable : Places → Type 0
IsStable places =
    (p q : Text)
    → places.resolve p ≡ some q
    → (places.canonical q ≡ q) × (places.resolve q ≡ some q) × (places.entry_path q ≡ some q)

abbrev pub IsFixed : Places → Text → Type 0
IsFixed places q =
    (places.canonical q ≡ q) × (places.resolve q ≡ some q) × (places.entry_path q ≡ some q)

pub canonical_idle :
    (places : Places) (ts : List Text) → All (IsFixed places) ts → map places.canonical ts ≡ ts
canonical_idle places [] h = refl
canonical_idle places (t ∷ ts) (h, hs) = rw (h.0, canonical_idle places ts hs) refl

-- The entries of fixed paths have these paths.
pub paths_of :
    (places : Places) (ps : List Text) (es : List Entry)
    → All (IsFixed places) ps
    → map (λ (e : Entry). some e.path) es ≡ map places.resolve ps
    → paths es ≡ ps
paths_of places [] [] h same = refl
paths_of places [] (e ∷ es) h same = cc
paths_of places (p ∷ ps) [] h same = cc
paths_of places (p ∷ ps) (e ∷ es) (h, hs) same =
    let first : some e.path ≡ places.resolve p = cc in
    let others : map (λ (k : Entry). some k.path) es ≡ map places.resolve ps = cc in
    let here : e.path ≡ p = some_inj (first ∙ h.1) in
    rw (here, paths_of places ps es hs others) refl

or_right : (a b : Bool) → b ≡ true → (a || b) ≡ true
or_right a b h = ground arith

pub elem-All :
    (Q : Text → Type 0) (ts : List Text) → ((q : Text) → elem_text q ts ≡ true → Q q) → All Q ts
unfolding elem_text
elem-All Q [] h = tt
elem-All Q (t ∷ ts) h = (
  h t (rw (text_eq_refl t) refl),
  elem-All Q ts (λ q k. h q (or_right (text_eq t q) (elem_text q ts) k)),
)

module _ (places : Places) where
  pub All-elem :
      (Q : Text → Type 0) (ts : List Text) → All Q ts → (q : Text) → elem_text q ts ≡ true → Q q
  unfolding elem_text
  All-elem Q [] h q k = absurd cc
  All-elem Q (t ∷ ts) (h, hs) q k = elim (Bool-cases (text_eq t q)) [
    | inl e ↦ subst Q (text_eq-eq t q e) h
    | inr e ↦ All-elem Q ts hs q (subst (λ b. (b || elem_text q ts) ≡ true) e k)
  ]

  pub All-paths :
      (Q : Text → Type 0) (es : List Entry) → All Q (paths es) → All (λ (e : Entry). Q e.path) es
  All-paths Q [] h = tt
  All-paths Q (e ∷ es) (h, hs) = (h, All-paths Q es hs)

-- A target that passes its check is a file, or nothing is there.
require_preimage-no_directory :
    (x : Node) (c : Change) → require_preimage x c ≡ ok tt → is_directory x ≡ false
unfolding require_preimage
require_preimage-no_directory absent c h = refl
require_preimage-no_directory (file bytes mode) c h = refl
require_preimage-no_directory directory (add content) h = cc
require_preimage-no_directory directory (delete original) h = cc
require_preimage-no_directory directory (update content original) h = cc

pub require_preimages-no_directory :
    (files : Files) (ps : List Planned)
    → require_preimages files ps ≡ ok tt
    → All (λ t. is_directory (files t) ≡ false) (targets ps)
unfolding require_preimages
require_preimages-no_directory files [] h = tt
require_preimages-no_directory files (p ∷ ps) h =
    let (u, e, k) = >>=-eq-ok (require_preimage (files p.target) p.change) _ h in
    (
      require_preimage-no_directory (files p.target) p.change e,
      require_preimages-no_directory files ps k,
    )

targets-elem :
    (ts : List Text) (ps : List Planned)
    → ((q : Text) → elem_text q (targets ps) ≡ true → elem_text q ts ≡ true)
    → All (λ (p : Planned). elem_text p.target ts ≡ true) ps
unfolding elem_text
targets-elem ts [] h = tt
targets-elem ts (p ∷ ps) h = (
  h p.target (rw (text_eq_refl p.target) refl),
  targets-elem ts ps (λ q k. h q (or_right (text_eq p.target q) (elem_text q (targets ps)) k)),
)

module _ (digit : ℕ → Option ℕ) (encode : Text → Text) (decode : Text → Option Text)
    (digest : Text → Text) (places : Places) (writable : Text → Bool) (max_file_bytes : ℕ) where
  -- A plan has resolved targets.
  pub plan_from-IsFixed :
      (patch_text : Text) (files : Files) (items : List FilePatch) (index : ℕ) (seen : List Text)
      (planned : List Planned)
      → IsStable places
      → plan_from digit encode decode digest places writable max_file_bytes patch_text files index
          seen items
        ≡ ok planned
      → All (IsFixed places) (targets planned)
  unfolding plan_from
  plan_from-IsFixed patch_text files [] index seen planned stable h =
      let none_planned : (let nothing : List Planned = [] in nothing) ≡ planned = cc in
      subst (λ (ps : List Planned). All (IsFixed places) (targets ps)) none_planned tt
  plan_from-IsFixed patch_text files (item ∷ items) index seen planned stable h =
      let (path, e1, h1) = >>=-eq-ok (found no_path (item_path item)) _ h in
      let (target, e2, h2) = >>=-eq-ok (found outside_roots (places.resolve path)) _ h1 in
      let (u3, e3, h3) = >>=-eq-ok (guard (writable target) not_writable) _ h2 in
      let (u4, e4, h4) = >>=-eq-ok (guard (not (elem_text target seen)) duplicate_target) _ h3 in
      let (change, e5, h5) =
        >>=-eq-ok
          (plan_item digit encode decode digest places writable max_file_bytes patch_text index item
            (files target))
          _ h4 in
      let (rest, e6, h6) =
        >>=-eq-ok
          (plan_from digit encode decode digest places writable max_file_bytes patch_text files
            (suc index) (target ∷ seen) items)
          _ h5 in
      let first : Planned = record { target = target; change = change } in
      let whole = ok_inj h6 in
      let fixed = stable path target (found-some outside_roots (places.resolve path) target e2) in
      subst (λ (ps : List Planned). All (IsFixed places) (targets ps)) whole
        (fixed, plan_from-IsFixed patch_text files items (suc index) (target ∷ seen) rest stable e6)

  module _ (faults : Text → Bool) where
    -- What the writes leave is near the files they began with.
    pub left-Near :
        (files : Files) (planned : List Planned) (left : Files)
        → IsApart places.parents (targets planned)
        → require_preimages files planned ≡ ok tt
        → commit_all digit encode decode digest places writable max_file_bytes faults files planned
          ≡ err left
        → Near (targets planned) files left
    left-Near files planned left apart checked e =
        let ts = targets planned in
        let free =
          All-elem places (λ t. is_directory (files t) ≡ false) ts
            (require_preimages-no_directory files planned checked) in
        let start : Near ts files files = ((λ q k. inl refl), free) in
        subst (λ r. Near ts files (left_by r)) e
          (commit_all-Near digit encode decode digest places writable max_file_bytes faults ts files
            apart planned files (targets-elem ts planned (λ q k. k)) start)
