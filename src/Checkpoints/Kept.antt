-- ===== src/Checkpoints/Kept.antt =====
-- What `create` of safety/checkpoints.py saves of the files.
use borealis_coder.Prelude.{
  ℕ, ◌+◌, ◌-◌, ◌≤◌, ◌≡◌, refl, sym, ap, subst, ◌∙◌, Option, none, some, List, [], ◌∷◌, length, map,
  leb, ok, guard, arith, All, >>=-eq-ok, guard-eq-ok, leb→le, length-take, take_all,
}
use borealis_coder.Prelude.Chars.{Text}
use borealis_coder.Files.{Node, absent, directory, file, Files, read_bytes_up_to}
use borealis_coder.Checkpoints.{
  Places, CheckpointError, outside, over_limit, Saved, Entry, found, save_entry, save_entries,
}

pub found-eq-ok :
    (digest : Text → Text) (places : Places) {A : Type 0} (e : CheckpointError) (o : Option A)
    (a : A)
    → found digest places e o ≡ ok a
    → o ≡ some a
found-eq-ok digest places e none a h = cc
found-eq-ok digest places e (some b) a h = cc

-- What is saved of a path is what stood there.
unfoldable pub Holds : (Text → Text) → Node → Option Saved → Type 0
Holds digest x none = x ≡ absent
Holds digest x (some s) =
    (blob : Text) × (s.blob ≡ some blob) × (x ≡ file blob s.mode) × (s.sha256 ≡ digest blob)

-- A file has a mode in range, and its parents are directories.
abbrev pub IsSound : Places → Files → Type 0
IsSound places files =
    (p content : Text) (mode : ℕ)
    → files p ≡ file content mode
    → (mode ≤ 0o177777) × All (λ d. files d ≡ directory) (places.parents p)

read_whole :
    (content : Text) (max_bytes total : ℕ)
    → total + length (read_bytes_up_to content (max_bytes - total + 1)) ≤ max_bytes
    → read_bytes_up_to content (max_bytes - total + 1) ≡ content
read_whole content max_bytes total h =
    take_all (max_bytes - total + 1) content
      (omega (arith, h, length-take (max_bytes - total + 1) content))

module _ (digest : Text → Text) (places : Places) where
  save_entry-Holds :
      (max_bytes total : ℕ) (path : Text) (x : Node) (e : Entry) (so_far : ℕ)
      → save_entry digest places max_bytes total path x ≡ ok (e, so_far)
      → (e.path ≡ path) × Holds digest x e.saved
  unfolding save_entry Holds
  save_entry-Holds max_bytes total path absent e so_far h =
      let entry : Entry = record { path = path; saved = none } in
      let same : entry ≡ e = cc in
      subst (λ e'. (e'.path ≡ path) × Holds digest absent e'.saved) same (refl, refl)
  save_entry-Holds max_bytes total path directory e so_far h = cc
  save_entry-Holds max_bytes total path (file content mode) e so_far h =
      let read = read_bytes_up_to content (max_bytes - total + 1) in
      let (u, g, h1) = >>=-eq-ok (guard (leb (total + length read) max_bytes) over_limit) _ h in
      let fits = leb→le (total + length read) max_bytes (guard-eq-ok _ over_limit u g) in
      let whole = read_whole content max_bytes total fits in
      let entry : Entry = record {
        path = path;
        saved = some (record { blob = some read; sha256 = digest read; mode = mode });
      } in
      let same : entry ≡ e = cc in
      subst (λ e'. (e'.path ≡ path) × Holds digest (file content mode) e'.saved) same
        (refl, (read, refl, ap (λ c. file c mode) (sym whole), refl))

  pub save_entries-Holds :
      (max_bytes : ℕ) (files : Files) (ps : List Text) (total : ℕ) (es : List Entry)
      → save_entries digest places max_bytes files total ps ≡ ok es
      → All (λ (e : Entry). Holds digest (files e.path) e.saved) es
        × (map (λ (e : Entry). some e.path) es ≡ map places.resolve ps)
  unfolding save_entries
  save_entries-Holds max_bytes files [] total es h =
      let none_left : (let entries : List Entry = [] in entries) ≡ es = cc in
      subst
        (λ es'.
          All (λ (e : Entry). Holds digest (files e.path) e.saved) es'
          × (map (λ (e : Entry). some e.path) es' ≡ []))
        none_left (tt, refl)
  save_entries-Holds max_bytes files (p ∷ ps) total es h =
      let (path, e1, h1) = >>=-eq-ok (found digest places outside (places.resolve p)) _ h in
      let ((entry, so_far), e2, h2) =
        >>=-eq-ok (save_entry digest places max_bytes total path (files path)) _ h1 in
      let (entries, e3, h3) =
        >>=-eq-ok (save_entries digest places max_bytes files so_far ps) _ h2 in
      let resolved = found-eq-ok digest places outside (places.resolve p) path e1 in
      let (at, held) = save_entry-Holds max_bytes total path (files path) entry so_far e2 in
      let (all_held, same) = save_entries-Holds max_bytes files ps so_far entries e3 in
      let whole : entry ∷ entries ≡ es = cc in
      let here : Holds digest (files entry.path) entry.saved =
        subst (λ q. Holds digest (files q) entry.saved) (sym at) held in
      let first : some entry.path ≡ places.resolve p = ap some at ∙ sym resolved in
      subst
        (λ es'.
          All (λ (e : Entry). Holds digest (files e.path) e.saved) es'
          × (map (λ (e : Entry). some e.path) es' ≡ map places.resolve (p ∷ ps)))
        whole ((here, all_held), (rw (first, same) refl))
