-- ===== src/Patch/Hunks/Edited.antt =====
-- What `apply_hunks` promises: the result is the original with each hunk's old side, found in place,
-- exchanged for its new side.
use native.Mathlib.Numerals.{add-one}
use borealis_coder.Prelude.{
  ℕ, zero, suc, ◌+◌, ◌≤◌, ◌≡◌, refl, sym, ap, ◌∙◌, ◌↔◌, false, some, List, [], ◌∷◌, ◌++◌,
  append_assoc, append-nil, length, get_elem?, slice, drop, ok, >>=-eq-ok, Result-cases,
  Option-cases, ◌⊎◌, inl, inr, arith,
}
use borealis_coder.Prelude.Chars.{Text, text_eq-eq, text_eq_refl}
use borealis_coder.Patch.{LineKind, context, removal, addition, HunkLine, Hunk}
use borealis_coder.Patch.Lines.{splitlines, join}
use borealis_coder.Patch.Hunks.{
  old_side, locate, Progress, differs, apply_lines, apply_from, apply_hunks,
}

-- [line.text for line in lines if line.kind in " +"]
pub new_side : List HunkLine → List Text
new_side [] = []
new_side (l ∷ ls) =
    let rest = new_side ls in
    elim l.kind [ context ↦ l.text ∷ rest | removal ↦ rest | addition ↦ l.text ∷ rest ]

module _ {ℓ} {A : Type ℓ} where
  drop-get_elem? :
      (xs : List A) (i : ℕ) (x : A) → get_elem? xs i ≡ some x → drop i xs ≡ x ∷ drop (i + 1) xs
  drop-get_elem? [] i x h = cc
  drop-get_elem? (y ∷ xs) zero x h = ground arith
  drop-get_elem? (y ∷ xs) (suc i) x h = drop-get_elem? xs i x h ∙ rw (add-one, add-one) refl

  get_elem?-drop :
      (xs : List A) (i : ℕ) (x : A) (r : List A) → drop i xs ≡ x ∷ r → get_elem? xs i ≡ some x
  get_elem?-drop [] zero x r h = cc
  get_elem?-drop [] (suc i) x r h = cc
  get_elem?-drop (y ∷ xs) zero x r h = cc
  get_elem?-drop (y ∷ xs) (suc i) x r h = get_elem?-drop xs i x r h

kind-cases : (k : LineKind) → (k ≡ context) ⊎ (k ≡ removal) ⊎ (k ≡ addition)
kind-cases context = inl refl
kind-cases removal = inr (inl refl)
kind-cases addition = inr (inr refl)

-- The progress after one line of each kind.
abbrev kept : Text → Progress → Progress
kept t p = record {
  emitted = p.emitted ++ t ∷ [];
  source_index = p.source_index + 1;
  old_seen = p.old_seen + 1;
  new_seen = p.new_seen + 1;
}

abbrev removed : Progress → Progress
removed p = record p { source_index = p.source_index + 1; old_seen = p.old_seen + 1 }

abbrev added : Text → Progress → Progress
added t p = record p { emitted = p.emitted ++ t ∷ []; new_seen = p.new_seen + 1 }

-- The progress after all lines of a hunk that are found in place.
abbrev finished : Progress → List HunkLine → Progress
finished p ls = record {
  emitted = p.emitted ++ new_side ls;
  source_index = p.source_index + length (old_side ls);
  old_seen = p.old_seen + length (old_side ls);
  new_seen = p.new_seen + length (new_side ls);
}

module _ (source : List Text) where
  differs-some : (i : ℕ) (t : Text) → differs source i t ≡ false → get_elem? source i ≡ some t
  unfolding differs
  differs-some i t h = elim (Option-cases (get_elem? source i)) [
    | inl e ↦ ground arith
    | inr (s, e) ↦ ground (arith, text_eq-eq s t)
  ]

  some-differs : (i : ℕ) (t : Text) → get_elem? source i ≡ some t → differs source i t ≡ false
  unfolding differs
  some-differs i t h = rw (h, differs) (ground (arith, text_eq_refl t))

  apply_lines-inv :
      (l : HunkLine) (ls : List HunkLine) (p p' : Progress)
      → apply_lines source p (l ∷ ls) ≡ ok p'
      → (l.kind ≡ context)
          × (get_elem? source p.source_index ≡ some l.text)
          × (apply_lines source (kept l.text p) ls ≡ ok p')
        ⊎ (l.kind ≡ removal)
          × (get_elem? source p.source_index ≡ some l.text)
          × (apply_lines source (removed p) ls ≡ ok p')
        ⊎ (l.kind ≡ addition) × (apply_lines source (added l.text p) ls ≡ ok p')
  unfolding apply_lines
  apply_lines-inv l ls p p' h = ground (arith, differs-some p.source_index l.text)

  -- A run over the lines of a hunk finds the old side in place.
  apply_lines-found :
      (ls : List HunkLine) (p p' : Progress)
      → apply_lines source p ls ≡ ok p'
      → (rest : List Text) × (drop p.source_index source ≡ old_side ls ++ rest)
  unfolding old_side
  apply_lines-found [] p p' h = (drop p.source_index source, refl)
  apply_lines-found (l ∷ ls) p p' h = elim (apply_lines-inv l ls p p' h) [
    | inl (k, here, more) ↦
        let (rest, e) = apply_lines-found ls (kept l.text p) p' more in
        (rest, rw k (cc (drop-get_elem? source p.source_index l.text here, e)))
    | inr (inl (k, here, more)) ↦
        let (rest, e) = apply_lines-found ls (removed p) p' more in
        (rest, rw k (cc (drop-get_elem? source p.source_index l.text here, e)))
    | inr (inr (k, more)) ↦
        let (rest, e) = apply_lines-found ls (added l.text p) p' more in (rest, rw k e)
  ]

  -- Where the old side stands in place, the run succeeds, and this is what it has made.
  apply_lines-finished :
      (ls : List HunkLine) (p : Progress) (rest : List Text)
      → drop p.source_index source ≡ old_side ls ++ rest
      → apply_lines source p ls ≡ ok (finished p ls)
  unfolding apply_lines old_side new_side
  apply_lines-finished [] p rest h = ground (arith, append-nil p.emitted)
  apply_lines-finished (l ∷ ls) p rest h = elim (kind-cases l.kind) [
    | inl k ↦
        let e : drop p.source_index source ≡ l.text ∷ old_side ls ++ rest = rw k at h in
        let here = get_elem?-drop source p.source_index l.text (old_side ls ++ rest) e in
        let next = drop-get_elem? source p.source_index l.text here in
        let more = apply_lines-finished ls (kept l.text p) rest (cc) in
        rw k (
          ground (
            arith,
            some-differs p.source_index l.text here,
            more,
            append_assoc p.emitted (l.text ∷ []) (new_side ls),
          ))
    | inr (inl k) ↦
        let e : drop p.source_index source ≡ l.text ∷ old_side ls ++ rest = rw k at h in
        let here = get_elem?-drop source p.source_index l.text (old_side ls ++ rest) e in
        let next = drop-get_elem? source p.source_index l.text here in
        let more = apply_lines-finished ls (removed p) rest (cc) in
        rw k (ground (arith, some-differs p.source_index l.text here, more))
    | inr (inr k) ↦
        let more = apply_lines-finished ls (added l.text p) rest (rw k at h) in
        rw k (ground (arith, more, append_assoc p.emitted (l.text ∷ []) (new_side ls)))
  ]

-- `out` is `source` from line `cursor` on with each hunk applied where it is located: in order and
-- without overlap, the old side standing at the place, and as long as the header says.
pub data Edited (source : List Text) : ℕ → List Hunk → List Text → Type 0 where
  last : {cursor : ℕ} {out : List Text} → out ≡ drop cursor source → Edited source cursor [] out
  hunk :
      {cursor : ℕ} {h : Hunk} {hs : List Hunk} {out : List Text} (start : ℕ)
      (rest after : List Text)
      → locate source cursor h ≡ ok start
      → cursor ≤ start
      → start ≤ length source
      → drop start source ≡ old_side h.lines ++ rest
      → length (old_side h.lines) ≡ h.old_count
      → length (new_side h.lines) ≡ h.new_count
      → Edited source (start + length (old_side h.lines)) hs after
      → out ≡ slice source cursor start ++ (new_side h.lines ++ after)
      → Edited source cursor (h ∷ hs) out

abbrev begun : ℕ → Progress
begun start = record { emitted = []; source_index = start; old_seen = 0; new_seen = 0 }

-- The progress over a whole hunk that begins at `start`.
abbrev through : ℕ → List HunkLine → Progress
through start ls = record {
  emitted = new_side ls;
  source_index = start + length (old_side ls);
  old_seen = length (old_side ls);
  new_seen = length (new_side ls);
}

finished-begun : (start : ℕ) (ls : List HunkLine) → finished (begun start) ls ≡ through start ls
finished-begun start ls = ground arith

module _ (source : List Text) where
  apply_lines-through :
      (start : ℕ) (ls : List HunkLine) (rest : List Text)
      → drop start source ≡ old_side ls ++ rest
      → apply_lines source (begun start) ls ≡ ok (through start ls)
  apply_lines-through start ls rest place =
      rw (← finished-begun start ls) (apply_lines-finished source ls (begun start) rest place)

  apply_from-inv :
      (cursor : ℕ) (h : Hunk) (hs : List Hunk) (out : List Text)
      → apply_from source cursor (h ∷ hs) ≡ ok out
      → (start : ℕ) × (p : Progress) × (after : List Text) × (locate source cursor h ≡ ok start)
        × (cursor ≤ start)
        × (start ≤ length source)
        × (apply_lines source (begun start) h.lines ≡ ok p)
        × (p.old_seen ≡ h.old_count)
        × (p.new_seen ≡ h.new_count)
        × (apply_from source p.source_index hs ≡ ok after)
        × (out ≡ slice source cursor start ++ (p.emitted ++ after))
  unfolding apply_from
  apply_from-inv cursor h hs out e = elim (Result-cases (locate source cursor h)) [
    | inr (x, bad) ↦ ground arith
    | inl (start, found) ↦ elim (Result-cases (apply_lines source (begun start) h.lines)) [
      | inr (x, bad) ↦ ground arith
      | inl (p, run) ↦ elim (Result-cases (apply_from source p.source_index hs)) [
        | inr (x, bad) ↦ ground arith
        | inl (after, more) ↦ (
          start,
          p,
          after,
          found,
          ground arith,
          ground arith,
          run,
          ground arith,
          ground arith,
          more,
          ground arith,
        )
      ]
    ]
  ]

  apply_from-Edited :
      (cursor : ℕ) (hs : List Hunk) (out : List Text)
      → apply_from source cursor hs ≡ ok out
      → Edited source cursor hs out
  unfolding apply_from
  apply_from-Edited cursor [] out e = last (cc)
  apply_from-Edited cursor (h ∷ hs) out e =
      let (start, p, after, found, low, high, run, old, new, more, made) =
        apply_from-inv cursor h hs out e in
      let (rest, place) = apply_lines-found source h.lines (begun start) p run in
      let same : p ≡ through start h.lines =
        cc (run, apply_lines-through start h.lines rest place) in
      hunk start rest after found low high place
        (ap (λ (q : Progress). q.old_seen) (sym same) ∙ old)
        (ap (λ (q : Progress). q.new_seen) (sym same) ∙ new)
        (apply_from-Edited (start + length (old_side h.lines)) hs after
          (ap (λ (q : Progress). apply_from source q.source_index hs) (sym same) ∙ more))
        (made ∙ ap (λ (q : Progress). slice source cursor start ++ (q.emitted ++ after)) same)

  Edited-apply_from :
      (cursor : ℕ) (hs : List Hunk) (out : List Text)
      → Edited source cursor hs out
      → apply_from source cursor hs ≡ ok out
  unfolding apply_from
  Edited-apply_from cursor [] out (last e) = cc
  Edited-apply_from cursor (h ∷ hs) out
        (hunk start rest after found low high place old new more e) =
      let run = apply_lines-through start h.lines rest place in
      let then_on = Edited-apply_from (start + length (old_side h.lines)) hs after more in
      ground (arith, found, run, then_on)

-- Hunks are applied exactly when each is found in place, in order, without overlap and with the
-- counts of its header, and the result is then the text with the old sides exchanged for the new.
pub apply_hunks_iff :
    (original : Text) (hunks : List Hunk) (result : Text)
    → (apply_hunks original hunks ≡ ok result)
      ↔ ((out : List Text) × Edited (splitlines original) 0 hunks out × (result ≡ join out))
unfolding apply_hunks
apply_hunks_iff original hunks result = (
  (λ h.
      let (out, run, e) =
        >>=-eq-ok (apply_from (splitlines original) 0 hunks) (λ o. ok (join o)) h in
      (out, apply_from-Edited (splitlines original) 0 hunks out run, cc)),
  λ (out, edited, e). cc (Edited-apply_from (splitlines original) 0 hunks out edited),
)
