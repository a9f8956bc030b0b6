-- ===== src/Patch/Hunks/Spliced.antt =====
-- A patch only exchanges old sides for new sides: all other text is kept, in order.
use borealis_coder.Prelude.{
  ℕ, suc, ◌+◌, ◌≡◌, refl, sym, ap, ◌∙◌, List, [], ◌∷◌, ◌++◌, map, length, drop, slice, drop-drop,
  drop-length_append, slice-append-drop, ok,
}
use borealis_coder.Prelude.Chars.{Text}
use borealis_coder.Patch.{Hunk}
use borealis_coder.Patch.Lines.{splitlines, join, join-splitlines}
use borealis_coder.Patch.Hunks.{old_side, apply_hunks}
use borealis_coder.Patch.Hunks.Edited.{new_side, Edited, last, hunk, apply_hunks_iff}

-- The gaps with a segment behind each, and the tail.
abbrev pub weave : List (List Text) → List (List Text) → List Text → List Text
weave [] segments tail = tail
weave (g ∷ gaps) [] tail = tail
weave (g ∷ gaps) (s ∷ segments) tail = g ++ (s ++ weave gaps segments tail)

abbrev pub old_sides : List Hunk → List (List Text)
old_sides = map (λ h. old_side h.lines)

abbrev pub new_sides : List Hunk → List (List Text)
new_sides = map (λ h. new_side h.lines)

-- `before` and `after` differ in the hunks' sides only.
pub record IsSpliced (hunks : List Hunk) (before after : List Text) : Type 0 where
  pub gaps : List (List Text)
  pub tail : List Text
  pub one_each : length gaps ≡ length hunks
  pub old : before ≡ weave gaps (old_sides hunks) tail
  pub new : after ≡ weave gaps (new_sides hunks) tail

Edited-IsSpliced :
    (source : List Text) (cursor : ℕ) (hunks : List Hunk) (out : List Text)
    → Edited source cursor hunks out
    → IsSpliced hunks (drop cursor source) out
Edited-IsSpliced source cursor [] out (last e) = record {
  gaps = [];
  tail = drop cursor source;
  one_each = refl;
  old = refl;
  new = e;
}
Edited-IsSpliced source cursor (h ∷ hs) out
      (hunk start rest after found low high place _ _ more e) =
    let s = Edited-IsSpliced source (start + length (old_side h.lines)) hs after more in
    let behind : drop (start + length (old_side h.lines)) source ≡ rest =
      sym (drop-drop (length (old_side h.lines)) start source)
      ∙ ap (drop (length (old_side h.lines))) place
      ∙ drop-length_append (old_side h.lines) rest in
    record {
      gaps = slice source cursor start ∷ s.gaps;
      tail = s.tail;
      one_each = ap suc s.one_each;
      old =
          sym (slice-append-drop source cursor start low)
          ∙ ap (λ r. slice source cursor start ++ r)
              (place ∙ ap (λ r. old_side h.lines ++ r) (sym behind ∙ s.old));
      new = e ∙ ap (λ r. slice source cursor start ++ (new_side h.lines ++ r)) s.new;
    }

-- When `apply_hunks` returns, the original is some gaps with the hunks' old sides between them, in
-- order, and the result is the same gaps with the new sides there instead.
pub apply_hunks-IsSpliced :
    (original : Text) (hunks : List Hunk) (result : Text)
    → apply_hunks original hunks ≡ ok result
    → (before after : List Text) × (original ≡ join before)
      × (result ≡ join after)
      × IsSpliced hunks before after
apply_hunks-IsSpliced original hunks result h =
    let (out, edited, e) = (apply_hunks_iff original hunks result).0 h in
    (
      splitlines original,
      out,
      sym (join-splitlines original),
      e,
      Edited-IsSpliced (splitlines original) 0 hunks out edited,
    )
