-- ===== src/Checkpoints/Sorted.antt =====
-- The members of `sorted({…})` in safety/checkpoints.py.
use borealis_coder.Prelude.{
  ◌≡◌, refl, ap, ◌∙◌, ◌||◌, List, [], ◌∷◌, All, if-both, Bool-cases, inl, inr, arith,
}
use borealis_coder.Prelude.Chars.{Text, text_eq, text_eq-eq, elem_text}
use borealis_coder.Checkpoints.{insert, sorted_unique, text_ltb}

elem_text-insert :
    (q p : Text) (ps : List Text) → elem_text q (insert p ps) ≡ (text_eq p q || elem_text q ps)
unfolding insert elem_text
elem_text-insert q p [] = refl
elem_text-insert q p (r ∷ rs) = elim (Bool-cases (text_eq p r)) [
  | inl e ↦
      let same : text_eq p q ≡ text_eq r q = ap (λ s. text_eq s q) (text_eq-eq p r e) in
      rw (e, same) (ground arith)
  | inr e ↦ elim (Bool-cases (text_ltb p r)) [
    | inl lt ↦ rw (e, lt) refl
    | inr ge ↦ rw (e, ge, elem_text-insert q p rs) (ground arith)
  ]
]

pub elem_text-sorted_unique :
    (q : Text) (ps : List Text) → elem_text q (sorted_unique ps) ≡ elem_text q ps
unfolding sorted_unique elem_text
elem_text-sorted_unique q [] = refl
elem_text-sorted_unique q (p ∷ ps) =
    elem_text-insert q p (sorted_unique ps)
    ∙ ap (λ b. text_eq p q || b) (elem_text-sorted_unique q ps)

All-insert : (Q : Text → Type 0) (p : Text) (ps : List Text) → Q p → All Q ps → All Q (insert p ps)
unfolding insert
All-insert Q p [] h hs = (h, tt)
All-insert Q p (q ∷ qs) h (k, ks) =
    if-both (All Q) (text_eq p q) (k, ks)
      (if-both (All Q) (text_ltb p q) (h, (k, ks)) (k, All-insert Q p qs h ks))

pub All-sorted_unique : (Q : Text → Type 0) (ps : List Text) → All Q ps → All Q (sorted_unique ps)
unfolding sorted_unique
All-sorted_unique Q [] h = tt
All-sorted_unique Q (p ∷ ps) (h, hs) =
    All-insert Q p (sorted_unique ps) h (All-sorted_unique Q ps hs)
