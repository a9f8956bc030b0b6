-- ===== src/Checkpoints/Retention/Spared.antt =====
-- Which record `CheckpointManager.prune` of safety/checkpoints.py never removes.
use borealis_coder.Prelude.{
  ◌≡◌, refl, sym, ap, subst, ◌∙◌, ◌⊎◌, inl, inr, Bool, true, false, List, [], ◌∷◌, ◌++◌, arith,
  Option, none, some, some_inj, All, Bool-cases, Option-cases,
}
use borealis_coder.Prelude.Chars.{Text, text_eq}
use borealis_coder.Checkpoints.Retention.{Record, take_out, preserve}

-- The identifier to preserve is that of the record.
abbrev pub names : Option Text → Record → Bool
names none r = false
names (some id) r = text_eq r.id id

-- Of the sorted records `rs`, the one that may not go, and the others in their order: the first that
-- the identifier names, or else the newest.
abbrev pub IsSpared : Option Text → List Record → Record → List Record → Type 0
IsSpared preserve_id rs x others =
    ((x ∷ others ≡ rs) × All (λ r. names preserve_id r ≡ false) rs)
    ⊎ ((front back : List Record) × (rs ≡ front ++ x ∷ back)
        × (others ≡ front ++ back)
        × (names preserve_id x ≡ true)
        × All (λ r. names preserve_id r ≡ false) front)

take_out-none :
    (id : Text) (rs : List Record) → take_out id rs ≡ none → All (λ r. names (some id) r ≡ false) rs
unfolding take_out
take_out-none id [] h = tt
take_out-none id (r ∷ rs) h = elim (Bool-cases (text_eq r.id id)) [
  | inl same ↦ absurd (ground arith)
  | inr other ↦ elim (Option-cases (take_out id rs)) [
    | inl e ↦ (other, take_out-none id rs e)
    | inr (found, e) ↦ absurd (ground arith)
  ]
]

take_out-some :
    (id : Text) (rs : List Record) (x : Record) (ys : List Record)
    → take_out id rs ≡ some (x, ys)
    → (front back : List Record) × (rs ≡ front ++ x ∷ back)
      × (ys ≡ front ++ back)
      × (names (some id) x ≡ true)
      × All (λ r. names (some id) r ≡ false) front
unfolding take_out
take_out-some id [] x ys h = cc
take_out-some id (r ∷ rs) x ys h = elim (Bool-cases (text_eq r.id id)) [
  | inl same ↦
      let e : (let o : Option (Record × List Record) = some (r, rs) in o) ≡ some (x, ys) =
        ground arith in
      let first : r ≡ x = ap (λ (p : Record × List Record). p.0) (some_inj e) in
      let rest : rs ≡ ys = ap (λ (p : Record × List Record). p.1) (some_inj e) in
      (
        [],
        rs,
        ap (λ (y : Record). y ∷ rs) first,
        sym rest,
        subst (λ (y : Record). text_eq y.id id ≡ true) first same,
        tt,
      )
  | inr other ↦ elim (Option-cases (take_out id rs)) [
    | inl e ↦ absurd (ground arith)
    | inr ((z, zs), e) ↦
        let whole : (let o : Option (Record × List Record) = some (z, r ∷ zs) in o) ≡ some (x, ys) =
          ground arith in
        let first : z ≡ x = ap (λ (p : Record × List Record). p.0) (some_inj whole) in
        let rest : r ∷ zs ≡ ys = ap (λ (p : Record × List Record). p.1) (some_inj whole) in
        let (front, back, here, others, named, before) =
          take_out-some id rs x zs (e ∙ ap (λ (y : Record). some (y, zs)) first) in
        (
          r ∷ front,
          back,
          ap (λ ks. r ∷ ks) here,
          sym rest ∙ ap (λ ks. r ∷ ks) others,
          named,
          (other, before),
        )
  ]
]

All-none : (rs : List Record) → All (λ r. names none r ≡ false) rs
All-none [] = tt
All-none (r ∷ rs) = (refl, All-none rs)

pub preserve-IsSpared :
    (preserve_id : Option Text) (r : Record) (rs : List Record)
    → (x : Record) × (others : List Record) × (preserve preserve_id (r ∷ rs) ≡ x ∷ others)
      × IsSpared preserve_id (r ∷ rs) x others
unfolding preserve
preserve-IsSpared none r rs = (r, rs, refl, inl (refl, All-none (r ∷ rs)))
preserve-IsSpared (some id) r rs = elim (Option-cases (take_out id (r ∷ rs))) [
  | inl e ↦ (r, rs, rw (preserve, e) refl, inl (refl, take_out-none id (r ∷ rs) e))
  | inr ((x, ys), e) ↦ (x, ys, rw (preserve, e) refl, inr (take_out-some id (r ∷ rs) x ys e))
]
