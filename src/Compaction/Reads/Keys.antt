-- ===== src/Compaction/Reads/Keys.antt =====
-- The value under a key of an object to which a key was given (agent/compaction.py).
use borealis_coder.Prelude.{
  ◌≡◌, refl, sym, ap, subst, ◌∙◌, inl, inr, String, Bool, true, false, none, some, str_eq,
  str_eq_iff, Bool-cases, Option-cases, if-both, if◌then◌else◌,
}
use borealis_coder.Models.JsonValue.{Json, str, Fields, end, field, get}
use borealis_coder.Compaction.Fit.{with_key}
use borealis_coder.Compaction.Reads.{set_default}

if-twice :
    {A : Type 0} (b : Bool) (x y z : A)
    → (if b then x else z) ≡ (if b then x else (if b then y else z))
if-twice true x y z = refl
if-twice false x y z = refl

if-swap :
    {A : Type 0} (a b : Bool) (x y z : A)
    → (a ≡ true → b ≡ true → x ≡ y)
    → (if a then x else (if b then y else z)) ≡ (if b then y else (if a then x else z))
if-swap true true x y z h = h refl refl
if-swap true false x y z h = refl
if-swap false b x y z h = refl

pub get-with_key :
    (k j : String) (v : Json) (d : Fields)
    → get k (with_key j v d) ≡ (if str_eq j k then some v else get k d)
unfolding get
get-with_key k j v end = refl
get-with_key k j v (field i w d) = elim (Bool-cases (str_eq i j)) [
  | inl t ↦
      rw (t, sym (ap (λ x. str_eq x k) ((str_eq_iff i j).0 t)))
        (if-twice (str_eq i k) (some v) (some w) (get k d))
  | inr f ↦
      rw (f, get-with_key k j v d)
        (if-swap (str_eq i k) (str_eq j k) (some w) (some v) (get k d) (λ t u.
          absurd (cc (f, (str_eq_iff i j).1 ((str_eq_iff i k).0 t ∙ sym ((str_eq_iff j k).0 u))))))
]

pub get-set_default :
    (k j v : String) (d : Fields) → str_eq j k ≡ false → get k (set_default j v d) ≡ get k d
get-set_default k j v d h =
    let Q : Fields → Type 0 = λ e. get k e ≡ get k d in
    if-both Q (str_eq v "") refl (elim (Option-cases (get j d)) [
      | inl e ↦
          subst (λ o. Q (elim o [ none ↦ with_key j (str v) d | some w ↦ d ])) (sym e)
            (get-with_key k j (str v) d ∙ ap (λ b. if b then some (str v) else get k d) h)
      | inr (w, e) ↦
          subst (λ o. Q (elim o [ none ↦ with_key j (str v) d | some w ↦ d ])) (sym e) refl
    ])
