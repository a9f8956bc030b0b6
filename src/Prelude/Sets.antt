-- ===== src/Prelude/Sets.antt =====
-- Python sets of strings, as lists that are only asked for membership.
use Prim.Native.String.{String}
use mathlib.Core.Path.{◌≡◌, refl}
use mathlib.Core.Bool.{Bool, true, false, not, ◌&&◌, ◌||◌}
use mathlib.Core.List.{List, [], ◌∷◌, ◌++◌}
use native.Mathlib.Omega.{arith}
use text.Mathlib.Text.{◌==◌ as str_eq}
use text.Mathlib.TextEquality.{eq_iff as str_eq_iff}

abbrev pub elem : String → List String → Bool
elem s [] = false
elem s (x ∷ xs) = str_eq x s || elem s xs

-- `len(xs) == len(set(xs))`
abbrev pub distinct : List String → Bool
distinct [] = true
distinct (x ∷ xs) = not (elem x xs) && distinct xs

-- `set(xs) <= set(ys)`
abbrev pub subset : List String → List String → Bool
subset [] ys = true
subset (x ∷ xs) ys = elem x ys && subset xs ys

-- `not set(xs).intersection(ys)`
abbrev pub disjoint : List String → List String → Bool
disjoint [] ys = true
disjoint (x ∷ xs) ys = not (elem x ys) && disjoint xs ys

pub elem-append : (s : String) (xs ys : List String) → elem s (xs ++ ys) ≡ (elem s xs || elem s ys)
elem-append s [] ys = refl
elem-append s (x ∷ xs) ys = ground (arith, elem-append s xs ys)

pub str_eq_sym : (s t : String) → str_eq s t ≡ str_eq t s
str_eq_sym s t = ground (arith, str_eq_iff s t, str_eq_iff t s)

pub disjoint-cons :
    (xs : List String) (y : String) (ys : List String)
    → disjoint xs (y ∷ ys) ≡ (not (elem y xs) && disjoint xs ys)
disjoint-cons [] y ys = refl
disjoint-cons (x ∷ xs) y ys = ground (arith, disjoint-cons xs y ys, str_eq_sym x y)

-- `subset` asks the second set for membership only.
pub subset-cong :
    (xs ys zs : List String) → ((i : String) → elem i ys ≡ elem i zs) → subset xs ys ≡ subset xs zs
subset-cong [] ys zs h = refl
subset-cong (x ∷ xs) ys zs h = cc (h x, subset-cong xs ys zs h)

pub disjoint-nil : (xs : List String) → disjoint xs [] ≡ true
disjoint-nil [] = refl
disjoint-nil (x ∷ xs) = disjoint-nil xs

pub disjoint-append_right :
    (xs ys zs : List String) → disjoint xs (ys ++ zs) ≡ true → disjoint xs zs ≡ true
disjoint-append_right [] ys zs h = refl
disjoint-append_right (x ∷ xs) ys zs h =
    ground (arith, elem-append x ys zs, disjoint-append_right xs ys zs)

elem_self : (x : String) (xs : List String) → elem x (x ∷ xs) ≡ true
elem_self x xs = let same : str_eq x x ≡ true = (str_eq_iff x x).1 refl in rw same refl

pub subset-intro :
    (xs ys : List String)
    → ((i : String) → elem i xs ≡ true → elem i ys ≡ true)
    → subset xs ys ≡ true
subset-intro [] ys h = refl
subset-intro (x ∷ xs) ys h =
    let first = h x (elem_self x xs) in
    ground (arith, subset-intro xs ys (λ i k. h i (ground arith)))

pub subset-elem :
    (xs ys : List String) (i : String) → subset xs ys ≡ true → elem i xs ≡ true → elem i ys ≡ true
subset-elem [] ys i h k = cc
subset-elem (x ∷ xs) ys i h k = ground (arith, subset-elem xs ys i, str_eq_iff x i)

pub distinct-append :
    (xs ys : List String)
    → distinct xs ≡ true
    → distinct ys ≡ true
    → ((i : String) → elem i xs ≡ true → elem i ys ≡ false)
    → distinct (xs ++ ys) ≡ true
distinct-append [] ys h k apart = k
distinct-append (x ∷ xs) ys h k apart =
    let first = apart x (elem_self x xs) in
    ground (
      arith,
      elem-append x xs ys,
      distinct-append xs ys (ground arith) k (λ i m. apart i (ground arith)),
    )

pub disjoint-append_left :
    (xs ys zs : List String) → disjoint xs (ys ++ zs) ≡ true → disjoint xs ys ≡ true
disjoint-append_left [] ys zs h = refl
disjoint-append_left (x ∷ xs) ys zs h =
    ground (arith, elem-append x ys zs, disjoint-append_left xs ys zs)

pub disjoint-append :
    (xs ys zs : List String)
    → disjoint xs ys ≡ true
    → disjoint xs zs ≡ true
    → disjoint xs (ys ++ zs) ≡ true
disjoint-append [] ys zs h k = refl
disjoint-append (x ∷ xs) ys zs h k = ground (arith, elem-append x ys zs, disjoint-append xs ys zs)
