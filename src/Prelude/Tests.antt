-- ===== src/Prelude/Tests.antt =====
-- Boolean tests on the native numbers, the conditional, and case analysis that keeps an equation.
use Prim.Native.Nat.{ℕ, zero, suc, ◌≤◌, ◌<◌, compare, Ordering}
use mathlib.Core.Path.{◌≡◌, refl}
use mathlib.Core.Logic.{◌↔◌, ◌⊎◌, inl, inr}
use mathlib.Core.Bool.{Bool, true, false, ◌&&◌, ◌||◌}
use mathlib.Core.Option.{Option, none, some}
use native.Mathlib.Omega.{arith}

abbrev pub ltb : ℕ → ℕ → Bool
ltb a b = elim (compare a b) [ Ordering.lt ↦ true | _ ↦ false ]

abbrev pub leb : ℕ → ℕ → Bool
leb a b = elim (compare a b) [ Ordering.gt ↦ false | _ ↦ true ]

infix 50 ◌==◌
abbrev pub ◌==◌ : ℕ → ℕ → Bool
a == b = elim (compare a b) [ Ordering.eq ↦ true | _ ↦ false ]

infix 1 if◌then◌else◌
abbrev pub if◌then◌else◌ {ℓ} : {A : Type ℓ} → Bool → A → A → A
if true then x else y = x
if false then x else y = y

pub ltb→lt : (a b : ℕ) → ltb a b ≡ true → a < b
ltb→lt a b h = ground arith

pub lt→ltb : (a b : ℕ) → a < b → ltb a b ≡ true
lt→ltb a b h = ground arith

pub leb→le : (a b : ℕ) → leb a b ≡ true → a ≤ b
leb→le a b h = ground arith

pub ==_iff : (a b : ℕ) → ((a == b) ≡ true) ↔ (a ≡ b)
==_iff a b = ground arith

pub ruleset tests = (arith, ltb→lt, lt→ltb, leb→le)

pub Bool-cases : (b : Bool) → (b ≡ true) ⊎ (b ≡ false)
Bool-cases true = inl refl
Bool-cases false = inr refl

pub Option-cases {ℓ} : {A : Type ℓ} (o : Option A) → (o ≡ none) ⊎ ((a : A) × (o ≡ some a))
Option-cases none = inl refl
Option-cases (some a) = inr (a, refl)

pub &&-eq-true : (a b : Bool) → (a && b) ≡ true → (a ≡ true) × (b ≡ true)
&&-eq-true a b h = ground arith

-- What holds of both branches holds of the test.
pub if-both {ℓ κ} :
    {X : Type ℓ} (Q : X → Type κ) (t : Bool) {u v : X} → Q u → Q v → Q (if t then u else v)
if-both Q true yes_u no_v = yes_u
if-both Q false yes_u no_v = no_v

pub or_cases : (a b : Bool) → (a || b) ≡ true → (a ≡ true) ⊎ (b ≡ true)
or_cases true b h = inl refl
or_cases false b h = inr h

-- What holds of both cases of an option holds of the case analysis.
pub option-both {ℓ κ μ} :
    {X : Type ℓ} {Y : Type κ} (Q : Y → Type μ) (o : Option X) {u : Y} {f : X → Y}
    → Q u
    → ((x : X) → Q (f x))
    → Q (elim o [ none ↦ u | some x ↦ f x ])
option-both Q none p q = p
option-both Q (some x) p q = q x

-- What holds of each branch under its test holds of the test.
pub if-under {ℓ κ} :
    {X : Type ℓ} (Q : X → Type κ) (t : Bool) {u v : X}
    → (t ≡ true → Q u)
    → (t ≡ false → Q v)
    → Q (if t then u else v)
if-under Q true p q = p refl
if-under Q false p q = q refl

-- The same, each case under its equation.
pub option-under {ℓ κ μ} :
    {X : Type ℓ} {Y : Type κ} (Q : Y → Type μ) (o : Option X) {u : Y} {f : X → Y}
    → (o ≡ none → Q u)
    → ((x : X) → o ≡ some x → Q (f x))
    → Q (elim o [ none ↦ u | some x ↦ f x ])
option-under Q none p q = p refl
option-under Q (some x) p q = q x refl

-- The same for `elim` on a test, which computes the one branch.
pub bool-under {ℓ κ} :
    {X : Type ℓ} (Q : X → Type κ) (t : Bool) {u v : X}
    → (t ≡ true → Q u)
    → (t ≡ false → Q v)
    → Q (elim t [ true ↦ u | false ↦ v ])
bool-under Q true p q = p refl
bool-under Q false p q = q refl

pub nat-under {ℓ κ} :
    {X : Type ℓ} (Q : X → Type κ) (n : ℕ) {u : X} {f : ℕ → X}
    → (n ≡ 0 → Q u)
    → ((k : ℕ) → n ≡ suc k → Q (f k))
    → Q (elim n [ zero ↦ u | suc k ↦ f k ])
nat-under Q zero p q = p refl
nat-under Q (suc k) p q = q k refl

pub some_inj {ℓ} : {A : Type ℓ} {a b : A} → some a ≡ some b → a ≡ b
some_inj h = cc
