-- ===== src/Prelude/Outcome.antt =====
-- A computation that may raise: the exception is a value.
use mathlib.Core.Path.{◌≡◌, refl}
use mathlib.Core.Bool.{Bool, true, false}
use mathlib.Core.Logic.{◌⊎◌, inl, inr}

pub data Result {ℓ κ} (E : Type ℓ) (A : Type κ) : Type (ℓ ⊔ κ) where
  ok : A → Result E A
  err : E → Result E A

infixl 5 ◌>>=◌ ◌>>◌
abbrev pub ◌>>=◌ {ε α β} :
    {E : Type ε} {A : Type α} {B : Type β} → Result E A → (A → Result E B) → Result E B
ok x >>= k = k x
err raised >>= k = err raised

abbrev pub ◌>>◌ {ε β} : {E : Type ε} {B : Type β} → Result E (Unit {0}) → Result E B → Result E B
first >> next = first >>= λ u. next

-- `if not test: raise e`
abbrev pub guard {ℓ} : {E : Type ℓ} → Bool → E → Result E (Unit {0})
guard true e = ok tt
guard false e = err e

module _ {ℓ κ} {E : Type ℓ} {A : Type κ} where
  abbrev pub is_ok : Result E A → Bool
  is_ok (ok a) = true
  is_ok (err e) = false

  pub ok_inj : {a b : A} → (let r : Result E A = ok a in r) ≡ ok b → a ≡ b
  ok_inj h = cc

  -- A computation in two parts that returns: what the first part returned.
  pub >>=-eq-ok {β} :
      {B : Type β} (r : Result E A) (k : A → Result E B) {z : B}
      → (r >>= k) ≡ ok z
      → (x : A) × (r ≡ ok x) × (k x ≡ ok z)
  >>=-eq-ok (ok x) k returned = (x, refl, returned)
  >>=-eq-ok (err raised) k returned = cc

pub guard-eq-ok {ℓ} : {E : Type ℓ} (b : Bool) (e : E) (u : Unit {0}) → guard b e ≡ ok u → b ≡ true
guard-eq-ok true e u h = refl
guard-eq-ok false e u h = cc

pub Result-cases {ℓ κ} :
    {E : Type ℓ} {A : Type κ} (r : Result E A) → ((a : A) × (r ≡ ok a)) ⊎ ((e : E) × (r ≡ err e))
Result-cases (ok a) = inl (a, refl)
Result-cases (err e) = inr (e, refl)

-- What holds of both outcomes holds of the case analysis.
pub Result-both {ℓ κ μ} :
    {E : Type ℓ} {A : Type κ} {Y : Type 0} (Q : Y → Type μ) (r : Result E A) {f : A → Y} {g : E → Y}
    → ((a : A) → r ≡ ok a → Q (f a))
    → ((e : E) → r ≡ err e → Q (g e))
    → Q (elim r [ ok a ↦ f a | err e ↦ g e ])
Result-both Q (ok a) p q = p a refl
Result-both Q (err e) p q = q e refl

pub Result-under {ℓ κ ν μ} :
    {E : Type ℓ} {A : Type κ} {Y : Type ν} (Q : Y → Type μ) (r : Result E A) {f : A → Y} {g : E → Y}
    → ((e : E) → r ≡ err e → Q (g e))
    → ((a : A) → r ≡ ok a → Q (f a))
    → Q (elim r [ err e ↦ g e | ok a ↦ f a ])
Result-under Q (ok a) p q = q a refl
Result-under Q (err e) p q = p e refl
