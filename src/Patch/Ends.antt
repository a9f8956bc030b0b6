-- ===== src/Patch/Ends.antt =====
-- Computations of tools/patch.py that do not raise certain errors; one that does not raise
-- `out_of_fuel` ends within its fuel.
use borealis_coder.Prelude.{
  ◌≡◌, refl, subst, Bool, true, false, Result, ok, err, guard, ◌>>=◌, ◌>>◌,
}
use borealis_coder.Patch.{PatchError, out_of_fuel, hunk_counts}

unfoldable pub is_fuel : PatchError → Bool
is_fuel out_of_fuel = true
is_fuel _ = false

unfoldable pub is_miscount : PatchError → Bool
is_miscount hunk_counts = true
is_miscount _ = false

module _ (bad : PatchError → Bool) where
  unfoldable pub Avoids : {A : Type 0} → Result PatchError A → Type 0
  Avoids (ok a) = Unit {0}
  Avoids (err e) = bad e ≡ false

  pub Avoids-bind :
      {A B : Type 0} (m : Result PatchError A) (f : A → Result PatchError B)
      → Avoids m
      → ((a : A) → m ≡ ok a → Avoids (f a))
      → Avoids (m >>= f)
  unfolding Avoids
  Avoids-bind (ok a) f h k = k a refl
  Avoids-bind (err e) f h k = h

  pub Avoids-guard : (b : Bool) (e : PatchError) → bad e ≡ false → Avoids (guard b e)
  unfolding Avoids
  Avoids-guard true e h = tt
  Avoids-guard false e h = h

  pub Avoids-guard_passed : (b : Bool) (e : PatchError) → b ≡ true → Avoids (guard b e)
  unfolding Avoids
  Avoids-guard_passed true e h = tt
  Avoids-guard_passed false e h = cc

  pub Avoids-guard_then :
      {B : Type 0} (b : Bool) (e : PatchError) (next : Result PatchError B)
      → bad e ≡ false
      → Avoids next
      → Avoids (guard b e >> next)
  unfolding Avoids
  Avoids-guard_then true e next h k = k
  Avoids-guard_then false e next h k = h

  pub Avoids-ok : {A : Type 0} (a : A) → Avoids (ok a)
  unfolding Avoids
  Avoids-ok a = tt

-- The computation does not end for want of fuel.
abbrev pub Ends : {A : Type 0} → Result PatchError A → Type 0
Ends r = Avoids is_fuel r

-- If the computation returns, what it returns has the property.
pub Yields : {A : Type 0} → (A → Type 0) → Result PatchError A → Type 0
Yields Q (ok x) = Q x
Yields Q (err e) = Unit {0}

pub Yields-ok : {A : Type 0} (Q : A → Type 0) (x : A) → Q x → Yields Q (ok x)
unfolding Yields
Yields-ok Q x q = q

pub Yields-err : {A : Type 0} (Q : A → Type 0) (e : PatchError) → Yields Q (err e)
unfolding Yields
Yields-err Q e = tt

pub Yields-bind :
    {A B : Type 0} (P : A → Type 0) (Q : B → Type 0) (r : Result PatchError A)
    (k : A → Result PatchError B)
    → Yields P r
    → ((x : A) → P x → Yields Q (k x))
    → Yields Q (r >>= k)
unfolding Yields
Yields-bind P Q (ok x) k p q = q x p
Yields-bind P Q (err e) k p q = tt

-- Nothing is asked of what the first part returns.
pub Yields-then :
    {A B : Type 0} (Q : B → Type 0) (r : Result PatchError A) (k : A → Result PatchError B)
    → ((x : A) → Yields Q (k x))
    → Yields Q (r >>= k)
unfolding Yields
Yields-then Q (ok x) k q = q x
Yields-then Q (err e) k q = tt

pub Yields-weaken :
    {A : Type 0} (P Q : A → Type 0) (r : Result PatchError A)
    → ((x : A) → P x → Q x)
    → Yields P r
    → Yields Q r
unfolding Yields
Yields-weaken P Q (ok x) f p = f x p
Yields-weaken P Q (err e) f p = tt

pub Yields-eq :
    {A : Type 0} (Q : A → Type 0) (r : Result PatchError A) (x : A) → Yields Q r → r ≡ ok x → Q x
Yields-eq Q r x y e = let z : Yields Q (ok x) = subst (Yields Q) e y in unfold Yields in z
