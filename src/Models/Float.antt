-- ===== src/Models/Float.antt =====
-- Python's `float`, by the operations that the program makes of it. No law of arithmetic is assumed.
use borealis_coder.Prelude.{ℕ, Bool, ltb, leb, ◌+◌, ◌-◌, ◌*◌, ◌/◌, ◌==◌}

pub record Float : Type 1 where
  pub F : Type 0
  pub of_ℕ : ℕ → F
  pub add : F → F → F
  pub sub : F → F → F
  pub mul : F → F → F
  pub div : F → F → F
  -- x > y
  pub gt : F → F → Bool
  -- x >= y
  pub ge : F → F → Bool
  -- x == 0.0
  pub is_zero : F → Bool
  -- round(x, 12)
  pub round12 : F → F

-- Whole numbers, with which the tests run.
abbrev pub whole : Float
whole = record {
  F = ℕ;
  of_ℕ = λ n. n;
  add = λ x y. x + y;
  sub = λ x y. x - y;
  mul = λ x y. x * y;
  div = λ x y. x / y;
  gt = λ x y. ltb y x;
  ge = λ x y. leb y x;
  is_zero = λ x. x == 0;
  round12 = λ x. x;
}
