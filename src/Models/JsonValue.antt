-- ===== src/Models/JsonValue.antt =====
-- The JSON values that `metadata` and tool arguments hold (`dict[str, Any]`).
use Prim.Native.Nat.{ℕ}
use borealis_coder.Prelude.{
  String, Bool, true, false, not, Option, none, some, str_eq, ◌==◌, if◌then◌else◌,
}

mutual
  pub data Json : Type 0 where
    null : Json
    bool : Bool → Json
    num : ℕ → Json
    str : String → Json
    arr : Items → Json
    obj : Fields → Json

  pub data Items : Type 0 where
    nil : Items
    cons : Json → Items → Items

  pub data Fields : Type 0 where
    end : Fields
    field : String → Json → Fields → Fields

-- `d.get(key)`
unfoldable pub get : String → Fields → Option Json
get k end = none
get k (field j v fs) = if str_eq j k then some v else get k fs

-- `bool(value)`
unfoldable pub truthy : Json → Bool
truthy null = false
truthy (bool b) = b
truthy (num n) = not (n == 0)
truthy (str s) = not (str_eq s "")
truthy (arr nil) = false
truthy (arr (cons v vs)) = true
truthy (obj end) = false
truthy (obj (field k v fs)) = true

-- `bool(d.get(key))`
unfoldable pub has_truthy : String → Fields → Bool
unfolding get truthy
has_truthy k d = elim (get k d) [ none ↦ false | some v ↦ truthy v ]
