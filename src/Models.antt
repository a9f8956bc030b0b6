-- ===== src/Models.antt =====
-- models.py: the data contracts shared by providers, tools and storage.
pub mod Float
pub mod JsonValue
pub mod Usage
mod Tests
use borealis_coder.Prelude.{ℕ, String, Bool, true, false, Option, List, [], ◌∷◌}
use borealis_coder.Prelude.Chars.{Text}
use borealis_coder.Models.JsonValue.{Json, Fields}

pub data Role : Type 0 where
  system user assistant tool : Role

abbrev pub role_eq : Role → Role → Bool
role_eq Role.system Role.system = true
role_eq Role.user Role.user = true
role_eq Role.assistant Role.assistant = true
role_eq Role.tool Role.tool = true
role_eq _ _ = false

pub data Effect : Type 0 where
  read write execute network control : Effect

pub record ToolCall : Type 0 where
  pub id : String
  pub name : String
  pub arguments : Fields
  pub raw_arguments : Option String

-- `metadata` is a JSON object; the content is text that the program measures and cuts.
pub record Message : Type 0 where
  pub role : Role
  pub content : Text
  pub id : String
  pub tool_calls : List ToolCall
  pub tool_call_id : Option String
  pub tool_name : Option String
  pub is_error : Bool
  pub metadata : Fields
  pub created_at : String
