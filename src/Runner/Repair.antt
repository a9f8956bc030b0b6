-- ===== src/Runner/Repair.antt =====
-- agent/runner.py: the check of the call ids that a provider returns, and the results that complete
-- a history whose run has ended between its tool calls.
pub mod Results
pub mod Closed
pub mod Fresh
use borealis_coder.Prelude.{
  String, Bool, true, false, not, ◌||◌, ◌&&◌, Option, none, some, List, [], ◌∷◌, ◌++◌, str_eq, elem,
  any, map, Result, ok, err, guard, ◌>>=◌, ◌>>◌, if◌then◌else◌,
}
use borealis_coder.Prelude.Chars.{codes, is_blank}
use borealis_coder.Models.{Role, role_eq, ToolCall, Message}
use borealis_coder.Models.JsonValue.{Json, Fields, bool, str, field, end}
use borealis_coder.Compaction.ToolOrder.{
  OrderError, is_result, nonempty, call_ids, result_id, validate_tool_call_order,
}

-- The SessionError of a provider's calls.
pub data CallIdError : Type 0 where
  empty_id : CallIdError
  duplicate_id : String → CallIdError

-- The ids of the calls of the assistant's messages.
unfoldable pub durable_ids : List Message → List String
durable_ids [] = []
durable_ids (m ∷ ms) =
    if role_eq m.role Role.assistant then call_ids m ++ durable_ids ms else durable_ids ms

-- The loop of `_duplicate_tool_call_id`; `batch` has the ids before.
unfoldable pub duplicate_in : List String → List String → List ToolCall → Option String
duplicate_in durable batch [] = none
duplicate_in durable batch (c ∷ cs) =
    if elem c.id durable || elem c.id batch
    then some c.id
    else duplicate_in durable (c.id ∷ batch) cs

unfoldable pub duplicate_tool_call_id : List ToolCall → List Message → Option String
unfolding durable_ids duplicate_in
duplicate_tool_call_id calls earlier = duplicate_in (durable_ids earlier) [] calls

unfoldable pub blank_tool_call_id : List ToolCall → Option String
unfolding is_blank
blank_tool_call_id [] = none
blank_tool_call_id (c ∷ cs) = if is_blank c.id then some c.id else blank_tool_call_id cs

unfoldable pub validate_new_tool_call_ids :
    List ToolCall → List Message → Result CallIdError (Unit {0})
unfolding blank_tool_call_id duplicate_tool_call_id
validate_new_tool_call_ids calls earlier = elim (blank_tool_call_id calls) [
  | some i ↦ err empty_id
  | none ↦ elim (duplicate_tool_call_id calls earlier) [
    | some i ↦ err (duplicate_id i)
    | none ↦ ok tt
  ]
]

-- The last message that is no tool result, with what stands before and behind it: where the
-- backward loop over `index` stops.
unfoldable pub last_other : List Message → Option (List Message × Message × List Message)
last_other [] = none
last_other (m ∷ ms) = elim (last_other ms) [
  | some (before, a, results) ↦ some (m ∷ before, a, results)
  | none ↦ if is_result m then none else some ([], m, ms)
]

-- The ids of the results, where they have one.
unfoldable pub observed_ids : List Message → List String
observed_ids [] = []
observed_ids (r ∷ rs) =
    if is_result r && not (str_eq (result_id r) "")
    then result_id r ∷ observed_ids rs
    else observed_ids rs

abbrev pub unknown_outcome : Fields
unknown_outcome = field "unknown_outcome" (bool true) (
    field "execution_started" (bool true)
      (field "abandoned" (bool true) (field "recovery" (str "previous_run_ended") end)))

abbrev pub cancelled : Fields
cancelled = field "cancelled" (bool true) (
    field "not_started" (bool true)
      (field "abandoned" (bool true) (field "recovery" (str "previous_run_ended") end)))

-- A new message has a new id and the time, which come from the system.
module _ (new_id : ToolCall → String) (now : String) where
  unfoldable pub repair : List String → ToolCall → Message
  repair running c =
      let started = elem c.id running in
      record {
        role = Role.tool;
        content =
            if started
            then codes
                "Unknown outcome: the previous run ended after this tool call started but before its result was recorded. The tool may have executed."
            else codes "Cancelled: the previous run ended before this tool call was executed.";
        id = new_id c;
        tool_calls = [];
        tool_call_id = some c.id;
        tool_name = some c.name;
        is_error = true;
        metadata = if started then unknown_outcome else cancelled;
        created_at = now;
      }

  unfoldable pub repairs_for : List String → List String → List ToolCall → List Message
  unfolding repair
  repairs_for running observed [] = []
  repairs_for running observed (c ∷ cs) =
      let rest = repairs_for running observed cs in
      if elem c.id observed then rest else repair running c ∷ rest

  -- `_abandoned_tool_call_results`
  unfoldable pub abandoned_tool_call_results :
      List Message → List String → Result OrderError (List Message)
  unfolding last_other observed_ids repairs_for
  abandoned_tool_call_results ms running = elim (last_other ms) [
    | none ↦ do validate_tool_call_order ms; ok []
    | some (before, a, results) ↦
        if not (nonempty a.tool_calls)
        then (do validate_tool_call_order ms; ok [])
        else if not (role_eq a.role Role.assistant)
        then (do validate_tool_call_order ms; ok [])
        else (do
          let repairs = repairs_for running (observed_ids results) a.tool_calls
          validate_tool_call_order (ms ++ repairs)
          ok repairs)
  ]
