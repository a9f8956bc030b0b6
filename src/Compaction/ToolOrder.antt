-- ===== src/Compaction/ToolOrder.antt =====
-- `validate_tool_call_order` of agent/compaction.py.
pub mod Grammar
use borealis_coder.Prelude.{
  ℕ, zero, suc, ◌+◌, String, ◌≡◌, Bool, true, false, not, ◌&&◌, ◌||◌, Option, none, some, List, [],
  ◌∷◌, ◌++◌, map, str_eq, elem, distinct, disjoint, subset, any, length, Result, ok, err, guard,
  ◌>>=◌, ◌>>◌, if◌then◌else◌,
}
use borealis_coder.Prelude.Chars.{is_blank}
use borealis_coder.Models.{Role, role_eq, ToolCall, Message}

-- The reasons for which a history is refused, with the message that is named.
pub data OrderError : Type 0 where
  orphan_result empty_call_id duplicate_call_ids missing_results : String → OrderError
  unmatched_result wrong_tool_name : String → String → OrderError
  out_of_fuel : OrderError

abbrev pub is_result : Message → Bool
is_result m = role_eq m.role Role.tool

abbrev pub nonempty {ℓ} : {A : Type ℓ} → List A → Bool
nonempty [] = false
nonempty (x ∷ xs) = true

-- `message.role == Role.ASSISTANT and message.tool_calls`
abbrev pub has_calls : Message → Bool
has_calls m = role_eq m.role Role.assistant && nonempty m.tool_calls

abbrev pub call_ids : Message → List String
call_ids m = map (λ c. c.id) m.tool_calls

-- `result.tool_call_id or ""`
abbrev pub result_id : Message → String
result_id m = elim m.tool_call_id [ none ↦ "" | some i ↦ i ]

-- `expected_names[call_id]`, of a dict built over the calls in order: a later call wins.
unfoldable pub expected_name : String → List ToolCall → Option String
expected_name i [] = none
expected_name i (c ∷ cs) = elim (expected_name i cs) [
  | some n ↦ some n
  | none ↦ if str_eq c.id i then some c.name else none
]

-- `result.tool_name and result.tool_name != expected_names[result_id]`
unfoldable pub names_other : Message → List ToolCall → Bool
names_other r calls = elim r.tool_name [
  | none ↦ false
  | some n ↦
      not (str_eq n "")
      && elim (expected_name (result_id r) calls) [ none ↦ true | some e ↦ not (str_eq n e) ]
]

pub check_call_ids : List String → Message → Result OrderError (Unit {0})
unfolding is_blank
check_call_ids known m = do
  guard (not (any is_blank (call_ids m))) (empty_call_id m.id)
  guard (distinct (call_ids m) && disjoint (call_ids m) known) (duplicate_call_ids m.id)

-- The inner loop: the results that follow the call message `m`, the ids that they answer, and what
-- is left of the history.
pub check_results :
    Message → List String → List Message → Result OrderError (List String × List Message)
unfolding names_other expected_name
check_results m observed [] = ok (observed, [])
check_results m observed (r ∷ rs) =
    let rest = check_results m (result_id r ∷ observed) rs in
    if not (is_result r)
    then ok (observed, r ∷ rs)
    else if not (elem (result_id r) (call_ids m)) || elem (result_id r) observed
    then err (unmatched_result r.id m.id)
    else if names_other r m.tool_calls
    then err (wrong_tool_name r.id m.id)
    else rest

-- The outer loop. Each round uses up at least one message, so the length of the history is enough
-- fuel.
pub validate_from : ℕ → List String → List Message → Result OrderError (Unit {0})
unfolding check_call_ids check_results
validate_from zero known ms = err out_of_fuel
validate_from (suc fuel) known [] = ok tt
validate_from (suc fuel) known (m ∷ ms) =
    let plain = validate_from fuel known ms in
    if is_result m then err (orphan_result m.id) else if not (has_calls m) then plain else do
      check_call_ids known m
      (observed, rest) ← check_results m [] ms
      guard (subset (call_ids m) observed) (missing_results m.id)
      validate_from fuel (call_ids m ++ known) rest

unfoldable pub validate_tool_call_order : List Message → Result OrderError (Unit {0})
unfolding validate_from
validate_tool_call_order ms = validate_from (suc (length ms)) [] ms
