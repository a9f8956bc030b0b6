-- ===== src/Runner/Tests.antt =====
-- Runs of the repair of a stopped history, and instances of its theorems.
use borealis_coder.Prelude.{
  ℕ, zero, suc, ◌+◌, length, is_ok, ◌≡◌, refl, str_eq, String, true, false, Option, none, some,
  List, [], ◌∷◌, ◌++◌, All, ok, err,
}
use borealis_coder.Prelude.Chars.{Text, codes}
use borealis_coder.Models.{Role, ToolCall, Message}
use borealis_coder.Models.JsonValue.{end}
use borealis_coder.Compaction.ToolOrder.{validate_tool_call_order, names_other}
use borealis_coder.Runner.Repair.{
  duplicate_id, empty_id, validate_new_tool_call_ids, repair, abandoned_tool_call_results,
}
use borealis_coder.Runner.Repair.Results.{IsOpen}
use borealis_coder.Runner.Repair.Closed.{
  Resumable, quiet, unfinished, abandoned_tool_call_results-Resumable,
}
use borealis_coder.Runner.Repair.Fresh.{validate_new_tool_call_ids-closed}
use borealis_coder.Compaction.Fit.{Target}
use borealis_coder.Compaction.Summary.{Sections}
use borealis_coder.Compaction.Compact.{Outside}
use borealis_coder.Runner.Targets.{Turn, compact_to_budget}
use borealis_coder.Runner.Targets.Adjusted.{IsAdjusted, compact_to_budget-IsAdjusted}

abbrev message : Role → String → List ToolCall → Option String → Message
message role id calls answered = record {
  role = role;
  content = codes "";
  id = id;
  tool_calls = calls;
  tool_call_id = answered;
  tool_name = none;
  is_error = false;
  metadata = end;
  created_at = "";
}

abbrev call : String → ToolCall
call i = record { id = i; name = "shell"; arguments = end; raw_arguments = none }

abbrev asked : Message
asked = message Role.user "m1" [] none

abbrev called : Message
called = message Role.assistant "m2" (call "a" ∷ call "b" ∷ []) none

abbrev answered : Message
answered = message Role.tool "m3" [] (some "a")

abbrev new_id : ToolCall → String
new_id c = "new"

-- The call `a` is answered and the call `b` was running when the run ended.
abbrev stopped : List Message
stopped = asked ∷ called ∷ answered ∷ []

abbrev repaired : Message
repaired = repair new_id "now" ("b" ∷ []) (call "b")

repairs_b : abandoned_tool_call_results new_id "now" stopped ("b" ∷ []) ≡ ok (repaired ∷ [])
unfolding abandoned_tool_call_results validate_tool_call_order
repairs_b = refl

used_again : validate_new_tool_call_ids (call "a" ∷ []) stopped ≡ err (duplicate_id "a")
unfolding validate_new_tool_call_ids
used_again = refl

blank_call : validate_new_tool_call_ids (call " " ∷ []) stopped ≡ err empty_id
unfolding validate_new_tool_call_ids
blank_call = refl

not_renamed : names_other answered (call "a" ∷ call "b" ∷ []) ≡ false
unfolding names_other
not_renamed = refl

is_open : IsOpen called (answered ∷ [])
is_open = record {
  calls = refl;
  named = unfold borealis_coder.Prelude.Chars.is_blank in refl;
  distinct_calls = refl;
  results = (refl, tt);
  names_fit = (not_renamed, tt);
  expected = refl;
  once = refl;
}

stopped-Resumable : Resumable [] stopped
stopped-Resumable = quiet refl refl (unfinished (answered ∷ []) is_open refl)

abandoned_tool_call_results-Resumable_example :
    (repairs : List Message) × (abandoned_tool_call_results new_id "now" stopped ("b" ∷ [])
      ≡ ok repairs)
    × (validate_tool_call_order (stopped ++ repairs) ≡ ok tt)
    × All (λ (r : Message). r.is_error ≡ true) repairs
abandoned_tool_call_results-Resumable_example =
    abandoned_tool_call_results-Resumable new_id "now" ("b" ∷ []) stopped stopped-Resumable

asked_valid : validate_tool_call_order (asked ∷ []) ≡ ok tt
unfolding validate_tool_call_order
asked_valid = refl

accepted_ids : validate_new_tool_call_ids (call "a" ∷ call "b" ∷ []) (asked ∷ []) ≡ ok tt
unfolding validate_new_tool_call_ids
accepted_ids = refl

validate_new_tool_call_ids-closed_example :
    (repairs : List Message) × (abandoned_tool_call_results new_id "now"
        ((asked ∷ []) ++ called ∷ answered ∷ [])
        []
      ≡ ok repairs)
    × (validate_tool_call_order (((asked ∷ []) ++ called ∷ answered ∷ []) ++ repairs) ≡ ok tt)
validate_new_tool_call_ids-closed_example =
    validate_new_tool_call_ids-closed new_id "now" [] (asked ∷ []) called (answered ∷ [])
      asked_valid accepted_ids refl (refl, tt) (not_renamed, tt) refl refl

-- No evidence, and a message counts the length of its content.
abbrev no_evidence : Sections
no_evidence h = []

abbrev size_of : List Message → ℕ
size_of [] = 0
size_of (m ∷ ms) = length m.content + size_of ms

abbrev outside : Outside
outside = record {
  message_tokens = λ m. length m.content;
  messages_bytes = size_of;
  estimate_tokens = length;
  utf8_length = length;
  extract_compaction_evidence = λ ms base. no_evidence;
  source_hash = λ ms. "hash";
  to_metadata = λ a. end;
  new_id = "summary";
  now = "";
}

abbrev wide : Target
wide = record { tokens = 5000; bytes = 5000 }

abbrev said : Message
said = message Role.assistant "m4" [] none

-- The request is the history of two messages; the budget is 1000 beside whatever is retained.
abbrev turn : Turn
turn = record {
  request_messages = asked ∷ said ∷ [];
  is_request = λ ms. elim ms [ [] ↦ false | m ∷ more ↦ str_eq m.id "m1" ];
  request_tokens = λ artifact retained. size_of (artifact ∷ retained);
  request_bytes = λ artifact retained. size_of (artifact ∷ retained);
  retained_budget = λ retained. record { tokens = 1000; bytes = 1000 };
  outside = outside;
  options = record {
    keep_recent = 1;
    keep_recent_bundles = 0;
    summary_chars = 18000;
    summary_tokens = 0;
    summary_bytes = 0;
    target = wide;
    force = true;
    base_evidence = none;
    base_source_message_ids = [];
    base_compacted_message_ids = none;
  };
}

within_budget : is_ok (compact_to_budget turn wide) ≡ true
unfolding compact_to_budget validate_tool_call_order
within_budget = refl

turn_valid : validate_tool_call_order (asked ∷ said ∷ []) ≡ ok tt
unfolding validate_tool_call_order
turn_valid = refl

compact_to_budget-IsAdjusted_example : IsAdjusted turn wide (compact_to_budget turn wide)
compact_to_budget-IsAdjusted_example = compact_to_budget-IsAdjusted turn turn_valid refl wide
