-- ===== src/Sessions/Tests.antt =====
-- Runs of the transactions on tool calls, and instances of their theorems. The texts of JSON stand
-- for themselves here.
use borealis_coder.Prelude.{◌≡◌, refl, true, false, none, some, List, [], ◌∷◌, ok, err}
use borealis_coder.Prelude.Chars.{Text, codes, text_eq}
use borealis_coder.Models.{Role, Message}
use borealis_coder.Models.JsonValue.{Fields, end}
use borealis_coder.Sessions.{
  running, completed, call_terminal, ToolCallRow, Store, find_call, complete_tool_call,
  cancel_tool_call, settle, append_message, is_outcome, find_message, touch, message_row,
}
use borealis_coder.Sessions.Terminal.{
  HasEnded, Op, begin, complete, cancel, run_all, run_all-HasEnded,
}
use borealis_coder.Sessions.Repeat.{complete_tool_call-again}

abbrev dumps : Fields → Text
dumps f = codes "{}"

abbrev message_json : Message → Text
message_json m = m.content

abbrev with_cancelled : Text → Text
with_cancelled t = codes "{\"cancelled\":true}"

abbrev result : Message
result = record {
  role = Role.tool;
  content = codes "done";
  id = "m1";
  tool_calls = [];
  tool_call_id = some "a";
  tool_name = none;
  is_error = false;
  metadata = end;
  created_at = "t1";
}

abbrev row : ToolCallRow
row = record {
  session_id = "s";
  tool_call_id = "a";
  run_id = "r";
  tool_name = "shell";
  arguments_json = codes "{}";
  output = none;
  is_error = none;
  status = running;
  started_at = codes "t0";
  completed_at = none;
  metadata_json = codes "{}";
}

abbrev opened : Store
opened = record {
  sessions = record { id = "s"; updated_at = codes "t0" } ∷ [];
  calls = row ∷ [];
  messages = [];
}

abbrev ended_row : ToolCallRow
ended_row = record row {
  output = some (codes "out");
  is_error = some false;
  status = completed;
  completed_at = some (codes "t1");
}

abbrev ended : Store
ended = record {
  sessions = record { id = "s"; updated_at = codes "t1" } ∷ [];
  calls = ended_row ∷ [];
  messages =
      record {
        session_id = "s";
        message_id = "m1";
        role = Role.tool;
        payload_json = codes "done";
        created_at = "t1";
      }
      ∷ [];
}

call_completes :
    complete_tool_call dumps message_json text_eq with_cancelled
      (codes "t1")
      "s"
      "a"
      (codes "out")
      false
      end
      (some result)
      opened
    ≡ ok ended
unfolding complete_tool_call settle find_call append_message find_message touch message_row
call_completes = refl

late_cancel_is_refused :
    cancel_tool_call dumps message_json text_eq with_cancelled
      (codes "t2")
      "s"
      "a"
      (codes "stop")
      none
      ended
    ≡ err (call_terminal "a")
unfolding cancel_tool_call settle find_call is_outcome
late_cancel_is_refused = refl

complete_tool_call-again_example :
    complete_tool_call dumps message_json text_eq with_cancelled
      (codes "t9")
      "s"
      "a"
      (codes "out")
      false
      end
      (some result)
      ended
    ≡ ok ended
complete_tool_call-again_example =
    complete_tool_call-again dumps message_json text_eq with_cancelled (codes "t1") (codes "t9") "s"
      "a" (codes "out") false end (some result) opened ended call_completes

abbrev later_ops : List (Op dumps message_json text_eq with_cancelled)
later_ops =
    cancel (codes "t2") "s" "a" (codes "stop") none
    ∷ begin (codes "t3") "s" "r" "a" "shell" end end
    ∷ begin (codes "t4") "s" "r" "b" "shell" end end
    ∷ complete (codes "t5") "s" "b" (codes "x") true end none
    ∷ []

ended_row-HasEnded : HasEnded "s" "a" ended_row ended.calls
unfolding HasEnded find_call
ended_row-HasEnded = (refl, refl)

run_all-HasEnded_example :
    HasEnded "s" "a" ended_row
      (run_all dumps message_json text_eq with_cancelled later_ops ended).calls
run_all-HasEnded_example =
    run_all-HasEnded dumps message_json text_eq with_cancelled later_ops "s" "a" ended_row ended
      ended_row-HasEnded
