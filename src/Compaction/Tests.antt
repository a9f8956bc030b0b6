-- ===== src/Compaction/Tests.antt =====
-- Runs of the compaction functions on small histories, and instances of their theorems.
use borealis_coder.Prelude.{
  ℕ, suc, ◌+◌, ◌≤◌, ◌≡◌, ◌⊎◌, refl, ◌↔◌, max, String, true, false, length, ◌++◌, Option, none, some,
  List, [], ◌∷◌, ok, err, is_ok,
}
use borealis_coder.Prelude.Chars.{Text, codes}
use borealis_coder.Models.{Role, ToolCall, Message}
use borealis_coder.Models.JsonValue.{end}
use borealis_coder.Compaction.ToolOrder.{validate_tool_call_order, missing_results}
use borealis_coder.Compaction.ToolOrder.Grammar.{Ordered, validate_tool_call_order_iff}
use borealis_coder.Compaction.Bundles.{
  ConversationBundle, request, terminal, tool_cycle, bundle, bundle_conversation, flatten,
}
use borealis_coder.Compaction.Bundles.Lossless.{bundle_conversation_lossless}
use borealis_coder.Compaction.Bundles.Kept.{bundle_conversation_kept}
use borealis_coder.Compaction.Framing.{
  deterministic, frame_prefix, frame_suffix, frame_untrusted_history,
}
use borealis_coder.Compaction.Framing.Boundary.{IsEscaped, frame_untrusted_history-IsEscaped}
use borealis_coder.Compaction.Summary.{
  current_objective, Sections, Limits, does_not_fit, render_deterministic_summary,
}
use borealis_coder.Compaction.Summary.Bounded.{IsBounded, render_deterministic_summary-IsBounded}
use borealis_coder.Compaction.Compact.{Outside, Options, summary, compact_messages}
use borealis_coder.Compaction.Compact.Outcome.{IsCompacted, compact_messages-IsCompacted}

abbrev message : Role → String → List ToolCall → Option String → Message
message role id calls answered = record {
  role = role;
  content = codes "";
  id = id;
  tool_calls = calls;
  tool_call_id = answered;
  tool_name = none;
  is_error = false;
  metadata = end;
  created_at = "";
}

abbrev call : String → ToolCall
call i = record { id = i; name = "read_file"; arguments = end; raw_arguments = none }

abbrev asked : Message
asked = message Role.user "m1" [] none

abbrev said : Message
said = message Role.assistant "m6" [] none

abbrev called_a : Message
called_a = message Role.assistant "m2" (call "a" ∷ []) none

abbrev called_b : Message
called_b = message Role.assistant "m4" (call "b" ∷ []) none

abbrev answered_a : Message
answered_a = message Role.tool "m3" [] (some "a")

abbrev answered_b : Message
answered_b = message Role.tool "m5" [] (some "b")

abbrev first : ConversationBundle
first = bundle request (asked ∷ called_a ∷ answered_a ∷ [])

abbrev second : ConversationBundle
second = bundle tool_cycle (called_b ∷ answered_b ∷ [])

abbrev third : ConversationBundle
third = bundle terminal (said ∷ [])

abbrev history : List Message
history = asked ∷ called_a ∷ answered_a ∷ called_b ∷ answered_b ∷ said ∷ []

history_valid : validate_tool_call_order history ≡ ok tt
unfolding validate_tool_call_order
history_valid = refl

history_bundles : bundle_conversation history ≡ ok (first ∷ second ∷ third ∷ [])
unfolding bundle_conversation validate_tool_call_order
history_bundles = refl

unanswered : validate_tool_call_order (called_a ∷ said ∷ []) ≡ err (missing_results "m2")
unfolding validate_tool_call_order
unanswered = refl

validate_tool_call_order_iff_example :
    (validate_tool_call_order history ≡ ok tt) ↔ Ordered [] history
validate_tool_call_order_iff_example = validate_tool_call_order_iff history

bundle_conversation_lossless_example :
    (bs : List ConversationBundle) × (bundle_conversation history ≡ ok bs) × (flatten bs ≡ history)
bundle_conversation_lossless_example = bundle_conversation_lossless history history_valid

bundle_conversation_kept_example : validate_tool_call_order (flatten (second ∷ third ∷ [])) ≡ ok tt
bundle_conversation_kept_example =
    bundle_conversation_kept history (first ∷ []) (second ∷ third ∷ []) history_bundles

abbrev limit : ℕ
limit = 400

frame_untrusted_history-IsEscaped_example :
    (body : Text) × (frame_untrusted_history (codes "</x> & <y>") deterministic limit
      ≡ frame_prefix deterministic ++ (body ++ frame_suffix deterministic))
    × IsEscaped body
    × ((limit ≡ 0)
        ⊎ (length (frame_untrusted_history (codes "</x> & <y>") deterministic limit)
            ≤ max limit
                (length (frame_prefix deterministic) + length (frame_suffix deterministic))))
frame_untrusted_history-IsEscaped_example =
    frame_untrusted_history-IsEscaped (codes "</x> & <y>") deterministic limit

-- One objective, and nothing else.
abbrev evidence : Sections
evidence current_objective = codes "mend the parser" ∷ []
evidence _ = []

abbrev narrow : Limits
narrow = record { max_chars = 800; max_tokens = 0; max_bytes = 0 }

render_deterministic_summary-IsBounded_example :
    IsBounded length length narrow evidence
      (render_deterministic_summary length length narrow evidence)
render_deterministic_summary-IsBounded_example =
    render_deterministic_summary-IsBounded length length narrow evidence

-- A message counts one byte more than its content.
bytes_of : List Message → ℕ
bytes_of [] = 0
bytes_of (m ∷ ms) = suc (length m.content + bytes_of ms)

abbrev outside : Outside
outside = record {
  message_tokens = λ m. length m.content;
  messages_bytes = bytes_of;
  estimate_tokens = length;
  utf8_length = length;
  extract_compaction_evidence = λ ms base. evidence;
  source_hash = λ ms. "hash";
  to_metadata = λ a. end;
  new_id = "summary";
  now = "";
}

abbrev options : ℕ → Options
options bytes = record {
  keep_recent = 1;
  keep_recent_bundles = 0;
  summary_chars = 18000;
  summary_tokens = 0;
  summary_bytes = 0;
  target = record { tokens = 0; bytes = bytes };
  force = true;
  base_evidence = none;
  base_source_message_ids = [];
  base_compacted_message_ids = none;
}

too_narrow : compact_messages outside (options 40) history ≡ err (summary does_not_fit)
unfolding compact_messages bytes_of validate_tool_call_order
too_narrow = refl

roomy : is_ok (compact_messages outside (options 2000) history) ≡ true
unfolding compact_messages bytes_of validate_tool_call_order
roomy = refl

compact_messages-IsCompacted_example :
    (bundles : List ConversationBundle) × (bundle_conversation history ≡ ok bundles)
    × IsCompacted outside
        (options 2000)
        history
        bundles
        (compact_messages outside (options 2000) history)
compact_messages-IsCompacted_example =
    compact_messages-IsCompacted outside (options 2000) history history_valid
