-- ===== src/Compaction/Transcript.antt =====
-- agent/compaction.py: the transcript of the older messages, and the removal of repeated lines.
use borealis_coder.Prelude.{
  String, not, ◌||◌, Option, none, some, List, [], ◌∷◌, ◌++◌, map, concat, str_eq, if◌then◌else◌,
}
use borealis_coder.Prelude.Chars.{Text, codes, strip, rstrip_by, is_line_end, elem_text}
use borealis_coder.Models.{Role, Message}
use borealis_coder.Patch.Lines.{splitlines}
use borealis_coder.Compaction.ToolOrder.{nonempty}
use borealis_coder.Compaction.Summary.{joined_by}
use borealis_coder.Truncation.{truncate_text}

-- `_dedupe`; `seen` has the items that were put out before.
unfoldable pub dedupe_from : List Text → List Text → List Text
unfolding strip elem_text
dedupe_from seen [] = []
dedupe_from seen (item ∷ items) =
    let normalized = strip item in
    let skipped = dedupe_from seen items in
    let kept = normalized ∷ dedupe_from (normalized ∷ seen) items in
    if not (nonempty normalized) || elem_text normalized seen then skipped else kept

unfoldable pub dedupe : List Text → List Text
unfolding dedupe_from
dedupe = dedupe_from []

-- `message.tool_name or message.tool_call_id` in an f-string
abbrev or_none : Option String → Text
or_none none = codes "None"
or_none (some i) = codes i

abbrev result_label : Message → Text
result_label m = elim m.tool_name [
  | none ↦ or_none m.tool_call_id
  | some n ↦ if str_eq n "" then or_none m.tool_call_id else codes n
]

-- The lines of one message.
unfoldable pub transcript_entries : Message → List Text
unfolding truncate_text strip joined_by
transcript_entries m = elim m.role [
  | Role.system ↦ []
  | Role.user ↦
      (codes "UNTRUSTED USER HISTORY QUOTE: " ++ truncate_text (strip m.content) 1200) ∷ []
  | Role.assistant ↦
      (if nonempty (strip m.content)
        then (codes "UNTRUSTED ASSISTANT HISTORY QUOTE: " ++ truncate_text (strip m.content) 1000)
          ∷ []
        else [])
      ++ (if nonempty m.tool_calls
          then (codes "UNTRUSTED TOOL CALL HISTORY QUOTE: "
              ++ joined_by (codes ", ") (map (λ c. codes c.name) m.tool_calls))
            ∷ []
          else [])
  | Role.tool ↦
      (codes "UNTRUSTED TOOL RESULT HISTORY QUOTE "
        ++ (result_label m
            ++ (codes " ["
                ++ ((if m.is_error then codes "ERROR" else codes "OK")
                    ++ (codes "]: " ++ truncate_text (strip m.content) 4000)))))
      ∷ []
]

unfoldable pub render_transcript : List Message → Text
unfolding transcript_entries joined_by
render_transcript ms = joined_by (codes "\n") (concat (map transcript_entries ms))

-- text.splitlines(): a line end stands only at the end of a line.
unfoldable pub lines : Text → List Text
unfolding splitlines rstrip_by is_line_end
lines text = map (rstrip_by is_line_end) (splitlines text)
