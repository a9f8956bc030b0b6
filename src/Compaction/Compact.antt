-- ===== src/Compaction/Compact.antt =====
-- `compact_messages` of agent/compaction.py. What it takes of the rest of the program is a record of
-- parameters: the estimates of tokens and bytes, the extraction of evidence, the hash of the source,
-- and the JSON object of an artifact's metadata. The id and the time of the summary's message stand
-- for the fresh ones.
pub mod Unlimited
pub mod Outcome
use borealis_coder.Prelude.{
  ℕ, zero, suc, ◌+◌, ◌-◌, ◌*◌, ◌/◌, min, max, String, Bool, true, false, not, ◌&&◌, ◌||◌, Option,
  none, some, List, [], ◌∷◌, ◌++◌, ◌==◌, leb, ltb, length, take, drop, map, elem, str_eq, Result,
  ok, err, ◌>>=◌, ◌>>◌, if◌then◌else◌,
}
use borealis_coder.Prelude.Chars.{Text}
use borealis_coder.Models.{Role, Message}
use borealis_coder.Models.JsonValue.{Fields, end}
use borealis_coder.Compaction.ToolOrder.{OrderError, nonempty}
use borealis_coder.Compaction.Bundles.{ConversationBundle, bundle_conversation, flatten}
use borealis_coder.Compaction.Fit.{
  Target, messages_tokens, messages_fit, shrink_diagnostic_messages,
}
use borealis_coder.Compaction.Summary.{
  Heading, historical_excerpts, Sections, set_section, Limits, SummaryError, does_not_fit,
  out_of_fuel, render_deterministic_summary,
}
use borealis_coder.Compaction.Transcript.{dedupe, lines, render_transcript}

-- The metadata of a deterministic summary.
pub record Artifact : Type 0 where
  pub source_messages : ℕ
  pub compacted_messages : ℕ
  pub source_message_ids : List String
  pub compacted_message_ids : List String
  pub source_hash : String
  pub source_bundles : ℕ
  pub compacted_bundles : ℕ
  pub retained_bundles : ℕ
  pub evidence : Sections
  pub authoritative_evidence : Sections

pub record Outside : Type 0 where
  pub message_tokens : Message → ℕ
  pub messages_bytes : List Message → ℕ
  pub estimate_tokens : Text → ℕ
  pub utf8_length : Text → ℕ
  pub extract_compaction_evidence : List Message → Option Sections → Sections
  pub source_hash : List Message → String
  pub to_metadata : Artifact → Fields
  pub new_id : String
  pub now : String

-- The arguments. A limit of 0 asks for nothing, and so does `None` in the source.
pub record Options : Type 0 where
  pub keep_recent : ℕ
  pub keep_recent_bundles : ℕ
  pub summary_chars : ℕ
  pub summary_tokens : ℕ
  pub summary_bytes : ℕ
  pub target : Target
  pub force : Bool
  pub base_evidence : Option Sections
  pub base_source_message_ids : List String
  pub base_compacted_message_ids : Option (List String)

pub data CompactionError : Type 0 where
  order : OrderError → CompactionError
  summary : SummaryError → CompactionError
  byte_target target_missed : CompactionError

-- max(1, int(n * 0.6)) if n else 0; below 2 ** 50 the product of the floats rounds to the same.
abbrev pub six_tenths : ℕ → ℕ
six_tenths n = if n == 0 then 0 else max 1 (n * 3 / 5)

abbrev pub share : Target → Target
share t = record { tokens = six_tenths t.tokens; bytes = six_tenths t.bytes }

-- The smaller of the two, where the first is a limit.
abbrev pub capped : ℕ → ℕ → ℕ
capped limit n = if limit == 0 then n else min limit n

abbrev pub ids_eq : List String → List String → Bool
ids_eq [] [] = true
ids_eq [] (j ∷ js) = false
ids_eq (i ∷ is) [] = false
ids_eq (i ∷ is) (j ∷ js) = str_eq i j && ids_eq is js

-- [message for message in messages if message.id not in ids]
unfoldable pub not_among : List String → List Message → List Message
not_among ids [] = []
not_among ids (m ∷ ms) = let rest = not_among ids ms in if elem m.id ids then rest else m ∷ rest

module _ (outside : Outside) where
  abbrev pub system_message : Text → Fields → Message
  system_message content metadata = record {
    role = Role.system;
    content = content;
    id = outside.new_id;
    tool_calls = [];
    tool_call_id = none;
    tool_name = none;
    is_error = false;
    metadata = metadata;
    created_at = outside.now;
  }

  module _ (options : Options) where
    abbrev pub fits : List Message → Bool
    fits ms = messages_fit outside.message_tokens outside.messages_bytes ms options.target

    -- The messages of the last bundles; a single bundle is shrunk where there is a target.
    unfoldable pub recent_messages : ℕ → List ConversationBundle → List Message
    unfolding shrink_diagnostic_messages
    recent_messages n bundles =
        let kept = flatten (drop (length bundles - n) bundles) in
        if (ltb 0 options.target.tokens || ltb 0 options.target.bytes) && n == 1
        then shrink_diagnostic_messages outside.message_tokens outside.messages_bytes kept
            (share options.target)
        else kept

    unfoldable pub fresh_evidence : List Message → List Message → Sections
    unfolding render_transcript lines
    fresh_evidence messages older =
        set_section historical_excerpts (lines (render_transcript older))
          (outside.extract_compaction_evidence messages none)

    unfoldable pub further_evidence : Sections → List Message → List Message → Sections
    unfolding render_transcript lines dedupe not_among
    further_evidence base messages older =
        let base_ids = options.base_source_message_ids in
        let compacted : List String = elim options.base_compacted_message_ids [
          | none ↦ base_ids
          | some ids ↦ ids
        ] in
        set_section historical_excerpts
          (dedupe
            (base historical_excerpts ++ lines (render_transcript (not_among compacted older))))
          (outside.extract_compaction_evidence (drop (length base_ids) messages) (some base))

    unfoldable pub evidence_for : List Message → List Message → Sections
    unfolding fresh_evidence further_evidence
    evidence_for messages older =
        let base_ids = options.base_source_message_ids in
        elim options.base_evidence [
          | none ↦ fresh_evidence messages older
          | some base ↦
              if nonempty base_ids
                && ids_eq (take (length base_ids) (map (λ m. m.id) messages)) base_ids
              then further_evidence base messages older
              else fresh_evidence messages older
        ]

    unfoldable pub available_summary_tokens : List Message → ℕ
    unfolding messages_tokens
    available_summary_tokens recent =
        let left = max 1 (
          options.target.tokens
          - messages_tokens outside.message_tokens outside.messages_bytes recent
          - 12) in
        if options.target.tokens == 0
        then options.summary_tokens
        else capped options.summary_tokens left

    unfoldable pub available_summary_bytes : List Message → ℕ
    available_summary_bytes recent =
        let left =
          max 1 (options.target.bytes - outside.messages_bytes (system_message [] end ∷ recent)) in
        if options.target.bytes == 0
        then options.summary_bytes
        else capped options.summary_bytes left

    abbrev pub render : Sections → ℕ → ℕ → Result SummaryError (Text × Sections)
    render evidence tokens bytes =
        render_deterministic_summary outside.estimate_tokens outside.utf8_length
          record { max_chars = options.summary_chars; max_tokens = tokens; max_bytes = bytes }
          evidence

    -- The limit of the next round over the bytes, or 0.
    unfoldable pub next_limit : Text → ℕ → ℕ → ℕ
    next_limit text candidate available =
        let left = outside.utf8_length text - max 1 (candidate - options.target.bytes) in
        if available == 0 then left else min left (available - 1)

    -- The loop that gives the summary fewer bytes until the whole request keeps to the target. A
    -- round lowers the limit, so the first limit is enough fuel.
    unfoldable pub summary_in_bytes :
        ℕ → List Message → Sections → ℕ → ℕ → Result CompactionError (Text × Sections)
    unfolding render_deterministic_summary next_limit
    summary_in_bytes zero recent evidence tokens available = err (summary out_of_fuel)
    summary_in_bytes (suc fuel) recent evidence tokens available =
        elim (render evidence tokens available) [
          | err e ↦ err (summary e)
          | ok (text, bounded) ↦
              let candidate = outside.messages_bytes (system_message text end ∷ recent) in
              elim (options.target.bytes == 0 || leb candidate options.target.bytes) [
                | true ↦ ok (text, bounded)
                | false ↦ elim (next_limit text candidate available) [
                  | zero ↦ err byte_target
                  | suc n ↦ summary_in_bytes fuel recent evidence tokens (suc n)
                ]
              ]
        ]

    unfoldable pub artifact :
        List Message → List ConversationBundle → ℕ → Sections → Sections → Artifact
    artifact messages bundles n evidence bounded =
        let older_bundles = take (length bundles - n) bundles in
        let older = flatten older_bundles in
        record {
          source_messages = length messages;
          compacted_messages = length older;
          source_message_ids = map (λ m. m.id) messages;
          compacted_message_ids = map (λ m. m.id) older;
          source_hash = outside.source_hash messages;
          source_bundles = length bundles;
          compacted_bundles = length older_bundles;
          retained_bundles = length (drop (length bundles - n) bundles);
          evidence = bounded;
          authoritative_evidence =
              set_section historical_excerpts (bounded historical_excerpts) evidence;
        }

    -- One round of the loop over `retained_count`, up to the last test.
    unfoldable pub compact_with :
        List Message → List ConversationBundle → ℕ → Result CompactionError (List Message)
    unfolding recent_messages evidence_for available_summary_tokens available_summary_bytes
        summary_in_bytes artifact
    compact_with messages bundles n =
        let recent = recent_messages n bundles in
        let evidence = evidence_for messages (flatten (take (length bundles - n) bundles)) in
        let bytes = available_summary_bytes recent in
        do
          (text, bounded) ←
              summary_in_bytes (suc bytes) recent evidence (available_summary_tokens recent) bytes
          ok (
              system_message text
                (outside.to_metadata (artifact messages bundles n evidence bounded))
              ∷ recent)

    -- The loop over `retained_count`, with the last error.
    unfoldable pub compact_rounds :
        List Message
        → List ConversationBundle
        → ℕ
        → Option CompactionError
        → Result CompactionError (List Message)
    unfolding compact_with messages_fit
    compact_rounds messages bundles zero last = elim last [
      | none ↦ err target_missed
      | some e ↦ err e
    ]
    compact_rounds messages bundles (suc n) last = elim (compact_with messages bundles (suc n)) [
      | err e ↦ compact_rounds messages bundles n (some e)
      | ok result ↦ elim (fits result) [
        | true ↦ ok result
        | false ↦ compact_rounds messages bundles n last
      ]
    ]

    unfoldable pub compact_bundles :
        List Message → List ConversationBundle → Result CompactionError (List Message)
    unfolding compact_rounds messages_fit
    compact_bundles messages bundles =
        let retained =
          if options.keep_recent_bundles == 0
          then max 1 options.keep_recent
          else options.keep_recent_bundles in
        if not options.force && (leb (length bundles) (retained + 1) && fits messages)
        then ok messages
        else compact_rounds messages bundles (min retained (max 1 (length bundles - 1))) none

    unfoldable pub compact_messages : List Message → Result CompactionError (List Message)
    unfolding bundle_conversation compact_bundles
    compact_messages messages = elim (bundle_conversation messages) [
      | err e ↦ err (order e)
      | ok bundles ↦ compact_bundles messages bundles
    ]
