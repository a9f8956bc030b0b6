-- ===== src/Compaction/Fit.antt =====
-- agent/compaction.py: the fit of messages to a target, and the shrinking of tool diagnostics. A
-- target of 0 asks for nothing. The estimate of a message's tokens and the bytes of a request stand
-- for JSON and float arithmetic and are parameters.
pub mod Shape
use borealis_coder.Prelude.{
  ℕ, ◌+◌, Bool, not, ◌||◌, ◌&&◌, Option, none, some, List, [], ◌∷◌, ◌==◌, leb, map, length, str_eq,
  String, if◌then◌else◌,
}
use borealis_coder.Models.{Role, Message}
use borealis_coder.Models.JsonValue.{Json, str, Fields, end, field}
use borealis_coder.Compaction.ToolOrder.{is_result}
use borealis_coder.Truncation.{diagnostic_tail}

-- {**d, key: value}
abbrev pub with_key : String → Json → Fields → Fields
with_key k v end = field k v end
with_key k v (field j w d) = if str_eq j k then field j v d else field j w (with_key k v d)

pub record Target : Type 0 where
  pub tokens : ℕ
  pub bytes : ℕ

-- `replace(message, …)` of a result that is longer than the limit
unfoldable pub shrink_message : ℕ → Message → Message
unfolding diagnostic_tail
shrink_message limit m = if not (is_result m) || leb (length m.content) limit then m else record m {
  content = diagnostic_tail m.content limit;
  metadata = with_key "provider_compacted" (str "diagnostic_tail") m.metadata;
}

abbrev pub limits : List ℕ
limits = 4000 ∷ 2000 ∷ 1000 ∷ 500 ∷ 200 ∷ []

module _ (message_tokens : Message → ℕ) (messages_bytes : List Message → ℕ) where
  unfoldable pub messages_tokens : List Message → ℕ
  messages_tokens [] = 0
  messages_tokens (m ∷ ms) = message_tokens m + messages_tokens ms

  unfoldable pub messages_fit : List Message → Target → Bool
  unfolding messages_tokens
  messages_fit ms target =
      (target.tokens == 0 || leb (messages_tokens ms) target.tokens)
      && (target.bytes == 0 || leb (messages_bytes ms) target.bytes)

  -- The rounds over the limits, which end where the messages fit.
  unfoldable pub shrink_rounds : List ℕ → List Message → Target → List Message
  unfolding messages_fit shrink_message
  shrink_rounds [] ms target = ms
  shrink_rounds (limit ∷ rest) ms target =
      let shrunk = shrink_rounds rest (map (shrink_message limit) ms) target in
      if messages_fit ms target then ms else shrunk

  unfoldable pub shrink_diagnostic_messages : List Message → Target → List Message
  unfolding shrink_rounds
  shrink_diagnostic_messages = shrink_rounds limits
