-- ===== src/Runner/Targets.antt =====
-- agent/runner.py: the loop that compacts again under a tighter target, until the request fits the
-- budget that is left beside the messages retained. It is the compaction of version 2, without a
-- summarizer. The estimates of a request, the budget and the equality of messages are parameters; a
-- budget below zero is zero.
pub mod Adjusted
use borealis_coder.Prelude.{
  ℕ, zero, suc, ◌+◌, ◌-◌, min, Bool, true, false, not, ◌&&◌, Option, none, some, List, [], ◌∷◌,
  ◌==◌, leb, ltb, length, Result, ok, err, ◌>>=◌, if◌then◌else◌,
}
use borealis_coder.Models.{Message}
use borealis_coder.Compaction.Fit.{Target}
use borealis_coder.Compaction.Compact.{Outside, Options, CompactionError, compact_messages}

-- The reasons of CompactionSizeError, with the errors of the compaction.
pub data TargetError : Type 0 where
  no_bytes no_tokens not_shrunk not_converged no_artifact rounds_ended : TargetError
  compaction : CompactionError → TargetError

-- What a turn of the agent compacts with.
pub record Turn : Type 0 where
  pub request_messages : List Message
  pub is_request : List Message → Bool
  pub request_tokens : Message → List Message → ℕ
  pub request_bytes : Message → List Message → ℕ
  pub retained_budget : List Message → Target
  pub outside : Outside
  pub options : Options

abbrev pub tokens_fit : Turn → Message → List Message → Bool
tokens_fit turn artifact retained =
    leb (turn.request_tokens artifact retained) (turn.retained_budget retained).tokens

abbrev pub bytes_fit : Turn → Message → List Message → Bool
bytes_fit turn artifact retained =
    leb (turn.request_bytes artifact retained) (turn.retained_budget retained).bytes

abbrev pub tighter_tokens : Turn → Target → Message → List Message → ℕ
tighter_tokens turn target artifact retained =
    if tokens_fit turn artifact retained
    then target.tokens
    else min (target.tokens - 1) (turn.retained_budget retained).tokens

abbrev pub tighter_bytes : Turn → Target → Message → List Message → ℕ
tighter_bytes turn target artifact retained =
    if bytes_fit turn artifact retained
    then target.bytes
    else min (target.bytes - 1) (
        target.bytes
        - (turn.request_bytes artifact retained - (turn.retained_budget retained).bytes))

unfoldable pub next_compaction_targets :
    Turn → Target → Message → List Message → Result TargetError (Option Target)
next_compaction_targets turn target artifact retained =
    let tokens = tighter_tokens turn target artifact retained in
    let bytes = tighter_bytes turn target artifact retained in
    if tokens_fit turn artifact retained && bytes_fit turn artifact retained
    then ok none
    else if bytes == 0
    then err no_bytes
    else if tokens == 0
    then err no_tokens
    else if tokens == target.tokens && bytes == target.bytes
    then err not_shrunk
    else ok (some (record { tokens = tokens; bytes = bytes }))

-- `compaction_kwargs` with the target
abbrev pub at_target : Options → Target → Options
at_target options target = record options {
  summary_tokens = target.tokens;
  summary_bytes = target.bytes;
  target = target;
}

-- A compaction whose error is one of the loop's.
unfoldable pub compacted : Turn → Target → Result TargetError (List Message)
unfolding compact_messages
compacted turn target =
    elim (compact_messages turn.outside (at_target turn.options target) turn.request_messages) [
      | err e ↦ err (compaction e)
      | ok ms ↦ ok ms
    ]

-- What the loop does with the next targets.
unfoldable pub proceed :
    Turn
    → ℕ
    → (Target → Result TargetError (List Message × Target))
    → List Message × Target
    → Result TargetError (Option Target)
    → Result TargetError (List Message × Target)
proceed turn rounds again last (err e) = err e
proceed turn rounds again last (ok none) = ok last
proceed turn rounds again last (ok (some tighter)) =
    elim (ltb (length turn.request_messages + 1) (suc rounds)) [
      | true ↦ err not_converged
      | false ↦ again tighter
    ]

-- The loop. It counts its rounds, so that two more than it allows are enough fuel.
unfoldable pub adjust :
    Turn → ℕ → ℕ → Target → List Message → Result TargetError (List Message × Target)
unfolding next_compaction_targets compacted proceed
adjust turn zero rounds target ms = err rounds_ended
adjust turn (suc fuel) rounds target [] = elim (turn.is_request []) [
  | true ↦ ok ([], target)
  | false ↦ err no_artifact
]
adjust turn (suc fuel) rounds target (artifact ∷ retained) =
    elim (turn.is_request (artifact ∷ retained)) [
      | true ↦ ok (artifact ∷ retained, target)
      | false ↦
          proceed turn rounds
            (λ tighter. compacted turn tighter >>= adjust turn fuel (suc rounds) tighter)
            (artifact ∷ retained, target) (next_compaction_targets turn target artifact retained)
    ]

unfoldable pub compact_to_budget : Turn → Target → Result TargetError (List Message × Target)
unfolding adjust compacted
compact_to_budget turn target =
    compacted turn target >>= adjust turn (length turn.request_messages + 3) 0 target
