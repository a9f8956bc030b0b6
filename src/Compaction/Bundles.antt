-- ===== src/Compaction/Bundles.antt =====
-- `bundle_conversation` of agent/compaction.py.
pub mod Lossless
pub mod Kept
use text.Mathlib.Text.{starts_with}
use borealis_coder.Prelude.{
  ℕ, zero, suc, String, Bool, true, false, not, ◌&&◌, Option, none, some, List, [], ◌∷◌, ◌++◌, map,
  concat, length, Result, ok, err, ◌>>=◌, ◌>>◌, if◌then◌else◌,
}
use borealis_coder.Models.{Role, role_eq, Message}
use borealis_coder.Models.JsonValue.{Json, Fields, str, get, has_truthy}
use borealis_coder.Compaction.ToolOrder.{
  OrderError, out_of_fuel, is_result, has_calls, validate_tool_call_order,
}

pub data BundleKind : Type 0 where
  request steering verification tool_cycle terminal system : BundleKind

pub record ConversationBundle : Type 0 where
  pub kind : BundleKind
  pub messages : List Message

abbrev pub bundle : BundleKind → List Message → ConversationBundle
bundle k ms = record { kind = k; messages = ms }

-- `str(metadata.get("internal") or "").startswith("verification_")`. What `str` prints of a value
-- that is no string begins otherwise.
pub is_verification : Fields → Bool
unfolding get
is_verification d = elim (get "internal" d) [
  | some (str s) ↦ starts_with s "verification_"
  | _ ↦ false
]

pub user_kind : Message → BundleKind
unfolding has_truthy is_verification
user_kind m =
    if has_truthy "steering" m.metadata
    then steering
    else if is_verification m.metadata
    then verification
    else request

-- The results that stand in front, and the rest: the inner loops.
pub split_results : List Message → List Message × List Message
split_results [] = ([], [])
split_results (m ∷ ms) =
    let (results, rest) = split_results ms in
    if is_result m then (m ∷ results, rest) else ([], m ∷ ms)

-- The cycle that a request takes in: the call message right behind it, if there is one, with its
-- results.
pub request_cycle : Message → List Message → List Message × List Message
unfolding split_results
request_cycle m [] = (m ∷ [], [])
request_cycle m (a ∷ ms) =
    let (results, rest) = split_results ms in
    if has_calls a then (m ∷ a ∷ results, rest) else (m ∷ [], a ∷ ms)

-- One bundle off the front.
pub next_bundle : Message → List Message → ConversationBundle × List Message
unfolding user_kind request_cycle split_results
next_bundle m ms =
    if role_eq m.role Role.system
    then (bundle system (m ∷ []), ms)
    else if role_eq m.role Role.user
    then (elim (user_kind m) [
      | request ↦ let (cycle, rest) = request_cycle m ms in (bundle request cycle, rest)
      | kind ↦ (bundle kind (m ∷ []), ms)
    ])
    else if has_calls m
    then (let (results, rest) = split_results ms in (bundle tool_cycle (m ∷ results), rest))
    else (bundle terminal (m ∷ []), ms)

-- Each round takes one message at least, so the length of the history is enough fuel.
pub bundles_from : ℕ → List Message → Result OrderError (List ConversationBundle)
unfolding next_bundle
bundles_from zero ms = err out_of_fuel
bundles_from (suc fuel) [] = ok []
bundles_from (suc fuel) (m ∷ ms) =
    let (b, rest) = next_bundle m ms in do bs ← bundles_from fuel rest; ok (b ∷ bs)

unfoldable pub bundle_conversation : List Message → Result OrderError (List ConversationBundle)
unfolding bundles_from
bundle_conversation ms = do validate_tool_call_order ms; bundles_from (suc (length ms)) ms

-- The messages of some bundles, in order.
abbrev pub flatten : List ConversationBundle → List Message
flatten bs = concat (map (λ b. b.messages) bs)
