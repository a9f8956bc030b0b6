-- ===== src/Compaction/Bundles/Lossless.antt =====
-- `bundle_conversation` returns a result on every accepted history, and loses or reorders nothing.
use borealis_coder.Prelude.{
  ℕ, zero, suc, ◌≤◌, ◌<◌, ◌≡◌, refl, ap, ◌∙◌, List, [], ◌∷◌, ◌++◌, length, ok, arith,
}
use borealis_coder.Models.{Message}
use borealis_coder.Compaction.ToolOrder.{validate_tool_call_order}
use borealis_coder.Compaction.Bundles.{
  ConversationBundle, split_results, request_cycle, next_bundle, bundles_from, bundle_conversation,
  flatten,
}

split_results-append : (ms : List Message) → (split_results ms).0 ++ (split_results ms).1 ≡ ms
unfolding split_results
split_results-append [] = refl
split_results-append (m ∷ ms) = ground (arith, split_results-append ms)

length-split_results : (ms : List Message) → length (split_results ms).1 ≤ length ms
unfolding split_results
length-split_results [] = omega arith
length-split_results (m ∷ ms) = ground (arith, length-split_results ms)

request_cycle-append :
    (m : Message) (ms : List Message) → (request_cycle m ms).0 ++ (request_cycle m ms).1 ≡ m ∷ ms
unfolding request_cycle
request_cycle-append m [] = refl
request_cycle-append m (a ∷ ms) = ground (arith, split_results-append ms)

length-request_cycle : (m : Message) (ms : List Message) → length (request_cycle m ms).1 ≤ length ms
unfolding request_cycle
length-request_cycle m [] = omega arith
length-request_cycle m (a ∷ ms) = ground (arith, length-split_results ms)

pub next_bundle-append :
    (m : Message) (ms : List Message)
    → (next_bundle m ms).0.messages ++ (next_bundle m ms).1 ≡ m ∷ ms
unfolding next_bundle
next_bundle-append m ms = ground (arith, request_cycle-append m ms, split_results-append ms)

pub length-next_bundle : (m : Message) (ms : List Message) → length (next_bundle m ms).1 ≤ length ms
unfolding next_bundle
length-next_bundle m ms = ground (arith, length-request_cycle m ms, length-split_results ms)

-- Enough fuel gives the bundles, and together they are the history.
pub bundles_from-total :
    (fuel : ℕ) (ms : List Message)
    → length ms < fuel
    → (bs : List ConversationBundle) × (bundles_from fuel ms ≡ ok bs) × (flatten bs ≡ ms)
unfolding bundles_from
bundles_from-total zero ms h = absurd (omega arith)
bundles_from-total (suc fuel) [] h = ([], refl, refl)
bundles_from-total (suc fuel) (m ∷ ms) h =
    let (bs, run, same) =
      bundles_from-total fuel (next_bundle m ms).1 (omega (arith, length-next_bundle m ms)) in
    (
      (next_bundle m ms).0 ∷ bs,
      rw run refl,
      ap (λ l. (next_bundle m ms).0.messages ++ l) same ∙ next_bundle-append m ms,
    )

-- On every history that passes the validation, bundling returns, and the bundles put behind one
-- another are the history: no message is lost, repeated or moved.
pub bundle_conversation_lossless :
    (ms : List Message)
    → validate_tool_call_order ms ≡ ok tt
    → (bs : List ConversationBundle) × (bundle_conversation ms ≡ ok bs) × (flatten bs ≡ ms)
unfolding bundle_conversation
bundle_conversation_lossless ms h =
    let (bs, run, same) = bundles_from-total (suc (length ms)) ms (omega arith) in
    (bs, rw (h, run) refl, same)
