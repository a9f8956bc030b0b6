-- ===== src/Compaction/Bundles/Kept.antt =====
-- Bundles are the units that compaction drops: what is kept behind a cut between two bundles is
-- again a history that the validation accepts.
use borealis_coder.Prelude.{
  ℕ, zero, suc, ◌<◌, String, ◌≡◌, refl, true, false, ◌⊎◌, List, [], ◌∷◌, ◌++◌, elem, elem-append,
  disjoint, length, ok, >>=-eq-ok, arith, All, Bool-cases, inl, inr,
}
use borealis_coder.Models.{Message}
use borealis_coder.Compaction.ToolOrder.{is_result, has_calls, call_ids, validate_tool_call_order}
use borealis_coder.Compaction.ToolOrder.Grammar.{
  Ordered, done, plain, cycle, Ordered-head, validate_tool_call_order_iff,
}
use borealis_coder.Compaction.Bundles.{
  ConversationBundle, split_results, request_cycle, next_bundle, bundles_from, bundle_conversation,
  flatten,
}
use borealis_coder.Compaction.Bundles.Lossless.{bundles_from-total, length-next_bundle}

-- Fewer known ids refuse less.
disjoint_weaken :
    (xs known fewer : List String)
    → ((i : String) → elem i fewer ≡ true → elem i known ≡ true)
    → disjoint xs known ≡ true
    → disjoint xs fewer ≡ true
disjoint_weaken [] known fewer sub h = refl
disjoint_weaken (x ∷ xs) known fewer sub h =
    ground (arith, sub x, disjoint_weaken xs known fewer sub)

Ordered-weaken :
    {known : List String} {ms : List Message} (fewer : List String)
    → ((i : String) → elem i fewer ≡ true → elem i known ≡ true)
    → Ordered known ms
    → Ordered fewer ms
Ordered-weaken fewer sub done = done
Ordered-weaken fewer sub (plain other quiet o) = plain other quiet (Ordered-weaken fewer sub o)
Ordered-weaken fewer sub (cycle {known = known} {m = m} rs rest c fresh split o) =
    cycle rs rest c (disjoint_weaken (call_ids m) known fewer sub fresh) split (
      Ordered-weaken (call_ids m ++ fewer)
        (λ i h.
          ground (arith, elem-append i (call_ids m) fewer, elem-append i (call_ids m) known, sub i))
        o)

Ordered-forget : {known : List String} {ms : List Message} → Ordered known ms → Ordered [] ms
Ordered-forget o = Ordered-weaken [] (λ i h. cc) o

split_results-stop :
    (rs rest : List Message)
    → ((r : Message) (more : List Message) → rest ≡ r ∷ more → is_result r ≡ false)
    → All (λ r. is_result r ≡ true) rs
    → split_results (rs ++ rest) ≡ (rs, rest)
unfolding split_results
split_results-stop [] [] stop tool = refl
split_results-stop [] (r ∷ rest) stop tool = ground (arith, stop r rest refl)
split_results-stop (r ∷ rs) rest stop tool = ground (arith, split_results-stop rs rest stop tool.1)

-- Behind a call message and its results the history goes on in order.
Ordered-split_results :
    {known : List String} {a : Message} {ms : List Message}
    → Ordered known (a ∷ ms)
    → has_calls a ≡ true
    → Ordered [] (split_results ms).1
Ordered-split_results (plain other quiet o) called = cc
Ordered-split_results (cycle rs rest c fresh split o) called =
    rw (split, split_results-stop rs rest (λ r more e. Ordered-head (rw e at o)) c.results)
      (Ordered-forget o)

Ordered-tail :
    {known : List String} {m : Message} {ms : List Message}
    → Ordered known (m ∷ ms)
    → has_calls m ≡ false
    → Ordered [] ms
Ordered-tail (plain other quiet o) none_called = Ordered-forget o
Ordered-tail (cycle rs rest c fresh split o) none_called = cc (c.calls)

Ordered-request_cycle :
    (m : Message) (ms : List Message) → Ordered [] ms → Ordered [] (request_cycle m ms).1
unfolding request_cycle
Ordered-request_cycle m [] o = done
Ordered-request_cycle m (a ∷ ms) o = elim (Bool-cases (has_calls a)) [
  | inl called ↦ rw called (Ordered-split_results o called)
  | inr none_called ↦ rw none_called o
]

-- Where the next bundle ends.
next_bundle-rest :
    (m : Message) (ms : List Message)
    → (has_calls m ≡ false) × ((next_bundle m ms).1 ≡ ms)
      ⊎ (has_calls m ≡ false) × ((next_bundle m ms).1 ≡ (request_cycle m ms).1)
      ⊎ (has_calls m ≡ true) × ((next_bundle m ms).1 ≡ (split_results ms).1)
unfolding next_bundle
next_bundle-rest m ms = ground arith

Ordered-next_bundle :
    {known : List String} (m : Message) (ms : List Message)
    → Ordered known (m ∷ ms)
    → Ordered [] (next_bundle m ms).1
Ordered-next_bundle m ms o = elim (next_bundle-rest m ms) [
  | inl (quiet, e) ↦ rw e (Ordered-tail o quiet)
  | inr (inl (quiet, e)) ↦ rw e (Ordered-request_cycle m ms (Ordered-tail o quiet))
  | inr (inr (called, e)) ↦ rw e (Ordered-split_results o called)
]

bundles_from-inv :
    (fuel : ℕ) (m : Message) (ms : List Message) {b : ConversationBundle}
    {bs : List ConversationBundle}
    → bundles_from (suc fuel) (m ∷ ms) ≡ ok (b ∷ bs)
    → bundles_from fuel (next_bundle m ms).1 ≡ ok bs
unfolding bundles_from
bundles_from-inv fuel m ms h =
    let (more, run, same) = >>=-eq-ok (bundles_from fuel (next_bundle m ms).1) _ h in cc

bundles_from-same :
    (fuel : ℕ) (ms : List Message) {bs : List ConversationBundle}
    → length ms < fuel
    → bundles_from fuel ms ≡ ok bs
    → flatten bs ≡ ms
bundles_from-same fuel ms h run = let (more, run', same) = bundles_from-total fuel ms h in cc

bundles_from-kept :
    (fuel : ℕ) (ms : List Message) (old kept : List ConversationBundle)
    → length ms < fuel
    → bundles_from fuel ms ≡ ok (old ++ kept)
    → Ordered [] ms
    → Ordered [] (flatten kept)
unfolding bundles_from
bundles_from-kept zero ms old kept h run o = absurd (omega arith)
bundles_from-kept (suc fuel) ms [] kept h run o = rw (bundles_from-same (suc fuel) ms h run) o
bundles_from-kept (suc fuel) [] (b ∷ old) kept h run o = cc
bundles_from-kept (suc fuel) (m ∷ ms) (b ∷ old) kept h run o =
    bundles_from-kept fuel (next_bundle m ms).1 old kept (omega (arith, length-next_bundle m ms))
      (bundles_from-inv fuel m ms run) (Ordered-next_bundle m ms o)

-- When the oldest bundles of a history are dropped, the messages of the bundles that are kept pass
-- the validation again: a cut between bundles never parts a tool call from its results.
pub bundle_conversation_kept :
    (ms : List Message) (old kept : List ConversationBundle)
    → bundle_conversation ms ≡ ok (old ++ kept)
    → validate_tool_call_order (flatten kept) ≡ ok tt
unfolding bundle_conversation
bundle_conversation_kept ms old kept h =
    let (u, valid, run) = >>=-eq-ok (validate_tool_call_order ms) _ h in
    (validate_tool_call_order_iff (flatten kept)).1 (
      bundles_from-kept (suc (length ms)) ms old kept (omega arith) run
        ((validate_tool_call_order_iff ms).0 (cc)))
