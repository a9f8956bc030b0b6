-- ===== src/Compaction/Prune/Shape.antt =====
-- The pruned view is as ordered as the history (agent/compaction.py).
use borealis_coder.Prelude.{ℕ, suc, ◌≡◌, refl, List, [], ◌∷◌, map, if-both, ok}
use borealis_coder.Prelude.Chars.{Text}
use borealis_coder.Models.{Message}
use borealis_coder.Models.JsonValue.{Fields}
use borealis_coder.Compaction.ToolOrder.{validate_tool_call_order}
use borealis_coder.Compaction.ToolOrder.Grammar.{validate_tool_call_order_iff}
use borealis_coder.Compaction.Fit.Shape.{IsAlike, AreAlike, Ordered-alike}
use borealis_coder.Compaction.Reads.{Readers, is_read_file, with_identity}
use borealis_coder.Compaction.Prune.{
  Notes, is_pruned_read, is_repeated, prune_copy, prune_all, notes_of, pruned,
  prune_provider_messages,
}

IsAlike-changed :
    (m c : Message) (content : Text) (metadata : Fields)
    → IsAlike m c
    → IsAlike m (record c { content = content; metadata = metadata })
IsAlike-changed m c content metadata a = record {
  role = a.role;
  tool_calls = a.tool_calls;
  tool_call_id = a.tool_call_id;
  tool_name = a.tool_name;
}

with_identity-IsAlike : (readers : Readers) (m : Message) → IsAlike m (with_identity readers m)
unfolding with_identity
with_identity-IsAlike readers m =
    if-both (IsAlike m) (is_read_file m)
      (record { role = refl; tool_calls = refl; tool_call_id = refl; tool_name = refl })
      (record { role = refl; tool_calls = refl; tool_call_id = refl; tool_name = refl })

module _ (readers : Readers) (messages : List Message) (notes : Notes) where
  prune_copy-IsAlike :
      (i : ℕ) (m c : Message) → IsAlike m c → IsAlike m (prune_copy readers messages notes i c)
  unfolding prune_copy
  prune_copy-IsAlike i m c a =
      if-both (IsAlike m) (is_pruned_read readers notes i c) (IsAlike-changed m c _ _ a)
        (if-both (IsAlike m) (is_repeated readers messages notes i c) (IsAlike-changed m c _ _ a) a)

  prune_all-AreAlike :
      (i : ℕ) (ms : List Message)
      → AreAlike ms (prune_all readers messages notes i (map (with_identity readers) ms))
  unfolding prune_all
  prune_all-AreAlike i [] = tt
  prune_all-AreAlike i (m ∷ ms) = (
    prune_copy-IsAlike i m (with_identity readers m) (with_identity-IsAlike readers m),
    prune_all-AreAlike (suc i) ms,
  )

-- The pruned view of a history that passes the validation passes it too.
pub prune_provider_messages-valid :
    (readers : Readers) (messages : List Message)
    → validate_tool_call_order messages ≡ ok tt
    → validate_tool_call_order (prune_provider_messages readers messages).0 ≡ ok tt
unfolding prune_provider_messages pruned
prune_provider_messages-valid readers messages valid =
    let view = pruned readers messages in
    (validate_tool_call_order_iff view).1 (
      Ordered-alike view ((validate_tool_call_order_iff messages).0 valid)
        (prune_all-AreAlike readers messages (notes_of readers messages) 0 messages))
