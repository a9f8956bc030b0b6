-- ===== src/Compaction/Prune/Tests.antt =====
-- Runs of the pruning, and instances of its theorems.
use borealis_coder.Prelude.{
  ℕ, zero, suc, ◌-◌, ◌≡◌, ◌⊎◌, refl, ap, sym, ◌∙◌, inl, inr, String, false, Option, none, some,
  List, [], ◌∷◌, map, length, get_elem?, some_inj, ok,
}
use borealis_coder.Prelude.Chars.{Text, codes}
use borealis_coder.Models.{Role, ToolCall, Message}
use borealis_coder.Models.JsonValue.{str, end, field}
use borealis_coder.Compaction.ToolOrder.{validate_tool_call_order}
use borealis_coder.Compaction.Reads.{Readers}
use borealis_coder.Compaction.Prune.{prune_provider_messages}
use borealis_coder.Compaction.Prune.Retained.{
  HashesApart, IsStale, IsShown, prune_provider_messages-retained,
}
use borealis_coder.Compaction.Prune.Shape.{prune_provider_messages-valid}

abbrev hash : Text → String
hash [] = "none"
hash (c ∷ []) = "one"
hash (c ∷ d ∷ s) = "more"

-- Each digit of a content is the number of a line.
abbrev readers : Readers
readers = record {
  find_path = λ t. "";
  find_sha = λ t. "";
  normpath = λ p. p;
  line_numbers = map (λ c. c - 48);
  slice_identity = hash;
  print = λ v. "";
  signature = λ name arguments. name;
  estimate_tokens = length;
  message_tokens = λ m. length m.content;
}

abbrev message : Role → String → Text → List ToolCall → Option String → Option String → Message
message role id content calls answered name = record {
  role = role;
  content = content;
  id = id;
  tool_calls = calls;
  tool_call_id = answered;
  tool_name = name;
  is_error = false;
  metadata = field "path" (str "a.py") (field "sha256" (str "f") end);
  created_at = "";
}

abbrev call : String → ToolCall
call i = record { id = i; name = "read_file"; arguments = end; raw_arguments = none }

abbrev called : Message
called = message Role.assistant "m1" [] (call "a" ∷ call "b" ∷ []) none none

abbrev first_read : Message
first_read = message Role.tool "m2" (codes "1") [] (some "a") (some "read_file")

abbrev second_read : Message
second_read = message Role.tool "m3" (codes "12") [] (some "b") (some "read_file")

abbrev reads : List Message
reads = first_read ∷ second_read ∷ []

first_pruned :
    map (λ (m : Message). m.content) (prune_provider_messages readers reads).0
    ≡ codes "[superseded read: path=a.py sha256=f]" ∷ codes "12" ∷ []
unfolding prune_provider_messages
first_pruned = refl

one_of : (i : ℕ) (m : Message) → get_elem? reads i ≡ some m → (m ≡ first_read) ⊎ (m ≡ second_read)
one_of zero m e = inl (sym (some_inj e))
one_of (suc zero) m e = inr (sym (some_inj e))
one_of (suc (suc i)) m e = cc

reads_apart : HashesApart readers reads
reads_apart i j m n at_m at_n e = elim (one_of i m at_m) [
  | inl p ↦ elim (one_of j n at_n) [
    | inl q ↦ ap (λ (k : Message). k.content) (p ∙ sym q)
    | inr q ↦
        cc (
          sym (ap (λ (k : Message). hash k.content) p) ∙ e ∙ ap (λ (k : Message). hash k.content) q)
  ]
  | inr p ↦ elim (one_of j n at_n) [
    | inl q ↦
        cc (
          sym (ap (λ (k : Message). hash k.content) p) ∙ e ∙ ap (λ (k : Message). hash k.content) q)
    | inr q ↦ ap (λ (k : Message). k.content) (p ∙ sym q)
  ]
]

prune_provider_messages-retained_example :
    IsStale readers reads 0 first_read ⊎ IsShown readers reads 0 first_read
prune_provider_messages-retained_example =
    prune_provider_messages-retained readers reads (λ p. refl) reads_apart 0 first_read refl refl

history_valid : validate_tool_call_order (called ∷ reads) ≡ ok tt
unfolding validate_tool_call_order
history_valid = refl

prune_provider_messages-valid_example :
    validate_tool_call_order (prune_provider_messages readers (called ∷ reads)).0 ≡ ok tt
prune_provider_messages-valid_example =
    prune_provider_messages-valid readers (called ∷ reads) history_valid
