-- ===== src/Compaction/Prune.antt =====
-- `prune_provider_messages` of agent/compaction.py: the view of a history that a provider is sent,
-- in which outputs that a later one supersedes are replaced by a mark. A dict is a list of its
-- entries, the newest first. What a read or a change is of is found in Reads.
pub mod Noted
pub mod Identity
pub mod Retained
pub mod Shape
mod Tests
use borealis_coder.Prelude.{
  ℕ, suc, ◌+◌, String, Bool, false, not, ◌&&◌, ◌||◌, Option, none, some, List, [], ◌∷◌, ◌++◌, ltb,
  map, any, elem, concat, str_eq, if◌then◌else◌,
}
use borealis_coder.Prelude.Chars.{codes}
use borealis_coder.Models.{ToolCall, Message}
use borealis_coder.Models.JsonValue.{str, Fields, end, has_truthy}
use borealis_coder.Compaction.ToolOrder.{is_result, result_id}
use borealis_coder.Compaction.Fit.{with_key}
use borealis_coder.Compaction.Reads.{
  Readers, Interval, interval_covers, is_read_file, text_at, read_path, read_sha, read_interval,
  mutation_paths, with_identity, is_noted,
}

abbrev pub discovery_tools : List String
discovery_tools =
    "git_log" ∷ "git_status" ∷ "glob_files" ∷ "grep" ∷ "list_directory" ∷ "read_instructions"
    ∷ "read_skill" ∷ "repo_map" ∷ []

abbrev pub path_mutation_tools : List String
path_mutation_tools = "apply_patch" ∷ "delete_file" ∷ "replace_in_file" ∷ "write_file" ∷ []

-- The name and the arguments of the last call with the id.
unfoldable pub find_tool_call : String → List ToolCall → Option (String × Fields)
find_tool_call i [] = none
find_tool_call i (c ∷ cs) = elim (find_tool_call i cs) [
  | some found ↦ some found
  | none ↦ if str_eq c.id i then some (c.name, c.arguments) else none
]

abbrev name_or_empty : Message → String
name_or_empty m = elim m.tool_name [ none ↦ "" | some n ↦ n ]

unfoldable pub call_details : List Message → Message → String × Fields
unfolding find_tool_call
call_details messages m =
    elim (find_tool_call (result_id m) (concat (map (λ k. k.tool_calls) messages))) [
      | none ↦ (name_or_empty m, end)
      | some found ↦ found
    ]

-- The entry of `reads_by_revision` and of `latest_read_by_content` for one read.
pub record Read : Type 0 where
  pub path : String
  pub sha : String
  pub content_hash : String
  pub index : ℕ
  pub interval : Option Interval

pub record Notes : Type 0 where
  pub reads : List Read
  pub discoveries : List (String × ℕ)
  pub mutations : List (String × ℕ)

-- `d.get(key)`
unfoldable pub latest : String → List (String × ℕ) → Option ℕ
latest k [] = none
latest k ((j, i) ∷ entries) = if str_eq j k then some i else latest k entries

unfoldable pub latest_read : String → String → String → List Read → Option ℕ
latest_read path sha hash [] = none
latest_read path sha hash (r ∷ rs) =
    if str_eq r.path path && str_eq r.sha sha && str_eq r.content_hash hash
    then some r.index
    else latest_read path sha hash rs

-- d.get(key, -1) > index
abbrev pub is_after : ℕ → Option ℕ → Bool
is_after i none = false
is_after i (some j) = ltb i j

abbrev pub later_covers : String → String → ℕ → Option Interval → Read → Bool
later_covers path sha i interval r =
    str_eq r.path path && str_eq r.sha sha && ltb i r.index && interval_covers r.interval interval

pub record ContextPruneMetrics : Type 0 where
  pub tokens_before : ℕ
  pub tokens_after : ℕ
  pub superseded_reads_removed : ℕ
  pub repeated_outputs_removed : ℕ
  pub tool_output_tokens_before : ℕ
  pub tool_output_tokens_retained : ℕ

abbrev pub total : (Message → ℕ) → List Message → ℕ
total size [] = 0
total size (m ∷ ms) = size m + total size ms

module _ (readers : Readers) where
  unfoldable pub note_read : ℕ → Message → List Read → List Read
  unfolding read_path read_sha read_interval
  note_read i m reads =
      if is_noted readers m
      then record {
        path = read_path readers m;
        sha = read_sha readers m;
        content_hash = readers.slice_identity m.content;
        index = i;
        interval = read_interval readers m.content;
      }
        ∷ reads
      else reads

  unfoldable pub is_superseded : Notes → ℕ → Message → Bool
  unfolding text_at read_interval latest latest_read
  is_superseded notes i c =
      let path = text_at readers "path" c.metadata in
      let sha = text_at readers "sha256" c.metadata in
      not (str_eq path "")
      && not (str_eq sha "")
      && (is_after i (latest path notes.mutations)
          || is_after i (latest_read path sha (readers.slice_identity c.content) notes.reads)
          || any (later_covers path sha i (read_interval readers c.content)) notes.reads)

  abbrev pub is_pruned_read : Notes → ℕ → Message → Bool
  is_pruned_read notes i c =
      is_result c && not c.is_error && is_read_file c && is_superseded notes i c

  module _ (messages : List Message) where
    abbrev pub signature_of : Message → String
    signature_of m =
        let (name, arguments) = call_details messages m in readers.signature name arguments

    abbrev pub is_discovery : Message → Bool
    is_discovery m = elem (call_details messages m).0 discovery_tools

    -- The paths that the call behind a result has changed.
    unfoldable pub changed_paths : Message → List String
    unfolding call_details mutation_paths with_identity has_truthy
    changed_paths m =
        let (name, arguments) = call_details messages m in
        let metadata = (with_identity readers m).metadata in
        if is_result m
          && ((not m.is_error && elem name path_mutation_tools)
              || has_truthy "changed_files" metadata)
        then mutation_paths readers metadata arguments
        else []

    unfoldable pub note : ℕ → Message → Notes → Notes
    unfolding note_read changed_paths call_details
    note i m notes = record {
      reads = note_read i m notes.reads;
      discoveries =
          if is_result m && not m.is_error && is_discovery m
          then (signature_of m, i) ∷ notes.discoveries
          else notes.discoveries;
      mutations = map (λ p. (p, i)) (changed_paths m) ++ notes.mutations;
    }

    -- The first loop, from the message at the index.
    unfoldable pub note_all : ℕ → List Message → Notes → Notes
    unfolding note
    note_all i [] notes = notes
    note_all i (m ∷ ms) notes = note_all (suc i) ms (note i m notes)

    abbrev pub is_repeated : Notes → ℕ → Message → Bool
    is_repeated notes i c =
        is_result c
        && not c.is_error
        && not (is_read_file c)
        && is_discovery c
        && is_after i (latest (signature_of c) notes.discoveries)

    -- The round of the second loop for one copy.
    unfoldable pub prune_copy : Notes → ℕ → Message → Message
    unfolding is_superseded latest call_details text_at
    prune_copy notes i c =
        if is_pruned_read notes i c
        then record c {
          content =
              codes "[superseded read: path="
              ++ (codes (text_at readers "path" c.metadata)
                  ++ (codes " sha256="
                      ++ (codes (text_at readers "sha256" c.metadata) ++ codes "]")));
          metadata = with_key "provider_compacted" (str "superseded_read") c.metadata;
        }
        else if is_repeated notes i c
        then record c {
          content =
              codes "[superseded successful "
              ++ (codes (call_details messages c).0 ++ codes " output]");
          metadata = with_key "provider_compacted" (str "repeated_output") c.metadata;
        }
        else c

    unfoldable pub prune_all : Notes → ℕ → List Message → List Message
    unfolding prune_copy
    prune_all notes i [] = []
    prune_all notes i (c ∷ cs) = prune_copy notes i c ∷ prune_all notes (suc i) cs

    unfoldable pub count_from : (ℕ → Message → Bool) → ℕ → List Message → ℕ
    count_from p i [] = 0
    count_from p i (c ∷ cs) = let rest = count_from p (suc i) cs in if p i c then suc rest else rest

  abbrev no_notes : Notes
  no_notes = record { reads = []; discoveries = []; mutations = [] }

  abbrev pub notes_of : List Message → Notes
  notes_of messages = note_all messages 0 messages no_notes

  unfoldable pub pruned : List Message → List Message
  unfolding note_all prune_all with_identity
  pruned messages = prune_all messages (notes_of messages) 0 (map (with_identity readers) messages)

  abbrev tool_tokens : Message → ℕ
  tool_tokens m = if is_result m then readers.estimate_tokens m.content else 0

  unfoldable pub prune_provider_messages : List Message → List Message × ContextPruneMetrics
  unfolding pruned note_all with_identity count_from
  prune_provider_messages messages =
      let notes = notes_of messages in
      let copies = map (with_identity readers) messages in
      (
        pruned messages,
        record {
          tokens_before = total readers.message_tokens messages;
          tokens_after = total readers.message_tokens (pruned messages);
          superseded_reads_removed = count_from messages (is_pruned_read notes) 0 copies;
          repeated_outputs_removed = count_from messages (is_repeated messages notes) 0 copies;
          tool_output_tokens_before = total tool_tokens messages;
          tool_output_tokens_retained = total tool_tokens (pruned messages);
        },
      )
