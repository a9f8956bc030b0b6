-- ===== src/Compaction/Reads.antt =====
-- agent/compaction.py: the file that a read shows, the lines of it, and the files that a call has
-- changed, as `prune_provider_messages` finds them. The searches by regular expressions,
-- `posixpath.normpath` behind the replacement of backslashes on Windows, SHA-256, the printing of JSON
-- values and the estimates of tokens are parameters.
pub mod Keys
use borealis_coder.Prelude.{
  ℕ, suc, String, Bool, true, false, not, ◌&&◌, Option, none, some, List, [], ◌∷◌, ◌==◌, leb,
  str_eq, if◌then◌else◌,
}
use borealis_coder.Prelude.Chars.{Text, contains}
use borealis_coder.Models.{Message}
use borealis_coder.Models.JsonValue.{
  Json, str, arr, Items, nil, cons, Fields, get, truthy, has_truthy,
}
use borealis_coder.Truncation.{marker}
use borealis_coder.Compaction.ToolOrder.{is_result}
use borealis_coder.Compaction.Fit.{with_key}

pub record Readers : Type 0 where
  pub find_path : Text → String
  pub find_sha : Text → String
  pub normpath : String → String
  pub line_numbers : Text → List ℕ
  pub slice_identity : Text → String
  pub print : Json → String
  pub signature : String → Fields → String
  pub estimate_tokens : Text → ℕ
  pub message_tokens : Message → ℕ

-- d.setdefault(key, value) where the value is not empty
abbrev pub set_default : String → String → Fields → Fields
set_default k v d =
    if str_eq v "" then d else (elim (get k d) [ none ↦ with_key k (str v) d | some w ↦ d ])

pub record Interval : Type 0 where
  pub first : ℕ
  pub last : ℕ

abbrev last_of : ℕ → List ℕ → ℕ
last_of n [] = n
last_of n (k ∷ ks) = last_of k ks

abbrev are_consecutive : ℕ → List ℕ → Bool
are_consecutive n [] = true
are_consecutive n (k ∷ ks) = k == suc n && are_consecutive k ks

abbrev interval_of : List ℕ → Option Interval
interval_of [] = none
interval_of (n ∷ ns) =
    if are_consecutive n ns then some (record { first = n; last = last_of n ns }) else none

abbrev pub interval_covers : Option Interval → Option Interval → Bool
interval_covers none covered = false
interval_covers (some a) none = false
interval_covers (some a) (some b) = leb a.first b.first && leb b.last a.last

abbrev pub is_read_file : Message → Bool
is_read_file m = is_result m && (elim m.tool_name [ none ↦ false | some n ↦ str_eq n "read_file" ])

module _ (readers : Readers) where
  -- str(value)
  abbrev pub json_text : Json → String
  json_text (str s) = s
  json_text v = readers.print v

  -- str(d.get(key) or "")
  unfoldable pub text_at : String → Fields → String
  unfolding get truthy
  text_at k d = elim (get k d) [ none ↦ "" | some v ↦ if truthy v then json_text v else "" ]

  unfoldable pub canonical_path : String → String
  canonical_path p = if str_eq p "" then "" else readers.normpath p

  unfoldable pub read_path : Message → String
  unfolding text_at canonical_path
  read_path m =
      let path = text_at "path" m.metadata in
      canonical_path (if str_eq path "" then readers.find_path m.content else path)

  unfoldable pub read_sha : Message → String
  unfolding text_at
  read_sha m =
      let sha = text_at "sha256" m.metadata in
      if str_eq sha "" then readers.find_sha m.content else sha

  unfoldable pub read_interval : Text → Option Interval
  read_interval content =
      if contains marker content then none else interval_of (readers.line_numbers content)

  abbrev pub canonical_items : Items → List String
  canonical_items nil = []
  canonical_items (cons v vs) =
      if truthy v then canonical_path (json_text v) ∷ canonical_items vs else canonical_items vs

  abbrev pub one_path : Option Json → List String
  one_path none = []
  one_path (some v) = if truthy v then canonical_path (json_text v) ∷ [] else []

  unfoldable pub mutation_paths : Fields → Fields → List String
  unfolding get has_truthy truthy canonical_path
  mutation_paths metadata arguments =
      let single =
        one_path (get "path" (if has_truthy "path" metadata then metadata else arguments)) in
      elim (get (if has_truthy "files" metadata then "files" else "changed_files") metadata) [
        | some (arr items) ↦ canonical_items items
        | _ ↦ single
      ]

  -- The copy of a message, with the identity of a read in its metadata.
  unfoldable pub with_identity : Message → Message
  unfolding read_path read_sha get
  with_identity m =
      if is_read_file m
      then record m {
        metadata = set_default "sha256" (read_sha m) (set_default "path" (read_path m) m.metadata);
      }
      else m

  abbrev pub is_noted : Message → Bool
  is_noted m =
      is_read_file m
      && not (str_eq (read_path m) "")
      && not (str_eq (read_sha m) "")
      && not m.is_error
