-- ===== src/Compaction/Summary.antt =====
-- The deterministic summary of agent/compaction.py: the sections of the evidence, rendered and
-- framed, are shrunk in an order of priority until the text is within its limits. The evidence is
-- given by its lists, one for each heading. The estimate of tokens and the length in UTF-8 are
-- parameters.
pub mod Bounded
use borealis_coder.Prelude.{
  ℕ, zero, suc, ◌+◌, ◌-◌, ◌/◌, max, Bool, true, false, not, ◌||◌, ◌&&◌, Option, none, some, List,
  [], ◌∷◌, ◌++◌, ◌==◌, leb, ltb, length, map, Result, ok, err, ◌>>=◌, ◌>>◌, if◌then◌else◌,
}
use borealis_coder.Prelude.Chars.{Text, codes, text_eq, has_prefix}
use borealis_coder.Truncation.{truncate_text}
use borealis_coder.Compaction.Framing.{deterministic, frame_untrusted_history}

pub data Heading : Type 0 where
  current_objective user_constraints completed_work files_changed : Heading
  important_decisions latest_verification open_failures_and_blockers : Heading
  pending_work historical_excerpts : Heading

abbrev pub title : Heading → Text
title current_objective = codes "Current objective"
title user_constraints = codes "User constraints"
title completed_work = codes "Completed work"
title files_changed = codes "Files changed"
title important_decisions = codes "Important decisions"
title latest_verification = codes "Latest verification"
title open_failures_and_blockers = codes "Open failures and blockers"
title pending_work = codes "Pending work"
title historical_excerpts = codes "Historical excerpts"

abbrev pub section_order : List Heading
section_order =
    current_objective ∷ user_constraints ∷ completed_work ∷ files_changed ∷ important_decisions
    ∷ latest_verification ∷ open_failures_and_blockers ∷ pending_work ∷ historical_excerpts ∷ []

abbrev pub shrink_order : List Heading
shrink_order =
    historical_excerpts ∷ completed_work ∷ important_decisions ∷ open_failures_and_blockers
    ∷ latest_verification ∷ files_changed ∷ pending_work ∷ []

abbrev pub critical_shrink_order : List Heading
critical_shrink_order = user_constraints ∷ current_objective ∷ []

-- CompactionEvidence, and the dict of sections that is made of it and read back.
abbrev pub Sections : Type 0
Sections = Heading → List Text

abbrev pub set_section : Heading → List Text → Sections → Sections
set_section h values sections k = if text_eq (title k) (title h) then values else sections k

-- sep.join(texts)
unfoldable pub joined_by : Text → List Text → Text
joined_by sep [] = []
joined_by sep (t ∷ []) = t
joined_by sep (t ∷ u ∷ ts) = t ++ (sep ++ joined_by sep (u ∷ ts))

abbrev or_unavailable : List Text → List Text
or_unavailable [] = codes "Unavailable." ∷ []
or_unavailable (v ∷ vs) = v ∷ vs

unfoldable pub render_section : Sections → Heading → Text
unfolding joined_by
render_section sections h =
    codes "## "
    ++ (title h
        ++ (codes "\n"
            ++ joined_by (codes "\n") (map (λ v. codes "- " ++ v) (or_unavailable (sections h)))))

unfoldable pub render_sections : Sections → Text
unfolding render_section joined_by
render_sections sections = joined_by (codes "\n\n") (map (render_section sections) section_order)

unfoldable pub framed : Sections → Text
unfolding render_sections frame_untrusted_history
framed sections = frame_untrusted_history (render_sections sections) deterministic 0

-- The place of the first value that satisfies the test, and of the last.
unfoldable pub first_index : (Text → Bool) → List Text → Option ℕ
first_index p [] = none
first_index p (v ∷ vs) =
    let later = first_index p vs in
    if p v then some 0 else (elim later [ none ↦ none | some i ↦ some (suc i) ])

unfoldable pub last_index : (Text → Bool) → List Text → Option ℕ
last_index p [] = none
last_index p (v ∷ vs) = elim (last_index p vs) [
  | some i ↦ some (suc i)
  | none ↦ if p v then some 0 else none
]

abbrev pub or_first : Option ℕ → ℕ
or_first none = 0
or_first (some i) = i

unfoldable pub shrink_value_index : Heading → List Text → ℕ
unfolding first_index last_index
shrink_value_index latest_verification values =
    or_first (first_index (has_prefix (codes "Latest recorded git state:\n")) values)
shrink_value_index pending_work values =
    or_first (last_index (λ v. not (has_prefix (codes "[in_progress]") v)) values)
shrink_value_index heading values = 0

-- values.pop(index)
unfoldable pub pop : ℕ → List Text → List Text
pop i [] = []
pop zero (v ∷ vs) = vs
pop (suc i) (v ∷ vs) = v ∷ pop i vs

abbrev pub omitted : Text
omitted = codes "Omitted due to the compaction budget."

abbrev pub halved : Text → Text
halved v = truncate_text v (max 160 (length v / 2))

-- One round over a section: its values after it, or `none` where the loop breaks.
unfoldable pub shrink_values : Heading → List Text → Option (List Text)
unfolding shrink_value_index pop truncate_text
shrink_values heading [] = some (omitted ∷ [])
shrink_values heading (v ∷ []) =
    if ltb 160 (length v)
    then some (halved v ∷ [])
    else if text_eq v omitted
    then none
    else some (omitted ∷ [])
shrink_values heading (v ∷ w ∷ vs) =
    some (pop (shrink_value_index heading (v ∷ w ∷ vs)) (v ∷ w ∷ vs))

-- The round over a critical section, whose last value is never dropped.
unfoldable pub shrink_critical : Heading → List Text → Option (List Text)
unfolding truncate_text
shrink_critical heading [] = none
shrink_critical heading (v ∷ []) = if ltb 160 (length v) then some (halved v ∷ []) else none
shrink_critical heading (v ∷ w ∷ vs) = some (w ∷ vs)

pub record Limits : Type 0 where
  pub max_chars : ℕ
  pub max_tokens : ℕ
  pub max_bytes : ℕ

-- CompactionSizeError, and the end of the fuel.
pub data SummaryError : Type 0 where
  does_not_fit out_of_fuel : SummaryError

-- The fuel of the loop over a section: a round makes it smaller.
unfoldable pub weight_sum : List Text → ℕ
weight_sum [] = 0
weight_sum (v ∷ vs) = suc (length v + weight_sum vs)

unfoldable pub weight : List Text → ℕ
unfolding weight_sum
weight (v ∷ []) = if text_eq v omitted then 0 else suc (suc (length v))
weight values = suc (weight_sum values)

module _ (estimate_tokens : Text → ℕ) (utf8_length : Text → ℕ) where
  unfoldable pub within_limits : Text → Limits → Bool
  within_limits text limits =
      (limits.max_chars == 0 || leb (length text) limits.max_chars)
      && (limits.max_tokens == 0 || leb (estimate_tokens text) limits.max_tokens)
      && (limits.max_bytes == 0 || leb (utf8_length text) limits.max_bytes)

  module _ (limits : Limits) where
    -- The inner loop.
    unfoldable pub shrink_section :
        (Heading → List Text → Option (List Text))
        → ℕ
        → Heading
        → Sections
        → Result SummaryError Sections
    unfolding within_limits framed
    shrink_section step zero heading sections = err out_of_fuel
    shrink_section step (suc fuel) heading sections =
        if within_limits (framed sections) limits
        then ok sections
        else (elim (step heading (sections heading)) [
          | none ↦ ok sections
          | some values ↦ shrink_section step fuel heading (set_section heading values sections)
        ])

    -- The outer loop.
    unfoldable pub shrink_all :
        (Heading → List Text → Option (List Text))
        → List Heading
        → Sections
        → Result SummaryError Sections
    unfolding shrink_section weight
    shrink_all step [] sections = ok sections
    shrink_all step (h ∷ hs) sections = do
      shrunk ← shrink_section step (suc (weight (sections h))) h sections
      shrink_all step hs shrunk

    -- `_render_deterministic_summary_with_evidence`
    unfoldable pub render_deterministic_summary : Sections → Result SummaryError (Text × Sections)
    unfolding shrink_all shrink_values shrink_critical framed within_limits
    render_deterministic_summary evidence = do
      sections ← shrink_all shrink_values shrink_order evidence
      shrunk ← shrink_all shrink_critical critical_shrink_order sections
      if within_limits (framed shrunk) limits then ok (framed shrunk, shrunk) else err does_not_fit
