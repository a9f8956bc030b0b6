-- ===== src/Compaction/Compact/Unlimited.antt =====
-- Compaction without limits (agent/compaction.py).
use borealis_coder.Prelude.{
  ℕ, zero, suc, ◌-◌, ◌≡◌, ◌≤◌, refl, sym, ap, ◌∙◌, Bool, true, false, ◌&&◌, ◌||◌, Option, List, ◌∷◌,
  ◌==◌, leb, length, take, Result, ok, ok_inj, Result-under, bool-under, ◌>>=◌, if◌then◌else◌,
  arith,
}
use borealis_coder.Prelude.Chars.{Text}
use borealis_coder.Models.{Message}
use borealis_coder.Models.JsonValue.{end}
use borealis_coder.Compaction.Bundles.{ConversationBundle, flatten}
use borealis_coder.Compaction.Fit.{messages_fit}
use borealis_coder.Compaction.Summary.{Sections, Limits, framed, within_limits}
use borealis_coder.Compaction.Summary.Bounded.{render_deterministic_summary-whole}
use borealis_coder.Compaction.Compact.{
  Outside, Options, CompactionError, render, system_message, fits, recent_messages, evidence_for,
  available_summary_tokens, available_summary_bytes, summary_in_bytes, artifact, compact_with,
  compact_rounds,
}

-- No limit is asked for.
abbrev pub is_unlimited : Options → Bool
is_unlimited options =
    options.summary_chars == 0
    && options.summary_tokens == 0
    && options.summary_bytes == 0
    && options.target.tokens == 0
    && options.target.bytes == 0

if_zero : (b : Bool) (x y : ℕ) → b ≡ true → x ≡ 0 → (if b then x else y) ≡ 0
if_zero true x y t e = e
if_zero false x y t e = cc

or_first-false : (a b : Bool) → a ≡ true → (a || b) ≡ false → ⊥
or_first-false a b t f = ground arith

zero_limit : (c n : ℕ) → n ≡ 0 → (n == 0 || leb c n) ≡ true
zero_limit c n e = ground arith

all_three : (a b c : Bool) → a ≡ true → b ≡ true → c ≡ true → (a && b && c) ≡ true
all_three a b c t u v = ground arith

module _ (outside : Outside) (options : Options) (unlimited : is_unlimited options ≡ true) where
  no_target : (options.target.tokens == 0 ≡ true) × (options.target.bytes == 0 ≡ true)
  no_target = (ground arith, ground arith)

  summaries :
      (options.summary_chars ≡ 0) × ((options.summary_tokens ≡ 0) × (options.summary_bytes ≡ 0))
  summaries = (ground arith, (ground arith, ground arith))

  fits-unlimited : (ms : List Message) → fits outside options ms ≡ true
  unfolding messages_fit
  fits-unlimited ms = ground (arith, no_target)

  within_zero :
      (limits : Limits) (text : Text)
      → limits.max_chars ≡ 0
      → limits.max_tokens ≡ 0
      → limits.max_bytes ≡ 0
      → within_limits outside.estimate_tokens outside.utf8_length text limits ≡ true
  unfolding within_limits
  within_zero limits text c t b =
      all_three _ _ _ (zero_limit (length text) limits.max_chars c)
        (zero_limit (outside.estimate_tokens text) limits.max_tokens t)
        (zero_limit (outside.utf8_length text) limits.max_bytes b)

  available-unlimited :
      (recent : List Message)
      → (available_summary_tokens outside options recent ≡ 0)
        × (available_summary_bytes outside options recent ≡ 0)
  unfolding available_summary_tokens available_summary_bytes
  available-unlimited recent =
      (if_zero _ _ _ (no_target.0) (summaries.1.0), if_zero _ _ _ (no_target.1) (summaries.1.1))

  summary_in_bytes-unlimited :
      (recent : List Message) (evidence : Sections) (fuel tokens bytes : ℕ)
      → tokens ≡ 0
      → bytes ≡ 0
      → summary_in_bytes outside options (suc fuel) recent evidence tokens bytes
        ≡ ok (framed evidence, evidence)
  unfolding summary_in_bytes
  summary_in_bytes-unlimited recent evidence fuel tokens bytes t b =
      let limits : Limits = record {
        max_chars = options.summary_chars;
        max_tokens = tokens;
        max_bytes = bytes;
      } in
      let whole =
        render_deterministic_summary-whole outside.estimate_tokens outside.utf8_length limits
          evidence (within_zero limits (framed evidence) (summaries.0) t b) in
      let Q : Result CompactionError (Text × Sections) → Type 0 =
        λ r. r ≡ ok (framed evidence, evidence) in
      Result-under Q (render outside options evidence tokens bytes) (λ e h. cc)
        (λ p h.
          let candidate = outside.messages_bytes (system_message outside p.0 end ∷ recent) in
          bool-under Q (options.target.bytes == 0 || leb candidate options.target.bytes)
            (λ u. ap ok (ok_inj (sym h ∙ whole)))
            (λ f. absurd (or_first-false _ _ (no_target.1) f)))

  compact_with-unlimited :
      (messages : List Message) (bundles : List ConversationBundle) (n : ℕ)
      → (result : List Message) × (compact_with outside options messages bundles n ≡ ok result)
  unfolding compact_with
  compact_with-unlimited messages bundles n =
      let recent = recent_messages outside options n bundles in
      let evidence =
        evidence_for outside options messages (flatten (take (length bundles - n) bundles)) in
      let bytes = available_summary_bytes outside options recent in
      let tokens = available_summary_tokens outside options recent in
      let (no_tokens, no_bytes) = available-unlimited recent in
      let run = summary_in_bytes-unlimited recent evidence bytes tokens bytes no_tokens no_bytes in
      let finish : Text × Sections → Result CompactionError (List Message) = λ p. ok (
        system_message outside p.0
          (outside.to_metadata (artifact outside options messages bundles n evidence p.1))
        ∷ recent) in
      (_, ap (λ r. r >>= finish) run)

  pub compact_rounds-unlimited :
      (messages : List Message) (bundles : List ConversationBundle) (n : ℕ)
      (last : Option CompactionError)
      → 1 ≤ n
      → (result : List Message) × (compact_rounds outside options messages bundles n last
          ≡ ok result)
  unfolding compact_rounds
  compact_rounds-unlimited messages bundles zero last some_kept = absurd (omega arith)
  compact_rounds-unlimited messages bundles (suc n) last some_kept =
      let (result, run) = compact_with-unlimited messages bundles (suc n) in
      let Q : Result CompactionError (List Message) → Type 0 =
        λ r. (k : List Message) × (r ≡ ok k) in
      Result-under Q (compact_with outside options messages bundles (suc n)) (λ e h. cc)
        (λ k h.
          bool-under Q (fits outside options k) (λ t. (k, refl))
            (λ f. absurd (cc (f, fits-unlimited k))))
