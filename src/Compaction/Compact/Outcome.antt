-- ===== src/Compaction/Compact/Outcome.antt =====
-- What compaction may answer (agent/compaction.py).
use borealis_coder.Prelude.{
  some_inj, ℕ, zero, suc, ◌+◌, ◌-◌, ◌≤◌, ◌<◌, ◌≡◌, ◌⊎◌, inl, inr, refl, sym, ap, subst, ◌∙◌, min,
  max, Bool, true, false, not, ◌&&◌, ◌||◌, Option, none, some, List, [], ◌∷◌, ◌==◌, leb, ltb,
  length, take, drop, Result, ok, err, if◌then◌else◌, if-both, if-under, Result-under, Bool-cases,
  Result-cases, bool-under, nat-under, take-append-drop, arith,
}
use borealis_coder.Prelude.Chars.{Text}
use borealis_coder.Models.{Message}
use borealis_coder.Models.JsonValue.{Fields, end}
use borealis_coder.Compaction.ToolOrder.{OrderError, validate_tool_call_order}
use borealis_coder.Compaction.ToolOrder.Grammar.{Ordered, plain, validate_tool_call_order_iff}
use borealis_coder.Compaction.Bundles.{ConversationBundle, bundle_conversation, flatten}
use borealis_coder.Compaction.Bundles.Lossless.{bundle_conversation_lossless}
use borealis_coder.Compaction.Bundles.Kept.{bundle_conversation_kept}
use borealis_coder.Compaction.Fit.Shape.{shrink_diagnostic_messages-Ordered}
use borealis_coder.Compaction.Summary.{Sections, Limits, does_not_fit, framed}
use borealis_coder.Compaction.Summary.Bounded.{IsBounded, render_deterministic_summary-IsBounded}
use borealis_coder.Compaction.Compact.Unlimited.{is_unlimited, compact_rounds-unlimited}
use borealis_coder.Compaction.Compact.{
  Outside, Options, CompactionError, order, summary, byte_target, target_missed, render, share,
  system_message, fits, recent_messages, evidence_for, available_summary_tokens,
  available_summary_bytes, next_limit, summary_in_bytes, compact_with, compact_rounds,
  compact_bundles, compact_messages, capped,
}

-- A refusal for want of space, and neither an end of fuel nor a refused history.
unfoldable pub IsRefusal : CompactionError → Type 0
IsRefusal e = (e ≡ summary does_not_fit) ⊎ (e ≡ byte_target) ⊎ (e ≡ target_missed)

Refuses : {A : Type 0} → Result CompactionError A → Type 0
Refuses r = (e : CompactionError) → r ≡ err e → IsRefusal e

and_last-true : (a b c : Bool) → (a && (b && c)) ≡ true → c ≡ true
and_last-true a b c h = ground arith

module _ (outside : Outside) (options : Options) where
  or_left-false : (a b : Bool) → (a || b) ≡ false → a ≡ false
  or_left-false a b h = ground arith

  next_limit-lt :
      (text : Text) (candidate n : ℕ) → 1 ≤ n → next_limit outside options text candidate n < n
  unfolding next_limit
  next_limit-lt text candidate n h = ground arith

  -- A summary is the framed text of some sections.
  IsSummary : Result CompactionError (Text × Sections) → Type 0
  IsSummary (ok (text, sections)) = text ≡ framed sections
  IsSummary (err e) = IsRefusal e

  summary_in_bytes-IsSummary :
      (fuel : ℕ) (recent : List Message) (evidence : Sections) (tokens available : ℕ)
      → available < fuel
      → ((options.target.bytes == 0) ≡ false → 1 ≤ available)
      → IsSummary (summary_in_bytes outside options fuel recent evidence tokens available)
  unfolding summary_in_bytes IsSummary IsRefusal IsBounded
  summary_in_bytes-IsSummary zero recent evidence tokens available enough bounded =
      absurd (omega arith)
  summary_in_bytes-IsSummary (suc fuel) recent evidence tokens available enough bounded =
      let limits : Limits = record {
        max_chars = options.summary_chars;
        max_tokens = tokens;
        max_bytes = available;
      } in
      let Bounded = IsBounded outside.estimate_tokens outside.utf8_length limits evidence in
      let rendered =
        render_deterministic_summary-IsBounded outside.estimate_tokens outside.utf8_length limits
          evidence in
      Result-under IsSummary (render outside options evidence tokens available)
        (λ e h. inl (ap summary (subst Bounded h rendered).0))
        (λ p h.
          let candidate = outside.messages_bytes (system_message outside p.0 end ∷ recent) in
          bool-under IsSummary (options.target.bytes == 0 || leb candidate options.target.bytes)
            (λ t. (subst Bounded h rendered).0)
            (λ f.
              nat-under IsSummary (next_limit outside options p.0 candidate available)
                (λ z. inr (inl refl))
                (λ n g.
                  summary_in_bytes-IsSummary fuel recent evidence tokens (suc n)
                    (omega (
                      arith,
                      next_limit-lt p.0 candidate available (bounded (or_left-false _ _ f)),
                      g,
                    ))
                    (λ u. omega arith))))

  capped-pos : (limit n : ℕ) → 1 ≤ n → 1 ≤ capped limit n
  capped-pos limit n h = ground arith

  available_summary_bytes-pos :
      (recent : List Message)
      → (options.target.bytes == 0) ≡ false
      → 1 ≤ available_summary_bytes outside options recent
  unfolding available_summary_bytes
  available_summary_bytes-pos recent h =
      let left =
        max 1 (
          options.target.bytes - outside.messages_bytes (system_message outside [] end ∷ recent)) in
      subst (λ b. 1 ≤ (if b then options.summary_bytes else capped options.summary_bytes left))
        (sym h) (capped-pos options.summary_bytes left (omega arith))

  recent_messages-Ordered :
      (messages : List Message) (n : ℕ) (bundles : List ConversationBundle)
      → bundle_conversation messages ≡ ok bundles
      → Ordered [] (recent_messages outside options n bundles)
  unfolding recent_messages
  recent_messages-Ordered messages n bundles run =
      let i = length bundles - n in
      let kept = flatten (drop i bundles) in
      let valid =
        bundle_conversation_kept messages (take i bundles) (drop i bundles)
          (run ∙ ap ok (sym (take-append-drop i bundles))) in
      let ordered = (validate_tool_call_order_iff kept).0 valid in
      if-both (Ordered []) ((ltb 0 options.target.tokens || ltb 0 options.target.bytes) && n == 1)
        (shrink_diagnostic_messages-Ordered outside.message_tokens outside.messages_bytes kept
          (share options.target) ordered)
        ordered

  -- The summary, and behind it the messages of the last bundles.
  unfoldable pub IsRound : List ConversationBundle → List Message → Type 0
  IsRound bundles result =
      (n : ℕ) × (text : Text) × (metadata : Fields) × (sections : Sections) × (text
        ≡ framed sections)
      × (result
          ≡ system_message outside text metadata ∷ recent_messages outside options (suc n) bundles)

  Rounds : List ConversationBundle → Result CompactionError (List Message) → Type 0
  Rounds bundles (ok result) = IsRound bundles result
  Rounds bundles (err e) = IsRefusal e

  compact_with-Rounds :
      (messages : List Message) (bundles : List ConversationBundle) (n : ℕ)
      → Rounds bundles (compact_with outside options messages bundles (suc n))
  unfolding compact_with Rounds IsRound IsSummary
  compact_with-Rounds messages bundles n =
      let recent = recent_messages outside options (suc n) bundles in
      let evidence =
        evidence_for outside options messages (flatten (take (length bundles - suc n) bundles)) in
      let bytes = available_summary_bytes outside options recent in
      let tokens = available_summary_tokens outside options recent in
      let lawful =
        summary_in_bytes-IsSummary (suc bytes) recent evidence tokens bytes (omega arith)
          (available_summary_bytes-pos recent) in
      elim (Result-cases
        (summary_in_bytes outside options (suc bytes) recent evidence tokens bytes)) [
          | inl (p, e) ↦ rw e (n, p.0, _, p.1, subst IsSummary e lawful, refl)
          | inr (r, e) ↦ rw e (subst IsSummary e lawful)
        ]

  -- What the search for a number of kept bundles answers.
  Answers : List ConversationBundle → Result CompactionError (List Message) → Type 0
  Answers bundles (ok result) = (fits outside options result ≡ true) × IsRound bundles result
  Answers bundles (err e) = IsRefusal e

  compact_rounds-Answers :
      (messages : List Message) (bundles : List ConversationBundle) (n : ℕ)
      (last : Option CompactionError)
      → ((e : CompactionError) → last ≡ some e → IsRefusal e)
      → Answers bundles (compact_rounds outside options messages bundles n last)
  unfolding compact_rounds Answers IsRefusal Rounds
  compact_rounds-Answers messages bundles zero none lawful = inr (inr refl)
  compact_rounds-Answers messages bundles zero (some e) lawful = lawful e refl
  compact_rounds-Answers messages bundles (suc n) last lawful =
      let round = compact_with-Rounds messages bundles n in
      Result-under (Answers bundles) (compact_with outside options messages bundles (suc n))
        (λ e h.
          let refusal : IsRefusal e = subst (Rounds bundles) h round in
          compact_rounds-Answers messages bundles n (some e)
            (λ f g. subst IsRefusal (some_inj g) refusal))
        (λ result h.
          bool-under (Answers bundles) (fits outside options result)
            (λ fit. (fit, subst (Rounds bundles) h round))
            (λ miss. compact_rounds-Answers messages bundles n last lawful))

  -- What compaction answers: the messages themselves or a summary and the last messages, which fit
  -- the target and pass the validation, or a refusal for want of space.
  unfoldable pub IsCompacted :
      List Message → List ConversationBundle → Result CompactionError (List Message) → Type 0
  unfolding IsRound IsRefusal
  IsCompacted messages bundles (ok result) =
      (fits outside options result ≡ true)
      × (validate_tool_call_order result ≡ ok tt)
      × ((result ≡ messages) ⊎ IsRound bundles result)
  IsCompacted messages bundles (err e) = IsRefusal e × (is_unlimited options ≡ false)

  Answers-IsCompacted :
      (messages : List Message) (bundles : List ConversationBundle)
      (r : Result CompactionError (List Message))
      → bundle_conversation messages ≡ ok bundles
      → (is_unlimited options ≡ true → (k : List Message) × (r ≡ ok k))
      → Answers bundles r
      → IsCompacted messages bundles r
  unfolding IsCompacted Answers IsRound
  Answers-IsCompacted messages bundles (err e) run free answer =
      elim (Bool-cases (is_unlimited options)) [
        | inl u ↦ let (k, h) = free u in cc
        | inr limited ↦ (answer, limited)
      ]
  Answers-IsCompacted messages bundles (ok result) run free
        (fit, (n, text, metadata, sections, is_framed, same)) =
      (
        fit,
        (validate_tool_call_order_iff result).1 (
            subst (Ordered []) (sym same)
              (plain refl refl (recent_messages-Ordered messages (suc n) bundles run))),
        inr (n, text, metadata, sections, is_framed, same),
      )

  retained-pos : 1 ≤ (
      if options.keep_recent_bundles == 0
      then max 1 options.keep_recent
      else options.keep_recent_bundles)
  retained-pos = ground arith

  compact_bundles-IsCompacted :
      (messages : List Message) (bundles : List ConversationBundle)
      → bundle_conversation messages ≡ ok bundles
      → validate_tool_call_order messages ≡ ok tt
      → IsCompacted messages bundles (compact_bundles outside options messages bundles)
  unfolding compact_bundles IsCompacted
  compact_bundles-IsCompacted messages bundles run valid =
      let retained =
        if options.keep_recent_bundles == 0
        then max 1 options.keep_recent
        else options.keep_recent_bundles in
      if-under (IsCompacted messages bundles)
        (not options.force
          && (leb (length bundles) (retained + 1) && fits outside options messages))
        (λ h. (and_last-true _ _ _ h, valid, inl refl))
        (λ h.
          let n = min retained (max 1 (length bundles - 1)) in
          let first : 1 ≤ n = omega (arith, retained-pos) in
          Answers-IsCompacted messages bundles
            (compact_rounds outside options messages bundles n none) run
            (λ u. compact_rounds-unlimited outside options u messages bundles n none first)
            (compact_rounds-Answers messages bundles n none (λ e g. cc)))

  -- Compaction of a valid history ends, under all arguments. If it returns, the messages fit the
  -- target, pass the validation again, and are the messages given or a framed summary in front of the
  -- messages of the last bundles, which may be shrunk. Otherwise it is a refusal for want of space,
  -- and never without a limit.
  pub compact_messages-IsCompacted :
      (messages : List Message)
      → validate_tool_call_order messages ≡ ok tt
      → (bundles : List ConversationBundle) × (bundle_conversation messages ≡ ok bundles)
        × IsCompacted messages bundles (compact_messages outside options messages)
  unfolding compact_messages IsCompacted
  compact_messages-IsCompacted messages valid =
      let (bundles, run, same) = bundle_conversation_lossless messages valid in
      let after : Result OrderError (List ConversationBundle)
          → Result CompactionError (List Message) =
        λ r. elim r [
          | err e ↦ err (order e)
          | ok bs ↦ compact_bundles outside options messages bs
        ] in
      (
        bundles,
        run,
        subst (λ r. IsCompacted messages bundles (after r)) (sym run)
            (compact_bundles-IsCompacted messages bundles run valid),
      )
