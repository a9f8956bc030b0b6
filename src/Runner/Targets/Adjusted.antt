-- ===== src/Runner/Targets/Adjusted.antt =====
-- What the compaction to a budget answers (agent/runner.py).
use borealis_coder.Prelude.{
  ℕ, zero, suc, ◌+◌, ◌-◌, ◌≤◌, ◌<◌, ◌≡◌, ◌⊎◌, inl, inr, refl, ap, subst, ◌∙◌, min, Bool, true,
  false, ◌&&◌, Option, none, some, List, [], ◌∷◌, ◌==◌, ltb, length, Result, ok, err, ◌>>=◌,
  if◌then◌else◌, if-both, if-under, bool-under, Result-under, arith,
}
use borealis_coder.Models.{Message}
use borealis_coder.Compaction.ToolOrder.{validate_tool_call_order}
use borealis_coder.Compaction.Fit.{Target}
use borealis_coder.Compaction.Compact.{CompactionError, fits, compact_messages}
use borealis_coder.Compaction.Compact.Outcome.{IsRefusal, IsCompacted, compact_messages-IsCompacted}
use borealis_coder.Runner.Targets.{
  Turn, TargetError, no_bytes, no_tokens, not_converged, compaction, tokens_fit, bytes_fit,
  tighter_tokens, tighter_bytes, next_compaction_targets, at_target, compacted, proceed, adjust,
  compact_to_budget,
}

-- The refusals of the loop: no space, no convergence, or a refusal of the compaction.
IsTargetRefusal : TargetError → Type 0
IsTargetRefusal e =
    (e ≡ no_bytes)
    ⊎ (e ≡ no_tokens)
    ⊎ (e ≡ not_converged)
    ⊎ ((c : CompactionError) × IsRefusal c × (e ≡ compaction c))

-- A round ends the loop where both fit, makes one target smaller and neither greater, or refuses.
IsNext : Turn → Target → Message → List Message → Result TargetError (Option Target) → Type 0
IsNext turn target artifact retained (ok none) =
    (tokens_fit turn artifact retained ≡ true) × (bytes_fit turn artifact retained ≡ true)
IsNext turn target artifact retained (ok (some t)) =
    (t.tokens ≤ target.tokens)
    × (t.bytes ≤ target.bytes)
    × (t.tokens + t.bytes < target.tokens + target.bytes)
IsNext turn target artifact retained (err e) = IsTargetRefusal e

tightened-le : (fit : Bool) (n m : ℕ) → (if fit then n else min (n - 1) m) ≤ n
tightened-le fit n m = if-both (λ k. k ≤ n) fit (omega arith) (omega arith)

tightened-lt :
    (fit : Bool) (n m : ℕ)
    → ((if fit then n else min (n - 1) m) == 0) ≡ false
    → (fit ≡ true) ⊎ ((if fit then n else min (n - 1) m) < n)
tightened-lt true n m h = inl refl
tightened-lt false n m h = inr (ground arith)

ltb-false : (a b : ℕ) → ltb a b ≡ false → b ≤ a
ltb-false a b h = ground arith

both_true : (a b : Bool) → a ≡ true → b ≡ true → (a && b) ≡ false → ⊥
both_true a b t u h = ground arith

same_sum : (a b c d : ℕ) → (a == c && b == d) ≡ true → a + b ≡ c + d
same_sum a b c d h = ground arith

next_compaction_targets-IsNext :
    (turn : Turn) (target : Target) (artifact : Message) (retained : List Message)
    → IsNext turn target artifact retained (next_compaction_targets turn target artifact retained)
unfolding next_compaction_targets IsNext IsTargetRefusal
next_compaction_targets-IsNext turn target artifact retained =
    let tokens = tighter_tokens turn target artifact retained in
    let bytes = tighter_bytes turn target artifact retained in
    let Q = IsNext turn target artifact retained in
    if-under Q (tokens_fit turn artifact retained && bytes_fit turn artifact retained)
      (λ t. ground arith)
      (λ f.
        if-under Q (bytes == 0) (λ u. inl refl)
          (λ g.
            if-under Q (tokens == 0) (λ u. inr (inl refl))
              (λ h.
                let t_le : tokens ≤ target.tokens =
                  tightened-le (tokens_fit turn artifact retained) _ _ in
                let b_le : bytes ≤ target.bytes =
                  tightened-le (bytes_fit turn artifact retained) _ _ in
                let less : tokens + bytes < target.tokens + target.bytes =
                  elim (tightened-lt (tokens_fit turn artifact retained) _ _ h) [
                    | inr t ↦ omega arith
                    | inl t ↦ elim (tightened-lt (bytes_fit turn artifact retained) _ _ g) [
                      | inr b ↦ omega arith
                      | inl b ↦ absurd (both_true _ _ t b f)
                    ]
                  ] in
                if-under Q (tokens == target.tokens && bytes == target.bytes)
                  (λ u. absurd (omega (arith, same_sum tokens bytes target.tokens target.bytes u)))
                  (λ k. (t_le, b_le, less)))))

-- What the loop answers: a compaction that is the request itself or fits the budget, which fits a
-- target that is no wider than the first and passes the validation, or a refusal.
pub IsAdjusted : Turn → Target → Result TargetError (List Message × Target) → Type 0
IsAdjusted turn target (ok (ms, t)) =
    (t.tokens ≤ target.tokens)
    × (t.bytes ≤ target.bytes)
    × (fits turn.outside (at_target turn.options t) ms ≡ true)
    × (validate_tool_call_order ms ≡ ok tt)
    × ((turn.is_request ms ≡ true)
        ⊎ ((artifact : Message) × (retained : List Message) × (ms ≡ artifact ∷ retained)
            × (tokens_fit turn artifact retained ≡ true)
            × (bytes_fit turn artifact retained ≡ true)))
IsAdjusted turn target (err e) = IsTargetRefusal e

IsAdjusted-weaken :
    (turn : Turn) (wide narrow : Target) (r : Result TargetError (List Message × Target))
    → narrow.tokens ≤ wide.tokens
    → narrow.bytes ≤ wide.bytes
    → IsAdjusted turn narrow r
    → IsAdjusted turn wide r
unfolding IsAdjusted
IsAdjusted-weaken turn wide narrow (err e) h k a = a
IsAdjusted-weaken turn wide narrow (ok (ms, t)) h k (a, b, c, d, e) =
    (omega arith, omega arith, c, d, e)

module _ (turn : Turn) (valid : validate_tool_call_order turn.request_messages ≡ ok tt)
    (same : turn.is_request turn.request_messages ≡ true) where
  -- What a compaction of the request answers.
  IsMade : Target → Result TargetError (List Message) → Type 0
  IsMade t (ok ms) =
      (fits turn.outside (at_target turn.options t) ms ≡ true)
      × (validate_tool_call_order ms ≡ ok tt)
      × ((turn.is_request ms ≡ true)
          ⊎ ((artifact : Message) × (retained : List Message) × (ms ≡ artifact ∷ retained)))
  IsMade t (err e) = IsTargetRefusal e

  compacted-IsMade : (t : Target) → IsMade t (compacted turn t)
  unfolding compacted IsMade IsTargetRefusal IsCompacted
  compacted-IsMade t =
      let (bundles, run, outcome) =
        compact_messages-IsCompacted turn.outside (at_target turn.options t) turn.request_messages
          valid in
      let C = IsCompacted turn.outside (at_target turn.options t) turn.request_messages bundles in
      Result-under (IsMade t)
        (compact_messages turn.outside (at_target turn.options t) turn.request_messages)
        (λ e h. inr (inr (inr (e, (subst C h outcome).0, refl))))
        (λ ms h.
          let (fit, ordered, shape) : C (ok ms) = subst C h outcome in
          (
            fit,
            ordered,
            elim shape [
              | inl k ↦ inl (ap turn.is_request k ∙ same)
              | inr (n, text, metadata, sections, framing, k) ↦ inr (_, _, k)
            ],
          ))

  >>=-IsAdjusted :
      (t : Target) (r : Result TargetError (List Message))
      (again : List Message → Result TargetError (List Message × Target))
      → ((ms : List Message) → IsMade t (ok ms) → IsAdjusted turn t (again ms))
      → IsMade t r
      → IsAdjusted turn t (r >>= again)
  unfolding IsMade IsAdjusted
  >>=-IsAdjusted t (ok ms) again go made = go ms made
  >>=-IsAdjusted t (err e) again go made = made

  proceed-IsAdjusted :
      (rounds : ℕ) (target : Target) (artifact : Message) (retained : List Message)
      (again : Target → Result TargetError (List Message × Target))
      (r : Result TargetError (Option Target))
      → IsMade target (ok (artifact ∷ retained))
      → (suc rounds ≤ length turn.request_messages + 1 → (t : Target) → IsAdjusted turn t (again t))
      → IsNext turn target artifact retained r
      → IsAdjusted turn target (proceed turn rounds again (artifact ∷ retained, target) r)
  unfolding proceed IsNext IsAdjusted IsMade IsTargetRefusal
  proceed-IsAdjusted rounds target artifact retained again (err e) made go next = next
  proceed-IsAdjusted rounds target artifact retained again (ok none) (fit, ordered, shape) go
        (t, b) =
      (omega arith, omega arith, fit, ordered, inr (artifact, retained, refl, t, b))
  proceed-IsAdjusted rounds target artifact retained again (ok (some tighter)) made go
        (t, b, less) =
      bool-under (IsAdjusted turn target) (ltb (length turn.request_messages + 1) (suc rounds))
        (λ many. inr (inr (inl refl)))
        (λ few.
          IsAdjusted-weaken turn target tighter (again tighter) t b
            (go (ltb-false _ _ few) tighter))

  adjust-IsAdjusted :
      (fuel rounds : ℕ) (target : Target) (ms : List Message)
      → length turn.request_messages + 3 ≤ fuel + rounds
      → rounds ≤ length turn.request_messages + 1
      → IsMade target (ok ms)
      → IsAdjusted turn target (adjust turn fuel rounds target ms)
  unfolding adjust IsAdjusted IsMade IsNext IsTargetRefusal
  adjust-IsAdjusted zero rounds target ms enough few made = absurd (omega arith)
  adjust-IsAdjusted (suc fuel) rounds target [] enough few (fit, ordered, shape) =
      bool-under (IsAdjusted turn target) (turn.is_request [])
        (λ t. (omega arith, omega arith, fit, ordered, inl t))
        (λ f. elim shape [ inl t ↦ cc | inr (artifact, retained, e) ↦ cc ])
  adjust-IsAdjusted (suc fuel) rounds target (artifact ∷ retained) enough few
        (fit, ordered, shape) =
      bool-under (IsAdjusted turn target) (turn.is_request (artifact ∷ retained))
        (λ t. (omega arith, omega arith, fit, ordered, inl t))
        (λ f.
          proceed-IsAdjusted rounds target artifact retained
            (λ tighter. compacted turn tighter >>= adjust turn fuel (suc rounds) tighter)
            (next_compaction_targets turn target artifact retained) (fit, ordered, shape)
            (λ fewer t.
              >>=-IsAdjusted t (compacted turn t) (adjust turn fuel (suc rounds) t)
                (λ ms made. adjust-IsAdjusted fuel (suc rounds) t ms (omega arith) fewer made)
                (compacted-IsMade t))
            (next_compaction_targets-IsNext turn target artifact retained))

  -- For a valid request that is equal to itself, the compaction to a budget ends. If it returns, the
  -- messages pass the validation, fit a target no wider than the first, and are the request or fit
  -- the budget that is left beside them; otherwise there is no space for the target, the loop did not
  -- converge within its rounds, or the compaction refused for want of space. It never stops because
  -- a target did not shrink.
  pub compact_to_budget-IsAdjusted :
      (target : Target) → IsAdjusted turn target (compact_to_budget turn target)
  unfolding compact_to_budget
  compact_to_budget-IsAdjusted target =
      >>=-IsAdjusted target (compacted turn target)
        (adjust turn (length turn.request_messages + 3) 0 target)
        (λ ms made.
          adjust-IsAdjusted (length turn.request_messages + 3) 0 target ms (omega arith)
            (omega arith) made)
        (compacted-IsMade target)
