-- ===== src/Runner/Repair/Closed.antt =====
-- The histories that a stopped run leaves, and their completion (agent/runner.py).
use borealis_coder.Prelude.{
  String, ◌≡◌, refl, sym, ap, subst, ◌∙◌, true, false, Option, none, some, List, [], ◌∷◌, ◌++◌,
  elem, disjoint, append-nil, append_assoc, All, if-both, arith, Bool-cases, Option-cases, inl, inr,
  ok, if◌then◌else◌,
}
use borealis_coder.Models.{Role, role_eq, ToolCall, Message}
use borealis_coder.Compaction.ToolOrder.{
  is_result, has_calls, nonempty, call_ids, validate_tool_call_order,
}
use borealis_coder.Compaction.ToolOrder.Grammar.{
  IsCycle, Ordered, done, plain, cycle, validate_tool_call_order_iff,
}
use borealis_coder.Runner.Repair.{
  last_other, observed_ids, repair, repairs_for, abandoned_tool_call_results,
}
use borealis_coder.Runner.Repair.Results.{IsOpen, IsOpen-closed, IsCycle-no_repairs}

-- The histories of the grammar, but that the last call message may miss results.
pub data Resumable : List String → List Message → Type 0 where
  finished : {known : List String} → Resumable known []
  quiet :
      {known : List String} {m : Message} {ms : List Message}
      → is_result m ≡ false
      → has_calls m ≡ false
      → Resumable known ms
      → Resumable known (m ∷ ms)
  closed :
      {known : List String} {m : Message} {ms : List Message} (rs rest : List Message)
      → IsCycle m rs
      → disjoint (call_ids m) known ≡ true
      → ms ≡ rs ++ rest
      → Resumable (call_ids m ++ known) rest
      → Resumable known (m ∷ ms)
  unfinished :
      {known : List String} {m : Message} (rs : List Message)
      → IsOpen m rs
      → disjoint (call_ids m) known ≡ true
      → Resumable known (m ∷ rs)

-- Behind results alone, the loop stops at the message before them.
last_other-results : (rs : List Message) → All (λ r. is_result r ≡ true) rs → last_other rs ≡ none
unfolding last_other
last_other-results [] h = refl
last_other-results (r ∷ rs) (h, hs) = rw (last_other-results rs hs, h) refl

last_other-front :
    (m : Message) (rs : List Message)
    → is_result m ≡ false
    → All (λ r. is_result r ≡ true) rs
    → last_other (m ∷ rs) ≡ some ([], m, rs)
unfolding last_other
last_other-front m rs h hs = rw (last_other-results rs hs, h) refl

module _ (new_id : ToolCall → String) (now : String) (running : List String) where
  -- The repairs, before the result is checked.
  repairs_of : Option (List Message × Message × List Message) → List Message
  repairs_of none = []
  repairs_of (some (before, a, results)) =
      if has_calls a then repairs_for new_id now running (observed_ids results) a.tool_calls else []

  -- A message that is no result is found, and no message in front of it matters.
  last_other-some :
      (m : Message) (ms : List Message)
      → is_result m ≡ false
      → (x : List Message × Message × List Message) × (last_other (m ∷ ms) ≡ some x)
  unfolding last_other
  last_other-some m ms h = elim (Option-cases (last_other ms)) [
    | inl e ↦ (([], m, ms), rw (last_other, e, h) refl)
    | inr (x, e) ↦ ((m ∷ x.0, x.1, x.2), rw (last_other, e) refl)
  ]

  last_other-behind :
      (ps ms : List Message) (x : List Message × Message × List Message)
      → last_other ms ≡ some x
      → (before : List Message) × (last_other (ps ++ ms) ≡ some (before, x.1, x.2))
  unfolding last_other
  last_other-behind [] ms x h = (x.0, h)
  last_other-behind (p ∷ ps) ms x h =
      let (before, e) = last_other-behind ps ms x h in (p ∷ before, rw e refl)

  repairs_of-behind :
      (ps : List Message) (m : Message) (ms : List Message)
      → is_result m ≡ false
      → repairs_of (last_other (ps ++ m ∷ ms)) ≡ repairs_of (last_other (m ∷ ms))
  unfolding repairs_of
  repairs_of-behind ps m ms h =
      let (x, e) = last_other-some m ms h in
      let (before, f) = last_other-behind ps (m ∷ ms) x e in rw (e, f) refl

  Resumable-head :
      {known : List String} {m : Message} {ms : List Message}
      → Resumable known (m ∷ ms)
      → is_result m ≡ false
  Resumable-head (quiet other calls r) = other
  Resumable-head (closed rs rest c fresh split r) = ground (arith, c.calls)
  Resumable-head (unfinished rs o fresh) = ground (arith, o.calls)

  -- The history with its repairs.
  abbrev completed : List Message → List Message
  completed ms = ms ++ repairs_of (last_other ms)

  completed-behind :
      (ps : List Message) (m : Message) (ms : List Message)
      → is_result m ≡ false
      → completed (ps ++ m ∷ ms) ≡ ps ++ completed (m ∷ ms)
  completed-behind ps m ms h =
      rw (repairs_of-behind ps m ms h) (append_assoc ps (m ∷ ms) (repairs_of (last_other (m ∷ ms))))

  completed-front :
      (m : Message) (rs : List Message)
      → has_calls m ≡ true
      → All (λ r. is_result r ≡ true) rs
      → completed (m ∷ rs)
        ≡ m ∷ (rs ++ repairs_for new_id now running (observed_ids rs) m.tool_calls)
  unfolding repairs_of
  completed-front m rs c h =
      let other : is_result m ≡ false = ground (arith, c) in
      rw (last_other-front m rs other h, c) refl

  completed-nil : completed [] ≡ []
  unfolding repairs_of last_other
  completed-nil = refl

  completed-quiet :
      (m : Message) → is_result m ≡ false → has_calls m ≡ false → completed (m ∷ []) ≡ m ∷ []
  unfolding repairs_of
  completed-quiet m other calls = rw (last_other-front m [] other tt, calls) refl

  Resumable-Ordered :
      {known : List String} {ms : List Message} → Resumable known ms → Ordered known (completed ms)
  Resumable-Ordered finished = rw completed-nil done
  Resumable-Ordered (quiet {m = m} {ms = []} other calls r) =
      rw (completed-quiet m other calls) (plain other calls done)
  Resumable-Ordered (quiet {m = m} {ms = k ∷ ks} other calls r) =
      rw (completed-behind (m ∷ []) k ks (Resumable-head r))
        (plain other calls (Resumable-Ordered r))
  Resumable-Ordered (closed {m = m} rs [] c fresh split r) =
      rw
        (
          split,
          append-nil rs,
          completed-front m rs c.calls c.results,
          IsCycle-no_repairs new_id now running m rs c,
        )
        (cycle rs [] c fresh refl done)
  Resumable-Ordered (closed {m = m} rs (k ∷ ks) c fresh split r) =
      rw (split, completed-behind (m ∷ rs) k ks (Resumable-head r))
        (cycle rs (completed (k ∷ ks)) c fresh refl (Resumable-Ordered r))
  Resumable-Ordered (unfinished {m = m} rs o fresh) = rw (completed-front m rs o.calls o.results) (
      cycle (rs ++ repairs_for new_id now running (observed_ids rs) m.tool_calls) []
        (IsOpen-closed new_id now running m rs o) fresh
        (sym (append-nil (rs ++ repairs_for new_id now running (observed_ids rs) m.tool_calls)))
        done)

  abandoned-completed :
      (ms : List Message)
      → validate_tool_call_order (completed ms) ≡ ok tt
      → abandoned_tool_call_results new_id now ms running ≡ ok (repairs_of (last_other ms))
  unfolding abandoned_tool_call_results repairs_of
  abandoned-completed ms h = elim (Option-cases (last_other ms)) [
    | inl e ↦
        let valid : validate_tool_call_order ms ≡ ok tt =
          ap validate_tool_call_order (sym (append-nil ms))
          ∙ subst (λ o. validate_tool_call_order (ms ++ repairs_of o) ≡ ok tt) e h in
        rw (abandoned_tool_call_results, e, valid) refl
    | inr ((before, a, results), e) ↦
        let checked = subst (λ o. validate_tool_call_order (ms ++ repairs_of o) ≡ ok tt) e h in
        elim (Bool-cases (has_calls a)) [
          | inl called ↦
              let assistant : role_eq a.role Role.assistant ≡ true = ground arith in
              let calls : nonempty a.tool_calls ≡ true = ground arith in
              let valid : validate_tool_call_order
                    (ms ++ repairs_for new_id now running (observed_ids results) a.tool_calls)
                  ≡ ok tt =
                subst
                  (λ b.
                    validate_tool_call_order (
                      ms
                      ++ (if b
                          then repairs_for new_id now running (observed_ids results) a.tool_calls
                          else []))
                    ≡ ok tt)
                  called checked in
              rw (abandoned_tool_call_results, e, called, calls, assistant, valid) refl
          | inr uncalled ↦
              let valid : validate_tool_call_order ms ≡ ok tt =
                ap validate_tool_call_order (sym (append-nil ms))
                ∙ subst
                    (λ b.
                      validate_tool_call_order (
                        ms
                        ++ (if b
                            then repairs_for new_id now running (observed_ids results) a.tool_calls
                            else []))
                      ≡ ok tt)
                    uncalled checked in
              elim (Bool-cases (nonempty a.tool_calls)) [
                | inl calls ↦
                    let other : role_eq a.role Role.assistant ≡ false = ground arith in
                    rw (abandoned_tool_call_results, e, uncalled, calls, other, valid) refl
                | inr no_calls ↦ rw (abandoned_tool_call_results, e, uncalled, no_calls, valid) refl
              ]
        ]
  ]

  repairs_for-is_error :
      (observed : List String) (cs : List ToolCall)
      → All (λ (r : Message). r.is_error ≡ true) (repairs_for new_id now running observed cs)
  unfolding repairs_for repair
  repairs_for-is_error observed [] = tt
  repairs_for-is_error observed (c ∷ cs) =
      let rest = repairs_for-is_error observed cs in
      if-both (All (λ (r : Message). r.is_error ≡ true)) (elem c.id observed) rest (refl, rest)

  repairs_of-is_error :
      (o : Option (List Message × Message × List Message))
      → All (λ (r : Message). r.is_error ≡ true) (repairs_of o)
  unfolding repairs_of
  repairs_of-is_error none = tt
  repairs_of-is_error (some (before, a, results)) =
      if-both (All (λ (r : Message). r.is_error ≡ true)) (has_calls a)
        (repairs_for-is_error (observed_ids results) a.tool_calls) tt

  -- A history that a stopped run leaves is completed whatever calls were running: the call returns
  -- an error result for each call of the last call message that has none, and the history with these
  -- results passes the validation.
  pub abandoned_tool_call_results-Resumable :
      (ms : List Message)
      → Resumable [] ms
      → (repairs : List Message) × (abandoned_tool_call_results new_id now ms running ≡ ok repairs)
        × (validate_tool_call_order (ms ++ repairs) ≡ ok tt)
        × All (λ (r : Message). r.is_error ≡ true) repairs
  abandoned_tool_call_results-Resumable ms r =
      let valid = (validate_tool_call_order_iff (completed ms)).1 (Resumable-Ordered r) in
      (
        repairs_of (last_other ms),
        abandoned-completed ms valid,
        valid,
        repairs_of-is_error (last_other ms),
      )
