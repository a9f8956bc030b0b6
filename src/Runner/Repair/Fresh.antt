-- ===== src/Runner/Repair/Fresh.antt =====
-- The calls that pass the check of their ids (agent/runner.py).
use borealis_coder.Prelude.{
  String, ◌≡◌, refl, ap, subst, ◌∙◌, true, false, none, List, [], ◌∷◌, ◌++◌, any, map, distinct,
  disjoint, disjoint-cons, disjoint-append, disjoint-append_left, disjoint-append_right,
  disjoint-nil, subset, append_assoc, All, arith, Bool-cases, Option-cases, inl, inr, ok,
  if◌then◌else◌,
}
use borealis_coder.Prelude.Chars.{is_blank}
use borealis_coder.Models.{Role, role_eq, ToolCall, Message}
use borealis_coder.Compaction.ToolOrder.{
  is_result, has_calls, names_other, call_ids, validate_tool_call_order,
}
use borealis_coder.Compaction.ToolOrder.Grammar.{
  Ordered, done, plain, cycle, result_ids, validate_tool_call_order_iff,
}
use borealis_coder.Runner.Repair.{
  durable_ids, duplicate_in, duplicate_tool_call_id, blank_tool_call_id, validate_new_tool_call_ids,
  abandoned_tool_call_results,
}
use borealis_coder.Runner.Repair.Results.{IsOpen}
use borealis_coder.Runner.Repair.Closed.{
  Resumable, quiet, closed, unfinished, abandoned_tool_call_results-Resumable,
}

abbrev ids : List ToolCall → List String
ids = map (λ c. c.id)

blank-none :
    (calls : List ToolCall) → blank_tool_call_id calls ≡ none → any is_blank (ids calls) ≡ false
unfolding blank_tool_call_id
blank-none [] h = refl
blank-none (c ∷ cs) h = ground (arith, blank-none cs)

duplicate-none :
    (durable batch : List String) (calls : List ToolCall)
    → duplicate_in durable batch calls ≡ none
    → (distinct (ids calls) ≡ true)
      × (disjoint (ids calls) durable ≡ true)
      × (disjoint (ids calls) batch ≡ true)
unfolding duplicate_in
duplicate-none durable batch [] h = (refl, refl, refl)
duplicate-none durable batch (c ∷ cs) h =
    ground (arith, duplicate-none durable (c.id ∷ batch) cs, disjoint-cons (ids cs) c.id batch)

-- Results have no durable ids.
durable_ids-results :
    (rs rest : List Message)
    → All (λ r. is_result r ≡ true) rs
    → durable_ids (rs ++ rest) ≡ durable_ids rest
unfolding durable_ids
durable_ids-results [] rest h = refl
durable_ids-results (r ∷ rs) rest (h, hs) =
    let other : role_eq r.role Role.assistant ≡ false = ground arith in
    rw other (durable_ids-results rs rest hs)

module _ (a : Message) (rs : List Message) (o : IsOpen a rs) where
  Ordered-Resumable :
      {known : List String} {ms : List Message}
      → Ordered known ms
      → disjoint (call_ids a) known ≡ true
      → disjoint (call_ids a) (durable_ids ms) ≡ true
      → Resumable known (ms ++ a ∷ rs)
  unfolding durable_ids
  Ordered-Resumable done k d = unfinished rs o k
  Ordered-Resumable (plain {m = m} {ms = ms} other calls r) k d =
      let rest : disjoint (call_ids a) (durable_ids ms) ≡ true =
        elim (Bool-cases (role_eq m.role Role.assistant)) [
          | inl e ↦ disjoint-append_right (call_ids a) (call_ids m) (durable_ids ms) (
              subst
                (λ b.
                  disjoint (call_ids a) (if b then call_ids m ++ durable_ids ms else durable_ids ms)
                  ≡ true)
                e d)
          | inr e ↦
              subst
                (λ b.
                  disjoint (call_ids a) (if b then call_ids m ++ durable_ids ms else durable_ids ms)
                  ≡ true)
                e d
        ] in
      quiet other calls (Ordered-Resumable r k rest)
  Ordered-Resumable (cycle {known = known} {m = m} {ms = ms} ks rest c fresh split r) k d =
      let assistant : role_eq m.role Role.assistant ≡ true = ground (arith, c.calls) in
      let both : disjoint (call_ids a) (call_ids m ++ durable_ids ms) ≡ true =
        subst
          (λ b.
            disjoint (call_ids a) (if b then call_ids m ++ durable_ids ms else durable_ids ms)
            ≡ true)
          assistant d in
      let later : disjoint (call_ids a) (durable_ids rest) ≡ true =
        subst (λ is. disjoint (call_ids a) is ≡ true)
          (ap durable_ids split ∙ durable_ids-results ks rest c.results)
          (disjoint-append_right (call_ids a) (call_ids m) (durable_ids ms) both) in
      let first = disjoint-append_left (call_ids a) (call_ids m) (durable_ids ms) both in
      closed ks (rest ++ a ∷ rs) c fresh
        (ap (λ xs. xs ++ a ∷ rs) split ∙ append_assoc ks rest (a ∷ rs))
        (Ordered-Resumable r (disjoint-append (call_ids a) (call_ids m) known first k) later)

-- What a check of ids that returns has seen.
validate_new-seen :
    (calls : List ToolCall) (ms : List Message)
    → validate_new_tool_call_ids calls ms ≡ ok tt
    → (any is_blank (ids calls) ≡ false)
      × (distinct (ids calls) ≡ true)
      × (disjoint (ids calls) (durable_ids ms) ≡ true)
unfolding validate_new_tool_call_ids duplicate_tool_call_id
validate_new-seen calls ms h = elim (Option-cases (blank_tool_call_id calls)) [
  | inl named ↦ elim (Option-cases (duplicate_in (durable_ids ms) [] calls)) [
    | inl apart ↦
        let (once, fresh, unused) = duplicate-none (durable_ids ms) [] calls apart in
        (blank-none calls named, once, fresh)
    | inr (i, e) ↦ absurd (ground arith)
  ]
  | inr (i, e) ↦ absurd (ground arith)
]

-- Calls whose ids are accepted behind a valid history can always be completed: with any results of
-- some of them behind their message, each once and with fitting names, the history is completed by
-- the error results that are returned when the run has ended there.
pub validate_new_tool_call_ids-closed :
    (new_id : ToolCall → String) (now : String) (running : List String) (ms : List Message)
    (a : Message) (rs : List Message)
    → validate_tool_call_order ms ≡ ok tt
    → validate_new_tool_call_ids a.tool_calls ms ≡ ok tt
    → has_calls a ≡ true
    → All (λ r. is_result r ≡ true) rs
    → All (λ r. names_other r a.tool_calls ≡ false) rs
    → subset (result_ids rs) (call_ids a) ≡ true
    → distinct (result_ids rs) ≡ true
    → (repairs : List Message) × (abandoned_tool_call_results new_id now (ms ++ a ∷ rs) running
        ≡ ok repairs)
      × (validate_tool_call_order ((ms ++ a ∷ rs) ++ repairs) ≡ ok tt)
validate_new_tool_call_ids-closed new_id now running ms a rs valid accepted calls results fit
      expected once =
    let (named, apart, fresh) = validate_new-seen a.tool_calls ms accepted in
    let o : IsOpen a rs = record {
      calls = calls;
      named = named;
      distinct_calls = apart;
      results = results;
      names_fit = fit;
      expected = expected;
      once = once;
    } in
    let history =
      Ordered-Resumable a rs o ((validate_tool_call_order_iff ms).0 valid)
        (disjoint-nil (call_ids a)) fresh in
    let (repairs, returned, completed, errors) =
      abandoned_tool_call_results-Resumable new_id now running (ms ++ a ∷ rs) history in
    (repairs, returned, completed)
