-- ===== src/Runner/Repair/Results.antt =====
-- The results that complete an open cycle, and a whole cycle, which needs none (agent/runner.py).
use borealis_coder.Prelude.{
  String, ◌≡◌, refl, ap, subst, ◌∙◌, true, false, not, ◌||◌, ◌&&◌, none, some, List, [], ◌∷◌, ◌++◌,
  str_eq, str_eq_iff, elem, elem-append, any, map, distinct, subset, subset-intro, subset-elem,
  distinct-append, All, All-append, if-both, arith, Bool-cases, inl, inr,
}
use borealis_coder.Prelude.Chars.{is_blank}
use borealis_coder.Models.{ToolCall, Message}
use borealis_coder.Compaction.ToolOrder.{
  is_result, has_calls, call_ids, result_id, expected_name, names_other,
}
use borealis_coder.Compaction.ToolOrder.Grammar.{IsCycle, result_ids}
use borealis_coder.Runner.Repair.{observed_ids, repair, repairs_for}

-- The call message `m` with results `rs` of some of its calls.
pub record IsOpen (m : Message) (rs : List Message) : Type 0 where
  pub calls : has_calls m ≡ true
  pub named : any is_blank (call_ids m) ≡ false
  pub distinct_calls : distinct (call_ids m) ≡ true
  pub results : All (λ r. is_result r ≡ true) rs
  pub names_fit : All (λ r. names_other r m.tool_calls ≡ false) rs
  pub expected : subset (result_ids rs) (call_ids m) ≡ true
  pub once : distinct (result_ids rs) ≡ true

module _ (new_id : ToolCall → String) (now : String) (running : List String) where
  result_ids-repairs_for :
      (observed : List String) (cs : List ToolCall) (i : String)
      → elem i (result_ids (repairs_for new_id now running observed cs))
        ≡ (elem i (map (λ c. c.id) cs) && not (elem i observed))
  unfolding repairs_for repair
  result_ids-repairs_for observed [] i = refl
  result_ids-repairs_for observed (c ∷ cs) i =
      ground (arith, result_ids-repairs_for observed cs i, str_eq_iff c.id i)

  repairs_for-results :
      (observed : List String) (cs : List ToolCall)
      → All (λ r. is_result r ≡ true) (repairs_for new_id now running observed cs)
  unfolding repairs_for repair
  repairs_for-results observed [] = tt
  repairs_for-results observed (c ∷ cs) =
      let rest = repairs_for-results observed cs in
      if-both (All (λ r. is_result r ≡ true)) (elem c.id observed) rest (refl, rest)

  distinct-repairs_for :
      (observed : List String) (cs : List ToolCall)
      → distinct (map (λ c. c.id) cs) ≡ true
      → distinct (result_ids (repairs_for new_id now running observed cs)) ≡ true
  unfolding repairs_for repair
  distinct-repairs_for observed [] h = refl
  distinct-repairs_for observed (c ∷ cs) h =
      ground (arith, distinct-repairs_for observed cs, result_ids-repairs_for observed cs c.id)

  -- The name of a call is the one expected for its id.
  expected_name-none :
      (i : String) (cs : List ToolCall)
      → elem i (map (λ c. c.id) cs) ≡ false
      → expected_name i cs ≡ none
  unfolding expected_name
  expected_name-none i [] h = refl
  expected_name-none i (c ∷ cs) h = ground (arith, expected_name-none i cs)

  Fits : List ToolCall → Message → Type 0
  Fits calls r = names_other r calls ≡ false

  repair-Fits :
      (c : ToolCall) (cs : List ToolCall)
      → expected_name c.id cs ≡ some c.name
      → Fits cs (repair new_id now running c)
  unfolding Fits repair names_other
  repair-Fits c cs h =
      let same : str_eq c.name c.name ≡ true = (str_eq_iff c.name c.name).1 refl in
      rw (h, same) (ground arith)

  repairs_for-Fits :
      (observed : List String) (cs calls : List ToolCall)
      → All (λ (c : ToolCall). expected_name c.id calls ≡ some c.name) cs
      → All (Fits calls) (repairs_for new_id now running observed cs)
  unfolding repairs_for
  repairs_for-Fits observed [] calls h = tt
  repairs_for-Fits observed (c ∷ cs) calls (h, hs) =
      let rest = repairs_for-Fits observed cs calls hs in
      if-both (All (Fits calls)) (elem c.id observed) rest (repair-Fits c calls h, rest)

  expected_name-cons :
      (c : ToolCall) (cs ds : List ToolCall)
      → All (λ (d : ToolCall). expected_name d.id cs ≡ some d.name) ds
      → All (λ (d : ToolCall). expected_name d.id (c ∷ cs) ≡ some d.name) ds
  unfolding expected_name
  expected_name-cons c cs [] h = tt
  expected_name-cons c cs (d ∷ ds) (h, hs) = (rw h refl, expected_name-cons c cs ds hs)

  expected_name_self :
      (c : ToolCall) (cs : List ToolCall)
      → elem c.id (map (λ d. d.id) cs) ≡ false
      → expected_name c.id (c ∷ cs) ≡ some c.name
  unfolding expected_name
  expected_name_self c cs h =
      let absent = expected_name-none c.id cs h in
      let same : str_eq c.id c.id ≡ true = (str_eq_iff c.id c.id).1 refl in rw (absent, same) refl

  expected_names_distinct :
      (cs : List ToolCall)
      → distinct (map (λ c. c.id) cs) ≡ true
      → All (λ (c : ToolCall). expected_name c.id cs ≡ some c.name) cs
  expected_names_distinct [] h = tt
  expected_names_distinct (c ∷ cs) h = (
    expected_name_self c cs (ground arith),
    expected_name-cons c cs cs (expected_names_distinct cs (ground arith)),
  )

  result_ids-append :
      (xs ys : List Message) → result_ids (xs ++ ys) ≡ result_ids xs ++ result_ids ys
  result_ids-append [] ys = refl
  result_ids-append (x ∷ xs) ys = ap (λ is. result_id x ∷ is) (result_ids-append xs ys)

  -- The ids of results are observed, but the empty id.
  elem-observed_ids :
      (rs : List Message) (i : String)
      → All (λ r. is_result r ≡ true) rs
      → str_eq i "" ≡ false
      → elem i (observed_ids rs) ≡ elem i (result_ids rs)
  unfolding observed_ids
  elem-observed_ids [] i h e = refl
  elem-observed_ids (r ∷ rs) i (h, hs) e =
      ground (arith, elem-observed_ids rs i hs e, str_eq_iff (result_id r) i)

  elem-blank : (is : List String) → elem "" is ≡ true → any is_blank is ≡ true
  elem-blank [] h = cc
  elem-blank (j ∷ is) h = elim (Bool-cases (str_eq j "")) [
    | inl e ↦
        let blank : is_blank "" ≡ true = unfold is_blank in refl in
        let first : is_blank j ≡ true = ap is_blank ((str_eq_iff j "").0 e) ∙ blank in rw first refl
    | inr e ↦ let later = elem-blank is (subst (λ b. (b || elem "" is) ≡ true) e h) in ground arith
  ]

  named-not_empty :
      (is : List String) (i : String)
      → any is_blank is ≡ false
      → elem i is ≡ true
      → str_eq i "" ≡ false
  named-not_empty is i h k = elim (Bool-cases (str_eq i "")) [
    | inl e ↦
        let blank = elem-blank is (subst (λ j. elem j is ≡ true) ((str_eq_iff i "").0 e) k) in
        absurd cc
    | inr e ↦ e
  ]

  pub IsOpen-closed :
      (m : Message) (rs : List Message)
      → IsOpen m rs
      → IsCycle m (rs ++ repairs_for new_id now running (observed_ids rs) m.tool_calls)
  unfolding Fits
  IsOpen-closed m rs o =
      let observed = observed_ids rs in
      let repairs = repairs_for new_id now running observed m.tool_calls in
      let split = result_ids-append rs repairs in
      let repaired = result_ids-repairs_for observed m.tool_calls in
      let seen : (i : String)
          → elem i (call_ids m) ≡ true
          → elem i observed ≡ elem i (result_ids rs) =
        λ i k. elem-observed_ids rs i o.results (named-not_empty (call_ids m) i o.named k) in
      record {
        calls = o.calls;
        named = o.named;
        distinct_calls = o.distinct_calls;
        results = All-append _ rs repairs o.results (repairs_for-results observed m.tool_calls);
        names_fit = All-append _ rs repairs o.names_fit (
            repairs_for-Fits observed m.tool_calls m.tool_calls
              (expected_names_distinct m.tool_calls o.distinct_calls));
        expected = rw split (
            subset-intro (result_ids rs ++ result_ids repairs) (call_ids m) (λ i k. ground (
              arith,
              elem-append i (result_ids rs) (result_ids repairs),
              repaired i,
              subset-elem (result_ids rs) (call_ids m) i o.expected,
            )));
        once = rw split (
            distinct-append (result_ids rs) (result_ids repairs) o.once
              (distinct-repairs_for observed m.tool_calls o.distinct_calls)
              (λ i k. ground (arith, repaired i, seen i)));
        answered = rw split (
            subset-intro (call_ids m) (result_ids rs ++ result_ids repairs) (λ i k.
              ground
                (arith, elem-append i (result_ids rs) (result_ids repairs), repaired i, seen i)));
      }

  repairs_for-nil :
      (observed : List String) (cs : List ToolCall)
      → ((i : String) → elem i (map (λ c. c.id) cs) ≡ true → elem i observed ≡ true)
      → repairs_for new_id now running observed cs ≡ []
  unfolding repairs_for
  repairs_for-nil observed [] h = refl
  repairs_for-nil observed (c ∷ cs) h =
      let first =
        h c.id (ap (λ b. b || elem c.id (map (λ d. d.id) cs)) ((str_eq_iff c.id c.id).1 refl)) in
      rw first (repairs_for-nil observed cs (λ i k. h i (ground arith)))

  pub IsCycle-no_repairs :
      (m : Message) (rs : List Message)
      → IsCycle m rs
      → repairs_for new_id now running (observed_ids rs) m.tool_calls ≡ []
  IsCycle-no_repairs m rs c = repairs_for-nil (observed_ids rs) m.tool_calls (λ i k.
      elem-observed_ids rs i c.results (named-not_empty (call_ids m) i c.named k)
      ∙ subset-elem (call_ids m) (result_ids rs) i c.answered k)
