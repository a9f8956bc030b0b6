-- ===== src/Compaction/ToolOrder/Grammar.antt =====
-- The histories that `validate_tool_call_order` accepts, as a grammar, and the proof that it accepts
-- exactly these.
use borealis_coder.Prelude.{
  ℕ, zero, suc, ◌<◌, String, ◌≡◌, refl, sym, ap, ◌↔◌, ◌⊎◌, true, false, ◌||◌, List, [], ◌∷◌, ◌++◌,
  map, elem, distinct, disjoint, disjoint-cons, disjoint-nil, subset, subset-cong, any, All, length,
  length-append, ok, arith, Bool-cases, Result-cases, ◌∙◌, inl, inr,
}
use borealis_coder.Prelude.Chars.{is_blank}
use borealis_coder.Models.{Message}
use borealis_coder.Compaction.ToolOrder.{
  is_result, has_calls, call_ids, result_id, names_other, check_call_ids, check_results,
  validate_from, validate_tool_call_order,
}

abbrev pub result_ids : List Message → List String
result_ids = map result_id

-- The call message `m` with the results `rs` behind it: every call is answered, exactly once, by a
-- result that carries no other tool's name.
pub record IsCycle (m : Message) (rs : List Message) : Type 0 where
  pub calls : has_calls m ≡ true
  pub named : any is_blank (call_ids m) ≡ false
  pub distinct_calls : distinct (call_ids m) ≡ true
  pub results : All (λ r. is_result r ≡ true) rs
  pub names_fit : All (λ r. names_other r m.tool_calls ≡ false) rs
  pub expected : subset (result_ids rs) (call_ids m) ≡ true
  pub once : distinct (result_ids rs) ≡ true
  pub answered : subset (call_ids m) (result_ids rs) ≡ true

-- `known` holds the call ids that stood before: they are not used again.
pub data Ordered : List String → List Message → Type 0 where
  done : {known : List String} → Ordered known []
  plain :
      {known : List String} {m : Message} {ms : List Message}
      → is_result m ≡ false
      → has_calls m ≡ false
      → Ordered known ms
      → Ordered known (m ∷ ms)
  cycle :
      {known : List String} {m : Message} {ms : List Message} (rs rest : List Message)
      → IsCycle m rs
      → disjoint (call_ids m) known ≡ true
      → ms ≡ rs ++ rest
      → Ordered (call_ids m ++ known) rest
      → Ordered known (m ∷ ms)

-- What a run of the inner loop has seen when it stops.
record Seen (m : Message) (observed observed' : List String) (ms rest : List Message) : Type 0 where
  rs : List Message
  split : ms ≡ rs ++ rest
  results : All (λ r. is_result r ≡ true) rs
  names_fit : All (λ r. names_other r m.tool_calls ≡ false) rs
  expected : subset (result_ids rs) (call_ids m) ≡ true
  once : distinct (result_ids rs) ≡ true
  fresh : disjoint (result_ids rs) observed ≡ true
  gathered : (i : String) → elem i observed' ≡ (elem i (result_ids rs) || elem i observed)

Seen-cons :
    {m : Message} {observed observed' : List String} {ms rest : List Message} (r : Message)
    → is_result r ≡ true
    → names_other r m.tool_calls ≡ false
    → elem (result_id r) (call_ids m) ≡ true
    → elem (result_id r) observed ≡ false
    → Seen m (result_id r ∷ observed) observed' ms rest
    → Seen m observed observed' (r ∷ ms) rest
Seen-cons {m} {observed} r tool fits known new s = record {
  rs = r ∷ s.rs;
  split = ap (λ l. r ∷ l) s.split;
  results = (tool, s.results);
  names_fit = (fits, s.names_fit);
  expected = ground (arith, s.expected);
  once = ground (arith, s.once, s.fresh, disjoint-cons (result_ids s.rs) (result_id r) observed);
  fresh = ground (arith, s.fresh, disjoint-cons (result_ids s.rs) (result_id r) observed);
  gathered = λ i. ground (arith, s.gathered i);
}

-- A round of the inner loop that returns: it took a fitting result, or stopped in front of `r`.
check_results-inv :
    (m : Message) (observed : List String) (r : Message) (rs : List Message)
    {observed' : List String} {rest : List Message}
    → check_results m observed (r ∷ rs) ≡ ok (observed', rest)
    → (is_result r ≡ true)
        × (names_other r m.tool_calls ≡ false)
        × (elem (result_id r) (call_ids m) ≡ true)
        × (elem (result_id r) observed ≡ false)
        × (check_results m (result_id r ∷ observed) rs ≡ ok (observed', rest))
      ⊎ (is_result r ≡ false) × (observed' ≡ observed) × (rest ≡ r ∷ rs)
unfolding check_results
check_results-inv m observed r rs h = ground arith

Seen-nil :
    (m : Message) (observed : List String) (ms : List Message) → Seen m observed observed ms ms
Seen-nil m observed ms = record {
  rs = [];
  split = refl;
  results = tt;
  names_fit = tt;
  expected = refl;
  once = refl;
  fresh = refl;
  gathered = λ i. refl;
}

check_results-nil :
    (m : Message) (observed : List String) {observed' : List String} {rest : List Message}
    → check_results m observed [] ≡ ok (observed', rest)
    → (observed' ≡ observed) × (rest ≡ [])
unfolding check_results
check_results-nil m observed h = ground arith

check_results-Seen :
    (m : Message) (observed : List String) (ms : List Message) {observed' : List String}
    {rest : List Message}
    → check_results m observed ms ≡ ok (observed', rest)
    → Seen m observed observed' ms rest
check_results-Seen m observed [] h =
    let (same, stop) = check_results-nil m observed h in rw (same, stop) (Seen-nil m observed [])
check_results-Seen m observed (r ∷ rs) h = elim (check_results-inv m observed r rs h) [
  | inl (tool, fits, known, new, more) ↦
      Seen-cons r tool fits known new (check_results-Seen m (result_id r ∷ observed) rs more)
  | inr (other, same, stop) ↦ rw (same, stop) (Seen-nil m observed (r ∷ rs))
]

-- What an accepted call message passed, and where the outer loop goes on.
validate_from-inv :
    (fuel : ℕ) (known : List String) (m : Message) (ms : List Message)
    → validate_from (suc fuel) known (m ∷ ms) ≡ ok tt
    → (is_result m ≡ false) × (has_calls m ≡ false) × (validate_from fuel known ms ≡ ok tt)
      ⊎ (observed : List String) × (rest : List Message) × (has_calls m ≡ true)
        × (any is_blank (call_ids m) ≡ false)
        × (distinct (call_ids m) ≡ true)
        × (disjoint (call_ids m) known ≡ true)
        × (check_results m [] ms ≡ ok (observed, rest))
        × (subset (call_ids m) observed ≡ true)
        × (validate_from fuel (call_ids m ++ known) rest ≡ ok tt)
unfolding validate_from check_call_ids
validate_from-inv fuel known m ms h = elim (Bool-cases (has_calls m)) [
  | inr none_called ↦ inl (ground arith, none_called, ground arith)
  | inl called ↦ elim (Result-cases (check_results m [] ms)) [
    | inl ((observed, rest), e) ↦ inr (
      observed,
      rest,
      called,
      ground arith,
      ground arith,
      ground arith,
      e,
      ground arith,
      ground arith,
    )
    | inr (x, e) ↦ ground arith
  ]
]

Seen-IsCycle :
    {m : Message} {observed : List String} {ms rest : List Message} (s : Seen m [] observed ms rest)
    → has_calls m ≡ true
    → any is_blank (call_ids m) ≡ false
    → distinct (call_ids m) ≡ true
    → subset (call_ids m) observed ≡ true
    → IsCycle m s.rs
Seen-IsCycle {m} {observed} s called named apart full = record {
  calls = called;
  named = named;
  distinct_calls = apart;
  results = s.results;
  names_fit = s.names_fit;
  expected = s.expected;
  once = s.once;
  answered =
      sym (subset-cong (call_ids m) observed (result_ids s.rs) (λ i. ground (arith, s.gathered i)))
      ∙ full;
}

validate_from-Ordered :
    (fuel : ℕ) (known : List String) (ms : List Message)
    → validate_from fuel known ms ≡ ok tt
    → Ordered known ms
unfolding validate_from
validate_from-Ordered zero known ms h = cc
validate_from-Ordered (suc fuel) known [] h = done
validate_from-Ordered (suc fuel) known (m ∷ ms) h = elim (validate_from-inv fuel known m ms h) [
  | inl (other, quiet, more) ↦ plain other quiet (validate_from-Ordered fuel known ms more)
  | inr (observed, rest, called, named, apart, fresh, run, full, more) ↦
      let s = check_results-Seen m [] ms run in
      cycle s.rs rest (Seen-IsCycle s called named apart full) fresh s.split
        (validate_from-Ordered fuel (call_ids m ++ known) rest more)
]

-- The first message of an accepted history is no tool result.
pub Ordered-head :
    {known : List String} {m : Message} {ms : List Message}
    → Ordered known (m ∷ ms)
    → is_result m ≡ false
Ordered-head (plain other quiet o) = other
Ordered-head (cycle rs rest c fresh split o) = ground (arith, c.calls)

-- The inner loop takes all of the results `rs` and stops before `rest`.
check_results-append :
    (m : Message) (observed : List String) (rs rest : List Message)
    → ((r : Message) (more : List Message) → rest ≡ r ∷ more → is_result r ≡ false)
    → All (λ r. is_result r ≡ true) rs
    → All (λ r. names_other r m.tool_calls ≡ false) rs
    → subset (result_ids rs) (call_ids m) ≡ true
    → distinct (result_ids rs) ≡ true
    → disjoint (result_ids rs) observed ≡ true
    → (observed' : List String) × (check_results m observed (rs ++ rest) ≡ ok (observed', rest))
      × ((i : String) → elem i observed' ≡ (elem i (result_ids rs) || elem i observed))
unfolding check_results
check_results-append m observed [] [] stop _ _ _ _ _ = (observed, refl, λ i. refl)
check_results-append m observed [] (r ∷ rest) stop _ _ _ _ _ =
    (observed, ground (arith, stop r rest refl), λ i. refl)
check_results-append m observed (r ∷ rs) rest stop tool fits known once fresh =
    let (observed', run, seen) =
      check_results-append m (result_id r ∷ observed) rs rest stop tool.1 fits.1 (ground arith)
        (ground arith) (ground (arith, disjoint-cons (result_ids rs) (result_id r) observed)) in
    (observed', ground arith, λ i. ground (arith, seen i))

-- With fuel above the length of the history the loop ends by itself and accepts the grammar.
Ordered-validate_from :
    (fuel : ℕ) (known : List String) (ms : List Message)
    → length ms < fuel
    → Ordered known ms
    → validate_from fuel known ms ≡ ok tt
unfolding validate_from
Ordered-validate_from zero known ms h o = absurd (omega arith)
Ordered-validate_from (suc fuel) known [] h o = refl
Ordered-validate_from (suc fuel) known (m ∷ ms) h (plain other quiet o) =
    ground (arith, Ordered-validate_from fuel known ms (omega arith) o)
Ordered-validate_from (suc fuel) known (m ∷ ms) h (cycle rs rest c fresh split o) =
    let (observed, run, seen) =
      check_results-append m [] rs rest (λ r more e. Ordered-head (rw e at o)) c.results c.names_fit
        c.expected c.once (disjoint-nil (result_ids rs)) in
    let full : subset (call_ids m) observed ≡ true =
      subset-cong (call_ids m) observed (result_ids rs) (λ i. ground (arith, seen i))
      ∙ c.answered in
    let next =
      Ordered-validate_from fuel (call_ids m ++ known) rest
        (omega (arith, ap length split, length-append {0} rs rest)) o in
    rw (split, run)
      (unfold check_call_ids in
        ground (arith, c.calls, c.named, c.distinct_calls, fresh, full, next))

-- A history is accepted exactly when it is one of the grammar: every assistant message with calls is
-- followed by exactly one fitting result for each of its calls, no other tool result occurs, and no
-- call id is blank or used twice.
pub validate_tool_call_order_iff :
    (ms : List Message) → (validate_tool_call_order ms ≡ ok tt) ↔ Ordered [] ms
unfolding validate_tool_call_order
validate_tool_call_order_iff ms = (
  validate_from-Ordered (suc (length ms)) [] ms,
  Ordered-validate_from (suc (length ms)) [] ms (omega arith),
)
