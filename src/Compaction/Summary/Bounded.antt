-- ===== src/Compaction/Summary/Bounded.antt =====
-- The loops of the deterministic summary (agent/compaction.py).
use borealis_coder.Prelude.{
  ◌⊎◌, some_inj, ℕ, zero, suc, ◌+◌, ◌/◌, ◌≤◌, ◌<◌, ◌≡◌, refl, sym, ap, subst, ◌∙◌, inl, inr, max,
  Bool, true, false, not, Option, none, some, List, [], ◌∷◌, ltb, length, Result, ok, err, ◌>>=◌,
  if◌then◌else◌, if-both, if-under, option-under, ltb→lt, Bool-cases, Option-cases, arith,
}
use borealis_coder.Prelude.Chars.{Text, codes, text_eq, text_eq_refl, text_eq-eq, has_prefix}
use borealis_coder.Truncation.Length.{truncate_text-le}
use borealis_coder.Compaction.Summary.{
  Heading, latest_verification, pending_work, title, Sections, set_section, framed, first_index,
  last_index, or_first, shrink_value_index, pop, omitted, halved, shrink_values, shrink_critical,
  Limits, SummaryError, does_not_fit, weight_sum, weight, within_limits, shrink_section, shrink_all,
  shrink_order, critical_shrink_order, render_deterministic_summary,
}

first_index-lt :
    (p : Text → Bool) (vs : List Text) (i : ℕ) → first_index p vs ≡ some i → i < length vs
unfolding first_index
first_index-lt p [] i h = cc
first_index-lt p (v ∷ vs) i h = elim (Option-cases (first_index p vs)) [
  | inl e ↦ ground arith
  | inr (j, e) ↦ ground (arith, first_index-lt p vs j e)
]

last_index-lt :
    (p : Text → Bool) (vs : List Text) (i : ℕ) → last_index p vs ≡ some i → i < length vs
unfolding last_index
last_index-lt p [] i h = cc
last_index-lt p (v ∷ vs) i h = elim (Option-cases (last_index p vs)) [
  | inl e ↦ ground arith
  | inr (j, e) ↦ ground (arith, last_index-lt p vs j e)
]

or_first-lt : (o : Option ℕ) (n : ℕ) → ((i : ℕ) → o ≡ some i → i < suc n) → or_first o < suc n
or_first-lt none n h = omega arith
or_first-lt (some i) n h = h i refl

shrink_value_index-lt :
    (h : Heading) (v : Text) (vs : List Text) → shrink_value_index h (v ∷ vs) < suc (length vs)
unfolding shrink_value_index
shrink_value_index-lt latest_verification v vs =
    or_first-lt _ (length vs)
      (first_index-lt (has_prefix (codes "Latest recorded git state:\n")) (v ∷ vs))
shrink_value_index-lt pending_work v vs =
    or_first-lt _ (length vs)
      (last_index-lt (λ u. not (has_prefix (codes "[in_progress]") u)) (v ∷ vs))
shrink_value_index-lt _ v vs = omega arith

weight_sum-pop : (i : ℕ) (vs : List Text) → i < length vs → weight_sum (pop i vs) < weight_sum vs
unfolding weight_sum pop
weight_sum-pop i [] h = absurd (omega arith)
weight_sum-pop zero (v ∷ vs) h = omega arith
weight_sum-pop (suc i) (v ∷ vs) h = omega (arith, weight_sum-pop i vs (omega arith))

weight-le : (vs : List Text) → weight vs ≤ suc (weight_sum vs)
unfolding weight weight_sum
weight-le [] = omega arith
weight-le (v ∷ []) = ground arith
weight-le (v ∷ w ∷ vs) = omega arith

empty-weight : weight [] ≡ 1
unfolding weight weight_sum
empty-weight = refl

weight_sum-cons : (v : Text) (vs : List Text) → weight_sum (v ∷ vs) ≡ suc (length v + weight_sum vs)
unfolding weight_sum
weight_sum-cons v vs = refl

weight_more : (v w : Text) (vs : List Text) → weight (v ∷ w ∷ vs) ≡ suc (weight_sum (v ∷ w ∷ vs))
unfolding weight
weight_more v w vs = refl

halved-lt : (v : Text) → 160 < length v → length (halved v) < length v
halved-lt v h = omega (arith, truncate_text-le v (max 160 (length v / 2)) (omega arith))

-- The values that a round leaves, if it leaves any, weigh less.
abbrev IsLighter : ℕ → Option (List Text) → Type 0
IsLighter n left = (ws : List Text) → left ≡ some ws → weight ws < n

some-IsLighter : (n : ℕ) (ws : List Text) → weight ws < n → IsLighter n (some ws)
some-IsLighter n ws h us e = subst (λ u. weight u < n) (some_inj e) h

none-IsLighter : (n : ℕ) → IsLighter n none
none-IsLighter n us e = cc

omitted-weight : weight (omitted ∷ []) ≡ 0
unfolding weight
omitted-weight = refl

weight_other : (v : Text) → text_eq v omitted ≡ false → weight (v ∷ []) ≡ suc (suc (length v))
unfolding weight
weight_other v e = ap (λ b. if b then 0 else suc (suc (length v))) e

long_other : (v : Text) → 160 < length v → text_eq v omitted ≡ false
long_other v h = elim (Bool-cases (text_eq v omitted)) [
  | inl e ↦ absurd (omega (arith, ap length (text_eq-eq v omitted e)))
  | inr e ↦ e
]

weight_one-le : (v : Text) → weight (v ∷ []) ≤ suc (suc (length v))
unfolding weight
weight_one-le v =
    if-both (λ n. n ≤ suc (suc (length v))) (text_eq v omitted) (omega arith) (omega arith)

halved-weight : (v : Text) → 160 < length v → weight (halved v ∷ []) < weight (v ∷ [])
halved-weight v long =
    omega (arith, weight_one-le (halved v), weight_other v (long_other v long), halved-lt v long)

shrink_values-IsLighter :
    (h : Heading) (vs : List Text) → IsLighter (weight vs) (shrink_values h vs)
unfolding shrink_values
shrink_values-IsLighter h [] =
    some-IsLighter _ (omitted ∷ []) (omega (arith, omitted-weight, empty-weight))
shrink_values-IsLighter h (v ∷ []) =
    let Q : Option (List Text) → Type 0 = IsLighter (weight (v ∷ [])) in
    if-under Q (ltb 160 (length v))
      (λ e. some-IsLighter _ (halved v ∷ []) (halved-weight v (ltb→lt 160 (length v) e)))
      (λ e.
        if-under Q (text_eq v omitted) (λ f. none-IsLighter _)
          (λ f. some-IsLighter _ (omitted ∷ []) (omega (arith, omitted-weight, weight_other v f))))
shrink_values-IsLighter h (v ∷ w ∷ vs) =
    let i = shrink_value_index h (v ∷ w ∷ vs) in
    some-IsLighter _ (pop i (v ∷ w ∷ vs)) (
      omega (
        arith,
        weight-le (pop i (v ∷ w ∷ vs)),
        weight_sum-pop i (v ∷ w ∷ vs) (shrink_value_index-lt h v (w ∷ vs)),
        weight_more v w vs,
      ))

shrink_critical-IsLighter :
    (h : Heading) (vs : List Text) → IsLighter (weight vs) (shrink_critical h vs)
unfolding shrink_critical
shrink_critical-IsLighter h [] = none-IsLighter _
shrink_critical-IsLighter h (v ∷ []) =
    if-under (IsLighter (weight (v ∷ []))) (ltb 160 (length v))
      (λ e. some-IsLighter _ (halved v ∷ []) (halved-weight v (ltb→lt 160 (length v) e)))
      (λ e. none-IsLighter _)
shrink_critical-IsLighter h (v ∷ w ∷ vs) =
    some-IsLighter _ (w ∷ vs)
      (omega (arith, weight-le (w ∷ vs), weight_sum-cons v (w ∷ vs), weight_more v w vs))

-- The loops.
abbrev Lightens : (Heading → List Text → Option (List Text)) → Type 0
Lightens step = (h : Heading) (vs : List Text) → IsLighter (weight vs) (step h vs)

abbrev IsReturn : Result SummaryError Sections → Type 0
IsReturn r = (s : Sections) × (r ≡ ok s)

set_section-same :
    (h : Heading) (vs : List Text) (sections : Sections) → set_section h vs sections h ≡ vs
set_section-same h vs sections = ap (λ b. if b then vs else sections h) (text_eq_refl (title h))

module _ (estimate_tokens : Text → ℕ) (utf8_length : Text → ℕ) (limits : Limits) where
  shrink_section-IsReturn :
      (step : Heading → List Text → Option (List Text))
      → Lightens step
      → (fuel : ℕ) (h : Heading) (sections : Sections) → weight (sections h) < fuel
      → IsReturn (shrink_section estimate_tokens utf8_length limits step fuel h sections)
  unfolding shrink_section
  shrink_section-IsReturn step lightens zero h sections enough = absurd (omega arith)
  shrink_section-IsReturn step lightens (suc fuel) h sections enough =
      if-both IsReturn (within_limits estimate_tokens utf8_length (framed sections) limits)
        (sections, refl)
        (option-under IsReturn (step h (sections h)) (λ e. (sections, refl))
          (λ vs e. shrink_section-IsReturn step lightens fuel h (set_section h vs sections) (
            omega
              (arith, lightens h (sections h) vs e, ap weight (set_section-same h vs sections)))))

  shrink_all-IsReturn :
      (step : Heading → List Text → Option (List Text))
      → Lightens step
      → (hs : List Heading) (sections : Sections)
      → IsReturn (shrink_all estimate_tokens utf8_length limits step hs sections)
  unfolding shrink_all
  shrink_all-IsReturn step lightens [] sections = (sections, refl)
  shrink_all-IsReturn step lightens (h ∷ hs) sections =
      let (s, e) =
        shrink_section-IsReturn step lightens (suc (weight (sections h))) h sections
          (omega arith) in
      let (t, f) = shrink_all-IsReturn step lightens hs s in
      (t, ap (λ r. r >>= shrink_all estimate_tokens utf8_length limits step hs) e ∙ f)

  -- What is left where the evidence is within the limits already.
  shrink_section-whole :
      (step : Heading → List Text → Option (List Text)) (fuel : ℕ) (h : Heading)
      (sections : Sections)
      → within_limits estimate_tokens utf8_length (framed sections) limits ≡ true
      → shrink_section estimate_tokens utf8_length limits step (suc fuel) h sections ≡ ok sections
  unfolding shrink_section
  shrink_section-whole step fuel h sections fit = rw fit refl

  shrink_all-whole :
      (step : Heading → List Text → Option (List Text)) (hs : List Heading) (sections : Sections)
      → within_limits estimate_tokens utf8_length (framed sections) limits ≡ true
      → shrink_all estimate_tokens utf8_length limits step hs sections ≡ ok sections
  unfolding shrink_all
  shrink_all-whole step [] sections fit = refl
  shrink_all-whole step (h ∷ hs) sections fit =
      ap (λ r. r >>= shrink_all estimate_tokens utf8_length limits step hs)
        (shrink_section-whole step (weight (sections h)) h sections fit)
      ∙ shrink_all-whole step hs sections fit

  -- The last test.
  abbrev last_test : Sections → Result SummaryError (Text × Sections)
  last_test w =
      if within_limits estimate_tokens utf8_length (framed w) limits
      then ok (framed w, w)
      else err does_not_fit

  render-last_test :
      (evidence s t : Sections)
      → shrink_all estimate_tokens utf8_length limits shrink_values shrink_order evidence ≡ ok s
      → shrink_all estimate_tokens utf8_length limits shrink_critical critical_shrink_order s ≡ ok t
      → render_deterministic_summary estimate_tokens utf8_length limits evidence ≡ last_test t
  unfolding render_deterministic_summary
  render-last_test evidence s t e f =
      ap
        (λ r. r >>= λ u.
          shrink_all estimate_tokens utf8_length limits shrink_critical critical_shrink_order u
          >>= last_test)
        e
      ∙ ap (λ r. r >>= last_test) f

  pub render_deterministic_summary-whole :
      (evidence : Sections)
      → within_limits estimate_tokens utf8_length (framed evidence) limits ≡ true
      → render_deterministic_summary estimate_tokens utf8_length limits evidence
        ≡ ok (framed evidence, evidence)
  render_deterministic_summary-whole evidence fit =
      render-last_test evidence evidence evidence
        (shrink_all-whole shrink_values shrink_order evidence fit)
        (shrink_all-whole shrink_critical critical_shrink_order evidence fit)
      ∙ ap (λ b. if b then ok (framed evidence, evidence) else err does_not_fit) fit

  -- The outcome of the summary: a framed text within the limits, which is whole where the evidence is
  -- within them, or the refusal, where it is not.
  unfoldable pub IsBounded : Sections → Result SummaryError (Text × Sections) → Type 0
  IsBounded evidence (ok (text, sections)) =
      (text ≡ framed sections)
      × (within_limits estimate_tokens utf8_length text limits ≡ true)
      × ((sections ≡ evidence)
          ⊎ (within_limits estimate_tokens utf8_length (framed evidence) limits ≡ false))
  IsBounded evidence (err e) =
      (e ≡ does_not_fit)
      × (within_limits estimate_tokens utf8_length (framed evidence) limits ≡ false)

  -- For every evidence the deterministic summary ends: it returns the framed text of the sections that
  -- are left, and this text is within all three limits, or it is refused because it does not fit.
  -- Where the framed evidence is within the limits, it is returned whole.
  pub render_deterministic_summary-IsBounded :
      (evidence : Sections)
      → IsBounded evidence
          (render_deterministic_summary estimate_tokens utf8_length limits evidence)
  unfolding IsBounded
  render_deterministic_summary-IsBounded evidence =
      elim (Bool-cases (within_limits estimate_tokens utf8_length (framed evidence) limits)) [
        | inl fit ↦
            subst (IsBounded evidence) (sym (render_deterministic_summary-whole evidence fit))
              (refl, fit, inl refl)
        | inr wide ↦
            (let (s, e) =
                shrink_all-IsReturn shrink_values shrink_values-IsLighter shrink_order evidence in
              let (t, f) =
                shrink_all-IsReturn shrink_critical shrink_critical-IsLighter critical_shrink_order
                  s in
              subst (IsBounded evidence) (sym (render-last_test evidence s t e f)) (
                if-under (IsBounded evidence)
                  (within_limits estimate_tokens utf8_length (framed t) limits)
                  (λ g. (refl, g, inr wide)) (λ g. (refl, wide))))
      ]
