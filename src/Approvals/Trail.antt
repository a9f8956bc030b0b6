-- ===== src/Approvals/Trail.antt =====
-- What passes the approval manager, over a whole session.
use borealis_coder.Prelude.{
  ◌≡◌, refl, Bool, true, false, ◌&&◌, ◌||◌, List, [], ◌∷◌, Option, none, some, ok, err, is_ok,
  arith, Bool-cases, &&-eq-true, or_cases, ◌⊎◌, inl, inr,
}
use borealis_coder.Prelude.Chars.{Text, elem_text, text_eq}
use borealis_coder.Policy.{PolicyAction, allow, ask}
use borealis_coder.Approvals.{
  ApprovalRequest, Answer, ApprovalManager, is_approved, normalized, is_affirmative, is_lasting,
  remember, enforce, clear,
}

-- What may happen to a manager: a request with the answer that its callback would give, or a reset.
pub data Event : Type 0 where
  requested : ApprovalRequest → Answer → Event
  cleared : Event

abbrev is_ask : PolicyAction → Bool
is_ask ask = true
is_ask _ = false

-- The key of a request is the text given, and not empty.
pub has_key : Text → Option Text → Bool
has_key key none = false
has_key key (some []) = false
has_key key (some (c ∷ s)) = text_eq (c ∷ s) key

module _ (lower : Text → Text) where
  -- A request that is denied leaves the manager as it was.
  unfoldable pub step : ApprovalManager → Event → ApprovalManager
  step m cleared = clear m
  step m (requested r answer) = elim (enforce lower m r answer) [ ok n ↦ n | err e ↦ m ]

  -- The manager after a session, whose latest event stands first.
  unfoldable pub after : ApprovalManager → List Event → ApprovalManager
  after m [] = m
  after m (e ∷ es) = step (after m es) e

  -- The answer affirms, and is one to keep.
  pub affirms : Answer → Bool
  affirms answer =
      is_affirmative lower (normalized lower answer) && is_lasting lower (normalized lower answer)

  -- An answer to a question with this key affirmed it for good, after the latest reset.
  pub was_affirmed : Text → List Event → Bool
  was_affirmed key [] = false
  was_affirmed key (cleared ∷ es) = false
  was_affirmed key (requested r answer ∷ es) =
      let rest = was_affirmed key es in
      rest || (is_ask r.decision.action && has_key key r.decision.cache_key && affirms answer)

  remember-approved :
      (m : ApprovalManager) (k : Option Text) (t key : Text)
      → elem_text key (remember lower m k t).approved ≡ true
      → (elem_text key m.approved ≡ true) ⊎ ((has_key key k ≡ true) × (is_lasting lower t ≡ true))
  unfolding remember has_key elem_text
  remember-approved m none t key h = inl h
  remember-approved m (some []) t key h = inl h
  remember-approved m (some (c ∷ s)) t key h = elim (Bool-cases (m.cache && is_lasting lower t)) [
    | inl e ↦
        let (cached, lasting) = &&-eq-true m.cache (is_lasting lower t) e in
        elim (or_cases (text_eq (c ∷ s) key) (elem_text key m.approved) (rw e at h)) [
          | inl k ↦ inr (k, lasting)
          | inr old ↦ inl old
        ]
    | inr e ↦ inl (rw e at h)
  ]

  -- What a step adds to the approved keys.
  step-approved :
      (m : ApprovalManager) (r : ApprovalRequest) (answer : Answer) (key : Text)
      → elem_text key (step m (requested r answer)).approved ≡ true
      → (elem_text key m.approved ≡ true)
        ⊎ ((is_ask r.decision.action && has_key key r.decision.cache_key && affirms answer) ≡ true)
  unfolding step enforce affirms
  step-approved m r answer key h =
      ground (arith, remember-approved m r.decision.cache_key (normalized lower answer) key)

  -- For a manager that starts without approvals, every key that it holds after a session was
  -- affirmed in it for good, by an answer to a question with that key, and not cleared since.
  approved-was_affirmed :
      (m : ApprovalManager) (es : List Event) (key : Text)
      → m.approved ≡ []
      → elem_text key (after m es).approved ≡ true
      → was_affirmed key es ≡ true
  unfolding after was_affirmed clear elem_text
  approved-was_affirmed m [] key fresh h = cc
  approved-was_affirmed m (cleared ∷ es) key fresh h = unfold step in cc
  approved-was_affirmed m (requested r answer ∷ es) key fresh h =
      ground
        (arith, step-approved (after m es) r answer key h, approved-was_affirmed m es key fresh)

  is_approved-key :
      (k : Option Text) (keys : List Text)
      → is_approved k keys ≡ true
      → (key : Text) × (k ≡ some key) × (elem_text key keys ≡ true)
  unfolding is_approved
  is_approved-key none keys h = cc
  is_approved-key (some []) keys h = cc
  is_approved-key (some (c ∷ s)) keys h = (c ∷ s, refl, h)

  passes-cases :
      (m : ApprovalManager) (r : ApprovalRequest) (answer : Answer)
      → is_ok (enforce lower m r answer) ≡ true
      → (r.decision.action ≡ allow)
        ⊎ ((r.decision.action ≡ ask)
            × ((is_affirmative lower (normalized lower answer) ≡ true)
                ⊎ ((key : Text) × (r.decision.cache_key ≡ some key)
                    × (elem_text key m.approved ≡ true))))
  unfolding enforce
  passes-cases m r answer h = ground (arith, is_approved-key r.decision.cache_key m.approved)

  -- A request passes only if its decision is ALLOW, or it is ASK and either the answer affirms it or
  -- its key was affirmed for good earlier in the session, which started without approvals.
  pub enforce-IsSanctioned :
      (m : ApprovalManager) (es : List Event) (r : ApprovalRequest) (answer : Answer)
      → m.approved ≡ []
      → is_ok (enforce lower (after m es) r answer) ≡ true
      → (r.decision.action ≡ allow)
        ⊎ ((r.decision.action ≡ ask)
            × ((is_affirmative lower (normalized lower answer) ≡ true)
                ⊎ ((key : Text) × (r.decision.cache_key ≡ some key)
                    × (was_affirmed key es ≡ true))))
  enforce-IsSanctioned m es r answer fresh h = elim (passes-cases (after m es) r answer h) [
    | inl a ↦ inl a
    | inr (a, inl affirmed) ↦ inr (a, inl affirmed)
    | inr (a, inr (key, is_key, held)) ↦
        inr (a, inr (key, is_key, approved-was_affirmed m es key fresh held))
  ]
