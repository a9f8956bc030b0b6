-- ===== src/Approvals/Tests.antt =====
-- Runs of the approval manager, and instances of its theorems.
use borealis_coder.Prelude.{
  ◌≡◌, refl, true, false, List, [], ◌∷◌, some, err, ◌⊎◌, is_ok, map, leb, ◌&&◌, ◌+◌, if◌then◌else◌,
}
use borealis_coder.Prelude.Chars.{Text, codes, strip, elem_text}
use borealis_coder.Policy.{PolicyAction, allow, ask, plan_mode, decision}
use borealis_coder.Approvals.{
  ApprovalRequest, flag, words, refused, ApprovalManager, enforce, is_affirmative, normalized,
  is_approved, is_lasting, remember,
}
use borealis_coder.Approvals.Trail.{
  Event, requested, after, step, was_affirmed, enforce-IsSanctioned,
}

abbrev ascii_lower : Text → Text
ascii_lower = map (λ c. if leb 65 c && leb c 90 then c + 32 else c)

abbrev fresh : ApprovalManager
fresh = record { has_callback = true; cache = true; approved = [] }

abbrev push : ApprovalRequest
push = record {
  tool_name = "git_push";
  description = codes "";
  decision = decision ask plan_mode "critical" (some (codes "git_push"));
  arguments_preview = codes "";
}

abbrev session : List Event
session = requested push (words (codes " Yes ")) ∷ []

yes_is_kept : (after ascii_lower fresh session).approved ≡ codes "git_push" ∷ []
unfolding after step enforce strip elem_text is_approved normalized is_affirmative remember
    is_lasting
yes_is_kept = refl

once_is_not_kept :
    (after ascii_lower fresh (requested push (words (codes "allow_once")) ∷ [])).approved ≡ []
unfolding after step enforce strip elem_text is_approved normalized is_affirmative remember
    is_lasting
once_is_not_kept = refl

no_is_refused : enforce ascii_lower fresh push (flag false) ≡ err (refused plan_mode)
unfolding enforce elem_text is_approved normalized is_affirmative
no_is_refused = refl

passed_again :
    is_ok (enforce ascii_lower (after ascii_lower fresh session) push (flag false)) ≡ true
unfolding after step enforce strip elem_text is_approved normalized is_affirmative remember
    is_lasting
passed_again = refl

enforce-IsSanctioned_example :
    (PolicyAction.ask ≡ allow)
    ⊎ ((PolicyAction.ask ≡ ask)
        × ((is_affirmative ascii_lower (normalized ascii_lower (flag false)) ≡ true)
            ⊎ ((key : Text) × (push.decision.cache_key ≡ some key)
                × (was_affirmed ascii_lower key session ≡ true))))
enforce-IsSanctioned_example =
    enforce-IsSanctioned ascii_lower fresh session push (flag false) refl passed_again
