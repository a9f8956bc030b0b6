-- ===== src/Approvals.antt =====
-- safety/approvals.py: the manager that enforces a decision, asking where it says so. The callback
-- is a parameter: its answer to a request is a value.
pub mod Trail
mod Tests
use borealis_coder.Prelude.{
  ℕ, Bool, true, false, not, ◌&&◌, ◌||◌, String, Option, none, some, List, [], ◌∷◌, Result, ok, err,
  if◌then◌else◌,
}
use borealis_coder.Prelude.Chars.{Text, codes, strip, elem_text}
use borealis_coder.Policy.{PolicyAction, allow, ask, deny, Message, PolicyDecision}

pub record ApprovalRequest : Type 0 where
  pub tool_name : String
  pub description : Text
  pub decision : PolicyDecision
  pub arguments_preview : Text

-- What a callback returns: a Boolean, or a text.
pub data Answer : Type 0 where
  flag : Bool → Answer
  words : Text → Answer

-- The messages of ApprovalDenied.
pub data ApprovalDenied : Type 0 where
  by_policy no_callback refused : Message → ApprovalDenied

pub record ApprovalManager : Type 0 where
  pub has_callback : Bool
  pub cache : Bool
  pub approved : List Text

-- `key and key in self._approved`
pub is_approved : Option Text → List Text → Bool
is_approved none approved = false
is_approved (some []) approved = false
is_approved (some (c ∷ s)) approved = elem_text (c ∷ s) approved

module _ (lower : Text → Text) where
  pub normalized : Answer → Text
  normalized (flag true) = codes "yes"
  normalized (flag false) = codes "no"
  normalized (words t) = lower (strip t)

  pub is_affirmative : Text → Bool
  is_affirmative t = elem_text t (
      codes "yes"
      ∷ codes "y"
      ∷ codes "true"
      ∷ codes "allow"
      ∷ codes "allow_once"
      ∷ codes "allow_always"
      ∷ [])

  pub is_lasting : Text → Bool
  is_lasting t =
      elem_text t
        (codes "allow_always" ∷ codes "yes" ∷ codes "y" ∷ codes "true" ∷ codes "allow" ∷ [])

  -- `self._approved.add(key)` if caching is on, there is a key, and the answer is one to keep.
  pub remember : ApprovalManager → Option Text → Text → ApprovalManager
  remember m (some (c ∷ s)) t =
      if m.cache && is_lasting t then record m { approved = (c ∷ s) ∷ m.approved } else m
  remember m _ t = m

  -- `answer` is what the callback returns if it is called.
  pub enforce : ApprovalManager → ApprovalRequest → Answer → Result ApprovalDenied ApprovalManager
  enforce m r answer = elim r.decision.action [
    | PolicyAction.allow ↦ ok m
    | PolicyAction.deny ↦ err (by_policy r.decision.reason)
    | PolicyAction.ask ↦
        if is_approved r.decision.cache_key m.approved
        then ok m
        else if not m.has_callback
        then err (no_callback r.decision.reason)
        else if is_affirmative (normalized answer)
        then ok (remember m r.decision.cache_key (normalized answer))
        else err (refused r.decision.reason)
  ]

-- `clear`
pub clear : ApprovalManager → ApprovalManager
clear m = record m { approved = [] }
