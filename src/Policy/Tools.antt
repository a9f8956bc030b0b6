-- ===== src/Policy/Tools.antt =====
-- What the policy lets the tools do.
use borealis_coder.Prelude.{
  ◌≡◌, ◌≢◌, refl, Bool, true, false, not, ◌&&◌, ◌||◌, String, str_eq, Option, arith, if-both, ◌⊎◌,
  inl, ◌↔◌, none,
}
use borealis_coder.Prelude.Chars.{Text, codes}
use borealis_coder.Models.{Effect}
use borealis_coder.Models.JsonValue.{Json, Fields}
use borealis_coder.Commands.{CommandAssessment, assess_command}
use borealis_coder.Policy.{
  allow, deny, ask, PolicyEngine, PolicyDecision, Message, decision, git_push_requires, publishing,
  git_commit_disabled, has_command, assessment_decision, command_decision, decide, decide_effect,
  decide_by_name, tool_decision, ask_or_deny, ask_for, is_always, is_never, is_plan, risk_of,
  requested,
}

-- The calls that leave the workspace as it is.
pub is_harmless : String → Effect → Bool
is_harmless tool_name Effect.read = true
is_harmless tool_name Effect.control = str_eq tool_name "update_plan"
is_harmless tool_name _ = false

-- Nobody can be asked.
unfoldable pub has_no_channel : PolicyEngine → Bool
has_no_channel e = is_never e.config.approval || not e.interactive

ask_or_deny-asks :
    (e : PolicyEngine) (name : Text) (m : Message) (risk : String) (key : Option Text)
    → (ask_or_deny e name m risk key).action ≡ ask
    → has_no_channel e ≡ false
unfolding ask_or_deny has_no_channel
ask_or_deny-asks e name m risk key h = ground arith

-- The only questions of a run are those somebody can answer, or that it asks always.
pub MayAsk : PolicyEngine → Type 0
MayAsk e = (has_no_channel e ≡ false) ⊎ (is_always e.config.approval ≡ true)

pub IsFounded : PolicyEngine → PolicyDecision → Type 0
IsFounded e d = d.action ≡ ask → MayAsk e

deny-IsFounded :
    (e : PolicyEngine) (m : Message) (risk : String) (key : Option Text)
    → IsFounded e (decision deny m risk key)
unfolding IsFounded MayAsk
deny-IsFounded e m risk key h = ground arith

ask_or_deny-IsFounded :
    (e : PolicyEngine) (name : Text) (m : Message) (risk : String) (key : Option Text)
    → IsFounded e (ask_or_deny e name m risk key)
unfolding IsFounded MayAsk
ask_or_deny-IsFounded e name m risk key h = inl (ask_or_deny-asks e name m risk key h)

assessment_decision-asks :
    (e : PolicyEngine) (a : CommandAssessment) (p c : Bool)
    → (assessment_decision e a p c).action ≡ ask
    → MayAsk e
unfolding assessment_decision ask_or_deny ask_for has_no_channel MayAsk
assessment_decision-asks e a p c h = ground arith

tool_decision-IsFounded :
    (e : PolicyEngine) (tool_name : String) (effect : Effect) (risk : String)
    → IsFounded e (tool_decision e tool_name effect risk)
unfolding IsFounded tool_decision ask_or_deny ask_for has_no_channel MayAsk
tool_decision-IsFounded e tool_name effect risk h = ground arith

module _ (lower : Text → Text) (str : Json → Text) where
  -- In plan mode a call is denied exactly if it is neither a read nor an update of the plan.
  pub plan_denies_iff :
      (e : PolicyEngine) (tool_name : String) (effect : Effect) (args : Fields)
      (hint : Option String)
      → is_plan e.config.mode ≡ true
      → ((decide lower str e tool_name effect args hint).action ≡ deny)
        ↔ (is_harmless tool_name effect ≡ false)
  unfolding decide decide_effect is_harmless ask_for
  plan_denies_iff e tool_name Effect.read args hint planned = (λ h. ground arith, λ h. cc)
  plan_denies_iff e tool_name Effect.control args hint planned =
      (λ h. ground arith, λ h. ground arith)
  plan_denies_iff e tool_name Effect.write args hint planned = (λ h. refl, λ h. ground arith)
  plan_denies_iff e tool_name Effect.execute args hint planned = (λ h. refl, λ h. ground arith)
  plan_denies_iff e tool_name Effect.network args hint planned = (λ h. refl, λ h. ground arith)

  command_decision-IsFounded :
      (e : PolicyEngine) (command : Text) → IsFounded e (command_decision lower str e command)
  unfolding IsFounded command_decision
  command_decision-IsFounded e command h =
      assessment_decision-asks e (assess_command lower command) _ _ h

  decide_by_name-IsFounded :
      (e : PolicyEngine) (tool_name : String) (effect : Effect) (args : Fields)
      (hint : Option String)
      → IsFounded e (decide_by_name lower str e tool_name effect args hint)
  unfolding decide_by_name
  decide_by_name-IsFounded e tool_name effect args hint =
      let command = command_decision-IsFounded e (requested lower str args) in
      if-both (IsFounded e) (str_eq tool_name "shell") command (
        if-both (IsFounded e) (str_eq tool_name "verify" && has_command lower str args) command (
          if-both (IsFounded e) (str_eq tool_name "git_commit" && not e.config.allow_git_commit)
            (ask_or_deny-IsFounded e (codes tool_name) git_commit_disabled "high" none)
            (if-both (IsFounded e) (str_eq tool_name "git_push")
              (if-both (IsFounded e) (not e.config.allow_git_push || not e.config.network)
                (deny-IsFounded e git_push_requires "critical" none)
                (ask_or_deny-IsFounded e (codes tool_name) publishing "critical" none))
              (tool_decision-IsFounded e tool_name effect (risk_of hint effect)))))

  decide_by_name-asks :
      (e : PolicyEngine) (tool_name : String) (effect : Effect) (args : Fields)
      (hint : Option String)
      → (decide_by_name lower str e tool_name effect args hint).action ≡ ask
      → MayAsk e
  decide_by_name-asks e tool_name effect args hint h =
      let founded = decide_by_name-IsFounded e tool_name effect args hint in
      unfold IsFounded in founded h

  decide_effect-asks :
      (e : PolicyEngine) (tool_name : String) (effect : Effect) (args : Fields)
      (hint : Option String)
      → (decide_effect lower str e tool_name effect args hint).action ≡ ask
      → MayAsk e
  unfolding decide_effect
  decide_effect-asks e tool_name Effect.network args hint h =
      ground (arith, decide_by_name-asks e tool_name Effect.network args hint)
  decide_effect-asks e tool_name Effect.execute args hint h =
      ground (arith, decide_by_name-asks e tool_name Effect.execute args hint)
  decide_effect-asks e tool_name Effect.write args hint h =
      ground (arith, decide_by_name-asks e tool_name Effect.write args hint)
  decide_effect-asks e tool_name Effect.control args hint h =
      ground (arith, decide_by_name-asks e tool_name Effect.control args hint)
  decide_effect-asks e tool_name Effect.read args hint h =
      ground (arith, decide_by_name-asks e tool_name Effect.read args hint)

  -- A run that nobody can answer, and that need not ask always, decides each call by itself.
  pub decide-never_asks :
      (e : PolicyEngine) (tool_name : String) (effect : Effect) (args : Fields)
      (hint : Option String)
      → has_no_channel e ≡ true
      → is_always e.config.approval ≡ false
      → (decide lower str e tool_name effect args hint).action ≢ ask
  unfolding decide MayAsk ask_for
  decide-never_asks e tool_name Effect.read args hint alone quiet h = ground arith
  decide-never_asks e tool_name Effect.control args hint alone quiet h =
      ground (arith, decide_effect-asks e tool_name Effect.control args hint)
  decide-never_asks e tool_name Effect.write args hint alone quiet h =
      ground (arith, decide_effect-asks e tool_name Effect.write args hint)
  decide-never_asks e tool_name Effect.execute args hint alone quiet h =
      ground (arith, decide_effect-asks e tool_name Effect.execute args hint)
  decide-never_asks e tool_name Effect.network args hint alone quiet h =
      ground (arith, decide_effect-asks e tool_name Effect.network args hint)

  -- A call of the tool `git_push` is never allowed without a question, and the question is asked
  -- exactly if the mode is not plan, network and pushes are on, and somebody can answer. (A push in a
  -- shell command is another tool's call, and nothing is said of it.)
  pub git_push-asks_iff :
      (e : PolicyEngine) (args : Fields) (hint : Option String)
      → ((decide lower str e "git_push" Effect.network args hint).action ≢ allow)
        × (((decide lower str e "git_push" Effect.network args hint).action ≡ ask) ↔ (
            (not (is_plan e.config.mode)
              && e.config.network
              && e.config.allow_git_push
              && not (has_no_channel e))
            ≡ true))
  unfolding decide decide_effect decide_by_name ask_or_deny ask_for has_no_channel
  git_push-asks_iff e args hint = (ground arith, (λ h. ground arith, λ h. ground arith))
