-- ===== src/Policy.antt =====
-- safety/policy.py: the decision whether a tool call is allowed, asked for or denied. The messages
-- are values by their form; a cache key is the text that the program builds.
pub mod Shell
pub mod Tools
mod Tests
use borealis_coder.Prelude.{
  ℕ, Bool, true, false, not, ◌&&◌, ◌||◌, String, Option, none, some, List, [], ◌∷◌, ◌++◌, leb,
  if◌then◌else◌, str_eq,
}
use borealis_coder.Prelude.Chars.{Text, codes, has_prefix, contains, text_eq}
use borealis_coder.Models.{Effect}
use borealis_coder.Models.JsonValue.{Json, Fields, get, truthy}
use borealis_coder.Commands.{CommandRisk, level, Reason, CommandAssessment, assess_command}

pub data PolicyAction : Type 0 where
  allow ask deny : PolicyAction

-- The message of a decision.
pub data Message : Type 0 where
  every_tool read_only plan_update plan_mode network_disabled shell_disabled : Message
  git_commit_disabled git_push_disabled git_push_requires publishing : Message
  cannot_isolate : Message
  mcp_operation risk_operation : String → Message
  allowed_operation : Effect → Message
  assessed network_off : Reason → Message
  no_channel : Message → Message

pub record PolicyDecision : Type 0 where
  pub action : PolicyAction
  pub reason : Message
  pub risk : String
  pub cache_key : Option Text

-- `SafetyConfig.mode` and `SafetyConfig.approval`, which the configuration restricts to these.
pub data Mode : Type 0 where
  plan workspace_write full : Mode

pub data Approval : Type 0 where
  never on_risk always : Approval

-- The fields of SafetyConfig that the policy reads.
pub record SafetyConfig : Type 0 where
  pub mode : Mode
  pub approval : Approval
  pub network : Bool
  pub allow_shell : Bool
  pub allow_git_commit : Bool
  pub allow_git_push : Bool

pub record PolicyEngine : Type 0 where
  pub config : SafetyConfig
  pub interactive : Bool
  pub process_network_isolated : Bool

abbrev pub is_plan : Mode → Bool
is_plan plan = true
is_plan _ = false

abbrev pub is_always : Approval → Bool
is_always always = true
is_always _ = false

abbrev pub is_never : Approval → Bool
is_never never = true
is_never _ = false

abbrev pub is_on_risk : Approval → Bool
is_on_risk on_risk = true
is_on_risk _ = false

-- CommandRisk.name.lower()
abbrev risk_name : CommandRisk → Text
risk_name CommandRisk.safe = codes "safe"
risk_name CommandRisk.write = codes "write"
risk_name CommandRisk.network = codes "network"
risk_name CommandRisk.destructive = codes "destructive"
risk_name CommandRisk.forbidden = codes "forbidden"

abbrev pub decision : PolicyAction → Message → String → Option Text → PolicyDecision
decision action reason risk key = record {
  action = action;
  reason = reason;
  risk = risk;
  cache_key = key;
}

-- `key or name`; no key that the policy builds is empty.
pub ask_for : Text → Message → String → Option Text → PolicyDecision
ask_for name reason risk none = decision ask reason risk (some name)
ask_for name reason risk (some key) = decision ask reason risk (some key)

pub ask_or_deny : PolicyEngine → Text → Message → String → Option Text → PolicyDecision
unfolding ask_for
ask_or_deny e name reason risk key =
    if is_never e.config.approval || not e.interactive
    then decision deny (no_channel reason) risk key
    else ask_for name reason risk key

-- `risk in {"high", "critical"}`
abbrev pub is_risky : String → Bool
is_risky risk = str_eq risk "high" || str_eq risk "critical"

-- `risk_hint or ("medium" if effect == Effect.WRITE else "high")`
pub risk_of : Option String → Effect → String
risk_of (some hint) Effect.write = if str_eq hint "" then "medium" else hint
risk_of (some hint) _ = if str_eq hint "" then "high" else hint
risk_of none Effect.write = "medium"
risk_of none _ = "high"

-- The decision on a command by its assessment; `git_push` and `git_commit` say whether the padded,
-- lowered command holds the word.
pub assessment_decision : PolicyEngine → CommandAssessment → Bool → Bool → PolicyDecision
unfolding ask_for ask_or_deny
assessment_decision e a says_push says_commit =
    let key = some (codes "shell:" ++ a.executable ++ codes ":" ++ risk_name a.risk) in
    let offline = not e.config.network in
    let is_git = text_eq a.executable (codes "git") in
    if leb 4 (level a.risk)
    then decision deny (assessed a.reason) "critical" key
    else if (leb 2 (level a.risk) && leb (level a.risk) 2) && offline
    then decision deny (network_off a.reason) "high" key
    else if offline && a.can_open_network && not e.process_network_isolated
    then decision deny cannot_isolate "high" key
    else if is_git && says_push && not e.config.allow_git_push
    then decision deny git_push_disabled "critical" key
    else if is_git && says_commit && not e.config.allow_git_commit
    then decision deny git_commit_disabled "high" key
    else if leb 3 (level a.risk)
    then ask_or_deny e (codes "shell") (assessed a.reason) "critical" key
    else if leb 1 (level a.risk)
    then ask_or_deny e (codes "shell") (assessed a.reason) "high" key
    else if is_always e.config.approval
    then ask_for (codes "shell") (assessed a.reason) "low" key
    else decision allow (assessed a.reason) "low" key

-- The end of `decide`: the tools that are no command and not git.
pub tool_decision : PolicyEngine → String → Effect → String → PolicyDecision
unfolding ask_for ask_or_deny
tool_decision e tool_name effect risk =
    if has_prefix (codes "mcp__") (codes tool_name) && is_risky risk
    then ask_or_deny e (codes tool_name) (mcp_operation risk) risk none
    else if is_always e.config.approval
    then ask_for (codes tool_name) every_tool risk none
    else if is_on_risk e.config.approval && is_risky risk
    then ask_or_deny e (codes tool_name) (risk_operation risk) risk none
    else decision allow (allowed_operation effect) risk none

-- `lower` is str.lower, `str` Python's text of a value.
module _ (lower : Text → Text) (str : Json → Text) where
  pub command_decision : PolicyEngine → Text → PolicyDecision
  unfolding assessment_decision assess_command
  command_decision e command =
      let padded = codes " " ++ lower command ++ codes " " in
      assessment_decision e (assess_command lower command) (contains (codes " push ") padded)
        (contains (codes " commit ") padded)

  -- `str(arguments.get("command") or "")`
  pub requested : Fields → Text
  unfolding get truthy
  requested arguments = elim (get "command" arguments) [
    | none ↦ []
    | some v ↦ if truthy v then str v else []
  ]

  -- `bool(arguments.get("command"))`
  pub has_command : Fields → Bool
  unfolding get truthy
  has_command arguments = elim (get "command" arguments) [ none ↦ false | some v ↦ truthy v ]

  -- `decide` after the checks of the effect.
  pub decide_by_name : PolicyEngine → String → Effect → Fields → Option String → PolicyDecision
  unfolding command_decision requested has_command ask_or_deny tool_decision risk_of
  decide_by_name e tool_name effect arguments risk_hint =
      if str_eq tool_name "shell"
      then command_decision e (requested arguments)
      else if str_eq tool_name "verify" && has_command arguments
      then command_decision e (requested arguments)
      else if str_eq tool_name "git_commit" && not e.config.allow_git_commit
      then ask_or_deny e (codes tool_name) git_commit_disabled "high" none
      else if str_eq tool_name "git_push"
      then (if not e.config.allow_git_push || not e.config.network
          then decision deny git_push_requires "critical" none
          else ask_or_deny e (codes tool_name) publishing "critical" none)
      else tool_decision e tool_name effect (risk_of risk_hint effect)

  -- `decide` for an effect other than READ.
  pub decide_effect : PolicyEngine → String → Effect → Fields → Option String → PolicyDecision
  unfolding decide_by_name
  decide_effect e tool_name Effect.network arguments risk_hint =
      if is_plan e.config.mode
      then decision deny plan_mode "high" none
      else if not e.config.network
      then decision deny network_disabled "high" none
      else decide_by_name e tool_name Effect.network arguments risk_hint
  decide_effect e tool_name Effect.execute arguments risk_hint =
      if is_plan e.config.mode
      then decision deny plan_mode "high" none
      else if not e.config.allow_shell
      then decision deny shell_disabled "high" none
      else decide_by_name e tool_name Effect.execute arguments risk_hint
  decide_effect e tool_name effect arguments risk_hint =
      if is_plan e.config.mode
      then decision deny plan_mode "high" none
      else decide_by_name e tool_name effect arguments risk_hint

  pub decide : PolicyEngine → String → Effect → Fields → Option String → PolicyDecision
  unfolding ask_for decide_effect
  decide e tool_name Effect.read arguments risk_hint =
      if is_always e.config.approval
      then ask_for (codes tool_name) every_tool "low" none
      else decision allow read_only "low" none
  decide e tool_name Effect.control arguments risk_hint =
      if str_eq tool_name "update_plan"
      then decision allow plan_update "low" none
      else decide_effect e tool_name Effect.control arguments risk_hint
  decide e tool_name effect arguments risk_hint =
      decide_effect e tool_name effect arguments risk_hint
