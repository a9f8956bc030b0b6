-- ===== src/Policy/Shell.antt =====
-- What the policy lets a shell command do.
use borealis_coder.Prelude.{◌≡◌, ◌≢◌, refl, Bool, true, false, not, ◌||◌, leb, arith, inl, inr}
use borealis_coder.Prelude.Chars.{Text}
use borealis_coder.Models.JsonValue.{Json}
use borealis_coder.Commands.{CommandRisk, level, CommandAssessment, assess_command}
use borealis_coder.Commands.Risks.{IsInert, IsMild, assess_command-IsInert, assess_command-IsMild}
use borealis_coder.Policy.{
  allow, deny, PolicyEngine, assessment_decision, command_decision, ask_or_deny, ask_for, is_always,
}

-- A decision other than DENY, by what it says of the assessment.
assessment_decision-passes :
    (e : PolicyEngine) (a : CommandAssessment) (p c : Bool)
    → (assessment_decision e a p c).action ≢ deny
    → (leb 4 (level a.risk) ≡ false)
      × ((e.config.network || e.process_network_isolated || not a.can_open_network) ≡ true)
unfolding assessment_decision
assessment_decision-passes e a p c h = ground arith

level_safe : (r : CommandRisk) → leb 1 (level r) ≡ false → r ≡ CommandRisk.safe
level_safe CommandRisk.safe h = refl
level_safe CommandRisk.write h = cc
level_safe CommandRisk.network h = cc
level_safe CommandRisk.destructive h = cc
level_safe CommandRisk.forbidden h = cc

assessment_decision-allow :
    (e : PolicyEngine) (a : CommandAssessment) (p c : Bool)
    → (assessment_decision e a p c).action ≡ allow
    → (a.risk ≡ CommandRisk.safe) × (is_always e.config.approval ≡ false)
unfolding assessment_decision ask_or_deny ask_for
assessment_decision-allow e a p c h = ground (arith, level_safe a.risk)

module _ (lower : Text → Text) (str : Json → Text) where
  -- With the network off and processes not isolated, a command that is not denied is one without
  -- features of the shell whose program is among the few that cannot open a connection.
  pub offline_command-IsInert :
      (e : PolicyEngine) (command : Text)
      → e.config.network ≡ false
      → e.process_network_isolated ≡ false
      → (command_decision lower str e command).action ≢ deny
      → IsInert lower command
  unfolding command_decision
  offline_command-IsInert e command off native h =
      let (low, net) = assessment_decision-passes e (assess_command lower command) _ _ h in
      let shut : (assess_command lower command).can_open_network ≡ false = ground arith in
      elim (assess_command-IsInert lower command shut) [
        | inl f ↦ let no : leb 4 (level CommandRisk.forbidden) ≡ false = rw f at low in cc
        | inr inert ↦ inert
      ]

  -- If a command runs without a question, the run does not ask always, the command parses, none of
  -- its tokens is `sudo`, and the program of its first token is no forbidden or destructive one: it
  -- is git with none of the subcommands listed as reaching the network or writing, or a package
  -- manager with a listed local command, or a listed development program; in this last case the
  -- command has no features of the shell. (In the first two it may have them; nothing is said of what
  -- the shell then runs besides.)
  pub allowed_command-IsMild :
      (e : PolicyEngine) (command : Text)
      → (command_decision lower str e command).action ≡ allow
      → IsMild lower command × (is_always e.config.approval ≡ false)
  unfolding command_decision
  allowed_command-IsMild e command h =
      let (safe, quiet) = assessment_decision-allow e (assess_command lower command) _ _ h in
      (assess_command-IsMild lower command safe, quiet)
