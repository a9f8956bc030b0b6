-- ===== src/Policy/Tests.antt =====
-- Runs of the policy on commands and tools, and instances of its theorems.
use borealis_coder.Prelude.{
  ◌≡◌, ◌≢◌, refl, Bool, true, false, not, none, map, leb, ◌&&◌, ◌+◌, ◌↔◌, if◌then◌else◌,
}
use borealis_coder.Prelude.Chars.{Text, codes, strip, elem_text}
use borealis_coder.Models.{Effect}
use borealis_coder.Models.JsonValue.{Json, end, str, field}
use borealis_coder.Commands.{
  assess_command, assess_split, assess_tokens, assess_git, assess_general, uses_shell_meta,
  network_inert, forbidden_tools, destructive_tools, network_tools, read_only,
  local_package_commands, first_plain,
}
use borealis_coder.Commands.Shlex.{split}
use borealis_coder.Commands.Risks.{IsInert, IsMild}
use borealis_coder.Policy.{
  allow, ask, deny, Mode, plan, workspace_write, Approval, never, on_risk, PolicyEngine,
  command_decision, decide, is_always, assessment_decision,
}
use borealis_coder.Policy.Shell.{offline_command-IsInert, allowed_command-IsMild}
use borealis_coder.Policy.Tools.{
  plan_denies_iff, is_harmless, decide-never_asks, has_no_channel, git_push-asks_iff,
}

abbrev ascii_lower : Text → Text
ascii_lower = map (λ c. if leb 65 c && leb c 90 then c + 32 else c)

-- `str` of a string is the string; of other values it is not needed here.
abbrev text_of : Json → Text
text_of (str s) = codes s
text_of _ = codes "?"

abbrev engine : Mode → Approval → Bool → PolicyEngine
engine mode approval net = record {
  config = record {
    mode = mode;
    approval = approval;
    network = net;
    allow_shell = true;
    allow_git_commit = false;
    allow_git_push = net;
  };
  interactive = true;
  process_network_isolated = false;
}

abbrev default : PolicyEngine
default = engine workspace_write on_risk false

list_is_allowed : (command_decision ascii_lower text_of default (codes "ls -l")).action ≡ allow
unfolding command_decision assessment_decision assess_command assess_split assess_tokens
    assess_general uses_shell_meta network_inert forbidden_tools destructive_tools network_tools
    read_only local_package_commands first_plain split strip elem_text
list_is_allowed = refl

-- The shell's operators are not looked at behind git.
composed_is_allowed :
    (command_decision ascii_lower text_of
      (engine workspace_write on_risk true)
      (codes "git status; git push")).action
    ≡ allow
unfolding command_decision assessment_decision assess_command assess_split assess_tokens assess_git
    uses_shell_meta network_inert forbidden_tools destructive_tools first_plain split strip
    elem_text
composed_is_allowed = refl

offline_command-IsInert_example : IsInert ascii_lower (codes "ls -l")
offline_command-IsInert_example =
    offline_command-IsInert ascii_lower text_of default (codes "ls -l") refl refl
      (λ h. let no : allow ≡ deny = rw list_is_allowed at h in cc)

allowed_command-IsMild_example :
    IsMild ascii_lower (codes "ls -l") × (is_always default.config.approval ≡ false)
allowed_command-IsMild_example =
    allowed_command-IsMild ascii_lower text_of default (codes "ls -l") list_is_allowed

plan_denies_iff_example :
    ((decide ascii_lower text_of
        (engine plan on_risk true)
        "write_file"
        Effect.write
        end
        none).action
      ≡ deny)
    ↔ (is_harmless "write_file" Effect.write ≡ false)
plan_denies_iff_example =
    plan_denies_iff ascii_lower text_of (engine plan on_risk true) "write_file" Effect.write end
      none refl

nobody_answers : has_no_channel (engine workspace_write never true) ≡ true
unfolding has_no_channel
nobody_answers = refl

decide-never_asks_example :
    (decide ascii_lower text_of
      (engine workspace_write never true)
      "shell"
      Effect.execute
      (field "command" (str "rm -r build") end)
      none).action
    ≢ ask
decide-never_asks_example =
    decide-never_asks ascii_lower text_of (engine workspace_write never true) "shell" Effect.execute
      (field "command" (str "rm -r build") end) none nobody_answers refl

git_push-asks_iff_example :
    ((decide ascii_lower text_of
        (engine workspace_write on_risk true)
        "git_push"
        Effect.network
        end
        none).action
      ≢ allow)
    × (((decide ascii_lower text_of
            (engine workspace_write on_risk true)
            "git_push"
            Effect.network
            end
            none).action
          ≡ ask)
        ↔ ((true && true && true && not (has_no_channel (engine workspace_write on_risk true)))
            ≡ true))
git_push-asks_iff_example =
    git_push-asks_iff ascii_lower text_of (engine workspace_write on_risk true) end none
