-- ===== src/Commands.antt =====
-- safety/commands.py: the conservative classification of shell commands. `str.lower` goes by the
-- tables of Unicode and is a parameter.
pub mod Shlex
pub mod Risks
use borealis_coder.Prelude.{
  ℕ, Bool, true, false, not, ◌&&◌, ◌||◌, String, List, [], ◌∷◌, ◌++◌, map, any, ◌==◌, ltb, leb,
  Result, ok, err, if◌then◌else◌,
}
use borealis_coder.Prelude.Chars.{
  Text, codes, strip, has_prefix, contains, text_eq, elem_text, elem_char, after_last,
}
use borealis_coder.Commands.Shlex.{LexError, split}

pub data CommandRisk : Type 0 where
  safe write network destructive forbidden : CommandRisk

-- The order of the IntEnum.
abbrev pub level : CommandRisk → ℕ
level safe = 0
level write = 1
level network = 2
level destructive = 3
level forbidden = 4

-- `reason`, by the form of its message; the text is what the message quotes.
pub data Reason : Type 0 where
  empty_command privilege_escalation nested_shell shell_operators : Reason
  invalid_syntax : LexError → Reason
  system_control destructive_command git_network git_mutation git_read : Text → Reason
  cargo_fetch network_command filesystem_mutation development_command unrecognized : Text → Reason
  local_verification : Text → Text → Reason

pub record CommandAssessment : Type 0 where
  pub risk : CommandRisk
  pub reason : Reason
  pub executable : Text
  pub uses_shell_features : Bool
  pub can_open_network : Bool

abbrev pub assessed : CommandRisk → Reason → Text → Bool → Bool → CommandAssessment
assessed risk reason exe shell net = record {
  risk = risk;
  reason = reason;
  executable = exe;
  uses_shell_features = shell;
  can_open_network = net;
}

abbrev pub words : List String → List Text
words = map codes

unfoldable pub network_tools : List Text
network_tools = words (
    "curl" ∷ "wget" ∷ "ssh" ∷ "scp" ∷ "sftp" ∷ "ftp" ∷ "nc" ∷ "ncat" ∷ "telnet" ∷ "ping" ∷ "dig"
    ∷ "nslookup" ∷ "npm" ∷ "pnpm" ∷ "yarn" ∷ "pip" ∷ "pip3" ∷ "uv" ∷ "cargo" ∷ "go" ∷ "gem"
    ∷ "bundle" ∷ "composer" ∷ "apt" ∷ "apt-get" ∷ "brew" ∷ "docker" ∷ "podman" ∷ "kubectl" ∷ "helm"
    ∷ "gh" ∷ [])

unfoldable pub destructive_tools : List Text
destructive_tools = words ("rm" ∷ "rmdir" ∷ "shred" ∷ "mkfs" ∷ "fdisk" ∷ "dd" ∷ "truncate" ∷ [])

unfoldable pub forbidden_tools : List Text
forbidden_tools = words ("shutdown" ∷ "reboot" ∷ "halt" ∷ "poweroff" ∷ "killall" ∷ "pkill" ∷ [])

unfoldable pub read_only : List Text
read_only = words (
    "cat" ∷ "head" ∷ "tail" ∷ "sed" ∷ "awk" ∷ "grep" ∷ "rg" ∷ "find" ∷ "fd" ∷ "ls" ∷ "pwd" ∷ "wc"
    ∷ "sort" ∷ "uniq" ∷ "cut" ∷ "tr" ∷ "file" ∷ "stat" ∷ "which" ∷ "whereis" ∷ "env" ∷ "printenv"
    ∷ "echo" ∷ "printf" ∷ "true" ∷ "false" ∷ "test" ∷ "python" ∷ "python3" ∷ "node" ∷ "ruby"
    ∷ "perl" ∷ "java" ∷ "git" ∷ "make" ∷ "pytest" ∷ "ruff" ∷ "mypy" ∷ "pyright" ∷ "npm" ∷ "pnpm"
    ∷ "yarn" ∷ "cargo" ∷ "go" ∷ [])

unfoldable pub network_inert : List Text
network_inert = words (
    "cat" ∷ "head" ∷ "tail" ∷ "grep" ∷ "ls" ∷ "pwd" ∷ "wc" ∷ "uniq" ∷ "cut" ∷ "tr" ∷ "echo"
    ∷ "printf" ∷ "true" ∷ "false" ∷ "test" ∷ "stat" ∷ [])

-- `_LOCAL_PACKAGE_COMMANDS.get(executable)`, empty for an executable that is no key.
unfoldable pub local_package_commands : Text → List Text
local_package_commands exe =
    if text_eq exe (codes "npm")
    then words ("run" ∷ "test" ∷ [])
    else if text_eq exe (codes "pnpm")
    then words ("run" ∷ "test" ∷ "exec" ∷ [])
    else if text_eq exe (codes "yarn")
    then words ("run" ∷ "test" ∷ [])
    else if text_eq exe (codes "cargo")
    then words ("fmt" ∷ "check" ∷ "test" ∷ "clippy" ∷ "metadata" ∷ [])
    else []

-- The search for `_SHELL_META`: one of `;&|`$<>`, a line end, `**`, or a brace with one that closes
-- it further on.
unfoldable pub uses_shell_meta : Text → Bool
uses_shell_meta [] = false
uses_shell_meta (c ∷ s) =
    elem_char c (10 ∷ 13 ∷ codes ";&|`$<>")
    || c == b'*' && has_prefix (codes "*") s
    || c == b'{' && elem_char b'}' s
    || uses_shell_meta s

-- `next((item for item in items if not item.startswith("-")), "")`
unfoldable pub first_plain : List Text → Text
first_plain [] = []
first_plain (t ∷ ts) = let rest = first_plain ts in if has_prefix (codes "-") t then rest else t

-- The rest of the classification, once a command's executable `exe` and lowered tokens are known;
-- `sub` is the subcommand, `net` the value of `can_open_network`.
unfoldable pub assess_general : Text → List Text → Bool → Bool → CommandAssessment
assess_general exe lowered shell net =
    if elem_text exe network_tools
      && not (any (λ t. elem_text t (words ("--offline" ∷ "--frozen" ∷ "--locked" ∷ []))) lowered)
    then assessed network (network_command exe) exe shell true
    else if elem_text exe
        (words ("chmod" ∷ "chown" ∷ "mv" ∷ "cp" ∷ "mkdir" ∷ "touch" ∷ "ln" ∷ "install" ∷ []))
    then assessed write (filesystem_mutation exe) exe shell net
    else if elem_text exe
        (words ("bash" ∷ "sh" ∷ "zsh" ∷ "fish" ∷ "powershell" ∷ "pwsh" ∷ "cmd" ∷ []))
    then assessed write nested_shell exe true true
    else if shell
    then assessed write shell_operators exe true true
    else if elem_text exe read_only
    then assessed safe (development_command exe) exe shell net
    else assessed write (unrecognized exe) exe shell true

-- `subcommand or 'status'`
abbrev or_status : Text → Text
or_status [] = codes "status"
or_status (c ∷ s) = c ∷ s

unfoldable pub assess_git : Text → Text → Bool → Bool → CommandAssessment
assess_git exe sub shell net =
    if elem_text sub (words ("push" ∷ "fetch" ∷ "pull" ∷ "clone" ∷ "ls-remote" ∷ "submodule" ∷ []))
    then assessed network (git_network sub) exe shell true
    else if elem_text sub (
        words
          ("reset" ∷ "clean" ∷ "checkout" ∷ "restore" ∷ "rebase" ∷ "merge" ∷ "commit" ∷ "tag" ∷ []))
    then assessed write (git_mutation sub) exe shell net
    else assessed safe (git_read (or_status sub)) exe shell net

-- items[1:]
abbrev pub drop_first : List Text → List Text
drop_first [] = []
drop_first (t ∷ ts) = ts

unfoldable pub assess_tokens : Text → List Text → Bool → Bool → CommandAssessment
assess_tokens exe lowered shell net =
    let sub = first_plain (drop_first lowered) in
    if elem_text exe forbidden_tools
    then assessed forbidden (system_control exe) exe shell net
    else if text_eq exe (codes "sudo") || elem_text (codes "sudo") lowered
    then assessed forbidden privilege_escalation exe shell net
    else if elem_text exe destructive_tools
    then assessed destructive (destructive_command exe) exe shell net
    else if text_eq exe (codes "git")
    then assess_git exe sub shell net
    else if elem_text sub (local_package_commands exe)
    then (if text_eq exe (codes "cargo")
          && elem_text sub (words ("check" ∷ "test" ∷ "clippy" ∷ "metadata" ∷ []))
          && not (elem_text (codes "--offline") lowered)
        then assessed network (cargo_fetch sub) exe shell true
        else assessed safe (local_verification exe sub) exe shell net)
    else assess_general exe lowered shell net

module _ (lower : Text → Text) where
  -- The classification of a command's tokens, the first of them `t`.
  unfoldable pub assess_split : Bool → Result LexError (List Text) → CommandAssessment
  assess_split shell (err e) = assessed forbidden (invalid_syntax e) [] true true
  assess_split shell (ok []) = assessed forbidden empty_command [] false false
  assess_split shell (ok (t ∷ ts)) =
      let exe = lower (after_last b'/' t) in
      assess_tokens exe (map lower (t ∷ ts)) shell (shell || not (elem_text exe network_inert))

  unfoldable pub assess_command : Text → CommandAssessment
  assess_command command =
      let stripped = strip command in
      if text_eq stripped []
      then assessed forbidden empty_command [] false false
      else assess_split (uses_shell_meta stripped) (split stripped)
