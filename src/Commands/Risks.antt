-- ===== src/Commands/Risks.antt =====
-- What the classification of a command says of its tokens.
use borealis_coder.Prelude.{
  ◌≡◌, refl, Bool, true, false, ◌||◌, List, [], ◌∷◌, Result, ok, err, arith, ◌⊎◌, inl, inr, map,
  Bool-cases,
}
use borealis_coder.Prelude.Chars.{Text, codes, strip, elem_text, text_eq, after_last}
use borealis_coder.Commands.{
  CommandRisk, assess_command, assess_split, assess_tokens, assess_git, assess_general,
  uses_shell_meta, network_inert, words, first_plain, drop_first, forbidden_tools,
  destructive_tools, read_only, local_package_commands,
}
use borealis_coder.Commands.Shlex.{LexError, split}

assess_general-net :
    (exe : Text) (ts : List Text) (shell net : Bool)
    → (assess_general exe ts shell net).can_open_network ≡ false
    → net ≡ false
unfolding assess_general
assess_general-net exe ts shell net h = ground arith

assess_git-net :
    (exe sub : Text) (shell net : Bool)
    → (assess_git exe sub shell net).can_open_network ≡ false
    → net ≡ false
unfolding assess_git
assess_git-net exe sub shell net h = ground arith

assess_tokens-net :
    (exe : Text) (ts : List Text) (shell net : Bool)
    → (assess_tokens exe ts shell net).can_open_network ≡ false
    → net ≡ false
unfolding assess_tokens
assess_tokens-net exe ts shell net h = ground (
  arith,
  assess_git-net exe (first_plain (drop_first ts)) shell net,
  assess_general-net exe ts shell net,
)

-- A command whose tokens name a tool of system control, or `sudo` anywhere.
unfoldable pub is_forbidden : Text → List Text → Bool
is_forbidden exe ts =
    elem_text exe forbidden_tools || text_eq exe (codes "sudo") || elem_text (codes "sudo") ts

-- Subcommands of git, by what they do.
abbrev git_network_subcommands : List Text
git_network_subcommands =
    words ("push" ∷ "fetch" ∷ "pull" ∷ "clone" ∷ "ls-remote" ∷ "submodule" ∷ [])

abbrev git_write_subcommands : List Text
git_write_subcommands =
    words ("reset" ∷ "clean" ∷ "checkout" ∷ "restore" ∷ "rebase" ∷ "merge" ∷ "commit" ∷ "tag" ∷ [])

-- What has a command of these tokens accepted: git with another subcommand than those above, or a
-- package manager's local command, whatever the shell finds behind them; or, without features of
-- the shell, a development program.
abbrev pub IsAccepted : Text → List Text → Bool → Type 0
IsAccepted exe ts shell =
    let subcommand = first_plain (drop_first ts) in
    ((text_eq exe (codes "git") ≡ true)
      × (elem_text subcommand git_network_subcommands ≡ false)
      × (elem_text subcommand git_write_subcommands ≡ false))
    ⊎ (elem_text subcommand (local_package_commands exe) ≡ true)
    ⊎ ((shell ≡ false) × (elem_text exe read_only ≡ true))

assess_git-safe :
    (exe sub : Text) (shell net : Bool)
    → (assess_git exe sub shell net).risk ≡ CommandRisk.safe
    → (elem_text sub git_network_subcommands ≡ false)
      × (elem_text sub git_write_subcommands ≡ false)
unfolding assess_git
assess_git-safe exe sub shell net h = ground arith

assess_general-safe :
    (exe : Text) (ts : List Text) (shell net : Bool)
    → (assess_general exe ts shell net).risk ≡ CommandRisk.safe
    → (shell ≡ false) × (elem_text exe read_only ≡ true)
unfolding assess_general
assess_general-safe exe ts shell net h = ground arith

assess_tokens-IsAccepted :
    (exe : Text) (ts : List Text) (shell net : Bool)
    → (assess_tokens exe ts shell net).risk ≡ CommandRisk.safe
    → IsAccepted exe ts shell
unfolding assess_tokens
assess_tokens-IsAccepted exe ts shell net h =
    let subcommand = first_plain (drop_first ts) in
    elim (Bool-cases (text_eq exe (codes "git"))) [
      | inl git ↦
          let safe : (assess_git exe subcommand shell net).risk ≡ CommandRisk.safe = ground arith in
          let (offline, reads) = assess_git-safe exe subcommand shell net safe in
          inl (git, offline, reads)
      | inr other ↦ elim (Bool-cases (elem_text subcommand (local_package_commands exe))) [
        | inl local ↦ inr (inl local)
        | inr neither ↦
            let safe : (assess_general exe ts shell net).risk ≡ CommandRisk.safe = ground arith in
            inr (inr (assess_general-safe exe ts shell net safe))
      ]
    ]

assess_tokens-safe :
    (exe : Text) (ts : List Text) (shell net : Bool)
    → (assess_tokens exe ts shell net).risk ≡ CommandRisk.safe
    → (is_forbidden exe ts ≡ false) × (elem_text exe destructive_tools ≡ false)
unfolding assess_tokens is_forbidden
assess_tokens-safe exe ts shell net h = ground arith

module _ (lower : Text → Text) where
  -- tokens[0].rsplit("/", 1)[-1].lower()
  abbrev pub executable_of : Text → Text
  executable_of t = lower (after_last b'/' t)

  -- A command that neither uses features of the shell nor runs a program with hooks of its own.
  pub IsInert : Text → Type 0
  IsInert command =
      (uses_shell_meta (strip command) ≡ false)
      × ((t : Text) × (ts : List Text) × (split (strip command) ≡ ok (t ∷ ts))
          × (elem_text (executable_of t) network_inert ≡ true))

  -- A command that parses, and is by its first token neither forbidden nor destructive, but accepted.
  pub IsMild : Text → Type 0
  IsMild command =
      (t : Text) × (ts : List Text) × (split (strip command) ≡ ok (t ∷ ts))
      × (is_forbidden (executable_of t) (map lower (t ∷ ts)) ≡ false)
      × (elem_text (executable_of t) destructive_tools ≡ false)
      × IsAccepted (executable_of t) (map lower (t ∷ ts)) (uses_shell_meta (strip command))

  assess_split-IsInert :
      (shell : Bool) (r : Result LexError (List Text))
      → (assess_split lower shell r).can_open_network ≡ false
      → ((assess_split lower shell r).risk ≡ CommandRisk.forbidden)
        ⊎ ((shell ≡ false)
            × ((t : Text) × (ts : List Text) × (r ≡ ok (t ∷ ts))
                × (elem_text (executable_of t) network_inert ≡ true)))
  unfolding assess_split
  assess_split-IsInert shell (err e) h = cc
  assess_split-IsInert shell (ok []) h = inl refl
  assess_split-IsInert shell (ok (t ∷ ts)) h =
      let net = assess_tokens-net (executable_of t) (map lower (t ∷ ts)) shell _ h in
      inr (ground arith, (t, ts, refl, ground arith))

  -- `command.strip()` is empty, or the command is classified by its tokens.
  assess_command-cases :
      (command : Text)
      → ((assess_command lower command).risk ≡ CommandRisk.forbidden)
        ⊎ (assess_command lower command
            ≡ assess_split lower (uses_shell_meta (strip command)) (split (strip command)))
  unfolding assess_command
  assess_command-cases command = ground arith

  pub assess_command-IsInert :
      (command : Text)
      → (assess_command lower command).can_open_network ≡ false
      → ((assess_command lower command).risk ≡ CommandRisk.forbidden) ⊎ IsInert command
  unfolding IsInert
  assess_command-IsInert command h = elim (assess_command-cases command) [
    | inl f ↦ inl f
    | inr e ↦ rw e (assess_split-IsInert _ _ (rw e at h))
  ]

  assess_split-safe :
      (shell : Bool) (r : Result LexError (List Text))
      → (assess_split lower shell r).risk ≡ CommandRisk.safe
      → (t : Text) × (ts : List Text) × (r ≡ ok (t ∷ ts))
        × (is_forbidden (executable_of t) (map lower (t ∷ ts)) ≡ false)
        × (elem_text (executable_of t) destructive_tools ≡ false)
        × IsAccepted (executable_of t) (map lower (t ∷ ts)) shell
  unfolding assess_split
  assess_split-safe shell (err e) h = cc
  assess_split-safe shell (ok []) h = cc
  assess_split-safe shell (ok (t ∷ ts)) h =
      let (a, b) = assess_tokens-safe (executable_of t) (map lower (t ∷ ts)) shell _ h in
      let accepted = assess_tokens-IsAccepted (executable_of t) (map lower (t ∷ ts)) shell _ h in
      (t, ts, refl, a, b, accepted)

  pub assess_command-IsMild :
      (command : Text) → (assess_command lower command).risk ≡ CommandRisk.safe → IsMild command
  unfolding IsMild
  assess_command-IsMild command h = elim (assess_command-cases command) [
    | inl f ↦ cc
    | inr e ↦ assess_split-safe _ _ (rw e at h)
  ]
