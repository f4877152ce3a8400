-- ===== src/Tmux/Start/Arguments.antt =====
-- The arguments of the commands that open a window, written out: what `buildNewWindowArgs`,
-- `buildNewSessionArgs` and `buildSendKeysArgs` of src/tmux/create.ts are to make of a card.
use tukan.Prelude.{
  ◌≡◌, refl, ap, ap₂, ◌∙◌, arith, inl, inr, Bool, true, false, some, List, [], ◌∷◌, ◌++◌, map, keep,
  if◌then◌else◌, Bool-cases,
}
use tukan.Text.{Text, units, ◌==◌, trim, split, join, is_truthy, LowerCase}
use tukan.Board.{Card, BoardConfig, CommandDef}
use tukan.Tmux.Create.{
  sanitize_branch_name, server_args, send_line, build_prompt, prompt_args, env_vars, command_args,
  build_new_session_args, build_new_window_args, build_send_keys_args,
}
use tukan.Tmux.Start.{command_template, window_opts, open_args, description_keys}

-- `-L` and the name of the server, if it has one.
pub on_server : (server_name : Text) → List Text → List Text
on_server [] args = args
on_server (c ∷ s) args = units "-L" ∷ (c ∷ s) ∷ args

-- the template of the card's command, empty for an unknown one
pub template_named : Text → List CommandDef → Text
template_named id [] = []
template_named id (command ∷ commands) =
    let rest = template_named id commands in if command.id == id then command.template else rest

-- the description and the acceptance criteria, with an empty line between them
pub prompt_of : (description acceptance_criteria : Text) → Text
prompt_of [] [] = []
prompt_of (c ∷ s) [] = c ∷ s
prompt_of [] (d ∷ t) = units "Acceptance criteria: " ++ d ∷ t
prompt_of (c ∷ s) (d ∷ t) = (c ∷ s) ++ ((10 ∷ 10 ∷ []) ++ (units "Acceptance criteria: " ++ d ∷ t))

-- `exec "${SHELL:-sh}"`, with the code unit 34 for the quotation mark
abbrev shell : Text
shell = units "exec " ++ (34 ∷ (units "${SHELL:-sh}" ++ 34 ∷ []))

pub prompt_argument : Text → List Text
prompt_argument [] = []
prompt_argument (c ∷ s) = (c ∷ s) ∷ []

-- What the window runs: nothing but a shell for an empty template, `claude` with the prompt of the
-- card, or the template; a shell follows the command.
pub run_in_window : (template description acceptance_criteria : Text) → List Text
run_in_window [] description acceptance_criteria = []
run_in_window (c ∷ s) description acceptance_criteria =
    if c ∷ s == units "claude"
    then units "sh"
      ∷ units "-c"
      ∷ (units "claude " ++ (34 ∷ (units "$@" ++ (34 ∷ (units "; " ++ shell)))))
      ∷ units "--"
      ∷ prompt_argument (prompt_of description acceptance_criteria)
    else units "sh" ∷ units "-c" ∷ ((c ∷ s) ++ (units "; " ++ shell)) ∷ []

-- A window in the session, or a new session without a client if tmux has none.
pub opening_flags : (has_server : Bool) (session_name : Text) → List Text
opening_flags true session_name =
    units "new-window"
    ∷ units "-P"
    ∷ units "-F"
    ∷ units "#{window_id}"
    ∷ units "-t"
    ∷ session_name
    ∷ []
opening_flags false session_name =
    units "new-session"
    ∷ units "-d"
    ∷ units "-P"
    ∷ units "-F"
    ∷ units "#{window_id}"
    ∷ units "-s"
    ∷ session_name
    ∷ []

-- The command that opens the window of a card in a directory; the window has the sanitized name of the
-- card, and the environment says what the card is about.
abbrev pub opening_command :
    LowerCase
    → (has_server : Bool) (server_name session_name dir : Text) → BoardConfig
    → Card
    → List Text
opening_command locale has_server server_name session_name dir config card =
    let name = sanitize_branch_name locale card.name in
    on_server server_name (
      opening_flags has_server session_name
      ++ (units "-n"
          ∷ name
          ∷ units "-c"
          ∷ dir
          ∷ units "-e"
          ∷ (units "TUKAN_CARD_NAME=" ++ name)
          ∷ units "-e"
          ∷ (units "TUKAN_CARD_DESCRIPTION=" ++ card.description)
          ∷ units "-e"
          ∷ (units "TUKAN_CARD_AC=" ++ card.acceptance_criteria)
          ∷ run_in_window (template_named card.command config.commands) card.description
              card.acceptance_criteria))

-- The lines of a text that are not blank, each typed into the window.
pub typed_lines : (server_name window_id : Text) → List Text → List (List Text)
typed_lines server_name window_id [] = []
typed_lines server_name window_id (line ∷ lines) =
    let rest = typed_lines server_name window_id lines in
    if is_truthy (trim line)
    then on_server server_name
        (units "send-keys" ∷ units "-t" ∷ window_id ∷ line ∷ units "Enter" ∷ [])
      ∷ rest
    else rest

-- The description is typed where the command of the card is a plain shell.
abbrev pub typing_commands : (server_name window_id : Text) → BoardConfig → Card → List (List Text)
typing_commands server_name window_id config card =
    if is_truthy (template_named card.command config.commands)
    then []
    else typed_lines server_name window_id (split 10 card.description)

server_args-eq-on_server :
    (server_name : Text) (args : List Text)
    → server_args server_name ++ args ≡ on_server server_name args
unfolding on_server
server_args-eq-on_server [] args = refl
server_args-eq-on_server (c ∷ s) args = refl

pub command_template-eq-named :
    (config : BoardConfig) (card : Card)
    → command_template config card ≡ template_named card.command config.commands
unfolding command_template template_named
command_template-eq-named config card = found config.commands
  where
    found :
        (commands : List CommandDef)
        → command_template (record config { commands = commands }) card
          ≡ template_named card.command commands
    found [] = refl
    found (command ∷ commands) = ground (arith, found commands)

prompt_args-eq-prompt_argument : (prompt : Text) → prompt_args prompt ≡ prompt_argument prompt
unfolding prompt_argument
prompt_args-eq-prompt_argument [] = refl
prompt_args-eq-prompt_argument (c ∷ s) = refl

prompt-eq-prompt_of :
    (description acceptance_criteria : Text)
    → build_prompt (some description) (some acceptance_criteria)
      ≡ prompt_of description acceptance_criteria
unfolding build_prompt prompt_of join
prompt-eq-prompt_of [] [] = refl
prompt-eq-prompt_of (c ∷ s) [] = refl
prompt-eq-prompt_of [] (d ∷ t) = refl
prompt-eq-prompt_of (c ∷ s) (d ∷ t) = refl

module _ (locale : LowerCase) (session_name dir : Text) (card : Card) where
  runs :
      (template : Text)
      → command_args (window_opts locale session_name dir template card)
        ≡ run_in_window template card.description card.acceptance_criteria
  unfolding command_args run_in_window
  runs [] = refl
  runs (c ∷ s) =
      ap
        (λ p.
          if c ∷ s == units "claude"
          then units "sh"
            ∷ units "-c"
            ∷ (units "claude " ++ (34 ∷ (units "$@" ++ (34 ∷ (units "; " ++ shell)))))
            ∷ units "--"
            ∷ p
          else units "sh" ∷ units "-c" ∷ ((c ∷ s) ++ (units "; " ++ shell)) ∷ [])
        (prompt_args-eq-prompt_argument
            (build_prompt (some card.description) (some card.acceptance_criteria))
          ∙ ap prompt_argument (prompt-eq-prompt_of card.description card.acceptance_criteria))

  abbrev named : List Text → List Text
  named runs_this =
      units "-n"
      ∷ sanitize_branch_name locale card.name
      ∷ units "-c"
      ∷ dir
      ∷ units "-e"
      ∷ (units "TUKAN_CARD_NAME=" ++ sanitize_branch_name locale card.name)
      ∷ units "-e"
      ∷ (units "TUKAN_CARD_DESCRIPTION=" ++ card.description)
      ∷ units "-e"
      ∷ (units "TUKAN_CARD_AC=" ++ card.acceptance_criteria)
      ∷ runs_this

  pub open_args-eq-opening_command :
      (has_server : Bool) (server_name : Text) (config : BoardConfig)
      → open_args has_server
          (window_opts locale session_name dir (command_template config card) card)
          server_name
        ≡ opening_command locale has_server server_name session_name dir config card
  unfolding build_new_session_args build_new_window_args env_vars opening_flags
  open_args-eq-opening_command true server_name config =
      server_args-eq-on_server server_name _
      ∙ ap (λ r. on_server server_name (opening_flags true session_name ++ named r))
          (runs (command_template config card)
            ∙ ap (λ t. run_in_window t card.description card.acceptance_criteria)
                (command_template-eq-named config card))
  open_args-eq-opening_command false server_name config =
      server_args-eq-on_server server_name _
      ∙ ap (λ r. on_server server_name (opening_flags false session_name ++ named r))
          (runs (command_template config card)
            ∙ ap (λ t. run_in_window t card.description card.acceptance_criteria)
                (command_template-eq-named config card))

typed-eq-typed_lines :
    (server_name window_id : Text) (lines : List Text)
    → map (send_line window_id server_name) (keep (λ l. is_truthy (trim l)) lines)
      ≡ typed_lines server_name window_id lines
unfolding typed_lines
typed-eq-typed_lines server_name window_id [] = refl
typed-eq-typed_lines server_name window_id (line ∷ lines) =
    elim (Bool-cases (is_truthy (trim line))) [
      | inl text ↦
          rw (text, typed_lines)
            (ap₂ (λ x xs. x ∷ xs) (server_args-eq-on_server server_name _)
              (typed-eq-typed_lines server_name window_id lines))
      | inr blank ↦ rw (blank, typed_lines) (typed-eq-typed_lines server_name window_id lines)
    ]

pub description_keys-eq-typing_commands :
    (server_name window_id : Text) (config : BoardConfig) (card : Card)
    → description_keys (command_template config card) card server_name window_id
      ≡ typing_commands server_name window_id config card
unfolding build_send_keys_args split trim
description_keys-eq-typing_commands server_name window_id config card =
    ap (λ t. description_keys t card server_name window_id) (command_template-eq-named config card)
    ∙ ap (λ keys. if is_truthy (template_named card.command config.commands) then [] else keys)
        (typing card.description)
  where
    typing :
        (text : Text)
        → (if is_truthy text then build_send_keys_args window_id text server_name else [])
          ≡ typed_lines server_name window_id (split 10 text)
    typing [] = typed-eq-typed_lines server_name window_id (split 10 [])
    typing (c ∷ s) = typed-eq-typed_lines server_name window_id (split 10 (c ∷ s))
