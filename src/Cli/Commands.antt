-- ===== src/Cli/Commands.antt =====
-- src/cli.ts: the commands `add`, `start`, `stop`, `resolve`, `edit` and `send`, from the context and
-- the card that the query found.
pub mod Changing
pub mod Saved
use tukan.Prelude.{ℕ, Bool, false, ◌||◌, Option, none, some, List, [], ◌∷◌, ◌++◌, or_else, is_some}
use tukan.Text.{Text, units, trim, is_truthy, truthy?, LowerCase}
use tukan.Tmux.Create.{NodePath, server_args}
use tukan.Tmux.Start.{Command, git_command, tmux_command, World, start_window}
use tukan.Board.{Card, BoardConfig}
use tukan.Board.CardOps.{
  AddCardOpts, create_card, add_card_to_config, mark_card_started, mark_card_stopped,
  EditCardFields,
}
use tukan.Board.Template.{TemplateValues, ParsedTemplate}
use tukan.State.Migrate.{RawBoard}
use tukan.State.Store.{Files}
use tukan.Cli.Context.{Context, save_config}

-- How a command ends: with these files, with a message and the exit code 1, or with an error that
-- nothing catches.
pub data Ending : Type 0 where
  finished : Files → Ending
  refused : Text → Ending
  crashed : Ending

-- The commands that ran, in order, and the end.
pub record Ran : Type 0 where
  pub commands : List Command
  pub ending : Ending

abbrev pub ended : Option Files → Ending
ended none = crashed
ended (some files) = finished files

-- the options of `add`
pub record AddOptions : Type 0 where
  pub description : Option Text
  pub acceptance_criteria : Option Text
  pub dir : Option Text
  pub command : Option Text
  pub worktree : Option Bool
  pub worktree_path : Option Text

abbrev pub add_opts : Context → Text → AddOptions → AddCardOpts
add_opts ctx name opts = record {
  name = name;
  description = opts.description;
  acceptance_criteria = opts.acceptance_criteria;
  dir = some (or_else opts.dir ctx.working_dir);
  command = opts.command;
  custom_command = none;
  worktree = opts.worktree;
  worktree_path = opts.worktree_path;
  session_name = ctx.session_name;
}

-- the flags of `edit`
pub record EditFlags : Type 0 where
  pub name : Option Text
  pub description : Option Text
  pub acceptance_criteria : Option Text
  pub dir : Option Text
  pub command : Option Text

-- `hasFlags`
abbrev pub has_flags : EditFlags → Bool
has_flags flags =
    is_some flags.name
    || is_some flags.description
    || is_some flags.acceptance_criteria
    || is_some flags.dir
    || is_some flags.command

abbrev pub fields_of_flags : EditFlags → EditCardFields
fields_of_flags flags = record {
  name = flags.name;
  description = flags.description;
  acceptance_criteria = flags.acceptance_criteria;
  dir = flags.dir;
  command = flags.command;
  custom_command = none;
  worktree = none;
  worktree_path = none;
}

abbrev pub fields_of_template : ParsedTemplate → EditCardFields
fields_of_template parsed = record {
  name = parsed.name;
  description = parsed.description;
  acceptance_criteria = parsed.acceptance_criteria;
  dir = parsed.dir;
  command = parsed.command;
  custom_command = none;
  worktree = parsed.worktree;
  worktree_path = parsed.worktree_path;
}

abbrev pub template_of_card : Card → TemplateValues
template_of_card card = record {
  name = card.name;
  description = card.description;
  acceptance_criteria = card.acceptance_criteria;
  dir = card.dir;
  worktree = card.worktree;
  worktree_path = or_else card.worktree_path [];
  command = card.command;
}

-- What the editor leaves: it failed, or its file cannot be read, or it has a content.
pub data EditorResult : Type 0 where
  editor_failed unreadable_file : EditorResult
  edited_to : Text → EditorResult

-- a command of tmux on a window, if there is one; a failure is ignored
abbrev pub on_window : Option Text → Option Text → (Text → List Text) → List Command
on_window server_name none args = []
on_window server_name (some window_id) args =
    tmux_command (server_args (or_else server_name []) ++ args window_id) ∷ []

abbrev pub kill_commands : Context → Card → List Command
kill_commands ctx card =
    on_window ctx.server_name (truthy? card.window_id)
      (λ window_id. units "kill-window" ∷ units "-t" ∷ window_id ∷ [])

abbrev pub rename_commands : Context → Card → Option Text → List Command
rename_commands ctx card none = []
rename_commands ctx card (some name) =
    on_window ctx.server_name (truthy? card.window_id)
      (λ window_id. units "rename-window" ∷ units "-t" ∷ window_id ∷ name ∷ [])

-- git commands up to the first that fails
unfoldable pub run_until_error : World → List (List Text) → List Command
run_until_error w [] = []
run_until_error w (args ∷ rest) =
    git_command args ∷ elim (w.git args) [ none ↦ [] | some out ↦ run_until_error w rest ]

abbrev pub has_output : Option Text → Bool
has_output none = false
has_output (some out) = is_truthy (trim out)

abbrev pub or_name : Text → Text → Text
or_name [] name = name
or_name (c ∷ s) name = c ∷ s

-- `migrate` and `exists_dir` are those of the store.
module _ (migrate : RawBoard → BoardConfig) (exists_dir : Text → Bool) where
  abbrev pub saving_config : Context → BoardConfig → Files → Ending
  saving_config ctx config files = ended (save_config migrate exists_dir ctx config files)

-- `now` is the clock.
module _ (migrate : RawBoard → BoardConfig) (exists_dir : Text → Bool) (now : ℕ) where
  unfoldable pub add : Context → (id cwd name : Text) → AddOptions → Files → Ran
  add ctx id cwd name opts files = record {
    commands = [];
    ending =
        saving_config migrate exists_dir ctx
          (add_card_to_config ctx.config (create_card id cwd now (add_opts ctx name opts))) files;
  }

  unfoldable pub stop : Context → Text → Card → Files → Ran
  stop ctx id card files = record {
    commands = kill_commands ctx card;
    ending = saving_config migrate exists_dir ctx (mark_card_stopped now ctx.config id) files;
  }

module _ (migrate : RawBoard → BoardConfig) (exists_dir : Text → Bool) (now : ℕ)
    (locale : LowerCase) (path : NodePath) (w : World) where
  -- `has_server` says that tmux has a session.
  unfoldable pub start : Context → Text → Card → (has_server : Bool) → Files → Ran
  start ctx id card has_server files = elim (truthy? card.window_id) [
    | some window_id ↦ record {
      commands = [];
      ending = refused (
          units "Card \""
          ++ (card.name ++ (units "\" is already started (window " ++ (window_id ++ units ")"))));
    }
    | none ↦
        let (log, result) =
          start_window locale path w has_server ctx.server_name
            (or_name card.session_name ctx.session_name) ctx.config card in
        record {
          commands = log;
          ending = elim result [
            | none ↦ crashed
            | some window_id ↦
                saving_config migrate exists_dir ctx (mark_card_started now ctx.config id window_id)
                  files
          ];
        }
  ]
