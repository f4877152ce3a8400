-- ===== src/Ui/App/Handlers.antt =====
-- src/ui/App.tsx: what the forms hand over, and the end of `startCard`.
use tukan.Prelude.{
  Bool, true, false, Option, none, some, List, [], ◌∷◌, ◌++◌, if◌then◌else◌, or_else,
}
use tukan.Text.{Text, units, truthy?}
use tukan.Dict.{get}
use tukan.Tmux.{TmuxServer}
use tukan.Tmux.Create.{server_args}
use tukan.Tmux.Start.{Command, start_window}
use tukan.Board.{Card, ColumnDef, CommandDef, col_todo, col_in_progress}
use tukan.Board.Derive.{BoardCard}
use tukan.Ui.App.{
  Modal, edit, start_form, AppState, Env, Effect, run_tmux, begin_start, requery, focus, saving,
  with_card, current_session_name,
}

-- what a form hands over
pub record FormValues : Type 0 where
  pub name : Text
  pub description : Text
  pub acceptance_criteria : Text
  pub dir : Text
  pub command : Text
  pub worktree : Bool
  pub worktree_path : Text

-- No handler of a form throws.
abbrev pub Handled : Type 0
Handled = AppState × List Effect

abbrev pub path_of : FormValues → Option Text
path_of values = if values.worktree then some values.worktree_path else none

unfoldable pub build_card_from_values : Env → FormValues → AppState → Card
unfolding current_session_name
build_card_from_values env values s = record {
  id = env.uuid;
  name = values.name;
  description = values.description;
  acceptance_criteria = values.acceptance_criteria;
  column_id = col_todo;
  session_name = current_session_name env s;
  dir = values.dir;
  command = values.command;
  custom_command = none;
  worktree = values.worktree;
  worktree_path = path_of values;
  window_id = none;
  created_at = env.now;
  started_at = none;
  closed_at = none;
}

unfoldable pub handle_create : Env → FormValues → AppState → Handled
unfolding build_card_from_values saving focus
handle_create env values s =
    let card = build_card_from_values env values s in
    let config = with_card card.id card s.config in
    (
      record (focus env card.id (record s { config = config })) { modal = none },
      saving env config s ∷ [],
    )

-- a card with the values of a form
unfoldable pub with_values : FormValues → Card → Card
with_values values card = record card {
  name = values.name;
  description = values.description;
  acceptance_criteria = values.acceptance_criteria;
  dir = values.dir;
  command = values.command;
  worktree = values.worktree;
  worktree_path = path_of values;
}

abbrev pub rename_window : Option Text → Text → Option Text → List Effect
rename_window server_name name none = []
rename_window server_name name (some window_id) =
    run_tmux (
      server_args (or_else server_name [])
      ++ (units "rename-window" ∷ units "-t" ∷ window_id ∷ name ∷ []))
    ∷ []

abbrev pub requery_if : Option Text → List Effect
requery_if none = []
requery_if (some window_id) = requery ∷ []

-- the card and its board card, if the modal is the form that edits it
abbrev pub edited : Option Modal → Option BoardCard
edited none = none
edited (some (edit bc)) = some bc
edited (some _) = none

abbrev pub starting : Option Modal → Option BoardCard
starting none = none
starting (some (start_form bc)) = some bc
starting (some _) = none

unfoldable pub edit_card : Env → FormValues → Text → AppState → Handled
unfolding with_values saving focus
edit_card env values card_id s = elim (get card_id s.config.cards) [
  | none ↦ (s, [])
  | some card ↦
      let config = with_card card_id (with_values values card) s.config in
      let window_id = truthy? card.window_id in
      (
        record (focus env card_id (record s { config = config })) { modal = none },
        rename_window env.server_name values.name window_id
            ++ (saving env config s ∷ requery_if window_id),
      )
]

unfoldable pub handle_edit : Env → FormValues → AppState → Handled
unfolding edit_card
handle_edit env values s = elim (edited s.modal) [
  | none ↦ (s, [])
  | some bc ↦ edit_card env values bc.card_id s
]

-- `startCard` behind its commands: `window_id` is the new window, and `server` the next answer of
-- `getTmuxState`. The configuration is the current one, but the card is that of the call.
unfoldable pub finish_start : Env → Card → Text → TmuxServer → AppState → Handled
unfolding saving focus
finish_start env card window_id server s =
    let started : Card = record card {
      window_id = some window_id;
      started_at = some env.now;
      column_id = col_in_progress;
      closed_at = none;
    } in
    let config = with_card card.id started s.config in
    (
      record (focus env card.id (record s { config = config; tmux = server })) { modal = none },
      saving env config s ∷ [],
    )

abbrev pub has_sessions : TmuxServer → Bool
has_sessions server = elim server.sessions [ [] ↦ false | session ∷ sessions ↦ true ]

-- The whole of `startCard`, with the commands that it runs. An error leaves the state as it is.
unfoldable pub start_card : Env → TmuxServer → Card → AppState → Handled × List Command
unfolding finish_start start_window
start_card env server card s =
    let (log, result) =
      start_window env.locale env.path env.world (has_sessions s.tmux) env.server_name
        card.session_name s.config card in
    elim result [
      | none ↦ ((s, []), log)
      | some window_id ↦ (finish_start env card window_id server s, log)
    ]

unfoldable pub handle_create_and_start : Env → FormValues → AppState → Handled
unfolding build_card_from_values
handle_create_and_start env values s =
    let card = build_card_from_values env values s in
    (record s { config = with_card card.id card s.config }, begin_start card ∷ [])

unfoldable pub handle_quick_shell : Env → Text → AppState → Handled
unfolding current_session_name
handle_quick_shell env name s =
    let card : Card = record {
      id = env.uuid;
      name = name;
      description = [];
      acceptance_criteria = [];
      column_id = col_in_progress;
      session_name = current_session_name env s;
      dir = env.working_dir;
      command = units "shell";
      custom_command = none;
      worktree = false;
      worktree_path = none;
      window_id = none;
      created_at = env.now;
      started_at = none;
      closed_at = none;
    } in
    (record s { config = with_card env.uuid card s.config }, begin_start card ∷ [])

unfoldable pub handle_settings : Env → List ColumnDef → List CommandDef → AppState → Handled
unfolding saving
handle_settings env columns commands s =
    let config = record s.config { columns = columns; commands = commands } in
    (record s { config = config; modal = none }, saving env config s ∷ [])

unfoldable pub handle_start : FormValues → AppState → Handled
unfolding with_values
handle_start values s = elim (starting s.modal) [
  | none ↦ (s, [])
  | some bc ↦ elim (get bc.card_id s.config.cards) [
    | none ↦ (s, [])
    | some card ↦
        let updated = with_values values card in
        (record s { config = with_card card.id updated s.config }, begin_start updated ∷ [])
  ]
]
