-- ===== src/Tests/App.antt =====
-- Events of the application on the sample board.
use tukan.Prelude.{◌⊎◌, ◌≡◌, refl, true, false, Option, none, some, List, [], ◌∷◌, or_else}
use tukan.Text.{Text, units, ◌==◌, trim, ascii_only}
use tukan.Dict.{Dict, get, set}
use tukan.Tmux.Create.{NodePath}
use tukan.Tmux.Start.{Command, World, start_window}
use tukan.Tmux.Start.Opening.{Started, start_window-Started}
use tukan.Board.{
  Card, ColumnDef, right, col_unassigned, col_todo, col_in_progress, col_review, col_done,
}
use tukan.Board.CardOps.Laws.{IsWellFormed}
use tukan.Board.Derive.{BoardCard, derive_board}
use tukan.Ui.App.{AppState, Env, Effect, create, columns_of}
use tukan.Ui.App.Handlers.{FormValues, handle_create, finish_start, build_card_from_values}
use tukan.Ui.App.Press.{press_move}
use tukan.Ui.App.Confirm.{finish_resolve, end_resolve, is_dirty}
use tukan.Ui.App.Step.{Event, resolve_ended, form_submitted, submit, step, run}
use tukan.Ui.App.Step.Changes.{step-Change}
use tukan.Ui.App.Step.Runs.{run-IsWellFormed, leaving, step-leaving}
use tukan.Ui.App.Change.{Change}
use tukan.Ui.App.Landing.{IsOn, create-start-IsOn}
use tukan.Ui.App.Race.{create-resolve_lost}
use tukan.Tests.Data.{card_named, config, server, own_pane, activity, docs_card, parser_card}
use tukan.Tests.Cards.{config-IsWellFormed}
use tukan.Tests.Boards.{windows-HasDistinctIds}

abbrev same_text : Text → Text
same_text s = s

abbrev no_content : List Text → Dict Text
no_content pane_ids = []

abbrev pub node_path : NodePath
node_path = record { basename = λ p. units "src"; resolve = λ dir parts. units "/src-docs" }

-- git succeeds, and tmux answers each command with the id of a window.
abbrev pub world : World
world = record {
  exists_path = λ p. false;
  git = λ args. some [];
  tmux = λ args. some (units "@9 ");
}

abbrev env : Env
env = record {
  now = 100000;
  uuid = units "dddd-5";
  self_pane_id = own_pane;
  tmux_env = none;
  server_name = none;
  session_name = none;
  working_dir = units "/src";
  locale = ascii_only;
  path = node_path;
  world = world;
}

abbrev creating : AppState
creating = record {
  config = config;
  cursor = record { col = 0; row = 0; col_scroll = none };
  tmux = server;
  modal = some create;
  activity = activity;
  pane_hashes = [];
}

abbrev values : FormValues
values = record {
  name = units "Lexer";
  description = units "Tokens";
  acceptance_criteria = [];
  dir = units "/src";
  command = units "shell";
  worktree = false;
  worktree_path = [];
}

abbrev created : AppState × List Effect
created = handle_create env values creating

creates : step same_text no_content env (form_submitted values) creating ≡ some created
unfolding step submit
creates = refl

step-Change_example : (created.0.config ≡ config) ⊎ Change config created.0.config created.1
step-Change_example =
    step-Change same_text no_content env (form_submitted values) creating created.0 created.1
      config-IsWellFormed creates

step-leaving_example :
    step same_text no_content env (leaving create) creating
    ≡ some (record creating { modal = none }, [])
step-leaving_example = step-leaving same_text no_content env creating create refl

abbrev later_columns : List ColumnDef
later_columns =
    record { id = col_todo; title = units "Todo" }
    ∷ record { id = col_in_progress; title = units "In Progress" }
    ∷ record { id = col_review; title = units "Review" }
    ∷ record { id = col_done; title = units "Done" }
    ∷ []

create-start-IsOn_example :
    IsOn env (units "dddd-5") (handle_create env values creating).0
    × IsOn env (units "bbbb-3") (finish_start env docs_card (units "@5") server creating).0
create-start-IsOn_example =
    create-start-IsOn env values docs_card (units "@5") server creating
      (record { id = col_unassigned; title = units "Unassigned" }) later_columns config-IsWellFormed
      windows-HasDistinctIds windows-HasDistinctIds refl

-- A card in Review that no window belongs to.
abbrev reviewed : Card
reviewed = card_named (units "eeee-6") (units "Reviewed") col_review none

abbrev reviewing : AppState
reviewing = record creating {
  config = record config { cards = (units "eeee-6", reviewed) ∷ [] };
  cursor = record { col = 3; row = 0; col_scroll = none };
  modal = none;
}

abbrev moved : AppState × List Effect
moved = or_else (press_move env right reviewing) (reviewing, [])

abbrev done_card : Card
done_card = or_else (get (units "eeee-6") moved.0.config.cards) reviewed

-- A resolve of the first card, during which another is created.
abbrev parser_board_card : BoardCard
parser_board_card = record {
  card_id = units "aaaa-1";
  window_id = some (units "@1");
  display_id = units "aaaa";
  session_name = units "main";
  name = units "Parser";
  command = units "claude";
  working_dir = units "/src";
  active = true;
  started = true;
  closed = false;
  uncategorized = false;
  has_activity = true;
  spinning = true;
  idle_time = none;
}

abbrev resolving : AppState × List Effect
resolving = or_else (finish_resolve env parser_board_card false creating created.0) (creating, [])

resolves :
    (get (units "aaaa-1") creating.config.cards ≡ some parser_card)
    × (get (units "dddd-5") creating.config.cards ≡ none)
    × (finish_resolve env parser_board_card false creating created.0 ≡ some resolving)
unfolding get ◌==◌ finish_resolve derive_board
resolves = (refl, refl, refl)

-- The card is created while a resolve waits that began before.
abbrev overtaken : List (Env × Event)
overtaken = (env, form_submitted values) ∷ (env, resolve_ended parser_board_card creating) ∷ []

abbrev ended : AppState
ended = or_else (run same_text no_content overtaken creating) creating

runs : run same_text no_content overtaken creating ≡ some ended
unfolding run step submit end_resolve finish_resolve columns_of get ◌==◌ derive_board set is_dirty
runs = refl

run-IsWellFormed_example : IsWellFormed ended.config
run-IsWellFormed_example =
    run-IsWellFormed same_text no_content overtaken creating ended (tt, (config-IsWellFormed, tt))
      config-IsWellFormed runs

create-resolve_lost_example :
    (get (units "dddd-5") created.0.config.cards
      ≡ some (build_card_from_values env values creating))
    × (get (units "dddd-5") resolving.0.config.cards ≡ none)
create-resolve_lost_example =
    create-resolve_lost env env values parser_board_card false creating resolving.0 resolving.1
      parser_card resolves.0 resolves.1 resolves.2

-- A start of the third card, with a worktree.
abbrev docs_apart : Card
docs_apart = record docs_card { worktree = true; command = units "shell" }

abbrev starting : List Command × Option Text
starting = start_window ascii_only node_path world true none (units "main") config docs_apart

starts : starting ≡ (starting.0, some (units "@9"))
unfolding start_window trim ◌==◌
starts = refl

start_window-Started_example :
    Started ascii_only node_path world true none
      (units "main")
      config
      docs_apart
      starting.0
      (units "@9")
start_window-Started_example =
    start_window-Started ascii_only node_path world true none (units "main") config docs_apart
      starting.0 (units "@9") starts
