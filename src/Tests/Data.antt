-- ===== src/Tests/Data.antt =====
-- A small board, its cards, and a tmux server that runs some of their windows.
use tukan.Prelude.{ℕ, true, false, Option, none, some, [], ◌∷◌}
use tukan.Text.{Text, units}
use tukan.Dict.{Dict}
use tukan.Tmux.{TmuxPane, TmuxWindow, TmuxServer}
use tukan.Board.{Card, BoardConfig, default_config, col_todo, col_in_progress, col_review}
use tukan.Board.Activity.{ActivityMap}

abbrev pub card_named : (id name column_id : Text) → Option Text → Card
card_named id name column_id window_id = record {
  id = id;
  name = name;
  description = [];
  acceptance_criteria = [];
  column_id = column_id;
  session_name = units "main";
  dir = units "/src";
  command = units "claude";
  custom_command = none;
  worktree = false;
  worktree_path = none;
  window_id = window_id;
  created_at = 1000;
  started_at = some 2000;
  closed_at = none;
}

abbrev pub parser_card : Card
parser_card = card_named (units "aaaa-1") (units "Parser") col_in_progress (some (units "@1"))

abbrev pub printer_card : Card
printer_card = card_named (units "aaaa-2") (units "@2") col_review (some (units "@2"))

abbrev pub docs_card : Card
docs_card = card_named (units "bbbb-3") (units "Parser docs") col_todo none

abbrev pub lost_card : Card
lost_card = card_named (units "cccc-4") (units "Lost") (units "9") (some (units "@7"))

abbrev pub cards : Dict Card
cards =
    (units "aaaa-1", parser_card)
    ∷ (units "aaaa-2", printer_card)
    ∷ (units "bbbb-3", docs_card)
    ∷ (units "cccc-4", lost_card)
    ∷ []

abbrev pub config : BoardConfig
config = record default_config { cards = cards }

abbrev pub pane_at : (id : Text) → TmuxPane
pane_at id = record {
  id = id;
  index = some 0;
  active = true;
  command = units "node";
  pid = some 77;
  working_dir = units "/src";
  width = some 80;
  height = some 24;
}

abbrev pub window_with : (id name pane : Text) → TmuxWindow
window_with id name pane = record {
  id = id;
  index = some 0;
  name = name;
  active = true;
  panes = pane_at pane ∷ [];
}

-- the window of the board itself, those of two cards, and one of no card
abbrev pub server : TmuxServer
server = record {
  server_name = units "default";
  sessions =
      record {
        id = units "$0";
        name = units "main";
        attached = true;
        windows =
            window_with (units "@0") (units "tukan") (units "%0")
            ∷ window_with (units "@1") (units "parser") (units "%1")
            ∷ window_with (units "@2") (units "printer") (units "%2")
            ∷ window_with (units "@5") (units "scratch") (units "%5")
            ∷ [];
      }
      ∷ [];
}

abbrev pub own_pane : Option Text
own_pane = some (units "%0")

abbrev pub activity : ActivityMap
activity =
    (units "@1", record { has_activity = true; last_change_time = 1000; spinning = true })
    ∷ (units "@2", record { has_activity = false; last_change_time = 90000; spinning = false })
    ∷ []

abbrev pub times : Dict ℕ
times = (units "@1", 1000) ∷ (units "@2", 90000) ∷ []
