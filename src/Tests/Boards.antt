-- ===== src/Tests/Boards.antt =====
-- The sample board with its server: what is shown, what is reconciled and what is moved.
use tukan.Prelude.{◌≡◌, refl, true, false, none, List, [], ◌∷◌, map, arith, if◌then◌else◌}
use tukan.Text.{Text, units, ◌==◌}
use tukan.Text.Equality.{ne_of_eq_false}
use tukan.Dict.{set, has}
use tukan.Dict.Extension.{map_values}
use tukan.Board.{Cursor}
use tukan.Board.Derive.{BoardCard, BoardColumn, board_cards, derive_board}
use tukan.Board.Derive.Columns.{expected_column, derive_board-eq-expected}
use tukan.Board.Derive.Once.{count, shows, HasDistinctIds, all_windows}
use tukan.Board.Derive.Total.{count-board_cards}
use tukan.Board.Reconcile.{reconcile_config}
use tukan.Board.Reconcile.Laws.{live_name, settle, reconcile_config-eq-settle}
use tukan.Board.Navigation.{cards_in, MoveResult}
use tukan.Board.Navigation.Laws.{Arrow, press, IsOnBoard, Lands, press-IsOnBoard}
use tukan.Tests.Data.{docs_card, cards, config, server, own_pane, activity}
use tukan.Tests.Cards.{cards-IsDistinct, config-IsWellFormed}

derive_board-eq-expected_example :
    derive_board server config own_pane activity 100000
    ≡ map
        (expected_column config (board_cards server config own_pane activity 100000))
        config.columns
derive_board-eq-expected_example = derive_board-eq-expected server config own_pane activity 100000

pub windows-HasDistinctIds : HasDistinctIds (all_windows server.sessions)
unfolding all_windows ◌==◌
windows-HasDistinctIds = (
  (
    ne_of_eq_false (units "@1") (units "@0") refl,
    (
      ne_of_eq_false (units "@2") (units "@0") refl,
      (ne_of_eq_false (units "@5") (units "@0") refl, tt),
    ),
  ),
  (
    (
      ne_of_eq_false (units "@2") (units "@1") refl,
      (ne_of_eq_false (units "@5") (units "@1") refl, tt),
    ),
    ((ne_of_eq_false (units "@5") (units "@2") refl, tt), (tt, tt)),
  ),
)

count-board_cards_example :
    count (shows (units "cccc-4")) (board_cards server config own_pane activity 100000)
    ≡ (if has (units "cccc-4") config.cards then 1 else 0)
count-board_cards_example =
    count-board_cards config config-IsWellFormed server own_pane activity 100000 (units "cccc-4")
      windows-HasDistinctIds

reconcile_config-eq-settle_example :
    reconcile_config 100000 config server
    ≡ record config { cards = map_values (settle 100000 (live_name server)) config.cards }
reconcile_config-eq-settle_example =
    reconcile_config-eq-settle 100000 config server cards-IsDistinct

abbrev board_card : (id : Text) → BoardCard
board_card id = record {
  card_id = id;
  window_id = none;
  display_id = id;
  session_name = units "main";
  name = id;
  command = units "claude";
  working_dir = units "/src";
  active = false;
  started = false;
  closed = true;
  uncategorized = false;
  has_activity = false;
  spinning = false;
  idle_time = none;
}

abbrev columns : List BoardColumn
columns =
    record { id = units "1"; title = units "Todo"; cards = board_card (units "bbbb-3") ∷ [] }
    ∷ record { id = units "2"; title = units "In Progress"; cards = [] }
    ∷ []

abbrev cursor : Cursor
cursor = record { col = 0; row = 0; col_scroll = none }

cursor-IsOnBoard : IsOnBoard columns cursor
unfolding cards_in
cursor-IsOnBoard = omega arith

press-IsOnBoard_example : Lands columns (press Arrow.right cursor columns)
press-IsOnBoard_example = press-IsOnBoard Arrow.right columns cursor cursor-IsOnBoard

abbrev moved : MoveResult
moved = record {
  config = record config {
    cards = set (units "bbbb-3") (record docs_card { column_id = units "2" }) cards;
  };
  cursor = record { col = 1; row = 0; col_scroll = none };
}
