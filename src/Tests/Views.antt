-- ===== src/Tests/Views.antt =====
-- What the terminal shows of the sample board.
use tukan.Prelude.{
  ℕ, ◌+◌, ◌-◌, ◌*◌, ◌≤◌, ◌<◌, ◌≡◌, refl, true, false, none, some, List, [], ◌∷◌, length, get_elem?,
  if◌then◌else◌, arith,
}
use tukan.Text.{Text, units}
use tukan.Board.{Cursor}
use tukan.Board.Derive.{BoardCard, BoardColumn}
use tukan.Ui.View.Scroll.{
  view_board, visible_count, scroll_offset, sync_scroll, view_column, card_height, column_chrome,
  slice,
}
use tukan.Ui.View.Scroll.Columns.{view_board_shows, sync_scroll_settles}
use tukan.Ui.View.Scroll.Rows.{view_column_shows, view_column_fits}
use tukan.Ui.View.Title.{offset_at, total_ticks}
use tukan.Ui.View.Title.Scrolling.{tick_after, scrolling_shows}

abbrev card_at_row : Text → BoardCard
card_at_row id = record {
  card_id = id;
  window_id = none;
  display_id = id;
  session_name = units "main";
  name = units "Parser";
  command = units "claude";
  working_dir = units "/src";
  active = false;
  started = false;
  closed = false;
  uncategorized = false;
  has_activity = false;
  spinning = false;
  idle_time = none;
}

abbrev cards : List BoardCard
cards =
    card_at_row (units "a")
    ∷ card_at_row (units "b")
    ∷ card_at_row (units "c")
    ∷ card_at_row (units "d")
    ∷ []

abbrev column : Text → BoardColumn
column id = record { id = id; title = id; cards = cards }

abbrev columns : List BoardColumn
columns = column (units "0") ∷ column (units "1") ∷ column (units "2") ∷ column (units "3") ∷ []

-- the last column, on a terminal that has room for two
abbrev cursor : Cursor
cursor = record { col = 3; row = 2; col_scroll = some 0 }

shows_two : (view_board columns cursor 70).offset ≡ 2
unfolding view_board visible_count scroll_offset
shows_two = refl

view_board_shows_example :
    let view = view_board columns cursor 70 in
    (view.offset ≤ 3)
    × (get_elem? view.columns (3 - view.offset) ≡ some (column (units "3")))
    × (view.offset + visible_count 4 70 ≤ 4)
view_board_shows_example = view_board_shows columns cursor 70 (omega arith)

sync_scroll_settles_example :
    let view = view_board columns cursor 70 in
    let synced = sync_scroll view cursor in
    (view_board columns synced 70 ≡ view) × (sync_scroll view synced ≡ synced)
sync_scroll_settles_example = sync_scroll_settles columns cursor 70 (omega arith)

view_column_shows_example :
    let view = view_column cards true 2 12 in
    (view.offset ≤ 2)
    × (get_elem? view.cards (2 - view.offset) ≡ some (card_at_row (units "c")))
    × (view.offset + length view.cards ≤ 4)
view_column_shows_example = view_column_shows cards 2 12 (omega arith)

view_column_fits_example :
    let view = view_column cards true 2 12 in
    length view.cards * card_height
      + (if view.has_above then 1 else 0)
      + (if view.has_below then 1 else 0)
      + column_chrome
    ≤ 12
view_column_fits_example = view_column_fits cards true 2 12 (omega arith)

scrolling_shows_example :
    (n : ℕ) × (j : ℕ) × (n < total_ticks 3)
    × (j < 3)
    × (get_elem? (slice (offset_at 3 (tick_after 3 n)) 3 (units "Parser")) j ≡ some b'r')
scrolling_shows_example =
    scrolling_shows (units "Parser") 3 5 (omega arith) (omega arith) (omega arith)
