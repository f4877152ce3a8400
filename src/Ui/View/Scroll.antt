-- ===== src/Ui/View/Scroll.antt =====
-- src/ui/Board.tsx and Column.tsx: which columns and which cards of a column are shown.
pub mod Columns
pub mod Rows
use tukan.Prelude.{
  ℕ, ◌+◌, ◌-◌, ◌/◌, Bool, false, Option, none, some, List, ltb, leb, nat_eq, min, if◌then◌else◌,
  or_else, length, take, drop,
}
use tukan.Board.{Cursor}
use tukan.Board.Derive.{BoardCard, BoardColumn, ℤ, pos, negsuc}

abbrev pub max_visible : ℕ
max_visible = 4

abbrev pub min_col_width : ℕ
min_col_width = 32

abbrev pub max : ℕ → ℕ → ℕ
max a b = if leb a b then b else a

-- `visible`, of a number of columns and a width
unfoldable pub visible_count : (total width : ℕ) → ℕ
visible_count total width = min (min total max_visible) (max 1 (width / min_col_width))

-- the two tests that shift the window to the cursor
abbrev shift_right : (col visible offset : ℕ) → ℕ
shift_right col visible offset = if leb (offset + visible) col then col - visible + 1 else offset

abbrev shift_left : (col offset : ℕ) → ℕ
shift_left col offset = if ltb col offset then col else offset

-- `scrollOffset`; `colScroll` is never negative, since it is what an earlier rendering computed
unfoldable pub scroll_offset : (total visible : ℕ) → Cursor → ℕ
scroll_offset total visible cursor =
    if ltb visible total
    then shift_left cursor.col
        (shift_right cursor.col visible (min (or_else cursor.col_scroll 0) (total - visible)))
    else 0

-- `xs.slice(from, from + count)`
abbrev pub slice : {A : Type 0} → ℕ → ℕ → List A → List A
slice from count xs = take count (drop from xs)

pub record BoardView : Type 0 where
  pub offset : ℕ
  pub has_left : Bool
  pub has_right : Bool
  pub columns : List BoardColumn

abbrev pub board_window : List BoardColumn → (visible offset : ℕ) → BoardView
board_window columns visible offset = record {
  offset = offset;
  has_left = ltb 0 offset;
  has_right = ltb (offset + visible) (length columns);
  columns = slice offset visible columns;
}

unfoldable pub view_board : List BoardColumn → Cursor → (width : ℕ) → BoardView
view_board columns cursor width =
    let visible = visible_count (length columns) width in
    board_window columns visible (scroll_offset (length columns) visible cursor)

abbrev pub indicator_width : ℕ
indicator_width = 3

-- `usedByIndicators`
unfoldable pub used_by_indicators : BoardView → ℕ
used_by_indicators view =
    (if view.has_left then indicator_width else 0) + (if view.has_right then indicator_width else 0)

-- `colWidth`, by the floor of a quotient that may be negative; none is a division by 0
unfoldable pub col_width : BoardView → (visible width : ℕ) → Option ℤ
unfolding used_by_indicators
col_width view visible width =
    let used = used_by_indicators view in
    if nat_eq visible 0
    then none
    else if leb used width
    then some (pos ((width - used) / visible))
    else some (negsuc ((used - width - 1) / visible))

-- what `handleScrollChange` makes of the cursor, if the window has moved
unfoldable pub sync_scroll : BoardView → Cursor → Cursor
sync_scroll view cursor =
    if nat_eq view.offset (or_else cursor.col_scroll 0)
    then cursor
    else record cursor { col_scroll = some view.offset }

abbrev pub card_height : ℕ
card_height = 5

abbrev pub column_chrome : ℕ
column_chrome = 3

-- `Math.max(1, Math.floor(lines / CARD_HEIGHT))`; a negative number of lines gives 1 as well
unfoldable pub fitting : ℕ → ℕ
fitting lines = max 1 (lines / card_height)

pub record ColumnView : Type 0 where
  pub max_visible : ℕ
  pub offset : ℕ
  pub has_above : Bool
  pub has_below : Bool
  pub cards : List BoardCard

-- `maxVisible`, with two lines reserved for the indicators of a column that scrolls
unfoldable pub visible_cards : (total height : ℕ) → ℕ
unfolding fitting
visible_cards total height =
    let available = height - column_chrome in
    if ltb (fitting available) total then fitting (available - 2) else fitting available

-- `scrollOffset` of a column that scrolls
unfoldable pub row_offset : (total visible selected_row : ℕ) → ℕ
row_offset total visible selected_row = min (selected_row - visible / 2) (total - visible)

-- a column that scrolls to an offset
abbrev pub column_window : List BoardCard → (visible offset : ℕ) → ColumnView
column_window cards visible offset = record {
  max_visible = visible;
  offset = offset;
  has_above = ltb 0 offset;
  has_below = ltb (offset + visible) (length cards);
  cards = slice offset visible cards;
}

-- a column that shows all its cards
abbrev pub whole_column : List BoardCard → (visible : ℕ) → ColumnView
whole_column cards visible = record {
  max_visible = visible;
  offset = 0;
  has_above = false;
  has_below = ltb visible (length cards);
  cards = cards;
}

unfoldable pub view_column : List BoardCard → Bool → (selected_row height : ℕ) → ColumnView
view_column cards focused selected_row height =
    let visible = visible_cards (length cards) height in
    if ltb (fitting (height - column_chrome)) (length cards)
    then column_window cards visible
        (if focused then row_offset (length cards) visible selected_row else 0)
    else whole_column cards visible
