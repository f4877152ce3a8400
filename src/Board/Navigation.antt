-- ===== src/Board/Navigation.antt =====
-- src/board/navigation.ts: the cursor, and moving a card to the next column.
pub mod Laws
pub mod Moving
use tukan.Prelude.{
  min, ℕ, ◌+◌, ◌-◌, false, Option, none, some, List, [], leb, nat_eq, if◌then◌else◌, or_else,
  length, get_elem?,
}
use tukan.Text.{Text, units}
use tukan.Dict.{get, set}
use tukan.Board.{Card, BoardConfig, Cursor, Direction, left, right}
use tukan.Board.Derive.{BoardCard, BoardColumn}

-- `columns[i].cards.length`, which throws where there is no such column: `none`
unfoldable pub cards_in : List BoardColumn → ℕ → Option ℕ
cards_in columns i = elim (get_elem? columns i) [
  | none ↦ none
  | some column ↦ some (length column.cards)
]

-- the cursor in another column, its row cut off at `Math.max(0, count - 1)`
abbrev pub at_column : Cursor → ℕ → ℕ → Cursor
at_column cursor new_col count = record cursor { col = new_col; row = min cursor.row (count - 1) }

-- A result `none` is a TypeError: the cursor is at no column.
unfoldable pub move_left : Cursor → List BoardColumn → Option Cursor
move_left cursor columns =
    if leb cursor.col 0 then some cursor else elim (cards_in columns (cursor.col - 1)) [
      | none ↦ none
      | some count ↦ some (at_column cursor (cursor.col - 1) count)
    ]

unfoldable pub move_right : Cursor → List BoardColumn → Option Cursor
move_right cursor columns =
    if leb (length columns) (cursor.col + 1)
    then some cursor
    else elim (cards_in columns (cursor.col + 1)) [
      | none ↦ none
      | some count ↦ some (at_column cursor (cursor.col + 1) count)
    ]

unfoldable pub move_up : Cursor → Cursor
move_up cursor = if leb cursor.row 0 then cursor else record cursor { row = cursor.row - 1 }

unfoldable pub move_down : Cursor → List BoardColumn → Option Cursor
move_down cursor columns = elim (cards_in columns cursor.col) [
  | none ↦ none
  | some count ↦
      if leb count (cursor.row + 1)
      then some cursor
      else some (record cursor { row = cursor.row + 1 })
]

pub record MoveResult : Type 0 where
  pub config : BoardConfig
  pub cursor : Cursor

-- `columns[cursor.col]?.cards[cursor.row]`
abbrev pub card_at : List BoardColumn → Cursor → Option BoardCard
card_at columns cursor = elim (get_elem? columns cursor.col) [
  | none ↦ none
  | some column ↦ get_elem? column.cards cursor.row
]

-- `targetColIdx`, if it is not negative
abbrev pub target_col_idx : Direction → ℕ → Option ℕ
target_col_idx left col = if nat_eq col 0 then none else some (col - 1)
target_col_idx right col = some (col + 1)

-- the target column with its index
abbrev pub target_column : List BoardColumn → Option ℕ → Option (ℕ × BoardColumn)
target_column columns none = none
target_column columns (some i) = elim (get_elem? columns i) [
  | none ↦ none
  | some column ↦ some (i, column)
]

abbrev pub card_of_window : (id : Text) (now : ℕ) → BoardCard → BoardColumn → Card
card_of_window id now card target = record {
  id = id;
  name = card.name;
  description = [];
  acceptance_criteria = [];
  column_id = target.id;
  session_name = card.session_name;
  dir = card.working_dir;
  command = units "shell";
  custom_command = none;
  worktree = false;
  worktree_path = none;
  window_id = card.window_id;
  created_at = now;
  started_at = none;
  closed_at = none;
}

-- `generated` is the result of `generateId`, if that is given.
unfoldable pub move_to :
    ℕ → Option Text → BoardConfig → Cursor → BoardCard → ℕ → BoardColumn → Option MoveResult
move_to now generated config cursor card i target =
    let new_cursor : Cursor = record cursor { col = i; row = length target.cards } in
    if card.uncategorized
    then (let id = or_else generated card.card_id in
        some (record {
          config = record config {
            cards = set id (card_of_window id now card target) config.cards;
          };
          cursor = new_cursor;
        }))
    else elim (get card.card_id config.cards) [
      | none ↦ none
      | some existing ↦ some (record {
        config = record config {
          cards = set card.card_id (record existing { column_id = target.id }) config.cards;
        };
        cursor = new_cursor;
      })
    ]

unfoldable pub move_card :
    ℕ → Option Text → BoardConfig → List BoardColumn → Cursor → Direction → Option MoveResult
unfolding move_to
move_card now generated config columns cursor direction = elim (card_at columns cursor) [
  | none ↦ none
  | some card ↦ elim (target_column columns (target_col_idx direction cursor.col)) [
    | none ↦ none
    | some (i, target) ↦ move_to now generated config cursor card i target
  ]
]
