-- ===== src/Ui/App/Press.antt =====
-- src/ui/App.tsx: the keys of the board, which work while no modal is open.
use tukan.Prelude.{
  Bool, true, false, not, ◌&&◌, ◌||◌, Option, none, some, List, [], ◌∷◌, if◌then◌else◌, get_elem?,
}
use tukan.Text.{Text, units, ◌==◌, truthy?}
use tukan.Dict.{get}
use tukan.Board.{
  Card, BoardConfig, Cursor, Direction, left, right, col_unassigned, col_in_progress, col_done,
}
use tukan.Board.Derive.{BoardCard, BoardColumn}
use tukan.Board.Navigation.{
  MoveResult, move_left, move_right, move_up, move_down, card_at, target_col_idx, target_column,
  move_card,
}
use tukan.Tmux.Switch.{Mode, switch, resolve_switch_args}
use tukan.Ui.Keys.{Key}
use tukan.Ui.App.{
  Modal, create, quick_shell, settings, help, confirm_resolve, confirm_remove, confirm_start, edit,
  AppState, Env, run_tmux, begin_start, attach, exit, Outcome, columns_of, focus, saving, with_card,
  has_window,
}

abbrev pub show : Modal → AppState → Outcome
show modal s = some (record s { modal = some modal }, [])

abbrev pub nothing : AppState → Outcome
nothing s = some (s, [])

-- the card record that is made for an uncategorized window
abbrev pub window_card : Env → (column_id : Text) → BoardCard → Card
window_card env column_id bc = record {
  id = env.uuid;
  name = bc.name;
  description = [];
  acceptance_criteria = [];
  column_id = column_id;
  session_name = bc.session_name;
  dir = bc.working_dir;
  command = units "shell";
  custom_command = none;
  worktree = false;
  worktree_path = none;
  window_id = bc.window_id;
  created_at = env.now;
  started_at = some env.now;
  closed_at = none;
}

-- `findCard`
unfoldable pub find_card : BoardCard → AppState → Option Card
find_card bc s = if bc.uncategorized then none else get bc.card_id s.config.cards

-- `updateConfig(newConfig)`, and the cursor on a card of the new board
unfoldable pub update_and_focus : Env → BoardConfig → Text → AppState → Outcome
unfolding focus saving
update_and_focus env config card_id s =
    some (focus env card_id (record s { config = config }), saving env config s ∷ [])

abbrev pub begin : AppState → Option Card → Outcome
begin s none = nothing s
begin s (some card) = some (s, begin_start card ∷ [])

-- The key `s` at a card. A card that the board shows but does not hold gives none: the program would
-- then store an object with a column and no other field, which is no `Card`. (The columns are those of
-- the configuration here, and hold no such card on a well-formed board.)
unfoldable pub press_start : Env → BoardCard → AppState → Outcome
unfolding find_card update_and_focus
press_start env bc s =
    if not (has_window bc) && not bc.uncategorized
    then begin s (find_card bc s)
    else if bc.uncategorized
    then update_and_focus env (with_card env.uuid (window_card env col_in_progress bc) s.config)
        env.uuid s
    else elim (get bc.card_id s.config.cards) [
      | none ↦ none
      | some card ↦
          update_and_focus env
            (with_card bc.card_id (record card { column_id = col_in_progress }) s.config) bc.card_id
            s
    ]

abbrev pub follow : Mode → List Text → AppState → Outcome
follow switch args s = some (s, run_tmux args ∷ [])
follow _ args s = some (s, attach args ∷ exit ∷ [])

-- The return key at a card.
unfoldable pub press_return : Env → BoardCard → AppState → Outcome
press_return env bc s = elim (truthy? bc.window_id) [
  | none ↦ if bc.uncategorized then nothing s else show (confirm_start bc) s
  | some window_id ↦
      let result =
        resolve_switch_args (record { session_name = bc.session_name; window_id = window_id })
          s.tmux env.tmux_env in
      follow result.mode result.args s
]

abbrev pub has_worktree : Option Card → Bool
has_worktree none = false
has_worktree (some card) = card.worktree

abbrev pub moved_to : Env → AppState → Option MoveResult → Outcome
moved_to env s none = nothing s
moved_to env s (some result) =
    some
      (record s { config = result.config; cursor = result.cursor }, saving env result.config s ∷ [])

-- A move that asks first: into Done with a window or a worktree, or into In Progress without a
-- window. `target_id` is the id of the column beside.
abbrev pub asks_first : AppState → BoardCard → Text → Option Modal
asks_first s bc target_id =
    let worktree = has_worktree (get bc.card_id s.config.cards) in
    if target_id == col_done && (has_window bc || worktree)
    then some (confirm_resolve bc worktree false)
    else if not (has_window bc) && not bc.uncategorized && target_id == col_in_progress
    then some (confirm_start bc)
    else none

abbrev pub asks : AppState → Option BoardCard → Option BoardColumn → Option Modal
asks s (some bc) (some target) = asks_first s bc target.id
asks s _ _ = none

-- the column with an index in front of it
abbrev pub second : {A B : Type 0} → Option (A × B) → Option B
second none = none
second (some (a, b)) = some b

-- The keys `h` and `l`.
unfoldable pub press_move : Env → Direction → AppState → Outcome
unfolding saving columns_of
press_move env direction s =
    let columns = columns_of env s in
    let target = target_column columns (target_col_idx direction s.cursor.col) in
    elim (asks s (card_at columns s.cursor) (second target)) [
      | some modal ↦ show modal s
      | none ↦
          moved_to env s (move_card env.now (some env.uuid) s.config columns s.cursor direction)
    ]

-- The key `e` at a card.
unfoldable pub press_edit : Env → BoardCard → AppState → Outcome
unfolding saving
press_edit env bc s =
    if bc.uncategorized
    then (let config = with_card env.uuid (window_card env col_unassigned bc) s.config in
        some (
          record s {
            config = config;
            modal =
                some
                  (edit (record bc { card_id = env.uuid; uncategorized = false; started = true }));
          },
          saving env config s ∷ [],
        ))
    else show (edit bc) s

-- `columns[cursor.col]?.id`
abbrev pub column_id_at : List BoardColumn → Cursor → Option Text
column_id_at columns cursor = elim (get_elem? columns cursor.col) [
  | none ↦ none
  | some column ↦ some column.id
]

abbrev pub is_id : Option Text → Text → Bool
is_id none id = false
is_id (some a) id = a == id

-- The key `r` at a card.
unfoldable pub press_resolve : Env → BoardCard → AppState → Outcome
unfolding columns_of
press_resolve env bc s =
    if is_id (column_id_at (columns_of env s) s.cursor) col_done
    then show (confirm_remove bc) s
    else show (confirm_resolve bc (has_worktree (get bc.card_id s.config.cards)) false) s

abbrev pub at_cursor : Env → (Env → BoardCard → AppState → Outcome) → AppState → Outcome
at_cursor env act s = elim (card_at (columns_of env s) s.cursor) [
  | none ↦ nothing s
  | some bc ↦ act env bc s
]

abbrev pub cursor_to : Option Cursor → AppState → Outcome
cursor_to none s = none
cursor_to (some cursor) s = some (record s { cursor = cursor }, [])

-- The keys behind the arrows.
unfoldable pub press_letter : Env → Text → AppState → Outcome
unfolding press_move press_edit press_resolve columns_of
press_letter env input s =
    if input == units "h"
    then press_move env left s
    else if input == units "l"
    then press_move env right s
    else if input == units "e"
    then at_cursor env press_edit s
    else if input == units "r"
    then at_cursor env press_resolve s
    else nothing s

unfoldable pub press_arrow : Env → Key → AppState → Outcome
unfolding press_letter columns_of
press_arrow env key s =
    let columns = columns_of env s in
    if key.left_arrow
    then cursor_to (move_left s.cursor columns) s
    else if key.right_arrow
    then cursor_to (move_right s.cursor columns) s
    else if key.up_arrow
    then cursor_to (some (move_up s.cursor)) s
    else if key.down_arrow
    then cursor_to (move_down s.cursor columns) s
    else press_letter env key.input s

-- The handler of the board.
unfoldable pub press_board : Env → Key → AppState → Outcome
unfolding press_arrow press_start press_return columns_of
press_board env key s =
    if key.input == units "q"
    then some (s, exit ∷ [])
    else if key.input == units "n"
    then show create s
    else if key.input == units "C"
    then show quick_shell s
    else if key.input == units ","
    then show settings s
    else if key.input == units "?"
    then show help s
    else if key.input == units "s"
    then at_cursor env press_start s
    else if key.return
    then at_cursor env press_return s
    else press_arrow env key s
