-- ===== src/Board/Derive.antt =====
-- src/board/derive.ts, `deriveBoard`: the board that shows a configuration and the live windows.
pub mod Cards
pub mod Total
pub mod Once
pub mod Columns
unfoldable pub use Cards.*
use tukan.Prelude.{
  ℕ, ◌+◌, Bool, false, Option, none, some, List, [], ◌∷◌, ◌++◌, map, reverse, if◌then◌else◌,
  or_else, any,
}
use tukan.Text.{Text, ◌==◌, truthy?}
use tukan.Dict.{Dict, get, set, values}
use tukan.Tmux.{TmuxWindow, TmuxSession, TmuxServer}
use tukan.Board.{Card, BoardConfig, ColumnDef, col_unassigned}
use tukan.Board.Activity.{ActivityMap, contains, add}

-- `win.panes.some((p) => p.id === selfPaneId)`, if `selfPaneId` is set
abbrev pub is_own : Option Text → TmuxWindow → Bool
is_own none win = false
is_own (some pane_id) win = any (λ p. p.id == pane_id) win.panes

-- the loop that fills `windowToCard`
unfoldable pub window_to_card_from : Dict Card → List Card → Dict Card
window_to_card_from index [] = index
window_to_card_from index (card ∷ cards) =
    window_to_card_from
      (elim (truthy? card.window_id) [ none ↦ index | some window_id ↦ set window_id card index ])
      cards

-- `boardCards` and `seenCardIds`
pub record Shown : Type 0 where
  pub board_cards : List BoardCard
  pub seen : List Text

-- One clock reading stands for the readings that the loop makes.
module _ (now : ℕ) (activity_map : ActivityMap) (self_pane_id : Option Text)
    (index : Dict Card) where
  pub show_window : Text → Shown → TmuxWindow → Shown
  unfolding owned_card uncategorized_card add
  show_window session_name shown win =
      if is_own (truthy? self_pane_id) win then shown else elim (get win.id index) [
        | some card ↦ record {
          board_cards = shown.board_cards ++ owned_card now activity_map session_name win card ∷ [];
          seen = add card.id shown.seen;
        }
        | none ↦ record shown {
          board_cards =
              shown.board_cards ++ uncategorized_card now activity_map session_name win ∷ [];
        }
      ]

  pub show_windows : Text → Shown → List TmuxWindow → Shown
  unfolding show_window
  show_windows session_name shown [] = shown
  show_windows session_name shown (win ∷ windows) =
      show_windows session_name (show_window session_name shown win) windows

  pub show_sessions : Shown → List TmuxSession → Shown
  unfolding show_windows
  show_sessions shown [] = shown
  show_sessions shown (session ∷ sessions) =
      show_sessions (show_windows session.name shown session.windows) sessions

-- the loop over the cards that no window shows
pub show_idle : List Text → List BoardCard → List Card → List BoardCard
unfolding idle_card
show_idle seen board_cards [] = board_cards
show_idle seen board_cards (card ∷ cards) =
    show_idle seen
      (if contains card.id seen then board_cards else board_cards ++ idle_card card ∷ []) cards

abbrev pub card_index : BoardConfig → Dict Card
card_index config = window_to_card_from [] (values config.cards)

-- the value of `boardCards` in front of the distribution
unfoldable pub board_cards :
    TmuxServer → BoardConfig → Option Text → ActivityMap → ℕ → List BoardCard
unfolding show_sessions show_idle window_to_card_from
board_cards server config self_pane_id activity_map now =
    let nothing : Shown = record { board_cards = []; seen = [] } in
    let shown =
      show_sessions now activity_map self_pane_id (card_index config) nothing server.sessions in
    show_idle shown.seen shown.board_cards (values config.cards)

-- `config.columns[0]?.id`
abbrev pub default_column_id : List ColumnDef → Option Text
default_column_id [] = none
default_column_id (col ∷ columns) = some col.id

-- the value of `colId`, `undefined` where there is no column
unfoldable pub column_id_of : BoardConfig → BoardCard → Option Text
column_id_of config bc =
    if bc.uncategorized then some col_unassigned else elim (get bc.card_id config.cards) [
      | some card ↦ some card.column_id
      | none ↦ default_column_id config.columns
    ]

abbrev pub Buckets : Type 0
Buckets = Dict (List BoardCard)

unfoldable pub empty_buckets : Buckets → List ColumnDef → Buckets
empty_buckets buckets [] = buckets
empty_buckets buckets (col ∷ columns) = empty_buckets (set col.id [] buckets) columns

abbrev pub get_bucket : Option Text → Buckets → Option (List BoardCard)
get_bucket none buckets = none
get_bucket (some id) buckets = get id buckets

-- `columnMap.get(id)?.push(bc)`
pub push_to : Option Text → BoardCard → Buckets → Buckets
push_to none bc buckets = buckets
push_to (some id) bc buckets = elim (get id buckets) [
  | none ↦ buckets
  | some bucket ↦ set id (bucket ++ bc ∷ []) buckets
]

pub place : BoardConfig → Buckets → BoardCard → Buckets
unfolding column_id_of push_to
place config buckets bc = elim (get_bucket (column_id_of config bc) buckets) [
  | some bucket ↦ push_to (column_id_of config bc) bc buckets
  | none ↦ push_to (default_column_id config.columns) bc buckets
]

pub distribute : BoardConfig → Buckets → List BoardCard → Buckets
unfolding place
distribute config buckets [] = buckets
distribute config buckets (bc ∷ bcs) = distribute config (place config buckets bc) bcs

-- `.reverse()` turns the array of a bucket round in place: columns with the same id share one array,
-- which is turned once for each of them.
unfoldable pub reverse_buckets : Buckets → List ColumnDef → Buckets
reverse_buckets buckets [] = buckets
reverse_buckets buckets (col ∷ columns) =
    reverse_buckets (set col.id (reverse (or_else (get col.id buckets) [])) buckets) columns

abbrev pub derived_column : Buckets → ColumnDef → BoardColumn
derived_column buckets col = record {
  id = col.id;
  title = col.title;
  cards = or_else (get col.id buckets) [];
}

unfoldable pub derive_board :
    TmuxServer → BoardConfig → Option Text → ActivityMap → ℕ → List BoardColumn
unfolding board_cards distribute empty_buckets reverse_buckets
derive_board server config self_pane_id activity_map now =
    let buckets =
      distribute config (empty_buckets [] config.columns)
        (board_cards server config self_pane_id activity_map now) in
    map (derived_column (reverse_buckets buckets config.columns)) config.columns
