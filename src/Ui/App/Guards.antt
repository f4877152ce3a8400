-- ===== src/Ui/App/Guards.antt =====
-- The questions that the keys `h` and `l` ask.
use tukan.Prelude.{ℕ, ◌≡◌, ◌⊎◌, false, ◌||◌, ◌&&◌, Option, none, some, List, [], if◌then◌else◌}
use tukan.Text.{Text, ◌==◌}
use tukan.Dict.{get}
use tukan.Board.{Card, Direction, col_done}
use tukan.Board.Derive.{BoardCard, BoardColumn}
use tukan.Board.Navigation.{card_at, target_col_idx, target_column}
use tukan.Ui.App.{confirm_resolve, AppState, Env, Effect, columns_of, has_window}
use tukan.Ui.App.Press.{has_worktree}

-- The card under the cursor is this one, and neither a window nor a worktree is lost with it.
pub record IsLoose (env : Env) (s : AppState) (j : Text) (card : Card) : Type 0 where
  pub bc : BoardCard
  pub at_cursor : card_at (columns_of env s) s.cursor ≡ some bc
  pub id : bc.card_id ≡ j
  pub no_window : has_window bc ≡ false
  pub no_worktree : card.worktree ≡ false

-- a card that was in Done, or that may go there
abbrev pub IsFree : Env → AppState → Text → Card → Type 0
IsFree env s j card = (card.column_id ≡ col_done) ⊎ IsLoose env s j card

-- A card that a move would take to Done although it has a window or a worktree.
abbrev pub held : AppState → Option BoardCard → Option (ℕ × BoardColumn) → Option BoardCard
held s none target = none
held s (some bc) none = none
held s (some bc) (some (i, target)) =
    if target.id == col_done && (has_window bc || has_worktree (get bc.card_id s.config.cards))
    then some bc
    else none

-- The card under the cursor, if it is held back from the column beside.
abbrev pub held_back : Env → Direction → AppState → Option BoardCard
held_back env direction s =
    held s (card_at (columns_of env s) s.cursor)
      (target_column (columns_of env s) (target_col_idx direction s.cursor.col))

-- The question about such a card is all that comes of the key.
abbrev pub IsAsked : Option BoardCard → (s s' : AppState) → List Effect → Type 0
IsAsked none s s' effects = Unit
IsAsked (some bc) s s' effects =
    (s' ≡ record s {
      modal = some (confirm_resolve bc (has_worktree (get bc.card_id s.config.cards)) false);
    })
    × (effects ≡ [])
