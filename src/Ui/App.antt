-- ===== src/Ui/App.antt =====
-- src/ui/App.tsx: the state of the application, and what its handlers share.
pub mod Press
pub mod Handlers
pub mod Confirm
pub mod Step
pub mod Change
pub mod Landing
pub mod Guards
pub mod Race
use tukan.Prelude.{
  ℕ, suc, Bool, Option, none, some, List, [], ◌∷◌, if◌then◌else◌, or_else, find, is_some,
}
use tukan.Text.{Text, ◌==◌, truthy?, LowerCase}
use tukan.Dict.{set}
use tukan.Tmux.{TmuxSession, TmuxServer}
use tukan.Tmux.Create.{NodePath}
use tukan.Tmux.Start.{World}
use tukan.Board.{Card, BoardConfig, Cursor}
use tukan.Board.Activity.{ActivityMap, PaneHashMap}
use tukan.Board.Derive.{BoardCard, BoardColumn, derive_board}
use tukan.State.{SessionState}
use tukan.Ui.Poll.{state_to_save}

-- `null` is the absence of a modal.
pub data Modal : Type 0 where
  create quick_shell settings help : Modal
  confirm_resolve : BoardCard → (merge_worktree dirty_warning : Bool) → Modal
  confirm_remove confirm_start start_form edit : BoardCard → Modal

-- The state of `App`, with the references `configRef`, `activityRef`, `paneHashesRef` and `tmuxRef`
-- as they are after a rendering.
pub record AppState : Type 0 where
  pub config : BoardConfig
  pub cursor : Cursor
  pub tmux : TmuxServer
  pub modal : Option Modal
  pub activity : ActivityMap
  pub pane_hashes : PaneHashMap

-- The properties of `App`, and what the rest of the world answers while one event is handled: the
-- clock, one new id, the environment, git, tmux and the file system.
pub record Env : Type 0 where
  pub now : ℕ
  pub uuid : Text
  pub self_pane_id : Option Text
  pub tmux_env : Option Text
  pub server_name : Option Text
  pub session_name : Option Text
  pub working_dir : Text
  pub locale : LowerCase
  pub path : NodePath
  pub world : World

-- What a handler does besides changing the state. `begin_start` is a call of `startCard`, which goes
-- on when its commands have run, and `requery` is `getTmuxState().then(setTmux)`.
pub data Effect : Type 0 where
  save : SessionState → Effect
  run_tmux run_git : List Text → Effect
  begin_start : Card → Effect
  begin_resolve : BoardCard → Effect
  attach : List Text → Effect
  requery exit : Effect

-- A handler returns the state with its effects in order, or none if it throws.
abbrev pub Outcome : Type 0
Outcome = Option (AppState × List Effect)

-- the value of `columns`
unfoldable pub columns_of : Env → AppState → List BoardColumn
columns_of env s = derive_board s.tmux s.config env.self_pane_id s.activity env.now

-- the loops of `findCardCursor`, from a row and from a column
unfoldable pub find_row : ℕ → List BoardCard → Text → Option ℕ
find_row row [] card_id = none
find_row row (bc ∷ cards) card_id =
    if bc.card_id == card_id then some row else find_row (suc row) cards card_id

pub record Place : Type 0 where
  pub col : ℕ
  pub row : ℕ

unfoldable pub find_place : ℕ → List BoardColumn → Text → Option Place
unfolding find_row
find_place col [] card_id = none
find_place col (column ∷ columns) card_id = elim (find_row 0 column.cards card_id) [
  | some row ↦ some (record { col = col; row = row })
  | none ↦ find_place (suc col) columns card_id
]

unfoldable pub find_card_cursor : List BoardColumn → Text → Option Place
unfolding find_place
find_card_cursor columns card_id = find_place 0 columns card_id

-- `if (nc) setCursor((c) => ({ ...c, ...nc }))`
abbrev pub put_cursor : Option Place → Cursor → Cursor
put_cursor none cursor = cursor
put_cursor (some place) cursor = record cursor { col = place.col; row = place.row }

unfoldable pub focus : Env → Text → AppState → AppState
unfolding columns_of find_card_cursor
focus env card_id s = record s {
  cursor = put_cursor (find_card_cursor (columns_of env s) card_id) s.cursor;
}

-- `saveState`, with a configuration that is not yet that of the state
unfoldable pub saving : Env → BoardConfig → AppState → Effect
unfolding state_to_save
saving env config s = save (state_to_save env.working_dir s.activity s.pane_hashes config)

-- `{ ...cfg, cards: { ...cfg.cards, [id]: card } }`
abbrev pub with_card : Text → Card → BoardConfig → BoardConfig
with_card id card config = record config { cards = set id card config.cards }

abbrev pub has_window : BoardCard → Bool
has_window bc = is_some (truthy? bc.window_id)

abbrev pub name_of : Option TmuxSession → Option Text
name_of none = none
name_of (some session) = some session.name

abbrev pub first_session : List TmuxSession → Option TmuxSession
first_session [] = none
first_session (session ∷ sessions) = some session

abbrev pub or_option : Option Text → Option Text → Option Text
or_option none o = o
or_option (some a) o = some a

-- `currentSessionName`
unfoldable pub current_session_name : Env → AppState → Text
current_session_name env s =
    or_else
      (or_option env.session_name (
        or_option (name_of (find (λ (t : TmuxSession). t.attached) s.tmux.sessions))
          (or_option (name_of (first_session s.tmux.sessions)) env.server_name)))
      []
