-- ===== src/Ui/App/Change/Press.antt =====
-- What the keys of the board do to the configuration.
use tukan.Prelude.{
  ◌≡◌, refl, sym, ap, or_else, inl, inr, not, ◌&&◌, Option, none, some, List, [], ◌∷◌, Option-cases,
}
use tukan.Text.{Text, units, ◌==◌, truthy?}
use tukan.Dict.{get}
use tukan.Board.{
  Card, BoardConfig, Cursor, Direction, left, right, col_unassigned, col_in_progress, col_done,
}
use tukan.Board.CardOps.Laws.{IsWellFormed}
use tukan.Board.Derive.{BoardCard, BoardColumn}
use tukan.Board.Navigation.{
  MoveResult, card_at, target_col_idx, target_column, card_of_window, move_card,
}
use tukan.Board.Navigation.Moving.{move_to-cases, move_card-Move, to_column}
use tukan.Tmux.Switch.{Mode}
use tukan.Ui.Poll.{state_to_save}
use tukan.Ui.Keys.{Key}
use tukan.Ui.App.{
  confirm_start, edit, AppState, Env, Effect, Outcome, columns_of, saving, with_card, has_window,
}
use tukan.Ui.App.Press.{
  window_card, update_and_focus, find_card, press_start, press_return, press_move, moved_to,
  press_edit, press_resolve, press_letter, press_arrow, press_board, cursor_to, begin, follow,
  at_cursor, asks, second, is_id, column_id_at,
}
use tukan.Ui.App.Change.Outcomes.{
  Change, same, wrote, IsSaved, Gives, Gives-some, Gives-none, Gives-if, own_id,
}

module _ (env : Env) (s : AppState) (ok : IsWellFormed s.config) where
  abbrev pub Changes : AppState → List Effect → Type 0
  Changes s' effects = Change s.config s'.config effects

  abbrev pub Ok : Outcome → Type 0
  Ok o = Gives Changes o

  unchanged :
      (s' : AppState) (effects : List Effect) → s'.config ≡ s.config → Ok (some (s', effects))
  unchanged s' effects e = Gives-some Changes s' effects (same e)

  saved : (config : BoardConfig) → IsSaved config (saving env config s ∷ [])
  unfolding saving state_to_save
  saved config = record {
    session = state_to_save env.working_dir s.activity s.pane_hashes config;
    board = refl;
    among = inl refl;
  }

  update_and_focus-Ok :
      (id : Text) (card : Card)
      → card.id ≡ id
      → Ok (update_and_focus env (with_card id card s.config) id s)
  unfolding update_and_focus
  update_and_focus-Ok id card e =
      Gives-some Changes _ _ (wrote id card e refl (inl (saved (with_card id card s.config))))

  press_start-Ok : (bc : BoardCard) → Ok (press_start env bc s)
  unfolding press_start
  press_start-Ok bc =
      Gives-if Changes (not (has_window bc) && not bc.uncategorized) (begun (find_card bc s)) (
        Gives-if Changes bc.uncategorized
          (update_and_focus-Ok env.uuid (window_card env col_in_progress bc) refl) stored)
    where
      begun : (o : Option Card) → Ok (begin s o)
      begun none = unchanged s [] refl
      begun (some card) = unchanged s _ refl

      stored : Ok (elim (get bc.card_id s.config.cards) [
        | none ↦ none
        | some card ↦
            update_and_focus env
              (with_card bc.card_id (record card { column_id = col_in_progress }) s.config)
              bc.card_id
              s
      ])
      stored = elim (Option-cases (get bc.card_id s.config.cards)) [
        | inl missing ↦ rw missing (Gives-none Changes)
        | inr (card, there) ↦ rw there (
            update_and_focus-Ok bc.card_id (record card { column_id = col_in_progress })
              (own_id s.config bc.card_id card ok there))
      ]

  follow-Ok : (mode : Mode) (args : List Text) → Ok (follow mode args s)
  follow-Ok Mode.switch args = unchanged s _ refl
  follow-Ok Mode.attach args = unchanged s _ refl

  press_return-Ok : (bc : BoardCard) → Ok (press_return env bc s)
  unfolding press_return
  press_return-Ok bc = elim (Option-cases (truthy? bc.window_id)) [
    | inl closed ↦
        rw (closed, press_return)
          (Gives-if Changes bc.uncategorized (unchanged s [] refl)
            (unchanged (record s { modal = some (confirm_start bc) }) [] refl))
    | inr (window_id, open_one) ↦ rw (open_one, press_return) (follow-Ok _ _)
  ]

  moved_to-Ok :
      (generated : Option Text) (columns : List BoardColumn) (cursor : Cursor)
      (direction : Direction)
      → Ok (moved_to env s (move_card env.now generated s.config columns cursor direction))
  moved_to-Ok generated columns cursor direction =
      let result = move_card env.now generated s.config columns cursor direction in
      elim (Option-cases result) [
        | inl stays ↦ rw stays (unchanged s [] refl)
        | inr (r, made) ↦ rw made (
            Gives-some Changes (record s { config = r.config; cursor = r.cursor }) _ (moves r made))
      ]
    where
      moves :
          (r : MoveResult)
          → move_card env.now generated s.config columns cursor direction ≡ some r
          → Change s.config r.config (saving env r.config s ∷ [])
      moves r made =
          let (m, e) = move_card-Move env.now generated s.config columns cursor direction r made in
          elim (move_to-cases env.now generated s.config cursor m.card m.i m.target r e) [
            | inl (window, is) ↦
                wrote (or_else generated m.card.card_id)
                  (card_of_window (or_else generated m.card.card_id) env.now m.card m.target) refl
                  (ap (λ (x : MoveResult). x.config) (sym is)) (inl (saved r.config))
            | inr (existing, owned, stored, is) ↦
                wrote m.card.card_id (to_column m.target existing)
                  (own_id s.config m.card.card_id existing ok stored)
                  (ap (λ (x : MoveResult). x.config) (sym is)) (inl (saved r.config))
          ]

  press_move-Ok : (direction : Direction) → Ok (press_move env direction s)
  unfolding press_move
  press_move-Ok direction =
      let columns = columns_of env s in
      let target = target_column columns (target_col_idx direction s.cursor.col) in
      elim (Option-cases (asks s (card_at columns s.cursor) (second target))) [
        | inl free ↦ rw (free, press_move) (moved_to-Ok (some env.uuid) columns s.cursor direction)
        | inr (modal, asked) ↦
            rw (asked, press_move) (unchanged (record s { modal = some modal }) [] refl)
      ]

  press_edit-Ok : (bc : BoardCard) → Ok (press_edit env bc s)
  unfolding press_edit
  press_edit-Ok bc =
      let config = with_card env.uuid (window_card env col_unassigned bc) s.config in
      Gives-if Changes bc.uncategorized
        (Gives-some Changes _ _
          (wrote env.uuid (window_card env col_unassigned bc) refl refl (inl (saved config))))
        (unchanged (record s { modal = some (edit bc) }) [] refl)

  press_resolve-Ok : (bc : BoardCard) → Ok (press_resolve env bc s)
  unfolding press_resolve
  press_resolve-Ok bc =
      Gives-if Changes (is_id (column_id_at (columns_of env s) s.cursor) col_done)
        (unchanged _ [] refl) (unchanged _ [] refl)

  at_cursor-Ok :
      (act : Env → BoardCard → AppState → Outcome)
      → ((bc : BoardCard) → Ok (act env bc s))
      → Ok (at_cursor env act s)
  at_cursor-Ok act h = elim (Option-cases (card_at (columns_of env s) s.cursor)) [
    | inl empty ↦ rw (empty, at_cursor) (unchanged s [] refl)
    | inr (bc, here) ↦ rw (here, at_cursor) (h bc)
  ]

  cursor_to-Ok : (cursor : Option Cursor) → Ok (cursor_to cursor s)
  cursor_to-Ok none = Gives-none Changes
  cursor_to-Ok (some cursor) = unchanged (record s { cursor = cursor }) [] refl

  press_letter-Ok : (input : Text) → Ok (press_letter env input s)
  unfolding press_letter
  press_letter-Ok input = Gives-if Changes (input == units "h") (press_move-Ok left) (
      Gives-if Changes (input == units "l") (press_move-Ok right) (
        Gives-if Changes (input == units "e") (at_cursor-Ok press_edit press_edit-Ok) (
          Gives-if Changes (input == units "r") (at_cursor-Ok press_resolve press_resolve-Ok)
            (unchanged s [] refl))))

  press_arrow-Ok : (key : Key) → Ok (press_arrow env key s)
  unfolding press_arrow
  press_arrow-Ok key = Gives-if Changes key.left_arrow (cursor_to-Ok _) (
      Gives-if Changes key.right_arrow (cursor_to-Ok _) (
        Gives-if Changes key.up_arrow (unchanged _ [] refl)
          (Gives-if Changes key.down_arrow (cursor_to-Ok _) (press_letter-Ok key.input))))

  pub press_board-Ok : (key : Key) → Ok (press_board env key s)
  unfolding press_board
  press_board-Ok key = Gives-if Changes (key.input == units "q") (unchanged s _ refl) (
      Gives-if Changes (key.input == units "n") (unchanged _ [] refl) (
        Gives-if Changes (key.input == units "C") (unchanged _ [] refl) (
          Gives-if Changes (key.input == units ",") (unchanged _ [] refl) (
            Gives-if Changes (key.input == units "?") (unchanged _ [] refl) (
              Gives-if Changes (key.input == units "s") (at_cursor-Ok press_start press_start-Ok) (
                Gives-if Changes key.return (at_cursor-Ok press_return press_return-Ok)
                  (press_arrow-Ok key)))))))
